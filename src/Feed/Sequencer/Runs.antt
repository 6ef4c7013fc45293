-- ===== src/Feed/Sequencer/Runs.antt =====
-- feed_handler/sequencer.py: what a stream of numbers that is observed to its end looks like.
use qf635project.Base.{
  ℕ, suc, ◌+◌, ◌-◌, ◌≡◌, refl, sym, ◌∙◌, true, Option, none, some, List, [], ◌∷◌, ◌⊎◌, ◌&&◌, ltb,
  leb, Option-cases, Bool-cases, inl, inr, arith,
}
use qf635project.Feed.Sequencer.{Sequencer, observe_after, observe}

-- The sum of the gaps of a stream, if every number is taken.
unfoldable pub observe_all : List ℕ → Sequencer → Option ℕ
observe_all [] s = some 0
observe_all (seq ∷ seqs) s = elim (observe seq s) [
  | none ↦ none
  | some (gap, s') ↦ elim (observe_all seqs s') [ none ↦ none | some total ↦ some (gap + total) ]
]

-- The numbers from `last` on, each one more than the one before.
abbrev pub Consecutive : ℕ → List ℕ → Type 0
Consecutive last [] = Unit {0}
Consecutive last (seq ∷ seqs) = (seq ≡ suc last) × Consecutive seq seqs

step_cases :
    (last seq : ℕ) (s : Sequencer)
    → s.strict ≡ true
    → (observe_after last seq s ≡ none)
      ⊎ ((seq ≡ suc last) × (observe_after last seq s ≡ some (0, record s { last = some seq })))
unfolding observe_after
step_cases last seq s strict = elim (Bool-cases (leb seq last)) [
  | inl old ↦ inl (rw old refl)
  | inr new ↦ elim (Bool-cases (ltb 0 (seq - last - 1) && s.strict)) [
    | inl gap ↦ inl (rw (new, gap) refl)
    | inr none_between ↦
        let next : seq ≡ suc last = ground (arith, new, none_between, strict) in
        let empty : seq - last - 1 ≡ 0 = omega (arith, next) in
        inr (next, rw (new, none_between, empty) refl)
  ]
]

abbrev pub after : ℕ → Sequencer
after last = record { last = some last; strict = true }

differ : (total : ℕ) → none ≡ some total → ⊥
differ total h = cc

observe_all-nil : (last : ℕ) → observe_all [] (after last) ≡ some 0
unfolding observe_all
observe_all-nil last = refl

observe_all-refused :
    (last seq : ℕ) (seqs : List ℕ)
    → observe_after last seq (after last) ≡ none
    → observe_all (seq ∷ seqs) (after last) ≡ none
unfolding observe_all observe
observe_all-refused last seq seqs h = rw (h, observe_all) refl

observe_all-taken :
    (last seq total : ℕ) (seqs : List ℕ)
    → observe_after last seq (after last) ≡ some (0, after seq)
    → observe_all (seq ∷ seqs) (after last) ≡ some total
    → observe_all seqs (after seq) ≡ some total
unfolding observe_all observe
observe_all-taken last seq total seqs h k = elim (Option-cases (observe_all seqs (after seq))) [
  | inl stuck ↦
      let refused : observe_all (seq ∷ seqs) (after last) ≡ none =
        rw (h, stuck, observe_all) refl in
      absurd (differ total (sym refused ∙ k))
  | inr (t, done) ↦
      let whole : observe_all (seq ∷ seqs) (after last) ≡ some t =
        rw (h, done, observe_all) (ground arith) in
      done ∙ sym whole ∙ k
]

-- A strict sequencer takes a whole stream only if each number is one more than the one before, and the
-- gaps that it reports are none then.
pub observe_all-Consecutive :
    (seqs : List ℕ) (last total : ℕ)
    → observe_all seqs (after last) ≡ some total
    → Consecutive last seqs × (total ≡ 0)
observe_all-Consecutive [] last total h = (tt, ground (arith, observe_all-nil last, h))
observe_all-Consecutive (seq ∷ seqs) last total h = elim (step_cases last seq (after last) refl) [
  | inl refused ↦ absurd (differ total (sym (observe_all-refused last seq seqs refused) ∙ h))
  | inr (next, taken) ↦
      let (rest, gaps) =
        observe_all-Consecutive seqs seq total (observe_all-taken last seq total seqs taken h) in
      ((next, rest), gaps)
]
