-- ===== src/Base/Lists.antt =====
-- Lists: measures in native numbers, predicates on all elements, and the searches that Python
-- writes as `next(...)`, `any(...)` and comprehensions with a condition.
use Prim.Native.Nat.{ℕ, suc, ◌+◌}
use mathlib.Core.Path.{◌≡◌, refl, ap, sym, ◌∙◌}
use mathlib.Core.Bool.{Bool, true, false, ◌||◌}
use mathlib.Core.Option.{Option, none, some}
use mathlib.Core.List.{List, [], ◌∷◌, ◌++◌}
use native.Mathlib.Omega.{arith}
use qf635project.Base.Tests.{if◌then◌else◌}

module _ {ℓ} {A : Type ℓ} where
  abbrev pub length : List A → ℕ
  length [] = 0
  length (x ∷ xs) = suc (length xs)

  abbrev pub All {κ} : (A → Type κ) → List A → Type κ
  All P [] = Unit
  All P (x ∷ xs) = P x × All P xs

  -- `[x for x in xs if p(x)]`
  abbrev pub keep : (A → Bool) → List A → List A
  keep p [] = []
  keep p (x ∷ xs) = if p x then x ∷ keep p xs else keep p xs

  -- `any(p(x) for x in xs)`
  abbrev pub any : (A → Bool) → List A → Bool
  any p [] = false
  any p (x ∷ xs) = p x || any p xs

  -- `next((x for x in xs if p(x)), None)`
  abbrev pub find : (A → Bool) → List A → Option A
  find p [] = none
  find p (x ∷ xs) = if p x then some x else find p xs

module _ {ℓ} {A : Type ℓ} where
  pub append_nil : (xs : List A) → xs ++ [] ≡ xs
  append_nil [] = refl
  append_nil (x ∷ xs) = ap (λ (l : List A). x ∷ l) (append_nil xs)

  pub append_assoc : (xs ys zs : List A) → (xs ++ ys) ++ zs ≡ xs ++ (ys ++ zs)
  append_assoc [] ys zs = refl
  append_assoc (x ∷ xs) ys zs = ap (λ (l : List A). x ∷ l) (append_assoc xs ys zs)

  pub length-append : (xs ys : List A) → length (xs ++ ys) ≡ length xs + length ys
  length-append [] ys = omega arith
  length-append (x ∷ xs) ys = omega (arith, length-append xs ys)

  pub All-append {κ} : (P : A → Type κ) (xs ys : List A) → All P xs → All P ys → All P (xs ++ ys)
  All-append P [] ys hx hy = hy
  All-append P (x ∷ xs) ys hx hy = (hx.0, All-append P xs ys hx.1 hy)

  pub All-map {κ μ} :
      (P : A → Type κ) (Q : A → Type μ)
      → ((x : A) → P x → Q x)
      → (xs : List A) → All P xs
      → All Q xs
  All-map P Q f [] h = tt
  All-map P Q f (x ∷ xs) h = (f x h.0, All-map P Q f xs h.1)

  pub All-keep {κ} : (P : A → Type κ) (p : A → Bool) (xs : List A) → All P xs → All P (keep p xs)
  All-keep P p [] h = tt
  All-keep P p (x ∷ xs) h = ground (arith, All-keep P p xs h.1)

  -- What `find` returns passes the test, and every element passes over the predicate `P` if all do.
  pub find_sound : (p : A → Bool) (xs : List A) (x : A) → find p xs ≡ some x → p x ≡ true
  find_sound p [] x h = cc
  find_sound p (y ∷ xs) x h = ground (arith, find_sound p xs x)

  pub find-All {κ} :
      (P : A → Type κ) (p : A → Bool) (xs : List A) (x : A) → All P xs → find p xs ≡ some x → P x
  find-All P p [] x h e = cc
  find-All P p (y ∷ xs) x h e = ground (arith, find-All P p xs x h.1)

  -- The second list is the first with more behind it, all of which satisfies `P`.
  abbrev pub Extends {κ} : (A → Type κ) → List A → List A → Type (ℓ ⊔ κ)
  Extends P xs ys = (zs : List A) × (ys ≡ xs ++ zs) × All P zs

  pub Extends-refl {κ} : (P : A → Type κ) (xs : List A) → Extends P xs xs
  Extends-refl P xs = ([], sym (append_nil xs), tt)

  pub Extends-trans {κ} :
      (P : A → Type κ) (xs ys zs : List A) → Extends P xs ys → Extends P ys zs → Extends P xs zs
  Extends-trans P xs ys zs (us, pu, hu) (vs, pv, hv) = (
    us ++ vs,
    pv ∙ ap (λ (l : List A). l ++ vs) pu ∙ append_assoc xs us vs,
    All-append P us vs hu hv,
  )

  pub find-none : (p : A → Bool) (xs : List A) → find p xs ≡ none → any p xs ≡ false
  find-none p [] h = refl
  find-none p (x ∷ xs) h = ground (arith, h, find-none p xs)

  pub any-append : (p : A → Bool) (xs ys : List A) → any p (xs ++ ys) ≡ (any p xs || any p ys)
  any-append p [] ys = refl
  any-append p (x ∷ xs) ys = ground (arith, any-append p xs ys)
