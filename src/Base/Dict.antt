-- ===== src/Base/Dict.antt =====
-- A Python dict in insertion order, over keys that an instance compares.
use Prim.Native.Nat.{ℕ}
use mathlib.Core.Path.{◌≡◌, refl}
use mathlib.Core.Logic.{◌↔◌}
use mathlib.Core.Bool.{Bool, true, false, ◌&&◌}
use mathlib.Core.Option.{Option, none, some}
use mathlib.Core.List.{List, [], ◌∷◌}
use native.Mathlib.Omega.{arith}
use qf635project.Base.Tests.{◌==◌, if◌then◌else◌}

pub record Eq (A : Type 0) : Type 0 where
  pub beq : A → A → Bool
  pub beq_iff : (a b : A) → (beq a b ≡ true) ↔ (a ≡ b)

pub ==_iff : (a b : ℕ) → ((a == b) ≡ true) ↔ (a ≡ b)
==_iff a b = ground arith

instance abbrev pub number_eq : Eq ℕ
number_eq = record { beq = ◌==◌; beq_iff = ==_iff }

abbrev pub pair_beq : ℕ × ℕ → ℕ × ℕ → Bool
pair_beq (a, b) (c, d) = a == c && b == d

pub pair_beq_iff : (p q : ℕ × ℕ) → (pair_beq p q ≡ true) ↔ (p ≡ q)
pair_beq_iff (a, b) (c, d) = ground arith

instance abbrev pub pair_eq : Eq (ℕ × ℕ)
pair_eq = record { beq = pair_beq; beq_iff = pair_beq_iff }

-- `==` of two texts, which are lists of code points.
abbrev pub text_beq : List ℕ → List ℕ → Bool
text_beq [] [] = true
text_beq [] (_ ∷ _) = false
text_beq (_ ∷ _) [] = false
text_beq (a ∷ s) (b ∷ t) = a == b && text_beq s t

pub text_beq_iff : (s t : List ℕ) → (text_beq s t ≡ true) ↔ (s ≡ t)
text_beq_iff [] [] = ((λ h. refl), (λ h. refl))
text_beq_iff [] (b ∷ t) = ((λ h. cc), (λ h. cc))
text_beq_iff (a ∷ s) [] = ((λ h. cc), (λ h. cc))
text_beq_iff (a ∷ s) (b ∷ t) = ground (arith, text_beq_iff s t)

instance abbrev pub text_eq : Eq (List ℕ)
text_eq = record { beq = text_beq; beq_iff = text_beq_iff }

abbrev pub Dict : Type 0 → Type 0 → Type 0
Dict K V = List (K × V)

module _ {K V : Type 0} ⦃e : Eq K⦄ where
  -- `d.get(k)`
  abbrev pub lookup : K → Dict K V → Option V
  lookup k [] = none
  lookup k ((j, v) ∷ d) = if e.beq k j then some v else lookup k d

  -- `d[k] = v`
  abbrev pub insert : K → V → Dict K V → Dict K V
  insert k v [] = (k, v) ∷ []
  insert k v ((j, w) ∷ d) = if e.beq k j then (j, v) ∷ d else (j, w) ∷ insert k v d

  -- `d.pop(k, None)`
  abbrev pub erase : K → Dict K V → Dict K V
  erase k [] = []
  erase k ((j, w) ∷ d) = if e.beq k j then d else (j, w) ∷ erase k d

  -- `d.get(k, default)`
  abbrev pub lookup_or : K → V → Dict K V → V
  lookup_or k v d = elim (lookup k d) [ none ↦ v | some w ↦ w ]

  -- A change of every value, the keys kept.
  abbrev pub map_values : (V → V) → Dict K V → Dict K V
  map_values f [] = []
  map_values f ((j, w) ∷ d) = (j, f w) ∷ map_values f d

  pub lookup-insert_self : (k : K) (v : V) (d : Dict K V) → lookup k (insert k v d) ≡ some v
  lookup-insert_self k v [] = ground (arith, e.beq_iff k k)
  lookup-insert_self k v ((j, w) ∷ d) = ground (arith, e.beq_iff k j, lookup-insert_self k v d)

  pub lookup-insert_ne :
      (i k : K) (v : V) (d : Dict K V) → e.beq i k ≡ false → lookup i (insert k v d) ≡ lookup i d
  lookup-insert_ne i k v [] h = ground arith
  lookup-insert_ne i k v ((j, w) ∷ d) h =
      ground (arith, e.beq_iff k j, e.beq_iff i j, e.beq_iff i k, lookup-insert_ne i k v d h)

  pub lookup-erase_ne :
      (i k : K) (d : Dict K V) → e.beq i k ≡ false → lookup i (erase k d) ≡ lookup i d
  lookup-erase_ne i k [] h = refl
  lookup-erase_ne i k ((j, w) ∷ d) h =
      ground (arith, e.beq_iff k j, e.beq_iff i j, e.beq_iff i k, lookup-erase_ne i k d h)

  pub lookup-map_values :
      (f : V → V) (k : K) (d : Dict K V)
      → lookup k (map_values f d) ≡ (elim (lookup k d) [ none ↦ none | some v ↦ some (f v) ])
  lookup-map_values f k [] = refl
  lookup-map_values f k ((j, w) ∷ d) = ground (arith, lookup-map_values f k d)

  pub lookup-insert :
      (i k : K) (v : V) (d : Dict K V)
      → lookup i (insert k v d) ≡ (if e.beq i k then some v else lookup i d)
  lookup-insert i k v [] = refl
  lookup-insert i k v ((j, w) ∷ d) =
      ground (arith, e.beq_iff k j, e.beq_iff i j, e.beq_iff i k, lookup-insert i k v d)

  pub lookup_or-insert :
      (i k : K) (u v : V) (d : Dict K V)
      → lookup_or i u (insert k v d) ≡ (if e.beq i k then v else lookup_or i u d)
  lookup_or-insert i k u v d = ground (arith, lookup-insert i k v d)

  pub lookup_or-map_values :
      (f : V → V) (k : K) (u : V) (d : Dict K V)
      → f u ≡ u
      → lookup_or k u (map_values f d) ≡ f (lookup_or k u d)
  lookup_or-map_values f k u d h = ground (arith, h, lookup-map_values f k d)
