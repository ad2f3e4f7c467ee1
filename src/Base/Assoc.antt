-- ===== src/Base/Assoc.antt =====
-- Go's maps as association lists, over keys with a test of equality.
use mathlib.Core.Path.{◌≡◌, refl, sym, ◌∙◌}
use mathlib.Core.Logic.{◌↔◌}
use mathlib.Core.Bool.{Bool, true, false, false≢true}
use mathlib.Core.Option.{Option, none, some}
use mathlib.Core.List.{List, [], ◌∷◌}
use native.Mathlib.Omega.{arith}
use arkiv_storage_service.Base.Tests.{if◌then◌else◌, Bool-cases}
use mathlib.Core.Logic.{inl, inr}

pub record Eq {ℓ} (A : Type ℓ) : Type ℓ where
  pub same : A → A → Bool
  pub same_iff : (a b : A) → (same a b ≡ true) ↔ (a ≡ b)

module _ {ℓ} {K : Type ℓ} (E : Eq K) where
  pub same_refl : (k : K) → E.same k k ≡ true
  same_refl k = (E.same_iff k k).1 refl

  pub same_trans : (i j k : K) → E.same i j ≡ true → E.same i k ≡ E.same j k
  same_trans i j k h = rw ((E.same_iff i j).0 h)

  same_back : (k i j : K) → E.same i k ≡ false → E.same i j ≡ true → E.same k j ≡ false
  same_back k i j h e = elim (Bool-cases (E.same k j)) [
    | inl e'' ↦ absurd (
        false≢true
          (sym h ∙ (E.same_iff i k).1 ((E.same_iff i j).0 e ∙ sym ((E.same_iff k j).0 e''))))
    | inr e'' ↦ e''
  ]

module _ {ℓ κ} {K : Type ℓ} {V : Type κ} (E : Eq K) where
  unfoldable pub lookup : K → List (K × V) → Option V
  lookup k [] = none
  lookup k ((j, v) ∷ m) = if E.same j k then some v else lookup k m

  unfoldable pub without : K → List (K × V) → List (K × V)
  without k [] = []
  without k ((j, v) ∷ m) = if E.same j k then without k m else (j, v) ∷ without k m

  unfoldable pub insert : K → V → List (K × V) → List (K × V)
  insert k v m = (k, v) ∷ without k m

  pub lookup-without :
      (k j : K) (m : List (K × V))
      → lookup j (without k m) ≡ (if E.same k j then none else lookup j m)
  unfolding lookup without
  lookup-without k j [] = ground arith
  lookup-without k j ((i, v) ∷ m) = elim (Bool-cases (E.same i k)) [
    | inl e ↦ rw e (rw (same_trans E i k j e) (ground (arith, lookup-without k j m)))
    | inr e ↦ rw e (elim (Bool-cases (E.same i j)) [
      | inl e' ↦ rw e' (ground (arith, same_back E k i j e e'))
      | inr e' ↦ rw e' (lookup-without k j m)
    ])
  ]

  pub lookup-insert :
      (k j : K) (v : V) (m : List (K × V))
      → lookup j (insert k v m) ≡ (if E.same k j then some v else lookup j m)
  unfolding lookup insert
  lookup-insert k j v m = ground (arith, lookup-without k j m)
