-- ===== src/Version/Short.antt =====
-- The short commit of the build's description.
use arkiv_storage_service.Base.{
  ℕ, ◌≡◌, refl, ◌≤◌, true, false, [], ◌∷◌, zero, suc, Option, Bool-cases, inl, inr, ◌↔◌, ap, leb,
  length, take, arith,
}
use arkiv_storage_service.Bytes.{Bytes, beq, has_prefix}
use arkiv_storage_service.Bytes.Order.{beq_iff}
use arkiv_storage_service.Version.{
  Strings, Ldflags, BuildInfo, unknown, clean, short_commit, empty_if_unknown, first_twelve,
  current, or_unknown,
}

length-take_bound : (n : ℕ) (s : Bytes) → length (take n s) ≤ n
length-take_bound zero s = omega arith
length-take_bound (suc n) [] = omega arith
length-take_bound (suc n) (c ∷ s) = omega (arith, length-take_bound n s)

has_prefix-take : (n : ℕ) (s : Bytes) → has_prefix (take n s) s ≡ true
unfolding has_prefix
has_prefix-take zero s = refl
has_prefix-take (suc n) [] = refl
has_prefix-take (suc n) (c ∷ s) = ground (arith, has_prefix-take n s)

has_prefix_refl : (s : Bytes) → has_prefix s s ≡ true
unfolding has_prefix
has_prefix_refl [] = refl
has_prefix_refl (c ∷ s) = ground (arith, has_prefix_refl s)

length-take_full : (n : ℕ) (s : Bytes) → n ≤ length s → length (take n s) ≡ n
length-take_full zero s h = refl
length-take_full (suc n) [] h = omega (arith, h)
length-take_full (suc n) (c ∷ s) h = omega (arith, h, length-take_full n s (omega (arith, h)))

twelve-known :
    (commit : Bytes) → leb (length commit) 12 ≡ false → beq (take 12 commit) unknown ≡ false
twelve-known commit l = elim (Bool-cases (beq (take 12 commit) unknown)) [
  | inl e ↦ absurd (
      omega (
        arith,
        ap length ((beq_iff (take 12 commit) unknown).0 e),
        length-take_full 12 commit (ground (arith, l)),
      ))
  | inr e ↦ e
]

-- at most twelve bytes, from the front, and none only of an unknown commit
abbrev pub Shortens : Bytes → Bytes → Type 0
Shortens short commit =
    (length short ≤ 12) × (has_prefix short commit ≡ true) × ((short ≡ []) ↔ (commit ≡ unknown))

some_text : {A : Type 0} (c : ℕ) (s : Bytes) → c ∷ s ≡ [] → A
some_text c s h = absurd (omega (arith, ap length h))

known_text : {A : Type 0} (s : Bytes) → beq s unknown ≡ false → s ≡ unknown → A
known_text s e h = absurd (ground (arith, e, (beq_iff s unknown).1 h))

first_twelve-Shortens :
    (c : ℕ) (s : Bytes) → Shortens (empty_if_unknown (first_twelve (c ∷ s))) (c ∷ s)
unfolding beq has_prefix
first_twelve-Shortens c s = elim (Bool-cases (beq (c ∷ s) unknown)) [
  | inl e ↦ rw e (omega arith, refl, (λ _. (beq_iff (c ∷ s) unknown).0 e, λ _. refl))
  | inr e ↦ elim (Bool-cases (leb (length (c ∷ s)) 12)) [
    | inl l ↦
        rw (e, l, e)
          (ground (arith, l), has_prefix_refl (c ∷ s), (some_text c s, known_text (c ∷ s) e))
    | inr l ↦
        rw (e, l, twelve-known (c ∷ s) l)
          (
            length-take_bound 12 (c ∷ s),
            has_prefix-take 12 (c ∷ s),
            (some_text c (take 11 s), known_text (c ∷ s) e),
          )
  ]
]

or_unknown-Shortens :
    (s : Bytes) → Shortens (empty_if_unknown (first_twelve (or_unknown s))) (or_unknown s)
unfolding beq has_prefix
or_unknown-Shortens [] = (omega arith, refl, (λ _. refl, λ _. refl))
or_unknown-Shortens (c ∷ s) = first_twelve-Shortens c s

-- The short commit is a front part of the trimmed commit, of at most twelve bytes, and is left out
-- exactly where the trimmed commit is unknown or has no byte.
pub current-Shortens :
    (S : Strings) (runtime_version : Bytes) (l : Ldflags) (b : Option BuildInfo)
    → Shortens
        (current S runtime_version l b).commit_short
        (clean S (current S runtime_version l b).commit)
unfolding current short_commit clean
current-Shortens S runtime_version l b = or_unknown-Shortens (S.trim_space _)
