-- ===== src/Store/Glob/Matches.antt =====
-- What a pattern matches, with no search order in it, and that `globMatch` decides it.
use mathlib.Core.Bool.{false≢true}
use arkiv_storage_service.Base.{
  append-nil, ℕ, zero, suc, ◌≤◌, ◌≡◌, refl, ap, sym, ◌∙◌, subst, ◌≢◌, ◌↔◌, ◌⊎◌, inl, inr, Bool,
  true, ◌||◌, [], ◌∷◌, ◌++◌, length, ◌==◌, ==_iff, Bool-cases, arith,
}
use arkiv_storage_service.Bytes.{Bytes}
use arkiv_storage_service.Store.Glob.{
  skip_stars, any_suffix, match_star, match_byte, glob_fuel, glob_match,
}

-- `*` stands for any text, `?` for any byte, and every other byte for itself.
pub data Matches : Bytes → Bytes → Type 0 where
  end : Matches [] []
  star :
      {w : ℕ} {p s : Bytes} (before after : Bytes)
      → w ≡ b'*'
      → s ≡ before ++ after
      → Matches p after
      → Matches (w ∷ p) s
  one :
      {w c : ℕ} {p s : Bytes}
      → w ≢ b'*'
      → (w ≡ b'?') ⊎ (w ≡ c)
      → Matches p s
      → Matches (w ∷ p) (c ∷ s)

append_assoc_at : (a b c : Bytes) → a ++ (b ++ c) ≡ (a ++ b) ++ c
append_assoc_at [] b c = refl
append_assoc_at (x ∷ a) b c = ground (arith, append_assoc_at a b c)

-- Stars in a row are one star.
skip_stars-Matches :
    (p before s after : Bytes)
    → s ≡ before ++ after
    → Matches (skip_stars p) after
    → Matches (b'*' ∷ p) s
unfolding skip_stars
skip_stars-Matches [] before s after e m = star before after refl e m
skip_stars-Matches (w ∷ p) before s after e m = elim (Bool-cases (w == b'*')) [
  | inl is_star ↦ star before after refl e (
      subst (λ x. Matches (x ∷ p) after) (sym ((==_iff w b'*').0 is_star))
        (skip_stars-Matches p [] after after refl (rw is_star at m)))
  | inr other ↦ star before after refl e (rw other at m)
]

star_inv :
    {w : ℕ} {p s : Bytes}
    → w ≡ b'*'
    → Matches (w ∷ p) s
    → (before after : Bytes) × (s ≡ before ++ after) × Matches p after
star_inv e (star before after _ q m) = (before, after, q, m)
star_inv e (one not_star _ m) = absurd (not_star e)

Matches-skip_stars :
    (p s : Bytes)
    → Matches p s
    → (before after : Bytes) × (s ≡ before ++ after) × Matches (skip_stars p) after
unfolding skip_stars
Matches-skip_stars [] s m = ([], s, refl, m)
Matches-skip_stars (w ∷ p) s m = elim (Bool-cases (w == b'*')) [
  | inl is_star ↦
      let (b, a, e, m') = star_inv ((==_iff w b'*').0 is_star) m in
      let (b', a', e', m'') = Matches-skip_stars p a m' in
      (b ++ b', a', e ∙ ap (λ x. b ++ x) e' ∙ append_assoc_at b b' a', rw is_star m'')
  | inr other ↦ ([], s, refl, rw other m)
]

-- `any_suffix` answers true exactly when some suffix passes.
any_suffix_sound :
    (f : Bytes → Bool) (s : Bytes)
    → any_suffix f s ≡ true
    → (before after : Bytes) × (s ≡ before ++ after) × (f after ≡ true)
unfolding any_suffix
any_suffix_sound f [] h = ([], [], refl, h)
any_suffix_sound f (c ∷ s) h = elim (Bool-cases (f (c ∷ s))) [
  | inl e ↦ ([], c ∷ s, refl, e)
  | inr e ↦ let (b, a, q, k) = any_suffix_sound f s (rw e at h) in (c ∷ b, a, ap (λ x. c ∷ x) q, k)
]

any_suffix_complete :
    (f : Bytes → Bool) (before after : Bytes)
    → f after ≡ true
    → any_suffix f (before ++ after) ≡ true
unfolding any_suffix
any_suffix_complete f [] [] h = h
any_suffix_complete f [] (c ∷ after) h = rw h
any_suffix_complete f (c ∷ before) after h = ground (arith, any_suffix_complete f before after)

length-skip_stars-le : (p : Bytes) → length (skip_stars p) ≤ length p
unfolding skip_stars
length-skip_stars-le [] = omega arith
length-skip_stars-le (w ∷ p) = ground (arith, length-skip_stars-le p)

match_star_sound :
    (match : Bytes → Bytes → Bool) (q s : Bytes)
    → ((after : Bytes) → match q after ≡ true → Matches q after)
    → match_star match q s ≡ true
    → (before after : Bytes) × (s ≡ before ++ after) × Matches q after
unfolding match_star
match_star_sound match [] s ih h = (s, [], sym (append-nil s), end)
match_star_sound match (c ∷ q) s ih h =
    let (b, a, e, k) = any_suffix_sound (match (c ∷ q)) s h in (b, a, e, ih a k)

match_star_complete :
    (match : Bytes → Bytes → Bool) (q before after : Bytes)
    → (Matches q after → match q after ≡ true)
    → Matches q after
    → match_star match q (before ++ after) ≡ true
unfolding match_star
match_star_complete match [] b a ih m = refl
match_star_complete match (c ∷ q) b a ih m = any_suffix_complete (match (c ∷ q)) b a (ih m)

byte_cases : (w c : ℕ) → (w == b'?' || w == c) ≡ true → (w ≡ b'?') ⊎ (w ≡ c)
byte_cases w c h = ground arith

byte_test : (w c : ℕ) → (w ≡ b'?') ⊎ (w ≡ c) → (w == b'?' || w == c) ≡ true
byte_test w c h = ground arith

match_byte_sound :
    (match : Bytes → Bytes → Bool) (w : ℕ) (p s : Bytes)
    → w ≢ b'*'
    → ((rest : Bytes) → match p rest ≡ true → Matches p rest)
    → match_byte match w p s ≡ true
    → Matches (w ∷ p) s
unfolding match_byte
match_byte_sound match w p [] n ih h = cc
match_byte_sound match w p (c ∷ s) n ih h = elim (Bool-cases (w == b'?' || w == c)) [
  | inl e ↦ one n (byte_cases w c e) (ih s (rw e at h))
  | inr e ↦ absurd (false≢true (rw e at h))
]

glob_fuel_sound : (f : ℕ) (p s : Bytes) → glob_fuel f p s ≡ true → Matches p s
unfolding glob_fuel
glob_fuel_sound f [] [] h = end
glob_fuel_sound f [] (c ∷ s) h = cc
glob_fuel_sound zero (w ∷ p) s h = cc
glob_fuel_sound (suc f) (w ∷ p) s h = elim (Bool-cases (w == b'*')) [
  | inl is_star ↦
      let (b, a, e, m) =
        match_star_sound (glob_fuel f) (skip_stars p) s (glob_fuel_sound f (skip_stars p))
          (rw is_star at h) in
      subst (λ x. Matches (x ∷ p) s) (sym ((==_iff w b'*').0 is_star))
        (skip_stars-Matches p b s a e m)
  | inr other ↦
      match_byte_sound (glob_fuel f) w p s (λ e. false≢true (sym other ∙ (==_iff w b'*').1 e))
        (glob_fuel_sound f p) (rw other at h)
]

glob_fuel_complete : (f : ℕ) (p s : Bytes) → length p ≤ f → Matches p s → glob_fuel f p s ≡ true
unfolding glob_fuel
glob_fuel_complete f [] s h end = refl
glob_fuel_complete zero (w ∷ p) s h m = absurd (omega arith)
glob_fuel_complete (suc f) (w ∷ p) s h (star b a e q m) =
    let (b', a', q', m') = Matches-skip_stars p a m in
    let k =
      match_star_complete (glob_fuel f) (skip_stars p) (b ++ b') a'
        (glob_fuel_complete f (skip_stars p) a' (omega (arith, length-skip_stars-le p))) m' in
    rw ((==_iff w b'*').1 e) (rw (q ∙ ap (λ x. b ++ x) q' ∙ append_assoc_at b b' a') k)
glob_fuel_complete (suc f) (w ∷ p) (c ∷ s) h (one n t m) =
    ground (arith, byte_test w c t, glob_fuel_complete f p s (omega arith) m)

-- `globMatch` answers true exactly on the texts that the pattern matches: it stops within its
-- fuel, and trying the suffixes after a star misses nothing.
pub glob_match_iff : (pattern s : Bytes) → (glob_match pattern s ≡ true) ↔ Matches pattern s
unfolding glob_match
glob_match_iff pattern s = (
  glob_fuel_sound (length pattern) pattern s,
  glob_fuel_complete (length pattern) pattern s (omega arith),
)
