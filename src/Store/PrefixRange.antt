-- ===== src/Store/PrefixRange.antt =====
-- `prefixSuccessor` of store/query.go: the strings with a prefix are a range.
use arkiv_storage_service.Base.{
  ℕ, ◌+◌, ◌<◌, ◌≡◌, refl, Bool, true, false, not, ◌&&◌, [], ◌∷◌, Option, none, some, ltb,
  if◌then◌else◌, arith,
}
use arkiv_storage_service.Bytes.{Bytes, AreBytes, lt, has_prefix}

-- The loop goes from the last byte to the first: the byte `c` is reached when the bytes behind it
-- are all 0xFF.
unfoldable pub bump : ℕ → Option Bytes → Option Bytes
bump c none = if ltb c 255 then some ((c + 1) ∷ []) else none
bump c (some later) = some (c ∷ later)

unfoldable pub prefix_successor : Bytes → Option Bytes
unfolding bump
prefix_successor [] = none
prefix_successor (c ∷ p) = bump c (prefix_successor p)

-- `s < *hi`, and true with no bound
abbrev pub below : Option Bytes → Bytes → Bool
below none s = true
below (some hi) s = lt s hi

pub lt-nil : (s : Bytes) → lt s [] ≡ false
unfolding lt
lt-nil [] = refl
lt-nil (d ∷ s) = refl

-- One step, for any bound of the later bytes.
range_step :
    (c d : ℕ) (p s : Bytes) (o : Option Bytes)
    → d < 256
    → has_prefix p s ≡ (not (lt s p) && below o s)
    → has_prefix (c ∷ p) (d ∷ s) ≡ (not (lt (d ∷ s) (c ∷ p)) && below (bump c o) (d ∷ s))
unfolding has_prefix lt bump
range_step c d p s none h e = ground (arith, lt-nil s)
range_step c d p s (some hi) h e = ground arith

-- Of byte strings, those that begin with a prefix are those from the prefix up to, and without, its
-- successor; with no successor there is no bound.
pub has_prefix-eq-range :
    (p s : Bytes)
    → AreBytes p
    → AreBytes s
    → has_prefix p s ≡ (not (lt s p) && below (prefix_successor p) s)
unfolding has_prefix lt prefix_successor
has_prefix-eq-range [] [] hp hs = refl
has_prefix-eq-range [] (d ∷ s) hp hs = refl
has_prefix-eq-range (c ∷ p) [] hp hs = ground arith
has_prefix-eq-range (c ∷ p) (d ∷ s) hp hs =
    range_step c d p s (prefix_successor p) hs.0 (has_prefix-eq-range p s hp.1 hs.1)
