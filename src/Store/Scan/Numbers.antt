-- ===== src/Store/Scan/Numbers.antt =====
-- `IterateNumericAnnotBitmaps` finds the entities with a number in the range.
use arkiv_storage_service.Base.{
  ℕ, ◌+◌, ◌≤◌, ◌<◌, ◌^◌, ◌≡◌, refl, sym, ap, ap₂, ◌∙◌, ◌↔◌, true, false, [], ◌++◌, length,
  length-append, ltb, ◌==◌, if◌then◌else◌, Bool-cases, inl, inr, arith,
}
use arkiv_storage_service.Bytes.{Bytes, AreBytes, lt}
use arkiv_storage_service.Bytes.BigEndian.{put_uint64, value_from, max_uint64}
use arkiv_storage_service.Bytes.BigEndian.Laws.{length-put_uint64, lt-put_uint64}
use arkiv_storage_service.Bytes.BigEndian.Digits.{
  put_uint64-value_from, value_from_uint64, value_from-put_uint64, AreBytes-put_uint64,
}
use arkiv_storage_service.Store.PrefixRange.{lt-nil}
use arkiv_storage_service.Platform.{Platform}
use arkiv_storage_service.Store.Keys.{annot_key_prefix, annot_key}
use arkiv_storage_service.Store.Scan.{
  Round, continue, break, or_in, numeric_round, indexed, iterate_numeric_annot_bitmaps,
}
use arkiv_storage_service.Store.Scan.Loop.{drop-append}
use arkiv_storage_service.Store.Scan.Range.{HasByteKeys, scan_iff}

-- the round of a key with the suffix `s`
abbrev suffix_round : ℕ → Bytes → Round
suffix_round hi s =
    if length s == 8 then (if ltb hi (value_from 0 s) then break else or_in) else continue

numeric_round-append :
    (p : Bytes) (hi : ℕ) (s : Bytes) → numeric_round p hi (p ++ s) ≡ suffix_round hi s
unfolding numeric_round
numeric_round-append p hi s =
    let same : (length (p ++ s) == length p + 8) ≡ (length s == 8) =
      ground (arith, length-append p s) in
    ap
      (λ t.
        if length (p ++ s) == length p + 8
        then (if ltb hi (value_from 0 t) then break else or_in)
        else continue)
      (drop-append p s)
    ∙ ap (λ b. if b then (if ltb hi (value_from 0 s) then break else or_in) else continue) same

taken : (hi : ℕ) (s : Bytes) → suffix_round hi s ≡ or_in ↔ ((length s ≡ 8) × (value_from 0 s ≤ hi))
taken hi s = elim (Bool-cases (length s == 8)) [
  | inl e ↦ rw e (elim (Bool-cases (ltb hi (value_from 0 s))) [
    | inl l ↦ rw l (λ h. cc, λ h. absurd (ground (arith, l, h)))
    | inr l ↦ rw l (λ h. (ground (arith, e), ground (arith, l)), λ h. refl)
  ])
  | inr e ↦ rw e (λ h. cc, λ h. absurd (ground (arith, e, h)))
]

stopped : (hi : ℕ) (s : Bytes) → suffix_round hi s ≡ break → (length s ≡ 8) × (hi < value_from 0 s)
stopped hi s = elim (Bool-cases (length s == 8)) [
  | inl e ↦ rw e (elim (Bool-cases (ltb hi (value_from 0 s))) [
    | inl l ↦ rw l (λ h. (ground (arith, e), ground (arith, l)))
    | inr l ↦ rw l (λ h. cc)
  ])
  | inr e ↦ rw e (λ h. cc)
]

-- The order of eight bytes is the order of the numbers.
lt-value_from :
    (s t : Bytes)
    → AreBytes s
    → AreBytes t
    → length s ≡ 8
    → length t ≡ 8
    → lt s t ≡ ltb (value_from 0 s) (value_from 0 t)
lt-value_from s t hs ht es et =
    ap₂ lt (sym (put_uint64-value_from s hs es)) (sym (put_uint64-value_from t ht et))
    ∙ lt-put_uint64 (value_from 0 s) (value_from 0 t) (value_from_uint64 s hs es)
        (value_from_uint64 t ht et)

stops :
    (p : Bytes) (hi : ℕ) (s t : Bytes)
    → AreBytes s
    → AreBytes t
    → numeric_round p hi (p ++ s) ≡ break
    → lt s t ≡ true
    → numeric_round p hi (p ++ t) ≡ or_in
    → ⊥
stops p hi s t hs ht b l r =
    let (es, above) = stopped hi s (sym (numeric_round-append p hi s) ∙ b) in
    let (et, below) = (taken hi t).0 (sym (numeric_round-append p hi t) ∙ r) in
    ground (arith, lt-value_from s t hs ht es et, above, below, l)

-- the scan starts at `lo`, for 0 at the first key
abbrev from : ℕ → Bytes
from lo = if ltb 0 lo then put_uint64 lo else []

lt-from :
    (lo : ℕ) (s : Bytes)
    → lo ≤ max_uint64
    → AreBytes s
    → length s ≡ 8
    → (lt s (from lo) ≡ false) ↔ (lo ≤ value_from 0 s)
lt-from lo s h hs es = elim (Bool-cases (ltb 0 lo)) [
  | inl e ↦
      let same : lt s (put_uint64 lo) ≡ ltb (value_from 0 s) lo =
        ap (λ t. lt t (put_uint64 lo)) (sym (put_uint64-value_from s hs es))
        ∙ lt-put_uint64 (value_from 0 s) lo (value_from_uint64 s hs es) (omega (arith, h)) in
      rw e (ground (arith, same))
  | inr e ↦ rw e (λ l. ground (arith, e), λ l. lt-nil s)
]

module _ (P : Platform) (db : P.kv.Db) (byte_keys : HasByteKeys P db) where
  -- The scan over the numbers from `lo` to `hi` returns the entities whose bitmaps the pointers of
  -- these numbers lead to, when the keys of the database are byte strings.
  pub iterate_numeric_annot_bitmaps_iff :
      (key : Bytes) (lo hi i : ℕ)
      → lo ≤ max_uint64
      → (P.roaring.contains (iterate_numeric_annot_bitmaps P db key lo hi) i ≡ true) ↔ (
          (n : ℕ) × (lo ≤ n)
          × (n ≤ hi)
          × (n ≤ max_uint64)
          × (indexed P db key (put_uint64 n) i ≡ true))
  unfolding iterate_numeric_annot_bitmaps annot_key annot_key_prefix
  iterate_numeric_annot_bitmaps_iff key lo hi i h =
      let p = annot_key_prefix key in
      let (to, back) = scan_iff P db byte_keys p (numeric_round p hi) (stops p hi) (from lo) i in
      (
        λ c.
            let (s, bytes, r, above, l) = to c in
            let (eight, le) = (taken hi s).0 (sym (numeric_round-append p hi s) ∙ r) in
            (
              value_from 0 s,
              (lt-from lo s h bytes eight).0 above,
              le,
              omega (arith, value_from_uint64 s bytes eight),
              ap (λ t. indexed P db key t i) (put_uint64-value_from s bytes eight) ∙ l,
            ),
        λ (n, ge, le, fits, l).
            let small : n < 2 ^ 64 = omega (arith, fits) in
            let is = value_from-put_uint64 n small in
            let bytes = AreBytes-put_uint64 n in
            let eight = length-put_uint64 n in
            back (
              put_uint64 n,
              bytes,
              numeric_round-append p hi (put_uint64 n)
                  ∙ (taken hi (put_uint64 n)).1 (eight, omega (arith, is, le)),
              (lt-from lo (put_uint64 n) h bytes eight).1 (omega (arith, is, ge)),
              l,
            ),
      )
