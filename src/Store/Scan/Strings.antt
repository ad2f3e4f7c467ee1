-- ===== src/Store/Scan/Strings.antt =====
-- The scans over strings: between two bounds, with a prefix, and with a pattern. An entry with an
-- empty string is passed over.
use mathlib.Core.Bool.{false≢true}
use arkiv_storage_service.Base.{
  ℕ, ◌≡◌, refl, sym, ap, ◌∙◌, ◌↔◌, Bool, true, false, not, ◌&&◌, [], ◌∷◌, ◌++◌, length,
  length-append, leb, if◌then◌else◌, Option, none, some, Bool-cases, inl, inr, arith,
}
use arkiv_storage_service.Bytes.{Bytes, AreBytes, lt, beq, has_prefix}
use arkiv_storage_service.Bytes.Order.{beq_iff, lt_trans, lt-eq-not}
use arkiv_storage_service.Platform.{Platform}
use arkiv_storage_service.Store.Keys.{annot_key_prefix, annot_key}
use arkiv_storage_service.Store.PrefixRange.{lt-nil, prefix_successor, below, has_prefix-eq-range}
use arkiv_storage_service.Store.Scan.{
  Round, continue, break, or_in, at_excluded, past, or_empty, string_round, indexed,
  iterate_string_annot_bitmaps, iterate_prefix_annot_bitmaps,
}
use arkiv_storage_service.Store.Scan.Loop.{drop-append}
use arkiv_storage_service.Store.Scan.Range.{HasByteKeys, scan_iff, suffix-AreBytes}
use arkiv_storage_service.Query.Evaluate.Contract.{above, under}

beq_sym : (a b : Bytes) → beq a b ≡ beq b a
beq_sym a b = elim (Bool-cases (beq a b)) [
  | inl e ↦ e ∙ sym ((beq_iff b a).1 (sym ((beq_iff a b).0 e)))
  | inr e ↦ elim (Bool-cases (beq b a)) [
    | inl e' ↦ absurd (false≢true (sym e ∙ (beq_iff a b).1 (sym ((beq_iff b a).0 e'))))
    | inr e' ↦ e ∙ sym e'
  ]
]

abbrev pub has_one_byte : Bytes → Bool
has_one_byte [] = false
has_one_byte (c ∷ s) = true

pub longer : (p s : Bytes) → leb (length (p ++ s)) (length p) ≡ not (has_one_byte s)
longer p [] = ground (arith, length-append p [])
longer p (c ∷ s) = ground (arith, length-append p (c ∷ s))

-- The bounds that the loop tests, with the start of the scan, are those of the range.
not-past : (hi : Option Bytes) (incl : Bool) (s : Bytes) → past hi incl s ≡ not (under hi incl s)
not-past none incl s = refl
not-past (some hi) true s = ground arith
not-past (some hi) false s = ground (arith, lt-eq-not s hi)

above-start :
    (lo : Option Bytes) (incl : Bool) (s : Bytes)
    → above lo incl s ≡ (not (lt s (or_empty lo)) && not (at_excluded lo incl s))
above-start none incl s = ground (arith, lt-nil s)
above-start (some lo) true s = ground arith
above-start (some lo) false s = ground (arith, lt-eq-not lo s, beq_sym lo s)

past-later :
    (hi : Option Bytes) (incl : Bool) (s t : Bytes)
    → past hi incl s ≡ true
    → lt s t ≡ true
    → past hi incl t ≡ true
past-later none incl s t h l = h
past-later (some hi) incl s t h l = ground (
  arith,
  h,
  lt_trans hi s t,
  λ (e : beq s hi ≡ true). ap (λ x. lt x t) (sym ((beq_iff s hi).0 e)) ∙ l,
)

module _ (lo : Option Bytes) (lo_incl : Bool) (hi : Option Bytes) (hi_incl : Bool) where
  -- the round of a key with the suffix `s`
  abbrev suffix_round : Bytes → Round
  suffix_round s =
      if not (has_one_byte s)
      then continue
      else if at_excluded lo lo_incl s
      then continue
      else if past hi hi_incl s
      then break
      else or_in

  string_round-append :
      (p s : Bytes) → string_round p lo lo_incl hi hi_incl (p ++ s) ≡ suffix_round s
  unfolding string_round
  string_round-append p s =
      ap
        (λ t.
          if leb (length (p ++ s)) (length p)
          then continue
          else if at_excluded lo lo_incl t
          then continue
          else if past hi hi_incl t
          then break
          else or_in)
        (drop-append p s)
      ∙ ap
          (λ b.
            if b
            then continue
            else if at_excluded lo lo_incl s
            then continue
            else if past hi hi_incl s
            then break
            else or_in)
          (longer p s)

  taken :
      (s : Bytes)
      → (suffix_round s ≡ or_in) ↔ (
          (has_one_byte s ≡ true)
          × (at_excluded lo lo_incl s ≡ false)
          × (past hi hi_incl s ≡ false))
  taken s = go (has_one_byte s) (at_excluded lo lo_incl s) (past hi hi_incl s)
    where
      go :
          (a b c : Bool)
          → ((if not a then continue else if b then continue else if c then break else or_in)
              ≡ or_in)
            ↔ ((a ≡ true) × (b ≡ false) × (c ≡ false))
      go false b c = (λ h. cc, λ h. cc)
      go true true c = (λ h. cc, λ h. cc)
      go true false true = (λ h. cc, λ h. cc)
      go true false false = (λ h. (refl, refl, refl), λ h. refl)

  stopped : (s : Bytes) → suffix_round s ≡ break → past hi hi_incl s ≡ true
  stopped s = go (has_one_byte s) (at_excluded lo lo_incl s) (past hi hi_incl s)
    where
      go :
          (a b c : Bool)
          → (if not a then continue else if b then continue else if c then break else or_in) ≡ break
          → c ≡ true
      go false b c h = cc
      go true true c h = cc
      go true false true h = refl
      go true false false h = cc

  stops :
      (p s t : Bytes)
      → AreBytes s
      → AreBytes t
      → string_round p lo lo_incl hi hi_incl (p ++ s) ≡ break
      → lt s t ≡ true
      → string_round p lo lo_incl hi hi_incl (p ++ t) ≡ or_in
      → ⊥
  stops p s t hs ht b l r =
      let after = past-later hi hi_incl s t (stopped s (sym (string_round-append p s) ∙ b)) l in
      let (_, _, before) = (taken t).0 (sym (string_round-append p t) ∙ r) in
      false≢true (sym before ∙ after)

module _ (P : Platform) (db : P.kv.Db) (byte_keys : HasByteKeys P db) where
  -- The scan between two bounds, either of which may be absent, inclusive or exclusive, returns
  -- the entities whose bitmaps the pointers of the non-empty strings between them lead to, when
  -- the keys of the database are byte strings.
  pub iterate_string_annot_bitmaps_iff :
      (key : Bytes) (lo : Option Bytes) (lo_incl : Bool) (hi : Option Bytes) (hi_incl : Bool)
      (i : ℕ)
      → (P.roaring.contains (iterate_string_annot_bitmaps P db key lo lo_incl hi hi_incl) i ≡ true)
        ↔ ((s : Bytes) × (has_one_byte s ≡ true)
            × (above lo lo_incl s ≡ true)
            × (under hi hi_incl s ≡ true)
            × (indexed P db key s i ≡ true))
  unfolding iterate_string_annot_bitmaps annot_key annot_key_prefix
  iterate_string_annot_bitmaps_iff key lo lo_incl hi hi_incl i =
      let p = annot_key_prefix key in
      let (to, back) =
        scan_iff P db byte_keys p (string_round p lo lo_incl hi hi_incl)
          (stops lo lo_incl hi hi_incl p) (or_empty lo) i in
      (
        λ c.
            let (s, _, r, from, l) = to c in
            let (one, open_lo, open_hi) =
              (taken lo lo_incl hi hi_incl s).0
                (sym (string_round-append lo lo_incl hi hi_incl p s) ∙ r) in
            (
              s,
              one,
              ground (arith, above-start lo lo_incl s, from, open_lo),
              ground (arith, not-past hi hi_incl s, open_hi),
              l,
            ),
        λ (s, one, a, u, l). back (
          s,
          suffix-AreBytes P db byte_keys p s i l,
          string_round-append lo lo_incl hi hi_incl p s
              ∙ (taken lo lo_incl hi hi_incl s).1 (
                one,
                ground (arith, above-start lo lo_incl s, a),
                ground (arith, not-past hi hi_incl s, u),
              ),
          ground (arith, above-start lo lo_incl s, a),
          l,
        ),
      )

  -- The scan for a prefix, which is a string of bytes, returns the entities whose bitmaps the
  -- pointers of the non-empty strings with the prefix lead to, when the keys of the database are
  -- byte strings.
  pub iterate_prefix_annot_bitmaps_iff :
      (key prefix : Bytes) (i : ℕ)
      → AreBytes prefix
      → (P.roaring.contains (iterate_prefix_annot_bitmaps P db key prefix) i ≡ true) ↔ (
          (s : Bytes) × (has_one_byte s ≡ true)
          × (has_prefix prefix s ≡ true)
          × (indexed P db key s i ≡ true))
  unfolding iterate_prefix_annot_bitmaps annot_key annot_key_prefix
  iterate_prefix_annot_bitmaps_iff key prefix i h =
      let hi = prefix_successor prefix in
      let (to, back) = iterate_string_annot_bitmaps_iff key (some prefix) true hi false i in
      let range : (s : Bytes)
          → indexed P db key s i ≡ true
          → has_prefix prefix s ≡ (not (lt s prefix) && under hi false s) =
        λ s l.
          has_prefix-eq-range prefix s h
            (suffix-AreBytes P db byte_keys (annot_key_prefix key) s i l)
          ∙ ap (λ b. not (lt s prefix) && b) (below-under hi s) in
      (
        λ c. let (s, one, a, u, l) = to c in (s, one, ground (arith, range s l, a, u), l),
        λ (s, one, pre, l).
            back (s, one, ground (arith, range s l, pre), ground (arith, range s l, pre), l),
      )
    where
      below-under : (hi : Option Bytes) (s : Bytes) → below hi s ≡ under hi false s
      below-under none s = refl
      below-under (some b) s = refl
