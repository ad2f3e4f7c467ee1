-- ===== src/Store/Scan/Globs.antt =====
-- The scan with a glob pattern: the whole range of the key.
use arkiv_storage_service.Base.{
  ℕ, ◌≡◌, refl, sym, ap, ◌∙◌, ◌↔◌, Bool, true, false, not, [], ◌++◌, length, leb, if◌then◌else◌,
}
use arkiv_storage_service.Bytes.{Bytes}
use arkiv_storage_service.Platform.{Platform}
use arkiv_storage_service.Store.Keys.{annot_key_prefix, annot_key}
use arkiv_storage_service.Store.Glob.{glob_match}
use arkiv_storage_service.Store.PrefixRange.{lt-nil}
use arkiv_storage_service.Store.Scan.{
  continue, break, or_in, glob_round, indexed, iterate_glob_annot_bitmaps,
}
use arkiv_storage_service.Store.Scan.Loop.{drop-append}
use arkiv_storage_service.Store.Scan.Range.{HasByteKeys, scan_iff, suffix-AreBytes}
use arkiv_storage_service.Store.Scan.Strings.{has_one_byte, longer}

glob_round-append :
    (p pattern s : Bytes)
    → glob_round p pattern (p ++ s) ≡ (
        if not (has_one_byte s) then continue else if glob_match pattern s then or_in else continue)
unfolding glob_round
glob_round-append p pattern s =
    ap
      (λ t.
        if leb (length (p ++ s)) (length p)
        then continue
        else if glob_match pattern t
        then or_in
        else continue)
      (drop-append p s)
    ∙ ap (λ b. if b then continue else if glob_match pattern s then or_in else continue)
        (longer p s)

taken :
    (a b : Bool)
    → ((if not a then continue else if b then or_in else continue) ≡ or_in)
      ↔ ((a ≡ true) × (b ≡ true))
taken false b = (λ h. cc, λ h. cc)
taken true true = (λ h. (refl, refl), λ h. refl)
taken true false = (λ h. cc, λ h. cc)

not_stopped : (a b : Bool) → (if not a then continue else if b then or_in else continue) ≡ break → ⊥
not_stopped false b h = cc
not_stopped true true h = cc
not_stopped true false h = cc

-- The scan with a pattern returns the entities whose bitmaps the pointers of the non-empty strings
-- that match it lead to, when the keys of the database are byte strings.
pub iterate_glob_annot_bitmaps_iff :
    (P : Platform) (db : P.kv.Db)
    → HasByteKeys P db
    → (key pattern : Bytes) (i : ℕ)
    → (P.roaring.contains (iterate_glob_annot_bitmaps P db key pattern) i ≡ true) ↔ (
        (s : Bytes) × (has_one_byte s ≡ true)
        × (glob_match pattern s ≡ true)
        × (indexed P db key s i ≡ true))
unfolding iterate_glob_annot_bitmaps annot_key annot_key_prefix
iterate_glob_annot_bitmaps_iff P db byte_keys key pattern i =
    let p = annot_key_prefix key in
    let (to, back) =
      scan_iff P db byte_keys p (glob_round p pattern)
        (λ s t hs ht b l r.
          not_stopped (has_one_byte s) (glob_match pattern s)
            (sym (glob_round-append p pattern s) ∙ b))
        [] i in
    (
      λ c.
          let (s, _, r, _, l) = to c in
          let (one, matches) =
            (taken (has_one_byte s) (glob_match pattern s)).0
              (sym (glob_round-append p pattern s) ∙ r) in
          (s, one, matches, l),
      λ (s, one, matches, l). back (
        s,
        suffix-AreBytes P db byte_keys p s i l,
        glob_round-append p pattern s
            ∙ (taken (has_one_byte s) (glob_match pattern s)).1 (one, matches),
        lt-nil s,
        l,
      ),
    )
