-- ===== src/Store/Scan.antt =====
-- The scans of store/query.go over the annotation pointers of the database, whose iterator returns
-- the keys in ascending order.
pub mod Loop
pub mod Range
pub mod Numbers
pub mod Strings
pub mod Globs
use arkiv_storage_service.Base.{
  ℕ, ◌+◌, Bool, true, false, not, ◌&&◌, ◌||◌, List, [], ◌∷◌, drop, length, leb, ltb, ◌==◌,
  if◌then◌else◌, Option, none, some,
}
use arkiv_storage_service.Bytes.{Bytes, beq, lt}
use arkiv_storage_service.Bytes.BigEndian.{put_uint64, value_from}
use arkiv_storage_service.Platform.{Platform}
use arkiv_storage_service.Store.Keys.{annot_key_prefix, annot_key, bitmap_key}
use arkiv_storage_service.Store.Glob.{glob_match}
use arkiv_storage_service.Store.PrefixRange.{prefix_successor}

-- how a round of a loop over the iterator ends: with `continue`, with `break`, or with the bitmap
-- of the entry taken into the result
pub data Round : Type 0 where
  continue break or_in : Round

-- `len(k) != len(prefix)+8`, and the number against the upper bound
unfoldable pub numeric_round : Bytes → ℕ → Bytes → Round
unfolding value_from
numeric_round prefix hi k =
    if length k == length prefix + 8
    then (if ltb hi (value_from 0 (drop (length prefix) k)) then break else or_in)
    else continue

-- `lo != nil && !loIncl && suffix == *lo`
abbrev pub at_excluded : Option Bytes → Bool → Bytes → Bool
at_excluded none lo_incl suffix = false
at_excluded (some lo) lo_incl suffix = not lo_incl && beq suffix lo

-- `hi != nil && (suffix > *hi || (suffix == *hi && !hiIncl))`
abbrev pub past : Option Bytes → Bool → Bytes → Bool
past none hi_incl suffix = false
past (some hi) hi_incl suffix = lt hi suffix || (beq suffix hi && not hi_incl)

unfoldable pub string_round : Bytes → Option Bytes → Bool → Option Bytes → Bool → Bytes → Round
string_round prefix lo lo_incl hi hi_incl k =
    if leb (length k) (length prefix)
    then continue
    else if at_excluded lo lo_incl (drop (length prefix) k)
    then continue
    else if past hi hi_incl (drop (length prefix) k)
    then break
    else or_in

unfoldable pub glob_round : Bytes → Bytes → Bytes → Round
unfolding glob_match
glob_round prefix pattern k =
    if leb (length k) (length prefix)
    then continue
    else if glob_match pattern (drop (length prefix) k)
    then or_in
    else continue

abbrev pub or_empty : Option Bytes → Bytes
or_empty none = []
or_empty (some s) = s

module _ (P : Platform) (db : P.kv.Db) where
  open P use {roaring.{Bitmap}}

  unfoldable pub load_bitmap_from_pointer : Bytes → Option Bitmap
  load_bitmap_from_pointer hash =
      if length hash == 32
      then elim (P.kv.get db (bitmap_key hash)) [
        | none ↦ none
        | some bm ↦ if length bm == 0 then none else P.roaring.unmarshal bm
      ]
      else none

  -- `if bm != nil { result.Or(bm) }`
  abbrev pub or_loaded : Bitmap → Option Bitmap → Bitmap
  or_loaded result none = result
  or_loaded result (some bm) = P.roaring.or result bm

  unfoldable pub scan : (Bytes → Round) → Bitmap → List (Bytes × Bytes) → Bitmap
  unfolding load_bitmap_from_pointer
  scan round result [] = result
  scan round result ((k, hash) ∷ entries) = elim (round k) [
    | continue ↦ scan round result entries
    | break ↦ result
    | or_in ↦ scan round (or_loaded result (load_bitmap_from_pointer hash)) entries
  ]

  unfoldable pub iterate_numeric_annot_bitmaps : Bytes → ℕ → ℕ → Bitmap
  unfolding scan numeric_round put_uint64
  iterate_numeric_annot_bitmaps key lo hi =
      scan (numeric_round (annot_key_prefix key) hi) P.roaring.empty
        (P.kv.entries db (annot_key_prefix key) (if ltb 0 lo then put_uint64 lo else []))

  unfoldable pub iterate_string_annot_bitmaps :
      Bytes → Option Bytes → Bool → Option Bytes → Bool → Bitmap
  unfolding scan string_round
  iterate_string_annot_bitmaps key lo lo_incl hi hi_incl =
      scan (string_round (annot_key_prefix key) lo lo_incl hi hi_incl) P.roaring.empty
        (P.kv.entries db (annot_key_prefix key) (or_empty lo))

  unfoldable pub iterate_prefix_annot_bitmaps : Bytes → Bytes → Bitmap
  unfolding iterate_string_annot_bitmaps prefix_successor
  iterate_prefix_annot_bitmaps key prefix =
      iterate_string_annot_bitmaps key (some prefix) true (prefix_successor prefix) false

  unfoldable pub iterate_glob_annot_bitmaps : Bytes → Bytes → Bitmap
  unfolding scan glob_round
  iterate_glob_annot_bitmaps key pattern =
      scan (glob_round (annot_key_prefix key) pattern) P.roaring.empty
        (P.kv.entries db (annot_key_prefix key) [])

  -- What a lookup of one pointer says: `i` is in the bitmap that it leads to.
  abbrev pub loaded_has : Option Bitmap → ℕ → Bool
  loaded_has none i = false
  loaded_has (some bm) i = P.roaring.contains bm i

  abbrev pub pointer_has : Option Bytes → ℕ → Bool
  pointer_has none i = false
  pointer_has (some hash) i = loaded_has (load_bitmap_from_pointer hash) i

  abbrev pub indexed : Bytes → Bytes → ℕ → Bool
  indexed key val i = pointer_has (P.kv.get db (annot_key key val)) i
