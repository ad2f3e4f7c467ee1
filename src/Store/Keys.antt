-- ===== src/Store/Keys.antt =====
-- store/keys.go: the keys of the database, and the head record. Hashes and addresses are byte
-- strings of 32 and 20 bytes.
pub mod Laws
use arkiv_storage_service.Base.{
  ℕ, ◌+◌, [], ◌∷◌, ◌++◌, List, take, drop, Option, none, some, ◌==◌, if◌then◌else◌, Result, ok,
  ◌>>=◌, ◌≡◌, Bool, not, true, all, length, ◌<◌, ◌^◌,
}
use arkiv_storage_service.Bytes.{Bytes, codes}
use arkiv_storage_service.Bytes.BigEndian.{put_uint64, uint64}

abbrev pub prefix_bitmap : Bytes
prefix_bitmap = codes "arkiv_bm"

abbrev pub prefix_annot : Bytes
prefix_annot = codes "arkiv_annot"

abbrev pub prefix_id : Bytes
prefix_id = codes "arkiv_id"

abbrev pub prefix_addr : Bytes
prefix_addr = codes "arkiv_addr"

abbrev pub prefix_pairs : Bytes
prefix_pairs = codes "arkiv_pairs"

abbrev pub prefix_root : Bytes
prefix_root = codes "arkiv_root"

abbrev pub prefix_parent : Bytes
prefix_parent = codes "arkiv_parent"

abbrev pub prefix_block_number : Bytes
prefix_block_number = codes "arkiv_blknum"

abbrev pub head_key : Bytes
head_key = codes "arkiv_head"

unfoldable pub bitmap_key : Bytes → Bytes
bitmap_key hash = prefix_bitmap ++ hash

-- `annotKeyPrefix` of store/query.go
unfoldable pub annot_key_prefix : Bytes → Bytes
annot_key_prefix key = (prefix_annot ++ key) ++ 0 ∷ []

unfoldable pub annot_key : Bytes → Bytes → Bytes
annot_key key val = ((prefix_annot ++ key) ++ 0 ∷ []) ++ val

unfoldable pub id_key : ℕ → Bytes
id_key id = prefix_id ++ put_uint64 id

unfoldable pub addr_key : Bytes → Bytes
addr_key addr = prefix_addr ++ addr

unfoldable pub pairs_key : Bytes → Bytes → Bytes
pairs_key key val = ((prefix_pairs ++ key) ++ 0 ∷ []) ++ val

unfoldable pub root_key : Bytes → Bytes
root_key block_hash = prefix_root ++ block_hash

unfoldable pub parent_key : Bytes → Bytes
parent_key block_hash = prefix_parent ++ block_hash

unfoldable pub block_number_key : ℕ → Bytes
block_number_key number = prefix_block_number ++ put_uint64 number

-- also `numericAnnotVal` of query/evaluate.go
unfoldable pub numeric_val : ℕ → Bytes
unfolding put_uint64
numeric_val v = put_uint64 v

unfoldable pub encode_uint64 : ℕ → Bytes
encode_uint64 v = put_uint64 v

unfoldable pub decode_uint64 : Bytes → Result ℕ
decode_uint64 b = uint64 b

pub record Head : Type 0 where
  pub number : ℕ
  pub hash : Bytes
  pub root : Bytes

unfoldable pub encode_head : ℕ → Bytes → Bytes → Bytes
encode_head number hash root = put_uint64 number ++ (hash ++ root)

-- The slices `b[:8]`, `b[8:40]` and `b[40:72]`.
unfoldable pub decode_head : Bytes → Result Head
decode_head b = do
  number ← uint64 (take 8 b)
  ok (record { number = number; hash = take 32 (drop 8 b); root = take 32 (drop 40 b) })

-- How `repopulateAnnot` (store/revert.go) reads what follows the prefix of a pairs key: the text
-- before the first NUL and the text behind it, or `none` with no NUL.
unfoldable pub split_pair : Bytes → Option (Bytes × Bytes)
split_pair [] = none
split_pair (c ∷ s) =
    let rest = split_pair s in
    if c == 0 then some ([], s) else elim rest [ some (k, v) ↦ some (c ∷ k, v) | none ↦ none ]

-- The keys as one type, to speak of all of them.
pub data Key : Type 0 where
  bitmap addr root parent : Bytes → Key
  annot pairs : Bytes → Bytes → Key
  id block_number : ℕ → Key
  head : Key

unfoldable pub encode : Key → Bytes
encode (bitmap h) = bitmap_key h
encode (annot k v) = annot_key k v
encode (id n) = id_key n
encode (addr a) = addr_key a
encode (pairs k v) = pairs_key k v
encode (root h) = root_key h
encode (parent h) = parent_key h
encode (block_number n) = block_number_key n
encode head = head_key

abbrev pub no_nul : Bytes → Bool
no_nul = all (λ c. not (c == 0))

-- Annotation names hold no NUL, and numbers fit 64 bits.
abbrev pub IsKey : Key → Type 0
IsKey (annot k v) = no_nul k ≡ true
IsKey (pairs k v) = no_nul k ≡ true
IsKey (id n) = n < 2 ^ 64
IsKey (block_number n) = n < 2 ^ 64
IsKey k = Unit
