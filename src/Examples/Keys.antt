-- ===== src/Examples/Keys.antt =====
-- Keys, patterns and ranges.
use arkiv_storage_service.Base.{
  ◌%◌, ◌^◌, ◌≡◌, ◌↔◌, refl, true, not, ◌&&◌, [], ◌∷◌, ltb, replicate, ok, arith,
}
use arkiv_storage_service.Bytes.{codes, has_prefix, lt}
use arkiv_storage_service.Store.Keys.{annot, decode_head, encode_head, numeric_val}
use arkiv_storage_service.Store.Keys.Laws.{
  encode_injective, decode_head-encode_head, lt-numeric_val,
}
use arkiv_storage_service.Bytes.BigEndian.{value_from}
use arkiv_storage_service.Store.Entity.{attr_uint64}
use arkiv_storage_service.Store.Entity.Attributes.{attr_uint64-mod}
use arkiv_storage_service.Store.Glob.{glob_match, is_prefix_glob}
use arkiv_storage_service.Store.Glob.Matches.{Matches, glob_match_iff}
use arkiv_storage_service.Store.Glob.Prefix.{glob_match-eq-has_prefix}
use arkiv_storage_service.Store.PrefixRange.{prefix_successor, below, has_prefix-eq-range}

-- A search with two stars.
glob_match_iff_example :
    (glob_match (codes "a*b*c") (codes "aXbbYc") ≡ true) ↔ Matches (codes "a*b*c") (codes "aXbbYc")
glob_match_iff_example = glob_match_iff (codes "a*b*c") (codes "aXbbYc")

-- A pattern that ends in a star.
glob_match-eq-has_prefix_example :
    glob_match (codes "ab*") (codes "abc") ≡ has_prefix (codes "ab") (codes "abc")
unfolding is_prefix_glob
glob_match-eq-has_prefix_example = glob_match-eq-has_prefix (codes "ab*") (codes "abc") refl

-- A prefix that ends in 0xFF.
has_prefix-eq-range_example : has_prefix (97 ∷ 255 ∷ []) (97 ∷ 255 ∷ 3 ∷ []) ≡ (
    not (lt (97 ∷ 255 ∷ 3 ∷ []) (97 ∷ 255 ∷ []))
    && below (prefix_successor (97 ∷ 255 ∷ [])) (97 ∷ 255 ∷ 3 ∷ []))
has_prefix-eq-range_example =
    has_prefix-eq-range (97 ∷ 255 ∷ []) (97 ∷ 255 ∷ 3 ∷ []) (omega arith, (omega arith, tt))
      (omega arith, (omega arith, (omega arith, tt)))

-- A key is equal to itself.
encode_injective_example : annot (codes "a") (codes "b") ≡ annot (codes "a") (codes "b")
encode_injective_example =
    encode_injective (annot (codes "a") (codes "b")) (annot (codes "a") (codes "b")) refl refl refl

-- The head of block 258.
decode_head-encode_head_example :
    decode_head (encode_head 258 (replicate 32 1) (replicate 32 2))
    ≡ ok (record { number = 258; hash = replicate 32 1; root = replicate 32 2 })
decode_head-encode_head_example =
    decode_head-encode_head 258 (replicate 32 1) (replicate 32 2) (omega arith) refl refl

-- 255 before 256.
lt-numeric_val_example : lt (numeric_val 255) (numeric_val 256) ≡ ltb 255 256
lt-numeric_val_example = lt-numeric_val 255 256 (omega arith) (omega arith)

-- Nine bytes, of which the first is dropped.
attr_uint64-mod_example :
    attr_uint64 (7 ∷ 0 ∷ 0 ∷ 0 ∷ 0 ∷ 0 ∷ 0 ∷ 1 ∷ 2 ∷ [])
    ≡ value_from 0 (7 ∷ 0 ∷ 0 ∷ 0 ∷ 0 ∷ 0 ∷ 0 ∷ 1 ∷ 2 ∷ []) % 2 ^ 64
attr_uint64-mod_example = attr_uint64-mod (7 ∷ 0 ∷ 0 ∷ 0 ∷ 0 ∷ 0 ∷ 0 ∷ 1 ∷ 2 ∷ []) (
  omega arith,
  (
    omega arith,
    (
      omega arith,
      (omega arith, (omega arith, (omega arith, (omega arith, (omega arith, (omega arith, tt)))))),
    ),
  ),
)
