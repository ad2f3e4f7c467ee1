-- ===== src/Store/Keys/Laws.antt =====
-- Keys of two records are never the same bytes, and what is written is read back.
use arkiv_storage_service.Base.{
  ℕ, zero, suc, ◌^◌, ◌<◌, ◌≡◌, refl, sym, ap, ap₂, ◌∙◌, true, ltb, [], ◌∷◌, ◌++◌, some, length,
  take, drop, ok, arith, append-nil, length-append, append_assoc,
}
use arkiv_storage_service.Bytes.{Bytes, lt}
use arkiv_storage_service.Bytes.BigEndian.{put_uint64}
use arkiv_storage_service.Bytes.BigEndian.Laws.{
  length-put_uint64, uint64-put_uint64, lt-put_uint64, put_uint64_injective,
}
use arkiv_storage_service.Store.Keys.{
  prefix_annot, prefix_pairs, bitmap_key, annot_key, id_key, addr_key, pairs_key, root_key,
  parent_key, block_number_key, encode_head, decode_head, split_pair, Key, bitmap, annot, id, addr,
  pairs, root, parent, block_number, head, encode, no_nul, IsKey, numeric_val,
}

-- A pair of texts around a NUL is split where it was joined.
pub split_pair-append : (k v : Bytes) → no_nul k ≡ true → split_pair (k ++ 0 ∷ v) ≡ some (k, v)
unfolding split_pair
split_pair-append [] v h = refl
split_pair-append (c ∷ k) v h = ground (arith, split_pair-append k v)

separated_injective :
    (k v k' v' : Bytes)
    → no_nul k ≡ true
    → no_nul k' ≡ true
    → k ++ 0 ∷ v ≡ k' ++ 0 ∷ v'
    → (k ≡ k') × (v ≡ v')
separated_injective k v k' v' h h' e =
    ground (arith, split_pair-append k v, split_pair-append k' v', ap split_pair e)

pub regroup : (p k v : Bytes) → ((p ++ k) ++ 0 ∷ []) ++ v ≡ p ++ (k ++ 0 ∷ v)
regroup p k v = append_assoc (p ++ k) (0 ∷ []) v ∙ append_assoc p k (0 ∷ v)

append_cancel : (p s t : Bytes) → p ++ s ≡ p ++ t → s ≡ t
append_cancel [] s t e = e
append_cancel (c ∷ p) s t e = append_cancel p s t (cc)

-- Two keys with a name and a value after one prefix.
pub joined_injective :
    (p k v k' v' : Bytes)
    → no_nul k ≡ true
    → no_nul k' ≡ true
    → ((p ++ k) ++ 0 ∷ []) ++ v ≡ ((p ++ k') ++ 0 ∷ []) ++ v'
    → (k ≡ k') × (v ≡ v')
joined_injective p k v k' v' h h' e =
    separated_injective k v k' v' h h'
      (append_cancel p (k ++ 0 ∷ v) (k' ++ 0 ∷ v') (sym (regroup p k v) ∙ e ∙ regroup p k' v'))

-- No two records share a key: different records have different keys, of one namespace or of two,
-- as long as annotation names hold no NUL and numbers fit 64 bits.
pub encode_injective : (k k' : Key) → IsKey k → IsKey k' → encode k ≡ encode k' → k ≡ k'
unfolding encode bitmap_key annot_key id_key addr_key pairs_key root_key parent_key block_number_key
encode_injective (bitmap h) (bitmap h') w w' e = ap bitmap (cc)
encode_injective (addr h) (addr h') w w' e = ap addr (cc)
encode_injective (root h) (root h') w w' e = ap root (cc)
encode_injective (parent h) (parent h') w w' e = ap parent (cc)
encode_injective (id n) (id n') w w' e = ap id (put_uint64_injective n n' w w' (cc))
encode_injective (block_number n) (block_number n') w w' e =
    ap block_number (put_uint64_injective n n' w w' (cc))
encode_injective (annot k v) (annot k' v') w w' e =
    let (p, q) = joined_injective prefix_annot k v k' v' w w' e in ap₂ annot p q
encode_injective (pairs k v) (pairs k' v') w w' e =
    let (p, q) = joined_injective prefix_pairs k v k' v' w w' e in ap₂ pairs p q
encode_injective head head w w' e = refl
encode_injective _ _ w w' e = ground arith

take-append : (a s : Bytes) (n : ℕ) → length a ≡ n → take n (a ++ s) ≡ a
take-append [] s zero h = refl
take-append [] s (suc n) h = absurd (omega arith)
take-append (c ∷ a) s zero h = absurd (omega arith)
take-append (c ∷ a) s (suc n) h = ap (λ x. c ∷ x) (take-append a s n (omega arith))

drop-append : (a s : Bytes) (n : ℕ) → length a ≡ n → drop n (a ++ s) ≡ s
drop-append [] s zero h = refl
drop-append [] s (suc n) h = absurd (omega arith)
drop-append (c ∷ a) s zero h = absurd (omega arith)
drop-append (c ∷ a) s (suc n) h = drop-append a s n (omega arith)

take_all : (a : Bytes) (n : ℕ) → length a ≡ n → take n a ≡ a
take_all a n h = ap (take n) (sym (append-nil a)) ∙ take-append a [] n h

-- The head record that was written is read back, for 32-byte hashes and a 64-bit number.
pub decode_head-encode_head :
    (number : ℕ) (hash state_root : Bytes)
    → number < 2 ^ 64
    → length hash ≡ 32
    → length state_root ≡ 32
    → decode_head (encode_head number hash state_root)
      ≡ ok (record { number = number; hash = hash; root = state_root })
unfolding decode_head encode_head
decode_head-encode_head number hash r hn hh hr =
    let w = put_uint64 number in
    let hw : length w ≡ 8 = length-put_uint64 number in
    let front : length (w ++ hash) ≡ 40 = omega (arith, length-append w hash) in
    rw (take-append w (hash ++ r) 8 hw) (
      rw (uint64-put_uint64 number hn) (
        rw (drop-append w (hash ++ r) 8 hw) (
          rw (take-append hash r 32 hh) (
            rw (← append_assoc w hash r)
              (rw (drop-append (w ++ hash) r 40 front) (rw (take_all r 32 hr) refl))))))

-- The values of numeric annotations are ordered, as byte strings, like the numbers: a range of
-- keys is a range of 64-bit numbers.
pub lt-numeric_val :
    (a b : ℕ) → a < 2 ^ 64 → b < 2 ^ 64 → lt (numeric_val a) (numeric_val b) ≡ ltb a b
unfolding numeric_val
lt-numeric_val a b = lt-put_uint64 a b
