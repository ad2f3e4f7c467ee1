-- ===== src/Examples/Serving.antt =====
-- A store with one pointer, synced with its trie.
use mathlib.Core.Bool.{false≢true}
use arkiv_storage_service.Base.{
  ℕ, ◌≡◌, refl, sym, ◌∙◌, false, List, [], ◌∷◌, ◌++◌, replicate, length, none, some, ok,
  if◌then◌else◌, Bool-cases, inl, inr, arith, subst,
}
use arkiv_storage_service.Base.Assoc.{lookup}
use arkiv_storage_service.Bytes.{Bytes, AreBytes, codes, beq}
use arkiv_storage_service.Bytes.Order.{beq_iff}
use arkiv_storage_service.Bytes.BigEndian.{put_uint64}
use arkiv_storage_service.Platform.Sample.{sample_platform, state_at, Accounts}
use arkiv_storage_service.Platform.Sample.Listed.{key_eq}
use arkiv_storage_service.Store.Keys.{annot_key, bitmap_key}
use arkiv_storage_service.Store.Cache.{Codec, zero_hash}
use arkiv_storage_service.Store.Flush.{annot_slot_key}
use arkiv_storage_service.Store.Reading.{Store, open_state_at}
use arkiv_storage_service.Store.Scan.{indexed}
use arkiv_storage_service.Store.Scan.Range.{HasByteKeys}
use arkiv_storage_service.Query.Evaluate.Contract.{Serves}
use arkiv_storage_service.Query.Serving.{store_querier}
use arkiv_storage_service.Query.Serving.Synced.{IsSynced, slot, scanned_index, store_querier-Serves}

abbrev nines : Bytes
nines = replicate 32 9

abbrev pointer_key : Bytes
pointer_key = annot_key (codes "size") (put_uint64 5)

abbrev blob_key : Bytes
blob_key = bitmap_key nines

abbrev bare_codec : Codec
bare_codec = record { encode_entity = λ e. none; decode_entity = λ d. none }

abbrev pointing : Store sample_platform bare_codec
pointing = record {
  raw_db = (pointer_key, nines) ∷ (blob_key, 3 ∷ []) ∷ [];
  head_root = replicate 32 5;
  head_hash = replicate 32 1;
  head_number = 1;
}

abbrev fives : Accounts
fives = state_at (replicate 32 5)

pointer_key-AreBytes : AreBytes pointer_key
unfolding annot_key put_uint64
pointer_key-AreBytes = omega arith

blob_key-AreBytes : AreBytes blob_key
unfolding bitmap_key
blob_key-AreBytes = omega arith

not_there : {v : Bytes} → none ≡ some v → ⊥
not_there h = cc

pointing-HasByteKeys : HasByteKeys sample_platform pointing.raw_db
unfolding lookup
pointing-HasByteKeys k v h = elim (Bool-cases (beq pointer_key k)) [
  | inl e ↦ subst AreBytes ((beq_iff pointer_key k).0 e) pointer_key-AreBytes
  | inr e ↦ elim (Bool-cases (beq blob_key k)) [
    | inl e' ↦ subst AreBytes ((beq_iff blob_key k).0 e') blob_key-AreBytes
    | inr e' ↦ absurd (not_there (sym (rw e (rw e' refl)) ∙ h))
  ]
]

opened : open_state_at sample_platform bare_codec pointing 0 ≡ ok fives
unfolding open_state_at
opened = refl

pointers :
    (k v : Bytes)
    → lookup key_eq (annot_key k v) pointing.raw_db ≡ (
        if beq (slot sample_platform bare_codec pointing fives k v) zero_hash
        then none
        else some (slot sample_platform bare_codec pointing fives k v))
unfolding lookup annot_slot_key annot_key bitmap_key beq put_uint64
pointers k v = elim (Bool-cases (beq (codes "size" ++ 0 ∷ put_uint64 5) ((k ++ 0 ∷ []) ++ v))) [
  | inl e ↦ rw e refl
  | inr e ↦ rw e refl
]

blobs :
    (k v : Bytes)
    → beq (slot sample_platform bare_codec pointing fives k v) zero_hash ≡ false
    → (length (slot sample_platform bare_codec pointing fives k v) ≡ 32)
      × (c : ℕ) × (d : Bytes) × (b : List ℕ) × (lookup key_eq
            (bitmap_key (slot sample_platform bare_codec pointing fives k v))
            pointing.raw_db
          ≡ some (c ∷ d))
      × (some (c ∷ d) ≡ some b)
unfolding lookup annot_slot_key annot_key bitmap_key beq put_uint64
blobs k v h = elim (Bool-cases (beq (codes "size" ++ 0 ∷ put_uint64 5) ((k ++ 0 ∷ []) ++ v))) [
  | inl e ↦ rw e (refl, 3, [], 3 ∷ [], refl, refl)
  | inr e ↦ absurd (false≢true (sym h ∙ rw e refl))
]

pointing-IsSynced : IsSynced sample_platform bare_codec pointing fives
pointing-IsSynced = record { opens = opened; pointer = pointers; blob = blobs }

-- The queries over this store read its index.
store_querier-Serves_example :
    Serves sample_platform.roaring
      (store_querier sample_platform bare_codec pointing)
      0
      (indexed sample_platform pointing.raw_db)
      (scanned_index sample_platform pointing.raw_db)
      (indexed sample_platform pointing.raw_db (codes "$all") (codes "true"))
store_querier-Serves_example =
    store_querier-Serves sample_platform bare_codec pointing fives pointing-IsSynced
      pointing-HasByteKeys
