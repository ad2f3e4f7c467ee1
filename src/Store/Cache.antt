-- ===== src/Store/Cache.antt =====
-- The write buffer of a block (store/staging.go), the system account (store/system.go) and the
-- bitmap cache (store/bitmap.go).
pub mod Views
pub mod Staging
use arkiv_storage_service.Base.{
  ℕ, ◌+◌, ◌%◌, ◌^◌, Bool, true, false, List, [], ◌∷◌, ◌++◌, drop, replicate, length, ◌==◌,
  if◌then◌else◌, Option, none, some, Result, ok, fail, error, ◌>>=◌, ◌≡◌, ◌↔◌,
}
use arkiv_storage_service.Base.Assoc
use arkiv_storage_service.Base.Assoc.{Eq}
use arkiv_storage_service.Bytes.{Bytes, codes, beq}
use arkiv_storage_service.Bytes.Order.{beq_iff}
use arkiv_storage_service.Bytes.BigEndian.{put_uint64, value_from}
use arkiv_storage_service.Roaring.{Roaring}
use arkiv_storage_service.Platform.{Kv, StateDb, Text, Platform}
use arkiv_storage_service.Store.Keys.{annot_key, bitmap_key}
use arkiv_storage_service.Store.Entity.{Entity, AnnotPair, same_pair}
use arkiv_storage_service.Store.Entity.Laws.{same_pair_iff}

abbrev pub bytes_eq : Eq Bytes
bytes_eq = record { same = beq; same_iff = beq_iff }

abbrev pub pair_eq : Eq AnnotPair
pair_eq = record { same = same_pair; same_iff = same_pair_iff }

-- 32 zero bytes
abbrev pub zero_hash : Bytes
zero_hash = put_uint64 0 ++ (put_uint64 0 ++ (put_uint64 0 ++ put_uint64 0))

-- `encodeEntity` and `decodeEntity`: RLP, by go-ethereum
pub record Codec : Type 0 where
  pub encode_entity : Entity → Option Bytes
  pub decode_entity : Bytes → Option Entity

module _ (P : Platform) (C : Codec) where
  open P use {roaring.{Bitmap}, kv.{Db}, state_db.{State}, text.{keccak}}

  -- the database itself, and the in-memory store in front of it
  pub record StagingDb : Type 0 where
    pub database : Db
    pub staging : Db

  unfoldable pub staging_get : StagingDb → Bytes → Option Bytes
  staging_get s key = elim (P.kv.get s.staging key) [
    | some v ↦ some v
    | none ↦ P.kv.get s.database key
  ]

  unfoldable pub staging_put : StagingDb → Bytes → Bytes → StagingDb
  staging_put s key value = record s { staging = P.kv.put s.staging key value }

  pub record CacheStore : Type 0 where
    pub staging_db : StagingDb
    pub state : State
    pub block_number : ℕ
    pub block_hash : Bytes
    pub parent_hash : Bytes
    pub dirty_entities : List (Bytes × Entity)
    pub dirty_bitmaps : List (AnnotPair × Bitmap)

  -- store/system.go

  abbrev pub system_address : Bytes
  system_address = drop 12 (keccak (codes "arkiv.system"))

  abbrev pub entity_count_slot : Bytes
  entity_count_slot = keccak (codes "entity_count")

  unfoldable pub id_slot_key : ℕ → Bytes
  id_slot_key id = keccak (codes "id" ++ put_uint64 id)

  unfoldable pub init_system_account : State → State
  init_system_account s =
      if P.state_db.exist s system_address
      then s
      else P.state_db.set_nonce (P.state_db.create_account s system_address) system_address 1

  -- the low 8 bytes of the 32-byte slot
  unfoldable pub read_entity_count : State → ℕ
  read_entity_count s =
      value_from 0 (drop 24 (P.state_db.get_state s system_address entity_count_slot))

  abbrev pub zeros : ℕ → Bytes
  zeros n = replicate n 0

  unfoldable pub increment_entity_count : State → ℕ × State
  unfolding read_entity_count
  increment_entity_count s =
      let id : ℕ = (read_entity_count s + 1) % 2 ^ 64 in
      (id, P.state_db.set_state s system_address entity_count_slot (zeros 24 ++ put_uint64 id))

  unfoldable pub set_id_slot : State → ℕ → Bytes → State
  unfolding id_slot_key
  set_id_slot s id addr = P.state_db.set_state s system_address (id_slot_key id) (zeros 12 ++ addr)

  unfoldable pub clear_id_slot : State → ℕ → State
  unfolding id_slot_key
  clear_id_slot s id = P.state_db.set_state s system_address (id_slot_key id) (zeros 32)

  -- `CacheStore.getEntity`: the entity, and the store with the entity in its cache
  unfoldable pub get_entity : CacheStore → Bytes → Result (Entity × CacheStore)
  get_entity c addr = elim (Assoc.lookup bytes_eq addr c.dirty_entities) [
    | some e ↦ ok (e, c)
    | none ↦
        if length (P.state_db.get_code c.state addr) == 0
        then fail (error "entity not found")
        else elim (C.decode_entity (P.state_db.get_code c.state addr)) [
          | some e ↦
              ok (e, record c { dirty_entities = Assoc.insert bytes_eq addr e c.dirty_entities })
          | none ↦ fail (error "decode entity")
        ]
  ]

  -- the first touch of a pair in `mutateBitmap`; a failed read of the pointer counts as none
  unfoldable pub load_bitmap : StagingDb → AnnotPair → Result Bitmap
  unfolding staging_get
  load_bitmap s (key, val) = elim (staging_get s (annot_key key val)) [
    | none ↦ ok P.roaring.empty
    | some old_hash ↦
        if length old_hash == 32
        then elim (staging_get s (bitmap_key old_hash)) [
          | none ↦ fail (error "not found")
          | some data' ↦ elim (P.roaring.unmarshal data') [
            | some bm ↦ ok bm
            | none ↦ fail (error "unmarshal")
          ]
        ]
        else ok P.roaring.empty
  ]

  -- the cached bitmap, or on the first touch the loaded one
  abbrev pub or_load : StagingDb → AnnotPair → Option Bitmap → Result Bitmap
  or_load s pair (some bm) = ok bm
  or_load s pair none = load_bitmap s pair

  unfoldable pub cached_bitmap : CacheStore → AnnotPair → Result Bitmap
  cached_bitmap c pair = or_load c.staging_db pair (Assoc.lookup pair_eq pair c.dirty_bitmaps)

  unfoldable pub mutate_bitmap : CacheStore → AnnotPair → (Bitmap → Bitmap) → Result CacheStore
  unfolding cached_bitmap
  mutate_bitmap c pair mutate = do
    bm ← cached_bitmap c pair
    ok (record c { dirty_bitmaps = Assoc.insert pair_eq pair (mutate bm) c.dirty_bitmaps })

  unfoldable pub bitmap_add : CacheStore → AnnotPair → ℕ → Result CacheStore
  unfolding mutate_bitmap
  bitmap_add c pair entity_id = mutate_bitmap c pair (λ bm. P.roaring.add bm entity_id)

  unfoldable pub bitmap_remove : CacheStore → AnnotPair → ℕ → Result CacheStore
  unfolding mutate_bitmap
  bitmap_remove c pair entity_id = mutate_bitmap c pair (λ bm. P.roaring.remove bm entity_id)
