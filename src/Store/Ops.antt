-- ===== src/Store/Ops.antt =====
-- The operations of a block on its write buffer (store/ops.go). An operation that fails leaves
-- nothing behind: the caller discards the buffer. Errors are passed on without their added text.
-- Go visits a map in any order; the loops over a set of pairs visit it in the order of its list.
pub mod Frame
pub mod Views
pub mod Effect
pub mod Index
pub mod Existing
pub mod Removal
pub mod Creation
pub mod Invariant
pub mod Absent
pub mod Present
use arkiv_storage_service.Base.{
  ℕ, Bool, true, false, List, [], ◌∷◌, take, if◌then◌else◌, Option, none, some, Result, ok, fail,
  error, ◌>>=◌,
}
use arkiv_storage_service.Base.Assoc
use arkiv_storage_service.Bytes.{Bytes, codes}
use arkiv_storage_service.Platform.{Platform}
use arkiv_storage_service.Types.{
  CreateOp, UpdateOp, DeleteOp, ExtendOp, TransferOp, ExpireOp, ArkivOperation, create, update,
  delete, extend, transfer, expire, unset,
}
use arkiv_storage_service.Store.Keys.{id_key, addr_key, numeric_val, encode_uint64, decode_uint64}
use arkiv_storage_service.Store.Entity.{
  Entity, AnnotPair, has_pair, annot_pair_set, all_annotations, apply_attributes,
}
use arkiv_storage_service.Store.Cache.{
  bytes_eq, Codec, CacheStore, staging_get, staging_put, increment_entity_count, set_id_slot,
  clear_id_slot, get_entity, bitmap_add, bitmap_remove,
}

-- `common.Address(op.EntityKey[:20])`
abbrev pub address_of : Bytes → Bytes
address_of entity_key = take 20 entity_key

-- the pairs of the first list that are not in the second
unfoldable pub not_in : List AnnotPair → List AnnotPair → List AnnotPair
not_in [] others = []
not_in (pair ∷ pairs) others =
    if has_pair others pair then not_in pairs others else pair ∷ not_in pairs others

module _ (P : Platform) (C : Codec) where
  -- the loop of `processCreate`
  unfoldable pub add_all : CacheStore P C → List AnnotPair → ℕ → Result (CacheStore P C)
  add_all c [] entity_id = ok c
  add_all c (pair ∷ pairs) entity_id = do
    c' ← bitmap_add P C c pair entity_id
    add_all c' pairs entity_id

  -- the loop of `deleteEntity`
  unfoldable pub remove_all : CacheStore P C → List AnnotPair → ℕ → Result (CacheStore P C)
  remove_all c [] entity_id = ok c
  remove_all c (pair ∷ pairs) entity_id = do
    c' ← bitmap_remove P C c pair entity_id
    remove_all c' pairs entity_id

  -- the entity that `processCreate` builds, before its attributes
  abbrev pub new_entity : ℕ → CreateOp → Entity
  new_entity block_number op = record {
    payload = op.payload;
    owner = op.owner;
    creator = op.sender;
    expires_at = op.expires_at;
    created_at_block = block_number;
    last_modified_at_block = block_number;
    transaction_index_in_block = op.tx_index;
    operation_index_in_transaction = op.op_index;
    content_type = op.content_type;
    key = op.entity_key;
    string_annotations = [];
    numeric_annotations = [];
  }

  unfoldable pub process_create : CacheStore P C → CreateOp → Result (CacheStore P C)
  unfolding add_all
  process_create c op =
      let addr = address_of op.entity_key in
      let (entity_id, counted) = increment_entity_count P C c.state in
      let state' = set_id_slot P C (P.state_db.create_account counted addr) entity_id addr in
      let staged =
        staging_put P C (staging_put P C c.staging_db (id_key entity_id) addr) (addr_key addr)
          (encode_uint64 entity_id) in
      let entity = apply_attributes P.text (new_entity c.block_number op) op.attributes in
      let c' : CacheStore P C = record c {
        staging_db = staged;
        state = state';
        dirty_entities = Assoc.insert bytes_eq addr entity c.dirty_entities;
      } in
      add_all c' (all_annotations P.text entity) entity_id

  -- `cs.stagingDB.Get(addrKey(addr))` and `decodeUint64`
  unfoldable pub entity_id_of : CacheStore P C → Bytes → Result ℕ
  entity_id_of c addr = elim (staging_get P C c.staging_db (addr_key addr)) [
    | some id_bytes ↦ decode_uint64 id_bytes
    | none ↦ fail (error "entity ID not found")
  ]

  -- the entity that `processUpdate` builds, before its attributes
  abbrev pub updated_entity : ℕ → Entity → UpdateOp → Entity
  updated_entity block_number old op = record {
    payload = op.payload;
    owner = old.owner;
    creator = old.creator;
    expires_at = old.expires_at;
    created_at_block = old.created_at_block;
    last_modified_at_block = block_number;
    transaction_index_in_block = old.transaction_index_in_block;
    operation_index_in_transaction = old.operation_index_in_transaction;
    content_type = op.content_type;
    key = old.key;
    string_annotations = [];
    numeric_annotations = [];
  }

  -- `cs.dirtyEntities[addr] = entity`
  abbrev pub set_entity : CacheStore P C → Bytes → Entity → CacheStore P C
  set_entity c addr entity = record c {
    dirty_entities = Assoc.insert bytes_eq addr entity c.dirty_entities;
  }

  unfoldable pub process_update : CacheStore P C → UpdateOp → Result (CacheStore P C)
  unfolding entity_id_of add_all remove_all not_in
  process_update c op = do
    let addr = address_of op.entity_key
    (old, c₁) ← get_entity P C c addr
    entity_id ← entity_id_of c₁ addr
    let updated = apply_attributes P.text (updated_entity c.block_number old op) op.attributes
    let old_set = annot_pair_set (all_annotations P.text old)
    let new_set = annot_pair_set (all_annotations P.text updated)
    c₂ ← remove_all c₁ (not_in old_set new_set) entity_id
    c₃ ← add_all c₂ (not_in new_set old_set) entity_id
    ok (set_entity c₃ addr updated)

  unfoldable pub delete_entity : CacheStore P C → Bytes → Result (CacheStore P C)
  unfolding entity_id_of remove_all
  delete_entity c addr = do
    (entity, c₁) ← get_entity P C c addr
    entity_id ← entity_id_of c₁ addr
    c₂ ← remove_all c₁ (all_annotations P.text entity) entity_id
    ok (record c₂ {
      state = P.state_db.set_code (clear_id_slot P C c₂.state entity_id) addr [];
      dirty_entities = Assoc.without bytes_eq addr c₂.dirty_entities;
    })

  unfoldable pub process_delete : CacheStore P C → DeleteOp → Result (CacheStore P C)
  unfolding delete_entity
  process_delete c op = delete_entity c (address_of op.entity_key)

  unfoldable pub process_expire : CacheStore P C → ExpireOp → Result (CacheStore P C)
  unfolding delete_entity
  process_expire c op = delete_entity c (address_of op.entity_key)

  -- The entity is a pointer into the cache: writing its field writes the cached entity.
  unfoldable pub process_extend : CacheStore P C → ExtendOp → Result (CacheStore P C)
  unfolding entity_id_of
  process_extend c op = do
    let addr = address_of op.entity_key
    (entity, c₁) ← get_entity P C c addr
    entity_id ← entity_id_of c₁ addr
    c₂ ← bitmap_remove P C c₁ (codes "$expiration", numeric_val entity.expires_at) entity_id
    let c₃ = set_entity c₂ addr (record entity { expires_at = op.expires_at })
    bitmap_add P C c₃ (codes "$expiration", numeric_val op.expires_at) entity_id

  abbrev pub owner_pair : Bytes → AnnotPair
  owner_pair owner = (codes "$owner", P.text.to_lower (P.text.address_hex owner))

  unfoldable pub process_transfer : CacheStore P C → TransferOp → Result (CacheStore P C)
  unfolding entity_id_of
  process_transfer c op = do
    let addr = address_of op.entity_key
    (entity, c₁) ← get_entity P C c addr
    entity_id ← entity_id_of c₁ addr
    c₂ ← bitmap_remove P C c₁ (owner_pair entity.owner) entity_id
    let c₃ = set_entity c₂ addr (record entity { owner = op.owner })
    bitmap_add P C c₃ (owner_pair op.owner) entity_id

  -- `applyOp`
  unfoldable pub apply_op : CacheStore P C → ArkivOperation → Result (CacheStore P C)
  unfolding process_create process_update process_delete process_extend process_transfer
      process_expire
  apply_op c (create op) = process_create c op
  apply_op c (update op) = process_update c op
  apply_op c (delete op) = process_delete c op
  apply_op c (extend op) = process_extend c op
  apply_op c (transfer op) = process_transfer c op
  apply_op c (expire op) = process_expire c op
  apply_op c unset = fail (error "empty operation")
