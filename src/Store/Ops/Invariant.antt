-- ===== src/Store/Ops/Invariant.antt =====
-- Every operation keeps the index invariant.
use arkiv_storage_service.Base.{◌+◌, ◌<◌, ◌^◌, ◌≡◌, false, none, ok, arith}
use arkiv_storage_service.Bytes.{beq}
use arkiv_storage_service.Platform.{Platform}
use arkiv_storage_service.Types.{
  ArkivOperation, create, update, delete, extend, transfer, expire, unset,
}
use arkiv_storage_service.Store.Entity.Plain.{PlainNames}
use arkiv_storage_service.Store.Cache.{Codec, CacheStore, read_entity_count, system_address}
use arkiv_storage_service.Store.Cache.Views.{entity_at}
use arkiv_storage_service.Store.Ops.{address_of, process_delete, process_expire, apply_op}
use arkiv_storage_service.Store.Ops.Index.{IsIndexed}
use arkiv_storage_service.Store.Ops.Existing.{
  process_update-IsIndexed, process_extend-IsIndexed, process_transfer-IsIndexed,
}
use arkiv_storage_service.Store.Ops.Removal.{SlotsApart, delete_entity-IsIndexed}
use arkiv_storage_service.Store.Ops.Creation.{process_create-IsIndexed}

module _ (P : Platform) (C : Codec) where
  -- What the chain promises of an operation: an entity is created where none is, and no attribute
  -- has a reserved name. The counter is not at its end.
  abbrev pub Admits : CacheStore P C → ArkivOperation → Type 0
  Admits c (create op) =
      (read_entity_count P C c.state + 1 < 2 ^ 64)
      × (entity_at P C c (address_of op.entity_key) ≡ none)
      × (beq (address_of op.entity_key) (system_address P C) ≡ false)
      × PlainNames op.attributes
  Admits c (update op) = PlainNames op.attributes
  Admits c (delete op) = Unit
  Admits c (extend op) = Unit
  Admits c (transfer op) = Unit
  Admits c (expire op) = Unit
  Admits c unset = Unit

  -- An operation that succeeds keeps the index invariant: each bitmap of a pair whose name has no
  -- NUL holds exactly the ids of the live entities with the pair. The slots of the ids are not the
  -- slot of the counter, and the operation is admitted: a creation is at an address without an
  -- entity that is not the system account's, with the counter not at its end, and no attribute has
  -- a reserved name.
  pub apply_op-IsIndexed :
      (c c' : CacheStore P C) (op : ArkivOperation)
      → SlotsApart P C
      → IsIndexed P C c
      → Admits c op
      → apply_op P C c op ≡ ok c'
      → IsIndexed P C c'
  unfolding apply_op process_delete process_expire
  apply_op-IsIndexed c c' (create op) apart h (small, absent, other, names) run =
      process_create-IsIndexed P C c c' op apart h small absent other names run
  apply_op-IsIndexed c c' (update op) apart h names run =
      process_update-IsIndexed P C c c' op h names run
  apply_op-IsIndexed c c' (delete op) apart h a run =
      delete_entity-IsIndexed P C c c' (address_of op.entity_key) apart h run
  apply_op-IsIndexed c c' (extend op) apart h a run = process_extend-IsIndexed P C c c' op h run
  apply_op-IsIndexed c c' (transfer op) apart h a run = process_transfer-IsIndexed P C c c' op h run
  apply_op-IsIndexed c c' (expire op) apart h a run =
      delete_entity-IsIndexed P C c c' (address_of op.entity_key) apart h run
  apply_op-IsIndexed c c' unset apart h a run = ground arith
