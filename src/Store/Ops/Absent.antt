-- ===== src/Store/Ops/Absent.antt =====
-- Operations at an address that holds no entity.
use arkiv_storage_service.Base.{
  ◌≡◌, refl, sym, ap, ◌∙◌, none, some, Failure, error, Result, ok, fail, ◌>>=◌, arith,
}
use arkiv_storage_service.Bytes.{Bytes}
use arkiv_storage_service.Platform.{Platform}
use arkiv_storage_service.Types.{
  ArkivOperation, create, update, delete, extend, transfer, expire, unset,
}
use arkiv_storage_service.Store.Entity.{Entity}
use arkiv_storage_service.Store.Cache.{Codec, CacheStore, get_entity}
use arkiv_storage_service.Store.Cache.Views.{entity_at, get_entity-Fetched}
use arkiv_storage_service.Store.Ops.{
  address_of, process_update, delete_entity, process_delete, process_extend, process_transfer,
  process_expire, apply_op,
}

module _ (P : Platform) (C : Codec) where
  abbrev pub Fails {ℓ} : {A : Type ℓ} → Result A → Type ℓ
  Fails {A} r = (f : Failure) × (r ≡ fail f)

  get_entity-Fails :
      (c : CacheStore P C) (addr : Bytes)
      → entity_at P C c addr ≡ none
      → Fails (get_entity P C c addr)
  get_entity-Fails c addr h = go (get_entity P C c addr) refl
    where
      go :
          (r : Result (Entity × CacheStore P C))
          → get_entity P C c addr ≡ r
          → Fails (get_entity P C c addr)
      go (fail f) p = (f, p)
      go (ok (e, c')) p =
          let found : none ≡ some e = sym h ∙ (get_entity-Fetched P C c addr p).found in
          ground arith

  -- The operation needs an entity, and none is at its address.
  abbrev pub Misses : CacheStore P C → ArkivOperation → Type 0
  Misses c (create op) = ⊥
  Misses c (update op) = entity_at P C c (address_of op.entity_key) ≡ none
  Misses c (delete op) = entity_at P C c (address_of op.entity_key) ≡ none
  Misses c (extend op) = entity_at P C c (address_of op.entity_key) ≡ none
  Misses c (transfer op) = entity_at P C c (address_of op.entity_key) ≡ none
  Misses c (expire op) = entity_at P C c (address_of op.entity_key) ≡ none
  Misses c unset = Unit

  then-Fails :
      (c : CacheStore P C) (addr : Bytes) (next : Entity × CacheStore P C → Result (CacheStore P C))
      → entity_at P C c addr ≡ none
      → Fails (get_entity P C c addr >>= next)
  then-Fails c addr next h = let (f, p) = get_entity-Fails c addr h in (f, ap (λ r. r >>= next) p)

  -- Where no entity is, an operation other than a creation fails; an empty operation always does.
  pub apply_op-Fails :
      (c : CacheStore P C) (op : ArkivOperation) → Misses c op → Fails (apply_op P C c op)
  unfolding apply_op process_update process_delete delete_entity process_extend process_transfer
      process_expire
  apply_op-Fails c (create op) h = absurd h
  apply_op-Fails c (update op) h = then-Fails c (address_of op.entity_key) _ h
  apply_op-Fails c (delete op) h = then-Fails c (address_of op.entity_key) _ h
  apply_op-Fails c (extend op) h = then-Fails c (address_of op.entity_key) _ h
  apply_op-Fails c (transfer op) h = then-Fails c (address_of op.entity_key) _ h
  apply_op-Fails c (expire op) h = then-Fails c (address_of op.entity_key) _ h
  apply_op-Fails c unset h = (error "empty operation", refl)
