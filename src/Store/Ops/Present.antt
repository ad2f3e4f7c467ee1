-- ===== src/Store/Ops/Present.antt =====
-- Operations at an address that holds an entity, over bitmaps that can be read.
use arkiv_storage_service.Base.{
  ℕ, ◌+◌, ◌%◌, ◌^◌, ◌≡◌, ◌≢◌, refl, sym, ap, ◌∙◌, List, [], ◌∷◌, Bool-cases, inl, inr, some,
  Failure, Result, ok, fail, ◌>>=◌, arith,
}
use arkiv_storage_service.Base.Assoc
use arkiv_storage_service.Bytes.{Bytes, codes}
use arkiv_storage_service.Platform.{Platform}
use arkiv_storage_service.Types.{
  CreateOp, UpdateOp, ArkivOperation, create, update, delete, extend, transfer, expire, unset,
}
use arkiv_storage_service.Store.Keys.{numeric_val}
use arkiv_storage_service.Store.Entity.{
  Entity, AnnotPair, same_pair, annot_pair_set, all_annotations, apply_attributes,
}
use arkiv_storage_service.Store.Cache.{
  pair_eq, read_entity_count, increment_entity_count, Codec, CacheStore, get_entity, cached_bitmap,
  mutate_bitmap, bitmap_add, bitmap_remove,
}
use arkiv_storage_service.Store.Cache.Views.{entity_at, get_entity-Fetched, mutate_bitmap-Mutated}
use arkiv_storage_service.Store.Ops.{
  address_of, add_all, remove_all, not_in, entity_id_of, updated_entity, set_entity, owner_pair,
  new_entity, process_create, process_update, delete_entity, process_delete, process_extend,
  process_transfer, process_expire, apply_op,
}
use arkiv_storage_service.Store.Ops.Index.{Live}
use arkiv_storage_service.Store.Ops.Creation.{created, created_bitmaps}
use arkiv_storage_service.Store.Ops.Effect.{entity_id_of-staging, cached_bitmap-same}

module _ (P : Platform) (C : Codec) where
  -- every bitmap can be read
  abbrev pub IsReadable : CacheStore P C → Type 0
  IsReadable c = (q : AnnotPair) → (bm : P.roaring.Bitmap) × (cached_bitmap P C c q ≡ ok bm)

  -- a result whose bitmaps can be read
  abbrev pub Succeeds : Result (CacheStore P C) → Type 0
  Succeeds r = (c' : CacheStore P C) × (r ≡ ok c') × IsReadable c'

  -- A buffer that differs in its entities and its state at most.
  kept :
      (c c' : CacheStore P C)
      → c'.staging_db ≡ c.staging_db
      → c'.dirty_bitmaps ≡ c.dirty_bitmaps
      → IsReadable c
      → IsReadable c'
  kept c c' s d h q = let (bm, k) = h q in (bm, cached_bitmap-same P C c c' q s d ∙ k)

  then-Succeeds :
      {A : Type 0} (m : Result A) (next : A → Result (CacheStore P C)) (a : A)
      → m ≡ ok a
      → Succeeds (next a)
      → Succeeds (m >>= next)
  then-Succeeds m next a p (c', q, h) = (c', ap (λ r. r >>= next) p ∙ q, h)

  mutate_bitmap-Succeeds :
      (c : CacheStore P C) (p : AnnotPair) (f : P.roaring.Bitmap → P.roaring.Bitmap)
      → IsReadable c
      → Succeeds (mutate_bitmap P C c p f)
  unfolding mutate_bitmap
  mutate_bitmap-Succeeds c p f h =
      let (bm, e) = h p in
      let c' : CacheStore P C = record c {
        dirty_bitmaps = Assoc.insert pair_eq p (f bm) c.dirty_bitmaps;
      } in
      let run : mutate_bitmap P C c p f ≡ ok c' = rw e in
      let m = mutate_bitmap-Mutated P C c p f run in
      (
        c',
        run,
        λ q. elim (Bool-cases (same_pair p q)) [
          | inl same ↦ (f m.before, m.after q ∙ rw same)
          | inr other ↦ let (b, k) = h q in (b, (m.after q ∙ rw other) ∙ k)
        ],
      )

  add_all-Succeeds :
      (c : CacheStore P C) (ps : List AnnotPair) (id : ℕ)
      → IsReadable c
      → Succeeds (add_all P C c ps id)
  unfolding add_all bitmap_add
  add_all-Succeeds c [] id h = (c, refl, h)
  add_all-Succeeds c (p ∷ ps) id h =
      let (c₁, run, h₁) = mutate_bitmap-Succeeds c p (λ bm. P.roaring.add bm id) h in
      then-Succeeds (bitmap_add P C c p id) _ c₁ run (add_all-Succeeds c₁ ps id h₁)

  remove_all-Succeeds :
      (c : CacheStore P C) (ps : List AnnotPair) (id : ℕ)
      → IsReadable c
      → Succeeds (remove_all P C c ps id)
  unfolding remove_all bitmap_remove
  remove_all-Succeeds c [] id h = (c, refl, h)
  remove_all-Succeeds c (p ∷ ps) id h =
      let (c₁, run, h₁) = mutate_bitmap-Succeeds c p (λ bm. P.roaring.remove bm id) h in
      then-Succeeds (bitmap_remove P C c p id) _ c₁ run (remove_all-Succeeds c₁ ps id h₁)

  no_failure :
      (c : CacheStore P C) (addr : Bytes) (e : Entity) (f : Failure)
      → entity_at P C c addr ≡ some e
      → get_entity P C c addr ≢ fail f
  unfolding get_entity entity_at
  no_failure c addr e f h p = ground arith

  fetch_present :
      (c : CacheStore P C) (addr : Bytes) (e : Entity)
      → entity_at P C c addr ≡ some e
      → (c' : CacheStore P C) × (get_entity P C c addr ≡ ok (e, c'))
  fetch_present c addr e h = go (get_entity P C c addr) refl
    where
      go :
          (r : Result (Entity × CacheStore P C))
          → get_entity P C c addr ≡ r
          → (c' : CacheStore P C) × (get_entity P C c addr ≡ ok (e, c'))
      go (fail f) p = absurd (no_failure c addr e f h p)
      go (ok (e', c')) p =
          let found = (get_entity-Fetched P C c addr p).found in
          let same : some e' ≡ some e = sym found ∙ h in
          let is : e' ≡ e = cc in (c', p ∙ ap (λ x. ok (x, c')) is)

  module _ (c : CacheStore P C)
      (identified : (a : Bytes) (e : Entity)
        → entity_at P C c a ≡ some e
        → (j : ℕ) × Live P C c a e j)
      (readable : IsReadable c) where
    -- The entity and its id are found, and the rest of the operation starts.
    start-Succeeds :
        (addr : Bytes) (e : Entity) (next : Entity → CacheStore P C → ℕ → Result (CacheStore P C))
        → entity_at P C c addr ≡ some e
        → ((c₁ : CacheStore P C) (id : ℕ) → IsReadable c₁ → Succeeds (next e c₁ id))
        → Succeeds (
            get_entity P C c addr >>= λ ((e', c₁) : Entity × CacheStore P C).
            entity_id_of P C c₁ addr >>= λ id. next e' c₁ id)
    start-Succeeds addr e next at rest =
        let (c₁, got) = fetch_present c addr e at in
        let f = get_entity-Fetched P C c addr got in
        let (id, l) = identified addr e at in
        then-Succeeds (get_entity P C c addr) _ (e, c₁) got
          (then-Succeeds (entity_id_of P C c₁ addr) _ id
            (entity_id_of-staging P C c c₁ addr f.same_staging ∙ l.id)
            (rest c₁ id (kept c c₁ f.same_staging f.same_bitmaps readable)))

    replace-Succeeds :
        (c₁ : CacheStore P C) (id : ℕ) (addr : Bytes) (new : Entity) (p p' : AnnotPair)
        → IsReadable c₁
        → Succeeds
            (bitmap_remove P C c₁ p id >>= λ c₂. bitmap_add P C (set_entity P C c₂ addr new) p' id)
    unfolding bitmap_remove bitmap_add cached_bitmap
    replace-Succeeds c₁ id addr new p p' h =
        let (c₂, removed, h₂) = mutate_bitmap-Succeeds c₁ p (λ bm. P.roaring.remove bm id) h in
        let (c₃, added, h₃) =
          mutate_bitmap-Succeeds (set_entity P C c₂ addr new) p' (λ bm. P.roaring.add bm id)
            (kept c₂ (set_entity P C c₂ addr new) refl refl h₂) in
        then-Succeeds (bitmap_remove P C c₁ p id) _ c₂ removed (c₃, added, h₃)

    delete_entity-Succeeds :
        (addr : Bytes) (e : Entity)
        → entity_at P C c addr ≡ some e
        → Succeeds (delete_entity P C c addr)
    unfolding delete_entity
    delete_entity-Succeeds addr e at = start-Succeeds addr e _ at (λ c₁ id h.
        let (c₂, removed, h₂) = remove_all-Succeeds c₁ (all_annotations P.text e) id h in
        then-Succeeds (remove_all P C c₁ (all_annotations P.text e) id) _ c₂ removed
          (_, refl, kept c₂ _ refl refl h₂))

    -- An entity is at the address of the operation; a creation needs none.
    abbrev pub Hits : ArkivOperation → Type 0
    Hits (create op) = Unit
    Hits (update op) = (e : Entity) × (entity_at P C c (address_of op.entity_key) ≡ some e)
    Hits (delete op) = (e : Entity) × (entity_at P C c (address_of op.entity_key) ≡ some e)
    Hits (extend op) = (e : Entity) × (entity_at P C c (address_of op.entity_key) ≡ some e)
    Hits (transfer op) = (e : Entity) × (entity_at P C c (address_of op.entity_key) ≡ some e)
    Hits (expire op) = (e : Entity) × (entity_at P C c (address_of op.entity_key) ≡ some e)
    Hits unset = ⊥

    create-Succeeds : (op : CreateOp) → Succeeds (process_create P C c op)
    unfolding process_create increment_entity_count
    create-Succeeds op =
        let addr = address_of op.entity_key in
        let id : ℕ = (read_entity_count P C c.state + 1) % 2 ^ 64 in
        let e = apply_attributes P.text (new_entity P C c.block_number op) op.attributes in
        let (c', run, h) =
          add_all-Succeeds (created P C c id addr e) (all_annotations P.text e) id
            (λ q. let (bm, k) = readable q in (bm, created_bitmaps P C c id addr e q ∙ k)) in
        (c', run, h)

    update-Succeeds :
        (op : UpdateOp) (e : Entity)
        → entity_at P C c (address_of op.entity_key) ≡ some e
        → Succeeds (process_update P C c op)
    unfolding process_update
    update-Succeeds op e at = start-Succeeds (address_of op.entity_key) e _ at (λ c₁ id h.
        let new = apply_attributes P.text (updated_entity P C c.block_number e op) op.attributes in
        let os = annot_pair_set (all_annotations P.text e) in
        let ns = annot_pair_set (all_annotations P.text new) in
        let (c₂, removed, h₂) = remove_all-Succeeds c₁ (not_in os ns) id h in
        let (c₃, added, h₃) = add_all-Succeeds c₂ (not_in ns os) id h₂ in
        then-Succeeds (remove_all P C c₁ (not_in os ns) id) _ c₂ removed (
          then-Succeeds (add_all P C c₂ (not_in ns os) id) _ c₃ added
            (_, refl, kept c₃ (set_entity P C c₃ (address_of op.entity_key) new) refl refl h₃)))

    -- Where every entity has an id and every bitmap can be read, an operation succeeds: a creation always,
    -- and each of the others where an entity is at its address. Its result can be read again.
    pub apply_op-Succeeds : (op : ArkivOperation) → Hits op → Succeeds (apply_op P C c op)
    unfolding apply_op process_delete process_expire process_extend process_transfer
    apply_op-Succeeds (create op) h = create-Succeeds op
    apply_op-Succeeds (update op) (e, at) = update-Succeeds op e at
    apply_op-Succeeds (delete op) (e, at) = delete_entity-Succeeds (address_of op.entity_key) e at
    apply_op-Succeeds (extend op) (e, at) =
        start-Succeeds (address_of op.entity_key) e _ at (λ c₁ id h.
          replace-Succeeds c₁ id (address_of op.entity_key)
            (record e { expires_at = op.expires_at })
            (codes "$expiration", numeric_val e.expires_at)
            (codes "$expiration", numeric_val op.expires_at) h)
    apply_op-Succeeds (transfer op) (e, at) =
        start-Succeeds (address_of op.entity_key) e _ at (λ c₁ id h.
          replace-Succeeds c₁ id (address_of op.entity_key) (record e { owner = op.owner })
            (owner_pair P C e.owner) (owner_pair P C op.owner) h)
    apply_op-Succeeds (expire op) (e, at) = delete_entity-Succeeds (address_of op.entity_key) e at
    apply_op-Succeeds unset h = absurd h
