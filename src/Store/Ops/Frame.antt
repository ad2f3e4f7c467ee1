-- ===== src/Store/Ops/Frame.antt =====
-- What the operations of a block leave as it was: the block's own fields, and the records of the
-- state roots in the database.
use arkiv_storage_service.Base.{
  ℕ, ◌≡◌, refl, ◌∙◌, List, [], ◌∷◌, Option, none, some, length, ◌==◌, if◌then◌else◌, Result, ok,
  fail, error, ◌>>=◌, >>=-eq-ok, subst, true, false, Bool,
}
use arkiv_storage_service.Base.Assoc
use arkiv_storage_service.Bytes.{Bytes, codes, beq}
use arkiv_storage_service.Platform.{Platform}
use arkiv_storage_service.Types.{
  ArkivOperation, ArkivTransaction, CreateOp, UpdateOp, ExtendOp, TransferOp, create, update,
  delete, extend, transfer, expire, unset,
}
use arkiv_storage_service.Store.Keys.{root_key, id_key, addr_key, encode_uint64, numeric_val}
use arkiv_storage_service.Store.Entity.{
  Entity, AnnotPair, all_annotations, annot_pair_set, apply_attributes,
}
use arkiv_storage_service.Store.Cache.{
  Codec, CacheStore, bytes_eq, staging_get, staging_put, mutate_bitmap, cached_bitmap, bitmap_add,
  bitmap_remove, get_entity, increment_entity_count, set_id_slot,
}
use arkiv_storage_service.Store.Cache.Staging.{staging_get-staging_put}
use arkiv_storage_service.Store.Ops.{
  add_all, remove_all, not_in, new_entity, updated_entity, set_entity, entity_id_of, address_of,
  owner_pair, process_create, process_update, delete_entity, process_extend, process_transfer,
  apply_op,
}
use arkiv_storage_service.Store.Block.{from_transaction, apply_operations, apply_transactions}

module _ (P : Platform) (C : Codec) where
  pub record SameBlock (c c' : CacheStore P C) : Type 0 where
    pub number : c'.block_number ≡ c.block_number
    pub hash : c'.block_hash ≡ c.block_hash
    pub parent : c'.parent_hash ≡ c.parent_hash
    pub roots :
        (b : Bytes)
        → staging_get P C c'.staging_db (root_key b) ≡ staging_get P C c.staging_db (root_key b)

  pub same_trans : (a b c : CacheStore P C) → SameBlock a b → SameBlock b c → SameBlock a c
  same_trans a b c s t = record {
    number = t.number ∙ s.number;
    hash = t.hash ∙ s.hash;
    parent = t.parent ∙ s.parent;
    roots = λ k. t.roots k ∙ s.roots k;
  }

  abbrev pub Keeps : CacheStore P C → Result (CacheStore P C) → Type 0
  Keeps c r = (c' : CacheStore P C) → r ≡ ok c' → SameBlock c c'

  pub Keeps-ok : (c c' : CacheStore P C) → SameBlock c c' → Keeps c (ok c')
  Keeps-ok c c' s c'' e = let is : c' ≡ c'' = cc in subst (SameBlock c) is s

  pub Keeps-then :
      {A : Type 0} (c : CacheStore P C) (first : Result A) (store : A → CacheStore P C)
      (next : A → Result (CacheStore P C))
      → ((a : A) → first ≡ ok a → SameBlock c (store a))
      → ((a : A) → Keeps (store a) (next a))
      → Keeps c (first >>= next)
  Keeps-then c first store next h k c' run =
      let (a, e, run') = >>=-eq-ok first next run in same_trans c (store a) c' (h a e) (k a c' run')

  pub same_refl : (c : CacheStore P C) → SameBlock c c
  same_refl c = record { number = refl; hash = refl; parent = refl; roots = λ b. refl }

  mutate_bitmap-Keeps :
      (c : CacheStore P C) (pair : AnnotPair) (mutate : P.roaring.Bitmap → P.roaring.Bitmap)
      → Keeps c (mutate_bitmap P C c pair mutate)
  unfolding mutate_bitmap
  mutate_bitmap-Keeps c pair mutate =
      Keeps-then c (cached_bitmap P C c pair) (λ bm. c) _ (λ bm e. same_refl c)
        (λ bm.
          Keeps-ok c _ (record { number = refl; hash = refl; parent = refl; roots = λ b. refl }))

  bitmap_add-Keeps :
      (c : CacheStore P C) (pair : AnnotPair) (id : ℕ) → Keeps c (bitmap_add P C c pair id)
  unfolding bitmap_add
  bitmap_add-Keeps c pair id = mutate_bitmap-Keeps c pair (λ bm. P.roaring.add bm id)

  bitmap_remove-Keeps :
      (c : CacheStore P C) (pair : AnnotPair) (id : ℕ) → Keeps c (bitmap_remove P C c pair id)
  unfolding bitmap_remove
  bitmap_remove-Keeps c pair id = mutate_bitmap-Keeps c pair (λ bm. P.roaring.remove bm id)

  -- A step that yields a store is its own state.
  pub Keeps-step :
      (c : CacheStore P C) (first : Result (CacheStore P C))
      (next : CacheStore P C → Result (CacheStore P C))
      → Keeps c first
      → ((c₁ : CacheStore P C) → Keeps c₁ (next c₁))
      → Keeps c (first >>= next)
  Keeps-step c first next h k = Keeps-then c first (λ c₁. c₁) next h k

  add_all-Keeps :
      (c : CacheStore P C) (ps : List AnnotPair) (id : ℕ) → Keeps c (add_all P C c ps id)
  unfolding add_all
  add_all-Keeps c [] id = Keeps-ok c c (same_refl c)
  add_all-Keeps c (p ∷ ps) id =
      Keeps-step c (bitmap_add P C c p id) (λ c'. add_all P C c' ps id) (bitmap_add-Keeps c p id)
        (λ c'. add_all-Keeps c' ps id)

  remove_all-Keeps :
      (c : CacheStore P C) (ps : List AnnotPair) (id : ℕ) → Keeps c (remove_all P C c ps id)
  unfolding remove_all
  remove_all-Keeps c [] id = Keeps-ok c c (same_refl c)
  remove_all-Keeps c (p ∷ ps) id =
      Keeps-step c (bitmap_remove P C c p id) (λ c'. remove_all P C c' ps id)
        (bitmap_remove-Keeps c p id) (λ c'. remove_all-Keeps c' ps id)

  same_pair_of :
      (c : CacheStore P C) (e : Entity) (d : List (Bytes × Entity)) (a : Entity × CacheStore P C)
      → ok (e, record c { dirty_entities = d }) ≡ ok a
      → SameBlock c a.1
  same_pair_of c e d a run =
      let here : Entity × CacheStore P C = (e, record c { dirty_entities = d }) in
      let is : here ≡ a = cc in
      subst (λ (x : Entity × CacheStore P C). SameBlock c x.1) is
        (record { number = refl; hash = refl; parent = refl; roots = λ b. refl })

  get_entity-same :
      (c : CacheStore P C) (addr : Bytes) (a : Entity × CacheStore P C)
      → get_entity P C c addr ≡ ok a
      → SameBlock c a.1
  unfolding get_entity
  get_entity-same c addr a run =
      go (Assoc.lookup bytes_eq addr c.dirty_entities)
        (length (P.state_db.get_code c.state addr) == 0)
        (C.decode_entity (P.state_db.get_code c.state addr)) run
    where
      go :
          (cached : Option Entity) (empty : Bool) (decoded : Option Entity)
          → (elim cached [
            | some e ↦ ok (e, c)
            | none ↦ if empty then fail (error "entity not found") else elim decoded [
              | some e ↦
                  ok
                    (e, record c { dirty_entities = Assoc.insert bytes_eq addr e c.dirty_entities })
              | none ↦ fail (error "decode entity")
            ]
          ])
            ≡ ok a
          → SameBlock c a.1
      go (some e) empty decoded run = same_pair_of c e c.dirty_entities a run
      go none true decoded run = cc
      go none false none run = cc
      go none false (some e) run =
          same_pair_of c e (Assoc.insert bytes_eq addr e c.dirty_entities) a run

  -- the start of the operations on an entity that is there
  Keeps-found :
      (c : CacheStore P C) (addr : Bytes)
      (next : Entity → CacheStore P C → ℕ → Result (CacheStore P C))
      → ((e : Entity) (c₁ : CacheStore P C) (id : ℕ) → Keeps c₁ (next e c₁ id))
      → Keeps c
          (get_entity P C c addr >>= λ (e, c₁). entity_id_of P C c₁ addr >>= λ id. next e c₁ id)
  Keeps-found c addr next k =
      Keeps-then c (get_entity P C c addr) (λ x. x.1) _ (get_entity-same c addr)
        (λ (e, c₁).
          Keeps-then c₁ (entity_id_of P C c₁ addr) (λ id. c₁) _ (λ id h. same_refl c₁)
            (λ id. k e c₁ id))

  set_state_only :
      (c : CacheStore P C) (s : P.state_db.State) (d : List (Bytes × Entity))
      → SameBlock c (record c { state = s; dirty_entities = d })
  set_state_only c s d = record { number = refl; hash = refl; parent = refl; roots = λ b. refl }

  process_update-Keeps : (c : CacheStore P C) (op : UpdateOp) → Keeps c (process_update P C c op)
  unfolding process_update
  process_update-Keeps c op =
      let addr = address_of op.entity_key in
      Keeps-found c addr _ (λ old c₁ id.
        let updated =
          apply_attributes P.text (updated_entity P C c.block_number old op) op.attributes in
        let old_set = annot_pair_set (all_annotations P.text old) in
        let new_set = annot_pair_set (all_annotations P.text updated) in
        Keeps-step c₁ (remove_all P C c₁ (not_in old_set new_set) id) _
          (remove_all-Keeps c₁ (not_in old_set new_set) id)
          (λ c₂.
            Keeps-step c₂ (add_all P C c₂ (not_in new_set old_set) id) _
              (add_all-Keeps c₂ (not_in new_set old_set) id)
              (λ c₃. Keeps-ok c₃ (set_entity P C c₃ addr updated) (set_state_only c₃ c₃.state _))))

  delete_entity-Keeps : (c : CacheStore P C) (addr : Bytes) → Keeps c (delete_entity P C c addr)
  unfolding delete_entity
  delete_entity-Keeps c addr = Keeps-found c addr _ (λ e c₁ id.
      Keeps-step c₁ (remove_all P C c₁ (all_annotations P.text e) id) _
        (remove_all-Keeps c₁ (all_annotations P.text e) id)
        (λ c₂. Keeps-ok c₂ _ (set_state_only c₂ _ _)))

  -- the two bitmaps of an entity with a new value in one field
  Keeps-moved :
      (c : CacheStore P C) (addr : Bytes) (old new : AnnotPair) (e : Entity) (id : ℕ)
      → Keeps c
          (bitmap_remove P C c old id >>= λ c₂. bitmap_add P C (set_entity P C c₂ addr e) new id)
  Keeps-moved c addr old new e id =
      Keeps-step c (bitmap_remove P C c old id) _ (bitmap_remove-Keeps c old id) (λ c₂ c' run.
        same_trans c₂ (set_entity P C c₂ addr e) c' (set_state_only c₂ c₂.state _)
          (bitmap_add-Keeps (set_entity P C c₂ addr e) new id c' run))

  process_extend-Keeps : (c : CacheStore P C) (op : ExtendOp) → Keeps c (process_extend P C c op)
  unfolding process_extend
  process_extend-Keeps c op = Keeps-found c (address_of op.entity_key) _ (λ e c₁ id.
      Keeps-moved c₁ (address_of op.entity_key) (codes "$expiration", numeric_val e.expires_at)
        (codes "$expiration", numeric_val op.expires_at) (record e { expires_at = op.expires_at })
        id)

  process_transfer-Keeps :
      (c : CacheStore P C) (op : TransferOp) → Keeps c (process_transfer P C c op)
  unfolding process_transfer
  process_transfer-Keeps c op = Keeps-found c (address_of op.entity_key) _ (λ e c₁ id.
      Keeps-moved c₁ (address_of op.entity_key) (owner_pair P C e.owner) (owner_pair P C op.owner)
        (record e { owner = op.owner }) id)

  process_create-Keeps : (c : CacheStore P C) (op : CreateOp) → Keeps c (process_create P C c op)
  unfolding process_create beq root_key id_key addr_key
  process_create-Keeps c op c' run =
      let addr = address_of op.entity_key in
      let (id, counted) = increment_entity_count P C c.state in
      let e = apply_attributes P.text (new_entity P C c.block_number op) op.attributes in
      let s₁ = staging_put P C c.staging_db (id_key id) addr in
      let c₁ : CacheStore P C = record c {
        staging_db = staging_put P C s₁ (addr_key addr) (encode_uint64 id);
        state = set_id_slot P C (P.state_db.create_account counted addr) id addr;
        dirty_entities = Assoc.insert bytes_eq addr e c.dirty_entities;
      } in
      let same : SameBlock c c₁ = record {
        number = refl;
        hash = refl;
        parent = refl;
        roots = λ b.
            staging_get-staging_put P C s₁ (addr_key addr) (encode_uint64 id) (root_key b)
            ∙ staging_get-staging_put P C c.staging_db (id_key id) addr (root_key b);
      } in
      same_trans c c₁ c' same (add_all-Keeps c₁ (all_annotations P.text e) id c' run)

  apply_op-Keeps : (c : CacheStore P C) (op : ArkivOperation) → Keeps c (apply_op P C c op)
  unfolding apply_op
  apply_op-Keeps c (create op) = process_create-Keeps c op
  apply_op-Keeps c (update op) = process_update-Keeps c op
  apply_op-Keeps c (delete op) = delete_entity-Keeps c (address_of op.entity_key)
  apply_op-Keeps c (extend op) = process_extend-Keeps c op
  apply_op-Keeps c (transfer op) = process_transfer-Keeps c op
  apply_op-Keeps c (expire op) = delete_entity-Keeps c (address_of op.entity_key)
  apply_op-Keeps c unset = λ c' e. cc

  apply_operations-Keeps :
      (c : CacheStore P C) (tx : ArkivTransaction) (ops : List ArkivOperation)
      → Keeps c (apply_operations P C c tx ops)
  unfolding apply_operations
  apply_operations-Keeps c tx [] = Keeps-ok c c (same_refl c)
  apply_operations-Keeps c tx (op ∷ ops) =
      Keeps-step c (apply_op P C c (from_transaction tx op)) (λ c'. apply_operations P C c' tx ops)
        (apply_op-Keeps c (from_transaction tx op)) (λ c'. apply_operations-Keeps c' tx ops)

  -- The operations of a block keep its fields and the recorded roots.
  pub apply_transactions-Keeps :
      (c : CacheStore P C) (txs : List ArkivTransaction) → Keeps c (apply_transactions P C c txs)
  unfolding apply_transactions
  apply_transactions-Keeps c [] = Keeps-ok c c (same_refl c)
  apply_transactions-Keeps c (tx ∷ txs) =
      Keeps-step c (apply_operations P C c tx tx.operations) (λ c'. apply_transactions P C c' txs)
        (apply_operations-Keeps c tx tx.operations) (λ c'. apply_transactions-Keeps c' txs)
