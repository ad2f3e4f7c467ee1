-- ===== src/Store/Ops/Removal.antt =====
-- Delete and Expire keep the index invariant.
use arkiv_storage_service.Base.{
  ℕ, ◌≡◌, ◌≢◌, refl, ap, subst, ◌∙◌, [], if◌then◌else◌, none, ok, >>=-eq-ok, arith,
}
use arkiv_storage_service.Base.Assoc
use arkiv_storage_service.Base.Assoc.{lookup-without}
use arkiv_storage_service.Bytes.{Bytes, beq}
use arkiv_storage_service.Platform.{Platform}
use arkiv_storage_service.Store.Entity.{all_annotations}
use arkiv_storage_service.Store.Cache.{
  bytes_eq, Codec, CacheStore, read_entity_count, clear_id_slot, id_slot_key, entity_count_slot,
  system_address,
}
use arkiv_storage_service.Store.Cache.Views.{entity_at-Frame, entity_at-without}
use arkiv_storage_service.Store.Ops.{remove_all, delete_entity}
use arkiv_storage_service.Store.Ops.Views.{removing, remove_all-Changed}
use arkiv_storage_service.Store.Ops.Index.{IsIndexed, Step-IsIndexed}
use arkiv_storage_service.Store.Ops.Existing.{fetch_id}
use arkiv_storage_service.Store.Ops.Effect.{Step-of, Live-of, trace}

module _ (P : Platform) (C : Codec) where
  -- The slot of an id is never the slot of the counter.
  abbrev pub SlotsApart : Type 0
  SlotsApart = (n : ℕ) → id_slot_key P C n ≢ entity_count_slot P C

  read_entity_count-set_slot :
      (s : P.state_db.State) (id : ℕ) (v : Bytes)
      → SlotsApart
      → read_entity_count P C (P.state_db.set_state s (system_address P C) (id_slot_key P C id) v)
        ≡ read_entity_count P C s
  unfolding read_entity_count
  read_entity_count-set_slot s id v apart = rw (
      P.state_db.get_state-set_state_ne s (system_address P C) (id_slot_key P C id) v
        (system_address P C) (entity_count_slot P C) (apart id))

  read_entity_count-set_code :
      (s : P.state_db.State) (a code : Bytes)
      → read_entity_count P C (P.state_db.set_code s a code) ≡ read_entity_count P C s
  unfolding read_entity_count
  read_entity_count-set_code s a code =
      rw (P.state_db.get_state-set_code s a code (system_address P C) (entity_count_slot P C))

  abbrev removed_from : CacheStore P C → Bytes → ℕ → CacheStore P C
  removed_from c addr id = record c {
    state = P.state_db.set_code (clear_id_slot P C c.state id) addr [];
    dirty_entities = Assoc.without bytes_eq addr c.dirty_entities;
  }

  removed_count :
      (c : CacheStore P C) (addr : Bytes) (id : ℕ)
      → SlotsApart
      → read_entity_count P C (removed_from c addr id).state ≡ read_entity_count P C c.state
  unfolding clear_id_slot
  removed_count c addr id apart =
      read_entity_count-set_code _ addr [] ∙ read_entity_count-set_slot c.state id _ apart

  removed_code :
      (c : CacheStore P C) (addr : Bytes) (id : ℕ) (b : Bytes)
      → P.state_db.get_code (removed_from c addr id).state b
        ≡ (if beq addr b then [] else P.state_db.get_code c.state b)
  unfolding clear_id_slot
  removed_code c addr id b =
      P.state_db.get_code-set_code _ addr b []
      ∙ ap (λ x. if beq addr b then [] else x) (P.state_db.get_code-set_state c.state _ _ _ b)

  -- A removal keeps the index invariant.
  pub delete_entity-IsIndexed :
      (c c' : CacheStore P C) (addr : Bytes)
      → SlotsApart
      → IsIndexed P C c
      → delete_entity P C c addr ≡ ok c'
      → IsIndexed P C c'
  unfolding delete_entity
  delete_entity-IsIndexed c c' addr apart h run =
      let (old, c₁, id, f, k, run₁) = fetch_id P C c addr _ c' run in
      let ps = all_annotations P.text old in
      let (c₂, removed, run₂) = >>=-eq-ok (remove_all P C c₁ ps id) _ run₁ in
      let is : removed_from c₂ addr id ≡ c' = cc in
      let m = remove_all-Changed P C c₁ c₂ ps id removed in
      subst (IsIndexed P C) is (
        Step-IsIndexed P C c _ addr id none
          (Step-of P C c h addr old id (Live-of P C c c₁ addr old id f k) (removed_from c₂ addr id)
            none (removing P C ps id)
            (trace P C c c₁ c₂ (removed_from c₂ addr id) addr old (removing P C ps id) f m refl
              refl)
            (λ q. ground arith) (λ q j x other. rw other (ground arith))
            (m.frame.same_staging ∙ f.same_staging)
            (λ b.
              entity_at-without P C c₂ (removed_from c₂ addr id) addr b (removed_code c₂ addr id b)
                refl
              ∙ ap (λ o. if beq addr b then none else o)
                  (entity_at-Frame P C c₁ c₂ b m.frame ∙ f.same_views b))
            (removed_count c₂ addr id apart
              ∙ ap (read_entity_count P C) (m.frame.same_state ∙ f.same_state))
            tt)
          h)
