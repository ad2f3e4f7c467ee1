-- ===== src/Store/Ops/Existing.antt =====
-- Update, Extend and Transfer keep the index invariant.
use arkiv_storage_service.Base.{
  ℕ, ◌≡◌, refl, ap, subst, ◌∙◌, Bool, not, ◌&&◌, ◌||◌, List, [], ◌∷◌, ◌==◌, if◌then◌else◌, some,
  Result, ok, ◌>>=◌, >>=-eq-ok, arith,
}
use arkiv_storage_service.Bytes.{Bytes, codes, beq, has_prefix}
use arkiv_storage_service.Platform.{Platform}
use arkiv_storage_service.Types.{UpdateOp, ExtendOp, TransferOp}
use arkiv_storage_service.Store.Keys.{numeric_val}
use arkiv_storage_service.Store.Entity.{
  Entity, AnnotPair, has_pair, annot_pair_set, user_annotations, all_annotations, apply_attributes,
}
use arkiv_storage_service.Store.Entity.Laws.{has_pair-annot_pair_set}
use arkiv_storage_service.Store.Entity.Plain.{
  PlainNames, apply_attributes-plain, has_pair-expires_at, has_pair-owner,
}
use arkiv_storage_service.Store.Cache.{
  Codec, CacheStore, get_entity, cached_bitmap, bitmap_remove, read_entity_count,
}
use arkiv_storage_service.Store.Cache.Views.{
  Fetched, get_entity-Fetched, entity_at-Frame, entity_at-insert,
}
use arkiv_storage_service.Store.Ops.{
  address_of, add_all, remove_all, not_in, entity_id_of, updated_entity, set_entity, owner_pair,
  process_update, process_extend, process_transfer,
}
use arkiv_storage_service.Store.Ops.Views.{
  Changed, Changed-trans, adding, removing, add_all-Changed, remove_all-Changed, has_pair-not_in,
  bitmap_add-Changed, bitmap_remove-Changed,
}
use arkiv_storage_service.Store.Ops.Index.{IsPlain, IsIndexed, Step, Step-IsIndexed}
use arkiv_storage_service.Store.Ops.Effect.{Step-of, Live-of, trace}

module _ (P : Platform) (C : Codec) where
  -- What a removal and a later addition do to one bit.
  abbrev replacing : List AnnotPair → List AnnotPair → ℕ → AnnotPair → ℕ → Bool → Bool
  replacing gone come id q j x = has_pair come q && id == j || not (has_pair gone q && id == j) && x

  module _ (c : CacheStore P C) (h : IsIndexed P C c) (addr : Bytes) (old new : Entity) (id : ℕ)
      (c₁ : CacheStore P C) (f : Fetched P C c c₁ addr old) (k : entity_id_of P C c₁ addr ≡ ok id)
      (plain : IsPlain P C new) where
    -- The pairs that only the old entity has lose the id, those that only the new one has get it.
    pub update-Step :
        (c₃ : CacheStore P C) (os ns : List AnnotPair)
        → ((q : AnnotPair) → has_pair os q ≡ has_pair (all_annotations P.text old) q)
        → ((q : AnnotPair) → has_pair ns q ≡ has_pair (all_annotations P.text new) q)
        → Changed P C c₁ c₃ (replacing (not_in os ns) (not_in ns os) id)
        → Step P C c (set_entity P C c₃ addr new) addr id (some new)
    update-Step c₃ os ns is_old is_new m =
        Step-of P C c h addr old id (Live-of P C c c₁ addr old id f k) (set_entity P C c₃ addr new)
          (some new) (replacing (not_in os ns) (not_in ns os) id)
          (trace P C c c₁ c₃ (set_entity P C c₃ addr new) addr old
            (replacing (not_in os ns) (not_in ns os) id) f m refl refl)
          (λ q. at_id q) (λ q j x other. rw other (ground arith))
          (m.frame.same_staging ∙ f.same_staging)
          (λ b.
            entity_at-insert P C c₃ addr b new
            ∙ ap (λ o. if beq addr b then some new else o)
                (entity_at-Frame P C c₁ c₃ b m.frame ∙ f.same_views b))
          (ap (read_entity_count P C) (m.frame.same_state ∙ f.same_state)) plain
      where
        at_id :
            (q : AnnotPair)
            → replacing
                (not_in os ns)
                (not_in ns os)
                id
                q
                id
                (has_pair (all_annotations P.text old) q)
              ≡ has_pair (all_annotations P.text new) q
        at_id q =
            ground (arith, has_pair-not_in os ns q, has_pair-not_in ns os q, is_old q, is_new q)

    -- An old pair loses the id, and another one gets it.
    pub replace-Step :
        (c₂ c' : CacheStore P C) (p p' : AnnotPair)
        → Changed P C c₁ c₂ (removing P C (p ∷ []) id)
        → Changed P C (set_entity P C c₂ addr new) c' (adding P C (p' ∷ []) id)
        → ((q : AnnotPair)
            → (has_pair (p' ∷ []) q
                || (not (has_pair (p ∷ []) q) && has_pair (all_annotations P.text old) q))
              ≡ has_pair (all_annotations P.text new) q)
        → Step P C c c' addr id (some new)
    replace-Step c₂ c' p p' m n replaced =
        Step-of P C c h addr old id (Live-of P C c c₁ addr old id f k) c' (some new)
          (replacing (p ∷ []) (p' ∷ []) id) bits at_id (λ q j x other. rw other (ground arith))
          (n.frame.same_staging ∙ (m.frame.same_staging ∙ f.same_staging))
          (λ b.
            entity_at-Frame P C (set_entity P C c₂ addr new) c' b n.frame
            ∙ (entity_at-insert P C c₂ addr b new
                ∙ ap (λ o. if beq addr b then some new else o)
                    (entity_at-Frame P C c₁ c₂ b m.frame ∙ f.same_views b)))
          (ap (read_entity_count P C) (n.frame.same_state ∙ (m.frame.same_state ∙ f.same_state)))
          plain
      where
        bits :
            (q : AnnotPair) (bm' : P.roaring.Bitmap)
            → cached_bitmap P C c' q ≡ ok bm'
            → (bm : P.roaring.Bitmap) × (cached_bitmap P C c q ≡ ok bm)
              × ((j : ℕ)
                  → P.roaring.contains bm' j
                    ≡ replacing (p ∷ []) (p' ∷ []) id q j (P.roaring.contains bm j))
        bits q bm' r =
            let (bm₂, r', n') = n.bits q bm' r in
            let (bm, r'', m') =
              trace P C c c₁ c₂ (set_entity P C c₂ addr new) addr old (removing P C (p ∷ []) id) f m
                refl refl q bm₂ r' in
            (bm, r'', λ j. n' j ∙ ap (adding P C (p' ∷ []) id q j) (m' j))

        at_id :
            (q : AnnotPair)
            → replacing (p ∷ []) (p' ∷ []) id q id (has_pair (all_annotations P.text old) q)
              ≡ has_pair (all_annotations P.text new) q
        at_id q = ground (arith, replaced q)

  -- What every operation at an existing entity starts with.
  pub fetch_id :
      (c : CacheStore P C) (addr : Bytes)
      (next : Entity → CacheStore P C → ℕ → Result (CacheStore P C)) (c' : CacheStore P C)
      → (get_entity P C c addr >>= λ ((e, c₁) : Entity × CacheStore P C).
          entity_id_of P C c₁ addr >>= λ id. next e c₁ id)
        ≡ ok c'
      → (e : Entity) × (c₁ : CacheStore P C) × (id : ℕ) × Fetched P C c c₁ addr e
        × (entity_id_of P C c₁ addr ≡ ok id)
        × (next e c₁ id ≡ ok c')
  fetch_id c addr next c' run =
      let ((e, c₁), got, run₁) = >>=-eq-ok (get_entity P C c addr) _ run in
      let (id, has_id, run₂) = >>=-eq-ok (entity_id_of P C c₁ addr) _ run₁ in
      (e, c₁, id, get_entity-Fetched P C c addr got, has_id, run₂)

  updated-IsPlain :
      (number : ℕ) (old : Entity) (op : UpdateOp)
      → PlainNames op.attributes
      → IsPlain P C (apply_attributes P.text (updated_entity P C number old op) op.attributes)
  unfolding user_annotations has_pair
  updated-IsPlain number old op names k v starts =
      apply_attributes-plain P.text (updated_entity P C number old op) op.attributes k v names
        starts

  -- An update keeps the index invariant, where no new attribute has a reserved name.
  pub process_update-IsIndexed :
      (c c' : CacheStore P C) (op : UpdateOp)
      → IsIndexed P C c
      → PlainNames op.attributes
      → process_update P C c op ≡ ok c'
      → IsIndexed P C c'
  unfolding process_update
  process_update-IsIndexed c c' op h names run =
      let addr = address_of op.entity_key in
      let (old, c₁, id, f, k, run₁) = fetch_id c addr _ c' run in
      let new = apply_attributes P.text (updated_entity P C c.block_number old op) op.attributes in
      let os = annot_pair_set (all_annotations P.text old) in
      let ns = annot_pair_set (all_annotations P.text new) in
      let (c₂, removed, run₂) = >>=-eq-ok (remove_all P C c₁ (not_in os ns) id) _ run₁ in
      let (c₃, added, run₃) = >>=-eq-ok (add_all P C c₂ (not_in ns os) id) _ run₂ in
      let is : set_entity P C c₃ addr new ≡ c' = cc in
      subst (IsIndexed P C) is (
        Step-IsIndexed P C c _ addr id (some new)
          (update-Step c h addr old new id c₁ f k (updated-IsPlain c.block_number old op names) c₃
            os ns (has_pair-annot_pair_set (all_annotations P.text old))
            (has_pair-annot_pair_set (all_annotations P.text new))
            (Changed-trans P C c₁ c₂ c₃ _ _ _ (λ q j x. refl)
              (remove_all-Changed P C c₁ c₂ (not_in os ns) id removed)
              (add_all-Changed P C c₂ c₃ (not_in ns os) id added)))
          h)

  -- An extension keeps the index invariant.
  pub process_extend-IsIndexed :
      (c c' : CacheStore P C) (op : ExtendOp)
      → IsIndexed P C c
      → process_extend P C c op ≡ ok c'
      → IsIndexed P C c'
  unfolding process_extend user_annotations has_prefix
  process_extend-IsIndexed c c' op h run =
      let addr = address_of op.entity_key in
      let (old, c₁, id, f, k, run₁) = fetch_id c addr _ c' run in
      let new : Entity = record old { expires_at = op.expires_at } in
      let p : AnnotPair = (codes "$expiration", numeric_val old.expires_at) in
      let p' : AnnotPair = (codes "$expiration", numeric_val op.expires_at) in
      let (c₂, removed, added) = >>=-eq-ok (bitmap_remove P C c₁ p id) _ run₁ in
      Step-IsIndexed P C c c' addr id (some new)
        (replace-Step c h addr old new id c₁ f k (h.plain addr old f.found) c₂ c' p p'
          (bitmap_remove-Changed P C c₁ c₂ p id removed)
          (bitmap_add-Changed P C (set_entity P C c₂ addr new) c' p' id added)
          (λ q.
            has_pair-expires_at P.text old op.expires_at q
              (h.plain addr old f.found (codes "$expiration") (numeric_val old.expires_at) refl)))
        h

  -- A transfer keeps the index invariant.
  pub process_transfer-IsIndexed :
      (c c' : CacheStore P C) (op : TransferOp)
      → IsIndexed P C c
      → process_transfer P C c op ≡ ok c'
      → IsIndexed P C c'
  unfolding process_transfer user_annotations has_prefix
  process_transfer-IsIndexed c c' op h run =
      let addr = address_of op.entity_key in
      let (old, c₁, id, f, k, run₁) = fetch_id c addr _ c' run in
      let new : Entity = record old { owner = op.owner } in
      let (c₂, removed, added) =
        >>=-eq-ok (bitmap_remove P C c₁ (owner_pair P C old.owner) id) _ run₁ in
      Step-IsIndexed P C c c' addr id (some new)
        (replace-Step c h addr old new id c₁ f k (h.plain addr old f.found) c₂ c'
          (owner_pair P C old.owner) (owner_pair P C op.owner)
          (bitmap_remove-Changed P C c₁ c₂ (owner_pair P C old.owner) id removed)
          (bitmap_add-Changed P C (set_entity P C c₂ addr new) c' (owner_pair P C op.owner) id
            added)
          (λ q. has_pair-owner P.text old op.owner q (
            h.plain addr old f.found (codes "$owner")
              (P.text.to_lower (P.text.address_hex old.owner)) refl)))
        h
