-- ===== src/Store/Ops/Creation.antt =====
-- Create keeps the index invariant.
use native.Mathlib.Nat.{mod-eq_of_lt}
use arkiv_storage_service.Base.{
  true, ℕ, ◌+◌, ◌*◌, ◌<◌, ◌%◌, ◌^◌, ◌≡◌, refl, sym, ap, subst, ◌∙◌, false, ◌++◌, drop, ◌==◌, ==_iff,
  if◌then◌else◌, Bool-cases, inl, inr, Option, none, some, ok, arith,
}
use arkiv_storage_service.Base.Assoc
use arkiv_storage_service.Bytes.{Bytes, beq}
use arkiv_storage_service.Bytes.BigEndian.{put_uint64, value_from}
use arkiv_storage_service.Bytes.BigEndian.Laws.{uint64-put_uint64, value_from-big_endian}
use arkiv_storage_service.Platform.{Platform}
use arkiv_storage_service.Types.{CreateOp}
use arkiv_storage_service.Store.Keys.{no_nul, encode_uint64, decode_uint64}
use arkiv_storage_service.Store.Entity.{
  Entity, AnnotPair, has_pair, user_annotations, all_annotations, apply_attributes,
}
use arkiv_storage_service.Store.Entity.Plain.{PlainNames, apply_attributes-plain}
use arkiv_storage_service.Store.Cache.{
  bytes_eq, pair_eq, or_load, Codec, CacheStore, cached_bitmap, read_entity_count,
  increment_entity_count, set_id_slot, entity_count_slot, system_address, zeros,
}
use arkiv_storage_service.Store.Cache.Views.{entity_at, entity_at-Frame, entity_at-put}
use arkiv_storage_service.Store.Cache.Staging.{
  two_keys, annot_key-kept, bitmap_key-kept, addr_key-written, load_bitmap-same,
}
use arkiv_storage_service.Store.Ops.{address_of, new_entity, entity_id_of, process_create}
use arkiv_storage_service.Store.Ops.Views.{Changed, adding, add_all-Changed}
use arkiv_storage_service.Store.Ops.Index.{Live, IsPlain, IsIndexed, Step, Step-IsIndexed}
use arkiv_storage_service.Store.Ops.Effect.{entity_id_of-staging}
use arkiv_storage_service.Store.Ops.Removal.{SlotsApart}

module _ (P : Platform) (C : Codec) where
  -- The state after the counter and the id slot have been written.
  abbrev counted_state : P.state_db.State → ℕ → Bytes → P.state_db.State
  counted_state s id addr =
      set_id_slot P C
        (P.state_db.create_account
          (P.state_db.set_state s (system_address P C) (entity_count_slot P C)
            (zeros P C 24 ++ put_uint64 id))
          addr)
        id addr

  abbrev pub created : CacheStore P C → ℕ → Bytes → Entity → CacheStore P C
  created c id addr e = record c {
    staging_db = two_keys P C c.staging_db id addr (encode_uint64 id);
    state = counted_state c.state id addr;
    dirty_entities = Assoc.insert bytes_eq addr e c.dirty_entities;
  }

  created_code :
      (s : P.state_db.State) (id : ℕ) (addr b : Bytes)
      → beq addr b ≡ false
      → P.state_db.get_code (counted_state s id addr) b ≡ P.state_db.get_code s b
  unfolding set_id_slot
  created_code s id addr b other =
      P.state_db.get_code-set_state _ _ _ _ b
      ∙ (P.state_db.get_code-create_account _ addr b other
          ∙ P.state_db.get_code-set_state s _ _ _ b)

  created_count :
      (s : P.state_db.State) (id : ℕ) (addr : Bytes)
      → SlotsApart P C
      → beq addr (system_address P C) ≡ false
      → id < 2 ^ 64
      → read_entity_count P C (counted_state s id addr) ≡ id
  unfolding read_entity_count set_id_slot put_uint64
  created_count s id addr apart other small =
      ap (λ x. value_from 0 (drop 24 x))
        (P.state_db.get_state-set_state_ne _ _ _ _ (system_address P C) (entity_count_slot P C)
            (apart id)
          ∙ (P.state_db.get_state-create_account _ addr (system_address P C) (entity_count_slot P C)
                other
              ∙ P.state_db.get_state-set_state s _ _ _))
      ∙ (value_from-big_endian 8 0 id ∙ whole)
    where
      whole : 0 * 256 ^ 8 + id % 256 ^ 8 ≡ id
      whole = omega arith

  created_id :
      (c : CacheStore P C) (id : ℕ) (addr : Bytes) (e : Entity) (b : Bytes)
      → id < 2 ^ 64
      → entity_id_of P C (created c id addr e) b
        ≡ (if beq addr b then ok id else entity_id_of P C c b)
  unfolding entity_id_of encode_uint64 decode_uint64
  created_id c id addr e b small = ground (
    arith,
    addr_key-written P C c.staging_db id addr (encode_uint64 id) b,
    uint64-put_uint64 id small,
  )

  pub created_bitmaps :
      (c : CacheStore P C) (id : ℕ) (addr : Bytes) (e : Entity) (q : AnnotPair)
      → cached_bitmap P C (created c id addr e) q ≡ cached_bitmap P C c q
  unfolding cached_bitmap
  created_bitmaps c id addr e q = go (Assoc.lookup pair_eq q c.dirty_bitmaps)
    where
      go :
          (o : Option P.roaring.Bitmap)
          → or_load P C (two_keys P C c.staging_db id addr (encode_uint64 id)) q o
            ≡ or_load P C c.staging_db q o
      go (some bm) = refl
      go none =
          load_bitmap-same P C c.staging_db (two_keys P C c.staging_db id addr (encode_uint64 id)) q
            (annot_key-kept P C c.staging_db id addr (encode_uint64 id))
            (bitmap_key-kept P C c.staging_db id addr (encode_uint64 id))

  -- An address without an entity gets one, under the next id.
  create-Step :
      (c c'' : CacheStore P C) (addr : Bytes) (id : ℕ) (e : Entity)
      → SlotsApart P C
      → IsIndexed P C c
      → id < 2 ^ 64
      → id ≡ read_entity_count P C c.state + 1
      → entity_at P C c addr ≡ none
      → beq addr (system_address P C) ≡ false
      → IsPlain P C e
      → Changed P C (created c id addr e) c'' (adding P C (all_annotations P.text e) id)
      → Step P C c c'' addr id (some e)
  create-Step c c'' addr id e apart h small next absent other plain m = record {
    entities = λ b.
        entity_at-Frame P C (created c id addr e) c'' b m.frame
        ∙ entity_at-put P C c (created c id addr e) addr b e (created_code c.state id addr b) refl;
    ids = λ b.
        entity_id_of-staging P C (created c id addr e) c'' b m.frame.same_staging
        ∙ created_id c id addr e b small;
    bits = bits;
    own = λ e' j l. let same : none ≡ some e' = sym absent ∙ l.entity in ground arith;
    fresh = λ b e' n l. unused b e' l;
    grows = omega (arith, count, next);
    bounded = omega (arith, count);
    new_plain = plain;
  }
    where
      count : read_entity_count P C c''.state ≡ id
      count =
          ap (read_entity_count P C) m.frame.same_state
          ∙ created_count c.state id addr apart other small

      unused : (b : Bytes) (e' : Entity) → ¬ Live P C c b e' id
      unused b e' l = omega (arith, next, h.counted b e' id l)

      clear :
          (q : AnnotPair) (bm : P.roaring.Bitmap)
          → no_nul q.0 ≡ true
          → cached_bitmap P C c q ≡ ok bm
          → P.roaring.contains bm id ≡ false
      clear q bm w k = elim (Bool-cases (P.roaring.contains bm id)) [
        | inl x ↦ let (a, e', l, y) = (h.exact q bm w k id).0 x in absurd (unused a e' l)
        | inr x ↦ x
      ]

      bits :
          (q : AnnotPair) (bm' : P.roaring.Bitmap)
          → no_nul q.0 ≡ true
          → cached_bitmap P C c'' q ≡ ok bm'
          → (bm : P.roaring.Bitmap) × (cached_bitmap P C c q ≡ ok bm)
            × ((j : ℕ)
                → P.roaring.contains bm' j ≡ (
                    if id == j
                    then has_pair (all_annotations P.text e) q
                    else P.roaring.contains bm j))
      bits q bm' w r =
          let (bm, r', n) = m.bits q bm' r in
          let r'' = sym (created_bitmaps c id addr e q) ∙ r' in
          (
            bm,
            r'',
            λ j. elim (Bool-cases (id == j)) [
              | inl same ↦
                  let at : id ≡ j = (==_iff id j).0 same in
                  let off : P.roaring.contains bm j ≡ false =
                    subst (λ i. P.roaring.contains bm i ≡ false) at (clear q bm w r'') in
                  ground (arith, n j, off)
              | inr differs ↦ ground (arith, n j)
            ],
          )

  created-IsPlain :
      (number : ℕ) (op : CreateOp)
      → PlainNames op.attributes
      → IsPlain P C (apply_attributes P.text (new_entity P C number op) op.attributes)
  unfolding user_annotations has_pair
  created-IsPlain number op names k v starts =
      apply_attributes-plain P.text (new_entity P C number op) op.attributes k v names starts

  -- A creation keeps the index invariant, at an address other than the system account's that holds
  -- no entity, where no attribute has a reserved name and the counter is not at its end.
  pub process_create-IsIndexed :
      (c c' : CacheStore P C) (op : CreateOp)
      → SlotsApart P C
      → IsIndexed P C c
      → read_entity_count P C c.state + 1 < 2 ^ 64
      → entity_at P C c (address_of op.entity_key) ≡ none
      → beq (address_of op.entity_key) (system_address P C) ≡ false
      → PlainNames op.attributes
      → process_create P C c op ≡ ok c'
      → IsIndexed P C c'
  unfolding process_create increment_entity_count
  process_create-IsIndexed c c' op apart h small absent other names run =
      let addr = address_of op.entity_key in
      let id : ℕ = (read_entity_count P C c.state + 1) % 2 ^ 64 in
      let e = apply_attributes P.text (new_entity P C c.block_number op) op.attributes in
      let next : id ≡ read_entity_count P C c.state + 1 = mod-eq_of_lt small in
      Step-IsIndexed P C c c' addr id (some e)
        (create-Step c c' addr id e apart h (omega (arith, next, small)) next absent other
          (created-IsPlain c.block_number op names)
          (add_all-Changed P C (created c id addr e) c' (all_annotations P.text e) id run))
        h
