-- ===== src/Store/Block/Next.antt =====
-- The buffer of the next block, over what the flush of a block left.
use arkiv_storage_service.Base.{
  subst, ℕ, ◌≡◌, refl, sym, ap, ◌∙◌, ◌↔◌, true, [], ◌∷◌, List, Option-cases, inl, inr, none, ok,
  >>=-eq-ok, arith,
}
use arkiv_storage_service.Base.Assoc
use arkiv_storage_service.Bytes.{Bytes}
use arkiv_storage_service.Platform.{Platform}
use arkiv_storage_service.Store.Keys.{annot_key, bitmap_key, addr_key, no_nul}
use arkiv_storage_service.Store.Entity.{Entity, AnnotPair, has_pair, all_annotations}
use arkiv_storage_service.Store.Cache.{
  bytes_eq, pair_eq, Codec, CacheStore, staging_get, or_load, cached_bitmap, read_entity_count,
  system_address, entity_count_slot,
}
use arkiv_storage_service.Store.Cache.Views.{entity_at, or_decode}
use arkiv_storage_service.Store.Cache.Staging.{load_bitmap-same}
use arkiv_storage_service.Store.Flush.{encode_entity, write_codes, flush_entities, flush_bitmaps}
use arkiv_storage_service.Store.Flush.Entities.{IsRoundTrip, flush_entities-entity_at}
use arkiv_storage_service.Store.Flush.Bitmaps.{
  IsHash, Marshalled, NoNulNames, flush_bitmaps-load_bitmap,
}
use arkiv_storage_service.Store.Flush.Kept.{
  IsStored, AnnotSlotsApart, Loads, write_bitmaps-Loads, write_bitmaps-addr, write_bitmaps-code,
  write_bitmaps-count, write_bitmaps-load_bitmap,
}
use arkiv_storage_service.Store.Ops.{entity_id_of}
use arkiv_storage_service.Store.Ops.Index.{Live, IsIndexed}
use arkiv_storage_service.Store.Ops.Present.{IsReadable}

module _ (P : Platform) (C : Codec) where
  -- A buffer with empty caches that reads the accounts, the pointers, the bitmaps and the ids as
  -- another one has them.
  pub record Follows (c n : CacheStore P C) : Type 0 where
    pub no_entities : n.dirty_entities ≡ []
    pub no_bitmaps : n.dirty_bitmaps ≡ []
    pub codes : (a : Bytes) → P.state_db.get_code n.state a ≡ P.state_db.get_code c.state a
    pub count : read_entity_count P C n.state ≡ read_entity_count P C c.state
    pub pointers :
        (k v : Bytes)
        → staging_get P C n.staging_db (annot_key k v)
          ≡ staging_get P C c.staging_db (annot_key k v)
    pub blobs :
        (h : Bytes)
        → staging_get P C n.staging_db (bitmap_key h) ≡ staging_get P C c.staging_db (bitmap_key h)
    pub ids :
        (a : Bytes)
        → staging_get P C n.staging_db (addr_key a) ≡ staging_get P C c.staging_db (addr_key a)

  write_codes-count :
      (s s' : P.state_db.State) (entities : List (Bytes × Entity))
      → write_codes P C s entities ≡ ok s'
      → read_entity_count P C s' ≡ read_entity_count P C s
  unfolding write_codes read_entity_count
  write_codes-count s s' [] run = let is : s ≡ s' = cc in rw⁻¹ is refl
  write_codes-count s s' ((b, e) ∷ entities) run =
      let (s₁, first, run₁) = >>=-eq-ok (write_codes P C s entities) _ run in
      let (d, _, run₂) = >>=-eq-ok (encode_entity P C e) _ run₁ in
      let is : P.state_db.set_code s₁ b d ≡ s' = cc in
      ap (read_entity_count P C) (sym is)
      ∙ rw (P.state_db.get_state-set_code s₁ b d (system_address P C) (entity_count_slot P C))
          (write_codes-count s s₁ entities first)

  -- The next buffer can read every bitmap, where the store under the flushed one could.
  pub flush-IsReadable :
      (c c₁ c₂ n : CacheStore P C)
      → Loads P C c.staging_db
      → flush_entities P C c ≡ ok c₁
      → flush_bitmaps P C c₁ ≡ ok c₂
      → Follows c₂ n
      → IsReadable P C n
  unfolding flush_entities flush_bitmaps cached_bitmap Assoc.lookup
  flush-IsReadable c c₁ c₂ n loads run run' f q =
      let (s, _, h) = >>=-eq-ok (write_codes P C c.state c.dirty_entities) _ run in
      let is : record c { state = s } ≡ c₁ = cc in
      let (bm, k) =
        write_bitmaps-Loads P C c₁ c₂ c₁.dirty_bitmaps
          (subst (λ x. Loads P C (CacheStore.staging_db x)) is loads) run' q in
      (
        bm,
        ap (λ m. or_load P C n.staging_db q (Assoc.lookup pair_eq q m)) f.no_bitmaps
            ∙ load_bitmap-same P C c₂.staging_db n.staging_db q f.pointers f.blobs
            ∙ k,
      )

  module _ (c c₁ c₂ n : CacheStore P C) (indexed : IsIndexed P C c) (readable : IsReadable P C c)
      (round_trip : IsRoundTrip P C) (apart : AnnotSlotsApart P C)
      (hash : IsHash P C (Marshalled P C c.dirty_bitmaps)) (names : NoNulNames c.dirty_bitmaps)
      (stored : IsStored P C c.staging_db c.dirty_bitmaps) (run : flush_entities P C c ≡ ok c₁)
      (run' : flush_bitmaps P C c₁ ≡ ok c₂) (f : Follows c₂ n) where
    abbrev Coded : Type 0
    Coded =
        (s : P.state_db.State) × (write_codes P C c.state c.dirty_entities ≡ ok s)
        × (record c { state = s } ≡ c₁)

    coded : Coded
    unfolding flush_entities
    coded =
        let (s, written, h) = >>=-eq-ok (write_codes P C c.state c.dirty_entities) _ run in
        (s, written, cc)

    same_entity : (a : Bytes) → entity_at P C n a ≡ entity_at P C c a
    unfolding entity_at flush_bitmaps Assoc.lookup
    same_entity a =
        ap (λ m. or_decode P C (P.state_db.get_code n.state a) (Assoc.lookup bytes_eq a m))
          f.no_entities
        ∙ ap (λ x. or_decode P C x none)
            (f.codes a ∙ write_bitmaps-code P C c₁ c₂ c₁.dirty_bitmaps a run')
        ∙ flush_entities-entity_at P C round_trip c c₁ a run

    same_id : (a : Bytes) → entity_id_of P C n a ≡ entity_id_of P C c a
    unfolding entity_id_of flush_bitmaps
    same_id a =
        let (_, _, is) = coded in
        let staging : c₁.staging_db ≡ c.staging_db = sym (ap CacheStore.staging_db is) in
        let reads =
          f.ids a
          ∙ write_bitmaps-addr P C c₁ c₂ c₁.dirty_bitmaps a run'
          ∙ ap (λ s. staging_get P C s (addr_key a)) staging in
        rw (entity_id_of, reads) refl

    same_count : read_entity_count P C n.state ≡ read_entity_count P C c.state
    unfolding flush_bitmaps
    same_count =
        let (s, written, is) = coded in
        f.count
        ∙ write_bitmaps-count P C c₁ c₂ c₁.dirty_bitmaps apart run'
        ∙ ap (λ x. read_entity_count P C (CacheStore.state x)) (sym is)
        ∙ write_codes-count c.state s c.dirty_entities written

    earlier : (a : Bytes) (e : Entity) (j : ℕ) → Live P C n a e j → Live P C c a e j
    earlier a e j l = record {
      entity = sym (same_entity a) ∙ l.entity;
      id = sym (same_id a) ∙ l.id;
    }

    later : (a : Bytes) (e : Entity) (j : ℕ) → Live P C c a e j → Live P C n a e j
    later a e j l = record { entity = same_entity a ∙ l.entity; id = same_id a ∙ l.id }

    -- A bitmap of the next buffer is the one that the flush found.
    same_bitmap :
        (q : AnnotPair) (bm : P.roaring.Bitmap)
        → no_nul q.0 ≡ true
        → cached_bitmap P C c q ≡ ok bm
        → cached_bitmap P C n q ≡ ok bm
    unfolding cached_bitmap flush_bitmaps Assoc.lookup
    same_bitmap q bm w here =
        let (s, _, is) = coded in
        let flush : flush_bitmaps P C (record c { state = s }) ≡ ok c₂ =
          ap (flush_bitmaps P C) is ∙ run' in
        ap (λ m. or_load P C n.staging_db q (Assoc.lookup pair_eq q m)) f.no_bitmaps
        ∙ load_bitmap-same P C c₂.staging_db n.staging_db q f.pointers f.blobs
        ∙ elim (Option-cases (Assoc.lookup pair_eq q c.dirty_bitmaps)) [
          | inl e ↦
              write_bitmaps-load_bitmap P C (record c { state = s }) c₂ c.dirty_bitmaps q bm names
                stored w e (sym (ap (or_load P C c.staging_db q) e) ∙ here) flush
          | inr (b, e) ↦
              flush_bitmaps-load_bitmap P C (record c { state = s }) c₂ q b hash names w e flush
              ∙ sym (ap (or_load P C c.staging_db q) e)
              ∙ here
        ]

    abbrev Holds : CacheStore P C → AnnotPair → ℕ → Type 0
    Holds x q j =
        (a : Bytes) × (e : Entity) × Live P C x a e j
        × (has_pair (all_annotations P.text e) q ≡ true)

    exact_next :
        (q : AnnotPair) (bm : P.roaring.Bitmap)
        → no_nul q.0 ≡ true
        → cached_bitmap P C n q ≡ ok bm
        → (j : ℕ) → (P.roaring.contains bm j ≡ true) ↔ Holds n q j
    exact_next q bm w now j =
        let (b, here) = readable q in
        let same : ok b ≡ ok bm = sym (same_bitmap q b w here) ∙ now in
        let is : b ≡ bm = cc in
        let (to, from) = indexed.exact q bm w (here ∙ ap ok is) j in
        (
          λ x. let (a, e, l, m) = to x in (a, e, later a e j l, m),
          λ (a, e, l, m). from (a, e, earlier a e j l, m),
        )

    -- The flush of a block hands the index invariant on to a buffer that follows it with empty
    -- caches: the pointers and the trie that were written hold it alone. Every bitmap can be read,
    -- the codec takes back what it gave, the slots of pairs are not the slot of the counter, hashes
    -- of the bitmaps that are written have 32 bytes and do not collide, also with those that are
    -- stored, and no name of a pair holds a NUL.
    pub flush-IsIndexed : IsIndexed P C n
    flush-IsIndexed = record {
      exact = exact_next;
      identified = λ a e at.
          let (j, l) = indexed.identified a e (sym (same_entity a) ∙ at) in (j, later a e j l);
      counted = λ a e j l. omega (arith, same_count, indexed.counted a e j (earlier a e j l));
      unique = λ a b e e' j l l'. indexed.unique a b e e' j (earlier a e j l) (earlier b e' j l');
      plain = λ a e at. indexed.plain a e (sym (same_entity a) ∙ at);
    }
