-- ===== src/Store/Flush/Kept.antt =====
-- What the flush of the bitmaps does not change.
use mathlib.Core.Bool.{false≢true}
use arkiv_storage_service.Base.{
  length, subst, ◌==◌, ◌≡◌, ◌≢◌, refl, sym, ap, ◌∙◌, true, false, List, [], ◌∷◌, Bool-cases,
  Option-cases, inl, inr, none, some, ok, >>=-eq-ok, arith,
}
use arkiv_storage_service.Base.Assoc
use arkiv_storage_service.Bytes.{Bytes, beq}
use arkiv_storage_service.Bytes.Order.{beq_iff}
use arkiv_storage_service.Platform.{Platform}
use arkiv_storage_service.Store.Keys.{
  bitmap_key, annot_key, pairs_key, addr_key, annot, bitmap, encode, no_nul,
}
use arkiv_storage_service.Store.Keys.Laws.{encode_injective}
use arkiv_storage_service.Store.Entity.{AnnotPair, same_pair}
use arkiv_storage_service.Store.Entity.Laws.{same_pair_iff}
use arkiv_storage_service.Store.Cache.{
  pair_eq, Codec, CacheStore, StagingDb, staging_get, load_bitmap, read_entity_count,
  entity_count_slot, system_address,
}
use arkiv_storage_service.Store.Cache.Staging.{staging_get-staging_put}
use arkiv_storage_service.Store.Flush.{
  staging_has, index_pair, annot_slot_key, set_annot_slot, write_bitmaps,
}
use arkiv_storage_service.Store.Flush.Bitmaps.{
  NoNulNames, Marshalled, after, after_annot, after_bitmap, write_bitmap-after,
}

module _ (P : Platform) (C : Codec) where
  -- A bitmap that is stored under the hash of one that is written is that one.
  abbrev pub IsStored : StagingDb P C → List (AnnotPair × P.roaring.Bitmap) → Type 0
  IsStored s m =
      (b d : Bytes)
      → staging_get P C s (bitmap_key (P.text.keccak d)) ≡ some b
      → Marshalled P C m d
      → d ≡ b

  index_pair-addr :
      (s : StagingDb P C) (k v a : Bytes)
      → staging_get P C (index_pair P C s k v) (addr_key a) ≡ staging_get P C s (addr_key a)
  unfolding index_pair addr_key pairs_key beq
  index_pair-addr s k v a = elim (Bool-cases (staging_has P C s (pairs_key k v))) [
    | inl e ↦ rw e refl
    | inr e ↦ rw e (staging_get-staging_put P C s (pairs_key k v) (1 ∷ []) (addr_key a))
  ]

  after_addr :
      (s : StagingDb P C) (k v d a : Bytes)
      → staging_get P C (after P C s k v d) (addr_key a) ≡ staging_get P C s (addr_key a)
  unfolding beq bitmap_key annot_key addr_key
  after_addr s k v d a =
      index_pair-addr _ k v a
      ∙ staging_get-staging_put P C _ (annot_key k v) (P.text.keccak d) (addr_key a)
      ∙ staging_get-staging_put P C s (bitmap_key (P.text.keccak d)) d (addr_key a)

  -- The pointer of a pair that is not written.
  write_bitmaps-pointer :
      (c c' : CacheStore P C) (m : List (AnnotPair × P.roaring.Bitmap)) (q : AnnotPair)
      → NoNulNames m
      → no_nul q.0 ≡ true
      → Assoc.lookup pair_eq q m ≡ none
      → write_bitmaps P C c m ≡ ok c'
      → staging_get P C c'.staging_db (annot_key q.0 q.1)
        ≡ staging_get P C c.staging_db (annot_key q.0 q.1)
  unfolding write_bitmaps Assoc.lookup encode
  write_bitmaps-pointer c c' [] q names w out run = let is : c ≡ c' = cc in rw⁻¹ is refl
  write_bitmaps-pointer c c' (((k, v), b) ∷ m) q names w out run =
      let (c₁, first, run₁) = >>=-eq-ok (write_bitmaps P C c m) _ run in
      let (d, _, is) = write_bitmap-after P C c₁ c' k v b run₁ in
      let other : same_pair (k, v) q ≡ false = ground (arith, out) in
      let apart : beq (annot_key k v) (annot_key q.0 q.1) ≡ false =
        elim (Bool-cases (beq (annot_key k v) (annot_key q.0 q.1))) [
          | inl e ↦
              let same : annot k v ≡ annot q.0 q.1 =
                encode_injective (annot k v) (annot q.0 q.1) names.0 w
                  ((beq_iff (annot_key k v) (annot_key q.0 q.1)).0 e) in
              let is_q : (k, v) ≡ q = cc in
              absurd (false≢true (sym other ∙ (same_pair_iff (k, v) q).1 is_q))
          | inr e ↦ e
        ] in
      ap (λ x. staging_get P C (CacheStore.staging_db x) (annot_key q.0 q.1)) (sym is)
      ∙ after_annot P C c₁.staging_db k v d q.0 q.1
      ∙ rw apart (write_bitmaps-pointer c c₁ m q names.1 w (ground (arith, out, other)) first)

  -- A bitmap that is stored already.
  write_bitmaps-blob :
      (c c' : CacheStore P C) (m : List (AnnotPair × P.roaring.Bitmap)) (h b : Bytes)
      → ((d : Bytes) → Marshalled P C m d → P.text.keccak d ≡ h → d ≡ b)
      → staging_get P C c.staging_db (bitmap_key h) ≡ some b
      → write_bitmaps P C c m ≡ ok c'
      → staging_get P C c'.staging_db (bitmap_key h) ≡ some b
  unfolding write_bitmaps encode
  write_bitmaps-blob c c' [] h b stored at run = let is : c ≡ c' = cc in rw⁻¹ is at
  write_bitmaps-blob c c' (((k, v), bm) ∷ m) h b stored at run =
      let (c₁, first, run₁) = >>=-eq-ok (write_bitmaps P C c m) _ run in
      let (d, marshalled, is) = write_bitmap-after P C c₁ c' k v bm run₁ in
      let rest =
        write_bitmaps-blob c c₁ m h b (λ d' (x, a, y) e. stored d' (x, inr a, y) e) at first in
      ap (λ x. staging_get P C (CacheStore.staging_db x) (bitmap_key h)) (sym is)
      ∙ after_bitmap P C c₁.staging_db k v d h
      ∙ elim (Bool-cases (beq (bitmap_key (P.text.keccak d)) (bitmap_key h))) [
        | inl e ↦
            let same : bitmap (P.text.keccak d) ≡ bitmap h =
              encode_injective (bitmap (P.text.keccak d)) (bitmap h) tt tt
                ((beq_iff (bitmap_key (P.text.keccak d)) (bitmap_key h)).0 e) in
            rw e (ap some (stored d (bm, inl refl, marshalled) (cc)))
        | inr e ↦ rw e rest
      ]

  pub write_bitmaps-addr :
      (c c' : CacheStore P C) (m : List (AnnotPair × P.roaring.Bitmap)) (a : Bytes)
      → write_bitmaps P C c m ≡ ok c'
      → staging_get P C c'.staging_db (addr_key a) ≡ staging_get P C c.staging_db (addr_key a)
  unfolding write_bitmaps
  write_bitmaps-addr c c' [] a run = let is : c ≡ c' = cc in rw⁻¹ is refl
  write_bitmaps-addr c c' (((k, v), b) ∷ m) a run =
      let (c₁, first, run₁) = >>=-eq-ok (write_bitmaps P C c m) _ run in
      let (d, _, is) = write_bitmap-after P C c₁ c' k v b run₁ in
      ap (λ x. staging_get P C (CacheStore.staging_db x) (addr_key a)) (sym is)
      ∙ after_addr c₁.staging_db k v d a
      ∙ write_bitmaps-addr c c₁ m a first

  pub write_bitmaps-code :
      (c c' : CacheStore P C) (m : List (AnnotPair × P.roaring.Bitmap)) (a : Bytes)
      → write_bitmaps P C c m ≡ ok c'
      → P.state_db.get_code c'.state a ≡ P.state_db.get_code c.state a
  unfolding write_bitmaps set_annot_slot
  write_bitmaps-code c c' [] a run = let is : c ≡ c' = cc in rw⁻¹ is refl
  write_bitmaps-code c c' (((k, v), b) ∷ m) a run =
      let (c₁, first, run₁) = >>=-eq-ok (write_bitmaps P C c m) _ run in
      let (d, _, is) = write_bitmap-after P C c₁ c' k v b run₁ in
      ap (λ x. P.state_db.get_code (CacheStore.state x) a) (sym is)
      ∙ P.state_db.get_code-set_state c₁.state _ _ _ a
      ∙ write_bitmaps-code c c₁ m a first

  -- The slot of a pair is never the slot of the counter.
  abbrev pub AnnotSlotsApart : Type 0
  AnnotSlotsApart = (k v : Bytes) → annot_slot_key P C k v ≢ entity_count_slot P C

  pub write_bitmaps-count :
      (c c' : CacheStore P C) (m : List (AnnotPair × P.roaring.Bitmap))
      → AnnotSlotsApart
      → write_bitmaps P C c m ≡ ok c'
      → read_entity_count P C c'.state ≡ read_entity_count P C c.state
  unfolding write_bitmaps set_annot_slot read_entity_count
  write_bitmaps-count c c' [] apart run = let is : c ≡ c' = cc in rw⁻¹ is refl
  write_bitmaps-count c c' (((k, v), b) ∷ m) apart run =
      let (c₁, first, run₁) = >>=-eq-ok (write_bitmaps P C c m) _ run in
      let (d, _, is) = write_bitmap-after P C c₁ c' k v b run₁ in
      ap (λ x. read_entity_count P C (CacheStore.state x)) (sym is)
      ∙ rw
          (P.state_db.get_state-set_state_ne c₁.state (system_address P C) (annot_slot_key P C k v)
            (P.text.keccak d) (system_address P C) (entity_count_slot P C) (apart k v))
          (write_bitmaps-count c c₁ m apart first)

  -- A bitmap that can be loaded and is not written is loaded again after the flush.
  pub write_bitmaps-load_bitmap :
      (c c' : CacheStore P C) (m : List (AnnotPair × P.roaring.Bitmap)) (q : AnnotPair)
      (bm : P.roaring.Bitmap)
      → NoNulNames m
      → IsStored c.staging_db m
      → no_nul q.0 ≡ true
      → Assoc.lookup pair_eq q m ≡ none
      → load_bitmap P C c.staging_db q ≡ ok bm
      → write_bitmaps P C c m ≡ ok c'
      → load_bitmap P C c'.staging_db q ≡ ok bm
  unfolding load_bitmap
  write_bitmaps-load_bitmap c c' m (k, v) bm names stored w out old run =
      let pointer = write_bitmaps-pointer c c' m (k, v) names w out run in
      elim (Option-cases (staging_get P C c.staging_db (annot_key k v))) [
        | inl e ↦ ground (arith, pointer, e, old)
        | inr (h, e) ↦ elim (Option-cases (staging_get P C c.staging_db (bitmap_key h))) [
          | inl e' ↦ ground (arith, pointer, e, e', old)
          | inr (b, e') ↦
              let blob =
                write_bitmaps-blob c c' m h b
                  (λ d x is.
                    stored b d (ap (λ y. staging_get P C c.staging_db (bitmap_key y)) is ∙ e') x)
                  e' run in
              ground (arith, pointer, e, e', blob, old)
        ]
      ]

  -- Every pair leads to a bitmap that can be read.
  abbrev pub Loads : StagingDb P C → Type 0
  Loads s = (q : AnnotPair) → (bm : P.roaring.Bitmap) × (load_bitmap P C s q ≡ ok bm)

  load_after :
      (s : StagingDb P C) (k v d : Bytes) (b : P.roaring.Bitmap)
      → P.roaring.marshal b ≡ some d
      → Loads s
      → Loads (after P C s k v d)
  unfolding load_bitmap
  load_after s k v d b marshalled loads (k', v') =
      let pointer = after_annot P C s k v d k' v' in
      let back = P.roaring.unmarshal-marshal b d marshalled in
      let own = (beq_iff (bitmap_key (P.text.keccak d)) (bitmap_key (P.text.keccak d))).1 refl in
      let blob = after_bitmap P C s k v d (P.text.keccak d) in
      elim (Bool-cases (beq (annot_key k v) (annot_key k' v'))) [
        | inl e ↦ elim (Bool-cases (length (P.text.keccak d) == 32)) [
          | inl w ↦ (b, ground (arith, pointer, e, w, blob, own, back))
          | inr w ↦ (P.roaring.empty, ground (arith, pointer, e, w))
        ]
        | inr e ↦
            let (bm, old) = loads (k', v') in
            elim (Option-cases (staging_get P C s (annot_key k' v'))) [
              | inl o ↦ (P.roaring.empty, ground (arith, pointer, e, o))
              | inr (h, o) ↦ elim (Bool-cases (length h == 32)) [
                | inr w ↦ (P.roaring.empty, ground (arith, pointer, e, o, w))
                | inl w ↦
                    let at_h = after_bitmap P C s k v d h in
                    elim (Bool-cases (beq (bitmap_key (P.text.keccak d)) (bitmap_key h))) [
                      | inl same ↦ (b, ground (arith, pointer, e, o, w, at_h, same, back))
                      | inr other ↦ (bm, ground (arith, pointer, e, o, w, at_h, other, old))
                    ]
              ]
            ]
      ]

  pub write_bitmaps-Loads :
      (c c' : CacheStore P C) (m : List (AnnotPair × P.roaring.Bitmap))
      → Loads c.staging_db
      → write_bitmaps P C c m ≡ ok c'
      → Loads c'.staging_db
  unfolding write_bitmaps
  write_bitmaps-Loads c c' [] loads run = let is : c ≡ c' = cc in rw⁻¹ is loads
  write_bitmaps-Loads c c' (((k, v), b) ∷ m) loads run =
      let (c₁, first, run₁) = >>=-eq-ok (write_bitmaps P C c m) _ run in
      let (d, marshalled, is) = write_bitmap-after P C c₁ c' k v b run₁ in
      subst (λ x. Loads (CacheStore.staging_db x)) is
        (load_after c₁.staging_db k v d b marshalled (write_bitmaps-Loads c c₁ m loads first))
