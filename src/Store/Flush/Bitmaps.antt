-- ===== src/Store/Flush/Bitmaps.antt =====
-- After the flush the staging store has the cached bitmaps.
use mathlib.Core.Bool.{false≢true}
use arkiv_storage_service.Base.{
  ◌≡◌, refl, sym, ap, subst, ◌∙◌, true, false, List, [], ◌∷◌, length, if◌then◌else◌, Bool-cases,
  ◌⊎◌, inl, inr, some, ok, >>=-eq-ok, arith,
}
use arkiv_storage_service.Base.Assoc
use arkiv_storage_service.Bytes.{Bytes, beq}
use arkiv_storage_service.Bytes.Order.{beq_iff}
use arkiv_storage_service.Platform.{Platform}
use arkiv_storage_service.Store.Keys.{
  bitmap_key, annot_key, pairs_key, annot, bitmap, encode, no_nul,
}
use arkiv_storage_service.Store.Keys.Laws.{encode_injective}
use arkiv_storage_service.Store.Entity.{AnnotPair, same_pair}
use arkiv_storage_service.Store.Entity.Laws.{same_pair_iff}
use arkiv_storage_service.Store.Cache.{
  pair_eq, Codec, CacheStore, StagingDb, staging_get, staging_put, load_bitmap,
}
use arkiv_storage_service.Store.Cache.Staging.{staging_get-staging_put}
use arkiv_storage_service.Store.Flush.{
  marshal_bitmap, set_annot_slot, index_pair, write_bitmap, write_bitmaps, flush_bitmaps,
}

-- the names of the pairs hold no NUL
abbrev pub NoNulNames : {A : Type 0} → List (AnnotPair × A) → Type 0
NoNulNames [] = Unit
NoNulNames (((k, v), x) ∷ m) = (no_nul k ≡ true) × NoNulNames m

module _ (P : Platform) (C : Codec) where
  -- The hashes of the strings in `S` have 32 bytes and differ.
  pub record IsHash (S : Bytes → Type 0) : Type 0 where
    pub width : (b : Bytes) → S b → length (P.text.keccak b) ≡ 32
    pub apart : (b d : Bytes) → S b → S d → P.text.keccak b ≡ P.text.keccak d → b ≡ d

  abbrev pub Among : List (AnnotPair × P.roaring.Bitmap) → P.roaring.Bitmap → Type 0
  Among [] bm = ⊥
  Among ((p, b) ∷ m) bm = (b ≡ bm) ⊎ Among m bm

  -- what the bitmaps of a list are marshalled to
  abbrev pub Marshalled : List (AnnotPair × P.roaring.Bitmap) → Bytes → Type 0
  Marshalled m d = (bm : P.roaring.Bitmap) × Among m bm × (P.roaring.marshal bm ≡ some d)

  -- The pointer of a pair leads to a bitmap.
  record Leads (S : Bytes → Type 0) (s : StagingDb P C) (q : AnnotPair) (bm : P.roaring.Bitmap)
      : Type 0 where
    pub bytes : Bytes
    pub known : S bytes
    pub marshalled : P.roaring.marshal bm ≡ some bytes
    pub pointer : staging_get P C s (annot_key q.0 q.1) ≡ some (P.text.keccak bytes)
    pub blob : staging_get P C s (bitmap_key (P.text.keccak bytes)) ≡ some bytes

  Leads-load :
      (S : Bytes → Type 0) (hash : IsHash S) (s : StagingDb P C) (q : AnnotPair)
      (bm : P.roaring.Bitmap)
      → Leads S s q bm
      → load_bitmap P C s q ≡ ok bm
  unfolding load_bitmap
  Leads-load S hash s (k, v) bm l = ground (
    arith,
    l.pointer,
    l.blob,
    hash.width l.bytes l.known,
    P.roaring.unmarshal-marshal bm l.bytes l.marshalled,
  )

  -- The pairs key changes neither pointers nor blobs.
  index_pair-annot :
      (s : StagingDb P C) (k v k' v' : Bytes)
      → staging_get P C (index_pair P C s k v) (annot_key k' v')
        ≡ staging_get P C s (annot_key k' v')
  unfolding index_pair annot_key pairs_key beq
  index_pair-annot s k v k' v' =
      ground (arith, staging_get-staging_put P C s (pairs_key k v) (1 ∷ []) (annot_key k' v'))

  index_pair-bitmap :
      (s : StagingDb P C) (k v h : Bytes)
      → staging_get P C (index_pair P C s k v) (bitmap_key h) ≡ staging_get P C s (bitmap_key h)
  unfolding index_pair bitmap_key pairs_key beq
  index_pair-bitmap s k v h =
      ground (arith, staging_get-staging_put P C s (pairs_key k v) (1 ∷ []) (bitmap_key h))

  bitmap_put-annot :
      (s : StagingDb P C) (h d k v : Bytes)
      → staging_get P C (staging_put P C s (bitmap_key h) d) (annot_key k v)
        ≡ staging_get P C s (annot_key k v)
  unfolding bitmap_key annot_key beq
  bitmap_put-annot s h d k v = staging_get-staging_put P C s (bitmap_key h) d (annot_key k v)

  annot_put-bitmap :
      (s : StagingDb P C) (k v d h : Bytes)
      → staging_get P C (staging_put P C s (annot_key k v) d) (bitmap_key h)
        ≡ staging_get P C s (bitmap_key h)
  unfolding bitmap_key annot_key beq
  annot_put-bitmap s k v d h = staging_get-staging_put P C s (annot_key k v) d (bitmap_key h)

  module _ (s : StagingDb P C) (k v d : Bytes) where
    abbrev pub after : StagingDb P C
    after =
        index_pair P C
          (staging_put P C (staging_put P C s (bitmap_key (P.text.keccak d)) d) (annot_key k v)
            (P.text.keccak d))
          k v

    pub after_annot :
        (k' v' : Bytes)
        → staging_get P C after (annot_key k' v') ≡ (
            if beq (annot_key k v) (annot_key k' v')
            then some (P.text.keccak d)
            else staging_get P C s (annot_key k' v'))
    after_annot k' v' =
        index_pair-annot _ k v k' v'
        ∙ (staging_get-staging_put P C _ (annot_key k v) (P.text.keccak d) (annot_key k' v')
            ∙ ap (λ x. if beq (annot_key k v) (annot_key k' v') then some (P.text.keccak d) else x)
                (bitmap_put-annot s (P.text.keccak d) d k' v'))

    pub after_bitmap :
        (h : Bytes)
        → staging_get P C after (bitmap_key h) ≡ (
            if beq (bitmap_key (P.text.keccak d)) (bitmap_key h)
            then some d
            else staging_get P C s (bitmap_key h))
    after_bitmap h =
        index_pair-bitmap _ k v h
        ∙ (annot_put-bitmap _ k v (P.text.keccak d) h
            ∙ staging_get-staging_put P C s (bitmap_key (P.text.keccak d)) d (bitmap_key h))

    after-own :
        (S : Bytes → Type 0) (bm : P.roaring.Bitmap)
        → S d
        → P.roaring.marshal bm ≡ some d
        → Leads S after (k, v) bm
    after-own S bm x m = record {
      bytes = d;
      known = x;
      marshalled = m;
      pointer = after_annot k v ∙ rw ((beq_iff (annot_key k v) (annot_key k v)).1 refl) refl;
      blob =
          after_bitmap (P.text.keccak d)
          ∙ rw ((beq_iff (bitmap_key (P.text.keccak d)) (bitmap_key (P.text.keccak d))).1 refl)
              refl;
    }

    after-other :
        (S : Bytes → Type 0) (hash : IsHash S) (q : AnnotPair) (bm : P.roaring.Bitmap)
        → no_nul k ≡ true
        → no_nul q.0 ≡ true
        → same_pair (k, v) q ≡ false
        → S d
        → Leads S s q bm
        → Leads S after q bm
    unfolding encode
    after-other S hash (k', v') bm w w' n x l = record {
      bytes = l.bytes;
      known = l.known;
      marshalled = l.marshalled;
      pointer = after_annot k' v' ∙ elim (Bool-cases (beq (annot_key k v) (annot_key k' v'))) [
        | inl e ↦
            let same : annot k v ≡ annot k' v' =
              encode_injective (annot k v) (annot k' v') w w'
                ((beq_iff (annot_key k v) (annot_key k' v')).0 e) in
            let is : (k, v) ≡ (k', v') = cc in
            absurd (false≢true (sym n ∙ (same_pair_iff (k, v) (k', v')).1 is))
        | inr e ↦ rw e l.pointer
      ];
      blob =
          after_bitmap (P.text.keccak l.bytes)
          ∙ elim (Bool-cases
              (beq (bitmap_key (P.text.keccak d)) (bitmap_key (P.text.keccak l.bytes)))) [
                | inl e ↦
                    let same : bitmap (P.text.keccak d) ≡ bitmap (P.text.keccak l.bytes) =
                      encode_injective (bitmap (P.text.keccak d)) (bitmap (P.text.keccak l.bytes))
                        tt tt
                        ((beq_iff (bitmap_key (P.text.keccak d))
                            (bitmap_key (P.text.keccak l.bytes))).0
                          e) in
                    rw e (ap some (hash.apart d l.bytes x l.known (cc)))
                | inr e ↦ rw e l.blob
              ];
    }

  marshal_bitmap-eq-ok :
      (bm : P.roaring.Bitmap) (d : Bytes)
      → marshal_bitmap P C bm ≡ ok d
      → P.roaring.marshal bm ≡ some d
  unfolding marshal_bitmap
  marshal_bitmap-eq-ok bm d h = ground arith

  -- One round of the flush, when it succeeds.
  pub write_bitmap-after :
      (c c' : CacheStore P C) (k v : Bytes) (bm : P.roaring.Bitmap)
      → write_bitmap P C c (k, v) bm ≡ ok c'
      → (d : Bytes) × (P.roaring.marshal bm ≡ some d)
        × (record c {
          staging_db = after c.staging_db k v d;
          state = set_annot_slot P C c.state k v (P.text.keccak d);
        }
            ≡ c')
  unfolding write_bitmap
  write_bitmap-after c c' k v bm h =
      let (d, marshalled, h₁) = >>=-eq-ok (marshal_bitmap P C bm) _ h in
      (d, marshal_bitmap-eq-ok bm d marshalled, cc)

  module _ (S : Bytes → Type 0) (hash : IsHash S) where
    write_bitmaps-Leads :
        (c c' : CacheStore P C) (m : List (AnnotPair × P.roaring.Bitmap)) (q : AnnotPair)
        (bm : P.roaring.Bitmap)
        → NoNulNames m
        → ((d : Bytes) → Marshalled m d → S d)
        → no_nul q.0 ≡ true
        → Assoc.lookup pair_eq q m ≡ some bm
        → write_bitmaps P C c m ≡ ok c'
        → Leads S c'.staging_db q bm
    unfolding write_bitmaps Assoc.lookup
    write_bitmaps-Leads c c' [] q bm names known w at run = ground arith
    write_bitmaps-Leads c c' (((k, v), b) ∷ m) q bm names known w at run =
        let (c₁, first, run₁) = >>=-eq-ok (write_bitmaps P C c m) _ run in
        let (d, e, is) = write_bitmap-after c₁ c' k v b run₁ in
        subst (λ x. Leads S x q bm) (ap CacheStore.staging_db is)
          (elim (Bool-cases (same_pair (k, v) q)) [
            | inl same ↦
                let at_q : (k, v) ≡ q = (same_pair_iff (k, v) q).0 same in
                let is_b : b ≡ bm = ground (arith, at, same) in
                subst (λ x. Leads S (after c₁.staging_db k v d) x bm) at_q
                  (subst (λ x. Leads S (after c₁.staging_db k v d) (k, v) x) is_b
                    (after-own c₁.staging_db k v d S b (known d (b, inl refl, e)) e))
            | inr other ↦
                after-other c₁.staging_db k v d S hash q bm names.0 w other
                  (known d (b, inl refl, e))
                  (write_bitmaps-Leads c c₁ m q bm names.1 (λ d' (x, a, y). known d' (x, inr a, y))
                    w (ground (arith, at, other)) first)
          ])

  -- After a flush that succeeds, every cached bitmap is the one that is loaded from the staging
  -- store, where the hashes of the bitmaps that are written have 32 bytes and do not collide, and
  -- no name of a pair holds a NUL.
  pub flush_bitmaps-load_bitmap :
      (c c' : CacheStore P C) (q : AnnotPair) (bm : P.roaring.Bitmap)
      → IsHash (Marshalled c.dirty_bitmaps)
      → NoNulNames c.dirty_bitmaps
      → no_nul q.0 ≡ true
      → Assoc.lookup pair_eq q c.dirty_bitmaps ≡ some bm
      → flush_bitmaps P C c ≡ ok c'
      → load_bitmap P C c'.staging_db q ≡ ok bm
  unfolding flush_bitmaps
  flush_bitmaps-load_bitmap c c' q bm hash names w at run =
      let S = Marshalled c.dirty_bitmaps in
      Leads-load S hash c'.staging_db q bm
        (write_bitmaps-Leads S hash c c' c.dirty_bitmaps q bm names (λ d x. x) w at run)
