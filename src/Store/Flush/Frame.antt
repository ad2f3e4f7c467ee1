-- ===== src/Store/Flush/Frame.antt =====
-- The flush keeps the fields of the block, and the recorded roots.
use arkiv_storage_service.Base.{◌≡◌, refl, ◌∙◌, List, [], ◌∷◌, Bool-cases, inl, inr}
use arkiv_storage_service.Bytes.{Bytes, beq}
use arkiv_storage_service.Platform.{Platform}
use arkiv_storage_service.Store.Keys.{root_key, bitmap_key, annot_key, pairs_key}
use arkiv_storage_service.Store.Entity.{AnnotPair}
use arkiv_storage_service.Store.Cache.{Codec, CacheStore, StagingDb, staging_get, staging_put}
use arkiv_storage_service.Store.Cache.Staging.{staging_get-staging_put}
use arkiv_storage_service.Store.Flush.{
  write_codes, flush_entities, staging_has, index_pair, marshal_bitmap, write_bitmap, write_bitmaps,
  flush_bitmaps,
}
use arkiv_storage_service.Store.Ops.Frame.{Keeps, Keeps-ok, Keeps-then, Keeps-step, same_refl}

module _ (P : Platform) (C : Codec) where
  pub flush_entities-Keeps : (c : CacheStore P C) → Keeps P C c (flush_entities P C c)
  unfolding flush_entities
  flush_entities-Keeps c =
      Keeps-then P C c (write_codes P C c.state c.dirty_entities) (λ s. c) _
        (λ s e. same_refl P C c)
        (λ s.
          Keeps-ok P C c _
            (record { number = refl; hash = refl; parent = refl; roots = λ b. refl }))

  index_pair-roots :
      (s : StagingDb P C) (key val b : Bytes)
      → staging_get P C (index_pair P C s key val) (root_key b) ≡ staging_get P C s (root_key b)
  unfolding index_pair beq pairs_key root_key
  index_pair-roots s key val b = elim (Bool-cases (staging_has P C s (pairs_key key val))) [
    | inl e ↦ rw e refl
    | inr e ↦ rw e (staging_get-staging_put P C s (pairs_key key val) (1 ∷ []) (root_key b))
  ]

  two_puts-roots :
      (s : StagingDb P C) (h d key val b : Bytes)
      → staging_get P C
          (staging_put P C (staging_put P C s (bitmap_key h) d) (annot_key key val) h)
          (root_key b)
        ≡ staging_get P C s (root_key b)
  unfolding beq bitmap_key annot_key root_key
  two_puts-roots s h d key val b =
      staging_get-staging_put P C (staging_put P C s (bitmap_key h) d) (annot_key key val) h
        (root_key b)
      ∙ staging_get-staging_put P C s (bitmap_key h) d (root_key b)

  write_bitmap-Keeps :
      (c : CacheStore P C) (pair : AnnotPair) (bm : P.roaring.Bitmap)
      → Keeps P C c (write_bitmap P C c pair bm)
  unfolding write_bitmap
  write_bitmap-Keeps c (key, val) bm =
      Keeps-then P C c (marshal_bitmap P C bm) (λ d. c) _ (λ d e. same_refl P C c)
        (λ d.
          let h = P.text.keccak d in
          let s =
            staging_put P C (staging_put P C c.staging_db (bitmap_key h) d) (annot_key key val) h in
          Keeps-ok P C c _ (record {
            number = refl;
            hash = refl;
            parent = refl;
            roots = λ b. index_pair-roots s key val b ∙ two_puts-roots c.staging_db h d key val b;
          }))

  write_bitmaps-Keeps :
      (c : CacheStore P C) (bms : List (AnnotPair × P.roaring.Bitmap))
      → Keeps P C c (write_bitmaps P C c bms)
  unfolding write_bitmaps
  write_bitmaps-Keeps c [] = Keeps-ok P C c c (same_refl P C c)
  write_bitmaps-Keeps c ((pair, bm) ∷ bms) =
      Keeps-step P C c (write_bitmaps P C c bms) (λ c'. write_bitmap P C c' pair bm)
        (write_bitmaps-Keeps c bms) (λ c'. write_bitmap-Keeps c' pair bm)

  pub flush_bitmaps-Keeps : (c : CacheStore P C) → Keeps P C c (flush_bitmaps P C c)
  unfolding flush_bitmaps
  flush_bitmaps-Keeps c = write_bitmaps-Keeps c c.dirty_bitmaps
