-- ===== src/Store/Cache/Staging.antt =====
-- What the staging store answers after a write, and which bitmaps depend on it.
use arkiv_storage_service.Base.{ℕ, ◌≡◌, ap, ◌∙◌, if◌then◌else◌, some, arith, Option-cases, inl, inr}
use arkiv_storage_service.Bytes.{Bytes, beq}
use arkiv_storage_service.Platform.{Platform}
use arkiv_storage_service.Store.Keys.{bitmap_key, annot_key, id_key, addr_key}
use arkiv_storage_service.Store.Entity.{AnnotPair}
use arkiv_storage_service.Store.Cache.{Codec, StagingDb, staging_get, staging_put, load_bitmap}

module _ (P : Platform) (C : Codec) where
  pub staging_get-staging_put :
      (s : StagingDb P C) (k v j : Bytes)
      → staging_get P C (staging_put P C s k v) j
        ≡ (if beq k j then some v else staging_get P C s j)
  unfolding staging_get staging_put
  staging_get-staging_put s k v j = ground (arith, P.kv.get-put s.staging k j v)

  -- The loaded bitmaps depend on the pointers and the bitmaps only.
  pub load_bitmap-same :
      (s s' : StagingDb P C) (q : AnnotPair)
      → ((k v : Bytes) → staging_get P C s' (annot_key k v) ≡ staging_get P C s (annot_key k v))
      → ((h : Bytes) → staging_get P C s' (bitmap_key h) ≡ staging_get P C s (bitmap_key h))
      → load_bitmap P C s' q ≡ load_bitmap P C s q
  unfolding load_bitmap
  load_bitmap-same s s' (k, v) annots bitmaps =
      elim (Option-cases (staging_get P C s (annot_key k v))) [
        | inl e ↦ ground (arith, e, annots k v)
        | inr (h, e) ↦ ground (arith, e, annots k v, bitmaps h)
      ]

  -- The two keys that a new entity writes.
  abbrev pub two_keys : StagingDb P C → ℕ → Bytes → Bytes → StagingDb P C
  two_keys s id addr v = staging_put P C (staging_put P C s (id_key id) addr) (addr_key addr) v

  pub annot_key-kept :
      (s : StagingDb P C) (id : ℕ) (addr w k v : Bytes)
      → staging_get P C (two_keys s id addr w) (annot_key k v) ≡ staging_get P C s (annot_key k v)
  unfolding beq annot_key id_key addr_key
  annot_key-kept s id addr w k v =
      staging_get-staging_put _ (addr_key addr) w (annot_key k v)
      ∙ staging_get-staging_put s (id_key id) addr (annot_key k v)

  pub bitmap_key-kept :
      (s : StagingDb P C) (id : ℕ) (addr w h : Bytes)
      → staging_get P C (two_keys s id addr w) (bitmap_key h) ≡ staging_get P C s (bitmap_key h)
  unfolding beq bitmap_key id_key addr_key
  bitmap_key-kept s id addr w h =
      staging_get-staging_put _ (addr_key addr) w (bitmap_key h)
      ∙ staging_get-staging_put s (id_key id) addr (bitmap_key h)

  pub addr_key-written :
      (s : StagingDb P C) (id : ℕ) (addr w b : Bytes)
      → staging_get P C (two_keys s id addr w) (addr_key b)
        ≡ (if beq addr b then some w else staging_get P C s (addr_key b))
  unfolding beq id_key addr_key
  addr_key-written s id addr w b =
      staging_get-staging_put _ (addr_key addr) w (addr_key b)
      ∙ ap (λ x. if beq addr b then some w else x)
          (staging_get-staging_put s (id_key id) addr (addr_key b))
