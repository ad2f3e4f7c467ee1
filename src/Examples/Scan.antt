-- ===== src/Examples/Scan.antt =====
-- Scans over a database with two pointers.
use arkiv_storage_service.Base.{
  ℕ, ◌≤◌, ◌≡◌, ◌↔◌, refl, sym, ◌∙◌, true, false, List, [], ◌∷◌, replicate, none, some, Bool-cases,
  inl, inr, arith, subst,
}
use arkiv_storage_service.Base.Assoc.{lookup}
use arkiv_storage_service.Base.Descending.{has}
use arkiv_storage_service.Bytes.{Bytes, AreBytes, codes, beq, has_prefix}
use arkiv_storage_service.Bytes.Order.{beq_iff}
use arkiv_storage_service.Bytes.BigEndian.{put_uint64, max_uint64}
use arkiv_storage_service.Platform.Sample.{sample_platform}
use arkiv_storage_service.Platform.Sample.Listed.{key_eq}
use arkiv_storage_service.Store.Keys.{annot_key, bitmap_key}
use arkiv_storage_service.Store.Cache.{Codec, StagingDb, staging_get}
use arkiv_storage_service.Store.Glob.{glob_match}
use arkiv_storage_service.Store.Commit.{commit_staging}
use arkiv_storage_service.Store.Commit.Atomic.{commit_staging-staging_get}
use arkiv_storage_service.Store.Scan.{
  indexed, iterate_numeric_annot_bitmaps, iterate_string_annot_bitmaps,
  iterate_prefix_annot_bitmaps, iterate_glob_annot_bitmaps,
}
use arkiv_storage_service.Store.Scan.Range.{HasByteKeys}
use arkiv_storage_service.Store.Scan.Numbers.{iterate_numeric_annot_bitmaps_iff}
use arkiv_storage_service.Store.Scan.Strings.{
  has_one_byte, iterate_string_annot_bitmaps_iff, iterate_prefix_annot_bitmaps_iff,
}
use arkiv_storage_service.Store.Scan.Globs.{iterate_glob_annot_bitmaps_iff}
use arkiv_storage_service.Query.Evaluate.Contract.{above, under}

abbrev hash : Bytes
hash = replicate 32 9

abbrev five : Bytes
five = put_uint64 5

abbrev k₁ : Bytes
k₁ = annot_key (codes "size") five

abbrev k₂ : Bytes
k₂ = annot_key (codes "color") (codes "red")

abbrev k₃ : Bytes
k₃ = bitmap_key hash

-- entity 3 has `size = 5` and `color = "red"`
abbrev sample_db : List (Bytes × Bytes)
sample_db = (k₁, hash) ∷ (k₂, hash) ∷ (k₃, 3 ∷ []) ∷ []

k₁-AreBytes : AreBytes k₁
unfolding annot_key put_uint64
k₁-AreBytes = omega arith

k₂-AreBytes : AreBytes k₂
unfolding annot_key
k₂-AreBytes = omega arith

k₃-AreBytes : AreBytes k₃
unfolding bitmap_key
k₃-AreBytes = omega arith

not_there : {v : Bytes} → none ≡ some v → ⊥
not_there h = cc

sample_db-HasByteKeys : HasByteKeys sample_platform sample_db
unfolding lookup
sample_db-HasByteKeys k v h = elim (Bool-cases (beq k₁ k)) [
  | inl e ↦ subst AreBytes ((beq_iff k₁ k).0 e) k₁-AreBytes
  | inr e ↦ elim (Bool-cases (beq k₂ k)) [
    | inl e' ↦ subst AreBytes ((beq_iff k₂ k).0 e') k₂-AreBytes
    | inr e' ↦ elim (Bool-cases (beq k₃ k)) [
      | inl e'' ↦ subst AreBytes ((beq_iff k₃ k).0 e'') k₃-AreBytes
      | inr e'' ↦ absurd (not_there (sym (rw e (rw e' (rw e'' refl))) ∙ h))
    ]
  ]
]

-- The numbers from 2 to 9 under `size`.
iterate_numeric_annot_bitmaps_iff_example :
    (has (iterate_numeric_annot_bitmaps sample_platform sample_db (codes "size") 2 9) 3 ≡ true) ↔ (
      (n : ℕ) × (2 ≤ n)
      × (n ≤ 9)
      × (n ≤ max_uint64)
      × (indexed sample_platform sample_db (codes "size") (put_uint64 n) 3 ≡ true))
iterate_numeric_annot_bitmaps_iff_example =
    iterate_numeric_annot_bitmaps_iff sample_platform sample_db sample_db-HasByteKeys (codes "size")
      2 9 3 (omega arith)

-- The strings up to, and without, `blue` under `color`.
iterate_string_annot_bitmaps_iff_example :
    (has
        (iterate_string_annot_bitmaps sample_platform sample_db
          (codes "color")
          none
          false
          (some (codes "blue"))
          false)
        3
      ≡ true)
    ↔ ((s : Bytes) × (has_one_byte s ≡ true)
        × (above none false s ≡ true)
        × (under (some (codes "blue")) false s ≡ true)
        × (indexed sample_platform sample_db (codes "color") s 3 ≡ true))
iterate_string_annot_bitmaps_iff_example =
    iterate_string_annot_bitmaps_iff sample_platform sample_db sample_db-HasByteKeys (codes "color")
      none false (some (codes "blue")) false 3

iterate_prefix_annot_bitmaps_iff_example :
    (has (iterate_prefix_annot_bitmaps sample_platform sample_db (codes "color") (codes "re")) 3
      ≡ true)
    ↔ ((s : Bytes) × (has_one_byte s ≡ true)
        × (has_prefix (codes "re") s ≡ true)
        × (indexed sample_platform sample_db (codes "color") s 3 ≡ true))
iterate_prefix_annot_bitmaps_iff_example =
    iterate_prefix_annot_bitmaps_iff sample_platform sample_db sample_db-HasByteKeys (codes "color")
      (codes "re") 3 (omega arith)

iterate_glob_annot_bitmaps_iff_example :
    (has (iterate_glob_annot_bitmaps sample_platform sample_db (codes "color") (codes "r*d")) 3
      ≡ true)
    ↔ ((s : Bytes) × (has_one_byte s ≡ true)
        × (glob_match (codes "r*d") s ≡ true)
        × (indexed sample_platform sample_db (codes "color") s 3 ≡ true))
iterate_glob_annot_bitmaps_iff_example =
    iterate_glob_annot_bitmaps_iff sample_platform sample_db sample_db-HasByteKeys (codes "color")
      (codes "r*d") 3

abbrev no_codec : Codec
no_codec = record { encode_entity = λ e. none; decode_entity = λ d. none }

-- one key in the staging store, in front of the database
abbrev sample_staging : StagingDb sample_platform no_codec
sample_staging = record { database = sample_db; staging = (k₂, codes "new") ∷ [] }

commit_staging-staging_get_example :
    lookup key_eq k₂ (commit_staging sample_platform no_codec sample_staging)
    ≡ staging_get sample_platform no_codec sample_staging k₂
commit_staging-staging_get_example =
    commit_staging-staging_get sample_platform no_codec sample_staging k₂
