-- ===== src/Store/Commit/Atomic.antt =====
-- After the flush, the database shows what the write buffer showed.
use mathlib.Core.Bool.{false≢true}
use arkiv_storage_service.Base.{
  ◌≡◌, refl, sym, ap, ◌∙◌, inl, inr, true, List, [], ◌∷◌, none, some, Option-cases, arith, subst,
}
use arkiv_storage_service.Bytes.{Bytes, beq, lt, has_prefix}
use arkiv_storage_service.Bytes.Order.{beq_iff, lt_irrefl}
use arkiv_storage_service.Platform.{Platform, Occurs, all_above, Ascending}
use arkiv_storage_service.Store.PrefixRange.{lt-nil}
use arkiv_storage_service.Store.Cache.{Codec, StagingDb, staging_get}
use arkiv_storage_service.Store.Commit.{put_all, commit_staging}

not_above : (k v : Bytes) (es : List (Bytes × Bytes)) → all_above k es ≡ true → Occurs k v es → ⊥
not_above k v [] a o = o
not_above k v ((j, w) ∷ es) a (inl is) =
    false≢true (sym (lt_irrefl k) ∙ (ap (lt k) is.0 ∙ ground arith))
not_above k v ((j, w) ∷ es) a (inr o) = not_above k v es (ground arith) o

module _ (P : Platform) (C : Codec) where
  open P use {kv.{Db}}

  pub put_all-absent :
      (db : Db) (es : List (Bytes × Bytes)) (k : Bytes)
      → ((v : Bytes) → Occurs k v es → ⊥)
      → P.kv.get (put_all P C db es) k ≡ P.kv.get db k
  unfolding put_all
  put_all-absent db [] k n = refl
  put_all-absent db ((j, w) ∷ es) k n =
      let apart : beq j k ≡ true → ⊥ = λ e. n w (inl (sym ((beq_iff j k).0 e), refl)) in
      put_all-absent (P.kv.put db j w) es k (λ v o. n v (inr o))
      ∙ ground (arith, P.kv.get-put db j k w, apart)

  put_all-present :
      (db : Db) (es : List (Bytes × Bytes)) (k v : Bytes)
      → Ascending es
      → Occurs k v es
      → P.kv.get (put_all P C db es) k ≡ some v
  unfolding put_all
  put_all-present db [] k v a o = absurd o
  put_all-present db ((j, w) ∷ es) k v a (inl is) =
      let above : all_above k es ≡ true = subst (λ i. all_above i es ≡ true) (sym is.0) a.0 in
      put_all-absent (P.kv.put db j w) es k (λ u o. not_above k u es above o)
      ∙ (P.kv.get-put db j k w ∙ rw ((beq_iff j k).1 (sym is.0)) (ap some (sym is.1)))
  put_all-present db ((j, w) ∷ es) k v a (inr o) = put_all-present (P.kv.put db j w) es k v a.1 o

  -- After the batch of the flush, every key of the database has the value that a read through the
  -- write buffer had before it.
  pub commit_staging-staging_get :
      (s : StagingDb P C) (k : Bytes) → P.kv.get (commit_staging P C s) k ≡ staging_get P C s k
  unfolding commit_staging staging_get has_prefix
  commit_staging-staging_get s k =
      let es = P.kv.entries s.staging [] [] in
      elim (Option-cases (P.kv.get s.staging k)) [
        | inl e ↦
            let absent : (v : Bytes) → Occurs k v es → ⊥ =
              λ v o. none≢some (sym e ∙ ((P.kv.Occurs-entries s.staging [] [] k v).0 o).0) in
            put_all-absent s.database es k absent ∙ rw (e, staging_get) refl
        | inr (v, e) ↦
            put_all-present s.database es k v (P.kv.entries-Ascending s.staging [] [])
              ((P.kv.Occurs-entries s.staging [] [] k v).1 (e, refl, lt-nil k))
            ∙ rw (e, staging_get) refl
      ]
    where
      none≢some : {v : Bytes} → none ≡ some v → ⊥
      none≢some h = cc
