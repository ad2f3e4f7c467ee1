-- ===== src/Store/Commit/Steps.antt =====
-- What a commit that succeeds has done.
use arkiv_storage_service.Base.{
  ◌≡◌, sym, ap, ◌∙◌, List, Option, none, some, Result, ok, ◌>>=◌, >>=-eq-ok,
}
use arkiv_storage_service.Bytes.{Bytes}
use arkiv_storage_service.Platform.{Platform}
use arkiv_storage_service.Store.Cache.{Codec, CacheStore}
use arkiv_storage_service.Store.Flush.{flush_entities, flush_bitmaps}
use arkiv_storage_service.Store.Flush.Frame.{flush_entities-Keeps, flush_bitmaps-Keeps}
use arkiv_storage_service.Store.Ops.Frame.{SameBlock, same_trans}
use arkiv_storage_service.Store.Commit.{commit, commit_staging, committed, stage_block, stage_nodes}

module _ (P : Platform) (C : Codec) where
  open P use {kv.{Db}}

  -- the last lines
  abbrev finish : CacheStore P C → Option (Bytes × List (Bytes × Bytes)) → Result (Bytes × Db)
  finish c written = committed P C written >>= λ (new_root, nodes). ok (
    new_root,
    commit_staging P C (stage_block P C c (stage_nodes P C c.staging_db nodes) new_root),
  )

  abbrev last_lines : CacheStore P C → Result (Bytes × Db)
  last_lines c = finish c (P.state_db.commit c.state c.block_number)

  finished :
      (c : CacheStore P C) (written : Option (Bytes × List (Bytes × Bytes))) (root : Bytes)
      (db : Db)
      → finish c written ≡ ok (root, db)
      → (nodes : List (Bytes × Bytes)) × (written ≡ some (root, nodes))
        × (commit_staging P C (stage_block P C c (stage_nodes P C c.staging_db nodes) root) ≡ db)
  finished c none root db run = cc
  finished c (some (new_root, nodes)) root db run =
      let root_is : new_root ≡ root = cc in
      let db_is : commit_staging P C
            (stage_block P C c (stage_nodes P C c.staging_db nodes) new_root)
          ≡ db =
        cc in
      (
        nodes,
        ap (λ r. some (r, nodes)) root_is,
        ap (λ r. commit_staging P C (stage_block P C c (stage_nodes P C c.staging_db nodes) r))
              (sym root_is)
            ∙ db_is,
      )

  -- The state that was committed, and the batch that was written.
  pub commit_steps :
      (c : CacheStore P C) (root : Bytes) (db : Db)
      → commit P C c ≡ ok (root, db)
      → (c₂ : CacheStore P C) × (nodes : List (Bytes × Bytes)) × SameBlock P C c c₂
        × (P.state_db.commit c₂.state c₂.block_number ≡ some (root, nodes))
        × (commit_staging P C (stage_block P C c₂ (stage_nodes P C c₂.staging_db nodes) root) ≡ db)
  unfolding commit
  commit_steps c root db run =
      let (c₁, f₁, run₁) =
        >>=-eq-ok (flush_entities P C c) (λ c₁. flush_bitmaps P C c₁ >>= last_lines) run in
      let (c₂, f₂, run₂) = >>=-eq-ok (flush_bitmaps P C c₁) last_lines run₁ in
      let same =
        same_trans P C c c₁ c₂ (flush_entities-Keeps P C c c₁ f₁)
          (flush_bitmaps-Keeps P C c₁ c₂ f₂) in
      let (nodes, w, is) = finished c₂ (P.state_db.commit c₂.state c₂.block_number) root db run₂ in
      (c₂, nodes, same, w, is)
