-- ===== src/Store/Commit.antt =====
-- A block's write buffer from its start to its commit (store/staging.go).
pub mod Atomic
pub mod Steps
use arkiv_storage_service.Base.{
  ℕ, List, [], ◌∷◌, Option, none, some, Result, ok, fail, error, ◌>>=◌,
}
use arkiv_storage_service.Bytes.{Bytes}
use arkiv_storage_service.Platform.{Platform}
use arkiv_storage_service.Store.Keys.{encode_head, head_key, root_key, parent_key, block_number_key}
use arkiv_storage_service.Store.Cache.{
  Codec, CacheStore, StagingDb, staging_get, staging_put, zero_hash,
}
use arkiv_storage_service.Store.Flush.{flush_entities, flush_bitmaps}

module _ (P : Platform) (C : Codec) where
  open P use {kv.{Db}, state_db.{State}}

  abbrev pub new_staging_db : Db → StagingDb P C
  new_staging_db real = record { database = real; staging = P.kv.new }

  abbrev pub opened_or : Option State → Result State
  opened_or none = fail (error "open state")
  opened_or (some s) = ok s

  unfoldable pub new_cache_store : Db → Bytes → ℕ → Result (CacheStore P C)
  unfolding staging_get
  new_cache_store real parent_root block_number = do
    state ← opened_or (P.state_db.state_new (staging_get P C (new_staging_db real)) parent_root)
    ok (record {
      staging_db = new_staging_db real;
      state = state;
      block_number = block_number;
      block_hash = zero_hash;
      parent_hash = zero_hash;
      dirty_entities = [];
      dirty_bitmaps = [];
    })

  -- puts in a batch, in order
  unfoldable pub put_all : Db → List (Bytes × Bytes) → Db
  put_all db [] = db
  put_all db ((k, v) ∷ es) = put_all (P.kv.put db k v) es

  -- `StagingDB.commit`
  unfoldable pub commit_staging : StagingDb P C → Db
  unfolding put_all
  commit_staging s = put_all s.database (P.kv.entries s.staging [] [])

  -- the batch of `trieDB.Commit` lands in the staging store
  unfoldable pub stage_nodes : StagingDb P C → List (Bytes × Bytes) → StagingDb P C
  unfolding put_all
  stage_nodes s nodes = record s { staging = put_all s.staging nodes }

  abbrev pub committed :
      Option (Bytes × List (Bytes × Bytes)) → Result (Bytes × List (Bytes × Bytes))
  committed none = fail (error "commit state")
  committed (some written) = ok written

  -- the block index and the head, in this order
  unfoldable pub stage_block : CacheStore P C → StagingDb P C → Bytes → StagingDb P C
  unfolding staging_put encode_head
  stage_block c s new_root =
      let s₁ = staging_put P C s (root_key c.block_hash) new_root in
      let s₂ = staging_put P C s₁ (parent_key c.block_hash) c.parent_hash in
      let s₃ = staging_put P C s₂ (block_number_key c.block_number) c.block_hash in
      staging_put P C s₃ head_key (encode_head c.block_number c.block_hash new_root)

  -- `Commit`: the new root, and the database after the flush
  unfoldable pub commit : CacheStore P C → Result (Bytes × Db)
  unfolding flush_entities flush_bitmaps stage_nodes stage_block commit_staging
  commit c = do
    c₁ ← flush_entities P C c
    c₂ ← flush_bitmaps P C c₁
    (new_root, nodes) ← committed (P.state_db.commit c₂.state c₂.block_number)
    ok (new_root, commit_staging (stage_block c₂ (stage_nodes c₂.staging_db nodes) new_root))
