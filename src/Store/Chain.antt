-- ===== src/Store/Chain.antt =====
-- The exported operations of the store (store/store.go). Each returns the store after it with the
-- state root or an error: `s.head…` is assigned at the end of a success only, and the database is
-- written by one batch.
pub mod Buffer
pub mod Restart
pub mod Recorded
pub mod Undo
use arkiv_storage_service.Base.{ℕ, List, [], ◌∷◌, Result, ok, fail, ◌>>=◌}
use arkiv_storage_service.Bytes.{Bytes}
use arkiv_storage_service.Platform.{Platform}
use arkiv_storage_service.Types.{ArkivBlock, ArkivBlockRef}
use arkiv_storage_service.Store.Cache.{Codec, CacheStore, init_system_account}
use arkiv_storage_service.Store.Block.{apply_transactions}
use arkiv_storage_service.Store.Commit.{new_cache_store, commit}
use arkiv_storage_service.Store.Reading.{Store}
use arkiv_storage_service.Store.Revert.{revert_block, revert_to_ancestor}

module _ (P : Platform) (C : Codec) where
  open P use {kv.{Db}}

  -- the buffer of a block before its first operation
  unfoldable pub block_buffer : Store P C → ArkivBlock → Result (CacheStore P C)
  unfolding new_cache_store init_system_account
  block_buffer s block = do
    cs ← new_cache_store P C s.raw_db s.head_root block.header.number
    ok (record cs {
      block_hash = block.header.hash;
      parent_hash = block.header.parent_hash;
      state = init_system_account P C cs.state;
    })

  unfoldable pub apply_block : Store P C → ArkivBlock → Result (Bytes × Db)
  unfolding block_buffer apply_transactions commit
  apply_block s block = do
    cs ← block_buffer s block
    cs' ← apply_transactions P C cs block.transactions
    commit P C cs'

  abbrev pub after_block : Store P C → ArkivBlock → Result (Bytes × Db) → Store P C × Result Bytes
  after_block s block (fail why) = (s, fail why)
  after_block s block (ok (new_root, db)) = (
    record {
      raw_db = db;
      head_root = new_root;
      head_hash = block.header.hash;
      head_number = block.header.number;
    },
    ok new_root,
  )

  -- `ProcessBlock` and `processBlock`
  unfoldable pub process_block : Store P C → ArkivBlock → Store P C × Result Bytes
  unfolding apply_block
  process_block s block = after_block s block (apply_block s block)

  abbrev pub after_revert : Store P C → Result (Store P C) → Store P C × Result Bytes
  after_revert s (fail why) = (s, fail why)
  after_revert s (ok s') = (s', ok s'.head_root)

  -- `RevertBlock`
  unfoldable pub revert_one : Store P C → ArkivBlockRef → Store P C × Result Bytes
  unfolding revert_block
  revert_one s ref = after_revert s (revert_block P C s ref)

  -- `RevertBlocks`
  unfoldable pub revert_blocks : Store P C → List ArkivBlockRef → Store P C × Result Bytes
  unfolding revert_to_ancestor
  revert_blocks s [] = (s, ok s.head_root)
  revert_blocks s (r ∷ refs) = after_revert s (revert_to_ancestor P C s (r ∷ refs))

  -- an error ends the operation
  abbrev pub unless_failed :
      (Store P C → Store P C × Result Bytes) → Store P C × Result Bytes → Store P C × Result Bytes
  unless_failed next (s, fail why) = (s, fail why)
  unless_failed next (s, ok root) = next s

  -- the loop over the new blocks of `Reorg`
  unfoldable pub process_blocks : Store P C → List ArkivBlock → Store P C × Result Bytes
  unfolding process_block
  process_blocks s [] = (s, ok s.head_root)
  process_blocks s (block ∷ blocks) =
      unless_failed (λ s'. process_blocks s' blocks) (process_block s block)

  -- `Reorg`
  unfoldable pub reorg : Store P C → List ArkivBlockRef → List ArkivBlock → Store P C × Result Bytes
  unfolding revert_blocks process_blocks
  reorg s reverted new_blocks =
      unless_failed (λ s'. process_blocks s' new_blocks) (revert_blocks s reverted)
