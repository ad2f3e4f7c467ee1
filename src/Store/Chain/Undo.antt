-- ===== src/Store/Chain/Undo.antt =====
-- Reverting the block that was processed last.
use arkiv_storage_service.Base.{◌+◌, ◌≡◌, ◌≢◌, ap, ◌∙◌, [], ◌∷◌, length, some, ok, arith}
use arkiv_storage_service.Bytes.{Bytes}
use arkiv_storage_service.Platform.{Platform}
use arkiv_storage_service.Types.{ArkivBlock, ArkivBlockRef}
use arkiv_storage_service.Store.Keys.{root_key}
use arkiv_storage_service.Store.Cache.{Codec}
use arkiv_storage_service.Store.Reading.{Store}
use arkiv_storage_service.Store.Revert.{root_or_empty, revert_past, revert_block}
use arkiv_storage_service.Store.Revert.Steps.{reverted, revert_past_runs}
use arkiv_storage_service.Store.Chain.{process_block, after_revert, revert_one}
use arkiv_storage_service.Store.Chain.Recorded.{process_block-Recorded, repopulate-total}

module _ (P : Platform) (C : Codec) where
  open P use {kv.{Db}, state_db.{State}}

  module _ (s : Store P C) (block : ArkivBlock) where
    -- the block as it is named in a revert
    abbrev pub ref_of : ArkivBlockRef
    ref_of = record { number = block.header.number; hash = block.header.hash }

    abbrev pub IsBackAt : Store P C → Type 0
    IsBackAt t =
        (t.head_root ≡ s.head_root) × (t.head_hash ≡ s.head_hash) × (t.head_number ≡ s.head_number)

    -- A block on top of the head that was processed can be reverted if the state of the head can
    -- still be opened, and the revert brings back the root, the hash and the number of the head,
    -- when the root of the head is on record (none stands for the empty root), hashes have 32
    -- bytes, and the block has another hash than its parent.
    pub revert_one-process_block :
        (s₁ : Store P C) (root : Bytes) (sdb : State)
        → process_block P C s block ≡ (s₁, ok root)
        → block.header.parent_hash ≡ s.head_hash
        → length s.head_hash ≡ 32
        → block.header.hash ≢ s.head_hash
        → block.header.number ≡ s.head_number + 1
        → root_or_empty P C (P.kv.get s.raw_db (root_key s.head_hash)) ≡ s.head_root
        → P.state_db.state_new (P.kv.get s₁.raw_db) s.head_root ≡ some sdb
        → (s₂ : Store P C) × (revert_one P C s₁ ref_of ≡ (s₂, ok s.head_root)) × IsBackAt s₂
    unfolding revert_one revert_block revert_past
    revert_one-process_block s₁ root sdb run on_head long apart next recorded opens =
        let (parent, roots) = process_block-Recorded P C s block s₁ root run in
        let (ws, r) = repopulate-total P C s₁.raw_db sdb in
        let hash : P.text.bytes_to_hash block.header.parent_hash ≡ s.head_hash =
          ap P.text.bytes_to_hash on_head ∙ P.text.bytes_to_hash_same s.head_hash long in
        let root_is : root_or_empty P C
              (P.kv.get s₁.raw_db (root_key (P.text.bytes_to_hash block.header.parent_hash)))
            ≡ s.head_root =
          ap (λ h. root_or_empty P C (P.kv.get s₁.raw_db (root_key h))) hash
          ∙ (ap (root_or_empty P C) (roots s.head_hash apart) ∙ recorded) in
        let runs =
          revert_past_runs P C s₁ ref_of (ref_of ∷ []) block.header.parent_hash sdb ws parent
            (ap (P.state_db.state_new (P.kv.get s₁.raw_db)) root_is ∙ opens) r in
        let end = reverted P C s₁ ref_of (ref_of ∷ []) block.header.parent_hash ws in
        (
          end,
          ap (after_revert P C s₁) runs ∙ ap (λ h. (end, ok h)) root_is,
          (root_is, hash, omega (arith, next)),
        )
