-- ===== src/Store/Chain/Restart.antt =====
-- A store that is opened again on its database has the head that it had.
use arkiv_storage_service.Base.{
  ℕ, ◌<◌, ◌^◌, ◌≡◌, refl, sym, ap, ap₂, ◌∙◌, true, List, [], ◌∷◌, ◌++◌, append_assoc, length,
  length-append, ◌==◌, Option, none, some, Result, ok, fail, ◌>>=◌, >>=-eq-ok, arith, subst,
}
use arkiv_storage_service.Bytes.{Bytes}
use arkiv_storage_service.Bytes.Order.{beq_refl}
use arkiv_storage_service.Bytes.BigEndian.{put_uint64}
use arkiv_storage_service.Bytes.BigEndian.Laws.{length-put_uint64}
use arkiv_storage_service.Platform.{Platform}
use arkiv_storage_service.Types.{ArkivBlock, ArkivBlockRef}
use arkiv_storage_service.Store.Keys.{encode_head, head_key, root_key}
use arkiv_storage_service.Store.Keys.Laws.{decode_head-encode_head}
use arkiv_storage_service.Store.Cache.{Codec, CacheStore, StagingDb, staging_get}
use arkiv_storage_service.Store.Cache.Staging.{staging_get-staging_put}
use arkiv_storage_service.Store.Block.{apply_transactions}
use arkiv_storage_service.Store.Commit.Steps.{commit_steps}
use arkiv_storage_service.Store.Ops.Frame.{apply_transactions-Keeps}
use arkiv_storage_service.Store.Commit.{commit, stage_block, stage_nodes}
use arkiv_storage_service.Store.Commit.Atomic.{commit_staging-staging_get}
use arkiv_storage_service.Store.Reading.{Store, new_store}
use arkiv_storage_service.Store.Revert.{
  last_ref, write_batch, forget_blocks, root_or_empty, revert_past, revert_to_ancestor,
}
use arkiv_storage_service.Store.Revert.Steps.{
  revert_past_steps, reverted, head_write, write_batch-last,
}
use arkiv_storage_service.Store.Chain.Buffer.{block_buffer-Fields}
use arkiv_storage_service.Store.Chain.{
  block_buffer, apply_block, after_block, process_block, after_revert, revert_blocks,
  process_blocks, reorg, unless_failed,
}

module _ (P : Platform) (C : Codec) where
  open P use {kv.{Db}}

  -- `New` on the database of the store returns the store.
  abbrev pub IsDurable : Store P C → Type 0
  IsDurable s = new_store P C s.raw_db ≡ ok s

  length-encode_head :
      (number : ℕ) (hash root : Bytes)
      → length hash ≡ 32
      → length root ≡ 32
      → length (encode_head number hash root) ≡ 72
  unfolding encode_head
  length-encode_head number hash root h r = omega (
    arith,
    length-append (put_uint64 number) (hash ++ root),
    length-append hash root,
    length-put_uint64 number,
    h,
    r,
  )

  -- A database with the head record of a store is durable.
  head-IsDurable :
      (s : Store P C)
      → s.head_number < 2 ^ 64
      → length s.head_hash ≡ 32
      → length s.head_root ≡ 32
      → P.kv.get s.raw_db head_key ≡ some (encode_head s.head_number s.head_hash s.head_root)
      → IsDurable s
  unfolding new_store
  head-IsDurable s n h r got =
      let long : (length (encode_head s.head_number s.head_hash s.head_root) == 72) ≡ true =
        ground (arith, length-encode_head s.head_number s.head_hash s.head_root h r) in
      rw got
        (rw long (rw (decode_head-encode_head s.head_number s.head_hash s.head_root n h r) refl))

  -- The head record of a commit is staged last.
  stage_block-head :
      (c : CacheStore P C) (s : StagingDb P C) (root : Bytes)
      → staging_get P C (stage_block P C c s root) head_key
        ≡ some (encode_head c.block_number c.block_hash root)
  unfolding stage_block
  stage_block-head c s root =
      staging_get-staging_put P C _ head_key (encode_head c.block_number c.block_hash root) head_key
      ∙ rw (beq_refl head_key) refl

  commit-head :
      (c : CacheStore P C) (root : Bytes) (db : Db)
      → commit P C c ≡ ok (root, db)
      → (length root ≡ 32)
        × (P.kv.get db head_key ≡ some (encode_head c.block_number c.block_hash root))
  commit-head c root db run =
      let (c₂, nodes, same, w, is) = commit_steps P C c root db run in
      (
        P.state_db.length-commit c₂.state c₂.block_number root nodes w,
        ap (λ d. P.kv.get d head_key) (sym is)
            ∙ (commit_staging-staging_get P C
                  (stage_block P C c₂ (stage_nodes P C c₂.staging_db nodes) root) head_key
                ∙ (stage_block-head c₂ (stage_nodes P C c₂.staging_db nodes) root
                    ∙ ap₂ (λ n h. some (encode_head n h root)) same.number same.hash)),
      )

  -- A block that is processed leaves a durable store, when its number has 64 bits and its hash 32
  -- bytes; a block that fails leaves the store as it was.
  pub process_block-IsDurable :
      (s : Store P C) (block : ArkivBlock)
      → IsDurable s
      → block.header.number < 2 ^ 64
      → length block.header.hash ≡ 32
      → IsDurable (process_block P C s block).0
  unfolding process_block apply_block
  process_block-IsDurable s block d n h = go (apply_block P C s block) refl
    where
      go :
          (r : Result (Bytes × Db))
          → apply_block P C s block ≡ r
          → IsDurable (after_block P C s block r).0
      go (fail why) e = d
      go (ok (root, db)) e =
          let (cs, b, e₁) =
            >>=-eq-ok (block_buffer P C s block)
              (λ cs. apply_transactions P C cs block.transactions >>= commit P C) e in
          let (cs', a, e₂) =
            >>=-eq-ok (apply_transactions P C cs block.transactions) (commit P C) e₁ in
          let same = apply_transactions-Keeps P C cs block.transactions cs' a in
          let (_, number, hash, _) = block_buffer-Fields P C s block cs b in
          let (r, got) = commit-head cs' root db e₂ in
          head-IsDurable
            (record {
              raw_db = db;
              head_root = root;
              head_hash = block.header.hash;
              head_number = block.header.number;
            })
            n h r
            (got
              ∙ ap₂ (λ n' h'. some (encode_head n' h' root)) (same.number ∙ number)
                  (same.hash ∙ hash))

  length-root_or_empty : (b : Option Bytes) → length (root_or_empty P C b) ≡ 32
  length-root_or_empty none = P.state_db.length-empty_root
  length-root_or_empty (some b) = P.text.length-bytes_to_hash b

  revert_past-IsDurable :
      (s s' : Store P C) (oldest : ArkivBlockRef) (refs : List ArkivBlockRef)
      → oldest.number < 2 ^ 64
      → revert_past P C s oldest refs ≡ ok s'
      → IsDurable s'
  revert_past-IsDurable s s' oldest refs n run =
      let (parent, sdb, ws, _, _, _, is) = revert_past_steps P C s oldest refs s' run in
      let end = reverted P C s oldest refs parent ws in
      subst IsDurable is (
        head-IsDurable end (omega (arith, n)) (P.text.length-bytes_to_hash parent)
          (length-root_or_empty (P.kv.get s.raw_db (root_key (P.text.bytes_to_hash parent))))
          (ap (λ b. P.kv.get (write_batch P C s.raw_db b) head_key)
              (sym (
                append_assoc ws (forget_blocks P C refs)
                  (head_write P C s oldest refs parent ∷ [])))
            ∙ write_batch-last P C s.raw_db (ws ++ forget_blocks P C refs) head_key
                (encode_head end.head_number end.head_hash end.head_root)))

  -- every number has 64 bits
  abbrev pub FitRefs : List ArkivBlockRef → Type 0
  FitRefs [] = Unit
  FitRefs (r ∷ refs) = (r.number < 2 ^ 64) × FitRefs refs

  last_ref-fits :
      (r : ArkivBlockRef) (refs : List ArkivBlockRef)
      → FitRefs (r ∷ refs)
      → (last_ref r refs).number < 2 ^ 64
  last_ref-fits r [] h = h.0
  last_ref-fits r (t ∷ refs) h = last_ref-fits t refs h.1

  pub revert_blocks-IsDurable :
      (s : Store P C) (refs : List ArkivBlockRef)
      → IsDurable s
      → FitRefs refs
      → IsDurable (revert_blocks P C s refs).0
  unfolding revert_blocks revert_to_ancestor
  revert_blocks-IsDurable s [] d f = d
  revert_blocks-IsDurable s (r ∷ refs) d f =
      go (revert_past P C s (last_ref r refs) (r ∷ refs)) refl
    where
      go :
          (result : Result (Store P C))
          → revert_past P C s (last_ref r refs) (r ∷ refs) ≡ result
          → IsDurable (after_revert P C s result).0
      go (fail why) e = d
      go (ok s') e =
          revert_past-IsDurable s s' (last_ref r refs) (r ∷ refs) (last_ref-fits r refs f) e

  -- every number has 64 bits, and every hash 32 bytes
  abbrev pub FitBlocks : List ArkivBlock → Type 0
  FitBlocks [] = Unit
  FitBlocks (b ∷ blocks) =
      (b.header.number < 2 ^ 64) × (length b.header.hash ≡ 32) × FitBlocks blocks

  unless_failed-IsDurable :
      (next : Store P C → Store P C × Result Bytes) (step : Store P C × Result Bytes)
      → IsDurable step.0
      → ((s : Store P C) → IsDurable s → IsDurable (next s).0)
      → IsDurable (unless_failed P C next step).0
  unless_failed-IsDurable next (s, fail why) d k = d
  unless_failed-IsDurable next (s, ok root) d k = k s d

  process_blocks-IsDurable :
      (s : Store P C) (blocks : List ArkivBlock)
      → IsDurable s
      → FitBlocks blocks
      → IsDurable (process_blocks P C s blocks).0
  unfolding process_blocks
  process_blocks-IsDurable s [] d f = d
  process_blocks-IsDurable s (b ∷ blocks) d (n, h, f) =
      unless_failed-IsDurable (λ s'. process_blocks P C s' blocks) (process_block P C s b)
        (process_block-IsDurable s b d n h) (λ s' d'. process_blocks-IsDurable s' blocks d' f)

  -- After a reorganisation, finished or broken off by an error, opening the database again gives
  -- the store as it is, when it did before, block numbers have 64 bits and hashes 32 bytes.
  pub reorg-IsDurable :
      (s : Store P C) (reverted_blocks : List ArkivBlockRef) (new_blocks : List ArkivBlock)
      → IsDurable s
      → FitRefs reverted_blocks
      → FitBlocks new_blocks
      → IsDurable (reorg P C s reverted_blocks new_blocks).0
  unfolding reorg
  reorg-IsDurable s refs blocks d f g =
      unless_failed-IsDurable (λ s'. process_blocks P C s' blocks) (revert_blocks P C s refs)
        (revert_blocks-IsDurable s refs d f) (λ s' d'. process_blocks-IsDurable s' blocks d' g)
