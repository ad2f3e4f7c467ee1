-- ===== src/Store/Chain/Recorded.antt =====
-- What a block that was processed leaves on record, and what a revert can read of it.
use mathlib.Core.Bool.{false≢true}
use arkiv_storage_service.Base.{
  ℕ, ◌+◌, ◌≡◌, ◌≢◌, refl, sym, ap, ◌∙◌, true, false, List, [], ◌∷◌, ◌++◌, drop, take, length,
  length-drop, leb, ◌==◌, if◌then◌else◌, Option, none, some, Result, ok, fail, ◌>>=◌, >>=-eq-ok,
  Bool-cases, inl, inr, arith, subst,
}
use arkiv_storage_service.Bytes.{Bytes, codes, beq, has_prefix}
use arkiv_storage_service.Bytes.Order.{beq_iff, beq_refl}
use arkiv_storage_service.Bytes.BigEndian.{uint64, value_from}
use arkiv_storage_service.Platform.{Platform, Occurs}
use arkiv_storage_service.Types.{ArkivBlock}
use arkiv_storage_service.Store.Keys.{
  prefix_id, decode_uint64, root_key, parent_key, block_number_key, head_key, encode_head,
}
use arkiv_storage_service.Store.Cache.{Codec, CacheStore, StagingDb, staging_get, staging_put}
use arkiv_storage_service.Store.Cache.Staging.{staging_get-staging_put}
use arkiv_storage_service.Store.Block.{apply_transactions}
use arkiv_storage_service.Store.Commit.{commit, stage_block, stage_nodes, new_staging_db}
use arkiv_storage_service.Store.Commit.Atomic.{commit_staging-staging_get, put_all-absent}
use arkiv_storage_service.Store.Commit.Steps.{commit_steps}
use arkiv_storage_service.Store.Ops.Frame.{SameBlock, same_trans, apply_transactions-Keeps}
use arkiv_storage_service.Store.Reading.{Store}
use arkiv_storage_service.Store.Revert.{
  Write, id_round, id_writes, repopulate, repopulate_annot, repopulate_ids,
}
use arkiv_storage_service.Store.Chain.{block_buffer, apply_block, after_block, process_block}
use arkiv_storage_service.Store.Chain.Buffer.{block_buffer-Fields}

root_key-prefix : (h : Bytes) → has_prefix (codes "arkiv_") (root_key h) ≡ true
unfolding has_prefix root_key
root_key-prefix h = refl

beq-false : (a b : Bytes) → a ≢ b → beq a b ≡ false
beq-false a b n = elim (Bool-cases (beq a b)) [ inl e ↦ absurd (n ((beq_iff a b).0 e)) | inr e ↦ e ]

module _ (P : Platform) (C : Codec) where
  open P use {kv.{Db}, state_db.{State}}

  -- The nodes of the trie leave the records of the roots alone.
  stage_nodes-root :
      (c : CacheStore P C) (s : StagingDb P C) (root : Bytes) (nodes : List (Bytes × Bytes))
      (h : Bytes)
      → P.state_db.commit c.state c.block_number ≡ some (root, nodes)
      → staging_get P C (stage_nodes P C s nodes) (root_key h) ≡ staging_get P C s (root_key h)
  unfolding stage_nodes staging_get
  stage_nodes-root c s root nodes h w =
      let none_there : (v : Bytes) → Occurs (root_key h) v nodes → ⊥ = λ v o. false≢true (
        sym (P.state_db.node_keys c.state c.block_number root nodes (root_key h) v w o)
        ∙ root_key-prefix h) in
      ap
        (λ (o : Option Bytes). elim o [ some v ↦ some v | none ↦ P.kv.get s.database (root_key h) ])
        (put_all-absent P C s.staging nodes (root_key h) none_there)

  staged_there :
      (s : StagingDb P C) (k v : Bytes) → staging_get P C (staging_put P C s k v) k ≡ some v
  staged_there s k v = staging_get-staging_put P C s k v k ∙ rw (beq_refl k) refl

  stage_block-parent :
      (c : CacheStore P C) (s : StagingDb P C) (root : Bytes)
      → staging_get P C (stage_block P C c s root) (parent_key c.block_hash) ≡ some c.parent_hash
  unfolding stage_block beq parent_key block_number_key
  stage_block-parent c s root =
      let s₁ = staging_put P C s (root_key c.block_hash) root in
      let s₂ = staging_put P C s₁ (parent_key c.block_hash) c.parent_hash in
      let s₃ = staging_put P C s₂ (block_number_key c.block_number) c.block_hash in
      staging_get-staging_put P C s₃ head_key (encode_head c.block_number c.block_hash root)
        (parent_key c.block_hash)
      ∙ (staging_get-staging_put P C s₂ (block_number_key c.block_number) c.block_hash
            (parent_key c.block_hash)
          ∙ staged_there s₁ (parent_key c.block_hash) c.parent_hash)

  stage_block-root :
      (c : CacheStore P C) (s : StagingDb P C) (root h : Bytes)
      → c.block_hash ≢ h
      → staging_get P C (stage_block P C c s root) (root_key h) ≡ staging_get P C s (root_key h)
  unfolding stage_block beq root_key parent_key block_number_key
  stage_block-root c s root h n =
      let s₁ = staging_put P C s (root_key c.block_hash) root in
      let s₂ = staging_put P C s₁ (parent_key c.block_hash) c.parent_hash in
      let s₃ = staging_put P C s₂ (block_number_key c.block_number) c.block_hash in
      staging_get-staging_put P C s₃ head_key (encode_head c.block_number c.block_hash root)
        (root_key h)
      ∙ (staging_get-staging_put P C s₂ (block_number_key c.block_number) c.block_hash (root_key h)
          ∙ (staging_get-staging_put P C s₁ (parent_key c.block_hash) c.parent_hash (root_key h)
              ∙ (staging_get-staging_put P C s (root_key c.block_hash) root (root_key h)
                  ∙ ap (λ b. if b then some root else staging_get P C s (root_key h))
                      (beq-false c.block_hash h n))))

  -- Every id that is scanned can be read.
  uint64_long : (b : Bytes) → leb 8 (length b) ≡ true → (n : ℕ) × (uint64 b ≡ ok n)
  unfolding uint64
  uint64_long b h = (value_from 0 (take 8 b), rw h refl)

  id_round-total : (sdb : State) (k v : Bytes) → (ws : List Write) × (id_round P C sdb k v ≡ ok ws)
  unfolding id_round decode_uint64
  id_round-total sdb k v = elim (Bool-cases (length k == length prefix_id + 8)) [
    | inl e ↦
        let (id, r) =
          uint64_long (drop (length prefix_id) k)
            (ground (arith, e, length-drop (length prefix_id) k)) in
        rw e (rw r (_, refl))
    | inr e ↦ rw e ([], refl)
  ]

  id_writes-total :
      (sdb : State) (es : List (Bytes × Bytes)) → (ws : List Write) × (id_writes P C sdb es ≡ ok ws)
  unfolding id_writes
  id_writes-total sdb [] = ([], refl)
  id_writes-total sdb ((k, v) ∷ es) =
      let (here, e) = id_round-total sdb k v in
      let (later, e') = id_writes-total sdb es in (here ++ later, rw e (rw e' refl))

  pub repopulate-total :
      (raw : Db) (sdb : State) → (ws : List Write) × (repopulate P C raw sdb ≡ ok ws)
  unfolding repopulate repopulate_ids
  repopulate-total raw sdb =
      let (ids, e) = id_writes-total sdb (P.kv.entries raw prefix_id []) in
      (repopulate_annot P C raw sdb ++ ids, rw e refl)

  -- What the database has after a block: its parent, and the roots of the other blocks.
  module _ (s : Store P C) (block : ArkivBlock) where
    abbrev pub Recorded : Db → Type 0
    Recorded db =
        (P.kv.get db (parent_key block.header.hash) ≡ some block.header.parent_hash)
        × ((h : Bytes)
            → block.header.hash ≢ h
            → P.kv.get db (root_key h) ≡ P.kv.get s.raw_db (root_key h))

    untouched :
        (st : StagingDb P C) (k : Bytes)
        → st ≡ new_staging_db P C s.raw_db
        → staging_get P C st k ≡ P.kv.get s.raw_db k
    unfolding staging_get
    untouched st k e = ap (λ t. staging_get P C t k) e ∙ rw (P.kv.get-new k, staging_get) refl

    commit-Recorded :
        (cs c : CacheStore P C) (root : Bytes) (db : Db)
        → block_buffer P C s block ≡ ok cs
        → SameBlock P C cs c
        → commit P C c ≡ ok (root, db)
        → Recorded db
    commit-Recorded cs c root db b same run =
        let (st, _, hash, parent) = block_buffer-Fields P C s block cs b in
        let (c₂, nodes, same', w, is) = commit_steps P C c root db run in
        let all = same_trans P C cs c c₂ same same' in
        let nodes_in = stage_nodes P C c₂.staging_db nodes in
        let shown : (k : Bytes)
            → P.kv.get db k ≡ staging_get P C (stage_block P C c₂ nodes_in root) k =
          λ k.
            ap (λ d. P.kv.get d k) (sym is)
            ∙ commit_staging-staging_get P C (stage_block P C c₂ nodes_in root) k in
        let is_hash : c₂.block_hash ≡ block.header.hash = all.hash ∙ hash in
        (
          ap (λ h. P.kv.get db (parent_key h)) (sym is_hash)
              ∙ (shown (parent_key c₂.block_hash)
                  ∙ (stage_block-parent c₂ nodes_in root ∙ ap some (all.parent ∙ parent))),
          λ h n.
              shown (root_key h)
              ∙ (stage_block-root c₂ nodes_in root h (λ e. n (sym is_hash ∙ e))
                  ∙ (stage_nodes-root c₂ c₂.staging_db root nodes h w
                      ∙ (all.roots h ∙ untouched cs.staging_db (root_key h) st))),
        )

    apply_block-Recorded :
        (root : Bytes) (db : Db) → apply_block P C s block ≡ ok (root, db) → Recorded db
    unfolding apply_block
    apply_block-Recorded root db run =
        let (cs, b, run₁) =
          >>=-eq-ok (block_buffer P C s block)
            (λ cs. apply_transactions P C cs block.transactions >>= commit P C) run in
        let (c, a, run₂) =
          >>=-eq-ok (apply_transactions P C cs block.transactions) (commit P C) run₁ in
        commit-Recorded cs c root db b (apply_transactions-Keeps P C cs block.transactions c a) run₂

    pub process_block-Recorded :
        (s₁ : Store P C) (root : Bytes)
        → process_block P C s block ≡ (s₁, ok root)
        → Recorded s₁.raw_db
    unfolding process_block
    process_block-Recorded s₁ root run = go (apply_block P C s block) refl run
      where
        go :
            (r : Result (Bytes × Db))
            → apply_block P C s block ≡ r
            → after_block P C s block r ≡ (s₁, ok root)
            → Recorded s₁.raw_db
        go (fail why) e h = let no : fail why ≡ ok root = ap (λ x. x.1) h in cc
        go (ok (root', db)) e h =
            subst Recorded (ap (λ x. x.0.raw_db) h) (apply_block-Recorded root' db e)
