-- ===== src/Store/Revert/Steps.antt =====
-- What a revert that succeeds has done.
use arkiv_storage_service.Base.{
  ◌-◌, ◌≡◌, refl, ap, ◌∙◌, List, [], ◌∷◌, ◌++◌, Option, none, some, ok, ◌>>=◌, >>=-eq-ok,
}
use arkiv_storage_service.Bytes.{Bytes}
use arkiv_storage_service.Bytes.Order.{beq_refl}
use arkiv_storage_service.Platform.{Platform}
use arkiv_storage_service.Types.{ArkivBlockRef}
use arkiv_storage_service.Store.Keys.{parent_key, root_key, head_key, encode_head}
use arkiv_storage_service.Store.Cache.{Codec}
use arkiv_storage_service.Store.Reading.{Store, found, opened}
use arkiv_storage_service.Store.Revert.{
  Write, put, write, write_batch, repopulate, forget_blocks, root_or_empty, revert_past,
}

module _ (P : Platform) (C : Codec) where
  open P use {kv.{Db}, state_db.{State}}

  pub found-some : (o : Option Bytes) (b : Bytes) → found P C o ≡ ok b → o ≡ some b
  found-some none b h = cc
  found-some (some a) b h = let is : a ≡ b = cc in ap some is

  pub opened-some : (o : Option State) (s : State) → opened P C o ≡ ok s → o ≡ some s
  opened-some none s h = cc
  opened-some (some a) s h = let is : a ≡ s = cc in ap some is

  pub write_batch-append :
      (db : Db) (xs ys : List Write)
      → write_batch P C db (xs ++ ys) ≡ write_batch P C (write_batch P C db xs) ys
  unfolding write_batch
  write_batch-append db [] ys = refl
  write_batch-append db (x ∷ xs) ys = write_batch-append (write P C db x) xs ys

  -- The last write of a batch stands.
  pub write_batch-last :
      (db : Db) (ws : List Write) (k v : Bytes)
      → P.kv.get (write_batch P C db (ws ++ put k v ∷ [])) k ≡ some v
  unfolding write_batch
  write_batch-last db ws k v =
      ap (λ d. P.kv.get d k) (write_batch-append db ws (put k v ∷ []))
      ∙ (P.kv.get-put (write_batch P C db ws) k k v ∙ rw (beq_refl k) refl)

  module _ (s : Store P C) (oldest : ArkivBlockRef) (refs : List ArkivBlockRef) where
    abbrev pub ancestor_hash : Bytes → Bytes
    ancestor_hash parent = P.text.bytes_to_hash parent

    abbrev pub ancestor_root : Bytes → Bytes
    ancestor_root parent = root_or_empty P C (P.kv.get s.raw_db (root_key (ancestor_hash parent)))

    abbrev pub head_write : Bytes → Write
    head_write parent =
        put head_key (encode_head (oldest.number - 1) (ancestor_hash parent) (ancestor_root parent))

    -- the store at the ancestor
    abbrev pub reverted : Bytes → List Write → Store P C
    reverted parent writes = record {
      raw_db =
          write_batch P C s.raw_db (writes ++ (forget_blocks P C refs ++ head_write parent ∷ []));
      head_root = ancestor_root parent;
      head_hash = ancestor_hash parent;
      head_number = oldest.number - 1;
    }

    pub revert_past_steps :
        (s' : Store P C)
        → revert_past P C s oldest refs ≡ ok s'
        → (parent : Bytes) × (sdb : State) × (writes : List Write) × (P.kv.get s.raw_db
              (parent_key oldest.hash)
            ≡ some parent)
          × (P.state_db.state_new (P.kv.get s.raw_db) (ancestor_root parent) ≡ some sdb)
          × (repopulate P C s.raw_db sdb ≡ ok writes)
          × (reverted parent writes ≡ s')
    unfolding revert_past
    revert_past_steps s' run =
        let (parent, f, run₁) =
          >>=-eq-ok (found P C (P.kv.get s.raw_db (parent_key oldest.hash))) _ run in
        let (sdb, o, run₂) =
          >>=-eq-ok (opened P C (P.state_db.state_new (P.kv.get s.raw_db) (ancestor_root parent)))
            (λ sdb. repopulate P C s.raw_db sdb >>= λ writes. ok (reverted parent writes)) run₁ in
        let (writes, r, run₃) =
          >>=-eq-ok (repopulate P C s.raw_db sdb) (λ writes. ok (reverted parent writes)) run₂ in
        let is : reverted parent writes ≡ s' = cc in
        (parent, sdb, writes, found-some _ parent f, opened-some _ sdb o, r, is)

    -- the other direction
    pub revert_past_runs :
        (parent : Bytes) (sdb : State) (writes : List Write)
        → P.kv.get s.raw_db (parent_key oldest.hash) ≡ some parent
        → P.state_db.state_new (P.kv.get s.raw_db) (ancestor_root parent) ≡ some sdb
        → repopulate P C s.raw_db sdb ≡ ok writes
        → revert_past P C s oldest refs ≡ ok (reverted parent writes)
    unfolding revert_past
    revert_past_runs parent sdb writes f o r = rw f (rw o (rw r refl))
