-- ===== src/Store/Revert.antt =====
-- Reverting blocks (store/revert.go, and revertBlock and revertToAncestor of store/store.go). A
-- batch is a list of writes, and the iterators read the database as it was before the batch.
pub mod Steps
pub mod Untouched
pub mod Pointers
use arkiv_storage_service.Base.{
  ℕ, ◌+◌, ◌-◌, Bool, true, false, List, [], ◌∷◌, ◌++◌, drop, length, ltb, ◌==◌, if◌then◌else◌,
  Option, none, some, Result, ok, fail, error, panic, ◌>>=◌,
}
use arkiv_storage_service.Bytes.{Bytes, beq}
use arkiv_storage_service.Platform.{Platform}
use arkiv_storage_service.Types.{ArkivBlockRef}
use arkiv_storage_service.Store.Keys.{
  prefix_pairs, prefix_id, split_pair, annot_key, addr_key, decode_uint64, encode_head, head_key,
  root_key, parent_key, block_number_key,
}
use arkiv_storage_service.Store.Cache.{Codec, zero_hash, system_address, id_slot_key}
use arkiv_storage_service.Store.Flush.{annot_slot_key}
use arkiv_storage_service.Store.Reading.{Store, found, opened}

-- `ethdb.Batch`
pub data Write : Type 0 where
  put : Bytes → Bytes → Write
  delete : Bytes → Write

-- `(x ∷ xs)[len-1]`
abbrev pub last_ref : ArkivBlockRef → List ArkivBlockRef → ArkivBlockRef
last_ref r [] = r
last_ref r (s ∷ refs) = last_ref s refs

module _ (P : Platform) (C : Codec) where
  open P use {kv.{Db}, state_db.{State}}

  abbrev pub write : Db → Write → Db
  write db (put k v) = P.kv.put db k v
  write db (delete k) = P.kv.delete db k

  -- `batch.Write()`
  unfoldable pub write_batch : Db → List Write → Db
  write_batch db [] = db
  write_batch db (w ∷ ws) = write_batch (write db w) ws

  -- the pointer of a pair, from its slot
  unfoldable pub annot_write : State → Bytes → Bytes → Write
  unfolding annot_slot_key
  annot_write sdb key val =
      let hash = P.state_db.get_state sdb (system_address P C) (annot_slot_key P C key val) in
      if beq hash zero_hash then delete (annot_key key val) else put (annot_key key val) hash

  -- one round of the loop over the pairs
  unfoldable pub pair_writes : State → Bytes → List Write
  unfolding annot_write split_pair
  pair_writes sdb k = elim (split_pair (drop (length prefix_pairs) k)) [
    | none ↦ []
    | some (key, val) ↦ annot_write sdb key val ∷ []
  ]

  unfoldable pub annot_writes : State → List (Bytes × Bytes) → List Write
  unfolding pair_writes
  annot_writes sdb [] = []
  annot_writes sdb ((k, v) ∷ entries) = pair_writes sdb k ++ annot_writes sdb entries

  unfoldable pub repopulate_annot : Db → State → List Write
  unfolding annot_writes
  repopulate_annot raw sdb = annot_writes sdb (P.kv.entries raw prefix_pairs [])

  -- the mapping of an id whose slot is zero, with that of its address
  abbrev pub forget_id : Bytes → Bytes → List Write
  forget_id k v = if length v == 20 then delete (addr_key v) ∷ delete k ∷ [] else delete k ∷ []

  -- one round of the loop over the ids
  unfoldable pub id_round : State → Bytes → Bytes → Result (List Write)
  unfolding id_slot_key decode_uint64
  id_round sdb k v =
      if length k == length prefix_id + 8
      then (do
        id ← decode_uint64 (drop (length prefix_id) k)
        ok (
            if beq (P.state_db.get_state sdb (system_address P C) (id_slot_key P C id)) zero_hash
            then forget_id k v
            else []))
      else ok []

  unfoldable pub id_writes : State → List (Bytes × Bytes) → Result (List Write)
  unfolding id_round
  id_writes sdb [] = ok []
  id_writes sdb ((k, v) ∷ entries) = do
    here ← id_round sdb k v
    later ← id_writes sdb entries
    ok (here ++ later)

  unfoldable pub repopulate_ids : Db → State → Result (List Write)
  unfolding id_writes
  repopulate_ids raw sdb = id_writes sdb (P.kv.entries raw prefix_id [])

  unfoldable pub repopulate : Db → State → Result (List Write)
  unfolding repopulate_annot repopulate_ids
  repopulate raw sdb = do ids ← repopulate_ids raw sdb; ok (repopulate_annot raw sdb ++ ids)

  -- the block index of a reverted block
  unfoldable pub forget_block : ArkivBlockRef → List Write
  forget_block r =
      delete (root_key r.hash)
      ∷ delete (parent_key r.hash)
      ∷ delete (block_number_key r.number)
      ∷ []

  unfoldable pub forget_blocks : List ArkivBlockRef → List Write
  unfolding forget_block
  forget_blocks [] = []
  forget_blocks (r ∷ refs) = forget_block r ++ forget_blocks refs

  abbrev pub root_or_empty : Option Bytes → Bytes
  root_or_empty none = P.state_db.empty_root
  root_or_empty (some b) = P.text.bytes_to_hash b

  -- The lines that `revertBlock` and `revertToAncestor` share: back to the parent of `oldest`,
  -- without the blocks of `refs`.
  unfoldable pub revert_past : Store P C → ArkivBlockRef → List ArkivBlockRef → Result (Store P C)
  unfolding repopulate forget_blocks write_batch encode_head
  revert_past s oldest refs = do
    parent ← found P C (P.kv.get s.raw_db (parent_key oldest.hash))
    let hash = P.text.bytes_to_hash parent
    let root = root_or_empty (P.kv.get s.raw_db (root_key hash))
    sdb ← opened P C (P.state_db.state_new (P.kv.get s.raw_db) root)
    writes ← repopulate s.raw_db sdb
    ok (record {
      raw_db = write_batch s.raw_db (
          writes
          ++ (forget_blocks refs ++ put head_key (encode_head (oldest.number - 1) hash root) ∷ []));
      head_root = root;
      head_hash = hash;
      head_number = oldest.number - 1;
    })

  -- `revertBlock`
  unfoldable pub revert_block : Store P C → ArkivBlockRef → Result (Store P C)
  unfolding revert_past
  revert_block s ref = revert_past s ref (ref ∷ [])

  -- `revertToAncestor`, which is called with one block at least
  unfoldable pub revert_to_ancestor : Store P C → List ArkivBlockRef → Result (Store P C)
  unfolding revert_past
  revert_to_ancestor s [] = fail (panic "index out of range")
  revert_to_ancestor s (r ∷ refs) = revert_past s (last_ref r refs) (r ∷ refs)
