-- ===== src/Store/Reading.antt =====
-- The store itself (store/store.go) and its reads (store/query.go). Its trie databases are views of
-- the raw database, and the lock that each exported method takes lets one method run at a time.
use arkiv_storage_service.Base.{
  ℕ, [], ◌∷◌, length, ◌==◌, if◌then◌else◌, Option, none, some, Result, ok, fail, error, ◌>>=◌,
}
use arkiv_storage_service.Bytes.{Bytes, codes, beq}
use arkiv_storage_service.Platform.{Platform}
use arkiv_storage_service.Store.Keys.{
  Head, decode_head, head_key, bitmap_key, id_key, root_key, block_number_key,
}
use arkiv_storage_service.Store.Entity.{Entity}
use arkiv_storage_service.Store.Cache.{Codec, zero_hash, system_address}
use arkiv_storage_service.Store.Flush.{annot_slot_key}

module _ (P : Platform) (C : Codec) where
  open P use {roaring.{Bitmap}, kv.{Db}, state_db.{State}}

  pub record Store : Type 0 where
    pub raw_db : Db
    pub head_root : Bytes
    pub head_hash : Bytes
    pub head_number : ℕ

  abbrev pub no_head : Head
  no_head = record { number = 0; hash = zero_hash; root = P.state_db.empty_root }

  abbrev pub head_of : Option Bytes → Result Head
  head_of none = ok no_head
  head_of (some b) = if length b == 72 then decode_head b else ok no_head

  abbrev pub at_head : Db → Head → Store
  at_head raw h = record {
    raw_db = raw;
    head_root = h.root;
    head_hash = h.hash;
    head_number = h.number;
  }

  -- `New`
  unfoldable pub new_store : Db → Result Store
  unfolding decode_head
  new_store raw = do h ← head_of (P.kv.get raw head_key); ok (at_head raw h)

  -- a read that must find something
  abbrev pub found : Option Bytes → Result Bytes
  found none = fail (error "not found")
  found (some b) = ok b

  -- the state root of a block, and of the head for block 0; `BytesToHash` of 32 bytes is the
  -- identity, and is left to the parameter
  unfoldable pub root_at : Store → ℕ → Result Bytes
  root_at s at = if at == 0 then ok s.head_root else do
    hash ← found (P.kv.get s.raw_db (block_number_key at))
    root ← found (P.kv.get s.raw_db (root_key (P.text.bytes_to_hash hash)))
    ok (P.text.bytes_to_hash root)

  abbrev pub opened : Option State → Result State
  opened none = fail (error "open state")
  opened (some sdb) = ok sdb

  unfoldable pub open_state_at : Store → ℕ → Result State
  unfolding root_at
  open_state_at s at = do
    root ← root_at s at
    opened (P.state_db.state_new (P.kv.get s.raw_db) root)

  abbrev pub unmarshalled : Option Bitmap → Result Bitmap
  unmarshalled none = fail (error "unmarshal bitmap")
  unmarshalled (some bm) = ok bm

  -- an empty or a missing blob is an empty bitmap
  abbrev pub bitmap_or_empty : Option Bytes → Result Bitmap
  bitmap_or_empty none = ok P.roaring.empty
  bitmap_or_empty (some []) = ok P.roaring.empty
  bitmap_or_empty (some (b ∷ bs)) = unmarshalled (P.roaring.unmarshal (b ∷ bs))

  -- the bitmap that a slot of the system account leads to
  unfoldable pub bitmap_of_slot : Store → Bytes → Result Bitmap
  bitmap_of_slot s h =
      if beq h zero_hash
      then ok P.roaring.empty
      else bitmap_or_empty (P.kv.get s.raw_db (bitmap_key h))

  unfoldable pub read_annot_bitmap : Store → ℕ → Bytes → Bytes → Result Bitmap
  unfolding open_state_at bitmap_of_slot annot_slot_key
  read_annot_bitmap s at key val = do
    sdb ← open_state_at s at
    bitmap_of_slot s (P.state_db.get_state sdb (system_address P C) (annot_slot_key P C key val))

  unfoldable pub all_entities : Store → ℕ → Result Bitmap
  unfolding read_annot_bitmap
  all_entities s at = read_annot_bitmap s at (codes "$all") (codes "true")

  abbrev pub not_empty : Bytes → Result Bytes
  not_empty [] = fail (error "entity not found")
  not_empty (b ∷ bs) = ok (b ∷ bs)

  unfoldable pub get_entity_bytes : Store → ℕ → Bytes → Result Bytes
  unfolding open_state_at
  get_entity_bytes s at addr = do sdb ← open_state_at s at; not_empty (P.state_db.get_code sdb addr)

  abbrev pub decoded : Option Entity → Result Entity
  decoded none = fail (error "decode entity")
  decoded (some e) = ok e

  unfoldable pub get_entity_at : Store → ℕ → Bytes → Result Entity
  unfolding open_state_at
  get_entity_at s at addr = do
    sdb ← open_state_at s at
    code ← not_empty (P.state_db.get_code sdb addr)
    decoded (C.decode_entity code)

  -- `IDToAddress`: 20 bytes are an address as they are
  abbrev pub address_if : Option Bytes → Option Bytes
  address_if none = none
  address_if (some b) = if length b == 20 then some b else none

  unfoldable pub id_to_address : Store → ℕ → Option Bytes
  id_to_address s id = address_if (P.kv.get s.raw_db (id_key id))
