-- ===== src/Store/Flush.antt =====
-- What Commit writes first: `flushEntities` of store/ops.go writes the entities of the cache to the
-- trie, and `flushBitmaps` of store/bitmap.go the cached bitmaps to the staging store. Go visits a
-- map in any order; the model goes from the last entry of the list to the first.
pub mod Entities
pub mod Bitmaps
pub mod Frame
pub mod Kept
use arkiv_storage_service.Base.{
  Bool, true, false, if◌then◌else◌, ◌++◌, ℕ, List, [], ◌∷◌, Option, none, some, Result, ok, fail,
  error, ◌>>=◌,
}
use arkiv_storage_service.Bytes.{Bytes, codes}
use arkiv_storage_service.Platform.{Platform}
use arkiv_storage_service.Store.Entity.{Entity, AnnotPair}
use arkiv_storage_service.Store.Cache.{
  Codec, CacheStore, StagingDb, staging_get, staging_put, system_address,
}
use arkiv_storage_service.Store.Keys.{bitmap_key, annot_key, pairs_key}

module _ (P : Platform) (C : Codec) where
  open P use {state_db.{State}}

  -- `encodeEntity`, whose hash no caller here uses
  unfoldable pub encode_entity : Entity → Result Bytes
  encode_entity entity = elim (C.encode_entity entity) [
    | some data' ↦ ok data'
    | none ↦ fail (error "rlp")
  ]

  -- the loop
  unfoldable pub write_codes : State → List (Bytes × Entity) → Result State
  unfolding encode_entity
  write_codes state [] = ok state
  write_codes state ((addr, entity) ∷ entities) = do
    state' ← write_codes state entities
    data' ← encode_entity entity
    ok (P.state_db.set_code state' addr data')

  unfoldable pub flush_entities : CacheStore P C → Result (CacheStore P C)
  unfolding write_codes
  flush_entities c = do
    state' ← write_codes c.state c.dirty_entities
    ok (record c { state = state' })

  -- `StagingDB.Has`
  unfoldable pub staging_has : StagingDb P C → Bytes → Bool
  staging_has s key = elim (staging_get P C s key) [ some v ↦ true | none ↦ false ]

  unfoldable pub annot_slot_key : Bytes → Bytes → Bytes
  annot_slot_key key val = P.text.keccak (((codes "annot" ++ key) ++ 0 ∷ []) ++ val)

  unfoldable pub set_annot_slot : State → Bytes → Bytes → Bytes → State
  unfolding annot_slot_key
  set_annot_slot s key val hash =
      P.state_db.set_state s (system_address P C) (annot_slot_key key val) hash

  -- the existence index: the pairs key, written once
  unfoldable pub index_pair : StagingDb P C → Bytes → Bytes → StagingDb P C
  unfolding staging_has
  index_pair s key val =
      if staging_has s (pairs_key key val)
      then s
      else staging_put P C s (pairs_key key val) (1 ∷ [])

  -- `bm.MarshalBinary()`
  unfoldable pub marshal_bitmap : P.roaring.Bitmap → Result Bytes
  marshal_bitmap bm = elim (P.roaring.marshal bm) [
    | some new_bytes ↦ ok new_bytes
    | none ↦ fail (error "marshal bitmap")
  ]

  -- one round of `flushBitmaps`
  unfoldable pub write_bitmap :
      CacheStore P C → AnnotPair → P.roaring.Bitmap → Result (CacheStore P C)
  unfolding index_pair set_annot_slot marshal_bitmap
  write_bitmap c (key, val) bm = do
    new_bytes ← marshal_bitmap bm
    let new_hash = P.text.keccak new_bytes
    let blob = staging_put P C c.staging_db (bitmap_key new_hash) new_bytes
    let pointer = staging_put P C blob (annot_key key val) new_hash
    ok (record c {
      staging_db = index_pair pointer key val;
      state = set_annot_slot c.state key val new_hash;
    })

  unfoldable pub write_bitmaps :
      CacheStore P C → List (AnnotPair × P.roaring.Bitmap) → Result (CacheStore P C)
  unfolding write_bitmap
  write_bitmaps c [] = ok c
  write_bitmaps c ((pair, bm) ∷ bitmaps) = do c' ← write_bitmaps c bitmaps; write_bitmap c' pair bm

  unfoldable pub flush_bitmaps : CacheStore P C → Result (CacheStore P C)
  unfolding write_bitmaps
  flush_bitmaps c = write_bitmaps c c.dirty_bitmaps
