-- ===== src/Store/Chain/Buffer.antt =====
-- The write buffer that a block starts with.
use arkiv_storage_service.Base.{◌≡◌, refl, Option, none, some, [], ok, ◌>>=◌, subst}
use arkiv_storage_service.Platform.{Platform}
use arkiv_storage_service.Types.{ArkivBlock}
use arkiv_storage_service.Store.Cache.{
  Codec, CacheStore, init_system_account, staging_get, zero_hash,
}
use arkiv_storage_service.Store.Commit.{new_cache_store, new_staging_db, opened_or}
use arkiv_storage_service.Store.Reading.{Store}
use arkiv_storage_service.Store.Chain.{block_buffer}

module _ (P : Platform) (C : Codec) (s : Store P C) (block : ArkivBlock) where
  abbrev pub Fields : CacheStore P C → Type 0
  Fields cs =
      (cs.staging_db ≡ new_staging_db P C s.raw_db)
      × (cs.block_number ≡ block.header.number)
      × (cs.block_hash ≡ block.header.hash)
      × (cs.parent_hash ≡ block.header.parent_hash)

  abbrev fresh : P.state_db.State → CacheStore P C
  fresh state = record {
    staging_db = new_staging_db P C s.raw_db;
    state = state;
    block_number = block.header.number;
    block_hash = zero_hash;
    parent_hash = zero_hash;
    dirty_entities = [];
    dirty_bitmaps = [];
  }

  abbrev started : CacheStore P C → CacheStore P C
  started c = record c {
    block_hash = block.header.hash;
    parent_hash = block.header.parent_hash;
    state = init_system_account P C c.state;
  }

  -- an empty staging store, and the Fields of the block
  pub block_buffer-Fields : (cs : CacheStore P C) → block_buffer P C s block ≡ ok cs → Fields cs
  unfolding block_buffer new_cache_store
  block_buffer-Fields cs run =
      go (P.state_db.state_new (staging_get P C (new_staging_db P C s.raw_db)) s.head_root) run
    where
      go :
          (found : Option P.state_db.State)
          → ((opened_or P C found >>= λ state. ok (fresh state)) >>= λ c. ok (started c)) ≡ ok cs
          → Fields cs
      go none e = cc
      go (some state) e =
          let is : started (fresh state) ≡ cs = cc in subst Fields is (refl, refl, refl, refl)
