-- ===== src/Query/Serving.antt =====
-- The store as the backend of the queries: `*store.Store` implements `StoreQuerier` and `Backend`.
pub mod Synced
use arkiv_storage_service.Platform.{Platform}
use arkiv_storage_service.Store.Cache.{Codec}
use arkiv_storage_service.Store.Reading.{
  Store, read_annot_bitmap, all_entities, id_to_address, get_entity_bytes,
}
use arkiv_storage_service.Store.Scan.{
  iterate_numeric_annot_bitmaps, iterate_string_annot_bitmaps, iterate_prefix_annot_bitmaps,
  iterate_glob_annot_bitmaps,
}
use arkiv_storage_service.Query.Evaluate.{StoreQuerier}
use arkiv_storage_service.Query.Server.{Backend}

module _ (P : Platform) (C : Codec) (s : Store P C) where
  unfoldable pub store_querier : StoreQuerier P.roaring
  unfolding read_annot_bitmap all_entities iterate_numeric_annot_bitmaps
      iterate_string_annot_bitmaps iterate_prefix_annot_bitmaps iterate_glob_annot_bitmaps
  store_querier = record {
    read_annot_bitmap = read_annot_bitmap P C s;
    all_entities = all_entities P C s;
    iterate_numeric = iterate_numeric_annot_bitmaps P s.raw_db;
    iterate_string = iterate_string_annot_bitmaps P s.raw_db;
    iterate_prefix = iterate_prefix_annot_bitmaps P s.raw_db;
    iterate_glob = iterate_glob_annot_bitmaps P s.raw_db;
  }

  unfoldable pub store_backend : Backend P.roaring
  unfolding store_querier id_to_address get_entity_bytes
  store_backend = record {
    querier = store_querier;
    head_number = s.head_number;
    id_to_address = id_to_address P C s;
    get_entity_bytes = get_entity_bytes P C s;
  }
