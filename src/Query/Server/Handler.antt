-- ===== src/Query/Server/Handler.antt =====
-- The handlers of query/server.go, and `Parse` of query/language.go.
pub mod Cursor
pub mod Bounds
pub mod Paging
use arkiv_storage_service.Base.{
  ℕ, Bool, true, false, ◌&&◌, ◌==◌, List, [], ◌∷◌, Option, none, some, ltb, if◌then◌else◌, Result,
  ok, fail, error, ◌>>=◌,
}
use arkiv_storage_service.Bytes.{Bytes}
use arkiv_storage_service.Platform.{Platform}
use arkiv_storage_service.Store.Cache.{Codec}
use arkiv_storage_service.Query.Language.{TopLevel, Ast}
use arkiv_storage_service.Query.Normalize.{normalize}
use arkiv_storage_service.Query.Evaluate.{evaluate}
use arkiv_storage_service.Query.Server.{
  IncludeData, Options, QueryResponse, EntityData, Backend, Wire,
}
use arkiv_storage_service.Query.Server.Defaults.{
  get_results_per_page, get_include_data, get_cursor, get_at_block,
}
use arkiv_storage_service.Query.Server.EntityView.{fetch_entity_data}
use arkiv_storage_service.Query.Server.Page.{Progress, has_next, collect_all}

-- `Parse`; `Parser.ParseString` is the parameter, and `none` is its error
unfoldable pub parse : (Bytes → Option TopLevel) → (Bytes → Bytes) → Bytes → Result Ast
unfolding normalize
parse parse_string to_lower s = elim (parse_string s) [
  | none ↦ fail (error "failed to parse query")
  | some v ↦ normalize to_lower v
]

abbrev pub or_head : ℕ → ℕ → ℕ
or_head head_number at = if at == 0 then head_number else at

-- `if it.HasNext() && lastID != nil`
unfoldable pub next_cursor : Wire → Progress → Option Bytes
next_cursor W p = elim p.last_id [
  | none ↦ none
  | some id ↦ if has_next p.rest then some (W.encode_uint64 id) else none
]

module _ (P : Platform) (C : Codec) (W : Wire) (backend : Backend P.roaring) where
  open P use {roaring.{Bitmap}}

  -- the ids strictly below the cursor
  unfoldable pub restrict : Option ℕ → Bitmap → Bitmap
  restrict none ids = ids
  restrict (some cursor) ids = P.roaring.and ids (P.roaring.add_range P.roaring.empty 0 cursor)

  abbrev pub marshalled : Option Bytes → Result (Option Bytes)
  marshalled none = fail (error "failed to marshal entity data")
  marshalled (some d) = ok (some d)

  -- an error of `fetchEntityData` skips the entity
  abbrev pub row_of : Result EntityData → Result (Option Bytes)
  row_of (fail why) = ok none
  row_of (ok ed) = marshalled (W.marshal ed)

  -- the body of the inner loop
  unfoldable pub shown : ℕ → IncludeData → ℕ → Result (Option Bytes)
  unfolding fetch_entity_data
  shown at include id = elim (backend.id_to_address id) [
    | none ↦ ok none
    | some addr ↦ row_of (fetch_entity_data P.roaring P.text C backend at addr include)
  ]

  -- the lines of `Query` after the evaluation
  unfoldable pub page_of : Option Options → Bitmap → Result QueryResponse
  unfolding get_cursor restrict shown collect_all next_cursor get_results_per_page get_include_data
      get_at_block
  page_of options ids = do
    cursor ← get_cursor W options
    p ←
        collect_all (shown (get_at_block options) (get_include_data options))
          (get_results_per_page options) (P.roaring.reverse (restrict cursor ids))
    ok (record {
      rows = p.rows;
      block_number = or_head backend.head_number (get_at_block options);
      cursor = next_cursor W p;
    })

  unfoldable pub query : (Bytes → Option TopLevel) → Bytes → Option Options → Result QueryResponse
  unfolding parse page_of get_at_block
  query parse_string query_str options = do
    ast ← parse parse_string P.text.to_lower query_str
    ids ← evaluate P.roaring backend.querier (get_at_block options) ast
    page_of options ids

  unfoldable pub get_entity_by_address : Bytes → Option Options → Result EntityData
  unfolding fetch_entity_data
  get_entity_by_address addr options =
      fetch_entity_data P.roaring P.text C backend (get_at_block options) addr
        (get_include_data options)

  unfoldable pub get_entity_count : Result ℕ
  get_entity_count = do bm ← backend.querier.all_entities 0; ok (P.roaring.cardinality bm)
