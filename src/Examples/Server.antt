-- ===== src/Examples/Server.antt =====
-- A query server over two entities.
use mathlib.Core.List.{Perm}
use arkiv_storage_service.Base.{
  ℕ, ◌<◌, ◌^◌, ◌≡◌, ◌≢◌, refl, true, List, [], ◌∷◌, Option, none, some, Result, ok, fail, error,
  arith, ◌>>=◌, if◌then◌else◌, ◌==◌,
}
use arkiv_storage_service.Base.Descending.{has}
use arkiv_storage_service.Bytes.{Bytes, codes, beq, has_prefix}
use arkiv_storage_service.Platform.Sample.{sample_platform}
use arkiv_storage_service.Roaring.Sample.{list_roaring}
use arkiv_storage_service.Store.Entity.{Entity}
use arkiv_storage_service.Store.Cache.{Codec}
use arkiv_storage_service.Query.Language.{TopLevel}
use arkiv_storage_service.Query.Normalize.{normalize}
use arkiv_storage_service.Query.Evaluate.{StoreQuerier, evaluate}
use arkiv_storage_service.Query.Server.{Options, QueryResponse, Backend, Wire}
use arkiv_storage_service.Query.Server.Defaults.{all_included, get_at_block, get_results_per_page}
use arkiv_storage_service.Query.Server.EntityView.{view_of}
use arkiv_storage_service.Query.Server.EntityView.Sorted.{InOrder}
use arkiv_storage_service.Query.Server.EntityView.Asked.{view_of-attributes}
use arkiv_storage_service.Query.Server.Page.{collect_all}
use arkiv_storage_service.Query.Server.Page.Sequential.{one_by_one, collect_all-one_by_one}
use arkiv_storage_service.Query.Server.Page.Stops.{rows_of}
use arkiv_storage_service.Query.Server.Handler.{parse}
use arkiv_storage_service.Query.Server.Handler.Paging.{row_at, pages, query-pages}

abbrev thing : Entity
thing = record {
  payload = codes "payload";
  owner = codes "owner";
  creator = codes "creator";
  expires_at = 100;
  created_at_block = 7;
  last_modified_at_block = 7;
  transaction_index_in_block = 0;
  operation_index_in_transaction = 1;
  content_type = codes "text/plain";
  key = codes "key";
  string_annotations = [];
  numeric_annotations = [];
}

abbrev one_thing : Codec
one_thing = record { encode_entity = λ e. some (codes "thing"); decode_entity = λ d. some thing }

abbrev ids : List ℕ
ids = 1 ∷ 5 ∷ 3 ∷ []

abbrev few : StoreQuerier list_roaring
few = record {
  read_annot_bitmap = λ at k v. ok [];
  all_entities = λ at. ok ids;
  iterate_numeric = λ k lo hi. [];
  iterate_string = λ k lo lo_incl hi hi_incl. [];
  iterate_prefix = λ k p. [];
  iterate_glob = λ k p. [];
}

-- every id has an address, and every address an entity but for that of id 3
abbrev bytes_at : Bytes → Result Bytes
bytes_at addr = if has addr 3 then fail (error "entity not found") else ok addr

abbrev sample_backend : Backend list_roaring
sample_backend = record {
  querier = few;
  head_number = 9;
  id_to_address = λ id. some (id ∷ []);
  get_entity_bytes = λ at addr. bytes_at addr;
}

abbrev one_number : Bytes → Option ℕ
one_number [] = none
one_number (n ∷ rest) = some n

cons_ne_nil : (n : ℕ) → (n ∷ []) ≢ []
cons_ne_nil n h = cc

abbrev sample_wire : Wire
sample_wire = record {
  encode_uint64 = λ n. n ∷ [];
  decode_uint64 = one_number;
  marshal = λ d. some (codes "row");
  decode-encode = λ n h. refl;
  encode-ne-nil = cons_ne_nil;
}

-- `*`
abbrev everything : Bytes → Option TopLevel
everything s = some (record { expression = none })

abbrev by_one : Options
by_one = record { at_block = none; include_data = none; results_per_page = some 1; cursor = [] }

evaluated :
    (parse everything sample_platform.text.to_lower (codes "*")
      >>= evaluate list_roaring few (get_at_block (some by_one)))
    ≡ ok ids
unfolding parse evaluate normalize
evaluated = refl

one_row : 0 < get_results_per_page (some by_one)
unfolding get_results_per_page
one_row = omega arith

small : (id : ℕ) → has ids id ≡ true → id < 2 ^ 64
small id h = ground arith

-- The pages of one row each have the rows of the entities 5 and 1, since entity 3 is skipped.
query-pages_example :
    pages sample_platform one_thing sample_wire sample_backend everything (codes "*") by_one 4 []
    ≡ ok (
        rows_of
          (row_at sample_platform one_thing sample_wire sample_backend by_one)
          (5 ∷ 3 ∷ 1 ∷ []))
query-pages_example =
    query-pages sample_platform one_thing sample_wire sample_backend everything (codes "*") by_one
      (λ d. (codes "row", refl)) ids evaluated one_row small

abbrev first_page : QueryResponse
first_page = record { rows = codes "row" ∷ []; block_number = 9; cursor = some (5 ∷ []) }

abbrev even_row : ℕ → Result (Option Bytes)
even_row id = if id == 4 then ok none else ok (some (id ∷ []))

-- A loop that stops at two rows.
collect_all-one_by_one_example :
    collect_all even_row 2 (7 ∷ 4 ∷ 3 ∷ 2 ∷ []) ≡ one_by_one even_row 2 [] none (7 ∷ 4 ∷ 3 ∷ 2 ∷ [])
collect_all-one_by_one_example = collect_all-one_by_one even_row 2 (7 ∷ 4 ∷ 3 ∷ 2 ∷ [])

abbrev red_thing : Entity
red_thing = record thing {
  string_annotations = record { key = codes "color"; value = codes "red" } ∷ [];
}

-- The default flags, without the synthetic attributes: only the annotation is shown.
view_of-attributes_example :
    InOrder (view_of sample_platform.text all_included red_thing).string_attributes
    × Perm
        (view_of sample_platform.text all_included red_thing).string_attributes
        (record { key = codes "color"; value = codes "red" } ∷ [])
    × InOrder (view_of sample_platform.text all_included red_thing).numeric_attributes
    × Perm (view_of sample_platform.text all_included red_thing).numeric_attributes []
unfolding has_prefix beq
view_of-attributes_example = view_of-attributes sample_platform.text all_included red_thing
