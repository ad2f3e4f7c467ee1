-- ===== src/Query/Server/Defaults.antt =====
-- The defaults of the options of a query.
use arkiv_storage_service.Base.{
  ℕ, ◌≤◌, true, false, [], ◌∷◌, Option, none, some, ltb, if◌then◌else◌, Result, ok, fail, error,
  arith,
}
use arkiv_storage_service.Bytes.{Bytes}
use arkiv_storage_service.Query.Server.{IncludeData, Options, Wire}

abbrev pub query_result_count_limit : ℕ
query_result_count_limit = 200

abbrev pub results_or_limit : Option ℕ → ℕ
results_or_limit none = query_result_count_limit
results_or_limit (some n) = if ltb query_result_count_limit n then query_result_count_limit else n

unfoldable pub get_results_per_page : Option Options → ℕ
get_results_per_page none = query_result_count_limit
get_results_per_page (some o) = results_or_limit o.results_per_page

abbrev pub all_included : IncludeData
all_included = record {
  key = true;
  attributes = true;
  synthetic_attributes = false;
  payload = true;
  content_type = true;
  expiration = true;
  owner = true;
  creator = true;
  created_at_block = true;
  last_modified_at_block = true;
  transaction_index_in_block = false;
  operation_index_in_transaction = false;
}

abbrev pub included_or_all : Option IncludeData → IncludeData
included_or_all none = all_included
included_or_all (some include) = include

unfoldable pub get_include_data : Option Options → IncludeData
get_include_data none = all_included
get_include_data (some o) = included_or_all o.include_data

abbrev pub decoded_cursor : Option ℕ → Result (Option ℕ)
decoded_cursor none = fail (error "error decoding cursor")
decoded_cursor (some v) = ok (some v)

abbrev pub cursor_of : Wire → Bytes → Result (Option ℕ)
cursor_of W [] = ok none
cursor_of W (c ∷ cs) = decoded_cursor (W.decode_uint64 (c ∷ cs))

unfoldable pub get_cursor : Wire → Option Options → Result (Option ℕ)
get_cursor W none = ok none
get_cursor W (some o) = cursor_of W o.cursor

-- `options != nil && options.AtBlock != nil`
abbrev pub block_or_zero : Option ℕ → ℕ
block_or_zero none = 0
block_or_zero (some n) = n

unfoldable pub get_at_block : Option Options → ℕ
get_at_block none = 0
get_at_block (some o) = block_or_zero o.at_block

pub get_results_per_page-le : (o : Option Options) → get_results_per_page o ≤ 200
unfolding get_results_per_page
get_results_per_page-le none = omega arith
get_results_per_page-le (some o) = go o.results_per_page
  where
    go : (n : Option ℕ) → results_or_limit n ≤ 200
    go none = omega arith
    go (some n) = ground arith
