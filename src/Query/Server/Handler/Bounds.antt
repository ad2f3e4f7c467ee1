-- ===== src/Query/Server/Handler/Bounds.antt =====
-- How long a response is.
use arkiv_storage_service.Base.{ℕ, ◌≤◌, Option, none, some, Result}
use arkiv_storage_service.Bytes.{Bytes}
use arkiv_storage_service.Platform.{Platform}
use arkiv_storage_service.Store.Cache.{Codec}
use arkiv_storage_service.Query.Server.{Options, QueryResponse, Backend, Wire}
use arkiv_storage_service.Query.Server.Defaults.{
  get_results_per_page, get_include_data, get_at_block,
}
use arkiv_storage_service.Query.Server.Page.{Progress, collect_all}
use arkiv_storage_service.Query.Server.Handler.{or_head, next_cursor, restrict, shown}

-- `n` is within what was asked for, if anything was.
abbrev pub AtMost : ℕ → Option ℕ → Type 0
AtMost n none = Unit
AtMost n (some asked) = n ≤ asked

module _ (P : Platform) (C : Codec) (W : Wire) (backend : Backend P.roaring) where
  open P use {roaring.{Bitmap}}

  module _ (options : Options) where
    abbrev pub page_from : Bitmap → Option ℕ → Result Progress
    page_from ids cursor =
        collect_all
          (shown P C W backend (get_at_block (some options)) (get_include_data (some options)))
          (get_results_per_page (some options))
          (P.roaring.reverse (restrict P C W backend cursor ids))

    abbrev pub response : Progress → QueryResponse
    response p = record {
      rows = p.rows;
      block_number = or_head backend.head_number (get_at_block (some options));
      cursor = next_cursor W p;
    }
