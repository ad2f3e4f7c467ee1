-- ===== src/Query/Server/Handler/Paging.antt =====
-- Following the cursors of a query: the pages together, and the size of each.
use arkiv_storage_service.Base.{
  ℕ, zero, suc, ◌<◌, ◌^◌, ◌≡◌, refl, sym, ap, ◌∙◌, true, List, [], ◌∷◌, ◌++◌, append_assoc, length,
  length-append, Option, none, some, Result, fail, ok, out_of_fuel, ◌>>=◌, arith, ltb, subst,
  >>=_assoc, inl, inr, any-append, ◌==◌,
}
use arkiv_storage_service.Base.Descending.{has, filter, Descending, filter-after}
use arkiv_storage_service.Bytes.{Bytes}
use arkiv_storage_service.Platform.{Platform}
use arkiv_storage_service.Store.Cache.{Codec}
use arkiv_storage_service.Query.Language.{TopLevel}
use arkiv_storage_service.Query.Evaluate.{evaluate}
use arkiv_storage_service.Query.Server.{
  IncludeData, Options, QueryResponse, EntityData, Backend, Wire,
}
use arkiv_storage_service.Query.Server.Defaults.{
  cursor_of, get_results_per_page, get_include_data, get_cursor, get_at_block,
}
use arkiv_storage_service.Query.Server.EntityView.{fetch_entity_data}
use arkiv_storage_service.Query.Server.Page.{Progress, collect_all}
use arkiv_storage_service.Query.Server.Page.Stops.{rows_of, rows_of-append, collect_all-stop}
use arkiv_storage_service.Query.Server.Handler.Cursor.{
  has_next-cases, cursor_of-some, next_cursor-none, next_cursor-some, reverse-restrict,
}
use arkiv_storage_service.Query.Server.Handler.Bounds.{page_from, response}
use arkiv_storage_service.Query.Server.Handler.{
  parse, next_cursor, restrict, row_of, shown, page_of, query,
}

abbrev pub row_or_none : Result (Option Bytes) → Option Bytes
row_or_none (fail why) = none
row_or_none (ok row) = row

module _ (P : Platform) (C : Codec) (W : Wire) (backend : Backend P.roaring) where
  open P use {roaring.{Bitmap}}

  -- the row of an entity, if it has one
  abbrev pub row_at : Options → ℕ → Option Bytes
  row_at options id =
      row_or_none
        (shown P C W backend (get_at_block (some options)) (get_include_data (some options)) id)

  -- JSON can always be written.
  abbrev pub Writes : Type 0
  Writes = (d : EntityData) → (b : Bytes) × (W.marshal d ≡ some b)

  row_of-total :
      Writes
      → (fetched : Result EntityData)
      → row_of P C W backend fetched ≡ ok (row_or_none (row_of P C W backend fetched))
  row_of-total writes (fail why) = refl
  row_of-total writes (ok d) = let (b, e) = writes d in rw e refl

  shown-total :
      Writes
      → (at : ℕ) (include : IncludeData) (id : ℕ)
      → shown P C W backend at include id ≡ ok (row_or_none (shown P C W backend at include id))
  unfolding shown
  shown-total writes at include id = go (backend.id_to_address id)
    where
      go :
          (found : Option Bytes)
          → (elim found [
            | none ↦ ok none
            | some addr ↦
                row_of P C W backend (fetch_entity_data P.roaring P.text C backend at addr include)
          ])
            ≡ ok (
                row_or_none (elim found [
                  | none ↦ ok none
                  | some addr ↦
                      row_of P C W backend
                        (fetch_entity_data P.roaring P.text C backend at addr include)
                ]))
      go none = refl
      go (some addr) =
          row_of-total writes (fetch_entity_data P.roaring P.text C backend at addr include)

  module _ (parse_string : Bytes → Option TopLevel) (query_str : Bytes) (options : Options) where
    -- the rest of the pages, after a response
    abbrev next_page : (Bytes → Result (List Bytes)) → QueryResponse → Result (List Bytes)
    next_page rest r = elim r.cursor [
      | none ↦ ok r.rows
      | some cursor ↦ rest cursor >>= λ rows. ok (r.rows ++ rows)
    ]

    -- A client asks for the page after a cursor, and goes on while the response has a cursor.
    abbrev pub pages : ℕ → Bytes → Result (List Bytes)
    pages zero cursor = fail out_of_fuel
    pages (suc n) cursor =
        query P C W backend parse_string query_str (some (record options { cursor = cursor }))
        >>= next_page (pages n)

    module _ (writes : Writes) (ids : Bitmap)
        (yields : (parse parse_string P.text.to_lower query_str
            >>= evaluate P.roaring backend.querier (get_at_block (some options)))
          ≡ ok ids)
        (some_rows : 0 < get_results_per_page (some options))
        (fits : (id : ℕ) → P.roaring.contains ids id ≡ true → id < 2 ^ 64) where
      -- One page, after a cursor that is read back.
      query_page :
          (cursor : Bytes) (k : Option ℕ)
          → cursor_of W cursor ≡ ok k
          → query P C W backend parse_string query_str (some (record options { cursor = cursor }))
            ≡ (page_from P C W backend options ids k >>= λ p. ok (response P C W backend options p))
      unfolding query page_of get_cursor get_at_block get_results_per_page get_include_data
      query_page cursor k reads =
          >>=_assoc (parse parse_string P.text.to_lower query_str)
            (evaluate P.roaring backend.querier (get_at_block (some options)))
            (page_of P C W backend (some (record options { cursor = cursor })))
          ∙ (ap
                (λ found.
                  found >>= page_of P C W backend (some (record options { cursor = cursor })))
                yields
              ∙ ap
                  (λ at. at >>= λ k'. page_from P C W backend options ids k' >>= λ p.
                    ok (response P C W backend options p))
                  reads)

      page_then :
          (n : ℕ) (cursor : Bytes) (k : Option ℕ) (rest : List ℕ) (p : Progress)
          → cursor_of W cursor ≡ ok k
          → P.roaring.reverse (restrict P C W backend k ids) ≡ rest
          → collect_all
              (shown P C W backend (get_at_block (some options)) (get_include_data (some options)))
              (get_results_per_page (some options))
              rest
            ≡ ok p
          → pages (suc n) cursor ≡ next_page (pages n) (response P C W backend options p)
      page_then n cursor k rest p reads left run =
          let runs : page_from P C W backend options ids k ≡ ok p =
            ap
              (collect_all
                (shown P C W backend (get_at_block (some options))
                  (get_include_data (some options)))
                (get_results_per_page (some options)))
              left
            ∙ run in
          ap (λ r. r >>= next_page (pages n)) (query_page cursor k reads)
          ∙ ap (λ r. (r >>= λ p'. ok (response P C W backend options p')) >>= next_page (pages n))
              runs

      last_page :
          (rest : Bytes → Result (List Bytes)) (p : Progress) (rows : List Bytes)
          → next_cursor W p ≡ none
          → p.rows ≡ rows
          → next_page rest (response P C W backend options p) ≡ ok rows
      last_page rest p rows e is = rw e (ap ok is)

      not_last_page :
          (rest : Bytes → Result (List Bytes)) (p : Progress) (cursor : Bytes) (rows : List Bytes)
          → next_cursor W p ≡ some cursor
          → rest cursor ≡ ok rows
          → next_page rest (response P C W backend options p) ≡ ok (p.rows ++ rows)
      not_last_page rest p cursor rows e is = rw e (rw is refl)

      -- The next page starts after the last id of this one.
      next_left :
          (front : List ℕ) (l : ℕ) (after : List ℕ)
          → front ++ l ∷ after ≡ P.roaring.reverse ids
          → (l < 2 ^ 64) × (P.roaring.reverse (restrict P C W backend (some l) ids) ≡ after)
      next_left front l after all =
          let here : has (front ++ l ∷ after) l ≡ true =
            any-append (λ x. x == l) front (l ∷ after) ∙ ground arith in
          let there : P.roaring.contains ids l ≡ true =
            sym (P.roaring.any-reverse ids l) ∙ (ap (λ xs. has xs l) (sym all) ∙ here) in
          (
            fits l there,
            reverse-restrict P C W backend l ids
                ∙ (ap (filter (λ x. ltb x l)) (sym all)
                    ∙ filter-after front l after
                        (subst Descending (sym all) (P.roaring.reverse-Descending ids))),
          )

      follow :
          (n : ℕ) (cursor : Bytes) (k : Option ℕ) (before rest : List ℕ)
          → length rest < n
          → before ++ rest ≡ P.roaring.reverse ids
          → cursor_of W cursor ≡ ok k
          → P.roaring.reverse (restrict P C W backend k ids) ≡ rest
          → pages n cursor ≡ ok (rows_of (row_at options) rest)
      unfolding collect_all next_cursor
      follow zero cursor k before rest h all reads left = absurd (omega (arith, h))
      follow (suc n) cursor k before [] h all reads left =
          page_then n cursor k [] (record { rows = []; last_id = none; rest = [] }) reads left refl
      follow (suc n) cursor k before (id ∷ rest) h all reads left =
          let (p, run, front, l, split, rows, last) =
            collect_all-stop
              (shown P C W backend (get_at_block (some options)) (get_include_data (some options)))
              (get_results_per_page (some options)) (row_at options)
              (shown-total writes (get_at_block (some options)) (get_include_data (some options)))
              some_rows id rest in
          page_then n cursor k (id ∷ rest) p reads left run ∙ elim (has_next-cases p.rest) [
            | inl e ↦
                last_page (pages n) p (rows_of (row_at options) (id ∷ rest))
                  (next_cursor-none W p.rows p.last_id p.rest e)
                  (rows
                    ∙ ap (rows_of (row_at options))
                        (ap (λ after. front ++ l ∷ after) (sym e) ∙ sym split))
            | inr e ↦
                let all' : (before ++ front) ++ l ∷ p.rest ≡ P.roaring.reverse ids =
                  append_assoc before front (l ∷ p.rest)
                  ∙ (ap (λ t. before ++ t) (sym split) ∙ all) in
                let (small, left') = next_left (before ++ front) l p.rest all' in
                let shorter : length p.rest < n =
                  omega (arith, h, ap length split, length-append front (l ∷ p.rest)) in
                not_last_page (pages n) p (W.encode_uint64 l) (rows_of (row_at options) p.rest)
                  (next_cursor-some W p l last e)
                  (follow n (W.encode_uint64 l) (some l) ((before ++ front) ++ l ∷ []) p.rest
                    shorter (append_assoc (before ++ front) (l ∷ []) p.rest ∙ all')
                    (cursor_of-some W l small) left')
                ∙ ap ok (
                    ap (λ t. t ++ rows_of (row_at options) p.rest) rows
                    ∙ (sym (rows_of-append (row_at options) (front ++ l ∷ []) p.rest)
                        ∙ ap (rows_of (row_at options))
                            (append_assoc front (l ∷ []) p.rest ∙ sym split)))
          ]

      -- Of a query that evaluates, a client that asks for one row a page at least and follows the
      -- cursors gets the last page, and in all the pages together the rows of the matching
      -- entities, each once, in descending order of their ids, when JSON can be written and ids
      -- have 64 bits.
      pub query-pages :
          pages (suc (length (P.roaring.reverse ids))) []
          ≡ ok (rows_of (row_at options) (P.roaring.reverse ids))
      unfolding restrict
      query-pages =
          follow (suc (length (P.roaring.reverse ids))) [] none [] (P.roaring.reverse ids)
            (omega arith) refl refl refl
