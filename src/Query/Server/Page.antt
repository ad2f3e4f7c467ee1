-- ===== src/Query/Server/Page.antt =====
-- The loop of `Query` over the matching ids, in descending order, in batches of ten at most.
pub mod Sequential
pub mod Stops
use arkiv_storage_service.Base.{
  ℕ, zero, suc, ◌-◌, min, Bool, true, false, ◌&&◌, List, [], ◌∷◌, ◌++◌, length, take, drop, Option,
  none, some, ltb, if◌then◌else◌, Result, ok, fail, out_of_fuel, ◌>>=◌,
}
use arkiv_storage_service.Bytes.{Bytes}

-- the results so far, the last id that was visited, and what the iterator has left
pub record Progress : Type 0 where
  pub rows : List Bytes
  pub last_id : Option ℕ
  pub rest : List ℕ

abbrev pub has_next : List ℕ → Bool
has_next [] = false
has_next (id ∷ ids) = true

abbrev pub with_row : List Bytes → Option Bytes → List Bytes
with_row rows none = rows
with_row rows (some d) = rows ++ d ∷ []

-- `shown id` is the row of an entity, or `none` for one that is skipped.
module _ (shown : ℕ → Result (Option Bytes)) (max_results : ℕ) where
  -- the inner loop, over the ids of a batch
  unfoldable pub visit_all : List Bytes → Option ℕ → List ℕ → Result (List Bytes × Option ℕ)
  visit_all rows last_id [] = ok (rows, last_id)
  visit_all rows last_id (id ∷ ids) = do row ← shown id; visit_all (with_row rows row) (some id) ids

  abbrev pub batch_size : List Bytes → ℕ
  batch_size rows = min (max_results - length rows) 10

  -- the outer loop: each round takes an id at least, which pays for the fuel
  unfoldable pub collect : ℕ → List Bytes → Option ℕ → List ℕ → Result Progress
  unfolding visit_all
  collect zero rows last_id rest = fail out_of_fuel
  collect (suc fuel) rows last_id rest =
      if has_next rest && ltb (length rows) max_results
      then (do
        (rows', last_id') ← visit_all rows last_id (take (batch_size rows) rest)
        collect fuel rows' last_id' (drop (batch_size rows) rest))
      else ok (record { rows = rows; last_id = last_id; rest = rest })

  unfoldable pub collect_all : List ℕ → Result Progress
  unfolding collect
  collect_all ids = collect (suc (length ids)) [] none ids
