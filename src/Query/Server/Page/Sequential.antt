-- ===== src/Query/Server/Page/Sequential.antt =====
-- The loop takes the ids one by one, until the page is full: the batches do not show.
use arkiv_storage_service.Base.{
  ℕ, zero, suc, ◌+◌, ◌≤◌, ◌<◌, ◌≡◌, refl, sym, ◌∙◌, true, false, List, [], ◌∷◌, length,
  length-append, length-drop, take, drop, Option, none, some, ltb, if◌then◌else◌, Result, ok, fail,
  ◌>>=◌, Bool-cases, inl, inr, arith,
}
use arkiv_storage_service.Bytes.{Bytes}
use arkiv_storage_service.Query.Server.Page.{
  Progress, with_row, visit_all, batch_size, collect, collect_all,
}

pub length-with_row :
    (rows : List Bytes) (row : Option Bytes) → length (with_row rows row) ≤ suc (length rows)
length-with_row rows none = omega arith
length-with_row rows (some d) = omega (arith, length-append rows (d ∷ []))

then_same :
    {A B E : Type 0} (first : Result A) (f : A → Result B) (g : B → Result E) (h : A → Result E)
    → ((a : A) → (f a >>= g) ≡ h a)
    → ((first >>= f) >>= g) ≡ (first >>= h)
then_same (fail why) f g h e = refl
then_same (ok a) f g h e = e a

next_same :
    {A B : Type 0} (first : Result A) (f g : A → Result B)
    → ((a : A) → f a ≡ g a)
    → (first >>= f) ≡ (first >>= g)
next_same (fail why) f g e = refl
next_same (ok a) f g e = e a

module _ (shown : ℕ → Result (Option Bytes)) (max_results : ℕ) where
  -- the loop without batches
  abbrev pub one_by_one : List Bytes → Option ℕ → List ℕ → Result Progress
  one_by_one rows last_id [] = ok (record { rows = rows; last_id = last_id; rest = [] })
  one_by_one rows last_id (id ∷ ids) =
      if ltb (length rows) max_results
      then (shown id >>= λ row. one_by_one (with_row rows row) (some id) ids)
      else ok (record { rows = rows; last_id = last_id; rest = id ∷ ids })

  pub full_enough :
      (rows : List Bytes) (last_id : Option ℕ) (id : ℕ) (ids : List ℕ)
      → length rows < max_results
      → one_by_one rows last_id (id ∷ ids)
        ≡ (shown id >>= λ row. one_by_one (with_row rows row) (some id) ids)
  full_enough rows last_id id ids h =
      let e : ltb (length rows) max_results ≡ true = ground arith in rw e refl

  pub full_already :
      (rows : List Bytes) (last_id : Option ℕ) (id : ℕ) (ids : List ℕ)
      → max_results ≤ length rows
      → one_by_one rows last_id (id ∷ ids)
        ≡ ok (record { rows = rows; last_id = last_id; rest = id ∷ ids })
  full_already rows last_id id ids h =
      let e : ltb (length rows) max_results ≡ false = ground arith in rw e refl

  -- the loop goes on after a batch that fits
  one_by_one-take :
      (n : ℕ) (rows : List Bytes) (last_id : Option ℕ) (ids : List ℕ)
      → length rows + n ≤ max_results
      → (visit_all shown max_results rows last_id (take n ids) >>= λ (rows', last_id').
          one_by_one rows' last_id' (drop n ids))
        ≡ one_by_one rows last_id ids
  unfolding visit_all
  one_by_one-take zero rows last_id ids h = refl
  one_by_one-take (suc n) rows last_id [] h = refl
  one_by_one-take (suc n) rows last_id (id ∷ ids) h =
      then_same (shown id)
        (λ row. visit_all shown max_results (with_row rows row) (some id) (take n ids))
        (λ (rows', last_id'). one_by_one rows' last_id' (drop n ids))
        (λ row. one_by_one (with_row rows row) (some id) ids)
        (λ row.
          one_by_one-take n (with_row rows row) (some id) ids
            (omega (arith, h, length-with_row rows row)))
      ∙ sym (full_enough rows last_id id ids (omega (arith, h)))

  batch_size_fits :
      (rows : List Bytes)
      → length rows < max_results
      → (length rows + batch_size shown max_results rows ≤ max_results)
        × (1 ≤ batch_size shown max_results rows)
  batch_size_fits rows h = (omega (arith, h), omega (arith, h))

  collect-one_by_one :
      (fuel : ℕ) (rows : List Bytes) (last_id : Option ℕ) (rest : List ℕ)
      → length rest < fuel
      → collect shown max_results fuel rows last_id rest ≡ one_by_one rows last_id rest
  unfolding collect
  collect-one_by_one zero rows last_id rest h = absurd (omega (arith, h))
  collect-one_by_one (suc fuel) rows last_id [] h = refl
  collect-one_by_one (suc fuel) rows last_id (id ∷ ids) h =
      elim (Bool-cases (ltb (length rows) max_results)) [
        | inl e ↦
            let (fits, some_id) = batch_size_fits rows (ground (arith, e)) in
            let n = batch_size shown max_results rows in
            rw e (
              next_same (visit_all shown max_results rows last_id (take n (id ∷ ids)))
                (λ (rows', last_id').
                  collect shown max_results fuel rows' last_id' (drop n (id ∷ ids)))
                (λ (rows', last_id'). one_by_one rows' last_id' (drop n (id ∷ ids)))
                (λ (rows', last_id').
                  collect-one_by_one fuel rows' last_id' (drop n (id ∷ ids))
                    (omega (arith, h, some_id, length-drop n (id ∷ ids))))
              ∙ (one_by_one-take n rows last_id (id ∷ ids) fits
                  ∙ full_enough rows last_id id ids (ground (arith, e))))
        | inr e ↦ rw e refl
      ]

  -- The loop in batches of at most ten ids ends, with what the loop over single ids yields, a
  -- failure to write a row included.
  pub collect_all-one_by_one :
      (ids : List ℕ) → collect_all shown max_results ids ≡ one_by_one [] none ids
  unfolding collect_all
  collect_all-one_by_one ids = collect-one_by_one (suc (length ids)) [] none ids (omega arith)
