-- ===== src/Query/Server/Page/Stops.antt =====
-- Where the loop of a page stops, when every row can be written.
use arkiv_storage_service.Base.{
  ℕ, ◌<◌, ◌≤◌, ◌≡◌, refl, sym, ap, ◌∙◌, List, [], ◌∷◌, ◌++◌, append_assoc, append-nil, length,
  Option, none, some, ltb, Result, ok, >>=-eq-ok, Bool-cases, inl, inr, arith, subst,
}
use arkiv_storage_service.Bytes.{Bytes}
use arkiv_storage_service.Query.Server.Page.{Progress, with_row, collect_all}
use arkiv_storage_service.Query.Server.Page.Sequential.{
  one_by_one, length-with_row, collect_all-one_by_one, full_enough, full_already,
}

abbrev pub rows_of : (ℕ → Option Bytes) → List ℕ → List Bytes
rows_of row [] = []
rows_of row (id ∷ ids) = with_row [] (row id) ++ rows_of row ids

abbrev last_of : ℕ → List ℕ → ℕ
last_of x [] = x
last_of x (y ∷ ys) = last_of y ys

with_row-append :
    (rows : List Bytes) (row : Option Bytes) → with_row rows row ≡ rows ++ with_row [] row
with_row-append rows none = sym (append-nil rows)
with_row-append rows (some d) = refl

pub rows_of-append :
    (row : ℕ → Option Bytes) (xs ys : List ℕ)
    → rows_of row (xs ++ ys) ≡ rows_of row xs ++ rows_of row ys
rows_of-append row [] ys = refl
rows_of-append row (x ∷ xs) ys =
    ap (λ t. with_row [] (row x) ++ t) (rows_of-append row xs ys)
    ∙ sym (append_assoc (with_row [] (row x)) (rows_of row xs) (rows_of row ys))

-- A last element can be split off.
split_last : (x : ℕ) (xs : List ℕ) → (front : List ℕ) × (x ∷ xs ≡ front ++ last_of x xs ∷ [])
split_last x [] = ([], refl)
split_last x (y ∷ ys) = let (front, e) = split_last y ys in (x ∷ front, ap (λ t. x ∷ t) e)

module _ (shown : ℕ → Result (Option Bytes)) (max_results : ℕ) where
  stays :
      (rows : List Bytes) (last_id : Option ℕ) (rest : List ℕ) (p : Progress)
      → length rows ≤ max_results
      → ok (record { rows = rows; last_id = last_id; rest = rest }) ≡ ok p
      → length p.rows ≤ max_results
  stays rows last_id rest p h run =
      let start : Progress = record { rows = rows; last_id = last_id; rest = rest } in
      let is : start ≡ p = cc in subst (λ (p' : Progress). length p'.rows ≤ max_results) is h

  one_by_one-le :
      (rows : List Bytes) (last_id : Option ℕ) (ids : List ℕ) (p : Progress)
      → length rows ≤ max_results
      → one_by_one shown max_results rows last_id ids ≡ ok p
      → length p.rows ≤ max_results
  one_by_one-le rows last_id [] p h run = stays rows last_id [] p h run
  one_by_one-le rows last_id (id ∷ ids) p h run =
      elim (Bool-cases (ltb (length rows) max_results)) [
        | inl e ↦
            let (row, shows, run') =
              >>=-eq-ok (shown id)
                (λ row. one_by_one shown max_results (with_row rows row) (some id) ids)
                (sym (full_enough shown max_results rows last_id id ids (ground (arith, e)))
                  ∙ run) in
            one_by_one-le (with_row rows row) (some id) ids p
              (ground (arith, length-with_row rows row, e)) run'
        | inr e ↦
            stays rows last_id (id ∷ ids) p h
              (sym (full_already shown max_results rows last_id id ids (ground (arith, e))) ∙ run)
      ]

  pub collect_all-le :
      (ids : List ℕ) (p : Progress)
      → collect_all shown max_results ids ≡ ok p
      → length p.rows ≤ max_results
  collect_all-le ids p run =
      one_by_one-le [] none ids p (omega arith)
        (sym (collect_all-one_by_one shown max_results ids) ∙ run)

  module _ (row : ℕ → Option Bytes) (shows : (id : ℕ) → shown id ≡ ok (row id)) where
    one_by_one-step :
        (rows : List Bytes) (last_id : Option ℕ) (id : ℕ) (ids : List ℕ)
        → length rows < max_results
        → one_by_one shown max_results rows last_id (id ∷ ids)
          ≡ one_by_one shown max_results (with_row rows (row id)) (some id) ids
    one_by_one-step rows last_id id ids h =
        full_enough shown max_results rows last_id id ids h ∙ rw (shows id) refl

    -- What was visited after the id `last`, and what is left.
    stop :
        (rows : List Bytes) (last : ℕ) (ids : List ℕ)
        → (p : Progress) × (one_by_one shown max_results rows (some last) ids ≡ ok p)
          × (visited : List ℕ) × (ids ≡ visited ++ p.rest)
          × (p.rows ≡ rows ++ rows_of row visited)
          × (p.last_id ≡ some (last_of last visited))
    stop rows last [] = (
      record { rows = rows; last_id = some last; rest = [] },
      refl,
      [],
      refl,
      sym (append-nil rows),
      refl,
    )
    stop rows last (id ∷ ids) = elim (Bool-cases (ltb (length rows) max_results)) [
      | inl e ↦
          let (p, run, visited, all, is, at) = stop (with_row rows (row id)) id ids in
          (
            p,
            one_by_one-step rows (some last) id ids (ground (arith, e)) ∙ run,
            id ∷ visited,
            ap (λ t. id ∷ t) all,
            is
                ∙ (ap (λ t. t ++ rows_of row visited) (with_row-append rows (row id))
                    ∙ append_assoc rows (with_row [] (row id)) (rows_of row visited)),
            at,
          )
      | inr e ↦ (
        record { rows = rows; last_id = some last; rest = id ∷ ids },
        full_already shown max_results rows (some last) id ids (ground (arith, e)),
        [],
        refl,
        sym (append-nil rows),
        refl,
      )
    ]

    -- A page takes an id at least, shows the entities up to the last one, and leaves the rest.
    pub collect_all-stop :
        0 < max_results
        → (id : ℕ) (ids : List ℕ)
        → (p : Progress) × (collect_all shown max_results (id ∷ ids) ≡ ok p)
          × (front : List ℕ) × (l : ℕ) × (id ∷ ids ≡ front ++ l ∷ p.rest)
          × (p.rows ≡ rows_of row (front ++ l ∷ []))
          × (p.last_id ≡ some l)
    collect_all-stop h id ids =
        let (p, run, visited, all, is, at) = stop (with_row [] (row id)) id ids in
        let (front, e) = split_last id visited in
        (
          p,
          collect_all-one_by_one shown max_results (id ∷ ids)
              ∙ (one_by_one-step [] none id ids h ∙ run),
          front,
          last_of id visited,
          ap (λ t. id ∷ t) all
              ∙ (ap (λ t. t ++ p.rest) e ∙ append_assoc front (last_of id visited ∷ []) p.rest),
          is ∙ ap (rows_of row) e,
          at,
        )
