-- ===== src/Roaring/Sample.antt =====
-- A set of numbers as a list: it shows that what is asked of `roaring64` can be met.
use arkiv_storage_service.Base.{
  zero, suc, ◌+◌, ◌-◌, ◌<◌, ◌≡◌, ◌∙◌, true, ltb, leb, length, Bool-cases, inl, inr, ◌||◌, ℕ, refl,
  sym, not, ◌&&◌, ◌==◌, if◌then◌else◌, some, List, [], ◌∷◌, ◌++◌, any-append, arith,
}
use arkiv_storage_service.Base.Descending.{has, filter, has-filter, below, below_mono, Descending}
use arkiv_storage_service.Bytes.{Bytes}
use arkiv_storage_service.Roaring.{Roaring}

-- a descending list, with one element more
abbrev pub insert_desc : ℕ → List ℕ → List ℕ
insert_desc i [] = i ∷ []
insert_desc i (x ∷ xs) =
    let rest = insert_desc i xs in
    if i == x then x ∷ xs else if ltb x i then i ∷ x ∷ xs else x ∷ rest

abbrev pub sort_desc : List ℕ → List ℕ
sort_desc [] = []
sort_desc (x ∷ xs) = insert_desc x (sort_desc xs)

has-insert_desc : (i : ℕ) (xs : List ℕ) (j : ℕ) → has (insert_desc i xs) j ≡ (i == j || has xs j)
has-insert_desc i [] j = ground arith
has-insert_desc i (x ∷ xs) j = ground (arith, has-insert_desc i xs j)

below-insert_desc :
    (i m : ℕ) (xs : List ℕ) → i < m → below m xs ≡ true → below m (insert_desc i xs) ≡ true
below-insert_desc i m [] h b = ground arith
below-insert_desc i m (x ∷ xs) h b = ground (arith, below-insert_desc i m xs)

insert_desc-Descending : (i : ℕ) (xs : List ℕ) → Descending xs → Descending (insert_desc i xs)
insert_desc-Descending i [] d = (refl, tt)
insert_desc-Descending i (x ∷ xs) d = elim (Bool-cases (i == x)) [
  | inl e ↦ rw e d
  | inr e ↦ rw e (elim (Bool-cases (ltb x i)) [
    | inl l ↦ rw l (ground (arith, below_mono x i xs), d)
    | inr l ↦ rw l (below-insert_desc i x xs (ground arith) d.0, insert_desc-Descending i xs d.1)
  ])
]

pub has-sort_desc : (xs : List ℕ) (j : ℕ) → has (sort_desc xs) j ≡ has xs j
has-sort_desc [] j = refl
has-sort_desc (x ∷ xs) j = ground (arith, has-insert_desc x (sort_desc xs) j, has-sort_desc xs j)

pub sort_desc-Descending : (xs : List ℕ) → Descending (sort_desc xs)
sort_desc-Descending [] = tt
sort_desc-Descending (x ∷ xs) = insert_desc-Descending x (sort_desc xs) (sort_desc-Descending xs)

-- `n` numbers from `lo` on
abbrev pub count_up : ℕ → ℕ → List ℕ
count_up lo zero = []
count_up lo (suc n) = lo ∷ count_up (suc lo) n

has-count_up : (lo n i : ℕ) → has (count_up lo n) i ≡ (leb lo i && ltb i (lo + n))
has-count_up lo zero i = ground arith
has-count_up lo (suc n) i = ground (arith, has-count_up (suc lo) n i)

pub has-add_range :
    (b : List ℕ) (lo hi i : ℕ)
    → has (count_up lo (hi - lo) ++ b) i ≡ ((leb lo i && ltb i hi) || has b i)
has-add_range b lo hi i =
    any-append (λ x. x == i) (count_up lo (hi - lo)) b ∙ ground (arith, has-count_up lo (hi - lo) i)

pub has-and : (a b : List ℕ) (i : ℕ) → has (filter (has b) a) i ≡ (has a i && has b i)
has-and a b i = ground (arith, has-filter (has b) a i)

pub has-and_not :
    (a b : List ℕ) (i : ℕ) → has (filter (λ x. not (has b x)) a) i ≡ (has a i && not (has b i))
has-and_not a b i = ground (arith, has-filter (λ x. not (has b x)) a i)

pub has-remove :
    (b : List ℕ) (i j : ℕ) → has (filter (λ x. not (i == x)) b) j ≡ (not (i == j) && has b j)
has-remove b i j = has-filter (λ x. not (i == x)) b j

pub some_sym : (b d : Bytes) → some b ≡ some d → some d ≡ some b
some_sym b d h = sym h

abbrev pub list_roaring : Roaring
list_roaring = record {
  Bitmap = List ℕ;
  contains = has;
  empty = [];
  add = λ b i. i ∷ b;
  add_range = λ b lo hi. count_up lo (hi - lo) ++ b;
  reverse = sort_desc;
  cardinality = λ b. length (sort_desc b);
  remove = λ b i. filter (λ x. not (i == x)) b;
  or = λ a b. a ++ b;
  and = λ a b. filter (has b) a;
  and_not = λ a b. filter (λ x. not (has b x)) a;
  marshal = λ b. some b;
  unmarshal = λ d. some d;
  contains-empty = λ i. refl;
  contains-add = λ b i j. refl;
  contains-remove = has-remove;
  contains-add_range = has-add_range;
  any-reverse = has-sort_desc;
  reverse-Descending = sort_desc-Descending;
  cardinality-length = λ b. refl;
  contains-or = λ a b i. any-append (λ x. x == i) a b;
  contains-and = has-and;
  contains-and_not = has-and_not;
  unmarshal-marshal = some_sym;
}
