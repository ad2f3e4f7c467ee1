-- ===== src/Base/Descending.antt =====
-- Lists of numbers in strictly descending order: sets that are read from the greatest element on.
use Prim.Native.Nat.{ℕ, ◌≤◌, ◌<◌}
use mathlib.Core.Path.{◌≡◌, refl, sym, ap, ◌∙◌}
use mathlib.Core.Bool.{Bool, true, ◌&&◌}
use mathlib.Core.Logic.{inl, inr}
use mathlib.Core.List.{List, [], ◌∷◌, ◌++◌}
use native.Mathlib.Omega.{arith}
use arkiv_storage_service.Base.Tests.{ltb, ◌==◌, if◌then◌else◌, Bool-cases}
use arkiv_storage_service.Base.Lists.{any, all}

abbrev pub below : ℕ → List ℕ → Bool
below m xs = all (λ x. ltb x m) xs

abbrev pub Descending : List ℕ → Type 0
Descending [] = Unit
Descending (x ∷ xs) = (below x xs ≡ true) × Descending xs

abbrev pub has : List ℕ → ℕ → Bool
has xs i = any (λ x. x == i) xs

abbrev pub filter : (ℕ → Bool) → List ℕ → List ℕ
filter p [] = []
filter p (x ∷ xs) = if p x then x ∷ filter p xs else filter p xs

pub has-filter : (p : ℕ → Bool) (xs : List ℕ) (i : ℕ) → has (filter p xs) i ≡ (p i && has xs i)
has-filter p [] i = ground arith
has-filter p (x ∷ xs) i = ground (arith, has-filter p xs i, λ (e : x ≡ i). ap p e)

pub below_mono : (m n : ℕ) (xs : List ℕ) → m ≤ n → below m xs ≡ true → below n xs ≡ true
below_mono m n [] h b = refl
below_mono m n (x ∷ xs) h b = ground (arith, below_mono m n xs h)

pub has-below : (m i : ℕ) (xs : List ℕ) → below m xs ≡ true → has xs i ≡ true → i < m
has-below m i [] b h = cc
has-below m i (x ∷ xs) b h = ground (arith, has-below m i xs)

below-filter :
    (p : ℕ → Bool) (m : ℕ) (xs : List ℕ) → below m xs ≡ true → below m (filter p xs) ≡ true
below-filter p m [] b = refl
below-filter p m (x ∷ xs) b = ground (arith, below-filter p m xs)

pub filter-Descending : (p : ℕ → Bool) (xs : List ℕ) → Descending xs → Descending (filter p xs)
filter-Descending p [] d = tt
filter-Descending p (x ∷ xs) d = elim (Bool-cases (p x)) [
  | inl e ↦ rw e (below-filter p x xs d.0, filter-Descending p xs d.1)
  | inr e ↦ rw e (filter-Descending p xs d.1)
]

-- the greatest element is determined by the set
head_same :
    (x y : ℕ) (xs ys : List ℕ)
    → below x xs ≡ true
    → below y ys ≡ true
    → ((i : ℕ) → has (x ∷ xs) i ≡ has (y ∷ ys) i)
    → x ≡ y
head_same x y xs ys bx by h = ground (arith, h x, h y, has-below x y xs bx, has-below y x ys by)

tails_same :
    (x : ℕ) (xs ys : List ℕ)
    → below x xs ≡ true
    → below x ys ≡ true
    → ((i : ℕ) → has (x ∷ xs) i ≡ has (x ∷ ys) i)
    → (i : ℕ) → has xs i ≡ has ys i
tails_same x xs ys bx by h i = ground (arith, h i, has-below x i xs bx, has-below x i ys by)

-- Descending lists with the same elements are equal.
pub Descending-unique :
    (xs ys : List ℕ) → Descending xs → Descending ys → ((i : ℕ) → has xs i ≡ has ys i) → xs ≡ ys
Descending-unique [] [] dx dy h = refl
Descending-unique [] (y ∷ ys) dx dy h = ground (arith, h y)
Descending-unique (x ∷ xs) [] dx dy h = ground (arith, h x)
Descending-unique (x ∷ xs) (y ∷ ys) dx dy h =
    let e : x ≡ y = head_same x y xs ys dx.0 dy.0 h in
    let by : below x ys ≡ true = ap (λ m. below m ys) e ∙ dy.0 in
    let h' : (i : ℕ) → has (x ∷ xs) i ≡ has (x ∷ ys) i =
      λ i. h i ∙ ap (λ m. has (m ∷ ys) i) (sym e) in
    ap (λ t. x ∷ t) (Descending-unique xs ys dx.1 dy.1 (tails_same x xs ys dx.0 by h'))
    ∙ ap (λ m. m ∷ ys) e

filter_all : (m : ℕ) (xs : List ℕ) → below m xs ≡ true → filter (λ x. ltb x m) xs ≡ xs
filter_all m [] b = refl
filter_all m (x ∷ xs) b = ground (arith, filter_all m xs)

below-middle : (m l : ℕ) (front rest : List ℕ) → below m (front ++ l ∷ rest) ≡ true → l < m
below-middle m l [] rest b = ground arith
below-middle m l (x ∷ front) rest b = ground (arith, below-middle m l front rest)

-- What stands below an element is what comes after it.
pub filter-after :
    (front : List ℕ) (l : ℕ) (rest : List ℕ)
    → Descending (front ++ l ∷ rest)
    → filter (λ x. ltb x l) (front ++ l ∷ rest) ≡ rest
filter-after [] l rest d = ground (arith, filter_all l rest d.0)
filter-after (x ∷ front) l rest d =
    ground (arith, filter-after front l rest d.1, below-middle x l front rest d.0)
