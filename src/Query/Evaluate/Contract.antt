-- ===== src/Query/Evaluate/Contract.antt =====
-- What the evaluator asks of a store, and what a term means over an index: `index key value i` says
-- that a lookup finds entity `i` under `key` with `value`, `scanned` that a scan of the strings of
-- `key` meets it there, and `live i` that it is alive.
use arkiv_storage_service.Base.{
  ℕ, ◌≤◌, ◌<◌, ◌≡◌, ◌↔◌, Bool, true, false, not, Option, none, some, any, length, ltb,
  if◌then◌else◌, ok,
}
use arkiv_storage_service.Bytes.{Bytes, AreBytes, lt, has_prefix}
use arkiv_storage_service.Bytes.BigEndian.{max_uint64}
use arkiv_storage_service.Roaring.{Roaring}
use arkiv_storage_service.Store.Glob.{glob_match}
use arkiv_storage_service.Store.Glob.Matches.{Matches}
use arkiv_storage_service.Query.Language.{
  Value, string, number, Values, Term, assign, inclusion, less_than, less_or_equal_than,
  greater_than, greater_or_equal_than, glob,
}
use arkiv_storage_service.Query.Evaluate.{StoreQuerier, numeric_annot_val, annot_val}

-- `s` lies above an optional bound, which belongs to the range if `incl` is true.
abbrev pub above : Option Bytes → Bool → Bytes → Bool
above none incl s = true
above (some lo) true s = not (lt s lo)
above (some lo) false s = lt lo s

abbrev pub under : Option Bytes → Bool → Bytes → Bool
under none incl s = true
under (some hi) true s = not (lt hi s)
under (some hi) false s = lt s hi

module _ (R : Roaring) (q : StoreQuerier R) (at : ℕ) (index scanned : Bytes → Bytes → ℕ → Bool)
    (live : ℕ → Bool) where
  pub record Serves : Type 0 where
    pub read :
        (k v : Bytes)
        → (b : R.Bitmap) × (q.read_annot_bitmap at k v ≡ ok b)
          × ((i : ℕ) → R.contains b i ≡ index k v i)
    pub everything :
        (b : R.Bitmap) × (q.all_entities at ≡ ok b) × ((i : ℕ) → R.contains b i ≡ live i)
    pub numeric :
        (k : Bytes) (lo hi i : ℕ)
        → lo ≤ max_uint64
        → (R.contains (q.iterate_numeric k lo hi) i ≡ true) ↔ (
            (n : ℕ) × (lo ≤ n)
            × (n ≤ hi)
            × (n ≤ max_uint64)
            × (index k (numeric_annot_val n) i ≡ true))
    pub strings :
        (k : Bytes) (lo : Option Bytes) (lo_incl : Bool) (hi : Option Bytes) (hi_incl : Bool)
        (i : ℕ)
        → (R.contains (q.iterate_string k lo lo_incl hi hi_incl) i ≡ true) ↔ (
            (s : Bytes) × (above lo lo_incl s ≡ true)
            × (under hi hi_incl s ≡ true)
            × (scanned k s i ≡ true))
    pub prefixes :
        (k p : Bytes) (i : ℕ)
        → AreBytes p
        → (R.contains (q.iterate_prefix k p) i ≡ true)
          ↔ ((s : Bytes) × (has_prefix p s ≡ true) × (scanned k s i ≡ true))
    pub globs :
        (k p : Bytes) (i : ℕ)
        → (R.contains (q.iterate_glob k p) i ≡ true)
          ↔ ((s : Bytes) × (glob_match p s ≡ true) × (scanned k s i ≡ true))

-- A number is a `uint64`, and a pattern is a string of bytes.
abbrev pub FitsValue : Value → Type 0
FitsValue (string s) = Unit
FitsValue (number n) = n ≤ max_uint64

abbrev pub FitsTerm : Term → Type 0
FitsTerm (less_than c) = FitsValue c.value
FitsTerm (less_or_equal_than c) = FitsValue c.value
FitsTerm (greater_than c) = FitsValue c.value
FitsTerm (greater_or_equal_than c) = FitsValue c.value
FitsTerm (glob e) = AreBytes e.value
FitsTerm t = Unit

module _ (index scanned : Bytes → Bytes → ℕ → Bool) (live : ℕ → Bool) (i : ℕ) where
  -- A negation is among the live entities.
  abbrev pub Negated : Bool → Type 0 → Type 0
  Negated true P = (live i ≡ true) × (¬ P)
  Negated false P = P

  -- some string under `k` that passes the test, as the scans see it
  abbrev pub SomeString : Bytes → (Bytes → Bool) → Type 0
  SomeString k test = (s : Bytes) × (test s ≡ true) × (scanned k s i ≡ true)

  abbrev pub SomeNumber : Bytes → (ℕ → Type 0) → Type 0
  SomeNumber k P = (n : ℕ) × P n × (n ≤ max_uint64) × (index k (numeric_annot_val n) i ≡ true)

  abbrev pub has_one : Bytes → Values → Bool
  has_one k values =
      if ltb 0 (length values.strings)
      then any (λ s. index k s i) values.strings
      else any (λ n. index k (numeric_annot_val n) i) values.numbers

  abbrev pub Less : Bytes → Value → Type 0
  Less k (string s) = SomeString k (λ x. lt x s)
  Less k (number n) = SomeNumber k (λ m. m < n)

  abbrev pub LessOrEqual : Bytes → Value → Type 0
  LessOrEqual k (string s) = SomeString k (λ x. not (lt s x))
  LessOrEqual k (number n) = SomeNumber k (λ m. m ≤ n)

  abbrev pub Greater : Bytes → Value → Type 0
  Greater k (string s) = SomeString k (λ x. lt s x)
  Greater k (number n) = SomeNumber k (λ m. n < m)

  abbrev pub GreaterOrEqual : Bytes → Value → Type 0
  GreaterOrEqual k (string s) = SomeString k (λ x. not (lt x s))
  GreaterOrEqual k (number n) = SomeNumber k (λ m. n ≤ m)

  -- When entity `i` is in the answer to a term.
  abbrev pub Meaning : Term → Type 0
  Meaning (assign e) = Negated e.is_not (index e.var (annot_val e.value) i ≡ true)
  Meaning (inclusion e) = Negated e.is_not (has_one e.var e.values ≡ true)
  Meaning (less_than e) = Less e.var e.value
  Meaning (less_or_equal_than e) = LessOrEqual e.var e.value
  Meaning (greater_than e) = Greater e.var e.value
  Meaning (greater_or_equal_than e) = GreaterOrEqual e.var e.value
  Meaning (glob e) = Negated e.is_not ((s : Bytes) × Matches e.value s × (scanned e.var s i ≡ true))
