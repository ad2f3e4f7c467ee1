-- ===== src/Version/Settings.antt =====
-- The loop over the build's settings, one field at a time.
use arkiv_storage_service.Base.{
  ◌≡◌, refl, sym, ap, ◌∙◌, ◌⊎◌, inl, inr, Bool, true, false, List, [], ◌∷◌, foldl, Option, none,
  some, if◌then◌else◌, Bool-cases,
}
use arkiv_storage_service.Bytes.{Bytes, codes, beq}
use arkiv_storage_service.Bytes.Order.{beq_iff}
use arkiv_storage_service.Version.{
  Strings, Setting, Info, unknown, known_or, set_or, with_modified, with_setting, parse_bool,
}

-- the values of the settings with a key, in their order
abbrev pub values_of : Bytes → List Setting → List Bytes
values_of key [] = []
values_of key (s ∷ ss) =
    let rest = values_of key ss in if beq s.key key then s.value ∷ rest else rest

-- the first value that is known
abbrev pub first_known : List Bytes → Bytes
first_known [] = unknown
first_known (v ∷ vs) = known_or v (first_known vs)

abbrev pub last_or : Bytes → List Bytes → Bytes
last_or d [] = d
last_or d (v ∷ vs) = last_or v vs

-- the first value that reads as a truth value
abbrev pub first_bool : Strings → List Bytes → Option Bool
first_bool S [] = none
first_bool S (v ∷ vs) = set_or (parse_bool S v) (first_bool S vs)

-- the last value that reads as one
abbrev pub last_bool : Strings → List Bytes → Option Bool
last_bool S [] = none
last_bool S (v ∷ vs) = set_or (last_bool S vs) (parse_bool S v)

known_or-unknown : (c : Bytes) → known_or c unknown ≡ c
known_or-unknown c = elim (Bool-cases (beq c unknown)) [
  | inl e ↦ rw e (sym ((beq_iff c unknown).0 e))
  | inr e ↦ rw e refl
]

known_or_assoc : (a b c : Bytes) → known_or (known_or a b) c ≡ known_or a (known_or b c)
known_or_assoc a b c = elim (Bool-cases (beq a unknown)) [
  | inl e ↦ rw e refl
  | inr e ↦ rw (e, e) refl
]

set_or_assoc : (a b c : Option Bool) → set_or (set_or a b) c ≡ set_or a (set_or b c)
set_or_assoc none b c = refl
set_or_assoc (some a) b c = refl

pub set_or-none : (a : Option Bool) → set_or a none ≡ a
set_or-none none = refl
set_or-none (some a) = refl

-- a setting has one of the three keys, or none of them
key-cases :
    (k : Bytes)
    → ((beq k (codes "vcs.revision") ≡ true)
        × (beq k (codes "vcs.time") ≡ false)
        × (beq k (codes "vcs.modified") ≡ false))
      ⊎ ((beq k (codes "vcs.revision") ≡ false)
          × (beq k (codes "vcs.time") ≡ true)
          × (beq k (codes "vcs.modified") ≡ false))
      ⊎ ((beq k (codes "vcs.revision") ≡ false)
          × (beq k (codes "vcs.time") ≡ false)
          × (beq k (codes "vcs.modified") ≡ true))
      ⊎ ((beq k (codes "vcs.revision") ≡ false)
          × (beq k (codes "vcs.time") ≡ false)
          × (beq k (codes "vcs.modified") ≡ false))
unfolding beq
key-cases k = elim (Bool-cases (beq k (codes "vcs.revision"))) [
  | inl e ↦ rw ((beq_iff k (codes "vcs.revision")).0 e) (inl (refl, refl, refl))
  | inr e ↦ elim (Bool-cases (beq k (codes "vcs.time"))) [
    | inl f ↦ rw ((beq_iff k (codes "vcs.time")).0 f) (inr (inl (refl, refl, refl)))
    | inr f ↦ elim (Bool-cases (beq k (codes "vcs.modified"))) [
      | inl g ↦ inr (inr (inl (e, f, g)))
      | inr g ↦ inr (inr (inr (e, f, g)))
    ]
  ]
]

-- `with_modified` writes neither texts nor versions.
with_modified-texts :
    (info : Info) (p : Option Bool)
    → ((with_modified info p).commit ≡ info.commit)
      × ((with_modified info p).build_time ≡ info.build_time)
      × ((with_modified info p).vcs_revision ≡ info.vcs_revision)
      × ((with_modified info p).vcs_time ≡ info.vcs_time)
with_modified-texts info none = (refl, refl, refl, refl)
with_modified-texts info (some b) = (refl, refl, refl, refl)

with_modified-truths :
    (info : Info) (p : Option Bool)
    → ((with_modified info p).dirty ≡ set_or info.dirty p)
      × ((with_modified info p).vcs_modified ≡ set_or p info.vcs_modified)
with_modified-truths info none = (sym (set_or-none info.dirty), refl)
with_modified-truths info (some b) = (refl, refl)

first_known-if :
    (b : Bool) (v : Bytes) (vs : List Bytes)
    → first_known (if b then v ∷ vs else vs) ≡ known_or (if b then v else unknown) (first_known vs)
unfolding beq
first_known-if true v vs = refl
first_known-if false v vs = refl

known_or-step :
    (old after v : Bytes) (b : Bool) (vs : List Bytes)
    → after ≡ known_or old (if b then v else unknown)
    → known_or after (first_known vs) ≡ known_or old (first_known (if b then v ∷ vs else vs))
known_or-step old after v b vs h =
    ap (λ c. known_or c (first_known vs)) h
    ∙ known_or_assoc old (if b then v else unknown) (first_known vs)
    ∙ ap (known_or old) (sym (first_known-if b v vs))

last_or-if :
    (d v : Bytes) (b : Bool) (vs : List Bytes)
    → last_or (if b then v else d) vs ≡ last_or d (if b then v ∷ vs else vs)
last_or-if d v true vs = refl
last_or-if d v false vs = refl

module _ (S : Strings) where
  with_setting-texts :
      (info : Info) (s : Setting)
      → ((with_setting S info s).commit
          ≡ known_or info.commit (if beq s.key (codes "vcs.revision") then s.value else unknown))
        × ((with_setting S info s).build_time
            ≡ known_or info.build_time (if beq s.key (codes "vcs.time") then s.value else unknown))
        × ((with_setting S info s).vcs_revision
            ≡ (if beq s.key (codes "vcs.revision") then s.value else info.vcs_revision))
        × ((with_setting S info s).vcs_time
            ≡ (if beq s.key (codes "vcs.time") then s.value else info.vcs_time))
  unfolding with_setting
  with_setting-texts info s =
      let old = sym (known_or-unknown info.commit) in
      let built = sym (known_or-unknown info.build_time) in
      let m = with_modified-texts info (parse_bool S s.value) in
      elim (key-cases s.key) [
        | inl (e, f, g) ↦ rw (e, f) (refl, built, refl, refl)
        | inr (inl (e, f, g)) ↦ rw (e, f) (old, refl, refl, refl)
        | inr (inr (inl (e, f, g))) ↦ rw (e, f, g) (m.0 ∙ old, m.1 ∙ built, m.2, m.3)
        | inr (inr (inr (e, f, g))) ↦ rw (e, f, g) (old, built, refl, refl)
      ]

  with_setting-truths :
      (info : Info) (s : Setting)
      → ((with_setting S info s).dirty
          ≡ set_or info.dirty
              (if beq s.key (codes "vcs.modified") then parse_bool S s.value else none))
        × ((with_setting S info s).vcs_modified
            ≡ set_or
                (if beq s.key (codes "vcs.modified") then parse_bool S s.value else none)
                info.vcs_modified)
  unfolding with_setting
  with_setting-truths info s =
      let old = sym (set_or-none info.dirty) in
      elim (key-cases s.key) [
        | inl (e, f, g) ↦ rw (e, g) (old, refl)
        | inr (inl (e, f, g)) ↦ rw (e, f, g) (old, refl)
        | inr (inr (inl (e, f, g))) ↦
            rw (e, f, g) (with_modified-truths info (parse_bool S s.value))
        | inr (inr (inr (e, f, g))) ↦ rw (e, f, g) (old, refl)
      ]

  pub foldl-texts :
      (info : Info) (ss : List Setting)
      → ((foldl (with_setting S) info ss).commit
          ≡ known_or info.commit (first_known (values_of (codes "vcs.revision") ss)))
        × ((foldl (with_setting S) info ss).build_time
            ≡ known_or info.build_time (first_known (values_of (codes "vcs.time") ss)))
        × ((foldl (with_setting S) info ss).vcs_revision
            ≡ last_or info.vcs_revision (values_of (codes "vcs.revision") ss))
        × ((foldl (with_setting S) info ss).vcs_time
            ≡ last_or info.vcs_time (values_of (codes "vcs.time") ss))
  foldl-texts info [] =
      (sym (known_or-unknown info.commit), sym (known_or-unknown info.build_time), refl, refl)
  foldl-texts info (s ∷ ss) =
      let (c, b, r, t) = foldl-texts (with_setting S info s) ss in
      let (c₁, b₁, r₁, t₁) = with_setting-texts info s in
      let revisions = values_of (codes "vcs.revision") ss in
      let times = values_of (codes "vcs.time") ss in
      (
        c ∙ known_or-step info.commit _ s.value (beq s.key (codes "vcs.revision")) revisions c₁,
        b ∙ known_or-step info.build_time _ s.value (beq s.key (codes "vcs.time")) times b₁,
        r
            ∙ ap (λ d. last_or d revisions) r₁
            ∙ last_or-if info.vcs_revision s.value (beq s.key (codes "vcs.revision")) revisions,
        t
            ∙ ap (λ d. last_or d times) t₁
            ∙ last_or-if info.vcs_time s.value (beq s.key (codes "vcs.time")) times,
      )

  first_bool-if :
      (b : Bool) (v : Bytes) (vs : List Bytes)
      → first_bool S (if b then v ∷ vs else vs)
        ≡ set_or (if b then parse_bool S v else none) (first_bool S vs)
  first_bool-if true v vs = refl
  first_bool-if false v vs = refl

  last_bool-if :
      (b : Bool) (v : Bytes) (vs : List Bytes)
      → last_bool S (if b then v ∷ vs else vs)
        ≡ set_or (last_bool S vs) (if b then parse_bool S v else none)
  last_bool-if true v vs = refl
  last_bool-if false v vs = sym (set_or-none (last_bool S vs))

  pub foldl-truths :
      (info : Info) (ss : List Setting)
      → ((foldl (with_setting S) info ss).dirty
          ≡ set_or info.dirty (first_bool S (values_of (codes "vcs.modified") ss)))
        × ((foldl (with_setting S) info ss).vcs_modified
            ≡ set_or (last_bool S (values_of (codes "vcs.modified") ss)) info.vcs_modified)
  foldl-truths info [] = (sym (set_or-none info.dirty), refl)
  foldl-truths info (s ∷ ss) =
      let (d, m) = foldl-truths (with_setting S info s) ss in
      let (d₁, m₁) = with_setting-truths info s in
      let b = beq s.key (codes "vcs.modified") in
      let vs = values_of (codes "vcs.modified") ss in
      let p = if b then parse_bool S s.value else none in
      (
        d
            ∙ ap (λ o. set_or o (first_bool S vs)) d₁
            ∙ set_or_assoc info.dirty p (first_bool S vs)
            ∙ ap (set_or info.dirty) (sym (first_bool-if b s.value vs)),
        m
            ∙ ap (set_or (last_bool S vs)) m₁
            ∙ sym (set_or_assoc (last_bool S vs) p info.vcs_modified)
            ∙ ap (λ o. set_or o info.vcs_modified) (sym (last_bool-if b s.value vs)),
      )
