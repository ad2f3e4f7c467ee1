-- ===== src/Store/Ops/Index.antt =====
-- The index invariant: the bitmap of each annotation pair whose name has no NUL holds exactly the
-- ids of the live entities that have the pair.
use mathlib.Core.Bool.{false≢true}
use arkiv_storage_service.Base.{
  ℕ, ◌≤◌, ◌≡◌, ◌≢◌, refl, sym, ap, subst, ◌∙◌, ◌↔◌, Bool, true, false, ◌==◌, ==_iff, if◌then◌else◌,
  Bool-cases, inl, inr, Option, none, some, ok, arith,
}
use arkiv_storage_service.Bytes.{Bytes, codes, beq, has_prefix}
use arkiv_storage_service.Bytes.Order.{beq_iff}
use arkiv_storage_service.Platform.{Platform}
use arkiv_storage_service.Store.Keys.{no_nul}
use arkiv_storage_service.Store.Entity.{
  Entity, AnnotPair, has_pair, user_annotations, all_annotations,
}
use arkiv_storage_service.Store.Cache.{Codec, CacheStore, cached_bitmap, read_entity_count}
use arkiv_storage_service.Store.Cache.Views.{entity_at}
use arkiv_storage_service.Store.Ops.{entity_id_of}

module _ (P : Platform) (C : Codec) where
  -- Entity `e` is live at `a` with the id `j`.
  pub record Live (c : CacheStore P C) (a : Bytes) (e : Entity) (j : ℕ) : Type 0 where
    pub entity : entity_at P C c a ≡ some e
    pub id : entity_id_of P C c a ≡ ok j

  -- The names of the user's annotations do not begin with `$`.
  abbrev pub IsPlain : Entity → Type 0
  IsPlain e =
      (k v : Bytes)
      → has_prefix (codes "$") k ≡ true
      → has_pair (user_annotations P.text e) (k, v) ≡ false

  pub record IsIndexed (c : CacheStore P C) : Type 0 where
    -- each bitmap that can be read holds the live entities with the pair, where no NUL is in the
    -- pair's name: with one, the pair shares its key with another pair
    pub exact :
        (q : AnnotPair) (bm : P.roaring.Bitmap)
        → no_nul q.0 ≡ true
        → cached_bitmap P C c q ≡ ok bm
        → (j : ℕ)
        → (P.roaring.contains bm j ≡ true) ↔ (
            (a : Bytes) × (e : Entity) × Live c a e j
            × (has_pair (all_annotations P.text e) q ≡ true))
    -- every entity has an id, no greater than the counter, that no other entity has
    pub identified : (a : Bytes) (e : Entity) → entity_at P C c a ≡ some e → (j : ℕ) × Live c a e j
    pub counted :
        (a : Bytes) (e : Entity) (j : ℕ) → Live c a e j → j ≤ read_entity_count P C c.state
    pub unique : (a b : Bytes) (e f : Entity) (j : ℕ) → Live c a e j → Live c b f j → a ≡ b
    pub plain : (a : Bytes) (e : Entity) → entity_at P C c a ≡ some e → IsPlain e

  abbrev pub shows : Option Entity → AnnotPair → Bool
  shows none q = false
  shows (some e) q = has_pair (all_annotations P.text e) q

  abbrev pub IsPlainOption : Option Entity → Type 0
  IsPlainOption none = Unit
  IsPlainOption (some e) = IsPlain e

  -- A step that changes what stands at one address: there it has the id `id`, which no other
  -- entity has, and `new`, which may be nothing; the bitmaps agree.
  pub record Step (c c' : CacheStore P C) (addr : Bytes) (id : ℕ) (new : Option Entity)
      : Type 0 where
    pub entities :
        (b : Bytes) → entity_at P C c' b ≡ (if beq addr b then new else entity_at P C c b)
    pub ids :
        (b : Bytes) → entity_id_of P C c' b ≡ (if beq addr b then ok id else entity_id_of P C c b)
    pub bits :
        (q : AnnotPair) (bm' : P.roaring.Bitmap)
        → no_nul q.0 ≡ true
        → cached_bitmap P C c' q ≡ ok bm'
        → (bm : P.roaring.Bitmap) × (cached_bitmap P C c q ≡ ok bm)
          × ((j : ℕ)
              → P.roaring.contains bm' j
                ≡ (if id == j then shows new q else P.roaring.contains bm j))
    pub own : (e : Entity) (j : ℕ) → Live c addr e j → j ≡ id
    pub fresh : (b : Bytes) (e : Entity) → beq addr b ≡ false → ¬ Live c b e id
    pub grows : read_entity_count P C c.state ≤ read_entity_count P C c'.state
    pub bounded : id ≤ read_entity_count P C c'.state
    pub new_plain : IsPlainOption new

  module _ (c c' : CacheStore P C) (addr : Bytes) (id : ℕ) (new : Option Entity)
      (s : Step c c' addr id new) (h : IsIndexed c) where
    -- Away from the address nothing changed.
    elsewhere : (b : Bytes) (e : Entity) (j : ℕ) → beq addr b ≡ false → Live c' b e j → Live c b e j
    elsewhere b e j other l = record {
      entity = sym (s.entities b ∙ rw other) ∙ l.entity;
      id = sym (s.ids b ∙ rw other) ∙ l.id;
    }

    kept : (b : Bytes) (e : Entity) (j : ℕ) → beq addr b ≡ false → Live c b e j → Live c' b e j
    kept b e j other l = record {
      entity = (s.entities b ∙ rw other) ∙ l.entity;
      id = (s.ids b ∙ rw other) ∙ l.id;
    }

    -- At the address stands the new entity.
    here :
        (b : Bytes) (e : Entity) (j : ℕ)
        → beq addr b ≡ true
        → Live c' b e j
        → (new ≡ some e) × (id ≡ j)
    here b e j same l =
        let p : ok id ≡ ok j = sym (s.ids b ∙ rw same) ∙ l.id in
        (sym (s.entities b ∙ rw same) ∙ l.entity, cc)

    here_intro : (e : Entity) → new ≡ some e → Live c' addr e id
    here_intro e p =
        let same : beq addr addr ≡ true = (beq_iff addr addr).1 refl in
        record { entity = (s.entities addr ∙ rw same) ∙ p; id = s.ids addr ∙ rw same }

    shows-elim :
        (q : AnnotPair)
        → shows new q ≡ true
        → (e : Entity) × (new ≡ some e) × (has_pair (all_annotations P.text e) q ≡ true)
    shows-elim q k = go new refl k
      where
        go :
            (o : Option Entity)
            → new ≡ o
            → shows o q ≡ true
            → (e : Entity) × (new ≡ some e) × (has_pair (all_annotations P.text e) q ≡ true)
        go none p k' = absurd (false≢true k')
        go (some e) p k' = (e, p, k')

    abbrev Holder : AnnotPair → ℕ → CacheStore P C → Type 0
    Holder q j x =
        (a : Bytes) × (e : Entity) × Live x a e j × (has_pair (all_annotations P.text e) q ≡ true)

    -- For the changed id the bitmap says what the new entity shows.
    exact_own : (q : AnnotPair) → (shows new q ≡ true) ↔ Holder q id c'
    exact_own q = (
      λ k. let (e, p, m) = shows-elim q k in (addr, e, here_intro e p, m),
      λ (a, e, l, m). elim (Bool-cases (beq addr a)) [
        | inl same ↦ ap (λ o. shows o q) (here a e id same l).0 ∙ m
        | inr other ↦ absurd (s.fresh a e other (elsewhere a e id other l))
      ],
    )

    -- For every other id it says what it said.
    exact_other : (q : AnnotPair) (j : ℕ) → (id == j) ≡ false → Holder q j c ↔ Holder q j c'
    exact_other q j n = (
      λ (a, e, l, m). elim (Bool-cases (beq addr a)) [
        | inl same ↦
            absurd (
              not_same j n
                (s.own e j (subst (λ x. Live c x e j) (sym ((beq_iff addr a).0 same)) l)))
        | inr other ↦ (a, e, kept a e j other l, m)
      ],
      λ (a, e, l, m). elim (Bool-cases (beq addr a)) [
        | inl same ↦ absurd (not_same j n (sym (here a e j same l).1))
        | inr other ↦ (a, e, elsewhere a e j other l, m)
      ],
    )
      where
        not_same : (i : ℕ) → (id == i) ≡ false → i ≢ id
        not_same i n' e = ground arith

    exact_at :
        (q : AnnotPair) (bm' : P.roaring.Bitmap)
        → no_nul q.0 ≡ true
        → cached_bitmap P C c' q ≡ ok bm'
        → (j : ℕ) → (P.roaring.contains bm' j ≡ true) ↔ Holder q j c'
    exact_at q bm' w k j =
        let (bm, old, m) = s.bits q bm' w k in
        elim (Bool-cases (id == j)) [
          | inl e ↦
              let same : id ≡ j = (==_iff id j).0 e in
              rw (m j) (rw e (subst (λ i. (shows new q ≡ true) ↔ Holder q i c') same (exact_own q)))
          | inr e ↦
              let (there, back) = h.exact q bm w old j in
              let (to, from) = exact_other q j e in
              rw (m j) (rw e (λ x. to (there x), λ x. back (from x)))
        ]

    identified_at : (a : Bytes) (e : Entity) → entity_at P C c' a ≡ some e → (j : ℕ) × Live c' a e j
    identified_at a e p = elim (Bool-cases (beq addr a)) [
      | inl same ↦ (id, record { entity = p; id = s.ids a ∙ rw same })
      | inr other ↦
          let (j, l) = h.identified a e (sym (s.entities a ∙ rw other) ∙ p) in
          (j, kept a e j other l)
    ]

    counted_at :
        (a : Bytes) (e : Entity) (j : ℕ) → Live c' a e j → j ≤ read_entity_count P C c'.state
    counted_at a e j l = elim (Bool-cases (beq addr a)) [
      | inl same ↦ omega (arith, (here a e j same l).1, s.bounded)
      | inr other ↦ omega (arith, h.counted a e j (elsewhere a e j other l), s.grows)
    ]

    alone : (b : Bytes) (f : Entity) (j : ℕ) → id ≡ j → Live c' b f j → addr ≡ b
    alone b f j p l = elim (Bool-cases (beq addr b)) [
      | inl same ↦ (beq_iff addr b).0 same
      | inr other ↦
          absurd (s.fresh b f other (elsewhere b f id other (subst (λ i. Live c' b f i) (sym p) l)))
    ]

    unique_at : (a b : Bytes) (e f : Entity) (j : ℕ) → Live c' a e j → Live c' b f j → a ≡ b
    unique_at a b e f j l l' = elim (Bool-cases (beq addr a)) [
      | inl same ↦ sym ((beq_iff addr a).0 same) ∙ alone b f j (here a e j same l).1 l'
      | inr other ↦ elim (Bool-cases (beq addr b)) [
        | inl same' ↦ sym (alone a e j (here b f j same' l').1 l) ∙ (beq_iff addr b).0 same'
        | inr other' ↦ h.unique a b e f j (elsewhere a e j other l) (elsewhere b f j other' l')
      ]
    ]

    IsPlain-at : (a : Bytes) (e : Entity) → entity_at P C c' a ≡ some e → IsPlain e
    IsPlain-at a e p = elim (Bool-cases (beq addr a)) [
      | inl same ↦ subst IsPlainOption (sym (s.entities a ∙ rw same) ∙ p) s.new_plain
      | inr other ↦ h.plain a e (sym (s.entities a ∙ rw other) ∙ p)
    ]

    -- A step keeps the index invariant.
    pub Step-IsIndexed : IsIndexed c'
    Step-IsIndexed = record {
      exact = exact_at;
      identified = identified_at;
      counted = counted_at;
      unique = unique_at;
      plain = IsPlain-at;
    }
