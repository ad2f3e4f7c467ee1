-- ===== src/Store/Ops/Effect.antt =====
-- Steps at an entity that is there: what Update, Delete, Extend and Transfer have in common.
use mathlib.Core.Bool.{false≢true}
use arkiv_storage_service.Base.{
  ℕ, ◌≡◌, refl, sym, ap, subst, ◌∙◌, Bool, true, false, ◌==◌, ==_iff, if◌then◌else◌, Bool-cases,
  inl, inr, Option, some, ok, arith,
}
use arkiv_storage_service.Bytes.{Bytes, beq}
use arkiv_storage_service.Bytes.Order.{beq_iff}
use arkiv_storage_service.Platform.{Platform}
use arkiv_storage_service.Store.Keys.{no_nul}
use arkiv_storage_service.Store.Entity.{Entity, AnnotPair, has_pair, all_annotations}
use arkiv_storage_service.Store.Cache.{Codec, CacheStore, cached_bitmap, read_entity_count}
use arkiv_storage_service.Store.Cache.Views.{entity_at, Fetched}
use arkiv_storage_service.Store.Ops.{entity_id_of}
use arkiv_storage_service.Store.Ops.Views.{Changed}
use arkiv_storage_service.Store.Ops.Index.{Live, IsIndexed, IsPlainOption, shows, Step}

pub Bool-eq : (a b : Bool) → (a ≡ true → b ≡ true) → (b ≡ true → a ≡ true) → a ≡ b
Bool-eq true true f g = refl
Bool-eq true false f g = sym (f refl)
Bool-eq false true f g = g refl
Bool-eq false false f g = refl

module _ (P : Platform) (C : Codec) where
  pub entity_id_of-staging :
      (c c' : CacheStore P C) (b : Bytes)
      → c'.staging_db ≡ c.staging_db
      → entity_id_of P C c' b ≡ entity_id_of P C c b
  unfolding entity_id_of
  entity_id_of-staging c c' b e = rw e

  pub cached_bitmap-same :
      (c c' : CacheStore P C) (q : AnnotPair)
      → c'.staging_db ≡ c.staging_db
      → c'.dirty_bitmaps ≡ c.dirty_bitmaps
      → cached_bitmap P C c' q ≡ cached_bitmap P C c q
  unfolding cached_bitmap
  cached_bitmap-same c c' q e e' = rw (e, e')

  module _ (c : CacheStore P C) (h : IsIndexed P C c) (addr : Bytes) (e : Entity) (id : ℕ)
      (l : Live P C c addr e id) where
    pub own_id : (e' : Entity) (j : ℕ) → Live P C c addr e' j → j ≡ id
    own_id e' j l' = let p : ok id ≡ ok j = sym l.id ∙ l'.id in let q : id ≡ j = cc in sym q

    pub other_id : (b : Bytes) (e' : Entity) → beq addr b ≡ false → ¬ Live P C c b e' id
    other_id b e' other l' =
        false≢true (sym other ∙ (beq_iff addr b).1 (h.unique addr b e e' id l l'))

    -- The bit of the entity tells its pairs.
    pub own_bit :
        (q : AnnotPair) (bm : P.roaring.Bitmap)
        → no_nul q.0 ≡ true
        → cached_bitmap P C c q ≡ ok bm
        → P.roaring.contains bm id ≡ has_pair (all_annotations P.text e) q
    own_bit q bm w k =
        Bool-eq (P.roaring.contains bm id) (has_pair (all_annotations P.text e) q)
          (λ x.
            let (a, e', l', m) = (h.exact q bm w k id).0 x in
            let at : addr ≡ a = h.unique addr a e e' id l l' in
            let there : some e ≡ some e' = sym l.entity ∙ (ap (entity_at P C c) at ∙ l'.entity) in
            let same : e' ≡ e = cc in
            ap (λ y. has_pair (all_annotations P.text y) q) (sym same) ∙ m)
          (λ m. (h.exact q bm w k id).1 (addr, e, l, m))

    -- A buffer `c'` whose bitmaps come from those of `c` by `g`, which sets the bit of the entity to
    -- what `new` shows.
    pub Step-of :
        (c' : CacheStore P C) (new : Option Entity) (g : AnnotPair → ℕ → Bool → Bool)
        → ((q : AnnotPair) (bm' : P.roaring.Bitmap)
            → cached_bitmap P C c' q ≡ ok bm'
            → (bm : P.roaring.Bitmap) × (cached_bitmap P C c q ≡ ok bm)
              × ((j : ℕ) → P.roaring.contains bm' j ≡ g q j (P.roaring.contains bm j)))
        → ((q : AnnotPair) → g q id (has_pair (all_annotations P.text e) q) ≡ shows P C new q)
        → ((q : AnnotPair) (j : ℕ) (x : Bool) → (id == j) ≡ false → g q j x ≡ x)
        → c'.staging_db ≡ c.staging_db
        → ((b : Bytes) → entity_at P C c' b ≡ (if beq addr b then new else entity_at P C c b))
        → read_entity_count P C c'.state ≡ read_entity_count P C c.state
        → IsPlainOption P C new
        → Step P C c c' addr id new
    Step-of c' new g bits at_id elsewhere staging entities count plain = record {
      entities = entities;
      ids = λ b. entity_id_of-staging c c' b staging ∙ id_if b;
      bits = λ q bm' w k.
          let (bm, k', m) = bits q bm' k in
          (
            bm,
            k',
            λ j. elim (Bool-cases (id == j)) [
              | inl same ↦
                  let at : id ≡ j = (==_iff id j).0 same in
                  rw same (
                    m j
                    ∙ subst (λ i. g q i (P.roaring.contains bm i) ≡ shows P C new q) at
                        (ap (g q id) (own_bit q bm w k') ∙ at_id q))
              | inr other ↦ rw other (m j ∙ elsewhere q j (P.roaring.contains bm j) other)
            ],
          );
      own = own_id;
      fresh = other_id;
      grows = omega (arith, count);
      bounded = omega (arith, count, h.counted addr e id l);
      new_plain = plain;
    }
      where
        id_if :
            (b : Bytes)
            → entity_id_of P C c b ≡ (if beq addr b then ok id else entity_id_of P C c b)
        id_if b = elim (Bool-cases (beq addr b)) [
          | inl same ↦ rw same (ap (entity_id_of P C c) (sym ((beq_iff addr b).0 same)) ∙ l.id)
          | inr other ↦ rw other
        ]

  -- What is known once the entity and its id have been read.
  pub Live-of :
      (c c₁ : CacheStore P C) (addr : Bytes) (e : Entity) (id : ℕ)
      → Fetched P C c c₁ addr e
      → entity_id_of P C c₁ addr ≡ ok id
      → Live P C c addr e id
  Live-of c c₁ addr e id f k = record {
    entity = f.found;
    id = sym (entity_id_of-staging c c₁ addr f.same_staging) ∙ k;
  }

  -- The bitmaps of a later buffer, traced back over the changed ones to those before the read.
  pub trace :
      (c c₁ c₂ c' : CacheStore P C) (addr : Bytes) (e : Entity) (g : AnnotPair → ℕ → Bool → Bool)
      → Fetched P C c c₁ addr e
      → Changed P C c₁ c₂ g
      → c'.staging_db ≡ c₂.staging_db
      → c'.dirty_bitmaps ≡ c₂.dirty_bitmaps
      → (q : AnnotPair) (bm' : P.roaring.Bitmap) → cached_bitmap P C c' q ≡ ok bm'
      → (bm : P.roaring.Bitmap) × (cached_bitmap P C c q ≡ ok bm)
        × ((j : ℕ) → P.roaring.contains bm' j ≡ g q j (P.roaring.contains bm j))
  trace c c₁ c₂ c' addr e g f m s d q bm' k =
      let (bm, k', n) = m.bits q bm' (sym (cached_bitmap-same c₂ c' q s d) ∙ k) in
      (bm, sym (cached_bitmap-same c c₁ q f.same_staging f.same_bitmaps) ∙ k', n)
