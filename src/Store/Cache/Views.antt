-- ===== src/Store/Cache/Views.antt =====
-- What the write buffer shows: its entities and its bitmaps, cached or loaded.
use arkiv_storage_service.Base.{
  ◌≡◌, ◌⊎◌, refl, sym, ap, ap₂, subst, ◌∙◌, Bool, true, false, [], length, ◌==◌, if◌then◌else◌,
  Bool-cases, inl, inr, Option, none, some, ok, >>=-eq-ok, arith,
}
use arkiv_storage_service.Base.Assoc
use arkiv_storage_service.Base.Assoc.{lookup-insert, lookup-without}
use arkiv_storage_service.Bytes.{Bytes, beq}
use arkiv_storage_service.Platform.{Platform}
use arkiv_storage_service.Store.Entity.{Entity, AnnotPair, same_pair}
use arkiv_storage_service.Store.Cache.{
  bytes_eq, pair_eq, Codec, CacheStore, get_entity, or_load, cached_bitmap, mutate_bitmap,
}

module _ (P : Platform) (C : Codec) where
  abbrev pub or_decode : Bytes → Option Entity → Option Entity
  or_decode code (some e) = some e
  or_decode code none = if length code == 0 then none else C.decode_entity code

  -- The entity at an address, as `getEntity` finds it.
  unfoldable pub entity_at : CacheStore P C → Bytes → Option Entity
  entity_at c addr =
      or_decode (P.state_db.get_code c.state addr) (Assoc.lookup bytes_eq addr c.dirty_entities)

  -- `c'` differs from `c` in its cached bitmaps at most.
  pub record Frame (c c' : CacheStore P C) : Type 0 where
    pub same_staging : c'.staging_db ≡ c.staging_db
    pub same_state : c'.state ≡ c.state
    pub same_entities : c'.dirty_entities ≡ c.dirty_entities
    pub same_number : c'.block_number ≡ c.block_number

  pub Frame-refl : (c : CacheStore P C) → Frame c c
  Frame-refl c = record {
    same_staging = refl;
    same_state = refl;
    same_entities = refl;
    same_number = refl;
  }

  pub Frame-trans : (a b c : CacheStore P C) → Frame a b → Frame b c → Frame a c
  Frame-trans a b c f g = record {
    same_staging = g.same_staging ∙ f.same_staging;
    same_state = g.same_state ∙ f.same_state;
    same_entities = g.same_entities ∙ f.same_entities;
    same_number = g.same_number ∙ f.same_number;
  }

  pub entity_at-Frame :
      (c c' : CacheStore P C) (a : Bytes) → Frame c c' → entity_at c' a ≡ entity_at c a
  unfolding entity_at
  entity_at-Frame c c' a f = rw (f.same_entities, f.same_state)

  -- `getEntity` returns the entity at the address, and changes nothing but the entity cache, where
  -- what it adds is what it found.
  pub record Fetched (c c' : CacheStore P C) (addr : Bytes) (e : Entity) : Type 0 where
    pub found : entity_at c addr ≡ some e
    pub same_views : (b : Bytes) → entity_at c' b ≡ entity_at c b
    pub same_staging : c'.staging_db ≡ c.staging_db
    pub same_state : c'.state ≡ c.state
    pub same_bitmaps : c'.dirty_bitmaps ≡ c.dirty_bitmaps
    pub same_number : c'.block_number ≡ c.block_number

  decode_if :
      (b : Bool) (e : Entity) (code : Bytes) (o : Option Entity)
      → or_decode code (if b then some e else o) ≡ (if b then some e else or_decode code o)
  decode_if true e code o = refl
  decode_if false e code o = refl

  decode_gone :
      (b : Bool) (code : Bytes) (o : Option Entity)
      → or_decode (if b then [] else code) (if b then none else o)
        ≡ (if b then none else or_decode code o)
  decode_gone true code o = refl
  decode_gone false code o = refl

  -- Writing an entity to the cache shows it at its address.
  pub entity_at-insert :
      (c : CacheStore P C) (a b : Bytes) (e : Entity)
      → entity_at (record c { dirty_entities = Assoc.insert bytes_eq a e c.dirty_entities }) b
        ≡ (if beq a b then some e else entity_at c b)
  unfolding entity_at
  entity_at-insert c a b e =
      ap (or_decode (P.state_db.get_code c.state b)) (lookup-insert bytes_eq a b e c.dirty_entities)
      ∙ decode_if (beq a b) e (P.state_db.get_code c.state b)
          (Assoc.lookup bytes_eq b c.dirty_entities)

  -- Code that is gone and a cache without the entity show nothing at its address.
  pub entity_at-without :
      (c c' : CacheStore P C) (a b : Bytes)
      → P.state_db.get_code c'.state b ≡ (if beq a b then [] else P.state_db.get_code c.state b)
      → c'.dirty_entities ≡ Assoc.without bytes_eq a c.dirty_entities
      → entity_at c' b ≡ (if beq a b then none else entity_at c b)
  unfolding entity_at
  entity_at-without c c' a b code gone =
      ap₂ or_decode code
        (ap (Assoc.lookup bytes_eq b) gone ∙ lookup-without bytes_eq a b c.dirty_entities)
      ∙ decode_gone (beq a b) (P.state_db.get_code c.state b)
          (Assoc.lookup bytes_eq b c.dirty_entities)

  pub entity_at-put :
      (c c' : CacheStore P C) (a b : Bytes) (e : Entity)
      → (beq a b ≡ false → P.state_db.get_code c'.state b ≡ P.state_db.get_code c.state b)
      → c'.dirty_entities ≡ Assoc.insert bytes_eq a e c.dirty_entities
      → entity_at c' b ≡ (if beq a b then some e else entity_at c b)
  unfolding entity_at
  entity_at-put c c' a b e code put =
      ap (λ x. or_decode (P.state_db.get_code c'.state b) (Assoc.lookup bytes_eq b x)) put
      ∙ (ap (or_decode (P.state_db.get_code c'.state b))
            (lookup-insert bytes_eq a b e c.dirty_entities)
          ∙ elim (Bool-cases (beq a b)) [
            | inl same ↦ rw same
            | inr other ↦
                rw other
                  (ap (λ x. or_decode x (Assoc.lookup bytes_eq b c.dirty_entities)) (code other))
          ])

  insert_found :
      (c : CacheStore P C) (a b : Bytes) (e : Entity)
      → entity_at c a ≡ some e
      → (if beq a b then some e else entity_at c b) ≡ entity_at c b
  insert_found c a b e h = elim (Bool-cases (beq a b)) [
    | inl same ↦ rw same (sym h ∙ ap (entity_at c) ((bytes_eq.same_iff a b).0 same))
    | inr other ↦ rw other
  ]

  -- What `getEntity` does where the cache has no entity, by what the trie has.
  fetch_decoded :
      (c : CacheStore P C) (addr : Bytes) {e : Entity} {c' : CacheStore P C}
      → get_entity P C c addr ≡ ok (e, c')
      → entity_at c addr ≡ some e
  unfolding get_entity entity_at
  fetch_decoded c addr h = ground arith

  fetch_store :
      (c : CacheStore P C) (addr : Bytes) {e : Entity} {c' : CacheStore P C}
      → get_entity P C c addr ≡ ok (e, c')
      → (c' ≡ c)
        ⊎ (c' ≡ record c { dirty_entities = Assoc.insert bytes_eq addr e c.dirty_entities })
  unfolding get_entity
  fetch_store c addr h = ground arith

  pub get_entity-Fetched :
      (c : CacheStore P C) (addr : Bytes) {e : Entity} {c' : CacheStore P C}
      → get_entity P C c addr ≡ ok (e, c')
      → Fetched c c' addr e
  get_entity-Fetched c addr {e} {c'} h =
      let found = fetch_decoded c addr h in
      elim (fetch_store c addr h) [
        | inl q ↦ record {
          found = found;
          same_views = λ b. rw q;
          same_staging = rw q;
          same_state = rw q;
          same_bitmaps = rw q;
          same_number = rw q;
        }
        | inr q ↦ record {
          found = found;
          same_views = λ b. rw q (entity_at-insert c addr b e ∙ insert_found c addr b e found);
          same_staging = rw q;
          same_state = rw q;
          same_bitmaps = rw q;
          same_number = rw q;
        }
      ]

  load_if :
      (c : CacheStore P C) (q : AnnotPair) (b : Bool) (bm : P.roaring.Bitmap)
      (o : Option P.roaring.Bitmap)
      → or_load P C c.staging_db q (if b then some bm else o)
        ≡ (if b then ok bm else or_load P C c.staging_db q o)
  load_if c q true bm o = refl
  load_if c q false bm o = refl

  cached_bitmap-insert :
      (c : CacheStore P C) (p q : AnnotPair) (bm : P.roaring.Bitmap)
      → cached_bitmap P C (record c { dirty_bitmaps = Assoc.insert pair_eq p bm c.dirty_bitmaps }) q
        ≡ (if same_pair p q then ok bm else cached_bitmap P C c q)
  unfolding cached_bitmap
  cached_bitmap-insert c p q bm =
      ap (or_load P C c.staging_db q) (lookup-insert pair_eq p q bm c.dirty_bitmaps)
      ∙ load_if c q (same_pair p q) bm (Assoc.lookup pair_eq q c.dirty_bitmaps)

  -- One bitmap changes, and nothing else.
  pub record Mutated (c c' : CacheStore P C) (p : AnnotPair)
      (f : P.roaring.Bitmap → P.roaring.Bitmap) : Type 0 where
    pub frame : Frame c c'
    pub before : P.roaring.Bitmap
    pub loaded : cached_bitmap P C c p ≡ ok before
    pub after :
        (q : AnnotPair)
        → cached_bitmap P C c' q ≡ (if same_pair p q then ok (f before) else cached_bitmap P C c q)

  pub mutate_bitmap-Mutated :
      (c : CacheStore P C) (p : AnnotPair) (f : P.roaring.Bitmap → P.roaring.Bitmap)
      {c' : CacheStore P C}
      → mutate_bitmap P C c p f ≡ ok c'
      → Mutated c c' p f
  unfolding mutate_bitmap
  mutate_bitmap-Mutated c p f {c'} h =
      let (bm, found, e) = >>=-eq-ok (cached_bitmap P C c p) _ h in
      let q : record c { dirty_bitmaps = Assoc.insert pair_eq p (f bm) c.dirty_bitmaps } ≡ c' =
        cc in
      record {
        frame = subst (Frame c) q (record {
          same_staging = refl;
          same_state = refl;
          same_entities = refl;
          same_number = refl;
        });
        before = bm;
        loaded = found;
        after = λ r. ap (λ x. cached_bitmap P C x r) (sym q) ∙ cached_bitmap-insert c p r (f bm);
      }
