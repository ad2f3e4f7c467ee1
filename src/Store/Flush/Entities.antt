-- ===== src/Store/Flush/Entities.antt =====
-- After the flush the trie alone shows what the buffer showed.
use arkiv_storage_service.Base.{
  ◌≡◌, sym, ap, ◌∙◌, false, List, [], ◌∷◌, length, ◌==◌, Bool-cases, Option-cases, inl, inr, none,
  some, ok, >>=-eq-ok, arith,
}
use arkiv_storage_service.Base.Assoc
use arkiv_storage_service.Bytes.{Bytes, beq}
use arkiv_storage_service.Platform.{Platform}
use arkiv_storage_service.Store.Entity.{Entity}
use arkiv_storage_service.Store.Cache.{bytes_eq, Codec, CacheStore}
use arkiv_storage_service.Store.Cache.Views.{or_decode, entity_at}
use arkiv_storage_service.Store.Flush.{encode_entity, write_codes, flush_entities}

module _ (P : Platform) (C : Codec) where
  -- What is encoded is not empty, and decodes to the entity.
  abbrev pub IsRoundTrip : Type 0
  IsRoundTrip =
      (e : Entity) (d : Bytes)
      → C.encode_entity e ≡ some d
      → ((length d == 0) ≡ false) × (C.decode_entity d ≡ some e)

  module _ (round_trip : IsRoundTrip) where
    decode_encoded :
        (e : Entity) (d : Bytes) → encode_entity P C e ≡ ok d → or_decode P C d none ≡ some e
    unfolding encode_entity
    decode_encoded e d h = elim (Option-cases (C.encode_entity e)) [
      | inl p ↦ ground (arith, p)
      | inr (x, p) ↦
          let same : x ≡ d = ground (arith, p) in
          let (full, back) = round_trip e x p in
          ap (λ y. or_decode P C y none) (sym same) ∙ (rw full back)
    ]

    write_codes-lookup :
        (s s' : P.state_db.State) (entities : List (Bytes × Entity)) (a : Bytes)
        → write_codes P C s entities ≡ ok s'
        → or_decode P C (P.state_db.get_code s' a) none
          ≡ or_decode P C (P.state_db.get_code s a) (Assoc.lookup bytes_eq a entities)
    unfolding write_codes Assoc.lookup
    write_codes-lookup s s' [] a h =
        let same : s ≡ s' = cc in ap (λ x. or_decode P C (P.state_db.get_code x a) none) (sym same)
    write_codes-lookup s s' ((b, e) ∷ entities) a h =
        let (s₁, first, h₁) = >>=-eq-ok (write_codes P C s entities) _ h in
        let (d, coded, h₂) = >>=-eq-ok (encode_entity P C e) _ h₁ in
        let same : P.state_db.set_code s₁ b d ≡ s' = cc in
        ap (λ x. or_decode P C (P.state_db.get_code x a) none) (sym same)
        ∙ (ap (λ x. or_decode P C x none) (P.state_db.get_code-set_code s₁ b a d)
            ∙ elim (Bool-cases (beq b a)) [
              | inl at ↦ rw at (decode_encoded e d coded)
              | inr other ↦ rw other (write_codes-lookup s s₁ entities a first)
            ])

    -- A flush that succeeds leaves in the trie, at every address, the entity that the buffer showed
    -- there, with no need of the cache; what is encoded must be decoded again, and not be empty.
    pub flush_entities-entity_at :
        (c c' : CacheStore P C) (a : Bytes)
        → flush_entities P C c ≡ ok c'
        → entity_at P C (record c' { dirty_entities = [] }) a ≡ entity_at P C c a
    unfolding flush_entities entity_at Assoc.lookup
    flush_entities-entity_at c c' a h =
        let (s', written, h₁) = >>=-eq-ok (write_codes P C c.state c.dirty_entities) _ h in
        let same : record c { state = s' } ≡ c' = cc in
        ap (λ x. or_decode P C (P.state_db.get_code (CacheStore.state x) a) none) (sym same)
        ∙ write_codes-lookup c.state s' c.dirty_entities a written
