-- ===== src/Query/Serving/Synced.antt =====
-- A store whose pointers follow its trie serves the index of its pointers.
use arkiv_storage_service.Base.{
  ℕ, Bool, ◌&&◌, ◌≡◌, refl, sym, ap, ◌∙◌, true, false, ◌∷◌, length, ◌==◌, if◌then◌else◌, none, some,
  ok, Bool-cases, inl, inr, arith,
}
use arkiv_storage_service.Bytes.{Bytes, codes, beq}
use arkiv_storage_service.Platform.{Platform}
use arkiv_storage_service.Store.Keys.{annot_key, bitmap_key}
use arkiv_storage_service.Store.Cache.{Codec, zero_hash, system_address}
use arkiv_storage_service.Store.Flush.{annot_slot_key}
use arkiv_storage_service.Store.Reading.{
  Store, open_state_at, bitmap_of_slot, read_annot_bitmap, all_entities,
}
use arkiv_storage_service.Store.Scan.{load_bitmap_from_pointer, loaded_has, pointer_has, indexed}
use arkiv_storage_service.Store.Scan.Range.{HasByteKeys}
use arkiv_storage_service.Store.Scan.Numbers.{iterate_numeric_annot_bitmaps_iff}
use arkiv_storage_service.Store.Scan.Strings.{
  has_one_byte, iterate_string_annot_bitmaps_iff, iterate_prefix_annot_bitmaps_iff,
}
use arkiv_storage_service.Store.Scan.Globs.{iterate_glob_annot_bitmaps_iff}
use arkiv_storage_service.Query.Evaluate.{numeric_annot_val}
use arkiv_storage_service.Query.Evaluate.Contract.{Serves}
use arkiv_storage_service.Query.Serving.{store_querier}

-- What the scans for strings read of a database: not the pointers of empty values.
abbrev pub scanned_index : (P : Platform) → P.kv.Db → Bytes → Bytes → ℕ → Bool
scanned_index P db k v i = has_one_byte v && indexed P db k v i

module _ (P : Platform) (C : Codec) (s : Store P C) where
  open P use {state_db.{State}}

  abbrev pub slot : State → Bytes → Bytes → Bytes
  slot sdb key val = P.state_db.get_state sdb (system_address P C) (annot_slot_key P C key val)

  -- The state of the head can be opened. Each pointer is the slot of its pair, absent for a zero
  -- slot, and leads to a bitmap that can be read.
  pub record IsSynced (sdb : State) : Type 0 where
    pub opens : open_state_at P C s 0 ≡ ok sdb
    pub pointer :
        (k v : Bytes)
        → P.kv.get s.raw_db (annot_key k v)
          ≡ (if beq (slot sdb k v) zero_hash then none else some (slot sdb k v))
    pub blob :
        (k v : Bytes)
        → beq (slot sdb k v) zero_hash ≡ false
        → (length (slot sdb k v) ≡ 32)
          × (c : ℕ) × (d : Bytes) × (b : P.roaring.Bitmap) × (P.kv.get s.raw_db
                (bitmap_key (slot sdb k v))
              ≡ some (c ∷ d))
          × (P.roaring.unmarshal (c ∷ d) ≡ some b)

  loads :
      (h : Bytes) (c : ℕ) (d : Bytes) (b : P.roaring.Bitmap)
      → length h ≡ 32
      → P.kv.get s.raw_db (bitmap_key h) ≡ some (c ∷ d)
      → P.roaring.unmarshal (c ∷ d) ≡ some b
      → load_bitmap_from_pointer P s.raw_db h ≡ some b
  unfolding load_bitmap_from_pointer
  loads h c d b long got reads =
      let fits : (length h == 32) ≡ true = ground (arith, long) in
      let there : (length (c ∷ d) == 0) ≡ false = ground arith in rw fits (rw got (rw there reads))

  module _ (sdb : State) (S : IsSynced sdb) where
    read :
        (k v : Bytes)
        → (b : P.roaring.Bitmap) × (read_annot_bitmap P C s 0 k v ≡ ok b)
          × ((i : ℕ) → P.roaring.contains b i ≡ indexed P s.raw_db k v i)
    unfolding read_annot_bitmap bitmap_of_slot
    read k v = elim (Bool-cases (beq (slot sdb k v) zero_hash)) [
      | inl e ↦
          let none_there : P.kv.get s.raw_db (annot_key k v) ≡ none = S.pointer k v ∙ rw e refl in
          (
            P.roaring.empty,
            rw (S.opens) (rw e refl),
            λ i. P.roaring.contains-empty i ∙ ap (λ p. pointer_has P s.raw_db p i) (sym none_there),
          )
      | inr e ↦
          let (long, c, d, b, got, reads) = S.blob k v e in
          let there : P.kv.get s.raw_db (annot_key k v) ≡ some (slot sdb k v) =
            S.pointer k v ∙ rw e refl in
          (
            b,
            rw (S.opens) (rw e (rw got (rw reads refl))),
            λ i.
                ap (λ l. loaded_has P s.raw_db l i)
                  (sym (loads (slot sdb k v) c d b long got reads))
                ∙ ap (λ p. pointer_has P s.raw_db p i) (sym there),
          )
    ]

    -- Over a store that is synced with its trie and whose database has byte strings as keys, the
    -- queries at the head read the index of the pointers, the scans for strings and patterns read
    -- it without the empty values, and the live entities are those under `$all`.
    pub store_querier-Serves :
        HasByteKeys P s.raw_db
        → Serves P.roaring
            (store_querier P C s)
            0
            (indexed P s.raw_db)
            (scanned_index P s.raw_db)
            (indexed P s.raw_db (codes "$all") (codes "true"))
    unfolding store_querier all_entities numeric_annot_val
    store_querier-Serves byte_keys = record {
      read = read;
      everything = read (codes "$all") (codes "true");
      numeric = iterate_numeric_annot_bitmaps_iff P s.raw_db byte_keys;
      strings = λ k lo lo_incl hi hi_incl i.
          let (to, back) =
            iterate_string_annot_bitmaps_iff P s.raw_db byte_keys k lo lo_incl hi hi_incl i in
          (
            λ h. let (t, one, a, u, x) = to h in (t, a, u, rw one x),
            λ (t, a, u, x). let (one, y) = scanned_index-elim k t i x in back (t, one, a, u, y),
          );
      prefixes = λ k p i bytes.
          let (to, back) = iterate_prefix_annot_bitmaps_iff P s.raw_db byte_keys k p i bytes in
          (
            λ h. let (t, one, m, x) = to h in (t, m, rw one x),
            λ (t, m, x). let (one, y) = scanned_index-elim k t i x in back (t, one, m, y),
          );
      globs = λ k p i.
          let (to, back) = iterate_glob_annot_bitmaps_iff P s.raw_db byte_keys k p i in
          (
            λ h. let (t, one, m, x) = to h in (t, m, rw one x),
            λ (t, m, x). let (one, y) = scanned_index-elim k t i x in back (t, one, m, y),
          );
    }
      where
        scanned_index-elim :
            (k t : Bytes) (i : ℕ)
            → scanned_index P s.raw_db k t i ≡ true
            → (has_one_byte t ≡ true) × (indexed P s.raw_db k t i ≡ true)
        scanned_index-elim k t i x = (ground (arith, x), ground (arith, x))
