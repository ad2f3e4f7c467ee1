-- ===== src/Store/Scan/Range.antt =====
-- What a scan finds, in terms of lookups of single pointers.
use mathlib.Core.Bool.{false≢true}
use arkiv_storage_service.Base.{
  ℕ, ◌≡◌, refl, sym, ap, ap₂, ◌∙◌, ◌↔◌, inl, inr, true, false, ◌++◌, drop, length, Option, none,
  some, subst,
}
use arkiv_storage_service.Bytes.{Bytes, AreBytes, lt}
use arkiv_storage_service.Bytes.Order.{has_prefix-append}
use arkiv_storage_service.Platform.{Platform, Occurs}
use arkiv_storage_service.Store.Scan.Loop.{
  split_prefix, lt-append, AreBytes-suffix, scan_sound, scan_complete,
}
use arkiv_storage_service.Store.Scan.{
  Round, break, or_in, load_bitmap_from_pointer, loaded_has, pointer_has, scan,
}

-- every key of the database is a byte string
abbrev pub HasByteKeys : (P : Platform) → P.kv.Db → Type 0
HasByteKeys P db = (k v : Bytes) → P.kv.get db k ≡ some v → AreBytes k

found :
    (P : Platform) (db : P.kv.Db) (pointer : Option Bytes) (i : ℕ)
    → pointer_has P db pointer i ≡ true
    → (hash : Bytes) × (pointer ≡ some hash)
      × (loaded_has P db (load_bitmap_from_pointer P db hash) i ≡ true)
found P db none i l = absurd (false≢true l)
found P db (some hash) i l = (hash, refl, l)

-- What a pointer is found under is a byte string.
pub suffix-AreBytes :
    (P : Platform) (db : P.kv.Db)
    → HasByteKeys P db
    → (p s : Bytes) (i : ℕ) → pointer_has P db (P.kv.get db (p ++ s)) i ≡ true
    → AreBytes s
suffix-AreBytes P db byte_keys p s i l =
    let (hash, got, _) = found P db (P.kv.get db (p ++ s)) i l in
    AreBytes-suffix p s (byte_keys (p ++ s) hash got)

module _ (P : Platform) (db : P.kv.Db) (byte_keys : HasByteKeys P db) (p : Bytes)
    (round : Bytes → Round)
    (stops : (s t : Bytes)
      → AreBytes s
      → AreBytes t
      → round (p ++ s) ≡ break
      → lt s t ≡ true
      → round (p ++ t) ≡ or_in
      → ⊥) where
  -- a key under the prefix
  abbrev Under : Bytes → Type 0
  Under k = (s : Bytes) × (k ≡ p ++ s) × AreBytes s

  stops-Under :
      (k j : Bytes) → Under k → Under j → round k ≡ break → lt k j ≡ true → round j ≡ or_in → ⊥
  stops-Under k j (s, ke, kb) (t, je, jb) b l r =
      stops s t kb jb (ap round (sym ke) ∙ b)
        (sym (lt-append p s t) ∙ (ap₂ lt (sym ke) (sym je) ∙ l)) (ap round (sym je) ∙ r)

  entry_under :
      (start k hash : Bytes)
      → Occurs k hash (P.kv.entries db p start)
      → (s : Bytes) × (k ≡ p ++ s)
        × AreBytes s
        × (lt s start ≡ false)
        × (P.kv.get db (p ++ s) ≡ some hash)
  entry_under start k hash o =
      let (got, pre, above) = (P.kv.Occurs-entries db p start k hash).0 o in
      let s = drop (length p) k in
      let e : k ≡ p ++ s = split_prefix p k pre in
      (
        s,
        e,
        AreBytes-suffix p s (subst AreBytes e (byte_keys k hash got)),
        sym (lt-append p s start) ∙ (ap (λ j. lt j (p ++ start)) (sym e) ∙ above),
        ap (P.kv.get db) (sym e) ∙ got,
      )

  -- A scan finds `i` if and only if it is in the bitmap of a pointer from the start on that the
  -- loop takes in.
  pub scan_iff :
      (start : Bytes) (i : ℕ)
      → (P.roaring.contains (scan P db round P.roaring.empty (P.kv.entries db p start)) i ≡ true)
        ↔ ((s : Bytes) × AreBytes s
            × (round (p ++ s) ≡ or_in)
            × (lt s start ≡ false)
            × (pointer_has P db (P.kv.get db (p ++ s)) i ≡ true))
  scan_iff start i =
      let es = P.kv.entries db p start in
      (
        λ h. elim (scan_sound P db round P.roaring.empty es i h) [
          | inl c ↦ absurd (false≢true (sym (P.roaring.contains-empty i) ∙ c))
          | inr (k, hash, o, r, l) ↦
              let (s, e, bytes, above, got) = entry_under start k hash o in
              (s, bytes, ap round (sym e) ∙ r, above, ap (λ f. pointer_has P db f i) got ∙ l)
        ],
        λ (s, bytes, r, above, l).
            let (hash, got, l') = found P db (P.kv.get db (p ++ s)) i l in
            let o : Occurs (p ++ s) hash es =
              (P.kv.Occurs-entries db p start (p ++ s) hash).1
                (got, has_prefix-append p s, lt-append p s start ∙ above) in
            scan_complete P db round Under stops-Under P.roaring.empty es i
              (P.kv.entries-Ascending db p start)
              (λ k hash o. let (s, e, bytes, _, _) = entry_under start k hash o in (s, e, bytes))
              (inr (p ++ s, hash, o, r, l')),
      )
