-- ===== src/Store/Revert/Pointers.antt =====
-- After a revert, the pointer of each pair is the slot of the trie that it went back to.
use arkiv_storage_service.Base.{
  ℕ, ◌≡◌, refl, sym, ap, ap₂, ◌∙◌, ◌⊎◌, Bool, true, false, not, List, [], ◌∷◌, ◌++◌, all-append,
  append_assoc, drop, length, if◌then◌else◌, Option, none, some, ok, >>=-eq-ok, Bool-cases, inl,
  inr, arith, subst, ◌==◌,
}
use arkiv_storage_service.Bytes.{Bytes, beq, has_prefix}
use arkiv_storage_service.Bytes.Order.{beq_iff, beq_refl, not-lt-of-has_prefix}
use arkiv_storage_service.Platform.{Platform, Occurs}
use arkiv_storage_service.Types.{ArkivBlockRef}
use arkiv_storage_service.Store.Keys.{
  prefix_annot, prefix_pairs, prefix_id, split_pair, annot_key, pairs_key, no_nul, head_key,
}
use arkiv_storage_service.Store.Keys.Laws.{split_pair-append, joined_injective, regroup}
use arkiv_storage_service.Store.Scan.Loop.{drop-append}
use arkiv_storage_service.Store.Cache.{Codec, zero_hash, system_address}
use arkiv_storage_service.Store.Flush.{annot_slot_key}
use arkiv_storage_service.Store.Reading.{Store}
use arkiv_storage_service.Store.Revert.{
  Write, put, delete, write, write_batch, annot_write, pair_writes, annot_writes, repopulate_annot,
  repopulate_ids, repopulate, forget_blocks, id_writes, revert_past,
}
use arkiv_storage_service.Store.Revert.Steps.{revert_past_steps, write_batch-append, head_write}
use arkiv_storage_service.Store.Revert.Untouched.{
  target, avoids, get-write, get-write_batch, avoids-id_writes, avoids-forget_blocks,
}

abbrev nothing_before : Bytes → Option (Bytes × Bytes)
nothing_before s = some ([], s)

abbrev longer : ℕ → Option (Bytes × Bytes) → Option (Bytes × Bytes)
longer c rest = elim rest [ some (k, v) ↦ some (c ∷ k, v) | none ↦ none ]

-- The name that is read off a pairs key has no NUL.
split_pair-no_nul : (s k v : Bytes) → split_pair s ≡ some (k, v) → no_nul k ≡ true
unfolding split_pair
split_pair-no_nul [] k v h = cc
split_pair-no_nul (c ∷ s) k v h =
    go (c == 0) (split_pair s) refl (λ k' v' e. split_pair-no_nul s k' v' e) h
  where
    go :
        (z : Bool) (rest : Option (Bytes × Bytes))
        → (c == 0) ≡ z
        → ((k' v' : Bytes) → rest ≡ some (k', v') → no_nul k' ≡ true)
        → (if z then nothing_before s else longer c rest) ≡ some (k, v)
        → no_nul k ≡ true
    go true rest z n e =
        let is : [] ≡ k =
          ap (λ (x : Option (Bytes × Bytes)). elim x [ some (k', v') ↦ k' | none ↦ k ]) e in
        ap no_nul (sym is)
    go false none z n e = cc
    go false (some (k', v')) z n e =
        let is : c ∷ k' ≡ k =
          ap (λ (x : Option (Bytes × Bytes)). elim x [ some (k'', v'') ↦ k'' | none ↦ k ]) e in
        ap no_nul (sym is) ∙ ground (arith, z, n k' v' refl)

head_not_annot : (key val : Bytes) → beq head_key (annot_key key val) ≡ false
unfolding beq annot_key
head_not_annot key val = refl

pairs_key-prefix : (key val : Bytes) → has_prefix prefix_pairs (pairs_key key val) ≡ true
unfolding has_prefix pairs_key
pairs_key-prefix key val = refl

module _ (P : Platform) (C : Codec) where
  open P use {kv.{Db}, state_db.{State}}

  -- the pointer that a slot stands for
  abbrev pub slot_pointer : State → Bytes → Bytes → Option Bytes
  slot_pointer sdb key val =
      let hash = P.state_db.get_state sdb (system_address P C) (annot_slot_key P C key val) in
      if beq hash zero_hash then none else some hash

  module _ (sdb : State) (key val : Bytes) (named : no_nul key ≡ true) where
    abbrev Settled : Db → Type 0
    Settled db = P.kv.get db (annot_key key val) ≡ slot_pointer sdb key val

    annot_write-Settled : (db : Db) → Settled (write P C db (annot_write P C sdb key val))
    unfolding annot_write
    annot_write-Settled db =
        let hash = P.state_db.get_state sdb (system_address P C) (annot_slot_key P C key val) in
        go hash (beq hash zero_hash)
      where
        go :
            (hash : Bytes) (zero : Bool)
            → P.kv.get
                (write P C db
                  (if zero then delete (annot_key key val) else put (annot_key key val) hash))
                (annot_key key val)
              ≡ (if zero then none else some hash)
        go hash true =
            P.kv.get-delete db (annot_key key val) (annot_key key val)
            ∙ rw (beq_refl (annot_key key val)) refl
        go hash false =
            P.kv.get-put db (annot_key key val) (annot_key key val) hash
            ∙ rw (beq_refl (annot_key key val)) refl

    target-annot_write :
        (key' val' : Bytes) → target (annot_write P C sdb key' val') ≡ annot_key key' val'
    unfolding annot_write
    target-annot_write key' val' =
        let hash = P.state_db.get_state sdb (system_address P C) (annot_slot_key P C key' val') in
        go hash (beq hash zero_hash)
      where
        go :
            (hash : Bytes) (zero : Bool)
            → target (if zero then delete (annot_key key' val') else put (annot_key key' val') hash)
              ≡ annot_key key' val'
        go hash true = refl
        go hash false = refl

    -- The write of a pair sets this pointer, or leaves it.
    one_write :
        (db : Db) (key' val' : Bytes)
        → no_nul key' ≡ true
        → Settled (write P C db (annot_write P C sdb key' val'))
          ⊎ (P.kv.get (write P C db (annot_write P C sdb key' val')) (annot_key key val)
              ≡ P.kv.get db (annot_key key val))
    unfolding annot_key
    one_write db key' val' h =
        elim (Bool-cases (beq (target (annot_write P C sdb key' val')) (annot_key key val))) [
          | inl e ↦
              let same : annot_key key' val' ≡ annot_key key val =
                sym (target-annot_write key' val') ∙ (beq_iff _ (annot_key key val)).0 e in
              let (k, v) = joined_injective prefix_annot key' val' key val h named same in
              inl (
                ap₂
                  (λ k' v'. P.kv.get (write P C db (annot_write P C sdb k' v')) (annot_key key val))
                  k v
                ∙ annot_write-Settled db)
          | inr e ↦ inr (get-write P C db (annot_write P C sdb key' val') (annot_key key val) e)
        ]

    one_round :
        (db : Db) (k : Bytes)
        → Settled (write_batch P C db (pair_writes P C sdb k))
          ⊎ (P.kv.get (write_batch P C db (pair_writes P C sdb k)) (annot_key key val)
              ≡ P.kv.get db (annot_key key val))
    unfolding pair_writes write_batch
    one_round db k =
        go (split_pair (drop (length prefix_pairs) k))
          (λ k' v' e. split_pair-no_nul (drop (length prefix_pairs) k) k' v' e)
      where
        go :
            (o : Option (Bytes × Bytes))
            → ((k' v' : Bytes) → o ≡ some (k', v') → no_nul k' ≡ true)
            → Settled (
                write_batch P C db
                  (elim o [ none ↦ [] | some (k', v') ↦ annot_write P C sdb k' v' ∷ [] ]))
              ⊎ (P.kv.get
                    (write_batch P C db
                      (elim o [ none ↦ [] | some (k', v') ↦ annot_write P C sdb k' v' ∷ [] ]))
                    (annot_key key val)
                  ≡ P.kv.get db (annot_key key val))
        go none n = inr refl
        go (some (k', v')) n = one_write db k' v' (n k' v' refl)

    own_round : (db : Db) → Settled (write_batch P C db (pair_writes P C sdb (pairs_key key val)))
    unfolding pair_writes write_batch pairs_key
    own_round db =
        let suffix : drop (length prefix_pairs) (((prefix_pairs ++ key) ++ 0 ∷ []) ++ val)
            ≡ key ++ 0 ∷ val =
          ap (drop (length prefix_pairs)) (regroup prefix_pairs key val)
          ∙ drop-append prefix_pairs (key ++ 0 ∷ val) in
        let split = ap split_pair suffix ∙ split_pair-append key val named in
        rw split (annot_write-Settled db)

    settle :
        (db : Db) (es : List (Bytes × Bytes)) (w : Bytes)
        → Settled db ⊎ Occurs (pairs_key key val) w es
        → Settled (write_batch P C db (annot_writes P C sdb es))
    unfolding annot_writes write_batch
    settle db [] w (inl h) = h
    settle db [] w (inr o) = absurd o
    settle db ((k, v) ∷ es) w h =
        ap (λ d. P.kv.get d (annot_key key val))
          (write_batch-append P C db (pair_writes P C sdb k) (annot_writes P C sdb es))
        ∙ settle (write_batch P C db (pair_writes P C sdb k)) es w (elim h [
          | inl settled ↦ elim (one_round db k) [ inl s ↦ inl s | inr same ↦ inl (same ∙ settled) ]
          | inr (inl is) ↦ inl (
              subst (λ j. Settled (write_batch P C db (pair_writes P C sdb j))) is.0 (own_round db))
          | inr (inr o) ↦ inr o
        ])

    -- the writes of a revert after those of the pointers
    abbrev others : List Write → List ArkivBlockRef → Write → List Write
    others ids refs head = ids ++ (forget_blocks P C refs ++ head ∷ [])

    avoids-others :
        (ids : List Write) (refs : List ArkivBlockRef) (record' : Bytes)
        → avoids (annot_key key val) ids ≡ true
        → avoids (annot_key key val) (others ids refs (put head_key record')) ≡ true
    avoids-others ids refs record' h = ground (
      arith,
      all-append (λ w. not (beq (target w) (annot_key key val))) ids
          (forget_blocks P C refs ++ put head_key record' ∷ []),
      all-append (λ w. not (beq (target w) (annot_key key val))) (forget_blocks P C refs)
          (put head_key record' ∷ []),
      h,
      avoids-forget_blocks P C key val refs,
      head_not_annot key val,
    )

  repopulate-split :
      (raw : Db) (sdb : State) (ws : List Write)
      → repopulate P C raw sdb ≡ ok ws
      → (ids : List Write) × (id_writes P C sdb (P.kv.entries raw prefix_id []) ≡ ok ids)
        × (repopulate_annot P C raw sdb ++ ids ≡ ws)
  unfolding repopulate repopulate_ids
  repopulate-split raw sdb ws run =
      let (ids, e, run') =
        >>=-eq-ok (id_writes P C sdb (P.kv.entries raw prefix_id []))
          (λ ids. ok (repopulate_annot P C raw sdb ++ ids)) run in
      (ids, e, cc)

  -- After a revert that succeeds, the pointer of every recorded pair is the slot of the pair in
  -- the state that the store went back to, or is gone if that slot is zero, for names without a
  -- NUL.
  pub revert_past-pointer :
      (s s' : Store P C) (oldest : ArkivBlockRef) (refs : List ArkivBlockRef)
      → revert_past P C s oldest refs ≡ ok s'
      → (key val w : Bytes) → no_nul key ≡ true
      → P.kv.get s.raw_db (pairs_key key val) ≡ some w
      → (sdb : State) × (P.state_db.state_new (P.kv.get s.raw_db) s'.head_root ≡ some sdb)
        × (P.kv.get s'.raw_db (annot_key key val) ≡ slot_pointer sdb key val)
  unfolding repopulate_annot
  revert_past-pointer s s' oldest refs run key val w named there =
      let (parent, sdb, ws, _, opens, r, is) = revert_past_steps P C s oldest refs s' run in
      let (ids, e, split) = repopulate-split s.raw_db sdb ws r in
      let pairs = P.kv.entries s.raw_db prefix_pairs [] in
      let head = head_write P C s oldest refs parent in
      let listed : Occurs (pairs_key key val) w pairs =
        (P.kv.Occurs-entries s.raw_db prefix_pairs [] (pairs_key key val) w).1 (
          there,
          pairs_key-prefix key val,
          not-lt-of-has_prefix prefix_pairs (pairs_key key val) (pairs_key-prefix key val),
        ) in
      let after = write_batch P C s.raw_db (annot_writes P C sdb pairs) in
      let later = others sdb key val named ids refs head in
      let ids_apart : avoids (annot_key key val) ids ≡ true =
        avoids-id_writes P C key val sdb (P.kv.entries s.raw_db prefix_id []) ids
          (λ k v o. ((P.kv.Occurs-entries s.raw_db prefix_id [] k v).0 o).1) e in
      let grouped : ws ++ (forget_blocks P C refs ++ head ∷ [])
          ≡ annot_writes P C sdb pairs ++ later =
        ap (λ x. x ++ (forget_blocks P C refs ++ head ∷ [])) (sym split)
        ∙ append_assoc (annot_writes P C sdb pairs) ids (forget_blocks P C refs ++ head ∷ []) in
      let settled = settle sdb key val named s.raw_db pairs w (inr listed) in
      (
        sdb,
        ap (λ (t : Store P C). P.state_db.state_new (P.kv.get s.raw_db) t.head_root) (sym is)
            ∙ opens,
        ap (λ (t : Store P C). P.kv.get t.raw_db (annot_key key val)) (sym is)
            ∙ (ap (λ b. P.kv.get (write_batch P C s.raw_db b) (annot_key key val)) grouped
                ∙ (ap (λ d. P.kv.get d (annot_key key val))
                      (write_batch-append P C s.raw_db (annot_writes P C sdb pairs) later)
                    ∙ (get-write_batch P C after later (annot_key key val)
                          (avoids-others sdb key val named ids refs _ ids_apart)
                        ∙ settled))),
      )
