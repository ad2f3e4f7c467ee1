-- ===== src/Store/Revert/Untouched.antt =====
-- The writes of a revert besides those of the pointers leave the pointers alone.
use mathlib.Core.Bool.{false≢true}
use arkiv_storage_service.Base.{
  ◌+◌, ◌≡◌, refl, sym, ap, ◌∙◌, Bool, true, false, not, List, [], ◌∷◌, ◌++◌, all, all-append, drop,
  length, ◌==◌, if◌then◌else◌, ok, ◌>>=◌, >>=-eq-ok, Bool-cases, inl, inr, arith,
}
use arkiv_storage_service.Bytes.{Bytes, beq, has_prefix}
use arkiv_storage_service.Bytes.Order.{beq_iff}
use arkiv_storage_service.Platform.{Platform, Occurs}
use arkiv_storage_service.Types.{ArkivBlockRef}
use arkiv_storage_service.Store.Keys.{
  prefix_id, annot_key, addr_key, root_key, parent_key, block_number_key, decode_uint64,
}
use arkiv_storage_service.Store.Cache.{Codec, zero_hash, system_address, id_slot_key}
use arkiv_storage_service.Store.Revert.{
  Write, put, delete, write, write_batch, forget_id, id_round, id_writes, forget_block,
  forget_blocks,
}

-- the key of a write
abbrev pub target : Write → Bytes
target (put k v) = k
target (delete k) = k

-- no write is to the key `j`
abbrev pub avoids : Bytes → List Write → Bool
avoids j ws = all (λ w. not (beq (target w) j)) ws

module _ (P : Platform) (C : Codec) where
  open P use {kv.{Db}, state_db.{State}}

  pub get-write :
      (db : Db) (w : Write) (j : Bytes)
      → beq (target w) j ≡ false
      → P.kv.get (write P C db w) j ≡ P.kv.get db j
  get-write db (put k v) j n = P.kv.get-put db k j v ∙ rw n refl
  get-write db (delete k) j n = P.kv.get-delete db k j ∙ rw n refl

  pub get-write_batch :
      (db : Db) (ws : List Write) (j : Bytes)
      → avoids j ws ≡ true
      → P.kv.get (write_batch P C db ws) j ≡ P.kv.get db j
  unfolding write_batch
  get-write_batch db [] j h = refl
  get-write_batch db (w ∷ ws) j h =
      get-write_batch (write P C db w) ws j (ground (arith, h))
      ∙ get-write db w j (ground (arith, h))

  module _ (key val : Bytes) where
    not_under_id : has_prefix prefix_id (annot_key key val) ≡ false
    unfolding annot_key has_prefix
    not_under_id = refl

    addr_not_annot : (v : Bytes) → beq (addr_key v) (annot_key key val) ≡ false
    unfolding annot_key addr_key beq
    addr_not_annot v = refl

    -- A key of an id is not that of a pointer.
    id_not_annot : (k : Bytes) → has_prefix prefix_id k ≡ true → beq k (annot_key key val) ≡ false
    id_not_annot k h = elim (Bool-cases (beq k (annot_key key val))) [
      | inl e ↦ absurd (
          false≢true (
            sym not_under_id
            ∙ (ap (has_prefix prefix_id) (sym ((beq_iff k (annot_key key val)).0 e)) ∙ h)))
      | inr e ↦ e
    ]

    avoids-forget_id :
        (k v : Bytes)
        → has_prefix prefix_id k ≡ true
        → avoids (annot_key key val) (forget_id P C k v) ≡ true
    avoids-forget_id k v h = ground (arith, id_not_annot k h, addr_not_annot v)

    avoids_if :
        (b : Bool) (ws ws' : List Write)
        → avoids (annot_key key val) ws ≡ true
        → ok (if b then ws else []) ≡ ok ws'
        → avoids (annot_key key val) ws' ≡ true
    avoids_if true ws ws' h run =
        let is : ws ≡ ws' = cc in ap (avoids (annot_key key val)) (sym is) ∙ h
    avoids_if false ws ws' h run =
        let is : [] ≡ ws' = cc in ap (avoids (annot_key key val)) (sym is)

    avoids-id_round :
        (sdb : State) (k v : Bytes) (ws : List Write)
        → has_prefix prefix_id k ≡ true
        → id_round P C sdb k v ≡ ok ws
        → avoids (annot_key key val) ws ≡ true
    unfolding id_round
    avoids-id_round sdb k v ws h = go (length k == length prefix_id + 8)
      where
        go :
            (b : Bool)
            → (if b
                then (decode_uint64 (drop (length prefix_id) k) >>= λ id. ok (
                    if beq
                      (P.state_db.get_state sdb (system_address P C) (id_slot_key P C id))
                      zero_hash
                    then forget_id P C k v
                    else []))
                else ok [])
              ≡ ok ws
            → avoids (annot_key key val) ws ≡ true
        go false run = avoids_if false [] ws refl run
        go true run =
            let (id, _, run') = >>=-eq-ok (decode_uint64 (drop (length prefix_id) k)) _ run in
            avoids_if
              (beq (P.state_db.get_state sdb (system_address P C) (id_slot_key P C id)) zero_hash)
              (forget_id P C k v) ws (avoids-forget_id k v h) run'

    pub avoids-id_writes :
        (sdb : State) (es : List (Bytes × Bytes)) (ws : List Write)
        → ((k v : Bytes) → Occurs k v es → has_prefix prefix_id k ≡ true)
        → id_writes P C sdb es ≡ ok ws
        → avoids (annot_key key val) ws ≡ true
    unfolding id_writes
    avoids-id_writes sdb [] ws under run =
        let is : [] ≡ ws = cc in ap (avoids (annot_key key val)) (sym is)
    avoids-id_writes sdb ((k, v) ∷ es) ws under run =
        let (here, e, run₁) = >>=-eq-ok (id_round P C sdb k v) _ run in
        let (later, e', run₂) =
          >>=-eq-ok (id_writes P C sdb es) (λ later. ok (here ++ later)) run₁ in
        let is : here ++ later ≡ ws = cc in
        ap (avoids (annot_key key val)) (sym is)
        ∙ ground (
          arith,
          all-append (λ w. not (beq (target w) (annot_key key val))) here later,
          avoids-id_round sdb k v here (under k v (inl (refl, refl))) e,
          avoids-id_writes sdb es later (λ k' v' o. under k' v' (inr o)) e',
        )

    pub avoids-forget_blocks :
        (refs : List ArkivBlockRef) → avoids (annot_key key val) (forget_blocks P C refs) ≡ true
    unfolding forget_blocks forget_block beq annot_key root_key parent_key block_number_key
    avoids-forget_blocks [] = refl
    avoids-forget_blocks (r ∷ refs) = avoids-forget_blocks refs
