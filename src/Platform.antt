-- ===== src/Platform.antt =====
-- What the service takes from third-party packages, besides `roaring64`: the key-value database
-- (go-ethereum's `ethdb`), the account state over the trie (`state.StateDB`), hashing, the RLP
-- codec and the conversions of hashes and addresses. Each is a record of the operations that the
-- service calls and of what it relies on.
pub mod Sample
use arkiv_storage_service.Base.{
  ℕ, ◌≡◌, ◌≢◌, ◌↔◌, ◌⊎◌, Bool, true, false, List, [], ◌∷◌, ◌++◌, all, Option, none, some,
  if◌then◌else◌, length,
}
use arkiv_storage_service.Bytes.{Bytes, codes, beq, lt, has_prefix}
use arkiv_storage_service.Roaring.{Roaring}

-- `es` has the pair of `k` and `v`.
abbrev pub Occurs : Bytes → Bytes → List (Bytes × Bytes) → Type 0
Occurs k v [] = ⊥
Occurs k v ((j, w) ∷ es) = ((k ≡ j) × (v ≡ w)) ⊎ Occurs k v es

-- The keys after the first lie above it.
abbrev pub all_above : Bytes → List (Bytes × Bytes) → Bool
all_above k es = all (λ (e : Bytes × Bytes). lt k e.0) es

abbrev pub Ascending : List (Bytes × Bytes) → Type 0
Ascending [] = Unit
Ascending ((k, v) ∷ es) = (all_above k es ≡ true) × Ascending es

-- `ethdb.Database` and `memorydb.Database`: `none` is the error of a key that is not there
pub record Kv : Type 1 where
  pub Db : Type 0
  pub get : Db → Bytes → Option Bytes
  pub put : Db → Bytes → Bytes → Db
  pub delete : Db → Bytes → Db
  -- `memorydb.New()`
  pub new : Db
  -- what `NewIterator(prefix, start)` returns, one after the other
  pub entries : Db → Bytes → Bytes → List (Bytes × Bytes)
  pub Occurs-entries :
      (d : Db) (p s k v : Bytes)
      → Occurs k v (entries d p s)
        ↔ ((get d k ≡ some v) × (has_prefix p k ≡ true) × (lt k (p ++ s) ≡ false))
  pub entries-Ascending : (d : Db) (p s : Bytes) → Ascending (entries d p s)
  pub get-new : (k : Bytes) → get new k ≡ none
  pub get-put : (d : Db) (k j v : Bytes) → get (put d k v) j ≡ (if beq k j then some v else get d j)
  pub get-delete : (d : Db) (k j : Bytes) → get (delete d k) j ≡ (if beq k j then none else get d j)

-- `state.StateDB`: accounts by address, each with code and storage slots of 32 bytes
pub record StateDb : Type 1 where
  pub State : Type 0
  -- `types.EmptyRootHash`
  pub empty_root : Bytes
  -- `state.New` at a root, over the nodes that a database has; `none` is an error
  pub state_new : (Bytes → Option Bytes) → Bytes → Option State
  -- `StateDB.Commit` of a block and `triedb.Database.Commit`: the root and the nodes to write
  pub commit : State → ℕ → Option (Bytes × List (Bytes × Bytes))
  pub exist : State → Bytes → Bool
  pub create_account : State → Bytes → State
  pub set_nonce : State → Bytes → ℕ → State
  pub get_state : State → Bytes → Bytes → Bytes
  pub set_state : State → Bytes → Bytes → Bytes → State
  pub get_code : State → Bytes → Bytes
  pub set_code : State → Bytes → Bytes → State
  pub length-empty_root : length empty_root ≡ 32
  pub length-commit :
      (s : State) (n : ℕ) (root : Bytes) (nodes : List (Bytes × Bytes))
      → commit s n ≡ some (root, nodes)
      → length root ≡ 32
  -- nodes are stored under hashes, which do not begin like the keys of the service
  pub node_keys :
      (s : State) (n : ℕ) (root : Bytes) (nodes : List (Bytes × Bytes)) (k v : Bytes)
      → commit s n ≡ some (root, nodes)
      → Occurs k v nodes
      → has_prefix (codes "arkiv_") k ≡ false
  pub get_code-set_code :
      (s : State) (a b c : Bytes)
      → get_code (set_code s a c) b ≡ (if beq a b then c else get_code s b)
  pub get_code-set_state :
      (s : State) (a k v b : Bytes) → get_code (set_state s a k v) b ≡ get_code s b
  pub get_code-create_account :
      (s : State) (a b : Bytes) → beq a b ≡ false → get_code (create_account s a) b ≡ get_code s b
  pub get_state-set_state : (s : State) (a k v : Bytes) → get_state (set_state s a k v) a k ≡ v
  pub get_state-set_state_ne :
      (s : State) (a k v b j : Bytes) → k ≢ j → get_state (set_state s a k v) b j ≡ get_state s b j
  pub get_state-set_code :
      (s : State) (a c b j : Bytes) → get_state (set_code s a c) b j ≡ get_state s b j
  pub get_state-create_account :
      (s : State) (a b j : Bytes)
      → beq a b ≡ false
      → get_state (create_account s a) b j ≡ get_state s b j

-- `crypto.Keccak256`, `Address.Hex`, `Hash.Hex`, `BytesToHash`, and `strings.ToLower`
pub record Text : Type 0 where
  pub keccak : Bytes → Bytes
  pub address_hex : Bytes → Bytes
  pub hash_hex : Bytes → Bytes
  pub bytes_to_hash : Bytes → Bytes
  pub to_lower : Bytes → Bytes
  pub bytes_to_hash_same : (b : Bytes) → length b ≡ 32 → bytes_to_hash b ≡ b
  pub length-bytes_to_hash : (b : Bytes) → length (bytes_to_hash b) ≡ 32

pub record Platform : Type 1 where
  pub roaring : Roaring
  pub kv : Kv
  pub state_db : StateDb
  pub text : Text
