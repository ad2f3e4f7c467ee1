-- ===== src/Platform/Sample.antt =====
-- A platform: it shows that what is asked of the packages can be met.
pub mod Listed
use arkiv_storage_service.Base.{
  ◌++◌, ◌==◌, ℕ, zero, suc, sym, ap, ◌∙◌, length, List, ◌∷◌, ◌≡◌, ◌≢◌, refl, Bool, true, false,
  ◌&&◌, [], if◌then◌else◌, Option, none, some, replicate, Bool-cases, inl, inr, arith,
}
use arkiv_storage_service.Bytes.BigEndian.{put_uint64}
use arkiv_storage_service.Bytes.{Bytes, codes, beq, has_prefix}
use arkiv_storage_service.Bytes.Order.{beq_iff}
use arkiv_storage_service.Roaring.Sample.{list_roaring}
use arkiv_storage_service.Platform.{Occurs, StateDb, Text, Platform}
use arkiv_storage_service.Platform.Sample.Listed.{listed_kv}

-- the code of each account, its slots, and which accounts there are
pub record Accounts : Type 0 where
  pub code : Bytes → Bytes
  pub slot : Bytes → Bytes → Bytes
  pub there : Bytes → Bool

abbrev pub no_accounts : Accounts
no_accounts = record { code = λ a. []; slot = λ a k. replicate 32 0; there = λ a. false }

pub same_slot : (s : Accounts) (a k v : Bytes) → (if beq a a && beq k k then v else s.slot a k) ≡ v
same_slot s a k v = rw ((beq_iff a a).1 refl) (rw ((beq_iff k k).1 refl) refl)

pub other_slot :
    (s : Accounts) (a k v b j : Bytes)
    → k ≢ j
    → (if beq a b && beq k j then v else s.slot b j) ≡ s.slot b j
other_slot s a k v b j n = elim (Bool-cases (beq k j)) [
  | inl e ↦ absurd (n ((beq_iff k j).0 e))
  | inr e ↦ ground (arith, e)
]

abbrev pub sample_commit : Option (Bytes × List (Bytes × Bytes))
sample_commit = some (replicate 32 7, [])

pub sample_root :
    (s : Accounts) (n : ℕ) (root : Bytes) (nodes : List (Bytes × Bytes))
    → sample_commit ≡ some (root, nodes)
    → length root ≡ 32
sample_root s n root nodes h = let is : replicate 32 7 ≡ root = cc in sym (ap length is)

pub no_nodes :
    (s : Accounts) (n : ℕ) (root : Bytes) (nodes : List (Bytes × Bytes)) (k v : Bytes)
    → sample_commit ≡ some (root, nodes)
    → Occurs k v nodes
    → has_prefix (codes "arkiv_") k ≡ false
no_nodes s n root [] k v h o = absurd o
no_nodes s n root (e ∷ nodes) k v h o = cc

-- the first `n` bytes, filled up with zeros
abbrev pub to_length : ℕ → Bytes → Bytes
to_length zero b = []
to_length (suc n) [] = 0 ∷ to_length n []
to_length (suc n) (c ∷ b) = c ∷ to_length n b

pub length-to_length : (n : ℕ) (b : Bytes) → length (to_length n b) ≡ n
length-to_length zero b = refl
length-to_length (suc n) [] = ap suc (length-to_length n [])
length-to_length (suc n) (c ∷ b) = ap suc (length-to_length n b)

pub to_length_same : (b : Bytes) → to_length (length b) b ≡ b
to_length_same [] = refl
to_length_same (c ∷ b) = ap (λ t. c ∷ t) (to_length_same b)

-- the slot of `size = 5`, with a hash of nines
abbrev pub size_slot : Bytes
size_slot = codes "annotsize" ++ 0 ∷ put_uint64 5

abbrev pub starts_with_five : Bytes → Bool
starts_with_five [] = false
starts_with_five (c ∷ root) = c == 5

-- the root of fives has one slot, and every other root none
abbrev pub state_at : Bytes → Accounts
state_at root =
    if starts_with_five root
    then record no_accounts {
      slot = λ a k. if beq size_slot k then replicate 32 9 else replicate 32 0;
    }
    else no_accounts

abbrev pub function_state : StateDb
function_state = record {
  State = Accounts;
  empty_root = replicate 32 0;
  state_new = λ nodes root. some (state_at root);
  commit = λ s n. sample_commit;
  exist = λ s a. s.there a;
  create_account = λ s a. record s { there = λ b. if beq a b then true else s.there b };
  set_nonce = λ s a n. s;
  get_state = λ s a k. s.slot a k;
  set_state = λ s a k v. record s { slot = λ b j. if beq a b && beq k j then v else s.slot b j };
  get_code = λ s a. s.code a;
  set_code = λ s a c. record s { code = λ b. if beq a b then c else s.code b };
  length-empty_root = refl;
  length-commit = sample_root;
  node_keys = no_nodes;
  get_code-set_code = λ s a b c. refl;
  get_code-set_state = λ s a k v b. refl;
  get_code-create_account = λ s a b n. refl;
  get_state-set_state = same_slot;
  get_state-set_state_ne = other_slot;
  get_state-set_code = λ s a c b j. refl;
  get_state-create_account = λ s a b j n. refl;
}

-- every conversion leaves the bytes as they are, but a hash has 32 of them
abbrev pub plain_text : Text
plain_text = record {
  keccak = λ b. b;
  address_hex = λ b. b;
  hash_hex = λ b. b;
  bytes_to_hash = to_length 32;
  to_lower = λ b. b;
  bytes_to_hash_same = λ b h. ap (λ n. to_length n b) (sym h) ∙ to_length_same b;
  length-bytes_to_hash = length-to_length 32;
}

abbrev pub sample_platform : Platform
sample_platform = record {
  roaring = list_roaring;
  kv = listed_kv;
  state_db = function_state;
  text = plain_text;
}
