-- ===== src/Store/Glob.antt =====
-- `globMatch` of store/query.go and `isPrefixGlob` of query/evaluate.go.
pub mod Matches
pub mod Prefix
use arkiv_storage_service.Base.{
  ℕ, zero, suc, ◌-◌, Bool, true, false, ◌&&◌, ◌||◌, [], ◌∷◌, Option, none, some, length, take, drop,
  any, leb, ◌==◌, if◌then◌else◌,
}
use arkiv_storage_service.Bytes.{Bytes, beq}

-- the loop that drops the stars at the front of the pattern
unfoldable pub skip_stars : Bytes → Bytes
skip_stars [] = []
skip_stars (c ∷ pattern) = if c == b'*' then skip_stars pattern else c ∷ pattern

-- `for i := 0; i <= len(s); i++ { if match(s[i:]) { return true } }; return false`
unfoldable pub any_suffix : (Bytes → Bool) → Bytes → Bool
any_suffix match [] = match []
any_suffix match (c ∷ s) = match (c ∷ s) || any_suffix match s

unfoldable pub is_empty : Bytes → Bool
is_empty [] = true
is_empty (c ∷ s) = false

-- the branch of a star, with what is left of the pattern behind the stars
unfoldable pub match_star : (Bytes → Bytes → Bool) → Bytes → Bytes → Bool
unfolding any_suffix
match_star match [] s = true
match_star match (c ∷ pattern) s = any_suffix (match (c ∷ pattern)) s

-- the branch of a byte other than a star
unfoldable pub match_byte : (Bytes → Bytes → Bool) → ℕ → Bytes → Bytes → Bool
match_byte match p pattern [] = false
match_byte match p pattern (c ∷ s) = if p == b'?' || p == c then match pattern s else false

-- Each round and each inner call drops a byte of the pattern at least, which pays for the fuel.
unfoldable pub glob_fuel : ℕ → Bytes → Bytes → Bool
unfolding skip_stars match_star match_byte is_empty
glob_fuel fuel [] s = is_empty s
glob_fuel zero (p ∷ pattern) s = false
glob_fuel (suc fuel) (p ∷ pattern) s =
    if p == b'*'
    then match_star (glob_fuel fuel) (skip_stars pattern) s
    else match_byte (glob_fuel fuel) p pattern s

unfoldable pub glob_match : Bytes → Bytes → Bool
unfolding glob_fuel
glob_match pattern s = glob_fuel (length pattern) pattern s

-- `strings.HasSuffix(s, suffix)`
unfoldable pub has_suffix : Bytes → Bytes → Bool
unfolding beq
has_suffix s suffix =
    leb (length suffix) (length s) && beq (drop (length s - length suffix) s) suffix

abbrev pub is_wildcard : ℕ → Bool
is_wildcard c = c == b'*' || c == b'?'

-- `isPrefixGlob`: the prefix, if the pattern is one before a single star and has no other wildcard
unfoldable pub is_prefix_glob : Bytes → Option Bytes
unfolding has_suffix
is_prefix_glob pattern =
    if has_suffix pattern (b'*' ∷ [])
    then if any is_wildcard (take (length pattern - 1) pattern)
      then none
      else some (take (length pattern - 1) pattern)
    else none
