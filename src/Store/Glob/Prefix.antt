-- ===== src/Store/Glob/Prefix.antt =====
-- The fast path of a glob: a pattern that `isPrefixGlob` accepts matches what begins with the
-- prefix, so that a range scan can take the place of the full scan.
use arkiv_storage_service.Base.{
  ◌-◌, ◌≡◌, refl, sym, ap, ◌∙◌, true, false, [], ◌∷◌, ◌++◌, some, length, take, drop,
  take-append-drop, any, Bool-cases, inl, inr, arith,
}
use arkiv_storage_service.Bytes.{Bytes, has_prefix}
use arkiv_storage_service.Bytes.Order.{beq_sound}
use arkiv_storage_service.Store.Glob.{
  glob_fuel, glob_match, has_suffix, is_wildcard, is_prefix_glob,
}

has_suffix-split :
    (s suffix : Bytes)
    → has_suffix s suffix ≡ true
    → s ≡ take (length s - length suffix) s ++ suffix
unfolding has_suffix
has_suffix-split s suffix h =
    sym (take-append-drop (length s - length suffix) s)
    ∙ ap (λ x. take (length s - length suffix) s ++ x)
        (beq_sound (drop (length s - length suffix) s) suffix (ground arith))

pub is_prefix_glob-split :
    (pattern : Bytes) {prefix : Bytes}
    → is_prefix_glob pattern ≡ some prefix
    → (pattern ≡ prefix ++ b'*' ∷ []) × (any is_wildcard prefix ≡ false)
unfolding is_prefix_glob
is_prefix_glob-split pattern {prefix} h = elim (Bool-cases (has_suffix pattern (b'*' ∷ []))) [
  | inl e ↦ ground (arith, has_suffix-split pattern (b'*' ∷ []))
  | inr e ↦ ground arith
]

glob_fuel-prefix :
    (p s : Bytes)
    → any is_wildcard p ≡ false
    → glob_fuel (length (p ++ b'*' ∷ [])) (p ++ b'*' ∷ []) s ≡ has_prefix p s
unfolding glob_fuel has_prefix
glob_fuel-prefix [] s h = refl
glob_fuel-prefix (w ∷ p) [] h = ground arith
glob_fuel-prefix (w ∷ p) (c ∷ s) h = ground (arith, glob_fuel-prefix p s)

-- If `isPrefixGlob` finds a prefix in a pattern, the pattern matches exactly the texts that begin
-- with that prefix.
pub glob_match-eq-has_prefix :
    (pattern s : Bytes) {prefix : Bytes}
    → is_prefix_glob pattern ≡ some prefix
    → glob_match pattern s ≡ has_prefix prefix s
unfolding glob_match
glob_match-eq-has_prefix pattern s {prefix} h =
    let (e, w) = is_prefix_glob-split pattern h in rw e (glob_fuel-prefix prefix s w)
