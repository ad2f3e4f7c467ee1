-- ===== src/Bytes/Order.antt =====
-- Equality, order and prefixes of byte strings.
use arkiv_storage_service.Base.{◌≡◌, refl, ◌↔◌, true, false, not, ◌||◌, [], ◌∷◌, ◌++◌, arith}
use arkiv_storage_service.Bytes.{Bytes, beq, lt, has_prefix}

pub beq_sound : (a b : Bytes) → beq a b ≡ true → a ≡ b
unfolding beq
beq_sound [] [] h = refl
beq_sound [] (b ∷ bs) h = cc
beq_sound (a ∷ as') [] h = cc
beq_sound (a ∷ as') (b ∷ bs) h = ground (arith, beq_sound as' bs)

pub beq_refl : (a : Bytes) → beq a a ≡ true
unfolding beq
beq_refl [] = refl
beq_refl (a ∷ as') = ground (arith, beq_refl as')

pub beq_iff : (a b : Bytes) → (beq a b ≡ true) ↔ (a ≡ b)
beq_iff a b = (beq_sound a b, λ e. rw e (beq_refl b))

pub lt_irrefl : (a : Bytes) → lt a a ≡ false
unfolding lt
lt_irrefl [] = refl
lt_irrefl (a ∷ as') = ground (arith, lt_irrefl as')

pub lt_trans : (a b c : Bytes) → lt a b ≡ true → lt b c ≡ true → lt a c ≡ true
unfolding lt
lt_trans [] [] c h k = cc
lt_trans [] (b ∷ bs) [] h k = cc
lt_trans [] (b ∷ bs) (c ∷ cs) h k = refl
lt_trans (a ∷ as') [] c h k = cc
lt_trans (a ∷ as') (b ∷ bs) [] h k = cc
lt_trans (a ∷ as') (b ∷ bs) (c ∷ cs) h k = ground (arith, lt_trans as' bs cs)

pub has_prefix-append : (p s : Bytes) → has_prefix p (p ++ s) ≡ true
unfolding has_prefix
has_prefix-append [] s = refl
has_prefix-append (a ∷ p) s = ground (arith, has_prefix-append p s)

-- A prefix stands no later than what it begins.
pub not-lt-of-has_prefix : (p s : Bytes) → has_prefix p s ≡ true → lt s p ≡ false
unfolding has_prefix lt
not-lt-of-has_prefix [] [] h = refl
not-lt-of-has_prefix [] (b ∷ s) h = refl
not-lt-of-has_prefix (a ∷ p) [] h = cc
not-lt-of-has_prefix (a ∷ p) (b ∷ s) h = ground (arith, not-lt-of-has_prefix p s)

-- The order is total.
pub lt-eq-not : (a b : Bytes) → lt a b ≡ not (lt b a || beq a b)
unfolding lt beq
lt-eq-not [] [] = refl
lt-eq-not [] (b ∷ bs) = refl
lt-eq-not (a ∷ as') [] = refl
lt-eq-not (a ∷ as') (b ∷ bs) = ground (arith, lt-eq-not as' bs)
