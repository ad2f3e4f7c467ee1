-- ===== src/Bytes/BigEndian/Digits.antt =====
-- A byte string is the big-endian form of the number that it stands for.
use native.Mathlib.Nat.{pow-suc, mul-add-div_right, div-eq_of_lt}
use arkiv_storage_service.Base.{
  ℕ, zero, suc, ◌+◌, ◌*◌, ◌/◌, ◌%◌, ◌^◌, ◌<◌, ◌≡◌, refl, sym, ap, ap₂, ◌∙◌, [], ◌∷◌, length, arith,
  subst,
}
use arkiv_storage_service.Bytes.{Bytes, AreBytes}
use arkiv_storage_service.Bytes.BigEndian.{big_endian, value_from, put_uint64}
use arkiv_storage_service.Bytes.BigEndian.Laws.{value_from-big_endian}

pub value_from-weight : (w : ℕ) (c : Bytes) → value_from w c ≡ w * 256 ^ length c + value_from 0 c
unfolding value_from
value_from-weight w [] = omega arith
value_from-weight w (b ∷ c) =
    rw
      (value_from-weight (w * 256 + b) c, value_from-weight (0 * 256 + b) c, pow-suc 256 (length c))
      (grind arith)

pub value_from_small : (s : Bytes) → AreBytes s → value_from 0 s < 256 ^ length s
unfolding value_from
value_from_small [] h = omega arith
value_from_small (b ∷ bs) h =
    rw (value_from-weight (0 * 256 + b) bs, pow-suc 256 (length bs))
      (grind (arith, value_from_small bs h.1, h.0))

top_digit : (p a b r : ℕ) → r < p → b < 256 → ((a * 256 + b) * p + r) / p % 256 ≡ b
top_digit p a b r h k =
    ap (λ (q : ℕ). q % 256)
      (mul-add-div_right (omega (arith, h)) (a * 256 + b) r
        ∙ ap (λ (q : ℕ). (a * 256 + b) + q) (div-eq_of_lt h))
    ∙ omega (arith, k)

pub big_endian-value_from :
    (a : ℕ) (s : Bytes) → AreBytes s → big_endian (length s) (value_from a s) ≡ s
unfolding big_endian value_from
big_endian-value_from a [] h = refl
big_endian-value_from a (b ∷ bs) h =
    ap₂ (λ d t. d ∷ t)
      (ap (λ (v : ℕ). v / 256 ^ length bs % 256) (value_from-weight (a * 256 + b) bs)
        ∙ top_digit (256 ^ length bs) a b (value_from 0 bs) (value_from_small bs h.1) h.0)
      (big_endian-value_from (a * 256 + b) bs h.1)

-- Eight bytes.
pub put_uint64-value_from :
    (s : Bytes) → AreBytes s → length s ≡ 8 → put_uint64 (value_from 0 s) ≡ s
unfolding put_uint64
put_uint64-value_from s h e =
    ap (λ w. big_endian w (value_from 0 s)) (sym e) ∙ big_endian-value_from 0 s h

pub value_from_uint64 : (s : Bytes) → AreBytes s → length s ≡ 8 → value_from 0 s < 2 ^ 64
value_from_uint64 s h e =
    omega (arith, subst (λ w. value_from 0 s < 256 ^ w) e (value_from_small s h))

pub value_from-put_uint64 : (n : ℕ) → n < 2 ^ 64 → value_from 0 (put_uint64 n) ≡ n
unfolding put_uint64
value_from-put_uint64 n h = value_from-big_endian 8 0 n ∙ omega (arith, h)

AreBytes-big_endian : (w v : ℕ) → AreBytes (big_endian w v)
unfolding big_endian
AreBytes-big_endian zero v = tt
AreBytes-big_endian (suc w) v = (omega arith, AreBytes-big_endian w v)

pub AreBytes-put_uint64 : (n : ℕ) → AreBytes (put_uint64 n)
unfolding put_uint64
AreBytes-put_uint64 n = AreBytes-big_endian 8 n
