-- ===== src/Bytes/BigEndian/Laws.antt =====
-- Writing and reading are inverse, and the order of the bytes is the order of the numbers.
use native.Mathlib.Nat.{
  pow-suc, one-le-pow, div-add-mod, mod-lt, mod-eq_of_lt, add-mul-mod_self_right,
}
use arkiv_storage_service.Base.{
  ℕ, zero, suc, ◌+◌, ◌*◌, ◌/◌, ◌%◌, ◌^◌, ◌<◌, ◌≡◌, refl, ap, ap₂, ◌∙◌, length, ltb, ◌==◌,
  if◌then◌else◌, ok, arith,
}
use arkiv_storage_service.Bytes.{lt}
use arkiv_storage_service.Bytes.BigEndian.{big_endian, value_from, put_uint64, uint64}

-- The digit in front of the last `width` ones.
mod-split : (p v : ℕ) → 0 < p → v % (p * 256) ≡ v / p % 256 * p + v % p
mod-split p v h =
    let r = v / p % 256 * p + v % p in
    let q = v / p / 256 in
    let e1 = div-add-mod v p in
    let e2 = div-add-mod (v / p) 256 in
    let e : v ≡ r + q * (p * 256) = omega (arith, ap (λ (t : ℕ). t * p) e2) in
    let small : r < p * 256 = grind (arith, mod-lt v h, mod-lt (v / p) {m = 256}) in
    (ap (λ (t : ℕ). t % (p * 256)) e ∙ add-mul-mod_self_right r q (p * 256)) ∙ mod-eq_of_lt small

pub pow-pos : (w : ℕ) → 0 < 256 ^ w
pow-pos w = one-le-pow w 256 (omega arith)

pub length-big_endian : (w v : ℕ) → length (big_endian w v) ≡ w
unfolding big_endian
length-big_endian zero v = refl
length-big_endian (suc w) v = ap suc (length-big_endian w v)

pub length-put_uint64 : (v : ℕ) → length (put_uint64 v) ≡ 8
unfolding put_uint64
length-put_uint64 v = length-big_endian 8 v

-- Reading what was written gives the number, cut to the width.
pub value_from-big_endian :
    (w acc v : ℕ) → value_from acc (big_endian w v) ≡ acc * 256 ^ w + v % 256 ^ w
unfolding big_endian value_from
value_from-big_endian zero acc v = omega arith
value_from-big_endian (suc w) acc v =
    rw (value_from-big_endian w (acc * 256 + v / 256 ^ w % 256) v, pow-suc 256 w)
      (omega (arith, mod-split (256 ^ w) v (pow-pos w)))

digits_lt : (p x y r s : ℕ) → r < p → x < y → x * p + r < y * p + s
digits_lt p x y r s hr h = grind arith

-- The first digit decides, and the rest where the first digits agree.
digit_order :
    (p x y r s : ℕ)
    → r < p
    → s < p
    → (if x == y then ltb r s else ltb x y) ≡ ltb (x * p + r) (y * p + s)
digit_order p x y r s hr hs =
    ground (arith, digits_lt p x y r s, digits_lt p y x s r, λ (e : x ≡ y). ap (λ (t : ℕ). t * p) e)

-- Numbers written at one width compare as their bytes do.
pub lt-big_endian :
    (w a b : ℕ) → lt (big_endian w a) (big_endian w b) ≡ ltb (a % 256 ^ w) (b % 256 ^ w)
unfolding big_endian lt
lt-big_endian zero a b = ground arith
lt-big_endian (suc w) a b = rw (lt-big_endian w a b) (
    rw (pow-suc 256 w) (
      rw (mod-split (256 ^ w) a (pow-pos w), mod-split (256 ^ w) b (pow-pos w))
        (digit_order (256 ^ w) (a / 256 ^ w % 256) (b / 256 ^ w % 256) (a % 256 ^ w) (b % 256 ^ w)
          (mod-lt a (pow-pos w)) (mod-lt b (pow-pos w)))))

-- Reading eight bytes that were written gives the number back.
pub uint64-put_uint64 : (v : ℕ) → v < 2 ^ 64 → uint64 (put_uint64 v) ≡ ok v
unfolding uint64 put_uint64
uint64-put_uint64 v h =
    let whole : 0 * 256 ^ 8 + v % 256 ^ 8 ≡ v = omega arith in
    ap ok (value_from-big_endian 8 0 v ∙ whole)

-- The order of two written numbers is the numeric order.
pub lt-put_uint64 : (a b : ℕ) → a < 2 ^ 64 → b < 2 ^ 64 → lt (put_uint64 a) (put_uint64 b) ≡ ltb a b
unfolding put_uint64
lt-put_uint64 a b ha hb = lt-big_endian 8 a b ∙ ap₂ ltb (mod-eq_of_lt ha) (mod-eq_of_lt hb)

pub put_uint64_injective : (a b : ℕ) → a < 2 ^ 64 → b < 2 ^ 64 → put_uint64 a ≡ put_uint64 b → a ≡ b
put_uint64_injective a b ha hb e = cc (uint64-put_uint64 a ha, uint64-put_uint64 b hb, ap uint64 e)
