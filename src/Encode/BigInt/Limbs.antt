-- ===== src/Encode/BigInt/Limbs.antt =====
-- When the number that is stored is the number that the limbs stand for.
use mongo_perl_driver.Common.{
  ℕ, zero, suc, ◌+◌, ◌*◌, ◌^◌, ◌≤◌, ◌<◌, ◌≡◌, refl, sym, ap, ◌∙◌, ◌↔◌, Bool, true, false, none,
  some, [], ◌∷◌, arith, ℤ, pos, negsuc,
}
use native.Mathlib.Nat.{pow-suc, one-le-pow, pow-le-pow_right, mul-lt-mul_of_pos_left}
use native.Mathlib.Decide.{dec_le}
use mongo_perl_driver.Perl.{Scalar, sv_iv}
use mongo_perl_driver.Outcome.{◌>>=◌, Outcome, ok}
use mongo_perl_driver.Encode.BigInt.{
  Sum, limb_step, limb_loop, add_limb, limb_digits, to_word64, signed64, with_sign, is_minus,
  big_int_value, sum_start,
}
use mongo_perl_driver.Encode.BigInt.Digits.{count_digits_lem, scale_lem}

-- A limb held as an integer, and the sign "+".
abbrev pub limb : ℕ → Scalar
limb n = record {
  sv_type = sv_iv;
  defined = true;
  iok = true;
  iokp = true;
  nok = false;
  pok = false;
  iv = pos n;
  nv = 0;
  pv = [];
  pv_utf8 = [];
  pv_byte = none;
  numeric = 1;
}

abbrev pub plus_sign : Scalar
plus_sign = record (limb 0) { iok = false; pok = true; pv = 43 ∷ [] }

-- The integer of a sign and a magnitude.
abbrev pub signed : Bool → ℕ → ℤ
signed false n = pos n
signed true zero = pos 0
signed true (suc n) = negsuc n

with_sign_lem : (minus : Bool) (v : ℕ) → v < 2 ^ 63 → with_sign minus v ≡ signed minus v
unfolding with_sign signed64
with_sign_lem false v h = ground arith
with_sign_lem true zero h = refl
with_sign_lem true (suc v) h = ground arith

add_limb_lem :
    (s : Sum) (v d : ℕ)
    → s.big + v * s.offset < 2 ^ 64
    → (add_limb s v d).big ≡ s.big + v * s.offset
unfolding add_limb
add_limb_lem s v d h = omega arith

-- The first limb, with `d + 1` digits, leaves 10 ^ (d + 1) as the weight of the next.
first_limb :
    (d a : ℕ)
    → 10 ^ d ≤ a
    → a < 10 ^ suc d
    → d < 18
    → limb_step sum_start (some (limb a))
      ≡ ok (record { big = a; offset = 10 ^ suc d; digits = suc d })
unfolding limb_step limb_digits to_word64 add_limb
first_limb d a lo hi h =
    let wide : 10 ^ suc d ≤ 10 ^ 18 = pow-le-pow_right (omega arith) {j = 18} (omega arith) in
    let count = count_digits_lem 20 d a lo hi (omega arith) in
    let weight = scale_lem (suc d) 1 (omega arith) in ground (arith, count, weight)

to_word64_lem : (n : ℕ) → n < 2 ^ 63 → to_word64 (pos n) ≡ n
unfolding to_word64
to_word64_lem n h = omega arith

mul-le-of_pos : (b p : ℕ) → 1 ≤ p → b ≤ b * p
mul-le-of_pos b p h = grind arith

two_limb_loop :
    (d a b : ℕ)
    → 10 ^ d ≤ a
    → a < 10 ^ suc d
    → d < 18
    → a + b * 10 ^ suc d < 2 ^ 63
    → (s : Sum) × (limb_loop sum_start (some (limb a) ∷ some (limb b) ∷ []) ≡ ok s)
      × (s.big ≡ a + b * 10 ^ suc d)
unfolding limb_loop ◌>>=◌
two_limb_loop d a b lo hi h fits =
    let mid : Sum = record { big = a; offset = 10 ^ suc d; digits = suc d } in
    let whole =
      to_word64_lem b
        (omega (arith, mul-le-of_pos b (10 ^ suc d) (one-le-pow (suc d) 10 (omega arith)))) in
    (
      add_limb mid b (limb_digits (pos b)),
      rw (first_limb d a lo hi h)
          (unfold limb_step in ap (λ (w : ℕ). ok (add_limb mid w (limb_digits (pos b)))) whole),
      add_limb_lem mid b (limb_digits (pos b)) (omega arith),
    )

two_limb_value :
    (sign : Scalar) (d a b : ℕ)
    → 10 ^ d ≤ a
    → a < 10 ^ suc d
    → d < 18
    → a + b * 10 ^ suc d < 2 ^ 63
    → big_int_value (some sign) (some (some (limb a) ∷ some (limb b) ∷ []))
      ≡ ok (signed (is_minus sign) (a + b * 10 ^ suc d))
unfolding big_int_value ◌>>=◌
two_limb_value sign d a b lo hi h fits =
    let (s, runs, sum) = two_limb_loop d a b lo hi h fits in
    rw (runs, sum) (ap ok (with_sign_lem (is_minus sign) (a + b * 10 ^ suc d) fits))

-- Every positive number below 10 ^ k has between 1 and k digits.
digits_of : (k a : ℕ) → 0 < a → a < 10 ^ k → (d : ℕ) × (10 ^ d ≤ a) × (a < 10 ^ suc d) × (d < k)
digits_of zero a h lt = absurd (omega arith)
digits_of (suc k) a h lt = elim (dec_le (10 ^ k) a) [
  | yes wide ↦ (k, wide, lt, omega arith)
  | no narrow ↦ let (d, lo, hi, below) = digits_of k a h (omega arith) in (d, lo, hi, omega arith)
]

signed-injective : (minus : Bool) (x y : ℕ) → signed minus x ≡ signed minus y → x ≡ y
signed-injective false x y e = ground arith
signed-injective true zero zero e = refl
signed-injective true zero (suc y) e = cc
signed-injective true (suc x) zero e = cc
signed-injective true (suc x) (suc y) e = ground arith

ok-injective : (x y : ℤ) → ◌≡◌ {A = Outcome ℤ} (ok x) (ok y) → x ≡ y
ok-injective x y e = cc

cancel : (b x y : ℕ) → 0 < b → b * x ≡ b * y → x ≡ y
cancel b x y h e = grind (arith, mul-lt-mul_of_pos_left)

same_digits : (d k a : ℕ) → a < 10 ^ suc d → 10 ^ k ≤ a * 10 → d < k → suc d ≡ k
same_digits d k a hi full below = elim (dec_le (suc (suc d)) k) [
  | yes wide ↦
      let weight : 10 ^ suc (suc d) ≤ 10 ^ k = pow-le-pow_right (omega arith) {j = k} wide in
      absurd (omega (arith, pow-suc 10 (suc d)))
  | no narrow ↦ omega arith
]

-- Two limbs of base 10 ^ k, with k at most 18, both held as integers and not zero, stand for
-- a + b * 10 ^ k, which is below 2 ^ 63. That number, with its sign, is stored exactly when the lower
-- limb has all its k digits: the weight of the upper limb is taken from the digits that the lower
-- limb happens to have.
pub big_int_two_limbs :
    (sign : Scalar) (k a b : ℕ)
    → k ≤ 18
    → 0 < a
    → a < 10 ^ k
    → 0 < b
    → a + b * 10 ^ k < 2 ^ 63
    → (big_int_value (some sign) (some (some (limb a) ∷ some (limb b) ∷ []))
        ≡ ok (signed (is_minus sign) (a + b * 10 ^ k)))
      ↔ (10 ^ k ≤ a * 10)
big_int_two_limbs sign k a b hk ha lt hb fits =
    let (d, lo, hi, below) = digits_of k a ha lt in
    let weight : 10 ^ suc d ≤ 10 ^ k = pow-le-pow_right (omega arith) {j = k} below in
    let less : b * 10 ^ suc d ≤ b * 10 ^ k = grind arith in
    let value = two_limb_value sign d a b lo hi (omega arith) (omega arith) in
    (
      λ e.
          let same =
            signed-injective (is_minus sign) (a + b * 10 ^ suc d) (a + b * 10 ^ k)
              (ok-injective _ _ (sym value ∙ e)) in
          omega (arith, pow-suc 10 d, cancel b (10 ^ suc d) (10 ^ k) hb (omega arith)),
      λ full. rw (same_digits d k a hi full below) at value,
    )
