-- ===== src/Encode/BigInt/Digits.antt =====
-- The two inner loops in closed form.
use mongo_perl_driver.Common.{ℕ, zero, suc, ◌*◌, ◌/◌, ◌^◌, ◌≤◌, ◌<◌, ◌≡◌, refl, ap, arith}
use native.Mathlib.Nat.{mod-eq_of_lt, pow-suc, one-le-pow}
use mongo_perl_driver.Encode.BigInt.{count_digits, scale}

count_digits-zero : (fuel : ℕ) → count_digits fuel 0 ≡ 0
unfolding count_digits
count_digits-zero zero = refl
count_digits-zero (suc fuel) = refl

-- With enough fuel the digit loop counts the decimal digits.
pub count_digits_lem :
    (fuel d n : ℕ) → 10 ^ d ≤ n → n < 10 ^ suc d → d < fuel → count_digits fuel n ≡ suc d
unfolding count_digits
count_digits_lem zero d n lo hi h = absurd (omega arith)
count_digits_lem (suc fuel) zero n lo hi h =
    let small : n / 10 ≡ 0 = omega arith in
    ground (arith, count_digits-zero fuel, ap (count_digits fuel) small)
count_digits_lem (suc fuel) (suc d) n lo hi h = ground (
  arith,
  pow-suc 10 d,
  pow-suc 10 (suc d),
  one-le-pow d 10 (omega arith),
  count_digits_lem fuel d (n / 10),
)

pub scale_lem : (l o : ℕ) → o * 10 ^ l < 2 ^ 64 → scale l o ≡ o * 10 ^ l
unfolding scale
scale_lem zero o h = omega arith
scale_lem (suc l) o h =
    let step : o * 10 ^ suc l ≡ o * 10 * 10 ^ l = rw pow-suc (grind arith) in
    let fits : o * 10 < 2 ^ 64 = grind (arith, one-le-pow l 10) in
    rw (mod-eq_of_lt fits, step) (scale_lem l (o * 10) (rw (← step) h))
