-- ===== src/Encode/BigInt.antt =====
-- The Math::BigInt branch of append_sv: int64 from a sign and the limbs of Math::BigInt::Calc.
mod Digits
pub mod Limbs
use mongo_perl_driver.Common.{
  ℕ, zero, suc, ◌+◌, ◌-◌, ◌*◌, ◌/◌, ◌%◌, ◌^◌, ◌≤◌, ◌<◌, ◌≡◌, refl, sym, ap, ◌∙◌, ◌≢◌, ◌↔◌, ◌⊎◌, inl,
  inr, Bool, true, false, not, ◌&&◌, ◌||◌, Option, none, some, List, [], ◌∷◌, ◌++◌, append_assoc,
  append-nil, arith, ltb, leb, ◌==◌, if◌then◌else◌, ltb→lt, lt→ltb, leb→le, ==_iff, Bool-cases,
  Option-cases, length, get_elem?, take, drop, replicate, All, length-append, take-append-drop,
  length-take, length-drop, drop-append, All-append, bytes_eq, bytes_eq_refl, bytes_eq→eq, ℤ, pos,
  negsuc, pos_part, neg_part, sub_ℕ, ltb_ℤ, signed32,
}
use mongo_perl_driver.Perl.{Bytes, Scalar}
use mongo_perl_driver.Outcome.{
  Outcome, ok, croak, stuck, ◌>>=◌, ◌>>◌, require, bigint_sign, bigint_value, bigint_too_large,
  bigint_element,
}

abbrev pub word64 : ℕ
word64 = 2 ^ 64

-- The bit pattern of an int64_t, and the integer that a pattern stands for.
unfoldable pub to_word64 : ℤ → ℕ
to_word64 (pos n) = n % 2 ^ 64
to_word64 (negsuc n) = 2 ^ 64 - 1 - n % 2 ^ 64

unfoldable pub signed64 : ℕ → ℤ
signed64 w = if ltb w (2 ^ 63) then pos w else negsuc (2 ^ 64 - w - 1)

-- while (temp > 0) { temp = temp / 10; length++; }
unfoldable pub count_digits : ℕ → ℕ → ℕ
count_digits zero temp = 0
count_digits (suc fuel) temp =
    let more = count_digits fuel (temp / 10) in if temp == 0 then 0 else suc more

-- An int64_t has at most 19 digits.
abbrev pub digit_fuel : ℕ
digit_fuel = 20

-- for (j = 0; j < length; j++) { offset *= 10; }, on the bit pattern
unfoldable pub scale : ℕ → ℕ → ℕ
scale zero offset = offset
scale (suc j) offset = scale j (offset * 10 % 2 ^ 64)

unfoldable pub atoi_digits : Bytes → ℕ → ℕ
atoi_digits [] acc = acc
atoi_digits (c ∷ cs) acc =
    let more = atoi_digits cs (acc * 10 + (c - 48)) in if leb 48 c && leb c 57 then more else acc

unfoldable pub atoi_signed : Bytes → ℕ
atoi_signed [] = 0
atoi_signed (c ∷ cs) =
    if c == 45
    then (2 ^ 32 - atoi_digits cs 0 % 2 ^ 32) % 2 ^ 32
    else if c == 43
    then atoi_digits cs 0 % 2 ^ 32
    else atoi_digits (c ∷ cs) 0 % 2 ^ 32

-- atoi: white space, a sign, digits; the result is the bit pattern of an int.
unfoldable pub atoi : Bytes → ℕ
atoi [] = 0
atoi (c ∷ cs) =
    let more = atoi cs in if c == 32 || (leb 9 c && leb c 13) then more else atoi_signed (c ∷ cs)

-- The variables of the loop over the limbs: big and offset are bit patterns of int64_t.
pub record Sum : Type 0 where
  pub big : ℕ
  pub offset : ℕ
  pub digits : ℕ

-- temp, the digits of a limb
unfoldable pub limb_digits : ℤ → ℕ
limb_digits (pos n) = count_digits digit_fuel n
limb_digits (negsuc n) = 0

unfoldable pub add_limb : Sum → ℕ → ℕ → Sum
add_limb s value digits =
    let length' = s.digits + digits in
    record {
      big = (s.big + value * s.offset) % 2 ^ 64;
      offset = scale length' s.offset;
      digits = length';
    }

-- One round of the loop: a limb held as an integer, or else as a string.
unfoldable pub limb_step : Sum → Option Scalar → Outcome Sum
unfolding add_limb
limb_step s none = croak bigint_element
limb_step s (some val) =
    if val.iok
    then ok (add_limb s (to_word64 val.iv) (limb_digits val.iv))
    else if val.pok
    then ok (add_limb s (to_word64 (signed32 (atoi val.pv))) (length val.pv))
    else croak bigint_element

unfoldable pub limb_loop : Sum → List (Option Scalar) → Outcome Sum
limb_loop s [] = ok s
limb_loop s (val ∷ av) = do s' ← limb_step s val; limb_loop s' av

-- sign is '-' (45) if the string at "sign" is "-"
unfoldable pub is_minus : Scalar → Bool
is_minus sign = sign.pok && bytes_eq sign.pv (45 ∷ [])

-- big * sign
unfoldable pub with_sign : Bool → ℕ → ℤ
with_sign minus big = if minus then signed64 ((2 ^ 64 - big) % 2 ^ 64) else signed64 big

abbrev pub sum_start : Sum
sum_start = record { big = 0; offset = 1; digits = 0 }

-- The number that append_sv hands to bson_append_int64.
unfoldable pub big_int_value : Option Scalar → Option (List (Option Scalar)) → Outcome ℤ
big_int_value none value = croak bigint_sign
big_int_value (some sign) none = croak bigint_value
big_int_value (some sign) (some av) = do
  require (leb (length av) 4) bigint_too_large
  s ← limb_loop sum_start av
  ok (with_sign (is_minus sign) s.big)
