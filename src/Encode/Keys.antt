-- ===== src/Encode/Keys.antt =====
-- Field names: containsNullChar and clean_key, and the bytes_to_utf8 of a name without the flag.
use mongo_perl_driver.Common.{
  ℕ, ◌+◌, ◌/◌, ◌%◌, ◌≤◌, ◌≡◌, refl, ◌≢◌, ◌↔◌, Bool, false, not, ◌&&◌, ◌||◌, Option, none, some, [],
  ◌∷◌, arith, ltb, ◌==◌, if◌then◌else◌, length, ℤ,
}
use mongo_perl_driver.Perl.{Bytes}
use mongo_perl_driver.Encode.Calendar.{Tm}
use mongo_perl_driver.Outcome.{
  Outcome, ok, croak, stuck, require, null_in_key, empty_key, dot_in_key,
}

-- strchr(str, c), strlen(str) < len
unfoldable pub contains : Bytes → ℕ → Bool
contains [] c = false
contains (x ∷ xs) c = (x == c) || contains xs c

-- The C string that a byte string is read as: what stands before its first NUL.
unfoldable pub c_string : Bytes → Bytes
c_string [] = []
c_string (x ∷ xs) = if x == 0 then [] else x ∷ c_string xs

unfoldable pub contains_null_char : Bytes → Outcome (Unit {0})
contains_null_char str = require (not (ltb (length (c_string str)) (length str))) null_in_key

-- What the encoder reads of the interpreter's globals and of the build.
pub record Config : Type 0 where
  -- the string of $MongoDB::BSON::char, if it is one (SvPOK)
  pub special_char : Option Bytes
  -- $MongoDB::BSON::looks_like_number, if SvIOK and not 0
  pub look_for_numbers : Bool
  -- MONGO_USE_64_BIT_INT
  pub use_64_bit_int : Bool
  -- PERL_VERSION <= 10, and PERL_VERSION >= 12
  pub perl_upto_10 : Bool
  pub perl_from_12 : Bool
  -- timegm of the C library; `none` is a build with the surrogate, on Windows and Solaris
  pub c_timegm : Option (Tm → ℤ)

-- SvPV_nolen(special_char)[0] == str[0], of a name that is not empty
unfoldable pub starts_special : Option Bytes → ℕ → Bool
starts_special none c = false
starts_special (some []) c = 0 == c
starts_special (some (x ∷ xs)) c = x == c

-- The name as it is stored; `$` is 36 and `.` is 46.
unfoldable pub clean_key : Config → Bool → Bytes → Outcome Bytes
clean_key config is_insert [] = croak empty_key
clean_key config is_insert (c ∷ cs) =
    if c == 0
    then croak empty_key
    else if is_insert && contains (c ∷ cs) 46
    then croak dot_in_key
    else if starts_special config.special_char c
    then ok (36 ∷ cs)
    else ok (c ∷ cs)

-- bytes_to_utf8 on one byte of Latin-1.
unfoldable pub latin1_utf8 : Bytes → Bytes
latin1_utf8 [] = []
latin1_utf8 (b ∷ bs) =
    if ltb b 128 then b ∷ latin1_utf8 bs else (192 + b / 64) ∷ (128 + b % 64) ∷ latin1_utf8 bs

length-c_string :
    (str : Bytes)
    → (length (c_string str) ≤ length str)
      × ((contains str 0 ≡ false) ↔ (length str ≤ length (c_string str)))
unfolding c_string contains
length-c_string [] = ground arith
length-c_string (x ∷ xs) = ground (arith, length-c_string xs)

-- containsNullChar croaks exactly on the names in which a NUL byte stands.
pub contains_null_char_iff :
    (str : Bytes) → (contains_null_char str ≡ ok tt) ↔ (contains str 0 ≡ false)
unfolding contains_null_char
contains_null_char_iff str = ground (arith, length-c_string str)

pub c_string_same : (str : Bytes) → contains str 0 ≡ false → c_string str ≡ str
unfolding c_string contains
c_string_same [] h = refl
c_string_same (x ∷ xs) h = ground (arith, c_string_same xs)

pub clean_key-ne-stuck :
    (config : Config) (is_insert : Bool) (key : Bytes) → clean_key config is_insert key ≢ stuck
unfolding clean_key
clean_key-ne-stuck config is_insert [] = λ e. cc
clean_key-ne-stuck config is_insert (c ∷ cs) = ground arith

-- Without a special character the only names refused are the empty one and, on an insert, those
-- with a dot; all others are stored as they are.
pub clean_key_plain :
    (config : Config) (is_insert : Bool) (c : ℕ) (cs : Bytes)
    → config.special_char ≡ none
    → c ≢ 0
    → clean_key config is_insert (c ∷ cs)
      ≡ (if is_insert && contains (c ∷ cs) 46 then croak dot_in_key else ok (c ∷ cs))
unfolding clean_key starts_special
clean_key_plain config is_insert c cs h k = ground arith
