-- ===== src/Encode/Leaves.antt =====
-- The branches of append_sv that append one value with no document inside.
pub mod Total
use mongo_perl_driver.Common.{
  ℕ, ◌+◌, ◌*◌, ◌/◌, ◌%◌, ◌^◌, Bool, true, false, not, ◌&&◌, ◌||◌, Option, none, some, [], ◌∷◌, ◌==◌,
  if◌then◌else◌, length, bytes_eq, ℤ, pos, negsuc, signed32, ◌+ℤ◌,
}
use mongo_perl_driver.Perl.{
  Bytes, Scalar, Class, Body, SvType, body_type, sv_iv, sv_nv, sv_pv, sv_pviv, sv_pvnv, sv_pvmg,
  sv_pvlv, big_int, date_time, date_time_tiny, boolean, code, timestamp, min_key, max_key,
  bson_string, bson_binary, regexp, magic_regexp, bson_regexp, plain,
}
use mongo_perl_driver.Libbson.{Leaf}
use mongo_perl_driver.Outcome.{
  Outcome, ok, croak, ◌>>=◌, wide_character, unhandled_sv, bad_pointer, string_not_pok,
  unhandled_class,
}
use mongo_perl_driver.Encode.Keys.{Config, c_string}
use mongo_perl_driver.Encode.BigInt.{to_word64, signed64, big_int_value}
use mongo_perl_driver.Encode.Regex.{serialize_regex_flags}
use mongo_perl_driver.Encode.Calendar.{Tm, timegm, to_unsigned}

-- (int)iv
unfoldable pub to_int32 : ℤ → ℤ
to_int32 iv = signed32 (to_unsigned iv)

-- serialize_binary
unfoldable pub serialize_binary : ℕ → Scalar → Outcome Leaf
serialize_binary subtype sv = elim sv.pv_byte [
  | none ↦ croak wide_character
  | some bytes ↦ ok (Leaf.binary subtype bytes)
]

-- SvNV(sv) == 0, of the bit patterns of 0.0 and -0.0
unfoldable pub is_zero : ℕ → Bool
is_zero nv = (nv == 0) || (nv == 2 ^ 63)

-- is_string, which Perls up to 5.10 need
unfoldable pub is_string : Config → Scalar → Bool
unfolding is_zero
is_string config sv =
    config.perl_upto_10
    && (sv.pok
        && (((sv.nok && is_zero sv.nv) || (sv.iok && (to_word64 sv.iv == 0)))
            && not (bytes_eq (c_string sv.pv) (48 ∷ []))))

-- aggressively_number, and its bit IS_NUMBER_NOT_INT
unfoldable pub aggressively_number : Config → Scalar → ℕ
aggressively_number config sv = if config.look_for_numbers then sv.numeric else 0

unfoldable pub not_int : ℕ → Bool
not_int flags = flags / 4 % 2 == 1

-- The types whose cases the switch on SvTYPE(sv) has.
unfoldable pub is_value_type : SvType → Bool
is_value_type sv_iv = true
is_value_type sv_nv = true
is_value_type sv_pv = true
is_value_type sv_pviv = true
is_value_type sv_pvnv = true
is_value_type sv_pvmg = true
is_value_type sv_pvlv = true
is_value_type _ = false

unfoldable pub int_leaf : Config → ℤ → Leaf
int_leaf config iv = if config.use_64_bit_int then Leaf.int64 iv else Leaf.int32 (to_int32 iv)

-- The string case: binary if a NUL byte stands in the string, text otherwise.
unfoldable pub string_leaf : Scalar → Outcome Leaf
string_leaf sv =
    if length sv.pv == length (c_string sv.pv)
    then ok (Leaf.utf8 sv.pv_utf8)
    else serialize_binary 0 sv

-- The branch for what is no reference.
unfoldable pub scalar_leaf : Config → Scalar → Outcome Leaf
scalar_leaf config sv =
    let text = is_string config sv in
    let number = aggressively_number config sv in
    if not (is_value_type sv.sv_type)
    then croak unhandled_sv
    else if not_int number || (not text && sv.nok)
    then ok (Leaf.double sv.nv)
    else if not (number == 0) || (not text && (sv.iok || (sv.iokp && not sv.pok)))
    then ok (int_leaf config sv.iv)
    else string_leaf sv

-- (int64_t)SvIV(sec)*1000+SvIV(ms)
unfoldable pub milliseconds : ℤ → ℤ → ℤ
milliseconds sec ms = signed64 ((to_word64 sec * 1000 + to_word64 ms) % 2 ^ 64)

-- serialize_regex
unfoldable pub regex_leaf : Bytes → Option Bytes → Outcome Leaf
regex_leaf pattern flags = do
  (kept, stripped) ← serialize_regex_flags flags
  ok (Leaf.regex (c_string pattern) kept)

-- SvTYPE(SvRV(sv)) == SVt_PVMG
unfoldable pub is_pvmg : Body → Bool
is_pvmg body = elim (body_type body) [ sv_pvmg ↦ true | _ ↦ false ]

-- The timegm that the build has.
unfoldable pub epoch_of : Config → Tm → Option ℤ
epoch_of config tm = elim config.c_timegm [ none ↦ timegm tm | some c_timegm ↦ some (c_timegm tm) ]

unfoldable pub tiny_leaf : Config → Tm → Outcome Leaf
unfolding epoch_of
tiny_leaf config tm = elim (epoch_of config tm) [
  | none ↦ croak bad_pointer
  | some epoch ↦ ok (Leaf.date_time (milliseconds epoch (pos 0)))
]

-- What is left of the chain of class tests for an object of no class with a case of its own.
unfoldable pub unknown_leaf : Body → Outcome Leaf
unknown_leaf (plain sv) =
    if is_pvmg (plain sv) then serialize_binary 0 sv else croak unhandled_class
unknown_leaf body = croak unhandled_class

-- The object branches, without those that append a document.
unfoldable pub object_leaf : Config → Body → Class → Outcome Leaf
object_leaf config body (big_int sign value) = do
  big ← big_int_value sign value
  ok (Leaf.int64 big)
object_leaf config body (date_time tz sec ms) = ok (Leaf.date_time (milliseconds sec ms))
object_leaf config body (date_time_tiny year mon mday hour min sec) = tiny_leaf config (record {
  tm_year = to_int32 (to_int32 year +ℤ negsuc 1899);
  tm_mon = to_int32 (to_int32 mon +ℤ negsuc 0);
  tm_mday = to_int32 mday;
  tm_hour = to_int32 hour;
  tm_min = to_int32 min;
  tm_sec = to_int32 sec;
})
object_leaf config body (boolean iv) = ok (Leaf.bool (not (to_word64 iv == 0)))
object_leaf config body (code str scope) = ok (Leaf.code (c_string str))
object_leaf config body (timestamp sec inc) =
    ok (Leaf.timestamp (to_unsigned sec) (to_unsigned inc))
object_leaf config body min_key = ok Leaf.minkey
object_leaf config body max_key = ok Leaf.maxkey
object_leaf config body (bson_string none) = croak string_not_pok
object_leaf config body (bson_string (some str)) = ok (Leaf.utf8 str)
object_leaf config body (bson_binary subtype sv) = serialize_binary (to_unsigned subtype) sv
object_leaf config body (regexp pattern flags) =
    if config.perl_from_12
    then regex_leaf pattern flags
    else if is_pvmg body
    then regex_leaf pattern flags
    else croak unhandled_class
object_leaf config body (magic_regexp pattern flags) =
    if is_pvmg body then regex_leaf pattern flags else croak unhandled_class
object_leaf config body (bson_regexp pattern flags) =
    if is_pvmg body then unknown_leaf body else ok (Leaf.regex (c_string pattern) (c_string flags))
object_leaf config body _ = unknown_leaf body
