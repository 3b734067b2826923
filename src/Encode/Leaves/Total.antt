-- ===== src/Encode/Leaves/Total.antt =====
-- The branches that append one value always end: with a value or a croak.
use mongo_perl_driver.Common.{ℕ, ◌≢◌, Option, none, some, List, [], ◌∷◌, arith}
use mongo_perl_driver.Perl.{
  Bytes, Scalar, Class, Body, big_int, date_time, date_time_tiny, boolean, code, timestamp, min_key,
  max_key, bson_string, bson_binary, regexp, magic_regexp, bson_regexp, plain,
}
use mongo_perl_driver.Outcome.{stuck, ◌>>=◌, >>=-ne-stuck, require-ne-stuck, ok-ne-stuck, require}
use mongo_perl_driver.Encode.Keys.{Config}
use mongo_perl_driver.Encode.BigInt.{Sum, limb_step, limb_loop, big_int_value}
use mongo_perl_driver.Encode.Regex.{serialize_regex_flags, regex_flags}
use mongo_perl_driver.Encode.Leaves.{
  serialize_binary, string_leaf, scalar_leaf, regex_leaf, tiny_leaf, epoch_of, unknown_leaf,
  object_leaf,
}

pub serialize_binary-ne-stuck : (subtype : ℕ) (sv : Scalar) → serialize_binary subtype sv ≢ stuck
unfolding serialize_binary
serialize_binary-ne-stuck subtype sv = ground arith

pub scalar_leaf-ne-stuck : (config : Config) (sv : Scalar) → scalar_leaf config sv ≢ stuck
unfolding scalar_leaf string_leaf
scalar_leaf-ne-stuck config sv = ground (arith, serialize_binary-ne-stuck 0 sv)

limb_step-ne-stuck : (s : Sum) (val : Option Scalar) → limb_step s val ≢ stuck
unfolding limb_step
limb_step-ne-stuck s none = λ e. cc
limb_step-ne-stuck s (some val) = ground arith

limb_loop-ne-stuck : (s : Sum) (av : List (Option Scalar)) → limb_loop s av ≢ stuck
unfolding limb_loop
limb_loop-ne-stuck s [] = λ e. cc
limb_loop-ne-stuck s (val ∷ av) =
    >>=-ne-stuck (limb_step s val) (λ s'. limb_loop s' av) (limb_step-ne-stuck s val)
      (λ s' _. limb_loop-ne-stuck s' av)

big_int_value-ne-stuck :
    (sign : Option Scalar) (value : Option (List (Option Scalar)))
    → big_int_value sign value ≢ stuck
unfolding big_int_value
big_int_value-ne-stuck none value = λ e. cc
big_int_value-ne-stuck (some sign) none = λ e. cc
big_int_value-ne-stuck (some sign) (some av) =
    >>=-ne-stuck (require _ _) _ (require-ne-stuck _ _)
      λ _ _. >>=-ne-stuck (limb_loop _ av) _ (limb_loop-ne-stuck _ av) λ s _. ok-ne-stuck _

regex_leaf-ne-stuck : (pattern : Bytes) (flags : Option Bytes) → regex_leaf pattern flags ≢ stuck
unfolding regex_leaf serialize_regex_flags regex_flags ◌>>=◌
regex_leaf-ne-stuck pattern none = λ e. cc
regex_leaf-ne-stuck pattern (some flags) = λ e. cc

unknown_leaf-ne-stuck : (body : Body) → unknown_leaf body ≢ stuck
unfolding unknown_leaf
unknown_leaf-ne-stuck (plain sv) = ground (arith, serialize_binary-ne-stuck 0 sv)
unknown_leaf-ne-stuck _ = λ e. cc

pub object_leaf-ne-stuck :
    (config : Config) (body : Body) (class : Class) → object_leaf config body class ≢ stuck
unfolding object_leaf tiny_leaf epoch_of ◌>>=◌
object_leaf-ne-stuck config body (big_int sign value) =
    ground (arith, big_int_value-ne-stuck sign value)
object_leaf-ne-stuck config body (date_time tz sec ms) = λ e. cc
object_leaf-ne-stuck config body (date_time_tiny y m d h mi s) = ground arith
object_leaf-ne-stuck config body (boolean iv) = λ e. cc
object_leaf-ne-stuck config body (code str scope) = λ e. cc
object_leaf-ne-stuck config body (timestamp sec inc) = λ e. cc
object_leaf-ne-stuck config body min_key = λ e. cc
object_leaf-ne-stuck config body max_key = λ e. cc
object_leaf-ne-stuck config body (bson_string none) = λ e. cc
object_leaf-ne-stuck config body (bson_string (some str)) = λ e. cc
object_leaf-ne-stuck config body (bson_binary subtype sv) = serialize_binary-ne-stuck _ sv
object_leaf-ne-stuck config body (regexp pattern flags) =
    ground (arith, regex_leaf-ne-stuck pattern flags)
object_leaf-ne-stuck config body (magic_regexp pattern flags) =
    ground (arith, regex_leaf-ne-stuck pattern flags)
object_leaf-ne-stuck config body (bson_regexp pattern flags) =
    ground (arith, unknown_leaf-ne-stuck body)
object_leaf-ne-stuck config body _ = unknown_leaf-ne-stuck body
