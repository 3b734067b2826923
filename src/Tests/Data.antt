-- ===== src/Tests/Data.antt =====
-- The values that the tests encode and decode.
use mongo_perl_driver.Common.{ℕ, true, false, Option, none, some, List, [], ◌∷◌, pos}
use mongo_perl_driver.Perl.{
  Bytes, Scalar, Sv, scalar, rv, HashEntry, IxHash, Referent, Heap, hash, array, tie_ix_hash, code,
  sv_iv, sv_pv,
}
use mongo_perl_driver.Outcome.{ok}
use mongo_perl_driver.Encode.Keys.{Config}
use mongo_perl_driver.Decode.{Reader, raw}

abbrev pub plain_config : Config
plain_config = record {
  special_char = none;
  look_for_numbers = false;
  use_64_bit_int = true;
  perl_upto_10 = false;
  perl_from_12 = true;
  c_timegm = none;
}

abbrev pub integer : ℕ → Scalar
integer n = record {
  sv_type = sv_iv;
  defined = true;
  iok = true;
  iokp = true;
  nok = false;
  pok = false;
  iv = pos n;
  nv = 0;
  pv = [];
  pv_utf8 = [];
  pv_byte = none;
  numeric = 0;
}

abbrev pub text : Bytes → Scalar
text bytes = record {
  sv_type = sv_pv;
  defined = true;
  iok = false;
  iokp = false;
  nok = false;
  pok = true;
  iv = pos 0;
  nv = 0;
  pv = bytes;
  pv_utf8 = bytes;
  pv_byte = some bytes;
  numeric = 0;
}

abbrev pub named : ℕ → Sv → HashEntry
named letter v = record { key = letter ∷ []; utf8 = true; fetched = some v }

-- { a => 5, b => [undef, "x"] }
abbrev pub entries : List HashEntry
entries = named 97 (scalar (integer 5)) ∷ named 98 (rv 1) ∷ []

abbrev pub elements : List (Option Sv)
elements = none ∷ some (scalar (text (120 ∷ []))) ∷ []

-- Tie::IxHash->new(_id => 5, a => 7)
abbrev pub ordered : IxHash
ordered = record {
  id_index = some 0;
  keys = some (95 ∷ 105 ∷ 100 ∷ []) ∷ some (97 ∷ []) ∷ [];
  values = some (scalar (integer 5)) ∷ some (scalar (integer 7)) ∷ [];
}

abbrev pub plain_hash : Referent
plain_hash = record { blessed = none; body = hash entries }

abbrev pub plain_array : Referent
plain_array = record { blessed = none; body = array elements }

abbrev pub ordered_hash : Referent
ordered_hash = record { blessed = some (tie_ix_hash ordered); body = array [] }

abbrev pub small_heap : Heap
small_heap = plain_hash ∷ plain_array ∷ ordered_hash ∷ []

-- A MongoDB::Code whose scope holds the object itself.
abbrev pub code_object : Referent
code_object = record { blessed = some (code [] (some 1)); body = hash [] }

abbrev pub self_scope_hash : Referent
self_scope_hash = record { blessed = none; body = hash (named 102 (rv 0) ∷ []) }

abbrev pub code_heap : Heap
code_heap = code_object ∷ self_scope_hash ∷ []

abbrev pub no_name : ℕ → Bytes
no_name ptr = 72 ∷ []

abbrev pub new_oid : Bytes
new_oid = 1 ∷ 2 ∷ 3 ∷ []

abbrev pub plain_reader : Reader
plain_reader = record {
  utf8_flag_on = true;
  use_binary = false;
  use_boolean = false;
  has_boolean = false;
  use_64_bit_int = true;
  dt_type = raw;
  inflate_dbrefs = false;
  inflate_regexps = false;
  oid_to_string = λ bytes. bytes;
  seconds = λ ms. 0;
  double_to_iv = λ d. pos 0;
  time_t = λ ms. pos 0;
  gmtime = λ t. record {
    tm_year = pos 70;
    tm_mon = pos 0;
    tm_mday = pos 1;
    tm_hour = pos 0;
    tm_min = pos 0;
    tm_sec = pos 0;
  };
  re_compile = λ pattern options. ok tt;
}
