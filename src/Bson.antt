-- ===== src/Bson.antt =====
-- The entry points of xs/BSON.xs and xs/OID.xs: decode_bson, encode_bson and _build_value.
pub mod Decoding
pub mod RoundTrip
use mongo_perl_driver.Common.{
  ℕ, zero, suc, ◌+◌, Bool, true, false, Option, none, some, List, [], ◌∷◌, ◌==◌, if◌then◌else◌,
  length, drop, take,
}
use mongo_perl_driver.Perl.{Bytes, Sv, Heap}
use mongo_perl_driver.Outcome.{Outcome, ok, croak, stuck, ◌>>=◌}
use mongo_perl_driver.Libbson.{Libbson, Fields}
use mongo_perl_driver.Encode.Keys.{Config}
use mongo_perl_driver.Encode.Document.{sv_to_bson}
use mongo_perl_driver.Decode.{Out, Reader, full, perl_mongo_bson_to_sv}

-- The arguments that decode_bson passes on: "DateTime", 1, 1.
unfoldable pub decode_options : Reader → Reader
decode_options reader = record reader {
  dt_type = full;
  inflate_dbrefs = true;
  inflate_regexps = true;
}

module _ (reader : Reader) (read : Bytes → Option Fields × ℕ) where
  -- while ((bson = bson_reader_read(reader, &reached_eof))), on the bytes that are not yet read
  unfoldable pub decode_loop : ℕ → Bytes → Outcome (List Out)
  decode_loop zero bytes = stuck
  decode_loop (suc fuel) bytes =
      let (bson, tell) = read bytes in
      elim bson [
        | none ↦ ok []
        | some fs ↦ do
          sv ← perl_mongo_bson_to_sv (decode_options reader) (some fs)
          svs ← decode_loop fuel (drop tell bytes)
          ok (sv ∷ svs)
      ]

  -- decode_bson
  unfoldable pub decode_bson : Bytes → Outcome (List Out)
  unfolding decode_loop
  decode_bson bytes = decode_loop (suc (length bytes)) bytes

-- encode_bson
unfoldable pub encode_bson : (api : Libbson) → Config → Heap → (ℕ → Bytes) → ℕ → Sv → Outcome Bytes
encode_bson api config heap printed fuel obj = do
  (bson, _) ← sv_to_bson api config heap printed fuel api.bson_new obj none
  ok (api.get_data bson)

-- _build_value: the hexadecimal digits of an OID that is given, or of a new one; `none` is the
-- croak "OIDs need to have a length of 24 bytes". `sv_len` counts characters.
unfoldable pub build_value : Option (ℕ × Bytes) → Bytes → Option Bytes
build_value none generated = some (take 24 generated)
build_value (some (sv_len, pv)) generated = if sv_len == 24 then some (take 24 pv) else none
