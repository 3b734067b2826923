-- ===== src/Bson/RoundTrip.antt =====
-- The documents that encode_bson makes of plain hashes, as decode_bson reads them.
use mongo_perl_driver.Common.{
  ℕ, ◌≡◌, sym, ap, ◌∙◌, true, false, Option, none, some, List, [], ◌∷◌, ◌++◌,
}
use mathlib.Core.Path.{subst}
use mongo_perl_driver.Perl.{Bytes, Sv, rv, HashEntry, Referent, Heap, hash}
use mongo_perl_driver.Outcome.{ok_same, ok, ◌>>=◌, >>=-eq-ok}
use mongo_perl_driver.Libbson.{Libbson, LibbsonLaws, Fields, ◌⋈◌}
use mongo_perl_driver.Encode.Keys.{Config}
use mongo_perl_driver.Encode.Circular.{empty_stack}
use mongo_perl_driver.Encode.Append.{append_sv, hv_to_bson}
use mongo_perl_driver.Encode.Entries.{PushedId, referent_at, as_hash, find_id}
use mongo_perl_driver.Encode.Append.Meaning.{HashEncodes}
use mongo_perl_driver.Encode.Append.Containers.{hv_to_bson_run, start_none}
use mongo_perl_driver.Encode.Append.Faithful.{append_sv-Sound}
use mongo_perl_driver.Encode.Document.{sv_to_bson, sv_to_bson_body}
use mongo_perl_driver.Decode.{Out, Entries, Reader, fresh, perl_mongo_bson_to_sv}
use mongo_perl_driver.Decode.Plain.{Plain, p_hash, PlainEntries, StaysHash}
use mongo_perl_driver.Decode.RoundTrip.{entries_back, finish_plain, Harmless-fresh}
use mongo_perl_driver.Bson.{decode_options, decode_bson, encode_bson}
use mongo_perl_driver.Bson.Decoding.{Encoded, no_objects, object, ReadsBack, decode_bson_lem}

module _ (api : Libbson) (laws : LibbsonLaws api) (config : Config) (heap : Heap)
    (printed : ℕ → Bytes) where
  -- Hashes of values that are read back as they were stored, the bytes that encode_bson makes of
  -- them, whose every append libbson accepts, and the values that stand for the hashes.
  pub data Written : List Sv → Bytes → List Out → Type 0 where
    none_written : Written [] [] []
    written :
        {obj : Sv} {objs : List Sv} {bytes rest : Bytes} {es : Entries} {outs : List Out} (fuel : ℕ)
        → Plain heap true obj (Out.hash es)
        → encode_bson api config heap printed fuel obj ≡ ok bytes
        → ((bson : api.Bson) (ids : List PushedId)
            → sv_to_bson api config heap printed fuel api.bson_new obj none ≡ ok (bson, ids)
            → api.accepted bson ≡ true)
        → Written objs rest outs
        → Written (obj ∷ objs) (bytes ++ rest) (Out.hash es ∷ outs)

  -- What the top-level hash is stored as.
  stored :
      (fuel ptr : ℕ) (r : Referent) (hv : List HashEntry) (bson : api.Bson) (ids : List PushedId)
      → referent_at heap ptr ≡ ok r
      → r.body ≡ hash hv
      → sv_to_bson api config heap printed fuel api.bson_new (rv ptr) none ≡ ok (bson, ids)
      → api.accepted bson ≡ true
      → HashEncodes api config heap false false hv (api.fields bson)
  unfolding sv_to_bson sv_to_bson_body ◌>>=◌ as_hash
  stored fuel ptr r hv bson ids at body made accepted =
      let rec = append_sv api config heap fuel in
      let call : hv_to_bson api config heap rec api.bson_new ptr none empty_stack false
          ≡ ok (bson, ids) =
        rw (sv_to_bson, at, ◌>>=◌, body, sv_to_bson_body) at made in
      let run =
        hv_to_bson_run api config heap rec (append_sv-Sound api laws config heap fuel) api.bson_new
          ptr none empty_stack false (bson, ids) call in
      let same : run.found ≡ r = ok_same (sym run.at ∙ at) in
      let entries : run.entries ≡ hv =
        ok_same (sym run.body ∙ ap (λ x. as_hash x.body) same ∙ ap as_hash body) in
      let empty : api.bson_new ≡ run.start.0 =
        start_none api config heap rec run.inner_stack false api.bson_new (find_id run.entries)
          run.start run.before in
      let (_, grown) = run.grows accepted in
      let fields : api.fields bson ≡ run.added =
        grown
        ∙ ap (λ b. api.fields b ⋈ run.added) (sym empty)
        ∙ ap (λ fs. fs ⋈ run.added) laws.fields-new in
      subst (HashEncodes api config heap false false hv) (sym fields)
        (subst (λ l. HashEncodes api config heap false false l run.added) entries run.encodes)

  module _ (reader : Reader) (read : Bytes → Option Fields × ℕ)
      (no_numbers : config.look_for_numbers ≡ false) (wide : config.use_64_bit_int ≡ true)
      (modern : config.perl_upto_10 ≡ false) (plain_keys : config.special_char ≡ none)
      (flagged : reader.utf8_flag_on ≡ true) (wide_back : reader.use_64_bit_int ≡ true) where
    hash_back :
        (fuel ptr : ℕ) (r : Referent) (hv : List HashEntry) (es : Entries) (bson : api.Bson)
        (ids : List PushedId)
        → referent_at heap ptr ≡ ok r
        → r.body ≡ hash hv
        → StaysHash true hv
        → PlainEntries heap true Entries.empty hv es
        → sv_to_bson api config heap printed fuel api.bson_new (rv ptr) none ≡ ok (bson, ids)
        → api.accepted bson ≡ true
        → perl_mongo_bson_to_sv (decode_options reader) (some (api.fields bson)) ≡ ok (Out.hash es)
    unfolding decode_options perl_mongo_bson_to_sv ◌>>=◌
    hash_back fuel ptr r hv es bson ids at body stays shape made accepted =
        let r' = decode_options reader in
        let (t, filled, ret, left) =
          entries_back api config heap r' false no_numbers wide modern plain_keys flagged wide_back
            fresh hv (api.fields bson) es (stored fuel ptr r hv bson ids at body made accepted)
            shape
            (Harmless-fresh api config heap r' false no_numbers wide modern plain_keys flagged
              wide_back hv stays) in
        let done =
          finish_plain api config heap r' false no_numbers wide modern plain_keys flagged wide_back
            t left in
        rw (filled, done, ret)

    hash_value :
        (fuel : ℕ) (obj : Sv) (es : Entries) (bson : api.Bson) (ids : List PushedId)
        → Plain heap true obj (Out.hash es)
        → sv_to_bson api config heap printed fuel api.bson_new obj none ≡ ok (bson, ids)
        → api.accepted bson ≡ true
        → perl_mongo_bson_to_sv (decode_options reader) (some (api.fields bson)) ≡ ok (Out.hash es)
    hash_value fuel obj es bson ids (p_hash at none_here body stays shape) made accepted =
        hash_back fuel _ _ _ es bson ids at body stays shape made accepted

    encoded :
        {objs : List Sv} {bytes : Bytes} {outs : List Out}
        → Written objs bytes outs
        → Encoded api config heap printed reader read objs bytes outs
    unfolding encode_bson ◌>>=◌
    encoded none_written = no_objects
    encoded
          (written {obj = obj} {objs = objs} {rest = rest} {es = es} {outs = outs} fuel shape made
            accepts others) =
        let ((bson, ids), stored, as_bytes) =
          >>=-eq-ok (sv_to_bson api config heap printed fuel api.bson_new obj none) _ made in
        let accepted = accepts bson ids stored in
        subst
          (λ b.
            Encoded api config heap printed reader read (obj ∷ objs) (b ++ rest)
              (Out.hash es ∷ outs))
          (ok_same as_bytes)
          (object fuel bson ids stored accepted
            (hash_value fuel obj es bson ids shape stored accepted) (encoded others))

-- decode_bson comes to an end and gives back the hashes of undefined values, integers, doubles,
-- strings, and hashes and arrays of these to any depth, whose bytes encode_bson has made, when
-- these stand one after the other and libbson accepts every append and reads a document back: with
-- UTF-8 keys that have no NUL byte and are not "$ref", 64-bit integers used on both sides, the UTF-8
-- flag set on strings, and neither looks_like_number nor a special character set.
pub decode_bson-encode_bson :
    (api : Libbson) (laws : LibbsonLaws api) (config : Config) (heap : Heap) (printed : ℕ → Bytes)
    (reader : Reader) (read : Bytes → Option Fields × ℕ)
    → config.look_for_numbers ≡ false
    → config.use_64_bit_int ≡ true
    → config.perl_upto_10 ≡ false
    → config.special_char ≡ none
    → reader.utf8_flag_on ≡ true
    → reader.use_64_bit_int ≡ true
    → ReadsBack api config heap printed reader read
    → (objs : List Sv) (bytes : Bytes) (outs : List Out)
    → Written api laws config heap printed objs bytes outs
    → decode_bson reader read bytes ≡ ok outs
decode_bson-encode_bson api laws config heap printed reader read no_numbers wide modern plain_keys
      flagged wide_back law objs bytes outs w =
    decode_bson_lem api config heap printed reader read law objs bytes outs (
      encoded api laws config heap printed reader read no_numbers wide modern plain_keys flagged
        wide_back w)
