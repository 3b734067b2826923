-- ===== src/Bson/Decoding.antt =====
-- decode_bson on several documents, one after the other, as encode_bson makes them.
use mongo_perl_driver.Common.{
  ℕ, zero, suc, ◌<◌, ◌≡◌, ap, ◌∙◌, true, Option, none, some, List, [], ◌∷◌, ◌++◌, arith, length,
  drop, length-append, drop-append,
}
use mongo_perl_driver.Perl.{Bytes, Sv, Heap}
use mongo_perl_driver.Outcome.{ok, ◌>>=◌}
use mongo_perl_driver.Libbson.{Libbson, Fields}
use mongo_perl_driver.Encode.Keys.{Config}
use mongo_perl_driver.Encode.Entries.{PushedId}
use mongo_perl_driver.Encode.Document.{sv_to_bson}
use mongo_perl_driver.Decode.{Out, Reader, perl_mongo_bson_to_sv}
use mongo_perl_driver.Bson.{decode_options, decode_loop, decode_bson}

module _ (api : Libbson) (config : Config) (heap : Heap) (printed : ℕ → Bytes) (reader : Reader)
    (read : Bytes → Option Fields × ℕ) where
  -- Objects, the bytes that encode_bson makes of them, and the values that their documents are
  -- read as.
  pub data Encoded : List Sv → Bytes → List Out → Type 0 where
    no_objects : Encoded [] [] []
    object :
        {obj : Sv} {objs : List Sv} {bytes : Bytes} {out : Out} {outs : List Out} (fuel : ℕ)
        (bson : api.Bson) (ids : List PushedId)
        → sv_to_bson api config heap printed fuel api.bson_new obj none ≡ ok (bson, ids)
        → api.accepted bson ≡ true
        → perl_mongo_bson_to_sv (decode_options reader) (some (api.fields bson)) ≡ ok out
        → Encoded objs bytes outs
        → Encoded (obj ∷ objs) (api.get_data bson ++ bytes) (out ∷ outs)

  -- bson_reader_read finds the document at which the data start, and nothing at their end.
  pub record ReadsBack : Type 0 where
    pub at_end : (read []).0 ≡ none
    pub document :
        (bson : api.Bson) (rest : Bytes)
        → api.accepted bson ≡ true
        → (read (api.get_data bson ++ rest) ≡ (some (api.fields bson), length (api.get_data bson)))
          × (0 < length (api.get_data bson))

  one_more :
      (fuel tell : ℕ) (bytes : Bytes) (fs : Fields) (out : Out) (outs : List Out)
      → (read bytes).0 ≡ some fs
      → (read bytes).1 ≡ tell
      → perl_mongo_bson_to_sv (decode_options reader) (some fs) ≡ ok out
      → decode_loop reader read fuel (drop tell bytes) ≡ ok outs
      → decode_loop reader read (suc fuel) bytes ≡ ok (out ∷ outs)
  unfolding decode_loop ◌>>=◌
  one_more fuel tell bytes fs out outs found told value rest =
      rw (decode_loop, found, value, ◌>>=◌, told, rest)

  decode_loop_lem :
      ReadsBack
      → (fuel : ℕ) {objs : List Sv} {bytes : Bytes} {outs : List Out} → Encoded objs bytes outs
      → length bytes < fuel
      → decode_loop reader read fuel bytes ≡ ok outs
  unfolding decode_loop ◌>>=◌
  decode_loop_lem law zero e h = elim h [ ]
  decode_loop_lem law (suc fuel) no_objects h = rw (decode_loop, law.at_end)
  decode_loop_lem law (suc fuel)
        (object {bytes = bytes} {out = out} {outs = outs} _ bson ids made accepted value rest) h =
      let (found, some_bytes) = law.document bson bytes accepted in
      let shorter : length bytes < fuel = omega (arith, length-append (api.get_data bson) bytes) in
      let left : drop (length (api.get_data bson)) (api.get_data bson ++ bytes) ≡ bytes =
        drop-append (api.get_data bson) bytes in
      one_more fuel (length (api.get_data bson)) (api.get_data bson ++ bytes) (api.fields bson) out
        outs (ap (λ r. r.0) found) (ap (λ r. r.1) found) value
        (ap (decode_loop reader read fuel) left ∙ decode_loop_lem law fuel rest shorter)

  -- decode_bson takes the documents apart that perl_mongo_sv_to_bson has made of objects, when
  -- their bytes stand one after the other: it comes to an end and gives the value of each, in their
  -- order, with dates as DateTime, and DBRefs and regular expressions inflated.
  pub decode_bson_lem :
      ReadsBack
      → (objs : List Sv) (bytes : Bytes) (outs : List Out) → Encoded objs bytes outs
      → decode_bson reader read bytes ≡ ok outs
  unfolding decode_bson
  decode_bson_lem law objs bytes outs e = decode_loop_lem law (suc (length bytes)) e (omega arith)
