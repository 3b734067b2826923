-- ===== src/Wire/Documents.antt =====
-- perl_mongo_sv_to_buffer as the function that the messages append their documents with.
use mongo_perl_driver.Common.{ℕ, ◌+◌, ◌≡◌, refl, ap, Option, some, List, ◌++◌, length}
use mongo_perl_driver.Outcome.{ok_same, ok, >>=-eq-ok}
use mongo_perl_driver.Libbson.{Libbson}
use mongo_perl_driver.Encode.Document.{sv_to_bson, sv_to_buffer}
use mathlib.Core.List.{map}
use mongo_perl_driver.Perl.{Bytes, Sv, Heap}
use mongo_perl_driver.Encode.Keys.{Config}
use mongo_perl_driver.Encode.Entries.{PushedId}
use mongo_perl_driver.Buffer.{Buffer, pos_of}
use mongo_perl_driver.Buffer.Writes.{Appends}
use mongo_perl_driver.Wire.{DocWriter}
use mongo_perl_driver.Wire.Format.{Writes}

module _ (api : Libbson) (config : Config) (heap : Heap) (printed : ℕ → Bytes)
    (writer_size : ℕ → ℕ → ℕ) (fuel : ℕ) where
  -- A document's bytes: those of the bson_t that perl_mongo_sv_to_bson fills, and its ids.
  abbrev pub Document : Sv → Option Bytes → Bytes → List PushedId → Type 0
  Document sv ids bytes pushed =
      (b : api.Bson) × (sv_to_bson api config heap printed fuel api.bson_new sv ids
        ≡ ok (b, pushed))
      × (bytes ≡ api.get_data b)

  abbrev pub put_document : DocWriter
  put_document = sv_to_buffer api config heap printed writer_size fuel

  pub sv_to_buffer_lem :
      (buf buf' : Buffer) (sv : Sv) (ids : Option Bytes) (pushed : List PushedId)
      → put_document buf sv ids ≡ ok (buf', pushed)
      → (bytes : Bytes) × Document sv ids bytes pushed × Appends buf buf' bytes
  unfolding sv_to_buffer
  sv_to_buffer_lem buf buf' sv ids pushed h =
      let (p, made, done) =
        >>=-eq-ok (sv_to_bson api config heap printed fuel api.bson_new sv ids) _ h in
      let bytes = api.get_data p.0 in
      let same : ◌≡◌ {A = Buffer × List PushedId}
          (
            record {
              total = writer_size buf.total (pos_of buf + length bytes);
              used = buf.used ++ map some bytes;
            },
            p.1,
          )
          (buf', pushed) =
        ok_same done in
      let is : ◌≡◌ {A = Buffer}
          (record {
            total = writer_size buf.total (pos_of buf + length bytes);
            used = buf.used ++ map some bytes;
          })
          buf' =
        ap (λ (q : Buffer × List PushedId). q.0) same in
      let ids_same : p.1 ≡ pushed = ap (λ (q : Buffer × List PushedId). q.1) same in
      (bytes, (p.0, rw (← ids_same) made, refl), record { contents = rw (← is) })

  abbrev pub buffer_writes : Writes put_document
  buffer_writes = record {
    Holds = Document;
    appends = λ buf buf' sv ids pushed h. sv_to_buffer_lem buf buf' sv ids pushed h;
  }
