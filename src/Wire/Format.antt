-- ===== src/Wire/Format.antt =====
-- The bytes of every message: its length first, and no byte left unwritten.
use mongo_perl_driver.Common.{
  ℕ, ◌+◌, ◌%◌, ◌^◌, ◌≡◌, refl, sym, ap, ◌∙◌, Bool, Option, none, some, List, [], ◌∷◌, ◌++◌,
  append_assoc, arith, length, replicate, length-append,
}
use mongo_perl_driver.Outcome.{ok_same, Outcome, ok}
use mathlib.Core.List.{map}
use mongo_perl_driver.Perl.{Bytes, Sv}
use mongo_perl_driver.Encode.Entries.{PushedId}
use mongo_perl_driver.Buffer.{
  Buffer, Cell, pos_of, create_buf, le32, serialize_string, serialize_int, serialize_size,
}
use mongo_perl_driver.Buffer.Capacity.{length-map}
use mongo_perl_driver.Buffer.Writes.{
  Appends, serialize_string_lem, serialize_int_lem, serialize_size_lem,
}
use mongo_perl_driver.Wire.{DocWriter, skip_length, append_header, append_header_ns}

map_append : (xs ys : Bytes) → map {B = Cell} some (xs ++ ys) ≡ map some xs ++ map some ys
map_append [] ys = refl
map_append (x ∷ xs) ys = rw (map_append xs ys)

-- A message under way: four cells for the length, then bytes.
pub record Begun (buf : Buffer) (body : Bytes) : Type 0 where
  pub holds : buf.used ≡ replicate 4 none ++ map some body

pub Begun-then : (a b : Buffer) (xs ys : Bytes) → Begun a xs → Appends a b ys → Begun b (xs ++ ys)
Begun-then a b xs ys begun more = record {
  holds =
      more.contents
      ∙ rw (
        begun.holds,
        map_append xs ys,
        append_assoc (replicate {A = Cell} 4 none) (map some xs) (map some ys),
      );
}

-- The bytes of a finished message: its length and what follows.
abbrev pub message : Bytes → Bytes
message body = le32 ((4 + length body) % 2 ^ 32) ++ body

pub serialize_size-Begun :
    (be : Bool) (buf : Buffer) (body : Bytes)
    → Begun buf body
    → (serialize_size be buf).used ≡ map some (message body)
serialize_size-Begun be buf body begun =
    let count : pos_of buf ≡ 4 + length body = omega (
      arith,
      ap length begun.holds,
      length-append (replicate {A = Cell} 4 none) (map some body),
      length-map {B = Cell} some body,
    ) in
    let (same, holds) = serialize_size_lem be buf (omega arith) in
    holds ∙ rw (count, begun.holds) (sym (map_append (le32 ((4 + length body) % 2 ^ 32)) body))

-- What the messages need of the function that appends a document: when it succeeds it has
-- appended bytes that hold the document.
pub record Writes (put : DocWriter) : Type 1 where
  pub Holds : Sv → Option Bytes → Bytes → List PushedId → Type 0
  pub appends :
      (buf buf' : Buffer) (sv : Sv) (ids : Option Bytes) (pushed : List PushedId)
      → put buf sv ids ≡ ok (buf', pushed)
      → (bytes : Bytes) × Holds sv ids bytes pushed × Appends buf buf' bytes

abbrev pub header_bytes : ℕ → ℕ → ℕ → ℕ → Bytes
header_bytes request_id response_to op opts =
    le32 request_id ++ le32 response_to ++ le32 op ++ le32 opts

abbrev pub ns_bytes : Bytes → Bytes
ns_bytes ns = ns ++ 0 ∷ []

module _ (be : Bool) where
  pub append_header-Begun :
      (n rid rto op opts : ℕ)
      → Begun (append_header be (create_buf n) rid rto op opts) (header_bytes rid rto op opts)
  unfolding append_header create_buf skip_length
  append_header-Begun n rid rto op opts =
      let b0 = skip_length (create_buf n) in
      let s0 : Begun b0 [] = record { holds = refl } in
      let b1 = serialize_int be b0 rid in
      let s1 = Begun-then b0 b1 [] (le32 rid) s0 (serialize_int_lem be b0 rid) in
      let b2 = serialize_int be b1 rto in
      let s2 = Begun-then b1 b2 (le32 rid) (le32 rto) s1 (serialize_int_lem be b1 rto) in
      let b3 = serialize_int be b2 op in
      let s3 = Begun-then b2 b3 (le32 rid ++ le32 rto) (le32 op) s2 (serialize_int_lem be b2 op) in
      Begun-then b3 (serialize_int be b3 opts) (le32 rid ++ le32 rto ++ le32 op) (le32 opts) s3
        (serialize_int_lem be b3 opts)

  pub append_header_ns-Begun :
      (n rid rto op : ℕ) (ns : Bytes) (opts : ℕ)
      → Begun
          (append_header_ns be (create_buf n) rid rto op ns opts)
          (header_bytes rid rto op opts ++ ns_bytes ns)
  unfolding append_header_ns
  append_header_ns-Begun n rid rto op ns opts =
      let s1 = append_header-Begun n rid rto op opts in
      let b1 = append_header be (create_buf n) rid rto op opts in
      Begun-then b1 (serialize_string b1 ns) (header_bytes rid rto op opts) (ns_bytes ns) s1
        (serialize_string_lem b1 ns)

  pub int-Begun :
      (buf : Buffer) (xs : Bytes) (w : ℕ)
      → Begun buf xs
      → Begun (serialize_int be buf w) (xs ++ le32 w)
  int-Begun buf xs w s =
      Begun-then buf (serialize_int be buf w) xs (le32 w) s (serialize_int_lem be buf w)

  pub sent {ℓ} :
      {A : Type ℓ} (buf : Buffer) (body : Bytes) (a : A) (cells : List Cell) (a' : A)
      → Begun buf body
      → ◌≡◌ {A = Outcome (List Cell × A)} (ok ((serialize_size be buf).used, a)) (ok (cells, a'))
      → (a' ≡ a) × (cells ≡ map some (message body))
  sent {A = A} buf body a cells a' s h =
      let same : ◌≡◌ {A = List Cell × A} ((serialize_size be buf).used, a) (cells, a') =
        ok_same h in
      (
        sym (ap (λ (p : List Cell × A). p.1) same),
        sym (ap (λ (p : List Cell × A). p.0) same) ∙ serialize_size-Begun be buf body s,
      )

  module _ (put : DocWriter) (writes : Writes put) where
    pub document-Begun :
        (buf : Buffer) (xs : Bytes) (sv : Sv) (ids : Option Bytes) (out : Buffer × List PushedId)
        → Begun buf xs
        → put buf sv ids ≡ ok out
        → (doc : Bytes) × writes.Holds sv ids doc out.1 × Begun out.0 (xs ++ doc)
    document-Begun buf xs sv ids out s h =
        let (doc, holds, more) = writes.appends buf out.0 sv ids out.1 h in
        (doc, holds, Begun-then buf out.0 xs doc s more)
