-- ===== src/Link/Exchange.antt =====
-- A reply to the request that was sent, from its first byte on.
use mongo_perl_driver.Common.{
  ℕ, suc, ◌+◌, ◌%◌, ◌^◌, ◌≤◌, ◌<◌, ◌≡◌, sym, ap, ◌∙◌, ◌⊎◌, inl, inr, Bool, true, false, some, List,
  ◌++◌, arith, ◌==◌, ==_iff, length, take, drop, length-append, drop-append, ℤ, pos, negsuc, ltb_ℤ,
  signed32, ◌+ℤ◌,
}
use mathlib.Core.Path.{subst}
use mathlib.Core.List.{map}
use mongo_perl_driver.Perl.{Bytes}
use mongo_perl_driver.Buffer.{Cell, le32}
use mongo_perl_driver.Encode.Calendar.{to_unsigned}
use mongo_perl_driver.Link.{Network, State}
use mongo_perl_driver.Link.Hear.{
  receive_int, bad_length, get_header, match_request, read_reply, hear_response,
}
use mongo_perl_driver.Link.Cursor.{Cursor, heard, failed, read_failed}
use mongo_perl_driver.Link.Reader.{Stream}
use mongo_perl_driver.Link.Reply.{Whole, reply_bytes, read_reply_lem}
use mongo_perl_driver.Link.Words.{take-prefix, mongo_32-word_of, four}

ltb_ℤ-same : (a : ℤ) → ltb_ℤ a a ≡ false
ltb_ℤ-same (pos n) = ground arith
ltb_ℤ-same (negsuc n) = ground arith

pub ltb_ℤ-eq : (a b : ℤ) → a ≡ b → ltb_ℤ a b ≡ false
ltb_ℤ-eq a b h = subst (λ c. ltb_ℤ a c ≡ false) h (ltb_ℤ-same a)

module _ (be : Bool) (net : Network) (stream : Stream net) (whole : Whole net stream) where
  open stream use {remaining}

  receive_int_lem :
      (w : net.World) (v : ℕ) (rest : Bytes)
      → v < 2 ^ 32
      → remaining w ≡ le32 v ++ rest
      → ((receive_int be net w).0 ≡ some (signed32 v))
        × (remaining ((receive_int be net w).1) ≡ rest)
  unfolding receive_int
  receive_int_lem w v rest small is =
      let prefix : take 4 (le32 v ++ rest) ≡ le32 v =
        subst (λ k. take k (le32 v ++ rest) ≡ le32 v) (four v) (take-prefix (le32 v) rest) in
      let got : (net.receiver w 4).0 ≡ some (le32 v) =
        whole w 4 (omega arith) (omega (arith, ap length is, length-append (le32 v) rest, four v))
        ∙ ap some (rw is prefix) in
      let next : le32 v ++ rest ≡ le32 v ++ remaining ((net.receiver w 4).1) =
        sym is ∙ (stream.received w 4 (le32 v) got).1 in
      let left : remaining ((net.receiver w 4).1) ≡ rest = sym (
        sym (drop-append (le32 v) rest)
        ∙ (ap (drop (length (le32 v))) next
            ∙ drop-append (le32 v) (remaining ((net.receiver w 4).1)))) in
      let count : (length (le32 v) == 4) ≡ true = (==_iff (length (le32 v)) 4).1 (four v) in
      (rw (receive_int, got, count, mongo_32-word_of be v small), rw (receive_int, got, count) left)

  -- The bytes of a message from the server.
  abbrev pub response_bytes : ℕ → ℕ → ℕ → ℕ → Bytes → Bytes
  response_bytes len id answered op rest =
      le32 len ++ (le32 id ++ (le32 answered ++ (le32 op ++ rest)))

  pub get_header_lem :
      (s : State net.World) (len id answered op : ℕ) (rest : Bytes)
      → 36 ≤ len
      → len ≤ 67108864
      → id < 2 ^ 32
      → answered < 2 ^ 32
      → op < 2 ^ 32
      → remaining (s.world) ≡ response_bytes len id answered op rest
      → ((get_header be net s).0
          ≡ some (record {
            length_field = pos len;
            request_id = signed32 id;
            response_to = signed32 answered;
            op = signed32 op;
          }))
        × (remaining ((get_header be net s).1.world) ≡ rest)
  unfolding get_header bad_length
  get_header_lem s len id answered op rest least most small_id small_answered small_op is =
      let w0 = s.world in
      let (e1, r1) = receive_int_lem w0 len _ (omega (arith, most)) is in
      let w1 = (receive_int be net w0).1 in
      let (e2, r2) = receive_int_lem w1 id _ small_id r1 in
      let w2 = (receive_int be net w1).1 in
      let (e3, r3) = receive_int_lem w2 answered _ small_answered r2 in
      let w3 = (receive_int be net w2).1 in
      let (e4, r4) = receive_int_lem w3 op rest small_op r3 in
      let is_pos : signed32 len ≡ pos len = ground (arith, most) in
      let good : bad_length be net (pos len) ≡ false = ground (arith, least, most) in
      let length_read : (receive_int be net w0).0 ≡ some (pos len) = e1 ∙ ap some is_pos in
      (
        rw (get_header, length_read, good, e2, e3, e4),
        rw (get_header, length_read, good, e2, e3, e4) r4,
      )

  -- The response to the request that was sent, whose flags do not say that the cursor is gone and
  -- which a receiver hands over in whole pieces of up to 20 bytes, is taken in whole:
  -- mongo_link_hear croaks when the documents cannot be read, and otherwise sets the fields of the
  -- cursor to those of the reply, adds the number of its documents to num, has the documents at
  -- the start of its buffer, or as many of their bytes as the stream had, and leaves on the stream
  -- what comes after them.
  pub hear_response_lem :
      (fuel : ℕ) (s : State net.World) (c : Cursor) (request_id : ℤ)
      (len id answered op flags cursor_id start number : ℕ) (docs : Bytes)
      → 36 + len ≤ 67108864
      → id < 2 ^ 32
      → answered < 2 ^ 32
      → op < 2 ^ 32
      → flags < 2 ^ 32
      → cursor_id < 2 ^ 64
      → start < 2 ^ 32
      → number < 2 ^ 32
      → (flags % 2 == 1) ≡ false
      → request_id ≡ signed32 answered
      → remaining (s.world)
        ≡ response_bytes
            (36 + len)
            id
            answered
            op
            (reply_bytes be net stream whole flags cursor_id start number docs)
      → ((s' : State net.World) × (c' : Cursor) × (hear_response be net (suc fuel) s c request_id
            ≡ failed read_failed s' c'))
        ⊎ ((s' : State net.World) × (memory : List Cell) × (take (length (take len docs)) memory
              ≡ map some (take len docs))
            × (remaining (s'.world) ≡ drop len docs)
            × (hear_response be net (suc fuel) s c request_id
                ≡ heard (ltb_ℤ (pos 0) (signed32 number)) s' (record {
                  flag = flags;
                  cursor_id = cursor_id;
                  start = start;
                  at = c.at;
                  num = signed32 (to_unsigned (c.num +ℤ signed32 number));
                  memory = some memory;
                  at_byte = 0;
                })))
  unfolding hear_response match_request
  hear_response_lem fuel s c request_id len id answered op flags cursor_id start number docs most
        small_id small_answered small_op small_flags small_cursor small_start small_number alive
        mine is =
      let (e, r) =
        get_header_lem s (36 + len) id answered op _ (omega arith) most small_id small_answered
          small_op is in
      let s1 = (get_header be net s).1 in
      let not_older : ltb_ℤ request_id (signed32 answered) ≡ false =
        ltb_ℤ-eq request_id (signed32 answered) mine in
      let not_newer : ltb_ℤ (signed32 answered) request_id ≡ false =
        ltb_ℤ-eq (signed32 answered) request_id (sym mine) in
      let next : hear_response be net (suc fuel) s c request_id
          ≡ read_reply be net s1 c (pos (36 + len)) =
        rw (hear_response, e, match_request, not_older, not_newer) in
      elim (read_reply_lem be net stream whole s1 c len flags cursor_id start number docs
        small_flags small_cursor small_start small_number alive r) [
          | inl (s', c', f) ↦ inl (s', c', next ∙ f)
          | inr (s', memory, filled, left, f) ↦ inr (s', memory, filled, left, next ∙ f)
        ]
