-- ===== src/Link/Reply.antt =====
-- What mongo_link_hear makes of a reply: the fields of the cursor and the bytes in its buffer.
use mongo_perl_driver.Common.{
  ℕ, ◌+◌, ◌-◌, ◌%◌, ◌^◌, ◌≤◌, ◌<◌, ◌≡◌, refl, sym, ap, ◌∙◌, ◌⊎◌, inl, inr, Bool, true, false, some,
  List, ◌++◌, arith, ◌==◌, length, take, drop, length-append, length-drop, drop-append, ℤ, pos,
  ltb_ℤ, signed32, ◌+ℤ◌,
}
use mathlib.Core.Path.{subst}
use mathlib.Core.List.{map}
use mongo_perl_driver.Perl.{Bytes}
use mongo_perl_driver.Buffer.{Cell, le32, le64, host32, host64, mongo_32}
use mongo_perl_driver.Buffer.Capacity.{length-map}
use mongo_perl_driver.Encode.Calendar.{to_unsigned}
use mongo_perl_driver.Link.{Network, State}
use mongo_perl_driver.Link.Hear.{receive_word, response_buffer, read_documents, read_reply}
use mongo_perl_driver.Link.Cursor.{
  Cursor, heard, failed, read_failed, cursor_not_found, over, word_of,
}
use mongo_perl_driver.Link.Reader.{Stream, mongo_link_reader_lem}
use mongo_perl_driver.Link.Words.{
  take-prefix, mongo_32-word_of, mongo_64-word_of, over_all, take-over, length-response_buffer,
  host_four, host_eight, four, eight,
}

plus_minus : (len : ℕ) → 36 + len - 36 ≡ len
plus_minus len = omega arith

-- A receiver that hands over small pieces whole.
abbrev pub Whole : (net : Network) → Stream net → Type 0
Whole net stream =
    (w : net.World) (n : ℕ)
    → n ≤ 20
    → n ≤ length (stream.remaining w)
    → (net.receiver w n).0 ≡ some (take n (stream.remaining w))

module _ (be : Bool) (net : Network) (stream : Stream net) (whole : Whole net stream) where
  open stream use {remaining}

  receive_word_lem :
      (w : net.World) (size : ℕ) (bs rest old : Bytes)
      → remaining w ≡ bs ++ rest
      → size ≤ 20
      → length bs ≡ size
      → length old ≡ size
      → ((receive_word be net w size old).0 ≡ some (word_of be bs))
        × (remaining ((receive_word be net w size old).1) ≡ rest)
  unfolding receive_word
  receive_word_lem w size bs rest old is small count same =
      let prefix : take size (bs ++ rest) ≡ bs =
        subst (λ k. take k (bs ++ rest) ≡ bs) count (take-prefix bs rest) in
      let got : (net.receiver w size).0 ≡ some bs =
        whole w size small (omega (arith, ap length is, length-append bs rest, count))
        ∙ ap some (rw is prefix) in
      let next : bs ++ rest ≡ bs ++ remaining ((net.receiver w size).1) =
        sym is ∙ (stream.received w size bs got).1 in
      (
        rw (got, over_all bs old (same ∙ sym count)),
        sym (
            sym (drop-append bs rest)
            ∙ (ap (drop (length bs)) next ∙ drop-append bs (remaining ((net.receiver w size).1)))),
      )

  -- The reply that the buffer holds after the last read: its documents, or as many of their bytes
  -- as the stream had.
  pub record Filled (s : State net.World) (c : Cursor) (len : ℕ) (memory : List Cell)
      (s' : State net.World) : Type 0 where
    pub room : len ≤ length memory
    pub filled :
        take (length (take len (remaining (s.world)))) memory
        ≡ map some (take len (remaining (s.world)))
    pub left : remaining (s'.world) ≡ drop len (remaining (s.world))

  read_documents_lem :
      (s : State net.World) (c : Cursor) (len : ℕ) (n : ℤ)
      → ((s' : State net.World) × (c' : Cursor) × (read_documents be net s c len n
            ≡ failed read_failed s' c'))
        ⊎ ((s' : State net.World) × (memory : List Cell) × Filled s c len memory s'
            × (read_documents be net s c len n
                ≡ heard (ltb_ℤ (pos 0) n) s' (record c {
                  memory = some memory;
                  at_byte = 0;
                  num = signed32 (to_unsigned (c.num +ℤ n));
                })))
  unfolding read_documents
  read_documents_lem s c len n = elim (mongo_link_reader_lem net stream be s.world len) [
    | inl (bs, w', e, fails) ↦
        let old = response_buffer be net c.memory len in
        inl (
          record s { world = w' },
          record c { memory = some (over (map some bs) old); at_byte = 0 },
          rw (read_documents, e),
        )
    | inr (w', e, rest) ↦
        let old = response_buffer be net c.memory len in
        let docs = take len (remaining (s.world)) in
        inr (
          record s { world = w' },
          over (map some docs) old,
          record {
            room = omega (
              arith,
              length-response_buffer be net c.memory len,
              length-append (map {B = Cell} some docs)
                  (drop (length (map {B = Cell} some docs)) old),
              length-drop (length (map {B = Cell} some docs)) old,
            );
            filled =
                subst (λ k. take k (over (map some docs) old) ≡ map some docs)
                  (length-map {B = Cell} some docs) (take-over (map some docs) old);
            left = rest;
          },
          rw (read_documents, e),
        )
  ]

  -- The bytes of a reply behind its header.
  abbrev pub reply_bytes : ℕ → ℕ → ℕ → ℕ → Bytes → Bytes
  reply_bytes flags id start number docs =
      le32 flags ++ (le64 id ++ (le32 start ++ (le32 number ++ docs)))

  -- A reply that does not say that its cursor is gone sets the cursor's fields to those of the
  -- reply, adds the number of its documents to num, and fills the buffer from its start with what
  -- follows; if fewer bytes follow than the header's length says, with these, and no error.
  pub read_reply_lem :
      (s : State net.World) (c : Cursor) (len flags id start number : ℕ) (docs : Bytes)
      → flags < 2 ^ 32
      → id < 2 ^ 64
      → start < 2 ^ 32
      → number < 2 ^ 32
      → (flags % 2 == 1) ≡ false
      → remaining (s.world) ≡ reply_bytes flags id start number docs
      → ((s' : State net.World) × (c' : Cursor) × (read_reply be net s c (pos (36 + len))
            ≡ failed read_failed s' c'))
        ⊎ ((s' : State net.World) × (memory : List Cell) × (take (length (take len docs)) memory
              ≡ map some (take len docs))
            × (remaining (s'.world) ≡ drop len docs)
            × (read_reply be net s c (pos (36 + len))
                ≡ heard (ltb_ℤ (pos 0) (signed32 number)) s' (record {
                  flag = flags;
                  cursor_id = id;
                  start = start;
                  at = c.at;
                  num = signed32 (to_unsigned (c.num +ℤ signed32 number));
                  memory = some memory;
                  at_byte = 0;
                })))
  unfolding read_reply
  read_reply_lem s c len flags id start number docs small_flags small_id small_start small_number
        alive is =
      let (e1, r1) =
        receive_word_lem s.world 4 (le32 flags) _ (host32 be c.flag) is (omega arith) (four flags)
          (host_four be c.flag) in
      let w1 = (receive_word be net s.world 4 (host32 be c.flag)).1 in
      let (e2, r2) =
        receive_word_lem w1 8 (le64 id) _ (host64 be c.cursor_id) r1 (omega arith) (eight id)
          (host_eight be c.cursor_id) in
      let w2 = (receive_word be net w1 8 (host64 be c.cursor_id)).1 in
      let (e3, r3) =
        receive_word_lem w2 4 (le32 start) _ (host32 be c.start) r2 (omega arith) (four start)
          (host_four be c.start) in
      let w3 = (receive_word be net w2 4 (host32 be c.start)).1 in
      let (e4, r4) =
        receive_word_lem w3 4 (le32 number) docs (host32 be 0) r3 (omega arith) (four number)
          (host_four be 0) in
      let w4 = (receive_word be net w3 4 (host32 be 0)).1 in
      let f = mongo_32-word_of be flags small_flags in
      let next : read_reply be net s c (pos (36 + len))
          ≡ read_documents be net (record s { world = w4 })
              (record c { flag = flags; cursor_id = id; start = start }) len (signed32 number) =
        rw (
          e1,
          e2,
          e3,
          e4,
          f,
          alive,
          mongo_64-word_of be id small_id,
          mongo_32-word_of be start small_start,
          mongo_32-word_of be number small_number,
          plus_minus len,
        ) in
      let c4 = record c { flag = flags; cursor_id = id; start = start } in
      let s4 = record s { world = w4 } in
      elim (read_documents_lem s4 c4 len (signed32 number)) [
        | inl (s', c', e) ↦ inl (s', c', next ∙ e)
        | inr (s', memory, held, e) ↦ inr (
          s',
          memory,
          subst (λ l. take (length (take len l)) memory ≡ map some (take len l)) r4 held.filled,
          held.left ∙ ap (drop len) r4,
          next ∙ e,
        )
      ]

  -- A reply whose flags say that the cursor is gone makes mongo_link_hear croak with "cursor not
  -- found", and leaves num at 0.
  pub read_reply-not_found :
      (s : State net.World) (c : Cursor) (length_field : ℤ) (flags id start number : ℕ)
      (docs : Bytes)
      → flags < 2 ^ 32
      → (flags % 2 == 1) ≡ true
      → remaining (s.world) ≡ reply_bytes flags id start number docs
      → (s' : State net.World) × (c' : Cursor) × (read_reply be net s c length_field
          ≡ failed cursor_not_found s' c')
        × (c'.num ≡ pos 0)
        × (remaining (s'.world) ≡ docs)
  unfolding read_reply
  read_reply-not_found s c length_field flags id start number docs small_flags gone is =
      let (e1, r1) =
        receive_word_lem s.world 4 (le32 flags) _ (host32 be c.flag) is (omega arith) (four flags)
          (host_four be c.flag) in
      let w1 = (receive_word be net s.world 4 (host32 be c.flag)).1 in
      let (e2, r2) =
        receive_word_lem w1 8 (le64 id) _ (host64 be c.cursor_id) r1 (omega arith) (eight id)
          (host_eight be c.cursor_id) in
      let w2 = (receive_word be net w1 8 (host64 be c.cursor_id)).1 in
      let (e3, r3) =
        receive_word_lem w2 4 (le32 start) _ (host32 be c.start) r2 (omega arith) (four start)
          (host_four be c.start) in
      let w3 = (receive_word be net w2 4 (host32 be c.start)).1 in
      let (e4, r4) =
        receive_word_lem w3 4 (le32 number) docs (host32 be 0) r3 (omega arith) (four number)
          (host_four be 0) in
      let w4 = (receive_word be net w3 4 (host32 be 0)).1 in
      let f = mongo_32-word_of be flags small_flags in
      (
        record s { world = w4 },
        record c {
          flag = mongo_32 be (word_of be (le32 flags));
          cursor_id = word_of be (le64 id);
          start = word_of be (le32 start);
          num = pos 0;
        },
        rw (e1, e2, e3, e4, f, gone),
        refl,
        r4,
      )
