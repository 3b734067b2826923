-- ===== src/Link/Backlog.antt =====
-- Responses to earlier requests that are still on the connection, such as those of a query that has
-- timed out, in front of the one that is waited for.
use mongo_perl_driver.Common.{
  ℕ, zero, suc, ◌+◌, ◌-◌, ◌%◌, ◌^◌, ◌≤◌, ◌<◌, ◌≡◌, refl, sym, ap, ◌∙◌, ◌⊎◌, inl, inr, Bool, true,
  false, some, List, [], ◌∷◌, ◌++◌, arith, ltb, ◌==◌, length, take, drop, All, length-append,
  drop-append, drop-drop, Bool-cases, ℤ, pos, ltb_ℤ, signed32, ◌+ℤ◌,
}
use mathlib.Core.Path.{subst}
use mathlib.Core.List.{map}
use mongo_perl_driver.Perl.{Bytes}
use mongo_perl_driver.Outcome.{ok, ◌>>=◌}
use mongo_perl_driver.Buffer.{Cell}
use mongo_perl_driver.Encode.Calendar.{to_unsigned}
use mongo_perl_driver.Link.{Network, State}
use mongo_perl_driver.Link.Hear.{
  chunk, get_header, throw_out, skip_response, match_request, read_reply, hear_response,
}
use mongo_perl_driver.Link.Cursor.{
  Header, Cursor, Failure, heard, failed, no_old_response, read_failed,
}
use mongo_perl_driver.Link.Reader.{Stream, mongo_link_reader_lem}
use mongo_perl_driver.Link.Reply.{Whole, reply_bytes, read_reply_lem}
use mongo_perl_driver.Link.Words.{take-prefix}
use mongo_perl_driver.Link.Exchange.{ltb_ℤ-eq, response_bytes, get_header_lem}

-- A message from the server: what its header says; `extra` is its length less that of the header
-- of a reply.
pub record Message : Type 0 where
  pub extra : ℕ
  pub id : ℕ
  pub answered : ℕ
  pub op : ℕ

pub record IsMessage (m : Message) : Type 0 where
  pub most : 36 + m.extra ≤ 67108864
  pub small_id : m.id < 2 ^ 32
  pub small_answered : m.answered < 2 ^ 32
  pub small_op : m.op < 2 ^ 32

abbrev pub header_of : Message → Header
header_of m = record {
  length_field = pos (36 + m.extra);
  request_id = signed32 m.id;
  response_to = signed32 m.answered;
  op = signed32 m.op;
}

-- A whole response: 20 bytes of fields and the documents.
pub record Response : Type 0 where
  pub message : Message
  pub fields : Bytes
  pub body : Bytes

-- A response to an earlier request than this.
pub record IsOlder (request_id : ℤ) (r : Response) : Type 0 where
  pub valid : IsMessage r.message
  pub earlier : ltb_ℤ (signed32 r.message.answered) request_id ≡ true
  pub twenty : length r.fields ≡ 20
  pub whole_body : length r.body ≡ r.message.extra

not_later : (a b : ℤ) → ltb_ℤ a b ≡ true → ltb_ℤ b a ≡ false
not_later a b h = ground arith

module _ (be : Bool) (net : Network) (stream : Stream net) (whole : Whole net stream) where
  open stream use {remaining}

  abbrev pub message_bytes : Message → Bytes → Bytes
  message_bytes m rest = response_bytes be net stream whole (36 + m.extra) m.id m.answered m.op rest

  -- The older responses, and then a message with what follows its header.
  abbrev pub backlog : List Response → Message → Bytes → Bytes
  backlog [] m rest = message_bytes m rest
  backlog (r ∷ rs) m rest = message_bytes r.message (r.fields ++ (r.body ++ backlog rs m rest))

  abbrev first : List Response → Message → Message
  first [] m = m
  first (r ∷ rs) m = r.message

  abbrev behind_first : List Response → Message → Bytes → Bytes
  behind_first [] m rest = rest
  behind_first (r ∷ rs) m rest = r.fields ++ (r.body ++ backlog rs m rest)

  first_valid :
      (id : ℤ) (rs : List Response) (m : Message)
      → All (IsOlder id) rs
      → IsMessage m
      → IsMessage (first rs m)
  first_valid id [] m older v = v
  first_valid id (r ∷ rs) m older v = (older.0).valid

  split_first :
      (rs : List Response) (m : Message) (rest : Bytes)
      → backlog rs m rest ≡ message_bytes (first rs m) (behind_first rs m rest)
  split_first [] m rest = refl
  split_first (r ∷ rs) m rest = refl

  header_read :
      (s : State net.World) (m : Message) (rest : Bytes)
      → IsMessage m
      → remaining (s.world) ≡ message_bytes m rest
      → ((get_header be net s).0 ≡ some (header_of m))
        × (remaining ((get_header be net s).1.world) ≡ rest)
  header_read s m rest v is =
      get_header_lem be net stream whole s (36 + m.extra) m.id m.answered m.op rest (omega arith)
        v.most v.small_id v.small_answered v.small_op is

  chunk_at_most : (n : ℕ) → (chunk n ≤ n) × (1 ≤ n → 1 ≤ chunk n)
  unfolding chunk
  chunk_at_most n = ground arith

  thrown_out :
      (fuel : ℕ) (w : net.World) (len : ℕ)
      → len < fuel
      → ((w' : net.World) × (throw_out be net fuel w len ≡ ok (false, w')))
        ⊎ ((w' : net.World) × (throw_out be net fuel w len ≡ ok (true, w'))
            × (remaining w' ≡ drop len (remaining w)))
  unfolding throw_out ◌>>=◌
  thrown_out zero w len room = absurd (omega (arith, room))
  thrown_out (suc fuel) w len room = elim (mongo_link_reader_lem net stream be w (chunk len)) [
    | inl (bs, w', e, fails) ↦ inl (w', rw (throw_out, e))
    | inr (w', e, rest) ↦ elim (Bool-cases (ltb 0 (len - chunk len))) [
      | inr last ↦
          let all : chunk len ≡ len = ground (arith, chunk_at_most len, last) in
          inr (w', rw (throw_out, e, last), rest ∙ ap (λ k. drop k (remaining w)) all)
      | inl more ↦
          let shorter : len - chunk len < fuel = ground (arith, chunk_at_most len, room) in
          let both : chunk len + (len - chunk len) ≡ len = omega (arith, (chunk_at_most len).0) in
          elim (thrown_out fuel w' (len - chunk len) shorter) [
            | inl (w'', e') ↦ inl (w'', rw (throw_out, e, more) e')
            | inr (w'', e', left) ↦ inr (
              w'',
              rw (throw_out, e, more) e',
              left
                  ∙ (ap (drop (len - chunk len)) rest
                      ∙ (sym (drop-drop (chunk len) (len - chunk len) (remaining w))
                          ∙ ap (λ k. drop k (remaining w)) both)),
            )
          ]
    ]
  ]

  -- One older response is taken off the stream, and the next header read.
  skipped :
      (s : State net.World) (r : Response) (m : Message) (rest : Bytes)
      → length r.fields ≡ 20
      → length r.body ≡ r.message.extra
      → IsMessage m
      → remaining (s.world) ≡ r.fields ++ (r.body ++ message_bytes m rest)
      → ((s' : State net.World) × (skip_response be net s (header_of r.message)
            ≡ ok (inl no_old_response, s')))
        ⊎ ((s' : State net.World) × (skip_response be net s (header_of r.message)
              ≡ ok (inr (header_of m), s'))
            × (remaining (s'.world) ≡ rest))
  unfolding skip_response ◌>>=◌
  skipped s r m rest twenty count v is =
      let after = r.body ++ message_bytes m rest in
      let got : (net.receiver s.world 20).0 ≡ some (take 20 (remaining (s.world))) =
        whole s.world 20 (omega arith)
          (omega (arith, ap length is, length-append r.fields after)) in
      let w1 = (net.receiver s.world 20).1 in
      let prefix : take 20 (remaining (s.world)) ≡ r.fields =
        ap (take 20) is
        ∙ subst (λ k. take k (r.fields ++ after) ≡ r.fields) twenty (take-prefix r.fields after) in
      let left1 : remaining w1 ≡ after = sym (
        sym (drop-append r.fields after)
        ∙ (ap (drop (length r.fields)) (
              sym is
              ∙ ((stream.received s.world 20 _ got).1 ∙ ap (λ bs. bs ++ remaining w1) prefix))
            ∙ drop-append r.fields (remaining w1))) in
      let minus : 36 + r.message.extra - 36 ≡ r.message.extra = omega arith in
      elim (thrown_out (suc (36 + r.message.extra - 36)) w1 (36 + r.message.extra - 36)
        (omega arith)) [
          | inl (w2, e) ↦ inl (record s { world = w2 }, rw (skip_response, got, e))
          | inr (w2, e, left2) ↦
              let s2 : State net.World = record s { world = w2 } in
              let all : remaining w2 ≡ message_bytes m rest =
                left2
                ∙ (ap (λ k. drop k (remaining w1)) (minus ∙ sym count)
                    ∙ (ap (drop (length r.body)) left1
                        ∙ drop-append r.body (message_bytes m rest))) in
              let (h, left3) = header_read s2 m rest v all in
              inr ((get_header be net s2).1, rw (skip_response, got, e, h), left3)
        ]

  -- With the header of the first message read: the older responses are thrown away, and the
  -- response that is waited for is found.
  found :
      (rs : List Response) (fuel : ℕ) (id : ℤ) (s : State net.World) (m : Message) (rest : Bytes)
      → All (IsOlder id) rs
      → IsMessage m
      → id ≡ signed32 m.answered
      → length rs < fuel
      → remaining (s.world) ≡ behind_first rs m rest
      → ((s' : State net.World) × (match_request be net fuel id s (header_of (first rs m))
            ≡ ok (inl no_old_response, s')))
        ⊎ ((s' : State net.World) × (match_request be net fuel id s (header_of (first rs m))
              ≡ ok (inr (header_of m), s'))
            × (remaining (s'.world) ≡ rest))
  unfolding match_request ◌>>=◌
  found rs zero id s m rest older v mine room is = absurd (omega (arith, room))
  found [] (suc fuel) id s m rest older v mine room is =
      let not_older = ltb_ℤ-eq id (signed32 m.answered) mine in
      let not_newer = ltb_ℤ-eq (signed32 m.answered) id (sym mine) in
      inr (s, rw (match_request, not_older, not_newer), is)
  found (r ∷ rs) (suc fuel) id s m rest older v mine room is =
      let o = older.0 in
      let later = not_later (signed32 r.message.answered) id o.earlier in
      let next_valid : IsMessage (first rs m) = first_valid id rs m (older.1) v in
      let bytes : remaining (s.world)
          ≡ r.fields ++ (r.body ++ message_bytes (first rs m) (behind_first rs m rest)) =
        is ∙ ap (λ bs. r.fields ++ (r.body ++ bs)) (split_first rs m rest) in
      elim (skipped s r (first rs m) (behind_first rs m rest) o.twenty o.whole_body next_valid
        bytes) [
          | inl (s', e) ↦ inl (s', rw (match_request, later, o.earlier, e))
          | inr (s', e, left) ↦
              elim (found rs fuel id s' m rest (older.1) v mine (omega (arith, room)) left) [
                | inl (s'', e') ↦ inl (s'', rw (match_request, later, o.earlier, e) e')
                | inr (s'', e', left') ↦
                    inr (s'', rw (match_request, later, o.earlier, e) e', left')
              ]
        ]

  -- However many whole responses to earlier requests are still on the connection: mongo_link_hear
  -- throws them away and takes the response to the request that was sent, whose flags do not say
  -- that the cursor is gone, in whole. The fields of the cursor are those of the reply, num has
  -- grown by the number of its documents, the documents are at the start of the buffer, or as many
  -- of their bytes as the stream had, and what comes after them is left on the stream. Else it
  -- croaks because a response could not be read. The receiver hands pieces of up to 20 bytes over
  -- whole.
  pub hear_response_after :
      (rs : List Response) (fuel : ℕ) (s : State net.World) (c : Cursor) (request_id : ℤ)
      (m : Message) (flags cursor_id start number : ℕ) (docs : Bytes)
      → All (IsOlder request_id) rs
      → IsMessage m
      → request_id ≡ signed32 m.answered
      → length rs < fuel
      → flags < 2 ^ 32
      → cursor_id < 2 ^ 64
      → start < 2 ^ 32
      → number < 2 ^ 32
      → (flags % 2 == 1) ≡ false
      → remaining (s.world)
        ≡ backlog rs m (reply_bytes be net stream whole flags cursor_id start number docs)
      → ((f : Failure) × (s' : State net.World) × (c' : Cursor) × ((f ≡ no_old_response)
            ⊎ (f ≡ read_failed))
          × (hear_response be net fuel s c request_id ≡ failed f s' c'))
        ⊎ ((s' : State net.World) × (memory : List Cell) × (take (length (take m.extra docs)) memory
              ≡ map some (take m.extra docs))
            × (remaining (s'.world) ≡ drop m.extra docs)
            × (hear_response be net fuel s c request_id
                ≡ heard (ltb_ℤ (pos 0) (signed32 number)) s' (record {
                  flag = flags;
                  cursor_id = cursor_id;
                  start = start;
                  at = c.at;
                  num = signed32 (to_unsigned (c.num +ℤ signed32 number));
                  memory = some memory;
                  at_byte = 0;
                })))
  unfolding hear_response
  hear_response_after rs fuel s c request_id m flags cursor_id start number docs older v mine room
        small_flags small_cursor small_start small_number alive is =
      let reply = reply_bytes be net stream whole flags cursor_id start number docs in
      let (h, left) =
        header_read s (first rs m) (behind_first rs m reply) (first_valid request_id rs m older v)
          (is ∙ split_first rs m reply) in
      let s1 = (get_header be net s).1 in
      elim (found rs fuel request_id s1 m reply older v mine room left) [
        | inl (s', e) ↦ inl (no_old_response, s', c, inl refl, rw (hear_response, h, e))
        | inr (s', e, left') ↦
            let next : hear_response be net fuel s c request_id
                ≡ read_reply be net s' c (pos (36 + m.extra)) =
              rw (hear_response, h, e) in
            elim (read_reply_lem be net stream whole s' c m.extra flags cursor_id start number docs
              small_flags small_cursor small_start small_number alive left') [
                | inl (s'', c'', f) ↦ inl (read_failed, s'', c'', inr refl, next ∙ f)
                | inr (s'', memory, filled, left'', f) ↦ inr (s'', memory, filled, left'', next ∙ f)
              ]
      ]
