-- ===== src/Link/Finite.antt =====
-- mongo_link_hear comes to an end: every response that it throws away takes bytes off the stream.
use mongo_perl_driver.Common.{
  ℕ, zero, suc, ◌+◌, ◌-◌, ◌%◌, ◌≤◌, ◌<◌, ◌≡◌, ap, ◌≢◌, ◌⊎◌, inl, inr, Bool, true, false, none, some,
  arith, ltb, ◌==◌, ==_iff, Bool-cases, Option-cases, length, length-append, length-drop, ℤ,
  pos_part, ltb_ℤ,
}
use mongo_perl_driver.Perl.{Bytes}
use mongo_perl_driver.Outcome.{Outcome, ok, ◌>>=◌}
use mongo_perl_driver.Link.{Network, State}
use mongo_perl_driver.Link.Hear.{
  chunk, receive_int, bad_length, get_header, throw_out, skip_response, match_request,
  read_documents, read_reply, hear_response, receive_word,
}
use mongo_perl_driver.Link.Cursor.{
  Header, Cursor, Failure, Heard, failed, no_old_header, no_old_response, invalid_header,
  missed_response,
}
use mongo_perl_driver.Buffer.{host32, host64, mongo_32, mongo_64}
use mongo_perl_driver.Link.Reader.{Stream, mongo_link_reader_lem}

module _ (be : Bool) (net : Network) (stream : Stream net) where
  open stream use {remaining}

  abbrev pub left_in : net.World → ℕ
  left_in w = length (remaining w)

  receiver_takes :
      (w : net.World) (n : ℕ) (bs : Bytes)
      → (net.receiver w n).0 ≡ some bs
      → length bs + left_in ((net.receiver w n).1) ≡ left_in w
  receiver_takes w n bs e = omega (
    arith,
    ap length ((stream.received w n bs e).1),
    length-append bs (remaining ((net.receiver w n).1)),
  )

  receive_int_takes :
      (w : net.World) (v : ℤ)
      → (receive_int be net w).0 ≡ some v
      → 4 + left_in ((receive_int be net w).1) ≡ left_in w
  unfolding receive_int
  receive_int_takes w v e = elim (Option-cases ((net.receiver w 4).0)) [
    | inl gone ↦ let never : none ≡ some v = rw (receive_int, gone) at e in cc
    | inr (bs, got) ↦ elim (Bool-cases (length bs == 4)) [
      | inl four ↦
          rw (receive_int, got, four)
            (omega (arith, receiver_takes w 4 bs got, (==_iff (length bs) 4).0 four))
      | inr other ↦ let never : none ≡ some v = rw (receive_int, got, other) at e in cc
    ]
  ]

  get_header_takes :
      (s : State net.World) (h : Header)
      → (get_header be net s).0 ≡ some h
      → 16 + left_in ((get_header be net s).1.world) ≡ left_in (s.world)
  unfolding get_header
  get_header_takes s h e =
      let w0 = s.world in
      let w1 = (receive_int be net w0).1 in
      let w2 = (receive_int be net w1).1 in
      let w3 = (receive_int be net w2).1 in
      elim (Option-cases ((receive_int be net w0).0)) [
        | inl gone ↦ let never : none ≡ some h = rw (get_header, gone) at e in cc
        | inr (l, e1) ↦ elim (Bool-cases (bad_length be net l)) [
          | inl bad ↦ let never : none ≡ some h = rw (get_header, e1, bad) at e in cc
          | inr good ↦ elim (Option-cases ((receive_int be net w1).0)) [
            | inl gone ↦ let never : none ≡ some h = rw (get_header, e1, good, gone) at e in cc
            | inr (r, e2) ↦ elim (Option-cases ((receive_int be net w2).0)) [
              | inl gone ↦
                  let never : none ≡ some h = rw (get_header, e1, good, e2, gone) at e in cc
              | inr (t, e3) ↦ elim (Option-cases ((receive_int be net w3).0)) [
                | inl gone ↦
                    let never : none ≡ some h = rw (get_header, e1, good, e2, e3, gone) at e in cc
                | inr (o, e4) ↦
                    rw (get_header, e1, good, e2, e3, e4)
                      (omega (
                        arith,
                        receive_int_takes w0 l e1,
                        receive_int_takes w1 r e2,
                        receive_int_takes w2 t e3,
                        receive_int_takes w3 o e4,
                      ))
              ]
            ]
          ]
        ]
      ]

  chunk_lem : (n : ℕ) → (chunk n ≤ n) × (1 ≤ n → 1 ≤ chunk n)
  unfolding chunk
  chunk_lem n = ground arith

  -- What is thrown away is taken off the stream, and the rounds are enough.
  abbrev Thrown : net.World → Outcome (Bool × net.World) → Type 0
  Thrown w r =
      ((w' : net.World) × (r ≡ ok (false, w')))
      ⊎ ((w' : net.World) × (r ≡ ok (true, w')) × (left_in w' ≤ left_in w))

  throw_out_lem :
      (fuel : ℕ) (w : net.World) (len : ℕ) → len + 1 ≤ fuel → Thrown w (throw_out be net fuel w len)
  unfolding throw_out ◌>>=◌
  throw_out_lem zero w len room = absurd (omega (arith, room))
  throw_out_lem (suc fuel) w len room = elim (mongo_link_reader_lem net stream be w (chunk len)) [
    | inl (bs, w', e, fails) ↦ inl (w', rw (throw_out, e))
    | inr (w', e, rest) ↦
        let fewer : left_in w' ≤ left_in w =
          omega (arith, ap length rest, length-drop (chunk len) (remaining w)) in
        elim (Bool-cases (ltb 0 (len - chunk len))) [
          | inr last ↦ inr (w', rw (throw_out, e, last), fewer)
          | inl more ↦
              let shorter : len - chunk len + 1 ≤ fuel = ground (arith, chunk_lem len, room) in
              elim (throw_out_lem fuel w' (len - chunk len) shorter) [
                | inl (w'', e') ↦ inl (w'', rw (throw_out, e, more) e')
                | inr (w'', e', less) ↦
                    inr (w'', rw (throw_out, e, more) e', omega (arith, less, fewer))
              ]
        ]
  ]

  -- A round of the loop on the request id takes at least a header off the stream.
  abbrev Skipped : State net.World → Outcome ((Failure ⊎ Header) × State net.World) → Type 0
  Skipped s r =
      ((f : Failure) × (s' : State net.World) × (r ≡ ok (inl f, s')))
      ⊎ ((h : Header) × (s' : State net.World) × (r ≡ ok (inr h, s'))
          × (16 + left_in (s'.world) ≤ left_in (s.world)))

  skip_response_lem :
      (s : State net.World) (header : Header) → Skipped s (skip_response be net s header)
  unfolding skip_response ◌>>=◌
  skip_response_lem s header =
      let len = pos_part header.length_field - 36 in
      elim (Option-cases ((net.receiver s.world 20).0)) [
        | inl gone ↦ inl (
          no_old_header,
          record s { world = (net.receiver s.world 20).1 },
          rw (skip_response, gone),
        )
        | inr (bs, got) ↦
            let w1 = (net.receiver s.world 20).1 in
            elim (throw_out_lem (suc len) w1 len (omega arith)) [
              | inl (w2, e) ↦
                  inl (no_old_response, record s { world = w2 }, rw (skip_response, got, e))
              | inr (w2, e, less) ↦
                  let s2 = record s { world = w2 } in
                  elim (Option-cases ((get_header be net s2).0)) [
                    | inl bad ↦
                        inl (
                          invalid_header,
                          (get_header be net s2).1,
                          rw (skip_response, got, e, bad),
                        )
                    | inr (h, good) ↦ inr (
                      h,
                      (get_header be net s2).1,
                      rw (skip_response, got, e, good),
                      omega (
                        arith,
                        get_header_takes s2 h good,
                        less,
                        receiver_takes s.world 20 bs got,
                      ),
                    )
                  ]
            ]
      ]

  match_request_lem :
      (fuel : ℕ) (id : ℤ) (s : State net.World) (h : Header)
      → left_in (s.world) < fuel
      → (r : (Failure ⊎ Header) × State net.World) × (match_request be net fuel id s h ≡ ok r)
  unfolding match_request ◌>>=◌
  match_request_lem zero id s h room = absurd (omega (arith, room))
  match_request_lem (suc fuel) id s h room = elim (Bool-cases (ltb_ℤ id h.response_to)) [
    | inl missed ↦ ((inl missed_response, s), rw (match_request, missed))
    | inr here ↦ elim (Bool-cases (ltb_ℤ h.response_to id)) [
      | inr same ↦ ((inr h, s), rw (match_request, here, same))
      | inl older ↦ elim (skip_response_lem s h) [
        | inl (f, s', e) ↦ ((inl f, s'), rw (match_request, here, older, e))
        | inr (h', s', e, less) ↦
            let (r, rest) = match_request_lem fuel id s' h' (omega (arith, less, room)) in
            (r, rw (match_request, here, older, e) rest)
      ]
    ]
  ]

  read_documents-ne-stuck :
      (s : State net.World) (c : Cursor) (len : ℕ) (n : ℤ)
      → read_documents be net s c len n ≢ Heard.stuck
  unfolding read_documents
  read_documents-ne-stuck s c len n = elim (mongo_link_reader_lem net stream be s.world len) [
    | inl (bs, w', e, fails) ↦ rw (read_documents, e) (λ h. cc)
    | inr (w', e, rest) ↦ rw (read_documents, e) (λ h. cc)
  ]

  read_reply-ne-stuck :
      (s : State net.World) (c : Cursor) (len : ℤ) → read_reply be net s c len ≢ Heard.stuck
  unfolding read_reply
  read_reply-ne-stuck s c len =
      let w1 = (receive_word be net s.world 4 (host32 be c.flag)).1 in
      let w2 = (receive_word be net w1 8 (host64 be c.cursor_id)).1 in
      let w3 = (receive_word be net w2 4 (host32 be c.start)).1 in
      elim (Option-cases ((receive_word be net s.world 4 (host32 be c.flag)).0)) [
        | inl gone ↦ rw (read_reply, gone) (λ h. cc)
        | inr (f, e1) ↦ elim (Option-cases ((receive_word be net w1 8 (host64 be c.cursor_id)).0)) [
          | inl gone ↦ rw (read_reply, e1, gone) (λ h. cc)
          | inr (i, e2) ↦ elim (Option-cases ((receive_word be net w2 4 (host32 be c.start)).0)) [
            | inl gone ↦ rw (read_reply, e1, e2, gone) (λ h. cc)
            | inr (t, e3) ↦ elim (Option-cases ((receive_word be net w3 4 (host32 be 0)).0)) [
              | inl gone ↦ rw (read_reply, e1, e2, e3, gone) (λ h. cc)
              | inr (n, e4) ↦ elim (Bool-cases (mongo_32 be f % 2 == 1)) [
                | inl bad ↦ rw (read_reply, e1, e2, e3, e4, bad) (λ h. cc)
                | inr alive ↦
                    rw (read_reply, e1, e2, e3, e4, alive)
                      (read_documents-ne-stuck _
                        (record c {
                          flag = mongo_32 be f;
                          cursor_id = mongo_64 be i;
                          start = mongo_32 be t;
                        })
                        _ _)
              ]
            ]
          ]
        ]
      ]

  after_match :
      (r : (Failure ⊎ Header) × State net.World) (c : Cursor)
      → (elim (r.0) [ inl f ↦ failed f (r.1) c | inr h ↦ read_reply be net (r.1) c h.length_field ])
        ≢ Heard.stuck
  after_match (inl f, s) c = λ h. cc
  after_match (inr h, s) c = read_reply-ne-stuck s c h.length_field

  -- mongo_link_hear comes to an end once a response has to be read: with more rounds for the
  -- responses to other requests than the stream has bytes it does not run out of them, whatever
  -- the server sends and however it arrives.
  pub hear_response-ne-stuck :
      (fuel : ℕ) (s : State net.World) (c : Cursor) (id : ℤ)
      → left_in (s.world) < fuel
      → hear_response be net fuel s c id ≢ Heard.stuck
  unfolding hear_response
  hear_response-ne-stuck fuel s c id room = elim (Option-cases ((get_header be net s).0)) [
    | inl gone ↦ rw (hear_response, gone) (λ h. cc)
    | inr (h, good) ↦
        let (r, e) =
          match_request_lem fuel id ((get_header be net s).1) h
            (omega (arith, get_header_takes s h good, room)) in
        rw (hear_response, good, e) (after_match r c)
  ]
