-- ===== src/Link/Hear.antt =====
-- mongo_link_reader, get_header and mongo_link_hear of mongo_link.c.
use mongo_perl_driver.Common.{
  ℕ, zero, suc, ◌-◌, ◌%◌, ◌⊎◌, inl, inr, Bool, true, false, not, ◌&&◌, ◌||◌, Option, none, some,
  List, [], ◌++◌, ltb, ◌==◌, if◌then◌else◌, length, replicate, ℤ, pos, pos_part, ltb_ℤ, signed32,
  ◌+ℤ◌,
}
use mongo_perl_driver.Perl.{Bytes}
use mongo_perl_driver.Outcome.{Outcome, ok, croak, ◌>>=◌}
use mongo_perl_driver.Buffer.{Cell, host32, host64, mongo_32, mongo_64}
use mongo_perl_driver.Encode.Calendar.{to_unsigned}
use mongo_perl_driver.Link.{State, Network, set_disconnected, perl_mongo_master, is_minus_one}
use mathlib.Core.List.{map}
use mongo_perl_driver.Link.Cursor.{
  Header, Cursor, Failure, not_connected, timed_out, missed_response, no_old_header,
  no_old_response, invalid_header, receive_failed, cursor_not_found, read_failed, no_master, Heard,
  Read, broken, taken, heard, failed, word_of, over,
}

unfoldable pub chunk : ℕ → ℕ
chunk n = if ltb 4096 n then 4096 else n

module _ (big_endian : Bool) (net : Network) where
  open net use {World}

  -- The loop of mongo_link_reader: what has been read, and whether num > 0.
  unfoldable pub reader_loop : ℕ → World → ℕ → Bytes → Bool → Outcome (Read × World)
  unfolding chunk
  reader_loop zero w len read more = Outcome.stuck
  reader_loop (suc fuel) w len read more =
      if ltb (length read) len && more
      then (let (num, w') = net.receiver w (chunk (len - length read)) in
          elim num [
            | none ↦ ok (broken read, w')
            | some bs ↦ reader_loop fuel w' len (read ++ bs) (not (length bs == 0))
          ])
      else ok (taken read, w)

  -- mongo_link_reader
  unfoldable pub mongo_link_reader : World → ℕ → Outcome (Read × World)
  unfolding reader_loop
  mongo_link_reader w len = reader_loop (suc (suc len)) w len [] true

  -- An int that has to arrive in one piece, through MONGO_32.
  unfoldable pub receive_int : World → Option ℤ × World
  unfolding word_of
  receive_int w =
      let (num, w') = net.receiver w 4 in
      elim num [
        | none ↦ (none, w')
        | some bs ↦
            if length bs == 4
            then (some (signed32 (mongo_32 big_endian (word_of big_endian bs))), w')
            else (none, w')
      ]

  abbrev pub min_length : ℕ
  min_length = 36

  abbrev pub max_length : ℕ
  max_length = 67108864

  unfoldable pub bad_length : ℤ → Bool
  bad_length len = ltb_ℤ (pos max_length) len || ltb_ℤ len (pos min_length)

  -- get_header
  unfoldable pub get_header : State World → Option Header × State World
  unfolding receive_int bad_length
  get_header s =
      let (len, w1) = receive_int s.world in
      let s1 = record s { world = w1 } in
      elim len [
        | none ↦ (none, set_disconnected net s1)
        | some l ↦
            if bad_length l
            then (none, set_disconnected net s1)
            else (let (rid, w2) = receive_int w1 in
                elim rid [
                  | none ↦ (none, record s { world = w2 })
                  | some r ↦
                      let (rto, w3) = receive_int w2 in
                      elim rto [
                        | none ↦ (none, record s { world = w3 })
                        | some t ↦
                            let (op, w4) = receive_int w3 in
                            elim op [
                              | none ↦ (none, record s { world = w4 })
                              | some o ↦ (
                                some (record {
                                  length_field = l;
                                  request_id = r;
                                  response_to = t;
                                  op = o;
                                }),
                                record s { world = w4 },
                              )
                            ]
                      ]
                ])
      ]

  -- do { … } while (len > 0) of the response that is thrown away: whether it could be read.
  unfoldable pub throw_out : ℕ → World → ℕ → Outcome (Bool × World)
  unfolding chunk mongo_link_reader
  throw_out zero w len = Outcome.stuck
  throw_out (suc fuel) w len = do
    (read, w') ← mongo_link_reader w (chunk len)
    elim read [
      | broken bs ↦ ok (false, w')
      | taken bs ↦
          if ltb 0 (len - chunk len) then throw_out fuel w' (len - chunk len) else ok (true, w')
    ]

  -- One round of the loop on the request id: the response to another request is thrown away and
  -- the next header read.
  unfoldable pub skip_response : State World → Header → Outcome ((Failure ⊎ Header) × State World)
  unfolding throw_out get_header
  skip_response s header =
      let (num, w1) = net.receiver s.world 20 in
      let len = pos_part header.length_field - 36 in
      elim num [
        | none ↦ ok (inl no_old_header, record s { world = w1 })
        | some bs ↦ do
          (all, w2) ← throw_out (suc len) w1 len
          (if all
              then (let (next, s') = get_header (record s { world = w2 }) in
                  ok (elim next [ none ↦ inl invalid_header | some h ↦ inr h ], s'))
              else ok (inl no_old_response, record s { world = w2 }))
      ]

  -- while (SvIV(request_id_sv) != cursor->header.response_to)
  unfoldable pub match_request :
      ℕ → ℤ → State World → Header → Outcome ((Failure ⊎ Header) × State World)
  unfolding skip_response
  match_request zero request_id s header = Outcome.stuck
  match_request (suc fuel) request_id s header =
      if ltb_ℤ request_id header.response_to
      then ok (inl missed_response, s)
      else if ltb_ℤ header.response_to request_id
      then (do
        (next, s') ← skip_response s header
        elim next [ inl f ↦ ok (inl f, s') | inr h ↦ match_request fuel request_id s' h ])
      else ok (inr header, s)

  -- A word that is received over the one in memory; `none` is -1.
  unfoldable pub receive_word : World → ℕ → Bytes → Option ℕ × World
  unfolding word_of
  receive_word w size old =
      let (num, w') = net.receiver w size in
      (elim num [ none ↦ none | some bs ↦ some (word_of big_endian (over bs old)) ], w')

  -- The buffer of a length: a new one, an old one made larger, or the old one.
  unfoldable pub response_buffer : Option (List Cell) → ℕ → List Cell
  response_buffer none len = replicate len none
  response_buffer (some memory) len =
      if ltb (length memory) len then memory ++ replicate (len - length memory) none else memory

  -- The end of mongo_link_hear, from the buffer on.
  unfoldable pub read_documents : State World → Cursor → ℕ → ℤ → Heard World
  unfolding mongo_link_reader response_buffer
  read_documents s cursor len num_returned =
      let memory = response_buffer cursor.memory len in
      let empty = record cursor { memory = some memory; at_byte = 0 } in
      elim (mongo_link_reader s.world len) [
        | croak c ↦ Heard.stuck
        | Outcome.stuck ↦ Heard.stuck
        | ok r ↦ elim (r.0) [
          | broken bs ↦
              failed read_failed (record s { world = r.1 })
                (record empty { memory = some (over (map some bs) memory) })
          | taken bs ↦
              heard (ltb_ℤ (pos 0) num_returned) (record s { world = r.1 })
                (record empty {
                  memory = some (over (map some bs) memory);
                  num = signed32 (to_unsigned (cursor.num +ℤ num_returned));
                })
        ]
      ]

  -- The four fields of the reply, and what follows.
  unfoldable pub read_reply : State World → Cursor → ℤ → Heard World
  unfolding receive_word read_documents
  read_reply s cursor length_field =
      let (flag, w1) = receive_word s.world 4 (host32 big_endian cursor.flag) in
      elim flag [
        | none ↦ failed receive_failed (record s { world = w1 }) cursor
        | some raw_flag ↦
            let (id, w2) = receive_word w1 8 (host64 big_endian cursor.cursor_id) in
            let c1 = record cursor { flag = raw_flag } in
            elim id [
              | none ↦ failed receive_failed (record s { world = w2 }) c1
              | some raw_id ↦
                  let (start, w3) = receive_word w2 4 (host32 big_endian cursor.start) in
                  let c2 = record c1 { cursor_id = raw_id } in
                  elim start [
                    | none ↦ failed receive_failed (record s { world = w3 }) c2
                    | some raw_start ↦
                        let (returned, w4) = receive_word w3 4 (host32 big_endian 0) in
                        let c3 = record c2 { start = raw_start } in
                        elim returned [
                          | none ↦ failed receive_failed (record s { world = w4 }) c3
                          | some raw_returned ↦
                              let c4 = record c3 { flag = mongo_32 big_endian raw_flag } in
                              if c4.flag % 2 == 1
                              then failed cursor_not_found (record s { world = w4 })
                                  (record c4 { num = pos 0 })
                              else read_documents (record s { world = w4 })
                                  (record c4 {
                                    cursor_id = mongo_64 big_endian raw_id;
                                    start = mongo_32 big_endian raw_start;
                                  })
                                  (pos_part length_field - 36)
                                  (signed32 (mongo_32 big_endian raw_returned))
                        ]
                  ]
            ]
      ]

  -- mongo_link_hear behind the wait: the header, the request id, the reply.
  unfoldable pub hear_response : ℕ → State World → Cursor → ℤ → Heard World
  unfolding get_header match_request read_reply
  hear_response fuel s cursor request_id =
      let (header, s1) = get_header s in
      elim header [
        | none ↦ failed not_connected s1 cursor
        | some h ↦ elim (match_request fuel request_id s1 h) [
          | croak c ↦ Heard.stuck
          | Outcome.stuck ↦ Heard.stuck
          | ok r ↦ elim (r.0) [
            | inl f ↦ failed f (r.1) cursor
            | inr h' ↦ read_reply (r.1) cursor h'.length_field
          ]
        ]
      ]

  -- mongo_link_hear: `timeout` is the client's query_timeout, `request_id` the cursor's.
  unfoldable pub mongo_link_hear : ℕ → State World → Cursor → ℤ → ℤ → Heard World
  unfolding hear_response
  mongo_link_hear fuel s cursor timeout request_id = elim (perl_mongo_master net s false) [
    | croak c ↦ failed no_master s cursor
    | Outcome.stuck ↦ Heard.stuck
    | ok r ↦
        let (sock, s1) = r in
        if is_minus_one net sock
        then failed not_connected (set_disconnected net s1) cursor
        else if ltb_ℤ timeout (pos 0)
        then hear_response fuel s1 cursor request_id
        else (let (ready, w) = net.readable s1.world sock timeout in
            if ready
            then hear_response fuel (record s1 { world = w }) cursor request_id
            else failed timed_out (record s1 { world = w }) cursor)
  ]
