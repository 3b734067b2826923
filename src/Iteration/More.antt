-- ===== src/Iteration/More.antt =====
-- A cursor that asks the server for more documents: what is sent, and the reply to it.
use mongo_perl_driver.Common.{
  ℕ, suc, ◌+◌, ◌%◌, ◌^◌, ◌≤◌, ◌<◌, ◌≡◌, refl, sym, ap, ◌∙◌, ◌≢◌, ◌⊎◌, inl, inr, Bool, true, false,
  Option, none, some, List, ◌∷◌, ◌++◌, arith, ◌==◌, length, take, drop, All, ℤ, pos, ltb_ℤ,
  signed32, ◌+ℤ◌,
}
use mathlib.Core.Path.{subst}
use mongo_perl_driver.Perl.{Bytes}
use mongo_perl_driver.Outcome.{ok}
use mongo_perl_driver.Encode.Calendar.{to_unsigned}
use mongo_perl_driver.Libbson.{Fields}
use mongo_perl_driver.Decode.{Out, Reader}
use mongo_perl_driver.Link.{State, Network, Server, server_of, is_minus_one}
use mongo_perl_driver.Link.Cursor.{heard, read_failed}
use mongo_perl_driver.Link.Reader.{Stream}
use mongo_perl_driver.Link.Reply.{Whole, reply_bytes}
use mongo_perl_driver.Link.Exchange.{response_bytes, hear_response_lem}
use mongo_perl_driver.Iteration.{
  Readers, Ids, known_next, ask_server, is_zero_ℤ, reached_limit, at_end, has_next, ask_more,
  sent_bytes,
}
use mongo_perl_driver.Iteration.Asking.{
  known_ask, Arrived, connected_hear, sent_bytes_prefix, counted_up, positive, asked, sending,
  asking, next_heard,
}
use mongo_perl_driver.Iteration.Counts.{Allows, under_limit}
use mongo_perl_driver.Iteration.Drain.{Holds, Reads, moved, give_one, Holds-next}
use mongo_perl_driver.Iteration.Next.{
  Object, Iter, Next, returned, died, no_response, error_of, unread, next, next_queried, give,
}

module _ (be : Bool) (net : Network) where
  -- A cursor that has been queried and has given all of its a documents, of which the server has
  -- more; these are the next, none of them is an error, and the limit lets them pass.
  pub record Exhausted (a : ℕ) (ds : List Out) (it : Iter net.World) : Type 0 where
    pub started : it.object.started ≡ true
    pub no_batch : ltb_ℤ (pos 0) it.object.readers.agg_batch_size ≡ false
    pub at : it.cursor.at ≡ pos a
    pub num : it.cursor.num ≡ pos a
    pub some_given : 0 < a
    pub open_still : it.cursor.cursor_id ≢ 0
    pub allowed : Allows it.object.readers.limit (a + length ds)
    pub plain : All (λ d. error_of it.object.readers.ns_front it.object.readers.ns d ≡ ok none) ds

  -- The client is connected to the server, and sends.
  pub record Connected (m : Server) (it : Iter net.World) : Type 0 where
    pub there : server_of it.state ≡ some m
    pub up : m.connected ≡ true
    pub socket : is_minus_one net m.socket ≡ false
    pub sent : is_minus_one net (sending be net it).0 ≡ false
    pub arrived : Arrived net be (sending be net it).1 m.socket it.object.readers.query_timeout

module _ (be : Bool) (net : Network) (reader : Reader) (read : Bytes → Option Fields × ℕ) where
  module _ (stream : Stream net) (whole : Whole net stream) where
    open stream use {remaining}

    -- A cursor that has given all of its documents while the server has more sends the request for
    -- more with a new request id. When the response to that id is the next thing on the connection,
    -- next gives the first of its documents, the cursor then holds the others, counted on from
    -- those before, and what comes after the response is left; or the read fails and next croaks.
    pub next_from_server :
        (do_query : Iter net.World → Iter net.World)
        → ((it : Iter net.World) → it.object.started ≡ true → do_query it ≡ it)
        → ((w : net.World) (socket timeout : ℤ)
            → remaining ((net.readable w socket timeout).1) ≡ remaining w)
        → (fuel a : ℕ) (d : Out) (ds : List Out) (it : Iter net.World) (m : Server)
          (len id answered op flags cursor_id start : ℕ) (docs : Bytes)
        → Exhausted be net a (d ∷ ds) it
        → Connected be net m it
        → a + length (d ∷ ds) < 2 ^ 31
        → 36 + len ≤ 67108864
        → id < 2 ^ 32
        → answered < 2 ^ 32
        → op < 2 ^ 32
        → flags < 2 ^ 32
        → cursor_id < 2 ^ 64
        → start < 2 ^ 32
        → (flags % 2 == 1) ≡ false
        → (asked be net it).1 ≡ signed32 answered
        → remaining ((sending be net it).1)
          ≡ response_bytes be net stream whole
              (36 + len)
              id
              answered
              op
              (reply_bytes be net stream whole flags cursor_id start (length (d ∷ ds)) docs)
        → ((rest : Bytes) → Reads be net reader read (take len docs ++ rest) (d ∷ ds))
        → ((it' : Iter net.World) × (next be net reader read do_query (suc fuel) it
              ≡ died (no_response read_failed) it'))
          ⊎ ((it' : Iter net.World) × (next be net reader read do_query (suc fuel) it
                ≡ returned (some d) it')
              × Holds be net reader read (a + length (d ∷ ds)) (suc a) ds it'
              × (it'.cursor.cursor_id ≡ cursor_id)
              × (remaining (it'.state.world) ≡ drop len docs))
    unfolding give unread mongo_perl_driver.Iteration.Next.count_document
    next_from_server do_query once selects fuel a d ds it m len id answered op flags cursor_id start
          docs x c small most small_id small_answered small_op small_flags small_cursor small_start
          alive mine is reads =
        let n = a + length (d ∷ ds) in
        let room = under_limit it.object.readers it.cursor a n x.at (omega arith) x.allowed in
        let known =
          known_ask it.object.readers it.cursor a x.no_batch x.at x.num x.some_given x.open_still
            room in
        let ids : Ids = record { own = (asked be net it).1; last = (asked be net it).1 } in
        let s1 : State net.World = record (it.state) { world = (sending be net it).1 } in
        let (w, kept, hears) =
          connected_hear net be (suc fuel) s1 m it.cursor it.object.readers.query_timeout
            (asked be net it).1 c.there c.up c.socket c.arrived in
        let there : remaining w ≡ remaining ((sending be net it).1) = elim kept [
          | inl e ↦ ap remaining e
          | inr e ↦
              ap remaining e
              ∙ selects ((sending be net it).1) m.socket it.object.readers.query_timeout
        ] in
        let asks = asking be net (suc fuel) it m known c.there c.up c.socket c.sent in
        elim (hear_response_lem be net stream whole fuel (record s1 { world = w }) it.cursor
          (asked be net it).1 len id answered op flags cursor_id start (length (d ∷ ds)) docs most
          small_id small_answered small_op small_flags small_cursor small_start
          (omega (arith, small)) alive mine (there ∙ is)) [
            | inl (s', c', f) ↦ inl (
              record { state = s'; cursor = c'; ids = ids; object = it.object },
              next_heard be net reader read do_query (suc fuel) it _ ids (once it x.started)
                  (asks ∙ ap (λ h. (h, ids)) (hears ∙ f)),
            )
            | inr (s', memory, filled, left, f) ↦
                let it1 : Iter net.World = record {
                  state = s';
                  cursor = record {
                    flag = flags;
                    cursor_id = cursor_id;
                    start = start;
                    at = it.cursor.at;
                    num = signed32 (to_unsigned (it.cursor.num +ℤ signed32 (length (d ∷ ds))));
                    memory = some memory;
                    at_byte = 0;
                  };
                  ids = ids;
                  object = it.object;
                } in
                let holds : Holds be net reader read n a (d ∷ ds) it1 = record {
                  started = x.started;
                  no_batch = x.no_batch;
                  at = x.at;
                  num =
                      ap (λ z. signed32 (to_unsigned (z +ℤ signed32 (length (d ∷ ds))))) x.num
                      ∙ counted_up a (length (d ∷ ds)) small;
                  within = omega arith;
                  allowed = x.allowed;
                  reads =
                      subst (λ bytes. Reads be net reader read bytes (d ∷ ds))
                        (sym (sent_bytes_prefix (take len docs) memory filled))
                        (reads (sent_bytes (drop (length (take len docs)) memory)));
                  plain = x.plain;
                } in
                inr (
                  record it1 { cursor = moved be net reader read it1.cursor },
                  next_heard be net reader read do_query (suc fuel) it _ ids (once it x.started) (
                        asks
                        ∙ ap (λ h. (h, ids))
                            (hears
                              ∙ (f
                                  ∙ ap (λ b. heard b s' it1.cursor)
                                      (positive (length (d ∷ ds)) (omega arith)
                                        (omega (arith, small))))))
                      ∙ give_one be net reader read n a d ds it1 holds,
                  Holds-next be net reader read n a d ds it1 small holds,
                  refl,
                  left,
                )
          ]
