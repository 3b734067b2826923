-- ===== src/Iteration/Asking.antt =====
-- What is known of a cursor that has to ask the server, and what has_next sends then.
use mongo_perl_driver.Common.{
  ℕ, ◌+◌, ◌^◌, ◌<◌, ◌≡◌, refl, sym, ap, ◌∙◌, ◌≢◌, ◌⊎◌, inl, inr, Bool, true, false, Option, some,
  List, [], ◌∷◌, ◌++◌, arith, length, take, drop, take-append-drop, ℤ, pos, ltb_ℤ, signed32, ◌+ℤ◌,
  pos-+ℤ,
}
use mathlib.Core.List.{map}
use mongo_perl_driver.Perl.{Bytes}
use mongo_perl_driver.Outcome.{ok, ◌>>=◌}
use mongo_perl_driver.Buffer.{Cell, Buffer}
use mongo_perl_driver.Encode.BigInt.{signed64}
use mongo_perl_driver.Encode.Calendar.{to_unsigned}
use mongo_perl_driver.Wire.{get_more}
use mongo_perl_driver.Libbson.{Fields}
use mongo_perl_driver.Decode.{Reader}
use mongo_perl_driver.Link.{
  State, Network, Server, server_of, is_connected, master_socket, perl_mongo_master, is_minus_one,
  mongo_link_say,
}
use mongo_perl_driver.Link.Hear.{hear_response, mongo_link_hear}
use mongo_perl_driver.Link.Cursor.{Cursor, Heard}
use mongo_perl_driver.Iteration.{
  Readers, Ids, known_next, ask_server, is_zero_ℤ, reached_limit, at_end, has_next, ask_more,
  sent_bytes,
}
use mongo_perl_driver.Iteration.Next.{Iter, next, next_queried, give}

pub known_ask :
    (r : Readers) (c : Cursor) (a : ℕ)
    → ltb_ℤ (pos 0) r.agg_batch_size ≡ false
    → c.at ≡ pos a
    → c.num ≡ pos a
    → 0 < a
    → c.cursor_id ≢ 0
    → reached_limit r c ≡ false
    → known_next r c ≡ ask_server
unfolding known_next is_zero_ℤ at_end
known_ask r c a no_batch at num some_given open_still under =
    rw (no_batch, under, at, num) (ground arith)

module _ (net : Network) where
  connected_master :
      (s : State net.World) (m : Server) (again : Bool)
      → server_of s ≡ some m
      → m.connected ≡ true
      → perl_mongo_master net s again ≡ ok (m.socket, s)
  unfolding perl_mongo_master master_socket
  connected_master s m again there up =
      let on : is_connected s ≡ true = rw (is_connected, there) up in
      rw (perl_mongo_master, on, master_socket, there)

  connected_say :
      (s : State net.World) (m : Server) (bytes : Bytes)
      → server_of s ≡ some m
      → m.connected ≡ true
      → is_minus_one net m.socket ≡ false
      → is_minus_one net (net.sender s.world bytes).0 ≡ false
      → mongo_link_say net s bytes
        ≡ ok ((net.sender s.world bytes).0, record s { world = (net.sender s.world bytes).1 })
  unfolding mongo_link_say ◌>>=◌
  connected_say s m bytes there up socket sent =
      rw (mongo_link_say, connected_master s m true there up, ◌>>=◌, socket, sent)

  module _ (be : Bool) where
    -- select says that there is something to read, or there is no timeout.
    abbrev pub Arrived : net.World → ℤ → ℤ → Type 0
    Arrived w socket timeout =
        (ltb_ℤ timeout (pos 0) ≡ true)
        ⊎ ((ltb_ℤ timeout (pos 0) ≡ false) × ((net.readable w socket timeout).0 ≡ true))

    pub connected_hear :
        (fuel : ℕ) (s : State net.World) (m : Server) (c : Cursor) (timeout id : ℤ)
        → server_of s ≡ some m
        → m.connected ≡ true
        → is_minus_one net m.socket ≡ false
        → Arrived s.world m.socket timeout
        → (w : net.World) × ((w ≡ s.world) ⊎ (w ≡ (net.readable s.world m.socket timeout).1))
          × (mongo_link_hear be net fuel s c timeout id
              ≡ hear_response be net fuel (record s { world = w }) c id)
    unfolding mongo_link_hear
    connected_hear fuel s m c timeout id there up socket (inl forever) = (
      s.world,
      inl refl,
      rw (mongo_link_hear, connected_master s m false there up, socket, forever),
    )
    connected_hear fuel s m c timeout id there up socket (inr (timed, ready)) = (
      (net.readable s.world m.socket timeout).1,
      inr refl,
      rw (mongo_link_hear, connected_master s m false there up, socket, timed, ready),
    )

sent_bytes-append :
    (bs : Bytes) (cells : List Cell) → sent_bytes (map some bs ++ cells) ≡ bs ++ sent_bytes cells
unfolding sent_bytes
sent_bytes-append [] cells = refl
sent_bytes-append (b ∷ bs) cells = rw (sent_bytes-append bs cells)

pub sent_bytes_prefix :
    (bs : Bytes) (cells : List Cell)
    → take (length bs) cells ≡ map some bs
    → sent_bytes cells ≡ bs ++ sent_bytes (drop (length bs) cells)
sent_bytes_prefix bs cells e =
    ap sent_bytes
      (sym (take-append-drop (length bs) cells) ∙ ap (λ xs. xs ++ drop (length bs) cells) e)
    ∙ sent_bytes-append bs (drop (length bs) cells)

pub counted_up :
    (a k : ℕ) → a + k < 2 ^ 31 → signed32 (to_unsigned (pos a +ℤ signed32 k)) ≡ pos (a + k)
unfolding to_unsigned
counted_up a k small =
    let is_pos : signed32 k ≡ pos k = ground arith in rw (is_pos, pos-+ℤ a k) (ground arith)

pub positive : (k : ℕ) → 0 < k → k < 2 ^ 31 → ltb_ℤ (pos 0) (signed32 k) ≡ true
positive k some_more small = ground arith

module _ (be : Bool) (net : Network) where
  -- The message that has_next sends.
  abbrev pub asked : Iter net.World → Buffer × ℤ
  asked it =
      get_more be it.ids.last it.ids.own it.object.readers.ns it.object.readers.batch_size
        (signed64 it.cursor.cursor_id)

  abbrev pub sending : Iter net.World → ℤ × net.World
  sending it = net.sender it.state.world (sent_bytes ((asked it).0.used))

  pub asking :
      (fuel : ℕ) (it : Iter net.World) (m : Server)
      → known_next it.object.readers it.cursor ≡ ask_server
      → server_of it.state ≡ some m
      → m.connected ≡ true
      → is_minus_one net m.socket ≡ false
      → is_minus_one net (sending it).0 ≡ false
      → has_next be net fuel it.state it.object.readers it.cursor it.ids ≡ (
        mongo_link_hear be net fuel
            (record (it.state) { world = (sending it).1 })
            it.cursor
            it.object.readers.query_timeout
            (asked it).1,
        record { own = (asked it).1; last = (asked it).1 },
      )
  unfolding has_next ask_more
  asking fuel it m known there up socket sent = rw (
    has_next,
    known,
    ask_more,
    connected_say net it.state m (sent_bytes ((asked it).0.used)) there up socket sent,
    sent,
  )

module _ (be : Bool) (net : Network) (reader : Reader) (read : Bytes → Option Fields × ℕ) where
  pub next_heard :
      (do_query : Iter net.World → Iter net.World) (fuel : ℕ) (it : Iter net.World)
      (h : Heard net.World) (ids : Ids)
      → do_query it ≡ it
      → has_next be net fuel it.state it.object.readers it.cursor it.ids ≡ (h, ids)
      → next be net reader read do_query fuel it ≡ give be net reader read it.object (h, ids)
  unfolding next next_queried
  next_heard do_query fuel it h ids once e =
      rw (next, once) (ap (give be net reader read it.object) e)
