-- ===== src/Tests/Network.antt =====
-- The theorems on the connection, with a server whose answers are a list of bytes.
use mongo_perl_driver.Common.{
  replicate, ◌≡◌, refl, ◌≢◌, ◌⊎◌, true, false, none, some, List, [], ◌∷◌, arith, length, take, drop,
  pos, negsuc, ltb_ℤ, signed32, ◌+ℤ◌,
}
use mathlib.Core.List.{map}
use mongo_perl_driver.Perl.{Bytes}
use mongo_perl_driver.Outcome.{ok}
use mongo_perl_driver.Buffer.{Cell}
use mongo_perl_driver.Encode.Calendar.{to_unsigned}
use mongo_perl_driver.Link.{State, server_of, set_disconnected, perl_mongo_master, mongo_link_say}
use mongo_perl_driver.Link.Hear.{mongo_link_reader, hear_response}
use mongo_perl_driver.Link.Cursor.{
  Cursor, Heard, Failure, no_old_response, failed, heard, read_failed,
}
use mongo_perl_driver.Link.Reader.{Took, mongo_link_reader_lem}
use mongo_perl_driver.Link.Reply.{reply_bytes}
use mongo_perl_driver.Link.Backlog.{Message, Response, IsOlder, backlog, hear_response_after}
use mongo_perl_driver.Link.Finite.{hear_response-ne-stuck}
use mongo_perl_driver.Link.Disconnect.{set_disconnected-mongo_link_say}
use mongo_perl_driver.Link.Connect.{
  select_error, connected_now, Sockets, returned, non_ssl_connect, mongo_link_timeout,
}
use mongo_perl_driver.Tests.Server.{net, stream, whole, up, one_link, connected_to}
use mongo_perl_driver.Link.Waiting.{mongo_link_timeout-forever, non_ssl_connect_lem}

mongo_link_reader_lem_example :
    Took net stream (mongo_link_reader true net (1 ∷ 2 ∷ 3 ∷ []) 2) [] 2 (1 ∷ 2 ∷ 3 ∷ [])
mongo_link_reader_lem_example = mongo_link_reader_lem net stream true (1 ∷ 2 ∷ 3 ∷ []) 2

abbrev new_cursor : Cursor
new_cursor = record {
  flag = 0;
  cursor_id = 0;
  start = 0;
  at = pos 0;
  num = pos 0;
  memory = none;
  at_byte = 0;
}

abbrev document : Bytes
document = 5 ∷ 0 ∷ 0 ∷ 0 ∷ 0 ∷ []

-- The late response to the request 4, and then that to the request 5.
abbrev late : Response
late = record {
  message = record { extra = 2; id = 8; answered = 4; op = 1 };
  fields = replicate 20 0;
  body = 6 ∷ 6 ∷ [];
}

abbrev wanted : Message
wanted = record { extra = 5; id = 9; answered = 5; op = 1 }

late-IsOlder : IsOlder (pos 5) late
late-IsOlder = record {
  valid = record {
    most = omega arith;
    small_id = omega arith;
    small_answered = omega arith;
    small_op = omega arith;
  };
  earlier = refl;
  twenty = refl;
  whole_body = refl;
}

abbrev both : Bytes
both =
    backlog true net stream whole (late ∷ []) wanted
      (reply_bytes true net stream whole 8 77 0 1 document)

hear_response_after_example :
    ((f : Failure) × (s' : State Bytes) × (c' : Cursor) × ((f ≡ no_old_response)
        ⊎ (f ≡ read_failed))
      × (hear_response true net 2 (connected_to both) new_cursor (pos 5) ≡ failed f s' c'))
    ⊎ ((s' : State Bytes) × (memory : List Cell) × (take (length (take 5 document)) memory
          ≡ map some (take 5 document))
        × (s'.world ≡ drop 5 document)
        × (hear_response true net 2 (connected_to both) new_cursor (pos 5)
            ≡ heard (ltb_ℤ (pos 0) (signed32 1)) s' (record {
              flag = 8;
              cursor_id = 77;
              start = 0;
              at = pos 0;
              num = signed32 (to_unsigned (pos 0 +ℤ signed32 1));
              memory = some memory;
              at_byte = 0;
            })))
hear_response_after_example =
    hear_response_after true net stream whole (late ∷ []) 2 (connected_to both) new_cursor (pos 5)
      wanted 8 77 0 1 document (late-IsOlder, tt)
      (record {
        most = omega arith;
        small_id = omega arith;
        small_answered = omega arith;
        small_op = omega arith;
      })
      refl (omega arith) (omega arith) (omega arith) (omega arith) (omega arith) refl refl

hear_response-ne-stuck_example :
    hear_response true net 9 (connected_to document) new_cursor (pos 5) ≢ Heard.stuck
hear_response-ne-stuck_example =
    hear_response-ne-stuck true net stream 9 (connected_to document) new_cursor (pos 5)
      (omega arith)

set_disconnected-mongo_link_say_example :
    (perl_mongo_master net (set_disconnected net (connected_to [])) true
      ≡ ok (negsuc 0, set_disconnected net (connected_to [])))
    × (mongo_link_say net (set_disconnected net (connected_to [])) document
        ≡ ok (negsuc 0, set_disconnected net (connected_to [])))
    × (set_disconnected net (set_disconnected net (connected_to []))
        ≡ set_disconnected net (connected_to []))
set_disconnected-mongo_link_say_example =
    set_disconnected-mongo_link_say net (connected_to []) 0 up document refl refl refl refl refl

abbrev broken_select : Sockets Bytes
broken_select = record {
  socket = λ w. (some (pos 4), w);
  resolve = λ w host port. (true, w);
  set_flags = λ w sock. w;
  set_timeouts = λ w sock sec usec. w;
  set_blocking = λ w sock blocking. w;
  connect = λ w sock. (connected_now, w);
  getpeername = λ w sock. (true, w);
  select = λ w sock sec usec. (select_error false, w);
  gettimeofday = λ w. (some (pos 1, pos 0), w);
  close = λ w sock. w;
}

mongo_link_timeout-forever_example :
    mongo_link_timeout broken_select 100 [] (pos 4) (pos 20000) ≡ none
mongo_link_timeout-forever_example =
    mongo_link_timeout-forever broken_select 100 [] (pos 4) (pos 20000) (pos 1, pos 0) refl refl
      (λ w a b. refl)

connect-returned :
    non_ssl_connect broken_select 3 (connected_to []) up
    ≡ returned (record { world = []; servers = record up { socket = pos 4 } ∷ []; link = one_link })
unfolding non_ssl_connect
connect-returned = refl

non_ssl_connect_lem_example :
    (server_of {World = Bytes}
        (record { world = []; servers = record up { socket = pos 4 } ∷ []; link = one_link })
      ≡ some (record up { socket = pos 4; connected = true }))
    ⊎ ((w : Bytes) × (◌≡◌ {A = State Bytes}
          (record { world = []; servers = record up { socket = pos 4 } ∷ []; link = one_link })
          (record (connected_to []) { world = w })))
non_ssl_connect_lem_example =
    non_ssl_connect_lem broken_select 3 (connected_to []) 0 up (pos 4)
      (record { world = []; servers = record up { socket = pos 4 } ∷ []; link = one_link }) refl
      refl refl connect-returned
