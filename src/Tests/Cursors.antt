-- ===== src/Tests/Cursors.antt =====
-- The theorems on next, at a cursor whose documents are a byte each.
use mongo_perl_driver.Common.{
  ℕ, ◌+◌, ◌%◌, ◌==◌, ◌≡◌, refl, ◌≢◌, ◌⊎◌, inl, inr, true, false, Option, none, some, List, [], ◌∷◌,
  ◌++◌, arith, length, take, drop, ℤ, pos, negsuc,
}
use mongo_perl_driver.Perl.{Bytes}
use mongo_perl_driver.Outcome.{ok, ◌>>=◌}
use mongo_perl_driver.Libbson.{Fields, Leaf, leaf, single}
use mongo_perl_driver.Decode.{Out, Entries, iv, hash, entry, empty, perl_mongo_buffer_to_sv}
use mongo_perl_driver.Link.{Server, State, server_of, set_disconnected}
use mongo_perl_driver.Link.Cursor.{Cursor, read_failed}
use mongo_perl_driver.Link.Reply.{reply_bytes}
use mongo_perl_driver.Link.Exchange.{response_bytes}
use mongo_perl_driver.Iteration.{Readers, have_next, known_next}
use mongo_perl_driver.Iteration.Next.{
  Object, Iter, unread, returned, died, query_error, no_response, error_of, is_command,
  take_document, next,
}
use mongo_perl_driver.Iteration.Drain.{Reads, Holds, all, next_all}
use mongo_perl_driver.Iteration.Errors.{NotMaster, next_query_error}
use mongo_perl_driver.Iteration.Asking.{asked}
use mongo_perl_driver.Iteration.More.{Connected, next_from_server}
use mongo_perl_driver.Tests.Data.{plain_reader}
use mongo_perl_driver.Tests.Server.{net, stream, whole, connected_to, up}

-- A document of one byte has the field "x".
abbrev read_byte : Bytes → Option Fields × ℕ
read_byte [] = (none, 0)
read_byte (b ∷ bs) = (some (single (120 ∷ []) (leaf (Leaf.int32 (pos b)))), 1)

abbrev doc : ℕ → Out
doc b = hash (entry (120 ∷ []) (iv (pos b)) empty)

abbrev readers : Readers
readers = record {
  agg_batch_size = pos 0;
  limit = pos 0;
  is_parallel = false;
  ns_front = 0 ∷ 0 ∷ 0 ∷ 0 ∷ [];
  ns = 116 ∷ 101 ∷ 115 ∷ 116 ∷ 46 ∷ 99 ∷ [];
  batch_size = pos 0;
  query_timeout = pos 30000;
}

abbrev queried : Object
queried = record { readers = readers; started = true; first_batch = [] }

abbrev cursor_at : ℕ → ℕ → ℕ → Cursor
cursor_at id a n = record {
  flag = 0;
  cursor_id = id;
  start = 0;
  at = pos a;
  num = pos n;
  memory = some (some 0 ∷ some 7 ∷ some 8 ∷ []);
  at_byte = a;
}

abbrev iter : Bytes → Cursor → Iter Bytes
iter answer c = record {
  state = connected_to answer;
  cursor = c;
  ids = record { own = pos 4; last = pos 4 };
  object = queried;
}

read_doc :
    (b : ℕ) (bs : Bytes) → perl_mongo_buffer_to_sv plain_reader read_byte (b ∷ bs) ≡ ok (doc b, bs)
unfolding perl_mongo_buffer_to_sv ◌>>=◌ mongo_perl_driver.Decode.hv_fill
    mongo_perl_driver.Decode.store
read_doc b bs = refl

no_error : (b : ℕ) → error_of readers.ns_front readers.ns (doc b) ≡ ok none
unfolding error_of ◌>>=◌
no_error b = refl

Reads-two :
    (a b : ℕ) (rest : Bytes)
    → Reads true net plain_reader read_byte (a ∷ b ∷ rest) (doc a ∷ doc b ∷ [])
Reads-two a b rest = (read_doc a (b ∷ rest), (read_doc b rest, tt))

two_left : Reads true net plain_reader read_byte (unread (cursor_at 0 1 3)) (doc 7 ∷ doc 8 ∷ [])
unfolding unread
two_left = Reads-two 7 8 []

next_all_example :
    (it' : Iter Bytes) × (all true net plain_reader read_byte
        (λ it. it)
        5
        3
        (iter [] (cursor_at 0 1 3))
      ≡ some (doc 7 ∷ doc 8 ∷ [], it'))
    × (it'.state ≡ connected_to [])
    × (it'.ids ≡ record { own = pos 4; last = pos 4 })
    × (it'.cursor.at ≡ pos 3)
    × (it'.cursor.num ≡ pos 3)
next_all_example =
    next_all true net plain_reader read_byte (λ it. it) (λ it h. refl) 5 3 1 (doc 7 ∷ doc 8 ∷ [])
      (iter [] (cursor_at 0 1 3)) (omega arith)
      (record {
        started = refl;
        no_batch = refl;
        at = refl;
        num = refl;
        within = omega arith;
        allowed = inl refl;
        reads = two_left;
        plain = (no_error 7, (no_error 8, tt));
      })
      (inr (refl, refl))

-- An error of a server that is not the master, in a first batch.
abbrev error_entries : Entries
error_entries =
    entry (36 ∷ 101 ∷ 114 ∷ 114 ∷ []) (Out.string true (110 ∷ 111 ∷ []))
      (entry (99 ∷ 111 ∷ 100 ∷ 101 ∷ []) (iv (pos 10107)) empty)

abbrev one_error : Object
one_error = record {
  readers = record readers { agg_batch_size = pos 1 };
  started = true;
  first_batch = hash error_entries ∷ [];
}

abbrev failing : Iter Bytes
failing = record (iter [] (cursor_at 0 1 3)) { object = one_error }

abbrev emptied : Iter Bytes
emptied = record failing { object = record one_error { readers = readers; first_batch = [] } }

failing_known : known_next failing.object.readers failing.cursor ≡ have_next
unfolding known_next
failing_known = refl

failing_taken :
    take_document true net plain_reader read_byte failing ≡ ok (hash error_entries, emptied)
unfolding take_document mongo_perl_driver.Common.Int.◌+ℤ◌
failing_taken = refl

no_command : is_command readers.ns_front readers.ns ≡ false
unfolding is_command
no_command = refl

next_query_error_example :
    (it' : Iter Bytes) × (next true net plain_reader read_byte (λ it. it) 5 failing
      ≡ died (query_error (Out.string true (110 ∷ 111 ∷ []))) it')
    × (it'.cursor.at ≡ pos 2)
    × ((NotMaster (some (iv (pos 10107)))
          × (server_of it'.state ≡ some (record up { connected = false })))
        ⊎ ((¬ (NotMaster (some (iv (pos 10107))))) × (it'.state ≡ connected_to [])))
next_query_error_example =
    next_query_error true net plain_reader read_byte (λ it. it) 5 failing emptied error_entries
      (Out.string true (110 ∷ 111 ∷ [])) 1 0 up refl failing_known failing_taken no_command refl
      refl (omega arith) refl refl refl refl

-- The reply to the request 5, with two documents.
abbrev two_more : Bytes
two_more =
    response_bytes true net stream whole (36 + 2) 9 5 1
      (reply_bytes true net stream whole 8 77 0 2 (7 ∷ 8 ∷ []))

abbrev at_one : Iter Bytes
at_one = iter two_more (cursor_at 77 1 1)

asked_five : (asked true net at_one).1 ≡ pos 5
unfolding mongo_perl_driver.Wire.get_more mongo_perl_driver.Encode.BigInt.signed64
    mongo_perl_driver.Encode.BigInt.to_word64
asked_five = refl

Connected-then : Connected true net up at_one
unfolding mongo_perl_driver.Link.is_minus_one
Connected-then = record {
  there = refl;
  up = refl;
  socket = refl;
  sent = refl;
  arrived = inr (refl, refl);
}

next_from_server_example :
    ((it' : Iter Bytes) × (next true net plain_reader read_byte (λ it. it) 1 at_one
        ≡ died (no_response read_failed) it'))
    ⊎ ((it' : Iter Bytes) × (next true net plain_reader read_byte (λ it. it) 1 at_one
          ≡ returned (some (doc 7)) it')
        × Holds true net plain_reader read_byte 3 2 (doc 8 ∷ []) it'
        × (it'.cursor.cursor_id ≡ 77)
        × (it'.state.world ≡ []))
next_from_server_example =
    next_from_server true net plain_reader read_byte stream whole (λ it. it) (λ it h. refl)
      (λ w socket timeout. refl) 0 1 (doc 7) (doc 8 ∷ []) at_one up 2 9 5 1 8 77 0 (7 ∷ 8 ∷ [])
      (record {
        started = refl;
        no_batch = refl;
        at = refl;
        num = refl;
        some_given = omega arith;
        open_still = omega arith;
        allowed = inl refl;
        plain = (no_error 7, (no_error 8, tt));
      })
      Connected-then (omega arith) (omega arith) (omega arith) (omega arith) (omega arith)
      (omega arith) (omega arith) (omega arith) refl asked_five refl (λ rest. Reads-two 7 8 rest)
