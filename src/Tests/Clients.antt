-- ===== src/Tests/Clients.antt =====
-- The theorems on the client: memory, connecting, SSL and SASL.
use mongo_perl_driver.Common.{
  ℕ, zero, suc, ◌<◌, ◌≡◌, refl, ◌≢◌, ◌↔◌, true, false, Option, none, some, [], ◌∷◌, length, pos,
}
use mathlib.Core.Logic.{◌⊎◌}
use mongo_perl_driver.Perl.{Bytes}
use mongo_perl_driver.Link.{Server, Link, State, server_of}
use mongo_perl_driver.Link.Connect.{Sockets, connected_now, selected}
use mongo_perl_driver.Link.Ssl.{Openssl, over_ssl, connect_link, is_zero}
use mongo_perl_driver.Link.Handshake.{ssl_connect-connected}
use mongo_perl_driver.Link.Sasl.{
  gsasl_ok, needs_more, step_error, Gsasl, authenticated, is_plain, sasl_authenticate,
}
use mongo_perl_driver.Link.Dialogue.{Dialogue, first, opened, sasl_authenticate_iff}
use mongo_perl_driver.Client.{Answer, reference, Credentials, connect}
use mongo_perl_driver.Client.Memory.{Memory, init_conn, init_conn_holder, connection_free}
use mongo_perl_driver.Common.Places.{at}
use mongo_perl_driver.Client.Ownership.{Owns}
use mongo_perl_driver.Client.Lifetime.{Reach, start, step, init, hold, connection_free_lem}
use mongo_perl_driver.Tests.Server.{up, one_link}

abbrev own_link : Link
own_link = record {
  auto_reconnect = true;
  timeout = pos 20000;
  copy = false;
  ssl = false;
  master = some 0;
}

-- A link, and a copy that points to its server.
abbrev two_links : Memory
two_links = init_conn_holder one_link own_link (
    init_conn (104 ∷ []) (pos 27017) false (pos 0) (pos 20000) true
      (record { servers = []; links = [] }))

two_links_reached : Reach two_links
two_links_reached =
    step (step start (init (104 ∷ []) (pos 27017) false (pos 0) (pos 20000) true))
      (hold one_link own_link)

first_link : at two_links.links 0 ≡ some own_link
unfolding init_conn init_conn_holder
first_link = refl

abbrev one : ℕ
one = 1

connection_free_lem_example :
    (m' : Memory) × (connection_free 0 two_links ≡ some m')
    × (at m'.links 0 ≡ none)
    × ((Owns two_links 0 0 × (at m'.servers 0 ≡ none))
        ⊎ ((¬ (Owns two_links 0 0)) × (at m'.servers 0 ≡ at two_links.servers 0)))
    × ((one ≡ 0) ⊎ ((¬ (Owns two_links 1 0)) ⊎ (at m'.servers 0 ≡ at two_links.servers 0)))
connection_free_lem_example =
    connection_free_lem two_links 0 1 0 own_link two_links_reached first_link

abbrev sockets : Sockets Bytes
sockets = record {
  socket = λ w. (some (pos 4), w);
  resolve = λ w host port. (true, w);
  set_flags = λ w sock. w;
  set_timeouts = λ w sock sec usec. w;
  set_blocking = λ w sock blocking. w;
  connect = λ w sock. (connected_now, w);
  getpeername = λ w sock. (true, w);
  select = λ w sock sec usec. (selected false true true false, w);
  gettimeofday = λ w. (some (pos 1, pos 0), w);
  close = λ w sock. w;
}

-- A library whose handshake fails.
abbrev no_handshake : Openssl Bytes
no_handshake = record {
  library_init = λ w. w;
  ctx_new = λ w. (true, w);
  ssl_new = λ w context. (context, w);
  set_fd = λ w sock. (true, w);
  handshake = λ w. (false, w);
  set_ctx_timeout = λ w timeout. w;
  report = λ w. w;
  host_found = λ w host. (true, w);
  connect = λ w sock host port. (true, w);
}

abbrev down : Server
down = record up { connected = false }

abbrev ssl_state : State Bytes
ssl_state = record { world = []; servers = down ∷ []; link = record one_link { ssl = true } }

four_not_zero : is_zero sockets no_handshake (pos 4) ≡ false
unfolding is_zero
four_not_zero = refl

ssl_connect-connected_example :
    (s' : State Bytes) × (connect_link sockets no_handshake 9 ssl_state down (pos 0) ≡ over_ssl s')
    × (server_of s' ≡ some (record up { socket = pos 4 }))
    × (s'.link ≡ record one_link { ssl = true })
ssl_connect-connected_example =
    ssl_connect-connected sockets no_handshake 9 ssl_state 0 down (pos 4) (pos 0) refl refl refl
      refl refl four_not_zero refl (λ w. refl) (λ w. refl)

abbrev nobody : Credentials
nobody = record { sasl = pos 0; has_username = true; has_password = true }

abbrev welcome : State Bytes → Option Answer × State Bytes
welcome s = (some (reference (some (pos 1))), s)

-- A library that is content after its second step.
abbrev gsasl : Gsasl ℕ
gsasl = record {
  Conversation = ℕ;
  init = λ w. (true, w);
  client_start = λ w name. (true, w);
  set_properties = λ w host user. 0;
  step = λ w buf. elim w [ zero ↦ (needs_more, 1 ∷ [], 1) | suc n ↦ (gsasl_ok, 2 ∷ [], 2) ];
  finish = λ w. w;
  sasl_start = λ w out name. (some (some (3 ∷ []), some 5), w);
  sasl_continue = λ w out conv. (some (some (4 ∷ [])), w);
  sasl_plain_authenticate = λ w. (true, w);
}

abbrev gssapi : Bytes
gssapi = 71 ∷ 83 ∷ 83 ∷ 65 ∷ 80 ∷ 73 ∷ []

other_mechanism : is_plain gssapi ≡ false
unfolding is_plain
other_mechanism = refl

sasl_authenticate_iff_example :
    ((fuel : ℕ) × (sasl_authenticate gsasl fuel 7 true (104 ∷ []) (some gssapi) (some (117 ∷ []))
        ≡ authenticated 2))
    ↔ (((first gsasl 7 (104 ∷ []) gssapi (117 ∷ [])).0 ≢ step_error)
        × (length (first gsasl 7 (104 ∷ []) gssapi (117 ∷ [])).1 < 8192)
        × ((payload : Bytes) × (conv : ℕ) × ((opened gsasl 7 (104 ∷ []) gssapi (117 ∷ [])).0
              ≡ some (some payload, some conv))
            × Dialogue gsasl conv (opened gsasl 7 (104 ∷ []) gssapi (117 ∷ [])).1 payload 2))
sasl_authenticate_iff_example =
    sasl_authenticate_iff gsasl 7 (104 ∷ []) gssapi (117 ∷ []) 2 other_mechanism refl refl
