-- ===== src/Link/Ssl.antt =====
-- The connection over SSL: tcp_setup, ssl_connect, perl_mongo_connect as it is compiled with
-- MONGO_SSL, and connect of xs/MongoClient.xs. The SSL library and the system are an argument.
use mongo_perl_driver.Common.{
  ℕ, Bool, true, false, ◌&&◌, none, some, ◌==◌, if◌then◌else◌, get_elem?, ℤ, pos, negsuc,
}
use mongo_perl_driver.Perl.{Bytes}
use mongo_perl_driver.Outcome.{Outcome, ok, croak, bad_pointer, ◌>>=◌}
use mongo_perl_driver.Link.{Server, State, server_of}
use mongo_perl_driver.Common.Places.{set_elem}
use mongo_perl_driver.Link.Connect.{Sockets, Connecting, perl_mongo_connect}

-- What ssl_connect calls besides the socket calls. SSL_set_fd and SSL_connect say whether they
-- succeeded, SSL_CTX_new and SSL_new whether they returned a pointer that is not NULL, SSL_new of a
-- context that is NULL or not; `report` is ERR_print_errors_fp.
pub record Openssl (World : Type 0) : Type 0 where
  pub library_init : World → World
  pub ctx_new : World → Bool × World
  pub ssl_new : World → Bool → Bool × World
  pub set_fd : World → ℤ → Bool × World
  pub handshake : World → Bool × World
  pub set_ctx_timeout : World → ℤ → World
  pub report : World → World
  -- gethostbyname and connect, which blocks here
  pub host_found : World → Bytes → Bool × World
  pub connect : World → ℤ → Bytes → ℤ → Bool × World

unfoldable pub set_socket : ℤ → Server → Server
set_socket handle m = record m { socket = handle }

unfoldable pub set_connected : Server → Server
set_connected m = record m { connected = true }

module _ {World : Type 0} (os : Sockets World) (ssl : Openssl World) where
  -- link->master, changed.
  unfoldable pub change_server : State World → (Server → Server) → State World
  change_server s f = elim s.link.master [
    | none ↦ s
    | some i ↦ elim (get_elem? s.servers i) [
      | none ↦ s
      | some m ↦ record s { servers = set_elem s.servers i (f m) }
    ]
  ]

  -- tcp_setup: the handle is 0 when there is no socket or no connection; host->h_addr is read
  -- without a test.
  unfoldable pub tcp_setup : State World → Server → Outcome (State World)
  unfolding change_server set_socket
  tcp_setup s m =
      let (found, w1) = ssl.host_found s.world m.host in
      let (opened, w2) = os.socket w1 in
      elim opened [
        | none ↦ ok (change_server (record s { world = w2 }) (set_socket (pos 0)))
        | some handle ↦
            if found
            then (let (up, w3) = ssl.connect w2 handle m.host m.port in
                ok (
                  change_server (record s { world = w3 })
                    (set_socket (if up then handle else pos 0))))
            else croak bad_pointer
      ]

  unfoldable pub reported : Bool × World → World
  reported (true, w) = w
  reported (false, w) = ssl.report w

  -- The calls of the SSL library; each failure is printed, and what follows is called all the
  -- same. SSL_set_fd and SSL_connect follow the pointer to the handle, SSL_CTX_set_timeout that to
  -- the context.
  unfoldable pub ssl_setup : World → ℤ → ℤ → Outcome World
  unfolding reported
  ssl_setup w socket timeout =
      let (ssl_context, w1) = ssl.ctx_new (ssl.library_init w) in
      let (ssl_handle, w2) = ssl.ssl_new (reported (ssl_context, w1)) ssl_context in
      let w3 = reported (ssl_handle, w2) in
      if ssl_handle && ssl_context
      then ok
          (ssl.set_ctx_timeout (reported (ssl.handshake (reported (ssl.set_fd w3 socket)))) timeout)
      else croak bad_pointer

  unfoldable pub is_zero : ℤ → Bool
  is_zero (pos n) = n == 0
  is_zero (negsuc n) = false

  -- ssl_connect
  unfoldable pub ssl_connect : State World → Server → Outcome (State World)
  unfolding tcp_setup ssl_setup is_zero set_connected
  ssl_connect s m = do
    s1 ← tcp_setup s m
    elim (server_of s1) [
      | none ↦ croak bad_pointer
      | some n ↦ if is_zero n.socket then ok s1 else (do
        w ← ssl_setup s1.world n.socket s1.link.timeout
        ok (change_server (record s1 { world = w }) set_connected))
    ]

  -- How perl_mongo_connect ends; `bad` is a pointer that leads nowhere.
  pub data Attempt : Type 0 where
    over_ssl : State World → Attempt
    plainly : Connecting World → Attempt
    bad : Attempt

  -- perl_mongo_connect, compiled with MONGO_SSL and without MONGO_SASL
  unfoldable pub connect_link : ℕ → State World → Server → ℤ → Attempt
  unfolding ssl_connect
  connect_link fuel s m sasl =
      if s.link.ssl
      then elim (ssl_connect s m) [ ok s' ↦ over_ssl s' | croak x ↦ bad | Outcome.stuck ↦ bad ]
      else plainly (perl_mongo_connect os fuel s m sasl)
