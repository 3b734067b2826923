-- ===== src/Link/Handshake.antt =====
-- What an SSL connection is taken for connected by.
use mongo_perl_driver.Common.{
  ℕ, ◌≡◌, ap, Bool, ◌∙◌, true, false, some, if◌then◌else◌, get_elem?, ℤ, pos,
}
use mongo_perl_driver.Outcome.{ok, ◌>>=◌}
use mongo_perl_driver.Link.{Server, Link, State, server_of}
use mongo_perl_driver.Link.Connect.{Sockets}
use mongo_perl_driver.Link.Disconnect.{get-set}
use mongo_perl_driver.Link.Ssl.{
  Openssl, over_ssl, set_socket, set_connected, change_server, tcp_setup, ssl_setup, reported,
  is_zero, ssl_connect, connect_link,
}

module _ {World : Type 0} (os : Sockets World) (ssl : Openssl World) where
  change_server_lem :
      (s : State World) (i : ℕ) (m : Server) (f : Server → Server)
      → s.link.master ≡ some i
      → get_elem? s.servers i ≡ some m
      → (server_of (change_server os ssl s f) ≡ some (f m))
        × ((change_server os ssl s f).link ≡ s.link)
        × (get_elem? (change_server os ssl s f).servers i ≡ some (f m))
  unfolding change_server
  change_server_lem s i m f master at =
      let stored = get-set s.servers i m (f m) at in
      (
        simp (server_of, change_server, master, at, stored),
        simp (change_server, master, at),
        simp (change_server, master, at, stored),
      )

  tcp_setup_lem :
      (s : State World) (m : Server) (handle : ℤ)
      → (ssl.host_found s.world m.host).0 ≡ true
      → (os.socket (ssl.host_found s.world m.host).1).0 ≡ some handle
      → (ssl.connect (os.socket (ssl.host_found s.world m.host).1).1 handle m.host m.port).0 ≡ true
      → (w : World) × (tcp_setup os ssl s m
          ≡ ok (change_server os ssl (record s { world = w }) (set_socket handle)))
  unfolding tcp_setup
  tcp_setup_lem s m handle found opened up = (
    (ssl.connect (os.socket (ssl.host_found s.world m.host).1).1 handle m.host m.port).1,
    rw (tcp_setup, opened, found)
        (ap
          (λ (b : Bool). ok (
            change_server os ssl
              (record s {
                world =
                    (ssl.connect (os.socket (ssl.host_found s.world m.host).1).1 handle m.host
                      m.port).1;
              })
              (set_socket (if b then handle else pos 0))))
          up),
  )

  over_ssl_lem :
      (fuel : ℕ) (s s' : State World) (m : Server) (sasl : ℤ)
      → s.link.ssl ≡ true
      → ssl_connect os ssl s m ≡ ok s'
      → connect_link os ssl fuel s m sasl ≡ over_ssl s'
  unfolding connect_link
  over_ssl_lem fuel s s' m sasl over e = rw (connect_link, e, over)

  -- With a context and a handle, what SSL_set_fd and SSL_connect say does not matter.
  ssl_setup-ok :
      (w : World) (socket timeout : ℤ)
      → ((v : World) → (ssl.ctx_new v).0 ≡ true)
      → ((v : World) → (ssl.ssl_new v true).0 ≡ true)
      → (w' : World) × (ssl_setup os ssl w socket timeout ≡ ok w')
  unfolding ssl_setup reported
  ssl_setup-ok w socket timeout context handle =
      let w1 = (ssl.ctx_new (ssl.library_init w)).1 in
      let w3 = (ssl.ssl_new w1 true).1 in
      let made = context (ssl.library_init w) in
      let given = handle w1 in
      (
        ssl.set_ctx_timeout
            (reported os ssl (ssl.handshake (reported os ssl (ssl.set_fd w3 socket)))) timeout,
        rw (ssl_setup, made, given),
      )

  ssl_connect_lem :
      (s s1 : State World) (m n : Server) (w' : World)
      → tcp_setup os ssl s m ≡ ok s1
      → server_of s1 ≡ some n
      → is_zero os ssl n.socket ≡ false
      → ssl_setup os ssl s1.world n.socket s1.link.timeout ≡ ok w'
      → ssl_connect os ssl s m ≡ ok (change_server os ssl (record s1 { world = w' }) set_connected)
  unfolding ssl_connect ◌>>=◌
  ssl_connect_lem s s1 m n w' tcp there some_handle set_up =
      rw (ssl_connect, tcp, ◌>>=◌, there, some_handle, set_up)

  -- When the host is found and the TCP connection is made, and the SSL library always makes a
  -- context and of a context a handle, perl_mongo_connect of an SSL link returns with the server
  -- connected, whatever SSL_set_fd and SSL_connect say: also when the handshake fails.
  pub ssl_connect-connected :
      (fuel : ℕ) (s : State World) (i : ℕ) (m : Server) (handle sasl : ℤ)
      → s.link.ssl ≡ true
      → s.link.master ≡ some i
      → get_elem? s.servers i ≡ some m
      → (ssl.host_found s.world m.host).0 ≡ true
      → (os.socket (ssl.host_found s.world m.host).1).0 ≡ some handle
      → is_zero os ssl handle ≡ false
      → (ssl.connect (os.socket (ssl.host_found s.world m.host).1).1 handle m.host m.port).0 ≡ true
      → ((w : World) → (ssl.ctx_new w).0 ≡ true)
      → ((w : World) → (ssl.ssl_new w true).0 ≡ true)
      → (s' : State World) × (connect_link os ssl fuel s m sasl ≡ over_ssl s')
        × (server_of s' ≡ some (record m { socket = handle; connected = true }))
        × (s'.link ≡ s.link)
  unfolding set_socket set_connected
  ssl_connect-connected fuel s i m handle sasl over master at found opened some_handle up context
        made =
      let (w, tcp) = tcp_setup_lem s m handle found opened up in
      let s1 = change_server os ssl (record s { world = w }) (set_socket handle) in
      let (there, same, stored) =
        change_server_lem (record s { world = w }) i m (set_socket handle) master at in
      let (w', set_up) = ssl_setup-ok s1.world handle s1.link.timeout context made in
      let s2 : State World = record s1 { world = w' } in
      let (there2, same2, stored2) =
        change_server_lem s2 i (record m { socket = handle }) set_connected
          (ap (λ (l : Link). l.master) same ∙ master) stored in
      (
        change_server os ssl s2 set_connected,
        over_ssl_lem fuel s _ m sasl over
            (ssl_connect_lem s s1 m _ w' tcp there some_handle set_up),
        there2,
        same2 ∙ same,
      )
