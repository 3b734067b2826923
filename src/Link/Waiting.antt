-- ===== src/Link/Waiting.antt =====
-- The wait for a connection that does not end, and what non_ssl_connect leaves of a socket.
use mongo_perl_driver.Common.{
  ℕ, zero, suc, ◌≡◌, refl, sym, ap, ◌∙◌, ◌⊎◌, inl, inr, true, false, none, some, arith, Bool-cases,
  Option-cases, get_elem?, ℤ, pos, negsuc, ltb_ℤ,
}
use mongo_perl_driver.Link.Disconnect.{get-set}
use mongo_perl_driver.Link.{Server, State, server_of}
use mongo_perl_driver.Link.Connect.{
  select_error, Sockets, returned, still_waiting, not_negative, whole_seconds, wait_loop,
  mongo_link_timeout, finish_connect, attach, non_ssl_connect, set_timeout,
}

returned_same : {World : Type 0} {s t : State World} → returned s ≡ returned t → s ≡ t
returned_same h = cc

module _ {World : Type 0} (os : Sockets World) where
  wait_loop-forever :
      (fuel : ℕ) (w : World) (sock : ℤ) (timeout prev : ℤ × ℤ)
      → ((w' : World) (a b : ℤ) → (os.select w' sock a b).0 ≡ select_error false)
      → not_negative (timeout.0) ≡ true
      → wait_loop os fuel w sock timeout prev ≡ none
  unfolding wait_loop
  wait_loop-forever zero w sock timeout prev fails more = refl
  wait_loop-forever (suc fuel) w sock timeout prev fails more =
      rw (wait_loop, fails w (timeout.0) (timeout.1), more)
        (wait_loop-forever fuel _ sock timeout prev fails more)

  -- When select fails on the socket each time with an error that is no interruption,
  -- mongo_link_timeout never returns: with a positive timeout no number of rounds is enough.
  pub mongo_link_timeout-forever :
      (fuel : ℕ) (w : World) (sock to : ℤ) (time : ℤ × ℤ)
      → ltb_ℤ (pos 0) to ≡ true
      → (os.gettimeofday w).0 ≡ some time
      → ((w' : World) (a b : ℤ) → (os.select w' sock a b).0 ≡ select_error false)
      → mongo_link_timeout os fuel w sock to ≡ none
  unfolding mongo_link_timeout whole_seconds not_negative
  mongo_link_timeout-forever fuel w sock (pos n) time positive clock fails =
      rw (mongo_link_timeout, positive, clock)
        (wait_loop-forever fuel _ sock _ time fails (ground arith))
  mongo_link_timeout-forever fuel w sock (negsuc n) time positive clock fails = ground arith

  attach_lem :
      (s : State World) (i : ℕ) (m : Server) (sock : ℤ)
      → s.link.master ≡ some i
      → get_elem? s.servers i ≡ some m
      → server_of (attach os s sock) ≡ some (record m { socket = sock; connected = true })
  unfolding attach
  attach_lem s i m sock master at = simp (
    server_of,
    attach,
    master,
    at,
    get-set s.servers i m (record m { socket = sock; connected = true }) at,
  )

  -- A socket that non_ssl_connect has opened is not lost: when it returns, the socket either is
  -- that of the link's server, which is connected, or has just been closed, and the servers and
  -- the link are as before.
  pub non_ssl_connect_lem :
      (fuel : ℕ) (s : State World) (i : ℕ) (m : Server) (sock : ℤ) (s' : State World)
      → s.link.master ≡ some i
      → get_elem? s.servers i ≡ some m
      → (os.socket s.world).0 ≡ some sock
      → non_ssl_connect os fuel s m ≡ returned s'
      → (server_of s' ≡ some (record m { socket = sock; connected = true }))
        ⊎ ((w : World) × (s' ≡ record s { world = os.close w sock }))
  unfolding non_ssl_connect
  non_ssl_connect_lem fuel s i m sock s' master at opened h =
      let w1 = (os.socket s.world).1 in
      elim (Bool-cases ((os.resolve w1 m.host m.port).0)) [
        | inr unknown ↦ inr (_, sym (returned_same (rw (non_ssl_connect, opened, unknown) at h)))
        | inl found ↦
            let w2 = (os.resolve w1 m.host m.port).1 in
            let w3 =
              os.set_blocking (set_timeout os (os.set_flags w2 sock) sock s.link.timeout) sock
                false in
            elim (Option-cases (finish_connect os fuel w3 sock s.link.timeout)) [
              | inl waits ↦
                  let never : still_waiting ≡ returned s' =
                    rw (non_ssl_connect, opened, found, waits) at h in
                  cc
              | inr (r, e) ↦ elim (Bool-cases (r.0)) [
                | inl up ↦
                    let made : returned
                          (attach os (record s { world = os.set_blocking (r.1) sock true }) sock)
                        ≡ returned s' =
                      rw (non_ssl_connect, opened, found, e, up) at h in
                    inl (
                      sym (ap server_of (returned_same made))
                      ∙ attach_lem (record s { world = os.set_blocking (r.1) sock true }) i m sock
                          master at)
                | inr down ↦
                    inr (_, sym (returned_same (rw (non_ssl_connect, opened, found, e, down) at h)))
              ]
            ]
      ]
