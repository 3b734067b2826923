-- ===== src/Link/Disconnect.antt =====
-- What set_disconnected leaves, and what perl_mongo_master and mongo_link_say make of it.
use mongo_perl_driver.Common.{
  ℕ, zero, suc, ◌≡◌, refl, ap, ◌∙◌, true, false, some, List, [], ◌∷◌, if◌then◌else◌, get_elem?,
  negsuc,
}
use mongo_perl_driver.Perl.{Bytes}
use mongo_perl_driver.Outcome.{ok, ◌>>=◌}
use mongo_perl_driver.Link.{
  Server, Link, State, Network, server_of, is_connected, set_disconnected, leave_copy, close_socket,
  perl_mongo_master, mongo_link_say, is_minus_one,
}
use mongo_perl_driver.Common.Places.{set_elem}

pub get-set :
    {A : Type 0} (xs : List A) (i : ℕ) (x y : A)
    → get_elem? xs i ≡ some x
    → get_elem? (set_elem xs i y) i ≡ some y
get-set [] i x y h = cc
get-set (a ∷ xs) zero x y h = refl
get-set (a ∷ xs) (suc i) x y h = get-set xs i x y h

module _ (net : Network) where
  -- The state with the server's socket closed and the server marked.
  abbrev closed_state : State net.World → ℕ → Server → State net.World
  closed_state s i m = record s {
    world =
        if s.link.ssl
        then net.ssl_disconnect (net.close m.socket s.world)
        else net.close m.socket s.world;
    servers = set_elem s.servers i (record m { connected = false });
  }

  set_disconnected_closed :
      (s : State net.World) (i : ℕ) (m : Server)
      → s.link.copy ≡ false
      → s.link.master ≡ some i
      → get_elem? s.servers i ≡ some m
      → m.connected ≡ true
      → set_disconnected net s ≡ closed_state s i m
  unfolding set_disconnected leave_copy close_socket
  set_disconnected_closed s i m own master at up =
      simp (set_disconnected, leave_copy, close_socket, master, at, up, own)

  -- set_disconnected closes the socket of a connected server once and marks the server, which all
  -- links to it share, as not connected; the link itself stays as it was if it is no copy.
  pub set_disconnected_lem :
      (s : State net.World) (i : ℕ) (m : Server)
      → s.link.copy ≡ false
      → s.link.master ≡ some i
      → get_elem? s.servers i ≡ some m
      → m.connected ≡ true
      → (server_of (set_disconnected net s) ≡ some (record m { connected = false }))
        × ((set_disconnected net s).link ≡ s.link)
        × ((set_disconnected net s).world ≡ (
            if s.link.ssl
            then net.ssl_disconnect (net.close m.socket s.world)
            else net.close m.socket s.world))
  set_disconnected_lem s i m own master at up =
      let is = set_disconnected_closed s i m own master at up in
      (
        ap server_of is
            ∙ simp (server_of, master, get-set s.servers i m (record m { connected = false }) at),
        ap (λ (t : State net.World). t.link) is,
        ap (λ (t : State net.World). t.world) is,
      )

  is_connected_down :
      (s : State net.World) (m : Server)
      → server_of s ≡ some m
      → m.connected ≡ false
      → is_connected s ≡ false
  is_connected_down s m at down = simp (is_connected, at, down)

  set_disconnected_down :
      (s : State net.World) (i : ℕ) (m : Server)
      → s.link.master ≡ some i
      → get_elem? s.servers i ≡ some m
      → m.connected ≡ false
      → set_disconnected net s ≡ s
  unfolding set_disconnected
  set_disconnected_down s i m master at down = simp (set_disconnected, master, at, down)

  -- After set_disconnected a link that is no copy and does not reconnect by itself sends nothing
  -- more: perl_mongo_master and mongo_link_say return -1 and leave everything as it is, and so
  -- does another set_disconnected.
  pub set_disconnected-mongo_link_say :
      (s : State net.World) (i : ℕ) (m : Server) (bytes : Bytes)
      → s.link.copy ≡ false
      → s.link.auto_reconnect ≡ false
      → s.link.master ≡ some i
      → get_elem? s.servers i ≡ some m
      → m.connected ≡ true
      → (perl_mongo_master net (set_disconnected net s) true
          ≡ ok (negsuc 0, set_disconnected net s))
        × (mongo_link_say net (set_disconnected net s) bytes
            ≡ ok (negsuc 0, set_disconnected net s))
        × (set_disconnected net (set_disconnected net s) ≡ set_disconnected net s)
  unfolding perl_mongo_master mongo_link_say is_minus_one ◌>>=◌
  set_disconnected-mongo_link_say s i m bytes own once master at up =
      let (down, same, closed) = set_disconnected_lem s i m own master at up in
      let not_up = is_connected_down (set_disconnected net s) _ down refl in
      let no_master : perl_mongo_master net (set_disconnected net s) true
          ≡ ok (negsuc 0, set_disconnected net s) =
        rw (not_up, same, own, once) in
      (
        no_master,
        rw (no_master) refl,
        set_disconnected_down (set_disconnected net s) i (record m { connected = false })
            (ap (λ (l : Link). l.master) same ∙ master)
            (ap (λ (t : State net.World). get_elem? t.servers i)
                (set_disconnected_closed s i m own master at up)
              ∙ get-set s.servers i m (record m { connected = false }) at)
            refl,
      )
