-- ===== src/Link.antt =====
-- The connection of mongo_link.c: the servers that links share, set_disconnected,
-- perl_mongo_master and mongo_link_say. The network and the Perl methods that are called back
-- are an argument.
pub mod Cursor
pub mod Hear
pub mod Reader
pub mod Words
pub mod Reply
pub mod Header
pub mod Connect
pub mod Sasl
pub mod Dialogue
pub mod Ssl
pub mod Handshake
pub mod Finite
pub mod Exchange
pub mod Backlog
pub mod Disconnect
pub mod Waiting
use mongo_perl_driver.Common.{
  ℕ, zero, suc, ◌+◌, ◌-◌, ◌*◌, ◌/◌, ◌%◌, ◌^◌, ◌≤◌, ◌<◌, ◌≡◌, refl, sym, ap, ◌∙◌, ◌≢◌, ◌↔◌, ◌⊎◌, inl,
  inr, Bool, true, false, not, ◌&&◌, ◌||◌, Option, none, some, List, [], ◌∷◌, ◌++◌, append_assoc,
  append-nil, arith, ltb, leb, ◌==◌, if◌then◌else◌, ltb→lt, lt→ltb, leb→le, ==_iff, Bool-cases,
  if_true, if_false, Option-cases, length, get_elem?, take, drop, replicate, All, length-append,
  take-append-drop, length-take, length-drop, drop-append, All-append, bytes_eq, bytes_eq_refl,
  bytes_eq→eq, ℤ, pos, negsuc, pos_part, neg_part, sub_ℕ, ltb_ℤ, signed32, ◌+ℤ◌, ◌*ℤ◌, pos_laws,
}
use mongo_perl_driver.Common.Places.{set_elem}
use mongo_perl_driver.Perl.{Bytes}
use mongo_perl_driver.Outcome.{Outcome, ok, croak, bad_pointer, ◌>>=◌}

-- mongo_server, which several links can point to.
pub record Server : Type 0 where
  pub host : Bytes
  pub port : ℤ
  pub socket : ℤ
  pub connected : Bool

-- mongo_link; `master` is an index into the servers, `none` the pointer 0.
pub record Link : Type 0 where
  pub auto_reconnect : Bool
  pub timeout : ℤ
  pub copy : Bool
  pub ssl : Bool
  pub master : Option ℕ

pub record State (World : Type 0) : Type 0 where
  pub world : World
  pub servers : List Server
  pub link : Link

-- send, recv, close, select and the SSL library, and the methods of the client object.
pub record Network : Type 1 where
  pub World : Type 0
  -- link->receiver(link, dest, len): `none` is -1, otherwise the bytes that were stored
  pub receiver : World → ℕ → Option Bytes × World
  -- link->sender(link, start, len): -1, or how many bytes were taken
  pub sender : World → Bytes → ℤ × World
  pub close : ℤ → World → World
  pub ssl_disconnect : World → World
  -- select on the socket for reading, with a timeout in milliseconds
  pub readable : World → ℤ → ℤ → Bool × World
  -- $client->_master(0), $client->connect, $client->get_master (the link of what it returns, if
  -- that is a reference)
  pub forget_master : State World → State World
  pub connect : State World → State World
  pub get_master : State World → Option Link × State World

-- link->master, followed.
abbrev pub server_of : {World : Type 0} → State World → Option Server
server_of s = elim s.link.master [ none ↦ none | some i ↦ get_elem? s.servers i ]

abbrev pub is_connected : {World : Type 0} → State World → Bool
is_connected s = elim (server_of s) [ none ↦ false | some m ↦ m.connected ]

module _ (net : Network) where
  open net use {World}

  abbrev with_world : State World → World → State World
  with_world s w = record s { world = w }

  -- if (link->copy) { link->master = 0; … }
  unfoldable pub leave_copy : State World → State World
  leave_copy s =
      if s.link.copy
      then net.forget_master (record s { link = record (s.link) { master = none } })
      else s

  unfoldable pub close_socket : State World → Server → State World
  close_socket s m =
      let w = net.close m.socket s.world in
      record s { world = if s.link.ssl then net.ssl_disconnect w else w }

  -- set_disconnected
  unfoldable pub set_disconnected : State World → State World
  unfolding leave_copy close_socket
  set_disconnected s = elim s.link.master [
    | none ↦ s
    | some i ↦ elim (get_elem? s.servers i) [
      | none ↦ s
      | some m ↦
          if m.connected
          then leave_copy (record (close_socket s m) {
            servers = set_elem s.servers i (record m { connected = false });
          })
          else s
    ]
  ]

  -- The socket of link->master, which is followed without a test.
  unfoldable pub master_socket : State World → Outcome (ℤ × State World)
  master_socket s = elim (server_of s) [ none ↦ croak bad_pointer | some m ↦ ok (m.socket, s) ]

  -- perl_mongo_master; -1 is `negsuc 0`.
  unfoldable pub perl_mongo_master : State World → Bool → Outcome (ℤ × State World)
  unfolding master_socket
  perl_mongo_master s auto_reconnect =
      if is_connected s
      then master_socket s
      else if not s.link.copy
      then (if auto_reconnect && s.link.auto_reconnect
          then (let s' = net.connect s in
              if is_connected s' then master_socket s' else ok (negsuc 0, s'))
          else ok (negsuc 0, s))
      else (let (found, s') =
            net.get_master (record s { link = record (s.link) { master = none } }) in
          elim found [
            | none ↦ ok (negsuc 0, s')
            | some m_link ↦ master_socket (record s' {
              link = record (s'.link) { copy = true; master = m_link.master; ssl = m_link.ssl };
            })
          ])

  unfoldable pub is_minus_one : ℤ → Bool
  is_minus_one (pos n) = false
  is_minus_one (negsuc n) = n == 0

  -- mongo_link_say, of the bytes from start to pos
  unfoldable pub mongo_link_say : State World → Bytes → Outcome (ℤ × State World)
  unfolding is_minus_one
  mongo_link_say s bytes = do
    (sock, s') ← perl_mongo_master s true
    (if is_minus_one sock
        then ok (negsuc 0, s')
        else (let (sent, w) = net.sender s'.world bytes in
            let s'' = with_world s' w in
            ok (sent, if is_minus_one sent then set_disconnected s'' else s'')))
