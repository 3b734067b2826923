-- ===== src/Link/Connect.antt =====
-- How a link gets its socket: mongo_link_timeout, non_ssl_connect, tcp_setup, ssl_connect,
-- perl_mongo_connect and set_timeout of mongo_link.c, as they are built for other systems than
-- Windows. The system calls are an argument.
use mongo_perl_driver.Common.{
  ℕ, zero, suc, ◌+◌, ◌*◌, ◌/◌, ◌%◌, Bool, true, false, not, ◌&&◌, ◌||◌, Option, none, some,
  if◌then◌else◌, get_elem?, ℤ, pos, negsuc, pos_part, neg_part, sub_ℕ, ltb_ℤ,
}
use mongo_perl_driver.Perl.{Bytes}
use mongo_perl_driver.Link.{Server, State, is_connected}
use mongo_perl_driver.Common.Places.{set_elem}

-- What select leaves: an error (whether it is EINTR), or the number of descriptors being 0, and
-- whether the socket is in the read, write and error sets.
pub data Selected : Type 0 where
  select_error : Bool → Selected
  selected : Bool → Bool → Bool → Bool → Selected

-- connect's result: 0, or -1 with errno EINPROGRESS or another.
pub data Status : Type 0 where
  connected_now in_progress refused : Status

pub record Sockets (World : Type 0) : Type 0 where
  -- socket(): `none` is -1
  pub socket : World → Option ℤ × World
  -- gethostbyname finds the host
  pub resolve : World → Bytes → ℤ → Bool × World
  -- setsockopt of the keep-alive and no-delay flags, and of the two timeouts
  pub set_flags : World → ℤ → World
  pub set_timeouts : World → ℤ → ℤ → ℤ → World
  pub set_blocking : World → ℤ → Bool → World
  pub connect : World → ℤ → Status × World
  pub getpeername : World → ℤ → Bool × World
  pub select : World → ℤ → ℤ → ℤ → Selected × World
  -- gettimeofday: `none` is -1, otherwise seconds and microseconds
  pub gettimeofday : World → Option (ℤ × ℤ) × World
  pub close : World → ℤ → World

pub data Connecting (World : Type 0) : Type 0 where
  returned : State World → Connecting World
  no_socket : State World → Connecting World
  still_waiting : Connecting World
  -- sasl => 1 in a driver that was compiled without SASL
  no_sasl : State World → Connecting World

infixl 65 ◌-ℤ◌
unfoldable pub ◌-ℤ◌ : ℤ → ℤ → ℤ
a -ℤ b = sub_ℕ (pos_part a + neg_part b) (neg_part a + pos_part b)

unfoldable pub not_negative : ℤ → Bool
not_negative a = not (ltb_ℤ a (pos 0))

-- timeout / 1000 and (timeout % 1000) * 1000, which C truncates towards 0
unfoldable pub whole_seconds : ℤ → ℤ
whole_seconds (pos n) = pos (n / 1000)
whole_seconds (negsuc n) = sub_ℕ 0 (suc n / 1000)

unfoldable pub microseconds : ℤ → ℤ
microseconds (pos n) = pos (n % 1000 * 1000)
microseconds (negsuc n) = sub_ℕ 0 (suc n % 1000 * 1000)

module _ {World : Type 0} (os : Sockets World) where
  -- After an interruption the time that has passed is taken off the timeout.
  unfoldable pub less_time : ℤ × ℤ → ℤ × ℤ → ℤ × ℤ → ℤ × ℤ
  unfolding ◌-ℤ◌
  less_time timeout now prev = (timeout.0 -ℤ (now.0 -ℤ prev.0), timeout.1 -ℤ (now.1 -ℤ prev.1))

  -- while (1): `none` is what the model's fuel does not reach.
  unfoldable pub wait_loop : ℕ → World → ℤ → ℤ × ℤ → ℤ × ℤ → Option (Bool × World)
  unfolding less_time not_negative
  wait_loop zero w sock timeout prev = none
  wait_loop (suc fuel) w sock timeout prev =
      let (status, w1) = os.select w sock (timeout.0) (timeout.1) in
      elim status [
        | select_error true ↦
            let (now, w2) = os.gettimeofday w1 in
            elim now [
              | none ↦ some (false, w2)
              | some time ↦
                  let left = less_time timeout time prev in
                  let more = wait_loop fuel w2 sock left time in
                  if not_negative (left.0) || not_negative (left.1) then more else some (false, w2)
            ]
        | select_error false ↦
            let more = wait_loop fuel w1 sock timeout prev in
            if not_negative (timeout.0) || not_negative (timeout.1) then more else some (false, w1)
        | selected is_zero readable writable failing ↦
            let more = wait_loop fuel w1 sock timeout prev in
            if is_zero && (not writable && not readable)
            then some (false, w1)
            else if failing
            then some (false, w1)
            else if writable || readable
            then some (true, w1)
            else more
      ]

  -- mongo_link_timeout
  unfoldable pub mongo_link_timeout : ℕ → World → ℤ → ℤ → Option (Bool × World)
  unfolding wait_loop whole_seconds microseconds
  mongo_link_timeout fuel w sock to =
      if not (ltb_ℤ (pos 0) to)
      then some (true, w)
      else (let (prev, w1) = os.gettimeofday w in
          elim prev [
            | none ↦ some (false, w1)
            | some time ↦ wait_loop fuel w1 sock (whole_seconds to, microseconds to) time
          ])

  -- set_timeout
  unfoldable pub set_timeout : World → ℤ → ℤ → World
  unfolding whole_seconds microseconds
  set_timeout w sock timeout = os.set_timeouts w sock (whole_seconds timeout) (microseconds timeout)

  -- connect, the wait for it, and getpeername: whether the socket is connected.
  unfoldable pub finish_connect : ℕ → World → ℤ → ℤ → Option (Bool × World)
  unfolding mongo_link_timeout
  finish_connect fuel w sock timeout =
      let (status, w1) = os.connect w sock in
      elim status [
        | connected_now ↦ some (true, w1)
        | refused ↦ some (false, w1)
        | in_progress ↦ elim (mongo_link_timeout fuel w1 sock timeout) [
          | none ↦ none
          | some r ↦ if r.0 then some (os.getpeername (r.1) sock) else some r
        ]
      ]

  -- link->master->socket = sock; link->master->connected = 1;
  unfoldable pub attach : State World → ℤ → State World
  attach s sock = elim s.link.master [
    | none ↦ s
    | some i ↦ elim (get_elem? s.servers i) [
      | none ↦ s
      | some m ↦ record s {
        servers = set_elem s.servers i (record m { socket = sock; connected = true });
      }
    ]
  ]

  -- non_ssl_connect, of a link that has a server
  unfoldable pub non_ssl_connect : ℕ → State World → Server → Connecting World
  unfolding finish_connect set_timeout attach
  non_ssl_connect fuel s m =
      let (opened, w1) = os.socket s.world in
      elim opened [
        | none ↦ no_socket (record s { world = w1 })
        | some sock ↦
            let (found, w2) = os.resolve w1 m.host m.port in
            if not found
            then returned (record s { world = os.close w2 sock })
            else (let w3 =
                  os.set_blocking (set_timeout (os.set_flags w2 sock) sock s.link.timeout) sock
                    false in
                elim (finish_connect fuel w3 sock s.link.timeout) [
                  | none ↦ still_waiting
                  | some r ↦
                      if r.0
                      then returned
                          (attach (record s { world = os.set_blocking (r.1) sock true }) sock)
                      else returned (record s { world = os.close (r.1) sock })
                ])
      ]

  -- perl_mongo_connect, compiled without MONGO_SSL and MONGO_SASL; `sasl` is what the client's
  -- method of that name returns.
  unfoldable pub perl_mongo_connect : ℕ → State World → Server → ℤ → Connecting World
  unfolding non_ssl_connect
  perl_mongo_connect fuel s m sasl = elim (non_ssl_connect fuel s m) [
    | returned s' ↦
        if is_connected s' && (ltb_ℤ (pos 0) sasl && ltb_ℤ sasl (pos 2))
        then no_sasl s'
        else returned s'
    | no_socket s' ↦ no_socket s'
    | still_waiting ↦ still_waiting
    | no_sasl s' ↦ no_sasl s'
  ]
