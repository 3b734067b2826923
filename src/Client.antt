-- ===== src/Client.antt =====
-- xs/MongoClient.xs: connect and connected, send and recv; the making and freeing of links is in
-- Client/Memory.
pub mod Memory
pub mod Ownership
pub mod Lifetime
pub mod Connect
use mongo_perl_driver.Common.{
  ℕ, ◌+◌, ◌≡◌, Bool, true, false, not, ◌&&◌, ◌||◌, Option, none, some, ltb, ◌==◌, if◌then◌else◌, ℤ,
  pos, negsuc,
}
use mongo_perl_driver.Perl.{Bytes}
use mongo_perl_driver.Outcome.{Outcome, ok, croak}
use mongo_perl_driver.Link.{
  Server, Link, State, Network, is_connected, is_minus_one, mongo_link_say, set_disconnected,
}
use mongo_perl_driver.Link.Hear.{mongo_link_hear}
use mongo_perl_driver.Link.Cursor.{Cursor, Heard}
use mongo_perl_driver.Link.Connect.{
  Sockets, Connecting, returned, no_socket, still_waiting, no_sasl,
}
use mongo_perl_driver.Link.Ssl.{Openssl, Attempt, over_ssl, plainly, bad, connect_link}

-- What the method authenticate returns: NULL, a string, a reference to a hash with what its field
-- "ok" is as an integer, or something else.
pub data Answer : Type 0 where
  no_result : Answer
  message : Bytes → Answer
  reference : Option ℤ → Answer
  strange : Answer

-- The readers sasl, username and password (whether they are strings).
pub record Credentials : Type 0 where
  pub sasl : ℤ
  pub has_username : Bool
  pub has_password : Bool

pub data Refusal : Type 0 where
  couldnt_connect couldnt_create_socket no_sasl_support auth_no_result auth_failed : Refusal
  auth_weird : Refusal
  auth_message : Bytes → Refusal

-- How connect ends.
pub data Login (World : Type 0) : Type 0 where
  done : State World → Login World
  refused : Refusal → State World → Login World
  -- a method that was called has died
  died : State World → Login World
  waiting : Login World
  crashed : Login World

unfoldable pub is_int : ℕ → ℤ → Bool
is_int n (pos m) = m == n
is_int n (negsuc m) = false

-- The test on what authenticate returned.
unfoldable pub refusal_of : Answer → Option Refusal
unfolding is_int
refusal_of no_result = some auth_no_result
refusal_of (message text) = some (auth_message text)
refusal_of (reference none) = some auth_failed
refusal_of (reference (some o)) = if is_int 1 o then none else some auth_failed
refusal_of strange = some auth_weird

-- The legacy authentication with username and password.
unfoldable pub uses_legacy : Credentials → Bool
unfolding is_int
uses_legacy c = is_int 0 c.sasl && (c.has_username && c.has_password)

-- What is left of connect: whether _update_server_attributes has returned, or died.
unfoldable pub updated : {World : Type 0} → Bool × State World → Login World
updated (true, s) = done s
updated (false, s) = died s

-- The methods authenticate, `none` if it dies, and _update_server_attributes, `false` if it dies.
module _ {World : Type 0} (authenticate : State World → Option Answer × State World)
    (update_server_attributes : State World → Bool × State World) where
  -- connect behind the test for being connected
  unfoldable pub log_in : Credentials → State World → Login World
  unfolding uses_legacy refusal_of updated
  log_in c s =
      if uses_legacy c
      then (let (ended, s') = authenticate s in
          elim ended [
            | none ↦ died s'
            | some answer ↦ elim (refusal_of answer) [
              | none ↦ updated (update_server_attributes s')
              | some r ↦ refused r s'
            ]
          ])
      else updated (update_server_attributes s)

  unfoldable pub require_connected : Credentials → State World → Login World
  unfolding log_in
  require_connected c s = if is_connected s then log_in c s else refused couldnt_connect s

  -- connect
  unfoldable pub connect :
      Sockets World → Openssl World → ℕ → State World → Server → Credentials → Login World
  unfolding require_connected
  connect os ssl fuel s m c = elim (connect_link os ssl fuel s m c.sasl) [
    | over_ssl s' ↦ require_connected c s'
    | plainly attempt ↦ elim attempt [
      | returned s' ↦ require_connected c s'
      | no_socket s' ↦ refused couldnt_create_socket s'
      | still_waiting ↦ waiting
      | no_sasl s' ↦ refused no_sasl_support s'
    ]
    | bad ↦ crashed
  ]

-- connected
unfoldable pub connected : {World : Type 0} → State World → ℤ
connected s = if is_connected s then pos 1 else pos 0

module _ (net : Network) where
  open net use {World}

  -- send; `none` is the croak "can't get db response, not connected".
  unfoldable pub send : State World → Bytes → Outcome (Option ℤ × State World)
  send s str = elim (mongo_link_say net s str) [
    | ok r ↦ ok (if is_minus_one net (r.0) then none else some (r.0), r.1)
    | croak x ↦ croak x
    | Outcome.stuck ↦ Outcome.stuck
  ]

  -- DESTROY; `none` is an object with no link attached.
  unfoldable pub destroy : Option (State World) → Option (State World)
  destroy none = none
  destroy (some s) =
      some (elim s.link.master [
        | none ↦ s
        | some i ↦ if s.link.copy then s else set_disconnected net s
      ])
