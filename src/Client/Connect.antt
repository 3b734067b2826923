-- ===== src/Client/Connect.antt =====
-- When connect of xs/MongoClient.xs succeeds.
use mongo_perl_driver.Common.{ℕ, ◌≡◌, ◌⊎◌, Bool, Option, some, true, false, some, pos}
use mongo_perl_driver.Link.{Server, State}
use mongo_perl_driver.Link.Connect.{Sockets, returned}
use mongo_perl_driver.Link.Ssl.{Openssl, over_ssl, plainly, connect_link}
use mongo_perl_driver.Client.{Answer, reference, Credentials, uses_legacy}

module _ {World : Type 0} (authenticate : State World → Option Answer × State World)
    (update_server_attributes : State World → Bool × State World) where
  -- The credentials of the legacy authentication, where it is used, have been accepted, and the
  -- methods have not died.
  abbrev pub Accepted : Credentials → State World → Type 0
  Accepted c s =
      ((uses_legacy c ≡ false) × ((update_server_attributes s).0 ≡ true))
      ⊎ ((uses_legacy c ≡ true)
          × ((authenticate s).0 ≡ some (reference (some (pos 1))))
          × ((update_server_attributes (authenticate s).1).0 ≡ true))

  module _ (os : Sockets World) (ssl : Openssl World) (fuel : ℕ) (s : State World) (m : Server)
      (c : Credentials) where
    -- perl_mongo_connect has returned with this state.
    abbrev pub Linked : State World → Type 0
    Linked s1 =
        (connect_link os ssl fuel s m c.sasl ≡ over_ssl s1)
        ⊎ (connect_link os ssl fuel s m c.sasl ≡ plainly (returned s1))
