-- ===== src/Client/Memory.antt =====
-- The memory of links and servers: _init_conn, _init_conn_holder, connection_free and
-- connection_clone of xs/MongoClient.xs, and what perl_mongo_master and set_disconnected do to the
-- pointer of a copy.
use mongo_perl_driver.Common.{
  ℕ, Bool, true, false, Option, none, some, List, if◌then◌else◌, length, ℤ,
}
use mongo_perl_driver.Perl.{Bytes}
use mongo_perl_driver.Link.{Server, Link}
use mongo_perl_driver.Common.Places.{at, alloc, free}

-- What has been allocated, in the order of the calls of Newx; `none` is what has been freed.
pub record Memory : Type 0 where
  pub servers : List (Option Server)
  pub links : List (Option Link)

-- _init_conn; `socket` is what lies in the memory of the server.
unfoldable pub init_conn : Bytes → ℤ → Bool → ℤ → ℤ → Bool → Memory → Memory
init_conn host port ssl socket timeout auto_reconnect m = record {
  servers =
      alloc m.servers (record { host = host; port = port; socket = socket; connected = false });
  links = alloc m.links (record {
    auto_reconnect = auto_reconnect;
    timeout = timeout;
    copy = false;
    ssl = ssl;
    master = some (length m.servers);
  });
}

-- _init_conn_holder; `junk` is what lies in the memory of the link.
unfoldable pub init_conn_holder : Link → Link → Memory → Memory
init_conn_holder junk master_link m = record m {
  links =
      alloc m.links
        (record junk { copy = true; master = master_link.master; ssl = master_link.ssl });
}

-- connection_free of the link at a place: `none` is a Safefree of memory that is not allocated.
unfoldable pub connection_free : ℕ → Memory → Option Memory
connection_free p m = elim (at m.links p) [
  | none ↦ none
  | some link ↦
      let rest = free m.links p in
      elim rest [
        | none ↦ none
        | some links ↦ elim link.master [
          | none ↦ some (record m { links = links })
          | some i ↦
              if link.copy then some (record m { links = links }) else elim (free m.servers i) [
                | none ↦ none
                | some servers ↦ some (record { servers = servers; links = links })
              ]
        ]
      ]
]

-- connection_clone: the copy for a new thread, with a server of its own.
unfoldable pub connection_clone : ℤ → ℕ → Memory → Option Memory
connection_clone socket p m = elim (at m.links p) [
  | none ↦ none
  | some link ↦ elim link.master [
    | none ↦ some (record m { links = alloc m.links link })
    | some i ↦ elim (at m.servers i) [
      | none ↦ none
      | some old ↦ some (record {
        servers = alloc m.servers (record old { socket = socket; connected = false });
        links = alloc m.links (record link { master = some (length m.servers) });
      })
    ]
  ]
]
