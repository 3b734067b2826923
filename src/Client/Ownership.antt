-- ===== src/Client/Ownership.antt =====
-- Who frees a server: over any sequence of calls of _init_conn, _init_conn_holder,
-- connection_clone and connection_free.
use mongo_perl_driver.Common.{ℕ, ◌≡◌, ◌⊎◌, inl, inr, true, false, none, some, Option-cases}
use mongo_perl_driver.Common.Places.{set_elem, at, free_lem, OwnsAt, IsSeparate}
use mongo_perl_driver.Link.{Server, Link}
use mongo_perl_driver.Client.Memory.{Memory, connection_free}

-- The link is no copy and has the server i.
abbrev pub HasServer : Link → ℕ → Type 0
HasServer l i = (l.copy ≡ false) × (l.master ≡ some i)

-- The link at p owns the server i.
abbrev pub Owns : Memory → ℕ → ℕ → Type 0
Owns m p i = OwnsAt HasServer m.links p i

abbrev pub IsOwned : Memory → Type 0
IsOwned m = IsSeparate {S = Server} HasServer m.servers m.links

-- What connection_free leaves, for a link that owns a server and for one that does not.
pub free_owner :
    (m : Memory) (p i : ℕ) (l : Link) (s : Server)
    → at m.links p ≡ some l
    → l.copy ≡ false
    → l.master ≡ some i
    → at m.servers i ≡ some s
    → connection_free p m
      ≡ some (record { servers = set_elem m.servers i none; links = set_elem m.links p none })
unfolding connection_free
free_owner m p i l s e own master up =
    rw (connection_free, e, free_lem m.links p l e, master, own, free_lem m.servers i s up)

pub free_sharer :
    (m : Memory) (p : ℕ) (l : Link)
    → at m.links p ≡ some l
    → (l.copy ≡ true) ⊎ (l.master ≡ none)
    → connection_free p m ≡ some (record m { links = set_elem m.links p none })
unfolding connection_free
free_sharer m p l e (inr nothing) = rw (connection_free, e, free_lem m.links p l e, nothing)
free_sharer m p l e (inl shared) = elim (Option-cases l.master) [
  | inl nothing ↦ rw (connection_free, e, free_lem m.links p l e, nothing)
  | inr (i, is) ↦ rw (connection_free, e, free_lem m.links p l e, is, shared)
]
