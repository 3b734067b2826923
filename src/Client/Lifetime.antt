-- ===== src/Client/Lifetime.antt =====
-- Whatever links are made, shared, cloned and destroyed in what order, no server is freed twice.
use mongo_perl_driver.Common.{
  some_same, ℕ, ◌≡◌, refl, sym, ap, ◌∙◌, ◌⊎◌, inl, inr, Bool, true, false, Option, none, some, [],
  length, Option-cases, Bool-cases, ℤ,
}
use mathlib.Core.Path.{subst}
use native.Mathlib.Decide.{ℕ_discrete}
use mongo_perl_driver.Perl.{Bytes}
use mongo_perl_driver.Link.{Server, Link}
use mongo_perl_driver.Client.Memory.{
  Memory, init_conn, init_conn_holder, connection_free, connection_clone,
}
use mongo_perl_driver.Common.Places.{
  set_elem, at, alloc, at-set_other, at-set_none, at-set_self, new_owner, new_sharer, fewer_owners,
  OwnsAt-set_none, without_owner,
}
use mongo_perl_driver.Client.Ownership.{HasServer, Owns, IsOwned, free_owner, free_sharer}

-- A call that changes the memory. `point` is a copy that is given the server of another link, by
-- perl_mongo_master, or the pointer 0, by set_disconnected.
pub data Step (m : Memory) : Memory → Type 0 where
  init :
      (host : Bytes) (port : ℤ) (ssl : Bool) (socket timeout : ℤ) (auto_reconnect : Bool)
      → Step m (init_conn host port ssl socket timeout auto_reconnect m)
  hold : (junk master : Link) → Step m (init_conn_holder junk master m)
  clone : (socket : ℤ) (p : ℕ) (m' : Memory) → connection_clone socket p m ≡ some m' → Step m m'
  destroyed : (p : ℕ) (m' : Memory) → connection_free p m ≡ some m' → Step m m'
  point :
      (p : ℕ) (l : Link) (master : Option ℕ)
      → at m.links p ≡ some l
      → l.copy ≡ true
      → Step m (record m { links = set_elem m.links p (some (record l { master = master })) })

pub data Reach : Memory → Type 0 where
  start : Reach (record { servers = []; links = [] })
  step : {m m' : Memory} → Reach m → Step m m' → Reach m'

clone-IsOwned :
    (m m' : Memory) (socket : ℤ) (p : ℕ)
    → connection_clone socket p m ≡ some m'
    → IsOwned m
    → IsOwned m'
unfolding connection_clone
clone-IsOwned m m' socket p h o = elim (Option-cases (at m.links p)) [
  | inl nothing ↦ let never : none ≡ some m' = rw (connection_clone, nothing) at h in cc
  | inr (l, is) ↦ elim (Option-cases l.master) [
    | inl no_server ↦
        let made : some (record m { links = alloc m.links l }) ≡ some m' =
          rw (connection_clone, is, no_server) at h in
        subst IsOwned (some_same made) (
          new_sharer HasServer m.servers m.links l
            (λ i own. let never : none ≡ some i = sym no_server ∙ own.1 in cc) o)
    | inr (i, server) ↦ elim (Option-cases (at m.servers i)) [
      | inl gone ↦ let never : none ≡ some m' = rw (connection_clone, is, server, gone) at h in cc
      | inr (old, there) ↦
          let made : some (record {
            servers = alloc m.servers (record old { socket = socket; connected = false });
            links = alloc m.links (record l { master = some (length m.servers) });
          })
              ≡ some m' =
            rw (connection_clone, is, server, there) at h in
          subst IsOwned (some_same made) (
            new_owner HasServer m.servers m.links _ (record l { master = some (length m.servers) })
              (λ i own. some_same (sym own.1)) o)
    ]
  ]
]

-- The link at p goes: its server too, if it owns one.
free_cases :
    (m : Memory) (p : ℕ) (l : Link)
    → at m.links p ≡ some l
    → IsOwned m
    → ((i : ℕ) × (s : Server) × (l.copy ≡ false) × (l.master ≡ some i) × (at m.servers i ≡ some s))
      ⊎ ((l.copy ≡ true) ⊎ (l.master ≡ none))
free_cases m p l e o = elim (Bool-cases l.copy) [
  | inl shared ↦ inr (inl shared)
  | inr own ↦ elim (Option-cases l.master) [
    | inl nothing ↦ inr (inr nothing)
    | inr (i, is) ↦ let (s, up) = o.alive p i (l, e, (own, is)) in inl (i, s, own, is, up)
  ]
]

free-IsOwned :
    (m m' : Memory) (p : ℕ) (l : Link)
    → at m.links p ≡ some l
    → connection_free p m ≡ some m'
    → IsOwned m
    → IsOwned m'
free-IsOwned m m' p l e h o = elim (free_cases m p l e o) [
  | inr shared ↦
      let links = set_elem m.links p none in
      subst IsOwned (some_same (sym (free_sharer m p l e shared) ∙ h)) (
        fewer_owners HasServer m.servers m.servers m.links links
          (λ q i w. (OwnsAt-set_none HasServer m.links p q i w).1) (λ q i w. refl) o)
  | inl (i, s, own, is, up) ↦
      let servers = set_elem m.servers i none in
      let mine : Owns m p i = (l, e, (own, is)) in
      subst IsOwned (some_same (sym (free_owner m p i l s e own is up) ∙ h))
        (without_owner HasServer m.servers m.links p i mine o)
]

point-IsOwned :
    (m : Memory) (p : ℕ) (l : Link) (master : Option ℕ)
    → at m.links p ≡ some l
    → l.copy ≡ true
    → IsOwned m
    → IsOwned (record m { links = set_elem m.links p (some (record l { master = master })) })
point-IsOwned m p l master e shared o =
    let m' : Memory = record m {
      links = set_elem m.links p (some (record l { master = master }));
    } in
    let split : (q i : ℕ) → Owns m' q i → Owns m q i = λ q i w. elim (ℕ_discrete q p) [
      | yes same ↦
          let here : at m'.links p ≡ some (w.0) =
            subst (λ k. at m'.links k ≡ some (w.0)) same (w.1) in
          let copied =
            some_same (at-set_self m.links p (some (record l { master = master })) (w.0) here) in
          let never : true ≡ false = sym shared ∙ ap (λ (k : Link). k.copy) copied ∙ w.2.0 in cc
      | no other ↦ (
        w.0,
        sym (at-set_other m.links p q (some (record l { master = master })) (λ e. other (sym e)))
            ∙ w.1,
        w.2,
      )
    ] in
    fewer_owners HasServer m.servers m'.servers m.links m'.links split (λ q i w. refl) o

found_link :
    (m m' : Memory) (p : ℕ) → connection_free p m ≡ some m' → (l : Link) × (at m.links p ≡ some l)
unfolding connection_free
found_link m m' p h = elim (Option-cases (at m.links p)) [
  | inl nothing ↦ let never : none ≡ some m' = rw (connection_free, nothing) at h in cc
  | inr found ↦ found
]

nowhere : (l : Link) → at {A = Link} [] 0 ≡ some l → ⊥
nowhere l h = cc

not_owner :
    (m : Memory) (p i : ℕ) (l : Link)
    → at m.links p ≡ some l
    → (l.copy ≡ true) ⊎ (l.master ≡ none)
    → Owns m p i
    → ⊥
not_owner m p i l e (inl shared) (k, is, (own, master)) =
    let same = some_same (sym e ∙ is) in
    let never : true ≡ false = sym shared ∙ ap (λ (x : Link). x.copy) same ∙ own in cc
not_owner m p i l e (inr nothing) (k, is, (own, master)) =
    let same = some_same (sym e ∙ is) in
    let never : none ≡ some i = sym nothing ∙ ap (λ (x : Link). x.master) same ∙ master in cc

same_server :
    (m : Memory) (p i j : ℕ) (l : Link)
    → at m.links p ≡ some l
    → l.master ≡ some i
    → Owns m p j
    → i ≡ j
same_server m p i j l e is (k, there, (own, master)) =
    some_same (sym is ∙ ap (λ (x : Link). x.master) (some_same (sym e ∙ there)) ∙ master)

Step-IsOwned : {m m' : Memory} → Step m m' → IsOwned m → IsOwned m'
unfolding init_conn init_conn_holder
Step-IsOwned {m} (init host port ssl socket timeout auto_reconnect) o =
    new_owner HasServer m.servers m.links _ _ (λ i own. some_same (sym own.1)) o
Step-IsOwned {m} (hold junk master) o =
    new_sharer HasServer m.servers m.links _ (λ i own. let (mine, _) = own in cc) o
Step-IsOwned {m} (clone socket p m' h) o = clone-IsOwned m m' socket p h o
Step-IsOwned {m} (destroyed p m' h) o =
    let (l, e) = found_link m m' p h in free-IsOwned m m' p l e h o
Step-IsOwned {m} (point p l master e shared) o = point-IsOwned m p l master e shared o

Reach-IsOwned : {m : Memory} → Reach m → IsOwned m
Reach-IsOwned start = record {
  alive = λ p i o. absurd (nowhere (o.0) (o.1));
  unique = λ p q i o o'. absurd (nowhere (o.0) (o.1));
}
Reach-IsOwned (step r s) = Step-IsOwned s (Reach-IsOwned r)

-- Whatever links have been made, shared, cloned and destroyed before, in whatever order, and
-- wherever copies have been pointed: destroying a link that is there frees only memory that is
-- allocated. The link is gone; a server that it owns is gone too, and any other server stays; and
-- so does the server that another link owns.
pub connection_free_lem :
    (m : Memory) (p q j : ℕ) (l : Link)
    → Reach m
    → at m.links p ≡ some l
    → (m' : Memory) × (connection_free p m ≡ some m')
      × (at m'.links p ≡ none)
      × ((Owns m p j × (at m'.servers j ≡ none))
          ⊎ ((¬ (Owns m p j)) × (at m'.servers j ≡ at m.servers j)))
      × ((q ≡ p) ⊎ ((¬ (Owns m q j)) ⊎ (at m'.servers j ≡ at m.servers j)))
connection_free_lem m p q j l r e =
    let o = Reach-IsOwned r in
    elim (free_cases m p l e o) [
      | inr shared ↦ (
        record m { links = set_elem m.links p none },
        free_sharer m p l e shared,
        at-set_none m.links p,
        inr (not_owner m p j l e shared, refl),
        inr (inr refl),
      )
      | inl (i, s, own, is, up) ↦
          let mine : Owns m p i = (l, e, (own, is)) in
          let gone = at-set_none m.servers i in
          (
            record { servers = set_elem m.servers i none; links = set_elem m.links p none },
            free_owner m p i l s e own is up,
            at-set_none m.links p,
            elim (ℕ_discrete i j) [
              | yes here ↦ inl (
                subst (Owns m p) here mine,
                subst (λ k. at (set_elem m.servers i none) k ≡ none) here gone,
              )
              | no other ↦ inr (
                (λ w. other (same_server m p i j l e is w)),
                at-set_other m.servers i j none other,
              )
            ],
            elim (ℕ_discrete q p) [
              | yes same ↦ inl same
              | no differs ↦ inr (elim (ℕ_discrete i j) [
                | yes here ↦ inl (λ w. differs (o.unique q p j w (subst (Owns m p) here mine)))
                | no other ↦ inr (at-set_other m.servers i j none other)
              ])
            ],
          )
    ]
