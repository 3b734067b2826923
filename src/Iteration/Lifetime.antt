-- ===== src/Iteration/Lifetime.antt =====
-- Cursors that are made, filled, cloned and destroyed in any order.
use mongo_perl_driver.Common.{
  some_same, ℕ, arith, ◌≡◌, refl, sym, ap, ◌∙◌, ◌⊎◌, inl, inr, Option, none, some, List, [], length,
  Option-cases,
}
use mathlib.Core.Path.{subst}
use native.Mathlib.Decide.{ℕ_discrete}
use mongo_perl_driver.Common.Places.{
  set_elem, at, alloc, at-lt, at-alloc_old, at-alloc_new, at-set_other, at-set_none, at-set_some,
  IsSeparate, new_owner, new_sharer, fewer_owners, changed_owner, OwnsAt-set_none, without_owner,
}
use mongo_perl_driver.Buffer.{Cell}
use mongo_perl_driver.Link.Cursor.{Cursor}
use mongo_perl_driver.Iteration.Memory.{Held, Cursors, with_buffer, view, cursor_free, cursor_clone}

abbrev pub HasBuffer : Held → ℕ → Type 0
HasBuffer h i = h.start ≡ some i

abbrev pub IsOwn : Cursors → Type 0
IsOwn m = IsSeparate {S = List Cell} HasBuffer m.buffers m.cursors

-- A call that changes the memory. `filled` is a cursor whose fields and bytes change, and whose
-- buffer may be made larger by Renew; `first` is one that gets its first buffer.
pub data Step (m : Cursors) : Cursors → Type 0 where
  init :
      (c : Cursor)
      → Step m (record m { cursors = alloc m.cursors (record { cursor = c; start = none }) })
  filled :
      (p i : ℕ) (h : Held) (c : Cursor) (cells : List Cell)
      → at m.cursors p ≡ some h
      → h.start ≡ some i
      → Step m (record {
        buffers = set_elem m.buffers i (some cells);
        cursors = set_elem m.cursors p (some (record { cursor = c; start = some i }));
      })
  first :
      (p : ℕ) (h : Held) (c : Cursor) (cells : List Cell)
      → at m.cursors p ≡ some h
      → h.start ≡ none
      → Step m (record {
        buffers = alloc m.buffers cells;
        cursors =
            set_elem m.cursors p (some (record { cursor = c; start = some (length m.buffers) }));
      })
  cloned : (p : ℕ) (m' : Cursors) → cursor_clone p m ≡ some m' → Step m m'
  destroyed : (p : ℕ) (m' : Cursors) → cursor_free (some p) m ≡ some m' → Step m m'

pub data Reach : Cursors → Type 0 where
  start : Reach (record { buffers = []; cursors = [] })
  step : {m m' : Cursors} → Reach m → Step m m' → Reach m'

-- The cells that a cursor has, and what cursor_clone and cursor_free make of the memory.
abbrev pub cells_of : Option (List Cell) → List Cell
cells_of none = []
cells_of (some cells) = cells

cloned_lem :
    (m : Cursors) (p : ℕ) (h : Held)
    → at m.cursors p ≡ some h
    → IsOwn m
    → (memory : Option (List Cell)) × (view m p ≡ some (with_buffer h.cursor memory))
      × (cursor_clone p m
          ≡ some (record {
            buffers = alloc m.buffers (cells_of memory);
            cursors = alloc m.cursors (record h { start = some (length m.buffers) });
          }))
unfolding view cursor_clone
cloned_lem m p h is own = elim (Option-cases h.start) [
  | inl nothing ↦ (none, rw (view, is, nothing), rw (cursor_clone, is, nothing))
  | inr (i, there) ↦
      let (cells, up) = own.alive p i (h, is, there) in
      (some cells, rw (view, is, there, up), rw (cursor_clone, is, there, up))
]

freed_lem :
    (m : Cursors) (p : ℕ) (h : Held)
    → at m.cursors p ≡ some h
    → IsOwn m
    → ((h.start ≡ none)
        × (cursor_free (some p) m ≡ some (record m { cursors = set_elem m.cursors p none })))
      ⊎ ((i : ℕ) × (h.start ≡ some i)
          × (cursor_free (some p) m
              ≡ some (record {
                buffers = set_elem m.buffers i none;
                cursors = set_elem m.cursors p none;
              })))
unfolding cursor_free
freed_lem m p h is own = elim (Option-cases h.start) [
  | inl nothing ↦ inl (nothing, rw (cursor_free, is, nothing))
  | inr (i, there) ↦
      let (cells, up) = own.alive p i (h, is, there) in
      inr (i, there, rw (cursor_free, is, there, up))
]

found_clone :
    (m m' : Cursors) (p : ℕ) → cursor_clone p m ≡ some m' → (h : Held) × (at m.cursors p ≡ some h)
unfolding cursor_clone
found_clone m m' p e = elim (Option-cases (at m.cursors p)) [
  | inl nothing ↦ let never : none ≡ some m' = rw (cursor_clone, nothing) at e in cc
  | inr found ↦ found
]

found_free :
    (m m' : Cursors) (p : ℕ)
    → cursor_free (some p) m ≡ some m'
    → (h : Held) × (at m.cursors p ≡ some h)
unfolding cursor_free
found_free m m' p e = elim (Option-cases (at m.cursors p)) [
  | inl nothing ↦ let never : none ≡ some m' = rw (cursor_free, nothing) at e in cc
  | inr found ↦ found
]

set_stays :
    (buffers : List (Option (List Cell))) (i : ℕ) (cells : List Cell) (j : ℕ) (s : List Cell)
    → at buffers j ≡ some s
    → (t : List Cell) × (at (set_elem buffers i (some cells)) j ≡ some t)
set_stays buffers i cells j s is = elim (ℕ_discrete j i) [
  | yes e ↦ (
    cells,
    subst (λ k. at (set_elem buffers i (some cells)) k ≡ some cells) (sym e)
        (at-set_some buffers i (some cells) s (subst (λ k. at buffers k ≡ some s) e is)),
  )
  | no ne ↦ (s, at-set_other buffers i j (some cells) (λ e. ne (sym e)) ∙ is)
]

Step-IsOwn : {m m' : Cursors} → Step m m' → IsOwn m → IsOwn m'
Step-IsOwn {m} (init c) own = new_sharer HasBuffer m.buffers m.cursors _ (λ i e. cc) own
Step-IsOwn {m} (filled p i h c cells is there) own =
    let up = own.alive p i (h, is, there) in
    changed_owner HasBuffer m.buffers (set_elem m.buffers i (some cells)) m.cursors p _
      (set_stays m.buffers i cells)
      (λ j e.
        set_stays m.buffers i cells j up.0
          (subst (λ k. at m.buffers k ≡ some (up.0)) (some_same e) up.1))
      (λ j q e o. own.unique q p j o (h, is, there ∙ e)) own
Step-IsOwn {m} (first p h c cells is nothing) own =
    changed_owner HasBuffer m.buffers (alloc m.buffers cells) m.cursors p _
      (λ j s e. (s, at-alloc_old m.buffers cells j s e))
      (λ j e. (
        cells,
        subst (λ k. at (alloc m.buffers cells) k ≡ some cells) (some_same e)
            (at-alloc_new m.buffers cells),
      ))
      (λ j q e o.
        let (s, up) = own.alive q j o in
        let last : length m.buffers ≡ j = some_same e in
        absurd (omega (arith, at-lt m.buffers j s up)))
      own
Step-IsOwn {m} (cloned p m' e) own =
    let (h, is) = found_clone m m' p e in
    let (memory, seen, made) = cloned_lem m p h is own in
    subst IsOwn (some_same (sym made ∙ e))
      (new_owner HasBuffer m.buffers m.cursors (cells_of memory) _ (λ i e. sym (some_same e)) own)
Step-IsOwn {m} (destroyed p m' e) own =
    let (h, is) = found_free m m' p e in
    elim (freed_lem m p h is own) [
      | inl (nothing, made) ↦ subst IsOwn (some_same (sym made ∙ e)) (
          fewer_owners HasBuffer m.buffers m.buffers m.cursors (set_elem m.cursors p none)
            (λ q i w. (OwnsAt-set_none HasBuffer m.cursors p q i w).1) (λ q i w. refl) own)
      | inr (i, there, made) ↦
          subst IsOwn (some_same (sym made ∙ e))
            (without_owner HasBuffer m.buffers m.cursors p i (h, is, there) own)
    ]

nowhere : (h : Held) → at {A = Held} [] 0 ≡ some h → ⊥
nowhere h e = cc

Reach-IsOwn : {m : Cursors} → Reach m → IsOwn m
Reach-IsOwn start = record {
  alive = λ p i o. absurd (nowhere (o.0) (o.1));
  unique = λ p q i o o'. absurd (nowhere (o.0) (o.1));
}
Reach-IsOwn (step r s) = Step-IsOwn s (Reach-IsOwn r)

-- What is seen at a place depends on the cursor there and on its buffer.
view-same :
    (m m' : Cursors) (q : ℕ)
    → at m'.cursors q ≡ at m.cursors q
    → ((h : Held) (i : ℕ)
        → at m.cursors q ≡ some h
        → h.start ≡ some i
        → at m'.buffers i ≡ at m.buffers i)
    → view m' q ≡ view m q
unfolding view
view-same m m' q same buffers = elim (Option-cases (at m.cursors q)) [
  | inl nothing ↦ rw (view, same, nothing)
  | inr (h, is) ↦ elim (Option-cases h.start) [
    | inl none_yet ↦ rw (view, same, is, none_yet)
    | inr (i, there) ↦ rw (view, same, is, there, buffers h i is there)
  ]
]

-- Whatever cursors have been made, filled, cloned and destroyed before, in whatever order:
-- cursor_free of one that is there frees only memory that is allocated. The cursor is gone and so
-- is its buffer, and any other cursor has the fields and the bytes that it had.
pub cursor_free_lem :
    (m : Cursors) (p q : ℕ) (h : Held)
    → Reach m
    → at m.cursors p ≡ some h
    → (m' : Cursors) × (cursor_free (some p) m ≡ some m')
      × (at m'.cursors p ≡ none)
      × ((h.start ≡ none) ⊎ ((i : ℕ) × (h.start ≡ some i) × (at m'.buffers i ≡ none)))
      × ((q ≡ p) ⊎ (view m' q ≡ view m q))
cursor_free_lem m p q h r is =
    let own = Reach-IsOwn r in
    elim (freed_lem m p h is own) [
      | inl (nothing, made) ↦
          let m' : Cursors = record m { cursors = set_elem m.cursors p none } in
          (
            m',
            made,
            at-set_none m.cursors p,
            inl nothing,
            elim (ℕ_discrete q p) [
              | yes e ↦ inl e
              | no ne ↦ inr (
                  view-same m m' q (at-set_other m.cursors p q none (λ e. ne (sym e)))
                    (λ k i e s. refl))
            ],
          )
      | inr (i, there, made) ↦
          let m' : Cursors = record {
            buffers = set_elem m.buffers i none;
            cursors = set_elem m.cursors p none;
          } in
          (
            m',
            made,
            at-set_none m.cursors p,
            inr (i, there, at-set_none m.buffers i),
            elim (ℕ_discrete q p) [
              | yes e ↦ inl e
              | no ne ↦ inr (
                  view-same m m' q (at-set_other m.cursors p q none (λ e. ne (sym e))) (λ k j e s.
                    at-set_other m.buffers i j none (λ same.
                      ne (own.unique q p i (k, e, s ∙ ap some (sym same)) (h, is, there)))))
            ],
          )
    ]

-- Whatever cursors have been made, filled, cloned and destroyed before, in whatever order:
-- cursor_clone of one that is there copies only memory that is allocated. The new cursor has the
-- fields of the old one and, in a buffer of its own, its bytes, none if it had no buffer; every
-- cursor that was there has the fields and the bytes that it had.
pub cursor_clone_lem :
    (m : Cursors) (p q : ℕ) (h k : Held)
    → Reach m
    → at m.cursors p ≡ some h
    → at m.cursors q ≡ some k
    → (m' : Cursors) × (memory : Option (List Cell)) × (cursor_clone p m ≡ some m')
      × (view m p ≡ some (with_buffer h.cursor memory))
      × (view m' (length m.cursors) ≡ some (with_buffer h.cursor (some (cells_of memory))))
      × (view m' q ≡ view m q)
unfolding view
cursor_clone_lem m p q h k r is there =
    let own = Reach-IsOwn r in
    let (memory, seen, made) = cloned_lem m p h is own in
    let m' : Cursors = record {
      buffers = alloc m.buffers (cells_of memory);
      cursors = alloc m.cursors (record h { start = some (length m.buffers) });
    } in
    let last = at-alloc_new m.cursors (record h { start = some (length m.buffers) }) in
    let bytes = at-alloc_new m.buffers (cells_of memory) in
    (
      m',
      memory,
      made,
      seen,
      rw (view, last, bytes),
      view-same m m' q (at-alloc_old m.cursors _ q k there ∙ sym there) (λ g i e s.
          let (cells, up) = own.alive q i (g, e, s) in
          at-alloc_old m.buffers (cells_of memory) i cells up ∙ sym up),
    )
