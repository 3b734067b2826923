-- ===== src/Iteration/Memory.antt =====
-- The memory of cursors and their buffers: cursor_free and cursor_clone of xs/Cursor.xs.
use mongo_perl_driver.Common.{ℕ, Option, none, some, List, [], length}
use mongo_perl_driver.Common.Places.{set_elem, at, alloc}
use mongo_perl_driver.Buffer.{Cell}
use mongo_perl_driver.Link.Cursor.{Cursor}

-- A mongo_cursor where it stands; `start` is its buf.start, so that `memory` of `cursor` says
-- nothing here.
pub record Held : Type 0 where
  pub cursor : Cursor
  pub start : Option ℕ

-- The buffers and the cursors that Newx has allocated; `none` is what has been freed.
pub record Cursors : Type 0 where
  pub buffers : List (Option (List Cell))
  pub cursors : List (Option Held)

-- The cursor at a place with the bytes of its buffer, as has_next and next see it.
abbrev pub with_buffer : Cursor → Option (List Cell) → Cursor
with_buffer c memory = record c { memory = memory }

unfoldable pub view : Cursors → ℕ → Option Cursor
view m p = elim (at m.cursors p) [
  | none ↦ none
  | some h ↦ elim h.start [
    | none ↦ some (with_buffer h.cursor none)
    | some i ↦ elim (at m.buffers i) [
      | none ↦ none
      | some cells ↦ some (with_buffer h.cursor (some cells))
    ]
  ]
]

-- cursor_free of the pointer in the magic, which is NULL afterwards: `none` is a Safefree of
-- memory that is not allocated.
unfoldable pub cursor_free : Option ℕ → Cursors → Option Cursors
cursor_free none m = some m
cursor_free (some p) m = elim (at m.cursors p) [
  | none ↦ none
  | some h ↦ elim h.start [
    | none ↦ some (record m { cursors = set_elem m.cursors p none })
    | some i ↦ elim (at m.buffers i) [
      | none ↦ none
      | some cells ↦
          some (record { buffers = set_elem m.buffers i none; cursors = set_elem m.cursors p none })
    ]
  ]
]

-- cursor_clone: the copy for a new thread, with a buffer of its own. A cursor without a buffer gets
-- one of no bytes.
unfoldable pub cursor_clone : ℕ → Cursors → Option Cursors
cursor_clone p m = elim (at m.cursors p) [
  | none ↦ none
  | some h ↦ elim h.start [
    | none ↦ some (record {
      buffers = alloc m.buffers [];
      cursors = alloc m.cursors (record h { start = some (length m.buffers) });
    })
    | some i ↦ elim (at m.buffers i) [
      | none ↦ none
      | some cells ↦ some (record {
        buffers = alloc m.buffers cells;
        cursors = alloc m.cursors (record h { start = some (length m.buffers) });
      })
    ]
  ]
]
