-- ===== src/Tests/Memory.antt =====
-- A cursor with a buffer, and its clone.
use mongo_perl_driver.Common.{ℕ, ◌≡◌, refl, ◌⊎◌, Option, none, some, List, [], ◌∷◌, length, pos}
use mongo_perl_driver.Common.Places.{at}
use mongo_perl_driver.Buffer.{Cell}
use mongo_perl_driver.Link.Cursor.{Cursor}
use mongo_perl_driver.Iteration.Memory.{Held, Cursors, with_buffer, view, cursor_free, cursor_clone}
use mongo_perl_driver.Iteration.Lifetime.{
  Reach, start, step, init, first, cloned, cells_of, cursor_free_lem, cursor_clone_lem,
}

abbrev empty_cursor : Cursor
empty_cursor = record {
  flag = 0;
  cursor_id = 0;
  start = 0;
  at = pos 0;
  num = pos 0;
  memory = none;
  at_byte = 0;
}

abbrev filled_cursor : Held
filled_cursor = record { cursor = empty_cursor; start = some 0 }

abbrev one_cursor : Cursors
one_cursor = record { buffers = some (some 7 ∷ []) ∷ []; cursors = some filled_cursor ∷ [] }

abbrev two_cursors : Cursors
two_cursors = record {
  buffers = some (some 7 ∷ []) ∷ some (some 7 ∷ []) ∷ [];
  cursors = some filled_cursor ∷ some (record { cursor = empty_cursor; start = some 1 }) ∷ [];
}

Reach-one : Reach one_cursor
Reach-one =
    step (step start (init empty_cursor)) (
      first 0 (record { cursor = empty_cursor; start = none }) empty_cursor (some 7 ∷ []) refl refl)

clone-one : cursor_clone 0 one_cursor ≡ some two_cursors
unfolding cursor_clone
clone-one = refl

cursor_free_lem_example :
    (m' : Cursors) × (cursor_free (some 0) two_cursors ≡ some m')
    × (at m'.cursors 0 ≡ none)
    × ((filled_cursor.start ≡ none)
        ⊎ ((i : ℕ) × (filled_cursor.start ≡ some i) × (at m'.buffers i ≡ none)))
    × ((length one_cursor.cursors ≡ 0) ⊎ (view m' 1 ≡ view two_cursors 1))
cursor_free_lem_example =
    cursor_free_lem two_cursors 0 1 filled_cursor (step Reach-one (cloned 0 two_cursors clone-one))
      refl

cursor_clone_lem_example :
    (m' : Cursors) × (memory : Option (List Cell)) × (cursor_clone 0 one_cursor ≡ some m')
    × (view one_cursor 0 ≡ some (with_buffer empty_cursor memory))
    × (view m' 1 ≡ some (with_buffer empty_cursor (some (cells_of memory))))
    × (view m' 0 ≡ view one_cursor 0)
cursor_clone_lem_example =
    cursor_clone_lem one_cursor 0 0 filled_cursor filled_cursor Reach-one refl refl
