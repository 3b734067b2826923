-- ===== src/Buffer/Writes.antt =====
-- What each writer leaves in the buffer, byte for byte.
use mongo_perl_driver.Common.{
  ℕ, ◌+◌, ◌%◌, ◌^◌, ◌≤◌, ◌≡◌, refl, ap, Bool, some, List, [], ◌∷◌, ◌++◌, arith, length, drop,
  length-append, length-drop,
}
use mathlib.Core.List.{map}
use mongo_perl_driver.Buffer.{
  Buffer, Cell, pos_of, reserve, write, le32, le64, serialize_string, serialize_int, serialize_long,
  serialize_size,
}
use mongo_perl_driver.Buffer.Words.{host32-mongo_32, host64-mongo_64}
use mongo_perl_driver.Buffer.Capacity.{length-map, reserve_used}

-- The buffer `after` holds what `before` held, then `bytes`.
pub record Appends (before after : Buffer) (bytes : List ℕ) : Type 0 where
  pub contents : after.used ≡ before.used ++ map some bytes

write_reserved :
    (buf : Buffer) (size : ℕ) (bytes : List ℕ) → Appends buf (write (reserve buf size) bytes) bytes
unfolding write
write_reserved buf size bytes = record {
  contents = ap (λ (u : List Cell). u ++ map some bytes) (reserve_used buf size);
}

-- perl_mongo_serialize_string appends the string and a NUL.
pub serialize_string_lem :
    (buf : Buffer) (str : List ℕ) → Appends buf (serialize_string buf str) (str ++ 0 ∷ [])
unfolding serialize_string
serialize_string_lem buf str = write_reserved buf (length str + 1) (str ++ 0 ∷ [])

-- perl_mongo_serialize_int appends the four bytes lowest first, whatever the host's order is.
pub serialize_int_lem :
    (be : Bool) (buf : Buffer) (num : ℕ) → Appends buf (serialize_int be buf num) (le32 num)
unfolding serialize_int
serialize_int_lem be buf num = rw (host32-mongo_32 be num) (write_reserved buf 4 (le32 num))

pub serialize_long_lem :
    (be : Bool) (buf : Buffer) (num : ℕ) → Appends buf (serialize_long be buf num) (le64 num)
unfolding serialize_long
serialize_long_lem be buf num = rw (host64-mongo_64 be num) (write_reserved buf 8 (le64 num))

size_over :
    (bytes : List ℕ) (buf : Buffer)
    → length bytes ≡ 4
    → 4 ≤ pos_of buf
    → length (map {B = Cell} some bytes ++ drop 4 buf.used) ≡ pos_of buf
size_over bytes buf e h = omega (
  arith,
  length-drop 4 buf.used,
  length-map {B = Cell} some bytes,
  length-append (map {B = Cell} some bytes) (drop 4 buf.used),
)

-- perl_mongo_serialize_size puts the message's length over its first four bytes.
pub serialize_size_lem :
    (be : Bool) (buf : Buffer)
    → 4 ≤ pos_of buf
    → (pos_of (serialize_size be buf) ≡ pos_of buf)
      × ((serialize_size be buf).used ≡ map some (le32 (pos_of buf % 2 ^ 32)) ++ drop 4 buf.used)
unfolding serialize_size
serialize_size_lem be buf h =
    let size = pos_of buf % 2 ^ 32 in
    let same = size_over (le32 size) buf (unfold le32 in refl) h in
    rw (host32-mongo_32 be size) (same, refl)
