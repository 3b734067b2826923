-- ===== src/Buffer/Capacity.antt =====
-- Growing: resize_buf makes the room that it is asked for, and no writer leaves the buffer, as long
-- as the sizes are positive ints.
use mongo_perl_driver.Common.{
  ℕ, suc, ◌+◌, ◌-◌, ◌*◌, ◌%◌, ◌^◌, ◌≤◌, ◌<◌, ◌≡◌, refl, ap, inl, inr, Bool, false, some, List, [],
  ◌∷◌, ◌++◌, arith, ltb, ltb→lt, lt→ltb, Bool-cases, length, length-append,
}
use mathlib.Core.List.{map}
use mongo_perl_driver.Buffer.Words.{host32-mongo_32, host64-mongo_64}
use mongo_perl_driver.Buffer.{
  Buffer, Cell, pos_of, int_of, int_sub, int_less, size_of_int, grow_slowly, grow_loop, grown_total,
  resize_buf, reserve, write, le32, le64, serialize_string, serialize_int, serialize_long,
}

pub length-map {ℓ κ} :
    {A : Type ℓ} {B : Type κ} (f : A → B) (xs : List A) → length (map f xs) ≡ length xs
length-map f [] = refl
length-map f (x ∷ xs) = ap suc (length-map f xs)

-- pos has not passed end.
abbrev pub Fits : Buffer → Type 0
Fits buf = pos_of buf ≤ buf.total

int_of_small : (n : ℕ) → n < 2 ^ 31 → int_of n ≡ n
unfolding int_of
int_of_small n h = omega arith

int_sub_small : (a b : ℕ) → a < 2 ^ 31 → b ≤ a → int_sub a b ≡ a - b
unfolding int_sub
int_sub_small a b h less = omega arith

shifted : (n : ℕ) → n < 2 ^ 31 → (n + 2 ^ 31) % 2 ^ 32 ≡ n + 2 ^ 31
shifted n h = omega arith

ltb_shift : (a b c : ℕ) → ltb (a + c) (b + c) ≡ ltb a b
ltb_shift a b c = ground arith

int_less_small : (a b : ℕ) → a < 2 ^ 31 → b < 2 ^ 31 → int_less a b ≡ ltb a b
unfolding int_less
int_less_small a b ha hb = rw (int_less, shifted a ha, shifted b hb) (ltb_shift a b (2 ^ 31))

size_of_int_small : (n : ℕ) → n < 2 ^ 31 → size_of_int n ≡ n
unfolding size_of_int
size_of_int_small n h = let small = lt→ltb n (2 ^ 31) h in rw (size_of_int, small)

ltb_no : (a b : ℕ) → b ≤ a → ltb a b ≡ false
ltb_no a b h = ground arith

ltb_le : (a b : ℕ) → ltb a b ≡ false → b ≤ a
ltb_le a b h = ground arith

-- The loop is over when there is room, and goes on with a size more when there is none.
grow_loop_over :
    (fuel total used size : ℕ)
    → used + size ≤ total
    → total < 2 ^ 31
    → grow_loop (suc fuel) total used size ≡ total
unfolding grow_loop
grow_loop_over fuel total used size room small =
    let left = int_sub_small total used small (omega arith) in
    let less = int_less_small (total - used) size (omega arith) (omega arith) in
    let enough = ltb_no (total - used) size (omega arith) in rw (grow_loop, left, less, enough)

grow_loop_more :
    (fuel total used size : ℕ)
    → used ≤ total
    → total < used + size
    → total + size < 2 ^ 31
    → grow_loop (suc fuel) total used size ≡ grow_loop fuel (total + size) used size
unfolding grow_loop
grow_loop_more fuel total used size fits short small =
    let left = int_sub_small total used (omega arith) fits in
    let less = int_less_small (total - used) size (omega arith) (omega arith) in
    let lacks = lt→ltb (total - used) size (omega arith) in
    let sum = int_of_small (total + size) small in rw (grow_loop, left, less, lacks, sum)

-- One round is enough, so two units of fuel are.
grow_loop_lem :
    (fuel total used size : ℕ)
    → used ≤ total
    → total + size < 2 ^ 31
    → (used + size ≤ grow_loop (suc (suc fuel)) total used size)
      × (total ≤ grow_loop (suc (suc fuel)) total used size)
      × (grow_loop (suc (suc fuel)) total used size ≤ total + size)
grow_loop_lem fuel total used size fits small = elim (Bool-cases (ltb total (used + size))) [
  | inl lacks ↦
      let short = ltb→lt total (used + size) lacks in
      let more = grow_loop_more (suc fuel) total used size fits short small in
      let over = grow_loop_over fuel (total + size) used size (omega arith) small in
      rw (more, over) (omega arith, omega arith, omega arith)
  | inr enough ↦
      let room = ltb_le total (used + size) enough in
      let over = grow_loop_over (suc fuel) total used size room (omega arith) in
      rw (over) (omega arith, omega arith, omega arith)
]

grown_total_lem :
    (total : ℕ)
    → total + 1048576 < 2 ^ 31
    → (total ≤ grown_total total) × (grown_total total ≤ total + 1048576)
unfolding grown_total
grown_total_lem total small =
    let less = int_less_small total grow_slowly (omega arith) (omega arith) in
    elim (Bool-cases (ltb total grow_slowly)) [
      | inl low ↦
          let below = ltb→lt total grow_slowly low in
          let double = int_of_small (total * 2) (omega arith) in
          rw (grown_total, less, low, double) (omega arith, omega arith)
      | inr high ↦
          let more = int_of_small (total + 4096) (omega arith) in
          rw (grown_total, less, high, more) (omega arith, omega arith)
    ]

resize_total_lem :
    (fuel total used size : ℕ)
    → used ≤ total
    → total + 1048576 + size < 2 ^ 31
    → (used + size ≤ size_of_int (grow_loop (suc (suc fuel)) (grown_total total) used size))
      × (total ≤ size_of_int (grow_loop (suc (suc fuel)) (grown_total total) used size))
      × (size_of_int (grow_loop (suc (suc fuel)) (grown_total total) used size)
          ≤ total + 1048576 + size)
resize_total_lem fuel total used size fits small =
    let (no_less, no_more) = grown_total_lem total (omega arith) in
    let (room, larger, bounded) =
      grow_loop_lem fuel (grown_total total) used size (omega arith) (omega arith) in
    let all =
      size_of_int_small (grow_loop (suc (suc fuel)) (grown_total total) used size) (omega arith) in
    rw (all) (room, omega arith, omega arith)

-- While the buffer and the size asked for stay a megabyte below 2 ^ 31 together, the largest int,
-- perl_mongo_resize_buf makes the room that it is asked for, keeps what was written, never shrinks
-- the buffer and grows it by at most a megabyte and the size asked for.
pub resize_buf_lem :
    (buf : Buffer) (size : ℕ)
    → Fits buf
    → buf.total + 1048576 + size < 2 ^ 31
    → (pos_of buf + size ≤ (resize_buf buf size).total)
      × ((resize_buf buf size).used ≡ buf.used)
      × (buf.total ≤ (resize_buf buf size).total)
      × ((resize_buf buf size).total ≤ buf.total + 1048576 + size)
unfolding resize_buf
resize_buf_lem buf size fits small =
    let total = int_of_small buf.total (omega arith) in
    let used = int_of_small (pos_of buf) (omega arith) in
    let asked = int_of_small size (omega arith) in
    let (room, larger, bounded) =
      resize_total_lem (2 ^ 32) buf.total (pos_of buf) size fits small in
    rw (resize_buf, total, used, asked) (room, refl, larger, bounded)

reserve_lem :
    (buf : Buffer) (size : ℕ)
    → Fits buf
    → buf.total + 1048576 + size < 2 ^ 31
    → (pos_of buf + size ≤ (reserve buf size).total) × ((reserve buf size).used ≡ buf.used)
unfolding reserve
reserve_lem buf size h small = ground (arith, resize_buf_lem buf size h small)

pub reserve_used : (buf : Buffer) (size : ℕ) → (reserve buf size).used ≡ buf.used
unfolding reserve resize_buf
reserve_used buf size = ground arith

write_reserved :
    (buf : Buffer) (size : ℕ) (bytes : List ℕ)
    → length bytes ≡ size
    → Fits buf
    → buf.total + 1048576 + size < 2 ^ 31
    → Fits (write (reserve buf size) bytes)
unfolding write
write_reserved buf size bytes e fits small =
    let (room, same) = reserve_lem buf size fits small in
    omega (
      arith,
      length-append (reserve buf size).used (map some bytes),
      length-map {B = Cell} some bytes,
      ap length same,
    )

-- No writer of strings, of ints or of longs passes the end of the buffer, while the buffer and what
-- is written stay a megabyte below 2 ^ 31 bytes together.
pub writers-Fits :
    (be : Bool) (buf : Buffer) (str : List ℕ) (num : ℕ)
    → Fits buf
    → buf.total + 1048576 + length str + 8 < 2 ^ 31
    → Fits (serialize_string buf str)
      × Fits (serialize_int be buf num)
      × Fits (serialize_long be buf num)
unfolding serialize_string serialize_int serialize_long
writers-Fits be buf str num fits small = (
  write_reserved buf (length str + 1) (str ++ 0 ∷ []) (length-append str (0 ∷ [])) fits
      (omega arith),
  rw (host32-mongo_32 be num)
      (write_reserved buf 4 (le32 num) (unfold le32 in refl) fits (omega arith)),
  rw (host64-mongo_64 be num)
      (write_reserved buf 8 (le64 num) (unfold le64 in refl) fits (omega arith)),
)
