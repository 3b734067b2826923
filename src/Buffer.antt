-- ===== src/Buffer.antt =====
-- The growing message buffer of perl_mongo.c and perl_mongo.h: struct buffer,
-- perl_mongo_resize_buf, the perl_mongo_serialize_* writers and the byte-order macros.
pub mod Words
pub mod Capacity
pub mod Writes
use mongo_perl_driver.Common.{
  ℕ, zero, suc, ◌+◌, ◌-◌, ◌*◌, ◌/◌, ◌%◌, ◌^◌, Bool, true, false, Option, none, some, List, [], ◌∷◌,
  ◌++◌, ltb, leb, if◌then◌else◌, length, take, drop,
}
use mathlib.Core.List.{map}

-- A byte of the buffer; `none` is one that was skipped and never written.
abbrev pub Cell : Type 0
Cell = Option ℕ

-- `total` is end - start, the number of bytes allocated, and `used` is what has been written from
-- start up to pos, also when pos has passed end. Memory does not run out.
pub record Buffer : Type 0 where
  pub total : ℕ
  pub used : List Cell

-- pos - start
abbrev pub pos_of : Buffer → ℕ
pos_of buf = length buf.used

-- BUF_REMAINING
abbrev pub buf_remaining : Buffer → ℕ
buf_remaining buf = buf.total - pos_of buf

abbrev pub grow_slowly : ℕ
grow_slowly = 1048576

abbrev pub initial_buf_size : ℕ
initial_buf_size = 4096

-- CREATE_BUF
unfoldable pub create_buf : ℕ → Buffer
create_buf size = record { total = size; used = [] }

-- The arithmetic of int, on the 32-bit words that stand for its values; it wraps around.
unfoldable pub int_of : ℕ → ℕ
int_of n = n % 2 ^ 32

unfoldable pub int_sub : ℕ → ℕ → ℕ
int_sub a b = (a + (2 ^ 32 - b)) % 2 ^ 32

-- a < b, of signed values
unfoldable pub int_less : ℕ → ℕ → Bool
int_less a b = ltb ((a + 2 ^ 31) % 2 ^ 32) ((b + 2 ^ 31) % 2 ^ 32)

-- The conversion of an int to size_t, which extends its sign.
unfoldable pub size_of_int : ℕ → ℕ
size_of_int a = if ltb a (2 ^ 31) then a else a + (2 ^ 64 - 2 ^ 32)

-- while (total-used < size) { total += size; } on ints
unfoldable pub grow_loop : ℕ → ℕ → ℕ → ℕ → ℕ
unfolding int_of int_sub int_less
grow_loop zero total used size = total
grow_loop (suc fuel) total used size = elim (int_less (int_sub total used) size) [
  | true ↦ grow_loop fuel (int_of (total + size)) used size
  | false ↦ total
]

-- total < GROW_SLOWLY ? total*2 : total+INITIAL_BUF_SIZE
unfoldable pub grown_total : ℕ → ℕ
unfolding int_of int_less
grown_total total =
    if int_less total grow_slowly then int_of (total * 2) else int_of (total + initial_buf_size)

-- perl_mongo_resize_buf; Renew takes `total` as a size_t. In the loop `total` has no more than
-- 2 ^ 32 values.
unfoldable pub resize_buf : Buffer → ℕ → Buffer
unfolding int_of grown_total size_of_int grow_loop
resize_buf buf size =
    let used = int_of (pos_of buf) in
    record buf {
      total =
          size_of_int
            (grow_loop (suc (suc (2 ^ 32))) (grown_total (int_of buf.total)) used (int_of size));
    }

-- What every writer does first: make room for `size` bytes when BUF_REMAINING <= size.
unfoldable pub reserve : Buffer → ℕ → Buffer
reserve buf size = if leb (buf_remaining buf) size then resize_buf buf size else buf

-- memcpy(buf->pos, bytes, n); buf->pos += n;
unfoldable pub write : Buffer → List ℕ → Buffer
write buf bytes = record buf { used = buf.used ++ map some bytes }

-- The bytes of a 32-bit and of a 64-bit word, lowest first.
unfoldable pub le32 : ℕ → List ℕ
le32 w = (w % 256) ∷ (w / 2 ^ 8 % 256) ∷ (w / 2 ^ 16 % 256) ∷ (w / 2 ^ 24 % 256) ∷ []

unfoldable pub le64 : ℕ → List ℕ
le64 w =
    (w % 256)
    ∷ (w / 2 ^ 8 % 256)
    ∷ (w / 2 ^ 16 % 256)
    ∷ (w / 2 ^ 24 % 256)
    ∷ (w / 2 ^ 32 % 256)
    ∷ (w / 2 ^ 40 % 256)
    ∷ (w / 2 ^ 48 % 256)
    ∷ (w / 2 ^ 56 % 256)
    ∷ []

-- The bytes as they lie in memory on a host of either byte order.
unfoldable pub host32 : Bool → ℕ → List ℕ
host32 false w = le32 w
host32 true w = (w / 2 ^ 24 % 256) ∷ (w / 2 ^ 16 % 256) ∷ (w / 2 ^ 8 % 256) ∷ (w % 256) ∷ []

unfoldable pub host64 : Bool → ℕ → List ℕ
host64 false w = le64 w
host64 true w =
    (w / 2 ^ 56 % 256)
    ∷ (w / 2 ^ 48 % 256)
    ∷ (w / 2 ^ 40 % 256)
    ∷ (w / 2 ^ 32 % 256)
    ∷ (w / 2 ^ 24 % 256)
    ∷ (w / 2 ^ 16 % 256)
    ∷ (w / 2 ^ 8 % 256)
    ∷ (w % 256)
    ∷ []

-- MONGO_32: BYTE4_32 | BYTE3_32 | BYTE2_32 | BYTE1_32. The four fields do not overlap, so that
-- the disjunction is a sum. The flag is MONGO_BIG_ENDIAN.
unfoldable pub mongo_32 : Bool → ℕ → ℕ
mongo_32 false b = b
mongo_32 true b =
    b % 256 * 2 ^ 24 + b / 2 ^ 8 % 256 * 2 ^ 16 + b / 2 ^ 16 % 256 * 2 ^ 8 + b / 2 ^ 24 % 256

unfoldable pub mongo_64 : Bool → ℕ → ℕ
mongo_64 false b = b
mongo_64 true b =
    b % 256 * 2 ^ 56
    + b / 2 ^ 8 % 256 * 2 ^ 48
    + b / 2 ^ 16 % 256 * 2 ^ 40
    + b / 2 ^ 24 % 256 * 2 ^ 32
    + b / 2 ^ 32 % 256 * 2 ^ 24
    + b / 2 ^ 40 % 256 * 2 ^ 16
    + b / 2 ^ 48 % 256 * 2 ^ 8
    + b / 2 ^ 56 % 256

-- perl_mongo_serialize_string, called with str_len = strlen(str).
unfoldable pub serialize_string : Buffer → List ℕ → Buffer
unfolding reserve write
serialize_string buf str = write (reserve buf (length str + 1)) (str ++ 0 ∷ [])

-- perl_mongo_serialize_int; `num` is the bit pattern of the int.
unfoldable pub serialize_int : Bool → Buffer → ℕ → Buffer
unfolding reserve write
serialize_int big_endian buf num =
    write (reserve buf 4) (host32 big_endian (mongo_32 big_endian num))

unfoldable pub serialize_long : Bool → Buffer → ℕ → Buffer
unfolding reserve write
serialize_long big_endian buf num =
    write (reserve buf 8) (host64 big_endian (mongo_64 big_endian num))

-- perl_mongo_serialize_size at buf->start: the int pos - start overwrites the first four bytes.
unfoldable pub serialize_size : Bool → Buffer → Buffer
serialize_size big_endian buf =
    let total = mongo_32 big_endian (pos_of buf % 2 ^ 32) in
    record buf { used = map some (host32 big_endian total) ++ drop 4 buf.used }
