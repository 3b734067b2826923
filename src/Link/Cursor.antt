-- ===== src/Link/Cursor.antt =====
-- The header of a message, a cursor, and the ways in which mongo_link_hear ends.
use mongo_perl_driver.Common.{
  ℕ, ◌+◌, ◌*◌, Bool, true, false, Option, List, [], ◌∷◌, ◌++◌, length, drop, ℤ,
}
use mongo_perl_driver.Perl.{Bytes}
use mongo_perl_driver.Buffer.{Cell}
use mongo_perl_driver.Link.{State}

-- mongo_msg_header
pub record Header : Type 0 where
  pub length_field : ℤ
  pub request_id : ℤ
  pub response_to : ℤ
  pub op : ℤ

-- mongo_cursor. `flag`, `cursor_id` and `start` are the words in memory; `memory` is what the
-- buffer holds from start to end, `none` the pointer 0; `at_byte` is pos - start.
pub record Cursor : Type 0 where
  pub flag : ℕ
  pub cursor_id : ℕ
  pub start : ℕ
  pub at : ℤ
  pub num : ℤ
  pub memory : Option (List Cell)
  pub at_byte : ℕ

pub data Failure : Type 0 where
  not_connected timed_out missed_response no_old_header no_old_response invalid_header : Failure
  receive_failed cursor_not_found read_failed no_master : Failure

-- What mongo_link_reader returns, with the bytes that are at dest: -1, or how many they are.
pub data Read : Type 0 where
  broken taken : Bytes → Read

-- How mongo_link_hear ends; what it has changed stays changed when it croaks.
pub data Heard (World : Type 0) : Type 0 where
  heard : Bool → State World → Cursor → Heard World
  failed : Failure → State World → Cursor → Heard World
  stuck : Heard World

-- The word that bytes in memory stand for on a host of either byte order.
abbrev pub number_le : Bytes → ℕ
number_le [] = 0
number_le (b ∷ bs) = b + 256 * number_le bs

abbrev pub number_be : ℕ → Bytes → ℕ
number_be n [] = n
number_be n (b ∷ bs) = number_be (256 * n + b) bs

unfoldable pub word_of : Bool → Bytes → ℕ
word_of false bs = number_le bs
word_of true bs = number_be 0 bs

-- Bytes stored over those that were there.
abbrev pub over {ℓ} : {A : Type ℓ} → List A → List A → List A
over bs old = bs ++ drop (length bs) old
