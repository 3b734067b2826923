-- ===== src/Tests/Messages.antt =====
-- The theorems on messages at small ones.
use mongo_perl_driver.Common.{
  ℕ, ◌+◌, ◌≡◌, ◌≢◌, refl, ◌⊎◌, true, false, Option, none, some, List, [], ◌∷◌, ◌++◌, length, pos,
}
use mathlib.Core.List.{map}
use mongo_perl_driver.Perl.{Bytes, rv}
use mongo_perl_driver.Outcome.{ok, ◌>>=◌}
use mongo_perl_driver.Libbson.{Libbson, pure_bson}
use mongo_perl_driver.Encode.Document.{sv_to_buffer}
use mongo_perl_driver.Buffer.{Buffer, Cell, create_buf, le32, le64}
use mongo_perl_driver.Encode.BigInt.{to_word64}
use mongo_perl_driver.Encode.Calendar.{to_unsigned}
use mongo_perl_driver.Encode.Entries.{PushedId, generated}
use mongo_perl_driver.Wire.{
  DocWriter, op_update, op_insert, op_query, op_get_more, op_delete, op_kill_cursors,
  next_request_id, write_query, write_insert, write_remove, write_update, get_more, kill_cursor,
}
use mongo_perl_driver.Wire.Format.{Writes, message, header_bytes, ns_bytes}
use mongo_perl_driver.Wire.Messages.{FieldsHold, write_query_lem, write_update_lem}
use mongo_perl_driver.Wire.Insert.{Documents, write_insert_lem}
use mongo_perl_driver.Wire.Cursor.{get_more_lem, kill_cursor_lem}
use mongo_perl_driver.Wire.Documents.{put_document, buffer_writes}
use mongo_perl_driver.Tests.Data.{plain_config, small_heap, no_name}

-- Documents whose bytes are those of an empty one.
abbrev bytes_bson : Libbson
bytes_bson = record pure_bson { get_data = λ b. 5 ∷ 0 ∷ 0 ∷ 0 ∷ 0 ∷ [] }

abbrev doc : Bytes
doc = 5 ∷ 0 ∷ 0 ∷ 0 ∷ 0 ∷ []

abbrev larger : ℕ → ℕ → ℕ
larger total need = total + need

abbrev put : DocWriter
put = put_document bytes_bson plain_config small_heap no_name larger 4

abbrev writes : Writes put
writes = buffer_writes bytes_bson plain_config small_heap no_name larger 4

abbrev ns : Bytes
ns = 100 ∷ 46 ∷ 99 ∷ []

abbrev query_cells : List Cell
query_cells =
    map some
      (message (header_bytes 6 0 op_query 4 ++ ns_bytes ns ++ le32 1 ++ le32 2 ++ doc ++ doc))

query-written : write_query true put (pos 5) ns 4 1 2 (rv 0) (some (rv 0)) ≡ ok (query_cells, pos 6)
unfolding write_query ◌>>=◌ sv_to_buffer mongo_perl_driver.Encode.Entries.referent_at
    mongo_perl_driver.Encode.Append.hv_to_bson mongo_perl_driver.Encode.Entries.as_hash
    mongo_perl_driver.Encode.Entries.enter mongo_perl_driver.Encode.Circular.check_circular_ref
    mongo_perl_driver.Encode.Circular.on_stack mongo_perl_driver.Encode.Keys.contains_null_char
    mongo_perl_driver.Encode.Keys.c_string mongo_perl_driver.Encode.Append.append_sv
    mongo_perl_driver.Encode.Keys.clean_key mongo_perl_driver.Encode.Entries.entry_key
    mongo_perl_driver.Encode.Keys.starts_special mongo_perl_driver.Encode.Leaves.scalar_leaf
    mongo_perl_driver.Encode.Leaves.is_value_type mongo_perl_driver.Encode.Leaves.not_int
    mongo_perl_driver.Encode.Leaves.aggressively_number mongo_perl_driver.Encode.Leaves.is_string
    mongo_perl_driver.Encode.Entries.index_key mongo_perl_driver.Encode.Leaves.string_leaf le32
    mongo_perl_driver.Buffer.serialize_size mongo_perl_driver.Encode.BigInt.signed64
    mongo_perl_driver.Buffer.host32 to_word64 mongo_perl_driver.Buffer.mongo_32
    mongo_perl_driver.Buffer.serialize_int mongo_perl_driver.Buffer.serialize_string create_buf
    to_unsigned
query-written = refl

write_query_lem_example :
    (pos 6 ≡ next_request_id (pos 5))
    × ((d d' : Bytes) × (ids : List PushedId) × writes.Holds (rv 0) none d ids
        × FieldsHold true put writes (some (rv 0)) d'
        × (query_cells
            ≡ map some (
                message (
                  header_bytes (to_unsigned (next_request_id (pos 5))) 0 op_query 4
                  ++ ns_bytes ns
                  ++ le32 1
                  ++ le32 2
                  ++ d
                  ++ d'))))
write_query_lem_example =
    write_query_lem true put writes (pos 5) ns 4 1 2 (rv 0) (some (rv 0)) query_cells (pos 6)
      query-written

abbrev update_cells : List Cell
update_cells =
    map some (message (header_bytes 6 0 op_update 0 ++ ns_bytes ns ++ le32 1 ++ doc ++ doc))

update-written : write_update false put (pos 5) ns (rv 0) (rv 0) 1 ≡ ok (update_cells, pos 6)
unfolding write_update ◌>>=◌ sv_to_buffer mongo_perl_driver.Encode.Entries.referent_at
    mongo_perl_driver.Encode.Append.hv_to_bson mongo_perl_driver.Encode.Entries.as_hash
    mongo_perl_driver.Encode.Entries.enter mongo_perl_driver.Encode.Circular.check_circular_ref
    mongo_perl_driver.Encode.Circular.on_stack mongo_perl_driver.Encode.Keys.contains_null_char
    mongo_perl_driver.Encode.Keys.c_string mongo_perl_driver.Encode.Append.append_sv
    mongo_perl_driver.Encode.Keys.clean_key mongo_perl_driver.Encode.Entries.entry_key
    mongo_perl_driver.Encode.Keys.starts_special mongo_perl_driver.Encode.Leaves.scalar_leaf
    mongo_perl_driver.Encode.Leaves.is_value_type mongo_perl_driver.Encode.Leaves.not_int
    mongo_perl_driver.Encode.Leaves.aggressively_number mongo_perl_driver.Encode.Leaves.is_string
    mongo_perl_driver.Encode.Entries.index_key mongo_perl_driver.Encode.Leaves.string_leaf le32
    mongo_perl_driver.Buffer.serialize_size mongo_perl_driver.Encode.BigInt.signed64
    mongo_perl_driver.Buffer.host32 to_word64 mongo_perl_driver.Buffer.mongo_32
    mongo_perl_driver.Buffer.serialize_int mongo_perl_driver.Buffer.serialize_string create_buf
    to_unsigned
update-written = refl

write_update_lem_example :
    (pos 6 ≡ next_request_id (pos 5))
    × ((d d' : Bytes) × (ids ids' : List PushedId) × writes.Holds (rv 0) none d ids
        × writes.Holds (rv 0) none d' ids'
        × (update_cells
            ≡ map some (
                message (
                  header_bytes (to_unsigned (next_request_id (pos 5))) 0 op_update 0
                  ++ ns_bytes ns
                  ++ le32 1
                  ++ d
                  ++ d'))))
write_update_lem_example =
    write_update_lem false put writes (pos 5) ns (rv 0) (rv 0) 1 update_cells (pos 6) update-written

abbrev remove_cells : List Cell
remove_cells = map some (message (header_bytes 6 0 op_delete 0 ++ ns_bytes ns ++ le32 1 ++ doc))

remove-written : write_remove false put (pos 5) ns (rv 0) 1 ≡ ok (remove_cells, pos 6)
unfolding write_remove ◌>>=◌ sv_to_buffer mongo_perl_driver.Encode.Entries.referent_at
    mongo_perl_driver.Encode.Append.hv_to_bson mongo_perl_driver.Encode.Entries.as_hash
    mongo_perl_driver.Encode.Entries.enter mongo_perl_driver.Encode.Circular.check_circular_ref
    mongo_perl_driver.Encode.Circular.on_stack mongo_perl_driver.Encode.Keys.contains_null_char
    mongo_perl_driver.Encode.Keys.c_string mongo_perl_driver.Encode.Append.append_sv
    mongo_perl_driver.Encode.Keys.clean_key mongo_perl_driver.Encode.Entries.entry_key
    mongo_perl_driver.Encode.Keys.starts_special mongo_perl_driver.Encode.Leaves.scalar_leaf
    mongo_perl_driver.Encode.Leaves.is_value_type mongo_perl_driver.Encode.Leaves.not_int
    mongo_perl_driver.Encode.Leaves.aggressively_number mongo_perl_driver.Encode.Leaves.is_string
    mongo_perl_driver.Encode.Entries.index_key mongo_perl_driver.Encode.Leaves.string_leaf le32
    mongo_perl_driver.Buffer.serialize_size mongo_perl_driver.Encode.BigInt.signed64
    mongo_perl_driver.Buffer.host32 to_word64 mongo_perl_driver.Buffer.mongo_32
    mongo_perl_driver.Buffer.serialize_int mongo_perl_driver.Buffer.serialize_string create_buf
    to_unsigned
remove-written = refl

abbrev insert_cells : List Cell
insert_cells = map some (message (header_bytes 6 0 op_insert 0 ++ ns_bytes ns ++ doc ++ doc))

abbrev oids : ℕ → Option Bytes
oids i = some (i ∷ [])

insert-written :
    write_insert false put (pos 5) ns (some (rv 0) ∷ some (rv 0) ∷ []) oids
    ≡ ok ((insert_cells, generated (0 ∷ []) ∷ generated (1 ∷ []) ∷ []), pos 6)
unfolding write_insert ◌>>=◌ sv_to_buffer mongo_perl_driver.Encode.Entries.referent_at
    mongo_perl_driver.Encode.Append.hv_to_bson mongo_perl_driver.Encode.Entries.as_hash
    mongo_perl_driver.Encode.Entries.enter mongo_perl_driver.Encode.Circular.check_circular_ref
    mongo_perl_driver.Encode.Circular.on_stack mongo_perl_driver.Encode.Entries.find_id
    mongo_perl_driver.Encode.Keys.contains_null_char mongo_perl_driver.Encode.Keys.c_string
    mongo_perl_driver.Encode.Append.append_sv mongo_perl_driver.Encode.Keys.clean_key
    mongo_perl_driver.Encode.Entries.entry_key mongo_perl_driver.Encode.Keys.contains
    mongo_perl_driver.Encode.Keys.starts_special mongo_perl_driver.Encode.Leaves.scalar_leaf
    mongo_perl_driver.Encode.Leaves.is_value_type mongo_perl_driver.Encode.Leaves.not_int
    mongo_perl_driver.Encode.Leaves.aggressively_number mongo_perl_driver.Encode.Leaves.is_string
    mongo_perl_driver.Encode.Entries.index_key mongo_perl_driver.Encode.Leaves.string_leaf le32
    mongo_perl_driver.Buffer.serialize_size mongo_perl_driver.Encode.BigInt.signed64
    mongo_perl_driver.Buffer.host32 to_word64 mongo_perl_driver.Buffer.mongo_32
    mongo_perl_driver.Buffer.serialize_string mongo_perl_driver.Buffer.serialize_int create_buf
    to_unsigned
insert-written = refl

write_insert_lem_example :
    (pos 6 ≡ next_request_id (pos 5))
    × ((docs : Bytes) × Documents false put writes oids 0
          (some (rv 0) ∷ some (rv 0) ∷ [])
          docs
          (generated (0 ∷ []) ∷ generated (1 ∷ []) ∷ [])
        × (insert_cells
            ≡ map some (
                message (
                  header_bytes (to_unsigned (next_request_id (pos 5))) 0 op_insert 0
                  ++ ns_bytes ns
                  ++ docs))))
write_insert_lem_example =
    write_insert_lem false put writes (pos 5) ns (some (rv 0) ∷ some (rv 0) ∷ []) oids insert_cells
      (generated (0 ∷ []) ∷ generated (1 ∷ []) ∷ []) (pos 6) insert-written

kill_cursor_lem_example :
    ((kill_cursor true (pos 5) (pos 77) ≡ none) × (to_word64 (pos 77) ≡ 0))
    ⊎ ((buf : Buffer) × (to_word64 (pos 77) ≢ 0)
        × (kill_cursor true (pos 5) (pos 77) ≡ some buf)
        × (buf.total ≡ 128)
        × (buf.used
            ≡ map some (
                message (
                  header_bytes (to_unsigned (pos 5)) 0 op_kill_cursors 0
                  ++ le32 1
                  ++ le64 (to_word64 (pos 77))))))
kill_cursor_lem_example = kill_cursor_lem true (pos 5) (pos 77)

get_more_lem_example :
    ((get_more true (pos 5) (pos 4) ns (pos 0) (pos 77)).1 ≡ next_request_id (pos 5))
    × ((get_more true (pos 5) (pos 4) ns (pos 0) (pos 77)).0.total ≡ 34 + length ns)
    × ((get_more true (pos 5) (pos 4) ns (pos 0) (pos 77)).0.used
        ≡ map some (
            message (
              header_bytes
                (to_unsigned (next_request_id (pos 5)))
                (to_unsigned (pos 4))
                op_get_more
                0
              ++ ns_bytes ns
              ++ le32 (to_unsigned (pos 0))
              ++ le64 (to_word64 (pos 77)))))
get_more_lem_example = get_more_lem true (pos 5) (pos 4) ns (pos 0) (pos 77)
