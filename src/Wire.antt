-- ===== src/Wire.antt =====
-- The messages that are sent: the header macros of mongo_link.h, the write_* functions of
-- xs/Mongo.xs, and what xs/Cursor.xs sends for has_next and kill_cursor.
pub mod Format
pub mod Messages
pub mod Insert
pub mod Cursor
pub mod Documents
use mongo_perl_driver.Common.{
  ℕ, zero, suc, ◌+◌, ◌-◌, ◌*◌, ◌/◌, ◌%◌, ◌^◌, ◌≤◌, ◌<◌, ◌≡◌, refl, sym, ap, ◌∙◌, ◌≢◌, ◌↔◌, ◌⊎◌, inl,
  inr, Bool, true, false, not, ◌&&◌, ◌||◌, Option, none, some, List, [], ◌∷◌, ◌++◌, append_assoc,
  append-nil, arith, ltb, leb, ◌==◌, if◌then◌else◌, ltb→lt, lt→ltb, leb→le, ==_iff, Bool-cases,
  if_true, if_false, Option-cases, length, get_elem?, take, drop, replicate, All, length-append,
  take-append-drop, length-take, length-drop, drop-append, All-append, bytes_eq, bytes_eq_refl,
  bytes_eq→eq, ℤ, pos, negsuc, pos_part, neg_part, sub_ℕ, ltb_ℤ, signed32, ◌+ℤ◌, ◌*ℤ◌, pos_laws,
}
use mathlib.Core.List.{map}
use mongo_perl_driver.Outcome.{
  ok_same, Outcome, ok, croak, stuck, ◌>>=◌, ◌>>◌, require, >>=-ne-stuck, >>=-eq-ok, ok-ne-stuck,
  require-ne-stuck, unit-ok, circular_ref, unhandled_ref,
}
use mongo_perl_driver.Outcome.{bad_pointer}
use mongo_perl_driver.Perl.{Bytes, Sv, rv}
use mongo_perl_driver.Encode.Entries.{PushedId}
use mongo_perl_driver.Encode.BigInt.{to_word64, signed64}
use mongo_perl_driver.Encode.Calendar.{to_unsigned}
use mongo_perl_driver.Buffer.{
  Buffer, Cell, create_buf, initial_buf_size, serialize_string, serialize_int, serialize_long,
  serialize_size,
}

-- perl_mongo_sv_to_buffer, as the messages use it.
abbrev pub DocWriter : Type 0
DocWriter = Buffer → Sv → Option Bytes → Outcome (Buffer × List PushedId)

abbrev pub op_update : ℕ
op_update = 2001

abbrev pub op_insert : ℕ
op_insert = 2002

abbrev pub op_query : ℕ
op_query = 2004

abbrev pub op_get_more : ℕ
op_get_more = 2005

abbrev pub op_delete : ℕ
op_delete = 2006

abbrev pub op_kill_cursors : ℕ
op_kill_cursors = 2007

-- sv_setiv(request_id, SvIV(request_id)+1)
unfoldable pub next_request_id : ℤ → ℤ
next_request_id id = signed64 ((to_word64 id + 1) % 2 ^ 64)

-- buf.pos += INT_32
unfoldable pub skip_length : Buffer → Buffer
skip_length buf = record buf { used = buf.used ++ replicate 4 none }

module _ (big_endian : Bool) where
  -- APPEND_HEADER, of the header that CREATE_MSG_HEADER fills
  unfoldable pub append_header : Buffer → ℕ → ℕ → ℕ → ℕ → Buffer
  unfolding skip_length
  append_header buf request_id response_to op opts =
      let b1 = serialize_int big_endian (skip_length buf) request_id in
      let b2 = serialize_int big_endian b1 response_to in
      let b3 = serialize_int big_endian b2 op in serialize_int big_endian b3 opts

  -- APPEND_HEADER_NS; `ns` is a C string
  unfoldable pub append_header_ns : Buffer → ℕ → ℕ → ℕ → Bytes → ℕ → Buffer
  unfolding append_header
  append_header_ns buf request_id response_to op ns opts =
      serialize_string (append_header buf request_id response_to op opts) ns

  module _ (put : DocWriter) where
    -- if (fields && SvROK(fields))
    unfoldable pub put_fields : Buffer → Option Sv → Outcome Buffer
    put_fields buf (some (rv ptr)) = do (buf', _) ← put buf (rv ptr) none; ok buf'
    put_fields buf _ = ok buf

    -- write_query: the message and the new value of request_id. `opts`, `skip`, `limit` are the
    -- bit patterns of ints.
    unfoldable pub write_query : ℤ → Bytes → ℕ → ℕ → ℕ → Sv → Option Sv → Outcome (List Cell × ℤ)
    unfolding next_request_id append_header_ns put_fields
    write_query request_id ns opts skip limit query fields =
        let id = next_request_id request_id in
        let b1 =
          append_header_ns (create_buf initial_buf_size) (to_unsigned id) 0 op_query ns opts in
        let b2 = serialize_int big_endian (serialize_int big_endian b1 skip) limit in
        do
          (b3, _) ← put b2 query none
          b4 ← put_fields b3 fields
          ok ((serialize_size big_endian b4).used, id)

    -- The loop of write_insert. The list of ids is handed over with each document; `new_oid i`
    -- is the OID that would be generated for document i.
    unfoldable pub put_documents :
        (ℕ → Option Bytes) → ℕ → Buffer → List (Option Sv) → Outcome (Buffer × List PushedId)
    put_documents new_oid i buf [] = ok (buf, [])
    put_documents new_oid i buf (none ∷ objs) = croak bad_pointer
    put_documents new_oid i buf (some obj ∷ objs) = do
      (b1, ids) ← put buf obj (new_oid i)
      (b2, more) ← put_documents new_oid (i + 1) b1 objs
      ok (b2, ids ++ more)

    -- write_insert; `none` in place of an OID stands for add_ids being 0.
    unfoldable pub write_insert :
        ℤ
        → Bytes
        → List (Option Sv)
        → (ℕ → Option Bytes)
        → Outcome ((List Cell × List PushedId) × ℤ)
    unfolding next_request_id append_header_ns put_documents
    write_insert request_id ns objs new_oid =
        let id = next_request_id request_id in
        let b1 = append_header_ns (create_buf initial_buf_size) (to_unsigned id) 0 op_insert ns 0 in
        do
          (b2, ids) ← put_documents new_oid 0 b1 objs
          ok (((serialize_size big_endian b2).used, ids), id)

    unfoldable pub write_remove : ℤ → Bytes → Sv → ℕ → Outcome (List Cell × ℤ)
    unfolding next_request_id append_header_ns
    write_remove request_id ns criteria flags =
        let id = next_request_id request_id in
        let b1 = append_header_ns (create_buf initial_buf_size) (to_unsigned id) 0 op_delete ns 0 in
        do
          (b2, _) ← put (serialize_int big_endian b1 flags) criteria none
          ok ((serialize_size big_endian b2).used, id)

    unfoldable pub write_update : ℤ → Bytes → Sv → Sv → ℕ → Outcome (List Cell × ℤ)
    unfolding next_request_id append_header_ns
    write_update request_id ns criteria obj flags =
        let id = next_request_id request_id in
        let b1 = append_header_ns (create_buf initial_buf_size) (to_unsigned id) 0 op_update ns 0 in
        do
          (b2, _) ← put (serialize_int big_endian b1 flags) criteria none
          (b3, _) ← put b2 obj none
          ok ((serialize_size big_endian b3).used, id)

  -- What has_next sends: 34+strlen(ns) bytes are allocated.
  unfoldable pub get_more : ℤ → ℤ → Bytes → ℤ → ℤ → Buffer × ℤ
  unfolding next_request_id append_header_ns
  get_more request_id response_to ns batch_size cursor_id =
      let id = next_request_id request_id in
      let b1 =
        append_header_ns (create_buf (34 + length ns)) (to_unsigned id) (to_unsigned response_to)
          op_get_more ns 0 in
      let b2 = serialize_int big_endian b1 (to_unsigned batch_size) in
      let b3 = serialize_long big_endian b2 (to_word64 cursor_id) in
      (serialize_size big_endian b3, id)

  -- What kill_cursor sends, in the 128 bytes of its frame; nothing for the cursor id 0.
  unfoldable pub kill_cursor : ℤ → ℤ → Option Buffer
  unfolding append_header
  kill_cursor request_id cursor_id =
      if to_word64 cursor_id == 0
      then none
      else (let b1 = append_header (create_buf 128) (to_unsigned request_id) 0 op_kill_cursors 0 in
          let b2 = serialize_int big_endian b1 1 in
          let b3 = serialize_long big_endian b2 (to_word64 cursor_id) in
          some (serialize_size big_endian b3))
