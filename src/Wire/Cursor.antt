-- ===== src/Wire/Cursor.antt =====
-- Byte for byte, what has_next and kill_cursor of xs/Cursor.xs send, in buffers of fixed sizes.
use mongo_perl_driver.Common.{
  ℕ, ◌+◌, ◌<◌, ◌≡◌, ◌≢◌, refl, ◌∙◌, ◌⊎◌, inl, inr, Bool, none, some, [], ◌∷◌, ◌++◌, arith, leb,
  ◌==◌, leb→le, ==_iff, Bool-cases, length, length-append, ℤ,
}
use mathlib.Core.List.{map}
use mongo_perl_driver.Perl.{Bytes}
use mongo_perl_driver.Encode.BigInt.{to_word64}
use mongo_perl_driver.Encode.Calendar.{to_unsigned}
use mongo_perl_driver.Buffer.Words.{host32-mongo_32, host64-mongo_64}
use mongo_perl_driver.Buffer.{
  write, reserve, buf_remaining, Buffer, Cell, pos_of, create_buf, le32, le64, serialize_string,
  serialize_int, serialize_long, serialize_size,
}
use mongo_perl_driver.Buffer.Writes.{serialize_long_lem}
use mongo_perl_driver.Buffer.Capacity.{length-map}
use mongo_perl_driver.Wire.{
  op_get_more, op_kill_cursors, next_request_id, skip_length, append_header, append_header_ns,
  get_more, kill_cursor,
}
use mongo_perl_driver.Wire.Format.{
  Begun, Begun-then, message, serialize_size-Begun, header_bytes, ns_bytes, append_header-Begun,
  append_header_ns-Begun, int-Begun,
}

-- end - start and pos - start.
abbrev At : Buffer → ℕ → ℕ → Type 0
At buf total at_pos = (buf.total ≡ total) × (pos_of buf ≡ at_pos)

written-At :
    (buf : Buffer) (size : ℕ) (bytes : Bytes) (total at_pos : ℕ)
    → At buf total at_pos
    → length bytes ≡ size
    → at_pos + size < total
    → At (write (reserve buf size) bytes) total (at_pos + size)
unfolding write reserve
written-At buf size bytes total at_pos at e room =
    elim (Bool-cases (leb (buf_remaining buf) size)) [
      | inl small ↦ ground (arith, leb→le (buf_remaining buf) size small)
      | inr large ↦ rw large (
        at.0,
        omega (
          arith,
          length-append buf.used (map some bytes),
          length-map {B = Cell} some bytes,
          at.1,
        ),
      )
    ]

ns-At :
    (buf : Buffer) (ns : Bytes) (total at_pos : ℕ)
    → At buf total at_pos
    → at_pos + length ns + 1 < total
    → At (serialize_string buf ns) total (at_pos + (length ns + 1))
unfolding serialize_string
ns-At buf ns total at_pos at room =
    written-At buf (length ns + 1) (ns ++ 0 ∷ []) total at_pos at (length-append ns (0 ∷ []))
      (omega arith)

module _ (be : Bool) where
  int-At :
      (buf : Buffer) (w total at_pos : ℕ)
      → At buf total at_pos
      → at_pos + 4 < total
      → At (serialize_int be buf w) total (at_pos + 4)
  unfolding serialize_int
  int-At buf w total at_pos at room =
      rw (host32-mongo_32 be w)
        (written-At buf 4 (le32 w) total at_pos at (unfold le32 in refl) room)

  long-At :
      (buf : Buffer) (w total at_pos : ℕ)
      → At buf total at_pos
      → at_pos + 8 < total
      → At (serialize_long be buf w) total (at_pos + 8)
  unfolding serialize_long
  long-At buf w total at_pos at room =
      rw (host64-mongo_64 be w)
        (written-At buf 8 (le64 w) total at_pos at (unfold le64 in refl) room)

  size_total : (buf : Buffer) → (serialize_size be buf).total ≡ buf.total
  unfolding serialize_size
  size_total buf = refl

  header-At :
      (total rid rto op opts : ℕ)
      → 20 < total
      → At (append_header be (create_buf total) rid rto op opts) total 20
  unfolding append_header create_buf skip_length
  header-At total rid rto op opts room =
      let a1 = int-At (skip_length (create_buf total)) rid total 4 (refl, refl) (omega arith) in
      let a2 = int-At _ rto total 8 a1 (omega arith) in
      let a3 = int-At _ op total 12 a2 (omega arith) in int-At _ opts total 16 a3 (omega arith)

  long-Begun :
      (buf : Buffer) (xs : Bytes) (w : ℕ)
      → Begun buf xs
      → Begun (serialize_long be buf w) (xs ++ le64 w)
  long-Begun buf xs w s =
      Begun-then buf (serialize_long be buf w) xs (le64 w) s (serialize_long_lem be buf w)

  -- What kill_cursor sends are 40 bytes: the header with the opcode of a kill, the count of one,
  -- and the cursor id. It never leaves its 128 bytes and never grows them. Nothing is sent for a
  -- cursor id of 0, and for no other.
  pub kill_cursor_lem :
      (request_id cursor_id : ℤ)
      → ((kill_cursor be request_id cursor_id ≡ none) × (to_word64 cursor_id ≡ 0))
        ⊎ ((buf : Buffer) × (to_word64 cursor_id ≢ 0)
            × (kill_cursor be request_id cursor_id ≡ some buf)
            × (buf.total ≡ 128)
            × (buf.used
                ≡ map some (
                    message (
                      header_bytes (to_unsigned request_id) 0 op_kill_cursors 0
                      ++ le32 1
                      ++ le64 (to_word64 cursor_id)))))
  unfolding kill_cursor
  kill_cursor_lem request_id cursor_id = elim (Bool-cases (to_word64 cursor_id == 0)) [
    | inl zero_id ↦ inl (rw zero_id, (==_iff _ _).0 zero_id)
    | inr other_id ↦
        let other_ne : to_word64 cursor_id ≢ 0 = λ e. let same = (==_iff _ _).1 e in cc in
        let b1 = append_header be (create_buf 128) (to_unsigned request_id) 0 op_kill_cursors 0 in
        let s1 = append_header-Begun be 128 (to_unsigned request_id) 0 op_kill_cursors 0 in
        let s2 = int-Begun be b1 _ 1 s1 in
        let s3 = long-Begun (serialize_int be b1 1) _ (to_word64 cursor_id) s2 in
        let a1 = header-At 128 (to_unsigned request_id) 0 op_kill_cursors 0 (omega arith) in
        let a2 = int-At b1 1 128 20 a1 (omega arith) in
        let a3 = long-At (serialize_int be b1 1) (to_word64 cursor_id) 128 24 a2 (omega arith) in
        let buf =
          serialize_size be (serialize_long be (serialize_int be b1 1) (to_word64 cursor_id)) in
        inr (buf, other_ne, rw other_id, size_total _ ∙ a3.0, serialize_size-Begun be _ _ s3)
  ]

  -- What has_next sends to get more: the batch size and the cursor id under a header that answers
  -- the last request. The 34+strlen(ns) bytes are enough: the buffer is not grown.
  pub get_more_lem :
      (request_id response_to : ℤ) (ns : Bytes) (batch_size cursor_id : ℤ)
      → ((get_more be request_id response_to ns batch_size cursor_id).1
          ≡ next_request_id request_id)
        × ((get_more be request_id response_to ns batch_size cursor_id).0.total ≡ 34 + length ns)
        × ((get_more be request_id response_to ns batch_size cursor_id).0.used
            ≡ map some (
                message (
                  header_bytes
                    (to_unsigned (next_request_id request_id))
                    (to_unsigned response_to)
                    op_get_more
                    0
                  ++ ns_bytes ns
                  ++ le32 (to_unsigned batch_size)
                  ++ le64 (to_word64 cursor_id))))
  unfolding get_more
  get_more_lem request_id response_to ns batch_size cursor_id =
      let rid = to_unsigned (next_request_id request_id) in
      let b1 =
        append_header_ns be (create_buf (34 + length ns)) rid (to_unsigned response_to) op_get_more
          ns 0 in
      let s1 =
        append_header_ns-Begun be (34 + length ns) rid (to_unsigned response_to) op_get_more ns 0 in
      let s2 = int-Begun be b1 _ (to_unsigned batch_size) s1 in
      let s3 =
        long-Begun (serialize_int be b1 (to_unsigned batch_size)) _ (to_word64 cursor_id) s2 in
      let total = 34 + length ns in
      let a0 = header-At total rid (to_unsigned response_to) op_get_more 0 (omega arith) in
      let at =
        ns-At (append_header be (create_buf total) rid (to_unsigned response_to) op_get_more 0) ns
          total 20 a0 (omega arith) in
      let a1 : At b1 total (21 + length ns) = (at.0, omega (arith, at.1)) in
      let a2 = int-At b1 (to_unsigned batch_size) total (21 + length ns) a1 (omega arith) in
      let a3 =
        long-At (serialize_int be b1 (to_unsigned batch_size)) (to_word64 cursor_id) total
          (21 + length ns + 4) a2 (omega arith) in
      (refl, size_total _ ∙ a3.0, serialize_size-Begun be _ _ s3)
