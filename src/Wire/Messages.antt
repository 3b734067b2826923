-- ===== src/Wire/Messages.antt =====
-- Byte for byte, what write_remove, write_update and write_query of xs/Mongo.xs return.
use mongo_perl_driver.Common.{ℕ, ◌≡◌, refl, Bool, Option, none, some, List, [], ◌++◌, append-nil, ℤ}
use mongo_perl_driver.Outcome.{ok_same, ok, >>=-eq-ok}
use mathlib.Core.List.{map}
use mathlib.Core.Path.{subst}
use mongo_perl_driver.Perl.{Bytes, Sv, scalar, magical, rv}
use mongo_perl_driver.Encode.Entries.{PushedId}
use mongo_perl_driver.Encode.Calendar.{to_unsigned}
use mongo_perl_driver.Buffer.{Buffer, Cell, create_buf, le32, serialize_int}
use mongo_perl_driver.Wire.{
  DocWriter, op_update, op_query, op_delete, next_request_id, append_header_ns, put_fields,
  write_query, write_remove, write_update,
}
use mongo_perl_driver.Wire.Format.{
  Begun, message, Writes, header_bytes, ns_bytes, append_header_ns-Begun, int-Begun, sent,
  document-Begun,
}

module _ (be : Bool) (put : DocWriter) (writes : Writes put) where
  -- A message that write_remove returns is the header with the next request id and the opcode of
  -- a delete, the namespace, the flags and the criteria's document, under its length.
  pub write_remove_lem :
      (id : ℤ) (ns : Bytes) (criteria : Sv) (flags : ℕ) (cells : List Cell) (id' : ℤ)
      → write_remove be put id ns criteria flags ≡ ok (cells, id')
      → (id' ≡ next_request_id id)
        × ((doc : Bytes) × (ids : List PushedId) × writes.Holds criteria none doc ids
            × (cells
                ≡ map some (
                    message (
                      header_bytes (to_unsigned (next_request_id id)) 0 op_delete 0
                      ++ ns_bytes ns
                      ++ le32 flags
                      ++ doc))))
  unfolding write_remove
  write_remove_lem id ns criteria flags cells id' h =
      let rid = to_unsigned (next_request_id id) in
      let s1 = append_header_ns-Begun be 4096 rid 0 op_delete ns 0 in
      let s2 =
        int-Begun be (append_header_ns be (create_buf 4096) rid 0 op_delete ns 0) _ flags s1 in
      let (out, stored, done) =
        >>=-eq-ok
          (put (serialize_int be (append_header_ns be (create_buf 4096) rid 0 op_delete ns 0) flags)
            criteria none)
          _ h in
      let (doc, holds, s3) = document-Begun be put writes _ _ criteria none out s2 stored in
      let (next, same) = sent be out.0 _ (next_request_id id) cells id' s3 done in
      (next, (doc, out.1, holds, same))

  -- write_update: the flags, the criteria's document, the document to store.
  pub write_update_lem :
      (id : ℤ) (ns : Bytes) (criteria obj : Sv) (flags : ℕ) (cells : List Cell) (id' : ℤ)
      → write_update be put id ns criteria obj flags ≡ ok (cells, id')
      → (id' ≡ next_request_id id)
        × ((doc doc' : Bytes) × (ids ids' : List PushedId) × writes.Holds criteria none doc ids
            × writes.Holds obj none doc' ids'
            × (cells
                ≡ map some (
                    message (
                      header_bytes (to_unsigned (next_request_id id)) 0 op_update 0
                      ++ ns_bytes ns
                      ++ le32 flags
                      ++ doc
                      ++ doc'))))
  unfolding write_update
  write_update_lem id ns criteria obj flags cells id' h =
      let rid = to_unsigned (next_request_id id) in
      let s1 = append_header_ns-Begun be 4096 rid 0 op_update ns 0 in
      let s2 =
        int-Begun be (append_header_ns be (create_buf 4096) rid 0 op_update ns 0) _ flags s1 in
      let (out, stored, h1) =
        >>=-eq-ok
          (put (serialize_int be (append_header_ns be (create_buf 4096) rid 0 op_update ns 0) flags)
            criteria none)
          _ h in
      let (doc, holds, s3) = document-Begun be put writes _ _ criteria none out s2 stored in
      let (out', stored', done) = >>=-eq-ok (put out.0 obj none) _ h1 in
      let (doc', holds', s4) = document-Begun be put writes _ _ obj none out' s3 stored' in
      let (next, same) = sent be out'.0 _ (next_request_id id) cells id' s4 done in
      (next, (doc, doc', out.1, out'.1, holds, holds', same))

  -- The bytes of the projection, if there is one: a reference.
  abbrev pub FieldsHold : Option Sv → Bytes → Type 0
  FieldsHold (some (rv ptr)) doc = (ids : List PushedId) × writes.Holds (rv ptr) none doc ids
  FieldsHold _ doc = doc ≡ []

  no_fields :
      (buf : Buffer) (xs : Bytes) (buf' : Buffer)
      → Begun buf xs
      → ok buf ≡ ok buf'
      → (doc : Bytes) × (doc ≡ []) × Begun buf' (xs ++ doc)
  no_fields buf xs buf' s h = ([], refl, rw (append-nil xs) (subst (λ b. Begun b xs) (ok_same h) s))

  fields-Begun :
      (buf : Buffer) (xs : Bytes) (fields : Option Sv) (buf' : Buffer)
      → Begun buf xs
      → put_fields be put buf fields ≡ ok buf'
      → (doc : Bytes) × FieldsHold fields doc × Begun buf' (xs ++ doc)
  unfolding put_fields
  fields-Begun buf xs none buf' s h = no_fields buf xs buf' s h
  fields-Begun buf xs (some (rv ptr)) buf' s h =
      let (out, stored, done) = >>=-eq-ok (put buf (rv ptr) none) _ h in
      let (doc, holds, s') = document-Begun be put writes buf xs (rv ptr) none out s stored in
      (doc, (out.1, holds), subst (λ b. Begun b (xs ++ doc)) (ok_same done) s')
  fields-Begun buf xs (some (scalar v)) buf' s h = no_fields buf xs buf' s h
  fields-Begun buf xs (some (magical v)) buf' s h = no_fields buf xs buf' s h

  -- A message that write_query returns: the options, the namespace, skip and limit, the query's
  -- document, and the document of the fields if they are given as a reference.
  pub write_query_lem :
      (id : ℤ) (ns : Bytes) (opts skip limit : ℕ) (query : Sv) (fields : Option Sv)
      (cells : List Cell) (id' : ℤ)
      → write_query be put id ns opts skip limit query fields ≡ ok (cells, id')
      → (id' ≡ next_request_id id)
        × ((doc doc' : Bytes) × (ids : List PushedId) × writes.Holds query none doc ids
            × FieldsHold fields doc'
            × (cells
                ≡ map some (
                    message (
                      header_bytes (to_unsigned (next_request_id id)) 0 op_query opts
                      ++ ns_bytes ns
                      ++ le32 skip
                      ++ le32 limit
                      ++ doc
                      ++ doc'))))
  unfolding write_query
  write_query_lem id ns opts skip limit query fields cells id' h =
      let rid = to_unsigned (next_request_id id) in
      let s1 = append_header_ns-Begun be 4096 rid 0 op_query ns opts in
      let s2 =
        int-Begun be (append_header_ns be (create_buf 4096) rid 0 op_query ns opts) _ skip s1 in
      let s3 =
        int-Begun be
          (serialize_int be (append_header_ns be (create_buf 4096) rid 0 op_query ns opts) skip) _
          limit s2 in
      let (out, stored, h1) =
        >>=-eq-ok
          (put
            (serialize_int be
              (serialize_int be (append_header_ns be (create_buf 4096) rid 0 op_query ns opts) skip)
              limit)
            query none)
          _ h in
      let (doc, holds, s4) = document-Begun be put writes _ _ query none out s3 stored in
      let (b4, stored', done) = >>=-eq-ok (put_fields be put out.0 fields) _ h1 in
      let (doc', holds', s5) = fields-Begun _ _ fields b4 s4 stored' in
      let (next, same) = sent be b4 _ (next_request_id id) cells id' s5 done in
      (next, (doc, doc', out.1, holds, holds', same))
