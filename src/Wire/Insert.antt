-- ===== src/Wire/Insert.antt =====
-- Byte for byte, what write_insert of xs/Mongo.xs returns.
use mongo_perl_driver.Common.{
  ℕ, ◌+◌, ◌≡◌, sym, ap, ◌∙◌, Bool, Option, none, some, List, [], ◌∷◌, ◌++◌, append_assoc,
  append-nil, ℤ,
}
use mongo_perl_driver.Outcome.{ok_same, ok, >>=-eq-ok}
use mathlib.Core.List.{map}
use mathlib.Core.Path.{subst}
use mongo_perl_driver.Perl.{Bytes, Sv}
use mongo_perl_driver.Encode.Entries.{PushedId}
use mongo_perl_driver.Encode.Calendar.{to_unsigned}
use mongo_perl_driver.Buffer.{Buffer, Cell, create_buf, serialize_size}
use mongo_perl_driver.Wire.{
  DocWriter, op_insert, next_request_id, append_header_ns, put_documents, write_insert,
}
use mongo_perl_driver.Wire.Format.{
  Begun, message, serialize_size-Begun, Writes, header_bytes, ns_bytes, append_header_ns-Begun,
  document-Begun,
}

module _ (be : Bool) (put : DocWriter) (writes : Writes put) where
  -- The documents of an insert one after another, and the ids that they pushed.
  pub data Documents (new_oid : ℕ → Option Bytes)
      : ℕ → List (Option Sv) → Bytes → List PushedId → Type 0 where
    no_document : {i : ℕ} → Documents new_oid i [] [] []
    next_document :
        {i : ℕ} {obj : Sv} {objs : List (Option Sv)} {doc docs : Bytes} {ids more : List PushedId}
        → writes.Holds obj (new_oid i) doc ids
        → Documents new_oid (i + 1) objs docs more
        → Documents new_oid i (some obj ∷ objs) (doc ++ docs) (ids ++ more)

  Documents-Begun :
      (new_oid : ℕ → Option Bytes) (i : ℕ) (buf : Buffer) (xs : Bytes) (objs : List (Option Sv))
      (out : Buffer × List PushedId)
      → Begun buf xs
      → put_documents be put new_oid i buf objs ≡ ok out
      → (docs : Bytes) × Documents new_oid i objs docs out.1 × Begun out.0 (xs ++ docs)
  unfolding put_documents
  Documents-Begun new_oid i buf xs [] out s h =
      subst
        (λ (o : Buffer × List PushedId).
          (docs : Bytes) × Documents new_oid i [] docs o.1 × Begun o.0 (xs ++ docs))
        (ok_same h) ([], no_document, rw (append-nil xs) s)
  Documents-Begun new_oid i buf xs (none ∷ objs) out s h = cc
  Documents-Begun new_oid i buf xs (some obj ∷ objs) out s h =
      let (o1, stored, h1) = >>=-eq-ok (put buf obj (new_oid i)) _ h in
      let (doc, holds, s1) = document-Begun be put writes buf xs obj (new_oid i) o1 s stored in
      let (o2, stored', done) = >>=-eq-ok (put_documents be put new_oid (i + 1) o1.0 objs) _ h1 in
      let (docs, all, s2) = Documents-Begun new_oid (i + 1) o1.0 (xs ++ doc) objs o2 s1 stored' in
      let end : (docs : Bytes) × Documents new_oid i (some obj ∷ objs) docs (o1.1 ++ o2.1)
          × Begun o2.0 (xs ++ docs) =
        (doc ++ docs, next_document holds all, rw (← append_assoc xs doc docs) s2) in
      subst
        (λ (o : Buffer × List PushedId).
          (docs : Bytes) × Documents new_oid i (some obj ∷ objs) docs o.1 × Begun o.0 (xs ++ docs))
        (ok_same done) end

  -- A message that write_insert returns is the header with the opcode of an insert and all the
  -- documents in their order; the ids returned are those that the documents pushed, in order.
  pub write_insert_lem :
      (id : ℤ) (ns : Bytes) (objs : List (Option Sv)) (new_oid : ℕ → Option Bytes)
      (cells : List Cell) (ids : List PushedId) (id' : ℤ)
      → write_insert be put id ns objs new_oid ≡ ok ((cells, ids), id')
      → (id' ≡ next_request_id id)
        × ((docs : Bytes) × Documents new_oid 0 objs docs ids
            × (cells
                ≡ map some (
                    message (
                      header_bytes (to_unsigned (next_request_id id)) 0 op_insert 0
                      ++ ns_bytes ns
                      ++ docs))))
  unfolding write_insert
  write_insert_lem id ns objs new_oid cells ids id' h =
      let rid = to_unsigned (next_request_id id) in
      let s1 = append_header_ns-Begun be 4096 rid 0 op_insert ns 0 in
      let (out, stored, done) =
        >>=-eq-ok
          (put_documents be put new_oid 0
            (append_header_ns be (create_buf 4096) rid 0 op_insert ns 0) objs)
          _ h in
      let (docs, all, s2) = Documents-Begun new_oid 0 _ _ objs out s1 stored in
      let same : ◌≡◌ {A = (List Cell × List PushedId) × ℤ}
          (((serialize_size be out.0).used, out.1), next_request_id id) ((cells, ids), id') =
        ok_same done in
      (
        sym (ap (λ (p : (List Cell × List PushedId) × ℤ). p.1) same),
        (
          docs,
          subst (λ l. Documents new_oid 0 objs docs l)
              (ap (λ (p : (List Cell × List PushedId) × ℤ). p.0.1) same) all,
          sym (ap (λ (p : (List Cell × List PushedId) × ℤ). p.0.0) same)
              ∙ serialize_size-Begun be out.0 _ s2,
        ),
      )
