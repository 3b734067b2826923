-- ===== src/Iteration/Next.antt =====
-- next, _init, info and DESTROY of xs/Cursor.xs.
use mongo_perl_driver.Common.{
  ℕ, ◌+◌, Bool, true, false, ◌||◌, Option, none, some, List, [], ◌∷◌, ◌++◌, ◌==◌, if◌then◌else◌,
  length, drop, bytes_eq, ℤ, pos, negsuc, ltb_ℤ, signed32, ◌+ℤ◌,
}
use mongo_perl_driver.Perl.{Bytes}
use mongo_perl_driver.Outcome.{Outcome, Croak, ok, croak, bad_pointer, ◌>>=◌}
use mongo_perl_driver.Buffer.{mongo_64}
use mongo_perl_driver.Encode.BigInt.{to_word64, signed64}
use mongo_perl_driver.Encode.Calendar.{to_unsigned}
use mongo_perl_driver.Libbson.{Fields}
use mongo_perl_driver.Decode.{
  Out, Entries, empty, hash, db_ref, undef, hv_fetch, Reader, perl_mongo_buffer_to_sv,
}
use mongo_perl_driver.Wire.{kill_cursor}
use mongo_perl_driver.Link.{State, Network, set_disconnected, mongo_link_say, is_connected}
use mongo_perl_driver.Link.Cursor.{Cursor, Heard, Failure, heard, failed}
use mongo_perl_driver.Iteration.{Readers, Ids, has_next, sent_bytes}

-- A cursor object: what its readers return, whether it has been queried (started_iterating), and
-- the documents of a first batch that came with the result of an aggregation.
pub record Object : Type 0 where
  pub readers : Readers
  pub started : Bool
  pub first_batch : List Out

-- What an iteration goes through: the connection, the cursor, the request ids, the object.
pub record Iter (World : Type 0) : Type 0 where
  pub state : State World
  pub cursor : Cursor
  pub ids : Ids
  pub object : Object

pub data Death : Type 0 where
  -- a croak of has_next, of the decoder, and "query error: %s"
  no_response : Failure → Death
  no_document : Croak → Death
  query_error : Out → Death

-- How next ends; `none` is the undefined value.
pub data Next (World : Type 0) : Type 0 where
  returned : Option Out → Iter World → Next World
  died : Death → Iter World → Next World
  stuck : Next World

-- "$err", "code", "$cmd"
abbrev pub err_key : Bytes
err_key = 36 ∷ 101 ∷ 114 ∷ 114 ∷ []

abbrev pub code_key : Bytes
code_key = 99 ∷ 111 ∷ 100 ∷ 101 ∷ []

abbrev pub cmd : Bytes
cmd = 36 ∷ 99 ∷ 109 ∷ 100 ∷ []

-- strstr(fullname + strlen(fullname) - 4, "$cmd") != NULL: four bytes are searched, of which some
-- are those in front of the name, if it is shorter.
unfoldable pub is_command : Bytes → Bytes → Bool
is_command front ns = bytes_eq (drop (length ns) (front ++ ns)) cmd

-- (HV*)SvRV(RETVAL); a MongoDB::DBRef is a hash of ref, id and db.
unfoldable pub as_entries : Out → Outcome Entries
as_entries (hash es) = ok es
as_entries (db_ref ref id db) = ok empty
as_entries _ = croak bad_pointer

-- code && SvIOK(*code) && (SvIV(*code) == NOT_MASTER || …)
unfoldable pub is_not_master : Option Out → Bool
is_not_master (some (Out.iv (pos n))) = (n == 10107) || ((n == 13435) || (n == 13436))
is_not_master _ = false

-- The test on "$err": the error and whether the server is not the master.
unfoldable pub error_of : Bytes → Bytes → Out → Outcome (Option (Out × Bool))
unfolding is_command as_entries is_not_master
error_of front ns doc = if is_command front ns then ok none else (do
  es ← as_entries doc
  ok (elim (hv_fetch es err_key) [
    | none ↦ none
    | some err ↦ some (err, is_not_master (hv_fetch es code_key))
  ]))

-- What stands from buf.pos to buf.end. A byte that was never written is read as it lies in memory.
unfoldable pub unread : Cursor → Bytes
unfolding sent_bytes
unread c = elim c.memory [ none ↦ [] | some cells ↦ sent_bytes (drop c.at_byte cells) ]

-- cursor->at++
unfoldable pub count_document : Cursor → Cursor
count_document c = record c { at = signed32 (to_unsigned (c.at +ℤ pos 1)) }

-- av_shift of the first batch, of which nothing is left if it is empty.
unfoldable pub shift_batch : Object → Out × Object
shift_batch o = elim o.first_batch [
  | [] ↦ (
    undef,
    record o {
      readers = record (o.readers) { agg_batch_size = o.readers.agg_batch_size +ℤ negsuc 0 };
    },
  )
  | doc ∷ docs ↦ (
    doc,
    record o {
      readers = record (o.readers) { agg_batch_size = o.readers.agg_batch_size +ℤ negsuc 0 };
      first_batch = docs;
    },
  )
]

module _ (big_endian : Bool) (net : Network) (reader : Reader)
    (read : Bytes → Option Fields × ℕ) where
  open net use {World}

  -- The document at buf.pos; buf.pos moves by bson_reader_tell.
  unfoldable pub buffered : Cursor → Outcome (Out × Cursor)
  buffered c = do
    (doc, rest) ← perl_mongo_buffer_to_sv reader read (unread c)
    ok (doc, record c { at_byte = c.at_byte + (read (unread c)).1 })

  -- RETVAL, with the cursor behind it
  unfoldable pub take_document : Iter World → Outcome (Out × Iter World)
  unfolding shift_batch
  take_document it =
      if ltb_ℤ (pos 0) it.object.readers.agg_batch_size
      then (let (doc, o) = shift_batch it.object in ok (doc, record it { object = o }))
      else (do (doc, c) ← buffered it.cursor; ok (doc, record it { cursor = c }))

  -- next behind has_next
  unfoldable pub next_document : Iter World → Next World
  unfolding count_document
  next_document it = elim (take_document it) [
    | croak x ↦ died (no_document x) it
    | Outcome.stuck ↦ stuck
    | ok taken ↦
        let doc = taken.0 in
        let it' = record (taken.1) { cursor = count_document (taken.1).cursor } in
        elim (error_of it.object.readers.ns_front it.object.readers.ns doc) [
          | croak x ↦ died (no_document x) it'
          | Outcome.stuck ↦ stuck
          | ok found ↦ elim found [
            | none ↦ returned (some doc) it'
            | some err ↦
                died (query_error (err.0)) (record it' {
                  state = if err.1 then set_disconnected net it'.state else it'.state;
                })
          ]
        ]
  ]

  -- next behind get_cursor: the branches on has_next.
  unfoldable pub give : Object → Heard World × Ids → Next World
  give o (heard true s c, ids) =
      next_document (record { state = s; cursor = c; ids = ids; object = o })
  give o (heard false s c, ids) =
      returned none (record { state = s; cursor = c; ids = ids; object = o })
  give o (failed f s c, ids) =
      died (no_response f) (record { state = s; cursor = c; ids = ids; object = o })
  give o (Heard.stuck, ids) = stuck

  unfoldable pub next_queried : ℕ → Iter World → Next World
  unfolding give
  next_queried fuel it =
      give it.object (has_next big_endian net fuel it.state it.object.readers it.cursor it.ids)

  -- next; `do_query` is the object's method _do_query, which sends the query the first time.
  unfoldable pub next : (Iter World → Iter World) → ℕ → Iter World → Next World
  unfolding next_queried
  next do_query fuel it = next_queried fuel (do_query it)

-- What _init is given besides the object: nothing, a Math::BigInt (its decimal string as sscanf
-- reads it), or another value (SvIV).
pub data GivenId : Type 0 where
  no_id : GivenId
  big_int_id : ℤ → GivenId
  iv_id : ℤ → GivenId

-- _init; `batch` is the reader _agg_batch_size.
unfoldable pub init : Bool → GivenId → ℤ → Cursor
init big_endian given batch =
    let fresh : Cursor = record {
      flag = 0;
      cursor_id = 0;
      start = 0;
      at = pos 0;
      num = pos 0;
      memory = none;
      at_byte = 0;
    } in
    elim given [
      | no_id ↦ fresh
      | big_int_id id ↦ record fresh {
        cursor_id = to_word64 id;
        num = signed32 (to_unsigned batch);
      }
      | iv_id id ↦ record fresh {
        cursor_id = mongo_64 big_endian (to_word64 id);
        num = signed32 (to_unsigned batch);
      }
    ]

-- info: flag, cursor_id, start, at, num
unfoldable pub info : Cursor → ℤ × ℤ × ℤ × ℤ × ℤ
info c = (signed32 c.flag, signed64 c.cursor_id, signed32 c.start, c.at, c.num)

-- DESTROY: the cursor is killed when the client is connected.
unfoldable pub destroy :
    Bool → (net : Network) → State net.World → Cursor → ℤ → Outcome (State net.World)
unfolding sent_bytes
destroy big_endian net s c request_id =
    if is_connected s
    then elim (kill_cursor big_endian request_id (signed64 c.cursor_id)) [
      | none ↦ ok s
      | some buf ↦ do (sent, s') ← mongo_link_say net s (sent_bytes buf.used); ok s'
    ]
    else ok s
