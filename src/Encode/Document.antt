-- ===== src/Encode/Document.antt =====
-- The entry points of the encoder: perl_mongo_sv_to_bson and perl_mongo_sv_to_buffer.
pub mod Total
pub mod Insert
pub mod Unique
use mongo_perl_driver.Common.{
  ℕ, ◌+◌, Bool, true, false, not, Option, none, some, List, [], ◌∷◌, ◌++◌, if◌then◌else◌, length,
  bytes_eq,
}
use mathlib.Core.List.{map}
use mongo_perl_driver.Perl.{
  Bytes, Sv, scalar, rv, magical, Class, Referent, Heap, hash, array, plain, other_body,
  tie_ix_hash,
}
use mongo_perl_driver.Libbson.{Libbson}
use mongo_perl_driver.Outcome.{
  Outcome, ok, croak, ◌>>=◌, ◌>>◌, require, unhandled_type, not_a_reference, odd_elements,
  no_array_value, bad_pointer,
}
use mongo_perl_driver.Buffer.{Buffer, pos_of}
use mongo_perl_driver.Encode.Keys.{Config, c_string}
use mongo_perl_driver.Encode.Circular.{empty_stack}
use mongo_perl_driver.Encode.Append.{
  Appender, perl_mongo_prep, hv_to_bson, ixhash_to_bson, append_sv,
}
use mongo_perl_driver.Encode.Entries.{PushedId, given, id_key, referent_at, is_some}

-- The string of a value: of a reference, what the interpreter prints for the address.
unfoldable pub sv_string : (ℕ → Bytes) → Sv → Bytes
sv_string printed (scalar sv) = sv.pv
sv_string printed (rv ptr) = printed ptr
sv_string printed (magical sv) = sv_string printed sv

unfoldable pub sv_utf8 : (ℕ → Bytes) → Sv → Bytes
sv_utf8 printed (scalar sv) = sv.pv_utf8
sv_utf8 printed (rv ptr) = printed ptr
sv_utf8 printed (magical sv) = sv_utf8 printed sv

abbrev pub is_ix_hash : Option Class → Bool
is_ix_hash (some (tie_ix_hash ix)) = true
is_ix_hash _ = false

-- (av_len (av) % 2) == 0, which is so for an odd number of elements
unfoldable pub odd_length {ℓ} : {A : Type ℓ} → List A → Bool
odd_length [] = false
odd_length (x ∷ xs) = not (odd_length xs)

module _ (api : Libbson) (config : Config) (heap : Heap) (printed : ℕ → Bytes) where
  open api use {Bson, bson_new, get_data}

  module _ (rec : Appender api config heap) where
    -- The search for "_id" at the even places; `none` is a missing element that is read.
    unfoldable pub find_pair_id : List (Option Sv) → Outcome (Option Sv)
    find_pair_id [] = ok none
    find_pair_id (none ∷ av) = croak bad_pointer
    find_pair_id (some key ∷ []) =
        if bytes_eq (c_string (sv_string printed key)) id_key then croak bad_pointer else ok none
    find_pair_id (some key ∷ v ∷ av) =
        let more = find_pair_id av in
        if bytes_eq (c_string (sv_string printed key)) id_key
        then elim v [ none ↦ croak bad_pointer | some id ↦ ok (some id) ]
        else more

    unfoldable pub put_pair_id : Bool → Bytes → Bson → Option Sv → Outcome (Bson × List PushedId)
    put_pair_id is_insert new_oid b none = ok (perl_mongo_prep api config heap new_oid b)
    put_pair_id is_insert new_oid b (some id) = do
      b' ← rec empty_stack is_insert b id_key id
      ok (b', given id ∷ [])

    unfoldable pub put_pair_ids :
        Bool → Option Bytes → Bson → List (Option Sv) → Outcome (Bson × List PushedId)
    unfolding put_pair_id
    put_pair_ids is_insert none b av = ok (b, [])
    put_pair_ids is_insert (some new_oid) b av = do
      id ← find_pair_id av
      put_pair_id is_insert new_oid b id

    -- for (i = 0; i <= av_len (av); i += 2); the name is read as a C string
    unfoldable pub pair_loop : Bool → Bson → List (Option Sv) → Outcome Bson
    pair_loop is_insert b [] = ok b
    pair_loop is_insert b (some key ∷ some v ∷ av) = do
      b' ← rec empty_stack is_insert b (c_string (sv_utf8 printed key)) v
      pair_loop is_insert b' av
    pair_loop is_insert b _ = croak no_array_value

    unfoldable pub pairs_to_bson :
        Bson → List (Option Sv) → Option Bytes → Outcome (Bson × List PushedId)
    unfolding put_pair_ids pair_loop
    pairs_to_bson b av ids = do
      require (not (odd_length av)) odd_elements
      (b', pushed) ← put_pair_ids (is_some ids) ids b av
      b'' ← pair_loop (is_some ids) b' av
      ok (b'', pushed)

    unfoldable pub sv_to_bson_body :
        Bson → ℕ → Referent → Option Bytes → Outcome (Bson × List PushedId)
    unfolding pairs_to_bson
    sv_to_bson_body b ptr r ids = elim r.body [
      | hash hv ↦ hv_to_bson api config heap rec b ptr ids empty_stack (is_some ids)
      | array av ↦
          if is_ix_hash r.blessed
          then ixhash_to_bson api config heap rec b ptr ids empty_stack (is_some ids)
          else pairs_to_bson b av ids
      | plain sv ↦ croak unhandled_type
      | other_body t ↦ croak unhandled_type
    ]

  -- perl_mongo_sv_to_bson; `ids` is the new OID if there is a list of ids, and the document and
  -- the ids that were pushed are returned.
  unfoldable pub sv_to_bson : ℕ → Bson → Sv → Option Bytes → Outcome (Bson × List PushedId)
  unfolding sv_to_bson_body
  sv_to_bson fuel b (rv ptr) ids = do
    r ← referent_at heap ptr
    sv_to_bson_body (append_sv api config heap fuel) b ptr r ids
  sv_to_bson fuel b sv ids = croak not_a_reference

  -- perl_mongo_sv_to_buffer: bson_writer_begin and _end append the document at the offset pos,
  -- and `writer_size` is the size that the writer leaves the buffer with.
  unfoldable pub sv_to_buffer :
      (ℕ → ℕ → ℕ) → ℕ → Buffer → Sv → Option Bytes → Outcome (Buffer × List PushedId)
  unfolding sv_to_bson
  sv_to_buffer writer_size fuel buf sv ids = do
    (b, pushed) ← sv_to_bson fuel bson_new sv ids
    let bytes = get_data b
    ok (
      record buf {
        total = writer_size buf.total (pos_of buf + length bytes);
        used = buf.used ++ map some bytes;
      },
      pushed,
    )
