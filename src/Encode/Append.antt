-- ===== src/Encode/Append.antt =====
-- append_sv and the functions that it recurs with: hv_to_bson, av_to_bson, ixhash_to_bson.
pub mod Fuel
pub mod Terminates
pub mod Diverges
pub mod Meaning
pub mod Sound
pub mod Names
pub mod Containers
pub mod Correct
pub mod Faithful
use mongo_perl_driver.Common.{
  ℕ, zero, suc, ◌+◌, ◌-◌, ◌*◌, ◌/◌, ◌%◌, ◌^◌, ◌≤◌, ◌<◌, ◌≡◌, refl, sym, ap, ◌∙◌, ◌≢◌, ◌↔◌, ◌⊎◌, inl,
  inr, Bool, true, false, not, ◌&&◌, ◌||◌, Option, none, some, List, [], ◌∷◌, ◌++◌, append_assoc,
  append-nil, arith, ltb, leb, ◌==◌, if◌then◌else◌, ltb→lt, lt→ltb, leb→le, ==_iff, Bool-cases,
  Option-cases, length, get_elem?, take, drop, replicate, All, length-append, take-append-drop,
  length-take, length-drop, drop-append, All-append, bytes_eq, bytes_eq_refl, bytes_eq→eq, ℤ, pos,
  negsuc, pos_part, neg_part, sub_ℕ, ltb_ℤ, signed32, ◌+ℤ◌, ◌*ℤ◌, pos_laws,
}
use mongo_perl_driver.Perl.{
  Bytes, Scalar, Sv, scalar, rv, magical, HashEntry, Body, IxHash, Class, Referent, Heap, deref,
  SvType, sv_null, sv_iv, sv_nv, sv_pv, sv_pviv, sv_pvnv, sv_pvmg, sv_pvlv, sv_regexp, sv_pvgv,
  sv_pvav, sv_pvhv, sv_pvcv, hash, array, plain, other_body, oid, tie_ix_hash, db_ref, code,
}
use mongo_perl_driver.Libbson.{Libbson, Leaf}
use mongo_perl_driver.Outcome.{
  Outcome, ok, croak, stuck, ◌>>=◌, ◌>>◌, circular_ref, no_hash_value, no_ixhash_value,
  unhandled_ref, bad_pointer, unhandled_class, null_in_key,
}
use mongo_perl_driver.Encode.Keys.{Config, c_string, contains_null_char, clean_key, latin1_utf8}
use mongo_perl_driver.Encode.Circular.{Stack, empty_stack, check_circular_ref}
use mongo_perl_driver.Encode.Leaves.{serialize_binary, scalar_leaf, object_leaf}
use mongo_perl_driver.Encode.Entries.{
  PushedId, given, generated, id_key, undef, find_id, decimal, index_key, fetch, entry_key,
  referent_at, as_hash, as_ix_hash, enter, is_some, ix_id, is_pv,
}

module _ (api : Libbson) (config : Config) (heap : Heap) where
  open api use {
    Bson, bson_new, append, document_begin, document_end, array_begin, array_end,
    append_code_with_scope, oid_from_string,
  }

  -- The type of append_sv, which the functions below call back: the stack, is_insert, the
  -- document, the name, the value.
  abbrev pub Appender : Type 0
  Appender = Stack → Bool → Bson → Bytes → Sv → Outcome Bson

  -- perl_mongo_prep: append a new OID under "_id".
  unfoldable pub perl_mongo_prep : Bytes → Bson → Bson × List PushedId
  perl_mongo_prep new_oid b = (append b id_key (Leaf.oid new_oid), generated new_oid ∷ [])

  module _ (rec : Appender) where
    -- The body of the loop over a hash, behind the test for "_id".
    unfoldable pub hv_entry : Stack → Bool → Bson → HashEntry → Outcome Bson
    hv_entry stack is_insert b e = elim e.fetched [
      | none ↦ croak no_hash_value
      | some v ↦ rec stack is_insert b (c_string (entry_key e)) v
    ]

    -- while ((he = hv_iternext (hv))); `has_ids` is whether there is a list of ids.
    unfoldable pub hv_loop : Stack → Bool → Bool → Bson → List HashEntry → Outcome Bson
    unfolding hv_entry
    hv_loop stack is_insert has_ids b [] = ok b
    hv_loop stack is_insert has_ids b (e ∷ es) = do
      contains_null_char e.key
      b' ← (if has_ids && bytes_eq e.key id_key then ok b else hv_entry stack is_insert b e)
      hv_loop stack is_insert has_ids b' es

    -- What is done before the loop where there is a list of ids: `new_oid` is the OID that
    -- bson_oid_init makes, and `id` the value that the document has under "_id".
    unfoldable pub put_id :
        Stack → Bool → Bytes → Bson → Option (Option Sv) → Outcome (Bson × List PushedId)
    unfolding perl_mongo_prep
    put_id stack is_insert new_oid b none = ok (perl_mongo_prep new_oid b)
    put_id stack is_insert new_oid b (some none) = croak bad_pointer
    put_id stack is_insert new_oid b (some (some id)) = do
      b' ← rec stack is_insert b id_key id
      ok (b', given id ∷ [])

    unfoldable pub put_ids :
        Stack → Bool → Option Bytes → Bson → Option (Option Sv) → Outcome (Bson × List PushedId)
    unfolding put_id
    put_ids stack is_insert none b id = ok (b, [])
    put_ids stack is_insert (some new_oid) b id = put_id stack is_insert new_oid b id

    -- hv_to_bson on the hash at an address; `ids` is the new OID where there is a list of ids.
    unfoldable pub hv_to_bson :
        Bson → ℕ → Option Bytes → Stack → Bool → Outcome (Bson × List PushedId)
    unfolding hv_loop put_ids
    hv_to_bson b ptr ids stack is_insert = do
      r ← referent_at heap ptr
      hv ← as_hash r.body
      stack' ← enter ptr stack
      (b', pushed) ← put_ids stack' is_insert ids b (find_id hv)
      b'' ← hv_loop stack' is_insert (is_some ids) b' hv
      ok (b'', pushed)

    -- for (i = 0; i <= av_len (av); i++), from index `i` on; a hole of the array is undefined.
    unfoldable pub av_loop : Stack → Bool → Bson → ℕ → List (Option Sv) → Outcome Bson
    av_loop stack is_insert b i [] = ok b
    av_loop stack is_insert b i (none ∷ av) = do
      b' ← rec stack is_insert b (index_key i) undef
      av_loop stack is_insert b' (i + 1) av
    av_loop stack is_insert b i (some sv ∷ av) = do
      b' ← rec stack is_insert b (index_key i) sv
      av_loop stack is_insert b' (i + 1) av

    unfoldable pub av_to_bson : Bson → ℕ → List (Option Sv) → Stack → Bool → Outcome Bson
    unfolding av_loop
    av_to_bson b ptr av stack is_insert = do
      stack' ← enter ptr stack
      av_loop stack' is_insert b 0 av

    -- for (i=0; i<=av_len(keys); i++), over the keys that are left and the values from `i` on.
    unfoldable pub ix_loop :
        Stack → Bool → Bson → List (Option Bytes) → List (Option Sv) → Outcome Bson
    ix_loop stack is_insert b [] values = ok b
    ix_loop stack is_insert b (none ∷ keys) values = croak no_ixhash_value
    ix_loop stack is_insert b (some key ∷ keys) [] = croak no_ixhash_value
    ix_loop stack is_insert b (some key ∷ keys) (none ∷ values) = croak no_ixhash_value
    ix_loop stack is_insert b (some key ∷ keys) (some v ∷ values) = do
      contains_null_char key
      b' ← rec stack is_insert b key v
      ix_loop stack is_insert b' keys values

    unfoldable pub ixhash_to_bson :
        Bson → ℕ → Option Bytes → Stack → Bool → Outcome (Bson × List PushedId)
    unfolding ix_loop put_ids
    ixhash_to_bson b ptr ids stack is_insert = do
      r ← referent_at heap ptr
      ix ← as_ix_hash r.blessed
      stack' ← enter ptr stack
      (b', pushed) ← put_ids stack' is_insert ids b (ix_id ix)
      b'' ← ix_loop stack' is_insert b' ix.keys ix.values
      ok (b'', pushed)

    -- An embedded Tie::IxHash.
    unfoldable pub append_ixhash : Stack → Bool → Bson → Bytes → ℕ → Outcome Bson
    unfolding ixhash_to_bson
    append_ixhash stack is_insert b key ptr = do
      (child, _) ← ixhash_to_bson (document_begin b key) ptr none stack is_insert
      ok (document_end b key child)

    unfoldable pub append_leaf : Bson → Bytes → Outcome Leaf → Outcome Bson
    append_leaf b key leaf = do l ← leaf; ok (append b key l)

    -- sv_isobject(sv): the chain of class tests.
    unfoldable pub append_object : Stack → Bool → Bson → Bytes → ℕ → Body → Class → Outcome Bson
    unfolding append_ixhash append_leaf hv_to_bson
    append_object stack is_insert b key ptr body (oid str) =
        ok (append b key (Leaf.oid (oid_from_string (c_string str))))
    append_object stack is_insert b key ptr body (tie_ix_hash ix) =
        append_ixhash stack is_insert b key ptr
    append_object stack is_insert b key ptr body (db_ref ordered) =
        append_ixhash stack is_insert b key ordered
    append_object stack is_insert b key ptr body (code str (some scope)) = do
      (child, _) ← hv_to_bson bson_new scope none empty_stack is_insert
      ok (append_code_with_scope b key (c_string str) child)
    append_object stack is_insert b key ptr body class =
        append_leaf b key (object_leaf config body class)

    -- The switch on SvTYPE(SvRV(sv)) for a reference that is no object.
    unfoldable pub append_unblessed : Stack → Bool → Bson → Bytes → ℕ → Body → Outcome Bson
    unfolding append_leaf hv_to_bson av_to_bson
    append_unblessed stack is_insert b key ptr (hash hv) = do
      (child, _) ← hv_to_bson (document_begin b key) ptr none stack is_insert
      ok (document_end b key child)
    append_unblessed stack is_insert b key ptr (array av) = do
      child ← av_to_bson (array_begin b key) ptr av stack is_insert
      ok (array_end b key child)
    append_unblessed stack is_insert b key ptr (plain sv) =
        append_leaf b key (if is_pv sv.sv_type then serialize_binary 0 sv else croak unhandled_ref)
    append_unblessed stack is_insert b key ptr (other_body t) = croak unhandled_ref

    -- if (sv_isobject (sv)) … else …
    unfoldable pub append_referent :
        Stack → Bool → Bson → Bytes → ℕ → Body → Option Class → Outcome Bson
    unfolding append_object append_unblessed
    append_referent stack is_insert b key ptr body (some class) =
        append_object stack is_insert b key ptr body class
    append_referent stack is_insert b key ptr body none =
        append_unblessed stack is_insert b key ptr body

    -- append_sv behind the test for undefined values. (mg_get has put a value in place.)
    unfoldable pub append_defined : Stack → Bool → Bson → Bytes → Sv → Outcome Bson
    unfolding append_referent append_leaf
    append_defined stack is_insert b key (scalar sv) = append_leaf b key (scalar_leaf config sv)
    append_defined stack is_insert b key (magical sv) = append_defined stack is_insert b key sv
    append_defined stack is_insert b key (rv ptr) = do
      r ← referent_at heap ptr
      append_referent stack is_insert b key ptr r.body r.blessed

    unfoldable pub append_value : Stack → Bool → Bson → Bytes → Sv → Outcome Bson
    unfolding append_defined
    append_value stack is_insert b key (scalar sv) =
        if sv.defined
        then append_defined stack is_insert b key (scalar sv)
        else ok (append b key Leaf.null)
    append_value stack is_insert b key sv = append_defined stack is_insert b key sv

    unfoldable pub append_body : Appender
    unfolding append_value
    append_body stack is_insert b in_key sv = do
      key ← clean_key config is_insert in_key
      append_value stack is_insert b key sv

  -- append_sv. A unit of fuel is used for each container inside a container.
  unfoldable pub append_sv : ℕ → Appender
  unfolding append_body
  append_sv zero stack is_insert b key sv = stuck
  append_sv (suc fuel) stack is_insert b key sv =
      append_body (append_sv fuel) stack is_insert b key sv
