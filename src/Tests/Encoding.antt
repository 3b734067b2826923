-- ===== src/Tests/Encoding.antt =====
-- The encoder's and the decoder's theorems at small documents.
use mongo_perl_driver.Common.{
  inl, ◌<◌, ◌≡◌, refl, ◌≢◌, true, false, some, [], ◌∷◌, arith, length, pos,
}
use mongo_perl_driver.Perl.{Bytes, scalar, rv}
use mongo_perl_driver.Outcome.{ok, stuck, ◌>>=◌}
use mongo_perl_driver.Libbson.{
  Leaf, Value, Fields, leaf, document, nil, field, ◌⋈◌, single, pure_bson, pure_bson_laws,
}
use mongo_perl_driver.Encode.Keys.{
  Config, c_string, contains, contains_null_char, clean_key, latin1_utf8, clean_key-ne-stuck,
}
use mongo_perl_driver.Encode.Circular.{empty_stack, check_circular_ref, on_stack, free_below}
use mongo_perl_driver.Encode.Leaves.{serialize_binary, object_leaf, scalar_leaf}
use mongo_perl_driver.Encode.Append.{hv_to_bson, ixhash_to_bson, append_sv}
use mongo_perl_driver.Encode.Entries.{
  given, generated, find_id, referent_at, as_hash, as_ix_hash, enter, ix_id, index_key, entry_key,
}
use mongo_perl_driver.Decode.{Out, Entries, Elements, elem_to_sv}
use mongo_perl_driver.Encode.Document.{sv_to_bson}
use mongo_perl_driver.Decode.Plain.{
  Plain, p_int, p_text, p_hash, p_array, all_stored, store_next, all_pushed, push_hole, push_next,
}
use mongo_perl_driver.Decode.RoundTrip.{append_sv-elem_to_sv}
use mongo_perl_driver.Encode.Append.Sound.{Adds, Grows}
use mongo_perl_driver.Encode.Append.Names.{AllNamed, append_sv-AllNamed}
use mongo_perl_driver.Encode.Append.Faithful.{append_sv-Sound}
use mongo_perl_driver.Encode.Append.Fuel.{NoScopes, has_scope}
use mongo_perl_driver.Encode.Append.Terminates.{append_sv-ne-stuck}
use mongo_perl_driver.Encode.Append.Meaning.{HashEncodes, PairsEncode}
use mongo_perl_driver.Encode.Document.Insert.{Inserted, insert_hash, insert_ix_hash}
use mongo_perl_driver.Encode.Document.Unique.{count_name, insert_hash_one_id}
use mongo_perl_driver.Tests.Data.{
  plain_config, integer, entries, ordered, plain_hash, ordered_hash, small_heap, no_name, new_oid,
  plain_reader,
}

abbrev stored_array : Fields
stored_array = field (48 ∷ []) (leaf Leaf.null) (field (49 ∷ []) (leaf (Leaf.utf8 (120 ∷ []))) nil)

abbrev stored_hash : Fields
stored_hash =
    field (97 ∷ []) (leaf (Leaf.int64 (pos 5))) (field (98 ∷ []) (Value.array stored_array) nil)

at_hash : referent_at small_heap 0 ≡ ok plain_hash
unfolding referent_at
at_hash = refl

at_ordered : referent_at small_heap 2 ≡ ok ordered_hash
unfolding referent_at
at_ordered = refl

append_sv-hash :
    append_sv pure_bson plain_config small_heap 4 empty_stack false nil (104 ∷ []) (rv 0)
    ≡ ok (single (104 ∷ []) (document stored_hash))
unfolding append_sv ◌>>=◌ clean_key mongo_perl_driver.Encode.Keys.starts_special referent_at as_hash
    enter check_circular_ref on_stack contains_null_char c_string entry_key scalar_leaf
    mongo_perl_driver.Encode.Leaves.is_value_type mongo_perl_driver.Encode.Leaves.not_int
    mongo_perl_driver.Encode.Leaves.aggressively_number mongo_perl_driver.Encode.Leaves.is_string
    index_key mongo_perl_driver.Encode.Leaves.string_leaf mongo_perl_driver.Encode.Leaves.int_leaf
append_sv-hash = refl

Plain-shape : Plain small_heap false (rv 0) (
    Out.hash (
      Entries.entry (97 ∷ []) (Out.iv (pos 5)) (
        Entries.entry
          (98 ∷ [])
          (Out.array (
            Elements.element Out.undef
              (Elements.element (Out.string true (120 ∷ [])) Elements.end)))
          Entries.empty)))
unfolding referent_at contains
Plain-shape = p_hash refl refl refl (inl refl) (
    store_next refl refl (p_int refl refl refl refl) (
      store_next refl refl
        (p_array refl refl refl
          (push_hole (push_next (p_text refl refl refl refl refl refl) all_pushed)))
        all_stored))

append_sv-elem_to_sv_example :
    (k : Bytes) × (x : Value) × (single (104 ∷ []) (document stored_hash) ≡ nil ⋈ single k x)
    × (elem_to_sv plain_reader x
        ≡ ok (
            Out.hash (
              Entries.entry (97 ∷ []) (Out.iv (pos 5)) (
                Entries.entry
                  (98 ∷ [])
                  (Out.array (
                    Elements.element Out.undef
                      (Elements.element (Out.string true (120 ∷ [])) Elements.end)))
                  Entries.empty))))
append_sv-elem_to_sv_example =
    append_sv-elem_to_sv pure_bson pure_bson_laws plain_config small_heap plain_reader refl refl
      refl refl refl refl 4 empty_stack false nil (104 ∷ []) (rv 0) _
      (single (104 ∷ []) (document stored_hash)) Plain-shape append_sv-hash refl

append_sv-Sound_example :
    Adds pure_bson plain_config small_heap false
      (104 ∷ [])
      (rv 0)
      nil
      (single (104 ∷ []) (document stored_hash))
append_sv-Sound_example =
    append_sv-Sound pure_bson pure_bson_laws plain_config small_heap 4 empty_stack false nil
      (104 ∷ []) (rv 0) (single (104 ∷ []) (document stored_hash)) append_sv-hash

append_sv-insert :
    append_sv pure_bson plain_config small_heap 4 empty_stack true nil (104 ∷ []) (rv 0)
    ≡ ok (single (104 ∷ []) (document stored_hash))
unfolding append_sv ◌>>=◌ clean_key mongo_perl_driver.Encode.Keys.starts_special referent_at as_hash
    enter check_circular_ref on_stack contains_null_char contains c_string entry_key scalar_leaf
    mongo_perl_driver.Encode.Leaves.is_value_type mongo_perl_driver.Encode.Leaves.not_int
    mongo_perl_driver.Encode.Leaves.aggressively_number mongo_perl_driver.Encode.Leaves.is_string
    index_key mongo_perl_driver.Encode.Leaves.string_leaf mongo_perl_driver.Encode.Leaves.int_leaf
append_sv-insert = refl

append_sv-AllNamed_example :
    (name : Bytes) × (value : Value) × Grows pure_bson plain_config small_heap nil
      (single (104 ∷ []) (document stored_hash))
      (single name value)
    × AllNamed (single name value)
append_sv-AllNamed_example =
    append_sv-AllNamed pure_bson plain_config small_heap pure_bson_laws 4 empty_stack nil (104 ∷ [])
      (rv 0) (single (104 ∷ []) (document stored_hash)) append_sv-insert

no_scopes : NoScopes small_heap
unfolding has_scope
no_scopes = (refl, (refl, (refl, tt)))

room : free_below (length small_heap) empty_stack < 4
unfolding free_below on_stack
room = omega arith

append_sv-ne-stuck_example :
    append_sv pure_bson plain_config small_heap 4 empty_stack false nil (104 ∷ []) (rv 0) ≢ stuck
append_sv-ne-stuck_example =
    append_sv-ne-stuck pure_bson plain_config small_heap 4 empty_stack false nil (104 ∷ []) (rv 0)
      no_scopes room

abbrev inserted_hash : Fields
inserted_hash = field (95 ∷ 105 ∷ 100 ∷ []) (leaf (Leaf.oid new_oid)) stored_hash

insert-hash :
    sv_to_bson pure_bson plain_config small_heap no_name 4 nil (rv 0) (some new_oid)
    ≡ ok (inserted_hash, generated new_oid ∷ [])
unfolding sv_to_bson ◌>>=◌ referent_at hv_to_bson as_hash enter check_circular_ref on_stack find_id
    contains_null_char c_string append_sv clean_key entry_key contains
    mongo_perl_driver.Encode.Keys.starts_special scalar_leaf
    mongo_perl_driver.Encode.Leaves.is_value_type mongo_perl_driver.Encode.Leaves.not_int
    mongo_perl_driver.Encode.Leaves.aggressively_number mongo_perl_driver.Encode.Leaves.is_string
    index_key mongo_perl_driver.Encode.Leaves.string_leaf mongo_perl_driver.Encode.Leaves.int_leaf
insert-hash = refl

insert_hash_example :
    (rest : Fields) × HashEncodes pure_bson plain_config small_heap true true entries rest
    × Inserted pure_bson pure_bson_laws plain_config small_heap 4 new_oid
        (find_id entries)
        rest
        (inserted_hash, generated new_oid ∷ [])
insert_hash_example =
    insert_hash pure_bson pure_bson_laws plain_config small_heap 4 no_name 0 new_oid plain_hash
      entries (inserted_hash, generated new_oid ∷ []) at_hash refl insert-hash refl

insert_hash_one_id_example : count_name (95 ∷ 105 ∷ 100 ∷ []) inserted_hash ≡ 1
insert_hash_one_id_example =
    insert_hash_one_id pure_bson pure_bson_laws plain_config small_heap 4 refl no_name 0 new_oid
      plain_hash entries (inserted_hash, generated new_oid ∷ []) at_hash refl insert-hash refl

abbrev inserted_ordered : Fields
inserted_ordered = field (95 ∷ 105 ∷ 100 ∷ []) (leaf (Leaf.int64 (pos 5))) (
    field (95 ∷ 105 ∷ 100 ∷ []) (leaf (Leaf.int64 (pos 5)))
      (field (97 ∷ []) (leaf (Leaf.int64 (pos 7))) nil))

insert-ordered :
    sv_to_bson pure_bson plain_config small_heap no_name 4 nil (rv 2) (some new_oid)
    ≡ ok (inserted_ordered, given (scalar (integer 5)) ∷ [])
unfolding sv_to_bson ◌>>=◌ referent_at ixhash_to_bson as_ix_hash enter check_circular_ref on_stack
    ix_id append_sv clean_key contains mongo_perl_driver.Encode.Keys.starts_special scalar_leaf
    mongo_perl_driver.Encode.Leaves.is_value_type mongo_perl_driver.Encode.Leaves.not_int
    mongo_perl_driver.Encode.Leaves.aggressively_number mongo_perl_driver.Encode.Leaves.is_string
    contains_null_char c_string mongo_perl_driver.Encode.Leaves.int_leaf
insert-ordered = refl

insert_ix_hash_example :
    (rest : Fields) × PairsEncode pure_bson plain_config small_heap true ordered.keys ordered.values
      rest
    × Inserted pure_bson pure_bson_laws plain_config small_heap 4 new_oid
        (ix_id ordered)
        rest
        (inserted_ordered, given (scalar (integer 5)) ∷ [])
insert_ix_hash_example =
    insert_ix_hash pure_bson pure_bson_laws plain_config small_heap 4 no_name 2 new_oid ordered_hash
      ordered [] (inserted_ordered, given (scalar (integer 5)) ∷ []) at_ordered refl refl
      insert-ordered refl
