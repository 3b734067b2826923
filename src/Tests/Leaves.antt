-- ===== src/Tests/Leaves.antt =====
-- The theorems on single values, names, DBRefs and the buffer at small inputs.
use mongo_perl_driver.Common.{
  ℕ, ◌+◌, ◌*◌, ◌^◌, ◌≤◌, ◌≡◌, refl, ◌↔◌, true, false, some, [], ◌∷◌, arith, length, take, All, pos,
}
use mongo_perl_driver.Perl.{rv}
use mongo_perl_driver.Outcome.{ok, stuck, ◌>>=◌}
use mongo_perl_driver.Libbson.{Leaf, Fields, leaf, document, nil, field, pure_bson}
use mongo_perl_driver.Encode.Keys.{starts_special, c_string, contains_null_char, clean_key}
use mongo_perl_driver.Encode.Circular.{empty_stack}
use mongo_perl_driver.Encode.Append.{append_sv}
use mongo_perl_driver.Encode.Entries.{referent_at, entry_key}
use mongo_perl_driver.Decode.{Out, Reader, store, fetched, elem_to_sv, ref_key, db_key}
use mongo_perl_driver.Encode.BigInt.{big_int_value, is_minus}
use mongo_perl_driver.Encode.BigInt.Limbs.{limb, signed, big_int_two_limbs}
use mongo_perl_driver.Encode.Regex.{
  serialize_regex_flags, is_supported, count, Distinct, serialize_regex_flags_lem,
}
use mongo_perl_driver.Encode.Calendar.{
  timegm, tm_of, seconds, is_leap_year, timegm_lem, timegm_before_1970,
}
use mongo_perl_driver.Encode.Append.Diverges.{SelfScope, append_sv_self_scope}
use mongo_perl_driver.Decode.DbRef.{names, is_db_ref, elem_to_sv-is_db_ref}
use mongo_perl_driver.Buffer.{
  Buffer, pos_of, resize_buf, serialize_string, serialize_int, serialize_long,
}
use mongo_perl_driver.Buffer.Capacity.{Fits, resize_buf_lem, writers-Fits}
use mongo_perl_driver.Tests.Data.{
  plain_config, text, named, code_object, self_scope_hash, code_heap, plain_reader,
}

big_int_two_limbs_example :
    (big_int_value (some (text [])) (some (some (limb 12) ∷ some (limb 3) ∷ []))
      ≡ ok (signed (is_minus (text [])) (12 + 3 * 10 ^ 2)))
    ↔ (10 ^ 2 ≤ 12 * 10)
big_int_two_limbs_example =
    big_int_two_limbs (text []) 2 12 3 (omega arith) (omega arith) (omega arith) (omega arith)
      (omega arith)

Distinct-flags : Distinct (take 7 (c_string (105 ∷ 117 ∷ [])))
unfolding c_string
Distinct-flags = ((λ e. omega arith, tt), (tt, tt))

split-iu : serialize_regex_flags (some (105 ∷ 117 ∷ [])) ≡ ok (105 ∷ [], 117 ∷ [])
unfolding serialize_regex_flags ◌>>=◌ mongo_perl_driver.Encode.Regex.regex_flags
    mongo_perl_driver.Encode.Regex.split_flags c_string is_supported
split-iu = refl

serialize_regex_flags_lem_example :
    (length {A = ℕ} (105 ∷ []) ≤ 4)
    × All (λ c. is_supported c ≡ true) (105 ∷ [])
    × ((a : ℕ)
        → count a (105 ∷ []) + count a (117 ∷ []) ≡ count a (take 7 (c_string (105 ∷ 117 ∷ []))))
serialize_regex_flags_lem_example =
    serialize_regex_flags_lem (105 ∷ 117 ∷ []) (105 ∷ []) (117 ∷ []) Distinct-flags split-iu

timegm_lem_example : timegm (tm_of 114 1 28 23 59 59) ≡ some (pos (seconds 114 1 28 23 59 59))
timegm_lem_example = timegm_lem 114 1 28 23 59 59 (omega arith) (omega arith) (omega arith)

common_1969 : is_leap_year 69 ≡ false
unfolding is_leap_year
common_1969 = refl

timegm_before_1970_example : timegm (tm_of 69 11 31 0 0 0) ≡ timegm (tm_of 70 11 31 0 0 0)
timegm_before_1970_example = timegm_before_1970 69 11 31 0 0 0 (omega arith) common_1969

entry-null : contains_null_char (102 ∷ []) ≡ ok tt
unfolding contains_null_char c_string
entry-null = refl

entry-name : clean_key plain_config false (c_string (entry_key (named 102 (rv 0)))) ≡ ok (102 ∷ [])
unfolding clean_key c_string entry_key starts_special
entry-name = refl

code-found : referent_at code_heap 0 ≡ ok code_object
unfolding referent_at
code-found = refl

scope-found : referent_at code_heap 1 ≡ ok self_scope_hash
unfolding referent_at
scope-found = refl

self_scope : SelfScope plain_config code_heap false 0 1
self_scope = record {
  object = code_object;
  hash_at = self_scope_hash;
  str = [];
  entry = named 102 (rv 0);
  rest = [];
  name = 102 ∷ [];
  object_found = code-found;
  object_class = refl;
  hash_found = scope-found;
  hash_body = refl;
  entry_value = refl;
  entry_null = entry-null;
  entry_name = entry-name;
}

append_sv_self_scope_example :
    append_sv pure_bson plain_config code_heap 9 empty_stack false nil (102 ∷ []) (rv 0) ≡ stuck
unfolding c_string entry_key
append_sv_self_scope_example =
    append_sv_self_scope pure_bson plain_config code_heap false 0 1 self_scope 9 empty_stack nil
      (102 ∷ []) (102 ∷ []) entry-name

abbrev inflating : Reader
inflating = record plain_reader { inflate_dbrefs = true }

abbrev reference : Fields
reference = field ref_key (leaf (Leaf.utf8 (99 ∷ []))) (
    field (36 ∷ 105 ∷ 100 ∷ []) (leaf (Leaf.int64 (pos 5)))
      (field db_key (leaf (Leaf.utf8 (100 ∷ []))) nil))

abbrev read_reference : Out
read_reference =
    Out.db_ref (Out.string true (99 ∷ [])) (Out.iv (pos 5)) (Out.string true (100 ∷ []))

read-reference : elem_to_sv inflating (document reference) ≡ ok read_reference
unfolding elem_to_sv ◌>>=◌ store fetched
read-reference = refl

elem_to_sv-is_db_ref_example :
    is_db_ref read_reference ≡ true
    ↔ (names reference ≡ ref_key ∷ (36 ∷ 105 ∷ 100 ∷ []) ∷ db_key ∷ []) × (true ≡ true)
elem_to_sv-is_db_ref_example =
    elem_to_sv-is_db_ref inflating reference read_reference read-reference

abbrev begun : Buffer
begun = record { total = 8; used = some 1 ∷ some 2 ∷ some 3 ∷ some 4 ∷ [] }

resize_buf_lem_example :
    (pos_of begun + 100 ≤ (resize_buf begun 100).total)
    × ((resize_buf begun 100).used ≡ begun.used)
    × (begun.total ≤ (resize_buf begun 100).total)
    × ((resize_buf begun 100).total ≤ begun.total + 1048576 + 100)
resize_buf_lem_example = resize_buf_lem begun 100 (omega arith) (omega arith)

writers-Fits_example :
    Fits (serialize_string begun (97 ∷ []))
    × Fits (serialize_int true begun 7)
    × Fits (serialize_long true begun 7)
writers-Fits_example = writers-Fits true begun (97 ∷ []) 7 (omega arith) (omega arith)
