-- ===== src/Tests/Documents.antt =====
-- decode_bson on two documents that encode_bson makes over a library that accepts documents of at
-- most one integer under a name of one byte.
use mongo_perl_driver.Common.{
  ℕ, zero, suc, ◌<◌, ◌≡◌, refl, Bool, true, false, Option, none, some, List, [], ◌∷◌, ◌++◌, length,
  pos, inr, arith,
}
use mongo_perl_driver.Perl.{Bytes, scalar, rv, Heap, hash}
use mongo_perl_driver.Outcome.{ok, ◌>>=◌}
use mongo_perl_driver.Libbson.{
  Libbson, LibbsonLaws, Leaf, Value, Fields, leaf, nil, field, single, ◌⋈◌, document, array,
  code_with_scope, pure_bson,
}
use mongo_perl_driver.Encode.Entries.{PushedId}
use mongo_perl_driver.Encode.Document.{sv_to_bson}
use mongo_perl_driver.Decode.{Out, Entries}
use mongo_perl_driver.Decode.Plain.{Plain, p_hash, p_int, all_stored, store_next}
use mongo_perl_driver.Bson.{decode_bson, encode_bson}
use mongo_perl_driver.Bson.Decoding.{ReadsBack}
use mongo_perl_driver.Bson.RoundTrip.{none_written, written, decode_bson-encode_bson}
use mongo_perl_driver.Tests.Data.{plain_config, plain_reader, integer, named, no_name}

abbrev is_one : Bytes → Value → Bool
is_one (k ∷ []) (leaf (Leaf.int64 (pos n))) = true
is_one _ _ = false

abbrev is_small : Fields → Bool
is_small nil = true
is_small (field k x nil) = is_one k x
is_small (field k x (field _ _ _)) = false

abbrev one_data : Bytes → Value → Bytes
one_data (k ∷ []) (leaf (Leaf.int64 (pos n))) = 1 ∷ k ∷ n ∷ []
one_data _ _ = []

abbrev small_data : Fields → Bytes
small_data nil = 0 ∷ []
small_data (field k x _) = one_data k x

abbrev read_small : Bytes → Option Fields × ℕ
read_small (zero ∷ bytes) = (some nil, 1)
read_small (suc zero ∷ k ∷ n ∷ bytes) = (some (single (k ∷ []) (leaf (Leaf.int64 (pos n)))), 3)
read_small _ = (none, 0)

abbrev small_bson : Libbson
small_bson = record pure_bson { get_data = small_data; accepted = is_small }

is_small-⋈ :
    (b : Fields) (k : Bytes) (x : Value) → is_small (b ⋈ single k x) ≡ true → is_small b ≡ true
is_small-⋈ nil k x h = refl
is_small-⋈ (field k y nil) k' x h = cc
is_small-⋈ (field k y (field l z fs)) k' x h = cc

never_small {ℓ} :
    {C : Type ℓ} (b : Fields) (k : Bytes) (x : Value)
    → is_one k x ≡ false
    → is_small (b ⋈ single k x) ≡ true
    → C
never_small nil k x not_one h = cc
never_small (field k y nil) k' x not_one h = cc
never_small (field k y (field l z fs)) k' x not_one h = cc

is_one-document : (k : Bytes) (c : Fields) → is_one k (document c) ≡ false
is_one-document [] c = refl
is_one-document (k ∷ []) c = refl
is_one-document (k ∷ l ∷ ks) c = refl

is_one-array : (k : Bytes) (c : Fields) → is_one k (array c) ≡ false
is_one-array [] c = refl
is_one-array (k ∷ []) c = refl
is_one-array (k ∷ l ∷ ks) c = refl

is_one-scope : (k s : Bytes) (c : Fields) → is_one k (code_with_scope s c) ≡ false
is_one-scope [] s c = refl
is_one-scope (k ∷ []) s c = refl
is_one-scope (k ∷ l ∷ ks) s c = refl

small_bson_laws : LibbsonLaws small_bson
small_bson_laws = record {
  fields-new = refl;
  accepted-new = refl;
  fields-append = λ b k l h. (is_small-⋈ b k (leaf l) h, refl);
  fields-document_begin = λ b k. refl;
  fields-document_end = λ b k c h.
      (is_small-⋈ b k (document c) h, never_small b k (document c) (is_one-document k c) h, refl);
  fields-array_begin = λ b k. refl;
  fields-array_end =
      λ b k c h. (is_small-⋈ b k (array c) h, never_small b k (array c) (is_one-array k c) h, refl);
  fields-append_code_with_scope = λ b k s c h. (
    is_small-⋈ b k (code_with_scope s c) h,
    never_small b k (code_with_scope s c) (is_one-scope k s c) h,
    refl,
  );
}

one_back :
    (k : Bytes) (x : Value) (rest : Bytes)
    → is_one k x ≡ true
    → (read_small (one_data k x ++ rest) ≡ (some (single k x), length (one_data k x)))
      × (0 < length (one_data k x))
one_back (k ∷ []) (leaf (Leaf.int64 (pos n))) rest h = (refl, omega arith)
one_back k x rest h = cc

small_back :
    (b : Fields) (rest : Bytes)
    → is_small b ≡ true
    → (read_small (small_data b ++ rest) ≡ (some b, length (small_data b)))
      × (0 < length (small_data b))
small_back nil rest h = (refl, omega arith)
small_back (field k x nil) rest h = one_back k x rest h
small_back (field k x (field l y fs)) rest h = cc

abbrev heap : Heap
heap =
    record { blessed = none; body = hash (named 120 (scalar (integer 7)) ∷ []) }
    ∷ record { blessed = none; body = hash [] }
    ∷ []

reads_small : ReadsBack small_bson plain_config heap no_name plain_reader read_small
reads_small = record { at_end = refl; document = small_back }

abbrev one_entry : Entries
one_entry = Entries.entry (120 ∷ []) (Out.iv (pos 7)) Entries.empty

Plain-one : Plain heap true (rv 0) (Out.hash one_entry)
unfolding mongo_perl_driver.Encode.Entries.referent_at
Plain-one =
    p_hash refl refl refl (inr (refl, tt))
      (store_next refl refl (p_int refl refl refl refl) all_stored)

Plain-none : Plain heap true (rv 1) (Out.hash Entries.empty)
unfolding mongo_perl_driver.Encode.Entries.referent_at
Plain-none = p_hash refl refl refl (inr tt) all_stored

accepts_any :
    (ptr : ℕ) (b : Fields) (ids : List PushedId) (b' : Fields) (ids' : List PushedId)
    → is_small b ≡ true
    → sv_to_bson small_bson plain_config heap no_name 3 nil (rv ptr) none ≡ ok (b, ids)
    → sv_to_bson small_bson plain_config heap no_name 3 nil (rv ptr) none ≡ ok (b', ids')
    → is_small b' ≡ true
accepts_any ptr b ids b' ids' small h h' = cc

abbrev one_field : Fields
one_field = single (120 ∷ []) (leaf (Leaf.int64 (pos 7)))

made_one : sv_to_bson small_bson plain_config heap no_name 3 nil (rv 0) none ≡ ok (one_field, [])
unfolding sv_to_bson ◌>>=◌ mongo_perl_driver.Encode.Entries.referent_at
    mongo_perl_driver.Encode.Append.hv_to_bson mongo_perl_driver.Encode.Entries.as_hash
    mongo_perl_driver.Encode.Entries.enter mongo_perl_driver.Encode.Circular.check_circular_ref
    mongo_perl_driver.Encode.Circular.on_stack mongo_perl_driver.Encode.Keys.contains_null_char
    mongo_perl_driver.Encode.Keys.c_string mongo_perl_driver.Encode.Append.append_sv
    mongo_perl_driver.Encode.Keys.clean_key mongo_perl_driver.Encode.Entries.entry_key
    mongo_perl_driver.Encode.Keys.starts_special mongo_perl_driver.Encode.Leaves.scalar_leaf
    mongo_perl_driver.Encode.Leaves.is_value_type mongo_perl_driver.Encode.Leaves.not_int
    mongo_perl_driver.Encode.Leaves.aggressively_number mongo_perl_driver.Encode.Leaves.is_string
    mongo_perl_driver.Encode.Leaves.int_leaf
made_one = refl

made_none : sv_to_bson small_bson plain_config heap no_name 3 nil (rv 1) none ≡ ok (nil, [])
unfolding sv_to_bson ◌>>=◌ mongo_perl_driver.Encode.Entries.referent_at
    mongo_perl_driver.Encode.Append.hv_to_bson mongo_perl_driver.Encode.Entries.as_hash
    mongo_perl_driver.Encode.Entries.enter mongo_perl_driver.Encode.Circular.check_circular_ref
    mongo_perl_driver.Encode.Circular.on_stack
made_none = refl

encode_one : encode_bson small_bson plain_config heap no_name 3 (rv 0) ≡ ok (1 ∷ 120 ∷ 7 ∷ [])
unfolding encode_bson ◌>>=◌
encode_one = rw (made_one)

encode_none : encode_bson small_bson plain_config heap no_name 3 (rv 1) ≡ ok (0 ∷ [])
unfolding encode_bson ◌>>=◌
encode_none = rw (made_none)

decode_bson-encode_bson_example :
    decode_bson plain_reader read_small (1 ∷ 120 ∷ 7 ∷ 0 ∷ [])
    ≡ ok (Out.hash one_entry ∷ Out.hash Entries.empty ∷ [])
decode_bson-encode_bson_example =
    decode_bson-encode_bson small_bson small_bson_laws plain_config heap no_name plain_reader
      read_small refl refl refl refl refl refl reads_small (rv 0 ∷ rv 1 ∷ []) (1 ∷ 120 ∷ 7 ∷ 0 ∷ [])
      (Out.hash one_entry ∷ Out.hash Entries.empty ∷ [])
      (written 3 Plain-one encode_one
        (λ b ids made. accepts_any 0 one_field [] b ids refl made_one made)
        (written 3 Plain-none encode_none
          (λ b ids made. accepts_any 1 nil [] b ids refl made_none made) none_written))
