-- ===== src/Encode/Append/Faithful.antt =====
-- The branches of append_sv, and append_sv itself.
use mongo_perl_driver.Common.{
  ℕ, zero, suc, ◌≡◌, refl, inl, inr, Bool, true, false, Option, none, some, List, arith,
  if◌then◌else◌, Bool-cases, if_true, if_false,
}
use mongo_perl_driver.Perl.{
  Bytes, Scalar, Sv, scalar, rv, magical, HashEntry, Body, Class, Referent, Heap, hash, array,
  plain, other_body, oid, tie_ix_hash, db_ref, code,
}
use mongo_perl_driver.Outcome.{ok, croak, >>=-eq-ok, unhandled_ref}
use mongo_perl_driver.Libbson.{Libbson, LibbsonLaws, Leaf, Value, leaf, document, code_with_scope}
use mongo_perl_driver.Encode.Keys.{Config, c_string, clean_key}
use mongo_perl_driver.Encode.Circular.{Stack, empty_stack}
use mongo_perl_driver.Encode.Leaves.{serialize_binary, object_leaf}
use mongo_perl_driver.Encode.Append.{
  Appender, hv_to_bson, av_to_bson, append_ixhash, append_leaf, append_object, append_unblessed,
  append_referent, append_defined, append_value, append_body, append_sv,
}
use mongo_perl_driver.Encode.Entries.{referent_at, as_hash, enter, is_pv}
use mongo_perl_driver.Encode.Append.Meaning.{
  is_undefined, is_leaf_class, undefined, defined, of_scalar, of_magic, of_oid, of_object, of_bytes,
  of_hash, of_array, of_ix_hash, of_db_ref, of_code,
}
use mongo_perl_driver.Encode.Append.Sound.{Adds, Sound, av_loop_sound}
use mongo_perl_driver.Encode.Append.Correct.{
  Puts, append_grows, document_grows, array_grows, scope_grows, append_leaf_sound,
  append_ixhash_sound, hash_sound,
}

same_referent :
    (heap : Heap) (ptr : ℕ) (r o : Referent)
    → referent_at heap ptr ≡ ok r
    → referent_at heap ptr ≡ ok o
    → r ≡ o
same_referent heap ptr r o h k = cc

hash_of : (body : Body) (hv : List HashEntry) → as_hash body ≡ ok hv → body ≡ hash hv
unfolding as_hash
hash_of (hash es) hv h = cc
hash_of _ hv h = cc

module _ (api : Libbson) (laws : LibbsonLaws api) (config : Config) (heap : Heap)
    (rec : Appender api config heap) (sound : Sound api config heap rec) where
  open api use {Bson, bson_new, append, document_begin, array_begin, oid_from_string}

  abbrev Put : Bool → Bytes → Sv → Bson → Bson → Type 0
  Put = Puts api laws config heap

  ixhash_puts :
      (stack : Stack) (i : Bool) (b : Bson) (key : Bytes) (ptr : ℕ) (b' : Bson)
      → append_ixhash api config heap rec stack i b key ptr ≡ ok b'
      → Put i key (rv ptr) b b'
  ixhash_puts stack i b key ptr b' h =
      let (r, ix, fs, at, class, encodes, grows) =
        append_ixhash_sound api laws config heap rec sound stack i b key ptr b' h in
      record { value = document fs; stands = of_ix_hash at class encodes; grows = grows }

  leaf_puts :
      (i : Bool) (b : Bson) (key : Bytes) (ptr : ℕ) (r : Referent) (class : Class) (b' : Bson)
      → referent_at heap ptr ≡ ok r
      → r.blessed ≡ some class
      → is_leaf_class class ≡ true
      → append_leaf api config heap rec b key (object_leaf config r.body class) ≡ ok b'
      → Put i key (rv ptr) b b'
  leaf_puts i b key ptr r class b' at is simple h =
      let (x, made, grows) = append_leaf_sound api laws config heap rec sound b key _ b' h in
      record { value = leaf x; stands = of_object at is simple made; grows = grows }

  append_object_puts :
      (stack : Stack) (i : Bool) (b : Bson) (key : Bytes) (ptr : ℕ) (r : Referent) (class : Class)
      (b' : Bson)
      → referent_at heap ptr ≡ ok r
      → r.blessed ≡ some class
      → append_object api config heap rec stack i b key ptr r.body class ≡ ok b'
      → Put i key (rv ptr) b b'
  unfolding append_object
  append_object_puts stack i b key ptr r (oid str) b' at is h = record {
    value = leaf (Leaf.oid (oid_from_string (c_string str)));
    stands = of_oid at is;
    grows = append_grows api laws config heap b b' key _ h;
  }
  append_object_puts stack i b key ptr r (tie_ix_hash ix) b' at is h =
      ixhash_puts stack i b key ptr b' h
  append_object_puts stack i b key ptr r (db_ref ordered) b' at is h =
      let (o, ix, fs, found, class, encodes, grows) =
        append_ixhash_sound api laws config heap rec sound stack i b key ordered b' h in
      record { value = document fs; stands = of_db_ref at is found class encodes; grows = grows }
  append_object_puts stack i b key ptr r (code str (some scope)) b' at is h =
      let (out, call, done) =
        >>=-eq-ok (hv_to_bson api config heap rec bson_new scope none empty_stack i) _ h in
      let (o, hv, fs, found, body, encodes, grows) =
        hash_sound api laws config heap rec sound bson_new scope empty_stack i out call in
      record {
        value = code_with_scope (c_string str) fs;
        stands = of_code at is found body encodes;
        grows = scope_grows api laws config heap b out.0 b' key (c_string str) fs grows done;
      }
  append_object_puts stack i b key ptr r (code str none) b' at is h =
      leaf_puts i b key ptr r (code str none) b' at is refl h
  append_object_puts stack i b key ptr r class b' at is h =
      leaf_puts i b key ptr r class b' at is refl h

  Adds-of :
      (i : Bool) (in_key key : Bytes) (sv : Sv) (b b' : Bson)
      → is_undefined sv ≡ false
      → clean_key config i in_key ≡ ok key
      → Put i key sv b b'
      → Adds api config heap i in_key sv b b'
  Adds-of i in_key key sv b b' is_defined named put = record {
    name = key;
    value = put.value;
    named = named;
    encodes = defined is_defined put.stands;
    grows = put.grows;
  }

  bytes_leaf :
      (s : Scalar) (x : Leaf)
      → (if is_pv s.sv_type then serialize_binary 0 s else croak unhandled_ref) ≡ ok x
      → (is_pv s.sv_type ≡ true) × (serialize_binary 0 s ≡ ok x)
  bytes_leaf s x h = ground arith

  append_unblessed_puts :
      (stack : Stack) (i : Bool) (b : Bson) (key : Bytes) (ptr : ℕ) (r : Referent) (body : Body)
      (b' : Bson)
      → referent_at heap ptr ≡ ok r
      → r.blessed ≡ none
      → r.body ≡ body
      → append_unblessed api config heap rec stack i b key ptr body ≡ ok b'
      → Put i key (rv ptr) b b'
  unfolding append_unblessed as_hash
  append_unblessed_puts stack i b key ptr r (hash hv) b' at is body h =
      let (out, call, done) =
        >>=-eq-ok (hv_to_bson api config heap rec (document_begin b key) ptr none stack i) _ h in
      let (o, hv', fs, found, body', encodes, grows) =
        hash_sound api laws config heap rec sound (document_begin b key) ptr stack i out call in
      let same = same_referent heap ptr r o at found in
      record {
        value = document fs;
        stands = of_hash found (rw same at is) (hash_of o.body hv' body') encodes;
        grows = document_grows api laws config heap b out.0 b' key fs grows done;
      }
  append_unblessed_puts stack i b key ptr r (array av) b' at is body h =
      let (child, call, done) =
        >>=-eq-ok (av_to_bson api config heap rec (array_begin b key) ptr av stack i) _ h in
      let (stack', pushed, loop) = >>=-eq-ok (enter ptr stack) _ (unfold av_to_bson in call) in
      let (fs, encodes, grows) =
        av_loop_sound api config heap rec sound stack' i (array_begin b key) 0 av child loop in
      record {
        value = Value.array fs;
        stands = of_array at is body encodes;
        grows = array_grows api laws config heap b child b' key fs grows done;
      }
  append_unblessed_puts stack i b key ptr r (plain s) b' at is body h =
      let (x, made, grows) = append_leaf_sound api laws config heap rec sound b key _ b' h in
      let (pv, bytes) = bytes_leaf s x made in
      record { value = leaf x; stands = of_bytes at is body pv bytes; grows = grows }
  append_unblessed_puts stack i b key ptr r (other_body t) b' at is body h = cc

  append_referent_puts :
      (stack : Stack) (i : Bool) (b : Bson) (key : Bytes) (ptr : ℕ) (r : Referent)
      (class : Option Class) (b' : Bson)
      → referent_at heap ptr ≡ ok r
      → r.blessed ≡ class
      → append_referent api config heap rec stack i b key ptr r.body class ≡ ok b'
      → Put i key (rv ptr) b b'
  unfolding append_referent
  append_referent_puts stack i b key ptr r none b' at is h =
      append_unblessed_puts stack i b key ptr r r.body b' at is refl h
  append_referent_puts stack i b key ptr r (some class) b' at is h =
      append_object_puts stack i b key ptr r class b' at is h

  append_defined_puts :
      (stack : Stack) (i : Bool) (b : Bson) (key : Bytes) (sv : Sv) (b' : Bson)
      → append_defined api config heap rec stack i b key sv ≡ ok b'
      → Put i key sv b b'
  unfolding append_defined
  append_defined_puts stack i b key (scalar s) b' h =
      let (x, made, grows) = append_leaf_sound api laws config heap rec sound b key _ b' h in
      record { value = leaf x; stands = of_scalar made; grows = grows }
  append_defined_puts stack i b key (magical v) b' h =
      let put = append_defined_puts stack i b key v b' h in
      record { value = put.value; stands = of_magic put.stands; grows = put.grows }
  append_defined_puts stack i b key (rv ptr) b' h =
      let (r, at, call) = >>=-eq-ok (referent_at heap ptr) _ h in
      append_referent_puts stack i b key ptr r r.blessed b' at refl call

  append_value-Adds :
      (stack : Stack) (i : Bool) (b : Bson) (in_key key : Bytes) (sv : Sv) (b' : Bson)
      → clean_key config i in_key ≡ ok key
      → append_value api config heap rec stack i b key sv ≡ ok b'
      → Adds api config heap i in_key sv b b'
  unfolding append_value
  append_value-Adds stack i b in_key key (scalar s) b' named h = elim (Bool-cases s.defined) [
    | inl is_defined ↦
        Adds-of i in_key key (scalar s) b b' (rw is_defined) named
          (append_defined_puts stack i b key (scalar s) b' (if_true _ _ _ _ is_defined h))
    | inr is_undef ↦ record {
      name = key;
      value = leaf Leaf.null;
      named = named;
      encodes = undefined is_undef;
      grows = append_grows api laws config heap b b' key Leaf.null (if_false _ _ _ _ is_undef h);
    }
  ]
  append_value-Adds stack i b in_key key (magical v) b' named h =
      Adds-of i in_key key (magical v) b b' refl named
        (append_defined_puts stack i b key (magical v) b' h)
  append_value-Adds stack i b in_key key (rv ptr) b' named h =
      Adds-of i in_key key (rv ptr) b b' refl named
        (append_defined_puts stack i b key (rv ptr) b' h)

  append_body-Adds :
      (stack : Stack) (i : Bool) (b : Bson) (in_key : Bytes) (sv : Sv) (b' : Bson)
      → append_body api config heap rec stack i b in_key sv ≡ ok b'
      → Adds api config heap i in_key sv b b'
  unfolding append_body
  append_body-Adds stack i b in_key sv b' h =
      let (key, named, call) = >>=-eq-ok (clean_key config i in_key) _ h in
      append_value-Adds stack i b in_key key sv b' named call

-- When append_sv succeeds and libbson has accepted every append, the document has grown by one
-- field: its name is the cleaned one, and its value stands for the given Perl value, with the
-- entries of nested hashes, arrays and Tie::IxHashes in their order.
pub append_sv-Sound :
    (api : Libbson) (laws : LibbsonLaws api) (config : Config) (heap : Heap) (fuel : ℕ)
    → Sound api config heap (append_sv api config heap fuel)
unfolding append_sv
append_sv-Sound api laws config heap zero stack i b key sv b' h = cc
append_sv-Sound api laws config heap (suc fuel) stack i b key sv b' h =
    append_body-Adds api laws config heap (append_sv api config heap fuel)
      (append_sv-Sound api laws config heap fuel) stack i b key sv b' h
