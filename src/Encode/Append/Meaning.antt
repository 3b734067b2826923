-- ===== src/Encode/Append/Meaning.antt =====
-- What a Perl value is stored as, said without the builder, the stack and the recursion depth:
-- the field values of the document, in the order of the entries that they come from.
use mongo_perl_driver.Common.{
  ℕ, ◌+◌, ◌≡◌, Bool, true, false, not, ◌&&◌, Option, none, some, List, [], ◌∷◌, bytes_eq,
}
use mongo_perl_driver.Perl.{
  Bytes, Scalar, Sv, scalar, rv, magical, HashEntry, IxHash, Class, Referent, Heap, hash, array,
  plain, oid, tie_ix_hash, db_ref, code,
}
use mongo_perl_driver.Outcome.{ok}
use mongo_perl_driver.Libbson.{
  Libbson, Leaf, Value, Fields, leaf, document, code_with_scope, nil, field,
}
use mongo_perl_driver.Encode.Keys.{Config, c_string, contains_null_char, clean_key}
use mongo_perl_driver.Encode.Leaves.{serialize_binary, object_leaf, scalar_leaf}
use mongo_perl_driver.Encode.Entries.{
  referent_at, as_hash, as_ix_hash, index_key, undef, is_pv, id_key, entry_key,
}

-- The classes whose branch appends one value with no document inside, OIDs apart.
abbrev pub is_leaf_class : Class → Bool
is_leaf_class (oid str) = false
is_leaf_class (tie_ix_hash ix) = false
is_leaf_class (db_ref ordered) = false
is_leaf_class (code str (some scope)) = false
is_leaf_class _ = true

-- A value that append_sv finds undefined; it looks at a magical one again.
abbrev pub is_undefined : Sv → Bool
is_undefined (scalar s) = not s.defined
is_undefined _ = false

module _ (api : Libbson) (config : Config) (heap : Heap) (is_insert : Bool) where
  mutual
    -- Values as append_sv stores them, and those that are known to be defined.
    pub data Encodes : Sv → Value → Type 0 where
      undefined : {s : Scalar} → s.defined ≡ false → Encodes (scalar s) (leaf Leaf.null)
      defined : {v : Sv} {x : Value} → is_undefined v ≡ false → Stands v x → Encodes v x

    pub data Stands : Sv → Value → Type 0 where
      of_scalar : {s : Scalar} {l : Leaf} → scalar_leaf config s ≡ ok l → Stands (scalar s) (leaf l)
      of_magic : {v : Sv} {x : Value} → Stands v x → Stands (magical v) x
      of_oid :
          {p : ℕ} {r : Referent} {str : Bytes}
          → referent_at heap p ≡ ok r
          → r.blessed ≡ some (oid str)
          → Stands (rv p) (leaf (Leaf.oid (api.oid_from_string (c_string str))))
      of_object :
          {p : ℕ} {r : Referent} {class : Class} {l : Leaf}
          → referent_at heap p ≡ ok r
          → r.blessed ≡ some class
          → is_leaf_class class ≡ true
          → object_leaf config r.body class ≡ ok l
          → Stands (rv p) (leaf l)
      of_bytes :
          {p : ℕ} {r : Referent} {s : Scalar} {l : Leaf}
          → referent_at heap p ≡ ok r
          → r.blessed ≡ none
          → r.body ≡ plain s
          → is_pv s.sv_type ≡ true
          → serialize_binary 0 s ≡ ok l
          → Stands (rv p) (leaf l)
      of_hash :
          {p : ℕ} {r : Referent} {hv : List HashEntry} {fs : Fields}
          → referent_at heap p ≡ ok r
          → r.blessed ≡ none
          → r.body ≡ hash hv
          → HashEncodes false hv fs
          → Stands (rv p) (document fs)
      of_array :
          {p : ℕ} {r : Referent} {av : List (Option Sv)} {fs : Fields}
          → referent_at heap p ≡ ok r
          → r.blessed ≡ none
          → r.body ≡ array av
          → ArrayEncodes 0 av fs
          → Stands (rv p) (Value.array fs)
      of_ix_hash :
          {p : ℕ} {r : Referent} {ix : IxHash} {fs : Fields}
          → referent_at heap p ≡ ok r
          → as_ix_hash r.blessed ≡ ok ix
          → PairsEncode ix.keys ix.values fs
          → Stands (rv p) (document fs)
      of_db_ref :
          {p q : ℕ} {r : Referent} {ordered : Referent} {ix : IxHash} {fs : Fields}
          → referent_at heap p ≡ ok r
          → r.blessed ≡ some (db_ref q)
          → referent_at heap q ≡ ok ordered
          → as_ix_hash ordered.blessed ≡ ok ix
          → PairsEncode ix.keys ix.values fs
          → Stands (rv p) (document fs)
      of_code :
          {p q : ℕ} {r : Referent} {scope : Referent} {str : Bytes} {hv : List HashEntry}
          {fs : Fields}
          → referent_at heap p ≡ ok r
          → r.blessed ≡ some (code str (some q))
          → referent_at heap q ≡ ok scope
          → as_hash scope.body ≡ ok hv
          → HashEncodes false hv fs
          → Stands (rv p) (code_with_scope (c_string str) fs)

    -- The entries of a hash; with a list of ids the entry "_id" is left out.
    pub data HashEncodes : Bool → List HashEntry → Fields → Type 0 where
      none_left : {ids : Bool} → HashEncodes ids [] nil
      skip :
          {ids : Bool} {e : HashEntry} {es : List HashEntry} {fs : Fields}
          → (ids && bytes_eq e.key id_key) ≡ true
          → contains_null_char e.key ≡ ok tt
          → HashEncodes ids es fs
          → HashEncodes ids (e ∷ es) fs
      entry :
          {ids : Bool} {e : HashEntry} {es : List HashEntry} {fs : Fields} {v : Sv} {k : Bytes}
          {x : Value}
          → (ids && bytes_eq e.key id_key) ≡ false
          → contains_null_char e.key ≡ ok tt
          → e.fetched ≡ some v
          → clean_key config is_insert (c_string (entry_key e)) ≡ ok k
          → Encodes v x
          → HashEncodes ids es fs
          → HashEncodes ids (e ∷ es) (field k x fs)

    -- The elements of an array, under their indices.
    pub data ArrayEncodes : ℕ → List (Option Sv) → Fields → Type 0 where
      no_more : {i : ℕ} → ArrayEncodes i [] nil
      hole :
          {i : ℕ} {av : List (Option Sv)} {fs : Fields} {k : Bytes} {x : Value}
          → clean_key config is_insert (index_key i) ≡ ok k
          → Encodes undef x
          → ArrayEncodes (i + 1) av fs
          → ArrayEncodes i (none ∷ av) (field k x fs)
      element :
          {i : ℕ} {v : Sv} {av : List (Option Sv)} {fs : Fields} {k : Bytes} {x : Value}
          → clean_key config is_insert (index_key i) ≡ ok k
          → Encodes v x
          → ArrayEncodes (i + 1) av fs
          → ArrayEncodes i (some v ∷ av) (field k x fs)

    -- The keys of a Tie::IxHash with their values.
    pub data PairsEncode : List (Option Bytes) → List (Option Sv) → Fields → Type 0 where
      end : {values : List (Option Sv)} → PairsEncode [] values nil
      pair :
          {key : Bytes} {keys : List (Option Bytes)} {v : Sv} {values : List (Option Sv)}
          {fs : Fields} {k : Bytes} {x : Value}
          → contains_null_char key ≡ ok tt
          → clean_key config is_insert key ≡ ok k
          → Encodes v x
          → PairsEncode keys values fs
          → PairsEncode (some key ∷ keys) (some v ∷ values) (field k x fs)
