-- ===== src/Encode/Append/Names.antt =====
-- The names that an insert stores, at every depth of the document.
use mongo_perl_driver.Common.{ℕ, ◌≡◌, ◌≢◌, Bool, true, false, [], ◌∷◌, arith}
use mongo_perl_driver.Perl.{Bytes, Sv, Heap}
use mongo_perl_driver.Outcome.{ok}
use mongo_perl_driver.Libbson.{
  Libbson, LibbsonLaws, Value, Fields, leaf, document, code_with_scope, nil, field, single,
}
use mongo_perl_driver.Encode.Keys.{Config, contains, clean_key}
use mongo_perl_driver.Encode.Circular.{Stack}
use mongo_perl_driver.Encode.Append.{append_sv}
use mongo_perl_driver.Encode.Append.Meaning.{
  Encodes, undefined, defined, Stands, of_scalar, of_magic, of_oid, of_object, of_bytes, of_hash,
  of_array, of_ix_hash, of_db_ref, of_code, HashEncodes, none_left, skip, entry, ArrayEncodes,
  no_more, hole, element, PairsEncode, end, pair,
}
use mongo_perl_driver.Encode.Append.Sound.{Grows}
use mongo_perl_driver.Encode.Append.Faithful.{append_sv-Sound}

-- A name that is not empty and has no dot.
abbrev pub IsStorable : Bytes → Type 0
IsStorable name = (name ≢ []) × (contains name 46 ≡ false)

mutual
  -- All names inside a value, and those of fields and of what is inside them, are such.
  pub data WellNamed : Value → Type 0 where
    in_leaf : {l : _} → WellNamed (leaf l)
    in_document : {fs : Fields} → AllNamed fs → WellNamed (document fs)
    in_array : {fs : Fields} → AllNamed fs → WellNamed (Value.array fs)
    in_scope : {str : Bytes} {fs : Fields} → AllNamed fs → WellNamed (code_with_scope str fs)

  pub data AllNamed : Fields → Type 0 where
    no_field : AllNamed nil
    one_more :
        {name : Bytes} {x : Value} {fs : Fields}
        → IsStorable name
        → WellNamed x
        → AllNamed fs
        → AllNamed (field name x fs)

clean_key-IsStorable :
    (config : Config) (key name : Bytes) → clean_key config true key ≡ ok name → IsStorable name
unfolding clean_key contains
clean_key-IsStorable config [] name h = cc
clean_key-IsStorable config (c ∷ cs) name h = ground arith

module _ (api : Libbson) (config : Config) (heap : Heap) where
  mutual
    Encodes-WellNamed : {v : Sv} {x : Value} → Encodes api config heap true v x → WellNamed x
    Encodes-WellNamed (undefined e) = in_leaf
    Encodes-WellNamed (defined e s) = Stands-WellNamed s

    Stands-WellNamed : {v : Sv} {x : Value} → Stands api config heap true v x → WellNamed x
    Stands-WellNamed (of_scalar e) = in_leaf
    Stands-WellNamed (of_magic s) = Stands-WellNamed s
    Stands-WellNamed (of_oid e f) = in_leaf
    Stands-WellNamed (of_object e f g h) = in_leaf
    Stands-WellNamed (of_bytes e f g h i) = in_leaf
    Stands-WellNamed (of_hash e f g es) = in_document (HashEncodes-AllNamed es)
    Stands-WellNamed (of_array e f g es) = in_array (ArrayEncodes-AllNamed es)
    Stands-WellNamed (of_ix_hash e f es) = in_document (PairsEncode-AllNamed es)
    Stands-WellNamed (of_db_ref e f g h es) = in_document (PairsEncode-AllNamed es)
    Stands-WellNamed (of_code e f g h es) = in_scope (HashEncodes-AllNamed es)

    HashEncodes-AllNamed :
        {ids : Bool} {es : _} {fs : Fields}
        → HashEncodes api config heap true ids es fs
        → AllNamed fs
    HashEncodes-AllNamed none_left = no_field
    HashEncodes-AllNamed (skip e f es) = HashEncodes-AllNamed es
    HashEncodes-AllNamed (entry e f g named x es) =
        one_more (clean_key-IsStorable config _ _ named) (Encodes-WellNamed x)
          (HashEncodes-AllNamed es)

    ArrayEncodes-AllNamed :
        {i : ℕ} {av : _} {fs : Fields} → ArrayEncodes api config heap true i av fs → AllNamed fs
    ArrayEncodes-AllNamed no_more = no_field
    ArrayEncodes-AllNamed (hole named x es) =
        one_more (clean_key-IsStorable config _ _ named) (Encodes-WellNamed x)
          (ArrayEncodes-AllNamed es)
    ArrayEncodes-AllNamed (element named x es) =
        one_more (clean_key-IsStorable config _ _ named) (Encodes-WellNamed x)
          (ArrayEncodes-AllNamed es)

    PairsEncode-AllNamed :
        {keys : _} {values : _} {fs : Fields}
        → PairsEncode api config heap true keys values fs
        → AllNamed fs
    PairsEncode-AllNamed end = no_field
    PairsEncode-AllNamed (pair e named x es) =
        one_more (clean_key-IsStorable config _ _ named) (Encodes-WellNamed x)
          (PairsEncode-AllNamed es)

  -- When append_sv succeeds on an insert and libbson has accepted every append, the document has
  -- grown by one field, and the names of this field and of all fields inside it, at any depth, are
  -- not empty and have no dot.
  pub append_sv-AllNamed :
      (laws : LibbsonLaws api) (fuel : ℕ) (stack : Stack) (b : api.Bson) (key : Bytes) (sv : Sv)
      (b' : api.Bson)
      → append_sv api config heap fuel stack true b key sv ≡ ok b'
      → (name : Bytes) × (value : Value) × Grows api config heap b b' (single name value)
        × AllNamed (single name value)
  append_sv-AllNamed laws fuel stack b key sv b' h =
      let added = append_sv-Sound api laws config heap fuel stack true b key sv b' h in
      (
        added.name,
        added.value,
        added.grows,
        one_more (clean_key-IsStorable config key added.name added.named)
            (Encodes-WellNamed added.encodes) no_field,
      )
