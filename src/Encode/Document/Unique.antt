-- ===== src/Encode/Document/Unique.antt =====
-- How often "_id" stands in the document of an insert.
use mongo_perl_driver.Common.{
  ℕ, zero, suc, ◌≤◌, ◌≡◌, refl, ◌∙◌, inl, inr, Bool, true, false, Option, none, some, List, [], ◌∷◌,
  arith, if◌then◌else◌, Bool-cases, get_elem?, bytes_eq,
}
use mongo_perl_driver.Perl.{
  Bytes, Sv, rv, HashEntry, IxHash, Referent, Heap, hash, array, tie_ix_hash,
}
use mongo_perl_driver.Outcome.{ok}
use mongo_perl_driver.Libbson.{Libbson, LibbsonLaws, Value, Fields, nil, field}
use mongo_perl_driver.Encode.Keys.{
  Config, c_string, contains, contains_null_char, clean_key, latin1_utf8,
}
use mongo_perl_driver.Encode.Entries.{PushedId, referent_at, id_key, entry_key}
use mongo_perl_driver.Encode.Append.Meaning.{
  HashEncodes, none_left, skip, entry, PairsEncode, end, pair,
}
use mongo_perl_driver.Encode.Document.{sv_to_bson}
use mongo_perl_driver.Encode.Keys.{starts_special, c_string_same, contains_null_char_iff}
use mongo_perl_driver.Encode.Document.Insert.{IdField, made, kept, insert_hash, insert_ix_hash}

-- How often a name stands in a document.
abbrev pub count_name : Bytes → Fields → ℕ
count_name name nil = 0
count_name name (field k v fs) =
    if bytes_eq k name then suc (count_name name fs) else count_name name fs

pub clean_same :
    (config : Config) (i : Bool) (s k : Bytes)
    → config.special_char ≡ none
    → clean_key config i s ≡ ok k
    → k ≡ s
unfolding clean_key starts_special
clean_same config i [] k h e = cc
clean_same config i (c ∷ cs) k h e = ground arith

latin1_clear : (xs : Bytes) → contains xs 0 ≡ false → contains (latin1_utf8 xs) 0 ≡ false
unfolding contains latin1_utf8
latin1_clear [] h = refl
latin1_clear (x ∷ xs) h = ground (arith, latin1_clear xs)

latin1_id : (xs : Bytes) → bytes_eq (latin1_utf8 xs) id_key ≡ true → bytes_eq xs id_key ≡ true
unfolding latin1_utf8
latin1_id [] h = cc
latin1_id (x ∷ []) h = ground arith
latin1_id (x ∷ y ∷ []) h = ground arith
latin1_id (x ∷ y ∷ z ∷ []) h = ground arith
latin1_id (x ∷ y ∷ z ∷ w ∷ ws) h = ground arith

-- The stored name of an entry is "_id" only if its key is.
entry_key_id :
    (e : HashEntry)
    → contains_null_char e.key ≡ ok tt
    → bytes_eq (c_string (entry_key e)) id_key ≡ true
    → bytes_eq e.key id_key ≡ true
unfolding entry_key
entry_key_id e clean h =
    let clear = (contains_null_char_iff e.key).0 clean in
    ground (
      arith,
      latin1_id e.key,
      c_string_same e.key clear,
      c_string_same (latin1_utf8 e.key) (latin1_clear e.key clear),
    )

module _ (api : Libbson) (config : Config) (heap : Heap)
    (plain_keys : config.special_char ≡ none) where
  rest_without_id :
      (es : List HashEntry) (fs : Fields)
      → HashEncodes api config heap true true es fs
      → count_name id_key fs ≡ 0
  rest_without_id es fs none_left = refl
  rest_without_id es fs (skip {es = rest} is_id clean encodes) = rest_without_id rest fs encodes
  rest_without_id es fs
        (entry {e = e} {es = rest} {fs = gs} {k = k} other clean found named encodes others) =
      let stored = clean_same config true (c_string (entry_key e)) k plain_keys named in
      elim (Bool-cases (bytes_eq k id_key)) [
        | inl is_id ↦
            let key_is : bytes_eq e.key id_key ≡ true = entry_key_id e clean (rw stored at is_id) in
            cc
        | inr differs ↦ rw differs (rest_without_id rest gs others)
      ]

  id_name :
      {new_oid : Bytes} {id : Option (Option Sv)} {ids : List PushedId} {k : Bytes} {x : Value}
      → IdField api config heap new_oid id ids k x
      → k ≡ id_key
  id_name made = refl
  id_name (kept {k = k} named encodes) = clean_same config true id_key k plain_keys named

  id_among_keys :
      (n : ℕ) (keys : List (Option Bytes)) (values : List (Option Sv)) (fs : Fields)
      → get_elem? keys n ≡ some (some id_key)
      → PairsEncode api config heap true keys values fs
      → 1 ≤ count_name id_key fs
  id_among_keys n keys values fs h end = cc
  id_among_keys zero keys values fs h
        (pair {key = key} {fs = gs} {k = k} clean named encodes rest) =
      let stored : k ≡ id_key = clean_same config true key k plain_keys named ∙ cc in
      rw stored (omega arith)
  id_among_keys (suc n) keys values fs h
        (pair {keys = keys'} {values = values'} {fs = gs} {k = k} clean named encodes rest) =
      ground (arith, id_among_keys n keys' values' gs h rest)

module _ (api : Libbson) (laws : LibbsonLaws api) (config : Config) (heap : Heap) (fuel : ℕ)
    (plain_keys : config.special_char ≡ none) where
  -- Unless a special character is set, the document that an insert of a hash makes has exactly
  -- one field "_id".
  pub insert_hash_one_id :
      (printed : ℕ → Bytes) (ptr : ℕ) (new_oid : Bytes) (r : Referent) (hv : List HashEntry)
      (out : api.Bson × List PushedId)
      → referent_at heap ptr ≡ ok r
      → r.body ≡ hash hv
      → sv_to_bson api config heap printed fuel api.bson_new (rv ptr) (some new_oid) ≡ ok out
      → api.accepted out.0 ≡ true
      → count_name id_key (api.fields out.0) ≡ 1
  insert_hash_one_id printed ptr new_oid r hv out at body h all =
      let (rest, encodes, whole) =
        insert_hash api laws config heap fuel printed ptr new_oid r hv out at body h all in
      let name = id_name api config heap plain_keys whole.id_field in
      let none_more = rest_without_id api config heap plain_keys hv rest encodes in
      rw (whole.contents, name, none_more)

  -- A Tie::IxHash that has the key "_id" is inserted with that field twice at least.
  pub insert_ix_hash_two_ids :
      (printed : ℕ → Bytes) (ptr : ℕ) (new_oid : Bytes) (r : Referent) (ix : IxHash)
      (av : List (Option Sv)) (n : ℕ) (out : api.Bson × List PushedId)
      → referent_at heap ptr ≡ ok r
      → r.blessed ≡ some (tie_ix_hash ix)
      → r.body ≡ array av
      → get_elem? ix.keys n ≡ some (some id_key)
      → sv_to_bson api config heap printed fuel api.bson_new (rv ptr) (some new_oid) ≡ ok out
      → api.accepted out.0 ≡ true
      → 2 ≤ count_name id_key (api.fields out.0)
  insert_ix_hash_two_ids printed ptr new_oid r ix av n out at class body key h all =
      let (rest, encodes, whole) =
        insert_ix_hash api laws config heap fuel printed ptr new_oid r ix av out at class body h
          all in
      let name = id_name api config heap plain_keys whole.id_field in
      let again = id_among_keys api config heap plain_keys n ix.keys ix.values rest key encodes in
      rw (whole.contents, name) (omega arith)
