-- ===== src/Encode/Append/Diverges.antt =====
-- A MongoDB::Code object inside its own scope: the scope is encoded on an empty stack.
use mongo_perl_driver.Common.{ℕ, zero, suc, ◌≡◌, refl, Bool, none, some, List, [], ◌∷◌}
use mongo_perl_driver.Perl.{Bytes, rv, HashEntry, Referent, Heap, hash, code}
use mongo_perl_driver.Outcome.{ok, stuck, ◌>>=◌}
use mongo_perl_driver.Libbson.{Libbson}
use mongo_perl_driver.Encode.Keys.{Config, c_string, contains_null_char, clean_key}
use mongo_perl_driver.Encode.Circular.{Stack, empty_stack, check_circular_ref, on_stack}
use mongo_perl_driver.Encode.Append.{
  Appender, hv_entry, hv_loop, put_ids, hv_to_bson, append_object, append_referent, append_defined,
  append_value, append_body, append_sv,
}
use mongo_perl_driver.Encode.Entries.{referent_at, as_hash, enter, entry_key}

-- The hash at `scope` has, as its first entry, a reference to the code object at `obj`, whose
-- scope it is; the names on the way are good.
pub record SelfScope (config : Config) (heap : Heap) (is_insert : Bool) (obj scope : ℕ)
    : Type 0 where
  pub object : Referent
  pub hash_at : Referent
  pub str : Bytes
  pub entry : HashEntry
  pub rest : List HashEntry
  pub name : Bytes
  pub object_found : referent_at heap obj ≡ ok object
  pub object_class : object.blessed ≡ some (code str (some scope))
  pub hash_found : referent_at heap scope ≡ ok hash_at
  pub hash_body : hash_at.body ≡ hash (entry ∷ rest)
  pub entry_value : entry.fetched ≡ some (rv obj)
  pub entry_null : contains_null_char entry.key ≡ ok tt
  pub entry_name : clean_key config is_insert (c_string (entry_key entry)) ≡ ok name

module _ (api : Libbson) (config : Config) (heap : Heap) (is_insert : Bool) (obj scope : ℕ)
    (self : SelfScope config heap is_insert obj scope) where
  open self use {
    object, hash_at, str, entry, rest, name, object_found, object_class, hash_found, hash_body,
    entry_value, entry_null, entry_name,
  }

  entry_stuck :
      (rec : Appender api config heap) (stack : Stack)
      → rec stack is_insert api.bson_new (c_string (entry_key entry)) (rv obj) ≡ stuck
      → hv_entry api config heap rec stack is_insert api.bson_new entry ≡ stuck
  unfolding hv_entry
  entry_stuck rec stack again = rw (entry_value, hv_entry) again

  -- hv_to_bson on the scope comes to append_sv on the object again.
  scope_stuck :
      (rec : Appender api config heap)
      → ((stack : Stack)
          → rec stack is_insert api.bson_new (c_string (entry_key entry)) (rv obj) ≡ stuck)
      → hv_to_bson api config heap rec api.bson_new scope none empty_stack is_insert ≡ stuck
  unfolding hv_to_bson ◌>>=◌ enter check_circular_ref on_stack as_hash put_ids hv_loop
  scope_stuck rec again =
      simp (hash_found, hash_body, entry_null, entry_stuck rec (scope ∷ []) (again (scope ∷ [])))

  object_stuck :
      (rec : Appender api config heap) (stack : Stack) (b : api.Bson) (key : Bytes)
      → ((stack : Stack)
          → rec stack is_insert api.bson_new (c_string (entry_key entry)) (rv obj) ≡ stuck)
      → append_defined api config heap rec stack is_insert b key (rv obj) ≡ stuck
  unfolding append_defined append_referent append_object ◌>>=◌
  object_stuck rec stack b key again = simp (object_found, object_class, scope_stuck rec again)

  -- The code object is encoded by encoding its scope, and so on: no amount of fuel is enough for
  -- append_sv on a MongoDB::Code object that its own scope contains. No circle is found, since
  -- the scope starts on EMPTY_STACK.
  pub append_sv_self_scope :
      (fuel : ℕ) (stack : Stack) (b : api.Bson) (in_key key : Bytes)
      → clean_key config is_insert in_key ≡ ok key
      → append_sv api config heap fuel stack is_insert b in_key (rv obj) ≡ stuck
  unfolding append_sv append_body append_value ◌>>=◌
  append_sv_self_scope zero stack b in_key key named = refl
  append_sv_self_scope (suc fuel) stack b in_key key named = simp (
    named,
    object_stuck (append_sv api config heap fuel) stack b key (λ stack'.
        append_sv_self_scope fuel stack' api.bson_new (c_string (entry_key entry)) name entry_name),
  )
