-- ===== src/Encode/Document/Insert.antt =====
-- Inserts: where "_id" stands in the document, and what is put on the list of ids.
use mongo_perl_driver.Common.{ℕ, ◌≡◌, refl, sym, ap, ◌∙◌, true, Option, none, some, List, [], ◌∷◌}
use mongo_perl_driver.Perl.{
  Bytes, Sv, rv, HashEntry, IxHash, Referent, Heap, hash, array, tie_ix_hash,
}
use mongo_perl_driver.Outcome.{Outcome, ok, >>=-eq-ok}
use mongo_perl_driver.Libbson.{Libbson, LibbsonLaws, Leaf, Value, Fields, leaf, field, single}
use mongo_perl_driver.Encode.Keys.{Config, clean_key}
use mongo_perl_driver.Encode.Circular.{Stack, empty_stack}
use mongo_perl_driver.Encode.Append.{
  Appender, put_id, put_ids, hv_to_bson, ixhash_to_bson, append_sv, perl_mongo_prep,
}
use mongo_perl_driver.Encode.Entries.{
  PushedId, given, generated, find_id, referent_at, as_hash, as_ix_hash, ix_id, id_key,
}
use mongo_perl_driver.Encode.Append.Meaning.{Encodes, HashEncodes, PairsEncode}
use mongo_perl_driver.Encode.Append.Sound.{Grows, Grows-trans}
use mongo_perl_driver.Encode.Append.Containers.{hv_to_bson_run, ixhash_to_bson_run}
use mongo_perl_driver.Encode.Document.{sv_to_bson_body, sv_to_bson}
use mathlib.Core.Path.{subst}
use mongo_perl_driver.Encode.Append.Correct.{append_grows}
use mongo_perl_driver.Encode.Append.Faithful.{append_sv-Sound}

-- The field that is put first on an insert, from what the document has under "_id": the value
-- given there, or a new OID; and the list of ids.
pub data IdField (api : Libbson) (config : Config) (heap : Heap) (new_oid : Bytes)
    : Option (Option Sv) → List PushedId → Bytes → Value → Type 0 where
  made :
      IdField api config heap new_oid none (generated new_oid ∷ []) id_key (leaf (Leaf.oid new_oid))
  kept :
      {v : Sv} {k : Bytes} {x : Value}
      → clean_key config true id_key ≡ ok k
      → Encodes api config heap true v x
      → IdField api config heap new_oid (some (some v)) (given v ∷ []) k x

same_entries :
    (r o : Referent) (es hv : List HashEntry)
    → ◌≡◌ {A = Outcome Referent} (ok r) (ok o)
    → as_hash r.body ≡ ok es
    → o.body ≡ hash hv
    → es ≡ hv
unfolding as_hash
same_entries r o es hv e h body =
    let same : r ≡ o = cc in
    let there : as_hash o.body ≡ ok es = subst (λ (q : Referent). as_hash q.body ≡ ok es) same h in
    ok_inj es hv (sym there ∙ ap as_hash body)
  where
    ok_inj : (es hv : List HashEntry) → ◌≡◌ {A = Outcome (List HashEntry)} (ok es) (ok hv) → es ≡ hv
    ok_inj es hv e = cc

module _ (api : Libbson) (laws : LibbsonLaws api) (config : Config) (heap : Heap) (fuel : ℕ) where
  open api use {Bson, bson_new, append, fields, accepted}

  abbrev encoder : Appender api config heap
  encoder = append_sv api config heap fuel

  record IdPut (new_oid : Bytes) (id : Option (Option Sv)) (b : Bson) (p : Bson × List PushedId)
      : Type 0 where
    name : Bytes
    value : Value
    id_field : IdField api config heap new_oid id p.1 name value
    grows : Grows api config heap b p.0 (single name value)

  put_ids_put :
      (stack : Stack) (new_oid : Bytes) (b : Bson) (id : Option (Option Sv))
      (p : Bson × List PushedId)
      → put_ids api config heap encoder stack true (some new_oid) b id ≡ ok p
      → IdPut new_oid id b p
  unfolding put_ids put_id perl_mongo_prep
  put_ids_put stack new_oid b none p h =
      subst (λ q. IdPut new_oid none b q) (cc)
        (record {
          name = id_key;
          value = leaf (Leaf.oid new_oid);
          id_field = made;
          grows = append_grows api laws config heap b _ id_key (Leaf.oid new_oid) refl;
        })
  put_ids_put stack new_oid b (some none) p h = cc
  put_ids_put stack new_oid b (some (some v)) p h =
      let (b', call, done) = >>=-eq-ok (encoder stack true b id_key v) _ h in
      let added = append_sv-Sound api laws config heap fuel stack true b id_key v b' call in
      subst (λ q. IdPut new_oid (some (some v)) b q) (cc)
        (record {
          name = added.name;
          value = added.value;
          id_field = kept added.named added.encodes;
          grows = added.grows;
        })

  -- A document that an insert made: "_id" and then the other fields.
  pub record Inserted (new_oid : Bytes) (id : Option (Option Sv)) (rest : Fields)
      (out : Bson × List PushedId) : Type 0 where
    pub name : Bytes
    pub value : Value
    pub id_field : IdField api config heap new_oid id out.1 name value
    pub contents : fields out.0 ≡ field name value rest

  inserted :
      (new_oid : Bytes) (id : Option (Option Sv)) (rest : Fields) (start out : Bson × List PushedId)
      → IdPut new_oid id bson_new start
      → Grows api config heap start.0 out.0 rest
      → out.1 ≡ start.1
      → accepted out.0 ≡ true
      → Inserted new_oid id rest out
  inserted new_oid id rest start out put grows same h =
      let whole =
        Grows-trans api config heap bson_new start.0 out.0 (single put.name put.value) rest
          put.grows grows in
      record {
        name = put.name;
        value = put.value;
        id_field =
            subst (λ ids. IdField api config heap new_oid id ids put.name put.value) (sym same)
              put.id_field;
        contents = (whole h).1 ∙ rw laws.fields-new;
      }

  hash_call :
      (printed : ℕ → Bytes) (ptr : ℕ) (new_oid : Bytes) (r : Referent) (hv : List HashEntry)
      (out : Bson × List PushedId)
      → r.body ≡ hash hv
      → sv_to_bson_body api config heap printed encoder bson_new ptr r (some new_oid) ≡ ok out
      → hv_to_bson api config heap encoder bson_new ptr (some new_oid) empty_stack true ≡ ok out
  unfolding sv_to_bson_body hv_to_bson
  hash_call printed ptr new_oid r hv out body h = rw (body, sv_to_bson_body) at h

  hash_parts :
      (ptr : ℕ) (new_oid : Bytes) (r : Referent) (hv : List HashEntry) (out : Bson × List PushedId)
      → hv_to_bson api config heap encoder bson_new ptr (some new_oid) empty_stack true ≡ ok out
      → referent_at heap ptr ≡ ok r
      → r.body ≡ hash hv
      → accepted out.0 ≡ true
      → (rest : Fields) × HashEncodes api config heap true true hv rest
        × Inserted new_oid (find_id hv) rest out
  unfolding as_hash
  hash_parts ptr new_oid r hv out h at body all =
      let run =
        hv_to_bson_run api config heap encoder (append_sv-Sound api laws config heap fuel) bson_new
          ptr (some new_oid) empty_stack true out h in
      let put =
        put_ids_put run.inner_stack new_oid bson_new (find_id run.entries) run.start run.before in
      let here : ◌≡◌ {A = Outcome Referent} (ok run.found) (ok r) = sym run.at ∙ at in
      let same : run.entries ≡ hv = same_entries run.found r run.entries hv here run.body body in
      subst
        (λ es.
          (rest : Fields) × HashEncodes api config heap true true es rest
          × Inserted new_oid (find_id es) rest out)
        same
        (
          run.added,
          run.encodes,
          inserted new_oid (find_id run.entries) run.added run.start out put run.grows run.pushed
              all,
        )

  -- An insert of a hash puts "_id" first, with the value that the hash has there, which is also
  -- what is put on the list of ids, or with a new OID; after it come the fields of the other
  -- entries, and the entry "_id" is not among them.
  pub insert_hash :
      (printed : ℕ → Bytes) (ptr : ℕ) (new_oid : Bytes) (r : Referent) (hv : List HashEntry)
      (out : Bson × List PushedId)
      → referent_at heap ptr ≡ ok r
      → r.body ≡ hash hv
      → sv_to_bson api config heap printed fuel bson_new (rv ptr) (some new_oid) ≡ ok out
      → accepted out.0 ≡ true
      → (rest : Fields) × HashEncodes api config heap true true hv rest
        × Inserted new_oid (find_id hv) rest out
  unfolding sv_to_bson
  insert_hash printed ptr new_oid r hv out at body h all =
      let (r', at', call) = >>=-eq-ok (referent_at heap ptr) _ h in
      let same : r' ≡ r = cc in
      hash_parts ptr new_oid r hv out (hash_call printed ptr new_oid r' hv out (rw same body) call)
        at body all

  ix_call :
      (printed : ℕ → Bytes) (ptr : ℕ) (new_oid : Bytes) (r : Referent) (ix : IxHash)
      (av : List (Option Sv)) (out : Bson × List PushedId)
      → r.blessed ≡ some (tie_ix_hash ix)
      → r.body ≡ array av
      → sv_to_bson_body api config heap printed encoder bson_new ptr r (some new_oid) ≡ ok out
      → ixhash_to_bson api config heap encoder bson_new ptr (some new_oid) empty_stack true ≡ ok out
  unfolding sv_to_bson_body
  ix_call printed ptr new_oid r ix av out class body h = rw (body, class, sv_to_bson_body) at h

  -- An insert of a Tie::IxHash puts "_id" first, and after it the fields of all its keys.
  pub insert_ix_hash :
      (printed : ℕ → Bytes) (ptr : ℕ) (new_oid : Bytes) (r : Referent) (ix : IxHash)
      (av : List (Option Sv)) (out : Bson × List PushedId)
      → referent_at heap ptr ≡ ok r
      → r.blessed ≡ some (tie_ix_hash ix)
      → r.body ≡ array av
      → sv_to_bson api config heap printed fuel bson_new (rv ptr) (some new_oid) ≡ ok out
      → accepted out.0 ≡ true
      → (rest : Fields) × PairsEncode api config heap true ix.keys ix.values rest
        × Inserted new_oid (ix_id ix) rest out
  unfolding sv_to_bson as_ix_hash
  insert_ix_hash printed ptr new_oid r ix av out at class body h all =
      let (r', at', call) = >>=-eq-ok (referent_at heap ptr) _ h in
      let same : r' ≡ r = cc in
      let call' = ix_call printed ptr new_oid r' ix av out (rw same class) (rw same body) call in
      let run =
        ixhash_to_bson_run api config heap encoder (append_sv-Sound api laws config heap fuel)
          bson_new ptr (some new_oid) empty_stack true out call' in
      let put = put_ids_put run.inner_stack new_oid bson_new (ix_id run.ix) run.start run.before in
      let here : run.found ≡ r = cc (run.at, at) in
      let found_class : as_ix_hash run.found.blessed ≡ ok ix = rw (here, class) in
      let same_ix : run.ix ≡ ix = cc (run.class, found_class) in
      subst
        (λ jx.
          (rest : Fields) × PairsEncode api config heap true jx.keys jx.values rest
          × Inserted new_oid (ix_id jx) rest out)
        same_ix
        (
          run.added,
          run.encodes,
          inserted new_oid (ix_id run.ix) run.added run.start out put run.grows run.pushed all,
        )
