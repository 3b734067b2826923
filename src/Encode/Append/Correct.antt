-- ===== src/Encode/Append/Correct.antt =====
-- append_sv adds one field, under the cleaned name, with a value that stands for the given one.
use mongo_perl_driver.Common.{ℕ, ◌≡◌, sym, ◌∙◌, Bool, true, false, none, List}
use mongo_perl_driver.Perl.{Bytes, Sv, HashEntry, IxHash, Referent, Heap}
use mongo_perl_driver.Outcome.{Outcome, ok, >>=-eq-ok}
use mongo_perl_driver.Libbson.{
  Libbson, LibbsonLaws, Leaf, Value, Fields, leaf, document, code_with_scope, nil, single,
}
use mongo_perl_driver.Encode.Keys.{Config}
use mongo_perl_driver.Encode.Circular.{Stack}
use mongo_perl_driver.Encode.Append.{
  Appender, hv_to_bson, ixhash_to_bson, append_ixhash, append_leaf,
}
use mongo_perl_driver.Encode.Entries.{PushedId, find_id, referent_at, as_hash, as_ix_hash, ix_id}
use mongo_perl_driver.Encode.Append.Meaning.{Stands, HashEncodes, PairsEncode}
use mongo_perl_driver.Encode.Append.Sound.{Grows, Sound}
use mongo_perl_driver.Encode.Append.Containers.{hv_to_bson_run, ixhash_to_bson_run, start_none}
use mathlib.Core.Path.{subst}

module _ (api : Libbson) (laws : LibbsonLaws api) (config : Config) (heap : Heap) where
  open api use {
    Bson, bson_new, append, document_begin, document_end, array_begin, array_end,
    append_code_with_scope, fields, accepted,
  }

  abbrev pub Grown : Bson → Bson → Fields → Type 0
  Grown = Grows api config heap

  -- The field that is added for a value under a name that is cleaned already.
  pub record Puts (i : Bool) (key : Bytes) (sv : Sv) (before after : Bson) : Type 0 where
    pub value : Value
    pub stands : Stands api config heap i sv value
    pub grows : Grown before after (single key value)

  pub append_grows :
      (b b' : Bson) (key : Bytes) (l : Leaf)
      → ◌≡◌ {A = Outcome Bson} (ok (append b key l)) (ok b')
      → Grown b b' (single key (leaf l))
  append_grows b b' key l h =
      subst (λ c. Grown b c (single key (leaf l))) (cc) (laws.fields-append b key l)

  nested :
      (begun child : Bson) (fs : Fields)
      → fields begun ≡ nil
      → Grown begun child fs
      → accepted child ≡ true
      → fields child ≡ fs
  nested begun child fs fresh grows h = (grows h).1 ∙ rw fresh

  pub document_grows :
      (b child b' : Bson) (key : Bytes) (fs : Fields)
      → Grown (document_begin b key) child fs
      → ◌≡◌ {A = Outcome Bson} (ok (document_end b key child)) (ok b')
      → Grown b b' (single key (document fs))
  document_grows b child b' key fs grows e =
      subst (λ c. Grown b c (single key (document fs))) (cc)
        λ h.
          let (hb, hc, same) = laws.fields-document_end b key child h in
          (
            hb,
            rw
                (← nested (document_begin b key) child fs (laws.fields-document_begin b key) grows
                  hc)
                same,
          )

  pub array_grows :
      (b child b' : Bson) (key : Bytes) (fs : Fields)
      → Grown (array_begin b key) child fs
      → ◌≡◌ {A = Outcome Bson} (ok (array_end b key child)) (ok b')
      → Grown b b' (single key (Value.array fs))
  array_grows b child b' key fs grows e =
      subst (λ c. Grown b c (single key (Value.array fs))) (cc)
        λ h.
          let (hb, hc, same) = laws.fields-array_end b key child h in
          (
            hb,
            rw (← nested (array_begin b key) child fs (laws.fields-array_begin b key) grows hc)
                same,
          )

  pub scope_grows :
      (b child b' : Bson) (key str : Bytes) (fs : Fields)
      → Grown bson_new child fs
      → ◌≡◌ {A = Outcome Bson} (ok (append_code_with_scope b key str child)) (ok b')
      → Grown b b' (single key (code_with_scope str fs))
  scope_grows b child b' key str fs grows e =
      subst (λ c. Grown b c (single key (code_with_scope str fs))) (cc)
        λ h.
          let (hb, hc, same) = laws.fields-append_code_with_scope b key str child h in
          (hb, rw (← nested bson_new child fs laws.fields-new grows hc) same)

  module _ (rec : Appender api config heap) (sound : Sound api config heap rec) where
    pub append_leaf_sound :
        (b : Bson) (key : Bytes) (l : Outcome Leaf) (b' : Bson)
        → append_leaf api config heap rec b key l ≡ ok b'
        → (x : Leaf) × (l ≡ ok x) × Grown b b' (single key (leaf x))
    unfolding append_leaf
    append_leaf_sound b key l b' h =
        let (x, is, done) = >>=-eq-ok l _ h in (x, is, append_grows b b' key x done)

    pub append_ixhash_sound :
        (stack : Stack) (i : Bool) (b : Bson) (key : Bytes) (ptr : ℕ) (b' : Bson)
        → append_ixhash api config heap rec stack i b key ptr ≡ ok b'
        → (r : Referent) × (ix : IxHash) × (fs : Fields) × (referent_at heap ptr ≡ ok r)
          × (as_ix_hash r.blessed ≡ ok ix)
          × PairsEncode api config heap i ix.keys ix.values fs
          × Grown b b' (single key (document fs))
    unfolding append_ixhash
    append_ixhash_sound stack i b key ptr b' h =
        let (out, call, done) =
          >>=-eq-ok (ixhash_to_bson api config heap rec (document_begin b key) ptr none stack i) _
            h in
        let run =
          ixhash_to_bson_run api config heap rec sound (document_begin b key) ptr none stack i out
            call in
        let same =
          start_none api config heap rec run.inner_stack i (document_begin b key) (ix_id run.ix)
            run.start run.before in
        (
          run.found,
          run.ix,
          run.added,
          run.at,
          run.class,
          run.encodes,
          document_grows b out.0 b' key run.added
              (subst (λ c. Grown c out.0 run.added) (sym same) run.grows) done,
        )

    -- A hash appended into a document that holds nothing yet.
    pub hash_sound :
        (begun : Bson) (ptr : ℕ) (stack : Stack) (i : Bool) (out : Bson × List PushedId)
        → hv_to_bson api config heap rec begun ptr none stack i ≡ ok out
        → (r : Referent) × (hv : List HashEntry) × (fs : Fields) × (referent_at heap ptr ≡ ok r)
          × (as_hash r.body ≡ ok hv)
          × HashEncodes api config heap i false hv fs
          × Grown begun out.0 fs
    hash_sound begun ptr stack i out h =
        let run = hv_to_bson_run api config heap rec sound begun ptr none stack i out h in
        let same =
          start_none api config heap rec run.inner_stack i begun (find_id run.entries) run.start
            run.before in
        (
          run.found,
          run.entries,
          run.added,
          run.at,
          run.body,
          run.encodes,
          subst (λ c. Grown c out.0 run.added) (sym same) run.grows,
        )
