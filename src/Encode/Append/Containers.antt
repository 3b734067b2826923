-- ===== src/Encode/Append/Containers.antt =====
-- hv_to_bson and ixhash_to_bson taken apart: the ids first, then the fields of the entries.
use mongo_perl_driver.Common.{ℕ, ◌≡◌, Bool, Option, none, List, []}
use mongo_perl_driver.Perl.{Bytes, Sv, HashEntry, IxHash, Referent, Heap}
use mongo_perl_driver.Outcome.{Outcome, ok, >>=-eq-ok}
use mongo_perl_driver.Libbson.{Libbson, Fields}
use mongo_perl_driver.Encode.Keys.{Config}
use mongo_perl_driver.Encode.Circular.{Stack}
use mongo_perl_driver.Encode.Append.{
  Appender, hv_loop, put_ids, hv_to_bson, ix_loop, ixhash_to_bson,
}
use mongo_perl_driver.Encode.Entries.{
  PushedId, find_id, referent_at, as_hash, as_ix_hash, enter, ix_id, is_some,
}
use mongo_perl_driver.Encode.Append.Meaning.{HashEncodes, PairsEncode}
use mongo_perl_driver.Encode.Append.Sound.{Grows, Sound, hv_loop_sound, ix_loop_sound}
use mathlib.Core.Path.{subst}

module _ (api : Libbson) (config : Config) (heap : Heap) where
  open api use {Bson}

  -- A successful hv_to_bson: the document after the ids, and the fields added behind it.
  pub record HashRun (rec : Appender api config heap) (b : Bson) (ptr : ℕ) (ids : Option Bytes)
      (i : Bool) (out : Bson × List PushedId) : Type 0 where
    pub found : Referent
    pub entries : List HashEntry
    pub inner_stack : Stack
    pub start : Bson × List PushedId
    pub added : Fields
    pub at : referent_at heap ptr ≡ ok found
    pub body : as_hash found.body ≡ ok entries
    pub before : put_ids api config heap rec inner_stack i ids b (find_id entries) ≡ ok start
    pub encodes : HashEncodes api config heap i (is_some ids) entries added
    pub grows : Grows api config heap start.0 out.0 added
    pub pushed : out.1 ≡ start.1

  pub record IxRun (rec : Appender api config heap) (b : Bson) (ptr : ℕ) (ids : Option Bytes)
      (i : Bool) (out : Bson × List PushedId) : Type 0 where
    pub found : Referent
    pub ix : IxHash
    pub inner_stack : Stack
    pub start : Bson × List PushedId
    pub added : Fields
    pub at : referent_at heap ptr ≡ ok found
    pub class : as_ix_hash found.blessed ≡ ok ix
    pub before : put_ids api config heap rec inner_stack i ids b (ix_id ix) ≡ ok start
    pub encodes : PairsEncode api config heap i ix.keys ix.values added
    pub grows : Grows api config heap start.0 out.0 added
    pub pushed : out.1 ≡ start.1

  out_parts :
      (b' : Bson) (ids : List PushedId) (out : Bson × List PushedId)
      → ◌≡◌ {A = Outcome (Bson × List PushedId)} (ok (b', ids)) (ok out)
      → (b' ≡ out.0) × (out.1 ≡ ids)
  out_parts b' ids out h = (cc, cc)

  module _ (rec : Appender api config heap) (sound : Sound api config heap rec) where
    pub hv_to_bson_run :
        (b : Bson) (ptr : ℕ) (ids : Option Bytes) (stack : Stack) (i : Bool)
        (out : Bson × List PushedId)
        → hv_to_bson api config heap rec b ptr ids stack i ≡ ok out
        → HashRun rec b ptr ids i out
    unfolding hv_to_bson
    hv_to_bson_run b ptr ids stack i out h =
        let (r, at, h1) = >>=-eq-ok (referent_at heap ptr) _ h in
        let (hv, body, h2) = >>=-eq-ok (as_hash r.body) _ h1 in
        let (stack', pushed, h3) = >>=-eq-ok (enter ptr stack) _ h2 in
        let (p, before, h4) =
          >>=-eq-ok (put_ids api config heap rec stack' i ids b (find_id hv)) _ h3 in
        let (b', loop, done) =
          >>=-eq-ok (hv_loop api config heap rec stack' i (is_some ids) p.0 hv) _ h4 in
        let (fs, encodes, grows) =
          hv_loop_sound api config heap rec sound stack' i (is_some ids) p.0 hv b' loop in
        let (same, ids_same) = out_parts b' p.1 out done in
        record {
          found = r;
          entries = hv;
          inner_stack = stack';
          start = p;
          added = fs;
          at = at;
          body = body;
          before = before;
          encodes = encodes;
          grows = subst (λ c. Grows api config heap p.0 c fs) same grows;
          pushed = ids_same;
        }

    pub ixhash_to_bson_run :
        (b : Bson) (ptr : ℕ) (ids : Option Bytes) (stack : Stack) (i : Bool)
        (out : Bson × List PushedId)
        → ixhash_to_bson api config heap rec b ptr ids stack i ≡ ok out
        → IxRun rec b ptr ids i out
    unfolding ixhash_to_bson
    ixhash_to_bson_run b ptr ids stack i out h =
        let (r, at, h1) = >>=-eq-ok (referent_at heap ptr) _ h in
        let (ix, class, h2) = >>=-eq-ok (as_ix_hash r.blessed) _ h1 in
        let (stack', pushed, h3) = >>=-eq-ok (enter ptr stack) _ h2 in
        let (p, before, h4) =
          >>=-eq-ok (put_ids api config heap rec stack' i ids b (ix_id ix)) _ h3 in
        let (b', loop, done) =
          >>=-eq-ok (ix_loop api config heap rec stack' i p.0 ix.keys ix.values) _ h4 in
        let (fs, encodes, grows) =
          ix_loop_sound api config heap rec sound stack' i p.0 ix.keys ix.values b' loop in
        let (same, ids_same) = out_parts b' p.1 out done in
        record {
          found = r;
          ix = ix;
          inner_stack = stack';
          start = p;
          added = fs;
          at = at;
          class = class;
          before = before;
          encodes = encodes;
          grows = subst (λ c. Grows api config heap p.0 c fs) same grows;
          pushed = ids_same;
        }

  -- Without a list of ids nothing is put before the fields of the entries.
  pub start_none :
      (rec : Appender api config heap) (stack : Stack) (i : Bool) (b : Bson)
      (id : Option (Option Sv)) (p : Bson × List PushedId)
      → put_ids api config heap rec stack i none b id ≡ ok p
      → b ≡ p.0
  unfolding put_ids
  start_none rec stack i b id p h = (out_parts b [] p h).0
