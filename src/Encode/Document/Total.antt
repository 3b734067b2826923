-- ===== src/Encode/Document/Total.antt =====
-- perl_mongo_sv_to_bson ends on every heap without MongoDB::Code scopes.
use mongo_perl_driver.Common.{
  ℕ, ◌≤◌, ◌<◌, ◌≡◌, refl, ◌≢◌, Bool, Option, none, some, List, [], ◌∷◌, arith, length,
}
use mongo_perl_driver.Perl.{Bytes, Sv, rv, Body, Referent, Heap, hash, array, plain, other_body}
use mongo_perl_driver.Outcome.{stuck, require, >>=-ne-stuck, ok-ne-stuck, require-ne-stuck}
use mongo_perl_driver.Libbson.{Libbson}
use mongo_perl_driver.Encode.Keys.{Config}
use mongo_perl_driver.Encode.Circular.{Stack, empty_stack, free_below, free_below_le}
use mongo_perl_driver.Encode.Append.{Appender, append_sv}
use mongo_perl_driver.Encode.Entries.{referent_at, id_key, is_some}
use mongo_perl_driver.Encode.Document.{
  find_pair_id, put_pair_id, put_pair_ids, pair_loop, pairs_to_bson, sv_to_bson_body, sv_to_bson,
}
use mongo_perl_driver.Encode.Append.Fuel.{
  NoScopes, referent_at-ne-stuck, hv_to_bson-ne-stuck, ixhash_to_bson-ne-stuck,
}
use mongo_perl_driver.Encode.Append.Terminates.{append_sv-ne-stuck}

module _ (api : Libbson) (config : Config) (heap : Heap) (printed : ℕ → Bytes) (fuel : ℕ)
    (no_scopes : NoScopes heap) (enough : length heap < fuel) where
  open api use {Bson}

  abbrev rec : Appender api config heap
  rec = append_sv api config heap fuel

  ends :
      (stack : Stack)
      → free_below (length heap) stack < fuel
      → (i : Bool) (b : Bson) (key : Bytes) (v : Sv) → rec stack i b key v ≢ stuck
  ends stack room i b key v = append_sv-ne-stuck api config heap fuel stack i b key v no_scopes room

  find_pair_id-ne-stuck :
      (av : List (Option Sv)) → find_pair_id api config heap printed rec av ≢ stuck
  unfolding find_pair_id
  find_pair_id-ne-stuck [] = ok-ne-stuck _
  find_pair_id-ne-stuck (none ∷ av) = λ e. cc
  find_pair_id-ne-stuck (some key ∷ []) = ground arith
  find_pair_id-ne-stuck (some key ∷ none ∷ av) = ground (arith, find_pair_id-ne-stuck av)
  find_pair_id-ne-stuck (some key ∷ some v ∷ av) = ground (arith, find_pair_id-ne-stuck av)

  at_top : (i : Bool) (b : Bson) (key : Bytes) (v : Sv) → rec empty_stack i b key v ≢ stuck
  at_top = ends empty_stack (omega (arith, free_below_le (length heap) empty_stack))

  put_pair_ids-ne-stuck :
      (i : Bool) (ids : Option Bytes) (b : Bson) (av : List (Option Sv))
      → put_pair_ids api config heap printed rec i ids b av ≢ stuck
  unfolding put_pair_ids
  put_pair_ids-ne-stuck i none b av = ok-ne-stuck _
  put_pair_ids-ne-stuck i (some new_oid) b av =
      >>=-ne-stuck (find_pair_id api config heap printed rec av) _ (find_pair_id-ne-stuck av)
        λ id _. put id
    where
      put : (id : Option Sv) → put_pair_id api config heap printed rec i new_oid b id ≢ stuck
      put none = unfold put_pair_id in ok-ne-stuck _
      put (some id) =
          unfold put_pair_id in
          >>=-ne-stuck (rec empty_stack i b id_key id) _ (at_top i b id_key id)
            λ b' _. ok-ne-stuck _

  pair_loop-ne-stuck :
      (i : Bool) (b : Bson) (av : List (Option Sv))
      → pair_loop api config heap printed rec i b av ≢ stuck
  unfolding pair_loop
  pair_loop-ne-stuck i b [] = ok-ne-stuck b
  pair_loop-ne-stuck i b (some key ∷ some v ∷ av) =
      >>=-ne-stuck (rec empty_stack i b _ v) _ (at_top i b _ v) λ b' _. pair_loop-ne-stuck i b' av
  pair_loop-ne-stuck i b _ = λ e. cc

  pairs_to_bson-ne-stuck :
      (b : Bson) (av : List (Option Sv)) (ids : Option Bytes)
      → pairs_to_bson api config heap printed rec b av ids ≢ stuck
  unfolding pairs_to_bson
  pairs_to_bson-ne-stuck b av ids = >>=-ne-stuck (require _ _) _ (require-ne-stuck _ _) λ _ _.
      >>=-ne-stuck _ _ (put_pair_ids-ne-stuck (is_some ids) ids b av)
        λ p _. >>=-ne-stuck _ _ (pair_loop-ne-stuck (is_some ids) p.0 av) λ b' _. ok-ne-stuck _

  whole_heap : free_below (length heap) empty_stack ≤ fuel
  whole_heap = omega (arith, free_below_le (length heap) empty_stack)

  sv_to_bson_body-ne-stuck :
      (b : Bson) (ptr : ℕ) (r : Referent) (body : Body) (ids : Option Bytes)
      → r.body ≡ body
      → sv_to_bson_body api config heap printed rec b ptr r ids ≢ stuck
  unfolding sv_to_bson_body
  sv_to_bson_body-ne-stuck b ptr r (hash hv) ids e =
      rw (e, sv_to_bson_body)
        (hv_to_bson-ne-stuck api config heap rec fuel ends b ptr ids empty_stack (is_some ids)
          whole_heap)
  sv_to_bson_body-ne-stuck b ptr r (array av) ids e =
      rw (e, sv_to_bson_body)
        (ground (
          arith,
          ixhash_to_bson-ne-stuck api config heap rec fuel ends b ptr ids empty_stack (is_some ids)
              whole_heap,
          pairs_to_bson-ne-stuck b av ids,
        ))
  sv_to_bson_body-ne-stuck b ptr r (plain s) ids e = rw (e, sv_to_bson_body) (λ p. cc)
  sv_to_bson_body-ne-stuck b ptr r (other_body t) ids e = rw (e, sv_to_bson_body) (λ p. cc)

  -- One unit of fuel more than the heap has addresses is enough for perl_mongo_sv_to_bson to end,
  -- with a document or with a croak, on any value of a heap in which no MongoDB::Code object has
  -- a scope; circular data are refused and never followed forever.
  pub sv_to_bson-ne-stuck :
      (b : Bson) (sv : Sv) (ids : Option Bytes)
      → sv_to_bson api config heap printed fuel b sv ids ≢ stuck
  unfolding sv_to_bson
  sv_to_bson-ne-stuck b (rv ptr) ids =
      >>=-ne-stuck (referent_at heap ptr) _ (referent_at-ne-stuck heap ptr)
        λ r _. sv_to_bson_body-ne-stuck b ptr r r.body ids refl
  sv_to_bson-ne-stuck b _ ids = λ e. cc
