-- ===== src/Encode/Append/Terminates.antt =====
-- append_sv ends on every value of a heap without MongoDB::Code scopes, and does not on a scope
-- that contains its own MongoDB::Code object.
use mongo_perl_driver.Common.{
  ℕ, zero, suc, ◌≤◌, ◌<◌, ◌≡◌, refl, ◌≢◌, Bool, false, Option, none, some, List, arith, length,
}
use mongo_perl_driver.Perl.{
  Bytes, Sv, scalar, rv, magical, Body, Class, Referent, Heap, hash, array, plain, other_body, oid,
  tie_ix_hash, db_ref, code,
}
use mongo_perl_driver.Outcome.{Outcome, ok, stuck, >>=-ne-stuck, ok-ne-stuck}
use mongo_perl_driver.Libbson.{Libbson, Leaf}
use mongo_perl_driver.Encode.Keys.{Config, clean_key, clean_key-ne-stuck}
use mongo_perl_driver.Encode.Circular.{Stack, free_below}
use mongo_perl_driver.Encode.Leaves.Total.{
  scalar_leaf-ne-stuck, object_leaf-ne-stuck, serialize_binary-ne-stuck,
}
use mongo_perl_driver.Encode.Append.{
  Appender, av_to_bson, append_ixhash, append_leaf, append_object, append_unblessed,
  append_referent, append_defined, append_value, append_body, append_sv,
}
use mongo_perl_driver.Encode.Entries.{referent_at, enter}
use mongo_perl_driver.Encode.Append.Fuel.{
  has_scope, NoScopes, no_scope_at, Ends, referent_at-ne-stuck, enter-ne-stuck, inner,
  av_loop-ne-stuck, hv_to_bson-ne-stuck, ixhash_to_bson-ne-stuck,
}

module _ (api : Libbson) (config : Config) (heap : Heap) (rec : Appender api config heap) (n : ℕ)
    (ends : (stack : Stack)
      → free_below (length heap) stack < n
      → Ends api config heap rec stack) where
  open api use {Bson, bson_new, document_begin, array_begin}

  av_to_bson-ne-stuck :
      (b : Bson) (ptr : ℕ) (r : Referent) (av : List (Option Sv)) (stack : Stack) (i : Bool)
      → free_below (length heap) stack ≤ n
      → referent_at heap ptr ≡ ok r
      → av_to_bson api config heap rec b ptr av stack i ≢ stuck
  unfolding av_to_bson
  av_to_bson-ne-stuck b ptr r av stack i room at =
      >>=-ne-stuck (enter ptr stack) _ (enter-ne-stuck ptr stack) λ stack' pushed.
        av_loop-ne-stuck api config heap rec stack'
          (inner api config heap rec n ends ptr stack stack' r room at pushed) i b 0 av

  append_ixhash-ne-stuck :
      (stack : Stack) (i : Bool) (b : Bson) (key : Bytes) (ptr : ℕ)
      → free_below (length heap) stack ≤ n
      → append_ixhash api config heap rec stack i b key ptr ≢ stuck
  unfolding append_ixhash
  append_ixhash-ne-stuck stack i b key ptr room =
      >>=-ne-stuck _ _
        (ixhash_to_bson-ne-stuck api config heap rec n ends (document_begin b key) ptr none stack i
          room)
        λ p _. ok-ne-stuck _

  append_leaf-ne-stuck :
      (b : Bson) (key : Bytes) (l : Outcome Leaf)
      → l ≢ stuck
      → append_leaf api config heap rec b key l ≢ stuck
  unfolding append_leaf
  append_leaf-ne-stuck b key l h = >>=-ne-stuck l _ h λ _ _. ok-ne-stuck _

  append_object-ne-stuck :
      (stack : Stack) (i : Bool) (b : Bson) (key : Bytes) (ptr : ℕ) (r : Referent) (class : Class)
      → r.blessed ≡ some class
      → has_scope r ≡ false
      → free_below (length heap) stack ≤ n
      → append_object api config heap rec stack i b key ptr r.body class ≢ stuck
  unfolding append_object has_scope
  append_object-ne-stuck stack i b key ptr r (oid str) is no_scope room = ok-ne-stuck _
  append_object-ne-stuck stack i b key ptr r (tie_ix_hash ix) is no_scope room =
      append_ixhash-ne-stuck stack i b key ptr room
  append_object-ne-stuck stack i b key ptr r (db_ref ordered) is no_scope room =
      append_ixhash-ne-stuck stack i b key ordered room
  append_object-ne-stuck stack i b key ptr r (code str (some scope)) is no_scope room =
      absurd (ground arith)
  append_object-ne-stuck stack i b key ptr r (code str none) is no_scope room =
      append_leaf-ne-stuck b key _ (object_leaf-ne-stuck config r.body (code str none))
  append_object-ne-stuck stack i b key ptr r class is no_scope room =
      append_leaf-ne-stuck b key _ (object_leaf-ne-stuck config r.body class)

  append_unblessed-ne-stuck :
      (stack : Stack) (i : Bool) (b : Bson) (key : Bytes) (ptr : ℕ) (r : Referent) (body : Body)
      → referent_at heap ptr ≡ ok r
      → free_below (length heap) stack ≤ n
      → append_unblessed api config heap rec stack i b key ptr body ≢ stuck
  unfolding append_unblessed
  append_unblessed-ne-stuck stack i b key ptr r (hash hv) at room =
      >>=-ne-stuck _ _
        (hv_to_bson-ne-stuck api config heap rec n ends (document_begin b key) ptr none stack i
          room)
        λ p _. ok-ne-stuck _
  append_unblessed-ne-stuck stack i b key ptr r (array av) at room =
      >>=-ne-stuck _ _ (av_to_bson-ne-stuck (array_begin b key) ptr r av stack i room at)
        λ p _. ok-ne-stuck _
  append_unblessed-ne-stuck stack i b key ptr r (plain sv) at room =
      append_leaf-ne-stuck b key _ (ground (arith, serialize_binary-ne-stuck 0 sv))
  append_unblessed-ne-stuck stack i b key ptr r (other_body t) at room = λ e. cc

  append_referent-ne-stuck :
      (stack : Stack) (i : Bool) (b : Bson) (key : Bytes) (ptr : ℕ) (r : Referent)
      (class : Option Class)
      → r.blessed ≡ class
      → referent_at heap ptr ≡ ok r
      → has_scope r ≡ false
      → free_below (length heap) stack ≤ n
      → append_referent api config heap rec stack i b key ptr r.body class ≢ stuck
  unfolding append_referent
  append_referent-ne-stuck stack i b key ptr r none is at no_scope room =
      append_unblessed-ne-stuck stack i b key ptr r r.body at room
  append_referent-ne-stuck stack i b key ptr r (some class) is at no_scope room =
      append_object-ne-stuck stack i b key ptr r class is no_scope room

  append_defined-ne-stuck :
      (stack : Stack) (i : Bool) (b : Bson) (key : Bytes) (sv : Sv)
      → NoScopes heap
      → free_below (length heap) stack ≤ n
      → append_defined api config heap rec stack i b key sv ≢ stuck
  unfolding append_defined
  append_defined-ne-stuck stack i b key (scalar sv) plain_heap room =
      append_leaf-ne-stuck b key _ (scalar_leaf-ne-stuck config sv)
  append_defined-ne-stuck stack i b key (magical sv) plain_heap room =
      append_defined-ne-stuck stack i b key sv plain_heap room
  append_defined-ne-stuck stack i b key (rv ptr) plain_heap room =
      >>=-ne-stuck (referent_at heap ptr) _ (referent_at-ne-stuck heap ptr) λ r at.
        append_referent-ne-stuck stack i b key ptr r r.blessed refl at
          (no_scope_at heap ptr r plain_heap at) room

  append_body-ne-stuck :
      (stack : Stack) (i : Bool) (b : Bson) (key : Bytes) (sv : Sv)
      → NoScopes heap
      → free_below (length heap) stack ≤ n
      → append_body api config heap rec stack i b key sv ≢ stuck
  unfolding append_body append_value
  append_body-ne-stuck stack i b in_key sv plain_heap room =
      >>=-ne-stuck (clean_key config i in_key) _ (clean_key-ne-stuck config i in_key)
        λ key _. value sv key
    where
      value : (sv : Sv) (key : Bytes) → append_value api config heap rec stack i b key sv ≢ stuck
      value (scalar s) key =
          ground (arith, append_defined-ne-stuck stack i b key (scalar s) plain_heap room)
      value (magical v) key = append_defined-ne-stuck stack i b key (magical v) plain_heap room
      value (rv ptr) key = append_defined-ne-stuck stack i b key (rv ptr) plain_heap room

-- Fuel for the addresses that are not on the stack, and one more, is enough for append_sv to end:
-- every container that it enters is pushed, and none is entered twice.
pub append_sv-ne-stuck :
    (api : Libbson) (config : Config) (heap : Heap) (fuel : ℕ) (stack : Stack) (is_insert : Bool)
    (b : api.Bson) (key : Bytes) (sv : Sv)
    → NoScopes heap
    → free_below (length heap) stack < fuel
    → append_sv api config heap fuel stack is_insert b key sv ≢ stuck
unfolding append_sv
append_sv-ne-stuck api config heap zero stack is_insert b key sv h room = elim room [ ]
append_sv-ne-stuck api config heap (suc fuel) stack is_insert b key sv h room =
    append_body-ne-stuck api config heap (append_sv api config heap fuel) fuel
      (λ stack' below i b' k v. append_sv-ne-stuck api config heap fuel stack' i b' k v h below)
      stack is_insert b key sv h (omega arith)
