-- ===== src/Encode/Append/Fuel.antt =====
-- append_sv ends: check_circular_ref bounds how deep the containers nest.
use mongo_perl_driver.Common.{
  ℕ, zero, suc, ◌+◌, ◌≤◌, ◌<◌, ◌≡◌, ◌≢◌, inl, inr, Bool, true, false, Option, none, some, List, [],
  ◌∷◌, arith, Option-cases, length, get_elem?, All,
}
use mongo_perl_driver.Perl.{
  Bytes, Sv, HashEntry, Body, Class, Referent, Heap, deref, hash, tie_ix_hash, code,
}
use mongo_perl_driver.Outcome.{ok, stuck, >>=-ne-stuck, ok-ne-stuck}
use mongo_perl_driver.Libbson.{Libbson}
use mongo_perl_driver.Encode.Keys.{Config, contains_null_char}
use mongo_perl_driver.Encode.Circular.{Stack, check_circular_ref, free_below, free_below_push}
use mongo_perl_driver.Encode.Append.{
  Appender, hv_entry, hv_loop, put_id, put_ids, hv_to_bson, av_loop, ix_loop, ixhash_to_bson,
}
use mongo_perl_driver.Encode.Entries.{
  find_id, referent_at, as_hash, as_ix_hash, enter, ix_id, undef,
}

-- A MongoDB::Code object with a scope.
unfoldable pub has_scope : Referent → Bool
has_scope r = elim r.blessed [ some (code str (some scope)) ↦ true | _ ↦ false ]

abbrev pub NoScopes : Heap → Type 0
NoScopes heap = All (λ r. has_scope r ≡ false) heap

contains_null_char-ne-stuck : (key : Bytes) → contains_null_char key ≢ stuck
unfolding contains_null_char
contains_null_char-ne-stuck key = ground arith

pub referent_at-ne-stuck : (heap : Heap) (ptr : ℕ) → referent_at heap ptr ≢ stuck
unfolding referent_at
referent_at-ne-stuck heap ptr = ground arith

as_hash-ne-stuck : (body : Body) → as_hash body ≢ stuck
unfolding as_hash
as_hash-ne-stuck (hash hv) = λ e. cc
as_hash-ne-stuck _ = λ e. cc

as_ix_hash-ne-stuck : (class : Option Class) → as_ix_hash class ≢ stuck
unfolding as_ix_hash
as_ix_hash-ne-stuck (some (tie_ix_hash ix)) = λ e. cc
as_ix_hash-ne-stuck _ = λ e. cc

pub enter-ne-stuck : (ptr : ℕ) (stack : Stack) → enter ptr stack ≢ stuck
unfolding enter
enter-ne-stuck ptr stack = ground arith

get_elem?-lt {ℓ} :
    {A : Type ℓ} (xs : List A) (i : ℕ) {a : A} → get_elem? xs i ≡ some a → i < length xs
get_elem?-lt [] i h = cc
get_elem?-lt (x ∷ xs) zero h = omega arith
get_elem?-lt (x ∷ xs) (suc i) h = omega (arith, get_elem?-lt xs i h)

pub referent_at-lt :
    (heap : Heap) (ptr : ℕ) (r : Referent) → referent_at heap ptr ≡ ok r → ptr < length heap
unfolding referent_at
referent_at-lt heap ptr r h = elim (Option-cases (deref heap ptr)) [
  | inl e ↦ absurd (ground arith)
  | inr (a, e) ↦ get_elem?-lt heap ptr e
]

pub no_scope_at :
    (heap : Heap) (ptr : ℕ) (r : Referent)
    → NoScopes heap
    → referent_at heap ptr ≡ ok r
    → has_scope r ≡ false
unfolding referent_at
no_scope_at [] ptr r h e = cc
no_scope_at (x ∷ heap) zero r h e = ground arith
no_scope_at (x ∷ heap) (suc ptr) r h e = no_scope_at heap ptr r h.1 e

-- Entering a container of the heap uses up one address.
pub enter-free :
    (n ptr : ℕ) (stack stack' : Stack)
    → ptr < n
    → enter ptr stack ≡ ok stack'
    → free_below n stack ≡ suc (free_below n stack')
unfolding enter check_circular_ref
enter-free n ptr stack stack' h e = ground (arith, free_below_push n ptr stack)

module _ (api : Libbson) (config : Config) (heap : Heap) (rec : Appender api config heap) where
  open api use {Bson, bson_new, document_begin, array_begin}

  -- The recursive call ends at a given stack.
  abbrev pub Ends : Stack → Type 0
  Ends stack =
      (is_insert : Bool) (b : Bson) (key : Bytes) (v : Sv) → rec stack is_insert b key v ≢ stuck

  module _ (stack : Stack) (ends : Ends stack) where
    hv_entry-ne-stuck :
        (i : Bool) (b : Bson) (e : HashEntry) → hv_entry api config heap rec stack i b e ≢ stuck
    unfolding hv_entry
    hv_entry-ne-stuck i b e = elim (Option-cases e.fetched) [
      | inl absent ↦ rw absent (λ p. cc)
      | inr (v, found) ↦ rw found (ends i b _ v)
    ]

    hv_loop-ne-stuck :
        (i has_ids : Bool) (b : Bson) (es : List HashEntry)
        → hv_loop api config heap rec stack i has_ids b es ≢ stuck
    unfolding hv_loop
    hv_loop-ne-stuck i has_ids b [] = ok-ne-stuck b
    hv_loop-ne-stuck i has_ids b (e ∷ es) =
        >>=-ne-stuck (contains_null_char e.key) _ (contains_null_char-ne-stuck e.key) λ _ _.
          >>=-ne-stuck _ _ (ground (arith, hv_entry-ne-stuck i b e))
            λ b' _. hv_loop-ne-stuck i has_ids b' es

    put_ids-ne-stuck :
        (i : Bool) (ids : Option Bytes) (b : Bson) (id : Option (Option Sv))
        → put_ids api config heap rec stack i ids b id ≢ stuck
    unfolding put_ids put_id
    put_ids-ne-stuck i none b id = ok-ne-stuck _
    put_ids-ne-stuck i (some new_oid) b none = ok-ne-stuck _
    put_ids-ne-stuck i (some new_oid) b (some none) = λ e. cc
    put_ids-ne-stuck i (some new_oid) b (some (some id)) =
        >>=-ne-stuck (rec stack i b _ id) _ (ends i b _ id) λ b' _. ok-ne-stuck _

    pub av_loop-ne-stuck :
        (i : Bool) (b : Bson) (n : ℕ) (av : List (Option Sv))
        → av_loop api config heap rec stack i b n av ≢ stuck
    unfolding av_loop
    av_loop-ne-stuck i b n [] = ok-ne-stuck b
    av_loop-ne-stuck i b n (none ∷ av) =
        >>=-ne-stuck (rec stack i b _ undef) _ (ends i b _ undef)
          λ b' _. av_loop-ne-stuck i b' (n + 1) av
    av_loop-ne-stuck i b n (some v ∷ av) =
        >>=-ne-stuck (rec stack i b _ v) _ (ends i b _ v) λ b' _. av_loop-ne-stuck i b' (n + 1) av

    ix_loop-ne-stuck :
        (i : Bool) (b : Bson) (keys : List (Option Bytes)) (values : List (Option Sv))
        → ix_loop api config heap rec stack i b keys values ≢ stuck
    unfolding ix_loop
    ix_loop-ne-stuck i b [] values = ok-ne-stuck b
    ix_loop-ne-stuck i b (none ∷ keys) values = λ e. cc
    ix_loop-ne-stuck i b (some key ∷ keys) [] = λ e. cc
    ix_loop-ne-stuck i b (some key ∷ keys) (none ∷ values) = λ e. cc
    ix_loop-ne-stuck i b (some key ∷ keys) (some v ∷ values) =
        >>=-ne-stuck (contains_null_char key) _ (contains_null_char-ne-stuck key) λ _ _.
          >>=-ne-stuck (rec stack i b key v) _ (ends i b key v)
            λ b' _. ix_loop-ne-stuck i b' keys values

  -- The recursive call ends wherever fewer addresses than `n` are free.
  module _ (n : ℕ) (ends : (stack : Stack) → free_below (length heap) stack < n → Ends stack) where
    -- The stack on which the entries of the container at `ptr` are encoded.
    pub inner :
        (ptr : ℕ) (stack stack' : Stack) (r : Referent)
        → free_below (length heap) stack ≤ n
        → referent_at heap ptr ≡ ok r
        → enter ptr stack ≡ ok stack'
        → Ends stack'
    inner ptr stack stack' r room at pushed = ends stack' (
        omega
          (arith, enter-free (length heap) ptr stack stack' (referent_at-lt heap ptr r at) pushed))

    pub hv_to_bson-ne-stuck :
        (b : Bson) (ptr : ℕ) (ids : Option Bytes) (stack : Stack) (i : Bool)
        → free_below (length heap) stack ≤ n
        → hv_to_bson api config heap rec b ptr ids stack i ≢ stuck
    unfolding hv_to_bson
    hv_to_bson-ne-stuck b ptr ids stack i room =
        >>=-ne-stuck (referent_at heap ptr) _ (referent_at-ne-stuck heap ptr) λ r at.
          >>=-ne-stuck (as_hash r.body) _ (as_hash-ne-stuck r.body) λ hv _.
            >>=-ne-stuck (enter ptr stack) _ (enter-ne-stuck ptr stack) λ stack' pushed.
              let below = inner ptr stack stack' r room at pushed in
              >>=-ne-stuck _ _ (put_ids-ne-stuck stack' below i ids b (find_id hv)) λ p _.
                >>=-ne-stuck _ _ (hv_loop-ne-stuck stack' below i _ p.0 hv) λ b' _. ok-ne-stuck _

    pub ixhash_to_bson-ne-stuck :
        (b : Bson) (ptr : ℕ) (ids : Option Bytes) (stack : Stack) (i : Bool)
        → free_below (length heap) stack ≤ n
        → ixhash_to_bson api config heap rec b ptr ids stack i ≢ stuck
    unfolding ixhash_to_bson
    ixhash_to_bson-ne-stuck b ptr ids stack i room =
        >>=-ne-stuck (referent_at heap ptr) _ (referent_at-ne-stuck heap ptr) λ r at.
          >>=-ne-stuck (as_ix_hash r.blessed) _ (as_ix_hash-ne-stuck r.blessed) λ ix _.
            >>=-ne-stuck (enter ptr stack) _ (enter-ne-stuck ptr stack) λ stack' pushed.
              let below = inner ptr stack stack' r room at pushed in
              >>=-ne-stuck _ _ (put_ids-ne-stuck stack' below i ids b (ix_id ix)) λ p _.
                >>=-ne-stuck _ _ (ix_loop-ne-stuck stack' below i p.0 ix.keys ix.values)
                  λ b' _. ok-ne-stuck _
