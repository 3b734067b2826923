-- ===== src/Decode/Plain.antt =====
-- The values that are read back as they were stored, and what their shapes exclude.
use mathlib.Core.Path.{subst}
use mongo_perl_driver.Common.{
  ℕ, ◌≡◌, refl, sym, ap, ◌∙◌, ◌⊎◌, inl, inr, Bool, true, false, bytes_eq, All, Option, none, some,
  List, [], ◌∷◌,
}
use mongo_perl_driver.Perl.{
  Scalar, Sv, scalar, rv, magical, HashEntry, IxHash, Class, Referent, Heap, hash, array, plain,
  sv_iv, sv_pv, sv_nv,
}
use mongo_perl_driver.Outcome.{ok}
use mongo_perl_driver.Encode.Keys.{contains}
use mongo_perl_driver.Encode.Entries.{referent_at, as_ix_hash}
use mongo_perl_driver.Decode.{Out, Entries, Elements, hv_store, av_push, ref_key}

-- A hash that is not made a MongoDB::DBRef: these are not made, or it has no key "$ref".
abbrev pub StaysHash : Bool → List HashEntry → Type 0
StaysHash inflate hv = (inflate ≡ false) ⊎ All (λ e. bytes_eq e.key ref_key ≡ false) hv

module _ (heap : Heap) (inflate : Bool) where
  -- A Perl value and the value that stands for it on the other side.
  mutual
    pub data Plain : Sv → Out → Type 0 where
      p_undef : {s : Scalar} → s.defined ≡ false → Plain (scalar s) Out.undef
      p_int :
          {s : Scalar}
          → s.defined ≡ true
          → s.sv_type ≡ sv_iv
          → s.iok ≡ true
          → s.nok ≡ false
          → Plain (scalar s) (Out.iv s.iv)
      p_double :
          {s : Scalar}
          → s.defined ≡ true
          → s.sv_type ≡ sv_nv
          → s.nok ≡ true
          → Plain (scalar s) (Out.nv s.nv)
      p_text :
          {s : Scalar}
          → s.defined ≡ true
          → s.sv_type ≡ sv_pv
          → s.iok ≡ false
          → s.nok ≡ false
          → s.pok ≡ true
          → contains s.pv 0 ≡ false
          → Plain (scalar s) (Out.string true s.pv_utf8)
      p_hash :
          {p : ℕ} {r : Referent} {hv : List HashEntry} {es : Entries}
          → referent_at heap p ≡ ok r
          → r.blessed ≡ none
          → r.body ≡ hash hv
          → StaysHash inflate hv
          → PlainEntries Entries.empty hv es
          → Plain (rv p) (Out.hash es)
      p_array :
          {p : ℕ} {r : Referent} {av : List (Option Sv)} {vs : Elements}
          → referent_at heap p ≡ ok r
          → r.blessed ≡ none
          → r.body ≡ array av
          → PlainElements Elements.end av vs
          → Plain (rv p) (Out.array vs)

    -- The hash that results from storing the entries one by one.
    pub data PlainEntries : Entries → List HashEntry → Entries → Type 0 where
      all_stored : {es : Entries} → PlainEntries es [] es
      store_next :
          {es out : Entries} {e : HashEntry} {hv : List HashEntry} {v : Sv} {o : Out}
          → e.utf8 ≡ true
          → e.fetched ≡ some v
          → Plain v o
          → PlainEntries (hv_store es e.key o) hv out
          → PlainEntries es (e ∷ hv) out

    pub data PlainElements : Elements → List (Option Sv) → Elements → Type 0 where
      all_pushed : {vs : Elements} → PlainElements vs [] vs
      push_hole :
          {vs out : Elements} {av : List (Option Sv)}
          → PlainElements (av_push vs Out.undef) av out
          → PlainElements vs (none ∷ av) out
      push_next :
          {vs out : Elements} {av : List (Option Sv)} {v : Sv} {o : Out}
          → Plain v o
          → PlainElements (av_push vs o) av out
          → PlainElements vs (some v ∷ av) out

hash_same : {hv hv' : List HashEntry} → hash hv ≡ hash hv' → hv ≡ hv'
hash_same h = cc

array_same : {av av' : List (Option Sv)} → array av ≡ array av' → av ≡ av'
array_same h = cc

plain_class :
    (heap : Heap) (p : ℕ) (r s : Referent) (class : Class)
    → referent_at heap p ≡ ok r
    → r.blessed ≡ none
    → referent_at heap p ≡ ok s
    → s.blessed ≡ some class
    → ⊥
plain_class heap p r s class at none_here at' some_here = cc

module _ {heap : Heap} {inflate : Bool} where
  pub undef_back :
      (v : Sv) (s : Scalar) (o : Out)
      → v ≡ scalar s
      → s.defined ≡ false
      → Plain heap inflate v o
      → ok Out.undef ≡ ok o
  undef_back v s o is not_defined (p_undef _) = refl
  undef_back v s o is not_defined (p_int d type iok nok) = cc
  undef_back v s o is not_defined (p_double d type nok) = cc
  undef_back v s o is not_defined (p_text d type iok nok pok clear) = cc
  undef_back v s o is not_defined (p_hash at none_here body stays es) = cc
  undef_back v s o is not_defined (p_array at none_here body es) = cc

  pub no_magic {ℓ} : {C : Type ℓ} {v : Sv} {o : Out} → Plain heap inflate (magical v) o → C
  no_magic shape = elim shape [ ]

  pub no_class {ℓ} :
      {C : Type ℓ} {p : ℕ} {o : Out} {r : Referent} {class : Class}
      → Plain heap inflate (rv p) o
      → referent_at heap p ≡ ok r
      → r.blessed ≡ some class
      → C
  no_class (p_hash at' none_here body stays es) at class =
      absurd (plain_class heap _ _ _ _ at' none_here at class)
  no_class (p_array at' none_here body vs) at class =
      absurd (plain_class heap _ _ _ _ at' none_here at class)

  shape_body :
      {p : ℕ} {o : Out} {r : Referent}
      → Plain heap inflate (rv p) o
      → referent_at heap p ≡ ok r
      → ((hv : List HashEntry) × (es : Entries) × (r.body ≡ hash hv)
          × (o ≡ Out.hash es)
          × StaysHash inflate hv
          × PlainEntries heap inflate Entries.empty hv es)
        ⊎ ((av : List (Option Sv)) × (vs : Elements) × (r.body ≡ array av)
            × (o ≡ Out.array vs)
            × PlainElements heap inflate Elements.end av vs)
  shape_body (p_hash at' none_here body stays es) at = inl (_, _, cc, refl, stays, es)
  shape_body (p_array at' none_here body vs) at = inr (_, _, cc, refl, vs)

  pub shape_hash :
      {p : ℕ} {o : Out} {r : Referent} {hv : List HashEntry}
      → Plain heap inflate (rv p) o
      → referent_at heap p ≡ ok r
      → r.body ≡ hash hv
      → (es : Entries) × (o ≡ Out.hash es)
        × StaysHash inflate hv
        × PlainEntries heap inflate Entries.empty hv es
  shape_hash shape at body = elim (shape_body shape at) [
    | inl (hv', es, body', is, stays, entries) ↦ (
      es,
      is,
      subst (StaysHash inflate) (hash_same (sym body' ∙ body)) stays,
      subst (λ h. PlainEntries heap inflate Entries.empty h es) (hash_same (sym body' ∙ body))
          entries,
    )
    | inr (av', vs, body', is, elements) ↦ cc
  ]

  pub shape_array :
      {p : ℕ} {o : Out} {r : Referent} {av : List (Option Sv)}
      → Plain heap inflate (rv p) o
      → referent_at heap p ≡ ok r
      → r.body ≡ array av
      → (vs : Elements) × (o ≡ Out.array vs) × PlainElements heap inflate Elements.end av vs
  shape_array shape at body = elim (shape_body shape at) [
    | inl (hv', es, body', is, stays, entries) ↦ cc
    | inr (av', vs, body', is, elements) ↦ (
      vs,
      is,
      subst (λ h. PlainElements heap inflate Elements.end h vs) (array_same (sym body' ∙ body))
          elements,
    )
  ]

  pub no_bytes {ℓ} :
      {C : Type ℓ} {p : ℕ} {o : Out} {r : Referent} {s : Scalar}
      → Plain heap inflate (rv p) o
      → referent_at heap p ≡ ok r
      → r.body ≡ plain s
      → C
  no_bytes shape at body = elim (shape_body shape at) [
    | inl (hv', es, body', is, stays, entries) ↦ cc
    | inr (av', vs, body', is, elements) ↦ cc
  ]

  pub no_ix {ℓ} :
      {C : Type ℓ} {p : ℕ} {o : Out} {r : Referent} {ix : IxHash}
      → Plain heap inflate (rv p) o
      → referent_at heap p ≡ ok r
      → as_ix_hash r.blessed ≡ ok ix
      → C
  unfolding as_ix_hash
  no_ix {r = r} {ix = ix} (p_hash at' none_here body stays es) at class =
      let unblessed : r.blessed ≡ none = cc in
      let is_none : as_ix_hash none ≡ ok ix = sym (ap as_ix_hash unblessed) ∙ class in cc
  no_ix {r = r} {ix = ix} (p_array at' none_here body es) at class =
      let unblessed : r.blessed ≡ none = cc in
      let is_none : as_ix_hash none ≡ ok ix = sym (ap as_ix_hash unblessed) ∙ class in cc
