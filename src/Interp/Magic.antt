-- ===== src/Interp/Magic.antt =====
-- The C pointers of perl_mongo.c that are attached to Perl objects as magic:
-- perl_mongo_attach_ptr_to_instance, perl_mongo_get_ptr_from_instance and
-- perl_mongo_maybe_get_ptr_from_instance.
use mongo_perl_driver.Common.{
  ℕ, ◌≡◌, refl, ◌&&◌, Bool, true, Option, none, some, List, [], ◌∷◌, ◌==◌, ==_iff, ◌⊎◌, inl, inr,
  Bool-cases, sym, if◌then◌else◌,
}
use mongo_perl_driver.Perl.{Bytes}
use mongo_perl_driver.Outcome.{
  Outcome, ok, croak, ◌>>=◌, ◌>>◌, require, not_an_object, invalid_object,
}
use mongo_perl_driver.Interp.{Interp, Call, construct_instance, set_at, set_at_here, set_at_there}

-- One MAGIC of a value: whether its type is PERL_MAGIC_ext, its table, its pointer (`none` is
-- NULL), and MGf_DUP.
pub record Magic : Type 0 where
  pub is_ext : Bool
  pub mg_virtual : ℕ
  pub mg_ptr : Option ℕ
  pub dup : Bool

-- What a value is asked for: whether it is a reference to an object, and to which.
pub record Instance : Type 0 where
  pub is_object : Bool
  pub referent : ℕ

-- The chain of each value, SvMAGIC first.
abbrev pub Chains : Type 0
Chains = ℕ → List Magic

-- perl_mongo_attach_ptr_to_instance; sv_magicext puts the new magic before the others.
unfoldable pub attach_ptr_to_instance : Instance → Option ℕ → ℕ → Chains → Chains
unfolding set_at
attach_ptr_to_instance self ptr vtbl chains =
    set_at chains self.referent
      (record { is_ext = true; mg_virtual = vtbl; mg_ptr = ptr; dup = true } ∷ chains self.referent)

-- for (mg = SvMAGIC (SvRV (self)); mg; mg = mg->mg_moremagic)
unfoldable pub find_magic : ℕ → List Magic → Option ℕ
find_magic vtbl [] = none
find_magic vtbl (mg ∷ more) =
    let rest = find_magic vtbl more in
    if mg.is_ext && (mg.mg_virtual == vtbl) then mg.mg_ptr else rest

-- perl_mongo_maybe_get_ptr_from_instance
unfoldable pub maybe_get_ptr_from_instance : Instance → ℕ → Chains → Outcome (Option ℕ)
unfolding find_magic
maybe_get_ptr_from_instance self vtbl chains = do
  require self.is_object not_an_object
  ok (find_magic vtbl (chains self.referent))

-- perl_mongo_get_ptr_from_instance
unfoldable pub get_ptr_from_instance : Instance → ℕ → Chains → Outcome ℕ
unfolding maybe_get_ptr_from_instance
get_ptr_from_instance self vtbl chains = do
  p ← maybe_get_ptr_from_instance self vtbl chains
  elim p [ none ↦ croak invalid_object | some ptr ↦ ok ptr ]

-- perl_mongo_construct_instance_with_magic; `instance_of` says what a value refers to.
unfoldable pub construct_instance_with_magic :
    Call
    → Call
    → (ℕ → Instance)
    → Bytes
    → Option ℕ
    → ℕ
    → List (Bytes × ℕ)
    → Interp
    → Chains
    → Outcome (ℕ × Interp × Chains)
unfolding construct_instance attach_ptr_to_instance
construct_instance_with_magic call_method call_pv instance_of klass ptr vtbl args it chains = do
  (ret, it') ← construct_instance call_method call_pv klass args it
  ok (ret, it', attach_ptr_to_instance (instance_of ret) ptr vtbl chains)

-- What perl_mongo_get_ptr_from_instance finds after a pointer has been attached to an object: that
-- pointer, under the table that it was attached with, whatever was attached before; and under
-- another table, or at a value that does not refer to the same object, what it found before.
pub get_ptr_from_instance-attach_ptr_to_instance :
    (self other : Instance) (ptr vtbl vtbl' : ℕ) (chains : Chains)
    → self.is_object ≡ true
    → (get_ptr_from_instance self vtbl (attach_ptr_to_instance self (some ptr) vtbl chains)
        ≡ ok ptr)
      × (((other.referent ≡ self.referent) × (vtbl' ≡ vtbl))
          ⊎ (get_ptr_from_instance other vtbl' (attach_ptr_to_instance self (some ptr) vtbl chains)
              ≡ get_ptr_from_instance other vtbl' chains))
unfolding get_ptr_from_instance maybe_get_ptr_from_instance find_magic attach_ptr_to_instance ◌>>=◌
get_ptr_from_instance-attach_ptr_to_instance self other ptr vtbl vtbl' chains object =
    let found = (==_iff vtbl vtbl).1 refl in
    let more =
      record { is_ext = true; mg_virtual = vtbl; mg_ptr = some ptr; dup = true }
      ∷ chains self.referent in
    let here = set_at_here chains self.referent more in
    (
      rw (here, object, found),
      elim (Bool-cases (other.referent == self.referent)) [
        | inr differs ↦
            let there =
              set_at_there chains self.referent other.referent more
                (λ e. let yes = (==_iff other.referent self.referent).1 e in cc) in
            inr (rw (there))
        | inl same ↦
            let is = (==_iff other.referent self.referent).0 same in
            elim (Bool-cases (vtbl == vtbl')) [
              | inl equal ↦ inl (is, sym ((==_iff vtbl vtbl').0 equal))
              | inr differs ↦ inr (rw (is, here, differs))
            ]
      ],
    )
