-- ===== src/Interp/Arguments.antt =====
-- What stands above the mark when the driver calls Perl code: the arguments that it has pushed.
use mongo_perl_driver.Common.{ℕ, suc, ◌≤◌, ◌<◌, ◌≡◌, refl, ap, ◌∙◌, List, [], ◌∷◌, arith}
use mongo_perl_driver.Perl.{Bytes}
use mongo_perl_driver.Interp.{
  Interp, set_at, set_at_here, set_at_there, put_back, push_value, push_string, push_values,
  push_pairs,
}

-- These values stand above the cell sp, and nothing else.
abbrev pub Values : ℕ → List ℕ → Interp → Type 0
Values sp [] now = now.sp ≡ sp
Values sp (p ∷ ps) now = (now.cells (suc sp) ≡ p) × Values (suc sp) ps now

-- So do these pairs, each a string and a value.
abbrev pub Pairs : ℕ → List (Bytes × ℕ) → Interp → Type 0
Pairs sp [] now = now.sp ≡ sp
Pairs sp ((init_arg, value) ∷ args) now =
    (now.pv (now.cells (suc sp)) ≡ init_arg)
    × (now.cells (suc (suc sp)) ≡ value)
    × Pairs (suc (suc sp)) args now

-- A string stands in the cell above sp, and the values above it.
abbrev pub Instance : ℕ → Bytes → List ℕ → Interp → Type 0
Instance sp klass ps now = (now.pv (now.cells (suc sp)) ≡ klass) × Values (suc sp) ps now

abbrev pub InstancePairs : ℕ → Bytes → List (Bytes × ℕ) → Interp → Type 0
InstancePairs sp klass args now = (now.pv (now.cells (suc sp)) ≡ klass) × Pairs (suc sp) args now

pub push_values-Values :
    (sp : ℕ) (ps : List ℕ) (now : Interp)
    → ((i : ℕ) → i ≤ sp → (push_values sp ps now).1.cells i ≡ now.cells i)
      × Values sp ps (put_back (push_values sp ps now).0 (push_values sp ps now).1)
unfolding push_values push_value put_back
push_values-Values sp [] now = ((λ i h. refl), refl)
push_values-Values sp (p ∷ ps) now =
    let (same, rest) = push_values-Values (suc sp) ps (push_value sp p now) in
    (
      (λ i h. same i (omega arith) ∙ set_at_there now.cells (suc sp) i p (λ e. omega arith)),
      (same (suc sp) (omega arith) ∙ set_at_here now.cells (suc sp) p, rest),
    )

pub push_pairs-Pairs :
    (sp : ℕ) (args : List (Bytes × ℕ)) (now : Interp)
    → ((i : ℕ) → i ≤ sp → (push_pairs sp args now).1.cells i ≡ now.cells i)
      × ((p : ℕ) → p < now.next → (push_pairs sp args now).1.pv p ≡ now.pv p)
      × Pairs sp args (put_back (push_pairs sp args now).0 (push_pairs sp args now).1)
unfolding push_pairs push_string push_value put_back
push_pairs-Pairs sp [] now = ((λ i h. refl), (λ p h. refl), refl)
push_pairs-Pairs sp ((init_arg, value) ∷ args) now =
    let x = push_value (suc sp) value (push_string sp init_arg now) in
    let (cells, strings, rest) = push_pairs-Pairs (suc (suc sp)) args x in
    let out = (push_pairs (suc (suc sp)) args x).1 in
    let named : out.cells (suc sp) ≡ now.next =
      cells (suc sp) (omega arith)
      ∙ set_at_there (set_at now.cells (suc sp) now.next) (suc (suc sp)) (suc sp) value
          (λ e. omega arith)
      ∙ set_at_here now.cells (suc sp) now.next in
    (
      (λ i h.
          cells i (omega arith)
          ∙ set_at_there (set_at now.cells (suc sp) now.next) (suc (suc sp)) i value
              (λ e. omega arith)
          ∙ set_at_there now.cells (suc sp) i now.next (λ e. omega arith)),
      (λ p h. strings p (omega arith) ∙ set_at_there now.pv now.next p init_arg (λ e. omega arith)),
      (
        ap out.pv named ∙ strings now.next (omega arith) ∙ set_at_here now.pv now.next init_arg,
        cells (suc (suc sp)) (omega arith)
            ∙ set_at_here (set_at now.cells (suc sp) now.next) (suc (suc sp)) value,
        rest,
      ),
    )

-- The name of a class, and then the pairs.
pub push_pairs-Instance :
    (sp : ℕ) (klass : Bytes) (args : List (Bytes × ℕ)) (now : Interp)
    → InstancePairs sp klass args (
        put_back
          (push_pairs (suc sp) args (push_string sp klass now)).0
          (push_pairs (suc sp) args (push_string sp klass now)).1)
unfolding push_string push_value put_back
push_pairs-Instance sp klass args now =
    let x = push_string sp klass now in
    let (cells, strings, pairs) = push_pairs-Pairs (suc sp) args x in
    let out = (push_pairs (suc sp) args x).1 in
    let named : out.cells (suc sp) ≡ now.next =
      cells (suc sp) (omega arith) ∙ set_at_here now.cells (suc sp) now.next in
    (ap out.pv named ∙ strings now.next (omega arith) ∙ set_at_here now.pv now.next klass, pairs)

-- The name of a class, and then a value.
pub push_value-Instance :
    (sp : ℕ) (klass : Bytes) (arg : ℕ) (now : Interp)
    → Instance sp klass
        (arg ∷ [])
        (put_back (suc (suc sp)) (push_value (suc sp) arg (push_string sp klass now)))
unfolding push_string push_value put_back
push_value-Instance sp klass arg now =
    let named =
      set_at_there (set_at now.cells (suc sp) now.next) (suc (suc sp)) (suc sp) arg
        (λ e. omega arith)
      ∙ set_at_here now.cells (suc sp) now.next in
    (
      ap (set_at now.pv now.next klass) named ∙ set_at_here now.pv now.next klass,
      (set_at_here (set_at now.cells (suc sp) now.next) (suc (suc sp)) arg, refl),
    )
