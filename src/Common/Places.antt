-- ===== src/Common/Places.antt =====
-- Memory as a list of places, each allocated or freed, and who owns what: things of one kind that
-- own things of another.
use Prim.Native.Nat.{ℕ, zero, suc, ◌<◌}
use mathlib.Core.Path.{◌≡◌, refl, sym, ap, ◌∙◌, subst}
use mathlib.Core.Logic.{◌≢◌, ◌⊎◌, inl, inr}
use mathlib.Core.Option.{Option, none, some}
use mathlib.Core.List.{List, [], ◌∷◌, ◌++◌}
use native.Mathlib.Omega.{arith}
use native.Mathlib.Decide.{ℕ_discrete}
use mongo_perl_driver.Common.Tests.{some_same}
use mongo_perl_driver.Common.Lists.{length, get_elem?}

abbrev pub set_elem {ℓ} : {A : Type ℓ} → List A → ℕ → A → List A
set_elem [] i a = []
set_elem (x ∷ xs) zero a = a ∷ xs
set_elem (x ∷ xs) (suc i) a = x ∷ set_elem xs i a

abbrev pub at {ℓ} : {A : Type ℓ} → List (Option A) → ℕ → Option A
at xs i = elim (get_elem? xs i) [ none ↦ none | some x ↦ x ]

-- Newx: the new place.
abbrev pub alloc {ℓ} : {A : Type ℓ} → List (Option A) → A → List (Option A)
alloc xs a = xs ++ some a ∷ []

-- Safefree of a place: `none` if there is nothing to free.
abbrev pub free {ℓ} : {A : Type ℓ} → List (Option A) → ℕ → Option (List (Option A))
free xs i = elim (at xs i) [ none ↦ none | some a ↦ some (set_elem xs i none) ]

module _ {A : Type 0} where
  pub at-lt : (xs : List (Option A)) (i : ℕ) (a : A) → at xs i ≡ some a → i < length xs
  at-lt [] i a h = cc
  at-lt (x ∷ xs) zero a h = omega arith
  at-lt (x ∷ xs) (suc i) a h = omega (arith, at-lt xs i a h)

  pub at-alloc_old :
      (xs : List (Option A)) (new : A) (i : ℕ) (a : A)
      → at xs i ≡ some a
      → at (alloc xs new) i ≡ some a
  at-alloc_old [] new i a h = cc
  at-alloc_old (x ∷ xs) new zero a h = h
  at-alloc_old (x ∷ xs) new (suc i) a h = at-alloc_old xs new i a h

  pub at-alloc_new : (xs : List (Option A)) (new : A) → at (alloc xs new) (length xs) ≡ some new
  at-alloc_new [] new = refl
  at-alloc_new (x ∷ xs) new = at-alloc_new xs new

  pub at-alloc :
      (xs : List (Option A)) (new : A) (i : ℕ) (a : A)
      → at (alloc xs new) i ≡ some a
      → (at xs i ≡ some a) ⊎ ((i ≡ length xs) × (new ≡ a))
  at-alloc [] new zero a h = inr (refl, cc)
  at-alloc [] new (suc i) a h = inl h
  at-alloc (x ∷ xs) new zero a h = inl h
  at-alloc (x ∷ xs) new (suc i) a h = elim (at-alloc xs new i a h) [
    | inl old ↦ inl old
    | inr fresh ↦ inr (ap suc (fresh.0), fresh.1)
  ]

  pub at-set_other :
      (xs : List (Option A)) (i j : ℕ) (x : Option A) → i ≢ j → at (set_elem xs i x) j ≡ at xs j
  at-set_other [] i j x h = refl
  at-set_other (y ∷ xs) zero zero x h = absurd (h refl)
  at-set_other (y ∷ xs) zero (suc j) x h = refl
  at-set_other (y ∷ xs) (suc i) zero x h = refl
  at-set_other (y ∷ xs) (suc i) (suc j) x h = at-set_other xs i j x (λ e. h (ap suc e))

  pub at-set_self :
      (xs : List (Option A)) (i : ℕ) (x : Option A) (a : A)
      → at (set_elem xs i x) i ≡ some a
      → x ≡ some a
  at-set_self [] i x a h = cc
  at-set_self (y ∷ xs) zero x a h = h
  at-set_self (y ∷ xs) (suc i) x a h = at-set_self xs i x a h

  pub at-set_some :
      (xs : List (Option A)) (i : ℕ) (x : Option A) (a : A)
      → at xs i ≡ some a
      → at (set_elem xs i x) i ≡ x
  at-set_some [] i x a h = cc
  at-set_some (y ∷ xs) zero x a h = refl
  at-set_some (y ∷ xs) (suc i) x a h = at-set_some xs i x a h

  pub at-set_none : (xs : List (Option A)) (i : ℕ) → at (set_elem xs i none) i ≡ none
  at-set_none [] i = refl
  at-set_none (y ∷ xs) zero = refl
  at-set_none (y ∷ xs) (suc i) = at-set_none xs i

pub free_lem :
    {A : Type 0} (xs : List (Option A)) (i : ℕ) (a : A)
    → at xs i ≡ some a
    → free xs i ≡ some (set_elem xs i none)
free_lem xs i a e = rw (free, e)

-- Owned l i: the thing l owns the one at the place i. Both kinds stand in lists of places.
module _ {L : Type 0} (Owned : L → ℕ → Type 0) where
  abbrev pub OwnsAt : List (Option L) → ℕ → ℕ → Type 0
  OwnsAt owners p i = (l : L) × (at owners p ≡ some l) × Owned l i

  -- An owner in a new place owns what it says; the others own what they owned.
  OwnsAt-alloc :
      (owners : List (Option L)) (l : L) (p i : ℕ)
      → OwnsAt (alloc owners l) p i
      → OwnsAt owners p i ⊎ ((p ≡ length owners) × Owned l i)
  OwnsAt-alloc owners l p i o = elim (at-alloc owners l p o.0 o.1) [
    | inl old ↦ inl (o.0, old, o.2)
    | inr fresh ↦ inr (fresh.0, subst (λ k. Owned k i) (sym fresh.1) o.2)
  ]

  -- The owner at a place is taken away.
  pub OwnsAt-set_none :
      (owners : List (Option L)) (p q i : ℕ)
      → OwnsAt (set_elem owners p none) q i
      → (q ≢ p) × OwnsAt owners q i
  OwnsAt-set_none owners p q i o = elim (ℕ_discrete q p) [
    | yes e ↦
        let gone : at (set_elem owners p none) p ≡ some (o.0) =
          subst (λ k. at (set_elem owners p none) k ≡ some (o.0)) e (o.1) in
        let never : none ≡ some (o.0) = sym (at-set_none owners p) ∙ gone in cc
    | no ne ↦ (ne, (o.0, sym (at-set_other owners p q none (λ e. ne (sym e))) ∙ o.1, o.2))
  ]

  OwnsAt-set_elem :
      (owners : List (Option L)) (p q i : ℕ) (l : L)
      → OwnsAt (set_elem owners p (some l)) q i
      → OwnsAt owners q i ⊎ ((q ≡ p) × Owned l i)
  OwnsAt-set_elem owners p q i l o = elim (ℕ_discrete q p) [
    | yes e ↦
        let here : at (set_elem owners p (some l)) p ≡ some (o.0) =
          subst (λ k. at (set_elem owners p (some l)) k ≡ some (o.0)) e (o.1) in
        let same : l ≡ o.0 = some_same (at-set_self owners p (some l) (o.0) here) in
        inr (e, subst (λ k. Owned k i) (sym same) o.2)
    | no ne ↦ inl (o.0, sym (at-set_other owners p q (some l) (λ e. ne (sym e))) ∙ o.1, o.2)
  ]

module _ {S L : Type 0} (Owned : L → ℕ → Type 0) where
  -- What is owned is allocated, and has one owner.
  pub record IsSeparate (things : List (Option S)) (owners : List (Option L)) : Type 0 where
    pub alive : (p i : ℕ) → OwnsAt Owned owners p i → (s : S) × (at things i ≡ some s)
    pub unique : (p q i : ℕ) → OwnsAt Owned owners p i → OwnsAt Owned owners q i → p ≡ q

  pub new_owner :
      (things : List (Option S)) (owners : List (Option L)) (s : S) (l : L)
      → ((i : ℕ) → Owned l i → i ≡ length things)
      → IsSeparate things owners
      → IsSeparate (alloc things s) (alloc owners l)
  new_owner things owners s l fresh_thing h =
      let old_lt : (p i : ℕ) → OwnsAt Owned owners p i → i < length things =
        λ p i o. let (t, is) = h.alive p i o in at-lt things i t is in
      let split : (p i : ℕ)
          → OwnsAt Owned (alloc owners l) p i
          → OwnsAt Owned owners p i ⊎ ((p ≡ length owners) × (i ≡ length things)) =
        λ p i o. elim (OwnsAt-alloc Owned owners l p i o) [
          | inl old ↦ inl old
          | inr (last, own) ↦ inr (last, fresh_thing i own)
        ] in
      record {
        alive = λ p i o. elim (split p i o) [
          | inl old ↦ let (t, is) = h.alive p i old in (t, at-alloc_old things s i t is)
          | inr fresh ↦ (s, rw (fresh.1) (at-alloc_new things s))
        ];
        unique = λ p q i o o'. elim (split p i o) [
          | inl old ↦ elim (split q i o') [
            | inl old' ↦ h.unique p q i old old'
            | inr fresh' ↦ absurd (omega (arith, old_lt p i old))
          ]
          | inr fresh ↦ elim (split q i o') [
            | inl old' ↦ absurd (omega (arith, old_lt q i old'))
            | inr fresh' ↦ fresh.0 ∙ sym (fresh'.0)
          ]
        ];
      }

  pub fewer_owners :
      (things things' : List (Option S)) (owners owners' : List (Option L))
      → ((p i : ℕ) → OwnsAt Owned owners' p i → OwnsAt Owned owners p i)
      → ((p i : ℕ) → OwnsAt Owned owners' p i → at things' i ≡ at things i)
      → IsSeparate things owners
      → IsSeparate things' owners'
  fewer_owners things things' owners owners' split same h = record {
    alive = λ p i o. let (t, is) = h.alive p i (split p i o) in (t, same p i o ∙ is);
    unique = λ p q i o o'. h.unique p q i (split p i o) (split q i o');
  }

  -- A new owner that owns nothing.
  pub new_sharer :
      (things : List (Option S)) (owners : List (Option L)) (l : L)
      → ((i : ℕ) → Owned l i → ⊥)
      → IsSeparate things owners
      → IsSeparate things (alloc owners l)
  new_sharer things owners l none_owned h =
      fewer_owners things things owners (alloc owners l)
        (λ p i o. elim (OwnsAt-alloc Owned owners l p i o) [
          | inl old ↦ old
          | inr fresh ↦ absurd (none_owned i fresh.1)
        ])
        (λ p i o. refl) h

  -- The owner at p is taken away with what it owns.
  pub without_owner :
      (things : List (Option S)) (owners : List (Option L)) (p i : ℕ)
      → OwnsAt Owned owners p i
      → IsSeparate things owners
      → IsSeparate (set_elem things i none) (set_elem owners p none)
  without_owner things owners p i mine h =
      fewer_owners things (set_elem things i none) owners (set_elem owners p none)
        (λ q j w. (OwnsAt-set_none Owned owners p q j w).1)
        (λ q j w. at-set_other things i j none (λ same. (OwnsAt-set_none Owned owners p q j w).0 (
          h.unique q p j (OwnsAt-set_none Owned owners p q j w).1
            (subst (OwnsAt Owned owners p) same mine))))
        h

  -- The owner at p is put in another state, and the things may change while they stay allocated.
  pub changed_owner :
      (things things' : List (Option S)) (owners : List (Option L)) (p : ℕ) (l : L)
      → ((i : ℕ) (s : S) → at things i ≡ some s → (t : S) × (at things' i ≡ some t))
      → ((i : ℕ) → Owned l i → (t : S) × (at things' i ≡ some t))
      → ((i q : ℕ) → Owned l i → OwnsAt Owned owners q i → q ≡ p)
      → IsSeparate things owners
      → IsSeparate things' (set_elem owners p (some l))
  changed_owner things things' owners p l stay there only h = record {
    alive = λ q i o. elim (OwnsAt-set_elem Owned owners p q i l o) [
      | inl old ↦ let (s, is) = h.alive q i old in stay i s is
      | inr (here, own) ↦ there i own
    ];
    unique = λ q r i o o'. elim (OwnsAt-set_elem Owned owners p q i l o) [
      | inl old ↦ elim (OwnsAt-set_elem Owned owners p r i l o') [
        | inl old' ↦ h.unique q r i old old'
        | inr (here', own') ↦ only i q own' old ∙ sym here'
      ]
      | inr (here, own) ↦ elim (OwnsAt-set_elem Owned owners p r i l o') [
        | inl old' ↦ here ∙ sym (only i r own old')
        | inr (here', own') ↦ here ∙ sym here'
      ]
    ];
  }
