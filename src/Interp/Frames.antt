-- ===== src/Interp/Frames.antt =====
-- The interpreter's stacks while the driver prepares a call, when the Perl code has returned, and
-- when the driver has taken the value.
use mongo_perl_driver.Common.{
  ℕ, suc, ◌+◌, ◌-◌, ◌≤◌, ◌≡◌, refl, ap, ◌∙◌, inl, inr, true, false, some, List, [], ◌∷◌, ◌++◌, ◌==◌,
  if◌then◌else◌, length, leb, arith, length-append, ==_iff, Bool-cases,
}
use mongo_perl_driver.Perl.{Bytes}
use mongo_perl_driver.Interp.{
  Interp, set_at, set_at_here, set_at_there, free_above, begin_call, push_value, push_string,
  push_values, push_pairs,
}

-- How many of the temporaries are this value.
abbrev pub held_by : ℕ → List ℕ → ℕ
held_by p [] = 0
held_by p (q ∷ tmps) = let rest = held_by p tmps in if p == q then suc rest else rest

pub held_by-append : (p : ℕ) (xs ys : List ℕ) → held_by p (xs ++ ys) ≡ held_by p xs + held_by p ys
held_by-append p [] ys = omega arith
held_by-append p (q ∷ xs) ys = let ih = held_by-append p xs ys in ground arith

at_floor : (n : ℕ) → leb n n ≡ true
at_floor n = ground arith

above_floor : (m n : ℕ) → n ≤ m → leb (suc m) n ≡ false
above_floor m n h = ground arith

still_above : (added below : List ℕ) → leb (suc (length (added ++ below))) (length below) ≡ false
still_above added below =
    above_floor (length (added ++ below)) (length below) (omega (arith, length-append added below))

pub free_tmps_left :
    (added below : List ℕ) (refs : ℕ → ℕ)
    → (free_above (length below) (added ++ below) refs).0 ≡ below
free_tmps_left [] [] refs = refl
free_tmps_left [] (p ∷ below) refs = rw (at_floor (suc (length below)))
free_tmps_left (p ∷ added) below refs =
    rw (still_above added below, free_tmps_left added below (set_at refs p (refs p - 1)))

-- No temporary costs more than the references that it holds.
pub free_refs :
    (added below : List ℕ) (refs : ℕ → ℕ) (p : ℕ)
    → refs p ≤ (free_above (length below) (added ++ below) refs).1 p + held_by p added
free_refs [] [] refs p = omega arith
free_refs [] (q ∷ below) refs p = rw (at_floor (suc (length below))) (omega arith)
free_refs (q ∷ added) below refs p =
    let ih = free_refs added below (set_at refs q (refs q - 1)) p in
    rw (still_above added below) elim (Bool-cases (p == q)) [
      | inl same ↦
          let is : p ≡ q = (==_iff p q).0 same in
          let here : set_at refs q (refs q - 1) p ≡ refs q - 1 =
            rw (is) (set_at_here refs q (refs q - 1)) in
          let one = ap refs is in rw (same) (omega arith)
      | inr other ↦
          let there = set_at_there refs q p (refs q - 1) (λ e. let yes = (==_iff p q).1 e in cc) in
          rw (other) (omega arith)
    ]

-- The scope of a call is open, and so much of the stack is used for its arguments.
pub record Begun (it now : Interp) : Type 0 where
  pub pushed : List ℕ
  pub marks : now.marks ≡ it.sp ∷ it.marks
  pub scopes : now.scopes ≡ some it.floor ∷ it.scopes
  pub floor : now.floor ≡ length it.tmps
  pub tmps : now.tmps ≡ pushed ++ it.tmps
  pub below : (i : ℕ) → i ≤ it.sp → now.cells i ≡ it.cells i

pub Begun-begin_call : (it : Interp) → Begun it (begin_call it)
unfolding begin_call
Begun-begin_call it = record {
  pushed = [];
  marks = refl;
  scopes = refl;
  floor = refl;
  tmps = refl;
  below = λ i h. refl;
}

pub Begun-push_value :
    (it now : Interp) (sp p : ℕ) → it.sp ≤ sp → Begun it now → Begun it (push_value sp p now)
unfolding push_value
Begun-push_value it now sp p above b = record {
  pushed = b.pushed;
  marks = b.marks;
  scopes = b.scopes;
  floor = b.floor;
  tmps = b.tmps;
  below = λ i h. set_at_there now.cells (suc sp) i p (λ e. omega arith) ∙ b.below i h;
}

pub Begun-push_string :
    (it now : Interp) (sp : ℕ) (text : Bytes)
    → it.sp ≤ sp
    → Begun it now
    → Begun it (push_string sp text now)
unfolding push_string
Begun-push_string it now sp text above b =
    let c = Begun-push_value it now sp now.next above b in
    record {
      pushed = now.next ∷ b.pushed;
      marks = c.marks;
      scopes = c.scopes;
      floor = c.floor;
      tmps = ap (λ ps. now.next ∷ ps) b.tmps;
      below = c.below;
    }

pub Begun-push_values :
    (it : Interp) (sp : ℕ) (ps : List ℕ) (now : Interp)
    → it.sp ≤ sp
    → Begun it now
    → Begun it (push_values sp ps now).1 × ((push_values sp ps now).0 ≡ sp + length ps)
unfolding push_values
Begun-push_values it sp [] now above b = (b, omega arith)
Begun-push_values it sp (p ∷ ps) now above b =
    let above' : it.sp ≤ suc sp = omega arith in
    let (c, top) =
      Begun-push_values it (suc sp) ps (push_value sp p now) above'
        (Begun-push_value it now sp p above b) in
    (c, omega arith)

pub Begun-push_pairs :
    (it : Interp) (sp : ℕ) (args : List (Bytes × ℕ)) (now : Interp)
    → it.sp ≤ sp
    → Begun it now
    → Begun it (push_pairs sp args now).1 × (it.sp ≤ (push_pairs sp args now).0)
unfolding push_pairs
Begun-push_pairs it sp [] now above b = (b, above)
Begun-push_pairs it sp ((init_arg, value) ∷ args) now above b =
    let above1 : it.sp ≤ suc sp = omega arith in
    let above2 : it.sp ≤ suc (suc sp) = omega arith in
    Begun-push_pairs it (suc (suc sp)) args _ above2
      (Begun-push_value it _ (suc sp) value above1 (Begun-push_string it now sp init_arg above b))
