-- ===== src/Interp/Returns.antt =====
-- How the interpreter is left by Perl code and by the end of the functions that call it.
use mongo_perl_driver.Common.{
  ℕ, suc, ◌+◌, ◌-◌, ◌≤◌, ◌<◌, ◌≡◌, refl, sym, ap, ◌∙◌, ◌⊎◌, inl, inr, Bool, true, false, Option,
  none, some, List, ◌∷◌, ◌++◌, if◌then◌else◌, append_assoc, length, arith, ==_iff,
}
use mongo_perl_driver.Perl.{Bytes}
use mongo_perl_driver.Outcome.{Outcome, ok, croak, ◌>>=◌, require, perl_died, no_method_value}
use mongo_perl_driver.Interp.{
  Interp, set_at, set_at_here, free_above, Flags, scalar_flags, Call, put_back, free_tmps,
  leave_scope, end_call, take_value, method_value,
}
use mongo_perl_driver.Interp.Frames.{held_by, held_by-append, free_tmps_left, free_refs, Begun}

-- The interpreter when Perl code has returned: the last mark and what lay above it are gone, the
-- values that it returned stand in their place, and every temporary holds a reference.
pub record Returned (it : Interp) (mark : ℕ) (marks : List ℕ) (count : ℕ) (back : Interp)
    : Type 0 where
  pub added : List ℕ
  pub marks_left : back.marks ≡ marks
  pub scopes : back.scopes ≡ it.scopes
  pub floor : back.floor ≡ it.floor
  pub sp : back.sp ≡ mark + count
  pub below : (i : ℕ) → i ≤ mark → back.cells i ≡ it.cells i
  pub tmps : back.tmps ≡ added ++ it.tmps
  pub held : (p : ℕ) → held_by p back.tmps ≤ back.refs p

-- How many values Perl code returns: one in scalar context, none with G_DISCARD, and any number in
-- list context.
abbrev pub Counts : Flags → ℕ → Type 0
Counts flags count = (flags.array ≡ true) ⊎ (count ≡ (if flags.discard then 0 else 1))

-- What call_method and call_pv document: the Perl code dies, or returns.
pub record CallLaws (call : Call) : Type 0 where
  pub returns :
      (name : Bytes) (flags : Flags) (it : Interp) (mark : ℕ) (marks : List ℕ)
      → it.marks ≡ mark ∷ marks
      → (call name flags it ≡ croak perl_died)
        ⊎ ((count : ℕ) × (back : Interp) × (call name flags it ≡ ok (count, back))
            × Counts flags count
            × Returned it mark marks count back)

-- The stacks are as they were.
pub record Balanced (it out : Interp) : Type 0 where
  pub sp : out.sp ≡ it.sp
  pub marks : out.marks ≡ it.marks
  pub scopes : out.scopes ≡ it.scopes
  pub floor : out.floor ≡ it.floor
  pub tmps : out.tmps ≡ it.tmps
  pub below : (i : ℕ) → i ≤ it.sp → out.cells i ≡ it.cells i

-- Perl code has been called, with the stacks as they are for a call, its mark at the stack pointer
-- of `it` and these arguments above the mark, and has returned so many values.
abbrev pub IsCalled : Call → Bytes → Flags → Interp → (Interp → Type 0) → ℕ → Interp → Type 0
IsCalled call name flags it Args count back =
    (now : Interp) × Begun it now × Args now × (call name flags now ≡ ok (count, back))

-- It has returned one value, and this is the value: the cell above the mark.
abbrev pub IsReturned : Call → Bytes → Flags → Interp → (Interp → Type 0) → ℕ → Type 0
IsReturned call name flags it Args ret =
    (back : Interp) × IsCalled call name flags it Args 1 back × (ret ≡ back.cells (it.sp + 1))

-- Of perl_mongo_call_method: without G_DISCARD the value that the method has returned, which has a
-- reference left, and the stacks as they were; with it no value, and all as it was but this many
-- values more on the argument stack.
abbrev pub MethodEnds :
    Call → Bytes → Interp → (Interp → Type 0) → Bool → ℕ → Option ℕ → Interp → Type 0
MethodEnds call name it Args discard extra ret out =
    ((discard ≡ false)
      × (p : ℕ) × (ret ≡ some p)
      × IsReturned call name (record { array = false; discard = false }) it Args p
      × (0 < out.refs p)
      × Balanced it out)
    ⊎ ((discard ≡ true)
        × (ret ≡ none)
        × ((back : Interp) × IsCalled call name (record { array = false; discard = true }) it Args 0
              back)
        × Balanced it (record out { sp = it.sp })
        × (out.sp ≡ it.sp + extra))

-- The Perl code has died, or the value that it has returned is given, which has a reference left,
-- and the stacks are as they were.
abbrev pub GivesValue : Call → Bytes → Interp → (Interp → Type 0) → Outcome (ℕ × Interp) → Type 0
GivesValue call name it Args r =
    (r ≡ croak perl_died)
    ⊎ ((ret : ℕ) × (out : Interp) × (r ≡ ok (ret, out))
        × IsReturned call name scalar_flags it Args ret
        × (0 < out.refs ret)
        × Balanced it out)

-- FREETMPS and LEAVE close the scope of the call.
ended :
    (it back : Interp) (sp : ℕ) (above : List ℕ)
    → back.scopes ≡ some it.floor ∷ it.scopes
    → back.floor ≡ length it.tmps
    → back.tmps ≡ above ++ it.tmps
    → end_call sp back ≡ record back {
      sp = sp;
      scopes = it.scopes;
      floor = it.floor;
      tmps = it.tmps;
      refs = (free_above (length it.tmps) (above ++ it.tmps) back.refs).1;
    }
unfolding end_call put_back free_tmps leave_scope
ended it back sp above scopes floor tmps =
    rw (scopes, floor, tmps, free_tmps_left above it.tmps back.refs)

module _ (it now back : Interp) (begun : Begun it now) {count : ℕ}
    (r : Returned now it.sp it.marks count back) where
  pub ended_call :
      (sp : ℕ) (refs : ℕ → ℕ)
      → end_call sp (record back { refs = refs }) ≡ record back {
        sp = sp;
        scopes = it.scopes;
        floor = it.floor;
        tmps = it.tmps;
        refs = (free_above (length it.tmps) ((r.added ++ begun.pushed) ++ it.tmps) refs).1;
      }
  ended_call sp refs =
      let tmps : back.tmps ≡ (r.added ++ begun.pushed) ++ it.tmps =
        r.tmps
        ∙ ap (λ ps. r.added ++ ps) begun.tmps
        ∙ sym (append_assoc r.added begun.pushed it.tmps) in
      ended it (record back { refs = refs }) sp (r.added ++ begun.pushed) (r.scopes ∙ begun.scopes)
        (r.floor ∙ begun.floor) tmps

  pub value_taken :
      count ≡ 1
      → (ret : ℕ) × (out : Interp) × (take_value (ok tt) back ≡ ok (ret, out))
        × (ret ≡ back.cells (it.sp + 1))
        × (0 < out.refs ret)
        × Balanced it out
  unfolding take_value ◌>>=◌
  value_taken one =
      let above = r.added ++ begun.pushed in
      let ret = back.cells back.sp in
      let refs = set_at back.refs ret (suc (back.refs ret)) in
      let cost = free_refs above it.tmps refs ret in
      let held = r.held ret in
      let split = held_by-append ret above it.tmps in
      let one_more = set_at_here back.refs ret (suc (back.refs ret)) in
      let tmps : back.tmps ≡ above ++ it.tmps =
        r.tmps
        ∙ ap (λ ps. r.added ++ ps) begun.tmps
        ∙ sym (append_assoc r.added begun.pushed it.tmps) in
      let same = ap (held_by ret) tmps in
      let top : back.sp ≡ it.sp + count = r.sp in
      (
        ret,
        _,
        ap (λ x. ok (ret, x)) (ended_call (back.sp - 1) refs),
        ap back.cells (top ∙ ap (λ n. it.sp + n) one),
        omega arith,
        record {
          sp = omega arith;
          marks = r.marks_left;
          scopes = refl;
          floor = refl;
          tmps = refl;
          below = λ i h. r.below i h ∙ begun.below i h;
        },
      )

-- The end of perl_mongo_call_method, after the call.
pub method_ended :
    (it now back : Interp) (sp extra : ℕ) (discard : Bool) (begun : Begun it now) {count : ℕ}
    → Returned now it.sp it.marks count back
    → count ≡ (if discard then 0 else 1)
    → sp ≡ it.sp + extra
    → (call : Call) (name : Bytes) (Args : Interp → Type 0) → Args now
    → call name (record { array = false; discard = discard }) now ≡ ok (count, back)
    → (ret : Option ℕ) × (out : Interp) × (method_value discard sp count back ≡ ok (ret, out))
      × MethodEnds call name it Args discard extra ret out
unfolding method_value ◌>>=◌
method_ended it now back sp extra false begun {count} r one at call name Args args ran =
    let (ret, out, taken, is, alive, balanced) = value_taken it now back begun r one in
    let test = (==_iff count 1).1 one in
    (
      some ret,
      out,
      ap (λ m. m >>= λ x. ok (some x.0, x.1))
          (ap (λ b. take_value (require b no_method_value) back) test ∙ taken),
      inl (
        refl,
        ret,
        refl,
        (back, (now, begun, args, ran ∙ ap (λ n. ok (n, back)) one), is),
        alive,
        balanced,
      ),
    )
method_ended it now back sp extra true begun r none_back at call name Args args ran = (
  none,
  _,
  ap (λ x. ok (none, x)) (ended_call it now back begun r sp back.refs),
  inr (
    refl,
    refl,
    (back, (now, begun, args, ran ∙ ap (λ n. ok (n, back)) none_back)),
    record {
      sp = refl;
      marks = r.marks_left;
      scopes = refl;
      floor = refl;
      tmps = refl;
      below = λ i h. r.below i h ∙ begun.below i h;
    },
    at,
  ),
)
