-- ===== src/Interp/Balance.antt =====
-- What the driver's calls of Perl code do to the stacks of the interpreter.
use mongo_perl_driver.Common.{
  ℕ, suc, ◌+◌, ◌≡◌, ap, ◌∙◌, ◌⊎◌, inl, inr, Bool, true, false, Option, some, List, [], ◌∷◌,
  if◌then◌else◌, length, arith, ==_iff, Bool-cases, ◌==◌,
}
use mongo_perl_driver.Perl.{Bytes}
use mongo_perl_driver.Outcome.{
  ok, croak, ◌>>=◌, require, perl_died, Croak, no_reader_value, no_method_value, no_instance,
  regex_introspection,
}
use mongo_perl_driver.Interp.{
  Interp, scalar_flags, constructor_name, Call, begin_call, put_back, push_value, push_values,
  take_value, call_reader, call_method_with, call_function, construct_instance,
  construct_instance_single_arg, regexp_pattern,
}
use mongo_perl_driver.Interp.Frames.{
  Begun, Begun-begin_call, Begun-push_value, Begun-push_string, Begun-push_values, Begun-push_pairs,
}
use mongo_perl_driver.Interp.Arguments.{
  Values, Instance, InstancePairs, push_values-Values, push_pairs-Instance, push_value-Instance,
}
use mongo_perl_driver.Interp.Returns.{CallLaws, GivesValue, MethodEnds, value_taken, method_ended}

Begun-put_back : (it now : Interp) (sp : ℕ) → Begun it now → Begun it (put_back sp now)
unfolding put_back
Begun-put_back it now sp b = record {
  pushed = b.pushed;
  marks = b.marks;
  scopes = b.scopes;
  floor = b.floor;
  tmps = b.tmps;
  below = b.below;
}

-- The end of each function: the call in scalar context, and its value.
called :
    (call : Call) (laws : CallLaws call) (name : Bytes) (c : Croak) (it now : Interp) (sp : ℕ)
    → Begun it now
    → (Args : Interp → Type 0) → Args (put_back sp now)
    → GivesValue call name it Args (do
      (count, back) ← call name scalar_flags (put_back sp now)
      take_value (require (count == 1) c) back)
unfolding ◌>>=◌
called call laws name c it now sp b Args args =
    let b' = Begun-put_back it now sp b in
    elim (laws.returns name scalar_flags (put_back sp now) it.sp it.marks b'.marks) [
      | inl died ↦ inl (rw (died))
      | inr (count, back, ran, counts, returned) ↦
          let one : count ≡ 1 = elim counts [ inl in_list ↦ cc | inr one ↦ one ] in
          let test = (==_iff count 1).1 one in
          let (ret, out, taken, is, alive, balanced) =
            value_taken it (put_back sp now) back b' returned one in
          rw (ran, test)
            (inr (
              ret,
              out,
              taken,
              (back, (put_back sp now, b', args, ran ∙ ap (λ n. ok (n, back)) one), is),
              alive,
              balanced,
            ))
    ]

module _ (call_method call_pv : Call) (method_laws : CallLaws call_method)
    (pv_laws : CallLaws call_pv) where
  call_reader_lem :
      (self : ℕ) (reader : Bytes) (it : Interp)
      → GivesValue call_method reader it
          (Values it.sp (self ∷ []))
          (call_reader call_method call_pv self reader it)
  unfolding call_reader push_values
  call_reader_lem self reader it =
      called call_method method_laws reader no_reader_value it _ (suc it.sp)
        (Begun-push_value it _ it.sp self (omega arith) (Begun-begin_call it)) _
        (push_values-Values it.sp (self ∷ []) (begin_call it)).1

  call_function_lem :
      (func : Bytes) (args : List ℕ) (it : Interp)
      → GivesValue call_pv func it
          (Values it.sp args)
          (call_function call_method call_pv func args it)
  unfolding call_function
  call_function_lem func args it =
      called call_pv pv_laws func no_method_value it _ _
        (Begun-push_values it it.sp args _ (omega arith) (Begun-begin_call it)).0 _
        (push_values-Values it.sp args (begin_call it)).1

  construct_instance_lem :
      (klass : Bytes) (args : List (Bytes × ℕ)) (it : Interp)
      → GivesValue call_method constructor_name it
          (InstancePairs it.sp klass args)
          (construct_instance call_method call_pv klass args it)
  unfolding construct_instance
  construct_instance_lem klass args it =
      called call_method method_laws constructor_name no_instance it _ _
        (Begun-push_pairs it (suc it.sp) args _ (omega arith)
          (Begun-push_string it _ it.sp klass (omega arith) (Begun-begin_call it))).0
        _ (push_pairs-Instance it.sp klass args (begin_call it))

  construct_instance_single_arg_lem :
      (klass : Bytes) (arg : ℕ) (it : Interp)
      → GivesValue call_method constructor_name it
          (Instance it.sp klass (arg ∷ []))
          (construct_instance_single_arg call_method call_pv klass arg it)
  unfolding construct_instance_single_arg
  construct_instance_single_arg_lem klass arg it =
      called call_method method_laws constructor_name no_instance it _ _
        (Begun-push_value it _ (suc it.sp) arg (omega arith)
          (Begun-push_string it _ it.sp klass (omega arith) (Begun-begin_call it)))
        _ (push_value-Instance it.sp klass arg (begin_call it))

  -- perl_mongo_call_reader, perl_mongo_call_function, perl_mongo_construct_instance and
  -- perl_mongo_construct_instance_single_arg end in one of two ways, when the interpreter calls
  -- Perl code as it documents: the Perl code dies, or they give the one value that the call of the
  -- method, the function or the constructor, with the arguments given, returned, which stands in
  -- the cell above the mark; a reference to it is left when the temporaries of the call are freed,
  -- and the argument stack, the marks, the scopes and the temporaries are as they were before.
  pub calls-GivesValue :
      (self : ℕ) (name : Bytes) (args : List ℕ) (pairs : List (Bytes × ℕ)) (it : Interp)
      → GivesValue call_method name it
          (Values it.sp (self ∷ []))
          (call_reader call_method call_pv self name it)
        × GivesValue call_pv name it
            (Values it.sp args)
            (call_function call_method call_pv name args it)
        × GivesValue call_method constructor_name it
            (InstancePairs it.sp name pairs)
            (construct_instance call_method call_pv name pairs it)
        × GivesValue call_method constructor_name it
            (Instance it.sp name (self ∷ []))
            (construct_instance_single_arg call_method call_pv name self it)
  calls-GivesValue self name args pairs it = (
    call_reader_lem self name it,
    call_function_lem name args it,
    construct_instance_lem name pairs it,
    construct_instance_single_arg_lem name self it,
  )

  -- perl_mongo_call_method outside list context ends in one of these ways, when the interpreter
  -- calls Perl code as it documents: the Perl code dies; without G_DISCARD it gives the one value
  -- that the call of the method, with its object and the arguments, returned, which stands in the
  -- cell above the mark and to which a reference is left, and the stacks of the interpreter are as
  -- they were; with G_DISCARD it has made the same call, gives no value and the stack pointer is
  -- left higher than before by the object and the number of the arguments, the rest of the stacks
  -- being as it was.
  pub call_method_with_lem :
      (self : ℕ) (method : Bytes) (args : List ℕ) (discard : Bool) (it : Interp)
      → (call_method_with call_method call_pv self method
            (record { array = false; discard = discard })
            args
            it
          ≡ croak perl_died)
        ⊎ ((ret : Option ℕ) × (out : Interp) × (call_method_with call_method call_pv self method
                (record { array = false; discard = discard })
                args
                it
              ≡ ok (ret, out))
            × MethodEnds call_method method it
                (Values it.sp (self ∷ args))
                discard
                (suc (length args))
                ret
                out)
  unfolding call_method_with push_values ◌>>=◌
  call_method_with_lem self method args discard it =
      let begun = Begun-push_value it _ it.sp self (omega arith) (Begun-begin_call it) in
      let pushed = push_values-Values it.sp (self ∷ args) (begin_call it) in
      let (b, top) = Begun-push_values it (suc it.sp) args _ (omega arith) begun in
      let sp = (push_values (suc it.sp) args (push_value it.sp self (begin_call it))).0 in
      let now =
        put_back sp (push_values (suc it.sp) args (push_value it.sp self (begin_call it))).1 in
      let b' = Begun-put_back it _ sp b in
      elim (method_laws.returns method (record { array = false; discard = discard }) now it.sp
        it.marks b'.marks) [
          | inl died ↦ inl (rw (died))
          | inr (count, back, ran, counts, returned) ↦
              let counted : count ≡ (if discard then 0 else 1) = elim counts [
                | inl in_list ↦ cc
                | inr n ↦ n
              ] in
              let (ret, out, done, ends) =
                method_ended it now back sp (suc (length args)) discard b' returned counted
                  (omega arith) call_method method (Values it.sp (self ∷ args)) pushed.1 ran in
              inr (ret, out, rw (ran) done, ends)
        ]

  -- perl_mongo_regex_flags, when the interpreter calls Perl code as it documents: the Perl code
  -- dies, it croaks because there are not two values, or it leaves the two values on the argument
  -- stack and the scope that it has entered open.
  pub regexp_pattern_lem :
      (func : Bytes) (re : ℕ) (it : Interp)
      → (regexp_pattern call_method call_pv func re it ≡ croak perl_died)
        ⊎ ((regexp_pattern call_method call_pv func re it ≡ croak regex_introspection)
            ⊎ ((flags : ℕ) × (out : Interp) × (regexp_pattern call_method call_pv func re it
                  ≡ ok (flags, out))
                × (out.sp ≡ it.sp + 2)
                × (out.scopes ≡ some it.floor ∷ it.scopes)))
  unfolding regexp_pattern ◌>>=◌
  regexp_pattern_lem func re it =
      let begun = Begun-push_value it _ it.sp re (omega arith) (Begun-begin_call it) in
      let now = put_back (suc it.sp) (push_value it.sp re (begin_call it)) in
      let b' = Begun-put_back it _ (suc it.sp) begun in
      elim (pv_laws.returns func (record { array = true; discard = false }) now it.sp it.marks
        b'.marks) [
          | inl died ↦ inl (rw (died))
          | inr (count, back, ran, counts, returned) ↦ inr (elim (Bool-cases (count == 2)) [
            | inl two ↦
                let is : count ≡ 2 = (==_iff count 2).0 two in
                inr (
                  back.cells back.sp,
                  back,
                  rw (ran, two),
                  returned.sp ∙ ap (λ n. it.sp + n) is,
                  returned.scopes ∙ b'.scopes,
                )
            | inr other ↦ inl (rw (ran, other))
          ])
        ]
