-- ===== src/Tests/Interpreter.antt =====
-- Calls of Perl code that returns as many values as its context asks for.
use mongo_perl_driver.Common.{
  ℕ, ◌+◌, ◌≤◌, ◌≡◌, refl, ◌⊎◌, inl, inr, true, false, Option, none, some, List, [], ◌∷◌,
  if◌then◌else◌, leb, arith, Bool-cases,
}
use mongo_perl_driver.Outcome.{ok, croak, perl_died, regex_introspection}
use mongo_perl_driver.Interp.{
  Interp, Flags, Call, constructor_name, call_reader, call_method_with, call_function,
  construct_instance, construct_instance_single_arg, regexp_pattern,
}
use mongo_perl_driver.Interp.Frames.{held_by}
use mongo_perl_driver.Interp.Arguments.{Values, Instance, InstancePairs}
use mongo_perl_driver.Interp.Returns.{Returned, Counts, CallLaws, GivesValue, MethodEnds}
use mongo_perl_driver.Interp.Balance.{calls-GivesValue, call_method_with_lem, regexp_pattern_lem}

abbrev count_of : Flags → ℕ
count_of flags = if flags.array then 2 else if flags.discard then 0 else 1

-- The values above the mark are the string at 5.
abbrev after_return : Flags → Interp → ℕ → List ℕ → Interp
after_return flags it mark marks = record it {
  cells = λ i. if leb i mark then it.cells i else 5;
  sp = mark + count_of flags;
  marks = marks;
  refs = λ p. held_by p it.tmps;
}

abbrev returning : Call
returning name flags it = elim it.marks [
  | [] ↦ croak perl_died
  | mark ∷ marks ↦ ok (count_of flags, after_return flags it mark marks)
]

counted : (flags : Flags) → Counts flags (count_of flags)
counted flags = elim (Bool-cases flags.array) [
  | inl in_list ↦ inl in_list
  | inr no_list ↦ inr (rw (no_list))
]

below_mark : (i mark a : ℕ) → i ≤ mark → leb i mark ≡ true
below_mark i mark a h = ground arith

after_return-Returned :
    (flags : Flags) (it : Interp) (mark : ℕ) (marks : List ℕ)
    → Returned it mark marks (count_of flags) (after_return flags it mark marks)
after_return-Returned flags it mark marks = record {
  added = [];
  marks_left = refl;
  scopes = refl;
  floor = refl;
  sp = refl;
  below = λ i h. let low = below_mark i mark 0 h in rw (low);
  tmps = refl;
  held = λ p. omega arith;
}

returning_laws : CallLaws returning
returning_laws = record {
  returns = λ name flags it mark marks h. inr (
    count_of flags,
    after_return flags it mark marks,
    rw (h),
    counted flags,
    after_return-Returned flags it mark marks,
  );
}

abbrev running : Interp
running = record {
  cells = λ i. 0;
  sp = 3;
  marks = 1 ∷ [];
  scopes = none ∷ [];
  tmps = 4 ∷ [];
  floor = 1;
  refs = λ p. 1;
  pv = λ p. [];
  next = 9;
}

calls-GivesValue_example :
    GivesValue returning
      (110 ∷ 115 ∷ [])
      running
      (Values 3 (2 ∷ []))
      (call_reader returning returning 2 (110 ∷ 115 ∷ []) running)
    × GivesValue returning
        (110 ∷ 115 ∷ [])
        running
        (Values 3 (6 ∷ []))
        (call_function returning returning (110 ∷ 115 ∷ []) (6 ∷ []) running)
    × GivesValue returning constructor_name running
        (InstancePairs 3 (110 ∷ 115 ∷ []) ((97 ∷ [], 7) ∷ []))
        (construct_instance returning returning (110 ∷ 115 ∷ []) ((97 ∷ [], 7) ∷ []) running)
    × GivesValue returning constructor_name running
        (Instance 3 (110 ∷ 115 ∷ []) (2 ∷ []))
        (construct_instance_single_arg returning returning (110 ∷ 115 ∷ []) 2 running)
calls-GivesValue_example =
    calls-GivesValue returning returning returning_laws returning_laws 2 (110 ∷ 115 ∷ []) (6 ∷ [])
      ((97 ∷ [], 7) ∷ []) running

call_method_with_lem_example :
    (call_method_with returning returning 2
        (110 ∷ 115 ∷ [])
        (record { array = false; discard = true })
        (6 ∷ [])
        running
      ≡ croak perl_died)
    ⊎ ((ret : Option ℕ) × (out : Interp) × (call_method_with returning returning 2
            (110 ∷ 115 ∷ [])
            (record { array = false; discard = true })
            (6 ∷ [])
            running
          ≡ ok (ret, out))
        × MethodEnds returning (110 ∷ 115 ∷ []) running (Values 3 (2 ∷ 6 ∷ [])) true 2 ret out)
call_method_with_lem_example =
    call_method_with_lem returning returning returning_laws returning_laws 2 (110 ∷ 115 ∷ [])
      (6 ∷ []) true running

regexp_pattern_lem_example :
    (regexp_pattern returning returning [] 2 running ≡ croak perl_died)
    ⊎ ((regexp_pattern returning returning [] 2 running ≡ croak regex_introspection)
        ⊎ ((flags : ℕ) × (out : Interp) × (regexp_pattern returning returning [] 2 running
              ≡ ok (flags, out))
            × (out.sp ≡ 5)
            × (out.scopes ≡ some 1 ∷ none ∷ [])))
regexp_pattern_lem_example =
    regexp_pattern_lem returning returning returning_laws returning_laws [] 2 running
