-- ===== src/Interp.antt =====
-- The calls of Perl code in perl_mongo.c: perl_mongo_call_reader, perl_mongo_call_method,
-- perl_mongo_call_function, perl_mongo_construct_instance and perl_mongo_regex_flags, with the
-- stacks of the interpreter that they move. The macros of XS (dSP, PUSHMARK, XPUSHs, PUTBACK, SPAGAIN,
-- POPs, ENTER, SAVETMPS, FREETMPS, LEAVE) do what perlguts and perlcall say of them; call_method and
-- call_pv, which run the Perl code, are arguments.
pub mod Magic
pub mod Frames
pub mod Arguments
pub mod Returns
pub mod Balance
use mongo_perl_driver.Common.{
  ℕ, zero, suc, ◌+◌, ◌-◌, Bool, true, false, Option, none, some, List, [], ◌∷◌, ◌==◌, ==_iff,
  ==-false, ◌≡◌, ◌≢◌, refl, if◌then◌else◌, length, not, leb,
}
use mongo_perl_driver.Perl.{Bytes}
use mongo_perl_driver.Outcome.{
  Outcome, ok, croak, ◌>>=◌, ◌>>◌, require, no_reader_value, no_method_value, no_instance,
  list_context, regex_introspection,
}

-- What the calls use of the interpreter. A value is an address.
pub record Interp : Type 0 where
  -- the cells of the argument stack, and PL_stack_sp, the last one in use
  pub cells : ℕ → ℕ
  pub sp : ℕ
  -- the mark stack, the last mark first
  pub marks : List ℕ
  -- the open scopes, the innermost first, each with the PL_tmps_floor that it saved
  pub scopes : List (Option ℕ)
  -- the temporaries, the last first, and how many of them are below PL_tmps_floor
  pub tmps : List ℕ
  pub floor : ℕ
  -- the reference counts, and the strings of the values
  pub refs : ℕ → ℕ
  pub pv : ℕ → Bytes
  -- where newSV puts the next value
  pub next : ℕ

unfoldable pub set_at {ℓ} : {A : Type ℓ} → (ℕ → A) → ℕ → A → ℕ → A
set_at f i a j = if j == i then a else f j

pub set_at_here {ℓ} : {A : Type ℓ} (f : ℕ → A) (i : ℕ) (a : A) → set_at f i a i ≡ a
unfolding set_at
set_at_here f i a = let same = (==_iff i i).1 refl in rw (same)

pub set_at_there {ℓ} : {A : Type ℓ} (f : ℕ → A) (i j : ℕ) (a : A) → j ≢ i → set_at f i a j ≡ f j
unfolding set_at
set_at_there f i j a differs = let other = ==-false j i differs in rw (other)

-- ENTER
unfoldable pub enter_scope : Interp → Interp
enter_scope it = record it { scopes = none ∷ it.scopes }

-- SAVETMPS
abbrev pub save_floor : ℕ → List (Option ℕ) → List (Option ℕ)
save_floor floor (none ∷ scopes) = some floor ∷ scopes
save_floor floor (some saved ∷ scopes) = some saved ∷ scopes
save_floor floor [] = []

unfoldable pub save_tmps : Interp → Interp
save_tmps it = record it { scopes = save_floor it.floor it.scopes; floor = length it.tmps }

-- FREETMPS: every temporary above the floor loses one reference.
abbrev pub free_above : ℕ → List ℕ → (ℕ → ℕ) → List ℕ × (ℕ → ℕ)
free_above floor [] refs = ([], refs)
free_above floor (p ∷ tmps) refs =
    let rest = free_above floor tmps (set_at refs p (refs p - 1)) in
    if leb (suc (length tmps)) floor then (p ∷ tmps, refs) else rest

unfoldable pub free_tmps : Interp → Interp
free_tmps it =
    let (tmps, refs) = free_above it.floor it.tmps it.refs in record it { tmps = tmps; refs = refs }

-- LEAVE
unfoldable pub leave_scope : Interp → Interp
leave_scope it = elim it.scopes [
  | [] ↦ it
  | scope ∷ scopes ↦ elim scope [
    | none ↦ record it { scopes = scopes }
    | some floor ↦ record it { scopes = scopes; floor = floor }
  ]
]

-- PUSHMARK and PUTBACK, of the copy SP of the stack pointer
unfoldable pub push_mark : ℕ → Interp → Interp
push_mark sp it = record it { marks = sp ∷ it.marks }

unfoldable pub put_back : ℕ → Interp → Interp
put_back sp it = record it { sp = sp }

-- XPUSHs onto the copy SP, which grows by one
unfoldable pub push_value : ℕ → ℕ → Interp → Interp
push_value sp p it = record it { cells = set_at it.cells (suc sp) p }

-- mXPUSHp: a new string, which is a temporary.
unfoldable pub push_string : ℕ → Bytes → Interp → Interp
unfolding push_value
push_string sp text it =
    let it' = push_value sp it.next it in
    record it' {
      tmps = it.next ∷ it.tmps;
      refs = set_at it.refs it.next 1;
      pv = set_at it.pv it.next text;
      next = suc it.next;
    }

-- for (; num > 0; num--) XPUSHs (va_arg (args, SV *)): the new SP
unfoldable pub push_values : ℕ → List ℕ → Interp → ℕ × Interp
push_values sp [] it = (sp, it)
push_values sp (p ∷ ps) it = push_values (suc sp) ps (push_value sp p it)

-- while ((init_arg = va_arg (ap, char *)))
unfoldable pub push_pairs : ℕ → List (Bytes × ℕ) → Interp → ℕ × Interp
unfolding push_value push_string
push_pairs sp [] it = (sp, it)
push_pairs sp ((init_arg, value) ∷ args) it =
    push_pairs (suc (suc sp)) args (push_value (suc sp) value (push_string sp init_arg it))

-- Flags of a call that matter: flags & G_ARRAY, and flags & G_DISCARD.
pub record Flags : Type 0 where
  pub array : Bool
  pub discard : Bool

abbrev pub scalar_flags : Flags
scalar_flags = record { array = false; discard = false }

-- dSP; ENTER; SAVETMPS; PUSHMARK (SP)
unfoldable pub begin_call : Interp → Interp
unfolding push_mark save_tmps enter_scope
begin_call it = push_mark it.sp (save_tmps (enter_scope it))

-- PUTBACK; FREETMPS; LEAVE
unfoldable pub end_call : ℕ → Interp → Interp
unfolding put_back free_tmps leave_scope
end_call sp it = leave_scope (free_tmps (put_back sp it))

-- SPAGAIN; if (count != 1) croak; ret = POPs; SvREFCNT_inc (ret); PUTBACK; FREETMPS; LEAVE
unfoldable pub take_value : Outcome (Unit {0}) → Interp → Outcome (ℕ × Interp)
unfolding end_call
take_value one_value it = do
  one_value
  let ret = it.cells it.sp
  ok (ret, end_call (it.sp - 1) (record it { refs = set_at it.refs ret (suc (it.refs ret)) }))

-- The end of perl_mongo_call_method: `sp` is its SP from before the call, which is that of the
-- PUTBACK with G_DISCARD.
unfoldable pub method_value : Bool → ℕ → ℕ → Interp → Outcome (Option ℕ × Interp)
unfolding take_value end_call
method_value true sp count it = ok (none, end_call sp it)
method_value false sp count it = do
  (ret, it') ← take_value (require (count == 1) no_method_value) it
  ok (some ret, it')

-- perl_mongo_call_xs
unfoldable pub call_xs : (Interp → Outcome Interp) → ℕ → Interp → Outcome Interp
unfolding push_mark put_back
call_xs subaddr mark it = do it' ← subaddr (push_mark mark it); ok (put_back it.sp it')

-- call_method or call_pv: the name, the flags, and the count of the values on the stack
abbrev pub Call : Type 0
Call = Bytes → Flags → Interp → Outcome (ℕ × Interp)

-- "new"
abbrev pub constructor_name : Bytes
constructor_name = 110 ∷ 101 ∷ 119 ∷ []

module _ (call_method call_pv : Call) where
  -- perl_mongo_call_reader
  unfoldable pub call_reader : ℕ → Bytes → Interp → Outcome (ℕ × Interp)
  unfolding begin_call push_value put_back take_value
  call_reader self reader it = do
    let sp = it.sp
    let it1 = push_value sp self (begin_call it)
    (count, it2) ← call_method reader scalar_flags (put_back (suc sp) it1)
    take_value (require (count == 1) no_reader_value) it2

  -- perl_mongo_call_method; without a value, ret is NULL.
  unfoldable pub call_method_with :
      ℕ → Bytes → Flags → List ℕ → Interp → Outcome (Option ℕ × Interp)
  unfolding begin_call push_value push_values put_back method_value
  call_method_with self method flags args it = do
    require (not flags.array) list_context
    let sp = it.sp
    let (sp', it1) = push_values (suc sp) args (push_value sp self (begin_call it))
    (count, it2) ← call_method method flags (put_back sp' it1)
    method_value flags.discard sp' count it2

  -- perl_mongo_call_function
  unfoldable pub call_function : Bytes → List ℕ → Interp → Outcome (ℕ × Interp)
  unfolding begin_call push_values put_back take_value
  call_function func args it = do
    let (sp, it1) = push_values it.sp args (begin_call it)
    (count, it2) ← call_pv func scalar_flags (put_back sp it1)
    take_value (require (count == 1) no_method_value) it2

  -- perl_mongo_construct_instance_va, and perl_mongo_construct_instance, which passes its
  -- arguments on
  unfoldable pub construct_instance : Bytes → List (Bytes × ℕ) → Interp → Outcome (ℕ × Interp)
  unfolding begin_call push_string push_pairs put_back take_value
  construct_instance klass args it = do
    let sp = it.sp
    let (sp', it1) = push_pairs (suc sp) args (push_string sp klass (begin_call it))
    (count, it2) ← call_method constructor_name scalar_flags (put_back sp' it1)
    take_value (require (count == 1) no_instance) it2

  -- perl_mongo_construct_instance_single_arg
  unfoldable pub construct_instance_single_arg : Bytes → ℕ → Interp → Outcome (ℕ × Interp)
  unfolding begin_call push_string push_value put_back take_value
  construct_instance_single_arg klass arg it = do
    let sp = it.sp
    let it1 = push_value (suc sp) arg (push_string sp klass (begin_call it))
    (count, it2) ← call_method constructor_name scalar_flags (put_back (suc (suc sp)) it1)
    take_value (require (count == 1) no_instance) it2

  -- perl_mongo_regex_flags up to the strncpy: the value of the flags. There is no PUTBACK,
  -- FREETMPS or LEAVE after the POPs.
  unfoldable pub regexp_pattern : Bytes → ℕ → Interp → Outcome (ℕ × Interp)
  unfolding begin_call push_value put_back
  regexp_pattern func re it = do
    let sp = it.sp
    let it1 = push_value sp re (begin_call it)
    (ret_count, it2) ←
        call_pv func (record { array = true; discard = false }) (put_back (suc sp) it1)
    require (ret_count == 2) regex_introspection
    ok (it2.cells it2.sp, it2)
