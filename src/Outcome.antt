-- ===== src/Outcome.antt =====
-- How a call of the driver's C code ends: with a value, or by one of perl_mongo.c's croaks.
use mongo_perl_driver.Common.{◌≡◌, refl, ◌≢◌, Bool, true, false}

pub data Croak : Type 0 where
  circular_ref empty_key dot_in_key null_in_key no_hash_value no_array_value no_ixhash_value : Croak
  bigint_sign bigint_value bigint_too_large bigint_element string_not_pok wide_character : Croak
  unhandled_class unhandled_ref unhandled_sv unhandled_type not_a_reference odd_elements : Croak
  regex_introspection bad_dt_type unsupported_type bad_scope no_iterator : Croak
  not_an_object invalid_object : Croak
  no_reader_value no_method_value no_instance list_context : Croak
  -- Perl code that was called has died
  perl_died : Croak
  -- what the C code would do at a pointer that leads nowhere
  bad_pointer : Croak

-- `stuck` is no ending of the code: the model's recursion ran out of fuel.
pub data Outcome {ℓ} (A : Type ℓ) : Type ℓ where
  ok : A → Outcome A
  croak : Croak → Outcome A
  stuck : Outcome A

infixl 5 ◌>>=◌ ◌>>◌
unfoldable pub ◌>>=◌ {ℓ κ} : {A : Type ℓ} {B : Type κ} → Outcome A → (A → Outcome B) → Outcome B
ok a >>= f = f a
croak c >>= f = croak c
stuck >>= f = stuck

abbrev pub ◌>>◌ {ℓ} : {B : Type ℓ} → Outcome (Unit {0}) → Outcome B → Outcome B
m >> k = m >>= λ _. k

-- croak(c) when the test fails
abbrev pub require : Bool → Croak → Outcome (Unit {0})
require true c = ok tt
require false c = croak c

pub >>=-eq-ok {ℓ κ} :
    {A : Type ℓ} {B : Type κ} (m : Outcome A) (f : A → Outcome B) {b : B}
    → (m >>= f) ≡ ok b
    → (a : A) × (m ≡ ok a) × (f a ≡ ok b)
unfolding ◌>>=◌
>>=-eq-ok (ok a) f h = (a, refl, h)
>>=-eq-ok (croak c) f h = cc
>>=-eq-ok stuck f h = cc

pub >>=-ne-stuck {ℓ κ} :
    {A : Type ℓ} {B : Type κ} (m : Outcome A) (f : A → Outcome B)
    → m ≢ stuck
    → ((a : A) → m ≡ ok a → f a ≢ stuck)
    → (m >>= f) ≢ stuck
unfolding ◌>>=◌
>>=-ne-stuck (ok a) f h k = k a refl
>>=-ne-stuck (croak c) f h k = λ e. cc
>>=-ne-stuck stuck f h k = λ e. h refl

pub ok-ne-stuck {ℓ} : {A : Type ℓ} (a : A) → ok a ≢ stuck
ok-ne-stuck a e = cc

pub require-ne-stuck : (b : Bool) (c : Croak) → require b c ≢ stuck
require-ne-stuck true c = λ e. cc
require-ne-stuck false c = λ e. cc

pub unit-ok : (m : Outcome (Unit {0})) (u : Unit {0}) → m ≡ ok u → m ≡ ok tt
unit-ok m tt h = h

pub ok_same {ℓ} : {A : Type ℓ} {a b : A} → ok a ≡ ok b → a ≡ b
ok_same h = cc
