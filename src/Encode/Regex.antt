-- ===== src/Encode/Regex.antt =====
-- Regular expression flags: perl_mongo_regex_flags and serialize_regex_flags (Perl 5.10 and later).
use mongo_perl_driver.Common.{
  ℕ, suc, ◌+◌, ◌≤◌, ◌≡◌, refl, ap, ◌≢◌, inl, inr, Bool, true, ◌||◌, Option, none, some, [], ◌∷◌,
  arith, ◌==◌, if◌then◌else◌, ==_iff, Bool-cases, length, take, All,
}
use mongo_perl_driver.Perl.{Bytes}
use mongo_perl_driver.Outcome.{Outcome, ok, croak, ◌>>=◌, regex_introspection}
use mongo_perl_driver.Encode.Keys.{c_string}

-- strncpy(flags_ptr, flags, 7) into eight zero bytes; `none` is a call of re::regexp_pattern
-- that did not return two items.
unfoldable pub regex_flags : Option Bytes → Outcome Bytes
regex_flags none = croak regex_introspection
regex_flags (some flags) = ok (take 7 (c_string flags))

-- i m x s
unfoldable pub is_supported : ℕ → Bool
is_supported c = (c == 105) || (c == 109) || (c == 120) || (c == 115)

-- The loop over flags_tmp: the flags that are kept, and those that are warned about.
unfoldable pub split_flags : Bytes → Bytes × Bytes
split_flags [] = ([], [])
split_flags (c ∷ cs) =
    let (kept, stripped) = split_flags cs in
    if is_supported c then (c ∷ kept, stripped) else (kept, c ∷ stripped)

unfoldable pub serialize_regex_flags : Option Bytes → Outcome (Bytes × Bytes)
serialize_regex_flags flags = do flags_tmp ← regex_flags flags; ok (split_flags flags_tmp)

abbrev pub Distinct : Bytes → Type 0
Distinct [] = Unit
Distinct (x ∷ xs) = All (λ y. x ≢ y) xs × Distinct xs

unfoldable pub count : ℕ → Bytes → ℕ
count a [] = 0
count a (x ∷ xs) = if a == x then suc (count a xs) else count a xs

split_flags-supported : (cs : Bytes) → All (λ c. is_supported c ≡ true) (split_flags cs).0
unfolding split_flags
split_flags-supported [] = tt
split_flags-supported (c ∷ cs) = elim (Bool-cases (is_supported c)) [
  | inl e ↦ rw e (e, split_flags-supported cs)
  | inr e ↦ rw e (split_flags-supported cs)
]

split_flags-count :
    (a : ℕ) (cs : Bytes) → count a (split_flags cs).0 + count a (split_flags cs).1 ≡ count a cs
unfolding split_flags count
split_flags-count a [] = refl
split_flags-count a (c ∷ cs) = ground (arith, split_flags-count a cs)

absent : (a : ℕ) (xs : Bytes) → All (λ y. a ≢ y) xs → count a xs ≡ 0
unfolding count
absent a [] h = refl
absent a (x ∷ xs) h = ground (arith, absent a xs h.1)

count-Distinct : (a : ℕ) (xs : Bytes) → Distinct xs → count a xs ≤ 1
unfolding count
count-Distinct a [] h = omega arith
count-Distinct a (x ∷ xs) h = elim (Bool-cases (a == x)) [
  | inl e ↦ rw e (omega (arith, absent x xs h.0, ap (λ (b : ℕ). count b xs) ((==_iff a x).0 e)))
  | inr e ↦ rw e (count-Distinct a xs h.1)
]

four_kinds :
    (xs : Bytes)
    → All (λ c. is_supported c ≡ true) xs
    → length xs ≡ count 105 xs + count 109 xs + count 120 xs + count 115 xs
unfolding count is_supported
four_kinds [] h = refl
four_kinds (x ∷ xs) h = ground (arith, four_kinds xs h.1, h.0)

-- When the interpreter lists no flag twice, at most four flags are kept, which leaves the
-- terminating NUL in the five bytes of serialize_regex; each is one of i, m, x, s; and every flag
-- that was read is either kept or warned about, as often as it was read.
pub serialize_regex_flags_lem :
    (flags kept stripped : Bytes)
    → Distinct (take 7 (c_string flags))
    → serialize_regex_flags (some flags) ≡ ok (kept, stripped)
    → (length kept ≤ 4)
      × All (λ c. is_supported c ≡ true) kept
      × ((a : ℕ) → count a kept + count a stripped ≡ count a (take 7 (c_string flags)))
unfolding serialize_regex_flags regex_flags ◌>>=◌
serialize_regex_flags_lem flags kept stripped h e =
    let tmp = take 7 (c_string flags) in
    let split : split_flags tmp ≡ (kept, stripped) = cc in
    let counts = λ (a : ℕ). rw split at (split_flags-count a tmp) in
    let good : All (λ c. is_supported c ≡ true) kept = rw split at (split_flags-supported tmp) in
    (
      omega (
        arith,
        four_kinds kept good,
        counts 105,
        counts 109,
        counts 120,
        counts 115,
        count-Distinct 105 tmp h,
        count-Distinct 109 tmp h,
        count-Distinct 120 tmp h,
        count-Distinct 115 tmp h,
      ),
      good,
      counts,
    )
