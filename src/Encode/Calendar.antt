-- ===== src/Encode/Calendar.antt =====
-- is_leap_year and the surrogate timegm of perl_mongo.c (Windows and Solaris builds).
use mongo_perl_driver.Common.{
  ℕ, zero, suc, ◌+◌, ◌-◌, ◌*◌, ◌/◌, ◌%◌, ◌^◌, ◌≤◌, ◌<◌, ◌≡◌, refl, Bool, true, false, not, ◌&&◌,
  ◌||◌, Option, none, some, List, [], ◌∷◌, arith, ◌==◌, if◌then◌else◌, get_elem?, ℤ, pos, negsuc,
  ◌+ℤ◌, ◌*ℤ◌, pos_laws,
}

-- The fields of struct tm that timegm reads.
pub record Tm : Type 0 where
  pub tm_year : ℤ
  pub tm_mon : ℤ
  pub tm_mday : ℤ
  pub tm_hour : ℤ
  pub tm_min : ℤ
  pub tm_sec : ℤ

-- The conversion of an int to unsigned.
unfoldable pub to_unsigned : ℤ → ℕ
to_unsigned (pos n) = n % 2 ^ 32
to_unsigned (negsuc n) = 2 ^ 32 - 1 - n % 2 ^ 32

unfoldable pub is_leap_year : ℕ → Bool
is_leap_year year =
    let year' = (year + 1900) % 2 ^ 32 in
    (year' % 4 == 0) && (not (year' % 100 == 0) || (year' % 400 == 0))

-- for (i = 70; i < tm->tm_year; ++i) ret += is_leap_year(i) ? 366 : 365; by the rounds left
unfoldable pub year_days : ℕ → ℕ → ℕ
year_days zero i = 0
year_days (suc rounds) i = (if is_leap_year i then 366 else 365) + year_days rounds (i + 1)

unfoldable pub rounds_of : ℤ → ℕ
rounds_of (pos y) = y - 70
rounds_of (negsuc y) = 0

abbrev pub month_start : Bool → List ℕ
month_start false = 0 ∷ 31 ∷ 59 ∷ 90 ∷ 120 ∷ 151 ∷ 181 ∷ 212 ∷ 243 ∷ 273 ∷ 304 ∷ 334 ∷ []
month_start true = 0 ∷ 31 ∷ 60 ∷ 91 ∷ 121 ∷ 152 ∷ 182 ∷ 213 ∷ 244 ∷ 274 ∷ 305 ∷ 335 ∷ []

-- month_start[leap][mon]; `none` is a read outside the table.
unfoldable pub month_days : Bool → ℤ → Option ℕ
month_days leap (pos mon) = get_elem? (month_start leap) mon
month_days leap (negsuc mon) = none

-- ret, from the days before the year and before the month.
unfoldable pub time_from : ℕ → Option ℕ → ℤ → ℤ → ℤ → ℤ → Option ℤ
time_from year_part none mday hour min sec = none
time_from year_part (some month_part) mday hour min sec =
    let days = pos year_part +ℤ pos month_part +ℤ (mday +ℤ negsuc 0) in
    some (((days *ℤ pos 24 +ℤ hour) *ℤ pos 60 +ℤ min) *ℤ pos 60 +ℤ sec)

unfoldable pub timegm : Tm → Option ℤ
timegm tm =
    time_from (year_days (rounds_of tm.tm_year) 70)
      (month_days (is_leap_year (to_unsigned tm.tm_year)) tm.tm_mon) tm.tm_mday tm.tm_hour tm.tm_min
      tm.tm_sec

-- The days of the proleptic Gregorian calendar before the first of January of a year.
abbrev pub days_before_year : ℕ → ℕ
days_before_year y = 365 * (y - 1) + (y - 1) / 4 + (y - 1) / 400 - (y - 1) / 100

leap_rule :
    (y : ℕ)
    → 1900 + y < 2 ^ 32
    → days_before_year (1901 + y)
      ≡ days_before_year (1900 + y) + (if is_leap_year y then 366 else 365)
unfolding is_leap_year
leap_rule y h = ground arith

-- The year loop adds up the days from 1970 on.
pub year_days_lem :
    (r y : ℕ)
    → 1900 + y + r < 2 ^ 32
    → days_before_year (1900 + y) + year_days r y ≡ days_before_year (1900 + y + r)
unfolding year_days
year_days_lem zero y h = omega arith
year_days_lem (suc r) y h =
    omega (arith, leap_rule y (omega arith), year_days_lem r (y + 1) (omega arith))

-- The days of the months before the month `m`.
abbrev pub days_before_month : Bool → ℕ → ℕ
days_before_month leap zero = 0
days_before_month leap (suc zero) = 31
days_before_month leap (suc (suc m)) = 31 + (if leap then 29 else 28) + (m * 153 + 2) / 5

month_start_lem :
    (leap : Bool) (m : ℕ) → m < 12 → month_days leap (pos m) ≡ some (days_before_month leap m)
unfolding month_days
month_start_lem false m h = ground arith
month_start_lem true m h = ground arith

-- Seconds since 1970 of a time of day on the day `d` (from 0) of the month `m` (from 0).
abbrev pub seconds : ℕ → ℕ → ℕ → ℕ → ℕ → ℕ → ℕ
seconds year m d hour min sec =
    let leap = is_leap_year year in
    let days =
      days_before_year (1900 + year) - days_before_year 1970 + days_before_month leap m + d in
    ((days * 24 + hour) * 60 + min) * 60 + sec

abbrev pub tm_of : ℕ → ℕ → ℕ → ℕ → ℕ → ℕ → Tm
tm_of year m d hour min sec = record {
  tm_year = pos year;
  tm_mon = pos m;
  tm_mday = pos (suc d);
  tm_hour = pos hour;
  tm_min = pos min;
  tm_sec = pos sec;
}

unsigned_small : (year : ℕ) → year < 2 ^ 32 → to_unsigned (pos year) ≡ year
unfolding to_unsigned
unsigned_small year h = omega arith

loop_days :
    (year : ℕ)
    → 70 ≤ year
    → year + 1900 < 2 ^ 32
    → year_days (year - 70) 70 ≡ days_before_year (1900 + year) - days_before_year 1970
loop_days year h k =
    let loop = year_days_lem (year - 70) 70 (omega arith) in
    let same : 1900 + 70 + (year - 70) ≡ 1900 + year = omega arith in omega (arith, rw same at loop)

-- From 1970 on, timegm counts the seconds since the epoch by the Gregorian calendar.
pub timegm_lem :
    (year m d hour min sec : ℕ)
    → 70 ≤ year
    → year + 1900 < 2 ^ 32
    → m < 12
    → timegm (tm_of year m d hour min sec) ≡ some (pos (seconds year m d hour min sec))
unfolding timegm rounds_of time_from
timegm_lem year m d hour min sec h k hm =
    let days = loop_days year h k in
    rw (unsigned_small year (omega arith), month_start_lem (is_leap_year year) m hm)
      (simp (pos_laws, days))

-- For a common year from 1900 to 1969 the surrogate timegm gives the time of the same day in 1970.
-- The year is counted from 1900.
pub timegm_before_1970 :
    (year m d hour min sec : ℕ)
    → year ≤ 70
    → is_leap_year year ≡ false
    → timegm (tm_of year m d hour min sec) ≡ timegm (tm_of 70 m d hour min sec)
unfolding timegm rounds_of to_unsigned
timegm_before_1970 year m d hour min sec h common =
    let none_left : year - 70 ≡ 0 = omega arith in
    let small : year % 2 ^ 32 ≡ year = omega arith in
    rw (none_left, small, common) (unfold is_leap_year in refl)
