-- ===== src/Link/Reader.antt =====
-- What mongo_link_reader returns: however the bytes are cut into pieces, those that the stream
-- still holds, as many as are wanted; fewer if the stream ends.
use mongo_perl_driver.Common.{
  ℕ, zero, suc, ◌+◌, ◌-◌, ◌≤◌, ◌≡◌, refl, sym, ap, ◌∙◌, ◌⊎◌, inl, inr, Bool, true, false, not, ◌&&◌,
  none, some, List, [], ◌∷◌, ◌++◌, append_assoc, append-nil, arith, ltb, ◌==◌, Bool-cases,
  Option-cases, length, take, drop, length-append,
}
use mathlib.Core.Path.{subst}
use mongo_perl_driver.Perl.{Bytes}
use mongo_perl_driver.Outcome.{Outcome, ok}
use mongo_perl_driver.Link.{Network}
use mongo_perl_driver.Link.Cursor.{Read, broken, taken}
use mongo_perl_driver.Link.Hear.{chunk, reader_loop, mongo_link_reader}

-- What recv promises on a stream: the next bytes, at most as many as were asked for, and none
-- only at the end.
pub record Stream (net : Network) : Type 0 where
  pub remaining : net.World → Bytes
  pub received :
      (w : net.World) (n : ℕ) (bs : Bytes)
      → (net.receiver w n).0 ≡ some bs
      → (length bs ≤ n) × (remaining w ≡ bs ++ remaining ((net.receiver w n).1))
  pub ended : (w : net.World) (n : ℕ) → (net.receiver w n).0 ≡ some [] → 1 ≤ n → remaining w ≡ []

minus_zero : (k : ℕ) → k - 0 ≡ k
minus_zero k = omega arith

take-append :
    {A : Type 0} (k : ℕ) (xs ys : List A)
    → length xs ≤ k
    → take k (xs ++ ys) ≡ xs ++ take (k - length xs) ys
take-append k [] ys h = rw (minus_zero k)
take-append zero (x ∷ xs) ys h = absurd (omega (arith, h))
take-append (suc k) (x ∷ xs) ys h =
    let less : suc k - suc (length xs) ≡ k - length xs = omega arith in
    rw (take-append k xs ys (omega (arith, h)), less)

drop-beyond :
    {A : Type 0} (k : ℕ) (xs ys : List A)
    → length xs ≤ k
    → drop k (xs ++ ys) ≡ drop (k - length xs) ys
drop-beyond k [] ys h = rw (minus_zero k)
drop-beyond zero (x ∷ xs) ys h = absurd (omega (arith, h))
drop-beyond (suc k) (x ∷ xs) ys h =
    let less : suc k - suc (length xs) ≡ k - length xs = omega arith in
    rw (drop-beyond k xs ys (omega (arith, h)), less)

take-empty : {A : Type 0} (k : ℕ) → take {A = A} k [] ≡ []
take-empty zero = refl
take-empty (suc k) = refl

drop-empty : {A : Type 0} (k : ℕ) → drop {A = A} k [] ≡ []
drop-empty zero = refl
drop-empty (suc k) = refl

module _ (net : Network) (stream : Stream net) where
  open stream use {remaining}

  -- With `k` bytes wanted behind `read`, a call of the receiver fails, each call before it having
  -- taken some bytes: `bs` is what has been read by then.
  pub data Fails : net.World → ℕ → Bytes → Bytes → net.World → Type 0 where
    here :
        {w w' : net.World} {k : ℕ} {read : Bytes}
        → 1 ≤ k
        → (net.receiver w (chunk k)).0 ≡ none
        → w' ≡ (net.receiver w (chunk k)).1
        → Fails w k read read w'
    later :
        {w w' : net.World} {k : ℕ} {read bs : Bytes} (came : Bytes)
        → (net.receiver w (chunk k)).0 ≡ some came
        → 1 ≤ length came
        → Fails ((net.receiver w (chunk k)).1) (k - length came) (read ++ came) bs w'
        → Fails w k read bs w'

  -- A read that took the next `k` bytes, if there are so many, behind `read`; and a read that did
  -- so or failed because the receiver did.
  abbrev pub Taken : Outcome (Read × net.World) → Bytes → ℕ → net.World → Type 0
  Taken r read k w =
      (w' : net.World) × (r ≡ ok (taken (read ++ take k (remaining w)), w'))
      × (remaining w' ≡ drop k (remaining w))

  abbrev pub Took : Outcome (Read × net.World) → Bytes → ℕ → net.World → Type 0
  Took r read k w =
      ((bs : Bytes) × (w' : net.World) × (r ≡ ok (broken bs, w')) × Fails w k read bs w')
      ⊎ Taken r read k w

  nothing_more :
      (w : net.World) (len : ℕ) (read : Bytes) (more : Bool)
      → (ltb (length read) len && more) ≡ false
      → (more ≡ false → remaining w ≡ [])
      → (take (len - length read) (remaining w) ≡ [])
        × (remaining w ≡ drop (len - length read) (remaining w))
  nothing_more w len read true over at_end =
      let none_left : len - length read ≡ 0 = ground arith in rw none_left (refl, refl)
  nothing_more w len read false over at_end =
      rw (at_end refl) (take-empty (len - length read), sym (drop-empty (len - length read)))

  Taken-more :
      (r : Outcome (Read × net.World)) (read bs : Bytes) (k : ℕ) (w w' : net.World)
      → length bs ≤ k
      → remaining w ≡ bs ++ remaining w'
      → Taken r (read ++ bs) (k - length bs) w'
      → Taken r read k w
  Taken-more r read bs k w w' fits is (w'', result, rest) = (
    w'',
    rw
        (
          is,
          take-append k bs (remaining w') fits,
          ← append_assoc read bs (take (k - length bs) (remaining w')),
        )
        result,
    rw (is, drop-beyond k bs (remaining w') fits) rest,
  )

  more_taken :
      (r : Outcome (Read × net.World)) (read bs : Bytes) (k : ℕ) (w : net.World)
      → (net.receiver w (chunk k)).0 ≡ some bs
      → 1 ≤ length bs
      → length bs ≤ k
      → remaining w ≡ bs ++ remaining ((net.receiver w (chunk k)).1)
      → Took r (read ++ bs) (k - length bs) ((net.receiver w (chunk k)).1)
      → Took r read k w
  more_taken r read bs k w e some_came fits is (inl (all, w'', result, fails)) =
      inl (all, w'', result, later bs e some_came fails)
  more_taken r read bs k w e some_came fits is (inr took) =
      inr (Taken-more r read bs k w _ fits is took)

  nonzero_chunk : (k : ℕ) → 1 ≤ k → (1 ≤ chunk k) × (chunk k ≤ k)
  unfolding chunk
  nonzero_chunk k h = ground arith

  no_bytes : (bs : Bytes) → not (length bs == 0) ≡ false → bs ≡ []
  no_bytes [] h = refl
  no_bytes (b ∷ bs) h = ground arith

  some_bytes : (bs : Bytes) → not (length bs == 0) ≡ true → 1 ≤ length bs
  some_bytes [] h = ground arith
  some_bytes (b ∷ bs) h = omega arith

  at_the_end :
      (w : net.World) (n : ℕ) (bs : Bytes)
      → (net.receiver w n).0 ≡ some bs
      → 1 ≤ n
      → not (length bs == 0) ≡ false
      → remaining ((net.receiver w n).1) ≡ []
  at_the_end w n bs e nonzero h =
      let none_came : bs ≡ [] = no_bytes bs h in
      let empty : remaining w ≡ [] = stream.ended w n (e ∙ ap some none_came) nonzero in
      let is : remaining w ≡ bs ++ remaining ((net.receiver w n).1) =
        (stream.received w n bs e).1 in
      let same : remaining w ≡ remaining ((net.receiver w n).1) = rw none_came at is in
      sym same ∙ empty

  -- The loop ends: nothing is wanted any more, or the last call has brought nothing.
  loop_ends :
      (be : Bool) (fuel : ℕ) (w : net.World) (len : ℕ) (read : Bytes) (more : Bool)
      → 1 ≤ fuel
      → (ltb (length read) len && more) ≡ false
      → (more ≡ false → remaining w ≡ [])
      → Taken (reader_loop be net fuel w len read more) read (len - length read) w
  unfolding reader_loop
  loop_ends be zero w len read more some_fuel over at_end = absurd (omega (arith, some_fuel))
  loop_ends be (suc fuel) w len read more some_fuel over at_end =
      let (no_bytes_more, same) = nothing_more w len read more over at_end in
      rw over (w, rw (no_bytes_more, append-nil read), same)

  and_false : (b : Bool) → (b && false) ≡ false
  and_false true = refl
  and_false false = refl

  reader_loop_lem :
      (be : Bool) (fuel : ℕ) (w : net.World) (len : ℕ) (read : Bytes)
      → len - length read + 2 ≤ fuel
      → Took (reader_loop be net fuel w len read true) read (len - length read) w
  unfolding reader_loop
  reader_loop_lem be zero w len read enough = absurd (omega (arith, enough))
  reader_loop_lem be (suc fuel) w len read enough =
      elim (Bool-cases (ltb (length read) len && true)) [
        | inr over ↦ inr (loop_ends be (suc fuel) w len read true (omega arith) over (λ h. cc))
        | inl on ↦
            let left : 1 ≤ len - length read = ground (arith, on) in
            let (nonzero, within) = nonzero_chunk (len - length read) left in
            let w' = (net.receiver w (chunk (len - length read))).1 in
            elim (Option-cases ((net.receiver w (chunk (len - length read))).0)) [
              | inl e ↦ rw (on, e) (inl (read, w', refl, here left e refl))
              | inr (bs, e) ↦
                  let (fits, is) = stream.received w (chunk (len - length read)) bs e in
                  let less : len - length (read ++ bs) ≡ len - length read - length bs =
                    omega (arith, length-append read bs) in
                  elim (Bool-cases (not (length bs == 0))) [
                    | inr nothing ↦
                        let rest =
                          loop_ends be fuel w' len (read ++ bs) false (omega (arith, enough))
                            (and_false (ltb (length (read ++ bs)) len))
                            (λ h. at_the_end w (chunk (len - length read)) bs e nonzero nothing) in
                        rw (on, e, nothing)
                          (inr (
                            Taken-more _ read bs (len - length read) w w'
                              (omega (arith, fits, within)) is (rw (← less) rest)))
                    | inl something ↦
                        let some_came = some_bytes bs something in
                        let rest =
                          reader_loop_lem be fuel w' len (read ++ bs)
                            (omega (arith, enough, some_came, length-append read bs)) in
                        rw (on, e, something)
                          (more_taken _ read bs (len - length read) w e some_came
                            (omega (arith, fits, within)) is (rw (← less) rest))
                  ]
            ]
      ]

  -- mongo_link_reader always returns. Either a call of the receiver fails, each call before it
  -- having taken some bytes, and those are at dest; or it has taken from the stream its next `len`
  -- bytes, or all that the stream had left, into however many pieces the receiver cuts them.
  pub mongo_link_reader_lem :
      (be : Bool) (w : net.World) (len : ℕ) → Took (mongo_link_reader be net w len) [] len w
  unfolding mongo_link_reader
  mongo_link_reader_lem be w len =
      subst (λ k. Took (reader_loop be net (suc (suc len)) w len [] true) [] k w) (minus_zero len)
        (reader_loop_lem be (suc (suc len)) w len [] (omega arith))
