-- ===== src/Link/Words.antt =====
-- The words and the bytes of a reply in memory.
use mongo_perl_driver.Common.{
  ℕ, zero, suc, ◌-◌, ◌^◌, ◌≤◌, ◌<◌, ◌≡◌, refl, inl, inr, Bool, true, false, Option, none, some,
  List, [], ◌∷◌, ◌++◌, arith, ltb, Bool-cases, length, take, drop, replicate, length-append,
}
use mongo_perl_driver.Perl.{Bytes}
use mongo_perl_driver.Buffer.{Cell, le32, le64, host32, host64, mongo_32, mongo_64}
use mongo_perl_driver.Link.{Network}
use mongo_perl_driver.Link.Hear.{response_buffer}
use mongo_perl_driver.Link.Cursor.{over, word_of}

pub take-prefix : {A : Type 0} (xs ys : List A) → take (length xs) (xs ++ ys) ≡ xs
take-prefix [] ys = refl
take-prefix (x ∷ xs) ys = rw (take-prefix xs ys)

pub mongo_32-word_of : (be : Bool) (w : ℕ) → w < 2 ^ 32 → mongo_32 be (word_of be (le32 w)) ≡ w
unfolding mongo_32 word_of le32
mongo_32-word_of false w h = omega (arith, h)
mongo_32-word_of true w h = omega (arith, h)

pub mongo_64-word_of : (be : Bool) (w : ℕ) → w < 2 ^ 64 → mongo_64 be (word_of be (le64 w)) ≡ w
unfolding mongo_64 word_of le64
mongo_64-word_of false w h = omega (arith, h)
mongo_64-word_of true w h = omega (arith, h)

pub over_all : (bs old : Bytes) → length old ≡ length bs → over bs old ≡ bs
over_all [] [] h = refl
over_all [] (o ∷ old) h = absurd (omega (arith, h))
over_all (b ∷ bs) [] h = absurd (omega (arith, h))
over_all (b ∷ bs) (o ∷ old) h = rw (over_all bs old (omega (arith, h)))

pub length-replicate : {A : Type 0} (n : ℕ) (a : A) → length (replicate n a) ≡ n
length-replicate zero a = refl
length-replicate (suc n) a = rw (length-replicate n a)

pub take-over : {A : Type 0} (bs old : List A) → take (length bs) (over bs old) ≡ bs
take-over bs old = take-prefix bs (drop (length bs) old)

pub length-response_buffer :
    (be : Bool) (net : Network) (old : Option (List Cell)) (len : ℕ)
    → len ≤ length (response_buffer be net old len)
unfolding response_buffer
length-response_buffer be net none len = omega (arith, length-replicate {A = Cell} len none)
length-response_buffer be net (some memory) len = elim (Bool-cases (ltb (length memory) len)) [
  | inl short ↦ rw short (
      omega (
        arith,
        length-append memory (replicate (len - length memory) none),
        length-replicate {A = Cell} (len - length memory) none,
      ))
  | inr enough ↦ rw enough (ground arith)
]

pub host_four : (be : Bool) (w : ℕ) → length (host32 be w) ≡ 4
unfolding host32 le32
host_four true w = refl
host_four false w = refl

pub host_eight : (be : Bool) (w : ℕ) → length (host64 be w) ≡ 8
unfolding host64 le64
host_eight true w = refl
host_eight false w = refl

pub four : (w : ℕ) → length (le32 w) ≡ 4
unfolding le32
four w = refl

pub eight : (w : ℕ) → length (le64 w) ≡ 8
unfolding le64
eight w = refl
