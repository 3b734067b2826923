-- ===== src/Encode/Circular.antt =====
-- check_circular_ref: the stack of the containers that are being encoded.
use mongo_perl_driver.Common.{
  ℕ, zero, suc, ◌≤◌, ◌<◌, ◌≡◌, refl, ap, Bool, false, ◌||◌, Option, none, some, List, [], ◌∷◌,
  arith, ◌==◌, if◌then◌else◌,
}

-- The stack of addresses, innermost first (struct stackette).
abbrev pub Stack : Type 0
Stack = List ℕ

-- EMPTY_STACK
abbrev pub empty_stack : Stack
empty_stack = []

unfoldable pub on_stack : ℕ → Stack → Bool
on_stack ptr [] = false
on_stack ptr (p ∷ stack) = (ptr == p) || on_stack ptr stack

-- The stack with the pointer pushed; `none` is the null pointer that stands for a circle.
unfoldable pub check_circular_ref : ℕ → Stack → Option Stack
check_circular_ref ptr stack = if on_stack ptr stack then none else some (ptr ∷ stack)

-- How many of the addresses below `n` are not on the stack.
unfoldable pub free_below : ℕ → Stack → ℕ
free_below zero stack = 0
free_below (suc n) stack = if on_stack n stack then free_below n stack else suc (free_below n stack)

free_below_above :
    (n ptr : ℕ) (stack : Stack) → n ≤ ptr → free_below n (ptr ∷ stack) ≡ free_below n stack
unfolding free_below on_stack
free_below_above zero ptr stack h = refl
free_below_above (suc n) ptr stack h = ground (arith, free_below_above n ptr stack)

-- Pushing a valid address that is not on the stack leaves one address less to push.
pub free_below_push :
    (n ptr : ℕ) (stack : Stack)
    → ptr < n
    → on_stack ptr stack ≡ false
    → free_below n stack ≡ suc (free_below n (ptr ∷ stack))
unfolding free_below on_stack
free_below_push zero ptr stack h k = absurd (omega arith)
free_below_push (suc n) ptr stack h k =
    ground (arith, free_below_push n ptr stack, free_below_above n ptr stack)

pub free_below_le : (n : ℕ) (stack : Stack) → free_below n stack ≤ n
unfolding free_below
free_below_le zero stack = omega arith
free_below_le (suc n) stack = ground (arith, free_below_le n stack)

pub free_below-empty : (n : ℕ) → free_below n [] ≡ n
unfolding free_below on_stack
free_below-empty zero = refl
free_below-empty (suc n) = ap suc (free_below-empty n)
