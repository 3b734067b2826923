-- ===== src/Iteration/Counts.antt =====
-- The counts at and num, the limit, and the place in the buffer that next moves.
use mongo_perl_driver.Common.{
  ℕ, zero, suc, ◌+◌, ◌^◌, ◌≤◌, ◌<◌, ◌≡◌, refl, ap, ◌∙◌, ◌⊎◌, inl, inr, false, Option, none, some,
  List, [], ◌∷◌, arith, drop, drop-drop, Option-cases, ℤ, pos, ltb_ℤ, pos-+ℤ,
}
use mongo_perl_driver.Perl.{Bytes}
use mongo_perl_driver.Encode.Calendar.{to_unsigned}
use mongo_perl_driver.Link.Cursor.{Cursor}
use mongo_perl_driver.Iteration.{
  Readers, no_more, have_next, is_zero_ℤ, reached_limit, at_end, known_next, sent_bytes,
}
use mongo_perl_driver.Iteration.Next.{unread, count_document}

abbrev no_bytes : Bytes
no_bytes = []

drop-nil : (n : ℕ) → drop n no_bytes ≡ no_bytes
drop-nil zero = refl
drop-nil (suc n) = refl

sent_bytes-drop :
    (n : ℕ) (cells : List (Option ℕ)) → sent_bytes (drop n cells) ≡ drop n (sent_bytes cells)
unfolding sent_bytes
sent_bytes-drop zero cells = refl
sent_bytes-drop (suc n) [] = refl
sent_bytes-drop (suc n) (none ∷ cells) = sent_bytes-drop n cells
sent_bytes-drop (suc n) (some b ∷ cells) = sent_bytes-drop n cells

pub unread_moved :
    (c : Cursor) (n : ℕ) → unread (record c { at_byte = c.at_byte + n }) ≡ drop n (unread c)
unfolding unread
unread_moved c n = elim (Option-cases c.memory) [
  | inl gone ↦ rw (gone, drop-nil n)
  | inr (cells, is) ↦
      rw (is)
        (ap sent_bytes (drop-drop c.at_byte n cells) ∙ sent_bytes-drop n (drop c.at_byte cells))
]

pub known_more :
    (r : Readers) (c : Cursor) (a n : ℕ)
    → ltb_ℤ (pos 0) r.agg_batch_size ≡ false
    → c.at ≡ pos a
    → c.num ≡ pos n
    → a < n
    → reached_limit r c ≡ false
    → known_next r c ≡ have_next
unfolding known_next is_zero_ℤ at_end
known_more r c a n no_batch at num more under = rw (no_batch, under, at, num) (ground arith)

-- The limit leaves room up to the count b.
abbrev pub Allows : ℤ → ℕ → Type 0
Allows limit b = (ltb_ℤ (pos 0) limit ≡ false) ⊎ ((l : ℕ) × (limit ≡ pos l) × (b ≤ l))

pub under_limit :
    (r : Readers) (c : Cursor) (a b : ℕ)
    → c.at ≡ pos a
    → a < b
    → Allows r.limit b
    → reached_limit r c ≡ false
unfolding reached_limit
under_limit r c a b at room (inl unlimited) = rw (unlimited)
under_limit r c a b at room (inr (l, is, fits)) = rw (at, is) (ground arith)

pub counted :
    (c : Cursor) (a : ℕ) → c.at ≡ pos a → suc a < 2 ^ 31 → (count_document c).at ≡ pos (suc a)
unfolding count_document to_unsigned
counted c a at small = rw (at, pos-+ℤ a 1) (ground arith)

-- The limit is reached with the count b, or the count is that of all documents and the server has
-- no more.
abbrev pub Ends : ℤ → ℕ → ℕ → ℕ → Type 0
Ends limit b n id = ((limit ≡ pos b) × (0 < b)) ⊎ ((b ≡ n) × (id ≡ 0))

pub known_end :
    (r : Readers) (c : Cursor) (b n : ℕ)
    → ltb_ℤ (pos 0) r.agg_batch_size ≡ false
    → c.at ≡ pos b
    → c.num ≡ pos n
    → Ends r.limit b n c.cursor_id
    → known_next r c ≡ no_more
unfolding known_next reached_limit at_end
known_end r c b n no_batch at num (inl (is, some_allowed)) =
    rw (known_next, no_batch, at, is) (ground arith)
known_end r c b n no_batch at num (inr (all_given, closed)) =
    rw (known_next, no_batch, at, num, closed) (ground arith)

pub Allows-next : (limit : ℤ) (a k : ℕ) → Allows limit (a + suc k) → Allows limit (suc a + k)
Allows-next limit a k (inl unlimited) = inl unlimited
Allows-next limit a k (inr (l, is, fits)) = inr (l, is, omega arith)
