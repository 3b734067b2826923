-- ===== src/Iteration.antt =====
-- The iteration of xs/Cursor.xs: whether there is a next document, and _reset.
pub mod Memory
pub mod Lifetime
pub mod Next
pub mod Counts
pub mod Drain
pub mod Errors
pub mod Asking
pub mod More
use mongo_perl_driver.Common.{
  ℕ, zero, suc, ◌+◌, ◌-◌, ◌*◌, ◌/◌, ◌%◌, ◌^◌, ◌≤◌, ◌<◌, ◌≡◌, refl, sym, ap, ◌∙◌, ◌≢◌, ◌↔◌, ◌⊎◌, inl,
  inr, Bool, true, false, not, ◌&&◌, ◌||◌, Option, none, some, List, [], ◌∷◌, ◌++◌, append_assoc,
  append-nil, arith, ltb, leb, ◌==◌, if◌then◌else◌, ltb→lt, lt→ltb, leb→le, ==_iff, Bool-cases,
  if_true, if_false, Option-cases, length, get_elem?, take, drop, replicate, All, length-append,
  take-append-drop, length-take, length-drop, drop-append, All-append, bytes_eq, bytes_eq_refl,
  bytes_eq→eq, ℤ, pos, negsuc, pos_part, neg_part, sub_ℕ, ltb_ℤ, signed32, ◌+ℤ◌, ◌*ℤ◌, pos_laws,
}
use mongo_perl_driver.Perl.{Bytes}
use mongo_perl_driver.Outcome.{Outcome, ok, croak}
use mongo_perl_driver.Buffer.{Cell}
use mongo_perl_driver.Encode.BigInt.{signed64}
use mongo_perl_driver.Wire.{get_more}
use mongo_perl_driver.Link.{State, Network, mongo_link_say, is_minus_one}
use mongo_perl_driver.Link.Hear.{mongo_link_hear}
use mongo_perl_driver.Link.Cursor.{Cursor, Heard, Failure, heard, failed, not_connected, no_master}
use mathlib.Core.List.{map}

-- What has_next reads of the cursor object and of its client.
pub record Readers : Type 0 where
  pub agg_batch_size : ℤ
  pub limit : ℤ
  pub is_parallel : Bool
  pub ns : Bytes
  -- the four bytes that lie in memory in front of the string of the name
  pub ns_front : Bytes
  pub batch_size : ℤ
  pub query_timeout : ℤ

-- What is known before the server is asked.
pub data Known : Type 0 where
  no_more have_next ask_server : Known

unfoldable pub is_zero_ℤ : ℤ → Bool
is_zero_ℤ (pos n) = n == 0
is_zero_ℤ (negsuc n) = false

unfoldable pub reached_limit : Readers → Cursor → Bool
reached_limit r c = ltb_ℤ (pos 0) r.limit && not (ltb_ℤ c.at r.limit)

unfoldable pub at_end : Cursor → Bool
at_end c = not (ltb_ℤ c.at c.num) && not (ltb_ℤ c.num c.at)

-- The tests of has_next up to the request.
unfoldable pub known_next : Readers → Cursor → Known
unfolding is_zero_ℤ reached_limit at_end
known_next r c =
    if ltb_ℤ (pos 0) r.agg_batch_size
    then have_next
    else if reached_limit r c
        || ((is_zero_ℤ c.num && not r.is_parallel) || (at_end c && (c.cursor_id == 0)))
    then no_more
    else if ltb_ℤ c.at c.num
    then have_next
    else ask_server

-- A byte that was never written would be sent as it lies in memory; a message has none.
unfoldable pub sent_bytes : List Cell → Bytes
sent_bytes [] = []
sent_bytes (none ∷ cells) = 0 ∷ sent_bytes cells
sent_bytes (some b ∷ cells) = b ∷ sent_bytes cells

-- `cursor` with its object's _request_id, and the driver's request_id.
pub record Ids : Type 0 where
  pub own : ℤ
  pub last : ℤ

module _ (big_endian : Bool) (net : Network) where
  open net use {World}

  -- OP_GET_MORE and its reply; `fuel` bounds the responses to other requests.
  unfoldable pub ask_more : ℕ → State World → Readers → Cursor → Ids → Heard World × Ids
  unfolding sent_bytes
  ask_more fuel s r c ids =
      let (buf, id) =
        get_more big_endian ids.last ids.own r.ns r.batch_size (signed64 c.cursor_id) in
      let ids' : Ids = record { own = id; last = id } in
      elim (mongo_link_say net s (sent_bytes buf.used)) [
        | croak x ↦ (failed no_master s c, ids')
        | Outcome.stuck ↦ (Heard.stuck, ids')
        | ok sent ↦
            if is_minus_one net (sent.0)
            then (failed not_connected (sent.1) c, ids')
            else (mongo_link_hear big_endian net fuel (sent.1) c r.query_timeout id, ids')
      ]

  -- has_next
  unfoldable pub has_next : ℕ → State World → Readers → Cursor → Ids → Heard World × Ids
  unfolding known_next ask_more
  has_next fuel s r c ids = elim (known_next r c) [
    | no_more ↦ (heard false s c, ids)
    | have_next ↦ (heard true s c, ids)
    | ask_server ↦ ask_more fuel s r c ids
  ]

-- _reset
unfoldable pub reset : Cursor → Cursor
reset c = record c { at_byte = 0; at = pos 0; num = pos 0 }
