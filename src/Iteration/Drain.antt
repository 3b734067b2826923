-- ===== src/Iteration/Drain.antt =====
-- What a caller gets who calls next until it gives the undefined value, as all of Cursor.pm does.
use mongo_perl_driver.Common.{
  ℕ, zero, suc, ◌+◌, ◌^◌, ◌%◌, ◌≤◌, ◌<◌, ◌≡◌, refl, sym, ap, ◌∙◌, ◌⊎◌, inl, inr, Bool, true, false,
  not, ◌&&◌, ◌||◌, Option, none, some, List, [], ◌∷◌, arith, ltb, ◌==◌, if◌then◌else◌, lt→ltb,
  length, drop, Option-cases, All, ℤ, pos, negsuc, ltb_ℤ, signed32, ◌+ℤ◌, pos-+ℤ,
}
use mongo_perl_driver.Perl.{Bytes}
use mongo_perl_driver.Encode.Calendar.{to_unsigned}
use mongo_perl_driver.Link.Cursor.{Cursor}
use mongo_perl_driver.Iteration.{no_more, have_next, known_next}
use mathlib.Core.Path.{subst}
use mathlib.Core.Option
use mongo_perl_driver.Outcome.{ok, ◌>>=◌}
use mongo_perl_driver.Libbson.{Fields}
use mongo_perl_driver.Decode.{Out, Reader, perl_mongo_buffer_to_sv}
use mongo_perl_driver.Link.{Network}
use mongo_perl_driver.Link.Cursor.{heard}
use mongo_perl_driver.Iteration.{has_next}
use mongo_perl_driver.Iteration.Counts.{
  unread_moved, known_more, under_limit, counted, known_end, Allows-next, Allows, Ends,
}
use mongo_perl_driver.Iteration.Next.{
  Iter, returned, died, stuck, error_of, unread, count_document, buffered, take_document,
  next_document, give, next_queried, next,
}

module _ (big_endian : Bool) (net : Network) (reader : Reader)
    (read : Bytes → Option Fields × ℕ) where
  -- Reading one document after another from the bytes gives these.
  abbrev pub Reads : Bytes → List Out → Type 0
  Reads bytes [] = Unit {0}
  Reads bytes (d ∷ ds) =
      (perl_mongo_buffer_to_sv reader read bytes ≡ ok (d, drop (read bytes).1 bytes))
      × Reads (drop (read bytes).1 bytes) ds

  -- A cursor that has been queried and has given a of n documents; those in its buffer begin with
  -- these, none of them is an error, and the limit lets them all pass.
  pub record Holds (n a : ℕ) (ds : List Out) (it : Iter net.World) : Type 0 where
    pub started : it.object.started ≡ true
    pub no_batch : ltb_ℤ (pos 0) it.object.readers.agg_batch_size ≡ false
    pub at : it.cursor.at ≡ pos a
    pub num : it.cursor.num ≡ pos n
    pub within : a + length ds ≤ n
    pub allowed : Allows it.object.readers.limit (a + length ds)
    pub reads : Reads (unread it.cursor) ds
    pub plain : All (λ d. error_of it.object.readers.ns_front it.object.readers.ns d ≡ ok none) ds

  -- The cursor behind the next document.
  abbrev pub moved : Cursor → Cursor
  moved c = count_document (record c { at_byte = c.at_byte + (read (unread c)).1 })

  has_next_end :
      (fuel : ℕ) (it : Iter net.World)
      → known_next it.object.readers it.cursor ≡ no_more
      → has_next big_endian net fuel it.state it.object.readers it.cursor it.ids
        ≡ (heard false it.state it.cursor, it.ids)
  unfolding has_next
  has_next_end fuel it e = rw (has_next, e)

  has_next_known :
      (fuel : ℕ) (it : Iter net.World)
      → known_next it.object.readers it.cursor ≡ have_next
      → has_next big_endian net fuel it.state it.object.readers it.cursor it.ids
        ≡ (heard true it.state it.cursor, it.ids)
  unfolding has_next
  has_next_known fuel it e = rw (has_next, e)

  pub next_more :
      (do_query : Iter net.World → Iter net.World) (fuel : ℕ) (it : Iter net.World)
      → do_query it ≡ it
      → known_next it.object.readers it.cursor ≡ have_next
      → next big_endian net reader read do_query fuel it
        ≡ next_document big_endian net reader read it
  unfolding next next_queried give
  next_more do_query fuel it once e =
      rw (next, once) (ap (give big_endian net reader read it.object) (has_next_known fuel it e))

  pub take_buffered :
      (it : Iter net.World) (d : Out)
      → ltb_ℤ (pos 0) it.object.readers.agg_batch_size ≡ false
      → perl_mongo_buffer_to_sv reader read (unread it.cursor)
        ≡ ok (d, drop (read (unread it.cursor)).1 (unread it.cursor))
      → take_document big_endian net reader read it
        ≡ ok (
          d,
          record it {
            cursor = record (it.cursor) {
              at_byte = it.cursor.at_byte + (read (unread it.cursor)).1;
            };
          },
        )
  unfolding take_document buffered ◌>>=◌
  take_buffered it d no_batch e = rw (take_document, no_batch, buffered, e)

  give_plain :
      (it it' : Iter net.World) (d : Out)
      → take_document big_endian net reader read it ≡ ok (d, it')
      → error_of it.object.readers.ns_front it.object.readers.ns d ≡ ok none
      → next_document big_endian net reader read it
        ≡ returned (some d) (record it' { cursor = count_document it'.cursor })
  unfolding next_document
  give_plain it it' d e plain = rw (next_document, e, plain)

  pub give_one :
      (n a : ℕ) (d : Out) (ds : List Out) (it : Iter net.World)
      → Holds n a (d ∷ ds) it
      → next_document big_endian net reader read it
        ≡ returned (some d) (record it { cursor = moved it.cursor })
  give_one n a d ds it h = give_plain it _ d (take_buffered it d h.no_batch h.reads.0) h.plain.0

  next_one :
      (do_query : Iter net.World → Iter net.World)
      → ((it : Iter net.World) → it.object.started ≡ true → do_query it ≡ it)
      → (fuel n a : ℕ) (d : Out) (ds : List Out) (it : Iter net.World) → Holds n a (d ∷ ds) it
      → next big_endian net reader read do_query fuel it
        ≡ returned (some d) (record it { cursor = moved it.cursor })
  next_one do_query once fuel n a d ds it h =
      let room =
        under_limit it.object.readers it.cursor a (a + length (d ∷ ds)) h.at (omega arith)
          h.allowed in
      let known =
        known_more it.object.readers it.cursor a n h.no_batch h.at h.num (omega (arith, h.within))
          room in
      next_more do_query fuel it (once it h.started) known ∙ give_one n a d ds it h

  pub Holds-next :
      (n a : ℕ) (d : Out) (ds : List Out) (it : Iter net.World)
      → n < 2 ^ 31
      → Holds n a (d ∷ ds) it
      → Holds n (suc a) ds (record it { cursor = moved it.cursor })
  unfolding count_document to_unsigned mongo_perl_driver.Common.Int.◌+ℤ◌ unread
  Holds-next n a d ds it small h = record {
    started = h.started;
    no_batch = h.no_batch;
    at =
        counted (record (it.cursor) { at_byte = it.cursor.at_byte + (read (unread it.cursor)).1 }) a
          h.at (omega (arith, h.within));
    num = h.num;
    within = omega (arith, h.within);
    allowed = Allows-next it.object.readers.limit a (length ds) h.allowed;
    reads =
        subst (λ bytes. Reads bytes ds) (sym (unread_moved it.cursor (read (unread it.cursor)).1))
          h.reads.1;
    plain = h.plain.1;
  }

  -- next until it gives the undefined value: the documents, and the iterator then. `none` is a
  -- call that dies, or more calls than are allowed.
  abbrev pub all :
      (Iter net.World → Iter net.World)
      → ℕ
      → ℕ
      → Iter net.World
      → Option (List Out × Iter net.World)
  all do_query fuel zero it = none
  all do_query fuel (suc k) it = elim (next big_endian net reader read do_query fuel it) [
    | returned none it' ↦ some ([], it')
    | returned (some d) it' ↦ Option.map (λ r. (d ∷ r.0, r.1)) (all do_query fuel k it')
    | died e it' ↦ none
    | stuck ↦ none
  ]

  next_end :
      (do_query : Iter net.World → Iter net.World) (fuel : ℕ) (it : Iter net.World)
      → do_query it ≡ it
      → known_next it.object.readers it.cursor ≡ no_more
      → next big_endian net reader read do_query fuel it ≡ returned none it
  unfolding next next_queried give
  next_end do_query fuel it once e =
      rw (next, once) (ap (give big_endian net reader read it.object) (has_next_end fuel it e))

  -- A caller who calls next until it gives the undefined value gets exactly the documents of the
  -- reply in the buffer, in their order, up to the limit or to the end of a cursor that the server
  -- has closed; nothing is sent or received for them, and each is counted once. The cursor has
  -- been queried before, has no first batch, and none of the documents is an error.
  pub next_all :
      (do_query : Iter net.World → Iter net.World)
      → ((it : Iter net.World) → it.object.started ≡ true → do_query it ≡ it)
      → (fuel n a : ℕ) (ds : List Out) (it : Iter net.World) → n < 2 ^ 31
      → Holds n a ds it
      → Ends it.object.readers.limit (a + length ds) n it.cursor.cursor_id
      → (it' : Iter net.World) × (all do_query fuel (suc (length ds)) it ≡ some (ds, it'))
        × (it'.state ≡ it.state)
        × (it'.ids ≡ it.ids)
        × (it'.cursor.at ≡ pos (a + length ds))
        × (it'.cursor.num ≡ it.cursor.num)
  unfolding count_document
  next_all do_query once fuel n a [] it small h end =
      let none_left : a + length {A = Out} [] ≡ a = omega arith in
      let known =
        known_end it.object.readers it.cursor a n h.no_batch h.at h.num
          (subst (λ b. Ends it.object.readers.limit b n it.cursor.cursor_id) none_left end) in
      (
        it,
        rw (all, next_end do_query fuel it (once it h.started) known),
        refl,
        refl,
        rw none_left h.at,
        refl,
      )
  next_all do_query once fuel n a (d ∷ ds) it small h end =
      let one = next_one do_query once fuel n a d ds it h in
      let moves : a + length (d ∷ ds) ≡ suc a + length ds = omega arith in
      let (it', gives, state, ids, at, num) =
        next_all do_query once fuel n (suc a) ds (record it { cursor = moved it.cursor }) small
          (Holds-next n a d ds it small h)
          (subst (λ b. Ends it.object.readers.limit b n it.cursor.cursor_id) moves end) in
      (it', rw (all, one, gives), state, ids, at ∙ ap pos (sym moves), num)
