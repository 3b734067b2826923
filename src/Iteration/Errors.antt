-- ===== src/Iteration/Errors.antt =====
-- Documents that report an error: how next ends at them.
use mongo_perl_driver.Common.{
  ℕ, suc, ◌<◌, ◌^◌, ◌≡◌, refl, ◌∙◌, ◌⊎◌, inl, inr, Bool, true, false, Option, some, arith,
  if◌then◌else◌, get_elem?, pos, Bool-cases,
}
use mongo_perl_driver.Perl.{Bytes}
use mongo_perl_driver.Outcome.{ok, ◌>>=◌}
use mongo_perl_driver.Libbson.{Fields}
use mongo_perl_driver.Decode.{Out, iv, hash, Entries, Reader, hv_fetch}
use mongo_perl_driver.Link.{Network, Server, server_of, set_disconnected}
use mongo_perl_driver.Link.Disconnect.{set_disconnected_lem}
use mongo_perl_driver.Iteration.{known_next, have_next}
use mongo_perl_driver.Iteration.Counts.{counted}
use mongo_perl_driver.Iteration.Drain.{next_more}
use mongo_perl_driver.Iteration.Next.{
  Iter, died, query_error, error_of, is_command, as_entries, is_not_master, err_key, code_key,
  count_document, take_document, next_document, next,
}

-- The field code of an error says that the server is not the master.
abbrev pub NotMaster : Option Out → Type 0
NotMaster code = (n : ℕ) × (code ≡ some (iv (pos n))) × ((n ≡ 10107) ⊎ ((n ≡ 13435) ⊎ (n ≡ 13436)))

says_so : (code : Option Out) → is_not_master code ≡ true → NotMaster code
unfolding is_not_master
says_so (some (iv (pos n))) h = (n, refl, ground arith)
says_so _ h = cc

is_said : (code : Option Out) → NotMaster code → is_not_master code ≡ true
unfolding is_not_master
is_said code (n, e, which) = rw e (ground arith)

error_found :
    (front ns : Bytes) (es : Entries) (err : Out)
    → is_command front ns ≡ false
    → hv_fetch es err_key ≡ some err
    → error_of front ns (hash es) ≡ ok (some (err, is_not_master (hv_fetch es code_key)))
unfolding error_of as_entries ◌>>=◌
error_found front ns es err ordinary e = rw (error_of, ordinary, e)

module _ (be : Bool) (net : Network) (reader : Reader) (read : Bytes → Option Fields × ℕ) where
  dies :
      (it it' : Iter net.World) (doc : Out) (err : Out × Bool)
      → take_document be net reader read it ≡ ok (doc, it')
      → error_of it.object.readers.ns_front it.object.readers.ns doc ≡ ok (some err)
      → next_document be net reader read it
        ≡ died (query_error err.0) (record it' {
          cursor = count_document it'.cursor;
          state = if err.1 then set_disconnected net it'.state else it'.state;
        })
  unfolding next_document
  dies it it' doc err e found = rw (next_document, e, found)

  -- A document with the field $err, of a query that is no command, makes next croak with "query
  -- error" and that value, after it has been counted. Exactly when its code is one of those with
  -- which a server says that it is not the master is the connection given up: the server, to which
  -- the link of the client was connected and of which it is no copy, is then not connected for any
  -- link; otherwise the connection stays as it was.
  pub next_query_error :
      (do_query : Iter net.World → Iter net.World) (fuel : ℕ) (it it1 : Iter net.World)
      (es : Entries) (err : Out) (a i : ℕ) (m : Server)
      → do_query it ≡ it
      → known_next it.object.readers it.cursor ≡ have_next
      → take_document be net reader read it ≡ ok (hash es, it1)
      → is_command it.object.readers.ns_front it.object.readers.ns ≡ false
      → hv_fetch es err_key ≡ some err
      → it1.cursor.at ≡ pos a
      → suc a < 2 ^ 31
      → it1.state.link.copy ≡ false
      → it1.state.link.master ≡ some i
      → get_elem? it1.state.servers i ≡ some m
      → m.connected ≡ true
      → (it' : Iter net.World) × (next be net reader read do_query fuel it
          ≡ died (query_error err) it')
        × (it'.cursor.at ≡ pos (suc a))
        × ((NotMaster (hv_fetch es code_key)
              × (server_of it'.state ≡ some (record m { connected = false })))
            ⊎ ((¬ (NotMaster (hv_fetch es code_key))) × (it'.state ≡ it1.state)))
  next_query_error do_query fuel it it1 es err a i m once known taken ordinary e at small own master
        up on =
      let found = error_found it.object.readers.ns_front it.object.readers.ns es err ordinary e in
      let said = is_not_master (hv_fetch es code_key) in
      let gone = set_disconnected_lem net it1.state i m own master up on in
      let it' : Iter net.World = record it1 {
        cursor = count_document it1.cursor;
        state = if said then set_disconnected net it1.state else it1.state;
      } in
      (
        it',
        next_more be net reader read do_query fuel it once known
            ∙ dies it it1 (hash es) (err, said) taken found,
        counted it1.cursor a at small,
        elim (Bool-cases said) [
          | inl y ↦ inl (says_so (hv_fetch es code_key) y, rw (y) (gone.0))
          | inr n ↦ inr ((λ h. let y = is_said (hv_fetch es code_key) h in cc), rw (n))
        ],
      )
