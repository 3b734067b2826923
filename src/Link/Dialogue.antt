-- ===== src/Link/Dialogue.antt =====
-- What a SASL authentication that succeeds has done.
use mongo_perl_driver.Common.{
  ℕ, zero, suc, ◌<◌, ◌≡◌, refl, sym, ap, ◌∙◌, ◌≢◌, ◌↔◌, ◌⊎◌, inl, inr, true, false, none, some, [],
  ltb, ltb→lt, Option, lt→ltb, length, Bool-cases,
}
use mongo_perl_driver.Perl.{Bytes}
use mongo_perl_driver.Link.Sasl.{
  StepCode, gsasl_ok, needs_more, step_error, Gsasl, authenticated, failed, no_data, step_failed,
  unterminated, SaslEnd, SaslFailure, payload_of, opening_of, is_plain, out_buf, step_loop,
  begin_conversation, sasl_authenticate,
}

StepCode-cases : (c : StepCode) → (c ≡ gsasl_ok) ⊎ ((c ≡ needs_more) ⊎ (c ≡ step_error))
StepCode-cases gsasl_ok = inl refl
StepCode-cases needs_more = inr (inl refl)
StepCode-cases step_error = inr (inr refl)

out_buf_fits : (p : Bytes) → length p < 8192 → out_buf p ≡ some p
unfolding out_buf
out_buf_fits p h = rw (out_buf, lt→ltb _ _ h)

out_buf-cases : (p : Bytes) → ((length p < 8192) × (out_buf p ≡ some p)) ⊎ (out_buf p ≡ none)
unfolding out_buf
out_buf-cases p = elim (Bool-cases (ltb (length p) 8192)) [
  | inl fits ↦ inl (ltb→lt _ _ fits, rw (out_buf, fits))
  | inr long ↦ inr (rw (out_buf, long))
]

payload-cases :
    (a : Option (Option Bytes))
    → ((payload : Bytes) × (a ≡ some (some payload)))
      ⊎ ((wrong : SaslFailure) × (payload_of a ≡ inl wrong))
unfolding payload_of
payload-cases none = inr (_, refl)
payload-cases (some none) = inr (_, refl)
payload-cases (some (some payload)) = inl (payload, refl)

opening-cases :
    {C : Type 0} (a : Option (Option Bytes × Option C))
    → ((payload : Bytes) × (conv : C) × (a ≡ some (some payload, some conv)))
      ⊎ ((wrong : SaslFailure) × (opening_of a ≡ inl wrong))
unfolding opening_of
opening-cases none = inr (_, refl)
opening-cases (some (none, conv)) = inr (_, refl)
opening-cases (some (some payload, none)) = inr (_, refl)
opening-cases (some (some payload, some conv)) = inl (payload, conv, refl)

module _ {World : Type 0} (gsasl : Gsasl World) where
  open gsasl use {Conversation}

  -- The library answers what the server has sent, and the server answers that with a payload and
  -- does not refuse, until the library says GSASL_OK; that last answer is sent too. The strings fit into the 8192 bytes with a NUL.
  pub data Dialogue (conv : Conversation) : World → Bytes → World → Type 0 where
    last :
        {w w' : World} {buf : Bytes}
        → (gsasl.step w buf).0 ≡ gsasl_ok
        → length (gsasl.step w buf).1 < 8192
        → (payload : Bytes)
        → (gsasl.sasl_continue (gsasl.step w buf).2 (gsasl.step w buf).1 conv).0
          ≡ some (some payload)
        → w' ≡ gsasl.finish (gsasl.sasl_continue (gsasl.step w buf).2 (gsasl.step w buf).1 conv).1
        → Dialogue conv w buf w'
    more :
        {w w' : World} {buf : Bytes}
        → (gsasl.step w buf).0 ≡ needs_more
        → length (gsasl.step w buf).1 < 8192
        → (payload : Bytes)
        → (gsasl.sasl_continue (gsasl.step w buf).2 (gsasl.step w buf).1 conv).0
          ≡ some (some payload)
        → Dialogue conv
            (gsasl.sasl_continue (gsasl.step w buf).2 (gsasl.step w buf).1 conv).1
            payload
            w'
        → Dialogue conv w buf w'

  end_same : {w w' : World} → authenticated w ≡ authenticated w' → w ≡ w'
  end_same h = cc

  loop-Dialogue :
      (fuel : ℕ) (w : World) (buf : Bytes) (conv : Conversation) (w' : World)
      → step_loop gsasl fuel w buf conv ≡ authenticated w'
      → Dialogue conv w buf w'
  unfolding step_loop
  loop-Dialogue zero w buf conv w' h = cc
  loop-Dialogue (suc fuel) w buf conv w' h = elim (StepCode-cases ((gsasl.step w buf).0)) [
    | inl fine ↦ elim (out_buf-cases (gsasl.step w buf).1) [
      | inl fits ↦
          elim (payload-cases
            (gsasl.sasl_continue (gsasl.step w buf).2 (gsasl.step w buf).1 conv).0) [
              | inl (payload, sent) ↦
                  last fine (fits.0) payload sent
                    (sym (end_same (rw (step_loop, fine, fits.1, sent, payload_of) at h)))
              | inr (wrong, e) ↦
                  let never : failed wrong
                        (gsasl.sasl_continue (gsasl.step w buf).2 (gsasl.step w buf).1 conv).1
                      ≡ authenticated w' =
                    rw (step_loop, fine, fits.1, e) at h in
                  cc
            ]
      | inr long ↦
          let never : failed unterminated (gsasl.step w buf).2 ≡ authenticated w' =
            rw (step_loop, fine, long) at h in
          cc
    ]
    | inr (inl on) ↦ elim (out_buf-cases (gsasl.step w buf).1) [
      | inl fits ↦
          elim (payload-cases
            (gsasl.sasl_continue (gsasl.step w buf).2 (gsasl.step w buf).1 conv).0) [
              | inl (payload, sent) ↦ more on (fits.0) payload sent (
                  loop-Dialogue fuel _ _ conv w'
                    (rw (step_loop, on, fits.1, sent, payload_of) at h))
              | inr (wrong, e) ↦
                  let never : failed wrong
                        (gsasl.sasl_continue (gsasl.step w buf).2 (gsasl.step w buf).1 conv).1
                      ≡ authenticated w' =
                    rw (step_loop, on, fits.1, e) at h in
                  cc
            ]
      | inr long ↦
          let never : failed unterminated (gsasl.step w buf).2 ≡ authenticated w' =
            rw (step_loop, on, long) at h in
          cc
    ]
    | inr (inr wrong) ↦
        let never : failed step_failed (gsasl.step w buf).2 ≡ authenticated w' =
          rw (step_loop, wrong) at h in
        cc
  ]

  Dialogue-loop :
      (conv : Conversation) {w w' : World} {buf : Bytes}
      → Dialogue conv w buf w'
      → (fuel : ℕ) × (step_loop gsasl fuel w buf conv ≡ authenticated w')
  unfolding step_loop
  Dialogue-loop conv {w} {w'} {buf} (last fine fits payload sent is) = (
    1,
    rw (step_loop, fine, out_buf_fits (gsasl.step w buf).1 fits, sent, payload_of)
        (ap authenticated (sym is)),
  )
  Dialogue-loop conv {w} {w'} {buf} (more on fits payload sent rest) =
      let (fuel, e) = Dialogue-loop conv rest in
      (suc fuel, rw (step_loop, on, out_buf_fits (gsasl.step w buf).1 fits, sent, payload_of) e)

  module _ (w : World) (host name user : Bytes) where
    abbrev pub first : StepCode × Bytes × World
    first =
        gsasl.step (gsasl.set_properties (gsasl.client_start (gsasl.init w).1 name).1 host user) []

    abbrev pub opened : Option (Option Bytes × Option Conversation) × World
    opened = gsasl.sasl_start (first.2) (first.1) name

    begins :
        (fuel : ℕ)
        → is_plain name ≡ false
        → (gsasl.init w).0 ≡ true
        → (gsasl.client_start (gsasl.init w).1 name).0 ≡ true
        → sasl_authenticate gsasl fuel w true host (some name) (some user)
          ≡ begin_conversation gsasl fuel
              (gsasl.set_properties (gsasl.client_start (gsasl.init w).1 name).1 host user)
              name
    unfolding sasl_authenticate
    begins fuel other inited started = rw (sasl_authenticate, other, inited, started)

    abbrev ready : World
    ready = gsasl.set_properties (gsasl.client_start (gsasl.init w).1 name).1 host user

    begin_fits :
        (fuel : ℕ)
        → first.0 ≢ step_error
        → out_buf (first.1) ≡ some (first.1)
        → begin_conversation gsasl fuel ready name
          ≡ elim (opening_of (opened.0)) as (λ x. SaslEnd World) [
            | inl wrong ↦ failed wrong (opened.1)
            | inr (payload, conv) ↦ step_loop gsasl fuel (opened.1) payload conv
          ]
    unfolding begin_conversation
    begin_fits fuel fine fits = elim (StepCode-cases (first.0)) [
      | inl e ↦ rw (begin_conversation, e, fits)
      | inr (inl e) ↦ rw (begin_conversation, e, fits)
      | inr (inr e) ↦ absurd (fine e)
    ]

    begin_long :
        (fuel : ℕ)
        → first.0 ≢ step_error
        → out_buf (first.1) ≡ none
        → begin_conversation gsasl fuel ready name ≡ failed unterminated (first.2)
    unfolding begin_conversation
    begin_long fuel fine long = elim (StepCode-cases (first.0)) [
      | inl e ↦ rw (begin_conversation, e, long)
      | inr (inl e) ↦ rw (begin_conversation, e, long)
      | inr (inr e) ↦ absurd (fine e)
    ]

    begin_error :
        (fuel : ℕ) (w' : World)
        → begin_conversation gsasl fuel ready name ≡ authenticated w'
        → first.0 ≢ step_error
    unfolding begin_conversation
    begin_error fuel w' h e =
        let never : failed no_data (first.2) ≡ authenticated w' = rw (begin_conversation, e) at h in
        cc

    opens :
        (fuel : ℕ) (w' : World)
        → (elim (opening_of (opened.0)) as (λ x. SaslEnd World) [
          | inl wrong ↦ failed wrong (opened.1)
          | inr (payload, conv) ↦ step_loop gsasl fuel (opened.1) payload conv
        ])
          ≡ authenticated w'
        → (payload : Bytes) × (conv : Conversation) × (opened.0 ≡ some (some payload, some conv))
          × Dialogue conv (opened.1) payload w'
    unfolding opening_of
    opens fuel w' h = elim (opening-cases (opened.0)) [
      | inl (payload, conv, start) ↦
          (payload, conv, start, loop-Dialogue fuel _ _ conv w' (rw (start, opening_of) at h))
      | inr (wrong, e) ↦ let never : failed wrong (opened.1) ≡ authenticated w' = rw (e) at h in cc
    ]

    -- With a mechanism that is not PLAIN, on a connection, with a user name and a library that
    -- starts, sasl_authenticate returns exactly when the first step of the library gives data that
    -- fit into the buffer, _sasl_start does not die and returns a payload and a conversation id, and
    -- after that the library and the server answer each other, no _sasl_continue dying or returning
    -- no payload, until the library says GSASL_OK. What the library says last is sent to the server.
    pub sasl_authenticate_iff :
        (w' : World)
        → is_plain name ≡ false
        → (gsasl.init w).0 ≡ true
        → (gsasl.client_start (gsasl.init w).1 name).0 ≡ true
        → ((fuel : ℕ) × (sasl_authenticate gsasl fuel w true host (some name) (some user)
              ≡ authenticated w'))
          ↔ ((first.0 ≢ step_error)
              × (length (first.1) < 8192)
              × ((payload : Bytes) × (conv : Conversation) × (opened.0
                    ≡ some (some payload, some conv))
                  × Dialogue conv (opened.1) payload w'))
    unfolding opening_of
    sasl_authenticate_iff w' other inited started = (
      (λ h.
          let begun = sym (begins (h.0) other inited started) ∙ h.1 in
          let fine = begin_error (h.0) w' begun in
          elim (out_buf-cases (first.1)) [
            | inl fits ↦
                (fine, fits.0, opens (h.0) w' (sym (begin_fits (h.0) fine (fits.1)) ∙ begun))
            | inr long ↦
                let never : failed unterminated (first.2) ≡ authenticated w' =
                  sym (begin_long (h.0) fine long) ∙ begun in
                cc
          ]),
      (λ h.
          let (payload, conv, start, dialogue) = h.2 in
          let (fuel, e) = Dialogue-loop conv dialogue in
          (
            fuel,
            begins fuel other inited started
                ∙ (begin_fits fuel (h.0) (out_buf_fits (first.1) (h.1)) ∙ rw (start, opening_of) e),
          )),
    )
