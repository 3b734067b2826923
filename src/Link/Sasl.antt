-- ===== src/Link/Sasl.antt =====
-- sasl_authenticate of mongo_link.c, as it is compiled with MONGO_SASL. The library gsasl and the
-- methods of the client object are an argument.
use mongo_perl_driver.Common.{
  ℕ, zero, suc, ◌⊎◌, inl, inr, Bool, not, Option, none, some, [], ◌∷◌, ltb, if◌then◌else◌, length,
  take, bytes_eq,
}
use mongo_perl_driver.Perl.{Bytes}

-- What gsasl_step64 returns: GSASL_OK, GSASL_NEEDS_MORE, or an error.
pub data StepCode : Type 0 where
  gsasl_ok needs_more step_error : StepCode

pub record Gsasl (World : Type 0) : Type 1 where
  pub Conversation : Type 0
  -- gsasl_init and gsasl_client_start of a mechanism: whether they returned GSASL_OK
  pub init : World → Bool × World
  pub client_start : World → Bytes → Bool × World
  -- gsasl_property_set of the host and the user
  pub set_properties : World → Bytes → Bytes → World
  -- gsasl_step64: the code and the C string that it allocated
  pub step : World → Bytes → StepCode × Bytes × World
  -- gsasl_finish, gsasl_done
  pub finish : World → World
  -- the methods _sasl_start and _sasl_continue: `none` if they die, as they do when the server
  -- refuses; otherwise the payload of the server's document and its conversation id, if there are
  pub sasl_start : World → Bytes → Bytes → Option (Option Bytes × Option Conversation) × World
  pub sasl_continue : World → Bytes → Conversation → Option (Option Bytes) × World
  -- _sasl_plain_authenticate: whether it returns
  pub sasl_plain_authenticate : World → Bool × World

pub data SaslFailure : Type 0 where
  no_connection no_mechanism no_library no_client no_username no_data step_failed : SaslFailure
  -- out_buf, of 8192 bytes, has no NUL
  unterminated : SaslFailure
  -- a method that was called has died
  method_died : SaslFailure
  -- *hv_fetch of a field that is not there
  no_payload no_conversation : SaslFailure

pub data SaslEnd (World : Type 0) : Type 0 where
  authenticated : World → SaslEnd World
  failed : SaslFailure → World → SaslEnd World
  stuck : SaslEnd World

-- "PLAIN"
abbrev pub plain_name : Bytes
plain_name = 80 ∷ 76 ∷ 65 ∷ 73 ∷ 78 ∷ []

-- strncmp("PLAIN", mechanism, 5) == 0
unfoldable pub is_plain : Bytes → Bool
is_plain mechanism = bytes_eq (take 5 mechanism) plain_name

-- strncpy(out_buf, p, 8192), read back as a C string.
unfoldable pub out_buf : Bytes → Option Bytes
out_buf p = if ltb (length p) 8192 then some p else none

-- SvPV_nolen(*hv_fetch(result, "payload", …)) of what _sasl_continue returned, and with the
-- conversation id of what _sasl_start returned.
unfoldable pub payload_of : Option (Option Bytes) → SaslFailure ⊎ Bytes
payload_of none = inl method_died
payload_of (some none) = inl no_payload
payload_of (some (some payload)) = inr payload

unfoldable pub opening_of :
    {Conversation : Type 0}
    → Option (Option Bytes × Option Conversation)
    → SaslFailure ⊎ (Bytes × Conversation)
opening_of none = inl method_died
opening_of (some (none, conv)) = inl no_payload
opening_of (some (some payload, none)) = inl no_conversation
opening_of (some (some payload, some conv)) = inr (payload, conv)

module _ {World : Type 0} (gsasl : Gsasl World) where
  open gsasl use {Conversation}

  -- do { … } while( rc == GSASL_NEEDS_MORE )
  unfoldable pub step_loop : ℕ → World → Bytes → Conversation → SaslEnd World
  unfolding out_buf payload_of
  step_loop zero w buf conv = stuck
  step_loop (suc fuel) w buf conv =
      let (rc, p, w1) = gsasl.step w buf in
      let sent = out_buf p in
      elim rc [
        | step_error ↦ failed step_failed w1
        | gsasl_ok ↦ elim sent [
          | none ↦ failed unterminated w1
          | some out ↦
              let (answer, w2) = gsasl.sasl_continue w1 out conv in
              elim (payload_of answer) [
                | inl wrong ↦ failed wrong w2
                | inr payload ↦ authenticated (gsasl.finish w2)
              ]
        ]
        | needs_more ↦ elim sent [
          | none ↦ failed unterminated w1
          | some out ↦
              let (answer, w2) = gsasl.sasl_continue w1 out conv in
              elim (payload_of answer) [
                | inl wrong ↦ failed wrong w2
                | inr payload ↦ step_loop fuel w2 payload conv
              ]
        ]
      ]

  -- From the first step on: it takes no data, and its output opens the conversation.
  unfoldable pub begin_conversation : ℕ → World → Bytes → SaslEnd World
  unfolding step_loop out_buf opening_of
  begin_conversation fuel w mechanism =
      let (rc, p, w1) = gsasl.step w [] in
      let begun = elim (out_buf p) as (λ x. SaslEnd World) [
        | none ↦ failed unterminated w1
        | some out ↦
            let (answer, w2) = gsasl.sasl_start w1 out mechanism in
            elim (opening_of answer) [
              | inl wrong ↦ failed wrong w2
              | inr (payload, conv) ↦ step_loop fuel w2 payload conv
            ]
      ] in
      elim rc [ step_error ↦ failed no_data w1 | gsasl_ok ↦ begun | needs_more ↦ begun ]

  -- sasl_authenticate; `mechanism` and `username` are the client's, if they are defined.
  unfoldable pub sasl_authenticate :
      ℕ → World → Bool → Bytes → Option Bytes → Option Bytes → SaslEnd World
  unfolding is_plain begin_conversation
  sasl_authenticate fuel w connected host mechanism username =
      if not connected then failed no_connection w else elim mechanism [
        | none ↦ failed no_mechanism w
        | some name ↦
            if is_plain name
            then (let (returned, w') = gsasl.sasl_plain_authenticate w in
                if returned then authenticated w' else failed method_died w')
            else (let (inited, w1) = gsasl.init w in
                let (started, w2) = gsasl.client_start w1 name in
                if not inited
                then failed no_library w1
                else if not started
                then failed no_client w2
                else elim username [
                  | none ↦ failed no_username w2
                  | some user ↦ begin_conversation fuel (gsasl.set_properties w2 host user) name
                ])
      ]
