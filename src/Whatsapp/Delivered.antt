-- ===== src/Whatsapp/Delivered.antt =====
-- What a request to the webhook does to the world.
use wapsell_saas.Prelude.{
  ℕ, ◌≡◌, ◌≢◌, ◌⊎◌, inl, inr, refl, sym, subst, ap, if◌then◌else◌, ◌∙◌, Bool, true, false, Option,
  none, some, List, ◌∷◌, ◌++◌, Text, codes, str, length, is_empty, All,
}
use wapsell_saas.Prelude.Values.{Value}
use wapsell_saas.Models.{Tenant, InboundMessage}
use wapsell_saas.Tenants.{TenantRepo, by_phone_number_id}
use wapsell_saas.Crm.{Python}
use wapsell_saas.Agent.{Ports}
use wapsell_saas.Webhook.Defs.{World, Circumstances}
use wapsell_saas.Whatsapp.Payload.{
  Shows, is_ascii, verify_signature, extract_phone_number_id, parse_messages,
}
use wapsell_saas.Whatsapp.Signed.{
  header_of, verify_signature-accepts, verify_signature-signed, verify_signature-refuses,
  verify_signature-raises,
}
use wapsell_saas.Whatsapp.Receive.{
  Request, Response, server_error, process_all, tenant_of, dispatch, route, receive_json,
  webhook_receive,
}
use wapsell_saas.Whatsapp.Encode.{
  IsWritten, payload_of, parse_messages-payload_of, extract_phone_number_id-payload_of,
}
use wapsell_saas.Whatsapp.Handled.{Handled, process_all-Handled}

module _ (p : Ports) (py : Python) (shows : Shows) (hexdigest : Text → Text → Text)
    (app_secret : Text) (repo : TenantRepo) (circumstances : ℕ → Circumstances) (r : Request)
    (w : World) where
  -- The request has the header that signs its body, its number is a tenant's, and the handler ran on
  -- its messages in their order.
  abbrev pub IsProcessed : Type 0
  IsProcessed =
      (r.signature ≡ header_of hexdigest app_secret r.body)
      × ((payload : Value) × (number : Text) × (t : Tenant) × (ms : List InboundMessage) × (r.json
            ≡ some payload)
          × (extract_phone_number_id payload ≡ some (some number))
          × (by_phone_number_id number repo ≡ some t)
          × (parse_messages shows t.id r.received_at payload ≡ some ms)
          × Handled p py circumstances t 0 ms w
              (webhook_receive p py shows hexdigest app_secret repo circumstances r w).1)

  abbrev found : Value → Option (Option Tenant)
  found payload = tenant_of p py shows hexdigest app_secret repo circumstances payload

  abbrev FoundCases : Value → Type 0
  FoundCases payload =
      (found payload ≡ none)
      ⊎ (found payload ≡ some none)
      ⊎ ((number : Text) × (t : Tenant) × (extract_phone_number_id payload ≡ some (some number))
          × (by_phone_number_id number repo ≡ some t)
          × (found payload ≡ some (some t)))

  tenant_of_cases : (payload : Value) → FoundCases payload
  unfolding tenant_of
  tenant_of_cases payload = extracted (extract_phone_number_id payload) refl
    where
      looked :
          (number : Text) (o : Option Tenant)
          → extract_phone_number_id payload ≡ some (some number)
          → by_phone_number_id number repo ≡ o
          → FoundCases payload
      looked number none e q = inr (inl (rw (e, q) refl))
      looked number (some t) e q = inr (inr (number, t, e, q, rw (e, q) refl))

      extracted :
          (o : Option (Option Text)) → extract_phone_number_id payload ≡ o → FoundCases payload
      extracted none e = inl (rw e refl)
      extracted (some none) e = inr (inl (rw e refl))
      extracted (some (some number)) e = looked number (by_phone_number_id number repo) e refl

  abbrev received : Response × World
  received = webhook_receive p py shows hexdigest app_secret repo circumstances r w

  abbrev json_answer : Option Value → Response × World
  json_answer o = receive_json p py shows hexdigest app_secret repo circumstances o r w

  abbrev routed : Value → Option (Option Tenant) → Response × World
  routed payload o = route p py shows hexdigest app_secret repo circumstances o r payload w

  abbrev dispatched : Tenant → Option (List InboundMessage) → Response × World
  dispatched t o = dispatch p py shows hexdigest app_secret repo circumstances t o w

  received_cases :
      (received ≡ json_answer r.json)
      → verify_signature hexdigest app_secret r.body r.signature ≡ some true
      → (received.1 ≡ w) ⊎ IsProcessed
  unfolding receive_json route dispatch
  received_cases e signed = read r.json refl
    where
      parsed :
          (payload : Value) (number : Text) (t : Tenant) (o : Option (List InboundMessage))
          → r.json ≡ some payload
          → extract_phone_number_id payload ≡ some (some number)
          → by_phone_number_id number repo ≡ some t
          → received ≡ dispatched t o
          → parse_messages shows t.id r.received_at payload ≡ o
          → (received.1 ≡ w) ⊎ IsProcessed
      parsed payload number t none j n b q m = inl (ap (λ a. a.1) q)
      parsed payload number t (some ms) j n b q m = inr (
        verify_signature-accepts hexdigest app_secret r.body r.signature signed,
        (
          payload,
          number,
          t,
          ms,
          j,
          n,
          b,
          m,
          subst (Handled p py circumstances t 0 ms w) (sym (ap (λ a. a.1) q))
              (process_all-Handled p py shows hexdigest app_secret repo circumstances 0 t ms w),
        ),
      )

      resolved :
          (payload : Value)
          → r.json ≡ some payload
          → received ≡ routed payload (found payload)
          → FoundCases payload
          → (received.1 ≡ w) ⊎ IsProcessed
      resolved payload j q (inl n) = inl (ap (λ a. a.1) (q ∙ ap (routed payload) n))
      resolved payload j q (inr (inl n)) = inl (ap (λ a. a.1) (q ∙ ap (routed payload) n))
      resolved payload j q (inr (inr (number, t, n, b, f))) =
          parsed payload number t (parse_messages shows t.id r.received_at payload) j n b
            (q ∙ ap (routed payload) f) refl

      read : (o : Option Value) → r.json ≡ o → (received.1 ≡ w) ⊎ IsProcessed
      read none j = inl (ap (λ a. a.1) (e ∙ ap json_answer j))
      read (some payload) j = resolved payload j (e ∙ ap json_answer j) (tenant_of_cases payload)

  -- A request leaves the world as it is, or its header is "sha256=" and the digest of its body with
  -- the app's secret, its first phone number is a tenant's, it parses, and the world after it is the
  -- one that the handler leaves when it runs on each of its messages once, for that tenant and in
  -- their order.
  pub webhook_receive_cases : (received.1 ≡ w) ⊎ IsProcessed
  unfolding webhook_receive
  webhook_receive_cases = verified (verify_signature hexdigest app_secret r.body r.signature) refl
    where
      verified :
          (o : Option Bool)
          → verify_signature hexdigest app_secret r.body r.signature ≡ o
          → (received.1 ≡ w) ⊎ IsProcessed
      verified none e = inl (rw e refl)
      verified (some false) e = inl (rw e refl)
      verified (some true) e = received_cases (rw e refl) e

tenant_of-payload_of :
    (p : Ports) (py : Python) (shows : Shows) (hexdigest : Text → Text → Text) (app_secret : Text)
    (repo : TenantRepo) (circumstances : ℕ → Circumstances) (number : Text) (t : Tenant)
    (m : InboundMessage) (ms : List InboundMessage)
    → is_empty number ≡ false
    → by_phone_number_id number repo ≡ some t
    → tenant_of p py shows hexdigest app_secret repo circumstances (payload_of number (m ∷ ms))
      ≡ some (some t)
unfolding tenant_of
tenant_of-payload_of p py shows hexdigest app_secret repo circumstances number t m ms hn hb =
    rw (extract_phone_number_id-payload_of number m ms hn, hb) refl

-- One entry of Meta's payload with messages to a tenant's number, not empty, one message per change,
-- each of them one that the parsing can give; and a digest that is ASCII. With the header "sha256="
-- and the digest, the answer is 200 with the number of messages, and the world is the one that the
-- handler leaves when it runs on each message once, in their order. With another ASCII header, the
-- answer is 401 and nothing changes; with "sha256=" and a text that is not ASCII, it is 500 and
-- nothing changes.
pub webhook_receive-payload_of :
    (p : Ports) (py : Python) (shows : Shows) (hexdigest : Text → Text → Text) (app_secret : Text)
    (repo : TenantRepo) (circumstances : ℕ → Circumstances) (r : Request) (w : World)
    (number : Text) (t : Tenant) (m : InboundMessage) (ms : List InboundMessage)
    → is_empty number ≡ false
    → by_phone_number_id number repo ≡ some t
    → All (IsWritten shows t.id r.received_at) (m ∷ ms)
    → r.json ≡ some (payload_of number (m ∷ ms))
    → is_ascii (hexdigest app_secret r.body) ≡ true
    → let expected = header_of hexdigest app_secret r.body in
      let (answer, w') = webhook_receive p py shows hexdigest app_secret repo circumstances r w in
      (r.signature ≡ expected
        → (answer ≡ record {
          status_code = 200;
          content = codes "received " ++ (str (length (m ∷ ms)) ++ (codes " for " ++ t.slug));
        })
          × Handled p py circumstances t 0 (m ∷ ms) w w')
      × (r.signature ≢ expected
          → is_ascii r.signature ≡ true
          → (answer ≡ record { status_code = 401; content = codes "invalid signature" }) × (w' ≡ w))
      × ((given : Text)
          → r.signature ≡ codes "sha256=" ++ given
          → is_ascii given ≡ false
          → (answer ≡ server_error) × (w' ≡ w))
unfolding webhook_receive receive_json route dispatch
webhook_receive-payload_of p py shows hexdigest app_secret repo circumstances r w number t m ms hn
      hb hw hj ha =
    (
      λ s.
          let v = verify_signature-signed hexdigest app_secret r.body r.signature s ha in
          let q : received (some true) ≡ (
            record {
              status_code = 200;
              content = codes "received " ++ (str (length (m ∷ ms)) ++ (codes " for " ++ t.slug));
            },
            process_all p py shows hexdigest app_secret repo circumstances 0 t (m ∷ ms) w,
          ) =
            ap (λ o. receive_json p py shows hexdigest app_secret repo circumstances o r w) hj
            ∙ known in
          let e = ap received v ∙ q in
          (
            ap (λ a. a.0) e,
            subst (Handled p py circumstances t 0 (m ∷ ms) w) (sym (ap (λ a. a.1) e)) (
                process_all-Handled p py shows hexdigest app_secret repo circumstances 0 t (m ∷ ms)
                  w),
          ),
      λ s a.
          let e =
            ap received (verify_signature-refuses hexdigest app_secret r.body r.signature s ha a) in
          (ap (λ x. x.0) e, ap (λ x. x.1) e),
      λ g s n.
          let v : verify_signature hexdigest app_secret r.body r.signature ≡ none =
            ap (verify_signature hexdigest app_secret r.body) s
            ∙ verify_signature-raises hexdigest app_secret r.body g n in
          let e = ap received v in (ap (λ x. x.0) e, ap (λ x. x.1) e),
    )
  where
    received : Option Bool → Response × World
    received o = elim o [
      | none ↦ (server_error, w)
      | some b ↦
          if b
          then receive_json p py shows hexdigest app_secret repo circumstances r.json r w
          else (record { status_code = 401; content = codes "invalid signature" }, w)
    ]

    payload : Value
    payload = payload_of number (m ∷ ms)

    known : receive_json p py shows hexdigest app_secret repo circumstances (some payload) r w ≡ (
      record {
        status_code = 200;
        content = codes "received " ++ (str (length (m ∷ ms)) ++ (codes " for " ++ t.slug));
      },
      process_all p py shows hexdigest app_secret repo circumstances 0 t (m ∷ ms) w,
    )
    known =
        ap (λ o. route p py shows hexdigest app_secret repo circumstances o r payload w)
          (tenant_of-payload_of p py shows hexdigest app_secret repo circumstances number t m ms hn
            hb)
        ∙ ap (λ o. dispatch p py shows hexdigest app_secret repo circumstances t o w)
            (parse_messages-payload_of shows t.id r.received_at number (m ∷ ms) hw)
