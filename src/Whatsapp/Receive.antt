-- ===== src/Whatsapp/Receive.antt =====
-- `webhook_verify` and `webhook_receive` of services/api/main.py, without the rate limit. The parsed body of a request is `none` where it is no
-- JSON. A request that raises is answered by FastAPI with the status 500.
use wapsell_saas.Prelude.{
  ℕ, ◌+◌, Option, none, some, List, [], ◌∷◌, ◌++◌, Text, codes, str, length, ◌>>=◌, if◌then◌else◌,
}
use wapsell_saas.Prelude.Values.{Value}
use wapsell_saas.Models.{Tenant, InboundMessage}
use wapsell_saas.Tenants.{TenantRepo, by_phone_number_id}
use wapsell_saas.Crm.{Python}
use wapsell_saas.Agent.{Ports}
use wapsell_saas.Webhook.Defs.{World, Circumstances, process_inbound_message}
use wapsell_saas.Whatsapp.Payload.{
  Shows, verify_signature, verify_subscription, extract_phone_number_id, parse_messages,
}

pub record Request : Type 0 where
  pub body : Text
  pub signature : Text
  pub json : Option Value
  pub received_at : ℕ

pub record Response : Type 0 where
  pub status_code : ℕ
  pub content : Text

abbrev pub server_error : Response
server_error = record { status_code = 500; content = codes "Internal Server Error" }

-- The query's parameters are empty where the query has none.
unfoldable pub webhook_verify : Text → Text → Text → Text → Response
unfolding verify_subscription
webhook_verify verify_token mode token challenge =
    elim (verify_subscription verify_token mode token challenge) [
      | none ↦ server_error
      | some none ↦ record { status_code = 403; content = codes "forbidden" }
      | some (some c) ↦ record { status_code = 200; content = c }
    ]

module _ (p : Ports) (py : Python) (shows : Shows) (hexdigest : Text → Text → Text)
    (app_secret : Text) (repo : TenantRepo) (circumstances : ℕ → Circumstances) where
  -- The messages in their order; the `i`-th has its own circumstances.
  unfoldable pub process_all : ℕ → Tenant → List InboundMessage → World → World
  unfolding process_inbound_message
  process_all i t [] w = w
  process_all i t (m ∷ ms) w =
      process_all (i + 1) t ms (process_inbound_message p py (circumstances i) t m w)

  -- `try_resolve` of the phone number, where there is one; `none` is an exception of the parsing.
  unfoldable pub tenant_of : Value → Option (Option Tenant)
  unfolding extract_phone_number_id by_phone_number_id
  tenant_of payload = do
    found ← extract_phone_number_id payload
    elim found [ none ↦ some none | some number ↦ some (by_phone_number_id number repo) ]

  unfoldable pub dispatch : Tenant → Option (List InboundMessage) → World → Response × World
  unfolding process_all
  dispatch t none w = (server_error, w)
  dispatch t (some ms) w = (
    record {
      status_code = 200;
      content = codes "received " ++ (str (length ms) ++ (codes " for " ++ t.slug));
    },
    process_all 0 t ms w,
  )

  unfoldable pub route : Option (Option Tenant) → Request → Value → World → Response × World
  unfolding dispatch parse_messages
  route none r payload w = (server_error, w)
  route (some none) r payload w =
      (record { status_code = 200; content = codes "no tenant for this phone_number_id" }, w)
  route (some (some t)) r payload w = dispatch t (parse_messages shows t.id r.received_at payload) w

  unfoldable pub receive_json : Option Value → Request → World → Response × World
  unfolding route tenant_of
  receive_json none r w = (server_error, w)
  receive_json (some payload) r w = route (tenant_of payload) r payload w

  unfoldable pub webhook_receive : Request → World → Response × World
  unfolding verify_signature receive_json
  webhook_receive r w =
      let answer = receive_json r.json r w in
      elim (verify_signature hexdigest app_secret r.body r.signature) [
        | none ↦ (server_error, w)
        | some b ↦
            if b
            then answer
            else (record { status_code = 401; content = codes "invalid signature" }, w)
      ]
