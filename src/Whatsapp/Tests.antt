-- ===== src/Whatsapp/Tests.antt =====
-- Two messages to a tenant's number, in one signed request.
use wapsell_saas.Prelude.{
  ◌≡◌, ◌⊎◌, refl, false, none, some, [], ◌∷◌, ◌++◌, Text, codes, ◌==◌, strip_by, All, str,
}
use wapsell_saas.Models.{Tenant, InboundMessage}
use wapsell_saas.Tenants.{TenantRepo, by_phone_number_id}
use wapsell_saas.Agent.Tests.{ports, tenant}
use wapsell_saas.Webhook.Tests.{python, at, world}
use wapsell_saas.Whatsapp.Payload.{Shows, parse_messages}
use wapsell_saas.Whatsapp.Receive.{Request, webhook_receive}
use wapsell_saas.Whatsapp.Encode.{payload_of, IsWritten, parse_messages-payload_of}
use wapsell_saas.Whatsapp.Handled.{Handled}
use wapsell_saas.Whatsapp.Delivered.{IsProcessed, webhook_receive_cases, webhook_receive-payload_of}

abbrev shows : Shows
shows = record { is_space = λ c. false; str_other = λ v. codes "?" }

abbrev digest : Text → Text → Text
digest secret body = codes "ab"

abbrev routed_tenant : Tenant
routed_tenant = record tenant { whatsapp_phone_number_id = some (codes "555") }

abbrev repo : TenantRepo
repo = (codes "t1", routed_tenant) ∷ []

abbrev first : InboundMessage
first = record {
  tenant_id = codes "t1";
  from_number = codes "549";
  text = codes "hola";
  message_id = codes "m1";
  profile_name = some (codes "Ana");
  received_at = 3;
}

abbrev second : InboundMessage
second = record first { text = codes "precio?"; message_id = codes "m2"; profile_name = none }

abbrev request : Request
request = record {
  body = codes "{...}";
  signature = codes "sha256=ab";
  json = some (payload_of (codes "555") (first ∷ second ∷ []));
  received_at = 3;
}

written : All (IsWritten shows (codes "t1") 3) (first ∷ second ∷ [])
unfolding strip_by
written = ((refl, refl, (refl, refl, refl, refl)), ((refl, refl, tt), tt))

parse_messages-payload_of_example :
    parse_messages shows (codes "t1") 3 (payload_of (codes "555") (first ∷ second ∷ []))
    ≡ some (first ∷ second ∷ [])
parse_messages-payload_of_example =
    parse_messages-payload_of shows (codes "t1") 3 (codes "555") (first ∷ second ∷ []) written

webhook_receive_cases_example :
    ((webhook_receive ports python shows digest (codes "key") repo at request world).1 ≡ world)
    ⊎ IsProcessed ports python shows digest (codes "key") repo at request world
webhook_receive_cases_example =
    webhook_receive_cases ports python shows digest (codes "key") repo at request world

owned : by_phone_number_id (codes "555") repo ≡ some routed_tenant
unfolding by_phone_number_id ◌==◌
owned = refl

webhook_receive-payload_of_example :
    let out = webhook_receive ports python shows digest (codes "key") repo at request world in
    (out.0 ≡ record {
      status_code = 200;
      content = codes "received " ++ (str 2 ++ (codes " for " ++ codes "tienda"));
    })
    × Handled ports python at routed_tenant 0 (first ∷ second ∷ []) world out.1
webhook_receive-payload_of_example =
    (webhook_receive-payload_of ports python shows digest (codes "key") repo at request world
        (codes "555") routed_tenant first (second ∷ []) refl owned written refl refl).0
      refl
