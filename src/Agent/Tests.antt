-- ===== src/Agent/Tests.antt =====
-- A tenant with a hand-over configuration, and a model that greets. `ports` and `tenant` serve the
-- tests of the webhook too.
use wapsell_saas.Prelude.{◌≡◌, ◌⊎◌, true, false, none, some, [], ◌∷◌, codes, ok, err, pos}
use wapsell_saas.Models.{Tenant, HandoffConfig, active}
use wapsell_saas.Memory.{BuyerMemory}
use wapsell_saas.Agent.Loop.{Ports}
use wapsell_saas.Agent.Respond.{decision, IsHandedOver, IsUninformed, IsAsked, respond_cases}

abbrev pub ports : Ports
ports = record {
  unicode = record { lower = λ s. s; is_space = λ c. false };
  normal = record { nfd = λ s. s; is_mark = λ c. false };
  show_value = λ v. [];
  query = λ message tenant_id top_k. ok [];
  search = some (λ tenant_id message top_k. err (codes "down"));
  learning_hints = none;
  complete = λ prompt model. ok (codes "Hola!", model);
  resource_top_k = 3;
  history_turns = 10;
  rag_top_k = 3;
}

abbrev pub config : HandoffConfig
config = record {
  enabled = true;
  keywords = codes "humano" ∷ [];
  webhook_url = none;
  handoff_message = codes "Te paso con un humano.";
  auto_pause_hours = pos 12;
}

abbrev pub tenant : Tenant
tenant = record {
  id = codes "t1";
  name = codes "Tienda";
  slug = codes "tienda";
  status = active;
  whatsapp_phone_number_id = none;
  model = codes "m";
  soul_config = none;
  handoff_config = some config;
  created_at = 1;
}

abbrev pub memory : BuyerMemory
memory = record { max_items = 50; dialectic_depth = 3; store = [] }

respond_cases_example :
    IsHandedOver ports tenant (codes "b") (codes "hola") none memory
    ⊎ ((decision ports tenant (codes "b") (codes "hola") none memory).escalate ≡ false)
      × (IsUninformed ports tenant (codes "b") (codes "hola") none memory
          ⊎ IsAsked ports tenant (codes "b") (codes "hola") none memory)
respond_cases_example = respond_cases ports tenant (codes "b") (codes "hola") none memory
