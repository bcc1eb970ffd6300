-- ===== src/Whatsapp/Handled.antt =====
-- The loop of `webhook_receive` over the messages of a request.
use wapsell_saas.Prelude.{ℕ, ◌+◌, List, [], ◌∷◌, Text}
use wapsell_saas.Models.{Tenant, InboundMessage}
use wapsell_saas.Tenants.{TenantRepo}
use wapsell_saas.Crm.{Python}
use wapsell_saas.Agent.{Ports}
use wapsell_saas.Webhook.Defs.{World, Circumstances, process_inbound_message}
use wapsell_saas.Whatsapp.Payload.{Shows}
use wapsell_saas.Whatsapp.Receive.{process_all}

-- The handler ran on the messages one after the other, from the first world to the last, the `i`-th
-- message in its own circumstances, and on no other message.
pub data Handled (p : Ports) (py : Python) (circumstances : ℕ → Circumstances) (t : Tenant)
    : ℕ → List InboundMessage → World → World → Type 0 where
  done : (i : ℕ) (w : World) → Handled p py circumstances t i [] w w
  next :
      (i : ℕ) (m : InboundMessage) (ms : List InboundMessage) (w v : World)
      → Handled p py circumstances t
          (i + 1)
          ms
          (process_inbound_message p py (circumstances i) t m w)
          v
      → Handled p py circumstances t i (m ∷ ms) w v

pub process_all-Handled :
    (p : Ports) (py : Python) (shows : Shows) (hexdigest : Text → Text → Text) (app_secret : Text)
    (repo : TenantRepo) (circumstances : ℕ → Circumstances) (i : ℕ) (t : Tenant)
    (ms : List InboundMessage) (w : World)
    → Handled p py circumstances t i ms w
        (process_all p py shows hexdigest app_secret repo circumstances i t ms w)
unfolding process_all
process_all-Handled p py shows hexdigest app_secret repo circumstances i t [] w = done i w
process_all-Handled p py shows hexdigest app_secret repo circumstances i t (m ∷ ms) w =
    next i m ms w _ (
      process_all-Handled p py shows hexdigest app_secret repo circumstances (i + 1) t ms
        (process_inbound_message p py (circumstances i) t m w))
