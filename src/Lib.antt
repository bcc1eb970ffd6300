-- ===== src/Lib.antt =====
-- Wapsell SaaS: WhatsApp sales agents for many tenants. A business signs up (Onboarding) and
-- becomes a tenant (Tenants) that the events announce (Events). Meta's webhook (Whatsapp) checks
-- and parses a delivery and hands each of a buyer's messages to the handler (Webhook), which
-- stores it (Memory), files it (Crm, over Resources), stays silent while a human has the thread
-- (Inbox), asks the agent (Agent, Handoff) for a reply, and delivers and stores the reply; what
-- the buyer said is read from time to time for the CRM (Extractor). A tenant's catalog is read
-- from its sources on a schedule (Sources). The dashboard's routes are guarded by sessions (Auth)
-- and tenant checks (Access); there a human takes over a conversation (Takeover), reads figures
-- (Analytics) and keeps templates (Templates). Tenants pay by subscriptions (Billing).
--
-- The files, by the code that they translate:
--   Models       sdk/wapsell/models.py
--   Tenants      sdk/wapsell/tenant: the in-memory repository, TenantManager, TenantRouter,
--                InMemoryTenantSpawner, TenantSupervisor
--   Events       sdk/wapsell/events/bus.py: InMemoryEventBus
--   Onboarding   sdk/wapsell/onboarding/flow.py: slugify, OnboardingFlow
--   Auth         sdk/wapsell/auth: AuthService and the in-memory repositories
--   Access       services/api/main.py: _optional_current_user, _assert_authenticated,
--                _assert_admin, _assert_tenant_access, _filter_visible_tenants
--   Billing      sdk/wapsell/billing: plans, the in-memory repository, BillingService
--   Memory       sdk/wapsell/memory/buyer.py: InMemoryBuyerMemory
--   Inbox        sdk/wapsell/inbox/repository.py: InMemoryBotPauseRepository
--   Handoff      sdk/wapsell/handoff/detector.py: HandoffDetector
--   Resources    sdk/wapsell/resources/repository.py: InMemoryResourceRepository
--   Sources      sdk/wapsell/resources: ResourceSynchronizer, InMemoryDataSourceRepository and
--                SyncScheduler (sync.py, repository.py, scheduler.py)
--   Crm          sdk/wapsell/crm/recorder.py: CrmRecorder
--   Extractor    sdk/wapsell/crm/extractor.py: CrmExtractor, _parse_reply; and _run_crm_extractor
--                of services/api/main.py
--   Agent        sdk/wapsell/agent: SoulBuilder, AgentLoop
--   Skills       sdk/wapsell/skills: SalesCloserSkill, LeadQualifierSkill, ResourceSearchSkill
--   Webhook      services/api/main.py: _process_inbound_message, _maybe_dispatch_crm_extractor
--   Whatsapp     sdk/wapsell/whatsapp/webhook.py, and webhook_verify and webhook_receive of
--                services/api/main.py
--   Takeover     services/api/main.py: list_conversations, get_conversation_thread,
--                send_human_message, pause_bot, resume_bot
--   Analytics    services/api/main.py: get_analytics
--   Templates    sdk/wapsell/templates/repository.py, and list_templates, create_template,
--                update_template and delete_template of services/api/main.py
--
-- An operation has the name of its function. It takes the state of its component (a dictionary in
-- insertion order, or a record of such) and returns it with the result; an exception is an `err`,
-- or a `none` where the code has only one outcome for it. A text is the list of its code points,
-- and a datetime the number of microseconds since the epoch; an instant past the last datetime
-- raises. An amount in pesos is its whole pesos and its hundredths, which the code's float equals
-- for the plans' prices. What the code draws from outside is
-- an argument: the clock's readings, new identifiers and tokens, bcrypt, HMAC, the JSON parser,
-- Python's operations on floats and on JSON values, the Unicode database, the matches of the lead
-- qualifier's regular expressions, the rows that a source fetches, the answers of Mercado Pago,
-- of the gateway, of the language model and of the fact store. The handler of messages takes, for
-- each call that it guards, whether the call raises. A request runs alone: what other requests
-- write while it waits for the network is not in the model.
--
-- The loop of `_unique_slug` runs on as much fuel as there are tenants, and one more, which is
-- enough, since the candidates differ from one another. Every other loop is over a list, or
-- counts up to a number.
--
-- Not modelled: the Postgres adapters, whose work is SQL; the HTTP clients (gateway, Mercado
-- Pago, language models, notifier, source adapters); the routes of the API around the services,
-- but for those named above, and its rate limits; the scheduler's asyncio task; learning,
-- ingestion and the other skills; the dashboard.
pub mod Prelude
pub mod Models
pub mod Tenants
pub mod Events
pub mod Onboarding
pub mod Auth
pub mod Access
pub mod Billing
pub mod Memory
pub mod Inbox
pub mod Handoff
pub mod Resources
pub mod Sources
pub mod Crm
pub mod Extractor
pub mod Agent
pub mod Skills
pub mod Webhook
pub mod Whatsapp
pub mod Takeover
pub mod Analytics
pub mod Templates
