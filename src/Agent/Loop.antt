-- ===== src/Agent/Loop.antt =====
-- `AgentLoop` of sdk/wapsell/agent/loop.py. `Ports` holds the ports that it calls: the fact store,
-- the item search and the learning service, which may be absent, and the model; a call that raises
-- gives `err` with the message of the exception.
use wapsell_saas.Prelude.{
  ℕ, ◌+◌, Option, none, some, List, [], ◌∷◌, ◌++◌, Text, Unicode, codes, is_empty, str, length, map,
  Result, ok, err, if◌then◌else◌,
}
use wapsell_saas.Prelude.Values.{Value, null}
use wapsell_saas.Models.{SoulConfig, HandoffConfig, Tenant}
use wapsell_saas.Memory.{BuyerInteraction, BuyerMemory, buyer, agent, recall}
use wapsell_saas.Handoff.{Normal, HandoffDecision, evaluate}
use wapsell_saas.Resources.{Resource}
use wapsell_saas.Agent.Soul.{join, newline, build}

-- What the loop reads of a `Fact`.
pub record Fact : Type 0 where
  pub source : Text
  pub content : Text

pub data Speaker : Type 0 where
  system user assistant : Speaker

pub record LlmMessage : Type 0 where
  pub role : Speaker
  pub content : Text

pub record AgentTurn : Type 0 where
  pub reply : Text
  pub model : Text
  pub facts_cited : List Fact
  pub history_used : ℕ
  pub handoff : Option HandoffDecision
  pub resources_cited : List Resource

pub record Ports : Type 0 where
  pub unicode : Unicode
  pub normal : Normal
  pub show_value : Value → Text
  pub query : Text → Text → ℕ → Result Text (List Fact)
  pub search : Option (Text → Text → ℕ → Result Text (List Resource))
  pub learning_hints : Option (Text → Result Text Text)
  pub complete : List LlmMessage → Text → Result Text (Text × Text)
  pub resource_top_k : ℕ
  pub history_turns : ℕ
  pub rag_top_k : ℕ

abbrev pub handoff_model : Text
handoff_model = codes "<handoff>"

unfoldable pub fact_lines : ℕ → List Fact → List Text
fact_lines i [] = []
fact_lines i (f ∷ fs) =
    (str i ++ (codes ". [" ++ (f.source ++ (codes "] " ++ f.content)))) ∷ fact_lines (i + 1) fs

unfoldable pub render_facts_block : List Fact → Text
unfolding join fact_lines
render_facts_block fs = join newline (
    codes "## Catalog facts (use only what's here; never invent prices or stock)" ∷ fact_lines 1 fs)

unfoldable pub present_pairs : (Value → Text) → List (Text × Value) → List Text
present_pairs show [] = []
present_pairs show ((k, null) ∷ d) = present_pairs show d
present_pairs show ((k, v) ∷ d) = (k ++ (codes ": " ++ show v)) ∷ present_pairs show d

unfoldable pub resource_lines : (Value → Text) → ℕ → List Resource → List Text
unfolding join present_pairs
resource_lines show i [] = []
resource_lines show i (r ∷ rs) =
    let ref : Text = elim r.external_id [ none ↦ r.id | some x ↦ if is_empty x then r.id else x ] in
    let first = str i ++ (codes ". **" ++ (ref ++ (codes "** — " ++ r.summary))) in
    let compact = join (codes ", ") (present_pairs show r.data_) in
    let rest = resource_lines show (i + 1) rs in
    if is_empty compact then first ∷ rest else first ∷ (codes "   - " ++ compact) ∷ rest

unfoldable pub render_resources_block : (Value → Text) → List Resource → Text
unfolding join resource_lines
render_resources_block show rs = join newline (
    codes "## Catalog items (structured, source of truth — never invent fields)"
    ∷ codes "Each item has an `id` you can quote and a `data` dict with all available attributes."
    ∷ resource_lines show 1 rs)

abbrev pub block_if {ℓ} : {A : Type ℓ} → (List A → Text) → List A → List Text
block_if render [] = []
block_if render (x ∷ xs) = render (x ∷ xs) ∷ []

abbrev pub replay : BuyerInteraction → LlmMessage
replay i = record { role = (elim i.role [ agent ↦ assistant | buyer ↦ user ]); content = i.text }

-- The early return of `respond` where the detector tripped and the tenant has a configuration.
abbrev pub hand_over_or :
    Option HandoffConfig → HandoffDecision → Result Text AgentTurn → Result Text AgentTurn
hand_over_or none decision answer = answer
hand_over_or (some c) decision answer =
    if decision.escalate
    then ok (record {
      reply = c.handoff_message;
      model = handoff_model;
      facts_cited = [];
      history_used = 0;
      handoff = some decision;
      resources_cited = [];
    })
    else answer

module _ (p : Ports) where
  unfoldable pub hints_for : Text → Text
  hints_for tenant_id = elim p.learning_hints [
    | none ↦ []
    | some render ↦ elim (render tenant_id) [ err e ↦ [] | ok hints ↦ hints ]
  ]

  unfoldable pub compose_prompt :
      Tenant
      → List BuyerInteraction
      → List Fact
      → List Resource
      → Text
      → Option SoulConfig
      → List LlmMessage
  unfolding hints_for join
  compose_prompt t history facts resources message soul_config =
      let soul = build p.unicode.is_space t soul_config (hints_for t.id) in
      let parts =
        soul
        ∷ (block_if (render_resources_block p.show_value) resources
            ++ block_if render_facts_block facts) in
      record { role = system; content = join (newline ++ newline) parts }
      ∷ (map replay history ++ record { role = user; content = message } ∷ [])

  unfoldable pub find_resources : Text → Text → List Resource
  find_resources tenant_id message = elim p.search [
    | none ↦ []
    | some search ↦ elim (search tenant_id message p.resource_top_k) [ err e ↦ [] | ok rs ↦ rs ]
  ]

  -- The turn after the model's answer, with what it was asked with.
  abbrev pub turn_with :
      List BuyerInteraction
      → List Fact
      → List Resource
      → Result Text (Text × Text)
      → Result Text AgentTurn
  turn_with history facts resources (err e) = err e
  turn_with history facts resources (ok (reply, model)) = ok (record {
    reply = reply;
    model = model;
    facts_cited = facts;
    history_used = length history;
    handoff = none;
    resources_cited = resources;
  })

  -- The turn after the fact store's answer.
  unfoldable pub informed :
      Tenant
      → Text
      → Text
      → Option SoulConfig
      → BuyerMemory
      → Result Text (List Fact)
      → Result Text AgentTurn
  unfolding compose_prompt find_resources
  informed t buyer_id message soul_config m (err e) = err e
  informed t buyer_id message soul_config m (ok facts) =
      let history = recall buyer_id (some p.history_turns) m in
      let resources = find_resources t.id message in
      turn_with history facts resources
        (p.complete (compose_prompt t history facts resources message soul_config) t.model)

  unfoldable pub ask_model :
      Tenant → Text → Text → Option SoulConfig → BuyerMemory → Result Text AgentTurn
  ask_model t buyer_id message soul_config m =
      informed t buyer_id message soul_config m (p.query message t.id p.rag_top_k)

  unfoldable pub respond :
      Tenant → Text → Text → Option SoulConfig → BuyerMemory → Result Text AgentTurn
  respond t buyer_id message soul_config m =
      hand_over_or t.handoff_config (evaluate p.unicode p.normal message t.handoff_config)
        (ask_model t buyer_id message soul_config m)
