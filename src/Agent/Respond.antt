-- ===== src/Agent/Respond.antt =====
-- The outcomes of a turn of the agent.
use wapsell_saas.Prelude.{
  ℕ, zero, suc, ◌≤◌, ◌≡◌, ◌⊎◌, inl, inr, refl, ap, ◌∙◌, true, false, Option, none, some, List, [],
  Text, Result, ok, err, length, arith, Bool-cases,
}
use wapsell_saas.Models.{SoulConfig, HandoffConfig, Tenant}
use wapsell_saas.Memory.{BuyerMemory, recall}
use wapsell_saas.Memory.History.{length-last_n}
use wapsell_saas.Handoff.{HandoffDecision, evaluate}
use wapsell_saas.Agent.Loop.{
  Fact, AgentTurn, Ports, handoff_model, compose_prompt, find_resources, ask_model, turn_with,
  informed, hand_over_or, respond,
}

length-recall : (b : Text) (n : ℕ) (m : BuyerMemory) → length (recall b (some n) m) ≤ n
unfolding recall
length-recall b zero m = omega arith
length-recall b (suc n) m = length-last_n (suc n) _

module _ (p : Ports) (t : Tenant) (b message : Text) (config : Option SoulConfig)
    (m : BuyerMemory) where
  abbrev pub decision : HandoffDecision
  decision = evaluate p.unicode p.normal message t.handoff_config

  -- The turn is the configured message, and cites nothing.
  abbrev pub IsHandedOver : Type 0
  IsHandedOver =
      (c : HandoffConfig) × (t.handoff_config ≡ some c)
      × (decision.escalate ≡ true)
      × (respond p t b message config m
          ≡ ok (record {
            reply = c.handoff_message;
            model = handoff_model;
            facts_cited = [];
            history_used = 0;
            handoff = some decision;
            resources_cited = [];
          }))

  -- The fact store raised.
  abbrev pub IsUninformed : Type 0
  IsUninformed =
      (e : Text) × (p.query message t.id p.rag_top_k ≡ err e)
      × (respond p t b message config m ≡ err e)

  abbrev pub asked : List Fact → Result Text (Text × Text)
  asked facts =
      p.complete
        (compose_prompt p t (recall b (some p.history_turns) m) facts
          (find_resources p t.id message) message config)
        t.model

  -- The fact store answered, and the model, asked with the facts, raised or replied.
  abbrev pub IsAsked : Type 0
  IsAsked =
      (facts : List Fact) × (p.query message t.id p.rag_top_k ≡ ok facts)
      × (((e : Text) × (asked facts ≡ err e) × (respond p t b message config m ≡ err e))
          ⊎ ((reply : Text) × (model : Text) × (turn : AgentTurn) × (asked facts
                ≡ ok (reply, model))
              × (respond p t b message config m ≡ ok turn)
              × (turn.reply ≡ reply)
              × (turn.facts_cited ≡ facts)
              × (turn.handoff ≡ none)
              × (turn.history_used ≤ p.history_turns)))

  ask_model_cases :
      respond p t b message config m ≡ ask_model p t b message config m → IsUninformed ⊎ IsAsked
  unfolding ask_model informed
  ask_model_cases e = go (p.query message t.id p.rag_top_k) refl
    where
      go :
          (r : Result Text (List Fact))
          → p.query message t.id p.rag_top_k ≡ r
          → IsUninformed ⊎ IsAsked
      go (err x) q = inl (x, q, e ∙ ap (λ r. informed p t b message config m r) q)
      go (ok facts) q = inr (facts, q, answered (asked facts) refl)
        where
          answered :
              (r : Result Text (Text × Text))
              → asked facts ≡ r
              → ((x : Text) × (asked facts ≡ err x) × (respond p t b message config m ≡ err x))
                ⊎ ((reply : Text) × (model : Text) × (turn : AgentTurn) × (asked facts
                      ≡ ok (reply, model))
                    × (respond p t b message config m ≡ ok turn)
                    × (turn.reply ≡ reply)
                    × (turn.facts_cited ≡ facts)
                    × (turn.handoff ≡ none)
                    × (turn.history_used ≤ p.history_turns))
          answered (err x) a = inl (
            x,
            a,
            e
                ∙ (ap (λ r. informed p t b message config m r) q
                    ∙ ap
                        (λ r.
                          turn_with p (recall b (some p.history_turns) m) facts
                            (find_resources p t.id message) r)
                        a),
          )
          answered (ok (reply, model)) a = inr (
            reply,
            model,
            record {
              reply = reply;
              model = model;
              facts_cited = facts;
              history_used = length (recall b (some p.history_turns) m);
              handoff = none;
              resources_cited = find_resources p t.id message;
            },
            a,
            e
                ∙ (ap (λ r. informed p t b message config m r) q
                    ∙ ap
                        (λ r.
                          turn_with p (recall b (some p.history_turns) m) facts
                            (find_resources p t.id message) r)
                        a),
            refl,
            refl,
            refl,
            length-recall b p.history_turns m,
          )

  abbrev answer : Result Text AgentTurn
  answer = ask_model p t b message config m

  -- A turn has one of three outcomes: the message is handed over, and then the reply is the tenant's
  -- configured text; it is not, and the fact store raised; or the fact store answered, and the
  -- model's reply or exception is the turn's. The history that is used is within the bound, and no
  -- exception but the fact store's and the model's reaches the caller.
  pub respond_cases : IsHandedOver ⊎ ((decision.escalate ≡ false) × (IsUninformed ⊎ IsAsked))
  unfolding respond evaluate
  respond_cases = go t.handoff_config refl (Bool-cases decision.escalate)
    where
      go :
          (h : Option HandoffConfig)
          → t.handoff_config ≡ h
          → (decision.escalate ≡ true) ⊎ (decision.escalate ≡ false)
          → IsHandedOver ⊎ ((decision.escalate ≡ false) × (IsUninformed ⊎ IsAsked))
      go none e d =
          let shut : decision.escalate ≡ false =
            ap (λ h. (evaluate p.unicode p.normal message h).escalate) e in
          inr (shut, ask_model_cases (ap (λ h. hand_over_or h decision answer) e))
      go (some c) e (inl y) = inl (c, e, y, ap (λ h. hand_over_or h decision answer) e ∙ rw y)
      go (some c) e (inr n) =
          inr (n, ask_model_cases (ap (λ h. hand_over_or h decision answer) e ∙ rw n))
