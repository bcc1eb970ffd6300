-- ===== src/Webhook/Frames.antt =====
-- What each step of the handling leaves as it is.
use wapsell_saas.Prelude.{
  ℕ, ◌≡◌, refl, ◌∙◌, Bool, true, false, if◌then◌else◌, Option, none, some, List, [], ◌∷◌, ◌++◌,
  Text, Dict, Result, ok, err,
}
use wapsell_saas.Models.{Tenant, InboundMessage}
use wapsell_saas.Memory.{agent, remember}
use wapsell_saas.Inbox.{Pauses}
use wapsell_saas.Handoff.{HandoffDecision}
use wapsell_saas.Crm.{Python}
use wapsell_saas.Agent.{AgentTurn, Ports, respond}
use wapsell_saas.Webhook.Defs.{
  Delivery, Notice, World, Circumstances, Answer, buyer_id_for, guarded, escalated, pause_hours,
  remember_inbound, crm_inbound, silent, notify, auto_pause, after_hours, pause_by, pause_until,
  hand_over, answer_of, compose, deliver, remember_reply, crm_outbound,
  maybe_dispatch_crm_extractor, finish, delivery_meta,
}

-- A field that a guarded call does not write.
pub guarded-keeps :
    {A : Type 0} (f : World → A) (fault : Option Text) (called w : World)
    → f called ≡ f w
    → f (guarded fault called w) ≡ f w
guarded-keeps f none called w e = e
guarded-keeps f (some x) called w e = refl

-- What the buyer and the humans see of a world.
abbrev pub Seen : Type 0
Seen = List Delivery × List Notice × Pauses

abbrev pub seen : World → Seen
seen w = (w.sent, w.notified, w.pauses)

module _ (p : Ports) (py : Python) (c : Circumstances) (t : Tenant) (msg : InboundMessage) where
  pub seen-remember_inbound : (w : World) → seen (remember_inbound p py c t msg w) ≡ seen w
  unfolding remember_inbound
  seen-remember_inbound w = guarded-keeps seen c.remember_buyer_fault _ w refl

  pub seen-crm_inbound : (w : World) → seen (crm_inbound p py c t msg w) ≡ seen w
  unfolding crm_inbound
  seen-crm_inbound w = guarded-keeps seen c.crm_inbound_fault _ w refl

  pub memory-crm_inbound : (w : World) → (crm_inbound p py c t msg w).memory ≡ w.memory
  unfolding crm_inbound
  memory-crm_inbound w = guarded-keeps World.memory c.crm_inbound_fault _ w refl

  abbrev pub recorded : World → World
  recorded w = crm_inbound p py c t msg (remember_inbound p py c t msg w)

  pub seen-recorded : (w : World) → seen (recorded w) ≡ seen w
  seen-recorded w = seen-crm_inbound (remember_inbound p py c t msg w) ∙ seen-remember_inbound w

  pub seen-remember_reply :
      (r : Text) (d : Dict Text) (w : World) → seen (remember_reply p py c t msg r d w) ≡ seen w
  unfolding remember_reply
  seen-remember_reply r d w = guarded-keeps seen c.remember_agent_fault _ w refl

  pub seen-crm_outbound :
      (r : Text) (d : Dict Text) (w : World) → seen (crm_outbound p py c t msg r d w) ≡ seen w
  unfolding crm_outbound
  seen-crm_outbound r d w = guarded-keeps seen c.crm_outbound_fault _ w refl

  pub memory-crm_outbound :
      (r : Text) (d : Dict Text) (w : World) → (crm_outbound p py c t msg r d w).memory ≡ w.memory
  unfolding crm_outbound
  memory-crm_outbound r d w = guarded-keeps World.memory c.crm_outbound_fault _ w refl

  pub if-keeps :
      {A : Type 0} (f : World → A) (b : Bool) (v w : World)
      → f v ≡ f w
      → f (if b then v else w) ≡ f w
  if-keeps f true v w e = e
  if-keeps f false v w e = refl

  pub seen-dispatch : (w : World) → seen (maybe_dispatch_crm_extractor p py c t msg w) ≡ seen w
  unfolding maybe_dispatch_crm_extractor
  seen-dispatch w = if-keeps seen _ _ w (guarded-keeps seen c.create_task_fault _ w refl)

  pub memory-dispatch :
      (w : World) → (maybe_dispatch_crm_extractor p py c t msg w).memory ≡ w.memory
  unfolding maybe_dispatch_crm_extractor
  memory-dispatch w =
      if-keeps World.memory _ _ w (guarded-keeps World.memory c.create_task_fault _ w refl)

  pub seen-finish :
      (a : Answer) (w : World)
      → seen (finish p py c t msg a w) ≡ (
        w.sent ++ record { to_number = msg.from_number; text = a.reply; tenant_id = t.id } ∷ [],
        w.notified,
        w.pauses,
      )
  unfolding finish deliver
  seen-finish a w =
      let (meta, w') = deliver p py c t msg a w in
      let w'' : World = remember_reply p py c t msg a.reply meta w' in
      seen-dispatch (crm_outbound p py c t msg a.reply meta w'')
      ∙ (seen-crm_outbound a.reply meta w'' ∙ seen-remember_reply a.reply meta w')

  pub memory-finish :
      (a : Answer) (w : World)
      → c.remember_agent_fault ≡ none
      → (finish p py c t msg a w).memory
        ≡ remember
            (buyer_id_for t.slug msg.from_number)
            (record {
              text = a.reply;
              role = agent;
              at = c.now;
              metadata = delivery_meta c.gateway a.meta;
            })
            w.memory
  unfolding finish deliver
  memory-finish a w e =
      let (meta, w') = deliver p py c t msg a w in
      let w'' : World = remember_reply p py c t msg a.reply meta w' in
      memory-dispatch (crm_outbound p py c t msg a.reply meta w'')
      ∙ (memory-crm_outbound a.reply meta w'' ∙ unfold remember_reply in rw e)

  pub silent-pauses :
      (v w : World) → v.pauses ≡ w.pauses → silent p py c t msg v ≡ silent p py c t msg w
  unfolding silent
  silent-pauses v w e = rw e

  pub auto_pause-keeps :
      {A : Type 0} (f : World → A) (meta : Dict Text) (w : World)
      → ((ps : Pauses) → f (record w { pauses = ps }) ≡ f w)
      → f (auto_pause p py c t msg meta w).1 ≡ f w
  unfolding auto_pause pause_until pause_by
  auto_pause-keeps f meta w e = started (pause_hours t.handoff_config)
    where
      ended :
          (until : Option ℕ) (fault : Option Text)
          → f (pause_by p py c t msg until fault meta w).1 ≡ f w
      ended none fault = refl
      ended (some n) (some x) = refl
      ended (some n) none = e _

      started : (h : Option ℕ) → f (pause_until p py c t msg h c.pause_fault meta w).1 ≡ f w
      started none = refl
      started (some n) = ended (after_hours c.now n) c.pause_fault

  pub notify-keeps :
      {A : Type 0} (f : World → A) (d : HandoffDecision) (w : World)
      → ((ns : List Notice) → f (record w { notified = ns }) ≡ f w)
      → f (notify p py c t msg d w) ≡ f w
  unfolding notify
  notify-keeps f d w e = guarded-keeps f c.notify_fault _ w (e _)

  -- Composing the reply writes neither the memory nor the log of deliveries.
  pub compose-keeps :
      {A : Type 0} (f : World → A) (w : World)
      → ((v : World) (ns : List Notice) → f (record v { notified = ns }) ≡ f v)
      → ((v : World) (ps : Pauses) → f (record v { pauses = ps }) ≡ f v)
      → f (compose p py c t msg w).1 ≡ f w
  unfolding compose hand_over
  compose-keeps f w n q =
      answered (respond p t (buyer_id_for t.slug msg.from_number) msg.text none w.memory)
    where
      handed :
          (d : Option HandoffDecision) (reply : Text) (meta : Dict Text)
          → f (hand_over p py c t msg d reply meta w).1 ≡ f w
      handed none reply meta = refl
      handed (some d) reply meta =
          auto_pause-keeps f _ (notify p py c t msg d w) (q _) ∙ notify-keeps f d w (n w)

      answered : (r : Result Text AgentTurn) → f (answer_of p py c t msg r w).1 ≡ f w
      answered (err e) = refl
      answered (ok turn) = handed (escalated turn.handoff) turn.reply _
