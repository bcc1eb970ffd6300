-- ===== src/Webhook/Outcome.antt =====
-- What the handling of one message leaves behind, whatever fails on the way.
use wapsell_saas.Prelude.{
  ℕ, ◌+◌, ◌*◌, ◌<◌, ◌≤◌, ◌≡◌, ◌≢◌, inl, inr, leb, codes, Option-cases, refl, ap, ◌∙◌, true, false,
  Option, none, some, [], ◌∷◌, ◌++◌, Text, Dict, Result, ok, err, arith, eq_refl,
}
use wapsell_saas.Models.{Tenant, InboundMessage}
use wapsell_saas.Memory.{buyer, agent, remember}
use wapsell_saas.Inbox.{is_paused, pause}
use wapsell_saas.Inbox.Windows.{is_paused-pause}
use wapsell_saas.Handoff.{HandoffDecision}
use wapsell_saas.Crm.{Python}
use wapsell_saas.Agent.{AgentTurn, Ports, respond}
use wapsell_saas.Webhook.Defs.{
  World, Circumstances, fallback_reply, buyer_id_for, hour, escalated, pause_hours, turn_meta,
  flagged, remember_inbound, silent, notify, auto_pause, max_instant, after_hours, pause_by,
  pause_until, hand_over, answer_of, compose, process_inbound_message, delivery_meta,
}
use wapsell_saas.Webhook.Frames.{
  memory-crm_inbound, recorded, seen-recorded, seen-finish, memory-finish, silent-pauses,
  notify-keeps, compose-keeps,
}

pub after_hours_fits :
    (now hours : ℕ)
    → now + hours * hour ≤ max_instant
    → after_hours now hours ≡ some (now + hours * hour)
after_hours_fits now hours h =
    let t : leb (now + hours * hour) max_instant ≡ true = ground arith in rw t refl

module _ (p : Ports) (py : Python) (c : Circumstances) (t : Tenant) (msg : InboundMessage) where
  silent-recorded :
      (w : World) → silent p py c t msg (recorded p py c t msg w) ≡ silent p py c t msg w
  silent-recorded w =
      silent-pauses p py c t msg (recorded p py c t msg w) w
        (ap (λ s. s.2) (seen-recorded p py c t msg w))

  -- A message that arrives during a pause of its buyer, read without a failure: nothing is sent, no
  -- human is notified and the pauses stay. The memory has the message appended under its buyer, as
  -- the buyer's text, with the tenant's and the message's identifiers, and is as it was if its write
  -- failed.
  pub process_inbound_message-silent :
      (w : World)
      → silent p py c t msg w ≡ true
      → let w' = process_inbound_message p py c t msg w in
        (w'.sent ≡ w.sent)
        × (w'.notified ≡ w.notified)
        × (w'.pauses ≡ w.pauses)
        × (c.remember_buyer_fault ≡ none
            → w'.memory
              ≡ remember
                  (buyer_id_for t.slug msg.from_number)
                  (record {
                    text = msg.text;
                    role = buyer;
                    at = c.now;
                    metadata =
                        (codes "tenant_id", t.id) ∷ (codes "message_id", msg.message_id) ∷ [];
                  })
                  w.memory)
        × (c.remember_buyer_fault ≢ none → w'.memory ≡ w.memory)
  unfolding process_inbound_message remember_inbound
  process_inbound_message-silent w h =
      let h' : silent p py c t msg (recorded p py c t msg w) ≡ true = silent-recorded w ∙ h in
      let e = seen-recorded p py c t msg w in
      rw h' (
        ap (λ s. s.0) e,
        ap (λ s. s.1) e,
        ap (λ s. s.2) e,
        λ n. memory-crm_inbound p py c t msg (remember_inbound p py c t msg w) ∙ rw n refl,
        λ n.
            memory-crm_inbound p py c t msg (remember_inbound p py c t msg w)
            ∙ elim (Option-cases c.remember_buyer_fault) [
              | inl e ↦ absurd (n e)
              | inr (x, e) ↦ rw e refl
            ],
      )

  -- The agent's turn on a message, with the memory that holds the message.
  abbrev pub turn_on : World → Result Text AgentTurn
  turn_on w =
      respond p t (buyer_id_for t.slug msg.from_number) msg.text none
        (remember_inbound p py c t msg w).memory

  abbrev pub reply_of : Result Text AgentTurn → Text
  reply_of (err e) = fallback_reply
  reply_of (ok turn) = turn.reply

  reply-compose :
      (w : World)
      → (compose p py c t msg w).0.reply
        ≡ reply_of (respond p t (buyer_id_for t.slug msg.from_number) msg.text none w.memory)
  unfolding compose hand_over
  reply-compose w =
      answered (respond p t (buyer_id_for t.slug msg.from_number) msg.text none w.memory)
    where
      handed :
          (d : Option HandoffDecision) (reply : Text) (meta : Dict Text)
          → (hand_over p py c t msg d reply meta w).0.reply ≡ reply
      handed none reply meta = refl
      handed (some d) reply meta = refl

      answered : (r : Result Text AgentTurn) → (answer_of p py c t msg r w).0.reply ≡ reply_of r
      answered (err e) = refl
      answered (ok turn) = handed (escalated turn.handoff) turn.reply _

  reply-recorded :
      (w : World) → (compose p py c t msg (recorded p py c t msg w)).0.reply ≡ reply_of (turn_on w)
  reply-recorded w =
      reply-compose (recorded p py c t msg w)
      ∙ ap (λ m. reply_of (respond p t (buyer_id_for t.slug msg.from_number) msg.text none m))
          (memory-crm_inbound p py c t msg (remember_inbound p py c t msg w))

  -- A message of a buyer who is not paused is answered by exactly one delivery, to its sender and
  -- for its tenant, with the agent's reply, or the fallback text where the agent raised. Where the
  -- memory can be written, the reply is stored after the message, whatever the gateway answered.
  pub process_inbound_message-answers :
      (w : World)
      → silent p py c t msg w ≡ false
      → let w' = process_inbound_message p py c t msg w in
        let reply = reply_of (turn_on w) in
        (w'.sent
          ≡ w.sent ++ record { to_number = msg.from_number; text = reply; tenant_id = t.id } ∷ [])
        × (c.remember_agent_fault ≡ none
            → (meta : Dict Text) × (w'.memory
                ≡ remember
                    (buyer_id_for t.slug msg.from_number)
                    (record { text = reply; role = agent; at = c.now; metadata = meta })
                    (remember_inbound p py c t msg w).memory))
  unfolding process_inbound_message
  process_inbound_message-answers w h =
      let h' : silent p py c t msg (recorded p py c t msg w) ≡ false = silent-recorded w ∙ h in
      let (a, w'') = compose p py c t msg (recorded p py c t msg w) in
      let r : a.reply ≡ reply_of (turn_on w) = reply-recorded w in
      let sent-w'' : w''.sent ≡ w.sent =
        compose-keeps p py c t msg World.sent (recorded p py c t msg w) (λ v ns. refl)
          (λ v ps. refl)
        ∙ ap (λ s. s.0) (seen-recorded p py c t msg w) in
      let memory-w'' : w''.memory ≡ (remember_inbound p py c t msg w).memory =
        compose-keeps p py c t msg World.memory (recorded p py c t msg w) (λ v ns. refl)
          (λ v ps. refl)
        ∙ memory-crm_inbound p py c t msg (remember_inbound p py c t msg w) in
      rw h' (
        ap (λ s. s.0) (seen-finish p py c t msg a w'')
            ∙ rw sent-w'' (
                ap
                  (λ x.
                    w.sent
                    ++ record { to_number = msg.from_number; text = x; tenant_id = t.id } ∷ [])
                  r),
        λ e. (
          delivery_meta c.gateway a.meta,
          memory-finish p py c t msg a w'' e
              ∙ (ap
                    (λ m.
                      remember (buyer_id_for t.slug msg.from_number)
                        (record {
                          text = a.reply;
                          role = agent;
                          at = c.now;
                          metadata = delivery_meta c.gateway a.meta;
                        })
                        m)
                    memory-w''
                  ∙ ap
                      (λ x.
                        remember (buyer_id_for t.slug msg.from_number)
                          (record {
                            text = x;
                            role = agent;
                            at = c.now;
                            metadata = delivery_meta c.gateway a.meta;
                          })
                          (remember_inbound p py c t msg w).memory)
                      r),
        ),
      )

  -- The pauses after a turn that was handed over, with a window and a pause that did not fail.
  pauses-compose :
      (w : World) (turn : AgentTurn) (d : HandoffDecision) (hours : ℕ)
      → respond p t (buyer_id_for t.slug msg.from_number) msg.text none w.memory ≡ ok turn
      → escalated turn.handoff ≡ some d
      → pause_hours t.handoff_config ≡ some hours
      → c.pause_fault ≡ none
      → c.now + hours * hour ≤ max_instant
      → (compose p py c t msg w).1.pauses
        ≡ (pause t.id (buyer_id_for t.slug msg.from_number) (c.now + hours * hour) w.pauses).1
  unfolding compose hand_over auto_pause pause_until pause_by
  pauses-compose w turn d hours er ed eh ef el =
      let n : (notify p py c t msg d w).pauses ≡ w.pauses =
        notify-keeps p py c t msg World.pauses d w (λ ns. refl) in
      ap (λ r. (answer_of p py c t msg r w).1.pauses) er
      ∙ (ap (λ x. (hand_over p py c t msg x turn.reply (turn_meta p py c t msg turn) w).1.pauses) ed
          ∙ (ap
                (λ x.
                  (pause_until p py c t msg x c.pause_fault
                    (flagged d (turn_meta p py c t msg turn)) (notify p py c t msg d w)).1.pauses)
                eh
              ∙ (ap
                    (λ x.
                      (pause_by p py c t msg x c.pause_fault
                        (flagged d (turn_meta p py c t msg turn))
                        (notify p py c t msg d w)).1.pauses)
                    (after_hours_fits c.now hours el)
                  ∙ ap
                      (λ x.
                        (pause_by p py c t msg (some (c.now + hours * hour)) x
                          (flagged d (turn_meta p py c t msg turn))
                          (notify p py c t msg d w)).1.pauses)
                      ef
                  ∙ ap
                      (λ ps.
                        (pause t.id (buyer_id_for t.slug msg.from_number) (c.now + hours * hour)
                          ps).1)
                      n)))

  pauses-handed_over :
      (w : World) (turn : AgentTurn) (d : HandoffDecision) (hours : ℕ)
      → silent p py c t msg w ≡ false
      → turn_on w ≡ ok turn
      → escalated turn.handoff ≡ some d
      → pause_hours t.handoff_config ≡ some hours
      → c.pause_fault ≡ none
      → c.now + hours * hour ≤ max_instant
      → (process_inbound_message p py c t msg w).pauses
        ≡ (pause t.id (buyer_id_for t.slug msg.from_number) (c.now + hours * hour) w.pauses).1
  unfolding process_inbound_message
  pauses-handed_over w turn d hours h er ed eh ef el =
      let h' : silent p py c t msg (recorded p py c t msg w) ≡ false = silent-recorded w ∙ h in
      let (a, w'') = compose p py c t msg (recorded p py c t msg w) in
      let er' : respond p t (buyer_id_for t.slug msg.from_number) msg.text none
            (recorded p py c t msg w).memory
          ≡ ok turn =
        ap (λ m. respond p t (buyer_id_for t.slug msg.from_number) msg.text none m)
          (memory-crm_inbound p py c t msg (remember_inbound p py c t msg w))
        ∙ er in
      rw h' (
        ap (λ s. s.2) (seen-finish p py c t msg a w'')
        ∙ (pauses-compose (recorded p py c t msg w) turn d hours er' ed eh ef el
            ∙ ap
                (λ ps.
                  (pause t.id (buyer_id_for t.slug msg.from_number) (c.now + hours * hour) ps).1)
                (ap (λ s. s.2) (seen-recorded p py c t msg w))))

-- A message of a buyer who is not paused is handed over to a human, with a window of hours whose end
-- is no later than the last instant of a datetime, and the write of the pause does not fail. Then
-- the next message of the buyer, if it comes before the window's end and the pauses can be read,
-- leaves the log of deliveries as it is.
pub handover-silences :
    (p : Ports) (py : Python) (t : Tenant) (c c' : Circumstances) (msg msg' : InboundMessage)
    (w : World) (turn : AgentTurn) (d : HandoffDecision) (hours : ℕ)
    → silent p py c t msg w ≡ false
    → turn_on p py c t msg w ≡ ok turn
    → escalated turn.handoff ≡ some d
    → pause_hours t.handoff_config ≡ some hours
    → c.pause_fault ≡ none
    → c.now + hours * hour ≤ max_instant
    → msg'.from_number ≡ msg.from_number
    → c'.pause_check_fault ≡ none
    → c'.now < c.now + hours * hour
    → let w' = process_inbound_message p py c t msg w in
      (process_inbound_message p py c' t msg' w').sent ≡ w'.sent
handover-silences p py t c c' msg msg' w turn d hours h er ed eh ef el en ec lt =
    let w' = process_inbound_message p py c t msg w in
    let b : Text = buyer_id_for t.slug msg.from_number in
    let until : ℕ = c.now + hours * hour in
    let e : is_paused t.id b c'.now w'.pauses ≡ true =
      ap (λ ps. is_paused t.id b c'.now ps)
        (pauses-handed_over p py c t msg w turn d hours h er ed eh ef el)
      ∙ (is_paused-pause t.id b t.id b until c'.now w.pauses).0
      ∙ ground (arith, eq_refl t.id, eq_refl b) in
    let q : silent p py c' t msg' w' ≡ true = unfold silent in rw (ec, en) e in
    (process_inbound_message-silent p py c' t msg' w' q).0
