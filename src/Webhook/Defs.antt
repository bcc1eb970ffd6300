-- ===== src/Webhook/Defs.antt =====
-- `_process_inbound_message` and `_maybe_dispatch_crm_extractor` of services/api/main.py.
-- `Circumstances` holds what the outside does during one message: the clock, the identifiers that
-- are drawn, the gateway's answer, and, for each guarded call, the message of the exception that it
-- raises, if it raises one. A call that raises leaves its store as it was. `World` holds the stores,
-- and the log of the deliveries that were tried, of the notices to a human and of the extractor's
-- runs that were scheduled.
use wapsell_saas.Prelude.{
  ℕ, zero, suc, ◌+◌, ◌*◌, ◌%◌, Bool, true, false, Option, none, some, List, [], ◌∷◌, ◌++◌, Text,
  codes, str, length, map, take, Dict, lookup, insert, Result, ok, err, pos, negsuc, leb, nat_eq,
  if◌then◌else◌,
}
use wapsell_saas.Prelude.Values.{Value, int, text, boolean}
use wapsell_saas.Models.{Tenant, HandoffConfig, InboundMessage}
use wapsell_saas.Memory.{BuyerMemory, buyer, agent, remember}
use wapsell_saas.Inbox.{Pauses, is_paused, pause}
use wapsell_saas.Handoff.{HandoffDecision}
use wapsell_saas.Resources.{ResourceRepo, find_by_external_id}
use wapsell_saas.Crm.{Python, contact_kind, contact_external_id, record_inbound, record_outbound}
use wapsell_saas.Agent.{AgentTurn, Ports, respond}

pub record Delivery : Type 0 where
  pub to_number : Text
  pub text : Text
  pub tenant_id : Text

pub record Notice : Type 0 where
  pub buyer_id : Text
  pub message : Text
  pub decision : HandoffDecision

pub record World : Type 0 where
  pub memory : BuyerMemory
  pub resources : ResourceRepo
  pub pauses : Pauses
  pub sent : List Delivery
  pub notified : List Notice
  pub extractions : List Text

pub record Circumstances : Type 0 where
  pub now : ℕ
  pub contact_new : Text
  pub inbound_new : Text
  pub outbound_new : Text
  pub remember_buyer_fault : Option Text
  pub crm_inbound_fault : Option Text
  pub pause_check_fault : Option Text
  pub notify_fault : Option Text
  pub pause_fault : Option Text
  pub gateway : Result Text (Option Text)
  pub remember_agent_fault : Option Text
  pub crm_outbound_fault : Option Text
  pub extractor_stride : Option ℕ
  pub contact_lookup_fault : Option Text
  pub create_task_fault : Option Text

abbrev pub fallback_reply : Text
fallback_reply =
    codes "Tuvimos un inconveniente procesando tu mensaje. Te respondemos en unos minutos."

-- `buyer_id_for(tenant.slug, number)`
unfoldable pub buyer_id_for : Text → Text → Text
buyer_id_for slug number = slug ++ (codes ":" ++ number)

abbrev pub hour : ℕ
hour = 3600000000

-- `datetime.max`, past which the addition of a timedelta raises
abbrev pub max_instant : ℕ
max_instant = 253402300799999999

-- `datetime.now(UTC) + timedelta(hours=hours)` for hours that are positive; `none` is the
-- `OverflowError`.
abbrev pub after_hours : ℕ → ℕ → Option ℕ
after_hours now hours =
    if leb (now + hours * hour) max_instant then some (now + hours * hour) else none

-- `try: call() except Exception: log`
abbrev pub guarded : Option Text → World → World → World
guarded none called w = called
guarded (some e) called w = w

-- The reply of a turn, with its audit metadata.
pub record Answer : Type 0 where
  pub reply : Text
  pub meta : Dict Text

abbrev pub keyword_meta : Option Text → Dict Text → Dict Text
keyword_meta none d = d
keyword_meta (some []) d = d
keyword_meta (some (c ∷ s)) d = insert (codes "handoff_keyword") (c ∷ s) d

abbrev pub flagged : HandoffDecision → Dict Text → Dict Text
flagged d meta = keyword_meta d.matched_keyword (insert (codes "handoff") (codes "true") meta)

-- `decision is not None and decision.escalate`
abbrev pub escalated : Option HandoffDecision → Option HandoffDecision
escalated none = none
escalated (some d) = if d.escalate then some d else none

-- `hcfg.auto_pause_hours` where it is positive
abbrev pub pause_hours : Option HandoffConfig → Option ℕ
pause_hours none = none
pause_hours (some c) = elim c.auto_pause_hours [
  | pos n ↦ elim n [ zero ↦ none | suc m ↦ some (suc m) ]
  | negsuc n ↦ none
]

-- `{"vendor_message_id": vendor_message_id, **agent_meta}` after the gateway's answer
abbrev pub delivery_meta : Result Text (Option Text) → Dict Text → Dict Text
delivery_meta (err e) d =
    (codes "vendor_message_id", []) ∷ insert (codes "delivery_error") (take 200 e) d
delivery_meta (ok none) d = (codes "vendor_message_id", []) ∷ d
delivery_meta (ok (some id)) d = (codes "vendor_message_id", id) ∷ d

module _ (p : Ports) (py : Python) (c : Circumstances) (t : Tenant) (msg : InboundMessage) where
  unfoldable pub remember_inbound : World → World
  unfolding buyer_id_for remember
  remember_inbound w =
      guarded c.remember_buyer_fault
        (record w {
          memory =
              remember (buyer_id_for t.slug msg.from_number)
                (record {
                  text = msg.text;
                  role = buyer;
                  at = c.now;
                  metadata = (codes "tenant_id", t.id) ∷ (codes "message_id", msg.message_id) ∷ [];
                })
                w.memory;
        })
        w

  unfoldable pub crm_inbound : World → World
  unfolding record_inbound
  crm_inbound w =
      guarded c.crm_inbound_fault
        (record w {
          resources =
              (record_inbound py c.contact_new c.inbound_new t.id msg.from_number msg.text
                msg.message_id msg.profile_name c.now w.resources).1;
        })
        w

  -- Whether the pause check returns from the handler.
  unfoldable pub silent : World → Bool
  unfolding is_paused buyer_id_for
  silent w = elim c.pause_check_fault [
    | some e ↦ false
    | none ↦ is_paused t.id (buyer_id_for t.slug msg.from_number) c.now w.pauses
  ]

  unfoldable pub notify : HandoffDecision → World → World
  unfolding buyer_id_for
  notify d w =
      guarded c.notify_fault
        (record w {
          notified =
              w.notified
              ++ record {
                buyer_id = buyer_id_for t.slug msg.from_number;
                message = msg.text;
                decision = d;
              }
                ∷ [];
        })
        w

  -- The pause until a time, where there is one and the write does not fail.
  unfoldable pub pause_by : Option ℕ → Option Text → Dict Text → World → Dict Text × World
  unfolding pause buyer_id_for
  pause_by none fault meta w = (meta, w)
  pause_by (some until) (some e) meta w = (meta, w)
  pause_by (some until) none meta w = (
    insert (codes "bot_paused_until") (py.isoformat until) meta,
    record w { pauses = (pause t.id (buyer_id_for t.slug msg.from_number) until w.pauses).1 },
  )

  -- A window whose end no datetime can hold raises, and nothing is paused.
  unfoldable pub pause_until : Option ℕ → Option Text → Dict Text → World → Dict Text × World
  unfolding pause_by
  pause_until none fault meta w = (meta, w)
  pause_until (some hours) fault meta w = pause_by (after_hours c.now hours) fault meta w

  unfoldable pub auto_pause : Dict Text → World → Dict Text × World
  auto_pause meta w = pause_until (pause_hours t.handoff_config) c.pause_fault meta w

  abbrev pub turn_meta : AgentTurn → Dict Text
  turn_meta turn =
      (codes "model", turn.model)
      ∷ (codes "facts_cited", str (length turn.facts_cited))
      ∷ (codes "history_used", str turn.history_used)
      ∷ []

  -- The notice to a human and the pause, where the detector tripped.
  unfoldable pub hand_over : Option HandoffDecision → Text → Dict Text → World → Answer × World
  unfolding notify auto_pause
  hand_over none reply meta w = (record { reply = reply; meta = meta }, w)
  hand_over (some d) reply meta w =
      let (meta', w') = auto_pause (flagged d meta) (notify d w) in
      (record { reply = reply; meta = meta' }, w')

  abbrev pub answer_of : Result Text AgentTurn → World → Answer × World
  answer_of (err e) w =
      (record { reply = fallback_reply; meta = (codes "error", take 200 e) ∷ [] }, w)
  answer_of (ok turn) w = hand_over (escalated turn.handoff) turn.reply (turn_meta turn) w

  unfoldable pub compose : World → Answer × World
  unfolding buyer_id_for
  compose w = answer_of (respond p t (buyer_id_for t.slug msg.from_number) msg.text none w.memory) w

  -- The metadata of the reply's row, and the log with the delivery that was tried.
  unfoldable pub deliver : Answer → World → Dict Text × World
  deliver a w = (
    delivery_meta c.gateway a.meta,
    record w {
      sent =
          w.sent ++ record { to_number = msg.from_number; text = a.reply; tenant_id = t.id } ∷ [];
    },
  )

  unfoldable pub remember_reply : Text → Dict Text → World → World
  unfolding buyer_id_for remember
  remember_reply reply meta w =
      guarded c.remember_agent_fault
        (record w {
          memory =
              remember (buyer_id_for t.slug msg.from_number)
                (record { text = reply; role = agent; at = c.now; metadata = meta }) w.memory;
        })
        w

  unfoldable pub crm_outbound : Text → Dict Text → World → World
  unfolding record_outbound
  crm_outbound reply meta w =
      guarded c.crm_outbound_fault
        (record w {
          resources =
              (record_outbound py c.outbound_new t.id msg.from_number reply msg.message_id c.now
                (map (λ (k, v). (k, text v)) meta) w.resources).1;
        })
        w

  -- Whether the stride lets this turn through: `turn_count` is no positive `int`, or the stride
  -- divides it.
  abbrev pub on_stride : ℕ → Option Value → Bool
  on_stride stride (some (int (pos (suc n)))) = nat_eq (suc n % stride) 0
  on_stride stride (some (boolean true)) = nat_eq (1 % stride) 0
  on_stride stride v = true

  unfoldable pub is_due : ℕ → World → Bool
  unfolding find_by_external_id contact_external_id lookup
  is_due stride w = if leb stride 1 then true else elim c.contact_lookup_fault [
    | some e ↦ false
    | none ↦
        elim (find_by_external_id t.id contact_kind (contact_external_id msg.from_number)
          w.resources) [
            | none ↦ false
            | some contact ↦ on_stride stride (lookup (codes "turn_count") contact.data_)
          ]
  ]

  unfoldable pub maybe_dispatch_crm_extractor : World → World
  unfolding is_due buyer_id_for
  maybe_dispatch_crm_extractor w =
      if elim c.extractor_stride [ none ↦ false | some stride ↦ is_due stride w ]
      then guarded c.create_task_fault
          (record w { extractions = w.extractions ++ buyer_id_for t.slug msg.from_number ∷ [] }) w
      else w

  unfoldable pub finish : Answer → World → World
  unfolding remember_reply crm_outbound maybe_dispatch_crm_extractor deliver
  finish a w =
      let (meta, w') = deliver a w in
      maybe_dispatch_crm_extractor (crm_outbound a.reply meta (remember_reply a.reply meta w'))

  unfoldable pub process_inbound_message : World → World
  unfolding crm_inbound remember_inbound
  process_inbound_message w =
      let w' = crm_inbound (remember_inbound w) in
      let (a, w'') = compose w' in if silent w' then w' else finish a w''
