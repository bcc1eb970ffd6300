-- ===== src/Skills/Closer.antt =====
-- sdk/wapsell/skills/sales_closer.py. `Casing` holds `str.lower` and `str.upper`.
use wapsell_saas.Prelude.{
  Bool, true, false, ◌||◌, Option, none, some, List, [], ◌∷◌, ◌++◌, Text, codes, contains, ◌==◌,
  Result, ok, err, if◌then◌else◌,
}

pub record Casing : Type 0 where
  pub lower : Text → Text
  pub upper : Text → Text

pub data Stage : Type 0 where
  identify present objections confirm notify closed escalated : Stage

-- `any(w in msg for w in words)`
unfoldable pub any_in : List Text → Text → Bool
any_in [] msg = false
any_in (w ∷ ws) msg = contains msg w || any_in ws msg

abbrev pub objection_words : List Text
objection_words = codes "no" ∷ codes "caro" ∷ codes "otro" ∷ codes "alternativa" ∷ []

abbrev pub escalation_words : List Text
escalation_words = codes "escalar" ∷ codes "humano" ∷ codes "hablar con" ∷ []

abbrev pub buying_words : List Text
buying_words =
    codes "ok" ∷ codes "sí" ∷ codes "si" ∷ codes "compro" ∷ codes "quiero" ∷ codes "dame" ∷ []

abbrev pub payment_words : List Text
payment_words = codes "pagado" ∷ codes "transferí" ∷ codes "ok" ∷ codes "listo" ∷ []

unfoldable pub transition : Casing → Stage → Text → Stage
transition u identify message = present
transition u present message =
    if any_in objection_words (u.lower message) then objections else confirm
transition u objections message =
    if any_in escalation_words (u.lower message)
    then escalated
    else if any_in buying_words (u.lower message)
    then confirm
    else objections
transition u confirm message = if any_in payment_words (u.lower message) then notify else confirm
transition u notify message = closed
transition u closed message = closed
transition u escalated message = escalated

-- `Stage(raw)`; `none` is its `ValueError`.
unfoldable pub to_stage : Text → Option Stage
to_stage raw =
    if raw == codes "IDENTIFY"
    then some identify
    else if raw == codes "PRESENT"
    then some present
    else if raw == codes "OBJECTIONS"
    then some objections
    else if raw == codes "CONFIRM"
    then some confirm
    else if raw == codes "NOTIFY"
    then some notify
    else if raw == codes "CLOSED"
    then some closed
    else if raw == codes "ESCALATED"
    then some escalated
    else none

abbrev pub stage_value : Stage → Text
stage_value identify = codes "IDENTIFY"
stage_value present = codes "PRESENT"
stage_value objections = codes "OBJECTIONS"
stage_value confirm = codes "CONFIRM"
stage_value notify = codes "NOTIFY"
stage_value closed = codes "CLOSED"
stage_value escalated = codes "ESCALATED"

abbrev pub stage_prompt : Stage → Text
stage_prompt identify = codes "Preguntá al cliente qué producto busca, cantidad y uso."
stage_prompt present =
    codes "Presentá los productos del catálogo que matchean su necesidad. "
    ++ codes "Incluí precio y stock. Nunca inventes datos."
stage_prompt objections =
    codes "Respondé objeciones con honestidad. Ofrecé alternativas si no hay stock. "
    ++ codes "Si la objeción se repite, escalá a humano."
stage_prompt confirm =
    codes "Pedí confirmación de compra y método de pago. "
    ++ codes "No marques como cerrado sin pago confirmado."
stage_prompt notify = codes "Confirmá la venta y notificá al canal correspondiente."
stage_prompt closed = []
stage_prompt escalated = []

abbrev pub is_terminal : Stage → Bool
is_terminal closed = true
is_terminal escalated = true
is_terminal s = false

abbrev pub needs_escalation : Stage → Bool
needs_escalation escalated = true
needs_escalation s = false

pub record Step : Type 0 where
  pub current_stage : Text
  pub next_stage : Text
  pub prompt : Text
  pub terminal : Bool
  pub escalation : Bool

-- `params.get(k) or default`
abbrev pub or_default : Option Text → Text → Text
or_default none d = d
or_default (some []) d = d
or_default (some (c ∷ s)) d = c ∷ s

unfoldable pub execute : Casing → Option Text → Option Text → Result Text Step
unfolding transition to_stage
execute u current_stage message =
    let raw = u.upper (or_default current_stage (codes "IDENTIFY")) in
    elim (to_stage raw) [
      | none ↦ err (codes "invalid stage: " ++ raw)
      | some current ↦
          let next = transition u current (or_default message []) in
          ok (record {
            current_stage = stage_value current;
            next_stage = stage_value next;
            prompt = stage_prompt next;
            terminal = is_terminal next;
            escalation = needs_escalation next;
          })
    ]
