-- ===== src/Events.antt =====
-- sdk/wapsell/events/bus.py: the in-process event bus. A handler is a callback that the bus only
-- calls, so what a call of it does to the bus is the parameter `call`.
use wapsell_saas.Prelude.{ℕ, Option, List, [], ◌∷◌, ◌++◌, Text, ◌==◌, Dict, filter, Result, ok, err}

pub record Event : Type 0 where
  pub type : Text
  pub payload : Dict (Option Text)
  pub at : ℕ

pub record Bus : Type 0 where
  pub events : List Event
  pub handlers : List ℕ

unfoldable pub subscribe : ℕ → Bus → Bus
subscribe h b = record b { handlers = b.handlers ++ h ∷ [] }

unfoldable pub by_type : Text → Bus → List Event
by_type type b = filter (λ e. e.type == type) b.events

module _ {E : Type 0} (call : ℕ → Event → Bus → Result E (Unit {0}) × Bus) where
  -- The calls over the snapshot of the handlers, up to the first that raises.
  unfoldable pub notify : List ℕ → Event → Bus → Result E (Unit {0}) × Bus
  notify [] e b = (ok tt, b)
  notify (h ∷ hs) e b =
      let (r, b') = call h e b in elim r [ ok _ ↦ notify hs e b' | err x ↦ (err x, b') ]

  unfoldable pub publish : Event → Bus → Result E (Unit {0}) × Bus
  unfolding notify
  publish e b = notify b.handlers e (record b { events = b.events ++ e ∷ [] })
