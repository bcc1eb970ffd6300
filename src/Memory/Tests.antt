-- ===== src/Memory/Tests.antt =====
-- Two buyers whose messages interleave, and a memory of two messages each.
use wapsell_saas.Prelude.{ℕ, ◌≡◌, ◌≤◌, none, some, [], ◌∷◌, Text, codes, length}
use wapsell_saas.Memory.Defs.{BuyerInteraction, buyer, last_n, recall}
use wapsell_saas.Memory.History.{History, fresh, remember_all, of_buyer, recall-history}

abbrev says : Text → ℕ → BuyerInteraction
says t at = record { text = t; role = buyer; at = at; metadata = [] }

abbrev history : History
history =
    (codes "a", says (codes "hola") 1)
    ∷ (codes "b", says (codes "precio") 2)
    ∷ (codes "a", says (codes "stock") 3)
    ∷ (codes "a", says (codes "gracias") 4)
    ∷ []

recall-history_example :
    (recall (codes "a") none (remember_all history (fresh 2 3))
      ≡ last_n 2 (of_buyer (codes "a") history))
    × ((n : ℕ)
        → recall (codes "a") (some n) (remember_all history (fresh 2 3))
          ≡ last_n n (last_n 2 (of_buyer (codes "a") history)))
    × (length (recall (codes "a") none (remember_all history (fresh 2 3))) ≤ 2)
recall-history_example = recall-history 2 3 history (codes "a")
