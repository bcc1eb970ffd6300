-- ===== src/Skills/Scoring.antt =====
-- The bands of the lead qualifier.
use wapsell_saas.Prelude.{ℕ, ◌≤◌, ◌<◌, ◌≡◌, ◌↔◌, arith}
use wapsell_saas.Skills.Qualifier.{weigh, hot, cold, tag, prioritize, nurture, next_action}

-- The score is at most 100. It does not fall when more signals of intent, urgency or budget are
-- found, nor when fewer of the low ones are.
pub weigh_monotone :
    (h l u b h' l' u' b' : ℕ)
    → h ≤ h'
    → l' ≤ l
    → u ≤ u'
    → b ≤ b'
    → (weigh h l u b ≤ weigh h' l' u' b') × (weigh h' l' u' b' ≤ 100)
unfolding weigh
weigh_monotone h l u b h' l' u' b' p q r s = (ground arith, ground arith)

-- The tags are bands of the score: hot from 70, cold below 40. A hot lead is prioritized and no
-- other, and one is nurtured exactly from 55 to 69.
pub tag_bands :
    (n : ℕ)
    → ((tag n ≡ hot) ↔ (70 ≤ n))
      × ((tag n ≡ cold) ↔ (n < 40))
      × ((next_action n (tag n) ≡ prioritize) ↔ (70 ≤ n))
      × ((next_action n (tag n) ≡ nurture) ↔ ((55 ≤ n) × (n < 70)))
unfolding tag next_action
tag_bands n = (ground arith, ground arith, ground arith, ground arith)
