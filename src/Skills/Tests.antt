-- ===== src/Skills/Tests.antt =====
-- A sale that is closed, two leads, and a search.
use wapsell_saas.Prelude.{none, Dict, ◌≤◌, ◌≡◌, refl, arith, List, [], ◌∷◌, Text, codes, contains}
use wapsell_saas.Skills.Closer.{Casing, identify, closed, transition, any_in}
use wapsell_saas.Skills.Closing.{converse, PaidIn, converse-closed}
use wapsell_saas.Skills.Qualifier.{weigh}
use wapsell_saas.Skills.Scoring.{weigh_monotone}
use wapsell_saas.Prelude.Int.{pos}
use wapsell_saas.Prelude.Values.{Value, int, text, object, member, no_members}
use wapsell_saas.Resources.Tests.{priced, item}
use wapsell_saas.Skills.ResourceSearch.{Convert, QueryLog, Match, to_match}

abbrev plain : Casing
plain = record { lower = λ s. s; upper = λ s. s }

abbrev sale : List Text
sale = codes "busco remeras" ∷ codes "me gusta" ∷ codes "ya está pagado" ∷ codes "gracias" ∷ []

sold : converse plain identify sale ≡ closed
unfolding converse transition contains any_in
sold = refl

converse-closed_example : PaidIn plain identify sale
converse-closed_example = (converse-closed plain sale).0 sold

weigh_monotone_example : (weigh 1 2 0 0 ≤ weigh 2 1 1 0) × (weigh 2 1 1 0 ≤ 100)
weigh_monotone_example =
    weigh_monotone 1 2 0 0 2 1 1 0 (omega arith) (omega arith) (omega arith) (omega arith)

abbrev convert : Convert
convert = record { str_other = λ v. []; to_int = λ v. none }

abbrev asked : Dict Value
asked =
    (codes "filters", object (member (codes "max_price") (int (pos 100)) no_members))
    ∷ (codes "query", text (codes "Remera"))
    ∷ []

abbrev chat : Dict Value
chat = (codes "tenant_id", text (codes "t1")) ∷ []

abbrev log : QueryLog
log = record { entries = []; next_id = 1 }

abbrev matched : List Match
matched = to_match (priced (codes "r1") 90) ∷ to_match (item (codes "r3")) ∷ []
