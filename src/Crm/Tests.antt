-- ===== src/Crm/Tests.antt =====
-- Messages of one number on an empty store, with an `int` that keeps integers.
use wapsell_saas.Prelude.{
  ◌≡◌, refl, false, Option, none, some, [], ◌∷◌, codes, nil-AtMostOne, ℤ, pos,
}
use wapsell_saas.Prelude.Values.{Value, int}
use wapsell_saas.Resources.{find_by_external_id}
use wapsell_saas.Crm.Defs.{Python, contact_kind, contact_external_id, record_activity}
use wapsell_saas.Crm.Activities.{record_activity-record_activity}
use wapsell_saas.Crm.Contacts.{IsCrm, Turns, inbounds, inbounds_count}

abbrev to_int : Value → Option ℤ
to_int (int z) = some z
to_int v = none

abbrev python : Python
python = record { isoformat = λ n. codes "2026"; to_int = to_int; is_space = λ c. false }

record_activity-record_activity_example :
    record_activity python
      (codes "a2")
      (codes "t1")
      (codes "c1")
      (codes "inbound")
      (codes "hola!")
      (codes "m1")
      9
      []
      (record_activity python
        (codes "a1")
        (codes "t1")
        (codes "c1")
        (codes "inbound")
        (codes "hola")
        (codes "m1")
        5
        []
        []).1
    ≡ record_activity python
        (codes "a1")
        (codes "t1")
        (codes "c1")
        (codes "inbound")
        (codes "hola")
        (codes "m1")
        5
        []
        []
record_activity-record_activity_example =
    record_activity-record_activity python (codes "a1") (codes "a2") (codes "t1") (codes "c1")
      (codes "c1") (codes "inbound") (codes "hola") (codes "hola!") (codes "m1") 5 9 [] [] [] tt

nobody : find_by_external_id (codes "t1") contact_kind (contact_external_id (codes "555")) [] ≡ none
unfolding find_by_external_id
nobody = refl

empty-IsCrm : IsCrm []
empty-IsCrm = record { keyed = tt; external = λ t k x. nil-AtMostOne _ }

inbounds_count_example :
    IsCrm (
      inbounds python
        (λ z. refl)
        (codes "t1")
        (codes "555")
        ((codes "c1", some (codes "Ana"), 5) ∷ (codes "c2", none, 6) ∷ [])
        [])
    × Turns python (codes "t1") (codes "555") (codes "c1") (pos 2) (
        inbounds python
          (λ z. refl)
          (codes "t1")
          (codes "555")
          ((codes "c1", some (codes "Ana"), 5) ∷ (codes "c2", none, 6) ∷ [])
          [])
inbounds_count_example =
    inbounds_count python (λ z. refl) (codes "t1") (codes "555") (codes "c1") (some (codes "Ana")) 5
      ((codes "c2", none, 6) ∷ []) [] empty-IsCrm nobody
