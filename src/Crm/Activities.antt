-- ===== src/Crm/Activities.antt =====
-- The timeline: one activity for a direction and a message, however often it is reported.
use wapsell_saas.Prelude.{
  ℕ, ◌≡◌, ◌≢◌, Bool, none, some, Text, codes, eq_iff, eq_refl, Dict, lookup, values, find,
  find-insert_new, IsKeyed, arith, Option-cases, inl, inr, lookup-insert,
}
use wapsell_saas.Prelude.Values.{Value}
use wapsell_saas.Resources.{Resource, ResourceRepo, has_external, find_by_external_id}
use wapsell_saas.Crm.Defs.{
  Python, activity_kind, contact_kind, contact_external_id, activity_external_id_for_message,
  new_activity, record_activity, record_outbound,
}

module _ (py : Python) where
  -- After a report the activity is found under the direction and the message, and it is the one
  -- that the report returned.
  pub find-record_activity :
      (id tenant_id contact_id direction message message_id : Text) (at : ℕ) (extra : Dict Value)
      (d : ResourceRepo)
      → IsKeyed Resource.id d
      → let (r, d') =
          record_activity py id tenant_id contact_id direction message message_id at extra d in
        find_by_external_id tenant_id activity_kind
          (activity_external_id_for_message message_id direction)
          d'
        ≡ some r
  unfolding record_activity find_by_external_id
  find-record_activity id tenant_id contact_id direction message message_id at extra d h =
      let x : Text = activity_external_id_for_message message_id direction in
      let p : Resource → Bool = has_external tenant_id activity_kind x in
      elim (Option-cases (find p (values d))) [
        | inr (r, e) ↦ rw (e, record_activity) e
        | inl e ↦
            let r : Resource =
              new_activity py id tenant_id contact_id direction message message_id
                (codes "whatsapp_message") at extra in
            rw (e, record_activity)
              (find-insert_new Resource.id p r d h e (
                unfold new_activity in
                ground (arith, eq_refl tenant_id, eq_refl activity_kind, eq_refl x)))
      ]

  -- A second report of a message in one direction, with whatever text, time and identifiers, returns
  -- the first activity and writes nothing.
  pub record_activity-record_activity :
      (id id' tenant_id contact_id contact_id' direction message message' message_id : Text)
      (at at' : ℕ) (extra extra' : Dict Value) (d : ResourceRepo)
      → IsKeyed Resource.id d
      → let first =
          record_activity py id tenant_id contact_id direction message message_id at extra d in
        record_activity py id' tenant_id contact_id' direction message' message_id at' extra'
          first.1
        ≡ first
  record_activity-record_activity id id' tenant_id contact_id contact_id' direction message message'
        message_id at at' extra extra' d h =
      found (record_activity py id tenant_id contact_id direction message message_id at extra d)
        (find-record_activity id tenant_id contact_id direction message message_id at extra d h)
    where
      found :
          (o : Resource × ResourceRepo)
          → find_by_external_id tenant_id activity_kind
              (activity_external_id_for_message message_id direction)
              o.1
            ≡ some o.0
          → record_activity py id' tenant_id contact_id' direction message' message_id at' extra'
              o.1
            ≡ o
      found o e = unfold record_activity in rw (e, record_activity)

  -- Every other stored item is as it was, if the identifier of the report is fresh.
  pub record_activity-others :
      (id tenant_id contact_id direction message message_id : Text) (at : ℕ) (extra : Dict Value)
      (d : ResourceRepo) (k : Text)
      → k ≢ id
      → lookup k
          (record_activity py id tenant_id contact_id direction message message_id at extra d).1
        ≡ lookup k d
  unfolding record_activity new_activity
  record_activity-others id tenant_id contact_id direction message message_id at extra d k ne =
      ground (
        arith,
        eq_iff id k,
        lookup-insert id k
            (new_activity py id tenant_id contact_id direction message message_id
              (codes "whatsapp_message") at extra)
            d,
      )

  -- A reply to a buyer with no contact records nothing; to one with a contact it is recorded.
  pub record_outbound_cases :
      (id tenant_id from_number message reply_to : Text) (at : ℕ) (extra : Dict Value)
      (d : ResourceRepo)
      → IsKeyed Resource.id d
      → let contact =
          find_by_external_id tenant_id contact_kind (contact_external_id from_number) d in
        let (r, d') = record_outbound py id tenant_id from_number message reply_to at extra d in
        (contact ≡ none → (r ≡ none) × (d' ≡ d))
        × (contact ≢ none
            → (r ≢ none)
              × (find_by_external_id tenant_id activity_kind
                    (activity_external_id_for_message reply_to (codes "outbound"))
                    d'
                  ≡ r))
  unfolding record_outbound
  record_outbound_cases id tenant_id from_number message reply_to at extra d h =
      elim (Option-cases
        (find_by_external_id tenant_id contact_kind (contact_external_id from_number) d)) [
          | inl e ↦ (λ q. (ground arith, ground arith), λ q. absurd (q e))
          | inr (c, e) ↦ (
            λ q. cc,
            λ q. (
              λ n. ground arith,
              rw (e, record_outbound)
                  (find-record_activity id tenant_id c.id (codes "outbound") message reply_to at
                    extra d h),
            ),
          )
        ]
