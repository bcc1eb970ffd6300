-- ===== src/Crm/Defs.antt =====
-- `CrmRecorder` of sdk/wapsell/crm/recorder.py. `Python` holds the built-in conversions that it
-- calls: `isoformat`, `int` on the values that JSON can hold, and `str.strip`'s white space.
use wapsell_saas.Prelude.{
  ℕ, Bool, Option, none, some, [], ◌∷◌, ◌++◌, Text, codes, strip_by, Dict, lookup, insert, Result,
  ok, err, take, map, ℤ, pos, ◌+ℤ◌, if◌then◌else◌,
}
use wapsell_saas.Prelude.Values.{Value, int, text, truthy_value, text_value}
use wapsell_saas.Memory.{ellipsis, newline_to_space}
use wapsell_saas.Resources.{Resource, ResourceRepo, add, upsert, find_by_external_id}

pub record Python : Type 0 where
  pub isoformat : ℕ → Text
  pub to_int : Value → Option ℤ
  pub is_space : ℕ → Bool

pub data CrmError : Type 0 where
  bad_turn_count : CrmError

abbrev pub contact_kind : Text
contact_kind = codes "contact"

abbrev pub activity_kind : Text
activity_kind = codes "activity"

abbrev pub summary_max_chars : ℕ
summary_max_chars = 240

unfoldable pub contact_external_id : Text → Text
contact_external_id from_number = codes "buyer:" ++ from_number

unfoldable pub activity_external_id_for_message : Text → Text → Text
activity_external_id_for_message message_id direction = direction ++ (codes ":" ++ message_id)

-- `a or b` on texts that may be `None`
abbrev pub or_text : Option Text → Text → Text
or_text none b = b
or_text (some []) b = b
or_text (some (c ∷ s)) b = c ∷ s

abbrev pub named : Option Text → Dict Value → Dict Value
named none d = d
named (some []) d = d
named (some (c ∷ s)) d = insert (codes "name") (text (c ∷ s)) d

-- `d.update(extra)`
abbrev pub update : Dict Value → Dict Value → Dict Value
update [] d = d
update ((k, v) ∷ extra) d = update extra (insert k v d)

module _ (py : Python) where
  -- The row of a contact's first message; `id` is the model's default.
  unfoldable pub new_contact : Text → Text → Text → Option Text → ℕ → Resource
  unfolding contact_external_id
  new_contact id tenant_id from_number profile_name at = record {
    id = id;
    tenant_id = tenant_id;
    source_id = none;
    kind = contact_kind;
    external_id = some (contact_external_id from_number);
    data_ = named profile_name (
        (codes "phone", text from_number)
        ∷ (codes "source", text (codes "whatsapp"))
        ∷ (codes "first_contact_at", text (py.isoformat at))
        ∷ (codes "last_seen_at", text (py.isoformat at))
        ∷ (codes "turn_count", int (pos 1))
        ∷ []);
    summary = take summary_max_chars (or_text profile_name (codes "+" ++ from_number));
    status = codes "active";
    created_at = at;
    updated_at = at;
  }

  -- `int(new_data.get("turn_count", 0))`
  unfoldable pub turn_count : Dict Value → Option ℤ
  turn_count d = elim (lookup (codes "turn_count") d) [ none ↦ some (pos 0) | some v ↦ py.to_int v ]

  unfoldable pub bumped : Text → Option Text → ℕ → ℤ → Resource → Resource
  bumped from_number profile_name at count r =
      let seen : Dict Value =
        insert (codes "turn_count") (int (count +ℤ pos 1))
          (insert (codes "last_seen_at") (text (py.isoformat at)) r.data_) in
      let data' : Dict Value =
        if truthy_value (lookup (codes "name") seen) then seen else named profile_name seen in
      record r {
        data_ = data';
        summary = take summary_max_chars (
            or_text (text_value (lookup (codes "name") data'))
              (or_text (some r.summary) (codes "+" ++ from_number)));
        updated_at = at;
      }

  unfoldable pub upsert_contact_for_inbound :
      Text → Text → Text → Option Text → ℕ → ResourceRepo → Result CrmError Resource × ResourceRepo
  unfolding new_contact turn_count bumped add upsert
  upsert_contact_for_inbound id tenant_id from_number profile_name at d =
      elim (find_by_external_id tenant_id contact_kind (contact_external_id from_number) d) [
        | none ↦
            let (r, d') = add (new_contact id tenant_id from_number profile_name at) d in (ok r, d')
        | some r ↦ elim (turn_count r.data_) [
          | none ↦ (err bad_turn_count, d)
          | some count ↦
              let (r', d') = upsert (bumped from_number profile_name at count r) d in (ok r', d')
        ]
      ]

  unfoldable pub activity_summary : Text → Text
  unfolding strip_by
  activity_summary t =
      ellipsis py.is_space summary_max_chars (map newline_to_space (strip_by py.is_space t))

  unfoldable pub new_activity :
      Text → Text → Text → Text → Text → Text → Text → ℕ → Dict Value → Resource
  unfolding activity_summary activity_external_id_for_message
  new_activity id tenant_id contact_id direction message message_id activity_type at extra =
      record {
        id = id;
        tenant_id = tenant_id;
        source_id = none;
        kind = activity_kind;
        external_id = some (activity_external_id_for_message message_id direction);
        data_ = update extra (
            (codes "contact_id", text contact_id)
            ∷ (codes "type", text activity_type)
            ∷ (codes "direction", text direction)
            ∷ (codes "at", text (py.isoformat at))
            ∷ (codes "text", text message)
            ∷ (codes "message_id", text message_id)
            ∷ []);
        summary = activity_summary message;
        status = codes "active";
        created_at = at;
        updated_at = at;
      }

  unfoldable pub record_activity :
      Text
      → Text
      → Text
      → Text
      → Text
      → Text
      → ℕ
      → Dict Value
      → ResourceRepo
      → Resource × ResourceRepo
  unfolding new_activity add
  record_activity id tenant_id contact_id direction message message_id at extra d =
      elim (find_by_external_id tenant_id activity_kind
        (activity_external_id_for_message message_id direction) d) [
          | some r ↦ (r, d)
          | none ↦
              add
                (new_activity id tenant_id contact_id direction message message_id
                  (codes "whatsapp_message") at extra)
                d
        ]

  unfoldable pub record_inbound :
      Text
      → Text
      → Text
      → Text
      → Text
      → Text
      → Option Text
      → ℕ
      → ResourceRepo
      → Result CrmError (Resource × Resource) × ResourceRepo
  record_inbound contact_new activity_new tenant_id from_number message message_id profile_name at
        d =
      let (r, d') =
        upsert_contact_for_inbound contact_new tenant_id from_number profile_name at d in
      elim r [
        | err e ↦ (err e, d')
        | ok contact ↦
            let (activity, d'') =
              record_activity activity_new tenant_id contact.id (codes "inbound") message message_id
                at [] d' in
            (ok (contact, activity), d'')
      ]

  unfoldable pub record_outbound :
      Text
      → Text
      → Text
      → Text
      → Text
      → ℕ
      → Dict Value
      → ResourceRepo
      → Option Resource × ResourceRepo
  record_outbound id tenant_id from_number message reply_to_message_id at extra d =
      elim (find_by_external_id tenant_id contact_kind (contact_external_id from_number) d) [
        | none ↦ (none, d)
        | some contact ↦
            let (activity, d') =
              record_activity id tenant_id contact.id (codes "outbound") message reply_to_message_id
                at extra d in
            (some activity, d')
      ]
