-- ===== src/Whatsapp/Encode.antt =====
-- Meta's payload for messages to a phone number, one to a change, and its parse.
use wapsell_saas.Prelude.{
  ℕ, ◌≡◌, refl, sym, ap, subst, append-nil, ◌∙◌, false, Option, none, some, List, [], ◌∷◌, Text,
  codes, ◌==◌, eq_refl, is_empty, strip_by, lookup, insert, All, arith,
}
use wapsell_saas.Prelude.Values.{
  Value, text, array, object, from_list, from_dict, to_list, to_dict, to_list-from_list,
}
use wapsell_saas.Models.{InboundMessage}
use wapsell_saas.Whatsapp.Payload.{
  Shows, attr, items, profile_names, note, text_message, text_messages, change_messages,
  changes_messages, entries_messages, parse_messages, extract_phone_number_id, pnid_of_entries,
  pnid_of_changes,
}

abbrev pub json : List (Text × Value) → Value
json d = object (from_dict d)

abbrev pub json_list : List Value → Value
json_list xs = array (from_list xs)

abbrev pub contacts_of : InboundMessage → List Value
contacts_of m = elim m.profile_name [
  | none ↦ []
  | some name ↦
      json (
        (codes "wa_id", text m.from_number)
        ∷ (codes "profile", json ((codes "name", text name) ∷ []))
        ∷ [])
      ∷ []
]

unfoldable pub change_of : Text → InboundMessage → Value
unfolding from_list from_dict
change_of number m = json (
    (codes "field", text (codes "messages"))
    ∷ (
      codes "value",
      json (
          (codes "metadata", json ((codes "phone_number_id", text number) ∷ []))
          ∷ (codes "contacts", json_list (contacts_of m))
          ∷ (
            codes "messages",
            json_list (
                json (
                  (codes "from", text m.from_number)
                  ∷ (codes "id", text m.message_id)
                  ∷ (codes "type", text (codes "text"))
                  ∷ (codes "text", json ((codes "body", text m.text) ∷ []))
                  ∷ [])
                ∷ []),
          )
          ∷ []),
    )
    ∷ [])

abbrev pub changes_of : Text → List InboundMessage → List Value
changes_of number [] = []
changes_of number (m ∷ ms) = change_of number m ∷ changes_of number ms

unfoldable pub payload_of : Text → List InboundMessage → Value
unfolding from_list from_dict change_of
payload_of number ms = json (
    (codes "object", text (codes "whatsapp_business_account"))
    ∷ (
      codes "entry",
      json_list (json ((codes "changes", json_list (changes_of number ms)) ∷ []) ∷ []),
    )
    ∷ [])

module _ (p : Shows) (tenant_id : Text) (now : ℕ) where
  -- A message of the tenant, received at the time; with a profile name, it and the sender's number
  -- are not empty, and have no white space at their ends.
  abbrev pub Named : Text → Option Text → Type 0
  Named from none = Unit
  Named from (some name) =
      (strip_by p.is_space from ≡ from)
      × (strip_by p.is_space name ≡ name)
      × (is_empty from ≡ false)
      × (is_empty name ≡ false)

  -- A message that the parsing at `now` for the tenant can give.
  abbrev pub IsWritten : InboundMessage → Type 0
  IsWritten m =
      (m.tenant_id ≡ tenant_id) × (m.received_at ≡ now) × Named m.from_number m.profile_name

  module _ (number : Text) where
    lookup-note :
        (from name : Text)
        → is_empty from ≡ false
        → is_empty name ≡ false
        → lookup from (note p from name []) ≡ some name
    unfolding lookup insert
    lookup-note [] name h k = absurd (ground arith)
    lookup-note (c ∷ from) [] h k = absurd (ground arith)
    lookup-note (c ∷ from) (d ∷ name) h k = rw eq_refl refl

    change_messages-change_of :
        (from content id : Text) (name : Option Text)
        → Named from name
        → change_messages p tenant_id now (
            change_of number (record {
              tenant_id = tenant_id;
              from_number = from;
              text = content;
              message_id = id;
              profile_name = name;
              received_at = now;
            }))
          ≡ some (
              record {
                tenant_id = tenant_id;
                from_number = from;
                text = content;
                message_id = id;
                profile_name = name;
                received_at = now;
              }
              ∷ [])
    unfolding change_messages change_of attr items to_list from_list to_dict from_dict lookup ◌==◌
        profile_names text_messages text_message
    change_messages-change_of from content id none h = refl
    change_messages-change_of from content id (some name) h =
        ap
          (λ o. some (
            record {
              tenant_id = tenant_id;
              from_number = from;
              text = content;
              message_id = id;
              profile_name = o;
              received_at = now;
            }
            ∷ []))
          (ap (λ x. lookup from (note p x (strip_by p.is_space name) [])) h.0
            ∙ (ap (λ x. lookup from (note p from x [])) h.1 ∙ lookup-note from name h.2 h.3))

    change_messages-IsWritten :
        (m : InboundMessage)
        → IsWritten m
        → change_messages p tenant_id now (change_of number m) ≡ some (m ∷ [])
    change_messages-IsWritten m (t, r, n) =
        subst
          (λ x.
            change_messages p tenant_id now (change_of number (record m { tenant_id = x }))
            ≡ some (record m { tenant_id = x } ∷ []))
          (sym t)
          (subst
            (λ x.
              change_messages p tenant_id now
                (change_of number (record m { tenant_id = tenant_id; received_at = x }))
              ≡ some (record m { tenant_id = tenant_id; received_at = x } ∷ []))
            (sym r) (change_messages-change_of m.from_number m.text m.message_id m.profile_name n))

    changes_messages-changes_of :
        (ms : List InboundMessage)
        → All IsWritten ms
        → changes_messages p tenant_id now (changes_of number ms) ≡ some ms
    unfolding changes_messages
    changes_messages-changes_of [] h = refl
    changes_messages-changes_of (m ∷ ms) h =
        rw (change_messages-IsWritten m h.0, changes_messages-changes_of ms h.1) refl

    -- Parsing the payload that Meta writes for some messages to a tenant, one to a change, gives the
    -- messages back, in their order, if each that has a profile name has it and its number not empty
    -- and without white space around them.
    pub parse_messages-payload_of :
        (ms : List InboundMessage)
        → All IsWritten ms
        → parse_messages p tenant_id now (payload_of number ms) ≡ some ms
    unfolding parse_messages entries_messages payload_of attr items to_list from_list to_dict
        from_dict lookup ◌==◌
    parse_messages-payload_of ms h =
        rw (to_list-from_list, changes_messages-changes_of ms h, append-nil) refl

-- The phone number of a payload with a message is found, if it is not empty.
pub extract_phone_number_id-payload_of :
    (number : Text) (m : InboundMessage) (ms : List InboundMessage)
    → is_empty number ≡ false
    → extract_phone_number_id (payload_of number (m ∷ ms)) ≡ some (some number)
unfolding extract_phone_number_id pnid_of_entries pnid_of_changes payload_of change_of attr items
    to_list from_list to_dict from_dict lookup ◌==◌
extract_phone_number_id-payload_of [] m ms h = absurd (ground arith)
extract_phone_number_id-payload_of (c ∷ number) m ms h = refl
