-- ===== src/Whatsapp/Payload.antt =====
-- sdk/wapsell/whatsapp/webhook.py. `none` is an exception: `.get` on what is no object, or a loop
-- over what has no items. `hexdigest` stands for the HMAC of the standard library, and `Shows` for
-- `str` on what is no string and the white space that `strip` drops.
use wapsell_saas.Prelude.{
  ℕ, Bool, true, false, ◌&&◌, Option, none, some, List, [], ◌∷◌, ◌++◌, Text, codes, ◌==◌, ltb,
  starts_with, strip_by, length, drop, Dict, lookup, insert, map, ◌>>=◌, if◌then◌else◌,
}
use wapsell_saas.Prelude.Values.{
  Value, null, text, array, object, no_members, no_items, to_list, to_dict,
}
use wapsell_saas.Models.{InboundMessage}

pub record Shows : Type 0 where
  pub is_space : ℕ → Bool
  pub str_other : Value → Text

abbrev pub signature_prefix : Text
signature_prefix = codes "sha256="

abbrev pub is_ascii : Text → Bool
is_ascii [] = true
is_ascii (c ∷ s) = ltb c 128 && is_ascii s

-- `hmac.compare_digest` on strings, which raises where one is not ASCII
unfoldable pub compare_digest : Text → Text → Option Bool
compare_digest a b = if is_ascii a && is_ascii b then some (a == b) else none

unfoldable pub verify_signature : (Text → Text → Text) → Text → Text → Text → Option Bool
unfolding starts_with compare_digest
verify_signature hexdigest app_secret payload header =
    if starts_with header signature_prefix
    then compare_digest (hexdigest app_secret payload) (drop (length signature_prefix) header)
    else some false

unfoldable pub verify_subscription : Text → Text → Text → Text → Option (Option Text)
unfolding compare_digest
verify_subscription verify_token mode token challenge =
    if mode == codes "subscribe"
    then (do same ← compare_digest verify_token token; some (if same then some challenge else none))
    else some none

-- `v.get(key, default)`
unfoldable pub attr : Text → Value → Value → Option Value
unfolding to_dict lookup
attr key default (object m) = elim (lookup key (to_dict m)) [
  | none ↦ some default
  | some v ↦ some v
]
attr key default v = none

-- What `for x in v` runs over.
unfoldable pub items : Value → Option (List Value)
unfolding to_list to_dict
items (array xs) = some (to_list xs)
items (text t) = some (map (λ c. text (c ∷ [])) t)
items (object m) = some (map (λ (k, v). text k) (to_dict m))
items v = none

abbrev pub empty_object : Value
empty_object = object no_members

abbrev pub empty_list : Value
empty_list = array no_items

-- `isinstance(v, str) and v`
abbrev pub filled_text : Value → Option Text
filled_text (text (c ∷ t)) = some (c ∷ t)
filled_text v = none

-- The first change with a phone number; the outer option is the exception.
unfoldable pub pnid_of_changes : List Value → Option (Option Text)
unfolding attr
pnid_of_changes [] = some none
pnid_of_changes (c ∷ cs) =
    let rest = pnid_of_changes cs in
    do
      value ← attr (codes "value") empty_object c
      metadata ← attr (codes "metadata") empty_object value
      pnid ← attr (codes "phone_number_id") null metadata
      elim (filled_text pnid) [ some t ↦ some (some t) | none ↦ rest ]

unfoldable pub pnid_of_entries : List Value → Option (Option Text)
unfolding attr items pnid_of_changes
pnid_of_entries [] = some none
pnid_of_entries (e ∷ es) =
    let rest = pnid_of_entries es in
    do
      changes ← attr (codes "changes") empty_list e
      cs ← items changes
      found ← pnid_of_changes cs
      elim found [ some t ↦ some (some t) | none ↦ rest ]

unfoldable pub extract_phone_number_id : Value → Option (Option Text)
unfolding attr items pnid_of_entries
extract_phone_number_id body = do
  entry ← attr (codes "entry") empty_list body
  es ← items entry
  pnid_of_entries es

module _ (p : Shows) where
  -- `str(v)`
  abbrev pub str_value : Value → Text
  str_value (text t) = t
  str_value v = p.str_other v

  abbrev pub note : Text → Text → Dict Text → Dict Text
  note [] name names = names
  note (c ∷ wa_id) [] names = names
  note (c ∷ wa_id) (d ∷ name) names = insert (c ∷ wa_id) (d ∷ name) names

  unfoldable pub profile_names : List Value → Dict Text → Option (Dict Text)
  unfolding attr strip_by
  profile_names [] names = some names
  profile_names (c ∷ cs) names = do
    wa_id ← attr (codes "wa_id") (text []) c
    profile ← attr (codes "profile") empty_object c
    name ← attr (codes "name") (text []) profile
    profile_names cs
        (note (strip_by p.is_space (str_value wa_id)) (strip_by p.is_space (str_value name)) names)

  -- `v == "text"`
  abbrev pub is_text_type : Value → Bool
  is_text_type (text t) = t == codes "text"
  is_text_type v = false

  module _ (tenant_id : Text) (now : ℕ) where
    unfoldable pub text_message : Dict Text → Value → Option InboundMessage
    unfolding attr
    text_message names m = do
      from ← attr (codes "from") (text []) m
      content ← attr (codes "text") empty_object m
      body ← attr (codes "body") (text []) content
      id ← attr (codes "id") (text []) m
      some (record {
        tenant_id = tenant_id;
        from_number = str_value from;
        text = str_value body;
        message_id = str_value id;
        profile_name = lookup (str_value from) names;
        received_at = now;
      })

    unfoldable pub text_messages : Dict Text → List Value → Option (List InboundMessage)
    unfolding attr text_message
    text_messages names [] = some []
    text_messages names (m ∷ ms) =
        let rest = text_messages names ms in
        do
          type ← attr (codes "type") null m
          elim (is_text_type type) [
            | false ↦ rest
            | true ↦ (do parsed ← text_message names m; others ← rest; some (parsed ∷ others))
          ]

    unfoldable pub change_messages : Value → Option (List InboundMessage)
    unfolding attr items profile_names text_messages
    change_messages c = do
      value ← attr (codes "value") empty_object c
      contacts ← attr (codes "contacts") empty_list value
      cs ← items contacts
      names ← profile_names cs []
      messages ← attr (codes "messages") empty_list value
      ms ← items messages
      text_messages names ms

    unfoldable pub changes_messages : List Value → Option (List InboundMessage)
    unfolding change_messages
    changes_messages [] = some []
    changes_messages (c ∷ cs) =
        let rest = changes_messages cs in
        do here ← change_messages c; others ← rest; some (here ++ others)

    unfoldable pub entries_messages : List Value → Option (List InboundMessage)
    unfolding attr items changes_messages
    entries_messages [] = some []
    entries_messages (e ∷ es) =
        let rest = entries_messages es in
        do
          changes ← attr (codes "changes") empty_list e
          cs ← items changes
          here ← changes_messages cs
          others ← rest
          some (here ++ others)

    unfoldable pub parse_messages : Value → Option (List InboundMessage)
    unfolding attr items entries_messages
    parse_messages body = do
      entry ← attr (codes "entry") empty_list body
      es ← items entry
      entries_messages es
