-- ===== src/Extractor/Parse.antt =====
-- `CrmExtractor.extract` and `_parse_reply` of sdk/wapsell/crm/extractor.py. `Reader` holds the JSON
-- parser of the standard library, whose `none` is a `JSONDecodeError`, the regular expression of
-- `_JSON_OBJECT_RE`, and the white space that `strip` drops.
use wapsell_saas.Prelude.{
  ℕ, ◌-◌, Bool, Option, none, some, List, [], ◌∷◌, ◌++◌, Text, codes, is_empty, strip_by, length,
  drop, map, filter, not, Dict, lookup, Result, ok, err, if◌then◌else◌,
}
use wapsell_saas.Prelude.Values.{Value, text, array, object, to_list, to_dict}
use wapsell_saas.Agent.{LlmMessage, system, user, join, newline}

pub record ExtractedTask : Type 0 where
  pub title : Text
  pub due_at : Option Text
  pub priority : Option Text

pub record StageTransition : Type 0 where
  pub from_stage : Option Text
  pub to_stage : Text
  pub reason : Option Text

pub record ExtractionResult : Type 0 where
  pub contact_updates : Dict Value
  pub new_tasks : List ExtractedTask
  pub new_tags : List Text
  pub stage_transition : Option StageTransition

abbrev pub empty_result : ExtractionResult
empty_result = record {
  contact_updates = [];
  new_tasks = [];
  new_tags = [];
  stage_transition = none;
}

pub record ConversationTurn : Type 0 where
  pub role : Text
  pub text : Text

abbrev pub max_turns : ℕ
max_turns = 20

pub record Reader : Type 0 where
  pub is_space : ℕ → Bool
  pub loads : Text → Option Value
  pub json_object : Text → Option Text

unfoldable pub dict_or_empty : Value → Dict Value
unfolding to_dict
dict_or_empty (object m) = to_dict m
dict_or_empty v = []

unfoldable pub parsed_or_empty : Option Value → Dict Value
unfolding dict_or_empty
parsed_or_empty none = []
parsed_or_empty (some v) = dict_or_empty v

module _ (r : Reader) where
  unfoldable pub extract_json_object : Text → Dict Value
  unfolding strip_by dict_or_empty parsed_or_empty
  extract_json_object [] = []
  extract_json_object (c ∷ t) =
      let stripped = strip_by r.is_space (c ∷ t) in
      elim (r.loads stripped) [
        | some v ↦ dict_or_empty v
        | none ↦ elim (r.json_object stripped) [ none ↦ [] | some o ↦ parsed_or_empty (r.loads o) ]
      ]

  -- `isinstance(v, str) and v.strip()`, with `v` itself
  unfoldable pub filled : Option Value → Option Text
  unfolding strip_by
  filled (some (text t)) = if is_empty (strip_by r.is_space t) then none else some t
  filled v = none

  -- The same with `v.strip()`
  unfoldable pub filled_strip : Option Value → Option Text
  unfolding filled strip_by
  filled_strip v = elim (filled v) [ none ↦ none | some t ↦ some (strip_by r.is_space t) ]

  unfoldable pub task_of : Value → Option ExtractedTask
  unfolding filled filled_strip to_dict
  task_of (object m) = elim (filled_strip (lookup (codes "title") (to_dict m))) [
    | none ↦ none
    | some title ↦ some (record {
      title = title;
      due_at = filled (lookup (codes "due_at") (to_dict m));
      priority = filled (lookup (codes "priority") (to_dict m));
    })
  ]
  task_of v = none

  unfoldable pub tasks_of : List Value → List ExtractedTask
  unfolding task_of
  tasks_of [] = []
  tasks_of (v ∷ vs) = let rest = tasks_of vs in elim (task_of v) [ none ↦ rest | some t ↦ t ∷ rest ]

  unfoldable pub tags_of : List Value → List Text
  unfolding filled_strip
  tags_of [] = []
  tags_of (v ∷ vs) =
      let rest = tags_of vs in elim (filled_strip (some v)) [ none ↦ rest | some t ↦ t ∷ rest ]

  unfoldable pub transition_of : Option Value → Option StageTransition
  unfolding filled_strip to_dict
  transition_of (some (object m)) = elim (filled_strip (lookup (codes "to") (to_dict m))) [
    | none ↦ none
    | some to ↦ some (record {
      from_stage = filled_strip (lookup (codes "from") (to_dict m));
      to_stage = to;
      reason = filled_strip (lookup (codes "reason") (to_dict m));
    })
  ]
  transition_of v = none

  -- `v if isinstance(v, list) else []`
  unfoldable pub list_or_empty : Option Value → List Value
  unfolding to_list
  list_or_empty (some (array xs)) = to_list xs
  list_or_empty v = []

  unfoldable pub parse_reply : Text → ExtractionResult
  unfolding extract_json_object tasks_of tags_of transition_of list_or_empty parsed_or_empty
  parse_reply t =
      let payload = extract_json_object t in
      record {
        contact_updates = parsed_or_empty (lookup (codes "contact_updates") payload);
        new_tasks = tasks_of (list_or_empty (lookup (codes "new_tasks") payload));
        new_tags = tags_of (list_or_empty (lookup (codes "new_tags") payload));
        stage_transition = transition_of (lookup (codes "stage_transition") payload);
      }

  unfoldable pub is_spoken : ConversationTurn → Bool
  unfolding strip_by
  is_spoken t = not (is_empty (strip_by r.is_space t.text))

  unfoldable pub turn_line : ConversationTurn → Text
  unfolding strip_by
  turn_line t = strip_by r.is_space (codes "[" ++ (t.role ++ (codes "] " ++ t.text)))

  unfoldable pub transcript : List ConversationTurn → Text
  unfolding join is_spoken turn_line
  transcript turns =
      join newline (map turn_line (filter is_spoken (drop (length turns - max_turns) turns)))

  -- The model is asked where there is something to read; `system_prompt` is `_SYSTEM_PROMPT`.
  unfoldable pub extract :
      Text → (List LlmMessage → Result Text Text) → List ConversationTurn → ExtractionResult
  unfolding transcript parse_reply
  extract system_prompt complete turns = elim (transcript turns) [
    | [] ↦ empty_result
    | c ∷ t ↦
        elim (complete (
          record { role = system; content = system_prompt }
          ∷ record { role = user; content = c ∷ t }
          ∷ [])) [ err e ↦ empty_result | ok reply ↦ parse_reply reply ]
  ]
