-- ===== src/LmChat/Stream.antt =====
-- `toResponseParts` and what it calls. `JSON.parse` is a parameter: `none` means that it throws.
use databricks_vscode.Prelude.{
  ℕ, zero, suc, Bool, true, false, not, ◌&&◌, ◌||◌, Option, none, some, List, [], ◌∷◌, ◌++◌, Text,
  codes, ltb, length, is_some, if◌then◌else◌,
}
use databricks_vscode.LmChat.Json.{
  Json, null, str, arr, obj, Items, nil, cons, end, member, is_record, is_array, get, text_of,
  is_text,
}

pub data ResponsePart : Type 0 where
  text : Text → ResponsePart
  tool_call : (call_id name : Text) → (input : Json) → ResponsePart

-- The parts that the generator yields, and how it ends: it returns or throws.
pub data Ending : Type 0 where
  returned : Ending
  threw : Text → Ending

pub record Reply : Type 0 where
  pub parts : List ResponsePart
  pub ending : Ending

abbrev pub max_error_length : ℕ
max_error_length = 300

abbrev pub take : ℕ → Text → Text
take zero s = []
take (suc n) [] = []
take (suc n) (c ∷ s) = c ∷ take n s

abbrev pub ellipsis : Text
ellipsis = 8230 ∷ []

-- `text.length > MAX_ERROR_LENGTH ? …`
unfoldable pub shorten : Text → Text
shorten s = if ltb max_error_length (length s) then take max_error_length s ++ ellipsis else s

-- `error.message` of a parsed message that has one.
abbrev pub inner_message : Option Json → Option Text
inner_message none = none
inner_message (some parsed) = elim (get (codes "error") parsed) [
  | none ↦ none
  | some error ↦ if is_record error then text_of (get (codes "message") error) else none
]

abbrev pub text_or : Option Text → Text → Text
text_or none t = t
text_or (some s) t = s

-- `a ?? b`
abbrev pub value_or : Option Json → Option Json → Option Json
value_or none b = b
value_or (some null) b = b
value_or (some v) b = some v

-- What the `switch` makes of an event: it goes on, with a part or without, or the stream ends.
pub data Action : Type 0 where
  skip : Action
  delta : Text → Action
  finished_item : Option ResponsePart → Action
  stop : Ending → Action

abbrev pub yields : ResponsePart → Reply → Reply
yields p r = record r { parts = p ∷ r.parts }

abbrev pub yields_some : Option ResponsePart → Reply → Reply
yields_some none r = r
yields_some (some p) r = yields p r

module _ (parse : Text → Option Json) where
  -- `gatewayMessage` of a string.
  unfoldable pub gateway_message : Text → Text
  unfolding shorten
  gateway_message message = shorten (text_or (inner_message (parse message)) message)

  -- `parseArguments`
  as_object : Text → Option Json → Json
  as_object value none = obj (member (codes "value") (str value) end)
  as_object value (some parsed) =
      if is_record parsed && not (is_array parsed)
      then parsed
      else obj (member (codes "value") parsed end)

  parse_text : Text → Json
  parse_text [] = obj end
  parse_text (c ∷ s) = as_object (c ∷ s) (parse (c ∷ s))

  unfoldable pub parse_arguments : Option Json → Json
  unfolding as_object parse_text
  parse_arguments value = elim (text_of value) [ none ↦ obj end | some s ↦ parse_text s ]

  -- `contentText`
  unfoldable pub content_text : Json → Text
  content_text content =
      if is_text (codes "output_text") (get (codes "type") content)
        && is_some (text_of (get (codes "text") content))
      then text_or (text_of (get (codes "text") content)) []
      else if is_text (codes "refusal") (get (codes "type") content)
          && is_some (text_of (get (codes "refusal") content))
      then text_or (text_of (get (codes "refusal") content)) []
      else []

  -- `item.content.map(contentText).join("")`
  unfoldable pub contents_text : Items → Text
  contents_text nil = []
  contents_text (cons x xs) = content_text x ++ contents_text xs

  unfoldable pub text_part : Text → Option ResponsePart
  text_part [] = none
  text_part (c ∷ s) = some (text (c ∷ s))

  unfoldable pub message_part : Option Json → Option ResponsePart
  unfolding text_part contents_text
  message_part (some (arr xs)) = text_part (contents_text xs)
  message_part _ = none

  unfoldable pub call_part : Option Text → Option Text → Json → Option ResponsePart
  call_part (some call_id) (some name) input = some (tool_call call_id name input)
  call_part _ _ input = none

  -- The first `if` of `outputItemPart` holds.
  unfoldable pub is_call : Json → Bool
  is_call item =
      is_text (codes "function_call") (get (codes "type") item)
      && (not (is_text (codes "incomplete") (get (codes "status") item))
          && (is_some (text_of (get (codes "call_id") item))
              && is_some (text_of (get (codes "name") item))))

  -- `outputItemPart`; a value that is no record has no `type`.
  unfoldable pub output_item_part : Option Json → Bool → Option ResponsePart
  unfolding call_part message_part
  output_item_part none text_streamed = none
  output_item_part (some item) text_streamed =
      if is_call item
      then call_part (text_of (get (codes "call_id") item)) (text_of (get (codes "name") item))
          (parse_arguments (get (codes "arguments") item))
      else if is_text (codes "message") (get (codes "type") item) && not text_streamed
      then message_part (get (codes "content") item)
      else none

  -- `incompleteReason`
  unfoldable pub incomplete_reason : Option Json → Text
  incomplete_reason response =
      let details : Option Json = elim response [
        | none ↦ none
        | some r ↦ get (codes "incomplete_details") r
      ] in
      text_or (elim details [ none ↦ none | some d ↦ text_of (get (codes "reason") d) ])
        (codes "unknown reason")

  abbrev message_of : Option Json → Option Text
  message_of none = none
  message_of (some e) = if is_record e then text_of (get (codes "message") e) else text_of (some e)

  -- `streamErrorMessage`
  unfoldable pub stream_error_message : Json → Text
  unfolding gateway_message
  stream_error_message event =
      let otherwise = value_or (get (codes "error") event) (some event) in
      let error : Option Json = elim (get (codes "response") event) [
        | none ↦ otherwise
        | some r ↦ if is_record r then get (codes "error") r else otherwise
      ] in
      elim (message_of error) [ none ↦ codes "unknown error" | some m ↦ gateway_message m ]

  -- `event.type`, or "error" for an error without a type.
  abbrev pub event_type : Json → Option Json
  event_type event = elim (get (codes "type") event) [
    | some t ↦ some t
    | none ↦
        if is_some (get (codes "error_code") event) || is_some (get (codes "error") event)
        then some (str (codes "error"))
        else none
  ]

  abbrev pub delta_action : Option Text → Action
  delta_action none = skip
  delta_action (some []) = skip
  delta_action (some (c ∷ s)) = delta (c ∷ s)

  -- The cases of the `switch` that end the stream.
  unfoldable pub end_action : Json → Action
  unfolding incomplete_reason stream_error_message
  end_action event =
      let type = event_type event in
      if is_text (codes "response.completed") type
      then stop returned
      else if is_text (codes "response.incomplete") type
      then stop (
          threw (
            codes "Unity Gateway stopped the reply early: "
            ++ incomplete_reason (get (codes "response") event)))
      else if is_text (codes "response.failed") type || is_text (codes "error") type
      then stop
          (threw (codes "Unity Gateway couldn't finish the reply: " ++ stream_error_message event))
      else skip

  unfoldable pub act : Json → Bool → Action
  unfolding output_item_part end_action
  act event text_streamed =
      let type = event_type event in
      if not (is_record event)
      then skip
      else if is_text (codes "response.output_text.delta") type
      then delta_action (text_of (get (codes "delta") event))
      else if is_text (codes "response.output_item.done") type
      then finished_item (output_item_part (get (codes "item") event) text_streamed)
      else end_action event

  -- The loop of `toResponseParts`.
  unfoldable pub respond : Bool → List Json → Reply
  respond text_streamed [] = record {
    parts = [];
    ending = threw (codes "Unity Gateway ended the reply before it finished.");
  }
  respond text_streamed (event ∷ events) = elim (act event text_streamed) [
    | skip ↦ respond text_streamed events
    | delta s ↦ yields (text s) (respond true events)
    | finished_item p ↦ yields_some p (respond text_streamed events)
    | stop e ↦ record { parts = []; ending = e }
  ]

  unfoldable pub to_response_parts : List Json → Reply
  unfolding respond act
  to_response_parts events = respond false events
