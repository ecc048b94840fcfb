-- ===== src/LmChat/Meaning.antt =====
-- What the events of a reply mean by the protocol of the Responses API, told from the fields of one
-- event alone: its text, its finished tool call, and whether it ends the reply. Nothing here calls
-- the code that answers events; only the arguments of a call and the messages of errors are those of
-- `parseArguments`, `incompleteReason` and `streamErrorMessage`.
use databricks_vscode.Prelude.{
  Bool, true, false, ◌&&◌, ◌||◌, Option, none, some, List, [], ◌∷◌, ◌++◌, Text, codes, is_some,
  if◌then◌else◌,
}
use databricks_vscode.LmChat.Json.{Json, arr, get, text_of, is_text}
use databricks_vscode.LmChat.Stream.{
  ResponsePart, tool_call, Ending, returned, threw, parse_arguments, contents_text,
  incomplete_reason, stream_error_message,
}

abbrev pub is_missing : Option Json → Bool
is_missing none = true
is_missing (some v) = false

-- A member of an object is that text.
abbrev pub says : Text → Text → Json → Bool
says key value v = is_text value (get key v)

abbrev pub has : Text → Json → Bool
has key v = is_some (get key v)

-- An error has that type, or it has no type but the member of an error.
abbrev pub fails : Json → Bool
fails e =
    says (codes "type") (codes "response.failed") e
    || says (codes "type") (codes "error") e
    || (is_missing (get (codes "type") e) && (has (codes "error_code") e || has (codes "error") e))

abbrev pub text_or_empty : Option Text → Text
text_or_empty none = []
text_or_empty (some s) = s

-- The text that an event streams.
abbrev pub delta_of : Json → Text
delta_of e =
    if says (codes "type") (codes "response.output_text.delta") e
    then text_or_empty (text_of (get (codes "delta") e))
    else []

-- The item that an event finishes.
abbrev pub item_of : Json → Option Json
item_of e =
    if says (codes "type") (codes "response.output_item.done") e then get (codes "item") e else none

abbrev pub named_call : Option Text → Option Text → Json → List ResponsePart
named_call (some call_id) (some name) input = tool_call call_id name input ∷ []
named_call _ _ input = []

abbrev pub is_empty : Text → Bool
is_empty [] = true
is_empty (c ∷ s) = false

unfoldable pub deltas : List Json → Text
deltas [] = []
deltas (e ∷ es) = delta_of e ++ deltas es

module _ (parse : Text → Option Json) where
  -- How an event ends the reply, if it does.
  unfoldable pub ending_of : Json → Option Ending
  ending_of e =
      if says (codes "type") (codes "response.completed") e
      then some returned
      else if says (codes "type") (codes "response.incomplete") e
      then some (
          threw (
            codes "Unity Gateway stopped the reply early: "
            ++ incomplete_reason parse (get (codes "response") e)))
      else if fails e
      then some (
          threw (codes "Unity Gateway couldn't finish the reply: " ++ stream_error_message parse e))
      else none

  -- A call that was cut off is incomplete, and is no finished call.
  abbrev pub finished_call : Option Json → List ResponsePart
  finished_call none = []
  finished_call (some item) =
      if says (codes "status") (codes "incomplete") item
      then []
      else if says (codes "type") (codes "function_call") item
      then named_call (text_of (get (codes "call_id") item)) (text_of (get (codes "name") item))
          (parse_arguments parse (get (codes "arguments") item))
      else []

  unfoldable pub call_of : Json → List ResponsePart
  call_of e = finished_call (item_of e)

  abbrev pub array_text : Option Json → Text
  array_text (some (arr xs)) = contents_text parse xs
  array_text _ = []

  abbrev pub message_text : Option Json → Text
  message_text none = []
  message_text (some item) =
      if says (codes "type") (codes "message") item
      then array_text (get (codes "content") item)
      else []

  -- The whole text of a message that an event finishes.
  unfoldable pub whole_text : Json → Text
  whole_text e = message_text (item_of e)

  -- The events in front of the first one that ends the reply, and how that one ends it.
  unfoldable pub open_events : List Json → List Json
  open_events [] = []
  open_events (e ∷ es) = if is_some (ending_of e) then [] else e ∷ open_events es

  unfoldable pub ending : List Json → Ending
  ending [] = threw (codes "Unity Gateway ended the reply before it finished.")
  ending (e ∷ es) = elim (ending_of e) [ some x ↦ x | none ↦ ending es ]

  unfoldable pub finished_calls : List Json → List ResponsePart
  finished_calls [] = []
  finished_calls (e ∷ es) = call_of e ++ finished_calls es

  -- The whole messages that finish before any text has streamed.
  unfoldable pub unstreamed : List Json → Text
  unstreamed [] = []
  unstreamed (e ∷ es) = if is_empty (delta_of e) then whole_text e ++ unstreamed es else []

  -- The text of a reply: what streams, and in front of it the messages that did not stream.
  unfoldable pub told : List Json → Text
  told es = unstreamed es ++ deltas es
