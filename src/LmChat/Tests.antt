-- ===== src/LmChat/Tests.antt =====
-- A stream of a delta, the message that repeats it, a tool call, the end, and an event behind it.
use databricks_vscode.Prelude.{
  ℕ, ◌≤◌, ◌≡◌, refl, true, Option, none, List, [], ◌∷◌, ◌++◌, Text, codes, length,
}
use databricks_vscode.LmChat.Json.{Json, str, arr, obj, cons, nil, member, end, is_record, get}
use databricks_vscode.LmChat.Stream.{
  stop, returned, gateway_message, act, to_response_parts, tool_call, content_text, contents_text,
  parse_arguments,
}
use databricks_vscode.LmChat.Meaning.{
  told, open_events, finished_calls, ending, ending_of, call_of, whole_text, deltas, unstreamed,
}
use databricks_vscode.LmChat.Replies.Actions.{shown}
use databricks_vscode.LmChat.Replies.{
  calls, text_not_doubled, calls_and_ending, length-gateway_message,
}
use databricks_vscode.LmChat.Request.{assistant, to_input_items}
use databricks_vscode.LmChat.Request.Replay.{replayed, calls_again, assistant_message, replay}

abbrev no_json : Text → Option Json
no_json s = none

abbrev event : Text → Json → Json
event key value = obj (member (codes "type") (str key) (member (codes "item") value end))

abbrev hello : Json
hello = obj (
    member (codes "type") (str (codes "response.output_text.delta"))
      (member (codes "delta") (str (codes "Hello")) end))

abbrev message : Json
message = obj (
    member (codes "type") (str (codes "message")) (
      member (codes "content")
        (arr (
          cons
            (obj (
              member (codes "type") (str (codes "output_text"))
                (member (codes "text") (str (codes "Hello")) end)))
            nil))
        end))

abbrev tool : Json
tool = obj (
    member (codes "type") (str (codes "function_call"))
      (member (codes "call_id") (str (codes "c1")) (member (codes "name") (str (codes "run")) end)))

abbrev cut_off : Json
cut_off = obj (
    member (codes "type") (str (codes "function_call")) (
      member (codes "status") (str (codes "incomplete")) (
        member (codes "call_id") (str (codes "c1"))
          (member (codes "name") (str (codes "run")) end))))

abbrev ended : Json
ended = obj (member (codes "type") (str (codes "response.completed")) end)

abbrev stream : List Json
stream =
    hello
    ∷ event (codes "response.output_item.done") message
    ∷ event (codes "response.output_item.done") tool
    ∷ ended
    ∷ hello
    ∷ []

text_not_doubled_example :
    shown (to_response_parts no_json stream).parts ≡ told no_json (open_events no_json stream)
text_not_doubled_example = text_not_doubled no_json stream

calls_and_ending_example :
    (calls (to_response_parts no_json stream).parts
      ≡ finished_calls no_json (open_events no_json stream))
    × ((to_response_parts no_json stream).ending ≡ ending no_json stream)
calls_and_ending_example = calls_and_ending no_json stream

-- The meaning of the stream: the text once, one call, and the end.
stream_meaning :
    (told no_json (open_events no_json stream) ≡ codes "Hello")
    × (finished_calls no_json (open_events no_json stream)
        ≡ tool_call (codes "c1") (codes "run") (obj end) ∷ [])
    × (ending no_json stream ≡ returned)
unfolding told unstreamed deltas finished_calls open_events ending ending_of call_of whole_text get
    contents_text content_text parse_arguments
stream_meaning = (refl, refl, refl)

-- A message that did not stream, and a call that was cut off.
unstreamed_meaning :
    (told no_json (event (codes "response.output_item.done") message ∷ []) ≡ codes "Hello")
    × (finished_calls no_json (event (codes "response.output_item.done") cut_off ∷ []) ≡ [])
unfolding told unstreamed deltas finished_calls call_of whole_text get contents_text content_text
    parse_arguments
unstreamed_meaning = (refl, refl)

ended_stops : act no_json ended true ≡ stop returned
unfolding act is_record get
ended_stops = refl

length-gateway_message_example : length (gateway_message no_json (codes "oops")) ≤ 301
length-gateway_message_example = length-gateway_message no_json (codes "oops")

abbrev unwritten : Json → Text
unwritten v = codes "{}"

abbrev undecoded : List ℕ → Text
undecoded bytes = []

replay_example :
    to_input_items unwritten undecoded assistant (replayed (to_response_parts no_json stream).parts)
    ≡ assistant_message unwritten undecoded (told no_json (open_events no_json stream))
      ++ calls_again unwritten undecoded (finished_calls no_json (open_events no_json stream))
replay_example = replay unwritten undecoded no_json stream
