-- ===== src/LmChat/Request/Replay.antt =====
-- A reply that is sent back in the next request.
use databricks_vscode.Prelude.{
  ℕ, ◌≡◌, refl, ap, Option, List, [], ◌∷◌, ◌++◌, Text, length, ◌==◌, if◌then◌else◌, arith,
}
use databricks_vscode.LmChat.Json.{Json}
use databricks_vscode.LmChat.Stream.{ResponsePart, text, tool_call, to_response_parts}
use databricks_vscode.LmChat.Replies.Actions.{shown}
use databricks_vscode.LmChat.Meaning.{open_events, finished_calls, told}
use databricks_vscode.LmChat.Replies.{calls, text_not_doubled, calls_and_ending}
use databricks_vscode.LmChat.Request.{
  Part, text_value, tool_use, InputItem, message, function_call, assistant, result_items,
  joined_text, call_items, text_items, to_input_items,
}

-- Chat gives the parts of a reply back as they are.
abbrev pub replayed : List ResponsePart → List Part
replayed [] = []
replayed (text s ∷ ps) = text_value s ∷ replayed ps
replayed (tool_call id name input ∷ ps) = tool_use id name input ∷ replayed ps

module _ (stringify : Json → Text) (decode : List ℕ → Text) where
  -- The item of each tool call.
  abbrev pub calls_again : List ResponsePart → List InputItem
  calls_again [] = []
  calls_again (text s ∷ ps) = calls_again ps
  calls_again (tool_call id name input ∷ ps) =
      function_call id name (stringify input) ∷ calls_again ps

  no_results : (ps : List ResponsePart) → result_items stringify decode (replayed ps) ≡ []
  unfolding result_items
  no_results [] = refl
  no_results (text s ∷ ps) = no_results ps
  no_results (tool_call id name input ∷ ps) = no_results ps

  text_again : (ps : List ResponsePart) → joined_text stringify decode (replayed ps) ≡ shown ps
  unfolding joined_text
  text_again [] = refl
  text_again (text s ∷ ps) = ap (λ t. s ++ t) (text_again ps)
  text_again (tool_call id name input ∷ ps) = text_again ps

  call_items-calls :
      (ps : List ResponsePart) → call_items stringify decode (replayed ps) ≡ calls_again (calls ps)
  unfolding call_items
  call_items-calls [] = refl
  call_items-calls (text s ∷ ps) = call_items-calls ps
  call_items-calls (tool_call id name input ∷ ps) =
      ap (λ (t : List InputItem). function_call id name (stringify input) ∷ t) (call_items-calls ps)

  -- The message of the assistant with that text; an empty one is not sent.
  abbrev pub assistant_message : Text → List InputItem
  assistant_message s = if length s == 0 then [] else message assistant s ∷ []

  text_items-assistant : (s : Text) → text_items stringify decode assistant s ≡ assistant_message s
  text_items-assistant [] = refl
  text_items-assistant (c ∷ s) = ground arith

  -- The parts of the reply to the events, sent back as a message of the assistant, become one item
  -- with the text of the reply, if that is not empty, and then one item for each finished tool call
  -- in front of the event that ends the reply, in order.
  pub replay :
      (parse : Text → Option Json) (es : List Json)
      → to_input_items stringify decode assistant (replayed (to_response_parts parse es).parts)
        ≡ assistant_message (told parse (open_events parse es))
          ++ calls_again (finished_calls parse (open_events parse es))
  unfolding to_input_items
  replay parse es =
      let ps = (to_response_parts parse es).parts in
      rw (no_results ps, text_again ps, call_items-calls ps, text_not_doubled parse es)
        (rw ((calls_and_ending parse es).0, text_items-assistant) refl)
