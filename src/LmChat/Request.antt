-- ===== src/LmChat/Request.antt =====
-- `toInputItems` and what it calls: the items that a chat message becomes in a request. The parts of
-- a message are those of VS Code; `JSON.stringify` and the decoder of texts are parameters.
pub mod Replay
use databricks_vscode.Prelude.{
  ℕ, ◌+◌, Bool, true, false, ◌&&◌, ◌||◌, List, [], ◌∷◌, ◌++◌, Text, codes, leb, starts_with,
  contains, lower_all, if◌then◌else◌,
}
use databricks_vscode.LmChat.Json.{Json}

mutual
  pub data Part : Type 0 where
    text_value : Text → Part
    tool_use : (call_id name : Text) → (input : Json) → Part
    tool_result : (call_id : Text) → (content : Parts) → Part
    prompt_tsx : Json → Part
    binary : (mime_type : Text) → (bytes : List ℕ) → Part
    other_part : Part

  pub data Parts : Type 0 where
    no_parts : Parts
    more : Part → Parts → Parts

pub data Role : Type 0 where
  user assistant system : Role

-- The items of the request, with the fields that vary.
pub data InputItem : Type 0 where
  message : Role → (content : Text) → InputItem
  function_call : (call_id name arguments : Text) → InputItem
  function_call_output : (call_id output : Text) → InputItem

-- `/^text\/|json/i`
abbrev pub is_textual : Text → Bool
is_textual mime =
    starts_with (lower_all mime) (codes "text/") || contains (lower_all mime) (codes "json")

module _ (stringify : Json → Text) (decode : List ℕ → Text) where
  -- `partText`, and the joined texts of a list of parts.
  mutual
    pub part_text : Part → Text
    part_text (text_value v) = v
    part_text (tool_use id name input) = name ++ stringify input
    part_text (tool_result id content) = parts_text content
    part_text (prompt_tsx v) = stringify v
    part_text (binary mime bytes) = if is_textual mime then decode bytes else []
    part_text other_part = []

    pub parts_text : Parts → Text
    parts_text no_parts = []
    parts_text (more p ps) = part_text p ++ parts_text ps

  -- The first loop, the filter and the last loop of `toInputItems`.
  unfoldable pub result_items : List Part → List InputItem
  result_items [] = []
  result_items (tool_result id content ∷ ps) =
      function_call_output id (part_text (tool_result id content)) ∷ result_items ps
  result_items (_ ∷ ps) = result_items ps

  unfoldable pub joined_text : List Part → Text
  joined_text [] = []
  joined_text (text_value v ∷ ps) = v ++ joined_text ps
  joined_text (_ ∷ ps) = joined_text ps

  unfoldable pub call_items : List Part → List InputItem
  call_items [] = []
  call_items (tool_use id name input ∷ ps) = function_call id name (stringify input) ∷ call_items ps
  call_items (_ ∷ ps) = call_items ps

  abbrev pub text_items : Role → Text → List InputItem
  text_items role [] = []
  text_items role (c ∷ s) = message role (c ∷ s) ∷ []

  unfoldable pub to_input_items : Role → List Part → List InputItem
  unfolding result_items joined_text call_items
  to_input_items role content =
      result_items content ++ (text_items role (joined_text content) ++ call_items content)

  -- `messages.flatMap(toInputItems)`
  unfoldable pub input_items : List (Role × List Part) → List InputItem
  unfolding to_input_items
  input_items [] = []
  input_items ((role, content) ∷ messages) = to_input_items role content ++ input_items messages
