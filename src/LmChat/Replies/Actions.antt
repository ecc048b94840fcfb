-- ===== src/LmChat/Replies/Actions.antt =====
-- What `toResponseParts` does at one event is what the event means.
use databricks_vscode.Prelude.{
  ◌≡◌, refl, ap, ◌∙◌, Bool, true, false, Option, none, some, List, [], ◌∷◌, ◌++◌, append-nil, Text,
  codes, same_iff, if◌then◌else◌, arith, inl, inr, Bool-cases, Option-cases,
}
use databricks_vscode.LmChat.Json.{Json, null, bool, num, str, arr, obj, is_record, get, is_text}
use databricks_vscode.LmChat.Stream.{
  ResponsePart, text, tool_call, is_call, text_part, call_part, contents_text, message_part,
  output_item_part, Action, skip, delta, finished_item, stop, end_action, act,
}
use databricks_vscode.LmChat.Meaning.{
  delta_of, ending_of, named_call, finished_call, call_of, array_text, message_text, whole_text,
  is_empty,
}

-- The text that Chat shows for the parts.
abbrev pub shown : List ResponsePart → Text
shown [] = []
shown (text s ∷ ps) = s ++ shown ps
shown (tool_call i n a ∷ ps) = shown ps

abbrev pub shown_option : Option ResponsePart → Text
shown_option none = []
shown_option (some p) = shown (p ∷ [])

abbrev pub called_option : Option ResponsePart → List ResponsePart
called_option (some (tool_call i n v)) = tool_call i n v ∷ []
called_option _ = []

is_text-eq : (k : Text) (o : Option Json) → is_text k o ≡ true → o ≡ some (str k)
is_text-eq k (some (str s)) h = ap (λ u. some (str u)) ((same_iff s k).0 h)
is_text-eq k (some null) h = cc
is_text-eq k (some (bool b)) h = cc
is_text-eq k (some (num n)) h = cc
is_text-eq k (some (arr xs)) h = cc
is_text-eq k (some (obj fs)) h = cc
is_text-eq k none h = cc

get-record : (k : Text) (e v : Json) → get k e ≡ some v → is_record e ≡ true
unfolding get is_record
get-record k null v h = cc
get-record k (bool b) v h = cc
get-record k (num n) v h = cc
get-record k (str s) v h = cc
get-record k (arr xs) v h = refl
get-record k (obj fs) v h = refl

module _ (parse : Text → Option Json) where
  -- What an action tells, and what the meaning of the event says of it.
  abbrev pub Answers : Json → Bool → Action → Type 0
  Answers e t skip =
      (ending_of parse e ≡ none)
      × (call_of parse e ≡ [])
      × (whole_text parse e ≡ [])
      × (delta_of e ≡ [])
  Answers e t (delta s) =
      (ending_of parse e ≡ none)
      × (call_of parse e ≡ [])
      × (whole_text parse e ≡ [])
      × (delta_of e ≡ s)
      × (is_empty s ≡ false)
  Answers e t (finished_item p) =
      (ending_of parse e ≡ none)
      × (called_option p ≡ call_of parse e)
      × (shown_option p ≡ (if t then [] else whole_text parse e))
      × (delta_of e ≡ [])
  Answers e t (stop x) = ending_of parse e ≡ some x

  text_part-shown :
      (s : Text) → (shown_option (text_part parse s) ≡ s) × (called_option (text_part parse s) ≡ [])
  unfolding text_part
  text_part-shown [] = (refl, refl)
  text_part-shown (c ∷ s) = (append-nil (c ∷ s), refl)

  message_part-shown :
      (o : Option Json)
      → (shown_option (message_part parse o) ≡ array_text parse o)
        × (called_option (message_part parse o) ≡ [])
  unfolding message_part
  message_part-shown (some (arr xs)) = text_part-shown (contents_text parse xs)
  message_part-shown none = (refl, refl)
  message_part-shown (some null) = (refl, refl)
  message_part-shown (some (bool b)) = (refl, refl)
  message_part-shown (some (num n)) = (refl, refl)
  message_part-shown (some (str s)) = (refl, refl)
  message_part-shown (some (obj fs)) = (refl, refl)

  call_part-called :
      (i n : Option Text) (v : Json)
      → (shown_option (call_part parse i n v) ≡ [])
        × (called_option (call_part parse i n v) ≡ named_call i n v)
  unfolding call_part
  call_part-called (some i) (some n) v = (refl, refl)
  call_part-called (some i) none v = (refl, refl)
  call_part-called none n v = (refl, refl)

  -- The part of a finished item.
  Items : Option Json → Bool → Type 0
  Items item t =
      (called_option (output_item_part parse item t) ≡ finished_call parse item)
      × (shown_option (output_item_part parse item t) ≡ (if t then [] else message_text parse item))

  function_item :
      (item : Json) (t : Bool)
      → get (codes "type") item ≡ some (str (codes "function_call"))
      → Items (some item) t
  unfolding Items output_item_part is_call call_part
  function_item item t h = ground (arith, h)

  other_item :
      (item : Json) (t : Bool)
      → is_text (codes "function_call") (get (codes "type") item) ≡ false
      → Items (some item) t
  unfolding Items output_item_part is_call
  other_item item t h =
      let (texts, calls) = message_part-shown (get (codes "content") item) in
      ground (arith, h, texts, calls)

  item_part : (item : Option Json) (t : Bool) → Items item t
  unfolding Items output_item_part
  item_part none t = ground arith
  item_part (some item) t =
      elim (Bool-cases (is_text (codes "function_call") (get (codes "type") item))) [
        | inl h ↦ function_item item t (is_text-eq (codes "function_call") _ h)
        | inr h ↦ other_item item t h
      ]

  abbrev Typed : Json → Text → Type 0
  Typed e key = get (codes "type") e ≡ some (str key)

  completed_event :
      (e : Json) (t : Bool) → Typed e (codes "response.completed") → Answers e t (act parse e t)
  unfolding act end_action ending_of
  completed_event e t h = ground (arith, h, get-record (codes "type") e _ h)

  incomplete_event :
      (e : Json) (t : Bool) → Typed e (codes "response.incomplete") → Answers e t (act parse e t)
  unfolding act end_action ending_of
  incomplete_event e t h = ground (arith, h, get-record (codes "type") e _ h)

  failed_event :
      (e : Json) (t : Bool) → Typed e (codes "response.failed") → Answers e t (act parse e t)
  unfolding act end_action ending_of
  failed_event e t h = ground (arith, h, get-record (codes "type") e _ h)

  error_event : (e : Json) (t : Bool) → Typed e (codes "error") → Answers e t (act parse e t)
  unfolding act end_action ending_of
  error_event e t h = ground (arith, h, get-record (codes "type") e _ h)

  delta_event :
      (e : Json) (t : Bool)
      → Typed e (codes "response.output_text.delta")
      → Answers e t (act parse e t)
  unfolding act ending_of call_of whole_text
  delta_event e t h = ground (arith, h, get-record (codes "type") e _ h)

  item_event :
      (e : Json) (t : Bool)
      → Typed e (codes "response.output_item.done")
      → Answers e t (act parse e t)
  unfolding act ending_of call_of whole_text Items
  item_event e t h =
      let part = item_part (get (codes "item") e) t in
      ground (arith, h, part, get-record (codes "type") e _ h)

  untyped_event : (e : Json) (t : Bool) → get (codes "type") e ≡ none → Answers e t (act parse e t)
  unfolding act end_action ending_of call_of whole_text
  untyped_event e t h = elim (Option-cases (get (codes "error_code") e)) [
    | inr (v, coded) ↦ ground (arith, h, coded, get-record (codes "error_code") e v coded)
    | inl plain ↦ elim (Option-cases (get (codes "error") e)) [
      | inr (v, wrong) ↦ ground (arith, h, plain, wrong, get-record (codes "error") e v wrong)
      | inl fine ↦ ground (arith, h, plain, fine)
    ]
  ]

  -- None of the types that the code looks for.
  abbrev IsOther : Option Json → Type 0
  IsOther o =
      (is_text (codes "response.completed") o ≡ false)
      × (is_text (codes "response.incomplete") o ≡ false)
      × (is_text (codes "response.failed") o ≡ false)
      × (is_text (codes "error") o ≡ false)
      × (is_text (codes "response.output_text.delta") o ≡ false)
      × (is_text (codes "response.output_item.done") o ≡ false)

  other_event :
      (e v : Json) (t : Bool)
      → get (codes "type") e ≡ some v
      → IsOther (some v)
      → Answers e t (act parse e t)
  unfolding act end_action ending_of call_of whole_text
  other_event e v t h (n1, n2, n3, n4, n5, n6) =
      ground (arith, h, n1, n2, n3, n4, n5, n6, get-record (codes "type") e v h)

  typed_event :
      (e v : Json) (t : Bool) → get (codes "type") e ≡ some v → Answers e t (act parse e t)
  typed_event e v t h = elim (Bool-cases (is_text (codes "response.completed") (some v))) [
    | inl y ↦ completed_event e t (h ∙ is_text-eq _ _ y)
    | inr n1 ↦ elim (Bool-cases (is_text (codes "response.incomplete") (some v))) [
      | inl y ↦ incomplete_event e t (h ∙ is_text-eq _ _ y)
      | inr n2 ↦ elim (Bool-cases (is_text (codes "response.failed") (some v))) [
        | inl y ↦ failed_event e t (h ∙ is_text-eq _ _ y)
        | inr n3 ↦ elim (Bool-cases (is_text (codes "error") (some v))) [
          | inl y ↦ error_event e t (h ∙ is_text-eq _ _ y)
          | inr n4 ↦ elim (Bool-cases (is_text (codes "response.output_text.delta") (some v))) [
            | inl y ↦ delta_event e t (h ∙ is_text-eq _ _ y)
            | inr n5 ↦ elim (Bool-cases (is_text (codes "response.output_item.done") (some v))) [
              | inl y ↦ item_event e t (h ∙ is_text-eq _ _ y)
              | inr n6 ↦ other_event e v t h (n1, n2, n3, n4, n5, n6)
            ]
          ]
        ]
      ]
    ]
  ]

  pub act-Answers : (e : Json) (t : Bool) → Answers e t (act parse e t)
  act-Answers e t = elim (Option-cases (get (codes "type") e)) [
    | inl h ↦ untyped_event e t h
    | inr (v, h) ↦ typed_event e v t h
  ]
