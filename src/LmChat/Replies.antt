-- ===== src/LmChat/Replies.antt =====
-- What a reply holds: its text, its tool calls, and how it ends.
pub mod Actions
use databricks_vscode.Prelude.{
  ℕ, zero, suc, ◌+◌, ◌≤◌, ◌≡◌, refl, sym, ap, ◌∙◌, Bool, true, false, not, ◌&&◌, ◌||◌, Option, none,
  some, List, [], ◌∷◌, ◌++◌, Text, codes, same, ltb, length, length-append, append-nil,
  append_assoc, is_some, if◌then◌else◌, arith, ◌⊎◌, inl, inr, Bool-cases,
}
use databricks_vscode.LmChat.Json.{
  Json, null, bool, num, str, arr, obj, is_record, get, text_of, is_text,
}
use databricks_vscode.LmChat.Stream.{
  ResponsePart, text, tool_call, Ending, returned, threw, Reply, max_error_length, take, ellipsis,
  inner_message, text_or, shorten, gateway_message, is_call, text_part, call_part, parse_arguments,
  contents_text, message_part, output_item_part, Action, skip, delta, finished_item, event_type,
  delta_action, end_action, stop, act, yields, yields_some, respond, to_response_parts,
}
use databricks_vscode.LmChat.Meaning.{
  ending_of, call_of, whole_text, delta_of, open_events, ending, finished_calls, deltas, is_empty,
  unstreamed, told,
}
use databricks_vscode.LmChat.Replies.Actions.{
  shown, shown_option, called_option, Answers, act-Answers,
}

abbrev pub calls : List ResponsePart → List ResponsePart
calls [] = []
calls (text s ∷ ps) = calls ps
calls (tool_call i n a ∷ ps) = tool_call i n a ∷ calls ps

length-take : (n : ℕ) (s : Text) → length (take n s) ≤ n
length-take zero s = omega arith
length-take (suc n) [] = omega arith
length-take (suc n) (c ∷ s) = omega (arith, length-take n s)

module _ (parse : Text → Option Json) where
  shown-yields_some :
      (p : Option ResponsePart) (r : Reply)
      → shown (yields_some p r).parts ≡ shown_option p ++ shown r.parts
  shown-yields_some none r = refl
  shown-yields_some (some (text s)) r = rw (append-nil s)
  shown-yields_some (some (tool_call i n v)) r = refl

  calls-yields_some :
      (p : Option ResponsePart) (r : Reply)
      → calls (yields_some p r).parts ≡ called_option p ++ calls r.parts
  calls-yields_some none r = refl
  calls-yields_some (some (text s)) r = refl
  calls-yields_some (some (tool_call i n v)) r = refl

  -- One turn of the loop, with the reply of the later turns: after a delta, text has streamed.
  turn : Action → (same_flag after_delta : Reply) → Reply
  turn skip r d = r
  turn (delta s) r d = yields (text s) d
  turn (finished_item p) r d = yields_some p r
  turn (stop x) r d = record { parts = []; ending = x }

  respond-turn :
      (t : Bool) (e : Json) (es : List Json)
      → respond parse t (e ∷ es) ≡ turn (act parse e t) (respond parse t es) (respond parse true es)
  unfolding respond turn
  respond-turn t e es = of_action (act parse e t)
    where
      of_action :
          (a : Action)
          → (elim a as (λ _. Reply) [
            | skip ↦ respond parse t es
            | delta s ↦ yields (text s) (respond parse true es)
            | finished_item p ↦ yields_some p (respond parse t es)
            | stop x ↦ record { parts = []; ending = x }
          ])
            ≡ turn a (respond parse t es) (respond parse true es)
      of_action skip = refl
      of_action (delta s) = refl
      of_action (finished_item p) = refl
      of_action (stop x) = refl

  -- Once text has streamed, only deltas add to it.
  later_turn :
      (a : Action) (e : Json) (es : List Json) (r : Reply)
      → Answers parse e true a
      → shown r.parts ≡ deltas (open_events parse es)
      → shown (turn a r r).parts ≡ deltas (open_events parse (e ∷ es))
  unfolding turn deltas open_events
  later_turn skip e es r h k = ground (arith, h, k)
  later_turn (delta s) e es r h k = ground (arith, h, k)
  later_turn (finished_item p) e es r h k = ground (arith, h, k, shown-yields_some p r)
  later_turn (stop x) e es r h k = ground (arith, h)

  later_text :
      (es : List Json) → shown (respond parse true es).parts ≡ deltas (open_events parse es)
  unfolding respond deltas open_events
  later_text [] = refl
  later_text (e ∷ es) =
      ap (λ (r : Reply). shown r.parts) (respond-turn true e es)
      ∙ later_turn (act parse e true) e es (respond parse true es) (act-Answers parse e true)
          (later_text es)

  first_turn :
      (a : Action) (e : Json) (es : List Json) (r d : Reply)
      → Answers parse e false a
      → shown r.parts ≡ told parse (open_events parse es)
      → shown d.parts ≡ deltas (open_events parse es)
      → shown (turn a r d).parts ≡ told parse (open_events parse (e ∷ es))
  unfolding turn told unstreamed deltas open_events
  first_turn skip e es r d h k l = ground (arith, h, k)
  first_turn (delta s) e es r d h k l = ground (arith, h, l)
  first_turn (finished_item p) e es r d h k l =
      let rest = open_events parse es in
      ground (
        arith,
        h,
        k,
        shown-yields_some p r,
        append_assoc (whole_text parse e) (unstreamed parse rest) (deltas rest),
      )
  first_turn (stop x) e es r d h k l = ground (arith, h)

  -- Up to the event that ends the reply, its text is that of the deltas, behind that of the whole
  -- messages that finish before any text has streamed: a message that repeats what has streamed
  -- adds none.
  pub text_not_doubled :
      (es : List Json)
      → shown (to_response_parts parse es).parts ≡ told parse (open_events parse es)
  unfolding to_response_parts respond told unstreamed deltas open_events
  text_not_doubled [] = refl
  text_not_doubled (e ∷ es) =
      ap (λ (r : Reply). shown r.parts) (respond-turn false e es)
      ∙ first_turn (act parse e false) e es (respond parse false es) (respond parse true es)
          (act-Answers parse e false) (text_not_doubled es) (later_text es)

  -- What a reply has to hold of its calls and its end.
  Ends : List Json → Reply → Type 0
  Ends es r =
      (calls r.parts ≡ finished_calls parse (open_events parse es)) × (r.ending ≡ ending parse es)

  ending_turn :
      (a : Action) (e : Json) (es : List Json) (t : Bool) (r d : Reply)
      → Answers parse e t a
      → Ends es r
      → Ends es d
      → Ends (e ∷ es) (turn a r d)
  unfolding turn Ends finished_calls open_events ending
  ending_turn skip e es t r d h k l = ground (arith, h, k)
  ending_turn (delta s) e es t r d h k l = ground (arith, h, l)
  ending_turn (finished_item none) e es t r d h k l = ground (arith, h, k)
  ending_turn (finished_item (some (text s))) e es t r d h k l = ground (arith, h, k)
  ending_turn (finished_item (some (tool_call i n v))) e es t r d h k l = ground (arith, h, k)
  ending_turn (stop x) e es t r d h k l = ground (arith, h)

  respond-Ends : (t : Bool) (es : List Json) → Ends es (respond parse t es)
  unfolding respond Ends finished_calls open_events ending
  respond-Ends t [] = (refl, refl)
  respond-Ends t (e ∷ es) =
      let turned =
        ending_turn (act parse e t) e es t (respond parse t es) (respond parse true es)
          (act-Answers parse e t) (respond-Ends t es) (respond-Ends true es) in
      rw (respond-turn t e es) turned

  -- The reply holds the finished tool calls of the events in front of the first one that ends it, in
  -- order, each once: those with an id and a name that are not marked as incomplete. It ends as that
  -- event says: it returns on a completed response, throws on an incomplete or a failed one and on an
  -- error, and throws if no event ends it.
  pub calls_and_ending :
      (es : List Json)
      → (calls (to_response_parts parse es).parts ≡ finished_calls parse (open_events parse es))
        × ((to_response_parts parse es).ending ≡ ending parse es)
  unfolding to_response_parts Ends
  calls_and_ending es = respond-Ends false es

length-shorten_at :
    (n : ℕ) (s : Text) → length (if ltb n (length s) then take n s ++ ellipsis else s) ≤ n + 1
length-shorten_at n s = ground (arith, length-append (take n s) ellipsis, length-take n s)

length-shorten : (s : Text) → length (shorten s) ≤ 301
unfolding shorten
length-shorten s = length-shorten_at 300 s

-- A message of the gateway has at most 301 characters.
pub length-gateway_message :
    (parse : Text → Option Json) (message : Text) → length (gateway_message parse message) ≤ 301
unfolding gateway_message
length-gateway_message parse message =
    length-shorten (text_or (inner_message (parse message)) message)
