-- ===== src/Sdk/Command.antt =====
-- sdk-extensions/Command.ts, ExecutionContext.ts, and `canExecute` of Cluster.ts: one command in a
-- context of a cluster. The service answers by polls; a poll that fails is not modelled. `retry` of
-- the SDK calls its function again as long as that throws a `RetriableError`, and times out when there
-- is no further poll.
pub mod Responses
use databricks_vscode.Prelude.{
  ℕ, Bool, true, false, not, ◌&&◌, ◌||◌, Option, none, some, List, [], ◌∷◌, ◌++◌, Text, codes,
  contains, if◌then◌else◌,
}

-- `status` of the answer; all others are `busy`.
pub data Status : Type 0 where
  cancelled error finished busy : Status

-- `cause` is there for a result of the type `error`; a result that has no cause is not modelled.
pub record Response : Type 0 where
  pub status : Status
  pub cause : Option Text

-- The calls of the service, and the events `statusUpdate`.
pub data Act : Type 0 where
  got_status : Response → Act
  notified : Response → Act
  asked_to_cancel : Act

-- `threw` has the part of the message that says what is wrong.
pub data Ending : Type 0 where
  returned timed_out : Ending
  threw : (message : Text) → Ending

-- `acts` has the newest first; `result` is that of the last refresh.
pub record Command : Type 0 where
  pub result : Option Response
  pub acts : List Act
  pub ending : Ending

abbrev pub refresh : Response → Command → Command
refresh r c = record c { result = some r; acts = got_status r ∷ c.acts }

abbrev pub end_with : Ending → Command → Command
end_with e c = record c { ending = e }

-- The first test of `cancel`: the message of an error that is not the cancellation itself.
abbrev pub other_error : Option Text → Option Text
other_error none = none
other_error (some cause) =
    if contains cause (codes "CommandCancelledException") then none else some cause

-- The other tests; `none` is a `CommandRetriableError`.
abbrev pub cancel_ending : Status → Option Ending
cancel_ending cancelled = some returned
cancel_ending finished = some returned
cancel_ending error = some (threw (codes "Error while cancelling the command"))
cancel_ending busy = none

abbrev pub cancel_test : Response → Option Ending
cancel_test r = elim (other_error r.cause) [
  | none ↦ cancel_ending r.status
  | some cause ↦ some (threw cause)
]

-- The `retry` of `cancel`.
unfoldable pub wait_cancelled : List Response → Command → Command
wait_cancelled [] c = end_with timed_out c
wait_cancelled (r ∷ rs) c =
    let next = refresh r c in
    let later = wait_cancelled rs next in
    elim (cancel_test r) [ none ↦ later | some e ↦ end_with e next ]

unfoldable pub cancel : List Response → Command → Command
unfolding wait_cancelled
cancel rs c = wait_cancelled rs (record c { acts = asked_to_cancel ∷ c.acts })

abbrev pub is_final : Status → Bool
is_final busy = false
is_final _ = true

-- One call of the function that `response` retries: what the refresh gets, whether the token is
-- cancelled, and the answers to the refreshes of `cancel`.
pub record Poll : Type 0 where
  pub answer : Response
  pub is_cancellation_requested : Bool
  pub cancelling : List Response

abbrev pub notify : Response → Command → Command
notify r c = record c { acts = notified r ∷ c.acts }

unfoldable pub response : List Poll → Command → Command
unfolding cancel
response [] c = end_with timed_out c
response (p ∷ ps) c =
    let next = notify p.answer (refresh p.answer c) in
    let later = response ps next in
    if is_final p.answer.status
    then end_with returned next
    else if p.is_cancellation_requested
    then cancel p.cancelling next
    else later

abbrev pub new : Command
new = record { result = none; acts = []; ending = returned }

-- `execute`, behind the call of the service.
unfoldable pub execute : List Poll → Command
unfolding response
execute ps = response ps new

-- The context that `canExecute` makes, and what it does with it.
pub data ContextAct : Type 0 where
  created executed destroyed : ContextAct

-- `canExecute`: whether a context is made and whether it has an id, and how the command ends in it;
-- its acts, in order, and its answer.
abbrev pub succeeds : Command → Bool
succeeds c = elim c.ending [
  | returned ↦ elim c.result [
    | none ↦ true
    | some r ↦ elim r.cause [ none ↦ true | some s ↦ false ]
  ]
  | timed_out ↦ false
  | threw message ↦ false
]

unfoldable pub can_execute : (has_id : Option Bool) → List Poll → List ContextAct × Bool
unfolding execute
can_execute none ps = ([], false)
can_execute (some has_id) ps =
    (created ∷ executed ∷ (if has_id then destroyed ∷ [] else []), succeeds (execute ps))
