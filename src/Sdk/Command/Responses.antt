-- ===== src/Sdk/Command/Responses.antt =====
-- How the wait for a command ends.
use databricks_vscode.Prelude.{
  ℕ, suc, ◌+◌, ◌≡◌, refl, Bool, true, false, Option, none, some, List, [], ◌∷◌, arith,
  if◌then◌else◌,
}
use databricks_vscode.Sdk.Command.{
  Response, Act, notified, asked_to_cancel, returned, Command, refresh, wait_cancelled, cancel,
  is_final, Poll, notify, response, execute, new,
}

-- A final answer of the service.
abbrev pub final_result : Option Response → Bool
final_result none = false
final_result (some r) = is_final r.status

abbrev pub cancels : List Act → ℕ
cancels [] = 0
cancels (asked_to_cancel ∷ acts) = suc (cancels acts)
cancels (_ ∷ acts) = cancels acts

-- The answers that the listener was told, the last first.
abbrev pub told : List Act → List Response
told [] = []
told (notified r ∷ acts) = r ∷ told acts
told (_ ∷ acts) = told acts

wait_cancelled-final :
    (rs : List Response) (c : Command)
    → (wait_cancelled rs c).ending ≡ returned
    → final_result (wait_cancelled rs c).result ≡ true
unfolding wait_cancelled
wait_cancelled-final [] c h = ground (arith, h)
wait_cancelled-final (r ∷ rs) c h = ground (arith, h, wait_cancelled-final rs (refresh r c))

wait_cancelled-acts :
    (rs : List Response) (c : Command)
    → (cancels (wait_cancelled rs c).acts ≡ cancels c.acts)
      × (told (wait_cancelled rs c).acts ≡ told c.acts)
unfolding wait_cancelled
wait_cancelled-acts [] c = (refl, refl)
wait_cancelled-acts (r ∷ rs) c = ground (arith, wait_cancelled-acts rs (refresh r c))

response-final :
    (ps : List Poll) (c : Command)
    → (response ps c).ending ≡ returned
    → final_result (response ps c).result ≡ true
unfolding response cancel
response-final [] c h = ground (arith, h)
response-final (p ∷ ps) c h =
    let next = notify p.answer (refresh p.answer c) in
    ground (
      arith,
      h,
      response-final ps next,
      wait_cancelled-final p.cancelling (record next { acts = asked_to_cancel ∷ next.acts }),
    )

-- The polls up to the one that ends the wait.
unfoldable pub used : List Poll → List Poll
used [] = []
used (p ∷ ps) =
    let later = p ∷ used ps in
    if is_final p.answer.status
    then p ∷ []
    else if p.is_cancellation_requested
    then p ∷ []
    else later

-- Whether the wait ends by a cancellation.
unfoldable pub asks_to_cancel : List Poll → ℕ
asks_to_cancel [] = 0
asks_to_cancel (p ∷ ps) =
    let later = asks_to_cancel ps in
    if is_final p.answer.status then 0 else if p.is_cancellation_requested then 1 else later

abbrev pub answers : List Poll → List Response → List Response
answers [] earlier = earlier
answers (p ∷ ps) earlier = answers ps (p.answer ∷ earlier)

response-told :
    (ps : List Poll) (c : Command) → told (response ps c).acts ≡ answers (used ps) (told c.acts)
unfolding response cancel used
response-told [] c = refl
response-told (p ∷ ps) c =
    let next = notify p.answer (refresh p.answer c) in
    ground (
      arith,
      response-told ps next,
      wait_cancelled-acts p.cancelling (record next { acts = asked_to_cancel ∷ next.acts }),
    )

response-cancels :
    (ps : List Poll) (c : Command)
    → cancels (response ps c).acts ≡ cancels c.acts + asks_to_cancel ps
unfolding response cancel asks_to_cancel
response-cancels [] c = ground arith
response-cancels (p ∷ ps) c =
    let next = notify p.answer (refresh p.answer c) in
    ground (
      arith,
      response-cancels ps next,
      wait_cancelled-acts p.cancelling (record next { acts = asked_to_cancel ∷ next.acts }),
    )

-- A command whose execution returns has a final result, be it cancelled or not.
pub execute_final :
    (ps : List Poll) → (execute ps).ending ≡ returned → final_result (execute ps).result ≡ true
unfolding execute
execute_final ps h = response-final ps new h

-- The listener is told every answer up to the one that ends the wait, once and in order, and none of
-- those to a cancellation; the service is asked to cancel once if the wait ends by a cancelled token,
-- and otherwise not at all.
pub execute_reports :
    (ps : List Poll)
    → (told (execute ps).acts ≡ answers (used ps) [])
      × (cancels (execute ps).acts ≡ asks_to_cancel ps)
unfolding execute
execute_reports ps = (response-told ps new, omega (arith, response-cancels ps new))
