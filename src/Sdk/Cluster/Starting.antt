-- ===== src/Sdk/Cluster/Starting.antt =====
-- What holds when a start of a cluster ends.
use databricks_vscode.Prelude.{
  ℕ, suc, ◌≡◌, refl, Bool, true, false, none, List, [], ◌∷◌, ◌++◌, All, arith, ◌⊎◌, inl, inr,
  Bool-cases, if◌then◌else◌,
}
use databricks_vscode.Sdk.Cluster.{
  State, running, terminating, unknown, other_state, is_terminating, is_down, Act, got, told,
  asked_to_start, returned, Poll, Start, refreshed, wait_terminated, ask_start, ending_in,
  wait_running, has_timed_out, then_running, start,
}

abbrev pub never_cancelled : List Poll → Bool
never_cancelled [] = true
never_cancelled (p ∷ ps) = if p.cancelled then false else never_cancelled ps

-- How often a start is asked for.
abbrev pub starts : List Act → ℕ
starts [] = 0
starts (asked_to_start ∷ acts) = suc (starts acts)
starts (_ ∷ acts) = starts acts

-- The loop that waits for the cluster.
wait_running-running :
    (ps : List Poll) (s : Start)
    → never_cancelled ps ≡ true
    → (wait_running ps s).ending ≡ returned
    → (wait_running ps s).state ≡ running
unfolding wait_running
wait_running-running [] s h r = ground (arith, r)
wait_running-running (p ∷ ps) s h r =
    ground (arith, h, r, wait_running-running ps (refreshed p.state s))

starts-wait_running : (ps : List Poll) (s : Start) → starts (wait_running ps s).acts ≡ starts s.acts
unfolding wait_running
starts-wait_running [] s = refl
starts-wait_running (p ∷ ps) s = ground (arith, starts-wait_running ps (refreshed p.state s))

starts-wait_terminated :
    (ps : List Poll) (s : Start) → starts (wait_terminated ps s).acts ≡ starts s.acts
unfolding wait_terminated
starts-wait_terminated [] s = refl
starts-wait_terminated (p ∷ ps) s = ground (arith, starts-wait_terminated ps (refreshed p.state s))

then_running-running :
    (ps : List Poll) (s : Start)
    → never_cancelled ps ≡ true
    → (then_running ps s).ending ≡ returned
    → ((then_running ps s).state ≡ running)
      × (starts (then_running ps s).acts ≡ suc (starts s.acts))
unfolding then_running
then_running-running ps s h r = elim (Bool-cases (has_timed_out s.ending)) [
  | inl late ↦ ground (arith, late, r)
  | inr done ↦ ground (
    arith,
    h,
    r,
    done,
    wait_running-running ps (ask_start s),
    starts-wait_running ps (ask_start s),
  )
]

abbrev first_details : State → Start
first_details x = refreshed x (record { state = x; acts = []; ending = returned })

-- A start that is never cancelled while it waits for the cluster to run, and that returns: the
-- cluster is running, and its start was asked for once where it was down or terminating at first, and
-- not at all otherwise.
pub start_returned :
    (first : State) (stopping starting : List Poll)
    → never_cancelled starting ≡ true
    → (start first stopping starting).ending ≡ returned
    → ((start first stopping starting).state ≡ running)
      × (starts (start first stopping starting).acts
          ≡ (if is_down first then 1 else if is_terminating first then 1 else 0))
unfolding start
start_returned first stopping starting h r =
    let s = first_details first in
    let waited = wait_terminated stopping s in
    ground (
      arith,
      h,
      r,
      wait_running-running starting s,
      wait_running-running starting (ask_start s),
      starts-wait_running starting s,
      starts-wait_running starting (ask_start s),
      starts-wait_terminated stopping s,
      then_running-running starting waited,
    )

-- A state from which a cluster can still come up by itself.
abbrev pub CanComeUp : State → Type 0
CanComeUp s = (s ≡ terminating) ⊎ ((s ≡ unknown) ⊎ (s ≡ other_state))

abbrev pub Waits : Poll → Type 0
Waits p = (p.cancelled ≡ false) × CanComeUp p.state

no_ending : (s : State) → CanComeUp s → ending_in s ≡ none
no_ending s (inl e) = rw e refl
no_ending s (inr (inl e)) = rw e refl
no_ending s (inr (inr e)) = rw e refl

wait_running-reaches :
    (ps rest : List Poll) (s : Start)
    → All Waits ps
    → (wait_running (ps ++ record { cancelled = false; state = running } ∷ rest) s).ending
      ≡ returned
unfolding wait_running
wait_running-reaches [] rest s h = refl
wait_running-reaches (p ∷ ps) rest s ((c, e), hs) =
    ground (arith, c, no_ending p.state e, wait_running-reaches ps rest (refreshed p.state s) hs)

-- A start that is cancelled while the cluster still terminates, and stays cancelled: the wait
-- ends, and the start of the cluster is asked for nevertheless, before the cancellation is looked
-- at again.
pub cancelled_start_goes_on :
    (p q : Poll) (stopping starting : List Poll)
    → p.cancelled ≡ true
    → q.cancelled ≡ true
    → start terminating (p ∷ stopping) (q ∷ starting) ≡ record {
      state = terminating;
      acts = asked_to_start ∷ told terminating ∷ got terminating ∷ [];
      ending = returned;
    }
unfolding start wait_terminated then_running wait_running
cancelled_start_goes_on p q stopping starting h k = ground (arith, h, k)

-- Where a cluster is not terminating at first, and the polls that the retry makes before it times
-- out get to one that finds it running, and those in front of it are not cancelled and find it
-- terminating, unknown, or in a state that is neither running, terminated nor an error: the start
-- returns.
pub start_reaches :
    (first : State) (stopping ps rest : List Poll)
    → is_terminating first ≡ false
    → All Waits ps
    → (start first stopping (ps ++ record { cancelled = false; state = running } ∷ rest)).ending
      ≡ returned
unfolding start
start_reaches first stopping ps rest h hs =
    let s = first_details first in
    ground
      (arith, h, wait_running-reaches ps rest s hs, wait_running-reaches ps rest (ask_start s) hs)
