-- ===== src/Bundle/Tests.antt =====
-- A deployment that waits for its guard while the target changes.
use databricks_vscode.Prelude.{
  ℕ, ◌≡◌, refl, Bool, true, false, Option, none, some, List, [], ◌∷◌, codes, ◌==◌,
}
use databricks_vscode.Bundle.RemoteState.{
  deploy, destroy, sync, read_state, allowed, paused, Event, call, decided, set_target,
  set_auth_provider, asked, ran, threw, no_state, RemoteModel, run, new, paused_message, step,
}
use databricks_vscode.Bundle.RemoteState.Sound.{settings, SoundRuns}
use databricks_vscode.Bundle.RemoteState.Snapshots.{trail, runs_in_one_setting}

abbrev same_auth : Option ℕ → Option ℕ → Bool
same_auth (some a) (some b) = a == b
same_auth _ _ = false

abbrev same_state : ℕ → ℕ → Bool
same_state a b = a == b

-- Providers, guards, folders and states are numbers; 0 is the empty state.
abbrev Change : Type 0
Change = Event ℕ ℕ ℕ ℕ

abbrev changes : List Change
changes =
    set_target (some (codes "dev"))
    ∷ set_auth_provider (some 1) (some 7)
    ∷ call 1 deploy
    ∷ set_target (some (codes "prod"))
    ∷ set_auth_provider (some 2) none
    ∷ call 2 sync
    ∷ decided 2 (paused [])
    ∷ decided 1 allowed
    ∷ []

abbrev start : RemoteModel ℕ ℕ ℕ ℕ
start = new same_auth same_state 0 100

runs_in_one_setting_example :
    SoundRuns
      (trail same_auth same_state 0 changes start (settings start ∷ []))
      (run same_auth same_state 0 changes start).effects
runs_in_one_setting_example = runs_in_one_setting same_auth same_state 0 100 changes

-- The deployment keeps to its own target; the second command has no guard, and so goes on.
deployed :
    (run same_auth same_state 0 changes start).effects
    ≡ ran 1 deploy
        (record { target = codes "dev"; auth_provider = 1; project_root = 100; pin = true })
      ∷ ran 2 sync
          (record { target = codes "prod"; auth_provider = 2; project_root = 100; pin = false })
      ∷ asked 1 7 (codes "dev")
      ∷ []
unfolding run step
deployed = refl

-- A paused command throws, or gives no state.
held :
    (run same_auth same_state 0
      (set_target (some (codes "d"))
        ∷ call 1 destroy
        ∷ set_auth_provider (some 1) (some 7)
        ∷ call 2 destroy
        ∷ call 3 read_state
        ∷ decided 2 (paused (codes "r"))
        ∷ decided 3 (paused (codes "r"))
        ∷ [])
      start).effects
    ≡ no_state 3
      ∷ threw 2 (paused_message (codes "d") (codes "r"))
      ∷ asked 3 7 (codes "d")
      ∷ asked 2 7 (codes "d")
      ∷ threw 1 (codes "No authentication method is set")
      ∷ []
unfolding run step
held = refl
