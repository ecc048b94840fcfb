-- ===== src/Bundle/RemoteState.antt =====
-- bundle/models/BundleRemoteStateModel.ts: the commands of a bundle and the cache of its state. Each
-- event runs one task from one `await` to the next. The mutex of the class, which lets only some of
-- these interleavings happen, is left out, and so are the options of a command that its caller gives.
-- `A` are the providers of authentication, which `equal` compares, `G` the guards, `R` the folders of
-- projects, and `T` the states of the cache. The guard and the CLI answer by events.
pub mod Sound
pub mod Snapshots
use databricks_vscode.Prelude.{
  ℕ, Bool, true, false, Option, none, some, List, [], ◌∷◌, ◌++◌, Text, codes, same, ◌==◌, is_some,
  if◌then◌else◌,
}
use databricks_vscode.Locking.CachedValue.{CachedValue}
use databricks_vscode.Locking.CachedValue

pub data Command : Type 0 where
  deploy destroy sync get_run_command read_state : Command

-- `BundleAuthDecision`
pub data Decision : Type 0 where
  allowed : Decision
  paused : (reason : Text) → Decision

-- What a command reads before its first `await`; `pin` is `pinBundleRoot`.
pub record Snapshot (A R : Type 0) : Type 0 where
  pub target : Text
  pub auth_provider : A
  pub project_root : R
  pub pin : Bool

-- A command that waits for the decision; `guard` is the guard that it has asked.
pub record Pending (A G R : Type 0) : Type 0 where
  pub id : ℕ
  pub command : Command
  pub snapshot : Snapshot A R
  pub guard : Option G

-- The calls of a guard and of the CLI, and how commands end without the CLI.
pub data Effect (A G R : Type 0) : Type 0 where
  asked : (id : ℕ) → G → (target : Text) → Effect A G R
  ran : (id : ℕ) → Command → Snapshot A R → Effect A G R
  threw : (id : ℕ) → (message : Text) → Effect A G R
  no_state : (id : ℕ) → Effect A G R

-- `effects` has the newest first.
pub record RemoteModel (A G R T : Type 0) : Type 0 where
  pub target : Option Text
  pub auth_provider : Option A
  pub auth_guard : Option G
  pub project_root : R
  pub pending : List (Pending A G R)
  pub effects : List (Effect A G R)
  pub state_cache : CachedValue T

pub data Event (A G R T : Type 0) : Type 0 where
  call : (id : ℕ) → Command → Event A G R T
  decided : (id : ℕ) → Decision → Event A G R T
  set_target : Option Text → Event A G R T
  set_auth_provider : Option A → Option G → Event A G R T
  project_moves : R → Event A G R T
  cache_event : CachedValue.Event T → Event A G R T

abbrev pub same_target : Option Text → Option Text → Bool
same_target none none = true
same_target (some s) (some t) = same s t
same_target _ _ = false

abbrev pub paused_message : Text → Text → Text
paused_message target reason =
    codes "Bundle commands for target \""
    ++ target
    ++ codes "\" are paused because "
    ++ reason
    ++ codes ". Review the Target row in the Configuration view."

-- Without a guard, all is allowed.
abbrev pub decision_of : {G : Type 0} → Option G → Decision → Decision
decision_of none d = allowed
decision_of (some g) d = d

module _ {A G R : Type 0} where
  -- `readState` gives the empty state where the commands throw.
  abbrev pub refusal : ℕ → Text → Command → Effect A G R
  refusal id message read_state = no_state id
  refusal id message _ = threw id message

  -- `authDecision`, up to the answer of the guard.
  abbrev pub ask : ℕ → Option G → Text → List (Effect A G R) → List (Effect A G R)
  ask id none target done = done
  ask id (some g) target done = asked id g target ∷ done

  abbrev pub put_back :
      Pending A G R
      → Option (Pending A G R × List (Pending A G R))
      → Option (Pending A G R × List (Pending A G R))
  put_back q none = none
  put_back q (some (p, rest)) = some (p, q ∷ rest)

  -- The command with that number, and the others.
  unfoldable pub pick : ℕ → List (Pending A G R) → Option (Pending A G R × List (Pending A G R))
  pick id [] = none
  pick id (p ∷ ps) =
      let later = put_back p (pick id ps) in if p.id == id then some (p, ps) else later

module _ {A G R T : Type 0} where
  abbrev pub refuse : ℕ → Command → Text → RemoteModel A G R T → RemoteModel A G R T
  refuse id command message m = record m { effects = refusal id message command ∷ m.effects }

  abbrev pub wait_for_decision : ℕ → Command → Text → A → RemoteModel A G R T → RemoteModel A G R T
  wait_for_decision id command target auth m =
      let snapshot : Snapshot A R = record {
        target = target;
        auth_provider = auth;
        project_root = m.project_root;
        pin = is_some m.auth_guard;
      } in
      let waits : Pending A G R = record {
        id = id;
        command = command;
        snapshot = snapshot;
        guard = m.auth_guard;
      } in
      record m { pending = waits ∷ m.pending; effects = ask id m.auth_guard target m.effects }

  abbrev pub with_target :
      ℕ → Command → Option Text → Option A → RemoteModel A G R T → RemoteModel A G R T
  with_target id command none auth m = refuse id command (codes "Target is undefined") m
  with_target id command (some target) none m =
      refuse id command (codes "No authentication method is set") m
  with_target id command (some target) (some auth) m = wait_for_decision id command target auth m

  -- `deploy`, `destroy`, `sync`, `getRunCommand` and `readState`, up to the decision.
  unfoldable pub begin : ℕ → Command → RemoteModel A G R T → RemoteModel A G R T
  begin id command m = with_target id command m.target m.auth_provider m

  abbrev pub go_on : Pending A G R → Decision → RemoteModel A G R T → RemoteModel A G R T
  go_on p allowed m = record m { effects = ran p.id p.command p.snapshot ∷ m.effects }
  go_on p (paused reason) m = refuse p.id p.command (paused_message p.snapshot.target reason) m

  abbrev pub after_decision :
      Decision
      → Option (Pending A G R × List (Pending A G R))
      → RemoteModel A G R T
      → RemoteModel A G R T
  after_decision d none m = m
  after_decision d (some (p, rest)) m =
      go_on p (decision_of p.guard d) (record m { pending = rest })

  module _ (equal : Option A → Option A → Bool) (equal_state : T → T → Bool) (empty : T) where
    -- `resetCache`
    abbrev pub reset_cache : RemoteModel A G R T → RemoteModel A G R T
    reset_cache m = record m {
      state_cache = CachedValue.step equal_state (CachedValue.set_to empty) m.state_cache;
    }

    unfoldable pub change_target : Option Text → RemoteModel A G R T → RemoteModel A G R T
    change_target target m =
        let reset = reset_cache (record m { target = target }) in
        if same_target m.target target
        then m
        else record reset { auth_provider = none; auth_guard = none }

    unfoldable pub change_auth_provider :
        Option A → Option G → RemoteModel A G R T → RemoteModel A G R T
    change_auth_provider auth guard m = record m {
      auth_provider = if equal m.auth_provider auth then m.auth_provider else auth;
      auth_guard = guard;
    }

    unfoldable pub step : Event A G R T → RemoteModel A G R T → RemoteModel A G R T
    unfolding begin pick change_target change_auth_provider
    step (call id command) m = begin id command m
    step (decided id d) m = after_decision d (pick id m.pending) m
    step (set_target target) m = change_target target m
    step (set_auth_provider auth guard) m = change_auth_provider auth guard m
    step (project_moves root) m = record m { project_root = root }
    step (cache_event e) m = record m { state_cache = CachedValue.step equal_state e m.state_cache }

    unfoldable pub run : List (Event A G R T) → RemoteModel A G R T → RemoteModel A G R T
    run [] m = m
    run (e ∷ es) m = run es (step e m)

    abbrev pub new : R → RemoteModel A G R T
    new root = record {
      target = none;
      auth_provider = none;
      auth_guard = none;
      project_root = root;
      pending = [];
      effects = [];
      state_cache = CachedValue.fresh equal_state;
    }

-- The end of `readState`: the state in the standard output of the CLI; `parse` is `JSON.parse`.
abbrev pub state_of_stdout : {T : Type 0} → (Text → Option T) → T → Option Text → Option T
state_of_stdout parse empty none = some empty
state_of_stdout parse empty (some []) = some empty
state_of_stdout parse empty (some (c ∷ s)) = parse (c ∷ s)
