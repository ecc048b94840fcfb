-- ===== src/Execute/Main/Protocol/Contexts.antt =====
-- The contexts that a history has made and destroyed.
use databricks_vscode.Prelude.{
  Bool, true, false, not, ◌&&◌, ◌||◌, List, [], ◌∷◌, Text, same, same_iff, ◌≡◌, refl, arith,
}
use databricks_vscode.Execute.Main.Call.{
  Act, spawned, found, started, created, executed, destroyed, submitted, run_cancelled, wrote,
  wrote_error,
}
use databricks_vscode.Execute.Main.Holds.{Fact}
use databricks_vscode.Execute.Main.Protocol.{any_act, is_created}

abbrev pub mem : Text → List Text → Bool
mem x [] = false
mem x (y ∷ ys) = same x y || mem x ys

-- The contexts that a history, the last act first, has made are destroyed later or among `later`.
abbrev pub all_destroyed : (later : List Text) → List Act → Bool
all_destroyed later [] = true
all_destroyed later (destroyed context ∷ h) = all_destroyed (context ∷ later) h
all_destroyed later (created cluster context ∷ h) = mem context later && all_destroyed later h
all_destroyed later (_ ∷ h) = all_destroyed later h

-- No act made a context but `x`.
abbrev pub makes_other : Text → Act → Bool
makes_other x (created cluster context) = not (same context x)
makes_other x _ = false

abbrev pub Only : Text → Fact
Only x h = any_act (makes_other x) h ≡ false

abbrev pub Fresh : Fact
Fresh h = any_act is_created h ≡ false

pub fresh_calm : (a : Act) (h : List Act) → is_created a ≡ false → Fresh h → Fresh (a ∷ h)
fresh_calm a h e f = rw (e, f) refl

pub only_calm :
    (x : Text) (a : Act) (h : List Act) → is_created a ≡ false → Only x h → Only x (a ∷ h)
only_calm x (created cluster context) h e f = ground arith
only_calm x (spawned command env reply) h e f = f
only_calm x (found cluster state) h e f = f
only_calm x (started cluster) h e f = f
only_calm x (executed cluster context command) h e f = f
only_calm x (destroyed context) h e f = f
only_calm x (submitted request) h e f = f
only_calm x run_cancelled h e f = f
only_calm x (wrote t) h e f = f
only_calm x (wrote_error t) h e f = f

pub Fresh-Only : (x : Text) (h : List Act) → Fresh h → Only x h
Fresh-Only x [] f = refl
Fresh-Only x (created cluster context ∷ h) f = ground arith
Fresh-Only x (spawned command env reply ∷ h) f = Fresh-Only x h f
Fresh-Only x (found cluster state ∷ h) f = Fresh-Only x h f
Fresh-Only x (started cluster ∷ h) f = Fresh-Only x h f
Fresh-Only x (executed cluster context command ∷ h) f = Fresh-Only x h f
Fresh-Only x (destroyed context ∷ h) f = Fresh-Only x h f
Fresh-Only x (submitted request ∷ h) f = Fresh-Only x h f
Fresh-Only x (run_cancelled ∷ h) f = Fresh-Only x h f
Fresh-Only x (wrote t ∷ h) f = Fresh-Only x h f
Fresh-Only x (wrote_error t ∷ h) f = Fresh-Only x h f

pub Only-destroyed :
    (x : Text) (later : List Text) (h : List Act)
    → Only x h
    → mem x later ≡ true
    → all_destroyed later h ≡ true
Only-destroyed x later [] f e = refl
Only-destroyed x later (created cluster context ∷ h) f e =
    ground (arith, same_iff context x, Only-destroyed x later h)
Only-destroyed x later (spawned command env reply ∷ h) f e = Only-destroyed x later h f e
Only-destroyed x later (found cluster state ∷ h) f e = Only-destroyed x later h f e
Only-destroyed x later (started cluster ∷ h) f e = Only-destroyed x later h f e
Only-destroyed x later (executed cluster context command ∷ h) f e = Only-destroyed x later h f e
Only-destroyed x later (destroyed context ∷ h) f e =
    Only-destroyed x (context ∷ later) h f (ground arith)
Only-destroyed x later (submitted request ∷ h) f e = Only-destroyed x later h f e
Only-destroyed x later (run_cancelled ∷ h) f e = Only-destroyed x later h f e
Only-destroyed x later (wrote t ∷ h) f e = Only-destroyed x later h f e
Only-destroyed x later (wrote_error t ∷ h) f e = Only-destroyed x later h f e

pub Fresh-destroyed : (later : List Text) (h : List Act) → Fresh h → all_destroyed later h ≡ true
Fresh-destroyed later [] f = refl
Fresh-destroyed later (created cluster context ∷ h) f = ground arith
Fresh-destroyed later (spawned command env reply ∷ h) f = Fresh-destroyed later h f
Fresh-destroyed later (found cluster state ∷ h) f = Fresh-destroyed later h f
Fresh-destroyed later (started cluster ∷ h) f = Fresh-destroyed later h f
Fresh-destroyed later (executed cluster context command ∷ h) f = Fresh-destroyed later h f
Fresh-destroyed later (destroyed context ∷ h) f = Fresh-destroyed (context ∷ later) h f
Fresh-destroyed later (submitted request ∷ h) f = Fresh-destroyed later h f
Fresh-destroyed later (run_cancelled ∷ h) f = Fresh-destroyed later h f
Fresh-destroyed later (wrote t ∷ h) f = Fresh-destroyed later h f
Fresh-destroyed later (wrote_error t ∷ h) f = Fresh-destroyed later h f
