-- ===== src/Execute/Main/Cluster.antt =====
-- `main` of cli.ts, the choice and the start of the cluster. A cluster is named by its id.
use databricks_vscode.Prelude.{
  Bool, true, false, ◌||◌, Option, none, some, [], ◌∷◌, ◌++◌, Text, codes, same, if◌then◌else◌,
}
use databricks_vscode.Execute.Paths.{is_likely_cluster_id}
use databricks_vscode.Execute.Main.Call.{
  Compute, serverless_compute, existing_cluster, found, started, Cli, Done, pure, act, ◌>>=◌, ◌>>◌,
  fail, or_fail, ask,
}
use databricks_vscode.Execute.Main.World.{Config, World}

-- `a ?? b`
abbrev pub or_else : Option Text → Option Text → Option Text
or_else none other = other
or_else (some s) other = some s

abbrev pub is_running : Text → Bool
is_running state = same state (codes "RUNNING") || same state (codes "RESIZING")

abbrev pub no_cluster : Text
no_cluster =
    codes
      "No cluster configured. Provide --cluster (name or id), set cluster_id / bundle.compute_id in databricks.yml target, or use --serverless for notebooks."

abbrev pub not_running : Text → Text
not_running state =
    codes "Cluster is " ++ (state ++ codes ". Start it and retry, or pass --start-cluster.")

module _ (w : World) where
  -- The cluster that an id of the bundle names; an empty one names none.
  unfoldable pub cluster_of_bundle : Option Text → Cli (Option Text)
  cluster_of_bundle none = pure none
  cluster_of_bundle (some []) = pure none
  cluster_of_bundle (some (c ∷ s)) = do id ← ask (w.cluster_by_id (c ∷ s)); pure (some id)

  abbrev pub named_cluster : Text → Cli (Option Text)
  named_cluster spec =
      if is_likely_cluster_id spec
      then (do id ← ask (w.cluster_by_id spec); pure (some id))
      else ask (w.cluster_by_name spec)

  unfoldable pub find_cluster : (spec : Option Text) → Config → Cli (Option Text)
  unfolding cluster_of_bundle
  find_cluster (some (c ∷ s)) config = named_cluster (c ∷ s)
  find_cluster _ config = cluster_of_bundle (or_else config.compute_id config.cluster_id)

  -- `cluster.refresh()`, after which the cluster has its current state.
  unfoldable pub refresh : Text → Cli Text
  refresh id = do state ← ask (w.cluster_state id); act (found id state); pure state

  unfoldable pub start_cluster_if : Bool → Text → Text → Cli Done
  start_cluster_if start_it id state =
      if start_it then (do ask (w.start id); act (started id)) else fail (not_running state)

  unfoldable pub ready_cluster : Bool → Text → Cli Done
  unfolding refresh start_cluster_if
  ready_cluster start_it id = do
    state ← refresh id
    if is_running state then pure tt else start_cluster_if start_it id state

  unfoldable pub prepare_compute :
      (serverless start_it : Bool) (spec : Option Text) → Config → Cli Compute
  unfolding find_cluster ready_cluster
  prepare_compute true start_it spec config = pure serverless_compute
  prepare_compute false start_it spec config = do
    cluster ← find_cluster spec config
    id ← or_fail cluster no_cluster
    ready_cluster start_it id
    pure (existing_cluster id)
