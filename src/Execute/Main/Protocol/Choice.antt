-- ===== src/Execute/Main/Protocol/Choice.antt =====
-- The choice and the start of the cluster keep the protocol.
use databricks_vscode.Prelude.{
  Bool, true, false, Option, none, some, List, [], ◌∷◌, Text, same_iff, ◌≡◌, refl, arith,
  Bool-cases, inl, inr,
}
use databricks_vscode.Execute.Paths.{is_likely_cluster_id}
use databricks_vscode.Execute.Main.Call.{Compute, existing_cluster, Act, act}
use databricks_vscode.Execute.Main.Holds.{
  Fact, Any, Also, Holds, >>=-Holds, pure-Holds, fail-Holds, ask-Holds, if-Holds, or_fail-Holds,
  act-Holds, weaken,
}
use databricks_vscode.Execute.Main.World.{World, Config}
use databricks_vscode.Execute.Main.Cluster
use databricks_vscode.Execute.Main.Cluster.{is_running}
use databricks_vscode.Execute.Main.Protocol.{
  any_act, is_uploaded, compute_ready, is_due, IsLawful, is_created,
}

-- What holds from the upload on.
abbrev pub Since : World → Fact → Fact
Since w F = Also (Also (IsLawful w) F) (λ h. any_act is_uploaded h ≡ true)

abbrev pub Ready : Compute → Fact
Ready compute h = compute_ready compute h ≡ true

any_act-later :
    (a : Act) (h : List Act) → any_act is_uploaded h ≡ true → any_act is_uploaded (a ∷ h) ≡ true
any_act-later a h e = elim (Bool-cases (is_uploaded a)) [ inl y ↦ rw y refl | inr n ↦ rw n e ]

-- `F` is a fact that only the creation of a context can end, `E` what holds of a run that does
-- not go on.
module _ (w : World) (F E : Fact)
    (calm : (a : Act) (h : List Act) → is_created a ≡ false → F h → F (a ∷ h)) where
  abbrev I : Fact
  I = Since w F

  pub calm_keeps :
      (a : Act) (h : List Act) → is_created a ≡ false → is_due w a h ≡ true → I h → I (a ∷ h)
  calm_keeps a h e due i = (((due, i.0.0), calm a h e i.0.1), any_act-later a h i.1)

  -- An act that needs no more than the upload and what is known.
  pub calm_act-Holds :
      {P Q : Fact} {a : Act}
      → is_created a ≡ false
      → ((h : List Act) → any_act is_uploaded h ≡ true → P h → (is_due w a h ≡ true) × Q (a ∷ h))
      → Holds I E P (act a) (λ d. Q)
  calm_act-Holds {a = a} e k =
      act-Holds I E (λ h i p. (calm_keeps a h e (k h i.1 p).0 i, (k h i.1 p).1))

  cluster_of_bundle-Holds :
      (id : Option Text) → Holds I E Any (Cluster.cluster_of_bundle w id) (λ c. Any)
  unfolding Cluster.cluster_of_bundle
  cluster_of_bundle-Holds none = pure-Holds I E
  cluster_of_bundle-Holds (some []) = pure-Holds I E
  cluster_of_bundle-Holds (some (c ∷ s)) = >>=-Holds I E (ask-Holds I E _) (λ id. pure-Holds I E)

  find_cluster-Holds :
      (spec : Option Text) (c : Config) → Holds I E Any (Cluster.find_cluster w spec c) (λ id. Any)
  unfolding Cluster.find_cluster
  find_cluster-Holds (some (c ∷ s)) config =
      if-Holds I E (is_likely_cluster_id (c ∷ s))
        (λ e. >>=-Holds I E (ask-Holds I E _) (λ id. pure-Holds I E)) (λ e. ask-Holds I E _)
  find_cluster-Holds (some []) config = cluster_of_bundle-Holds _
  find_cluster-Holds none config = cluster_of_bundle-Holds _

  refresh-Holds :
      (id : Text)
      → Holds I E Any
          (Cluster.refresh w id)
          (λ state h. is_running state ≡ true → Ready (existing_cluster id) h)
  unfolding Cluster.refresh
  refresh-Holds id = >>=-Holds I E (ask-Holds I E _) (λ state.
      >>=-Holds I E
        (calm_act-Holds {Q = λ h. is_running state ≡ true → Ready (existing_cluster id) h} refl
          (λ h u p. (refl, λ running. ground (arith, (same_iff id id).1 refl))))
        (λ d. pure-Holds I E))

  ready_cluster-Holds :
      (start_it : Bool) (id : Text)
      → Holds I E Any (Cluster.ready_cluster w start_it id) (λ d. Ready (existing_cluster id))
  unfolding Cluster.ready_cluster Cluster.start_cluster_if
  ready_cluster-Holds start_it id = >>=-Holds I E (refresh-Holds id) (λ state.
      if-Holds I E (is_running state)
        (λ running.
          weaken I E (pure-Holds I E {Q = λ d. Ready (existing_cluster id)}) (λ h k. k running)
            (λ a h q. q))
        (λ stopped.
          if-Holds I E start_it
            (λ e.
              >>=-Holds I E (ask-Holds I E _)
                (λ d. calm_act-Holds refl (λ h u p. (u, ground (arith, (same_iff id id).1 refl)))))
            (λ e. fail-Holds I E _)))

  pub prepare_compute-Holds :
      (serverless start_it : Bool) (spec : Option Text) (c : Config)
      → Holds I E Any (Cluster.prepare_compute w serverless start_it spec c) Ready
  unfolding Cluster.prepare_compute
  prepare_compute-Holds true start_it spec c =
      weaken I E (pure-Holds I E {Q = Ready}) (λ h p. refl) (λ a h q. q)
  prepare_compute-Holds false start_it spec c =
      >>=-Holds I E (find_cluster-Holds spec c) (λ cluster.
        >>=-Holds I E (or_fail-Holds I E cluster _ (λ id e h p. p))
          (λ id. >>=-Holds I E (ready_cluster-Holds start_it id) (λ d. pure-Holds I E)))
