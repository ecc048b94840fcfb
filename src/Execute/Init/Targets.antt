-- ===== src/Execute/Init/Targets.antt =====
-- What `init` leaves of a document.
use databricks_vscode.Prelude.{
  false, Option, none, some, List, [], ◌∷◌, Text, codes, same, same_iff, if◌then◌else◌, ◌≡◌, refl,
  arith, ℕ,
}
use databricks_vscode.Execute.Paths.{normalize_host}
use databricks_vscode.Execute.Init.{
  InitOptions, Target, Entry, made, Document, updated, set_entry, add_target, entries_of, run_init,
  or_text, with_host, with_cluster, write_document,
}

module _ {V : Type 0} where
  -- The entry of a name.
  abbrev pub entry_of : Text → List (Text × Entry V) → Option (Entry V)
  entry_of name [] = none
  entry_of name ((k, e) ∷ entries) = if same k name then some e else entry_of name entries

  entry_of-set_entry :
      (name : Text) (e : Entry V) (entries : List (Text × Entry V))
      → entry_of name (set_entry name e entries) ≡ some e
  unfolding set_entry
  entry_of-set_entry name e [] = ground (arith, same_iff name name)
  entry_of-set_entry name e ((k, f) ∷ entries) = ground (arith, entry_of-set_entry name e entries)

  entry_of-set_other :
      (name other : Text) (e : Entry V) (entries : List (Text × Entry V))
      → same name other ≡ false
      → entry_of other (set_entry name e entries) ≡ entry_of other entries
  unfolding set_entry
  entry_of-set_other name other e [] h = rw h refl
  entry_of-set_other name other e ((k, f) ∷ entries) h = ground (
    arith,
    same_iff k name,
    same_iff name other,
    same_iff k other,
    entry_of-set_other name other e entries h,
  )

  -- If the file holds a document, and a host and a cluster are given or answered, then `init` writes
  -- a document with that target for the cluster and the host, with every other target as it was, and
  -- with all that is not a target as it was.
  pub init_keeps :
      (parse : Text → Option (Document V)) (raw dir answer_host answer_cluster : Text)
      (o : InitOptions) (d : Document V) (c k : ℕ) (host cluster other : Text)
      → parse raw ≡ some d
      → or_text o.host answer_host ≡ c ∷ host
      → or_text o.cluster answer_cluster ≡ k ∷ cluster
      → same (or_text o.target (codes "dbexec")) other ≡ false
      → (d' : Document V) × (run_init parse (some raw) dir answer_host answer_cluster o
          ≡ updated d')
        × (d'.others ≡ d.others)
        × (entry_of (or_text o.target (codes "dbexec")) (entries_of d'.targets)
            ≡ some (made (record { cluster_id = k ∷ cluster; host = normalize_host (c ∷ host) })))
        × (entry_of other (entries_of d'.targets) ≡ entry_of other (entries_of d.targets))
  unfolding run_init with_host with_cluster write_document add_target
  init_keeps parse raw dir answer_host answer_cluster o d c k host cluster other p h l different =
      let t : Target = record { cluster_id = k ∷ cluster; host = normalize_host (c ∷ host) } in
      let name = or_text o.target (codes "dbexec") in
      (
        add_target name t d,
        rw (h, l, p) refl,
        refl,
        entry_of-set_entry name (made t) (entries_of d.targets),
        entry_of-set_other name other (made t) (entries_of d.targets) different,
      )
