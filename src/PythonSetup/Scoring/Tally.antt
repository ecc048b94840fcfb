-- ===== src/PythonSetup/Scoring/Tally.antt =====
-- The scores: each source counts at most once for a version, whatever the order of the
-- observations.
use databricks_vscode.Prelude.{
  ℕ, ◌+◌, ◌≡◌, refl, Bool, true, false, ◌&&◌, ◌||◌, Option, none, some, List, [], ◌∷◌, ◌++◌, Text,
  codes, same, same_iff, if◌then◌else◌, arith,
}
use mathlib.Core.Path.{fun_ext, subst}
use mathlib.Core.Bool.{or-false, or_assoc, true-and, false-and}
use databricks_vscode.PythonSetup.Scoring.{
  VersionSource, pyproject, bundle_yaml, notebook, workspace_default, fallback, ScoredVersion,
  VersionObservation, fallback_version, is_supported_version, source_eq, includes_source,
  corroborate, unbacked, count_observation, count_all, supported, seeds, tally,
}

-- An observation of the version from the source is among them.
abbrev pub observed : Text → List VersionObservation → VersionSource → Bool
observed v [] s = false
observed v (o ∷ os) s = same o.version v && source_eq o.source s || observed v os s

abbrev pub find : Text → List ScoredVersion → Option ScoredVersion
find v [] = none
find v (e ∷ es) = if same e.version v then some e else find v es

abbrev pub worth : Bool → ℕ → ℕ
worth true w = w
worth false w = 0

-- The weights of the sources that were seen.
abbrev pub total : (VersionSource → Bool) → ℕ
total seen =
    worth (seen pyproject) 200
    + worth (seen bundle_yaml) 100
    + worth (seen notebook) 50
    + worth (seen workspace_default) 20
    + worth (seen fallback) 1

-- The entry has the score of the sources seen, and lists exactly them.
pub record Fits (seen : VersionSource → Bool) (e : ScoredVersion) : Type 0 where
  pub score : e.score ≡ total seen
  pub lists_pyproject : includes_source pyproject e.sources ≡ seen pyproject
  pub lists_bundle_yaml : includes_source bundle_yaml e.sources ≡ seen bundle_yaml
  pub lists_notebook : includes_source notebook e.sources ≡ seen notebook
  pub lists_workspace_default : includes_source workspace_default e.sources ≡ seen workspace_default
  pub lists_fallback : includes_source fallback e.sources ≡ seen fallback

includes_source-push :
    (s t : VersionSource) (ss : List VersionSource)
    → includes_source s (ss ++ t ∷ []) ≡ (includes_source s ss || source_eq t s)
includes_source-push s t [] = or-false (source_eq t s)
includes_source-push s t (u ∷ ss) = simp (includes_source-push s t ss, or_assoc)

corroborate-Fits :
    (t : VersionSource) (seen : VersionSource → Bool) (e : ScoredVersion)
    → Fits seen e
    → Fits (λ s. seen s || source_eq t s) (corroborate t e)
unfolding corroborate
corroborate-Fits pyproject seen e f = ground (
  arith,
  includes_source-push pyproject pyproject e.sources,
  includes_source-push bundle_yaml pyproject e.sources,
  includes_source-push notebook pyproject e.sources,
  includes_source-push workspace_default pyproject e.sources,
  includes_source-push fallback pyproject e.sources,
)
corroborate-Fits t seen e f = ground (
  arith,
  includes_source-push pyproject t e.sources,
  includes_source-push bundle_yaml t e.sources,
  includes_source-push notebook t e.sources,
  includes_source-push workspace_default t e.sources,
  includes_source-push fallback t e.sources,
)

corroborate-version :
    (t : VersionSource) (e : ScoredVersion) → (corroborate t e).version ≡ e.version
unfolding corroborate
corroborate-version t e = ground arith

same_refl : (v : Text) → same v v ≡ true
same_refl v = (same_iff v v).1 refl

find-count_observation :
    (v : Text) (o : VersionObservation) (es : List ScoredVersion) (e : ScoredVersion)
    → find v es ≡ some e
    → find v (count_observation o es)
      ≡ some (if same o.version v then corroborate o.source e else e)
unfolding count_observation
find-count_observation v o [] e h = cc
find-count_observation v o (x ∷ es) e h = ground (
  arith,
  same_iff x.version o.version,
  same_iff x.version v,
  same_iff o.version v,
  corroborate-version o.source x,
  find-count_observation v o es e,
)

-- What one more observation adds to the sources seen for a version.
abbrev also : Text → VersionObservation → (VersionSource → Bool) → VersionSource → Bool
also v o seen s = seen s || same o.version v && source_eq o.source s

also-Fits_at :
    (b : Bool) (t : VersionSource) (seen : VersionSource → Bool) (e : ScoredVersion)
    → Fits seen e
    → Fits (λ s. seen s || b && source_eq t s) (if b then corroborate t e else e)
also-Fits_at true t seen e f = simp true-and (corroborate-Fits t seen e f)
also-Fits_at false t seen e f = simp (false-and, or-false) f

also-Fits :
    (v : Text) (o : VersionObservation) (seen : VersionSource → Bool) (e : ScoredVersion)
    → Fits seen e
    → Fits (also v o seen) (if same o.version v then corroborate o.source e else e)
also-Fits v o seen e f = also-Fits_at (same o.version v) o.source seen e f

count_all-Fits :
    (v : Text) (os : List VersionObservation) (entries : List ScoredVersion)
    (seen : VersionSource → Bool) (e : ScoredVersion)
    → find v entries ≡ some e
    → Fits seen e
    → (e' : ScoredVersion) × (find v (count_all os entries) ≡ some e')
      × Fits (λ s. seen s || observed v os s) e'
unfolding count_all
count_all-Fits v [] entries seen e h f = (e, h, simp or-false f)
count_all-Fits v (o ∷ os) entries seen e h f =
    let (e', found, f') =
      count_all-Fits v os (count_observation o entries) (also v o seen) _
        (find-count_observation v o entries e h) (also-Fits v o seen e f) in
    (e', found, simp (← or_assoc) f')

supported-observed :
    (v : Text) (os : List VersionObservation) (last : VersionObservation) (s : VersionSource)
    → is_supported_version v ≡ true
    → observed v (supported os ++ last ∷ []) s ≡ observed v (os ++ last ∷ []) s
unfolding supported
supported-observed v [] last s h = refl
supported-observed v (o ∷ os) last s h =
    ground (arith, same_iff o.version v, supported-observed v os last s)

-- The observation that is always added.
abbrev pub fallback_observation : VersionObservation
fallback_observation = record { version = fallback_version; source = fallback }

-- The versions from 1 to 5, as the code spells them.
pub data IsOffered : Text → Type 0 where
  one : IsOffered (codes "1")
  two : IsOffered (codes "2")
  three : IsOffered (codes "3")
  four : IsOffered (codes "4")
  five : IsOffered (codes "5")

offered_supported :
    (v : Text) → IsOffered v → (is_supported_version v ≡ true) × (find v seeds ≡ some (unbacked v))
unfolding is_supported_version
offered_supported v one = (refl, refl)
offered_supported v two = (refl, refl)
offered_supported v three = (refl, refl)
offered_supported v four = (refl, refl)
offered_supported v five = (refl, refl)

-- Each version from 1 to 5 has an entry. Its score is the sum of the weights of the sources that
-- observed it, each counted once, in whatever order and however often they did; version 5 is also
-- observed by the fallback.
pub tally-Fits :
    (observations : List VersionObservation) (v : Text)
    → IsOffered v
    → (e : ScoredVersion) × (find v (tally observations) ≡ some e)
      × Fits (observed v (observations ++ fallback_observation ∷ [])) e
unfolding tally
tally-Fits observations v offer =
    let (ok, seeded) = offered_supported v offer in
    let (e, found, fits) =
      count_all-Fits v (supported observations ++ fallback_observation ∷ []) seeds (λ s. false)
        (unbacked v) seeded
        (record {
          score = refl;
          lists_pyproject = refl;
          lists_bundle_yaml = refl;
          lists_notebook = refl;
          lists_workspace_default = refl;
          lists_fallback = refl;
        }) in
    (
      e,
      found,
      subst (λ seen. Fits seen e)
          (fun_ext (λ s. supported-observed v observations fallback_observation s ok)) fits,
    )
