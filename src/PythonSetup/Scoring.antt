-- ===== src/PythonSetup/Scoring.antt =====
-- python-setup/utils/serverlessVersionScoring.ts. A version is the list of its characters; `Map` is
-- the list of its entries in the order of their insertion, and `sort` is a stable insertion sort.
pub mod Tally
pub mod Ranking
pub mod Leader
use databricks_vscode.Prelude.{
  ℕ, ◌+◌, Bool, true, false, not, ◌&&◌, ◌||◌, List, [], ◌∷◌, ◌++◌, Text, codes, same, leb, ltb,
  decimal, parse_decimal, all_digits, if◌then◌else◌, ◌==◌,
}

pub data VersionSource : Type 0 where
  pyproject bundle_yaml notebook workspace_default fallback : VersionSource

pub record ScoredVersion : Type 0 where
  pub version : Text
  pub score : ℕ
  pub sources : List VersionSource

pub record VersionObservation : Type 0 where
  pub version : Text
  pub source : VersionSource

abbrev pub weights : VersionSource → ℕ
weights pyproject = 200
weights bundle_yaml = 100
weights notebook = 50
weights workspace_default = 20
weights fallback = 1

abbrev pub fallback_version : Text
fallback_version = codes "5"

abbrev pub min_supported_version : ℕ
min_supported_version = 1

abbrev pub max_supported_version : ℕ
max_supported_version = 5

abbrev is_empty : Text → Bool
is_empty [] = true
is_empty (c ∷ s) = false

-- `parseInt` and `String` agree with the numbers of the program below 2 ^ 53; above, the range test
-- fails either way.
unfoldable pub is_supported_version : Text → Bool
unfolding decimal parse_decimal
is_supported_version version =
    if not (is_empty version) && all_digits version
    then (let n = parse_decimal version in
        same (decimal n) version && (leb min_supported_version n && leb n max_supported_version))
    else false

abbrev pub source_eq : VersionSource → VersionSource → Bool
source_eq pyproject pyproject = true
source_eq bundle_yaml bundle_yaml = true
source_eq notebook notebook = true
source_eq workspace_default workspace_default = true
source_eq fallback fallback = true
source_eq _ _ = false

abbrev pub includes_source : VersionSource → List VersionSource → Bool
includes_source source [] = false
includes_source source (s ∷ ss) = source_eq s source || includes_source source ss

-- Each source backs a version at most once.
unfoldable pub corroborate : VersionSource → ScoredVersion → ScoredVersion
corroborate source entry = if includes_source source entry.sources then entry else record entry {
  score = entry.score + weights source;
  sources = entry.sources ++ source ∷ [];
}

abbrev pub unbacked : Text → ScoredVersion
unbacked version = record { version = version; score = 0; sources = [] }

-- One round of the loop: `get`, the update, and `set`.
unfoldable pub count_observation : VersionObservation → List ScoredVersion → List ScoredVersion
unfolding corroborate
count_observation o [] = corroborate o.source (unbacked o.version) ∷ []
count_observation o (entry ∷ entries) =
    if same entry.version o.version
    then corroborate o.source entry ∷ entries
    else entry ∷ count_observation o entries

unfoldable pub count_all : List VersionObservation → List ScoredVersion → List ScoredVersion
count_all [] entries = entries
count_all (o ∷ os) entries = count_all os (count_observation o entries)

unfoldable pub supported : List VersionObservation → List VersionObservation
supported [] = []
supported (o ∷ os) = if is_supported_version o.version then o ∷ supported os else supported os

-- The loop from the lowest to the highest supported version.
abbrev pub seeds : List ScoredVersion
seeds =
    unbacked (codes "1")
    ∷ unbacked (codes "2")
    ∷ unbacked (codes "3")
    ∷ unbacked (codes "4")
    ∷ unbacked (codes "5")
    ∷ []

-- `byVersion` when it is complete.
unfoldable pub tally : List VersionObservation → List ScoredVersion
unfolding count_all
tally observations =
    count_all
      (supported observations ++ record { version = fallback_version; source = fallback } ∷ [])
      seeds

-- The comparison puts `a` no later than `b`.
unfoldable pub precedes : ScoredVersion → ScoredVersion → Bool
precedes a b =
    if a.score == b.score
    then leb (parse_decimal b.version) (parse_decimal a.version)
    else ltb b.score a.score

unfoldable pub insert : ScoredVersion → List ScoredVersion → List ScoredVersion
insert x [] = x ∷ []
insert x (y ∷ ys) = if precedes x y then x ∷ y ∷ ys else y ∷ insert x ys

unfoldable pub sort : List ScoredVersion → List ScoredVersion
unfolding insert precedes
sort [] = []
sort (x ∷ xs) = insert x (sort xs)

unfoldable pub score_serverless_versions : List VersionObservation → List ScoredVersion
unfolding tally sort
score_serverless_versions observations = sort (tally observations)
