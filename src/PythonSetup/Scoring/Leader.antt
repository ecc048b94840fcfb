-- ===== src/PythonSetup/Scoring/Leader.antt =====
-- Which candidate comes first.
use databricks_vscode.Prelude.{
  ◌≡◌, ◌≤◌, ◌<◌, refl, ap, ◌∙◌, true, false, ◌&&◌, ◌||◌, Option, none, some, List, [], ◌∷◌, ◌++◌,
  Text, codes, same, same_iff, map, arith, Bool-cases, inl, inr, All, All-imp,
}
use databricks_vscode.PythonSetup.Scoring.Tally.{
  IsOffered, one, two, three, four, five, fallback_observation, observed, find, Fits, tally-Fits,
}
use databricks_vscode.PythonSetup.Scoring.Ranking.{candidates-IsRanked}
use databricks_vscode.PythonSetup.Scoring.{
  VersionSource, pyproject, ScoredVersion, VersionObservation, tally, precedes, insert, sort,
  score_serverless_versions, source_eq,
}

abbrev pub head : List ScoredVersion → Option ScoredVersion
head [] = none
head (x ∷ xs) = some x

abbrev Below : ScoredVersion → ScoredVersion → Type 0
Below e x = x.score < e.score

insert-Below :
    (e x : ScoredVersion) (l : List ScoredVersion)
    → Below e x
    → All (Below e) l
    → All (Below e) (insert x l)
unfolding insert
insert-Below e x [] h k = (h, tt)
insert-Below e x (y ∷ l) h (k, ks) = elim (Bool-cases (precedes x y)) [
  | inl first ↦ rw first (h, (k, ks))
  | inr later ↦ rw later (k, insert-Below e x l h ks)
]

sort-Below : (e : ScoredVersion) (l : List ScoredVersion) → All (Below e) l → All (Below e) (sort l)
unfolding sort
sort-Below e [] h = tt
sort-Below e (x ∷ l) (h, hs) = insert-Below e x (sort l) h (sort-Below e l hs)

insert-leads :
    (e : ScoredVersion) (l : List ScoredVersion) → All (Below e) l → head (insert e l) ≡ some e
unfolding insert precedes
insert-leads e [] h = refl
insert-leads e (y ∷ l) (h, hs) = ground (arith, h)

insert-behind :
    (e x : ScoredVersion) (l : List ScoredVersion)
    → Below e x
    → head l ≡ some e
    → head (insert x l) ≡ some e
unfolding insert precedes
insert-behind e x [] h k = ground (arith, k)
insert-behind e x (y ∷ l) h k = ground (arith, h, k)

-- The entry above all others comes first.
sort-leads :
    (l : List ScoredVersion) (e : ScoredVersion) (m : List ScoredVersion)
    → All (Below e) l
    → All (Below e) m
    → head (sort (l ++ e ∷ m)) ≡ some e
unfolding sort
sort-leads [] e m h k = insert-leads e (sort m) (sort-Below e m k)
sort-leads (x ∷ l) e m (h, hs) k = insert-behind e x (sort (l ++ e ∷ m)) h (sort-leads l e m hs k)

-- The observations from one source.
abbrev pub Only : Text → List VersionObservation → Type 0
Only v os = (u : Text) → same u v ≡ false → observed u os pyproject ≡ false

observed-append :
    (v : Text) (s : VersionSource) (os : List VersionObservation) (o : VersionObservation)
    → observed v (os ++ o ∷ []) s ≡ (observed v os s || same o.version v && source_eq o.source s)
observed-append v s [] o = ground arith
observed-append v s (p ∷ os) o = ground (arith, observed-append v s os o)

high :
    (v : Text) (os : List VersionObservation) (e : ScoredVersion)
    → observed v os pyproject ≡ true
    → Fits (observed v (os ++ fallback_observation ∷ [])) e
    → 200 ≤ e.score
high v os e h f = ground (arith, h, f.score, observed-append v pyproject os fallback_observation)

low :
    (v : Text) (os : List VersionObservation) (e : ScoredVersion)
    → observed v os pyproject ≡ false
    → Fits (observed v (os ++ fallback_observation ∷ [])) e
    → e.score ≤ 171
low v os e h f = ground (arith, h, f.score, observed-append v pyproject os fallback_observation)

entry_high :
    (os : List VersionObservation) (v : Text)
    → IsOffered v
    → observed v os pyproject ≡ true
    → (e : ScoredVersion) × (find v (tally os) ≡ some e) × (200 ≤ e.score)
entry_high os v offer h =
    let (e, found, fits) = tally-Fits os v offer in (e, found, high v os e h fits)

entry_low :
    (os : List VersionObservation) (v u : Text)
    → IsOffered u
    → same u v ≡ false
    → Only v os
    → (e : ScoredVersion) × (find u (tally os) ≡ some e) × (e.score ≤ 171)
entry_low os v u offer other only =
    let (e, found, fits) = tally-Fits os u offer in (e, found, low u os e (only u other) fits)

abbrev five_versions : List Text
five_versions = codes "1" ∷ codes "2" ∷ codes "3" ∷ codes "4" ∷ codes "5" ∷ []

find-version :
    (v : Text) (l : List ScoredVersion) (e : ScoredVersion) → find v l ≡ some e → e.version ≡ v
find-version v [] e h = ground (arith, h)
find-version v (x ∷ l) e h = ground (arith, h, same_iff x.version v, find-version v l e)

-- The entries of a tally are those that are found for the five versions.
entries_found :
    (l : List ScoredVersion) (a b c d e : ScoredVersion)
    → map (λ x. x.version) l ≡ five_versions
    → find (codes "1") l ≡ some a
    → find (codes "2") l ≡ some b
    → find (codes "3") l ≡ some c
    → find (codes "4") l ≡ some d
    → find (codes "5") l ≡ some e
    → l ≡ a ∷ b ∷ c ∷ d ∷ e ∷ []
entries_found [] a b c d e h f g i j k = ground (arith, h)
entries_found (p ∷ []) a b c d e h f g i j k = ground (arith, h)
entries_found (p ∷ q ∷ []) a b c d e h f g i j k = ground (arith, h)
entries_found (p ∷ q ∷ r ∷ []) a b c d e h f g i j k = ground (arith, h)
entries_found (p ∷ q ∷ r ∷ s ∷ []) a b c d e h f g i j k = ground (arith, h)
entries_found (p ∷ q ∷ r ∷ s ∷ t ∷ []) a b c d e h f g i j k = ground (arith, h, f, g, i, j, k)
entries_found (p ∷ q ∷ r ∷ s ∷ t ∷ u ∷ l) a b c d e h f g i j k = ground (arith, h)

abbrev Low : ScoredVersion → Type 0
Low x = x.score ≤ 171

Low-Below :
    (e : ScoredVersion) (l : List ScoredVersion) → 200 ≤ e.score → All Low l → All (Below e) l
Low-Below e l hi low_l = All-imp (λ x h. omega (arith, hi, h)) l low_l

-- A candidate that comes first, with its version.
abbrev pub Leads : Text → List ScoredVersion → Type 0
Leads v l = (e : ScoredVersion) × (head l ≡ some e) × (e.version ≡ v)

leads_between :
    (os : List VersionObservation) (l m : List ScoredVersion) (e : ScoredVersion) (v : Text)
    → tally os ≡ l ++ e ∷ m
    → find v (tally os) ≡ some e
    → 200 ≤ e.score
    → All Low l
    → All Low m
    → Leads v (sort (tally os))
leads_between os l m e v split found hi before behind = (
  e,
  ap (λ k. head (sort k)) split
      ∙ sort-leads l e m (Low-Below e l hi before) (Low-Below e m hi behind),
  find-version v (tally os) e found,
)

leader :
    (os : List VersionObservation) (v : Text)
    → IsOffered v
    → observed v os pyproject ≡ true
    → Only v os
    → Leads v (sort (tally os))
leader os v one h only =
    let (a, f, hi) = entry_high os v one h in
    let (b, g, low_b) = entry_low os v (codes "2") two refl only in
    let (c, found_c, low_c) = entry_low os v (codes "3") three refl only in
    let (d, i, low_d) = entry_low os v (codes "4") four refl only in
    let (e, j, low_e) = entry_low os v (codes "5") five refl only in
    leads_between os [] (b ∷ c ∷ d ∷ e ∷ []) a v
      (entries_found (tally os) a b c d e (candidates-IsRanked os).2 f g found_c i j) f hi tt
      (low_b, (low_c, (low_d, (low_e, tt))))
leader os v two h only =
    let (a, f, low_a) = entry_low os v (codes "1") one refl only in
    let (b, g, hi) = entry_high os v two h in
    let (c, found_c, low_c) = entry_low os v (codes "3") three refl only in
    let (d, i, low_d) = entry_low os v (codes "4") four refl only in
    let (e, j, low_e) = entry_low os v (codes "5") five refl only in
    leads_between os (a ∷ []) (c ∷ d ∷ e ∷ []) b v
      (entries_found (tally os) a b c d e (candidates-IsRanked os).2 f g found_c i j) g hi
      (low_a, tt) (low_c, (low_d, (low_e, tt)))
leader os v three h only =
    let (a, f, low_a) = entry_low os v (codes "1") one refl only in
    let (b, g, low_b) = entry_low os v (codes "2") two refl only in
    let (c, found_c, hi) = entry_high os v three h in
    let (d, i, low_d) = entry_low os v (codes "4") four refl only in
    let (e, j, low_e) = entry_low os v (codes "5") five refl only in
    leads_between os (a ∷ b ∷ []) (d ∷ e ∷ []) c v
      (entries_found (tally os) a b c d e (candidates-IsRanked os).2 f g found_c i j) found_c hi
      (low_a, (low_b, tt)) (low_d, (low_e, tt))
leader os v four h only =
    let (a, f, low_a) = entry_low os v (codes "1") one refl only in
    let (b, g, low_b) = entry_low os v (codes "2") two refl only in
    let (c, found_c, low_c) = entry_low os v (codes "3") three refl only in
    let (d, i, hi) = entry_high os v four h in
    let (e, j, low_e) = entry_low os v (codes "5") five refl only in
    leads_between os (a ∷ b ∷ c ∷ []) (e ∷ []) d v
      (entries_found (tally os) a b c d e (candidates-IsRanked os).2 f g found_c i j) i hi
      (low_a, (low_b, (low_c, tt))) (low_e, tt)
leader os v five h only =
    let (a, f, low_a) = entry_low os v (codes "1") one refl only in
    let (b, g, low_b) = entry_low os v (codes "2") two refl only in
    let (c, found_c, low_c) = entry_low os v (codes "3") three refl only in
    let (d, i, low_d) = entry_low os v (codes "4") four refl only in
    let (e, j, hi) = entry_high os v five h in
    leads_between os (a ∷ b ∷ c ∷ d ∷ []) [] e v
      (entries_found (tally os) a b c d e (candidates-IsRanked os).2 f g found_c i j) j hi
      (low_a, (low_b, (low_c, (low_d, tt)))) tt

-- The version of the pyproject file comes first, whatever the bundle, the notebooks and the workspace
-- say: a version from 1 to 5 that was observed there, where no other version was, leads the
-- candidates.
pub pyproject_leads :
    (os : List VersionObservation) (v : Text)
    → IsOffered v
    → observed v os pyproject ≡ true
    → Only v os
    → Leads v (score_serverless_versions os)
unfolding score_serverless_versions
pyproject_leads os v offer h only = leader os v offer h only
