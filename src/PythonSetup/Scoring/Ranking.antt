-- ===== src/PythonSetup/Scoring/Ranking.antt =====
-- The order of the candidates.
use mathlib.Core.List.{Perm}
use mathlib.Core.List.Perm
use databricks_vscode.Prelude.{
  ℕ, ◌≡◌, ◌≤◌, ◌<◌, refl, ◌∙◌, true, false, List, [], ◌∷◌, ◌++◌, Text, codes, decimal,
  parse_decimal, same, same_iff, any, zero, suc, arith, Bool-cases, inl, inr, ◌⊎◌, All, map,
}
use mathlib.Core.Path.{subst}
use databricks_vscode.PythonSetup.Scoring.Tally.{
  IsOffered, one, two, three, four, five, fallback_observation,
}
use databricks_vscode.PythonSetup.Scoring.{
  ScoredVersion, VersionObservation, tally, precedes, insert, sort, score_serverless_versions,
  supported, seeds, corroborate, count_observation, count_all, is_supported_version,
}

-- `a` has more weight than `b`, or as much and a version at least as high.
abbrev pub Ranks : ScoredVersion → ScoredVersion → Type 0
Ranks a b =
    (b.score < a.score)
    ⊎ ((a.score ≡ b.score) × (parse_decimal b.version ≤ parse_decimal a.version))

abbrev pub IsRanked : List ScoredVersion → Type 0
IsRanked [] = Unit
IsRanked (x ∷ xs) = All (Ranks x) xs × IsRanked xs

precedes-Ranks : (a b : ScoredVersion) → precedes a b ≡ true → Ranks a b
unfolding precedes
precedes-Ranks a b h = ground arith

not_precedes-Ranks : (a b : ScoredVersion) → precedes a b ≡ false → Ranks b a
unfolding precedes
not_precedes-Ranks a b h = ground arith

Ranks-trans : (a b c : ScoredVersion) → Ranks a b → Ranks b c → Ranks a c
Ranks-trans a b c h k = ground arith

All-Ranks :
    (a b : ScoredVersion) (l : List ScoredVersion) → Ranks a b → All (Ranks b) l → All (Ranks a) l
All-Ranks a b [] h k = tt
All-Ranks a b (c ∷ l) h k = (Ranks-trans a b c h k.0, All-Ranks a b l h k.1)

All-insert :
    (a x : ScoredVersion) (l : List ScoredVersion)
    → Ranks a x
    → All (Ranks a) l
    → All (Ranks a) (insert x l)
unfolding insert
All-insert a x [] h k = (h, tt)
All-insert a x (y ∷ l) h k = elim (Bool-cases (precedes x y)) [
  | inl first ↦ rw first (h, k)
  | inr later ↦ rw later (k.0, All-insert a x l h k.1)
]

insert-IsRanked : (x : ScoredVersion) (l : List ScoredVersion) → IsRanked l → IsRanked (insert x l)
unfolding insert
insert-IsRanked x [] r = (tt, tt)
insert-IsRanked x (y ∷ l) r = elim (Bool-cases (precedes x y)) [
  | inl first ↦
      rw first ((precedes-Ranks x y first, All-Ranks x y l (precedes-Ranks x y first) r.0), r)
  | inr later ↦
      rw later (All-insert y x l (not_precedes-Ranks x y later) r.0, insert-IsRanked x l r.1)
]

insert-perm : (x : ScoredVersion) (l : List ScoredVersion) → Perm (insert x l) (x ∷ l)
unfolding insert
insert-perm x [] = Perm.refl (x ∷ [])
insert-perm x (y ∷ l) = elim (Bool-cases (precedes x y)) [
  | inl first ↦ rw first (Perm.refl (x ∷ y ∷ l))
  | inr later ↦ rw later (Perm.trans (Perm.cons y (insert-perm x l)) (Perm.swap x y l))
]

sort-IsRanked : (l : List ScoredVersion) → IsRanked (sort l)
unfolding sort
sort-IsRanked [] = tt
sort-IsRanked (x ∷ l) = insert-IsRanked x (sort l) (sort-IsRanked l)

sort-perm : (l : List ScoredVersion) → Perm (sort l) l
unfolding sort
sort-perm [] = Perm.refl []
sort-perm (x ∷ l) = Perm.trans (insert-perm x (sort l)) (Perm.cons x (sort-perm l))

abbrev versions : List ScoredVersion → List Text
versions = map (λ e. e.version)

count_observation-versions :
    (o : VersionObservation) (es : List ScoredVersion)
    → any (λ v. same v o.version) (versions es) ≡ true
    → versions (count_observation o es) ≡ versions es
unfolding count_observation corroborate
count_observation-versions o [] h = cc
count_observation-versions o (e ∷ es) h = ground (arith, count_observation-versions o es)

offered_of_number : (n : ℕ) → 1 ≤ n → n ≤ 5 → IsOffered (decimal n)
unfolding decimal
offered_of_number zero h k = absurd (omega arith)
offered_of_number (suc zero) h k = one
offered_of_number (suc (suc zero)) h k = two
offered_of_number (suc (suc (suc zero))) h k = three
offered_of_number (suc (suc (suc (suc zero)))) h k = four
offered_of_number (suc (suc (suc (suc (suc zero))))) h k = five
offered_of_number (suc (suc (suc (suc (suc (suc n)))))) h k = absurd (omega arith)

-- A version that is supported is one of the texts "1" to "5".
pub is_supported_version_sound : (v : Text) → is_supported_version v ≡ true → IsOffered v
unfolding is_supported_version
is_supported_version_sound v h =
    subst IsOffered (ground (arith, same_iff (decimal (parse_decimal v)) v))
      (offered_of_number (parse_decimal v) (ground arith) (ground arith))

offered_listed : (v : Text) → IsOffered v → any (λ u. same u v) (versions seeds) ≡ true
offered_listed v one = refl
offered_listed v two = refl
offered_listed v three = refl
offered_listed v four = refl
offered_listed v five = refl

count_one :
    (o : VersionObservation) (es : List ScoredVersion)
    → IsOffered o.version
    → versions es ≡ versions seeds
    → versions (count_observation o es) ≡ versions seeds
count_one o es offer h = count_observation-versions o es (rw h (offered_listed o.version offer)) ∙ h

count_all-versions :
    (os : List VersionObservation) (last : VersionObservation) (es : List ScoredVersion)
    → IsOffered last.version
    → versions es ≡ versions seeds
    → versions (count_all (supported os ++ last ∷ []) es) ≡ versions seeds
unfolding count_all supported
count_all-versions [] last es offer h = count_one last es offer h
count_all-versions (o ∷ os) last es offer h = elim (Bool-cases (is_supported_version o.version)) [
  | inl ok ↦ rw ok (
      count_all-versions os last (count_observation o es) offer
        (count_one o es (is_supported_version_sound o.version ok) h))
  | inr other ↦ rw other (count_all-versions os last es offer h)
]

-- The candidates are the entries of the tally, each once, by falling score and, at equal scores, by
-- falling version. They are the versions 1 to 5, whatever was observed.
pub candidates-IsRanked :
    (observations : List VersionObservation)
    → IsRanked (score_serverless_versions observations)
      × Perm (score_serverless_versions observations) (tally observations)
      × (map (λ e. e.version) (tally observations)
          ≡ codes "1" ∷ codes "2" ∷ codes "3" ∷ codes "4" ∷ codes "5" ∷ [])
unfolding score_serverless_versions tally
candidates-IsRanked observations = (
  sort-IsRanked (tally observations),
  sort-perm (tally observations),
  count_all-versions observations fallback_observation seeds five refl,
)
