-- ===== src/Sdk/Runtime/Versions.antt =====
-- What is read from the version of a runtime.
use databricks_vscode.Prelude.{
  ℕ, ◌≡◌, refl, sym, ap, ◌∙◌, true, false, ◌||◌, none, some, [], ◌∷◌, ◌++◌, Text, codes, has,
  drop_prefix, parse_decimal, parse-decimal, decimal, all_digits, all_digits-decimal, is_digit,
  append_assoc, arith,
}
use databricks_vscode.BundleRun.Job.{leading_digits}
use databricks_vscode.Sdk.Runtime.{
  before_dash, behind_custom, first_of, match_version, split_dots, nonzero, number_of, part_number,
  version_of, version_of_match, dbr_version, from_8_4, support_files_in_repos,
}

has-append : (c : ℕ) (s t : Text) → has c (s ++ t) ≡ (has c s || has c t)
has-append c [] t = refl
has-append c (d ∷ s) t = ground (arith, has-append c s t)

has-digits : (c : ℕ) (s : Text) → is_digit c ≡ false → all_digits s ≡ true → has c s ≡ false
has-digits c [] h k = refl
has-digits c (d ∷ s) h k = ground (arith, h, k, has-digits c s h (ground arith))

before_dash-plain : (s rest : Text) → has b'-' s ≡ false → before_dash (s ++ b'-' ∷ rest) ≡ some s
unfolding before_dash
before_dash-plain [] rest h = refl
before_dash-plain (c ∷ s) rest h = ground (arith, h, before_dash-plain s rest (ground arith))

split_dots-plain : (s t : Text) → has b'.' s ≡ false → split_dots (s ++ b'.' ∷ t) ≡ s ∷ split_dots t
unfolding split_dots
split_dots-plain [] t h = refl
split_dots-plain (c ∷ s) t h = ground (arith, h, split_dots-plain s t (ground arith))

leading-digits : (s : Text) → all_digits s ≡ true → leading_digits s ≡ s
unfolding leading_digits
leading-digits [] h = refl
leading-digits (c ∷ s) h = ground (arith, h, leading-digits s (ground arith))

number_of-digits : (s : Text) → number_of s ≡ nonzero (parse_decimal s)
unfolding parse_decimal
number_of-digits [] = refl
number_of-digits (c ∷ s) = refl

part_number-decimal : (n : ℕ) → part_number (decimal n) ≡ nonzero n
unfolding part_number
part_number-decimal n =
    ap number_of (leading-digits (decimal n) (all_digits-decimal n))
    ∙ number_of-digits (decimal n)
    ∙ ap nonzero (parse-decimal n)

x_is_unknown : part_number (codes "x") ≡ none
unfolding part_number leading_digits
x_is_unknown = refl

not_custom :
    (s t : Text) → all_digits s ≡ true → drop_prefix (codes "custom:") (s ++ b'.' ∷ t) ≡ none
not_custom [] t h = refl
not_custom (c ∷ s) t h = ground (arith, h)

-- The text of a released version: `13.3.x-scala2.12`.
abbrev pub release : (major minor : ℕ) → (rest : Text) → Text
release major minor rest = decimal major ++ b'.' ∷ (decimal minor ++ b'.' ∷ (codes "x-" ++ rest))

no_dash :
    (s t : Text)
    → all_digits s ≡ true
    → all_digits t ≡ true
    → has b'-' (s ++ b'.' ∷ (t ++ b'.' ∷ codes "x")) ≡ false
no_dash s t h k = ground (
  arith,
  has-append b'-' s (b'.' ∷ (t ++ b'.' ∷ codes "x")),
  has-append b'-' t (b'.' ∷ codes "x"),
  has-digits b'-' s refl h,
  has-digits b'-' t refl k,
)

release-match :
    (s t rest : Text)
    → all_digits s ≡ true
    → all_digits t ≡ true
    → match_version (s ++ b'.' ∷ (t ++ b'.' ∷ (codes "x-" ++ rest)))
      ≡ some (s ++ b'.' ∷ (t ++ b'.' ∷ codes "x"))
unfolding match_version
release-match s t rest h k =
    let version = t ++ b'.' ∷ codes "x" in
    ap
      (λ o.
        first_of (behind_custom o) (before_dash (s ++ b'.' ∷ (t ++ b'.' ∷ (codes "x-" ++ rest)))))
      (not_custom s (t ++ b'.' ∷ (codes "x-" ++ rest)) h)
    ∙ ap before_dash (
        ap (λ u. s ++ b'.' ∷ u) (sym (append_assoc t (b'.' ∷ codes "x") (b'-' ∷ rest)))
        ∙ sym (append_assoc s (b'.' ∷ version) (b'-' ∷ rest)))
    ∙ before_dash-plain (s ++ b'.' ∷ version) rest (no_dash s t h k)

release-parts :
    (s t : Text)
    → all_digits s ≡ true
    → all_digits t ≡ true
    → split_dots (s ++ b'.' ∷ (t ++ b'.' ∷ codes "x")) ≡ s ∷ t ∷ codes "x" ∷ []
unfolding split_dots
release-parts s t h k =
    split_dots-plain s (t ++ b'.' ∷ codes "x") (has-digits b'.' s refl h)
    ∙ ap (λ ps. s ∷ ps) (split_dots-plain t (codes "x") (has-digits b'.' t refl k))

-- The numbers of a released version are read back, whatever follows its dash, but for a 0, which is
-- read as unknown.
pub dbr_version-release :
    (major minor : ℕ) (rest : Text)
    → dbr_version (release major minor rest) ≡ (nonzero major, nonzero minor, none)
unfolding dbr_version version_of_match
dbr_version-release major minor rest =
    let h = all_digits-decimal major in
    let k = all_digits-decimal minor in
    ap version_of_match (release-match (decimal major) (decimal minor) rest h k)
    ∙ ap version_of (release-parts (decimal major) (decimal minor) h k)
    ∙ cc (part_number-decimal major, part_number-decimal minor, x_is_unknown)

-- The setting `dbr8.4+` admits the runtime 8.0, which it means to leave out, as its minor version
-- reads as unknown.
pub runtime_8_0_admitted :
    (rest : Text) → support_files_in_repos true from_8_4 (dbr_version (release 8 0 rest)) ≡ true
unfolding support_files_in_repos
runtime_8_0_admitted rest = rw (dbr_version-release 8 0 rest) refl
