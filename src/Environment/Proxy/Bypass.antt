-- ===== src/Environment/Proxy/Bypass.antt =====
-- Which hosts are reached without a proxy, and which certificates are trusted.
use databricks_vscode.Prelude.{
  ◌≡◌, refl, ap, ◌∙◌, Bool, true, not, ◌&&◌, ◌||◌, Option, none, some, List, [], ◌∷◌, ◌++◌, Text,
  same, same_iff, any, map, arith, Bool-cases, inl, inr,
}
use databricks_vscode.Environment.Proxy.{
  or_text, or_empty, split_commas, trim, is_nonempty, filter, unique, merge_no_proxy, list_of,
  truthy, build_ca_bundle,
}

abbrev pub includes : Text → List Text → Bool
includes t ss = any (same t) ss

-- No text stands twice in the list.
abbrev pub distinct : List Text → Bool
distinct [] = true
distinct (s ∷ ss) = not (includes s ss) && distinct ss

includes-filter :
    (test : Text → Bool) (t : Text) (ss : List Text)
    → includes t (filter test ss) ≡ (test t && includes t ss)
includes-filter test t [] = ground arith
includes-filter test t (s ∷ ss) = elim (Bool-cases (same t s)) [
  | inl h ↦ ground (arith, h, ap test ((same_iff t s).0 h), includes-filter test t ss)
  | inr h ↦ ground (arith, h, includes-filter test t ss)
]

includes-unique : (t : Text) (ss : List Text) → includes t (unique ss) ≡ includes t ss
unfolding unique
includes-unique t [] = refl
includes-unique t (s ∷ ss) = ground (
  arith,
  includes-filter (λ x. not (same s x)) t (unique ss),
  includes-unique t ss,
  same_iff s t,
  same_iff t s,
)

distinct-filter :
    (test : Text → Bool) (ss : List Text) → distinct ss ≡ true → distinct (filter test ss) ≡ true
distinct-filter test [] h = refl
distinct-filter test (s ∷ ss) h =
    ground (arith, h, includes-filter test s ss, distinct-filter test ss (ground arith))

distinct-unique : (ss : List Text) → distinct (unique ss) ≡ true
unfolding unique
distinct-unique [] = refl
distinct-unique (s ∷ ss) = ground (
  arith,
  includes-filter (λ x. not (same s x)) s (unique ss),
  same_iff s s,
  distinct-filter (λ x. not (same s x)) (unique ss) (distinct-unique ss),
)

-- A host is in the list of those without a proxy just if it is, without the blanks around it, in the
-- setting or in the variable that counts, and not empty; and none is there twice.
pub merge_no_proxy-includes :
    (setting : List Text) (upper lower : Option Text) (host : Text)
    → (includes host (merge_no_proxy setting upper lower) ≡ (
        is_nonempty host
        && includes host (map trim (setting ++ split_commas (or_empty (or_text upper lower))))))
      × (distinct (merge_no_proxy setting upper lower) ≡ true)
unfolding merge_no_proxy
merge_no_proxy-includes setting upper lower host =
    let parts = map trim (setting ++ split_commas (or_empty (or_text upper lower))) in
    (
      includes-unique host (filter is_nonempty parts) ∙ includes-filter is_nonempty host parts,
      distinct-unique (filter is_nonempty parts),
    )

includes-append :
    (t : Text) (ss ts : List Text) → includes t (ss ++ ts) ≡ (includes t ss || includes t ts)
includes-append t [] ts = refl
includes-append t (s ∷ ss) ts = ground (arith, includes-append t ss ts)

-- The certificates of a bundle.
abbrev pub trusted : Text → Option (List Text) → Bool
trusted cert none = true
trusted cert (some certs) = includes cert certs

-- Whatever is configured, no root certificate is lost: where a bundle is built at all, each root, each
-- certificate of the system and the configured one are in it.
pub build_ca_bundle-trusted :
    (roots : List Text) (system : Option (List Text)) (configured extra : Option Text) (cert : Text)
    → (includes cert roots
        || (includes cert (list_of system)
            || (includes cert (truthy configured) || includes cert (truthy extra))))
      ≡ true
    → trusted cert (build_ca_bundle roots system configured extra) ≡ true
unfolding build_ca_bundle
build_ca_bundle-trusted roots system configured extra cert h =
    let all = roots ++ (list_of system ++ (truthy configured ++ truthy extra)) in
    ground (
      arith,
      h,
      includes-unique cert all,
      includes-append cert roots (list_of system ++ (truthy configured ++ truthy extra)),
      includes-append cert (list_of system) (truthy configured ++ truthy extra),
      includes-append cert (truthy configured) (truthy extra),
    )
