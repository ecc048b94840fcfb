-- ===== src/PythonSetup/Observations/Walks.antt =====
-- The two walks through a tree of JSON.
use databricks_vscode.Prelude.{
  ◌≡◌, refl, Option, none, some, List, [], ◌∷◌, ◌++◌, Text, same, Bool-cases, inl, inr,
}
use databricks_vscode.LmChat.Json.{
  Json, null, bool, num, str, arr, obj, Items, nil, cons, Fields, end, member,
}
use databricks_vscode.PythonSetup.Observations.{
  normalize_version, version_key, first_of, list_of, find_version, find_in_items, find_in_fields,
  visit, visit_items, visit_fields,
}

abbrev pub head : List Text → Option Text
head [] = none
head (s ∷ ss) = some s

head-append : (ss ts : List Text) → head (ss ++ ts) ≡ first_of (head ss) (head ts)
head-append [] ts = refl
head-append (s ∷ ss) ts = refl

head-list_of : (o : Option Text) → head (list_of o) ≡ o
head-list_of none = refl
head-list_of (some s) = refl

mutual
  unfolding find_version visit find_in_items find_in_fields visit_items visit_fields

  -- The version that is found in a notebook is the first one that the walk through a bundle would
  -- meet in it.
  pub find_version-first : (j : Json) → find_version j ≡ head (visit j)
  find_version-first null = refl
  find_version-first (bool b) = refl
  find_version-first (num n) = refl
  find_version-first (str s) = refl
  find_version-first (arr items) = find_in_items-first items
  find_version-first (obj fields) = find_in_fields-first fields

  find_in_items-first : (items : Items) → find_in_items items ≡ head (visit_items items)
  find_in_items-first nil = refl
  find_in_items-first (cons j items) =
      cc
        (find_version-first j, find_in_items-first items, head-append (visit j) (visit_items items))

  find_in_fields-first : (fields : Fields) → find_in_fields fields ≡ head (visit_fields fields)
  find_in_fields-first end = refl
  find_in_fields-first (member key j fields) = elim (Bool-cases (same key version_key)) [
    | inl h ↦ rw h (
        cc (
          head-list_of (normalize_version j),
          find_in_fields-first fields,
          head-append (list_of (normalize_version j)) (visit_fields fields),
        ))
    | inr h ↦ rw h (
        cc (
          find_version-first j,
          find_in_fields-first fields,
          head-append (visit j) (visit_fields fields),
        ))
  ]
