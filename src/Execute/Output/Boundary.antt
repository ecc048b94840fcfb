-- ===== src/Execute/Output/Boundary.antt =====
-- The boundary splits the output where it occurs first.
use databricks_vscode.Prelude.{
  ℕ, ◌≤◌, ◌≡◌, ◌≢◌, refl, ap, inl, inr, Option, none, some, [], ◌∷◌, ◌++◌, Text, drop_prefix,
  length, arith, Option-cases,
}
use databricks_vscode.Execute.Output.{
  longer, cut, Envelope, envelope_of, split_stdout_error_envelope,
}

drop_prefix-append : (b s : Text) → drop_prefix b (b ++ s) ≡ some s
drop_prefix-append [] s = refl
drop_prefix-append (c ∷ b) s = ground (arith, drop_prefix-append b s)

drop_prefix-eq : (b s rest : Text) → drop_prefix b s ≡ some rest → s ≡ b ++ rest
drop_prefix-eq [] s rest h = ground arith
drop_prefix-eq (c ∷ b) [] rest h = absurd (ground arith)
drop_prefix-eq (c ∷ b) (d ∷ s) rest h = ground (arith, drop_prefix-eq b s rest)

-- No text is the boundary with something on both sides of it.
abbrev pub Absent : Text → Text → Type 0
Absent b s = (before rest : Text) → s ≢ before ++ (b ++ rest)

-- The first occurrence: no other one has less in front of it.
pub record First (b s before rest : Text) : Type 0 where
  pub here : s ≡ before ++ (b ++ rest)
  pub earliest : (p q : Text) → s ≡ p ++ (b ++ q) → length before ≤ length p

abbrev Cut : Text → Text → Option (Text × Text) → Type 0
Cut b s none = Absent b s
Cut b s (some (before, rest)) = First b s before rest

not_here : (b s q : Text) → drop_prefix b s ≡ none → s ≢ b ++ q
not_here b s q h e = cc (drop_prefix-append b q, ap (drop_prefix b) e)

-- One more character in front.
Absent-cons :
    (b : Text) (c : ℕ) (s : Text) → drop_prefix b (c ∷ s) ≡ none → Absent b s → Absent b (c ∷ s)
Absent-cons b c s h a [] q e = not_here b (c ∷ s) q h e
Absent-cons b c s h a (d ∷ p) q e = a p q (cc)

earliest-cons :
    (b : Text) (c : ℕ) (s before rest : Text)
    → drop_prefix b (c ∷ s) ≡ none
    → First b s before rest
    → (p q : Text) → c ∷ s ≡ p ++ (b ++ q)
    → length (c ∷ before) ≤ length p
earliest-cons b c s before rest h f [] q e = absurd (not_here b (c ∷ s) q h e)
earliest-cons b c s before rest h f (d ∷ p) q e = omega (arith, f.earliest p q (cc))

Absent-nil : (b : Text) → drop_prefix b [] ≡ none → Absent b []
Absent-nil b h [] q e = not_here b [] q h e
Absent-nil b h (d ∷ p) q e = cc e

Cut-cons :
    (b : Text) (c : ℕ) (s : Text) (o : Option (Text × Text))
    → drop_prefix b (c ∷ s) ≡ none
    → Cut b s o
    → Cut b (c ∷ s) (longer c o)
Cut-cons b c s none h k = Absent-cons b c s h k
Cut-cons b c s (some (before, rest)) h k = record {
  here = ap (λ (t : Text). c ∷ t) k.here;
  earliest = earliest-cons b c s before rest h k;
}

Cut-nil : (b : Text) → Cut b [] (cut b [])
unfolding cut
Cut-nil b = elim (Option-cases (drop_prefix b [])) [
  | inl no_prefix ↦ rw (cut, no_prefix) (Absent-nil b no_prefix)
  | inr (rest, found) ↦
      rw (cut, found)
        (record { here = drop_prefix-eq b [] rest found; earliest = λ p q e. omega arith })
]

pub Cut-cut : (b s : Text) → Cut b s (cut b s)
unfolding cut
Cut-cut b [] = Cut-nil b
Cut-cut b (c ∷ s) = elim (Option-cases (drop_prefix b (c ∷ s))) [
  | inr (rest, found) ↦
      rw (cut, found)
        (record { here = drop_prefix-eq b (c ∷ s) rest found; earliest = λ p q e. omega arith })
  | inl no_prefix ↦ rw (cut, no_prefix) (Cut-cons b c s (cut b s) no_prefix (Cut-cut b s))
]

-- Without a boundary in it, all the output is that of the script; with one, the output is what
-- stands before the first boundary, and the payload all that stands behind it.
abbrev pub Splits : Text → Text → Envelope → Type 0
Splits b s e = elim e.error_payload [
  | none ↦ Absent b s × (e.stdout ≡ s)
  | some payload ↦ First b s e.stdout payload
]

Splits-envelope_of :
    (b s : Text) (o : Option (Text × Text)) → Cut b s o → Splits b s (envelope_of s o)
Splits-envelope_of b s none h = (h, refl)
Splits-envelope_of b s (some (before, rest)) h = h

-- Without the boundary in it, all the text is output of the script and there is no payload; else
-- the output is what stands before its first occurrence, and the payload all that stands behind it.
pub split_stdout_error_envelope-Splits : (s b : Text) → Splits b s (split_stdout_error_envelope s b)
unfolding split_stdout_error_envelope
split_stdout_error_envelope-Splits s b = Splits-envelope_of b s (cut b s) (Cut-cut b s)
