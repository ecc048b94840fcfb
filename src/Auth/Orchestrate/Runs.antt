-- ===== src/Auth/Orchestrate/Runs.antt =====
-- What a result of the loop says about the steps that were run.
use databricks_vscode.Prelude.{
  ℕ, zero, suc, ◌<◌, ◌≡◌, refl, Bool, false, arith, Bool-cases, inl, inr,
}
use databricks_vscode.Auth.Orchestrate.{
  StepResult, success, next, error, Settled, resolved, rejected, done, settle, orchestrate,
}

module _ {S N R : Type 0} (cancelled : S → Bool)
    (steps : N → S → Settled (StepResult N R) × S) where
  -- `count` steps, none cancelled, each naming the next, lead from one step and state to another.
  pub data Leads : ℕ → N → S → N → S → Type 0 where
    here : {n : N} {s : S} → Leads zero n s n s
    onward :
        {count : ℕ} {n m k : N} {s t u : S}
        → cancelled s ≡ false
        → steps n s ≡ (resolved (next m), t)
        → Leads count m t k u
        → Leads (suc count) n s k u

  -- The step that ended the loop with `result`, and how the loop came to it.
  pub record Ended (left : ℕ) (n : N) (s : S) (result : Settled (StepResult N R)) (t : S)
      : Type 0 where
    pub last : N
    pub before : S
    pub count : ℕ
    pub in_time : count < left
    pub path : Leads count n s last before
    pub alive : cancelled before ≡ false
    pub final : steps last before ≡ (result, t)

  Ended-next :
      {left : ℕ} {n m : N} {s t u : S} {result : Settled (StepResult N R)}
      → cancelled s ≡ false
      → steps n s ≡ (resolved (next m), t)
      → Ended left m t result u
      → Ended (suc left) n s result u
  Ended-next alive e r = record {
    last = r.last;
    before = r.before;
    count = suc r.count;
    in_time = omega (arith, r.in_time);
    path = onward alive e r.path;
    alive = r.alive;
    final = r.final;
  }

  Ended-here :
      {left : ℕ} {n : N} {s t : S} {result : Settled (StepResult N R)}
      → cancelled s ≡ false
      → steps n s ≡ (result, t)
      → Ended (suc left) n s result t
  Ended-here {n} {s} alive e = record {
    last = n;
    before = s;
    count = 0;
    in_time = omega arith;
    path = here;
    alive = alive;
    final = e;
  }

  orchestrate_done_at :
      (left : ℕ) (n : N) (s : S) (r : R) (u : S) (result : Settled (StepResult N R)) (t : S)
      → cancelled s ≡ false
      → steps n s ≡ (result, t)
      → settle cancelled steps (orchestrate cancelled steps left) result t ≡ (done r, u)
      → ((m : N)
          → orchestrate cancelled steps left m t ≡ (done r, u)
          → Ended left m t (resolved (success r)) u)
      → Ended (suc left) n s (resolved (success r)) u
  unfolding settle
  orchestrate_done_at left n s r u (resolved (success q)) t alive e h ih =
      Ended-here alive (ground arith)
  orchestrate_done_at left n s r u (resolved (next m)) t alive e h ih =
      Ended-next alive e (ih m (ground arith))
  orchestrate_done_at left n s r u (resolved (error x)) t alive e h ih = absurd (ground arith)
  orchestrate_done_at left n s r u (rejected x) t alive e h ih = absurd (ground arith)

  -- The loop returns `r` only if, after fewer than `left` steps that each named the next, a step
  -- resolved to success with `r`.
  pub orchestrate_done :
      (left : ℕ) (n : N) (s : S) (r : R) (u : S)
      → orchestrate cancelled steps left n s ≡ (done r, u)
      → Ended left n s (resolved (success r)) u
  unfolding orchestrate
  orchestrate_done zero n s r u h = absurd (ground arith)
  orchestrate_done (suc left) n s r u h = elim (Bool-cases (cancelled s)) [
    | inl stop ↦ absurd (ground arith)
    | inr alive ↦
        orchestrate_done_at left n s r u (steps n s).0 (steps n s).1 alive refl (ground arith)
          (λ m e. orchestrate_done left m (steps n s).1 r u e)
  ]

  Leads-alive :
      {count : ℕ} {n k : N} {s u : S}
      → Leads count n s k u
      → cancelled u ≡ false
      → cancelled s ≡ false
  Leads-alive here alive = alive
  Leads-alive (onward alive e path) _ = alive

  -- Conversely, a chain of fewer than `left` steps that each name the next, to a step that resolves
  -- to success, makes the loop return its result, if it is never cancelled.
  pub orchestrate_reaches :
      (left : ℕ) (r : R) (u : S) {count : ℕ} {n k : N} {s t : S}
      → Leads count n s k t
      → count < left
      → cancelled t ≡ false
      → steps k t ≡ (resolved (success r), u)
      → cancelled u ≡ false
      → orchestrate cancelled steps left n s ≡ (done r, u)
  unfolding orchestrate
  orchestrate_reaches zero r u path few alive final ended = absurd (omega arith)
  orchestrate_reaches (suc left) r u here few alive final ended = ground arith
  orchestrate_reaches (suc left) r u (onward {m} {t = v} start e path) few alive final ended =
      let ih = orchestrate_reaches left r u path (omega arith) alive final ended in
      ground (arith, ih, Leads-alive path alive)
