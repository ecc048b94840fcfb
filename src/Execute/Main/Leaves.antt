-- ===== src/Execute/Main/Leaves.antt =====
-- What a run leaves, however it ends, from what its parts keep.
use databricks_vscode.Prelude.{List}
use databricks_vscode.Execute.Main.Call.{
  Act, State, Outcome, done, threw, exited, pending, Cli, Done, next, ◌>>=◌, ended, finally,
}
use databricks_vscode.Execute.Main.Holds.{Fact, Also, Ends, Holds}

module _ (T : Fact) where
  pub record Leaves {A : Type 0} (P : Fact) (m : Cli A) : Type 0 where
    pub at : (s : State) → P s.history → T (m s).1.history

  next-Leaves :
      {A B : Type 0} (I : Fact) (Q : A → Fact) (f : A → Cli B) (r : Outcome A × State)
      → Ends I I Q r
      → ((h : List Act) → I h → T h)
      → ((a : A) → Leaves (Also I (Q a)) (f a))
      → T (next f r).1.history
  next-Leaves I Q f (done a, s) q t k = (k a).at s q
  next-Leaves I Q f (threw e, s) i t k = t s.history i
  next-Leaves I Q f (exited n, s) i t k = t s.history i
  next-Leaves I Q f (pending, s) i t k = t s.history i

  pub >>=-Leaves :
      {A B : Type 0} {I P : Fact} {Q : A → Fact} {m : Cli A} {f : A → Cli B}
      → Holds I I P m Q
      → ((h : List Act) → I h → T h)
      → ((a : A) → Leaves (Also I (Q a)) (f a))
      → Leaves (Also I P) (m >>= f)
  unfolding ◌>>=◌
  >>=-Leaves {I = I} {Q = Q} {m = m} {f = f} hm t k = record {
    at = λ s p. next-Leaves I Q f (m s) (hm.at s p.0 p.1) t k;
  }

  ends-Leaves :
      {A : Type 0} (I : Fact) (Q : A → Fact) (r : Outcome A × State)
      → Ends I I Q r
      → ((h : List Act) → I h → T h)
      → T r.1.history
  ends-Leaves I Q (done a, s) q t = t s.history q.0
  ends-Leaves I Q (threw e, s) i t = t s.history i
  ends-Leaves I Q (exited n, s) i t = t s.history i
  ends-Leaves I Q (pending, s) i t = t s.history i

  pub Holds-Leaves :
      {A : Type 0} {I P : Fact} {Q : A → Fact} {m : Cli A}
      → Holds I I P m Q
      → ((h : List Act) → I h → T h)
      → Leaves (Also I P) m
  Holds-Leaves {I = I} {Q = Q} {m = m} hm t = record {
    at = λ s p. ends-Leaves I Q (m s) (hm.at s p.0 p.1) t;
  }

  pub weaken-Leaves :
      {A : Type 0} {P P' : Fact} {m : Cli A}
      → Leaves P m
      → ((h : List Act) → P' h → P h)
      → Leaves P' m
  weaken-Leaves hm k = record { at = λ s p. hm.at s (k s.history p) }

  history-next :
      {A B : Type 0} (f : A → Outcome B) (r : Outcome A × State)
      → T r.1.history
      → T (next (λ a s. (f a, s)) r).1.history
  history-next f (done a, s) t = t
  history-next f (threw e, s) t = t
  history-next f (exited n, s) t = t
  history-next f (pending, s) t = t

  ended-Leaves :
      {A : Type 0} (I : Fact) (Q : A → Fact) (last : Cli Done) (r : Outcome A × State)
      → Ends I (λ h. ⊥) Q r
      → ((s : State) → I s.history → T (last s).1.history)
      → T (ended last r).1.history
  unfolding ended ◌>>=◌
  ended-Leaves I Q last (done a, s) q k = history-next (λ d. done a) (last s) (k s q.0)
  ended-Leaves I Q last (threw e, s) i k = history-next (λ d. threw e) (last s) (k s i)
  ended-Leaves I Q last (exited n, s) i k = absurd i
  ended-Leaves I Q last (pending, s) i k = absurd i

  -- If the first part comes to an end, the last part is run.
  pub finally-Leaves :
      {A : Type 0} {I P : Fact} {Q : A → Fact} (m : Cli A) (last : Cli Done)
      → Holds I (λ h. ⊥) P m Q
      → ((s : State) → I s.history → T (last s).1.history)
      → Leaves (Also I P) (finally m last)
  unfolding finally
  finally-Leaves {I = I} {Q = Q} m last hm k = record {
    at = λ s p. ended-Leaves I Q last (m s) (hm.at s p.0 p.1) k;
  }
