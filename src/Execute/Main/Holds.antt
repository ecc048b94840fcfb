-- ===== src/Execute/Main/Holds.antt =====
-- Claims about the calls of a run: an invariant of the history that holds when it returns or
-- throws, what holds besides when it returns, and what holds when it does not go on.
use databricks_vscode.Prelude.{
  Bool, true, false, Option, none, some, List, ◌∷◌, Text, ◌≡◌, refl, if◌then◌else◌, ℕ,
}
use databricks_vscode.Execute.Main.Call.{
  Failure, Reply, answers, throws, Act, State, Outcome, done, threw, exited, pending, Cli, Done,
  pure, throw, exit, wait_on, act, set_exit_code, next, ◌>>=◌, handle, catch, ended, finally, fail,
  fail_if, or_fail, settle, ask,
}

abbrev pub Fact : Type 1
Fact = List Act → Type 0

abbrev pub Any : Fact
Any h = Done

abbrev pub AnyOf : {A : Type 0} → A → Fact
AnyOf a h = Done

abbrev pub Also : Fact → Fact → Fact
Also I F h = I h × F h

module _ (I E : Fact) where
  abbrev pub Ends : {A : Type 0} → (A → Fact) → Outcome A × State → Type 0
  Ends Q (done a, s) = I s.history × Q a s.history
  Ends Q (threw e, s) = I s.history
  Ends Q (exited n, s) = E s.history
  Ends Q (pending, s) = E s.history

  pub record Holds {A : Type 0} (P : Fact) (m : Cli A) (Q : A → Fact) : Type 0 where
    pub at : (s : State) → I s.history → P s.history → Ends Q (m s)

  next-Ends :
      {A B : Type 0} (Q : A → Fact) (R : B → Fact) (f : A → Cli B) (r : Outcome A × State)
      → Ends Q r
      → ((a : A) → Holds (Q a) (f a) R)
      → Ends R (next f r)
  next-Ends Q R f (done a, s) (i, q) k = (k a).at s i q
  next-Ends Q R f (threw e, s) i k = i
  next-Ends Q R f (exited n, s) i k = i
  next-Ends Q R f (pending, s) i k = i

  pub >>=-Holds :
      {A B : Type 0} {P : Fact} {Q : A → Fact} {R : B → Fact} {m : Cli A} {f : A → Cli B}
      → Holds P m Q
      → ((a : A) → Holds (Q a) (f a) R)
      → Holds P (m >>= f) R
  unfolding ◌>>=◌
  >>=-Holds {Q = Q} {R = R} {m = m} {f = f} hm hf = record {
    at = λ s i p. next-Ends Q R f (m s) (hm.at s i p) hf;
  }

  handle-Ends :
      {A : Type 0} (Q : A → Fact) (f : Failure → Cli A) (r : Outcome A × State)
      → Ends Q r
      → ((e : Failure) → Holds Any (f e) Q)
      → Ends Q (handle f r)
  handle-Ends Q f (done a, s) q k = q
  handle-Ends Q f (threw e, s) i k = (k e).at s i tt
  handle-Ends Q f (exited n, s) i k = i
  handle-Ends Q f (pending, s) i k = i

  pub catch-Holds :
      {A : Type 0} {P : Fact} {Q : A → Fact} {m : Cli A} {f : Failure → Cli A}
      → Holds P m Q
      → ((e : Failure) → Holds Any (f e) Q)
      → Holds P (catch m f) Q
  unfolding catch
  catch-Holds {Q = Q} {m = m} {f = f} hm hf = record {
    at = λ s i p. handle-Ends Q f (m s) (hm.at s i p) hf;
  }

  pub pure-Holds : {A : Type 0} {Q : A → Fact} {a : A} → Holds (Q a) (pure a) Q
  pure-Holds = record { at = λ s i q. (i, q) }

  pub throw-Holds : {A : Type 0} {P : Fact} {Q : A → Fact} {e : Failure} → Holds P (throw e) Q
  throw-Holds = record { at = λ s i p. i }

  pub fail-Holds : {A : Type 0} {P : Fact} {Q : A → Fact} (m : Text) → Holds P (fail m) Q
  unfolding fail
  fail-Holds m = record { at = λ s i p. i }

  pub exit-Holds :
      {A : Type 0} {P : Fact} {Q : A → Fact} {n : ℕ}
      → ((h : List Act) → I h → E h)
      → Holds P (exit n) Q
  exit-Holds e = record { at = λ s i p. e s.history i }

  pub wait_on-Holds :
      {A : Type 0} {P : Fact} {Q : A → Fact}
      → ((h : List Act) → I h → E h)
      → Holds P (wait_on {A = A}) Q
  wait_on-Holds e = record { at = λ s i p. e s.history i }

  pub set_exit_code-Holds : {P : Fact} {n : ℕ} → Holds P (set_exit_code n) (λ d. P)
  set_exit_code-Holds = record { at = λ s i p. (i, p) }

  pub settle-Holds : {A : Type 0} {P : Fact} (r : Reply A) → Holds P (settle r) (λ a. P)
  settle-Holds (answers a) = record { at = λ s i p. (i, p) }
  settle-Holds (throws e) = record { at = λ s i p. i }

  pub ask-Holds : {A : Type 0} {P : Fact} (f : List Act → Reply A) → Holds P (ask f) (λ a. P)
  unfolding ask
  ask-Holds {P = P} f = record { at = λ s i p. (settle-Holds {P = P} (f s.history)).at s i p }

  pub if-Holds :
      {A : Type 0} {P : Fact} {Q : A → Fact} {m n : Cli A} (c : Bool)
      → (c ≡ true → Holds P m Q)
      → (c ≡ false → Holds P n Q)
      → Holds P (if c then m else n) Q
  if-Holds true h k = h refl
  if-Holds false h k = k refl

  -- What holds after a test that passed.
  pub fail_if-Holds :
      {P Q : Fact} (c : Bool) (m : Text)
      → (c ≡ false → (h : List Act) → P h → Q h)
      → Holds P (fail_if c m) (λ d. Q)
  unfolding fail_if
  fail_if-Holds true m k = record { at = λ s i p. i }
  fail_if-Holds false m k = record { at = λ s i p. (i, k refl s.history p) }

  pub or_fail-Holds :
      {A : Type 0} {P : Fact} {Q : A → Fact} (o : Option A) (m : Text)
      → ((a : A) → o ≡ some a → (h : List Act) → P h → Q a h)
      → Holds P (or_fail o m) Q
  unfolding or_fail
  or_fail-Holds none m k = record { at = λ s i p. i }
  or_fail-Holds (some a) m k = record { at = λ s i p. (i, k a refl s.history p) }

  pub act-Holds :
      {P : Fact} {Q : Fact} {a : Act}
      → ((h : List Act) → I h → P h → Also I Q (a ∷ h))
      → Holds P (act a) (λ d. Q)
  act-Holds k = record { at = λ s i p. k s.history i p }

  weaken_end :
      {A : Type 0} (Q Q' : A → Fact) (r : Outcome A × State)
      → Ends Q r
      → ((a : A) (h : List Act) → Q a h → Q' a h)
      → Ends Q' r
  weaken_end Q Q' (done a, t) (i, q) k = (i, k a t.history q)
  weaken_end Q Q' (threw e, t) i k = i
  weaken_end Q Q' (exited n, t) i k = i
  weaken_end Q Q' (pending, t) i k = i

  pub weaken :
      {A : Type 0} {P P' : Fact} {Q Q' : A → Fact} {m : Cli A}
      → Holds P m Q
      → ((h : List Act) → P' h → P h)
      → ((a : A) (h : List Act) → Q a h → Q' a h)
      → Holds P' m Q'
  weaken {Q = Q} {Q' = Q'} {m = m} hm p q = record {
    at = λ s i p'. weaken_end Q Q' (m s) (hm.at s i (p s.history p')) q;
  }

  ended-Ends :
      {A : Type 0} (Q : A → Fact) (last : Cli Done) (r : Outcome A × State)
      → Ends Q r
      → Holds Any last (λ d. Any)
      → Ends (λ a. Any) (ended last r)
  unfolding ended
  ended-Ends Q last (done a, s) q k =
      (>>=-Holds {P = Any} k (λ d. pure-Holds {Q = λ a. Any} {a = a})).at s q.0 tt
  ended-Ends Q last (threw e, s) i k =
      (>>=-Holds {P = Any} k (λ d. throw-Holds {P = Any} {Q = λ a. Any} {e = e})).at s i tt
  ended-Ends Q last (exited n, s) i k = i
  ended-Ends Q last (pending, s) i k = i

  pub finally-Holds :
      {A : Type 0} {P : Fact} {Q : A → Fact} (m : Cli A) (last : Cli Done)
      → Holds P m Q
      → Holds Any last (λ d. Any)
      → Holds P (finally m last) (λ a. Any)
  unfolding finally
  finally-Holds {Q = Q} m last hm k = record {
    at = λ s i p. ended-Ends Q last (m s) (hm.at s i p) k;
  }
