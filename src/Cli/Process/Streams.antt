-- ===== src/Cli/Process/Streams.antt =====
-- What the callbacks of a run of a child process are told.
use databricks_vscode.Prelude.{
  ℕ, ◌≡◌, refl, Bool, true, false, Option, none, some, List, [], ◌∷◌, ◌++◌, Text, arith, ◌⊎◌, inl,
  inr, append_assoc, append-nil, ap, sym,
}
use databricks_vscode.Cli.Process.{
  Bytes, Effect, told_stdout, told_stderr, Run, Token, no_token, quiet, fires, Options, Event,
  stdout_data, stderr_data, stream_error, concat, child_error, close, cancel, grace_over,
  settle_result, request_cancel, reject_from_stream_error, on_stdout_data, on_stderr_data, step,
  run, fresh, tell, subscribe, start,
}

-- The texts that `onStdout` was given, joined in their order.
abbrev pub heard : {E : Type 0} → List (Effect E) → Text
heard [] = []
heard (told_stdout s ∷ es) = heard es ++ s
heard (_ ∷ es) = heard es

heard-told_stdout :
    {E : Type 0} (s : Text) (es : List (Effect E))
    → heard (tell told_stdout true s es) ≡ heard es ++ s
heard-told_stdout [] es = sym (append-nil (heard es))
heard-told_stdout (c ∷ s) es = refl

heard-told_stderr :
    {E : Type 0} (b : Bool) (s : Text) (es : List (Effect E))
    → heard (tell told_stderr b s es) ≡ heard es
heard-told_stderr false s es = refl
heard-told_stderr true [] es = refl
heard-told_stderr true (c ∷ s) es = refl

-- A `StringDecoder` that is given one chunk behind the other: its state, and its texts joined.
abbrev pub feed : {D : Type 0} → (D → Bytes → D × Text) → D → List Bytes → D × Text
feed write d [] = (d, [])
feed write d (b ∷ bs) = let (e, s) = write d b in let (f, t) = feed write e bs in (f, s ++ t)

-- The documented promise of a `StringDecoder` that starts in `d`: its texts and the last one, joined,
-- are the text of all bytes.
abbrev pub Decodes :
    {D : Type 0} → (Bytes → Text) → (D → Bytes → D × Text) → (D → Text) → D → Type 0
Decodes decode write flush d =
    (bs : List Bytes) → let (e, s) = feed write d bs in s ++ flush e ≡ decode (concat bs)

feed-snoc :
    {D : Type 0} (write : D → Bytes → D × Text) (d : D) (bs : List Bytes) (b : Bytes)
    → let (e, s) = feed write d bs in
      let (f, t) = write e b in feed write d (bs ++ b ∷ []) ≡ (f, s ++ t)
feed-snoc write d [] b = ap (λ t. ((write d b).0, t)) (append-nil (write d b).1)
feed-snoc write d (c ∷ bs) b = cc (
  feed-snoc write (write d c).0 bs b,
  append_assoc (write d c).1 (feed write (write d c).0 bs).1
      (write (feed write (write d c).0 bs).0 b).1,
)

module _ {D E : Type 0} (decode : Bytes → Text) (write : D → Bytes → D × Text) (flush : D → Text)
    (o : Options) where
  -- A run that has not settled has told its callback what its decoder gave for the chunks so far.
  record Told (d : D) (r : Run D E) : Type 0 where
    fed : (r.settled ≡ true) ⊎ (feed write d r.stdout_chunks ≡ (r.stdout_decoder, heard r.effects))

  on_stdout_data-Told :
      (d : D) (b : Bytes) (r : Run D E)
      → o.on_stdout ≡ true
      → Told d r
      → Told d (on_stdout_data decode write flush o b r)
  unfolding on_stdout_data
  on_stdout_data-Told d b r h t = record {
    fed = elim t.fed [
      | inl k ↦ inl (ground (arith, h, k))
      | inr k ↦ inr (
          rw h (
            cc (
              feed-snoc write d r.stdout_chunks b,
              k,
              heard-told_stdout (write r.stdout_decoder b).1 r.effects,
            )))
    ];
  }

  step-Told :
      (d : D) (e : Event E) (r : Run D E)
      → o.on_stdout ≡ true
      → Told d r
      → Told d (step decode write flush o e r)
  unfolding step on_stderr_data settle_result request_cancel reject_from_stream_error
  step-Told d (stdout_data b) r h t = on_stdout_data-Told d b r h t
  step-Told d (stderr_data b) r h t = record { fed = ground (arith, t.fed) }
  step-Told d (stream_error x) r h t = record { fed = ground (arith, t.fed) }
  step-Told d (child_error x) r h t = record { fed = ground (arith, t.fed) }
  step-Told d (close c) r h t = record { fed = ground (arith, t.fed) }
  step-Told d (cancel none) r h t = record { fed = ground (arith, t.fed) }
  step-Told d (cancel (some c)) r h t = record { fed = ground (arith, t.fed) }
  step-Told d grace_over r h t = record { fed = ground (arith, t.fed) }

  run-Told :
      (d : D) (es : List (Event E)) (r : Run D E)
      → o.on_stdout ≡ true
      → Told d r
      → Told d (run decode write flush o es r)
  unfolding run
  run-Told d [] r h t = t
  run-Told d (e ∷ es) r h t = run-Told d es (step decode write flush o e r) h (step-Told d e r h t)

  subscribe-Told : (t : Token) (d : D) → Told d (subscribe decode write flush o t (fresh d))
  unfolding subscribe request_cancel settle_result
  subscribe-Told no_token d = record { fed = ground arith }
  subscribe-Told quiet d = record { fed = ground arith }
  subscribe-Told (fires none) d = record { fed = ground arith }
  subscribe-Told (fires (some c)) d = record { fed = ground arith }

  -- The last text is what the decoder held back.
  settle_result-heard :
      (d : D) (x : Option ℕ) (r : Run D E)
      → Decodes decode write flush d
      → o.on_stdout ≡ true
      → r.settled ≡ false
      → Told d r
      → heard (settle_result decode write flush o x r).effects ≡ decode (concat r.stdout_chunks)
  unfolding settle_result
  settle_result-heard d x r law h u t = elim t.fed [
    | inl k ↦ ground (arith, k, u)
    | inr k ↦
        rw (h, u)
          (cc (
            law r.stdout_chunks,
            k,
            heard-told_stdout (flush r.stdout_decoder) r.effects,
            heard-told_stderr o.on_stderr (flush r.stderr_decoder)
                (tell told_stdout true (flush r.stdout_decoder) r.effects),
          ))
  ]

  -- With a decoder that keeps its promise, and a callback `onStdout`: when the child of a run
  -- that has not settled closes, the texts that the callback was given, joined, are the text of
  -- all chunks of the standard output. None is lost or doubled, whatever other events came
  -- between.
  pub stdout_heard :
      (d : D) (es : List (Event E)) (x : Option ℕ)
      → Decodes decode write flush d
      → o.on_stdout ≡ true
      → (run decode write flush o es (start decode write flush o d)).settled ≡ false
      → let r = run decode write flush o es (start decode write flush o d) in
        heard (step decode write flush o (close x) r).effects ≡ decode (concat r.stdout_chunks)
  unfolding start step
  stdout_heard d es x law h u =
      settle_result-heard d x _ law h u (run-Told d es _ h (subscribe-Told o.token d))
