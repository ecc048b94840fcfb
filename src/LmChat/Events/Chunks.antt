-- ===== src/LmChat/Events/Chunks.antt =====
-- How the cuts between the reads of a reply do not matter.
use databricks_vscode.Prelude.{
  ℕ, zero, suc, ◌≤◌, ◌≡◌, ◌≢◌, refl, sym, ap, ◌∙◌, Option, List, [], ◌∷◌, ◌++◌, Text, length, arith,
  append_assoc, ◌⊎◌, inl, inr,
}
use databricks_vscode.LmChat.Json.{Json}
use databricks_vscode.LmChat.Events.{
  block_end, put, cut, split, serve_blocks, serve_rest, server_sent_events, Served,
}

abbrev pub behind : List Text × Text → List Text × Text → List Text × Text
behind (bs, last) (cs, end) = (bs ++ cs, end)

-- A block that is open to the end of a text is all of the text.
split-whole : (s : Text) → (split block_end zero s).0 ≡ [] → (split block_end zero s).1 ≡ s
unfolding split
split-whole [] h = refl
split-whole (c ∷ s) h = ground (arith, split-whole s)

-- A separator that ends beyond the text: there is none in the text.
straddled :
    (s t : Text) → block_end s ≡ zero → block_end (s ++ t) ≢ zero → (split block_end zero s).0 ≡ []
unfolding split block_end
straddled [] t h k = refl
straddled (a ∷ []) t h k = ground arith
straddled (a ∷ b ∷ []) t h k = ground arith
straddled (a ∷ b ∷ c ∷ []) t h k = ground arith
straddled (a ∷ b ∷ c ∷ d ∷ s) t h k = ground arith

block_end-append : (s t : Text) → block_end s ≢ zero → block_end (s ++ t) ≡ block_end s
unfolding block_end
block_end-append [] t h = ground arith
block_end-append (a ∷ []) t h = ground arith
block_end-append (a ∷ b ∷ []) t h = ground arith
block_end-append (a ∷ b ∷ c ∷ []) t h = ground arith
block_end-append (a ∷ b ∷ c ∷ d ∷ s) t h = ground arith

block_end-fits : (s : Text) → block_end s ≤ length s
unfolding block_end
block_end-fits [] = ground arith
block_end-fits (a ∷ []) = ground arith
block_end-fits (a ∷ b ∷ []) = ground arith
block_end-fits (a ∷ b ∷ c ∷ []) = ground arith
block_end-fits (a ∷ b ∷ c ∷ d ∷ s) = ground arith

zero-cases : (n : ℕ) → (n ≡ zero) ⊎ (m : ℕ) × (n ≡ suc m)
zero-cases zero = inl refl
zero-cases (suc n) = inr (n, refl)

-- Whether a text has a block that is closed.
blocks-cases : (bs : List Text) → (bs ≡ []) ⊎ (bs ≢ [])
blocks-cases [] = inl refl
blocks-cases (b ∷ bs) = inr (ground arith)

split-append-open :
    (s t : Text)
    → (split block_end zero s).0 ≡ []
    → split block_end zero (s ++ t)
      ≡ behind (split block_end zero s) (split block_end zero ((split block_end zero s).1 ++ t))
split-append-open s t h = cc (h, split-whole s h)

split-here :
    (c n : ℕ) (s : Text)
    → block_end (c ∷ s) ≡ suc n
    → split block_end zero (c ∷ s) ≡ cut (split block_end n s)
unfolding split
split-here c n s h = ground (arith, h)

split-on :
    (c : ℕ) (s : Text)
    → block_end (c ∷ s) ≡ zero
    → split block_end zero (c ∷ s) ≡ put c (split block_end zero s)
unfolding split
split-on c s h = ground (arith, h)

put-closed : (c : ℕ) (p : List Text × Text) → (put c p).0 ≢ [] → p.0 ≢ []
put-closed c ([], l) h = h
put-closed c (b ∷ bs, l) h = ground arith

cut-behind : (p q : List Text × Text) → cut (behind p q) ≡ behind (cut p) q
cut-behind (bs, l) q = refl

put-behind : (c : ℕ) (p q : List Text × Text) → p.0 ≢ [] → put c (behind p q) ≡ behind (put c p) q
put-behind c ([], l) q h = ground (arith, h)
put-behind c (b ∷ bs, l) q h = refl

put-last : (c : ℕ) (p : List Text × Text) → p.0 ≢ [] → (put c p).1 ≡ p.1
put-last c ([], l) h = ground (arith, h)
put-last c (b ∷ bs, l) h = refl

split-append-on :
    (c : ℕ) (s t : Text)
    → block_end (c ∷ s) ≡ zero
    → block_end (c ∷ (s ++ t)) ≡ zero
    → (split block_end zero (c ∷ s)).0 ≢ []
    → split block_end zero (s ++ t)
      ≡ behind (split block_end zero s) (split block_end zero ((split block_end zero s).1 ++ t))
    → split block_end zero (c ∷ (s ++ t))
      ≡ behind
          (split block_end zero (c ∷ s))
          (split block_end zero ((split block_end zero (c ∷ s)).1 ++ t))
split-append-on c s t here there closed rest =
    let p = split block_end zero s in
    let on = split-on c s here in
    let open_before = put-closed c p (rw⁻¹ on closed) in
    cc (
      on,
      split-on c (s ++ t) there,
      rest,
      put-behind c p (split block_end zero (p.1 ++ t)) open_before,
      put-last c p open_before,
    )

-- Text that comes later closes the open block, and leaves the closed ones alone.
split-append :
    (n : ℕ) (s t : Text)
    → n ≤ length s
    → split block_end n (s ++ t)
      ≡ behind (split block_end n s) (split block_end zero ((split block_end n s).1 ++ t))
unfolding split
split-append zero [] t h = refl
split-append (suc n) [] t h = ground (arith, h)
split-append (suc n) (c ∷ s) t h = split-append n s t (omega (arith, h))
split-append zero (c ∷ s) t h = elim (zero-cases (block_end (c ∷ s))) [
  | inr (n, closed) ↦
      let later = block_end-append (c ∷ s) t (ground (arith, closed)) in
      cc (
        split-here c n s closed,
        later,
        split-append n s t (omega (arith, closed, block_end-fits (c ∷ s))),
        cut-behind (split block_end n s) (split block_end zero ((split block_end n s).1 ++ t)),
      )
  | inl none_here ↦ elim (blocks-cases (split block_end zero (c ∷ s)).0) [
    | inl all_open ↦ split-append-open (c ∷ s) t all_open
    | inr some_closed ↦ elim (zero-cases (block_end (c ∷ s ++ t))) [
      | inr (n, closes) ↦
          ground (arith, some_closed, straddled (c ∷ s) t none_here (ground (arith, closes)))
      | inl stays ↦
          split-append-on c s t none_here stays some_closed (split-append zero s t (omega arith))
    ]
  ]
]

-- The texts of the reads, joined.
abbrev pub joined : List Text → Text
joined [] = []
joined (s ∷ ss) = s ++ joined ss

module _ (parse : Text → Option Json) where
  serve_blocks-append :
      (bs cs : List Text) (later : Served)
      → serve_blocks parse (bs ++ cs) later ≡ serve_blocks parse bs (serve_blocks parse cs later)
  unfolding serve_blocks
  serve_blocks-append [] cs later = refl
  serve_blocks-append (b ∷ bs) cs later = cc (serve_blocks-append bs cs later)

  served_behind :
      (p q : List Text × Text)
      → serve_blocks parse (behind p q).0 (serve_rest parse (behind p q).1)
        ≡ serve_blocks parse p.0 (serve_blocks parse q.0 (serve_rest parse q.1))
  served_behind (bs, l) (cs, end) = serve_blocks-append bs cs (serve_rest parse end)

  reads_joined :
      (buffer : Text) (reads : List Text) (last : Text)
      → server_sent_events parse buffer reads last
        ≡ server_sent_events parse [] [] (buffer ++ (joined reads ++ last))
  unfolding server_sent_events
  reads_joined buffer [] last = refl
  reads_joined buffer (value ∷ reads) last =
      let p = split block_end zero (buffer ++ value) in
      let rest = joined reads ++ last in
      ap (serve_blocks parse p.0) (reads_joined p.1 reads last)
      ∙ sym (served_behind p (split block_end zero (p.1 ++ rest)))
      ∙ ap (λ x. serve_blocks parse x.0 (serve_rest parse x.1))
          (sym (split-append zero (buffer ++ value) rest (omega arith))
            ∙ ap (split block_end zero) (
                append_assoc buffer value rest
                ∙ ap (λ x. buffer ++ x) (sym (append_assoc value (joined reads) last))))

  -- However a reply is cut into reads, within a separator of events as well: the events and the
  -- ending are those of the whole text in one read.
  pub cuts_ignored :
      (reads : List Text) (last : Text)
      → server_sent_events parse [] reads last
        ≡ server_sent_events parse [] [] (joined reads ++ last)
  cuts_ignored reads last = reads_joined [] reads last
