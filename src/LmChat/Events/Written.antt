-- ===== src/LmChat/Events/Written.antt =====
-- A reply that is written as the event-stream format says.
use databricks_vscode.Prelude.{
  ℕ, zero, ◌≡◌, refl, ap, ◌∙◌, Bool, true, false, ◌==◌, Option, none, some, List, [], ◌∷◌, ◌++◌,
  Text, codes, same_iff, if◌then◌else◌, arith, append_assoc, All, map,
}
use databricks_vscode.LmChat.Json.{Json}
use databricks_vscode.LmChat.Stream.{returned}
use databricks_vscode.LmChat.Events.{
  block_end, line_end, split, block_data, serve_data, serve_blocks, serve_rest, server_sent_events,
  Served, nonempty, join_lines, data_lines, lines_of,
}
use databricks_vscode.LmChat.Events.Chunks.{joined, cuts_ignored}

-- No line ends in a text.
abbrev pub is_line : Text → Bool
is_line [] = true
is_line (c ∷ s) = if c == 10 then false else if c == 13 then false else is_line s

-- One event, with the data on one line.
abbrev pub write_event : Text → Text
write_event s = codes "data: " ++ (s ++ 10 ∷ 10 ∷ [])

abbrev pub write_events : List Text → Text
write_events [] = []
write_events (s ∷ ss) = write_event s ++ write_events ss

block_end-line : (c : ℕ) (s : Text) → is_line (c ∷ []) ≡ true → block_end (c ∷ s) ≡ zero
unfolding block_end
block_end-line c s h = ground arith

line_end-line : (c : ℕ) (s : Text) → is_line (c ∷ []) ≡ true → line_end (c ∷ s) ≡ zero
unfolding line_end
line_end-line c s h = ground arith

-- A line up to a blank line is a block.
split-block :
    (s rest : Text)
    → is_line s ≡ true
    → split block_end zero (s ++ (10 ∷ 10 ∷ rest))
      ≡ (s ∷ (split block_end zero rest).0, (split block_end zero rest).1)
unfolding split block_end
split-block [] rest h = ground arith
split-block (c ∷ s) rest h = ground (
  arith,
  block_end-line c (s ++ (10 ∷ 10 ∷ rest)) (ground arith),
  split-block s rest (ground arith),
)

split-line : (s : Text) → is_line s ≡ true → split line_end zero s ≡ ([], s)
unfolding split
split-line [] h = refl
split-line (c ∷ s) h = ground (arith, line_end-line c s (ground arith), split-line s (ground arith))

block_data-line : (s : Text) → is_line s ≡ true → block_data (codes "data: " ++ s) ≡ nonempty s
unfolding block_data
block_data-line s h =
    ap (λ p. nonempty (join_lines (data_lines (lines_of p)))) (split-line (codes "data: " ++ s) h)

abbrev pub end_mark : Text
end_mark = codes "[DONE]"

-- An event that is written and parsed again: its text is one line of JSON.
pub record Writable (parse : Text → Option Json) (stringify : Json → Text) (e : Json) : Type 0 where
  pub parsed : parse (stringify e) ≡ some e
  pub one_line : is_line (stringify e) ≡ true

module _ (parse : Text → Option Json) (empty_throws : parse [] ≡ none)
    (end_throws : parse end_mark ≡ none) where
  abbrev served : Text → Served
  served t = server_sent_events parse [] [] t

  served-write_event :
      (s t : Text)
      → is_line s ≡ true
      → served (write_event s ++ t) ≡ serve_data parse (nonempty s) (served t)
  unfolding server_sent_events serve_blocks
  served-write_event s t h =
      let q = split block_end zero t in
      ap (λ p. serve_blocks parse p.0 (serve_rest parse p.1))
        (ap (λ x. split block_end zero (codes "data: " ++ x)) (append_assoc s (10 ∷ 10 ∷ []) t)
          ∙ split-block (codes "data: " ++ s) t h)
      ∙ ap (λ d. serve_data parse d (served t)) (block_data-line s h)

  serve_data-parsed :
      (s : Text) (e : Json) (later : Served)
      → parse s ≡ some e
      → serve_data parse (nonempty s) later
        ≡ record { events = e ∷ later.events; ending = later.ending }
  serve_data-parsed [] e later h = ground (arith, h, empty_throws)
  serve_data-parsed (c ∷ s) e later h = ground (arith, h, end_throws, same_iff (c ∷ s) end_mark)

  served-end_mark :
      (t : Text) → served (write_event end_mark ++ t) ≡ record { events = []; ending = returned }
  served-end_mark t = served-write_event end_mark t refl

  module _ (stringify : Json → Text) where
    served-write_events :
        (es : List Json) (t : Text)
        → All (Writable parse stringify) es
        → served (write_events (map stringify es) ++ (write_event end_mark ++ t))
          ≡ record { events = es; ending = returned }
    served-write_events [] t h = served-end_mark t
    served-write_events (e ∷ es) t (h, hs) =
        let rest = write_events (map stringify es) in
        ap served (append_assoc (write_event (stringify e)) rest (write_event end_mark ++ t))
        ∙ served-write_event (stringify e) (rest ++ (write_event end_mark ++ t)) h.one_line
        ∙ serve_data-parsed (stringify e) e (served (rest ++ (write_event end_mark ++ t))) h.parsed
        ∙ ap (λ (x : Served). record { events = e ∷ x.events; ending = x.ending })
            (served-write_events es t hs)

    -- Events that are written in the event-stream format, each as one line of JSON, and followed by the
    -- end mark, come out as they went in, and the stream returns at the mark, however the text is cut
    -- into reads and whatever is behind the mark. Neither the empty text nor the mark is JSON.
    pub written_events_read :
        (es : List Json) (t : Text) (reads : List Text) (last : Text)
        → All (Writable parse stringify) es
        → joined reads ++ last ≡ write_events (map stringify es) ++ (write_event end_mark ++ t)
        → server_sent_events parse [] reads last ≡ record { events = es; ending = returned }
    written_events_read es t reads last h cut_up =
        cuts_ignored parse reads last ∙ ap served cut_up ∙ served-write_events es t h
