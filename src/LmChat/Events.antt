-- ===== src/LmChat/Events.antt =====
-- lm-chat/UnityGatewayResponsesClient.ts: the events of a reply. A reply comes as the texts that the
-- decoder makes of its reads, the last one apart; a read that fails is not modelled. `JSON.parse` is a
-- parameter: `none` means that it throws.
pub mod Chunks
pub mod Written
mod Tests
use databricks_vscode.Prelude.{
  ℕ, zero, suc, Bool, true, false, ◌||◌, Option, none, some, List, [], ◌∷◌, ◌++◌, Text, codes, same,
  starts_with, drop_prefix, if◌then◌else◌,
}
use databricks_vscode.LmChat.Json.{Json}
use databricks_vscode.LmChat.Stream.{Ending, returned, threw}

-- A separator of blocks, and one of lines, at the start of a text: its length, or 0.
unfoldable pub block_end : Text → ℕ
block_end s =
    if starts_with s (13 ∷ 10 ∷ 13 ∷ 10 ∷ [])
    then 4
    else if starts_with s (10 ∷ 10 ∷ []) || starts_with s (13 ∷ 13 ∷ [])
    then 2
    else 0

unfoldable pub line_end : Text → ℕ
line_end s =
    if starts_with s (13 ∷ 10 ∷ [])
    then 2
    else if starts_with s (13 ∷ []) || starts_with s (10 ∷ [])
    then 1
    else 0

abbrev pub put : ℕ → List Text × Text → List Text × Text
put c ([], last) = ([], c ∷ last)
put c (b ∷ bs, last) = ((c ∷ b) ∷ bs, last)

abbrev pub cut : List Text × Text → List Text × Text
cut (bs, last) = ([] ∷ bs, last)

-- `split`, with the last part apart; the first `n` units belong to a separator.
unfoldable pub split : (Text → ℕ) → (n : ℕ) → Text → List Text × Text
split sep n [] = ([], [])
split sep (suc n) (c ∷ s) = split sep n s
split sep zero (c ∷ s) = elim (sep (c ∷ s)) [
  | zero ↦ put c (split sep zero s)
  | suc n ↦ cut (split sep n s)
]

-- `slice("data:".length).replace(/^ /, "")`
abbrev pub without_space : Text → Text
without_space [] = []
without_space (c ∷ s) = elim (drop_prefix (b' ' ∷ []) (c ∷ s)) [ none ↦ c ∷ s | some t ↦ t ]

abbrev pub data_line : Option Text → List Text → List Text
data_line none later = later
data_line (some s) later = without_space s ∷ later

-- The filter and the first `map`.
abbrev pub data_lines : List Text → List Text
data_lines [] = []
data_lines (line ∷ lines) = data_line (drop_prefix (codes "data:") line) (data_lines lines)

-- `join("\n")`
abbrev pub join_lines : List Text → Text
join_lines [] = []
join_lines (s ∷ []) = s
join_lines (s ∷ t ∷ ss) = s ++ 10 ∷ join_lines (t ∷ ss)

abbrev pub nonempty : Text → Option Text
nonempty [] = none
nonempty (c ∷ s) = some (c ∷ s)

abbrev pub lines_of : List Text × Text → List Text
lines_of (lines, last) = lines ++ last ∷ []

unfoldable pub block_data : Text → Option Text
unfolding split line_end
block_data block = nonempty (join_lines (data_lines (lines_of (split line_end zero block))))

abbrev pub not_json : Text
not_json = codes "Unity Gateway sent an event that isn't JSON."

-- What the generator yields, and how it ends.
pub record Served : Type 0 where
  pub events : List Json
  pub ending : Ending

module _ (parse : Text → Option Json) where
  abbrev pub yield_parsed : Option Json → Served → Served
  yield_parsed none later = record { events = []; ending = threw not_json }
  yield_parsed (some e) later = record { events = e ∷ later.events; ending = later.ending }

  -- The turn of the loop over the blocks.
  abbrev pub serve_data : Option Text → Served → Served
  serve_data none later = later
  serve_data (some data_text) later =
      if same data_text (codes "[DONE]")
      then record { events = []; ending = returned }
      else yield_parsed (parse data_text) later

  unfoldable pub serve_blocks : List Text → Served → Served
  unfolding block_data
  serve_blocks [] later = later
  serve_blocks (b ∷ bs) later = serve_data (block_data b) (serve_blocks bs later)

  -- `parseWhole`
  abbrev pub parse_whole : Option Text → Option Json
  parse_whole none = none
  parse_whole (some data_text) = parse data_text

  abbrev pub whole_event : Option Json → Served
  whole_event none = record { events = []; ending = returned }
  whole_event (some e) = record { events = e ∷ []; ending = returned }

  -- The end of the stream, with what the buffer still holds.
  unfoldable pub serve_rest : Text → Served
  unfolding block_data
  serve_rest buffer = whole_event (parse_whole (block_data buffer))

  -- The loop over the reads.
  unfoldable pub server_sent_events : (buffer : Text) → (reads : List Text) → (last : Text) → Served
  unfolding split block_end serve_blocks serve_rest
  server_sent_events buffer [] last =
      let (blocks, buffer) = split block_end zero (buffer ++ last) in
      serve_blocks blocks (serve_rest buffer)
  server_sent_events buffer (value ∷ reads) last =
      let (blocks, buffer) = split block_end zero (buffer ++ value) in
      serve_blocks blocks (server_sent_events buffer reads last)
