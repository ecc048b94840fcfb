-- ===== src/LmChat/Events/Tests.antt =====
-- A reply of two events, cut within its separators.
use databricks_vscode.Prelude.{
  ◌≡◌, refl, Option, none, some, List, [], ◌∷◌, ◌++◌, Text, codes, same, if◌then◌else◌,
}
use databricks_vscode.LmChat.Json.{Json, num, str}
use databricks_vscode.LmChat.Stream.{returned, threw}
use databricks_vscode.LmChat.Events.{not_json, server_sent_events}
use databricks_vscode.LmChat.Events.Chunks.{joined, cuts_ignored}
use databricks_vscode.LmChat.Events.Written.{written_events_read}

abbrev parse : Text → Option Json
parse s =
    if same s (codes "12")
    then some (num 12)
    else if same s (codes "\"a\"")
    then some (str (codes "a"))
    else none

abbrev stringify : Json → Text
stringify (num n) = codes "12"
stringify _ = codes "\"a\""

abbrev pieces : List Text
pieces = codes "data: 12\n" ∷ codes "\ndata: \"a" ∷ codes "\"\n\ndata: [DO" ∷ []

cuts_ignored_example :
    server_sent_events parse [] pieces (codes "NE]\n\n")
    ≡ server_sent_events parse [] [] (joined pieces ++ codes "NE]\n\n")
cuts_ignored_example = cuts_ignored parse pieces (codes "NE]\n\n")

written_events_read_example :
    server_sent_events parse [] pieces (codes "NE]\n\nmore")
    ≡ record { events = num 12 ∷ str (codes "a") ∷ []; ending = returned }
written_events_read_example =
    written_events_read parse refl refl stringify (num 12 ∷ str (codes "a") ∷ []) (codes "more")
      pieces (codes "NE]\n\nmore")
      (record { parsed = refl; one_line = refl }, (record { parsed = refl; one_line = refl }, tt))
      refl

-- A comment and an empty event are passed over; an event without a blank line is kept if it is whole.
unfinished :
    server_sent_events parse [] [] (codes ": hi\r\n\r\ndata:\n\nevent: x\rdata:12")
    ≡ record { events = num 12 ∷ []; ending = returned }
unfolding server_sent_events
unfinished = refl

broken :
    server_sent_events parse [] [] (codes "data: 12\r\rdata: 1\n\ndata: 12")
    ≡ record { events = num 12 ∷ []; ending = threw not_json }
unfolding server_sent_events
broken = refl
