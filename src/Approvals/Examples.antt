-- ===== src/Approvals/Examples.antt =====
-- A card that is shown and approved.
use code_analyzer.Prelude.{◌≡◌, refl, []}
use code_analyzer.Prelude.Text.{Text, codes, decimal}
use code_analyzer.Schema.Values.{Json, null}
use code_analyzer.Approvals.{Card, Request, Log, approve, state_of, show}
use code_analyzer.Approvals.Granted.{IsCleared, decide-IsCleared}

abbrev sha : Text → Json → Text
sha tool arguments = tool

abbrev digest : Text → Text
digest t = t

abbrev request : Request
request = record { tool = codes "build"; arguments = null; summary = [] }

abbrev shown : Log
shown = show sha digest request 100 []

decide-IsCleared_example :
    (card : Card) × IsCleared sha digest card approve (codes "A1") (codes "build") 1900 shown
    × (card.request ≡ request)
unfolding decimal state_of
decide-IsCleared_example =
    decide-IsCleared sha digest approve (codes "A1") (codes "me") (codes "build") 1900 shown request
      refl
