-- ===== src/Conversation/Examples.antt =====
-- Messages in front of a turn and while it runs, and one that cannot be written.
use code_analyzer.Prelude.{◌≡◌, refl, List, [], ◌∷◌, foldl}
use code_analyzer.Prelude.Text.{codes}
use code_analyzer.Conversation.{
  Conversation, clean, is_writable, say, begin, begin_with, says_of, new_conversation, Happening,
  says, types, interrupts, begins, notifies, settles, turn_cancelled, happen,
}
use code_analyzer.Conversation.Queue.{texts, all_added, texts-happen}

abbrev happenings : List Happening
happenings =
    notifies (codes "J1") (codes "done") 500
    ∷ says (codes "why?")
    ∷ begins
    ∷ begins
    ∷ says (codes " and then? ")
    ∷ interrupts
    ∷ settles (turn_cancelled (codes "interrupted"))
    ∷ types 510
    ∷ begins
    ∷ []

-- The message that is lost, sent while nothing runs.
abbrev lost : Conversation
lost = foldl happen new_conversation (says (55296 ∷ []) ∷ begins ∷ [])

lost_nowhere : (lost.queue ≡ []) × (lost.ledger ≡ [])
unfolding happen say begin begin_with says_of clean is_writable
lost_nowhere = (refl, refl)

texts-happen_example : texts (foldl happen new_conversation happenings) ≡ all_added happenings
texts-happen_example = texts-happen happenings
