-- ===== src/Turn/Examples.antt =====
-- A model that asks for two builds at once.
use code_analyzer.Prelude.{Bool, true, List, [], ◌∷◌}
use code_analyzer.Prelude.Text.{Text, codes, text_eq}
use code_analyzer.Turn.{ToolCall, Decoded, Said, turn}
use code_analyzer.Turn.Bounds.{IsBrief, turn-IsBrief}

abbrev lists : ToolCall → Bool
lists c = text_eq c.name (codes "list")

abbrev call : Text → ToolCall
call name = record { id = codes "1"; name = name; arguments = [] }

abbrev reply : List Said → Decoded
reply [] = record { say = []; calls = call (codes "list") ∷ []; problems = [] }
reply (s ∷ log) = record {
  say = [];
  calls = call (codes "build") ∷ call (codes "list") ∷ call (codes "build") ∷ [];
  problems = [];
}

turn-IsBrief_example : IsBrief lists (λ _. true) 3 [] (turn lists (λ _. true) reply [])
turn-IsBrief_example = turn-IsBrief lists (λ _. true) reply []
