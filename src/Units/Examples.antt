-- ===== src/Units/Examples.antt =====
-- A small file, and the theorems on it.
use code_analyzer.Prelude.{◌≡◌, refl, false, none, [], ◌∷◌, map, arith}
use code_analyzer.Prelude.Sort.{sorted}
use code_analyzer.Prelude.Text.{Text, codes}
use code_analyzer.Units.{
  Symbol, raw_span, segments_of, claimed_of, claim, claim_rest, absorb_blank, absorb, finish_absorb,
  extend_last, is_blank, chunks, starts_before,
}
use code_analyzer.Units.Segments.{span}
use code_analyzer.Units.Functions.{symbols_of, symbols_of-segments_of}
use code_analyzer.Units.Chunks.{AreCut, chunks-AreCut}

abbrev pub source : Text
source = codes "int a;\n\nint f() {}\n\n"

abbrev pub f : Symbol
f = record {
  name = codes "f";
  start_byte = 8;
  end_byte = 18;
  signature = codes "int f()";
  conditional = [];
  dead = false;
  kr_style = false;
  macro_header = false;
  calls = [];
}

-- The blank end of the file goes to the function in front of it.
segments_of-source : map span (segments_of (f ∷ []) none source) ≡ (0, 8) ∷ (8, 20) ∷ []
unfolding segments_of claimed_of claim claim_rest absorb_blank absorb finish_absorb extend_last
    is_blank sorted
segments_of-source = refl

symbols_of-segments_of_example :
    symbols_of (segments_of (f ∷ []) none source) ≡ sorted starts_before (f ∷ [])
unfolding sorted
symbols_of-segments_of_example = symbols_of-segments_of (f ∷ []) none source (omega arith)

chunks-AreCut_example : AreCut source (chunks source 0 20000 raw_span)
chunks-AreCut_example = chunks-AreCut source 0 20000 raw_span (omega arith) refl
