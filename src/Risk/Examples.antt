-- ===== src/Risk/Examples.antt =====
-- A unit in a crypto directory under a floor.
use code_analyzer.Prelude.{◌≤◌, ◌≡◌, refl, Bool, true, false, List, [], ◌∷◌}
use code_analyzer.Prelude.Text.{Text, codes}
use code_analyzer.Risk.{RiskProfile, Target, classify, tier_rank}
use code_analyzer.Risk.Floor.{is_tier, classify-floor}

abbrev fragments : Text → List Text
fragments t = t ∷ []

abbrev never : Text → Bool
never _ = false

abbrev target : Target
target = record {
  path = codes "a/led.c";
  name = codes "led";
  kind = codes "function";
  signature = [];
  is_header = false;
  dead = false;
}

abbrev profile : RiskProfile
profile = record {
  profile = codes "auto";
  min_tier = codes "medium";
  overrides = (codes "a/", codes "low") ∷ [];
}

classify-floor_example :
    let tier =
      (classify fragments never never (λ _ _. false) (λ _ _. false) (λ t. t) target profile).0 in
    (is_tier tier ≡ true) × (tier_rank tier ≤ tier_rank (codes "medium"))
classify-floor_example =
    classify-floor fragments never never (λ _ _. false) (λ _ _. false) (λ t. t) target profile
      (refl, refl, (refl, tt))
