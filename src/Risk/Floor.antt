-- ===== src/Risk/Floor.antt =====
-- What `classify` promises whatever the signals: a declared tier that is not below the floor.
use code_analyzer.Prelude.{
  ◌≤◌, ◌≡◌, refl, Bool, true, false, ◌||◌, not, Option, none, some, List, [], ◌∷◌, ltb,
  if◌then◌else◌, any, arith, All, Bool-cases, inl, inr,
}
use code_analyzer.Prelude.Text.{Text, text_eq, codes, strip, is_empty}
use code_analyzer.Schema.{lower}
use code_analyzer.Risk.{
  risk_tiers, RiskProfile, Target, Why, tier_rank, rpartition, override_of, add_override,
  parse_overrides, first_row, tier_rows, auto_tier, is_match, override_for, base_tier,
  apply_override, apply_floor, classify,
}

-- One of the four tiers.
abbrev pub is_tier : Text → Bool
is_tier t = any (text_eq t) risk_tiers

-- The settings that the configuration lets through.
abbrev pub IsDeclared : RiskProfile → Type 0
IsDeclared p =
    (text_eq p.profile (codes "auto") || is_tier p.profile ≡ true)
    × (is_tier p.min_tier ≡ true)
    × All (λ o. is_tier o.1 ≡ true) p.overrides

rows-tier :
    (rows : List (Bool × (Text × Why)))
    → All (λ row. is_tier row.1.0 ≡ true) rows
    → is_tier (first_row rows).0 ≡ true
rows-tier [] h = refl
rows-tier ((true, row) ∷ rows) h = h.0
rows-tier ((false, row) ∷ rows) h = rows-tier rows h.1

floor-rank :
    (min_tier : Text) (r : Text × List Why)
    → tier_rank (apply_floor min_tier r).0 ≤ tier_rank min_tier
floor-rank min_tier r = elim (Bool-cases (ltb (tier_rank min_tier) (tier_rank r.0))) [
  | inl e ↦ rw e (omega arith)
  | inr e ↦ rw e (ground arith)
]

floor-tier :
    (min_tier : Text) (r : Text × List Why)
    → is_tier min_tier ≡ true
    → is_tier r.0 ≡ true
    → is_tier (apply_floor min_tier r).0 ≡ true
floor-tier min_tier r h k = elim (Bool-cases (ltb (tier_rank min_tier) (tier_rank r.0))) [
  | inl e ↦ rw e h
  | inr e ↦ rw e k
]

abbrev OptionOk : Option (Text × Text) → Type 0
OptionOk none = Unit
OptionOk (some o) = is_tier o.1 ≡ true

override-tier :
    (o : Option (Text × Text)) (r : Text × List Why)
    → OptionOk o
    → is_tier r.0 ≡ true
    → is_tier (apply_override o r).0 ≡ true
override-tier none r h k = k
override-tier (some o) r h k = h

if-OptionOk :
    (b : Bool) (x y : Option (Text × Text))
    → OptionOk x
    → OptionOk y
    → OptionOk (if b then x else y)
if-OptionOk true x y h k = h
if-OptionOk false x y h k = k

base-tier :
    (p : RiskProfile) (auto : Text × Why)
    → IsDeclared p
    → is_tier auto.0 ≡ true
    → is_tier (base_tier p auto).0 ≡ true
base-tier p auto h k = elim (Bool-cases (text_eq p.profile (codes "auto"))) [
  | inl e ↦ rw e k
  | inr e ↦ rw e (ground (arith, h.0))
]

override_of-OptionOk : (parts : Option (Text × Text)) → OptionOk (override_of parts)
override_of-OptionOk none = tt
override_of-OptionOk (some (pattern, tier)) =
    elim (Bool-cases (is_empty (strip pattern) || not (is_tier (lower (strip tier))))) [
      | inl e ↦ rw e tt
      | inr e ↦ rw e (ground (arith, e))
    ]

abbrev ListOk : Option (List (Text × Text)) → Type 0
ListOk none = Unit
ListOk (some os) = All (λ o. is_tier o.1 ≡ true) os

add_override-ListOk :
    (o : Option (Text × Text)) (rest : Option (List (Text × Text)))
    → OptionOk o
    → ListOk rest
    → ListOk (add_override o rest)
add_override-ListOk none rest h k = tt
add_override-ListOk (some o) none h k = tt
add_override-ListOk (some o) (some rest) h k = (h, k)

parse_overrides-ListOk : (values : List Text) → ListOk (parse_overrides values)
parse_overrides-ListOk [] = tt
parse_overrides-ListOk (raw ∷ values) = elim (Bool-cases (is_empty (strip raw))) [
  | inl e ↦ rw e (parse_overrides-ListOk values)
  | inr e ↦ rw e (
      add_override-ListOk (override_of (rpartition (strip raw))) (parse_overrides values)
        (override_of-OptionOk (rpartition (strip raw))) (parse_overrides-ListOk values))
]

module _ (fnmatch path_match : (path pattern : Text) → Bool) (name_of : Text → Text) where
  override_for-OptionOk :
      (path : Text) (overrides : List (Text × Text)) (match : Option (Text × Text))
      → OptionOk match
      → All (λ o. is_tier o.1 ≡ true) overrides
      → OptionOk (override_for fnmatch path_match name_of path match overrides)
  override_for-OptionOk path [] match h k = h
  override_for-OptionOk path (o ∷ overrides) match h k =
      override_for-OptionOk path overrides
        (if is_match fnmatch path_match name_of path o.0 then some o else match)
        (if-OptionOk (is_match fnmatch path_match name_of path o.0) (some o) match k.0 h) k.1

module _ (fragments : Text → List Text) (opaque has_length : Text → Bool) where
  auto_tier-tier : (u : Target) → is_tier (auto_tier fragments opaque has_length u).0 ≡ true
  auto_tier-tier u =
      rows-tier (tier_rows fragments opaque has_length u)
        (refl, (refl, (refl, (refl, (refl, (refl, (refl, (refl, (refl, (refl, tt))))))))))

  -- Under settings that the configuration lets through, every unit gets one of the four tiers, and
  -- never a tier below the floor `min_tier`, whatever overrides say.
  pub classify-floor :
      (fnmatch path_match : (path pattern : Text) → Bool) (name_of : Text → Text) (u : Target)
      (p : RiskProfile)
      → IsDeclared p
      → let tier = (classify fragments opaque has_length fnmatch path_match name_of u p).0 in
        (is_tier tier ≡ true) × (tier_rank tier ≤ tier_rank p.min_tier)
  unfolding classify
  classify-floor fnmatch path_match name_of u p h =
      let before =
        apply_override (override_for fnmatch path_match name_of u.path none p.overrides)
          (base_tier p (auto_tier fragments opaque has_length u)) in
      (
        floor-tier p.min_tier before h.1 (
            override-tier (override_for fnmatch path_match name_of u.path none p.overrides)
              (base_tier p (auto_tier fragments opaque has_length u))
              (override_for-OptionOk fnmatch path_match name_of u.path p.overrides none tt h.2)
              (base-tier p (auto_tier fragments opaque has_length u) h (auto_tier-tier u))),
        floor-rank p.min_tier before,
      )
