-- ===== src/Risk.antt =====
-- code_analyzer/llm/risk.py: the risk tier of a scan unit. `fragments` stands for the words of a
-- path or a name, `opaque` and `has_length` for the searches of the two signature patterns,
-- `fnmatch` and `path_match` for the library's glob matching and `name_of` for PurePosixPath.name.
-- A reason keeps what its text is made of.
pub mod Floor
mod Examples
use code_analyzer.Prelude.{
  ℕ, zero, suc, ◌+◌, Bool, true, false, ◌&&◌, ◌||◌, not, Option, none, some, List, [], ◌∷◌, ◌++◌,
  map, ltb, ◌==◌, if◌then◌else◌, any,
}
use code_analyzer.Prelude.Text.{Text, text_eq, codes, strip, is_empty}
use code_analyzer.Schema.{lower}
use mathlib.Core.List.{reverse}

-- `RISK_TIERS`
abbrev pub risk_tiers : List Text
risk_tiers = map codes ("critical" ∷ "high" ∷ "medium" ∷ "low" ∷ [])

unfoldable pub critical_path : List Text
critical_path = map codes (
    "bootloader" ∷ "boot" ∷ "crypto" ∷ "secure" ∷ "security" ∷ "ipc" ∷ "attest" ∷ "tls" ∷ "ssl"
    ∷ "keystore" ∷ "keys" ∷ "cert" ∷ "signature" ∷ "verify" ∷ "mpu" ∷ "trustzone" ∷ "psa" ∷ [])

unfoldable pub critical_symbol : List Text
critical_symbol =
    map codes ("isr" ∷ "irq" ∷ "interrupt" ∷ "handler" ∷ "vector" ∷ "fault" ∷ "exception" ∷ [])

unfoldable pub high_path : List Text
high_path = map codes (
    "parse" ∷ "parser" ∷ "decode" ∷ "decoder" ∷ "codec" ∷ "proto" ∷ "protocol" ∷ "net" ∷ "network"
    ∷ "http" ∷ "tcp" ∷ "udp" ∷ "ip" ∷ "usb" ∷ "uart" ∷ "serial" ∷ "spi" ∷ "i2c" ∷ "can" ∷ "modbus"
    ∷ "packet" ∷ "frame" ∷ "message" ∷ "json" ∷ "xml" ∷ "asn1" ∷ "tlv" ∷ "dfu" ∷ "ota" ∷ "update"
    ∷ "firmware" ∷ "flash" ∷ "input" ∷ "command" ∷ "shell" ∷ "cli" ∷ [])

unfoldable pub high_symbol : List Text
high_symbol = map codes (
    "parse" ∷ "parser" ∷ "decode" ∷ "decoder" ∷ "unpack" ∷ "deserialize" ∷ "recv" ∷ "receive"
    ∷ "read" ∷ "scan" ∷ "handle" ∷ "process" ∷ "validate" ∷ "check" ∷ "verify" ∷ "load" ∷ "import"
    ∷ "extract" ∷ "convert" ∷ "input" ∷ "packet" ∷ "frame" ∷ "message" ∷ "cmd" ∷ "command" ∷ [])

unfoldable pub low_path : List Text
low_path = map codes (
    "led" ∷ "gpio" ∷ "config" ∷ "conf" ∷ "settings" ∷ "example" ∷ "demo" ∷ "test" ∷ "mock" ∷ "stub"
    ∷ [])

unfoldable pub low_symbol : List Text
low_symbol = map codes (
    "led" ∷ "gpio" ∷ "get" ∷ "is" ∷ "getter" ∷ "dump" ∷ "print" ∷ "log" ∷ "trace" ∷ "delay"
    ∷ "sleep" ∷ [])

-- `RiskProfile`
pub record RiskProfile : Type 0 where
  pub profile : Text
  pub min_tier : Text
  pub overrides : List (Text × Text)

-- What of a scan unit the tier depends on.
pub record Target : Type 0 where
  pub path : Text
  pub name : Text
  pub kind : Text
  pub signature : Text
  pub is_header : Bool
  pub dead : Bool

pub data Why : Type 0 where
  by_path by_symbol : (hits : List Text) → Why
  opaque_buffer_with_length header inactive_branch by_default : Why
  by_kind profile_is floored : Text → Why
  overridden : Text × Text → Why

abbrev pub index_of : Text → List Text → ℕ
index_of t [] = 0
index_of t (w ∷ words) = if text_eq t w then 0 else suc (index_of t words)

-- `tier_rank`
abbrev pub tier_rank : Text → ℕ
tier_rank tier = index_of (lower (strip tier)) risk_tiers

-- The text in front of and behind the last `=`, where there is one.
abbrev pub or_first : ℕ → Text → Option (Text × Text) → Option (Text × Text)
or_first c s (some (front, back)) = some (c ∷ front, back)
or_first c s none = if c == b'=' then some ([], s) else none

abbrev pub rpartition : Text → Option (Text × Text)
rpartition [] = none
rpartition (c ∷ s) = or_first c s (rpartition s)

-- One override, where its text is one.
abbrev pub override_of : Option (Text × Text) → Option (Text × Text)
override_of none = none
override_of (some (pattern, tier)) =
    if is_empty (strip pattern) || not (any (text_eq (lower (strip tier))) risk_tiers)
    then none
    else some (strip pattern, lower (strip tier))

abbrev pub add_override :
    Option (Text × Text) → Option (List (Text × Text)) → Option (List (Text × Text))
add_override (some o) (some rest) = some (o ∷ rest)
add_override _ _ = none

-- `parse_overrides`, none where it raises
abbrev pub parse_overrides : List Text → Option (List (Text × Text))
parse_overrides [] = some []
parse_overrides (raw ∷ values) =
    let rest = parse_overrides values in
    if is_empty (strip raw) then rest else add_override (override_of (rpartition (strip raw))) rest

abbrev pub hits : List Text → List Text → List Text
hits [] words = []
hits (w ∷ table) words =
    let rest = hits table words in if any (text_eq w) words then w ∷ rest else rest

abbrev pub is_function : Text → Bool
is_function kind = text_eq kind (codes "function")

-- The part of a signature from its first parenthesis on.
abbrev pub params_of : Text → Text
params_of [] = []
params_of (c ∷ s) = if c == b'(' then c ∷ s else params_of s

-- The first row of the tables that matches, in tier order; the last row is the default.
abbrev pub first_row : List (Bool × (Text × Why)) → Text × Why
first_row [] = (codes "medium", by_default)
first_row ((test, row) ∷ rows) = if test then row else first_row rows

module _ (fragments : Text → List Text) (opaque has_length : Text → Bool) where
  -- The rows of the signal tables, each with its test.
  abbrev pub tier_rows : Target → List (Bool × (Text × Why))
  tier_rows u =
      let parts = fragments u.path in
      let words = fragments u.name in
      let function = is_function u.kind in
      let found : List Text → Bool = λ h. not (is_empty h) in
      ((found (hits critical_path parts), (codes "critical", by_path (hits critical_path parts)))
        ∷ (
          function && found (hits critical_symbol words),
          (codes "critical", by_symbol (hits critical_symbol words)),
        )
        ∷ (
          function && opaque u.signature && has_length (params_of u.signature),
          (codes "critical", opaque_buffer_with_length),
        )
        ∷ (found (hits high_path parts), (codes "high", by_path (hits high_path parts)))
        ∷ (
          function && found (hits high_symbol words),
          (codes "high", by_symbol (hits high_symbol words)),
        )
        ∷ (not function, (codes "low", by_kind u.kind))
        ∷ (u.is_header, (codes "low", header))
        ∷ (u.dead, (codes "low", inactive_branch))
        ∷ (found (hits low_path parts), (codes "low", by_path (hits low_path parts)))
        ∷ (found (hits low_symbol words), (codes "low", by_symbol (hits low_symbol words)))
        ∷ [])

  -- `_auto_tier`
  abbrev pub auto_tier : Target → Text × Why
  auto_tier u = first_row (tier_rows u)

abbrev pub rstrip_slash : Text → Text
rstrip_slash s = reverse (strip_front (reverse s))
  where
    strip_front : Text → Text
    strip_front [] = []
    strip_front (c ∷ s) = let rest = strip_front s in if c == b'/' then rest else c ∷ s

abbrev pub starts_with : Text → Text → Bool
starts_with [] s = true
starts_with (c ∷ front) [] = false
starts_with (c ∷ front) (d ∷ s) = c == d && starts_with front s

module _ (fnmatch path_match : (path pattern : Text) → Bool) (name_of : Text → Text) where
  abbrev pub is_match : (path pattern : Text) → Bool
  is_match path pattern =
      let cleaned = rstrip_slash pattern in
      fnmatch path pattern
      || fnmatch (name_of path) pattern
      || text_eq path cleaned
      || starts_with (cleaned ++ codes "/") path
      || path_match path pattern

  -- `_override`: the last one that matches
  abbrev pub override_for : Text → Option (Text × Text) → List (Text × Text) → Option (Text × Text)
  override_for path match [] = match
  override_for path match (o ∷ overrides) =
      override_for path (if is_match path o.0 then some o else match) overrides

abbrev pub base_tier : RiskProfile → Text × Why → Text × List Why
base_tier p auto =
    if text_eq p.profile (codes "auto")
    then (auto.0, auto.1 ∷ [])
    else (p.profile, profile_is p.profile ∷ [])

abbrev pub apply_override : Option (Text × Text) → Text × List Why → Text × List Why
apply_override none r = r
apply_override (some o) r = (o.1, r.1 ++ overridden o ∷ [])

abbrev pub apply_floor : Text → Text × List Why → Text × List Why
apply_floor min_tier r =
    if ltb (tier_rank min_tier) (tier_rank r.0) then (min_tier, r.1 ++ floored min_tier ∷ []) else r

-- `classify`
pub classify :
    (fragments : Text → List Text) (opaque has_length : Text → Bool)
    (fnmatch path_match : (path pattern : Text) → Bool) (name_of : Text → Text)
    → Target
    → RiskProfile
    → Text × List Why
classify fragments opaque has_length fnmatch path_match name_of u p = apply_floor p.min_tier (
    apply_override (override_for fnmatch path_match name_of u.path none p.overrides)
      (base_tier p (auto_tier fragments opaque has_length u)))
