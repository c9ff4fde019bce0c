-- ===== src/Distill.antt =====
-- app/routes/distill.py: the search for a JSON array in the answer of an LLM. `json.loads` is a
-- parameter, the decoder of `Json`.
pub mod Start
pub mod Scanning
pub mod Request
pub mod Proposals
pub mod Complete
pub mod Repaired
use vegapunk_web.Base.{
  ℕ, zero, suc, ◌+◌, ◌-◌, Bool, true, false, ◌&&◌, ◌||◌, Option, none, some, List, [], ◌∷◌, ◌++◌,
  drop, eqb, if◌then◌else◌,
}
use vegapunk_web.Text.{Text, codes}
use vegapunk_web.Json.{Json, Items, arr, nil, Codec}

-- ` \t\r\n`
abbrev pub is_json_space : ℕ → Bool
is_json_space c = eqb c b' ' || eqb c b'\t' || eqb c b'\r' || eqb c b'\n'

-- The loop over `j`: behind the spaces stands `{` or `]`.
unfoldable pub opens_array : Text → Bool
opens_array [] = false
opens_array (c ∷ s) =
    let rest = opens_array s in if is_json_space c then rest else eqb c b'{' || eqb c b']'

-- `_find_array_start`, from the position `i` on; `none` is -1.
unfoldable pub find_start : ℕ → Text → Option ℕ
unfolding opens_array
find_start i [] = none
find_start i (c ∷ s) =
    let rest = find_start (suc i) s in if eqb c b'[' && opens_array s then some i else rest

unfoldable pub find_array_start : Text → Option ℕ
unfolding find_start
find_array_start text = find_start 0 text

-- The variables of the loop of `extract_json_array` but for `out`.
pub record Scan : Type 0 where
  pub depth : ℕ
  pub in_str : Bool
  pub esc : Bool

-- `_CTRL_ESCAPE`
unfoldable pub escaped : ℕ → Text
escaped c =
    if eqb c b'\n'
    then codes "\\n"
    else if eqb c b'\r'
    then codes "\\r"
    else if eqb c b'\t'
    then codes "\\t"
    else c ∷ []

-- One character: what goes to `out`, and the variables behind it.
unfoldable pub scan_in_str : Scan → ℕ → Text × Scan
unfolding escaped
scan_in_str s c =
    if s.esc
    then (c ∷ [], record s { esc = false })
    else if eqb c b'\\'
    then (c ∷ [], record s { esc = true })
    else if eqb c b'"'
    then (c ∷ [], record s { in_str = false })
    else (escaped c, s)

unfoldable pub scan_outside : Scan → ℕ → Text × Scan
scan_outside s c =
    if eqb c b'"'
    then (c ∷ [], record s { in_str = true })
    else if eqb c b'['
    then (c ∷ [], record s { depth = s.depth + 1 })
    else if eqb c b']'
    then (c ∷ [], record s { depth = s.depth - 1 })
    else (c ∷ [], s)

unfoldable pub scan_char : Scan → ℕ → Text × Scan
unfolding scan_in_str scan_outside
scan_char s c = if s.in_str then scan_in_str s c else scan_outside s c

-- The test that ends the loop: a `]` outside of strings that brings the depth to 0. The text starts
-- with `[`, so the depth is at least 1 before it.
abbrev pub closes : Scan → ℕ → Bool
closes s c = if s.in_str then false else eqb c b']' && eqb s.depth 1

-- The loop: the joined `out` at the closing bracket, or `none` when the text ends before.
unfoldable pub scan : Scan → Text → Option Text
unfolding scan_char
scan s [] = none
scan s (c ∷ text) =
    let (out, s') = scan_char s c in
    let rest = scan s' text in
    if closes s c then some out else elim rest [ none ↦ none | some more ↦ some (out ++ more) ]

abbrev pub start_scan : Scan
start_scan = record { depth = 0; in_str = false; esc = false }

-- The joined `out` of `extract_json_array`, if the loop finds the end of the array.
unfoldable pub array_text : Text → Option Text
unfolding find_array_start scan
array_text text = elim (find_array_start text) [
  | none ↦ none
  | some start ↦ scan start_scan (drop start text)
]

abbrev items_of : Option Json → Items
items_of (some (arr xs)) = xs
items_of _ = nil

-- `parsed if isinstance(parsed, list) else []`, a ValueError being `[]`
unfoldable pub extract_json_array : Codec → Text → Items
unfolding array_text
extract_json_array J text = elim (array_text text) [
  | none ↦ nil
  | some out ↦ items_of (J.loads out)
]
