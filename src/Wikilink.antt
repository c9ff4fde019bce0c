-- ===== src/Wikilink.antt =====
-- app/wikilink.py: the titles of the links `[[title]]` and `[[title|alias]]` in the body of a note.
pub mod Titles
pub mod Matches
pub mod Rendered
pub mod Written
use vegapunk_web.Base.{
  ℕ, zero, suc, Bool, true, false, not, ◌&&◌, ◌||◌, Option, none, some, List, [], ◌∷◌, ◌++◌, length,
  drop, is_nil, contains, eqb, if◌then◌else◌,
}
use vegapunk_web.Text.Dedupe.{add_all}
use vegapunk_web.Text.{Text, text_eq, codes, starts_with, strip}

abbrev pub fence : Text
fence = codes "```"

abbrev pub tick : Text
tick = codes "`"

-- What stands behind the first `delim` of a text.
unfoldable pub behind : Text → Text → Option Text
behind delim [] = none
behind delim (c ∷ s) =
    let here = starts_with delim (c ∷ s) in
    let on = behind delim s in if here then some (drop (length delim) (c ∷ s)) else on

-- What stands behind a span `delim ... delim` at the head of a text.
unfoldable pub span_at : Text → Text → Option Text
unfolding behind
span_at delim s = if starts_with delim s then behind delim (drop (length delim) s) else none

unfoldable pub remove_fuel : ℕ → Text → Text → Text
remove_fuel zero delim s = s
remove_fuel (suc fuel) delim [] = []
remove_fuel (suc fuel) delim (c ∷ s) = elim (span_at delim (c ∷ s)) [
  | none ↦ c ∷ remove_fuel fuel delim s
  | some rest ↦ remove_fuel fuel delim rest
]

-- `_FENCE.sub("", s)` and `_INLINE.sub("", s)`; each round takes a character, so the length is fuel
-- enough.
unfoldable pub remove_spans : Text → Text → Text
unfolding remove_fuel span_at
remove_spans delim s = remove_fuel (length s) delim s

abbrev pub is_bracket : ℕ → Bool
is_bracket c = eqb c b'[' || eqb c b']'

-- `[^\[\]]+`, from the part `acc` on, and the `]]` behind it: the group, and the rest.
unfoldable pub group_at : Text → Text → Option (Text × Text)
group_at acc [] = none
group_at acc (c ∷ s) =
    let on = group_at (acc ++ (c ∷ [])) s in
    if is_bracket c
    then (if not (is_nil acc) && starts_with (codes "]]") (c ∷ s)
        then some (acc, drop 2 (c ∷ s))
        else none)
    else on

-- A match of `_LINK` at the head of a text.
unfoldable pub link_at : Text → Option (Text × Text)
unfolding group_at
link_at s = if starts_with (codes "[[") s then group_at [] (drop 2 s) else none

unfoldable pub groups_fuel : ℕ → Text → List Text
groups_fuel zero s = []
groups_fuel (suc fuel) [] = []
groups_fuel (suc fuel) (c ∷ s) = elim (link_at (c ∷ s)) [
  | none ↦ groups_fuel fuel s
  | some (group, rest) ↦ group ∷ groups_fuel fuel rest
]

-- The groups of `_LINK.finditer(s)`.
unfoldable pub groups : Text → List Text
unfolding groups_fuel link_at
groups s = groups_fuel (length s) s

-- `group.split("|", 1)[0]`
unfoldable pub before : ℕ → Text → Text
before sep [] = []
before sep (c ∷ s) = let rest = before sep s in if eqb c sep then [] else c ∷ rest

-- The title of a group of `_LINK`.
unfoldable pub title_of : Text → Text
unfolding before
title_of group = strip (before b'|' group)

unfoldable pub extract_links : Text → List Text
unfolding remove_spans groups title_of
extract_links body = add_all title_of [] (groups (remove_spans tick (remove_spans fence body)))
