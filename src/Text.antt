-- ===== src/Text.antt =====
-- Python's `str` as the list of its code points, with the methods that the program calls.
pub mod Laws
pub mod Dedupe
pub mod Lines
use Prim.Native.Char.{code}
use Prim.Native.String.{String}
use vegapunk_web.Base.{
  ℕ, zero, suc, ◌+◌, Bool, true, false, ◌&&◌, ◌||◌, List, [], ◌∷◌, ◌++◌, leb, eqb, eqb_iff, Equals,
  list_beq, list_beq_iff, is_nil, ◌≡◌, refl, if◌then◌else◌,
}

abbrev pub Text : Type 0
Text = List ℕ

-- Equality of texts; shut in proofs, and tests unfold `list_beq`.
instance abbrev pub text_eq : Equals Text
text_eq = record { same = list_beq eqb; same_iff = list_beq_iff eqb eqb_iff }

-- The code points of a literal.
abbrev pub codes : String → Text
codes String.[] = []
codes (String.◌∷◌ c s) = code c ∷ codes s

abbrev within : ℕ → ℕ → ℕ → Bool
within lo hi c = leb lo c && leb c hi

-- `c.isspace()`, which is also the class `\s` of `re`.
unfoldable pub is_space : ℕ → Bool
is_space c =
    within 9 13 c
    || within 28 32 c
    || eqb c 0x85
    || eqb c 0xa0
    || eqb c 0x1680
    || within 0x2000 0x200a c
    || within 0x2028 0x2029 c
    || eqb c 0x202f
    || eqb c 0x205f
    || eqb c 0x3000

-- `s.lstrip()`
unfoldable pub lstrip : Text → Text
unfolding is_space
lstrip [] = []
lstrip (c ∷ s) = let rest = lstrip s in if is_space c then rest else c ∷ s

abbrev pub cons_unless_space : ℕ → Text → Text
cons_unless_space c [] = if is_space c then [] else c ∷ []
cons_unless_space c (d ∷ s) = c ∷ d ∷ s

-- `s.rstrip()`
unfoldable pub rstrip : Text → Text
unfolding is_space
rstrip [] = []
rstrip (c ∷ s) = cons_unless_space c (rstrip s)

-- `s.strip()`
unfoldable pub strip : Text → Text
unfolding lstrip rstrip
strip s = rstrip (lstrip s)

module _ (p : ℕ → Bool) where
  abbrev drop_head : ℕ → Text → Text → Text
  drop_head c s rest = if p c then rest else c ∷ s

  abbrev cons_unless : ℕ → Text → Text
  cons_unless c [] = if p c then [] else c ∷ []
  cons_unless c (d ∷ s) = c ∷ d ∷ s

  abbrev pub lstrip_of : Text → Text
  lstrip_of [] = []
  lstrip_of (c ∷ s) = drop_head c s (lstrip_of s)

  abbrev pub rstrip_of : Text → Text
  rstrip_of [] = []
  rstrip_of (c ∷ s) = cons_unless c (rstrip_of s)

  -- `s.strip(chars)`, for the class `p` of the characters
  unfoldable pub strip_of : Text → Text
  strip_of s = rstrip_of (lstrip_of s)

abbrev pub cons_head : ℕ → List Text → List Text
cons_head c [] = (c ∷ []) ∷ []
cons_head c (p ∷ ps) = (c ∷ p) ∷ ps

-- The line boundaries of `s.splitlines()`.
unfoldable pub is_line_break : ℕ → Bool
is_line_break c = within 10 13 c || within 28 30 c || eqb c 0x85 || within 0x2028 0x2029 c

-- `s.splitlines()`; `cr` says that a carriage return stands in front, and a newline belongs to it.
unfoldable pub lines_behind : Bool → Text → List Text
unfolding is_line_break
lines_behind cr [] = []
lines_behind cr (c ∷ s) =
    let rest = lines_behind (eqb c b'\r') s in
    if cr && eqb c b'\n' then rest else if is_line_break c then [] ∷ rest else cons_head c rest

unfoldable pub splitlines : Text → List Text
unfolding lines_behind
splitlines s = lines_behind false s

-- `s.startswith(prefix)`
unfoldable pub starts_with : Text → Text → Bool
starts_with [] s = true
starts_with (p ∷ prefix) [] = false
starts_with (p ∷ prefix) (c ∷ s) = eqb p c && starts_with prefix s

-- `s.split(sep)`, for a separator of one character
unfoldable pub split : ℕ → Text → List Text
split sep [] = [] ∷ []
split sep (c ∷ s) = let rest = split sep s in if eqb c sep then [] ∷ rest else cons_head c rest

-- `sep.join(parts)`
unfoldable pub join : Text → List Text → Text
join sep [] = []
join sep (p ∷ []) = p
join sep (p ∷ q ∷ ps) = p ++ (sep ++ join sep (q ∷ ps))

pub text_beq_refl : (t : Text) → list_beq eqb t t ≡ true
text_beq_refl t = (text_eq.same_iff t t).1 refl
