-- ===== src/Chunking/Regions.antt =====
-- The fenced regions of the lines of a body that app/chunking.py splits.
use vegapunk_web.Base.{
  Bool, true, false, not, List, [], ◌∷◌, ◌++◌, ◌≡◌, refl, ◌∙◌, ◌⊎◌, All, if◌then◌else◌,
}
use vegapunk_web.Text.{Text, strip, starts_with, join}
use vegapunk_web.Chunking.{fence, newline}
use vegapunk_web.Chunking.CodeBlocks.{IsFence, IsPlain}

-- Whether a fence is open behind the lines: each line that starts with a fence opens or closes one.
unfoldable pub is_open : Bool → List Text → Bool
is_open o [] = o
is_open o (l ∷ ls) = is_open (if starts_with fence (strip l) then not o else o) ls

-- A fenced region of the lines: from a line that opens a fence to the next line that starts with
-- one, or to the end.
pub record IsRegion (lines region : List Text) : Type 0 where
  pub before : List Text
  pub rest : List Text
  pub opening : Text
  pub inner : List Text
  pub closing : List Text
  pub splits : lines ≡ before ++ (region ++ rest)
  pub outside : is_open false before ≡ false
  pub shape : region ≡ opening ∷ (inner ++ closing)
  pub opens : IsFence opening
  pub plain : All IsPlain inner
  pub ends : ((closing ≡ []) × (rest ≡ [])) ⊎ ((l : Text) × (closing ≡ l ∷ []) × IsFence l)

-- The text is a fenced region, stripped.
abbrev pub IsCode : List Text → Text → Type 0
IsCode lines t = (region : List Text) × IsRegion lines region × (t ≡ strip (join newline region))

abbrev pub BlockIsCode : List Text → Text × Bool → Type 0
BlockIsCode lines (t, true) = IsCode lines t
BlockIsCode lines (t, false) = Unit

pub is_open-append :
    (o : Bool) (ls ms : List Text) → is_open o (ls ++ ms) ≡ is_open (is_open o ls) ms
unfolding is_open
is_open-append o [] ms = refl
is_open-append o (l ∷ ls) ms =
    is_open-append (if starts_with fence (strip l) then not o else o) ls ms

pub is_open-plain : (o : Bool) (ls : List Text) → All IsPlain ls → is_open o ls ≡ o
unfolding is_open
is_open-plain o [] h = refl
is_open-plain o (l ∷ ls) h = rw h.0 (is_open-plain o ls h.1)

pub is_open-fence : (o : Bool) (l : Text) → IsFence l → is_open o (l ∷ []) ≡ not o
unfolding is_open
is_open-fence o l h = rw h refl

pub is_open-region :
    (before inner : List Text) (opening : Text)
    → is_open false before ≡ false
    → IsFence opening
    → All IsPlain inner
    → is_open false (before ++ (opening ∷ inner)) ≡ true
unfolding is_open
is_open-region before inner opening o f h =
    is_open-append false before (opening ∷ inner) ∙ rw o (rw f (is_open-plain true inner h))
