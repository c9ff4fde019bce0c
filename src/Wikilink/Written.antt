-- ===== src/Wikilink/Written.antt =====
-- The links of a body that is written piece by piece, extract_links of app/wikilink.py.
use vegapunk_web.Base.{List, [], ◌∷◌, ◌++◌}
use vegapunk_web.Text.{Text}
use vegapunk_web.Wikilink.Rendered.{Piece, link, aliased, inline, fenced}

-- The groups of the links.
groups_of : List (Piece × Text) → List Text
groups_of [] = []
groups_of ((link t, after) ∷ ps) = t ∷ groups_of ps
groups_of ((aliased t a, after) ∷ ps) = (t ++ (b'|' ∷ a)) ∷ groups_of ps
groups_of ((inline c, after) ∷ ps) = groups_of ps
groups_of ((fenced c, after) ∷ ps) = groups_of ps
