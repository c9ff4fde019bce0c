-- ===== src/Wikilink/Rendered.antt =====
-- Bodies that are written piece by piece, and what the patterns of app/wikilink.py for code take out
-- of them.
use vegapunk_web.Base.{
  ℕ, true, false, Option, some, List, [], ◌∷◌, ◌++◌, All, All-append, drop, length, eqb, ◌≡◌, ◌≢◌,
  refl, ap, sym, ◌∙◌, append_assoc,
}
use vegapunk_web.Text.{Text, codes, starts_with}
use vegapunk_web.Wikilink.{fence, tick, behind, span_at, remove_spans, is_bracket}
use vegapunk_web.Wikilink.Matches.{past_span, matches_to_the_end}

-- `[[title]]`, `[[title|alias]]`, a code span between ticks, and one between fences.
pub data Piece : Type 0 where
  link : Text → Piece
  aliased : Text → Text → Piece
  inline fenced : Text → Piece

abbrev pub opening : Text
opening = codes "[["

abbrev pub closing : Text
closing = codes "]]"

abbrev pub shown : Piece → Text
shown (link t) = opening ++ (t ++ closing)
shown (aliased t a) = opening ++ ((t ++ (b'|' ∷ a)) ++ closing)
shown (inline c) = tick ++ (c ++ tick)
shown (fenced c) = fence ++ (c ++ fence)

-- The pieces, each as `f` shows it and with the text behind it.
abbrev pub written : (Piece → Text) → List (Piece × Text) → Text
written f [] = []
written f ((p, after) ∷ ps) = f p ++ (after ++ written f ps)

-- The titles of the links, as they are written.
abbrev pub titles : List (Piece × Text) → List Text
titles [] = []
titles ((link t, after) ∷ ps) = t ∷ titles ps
titles ((aliased t a, after) ∷ ps) = t ∷ titles ps
titles ((inline c, after) ∷ ps) = titles ps
titles ((fenced c, after) ∷ ps) = titles ps

-- No ticks; no ticks and no brackets; no bar.
abbrev pub IsTickless : Text → Type 0
IsTickless = All (λ c. eqb b'`' c ≡ false)

abbrev pub IsBracketless : Text → Type 0
IsBracketless = All (λ c. is_bracket c ≡ false)

abbrev pub IsBarless : Text → Type 0
IsBarless = All (λ c. eqb c b'|' ≡ false)

-- A piece that can be told from its text: the inside of a link has no ticks and no brackets and its
-- title is not empty and has no bar; code has no ticks, and between single ticks it is not empty.
abbrev pub IsPiece : Piece → Type 0
IsPiece (link t) = (t ≢ []) × IsTickless t × IsBracketless t × IsBarless t
IsPiece (aliased t a) =
    (t ≢ []) × IsTickless t × IsBracketless t × IsBarless t × IsTickless a × IsBracketless a
IsPiece (inline c) = (c ≢ []) × IsTickless c
IsPiece (fenced c) = IsTickless c

-- A text that stands between pieces.
abbrev pub IsBetween : Text → Type 0
IsBetween after = (after ≢ []) × IsTickless after × IsBracketless after

abbrev pub ArePieces : List (Piece × Text) → Type 0
ArePieces [] = Unit
ArePieces ((p, after) ∷ ps) = IsPiece p × IsBetween after × ArePieces ps

-- What the first pass leaves of a piece, and what the second one leaves.
unfoldable pub unfenced : Piece → Text
unfenced (link t) = opening ++ (t ++ closing)
unfenced (aliased t a) = opening ++ ((t ++ (b'|' ∷ a)) ++ closing)
unfenced (inline c) = tick ++ (c ++ tick)
unfenced (fenced c) = []

unfoldable pub uncoded : Piece → Text
uncoded (link t) = opening ++ (t ++ closing)
uncoded (aliased t a) = opening ++ ((t ++ (b'|' ∷ a)) ++ closing)
uncoded (inline c) = []
uncoded (fenced c) = []

-- A character that is no tick stays, and so does a tick that opens no span.
remove_spans-stays :
    (delim : Text) (c : ℕ) (s : Text)
    → starts_with (b'`' ∷ delim) (c ∷ s) ≡ false
    → remove_spans (b'`' ∷ delim) (c ∷ s) ≡ c ∷ remove_spans (b'`' ∷ delim) s
unfolding span_at
remove_spans-stays delim c s e =
    let (_, m, _, _) = matches_to_the_end b'`' delim c s in m ∙ rw e refl

pub remove_spans-tickless :
    (delim s r : Text)
    → IsTickless s
    → remove_spans (b'`' ∷ delim) (s ++ r) ≡ s ++ remove_spans (b'`' ∷ delim) r
unfolding starts_with
remove_spans-tickless delim [] r h = refl
remove_spans-tickless delim (c ∷ s) r h =
    remove_spans-stays delim c (s ++ r) (rw h.0 refl)
    ∙ ap (◌∷◌ c) (remove_spans-tickless delim s r h.1)

behind-tickless :
    (delim s r : Text)
    → IsTickless s
    → starts_with (b'`' ∷ delim) ((b'`' ∷ delim) ++ r) ≡ true
    → drop (length (b'`' ∷ delim)) ((b'`' ∷ delim) ++ r) ≡ r
    → behind (b'`' ∷ delim) (s ++ ((b'`' ∷ delim) ++ r)) ≡ some r
unfolding behind starts_with
behind-tickless delim [] r h e d = rw (e, d) refl
behind-tickless delim (c ∷ s) r h e d = rw h.0 (behind-tickless delim s r h.1 e d)

-- A span at the head of a text is taken out.
remove_spans-span :
    (delim c r : Text)
    → IsTickless c
    → starts_with (b'`' ∷ delim) ((b'`' ∷ delim) ++ (c ++ ((b'`' ∷ delim) ++ r))) ≡ true
    → drop (length (b'`' ∷ delim)) ((b'`' ∷ delim) ++ (c ++ ((b'`' ∷ delim) ++ r)))
      ≡ c ++ ((b'`' ∷ delim) ++ r)
    → starts_with (b'`' ∷ delim) ((b'`' ∷ delim) ++ r) ≡ true
    → drop (length (b'`' ∷ delim)) ((b'`' ∷ delim) ++ r) ≡ r
    → remove_spans (b'`' ∷ delim) ((b'`' ∷ delim) ++ (c ++ ((b'`' ∷ delim) ++ r)))
      ≡ remove_spans (b'`' ∷ delim) r
remove_spans-span delim c r h e d e' d' =
    let (_, m, _, _) = matches_to_the_end b'`' delim b'`' (delim ++ (c ++ ((b'`' ∷ delim) ++ r))) in
    let found : span_at (b'`' ∷ delim) ((b'`' ∷ delim) ++ (c ++ ((b'`' ∷ delim) ++ r))) ≡ some r =
      unfold span_at in rw e (ap (behind (b'`' ∷ delim)) d ∙ behind-tickless delim c r h e' d') in
    m
    ∙ ap
        (λ (o : Option Text).
          past_span (remove_spans (b'`' ∷ delim)) b'`' (delim ++ (c ++ ((b'`' ∷ delim) ++ r))) o)
        found

IsTickless-link : (g : Text) → IsTickless g → IsTickless (opening ++ (g ++ closing))
IsTickless-link g h =
    (refl, (refl, All-append (λ c. eqb b'`' c ≡ false) g closing h (refl, (refl, tt))))

IsTickless-group : (t a : Text) → IsTickless t → IsTickless a → IsTickless (t ++ (b'|' ∷ a))
IsTickless-group t a h k = All-append (λ c. eqb b'`' c ≡ false) t (b'|' ∷ a) h (refl, k)

-- A tick before a character that is none opens no fence.
lone_tick :
    (s r : Text)
    → s ≢ []
    → IsTickless s
    → remove_spans fence (b'`' ∷ (s ++ r)) ≡ b'`' ∷ (s ++ remove_spans fence r)
unfolding starts_with
lone_tick [] r n h = absurd (n refl)
lone_tick (c ∷ s) r n h =
    remove_spans-stays (codes "``") b'`' (c ∷ (s ++ r)) (rw h.0 refl)
    ∙ ap (◌∷◌ b'`') (remove_spans-tickless (codes "``") (c ∷ s) r h)

-- The first pass takes the fenced code out, and nothing else.
pub remove_spans-fence :
    (ps : List (Piece × Text))
    → ArePieces ps
    → remove_spans fence (written shown ps) ≡ written unfenced ps
unfolding starts_with unfenced
remove_spans-fence [] h = (matches_to_the_end b'`' (codes "``") 0 []).0
remove_spans-fence ((link t, after) ∷ ps) (p, b, h) =
    remove_spans-tickless (codes "``") (opening ++ (t ++ closing)) (after ++ written shown ps)
      (IsTickless-link t p.1)
    ∙ ap (◌++◌ (opening ++ (t ++ closing))) (
        remove_spans-tickless (codes "``") after (written shown ps) b.1
        ∙ ap (◌++◌ after) (remove_spans-fence ps h))
remove_spans-fence ((aliased t a, after) ∷ ps) (p, b, h) =
    let g = t ++ (b'|' ∷ a) in
    remove_spans-tickless (codes "``") (opening ++ (g ++ closing)) (after ++ written shown ps)
      (IsTickless-link g (IsTickless-group t a p.1 p.4))
    ∙ ap (◌++◌ (opening ++ (g ++ closing))) (
        remove_spans-tickless (codes "``") after (written shown ps) b.1
        ∙ ap (◌++◌ after) (remove_spans-fence ps h))
remove_spans-fence ((inline c, after) ∷ ps) (p, b, h) =
    ap (λ (s : Text). remove_spans fence (b'`' ∷ s))
      (append_assoc c tick (after ++ written shown ps))
    ∙ lone_tick c (b'`' ∷ (after ++ written shown ps)) p.0 p.1
    ∙ ap (λ (s : Text). b'`' ∷ (c ++ s))
        (lone_tick after (written shown ps) b.0 b.1
          ∙ ap (λ (s : Text). b'`' ∷ (after ++ s)) (remove_spans-fence ps h))
    ∙ ap (◌∷◌ b'`') (sym (append_assoc c tick (after ++ written unfenced ps)))
remove_spans-fence ((fenced c, after) ∷ ps) (p, b, h) =
    ap (λ (s : Text). remove_spans fence (fence ++ s))
      (append_assoc c fence (after ++ written shown ps))
    ∙ remove_spans-span (codes "``") c (after ++ written shown ps) p refl refl refl refl
    ∙ remove_spans-tickless (codes "``") after (written shown ps) b.1
    ∙ ap (◌++◌ after) (remove_spans-fence ps h)

-- The second pass takes the inline code out.
pub remove_spans-tick :
    (ps : List (Piece × Text))
    → ArePieces ps
    → remove_spans tick (written unfenced ps) ≡ written uncoded ps
unfolding starts_with unfenced uncoded
remove_spans-tick [] h = (matches_to_the_end b'`' [] 0 []).0
remove_spans-tick ((link t, after) ∷ ps) (p, b, h) =
    remove_spans-tickless [] (opening ++ (t ++ closing)) (after ++ written unfenced ps)
      (IsTickless-link t p.1)
    ∙ ap (◌++◌ (opening ++ (t ++ closing))) (
        remove_spans-tickless [] after (written unfenced ps) b.1
        ∙ ap (◌++◌ after) (remove_spans-tick ps h))
remove_spans-tick ((aliased t a, after) ∷ ps) (p, b, h) =
    let g = t ++ (b'|' ∷ a) in
    remove_spans-tickless [] (opening ++ (g ++ closing)) (after ++ written unfenced ps)
      (IsTickless-link g (IsTickless-group t a p.1 p.4))
    ∙ ap (◌++◌ (opening ++ (g ++ closing))) (
        remove_spans-tickless [] after (written unfenced ps) b.1
        ∙ ap (◌++◌ after) (remove_spans-tick ps h))
remove_spans-tick ((inline c, after) ∷ ps) (p, b, h) =
    ap (λ (s : Text). remove_spans tick (b'`' ∷ s))
      (append_assoc c tick (after ++ written unfenced ps))
    ∙ remove_spans-span [] c (after ++ written unfenced ps) p.1 refl refl refl refl
    ∙ remove_spans-tickless [] after (written unfenced ps) b.1
    ∙ ap (◌++◌ after) (remove_spans-tick ps h)
remove_spans-tick ((fenced c, after) ∷ ps) (p, b, h) =
    remove_spans-tickless [] after (written unfenced ps) b.1
    ∙ ap (◌++◌ after) (remove_spans-tick ps h)
