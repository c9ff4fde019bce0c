-- ===== src/Chunking/Long.antt =====
-- The loops of _split_long of app/chunking.py: their characters, and the lengths of their chunks.
use vegapunk_web.Base.{
  ℕ, zero, suc, ◌+◌, ◌≤◌, true, not, ◌&&◌, List, [], ◌∷◌, ◌++◌, map, leb, ltb, is_nil, concat,
  length, take, drop, if◌then◌else◌, ◌≡◌, refl, ap, sym, ◌∙◌, arith, inl, inr, All, All-append,
  length-take, length-drop, take-append-drop, append_assoc, append-nil, Bool-cases, concat-append,
  leb→le, if_intro,
}
use vegapunk_web.Text.{Text, is_space, strip, split, cons_head}
use vegapunk_web.Text.Laws.{visible, visible-append, visible-strip, visible-split}
use vegapunk_web.Chunking.{
  max_chunk_chars, blank, SentMode, mode_after, sent_split, nonempty, line_units, pack, slices_fuel,
  slices, slice_long, split_long,
}

pub is_nil_eq : (s : Text) → is_nil s ≡ true → s ≡ []
is_nil_eq [] h = refl
is_nil_eq (c ∷ s) h = cc

concat-nonempty : (ps : List Text) → concat (nonempty ps) ≡ concat ps
concat-nonempty [] = refl
concat-nonempty ([] ∷ ps) = concat-nonempty ps
concat-nonempty ((c ∷ p) ∷ ps) = ap (◌++◌ (c ∷ p)) (concat-nonempty ps)

visible-concat-cons_head :
    (c : ℕ) (ps : List Text) → visible (concat (cons_head c ps)) ≡ visible (c ∷ concat ps)
visible-concat-cons_head c [] = refl
visible-concat-cons_head c (p ∷ ps) = refl

visible-cons : (c : ℕ) (s t : Text) → visible s ≡ visible t → visible (c ∷ s) ≡ visible (c ∷ t)
visible-cons c s t h = elim (Bool-cases (is_space c)) [
  | inl e ↦ rw e h
  | inr e ↦ rw e (ap (◌∷◌ c) h)
]

visible-space : (c : ℕ) (s : Text) → is_space c ≡ true → visible (c ∷ s) ≡ visible s
visible-space c s e = rw e

visible-sent_split : (m : SentMode) (s : Text) → visible (concat (sent_split m s)) ≡ visible s
unfolding sent_split
visible-sent_split SentMode.inside [] = refl
visible-sent_split SentMode.ended [] = refl
visible-sent_split SentMode.gap [] = refl
visible-sent_split SentMode.inside (c ∷ s) =
    visible-concat-cons_head c (sent_split (mode_after c) s)
    ∙ visible-cons c _ s (visible-sent_split (mode_after c) s)
visible-sent_split SentMode.ended (c ∷ s) =
    if_intro (λ ps. visible (concat ps) ≡ visible (c ∷ s)) (is_space c) _ _
      (λ e. visible-sent_split SentMode.gap s ∙ sym (visible-space c s e))
      (λ _.
        visible-concat-cons_head c (sent_split (mode_after c) s)
        ∙ visible-cons c _ s (visible-sent_split (mode_after c) s))
visible-sent_split SentMode.gap (c ∷ s) =
    if_intro (λ ps. visible (concat ps) ≡ visible (c ∷ s)) (is_space c) _ _
      (λ e. visible-sent_split SentMode.gap s ∙ sym (visible-space c s e))
      (λ _.
        visible-concat-cons_head c (sent_split (mode_after c) s)
        ∙ visible-cons c _ s (visible-sent_split (mode_after c) s))

visible-line_units : (raw : Text) → visible (concat (line_units raw)) ≡ visible raw
unfolding line_units
visible-line_units raw =
    if_intro (λ ps. visible (concat ps) ≡ visible raw) (is_nil (strip raw)) _ _
      (λ e. ap visible (sym (is_nil_eq (strip raw) e)) ∙ visible-strip raw)
      (λ _.
        if_intro (λ ps. visible (concat ps) ≡ visible raw)
          (leb (length (strip raw)) max_chunk_chars) _ _
          (λ _. ap visible (append-nil (strip raw)) ∙ visible-strip raw)
          (λ _.
            ap visible (concat-nonempty (sent_split SentMode.inside (strip raw)))
            ∙ visible-sent_split SentMode.inside (strip raw)
            ∙ visible-strip raw))

visible-concat-append :
    (ps qs : List Text) → visible (concat (ps ++ qs)) ≡ visible (concat ps) ++ visible (concat qs)
visible-concat-append ps qs =
    ap visible (concat-append ps qs) ∙ visible-append (concat ps) (concat qs)

visible-units :
    (lines : List Text) → visible (concat (concat (map line_units lines))) ≡ visible (concat lines)
visible-units [] = refl
visible-units (l ∷ ls) =
    visible-concat-append (line_units l) (concat (map line_units ls))
    ∙ rw (visible-line_units l) (ap (◌++◌ (visible l)) (visible-units ls))
    ∙ sym (visible-append l (concat ls))

visible-extend :
    (buf u : Text)
    → visible (if is_nil buf then u else buf ++ (blank ++ u)) ≡ visible buf ++ visible u
visible-extend [] u = refl
visible-extend (b ∷ buf) u =
    visible-append (b ∷ buf) (blank ++ u)
    ∙ ap (◌++◌ (visible (b ∷ buf))) (visible-space 32 u (unfold is_space in refl))

visible-pack :
    (buf : Text) (us : List Text)
    → visible (concat (pack buf us)) ≡ visible buf ++ visible (concat us)
unfolding pack
visible-pack [] [] = refl
visible-pack (b ∷ buf) [] = ap visible (append-nil (b ∷ buf)) ∙ sym (append-nil (visible (b ∷ buf)))
visible-pack buf (u ∷ us) =
    if_intro (λ ps. visible (concat ps) ≡ visible buf ++ visible (concat (u ∷ us)))
      (not (is_nil buf) && ltb max_chunk_chars (length buf + 1 + length u)) _ _
      (λ _.
        visible-append buf (concat (pack u us))
        ∙ ap (◌++◌ (visible buf)) (visible-pack u us ∙ sym (visible-append u (concat us))))
      (λ _.
        visible-pack (if is_nil buf then u else buf ++ (blank ++ u)) us
        ∙ rw (visible-extend buf u) (
            append_assoc (visible buf) (visible u) (visible (concat us))
            ∙ ap (◌++◌ (visible buf)) (sym (visible-append u (concat us)))))

concat-slices_fuel : (fuel : ℕ) (c : Text) → length c ≤ fuel → concat (slices_fuel fuel c) ≡ c
unfolding slices_fuel
concat-slices_fuel zero [] h = refl
concat-slices_fuel zero (x ∷ c) h = absurd (omega arith)
concat-slices_fuel (suc fuel) [] h = refl
concat-slices_fuel (suc fuel) (x ∷ c) h =
    ap (◌++◌ (take max_chunk_chars (x ∷ c))) (
      concat-slices_fuel fuel (drop max_chunk_chars (x ∷ c))
        (omega (arith, length-drop max_chunk_chars (x ∷ c))))
    ∙ take-append-drop max_chunk_chars (x ∷ c)

-- The fuel suffices: the slices are the text.
pub concat-slices : (c : Text) → concat (slices c) ≡ c
unfolding slices
concat-slices c = concat-slices_fuel (length c) c (omega arith)

concat-slice_long : (c : Text) → concat (slice_long c) ≡ c
concat-slice_long c =
    if_intro (λ ps. concat ps ≡ c) (leb (length c) max_chunk_chars) _ _ (λ _. append-nil c)
      (λ _. concat-slices c)

concat-map-slice_long : (cs : List Text) → concat (concat (map slice_long cs)) ≡ concat cs
concat-map-slice_long [] = refl
concat-map-slice_long (c ∷ cs) =
    concat-append (slice_long c) (concat (map slice_long cs))
    ∙ rw (concat-slice_long c) (ap (◌++◌ c) (concat-map-slice_long cs))

-- `_split_long` keeps every character that is not whitespace, in its order.
pub visible-split_long : (text : Text) → visible (concat (split_long text)) ≡ visible text
unfolding split_long
visible-split_long text =
    let units = concat (map line_units (split b'\n' text)) in
    ap visible (concat-map-slice_long (pack [] units))
    ∙ visible-pack [] units
    ∙ visible-units (split b'\n' text)
    ∙ visible-split b'\n' text (unfold is_space in refl)

slices_fuel-bound :
    (fuel : ℕ) (c : Text) → All (λ p. length p ≤ max_chunk_chars) (slices_fuel fuel c)
unfolding slices_fuel
slices_fuel-bound zero c = tt
slices_fuel-bound (suc fuel) [] = tt
slices_fuel-bound (suc fuel) (x ∷ c) = (
  omega (arith, length-take max_chunk_chars (x ∷ c)),
  slices_fuel-bound fuel (drop max_chunk_chars (x ∷ c)),
)

slice_long-bound : (c : Text) → All (λ p. length p ≤ max_chunk_chars) (slice_long c)
unfolding slices
slice_long-bound c =
    if_intro (All (λ p. length p ≤ max_chunk_chars)) (leb (length c) max_chunk_chars) _ _
      (λ e. (leb→le _ _ e, tt)) (λ _. slices_fuel-bound (length c) c)

map-slice_long-bound :
    (cs : List Text) → All (λ p. length p ≤ max_chunk_chars) (concat (map slice_long cs))
map-slice_long-bound [] = tt
map-slice_long-bound (c ∷ cs) =
    All-append (λ p. length p ≤ max_chunk_chars) (slice_long c) (concat (map slice_long cs))
      (slice_long-bound c) (map-slice_long-bound cs)

-- Every chunk of `_split_long` is within the bound.
pub split_long-bound : (text : Text) → All (λ p. length p ≤ max_chunk_chars) (split_long text)
unfolding split_long
split_long-bound text = map-slice_long-bound (pack [] (concat (map line_units (split b'\n' text))))
