-- ===== src/Text/Lines.antt =====
-- Characters that an operation on texts does not bring in, and the lines of a text.
use vegapunk_web.Base.{
  ℕ, Bool, false, ◌&&◌, List, [], ◌∷◌, take, drop, All, All-append_left, take-append-drop, if_intro,
  ◌≡◌, subst, sym, eqb,
}
use vegapunk_web.Text.{
  Text, is_space, lstrip, rstrip, strip, cons_unless_space, cons_head, is_line_break, lines_behind,
  splitlines,
}

module _ (P : ℕ → Type 0) where
  pub All-lstrip : (s : Text) → All P s → All P (lstrip s)
  unfolding lstrip
  All-lstrip [] h = tt
  All-lstrip (c ∷ s) h = if_intro (All P) (is_space c) _ _ (λ _. All-lstrip s h.1) (λ _. h)

  All-cons_unless_space : (c : ℕ) (s : Text) → P c → All P s → All P (cons_unless_space c s)
  All-cons_unless_space c [] p h = if_intro (All P) (is_space c) _ _ (λ _. tt) (λ _. (p, tt))
  All-cons_unless_space c (d ∷ s) p h = (p, h)

  pub All-rstrip : (s : Text) → All P s → All P (rstrip s)
  unfolding rstrip
  All-rstrip [] h = tt
  All-rstrip (c ∷ s) h = All-cons_unless_space c (rstrip s) h.0 (All-rstrip s h.1)

  pub All-strip : (s : Text) → All P s → All P (strip s)
  unfolding strip
  All-strip s h = All-rstrip (lstrip s) (All-lstrip s h)

  pub All-take : (n : ℕ) (s : Text) → All P s → All P (take n s)
  All-take n s h =
      All-append_left P (take n s) (drop n s) (subst (All P) (sym (take-append-drop n s)) h)

-- No line boundary in a text.
abbrev pub IsLine : Text → Type 0
IsLine s = All (λ c. is_line_break c ≡ false) s

All-cons_head :
    (c : ℕ) (ls : List Text) → is_line_break c ≡ false → All IsLine ls → All IsLine (cons_head c ls)
All-cons_head c [] e h = ((e, tt), tt)
All-cons_head c (l ∷ ls) e h = ((e, h.0), h.1)

lines_behind-IsLine : (cr : Bool) (s : Text) → All IsLine (lines_behind cr s)
unfolding lines_behind
lines_behind-IsLine cr [] = tt
lines_behind-IsLine cr (c ∷ s) =
    let ih = lines_behind-IsLine (eqb c b'\r') s in
    if_intro (All IsLine) (cr && eqb c b'\n') _ _ (λ _. ih)
      (λ _.
        if_intro (All IsLine) (is_line_break c) _ _ (λ _. (tt, ih))
          (λ e. All-cons_head c (lines_behind (eqb c b'\r') s) e ih))

pub splitlines-IsLine : (s : Text) → All IsLine (splitlines s)
unfolding splitlines
splitlines-IsLine s = lines_behind-IsLine false s
