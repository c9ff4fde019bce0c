-- ===== src/Text/Laws.antt =====
-- Laws of Text: the characters that are not whitespace under strip, split and join.
use vegapunk_web.Base.{
  ◌≢◌, ℕ, suc, ◌≤◌, Bool, true, not, List, [], ◌∷◌, ◌++◌, ◌≡◌, refl, ap, sym, ◌∙◌, arith, inl, inr,
  eqb, eqb_iff, keep, keep-append, concat, length, Bool-cases, append-nil,
}
use vegapunk_web.Text.{
  Text, is_space, lstrip, rstrip, strip, cons_unless_space, split, cons_head, join,
}

-- The characters of a text that are not whitespace.
abbrev pub visible : Text → Text
visible = keep (λ c. not (is_space c))

pub visible-append : (s t : Text) → visible (s ++ t) ≡ visible s ++ visible t
visible-append s t = keep-append (λ c. not (is_space c)) s t

visible-lstrip : (s : Text) → visible (lstrip s) ≡ visible s
unfolding lstrip
visible-lstrip [] = refl
visible-lstrip (c ∷ s) = elim (Bool-cases (is_space c)) [
  | inl e ↦ rw e (visible-lstrip s)
  | inr e ↦ rw e (rw e)
]

visible-cons_unless_space : (c : ℕ) (s : Text) → visible (cons_unless_space c s) ≡ visible (c ∷ s)
visible-cons_unless_space c [] = elim (Bool-cases (is_space c)) [
  | inl e ↦ rw e
  | inr e ↦ rw e (rw e)
]
visible-cons_unless_space c (d ∷ s) = refl

visible-rstrip : (s : Text) → visible (rstrip s) ≡ visible s
unfolding rstrip
visible-rstrip [] = refl
visible-rstrip (c ∷ s) = visible-cons_unless_space c (rstrip s) ∙ elim (Bool-cases (is_space c)) [
  | inl e ↦ rw e (visible-rstrip s)
  | inr e ↦ rw e (ap (◌∷◌ c) (visible-rstrip s))
]

pub visible-strip : (s : Text) → visible (strip s) ≡ visible s
unfolding strip
visible-strip s = visible-rstrip (lstrip s) ∙ visible-lstrip s

-- `strip` does nothing to a stripped text.
abbrev starts_visible : Text → Bool
starts_visible [] = true
starts_visible (c ∷ s) = not (is_space c)

starts_visible-lstrip : (s : Text) → starts_visible (lstrip s) ≡ true
unfolding lstrip
starts_visible-lstrip [] = refl
starts_visible-lstrip (c ∷ s) = elim (Bool-cases (is_space c)) [
  | inl e ↦ rw e (starts_visible-lstrip s)
  | inr e ↦ rw e (rw e)
]

starts_visible-rstrip : (s : Text) → starts_visible s ≡ true → starts_visible (rstrip s) ≡ true
unfolding rstrip
starts_visible-rstrip [] h = refl
starts_visible-rstrip (c ∷ s) h = go (rstrip s)
  where
    go : (t : Text) → starts_visible (cons_unless_space c t) ≡ true
    go [] = elim (Bool-cases (is_space c)) [ inl e ↦ rw e | inr e ↦ rw e (rw e) ]
    go (d ∷ t) = h

lstrip-eq_self : (s : Text) → starts_visible s ≡ true → lstrip s ≡ s
unfolding lstrip
lstrip-eq_self [] h = refl
lstrip-eq_self (c ∷ s) h = ground arith

rstrip-cons_unless_space :
    (c : ℕ) (t : Text) → rstrip t ≡ t → rstrip (cons_unless_space c t) ≡ cons_unless_space c t
unfolding rstrip
rstrip-cons_unless_space c [] h = elim (Bool-cases (is_space c)) [
  | inl e ↦ rw e
  | inr e ↦ rw e (rw e)
]
rstrip-cons_unless_space c (d ∷ t) h = ap (cons_unless_space c) h

rstrip-rstrip : (s : Text) → rstrip (rstrip s) ≡ rstrip s
unfolding rstrip
rstrip-rstrip [] = refl
rstrip-rstrip (c ∷ s) = rstrip-cons_unless_space c (rstrip s) (rstrip-rstrip s)

pub strip-strip : (s : Text) → strip (strip s) ≡ strip s
unfolding strip
strip-strip s =
    rw
      (lstrip-eq_self (rstrip (lstrip s))
        (starts_visible-rstrip (lstrip s) (starts_visible-lstrip s)))
      (rstrip-rstrip (lstrip s))

length-lstrip : (s : Text) → length (lstrip s) ≤ length s
unfolding lstrip
length-lstrip [] = omega arith
length-lstrip (c ∷ s) = elim (Bool-cases (is_space c)) [
  | inl e ↦ rw e (omega (arith, length-lstrip s))
  | inr e ↦ rw e (omega arith)
]

length-cons_unless_space : (c : ℕ) (t : Text) → length (cons_unless_space c t) ≤ suc (length t)
length-cons_unless_space c [] = elim (Bool-cases (is_space c)) [
  | inl e ↦ rw e (omega arith)
  | inr e ↦ rw e (omega arith)
]
length-cons_unless_space c (d ∷ t) = omega arith

length-rstrip : (s : Text) → length (rstrip s) ≤ length s
unfolding rstrip
length-rstrip [] = omega arith
length-rstrip (c ∷ s) = omega (arith, length-cons_unless_space c (rstrip s), length-rstrip s)

pub length-strip : (s : Text) → length (strip s) ≤ length s
unfolding strip
length-strip s = omega (arith, length-rstrip (lstrip s), length-lstrip s)

concat-cons_head : (c : ℕ) (ps : List Text) → concat (cons_head c ps) ≡ c ∷ concat ps
concat-cons_head c [] = refl
concat-cons_head c (p ∷ ps) = refl

-- Splitting at a whitespace character drops nothing visible.
pub visible-split :
    (sep : ℕ) (s : Text) → is_space sep ≡ true → visible (concat (split sep s)) ≡ visible s
unfolding split
visible-split sep [] h = refl
visible-split sep (c ∷ s) h = elim (Bool-cases (eqb c sep)) [
  | inl e ↦ rw (e, (eqb_iff c sep).0 e, h) (visible-split sep s h)
  | inr e ↦
      rw (e, concat-cons_head)
        (elim (Bool-cases (is_space c)) [
          | inl d ↦ rw d (visible-split sep s h)
          | inr d ↦ rw d (ap (◌∷◌ c) (visible-split sep s h))
        ])
]

pub visible-join :
    (sep : Text) (ps : List Text) → visible sep ≡ [] → visible (join sep ps) ≡ visible (concat ps)
unfolding join
visible-join sep [] h = refl
visible-join sep (p ∷ []) h = ap visible (sym (append-nil p))
visible-join sep (p ∷ q ∷ ps) h =
    visible-append p (sep ++ join sep (q ∷ ps))
    ∙ ap (◌++◌ (visible p))
        (visible-append sep (join sep (q ∷ ps)) ∙ rw h (visible-join sep (q ∷ ps) h))
    ∙ sym (visible-append p (concat (q ∷ ps)))

-- A stripped text that is not empty has something in it that is not whitespace.
pub visible-full : (t : Text) → strip t ≡ t → t ≢ [] → visible t ≢ []
unfolding strip
visible-full [] e n v = absurd (n refl)
visible-full (c ∷ t) e n v =
    let h : not (is_space c) ≡ true =
      ap starts_visible (sym e)
      ∙ starts_visible-rstrip (lstrip (c ∷ t)) (starts_visible-lstrip (c ∷ t)) in
    let w : c ∷ visible t ≡ [] = rw h at v in cc
