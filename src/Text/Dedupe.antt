-- ===== src/Text/Dedupe.antt =====
-- The loop that the program writes for a list without repetitions: clean a text, and append it if it
-- is not empty and not there yet. `seen` and `out` of the source have the same elements.
use vegapunk_web.Base.{
  true, false, not, ◌&&◌, List, [], ◌∷◌, ◌++◌, is_nil, contains, In, ◌⊎◌, contains→In,
  In-append_left, In-append_right, In-append_cases, if◌then◌else◌, if_intro, ◌≡◌, ◌≢◌, refl, inl,
  inr, arith, subst, sym, ap, append-nil, append_assoc, Bool-cases,
}
use vegapunk_web.Text.{Text, text_eq}

-- No text stands twice.
abbrev pub IsDistinct : List Text → Type 0
IsDistinct [] = Unit
IsDistinct (t ∷ ts) = (contains ts t ≡ false) × IsDistinct ts

contains-snoc_no :
    (xs : List Text) (a t : Text)
    → contains xs a ≡ false
    → (a ≡ t → ⊥)
    → contains (xs ++ (t ∷ [])) a ≡ false
contains-snoc_no [] a t h n = ground (arith, (text_eq.same_iff a t))
contains-snoc_no (x ∷ xs) a t h n = ground (arith, contains-snoc_no xs a t)

IsDistinct-snoc :
    (xs : List Text) (t : Text)
    → IsDistinct xs
    → contains xs t ≡ false
    → IsDistinct (xs ++ (t ∷ []))
IsDistinct-snoc [] t d h = (refl, tt)
IsDistinct-snoc (x ∷ xs) t d h = (
  contains-snoc_no xs x t d.0 (λ e. ground (arith, text_eq.same_iff t x)),
  IsDistinct-snoc xs t d.1 (ground (arith, text_eq.same_iff t x)),
)

pub is_nil-false : (t : Text) → is_nil t ≡ false → t ≢ []
is_nil-false [] h = cc
is_nil-false (c ∷ t) h = λ e. cc

pub is_nil-true : (t : Text) → is_nil t ≡ true → t ≡ []
is_nil-true [] h = refl
is_nil-true (c ∷ t) h = cc

In-one : (t u : Text) → In t (u ∷ []) → t ≡ u
In-one t u (inl e) = e
In-one t u (inr h) = absurd h

module _ (clean : Text → Text) where
  -- The body of the loop.
  unfoldable pub add_new : List Text → Text → List Text
  add_new out item =
      let t = clean item in if not (is_nil t) && not (contains out t) then out ++ (t ∷ []) else out

  unfoldable pub add_all : List Text → List Text → List Text
  add_all out [] = out
  add_all out (item ∷ items) = add_all (add_new out item) items

  -- What the loop has made of the items.
  pub record IsDeduped (items : List Text) (out : List Text) : Type 0 where
    pub distinct : IsDistinct out
    pub full : (t : Text) → In t out → t ≢ []
    pub sound : (t : Text) → In t out → (g : Text) × In g items × (t ≡ clean g)
    pub complete : (g : Text) → In g items → (clean g ≡ []) ⊎ In (clean g) out

  -- An item that adds nothing: it is empty when cleaned, or was there.
  IsDeduped-skip :
      (gs : List Text) (g : Text) (out : List Text)
      → IsDeduped gs out
      → (clean g ≡ []) ⊎ In (clean g) out
      → IsDeduped (gs ++ (g ∷ [])) out
  IsDeduped-skip gs g out h was = record {
    distinct = h.distinct;
    full = h.full;
    sound = λ t i. let (k, j, q) = h.sound t i in (k, In-append_left k gs (g ∷ []) j, q);
    complete = λ k i. elim (In-append_cases k gs (g ∷ []) i) [
      | inl l ↦ h.complete k l
      | inr r ↦ subst (λ (x : Text). (clean x ≡ []) ⊎ In (clean x) out) (sym (In-one k g r)) was
    ];
  }

  IsDeduped-add :
      (gs : List Text) (g : Text) (out : List Text)
      → IsDeduped gs out
      → clean g ≢ []
      → contains out (clean g) ≡ false
      → IsDeduped (gs ++ (g ∷ [])) (out ++ (clean g ∷ []))
  IsDeduped-add gs g out h n c =
      let title = clean g in
      record {
        distinct = IsDistinct-snoc out title h.distinct c;
        full = λ t i. elim (In-append_cases t out (title ∷ []) i) [
          | inl l ↦ h.full t l
          | inr r ↦ subst (λ (x : Text). x ≢ []) (sym (In-one t title r)) n
        ];
        sound = λ t i. elim (In-append_cases t out (title ∷ []) i) [
          | inl l ↦ let (k, j, q) = h.sound t l in (k, In-append_left k gs (g ∷ []) j, q)
          | inr r ↦ (g, In-append_right g gs (g ∷ []) (inl refl), In-one t title r)
        ];
        complete = λ k i. elim (In-append_cases k gs (g ∷ []) i) [
          | inl l ↦ elim (h.complete k l) [
            | inl empty ↦ inl empty
            | inr was ↦ inr (In-append_left (clean k) out (title ∷ []) was)
          ]
          | inr r ↦ inr (In-append_right (clean k) out (title ∷ []) (inl (ap clean (In-one k g r))))
        ];
      }

  IsDeduped-add_new :
      (gs : List Text) (g : Text) (out : List Text)
      → IsDeduped gs out
      → IsDeduped (gs ++ (g ∷ [])) (add_new out g)
  unfolding add_new
  IsDeduped-add_new gs g out h =
      let title = clean g in
      if_intro (IsDeduped (gs ++ (g ∷ []))) (not (is_nil title) && not (contains out title)) _ _
        (λ e. IsDeduped-add gs g out h (is_nil-false title (ground arith)) (ground arith))
        (λ e. IsDeduped-skip gs g out h (elim (Bool-cases (is_nil title)) [
          | inl empty ↦ inl (is_nil-true title empty)
          | inr full ↦ inr (contains→In out title (ground arith))
        ]))

  pub IsDeduped-add_all :
      (gs rest : List Text) (out : List Text)
      → IsDeduped gs out
      → IsDeduped (gs ++ rest) (add_all out rest)
  unfolding add_all
  IsDeduped-add_all gs [] out h = rw (append-nil gs) h
  IsDeduped-add_all gs (g ∷ rest) out h =
      subst (λ (x : List Text). IsDeduped x (add_all (add_new out g) rest))
        (append_assoc gs (g ∷ []) rest)
        (IsDeduped-add_all (gs ++ (g ∷ [])) rest (add_new out g) (IsDeduped-add_new gs g out h))

  pub add_all-IsDeduped : (items : List Text) → IsDeduped items (add_all [] items)
  add_all-IsDeduped items = IsDeduped-add_all [] items [] (record {
    distinct = tt;
    full = λ t i. absurd i;
    sound = λ t i. absurd i;
    complete = λ g i. absurd i;
  })
