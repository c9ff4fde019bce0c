-- ===== src/Wikilink/Matches.antt =====
-- The matches of the patterns of app/wikilink.py, one behind the other.
use vegapunk_web.Base.{
  ℕ, zero, suc, ◌≤◌, ◌&&◌, not, Option, none, some, List, [], ◌∷◌, ◌++◌, length, length-drop, drop,
  is_nil, if_intro, ◌≡◌, refl, ap, sym, ◌∙◌, arith,
}
use vegapunk_web.Text.{Text, codes, starts_with}
use vegapunk_web.Wikilink.{
  behind, span_at, remove_fuel, remove_spans, is_bracket, group_at, link_at, groups_fuel, groups,
}

-- No match is longer than the text it is in.
abbrev IsWithin : ℕ → Option Text → Type 0
IsWithin n none = Unit
IsWithin n (some rest) = length rest ≤ n

IsWithin-more : (m n : ℕ) (o : Option Text) → m ≤ n → IsWithin m o → IsWithin n o
IsWithin-more m n none h k = tt
IsWithin-more m n (some rest) h k = omega (arith, h, k)

behind-IsWithin : (delim s : Text) → IsWithin (length s) (behind delim s)
unfolding behind
behind-IsWithin delim [] = tt
behind-IsWithin delim (c ∷ s) =
    if_intro (IsWithin (length (c ∷ s))) (starts_with delim (c ∷ s)) _ _
      (λ _. omega (arith, length-drop (length delim) (c ∷ s)))
      (λ _.
        IsWithin-more (length s) (suc (length s)) (behind delim s) (omega arith)
          (behind-IsWithin delim s))

span_at-IsWithin :
    (d : ℕ) (delim : Text) (c : ℕ) (s : Text) → IsWithin (length s) (span_at (d ∷ delim) (c ∷ s))
unfolding span_at
span_at-IsWithin d delim c s =
    if_intro (IsWithin (length s)) (starts_with (d ∷ delim) (c ∷ s)) _ _
      (λ _.
        IsWithin-more (length (drop (length delim) s)) (length s)
          (behind (d ∷ delim) (drop (length delim) s)) (omega (arith, length-drop (length delim) s))
          (behind-IsWithin (d ∷ delim) (drop (length delim) s)))
      (λ _. tt)

abbrev rest_of : Option (Text × Text) → Option Text
rest_of none = none
rest_of (some (group, rest)) = some rest

group_at-IsWithin : (acc s : Text) → IsWithin (length s) (rest_of (group_at acc s))
unfolding group_at
group_at-IsWithin acc [] = tt
group_at-IsWithin acc (c ∷ s) =
    if_intro (λ o. IsWithin (length (c ∷ s)) (rest_of o)) (is_bracket c) _ _
      (λ _.
        if_intro (λ o. IsWithin (length (c ∷ s)) (rest_of o))
          (not (is_nil acc) && starts_with (codes "]]") (c ∷ s)) _ _
          (λ _. omega (arith, length-drop 2 (c ∷ s))) (λ _. tt))
      (λ _.
        IsWithin-more (length s) (suc (length s)) (rest_of (group_at (acc ++ (c ∷ [])) s))
          (omega arith) (group_at-IsWithin (acc ++ (c ∷ [])) s))

link_at-IsWithin : (c : ℕ) (s : Text) → IsWithin (length s) (rest_of (link_at (c ∷ s)))
unfolding link_at
link_at-IsWithin c s =
    if_intro (λ o. IsWithin (length s) (rest_of o)) (starts_with (codes "[[") (c ∷ s)) _ _
      (λ _.
        IsWithin-more (length (drop 1 s)) (length s) (rest_of (group_at [] (drop 1 s)))
          (omega (arith, length-drop 1 s)) (group_at-IsWithin [] (drop 1 s)))
      (λ _. tt)

-- One round of a loop, by the functions that go on behind the match or without one.
abbrev pub past_span : (Text → Text) → ℕ → Text → Option Text → Text
past_span on c s none = c ∷ on s
past_span on c s (some rest) = on rest

abbrev pub past_link : (Text → List Text) → Text → Option (Text × Text) → List Text
past_link on s none = on s
past_link on s (some (group, rest)) = group ∷ on rest

past_span-same :
    (a b : Text → Text) (c : ℕ) (s : Text) (o : Option Text)
    → IsWithin (length s) o
    → ((r : Text) → length r ≤ length s → a r ≡ b r)
    → past_span a c s o ≡ past_span b c s o
past_span-same a b c s none w h = ap (◌∷◌ c) (h s (omega arith))
past_span-same a b c s (some rest) w h = h rest w

past_link-same :
    (a b : Text → List Text) (s : Text) (o : Option (Text × Text))
    → IsWithin (length s) (rest_of o)
    → ((r : Text) → length r ≤ length s → a r ≡ b r)
    → past_link a s o ≡ past_link b s o
past_link-same a b s none w h = h s (omega arith)
past_link-same a b s (some (group, rest)) w h = ap (◌∷◌ group) (h rest w)

remove_fuel-suc :
    (f : ℕ) (delim : Text) (c : ℕ) (s : Text)
    → remove_fuel (suc f) delim (c ∷ s)
      ≡ past_span (remove_fuel f delim) c s (span_at delim (c ∷ s))
unfolding remove_fuel
remove_fuel-suc f delim c s = go (span_at delim (c ∷ s))
  where
    go :
        (o : Option Text)
        → (elim o [ none ↦ c ∷ remove_fuel f delim s | some rest ↦ remove_fuel f delim rest ])
          ≡ past_span (remove_fuel f delim) c s o
    go none = refl
    go (some rest) = refl

groups_fuel-suc :
    (f : ℕ) (c : ℕ) (s : Text)
    → groups_fuel (suc f) (c ∷ s) ≡ past_link (groups_fuel f) s (link_at (c ∷ s))
unfolding groups_fuel
groups_fuel-suc f c s = go (link_at (c ∷ s))
  where
    go :
        (o : Option (Text × Text))
        → (elim o [ none ↦ groups_fuel f s | some (group, rest) ↦ group ∷ groups_fuel f rest ])
          ≡ past_link (groups_fuel f) s o
    go none = refl
    go (some (group, rest)) = refl

-- Any two amounts of fuel that are not below the length give one result.
remove_fuel-enough :
    (f g d : ℕ) (delim s : Text)
    → length s ≤ f
    → length s ≤ g
    → remove_fuel f (d ∷ delim) s ≡ remove_fuel g (d ∷ delim) s
unfolding remove_fuel
remove_fuel-enough zero zero d delim s h k = refl
remove_fuel-enough zero (suc g) d delim [] h k = refl
remove_fuel-enough zero (suc g) d delim (c ∷ s) h k = absurd (omega (arith, h))
remove_fuel-enough (suc f) zero d delim [] h k = refl
remove_fuel-enough (suc f) zero d delim (c ∷ s) h k = absurd (omega (arith, k))
remove_fuel-enough (suc f) (suc g) d delim [] h k = refl
remove_fuel-enough (suc f) (suc g) d delim (c ∷ s) h k =
    remove_fuel-suc f (d ∷ delim) c s
    ∙ past_span-same (remove_fuel f (d ∷ delim)) (remove_fuel g (d ∷ delim)) c s
        (span_at (d ∷ delim) (c ∷ s)) (span_at-IsWithin d delim c s)
        (λ r w. remove_fuel-enough f g d delim r (omega (arith, h, w)) (omega (arith, k, w)))
    ∙ sym (remove_fuel-suc g (d ∷ delim) c s)

groups_fuel-enough :
    (f g : ℕ) (s : Text) → length s ≤ f → length s ≤ g → groups_fuel f s ≡ groups_fuel g s
unfolding groups_fuel
groups_fuel-enough zero zero s h k = refl
groups_fuel-enough zero (suc g) [] h k = refl
groups_fuel-enough zero (suc g) (c ∷ s) h k = absurd (omega (arith, h))
groups_fuel-enough (suc f) zero [] h k = refl
groups_fuel-enough (suc f) zero (c ∷ s) h k = absurd (omega (arith, k))
groups_fuel-enough (suc f) (suc g) [] h k = refl
groups_fuel-enough (suc f) (suc g) (c ∷ s) h k =
    groups_fuel-suc f c s
    ∙ past_link-same (groups_fuel f) (groups_fuel g) s (link_at (c ∷ s)) (link_at-IsWithin c s)
        (λ r w. groups_fuel-enough f g r (omega (arith, h, w)) (omega (arith, k, w)))
    ∙ sym (groups_fuel-suc g c s)

-- The two loops end on every text and do what the patterns say, round by round, for as long as there
-- is a text: with a delimiter that is not empty, remove_spans goes on behind a span at the head, or
-- keeps the character; groups takes the group of a link at the head and goes on behind the link, or
-- goes on behind the character. The fuel with which they are defined does not show.
pub matches_to_the_end :
    (d : ℕ) (delim : Text) (c : ℕ) (s : Text)
    → (remove_spans (d ∷ delim) [] ≡ [])
      × (remove_spans (d ∷ delim) (c ∷ s)
          ≡ past_span (remove_spans (d ∷ delim)) c s (span_at (d ∷ delim) (c ∷ s)))
      × (groups [] ≡ [])
      × (groups (c ∷ s) ≡ past_link groups s (link_at (c ∷ s)))
unfolding remove_spans groups remove_fuel groups_fuel
matches_to_the_end d delim c s = (
  refl,
  remove_fuel-suc (length s) (d ∷ delim) c s
      ∙ past_span-same (remove_fuel (length s) (d ∷ delim)) (remove_spans (d ∷ delim)) c s
          (span_at (d ∷ delim) (c ∷ s)) (span_at-IsWithin d delim c s)
          (λ r w. remove_fuel-enough (length s) (length r) d delim r w (omega arith)),
  refl,
  groups_fuel-suc (length s) c s
      ∙ past_link-same (groups_fuel (length s)) groups s (link_at (c ∷ s)) (link_at-IsWithin c s)
          (λ r w. groups_fuel-enough (length s) (length r) r w (omega arith)),
)
