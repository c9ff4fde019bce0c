-- ===== src/Distill/Scanning.antt =====
-- The loop of extract_json_array of app/routes/distill.py.
use mathlib.Core.Option.{some-injective}
use vegapunk_web.Base.{
  ℕ, zero, suc, ◌+◌, true, false, Option, none, some, [], ◌∷◌, ◌++◌, drop, length, All, eqb, ◌≡◌,
  ◌≢◌, ◌⊎◌, refl, ap, sym, ◌∙◌, arith, inl, inr, Bool-cases,
}
use vegapunk_web.Text.{Text}
use vegapunk_web.Json.{Codec}
use vegapunk_web.Distill.{
  find_start, Scan, scan_char, closes, scan, start_scan, array_text, extract_json_array,
}
use vegapunk_web.Distill.Start.{find_start-append, find_start-skip, find_start_shift}

-- How the loop goes on from a character.
scan_inv :
    (s : Scan) (c : ℕ) (text out : Text)
    → scan s (c ∷ text) ≡ some out
    → (closes s c ≡ true) × (out ≡ (scan_char s c).0)
      ⊎ (closes s c ≡ false)
        × ((more : Text) × (scan (scan_char s c).1 text ≡ some more)
            × (out ≡ (scan_char s c).0 ++ more))
unfolding scan
scan_inv s c text out h = elim (Bool-cases (closes s c)) [
  | inl e ↦ inl (e, sym (some-injective (scan_char s c).0 out (rw e at h)))
  | inr e ↦ inr (e, go (scan (scan_char s c).1 text) (rw e at h))
]
  where
    go :
        (o : Option Text)
        → elim o [ none ↦ none | some more ↦ some ((scan_char s c).0 ++ more) ] ≡ some out
        → (more : Text) × (o ≡ some more) × (out ≡ (scan_char s c).0 ++ more)
    go none h = cc
    go (some more) h = (more, refl, sym (some-injective ((scan_char s c).0 ++ more) out h))

pub scan_cons :
    (s : Scan) (c : ℕ) (text more : Text)
    → closes s c ≡ false
    → scan (scan_char s c).1 text ≡ some more
    → scan s (c ∷ text) ≡ some ((scan_char s c).0 ++ more)
unfolding scan
scan_cons s c text more h e = rw (h, e)

pub scan_close :
    (s : Scan) (c : ℕ) (text : Text)
    → closes s c ≡ true
    → scan s (c ∷ text) ≡ some (scan_char s c).0
unfolding scan
scan_close s c text h = rw h

-- Text behind the end of the array changes nothing.
scan-append :
    (s : Scan) (text post out : Text) → scan s text ≡ some out → scan s (text ++ post) ≡ some out
unfolding scan
scan-append s [] post out h = cc
scan-append s (c ∷ text) post out h = elim (scan_inv s c text out h) [
  | inl (e, q) ↦ scan_close s c (text ++ post) e ∙ ap some (sym q)
  | inr (e, r) ↦
      scan_cons s c (text ++ post) r.0 e (scan-append (scan_char s c).1 text post r.0 r.1)
      ∙ ap some (sym r.2)
]

pub array_text_of_start :
    (text : Text) (n : ℕ)
    → find_start 0 text ≡ some n
    → array_text text ≡ scan start_scan (drop n text)
unfolding array_text
array_text_of_start text n h = rw (h, array_text)

find_of_array_text :
    (text out : Text)
    → array_text text ≡ some out
    → (n : ℕ) × (find_start 0 text ≡ some n) × (scan start_scan (drop n text) ≡ some out)
unfolding array_text
find_of_array_text text out = go (find_start 0 text) refl
  where
    go :
        (o : Option ℕ)
        → find_start 0 text ≡ o
        → elim o [ none ↦ none | some start ↦ scan start_scan (drop start text) ] ≡ some out
        → (n : ℕ) × (find_start 0 text ≡ some n) × (scan start_scan (drop n text) ≡ some out)
    go none e h = cc
    go (some n) e h = (n, e, h)

drop_behind : (pre s : Text) (n : ℕ) → drop (length pre + n) (pre ++ s) ≡ drop n s
drop_behind [] s n = ap (λ (x : ℕ). drop x s) (omega arith)
drop_behind (c ∷ pre) s n =
    ap (λ (x : ℕ). drop x (c ∷ (pre ++ s))) (step_eq (length pre) n) ∙ drop_behind pre s n
  where
    step_eq : (a b : ℕ) → suc a + b ≡ suc (a + b)
    step_eq a b = omega arith

drop-append : (n : ℕ) (s post : Text) → drop n s ≢ [] → drop n (s ++ post) ≡ drop n s ++ post
drop-append zero s post h = refl
drop-append (suc n) [] post h = absurd (h refl)
drop-append (suc n) (c ∷ s) post h = drop-append n s post h

start_behind :
    (pre text post : Text) (n : ℕ)
    → All (λ c. eqb c b'[' ≡ false) pre
    → find_start 0 text ≡ some n
    → find_start 0 (pre ++ (text ++ post)) ≡ some (length pre + n)
start_behind pre text post n h f =
    find_start-skip 0 pre (text ++ post) h
    ∙ ap (λ (k : ℕ). find_start k (text ++ post)) (zero_add (length pre))
    ∙ find_start_shift 0 (length pre) (text ++ post) n (find_start-append 0 text post n f)
  where
    zero_add : (k : ℕ) → 0 + k ≡ k + 0
    zero_add k = omega arith

scan-nil : (s : Scan) (t out : Text) → scan s t ≡ some out → t ≢ []
unfolding scan
scan-nil s [] out h e = cc
scan-nil s (c ∷ t) out h e = cc

pub array_text-surrounded :
    (pre text post out : Text)
    → All (λ c. eqb c b'[' ≡ false) pre
    → array_text text ≡ some out
    → array_text (pre ++ (text ++ post)) ≡ some out
array_text-surrounded pre text post out h a =
    let (n, f, sc) = find_of_array_text text out a in
    array_text_of_start (pre ++ (text ++ post)) (length pre + n) (start_behind pre text post n h f)
    ∙ ap (scan start_scan)
        (drop_behind pre (text ++ post) n ∙ drop-append n text post (scan-nil start_scan _ out sc))
    ∙ scan-append start_scan (drop n text) post out sc

-- Where the text holds an array, neither more text behind it nor text without `[` in front of it
-- changes what is extracted.
pub extract_json_array-surrounded :
    (codec : Codec) (pre text post out : Text)
    → All (λ c. eqb c b'[' ≡ false) pre
    → array_text text ≡ some out
    → extract_json_array codec (pre ++ (text ++ post)) ≡ extract_json_array codec text
unfolding extract_json_array
extract_json_array-surrounded codec pre text post out h a =
    rw (array_text-surrounded pre text post out h a, extract_json_array)
      (rw (a, extract_json_array))
