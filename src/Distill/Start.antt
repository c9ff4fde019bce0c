-- ===== src/Distill/Start.antt =====
-- The search of _find_array_start of app/routes/distill.py.
use vegapunk_web.Base.{
  ℕ, zero, suc, ◌+◌, ◌<◌, Bool, true, false, ◌&&◌, Option, none, some, [], ◌∷◌, ◌++◌, drop, eqb,
  ◌≡◌, refl, ap, ◌∙◌, arith, Bool-cases, length, &&-true, All, inl, inr,
}
use mathlib.Core.Option.{some-injective}
use vegapunk_web.Text.{Text}
use vegapunk_web.Distill.{is_json_space, opens_array, find_start, find_array_start}

-- An array may start here.
unfoldable pub starts_array : Text → Bool
unfolding opens_array
starts_array [] = false
starts_array (c ∷ s) = eqb c b'[' && opens_array s

-- Nowhere in the first `n` places of the text may an array start.
abbrev pub NoStart : ℕ → Text → Type 0
NoStart n s = (i : ℕ) → i < n → starts_array (drop i s) ≡ false

find_start_sound :
    (k : ℕ) (s : Text) (n : ℕ)
    → find_start k s ≡ some n
    → (m : ℕ) × (n ≡ k + m) × (starts_array (drop m s) ≡ true) × NoStart m s
unfolding find_start starts_array
find_start_sound k [] n h = cc
find_start_sound k (c ∷ s) n h = elim (Bool-cases (eqb c b'[' && opens_array s)) [
  | inl e ↦ (0, ground arith, e, λ i lt. absurd (omega arith))
  | inr e ↦
      let (m, q, t, before) = find_start_sound (suc k) s n (rw e at h) in
      (suc m, omega (arith, q), t, later m e before)
]
  where
    later : (m : ℕ) → (eqb c b'[' && opens_array s) ≡ false → NoStart m s → NoStart (suc m) (c ∷ s)
    later m e before zero lt = e
    later m e before (suc i) lt = before i (omega arith)

find_start-none :
    (k : ℕ) (s : Text) → find_start k s ≡ none → (i : ℕ) → starts_array (drop i s) ≡ false
unfolding find_start starts_array
find_start-none k [] h zero = refl
find_start-none k [] h (suc i) = refl
find_start-none k (c ∷ s) h i = elim (Bool-cases (eqb c b'[' && opens_array s)) [
  | inl e ↦ cc (rw e at h)
  | inr e ↦ go i e (find_start-none (suc k) s (rw e at h))
]
  where
    go :
        (i : ℕ)
        → (eqb c b'[' && opens_array s) ≡ false
        → ((i : ℕ) → starts_array (drop i s) ≡ false)
        → starts_array (drop i (c ∷ s)) ≡ false
    go zero e rest = e
    go (suc i) e rest = rest i

-- What a result, or none, says of the text.
abbrev pub IsFirstStart : Text → Option ℕ → Type 0
IsFirstStart s none = (i : ℕ) → starts_array (drop i s) ≡ false
IsFirstStart s (some n) = (starts_array (drop n s) ≡ true) × NoStart n s

-- The result is the position of the first `[` behind which, but for spaces, stands `{` or `]`, and
-- there is no result only if the text has no such place.
pub find_array_start-IsFirstStart : (text : Text) → IsFirstStart text (find_array_start text)
unfolding find_array_start
find_array_start-IsFirstStart text = go (find_start 0 text) refl
  where
    go : (o : Option ℕ) → find_start 0 text ≡ o → IsFirstStart text o
    go none e = find_start-none 0 text e
    go (some n) e =
        let (m, q, t, before) = find_start_sound 0 text n e in
        let n_eq : n ≡ m = omega (arith, q) in rw n_eq (t, before)

-- A text that has a start also has it with more text behind it.
opens_array-append :
    (k : ℕ) (s post : Text) (n : ℕ)
    → find_start k s ≡ some n
    → opens_array (s ++ post) ≡ opens_array s
unfolding find_start opens_array
opens_array-append k [] post n h = cc
opens_array-append k (c ∷ s) post n h = elim (Bool-cases (is_json_space c)) [
  | inl e ↦ rw e (opens_array-append (suc k) s post n (skip e))
  | inr e ↦ rw e
]
  where
    skip : is_json_space c ≡ true → find_start (suc k) s ≡ some n
    skip e = ground arith

opens_array-append_true : (s post : Text) → opens_array s ≡ true → opens_array (s ++ post) ≡ true
unfolding opens_array
opens_array-append_true [] post h = cc
opens_array-append_true (c ∷ s) post h = elim (Bool-cases (is_json_space c)) [
  | inl e ↦ rw e (opens_array-append_true s post (rw e at h))
  | inr e ↦ rw e (rw e at h)
]

pub find_start-append :
    (k : ℕ) (s post : Text) (n : ℕ) → find_start k s ≡ some n → find_start k (s ++ post) ≡ some n
unfolding find_start
find_start-append k [] post n h = cc
find_start-append k (c ∷ s) post n h = elim (Bool-cases (eqb c b'[' && opens_array s)) [
  | inl e ↦
      let (b, o) = &&-true (eqb c b'[') (opens_array s) e in
      rw (b, opens_array-append_true s post o) (rw (b, o) at h)
  | inr e ↦
      let r : find_start (suc k) s ≡ some n = rw e at h in
      rw (opens_array-append (suc k) s post n r, e) (find_start-append (suc k) s post n r)
]

-- A text without `[` in front only moves the start.
pub find_start-skip :
    (k : ℕ) (pre s : Text)
    → All (λ c. eqb c b'[' ≡ false) pre
    → find_start k (pre ++ s) ≡ find_start (k + length pre) s
unfolding find_start
find_start-skip k [] s h = ap (λ (x : ℕ). find_start x s) (omega arith)
find_start-skip k (c ∷ pre) s h =
    rw (h.0) (find_start-skip (suc k) pre s h.1 ∙ ap (λ (x : ℕ). find_start x s) (omega arith))

pub find_start_shift :
    (j k : ℕ) (s : Text) (n : ℕ) → find_start j s ≡ some n → find_start (k + j) s ≡ some (k + n)
unfolding find_start
find_start_shift j k [] n h = cc
find_start_shift j k (c ∷ s) n h = elim (Bool-cases (eqb c b'[' && opens_array s)) [
  | inl e ↦ rw e (ap (λ (x : ℕ). some (k + x)) (some-injective j n (rw e at h)))
  | inr e ↦
      rw e
        (ap (λ (x : ℕ). find_start x s) (step_eq j k) ∙ find_start_shift (suc j) k s n (rw e at h))
]
  where
    step_eq : (j k : ℕ) → suc (k + j) ≡ k + suc j
    step_eq j k = omega arith
