-- ===== src/Ingest/Foreign.antt =====
-- Notes by their users, as the queries of app/ingest.py and app/mcp_tools.py find them.
use vegapunk_web.Base.{
  ℕ, not, Option, none, some, List, [], ◌∷◌, keep, All, In, eqb, eqb_iff, if◌then◌else◌, ◌≡◌, ◌≢◌,
  refl, ap, sym, subst, ◌∙◌, inl, inr, Bool-cases,
}
use vegapunk_web.Text.{Text, text_eq}
use vegapunk_web.Notes.{Note, id_of, note_by_id, note_by_title}
use vegapunk_web.Ingest.{set_body, owned}
use vegapunk_web.Ingest.Links.{note_by_title-Found, Key, key, keys, IsFound, note_by_id-IsFound}
use vegapunk_web.Ingest.Soundness.{AreDistinct}

-- The notes of all users but one.
abbrev pub foreign : ℕ → List Note → List Note
foreign user_id = keep (λ (n : Note). not (eqb n.user_id user_id))

-- Every note with the id is of the user.
abbrev pub OfUser : ℕ → ℕ → List Note → Type 0
OfUser i user_id = All (λ (n : Note). n.id ≡ i → n.user_id ≡ user_id)

pub foreign-set_body :
    (user_id i : ℕ) (body : Text) (ns : List Note)
    → OfUser i user_id ns
    → foreign user_id (set_body i body ns) ≡ foreign user_id ns
foreign-set_body user_id i body [] h = refl
foreign-set_body user_id i body (n ∷ ns) (h, hs) = elim (Bool-cases (eqb n.id i)) [
  | inl e ↦
      rw (e, (eqb_iff n.user_id user_id).1 (h ((eqb_iff n.id i).0 e)))
        (foreign-set_body user_id i body ns hs)
  | inr e ↦ rw e (
      ap (λ (ms : List Note). if not (eqb n.user_id user_id) then n ∷ ms else ms)
        (foreign-set_body user_id i body ns hs))
]

pub foreign-others :
    (user_id i : ℕ) (ns : List Note)
    → OfUser i user_id ns
    → foreign user_id (keep (λ (n : Note). not (eqb n.id i)) ns) ≡ foreign user_id ns
foreign-others user_id i [] h = refl
foreign-others user_id i (n ∷ ns) (h, hs) = elim (Bool-cases (eqb n.id i)) [
  | inl e ↦
      rw (e, (eqb_iff n.user_id user_id).1 (h ((eqb_iff n.id i).0 e)))
        (foreign-others user_id i ns hs)
  | inr e ↦ rw e (
      ap (λ (ms : List Note). if not (eqb n.user_id user_id) then n ∷ ms else ms)
        (foreign-others user_id i ns hs))
]

All-at : (P : Key → Type 0) (k : Key) (ks : List Key) → All P ks → In k ks → P k
All-at P k [] h i = absurd i
All-at P k (j ∷ ks) (h, hs) (inl e) = subst P (sym e) h
All-at P k (j ∷ ks) (h, hs) (inr i) = All-at P k ks hs i

-- With distinct ids, a note found by its id or its title is of the user it was found for.
distinct-OfUser :
    (k : Key) (ns : List Note) → AreDistinct (keys ns) → In k (keys ns) → OfUser k.0 k.1 ns
distinct-OfUser k [] d h = tt
distinct-OfUser k (n ∷ ns) (d, ds) (inl e) = (λ q. sym (ap (λ (j : Key). j.1) e), rest ns d)
  where
    rest :
        (ms : List Note)
        → All (λ (j : Key). (j.0 ≢ n.id) × (j.1 ≡ n.user_id → j.2 ≢ n.title)) (keys ms)
        → OfUser k.0 k.1 ms
    rest [] h = tt
    rest (m ∷ ms) (h, hs) = (λ q. absurd (h.0 (q ∙ ap (λ (j : Key). j.0) e)), rest ms hs)
distinct-OfUser k (n ∷ ns) (d, ds) (inr h) =
    ((λ q. absurd ((All-at _ k (keys ns) d h).0 (sym q))), distinct-OfUser k ns ds h)

pub note_by_title-OfUser :
    (user_id : ℕ) (title : Text) (ns : List Note) (n : Note)
    → AreDistinct (keys ns)
    → note_by_title user_id title ns ≡ some n
    → OfUser n.id user_id ns
note_by_title-OfUser user_id title ns n d e =
    let (k, m, a, b, c) = note_by_title-Found user_id title ns n.id (ap id_of e) in
    subst (λ (i : ℕ). OfUser i user_id ns) a
      (subst (λ (u : ℕ). OfUser k.0 u ns) b (distinct-OfUser k ns d m))

pub owned-OfUser :
    (user_id i : ℕ) (ns : List Note) (n : Note)
    → AreDistinct (keys ns)
    → owned user_id (note_by_id i ns) ≡ some n
    → OfUser i user_id ns
owned-OfUser user_id i ns n d = go (note_by_id i ns) (note_by_id-IsFound i ns)
  where
    go : (o : Option Note) → IsFound i ns o → owned user_id o ≡ some n → OfUser i user_id ns
    go none f q = cc
    go (some m) (h, e) q = elim (Bool-cases (eqb m.user_id user_id)) [
      | inl t ↦
          subst (λ (j : ℕ). OfUser j user_id ns) e
            (subst (λ (u : ℕ). OfUser m.id u ns) ((eqb_iff m.user_id user_id).0 t)
              (distinct-OfUser (key m) ns d h))
      | inr t ↦ cc (rw t at q)
    ]
