-- ===== src/Ingest/Links.antt =====
-- The rows of notes and edges that app/indexing.py and app/ingest.py read and write.
use vegapunk_web.Base.{
  ℕ, ◌&&◌, true, Option, none, some, List, [], ◌∷◌, map, All, In, eqb, eqb_iff, if◌then◌else◌,
  if_intro, ◌≡◌, refl, sym, inl, inr, &&-true, Bool-cases, ◌==◌,
}
use vegapunk_web.Text.{Text, text_eq}
use vegapunk_web.Notes.{
  Note, Edge, note_by_id, note_by_title, id_of, upsert_edge, add_links, owns_source, is_unresolved,
}

-- What an edit of a body leaves of a note: its id, its user and its title.
abbrev pub Key : Type 0
Key = ℕ × ℕ × Text

abbrev pub key : Note → Key
key n = (n.id, n.user_id, n.title)

abbrev pub keys : List Note → List Key
keys = map key

-- A resolved link leads to a note of its title and of the user of its source.
pub record IsLinkTo (ks : List Key) (e : Edge) (i : ℕ) : Type 0 where
  pub source : Key
  pub target : Key
  pub source_in : In source ks
  pub target_in : In target ks
  pub from_source : source.0 ≡ e.src_note
  pub to_target : target.0 ≡ i
  pub same_title : target.2 ≡ e.dst_title
  pub same_user : target.1 ≡ source.1

abbrev pub IsLink : List Key → Edge → Type 0
IsLink ks e = (i : ℕ) → e.dst_note ≡ some i → IsLinkTo ks e i

abbrev pub Found : List Key → ℕ → ℕ → Text → Type 0
Found ks i user_id title = (k : Key) × In k ks × (k.0 ≡ i) × (k.1 ≡ user_id) × (k.2 ≡ title)

pub note_by_title-Found :
    (user_id : ℕ) (title : Text) (ns : List Note) (i : ℕ)
    → id_of (note_by_title user_id title ns) ≡ some i
    → Found (keys ns) i user_id title
unfolding note_by_title
note_by_title-Found user_id title [] i = λ h. cc
note_by_title-Found user_id title (n ∷ ns) i =
    if_intro (λ o. id_of o ≡ some i → Found (keys (n ∷ ns)) i user_id title)
      (eqb n.user_id user_id && (n.title == title)) _ _
      (λ e h.
        let (u, t) = &&-true (eqb n.user_id user_id) (n.title == title) e in
        (
          key n,
          inl refl,
          cc,
          (eqb_iff n.user_id user_id).0 u,
          (text_eq.same_iff n.title title).0 t,
        ))
      (λ _ h. let (k, m, a, b, c) = note_by_title-Found user_id title ns i h in (k, inr m, a, b, c))

abbrev pub IsFound : ℕ → List Note → Option Note → Type 0
IsFound i ns none = Unit
IsFound i ns (some n) = In (key n) (keys ns) × (n.id ≡ i)

pub note_by_id-IsFound : (i : ℕ) (ns : List Note) → IsFound i ns (note_by_id i ns)
unfolding note_by_id
note_by_id-IsFound i [] = tt
note_by_id-IsFound i (n ∷ ns) =
    if_intro (IsFound i (n ∷ ns)) (eqb n.id i) _ _ (λ e. (inl refl, (eqb_iff n.id i).0 e))
      (λ _. more (note_by_id i ns) (note_by_id-IsFound i ns))
  where
    more : (o : Option Note) → IsFound i ns o → IsFound i (n ∷ ns) o
    more none h = tt
    more (some m) (h, e) = (inr h, e)

upsert_edge-All :
    (P : Edge → Type 0) (e : Edge) (es : List Edge) → P e → All P es → All P (upsert_edge e es)
unfolding upsert_edge
upsert_edge-All P e [] h k = (h, tt)
upsert_edge-All P e (x ∷ xs) h (k, ks) =
    if_intro (All P) (eqb x.src_note e.src_note && (x.dst_title == e.dst_title)) _ _ (λ _. (h, ks))
      (λ _. (k, upsert_edge-All P e xs h ks))

pub add_links-All :
    (notes : List Note) (note : Note) (ts : List Text) (es : List Edge)
    → In (key note) (keys notes)
    → All (IsLink (keys notes)) es
    → All (IsLink (keys notes)) (add_links notes note ts es)
unfolding add_links
add_links-All notes note [] es h k = k
add_links-All notes note (t ∷ ts) es h k = add_links-All notes note ts _ h (
    upsert_edge-All (IsLink (keys notes)) _ es
      (λ i e.
        let (target, m, a, b, c) = note_by_title-Found note.user_id t notes i e in
        record {
          source = key note;
          target = target;
          source_in = h;
          target_in = m;
          from_source = refl;
          to_target = a;
          same_title = c;
          same_user = b;
        })
      k)

pub owns_source-Found :
    (user_id : ℕ) (ns : List Note) (src : ℕ)
    → owns_source user_id ns src ≡ true
    → (k : Key) × In k (keys ns) × (k.0 ≡ src) × (k.1 ≡ user_id)
owns_source-Found user_id [] src h = cc
owns_source-Found user_id (n ∷ ns) src h =
    elim (Bool-cases (eqb n.id src && eqb n.user_id user_id)) [
      | inl e ↦
          let (a, b) = &&-true (eqb n.id src) (eqb n.user_id user_id) e in
          (key n, inl refl, (eqb_iff n.id src).0 a, (eqb_iff n.user_id user_id).0 b)
      | inr e ↦ let (k, m, a, b) = owns_source-Found user_id ns src (rw e at h) in (k, inr m, a, b)
    ]

-- `resolve_inbound_links` on one edge.
abbrev pub resolved : Text → ℕ → ℕ → List Note → Edge → Edge
resolved title note_id user_id ns e =
    if owns_source user_id ns e.src_note && (e.dst_title == title) && is_unresolved e.dst_note
    then record e { dst_note = some note_id }
    else e

resolved-IsLink :
    (note : Note) (ns : List Note) (e : Edge)
    → In (key note) (keys ns)
    → IsLink (keys ns) e
    → IsLink (keys ns) (resolved note.title note.id note.user_id ns e)
resolved-IsLink note ns e h k =
    if_intro (IsLink (keys ns))
      (owns_source note.user_id ns e.src_note
        && (e.dst_title == note.title)
        && is_unresolved e.dst_note)
      _ _
      (λ c i q.
        let (r, u) =
          &&-true (owns_source note.user_id ns e.src_note && (e.dst_title == note.title))
            (is_unresolved e.dst_note) c in
        let (o, t) =
          &&-true (owns_source note.user_id ns e.src_note) (e.dst_title == note.title) r in
        let (source, m, a, b) = owns_source-Found note.user_id ns e.src_note o in
        record {
          source = source;
          target = key note;
          source_in = m;
          target_in = h;
          from_source = a;
          to_target = cc;
          same_title = sym ((text_eq.same_iff e.dst_title note.title).0 t);
          same_user = sym b;
        })
      (λ _. k)

pub resolved-All :
    (note : Note) (ns : List Note) (es : List Edge)
    → In (key note) (keys ns)
    → All (IsLink (keys ns)) es
    → All (IsLink (keys ns)) (map (resolved note.title note.id note.user_id ns) es)
resolved-All note ns [] h k = tt
resolved-All note ns (e ∷ es) h (k, ks) =
    (resolved-IsLink note ns e h k, resolved-All note ns es h ks)
