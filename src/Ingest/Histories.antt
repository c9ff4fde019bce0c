-- ===== src/Ingest/Histories.antt =====
-- The requests on notes one after another: ingest_note of app/ingest.py, update_note and delete_note
-- of app/mcp_tools.py, from empty tables on.
use vegapunk_web.Base.{
  ℕ, ◌&&◌, Bool, true, false, not, Option, none, some, List, [], ◌∷◌, map, keep, All, In, eqb,
  if◌then◌else◌, if_intro, ◌≡◌, ◌≢◌, ap, sym, subst, ◌∙◌, inl, inr, arith, &&-true,
}
use vegapunk_web.Text.{Text}
use vegapunk_web.Json.{Outcome}
use vegapunk_web.Notes.{Note, Edge, NotesDb, note_by_title, points_to, unresolve_links_to}
use vegapunk_web.Ingest.{
  is_cited, without, delete_row, after_delete, delete_found, delete_note, ingest_note, update_note,
}
use vegapunk_web.Ingest.Links.{Key, keys, IsLink}
use vegapunk_web.Ingest.Soundness.{AreDistinct, IsSound}
use vegapunk_web.Ingest.Indexing.{ingest_note-IsSound, update_note-IsSound}

abbrev others : ℕ → List Note → List Note
others i = keep (λ (n : Note). not (eqb n.id i))

All-others :
    (P : Key → Type 0) (i : ℕ) (ns : List Note) → All P (keys ns) → All P (keys (others i ns))
All-others P i [] h = tt
All-others P i (n ∷ ns) (h, hs) =
    if_intro (λ ms. All P (keys ms)) (not (eqb n.id i)) _ _ (λ _. (h, All-others P i ns hs))
      (λ _. All-others P i ns hs)

AreDistinct-others :
    (i : ℕ) (ns : List Note) → AreDistinct (keys ns) → AreDistinct (keys (others i ns))
AreDistinct-others i [] d = tt
AreDistinct-others i (n ∷ ns) (d, ds) =
    if_intro (λ ms. AreDistinct (keys ms)) (not (eqb n.id i)) _ _
      (λ _. (All-others _ i ns d, AreDistinct-others i ns ds)) (λ _. AreDistinct-others i ns ds)

In-others :
    (k : Key) (i : ℕ) (ns : List Note) → k.0 ≢ i → In k (keys ns) → In k (keys (others i ns))
In-others k i [] d h = absurd h
In-others k i (n ∷ ns) d (inl e) =
    if_intro (λ ms. In k (keys ms)) (not (eqb n.id i)) _ _ (λ _. inl e)
      (λ t. absurd (d (ap (λ (j : Key). j.0) e ∙ removed n.id t)))
  where
    removed : (j : ℕ) → not (eqb j i) ≡ false → j ≡ i
    removed j t = ground arith
In-others k i (n ∷ ns) d (inr h) =
    if_intro (λ ms. In k (keys ms)) (not (eqb n.id i)) _ _ (λ _. inr (In-others k i ns d h))
      (λ _. In-others k i ns d h)

-- What a row has that passes the test, from what every row has.
All-passed :
    {A : Type 0} (P Q : A → Type 0) (p : A → Bool) (xs : List A)
    → ((x : A) → p x ≡ true → P x → Q x)
    → All P xs
    → All Q (keep p xs)
All-passed P Q p [] f h = tt
All-passed P Q p (x ∷ xs) f (h, hs) =
    if_intro (All Q) (p x) _ _ (λ e. (f x e h, All-passed P Q p xs f hs))
      (λ _. All-passed P Q p xs f hs)

unresolved-All :
    (i : ℕ) (ks : List Key) (es : List Edge)
    → All (IsLink ks) es
    → All
        (IsLink ks)
        (map (λ (e : Edge). if points_to i e.dst_note then record e { dst_note = none } else e) es)
unresolved-All i ks [] h = tt
unresolved-All i ks (e ∷ es) (h, hs) = (
  if_intro (IsLink ks) (points_to i e.dst_note) _ _ (λ _ j q. cc) (λ _. h),
  unresolved-All i ks es hs,
)

IsLink-others :
    (i : ℕ) (ns : List Note) (e : Edge)
    → not (eqb e.src_note i) && not (points_to i e.dst_note) ≡ true
    → IsLink (keys ns) e
    → IsLink (keys (others i ns)) e
IsLink-others i ns e t h j q =
    let l = h j q in
    let (a, b) = &&-true (not (eqb e.src_note i)) (not (points_to i e.dst_note)) t in
    record {
      source = l.source;
      target = l.target;
      source_in =
          In-others l.source i ns (λ r. differ e.src_note a (sym l.from_source ∙ r)) l.source_in;
      target_in =
          In-others l.target i ns
            (λ r. differ j (subst (λ o. not (points_to i o) ≡ true) q b) (sym l.to_target ∙ r))
            l.target_in;
      from_source = l.from_source;
      to_target = l.to_target;
      same_title = l.same_title;
      same_user = l.same_user;
    }
  where
    differ : (m : ℕ) → not (eqb m i) ≡ true → m ≡ i → ⊥
    differ m t e = ground arith

module _ {Vector : Type 0} where
  delete_note-IsSound :
      (user_id : ℕ) (title : Text) (db : NotesDb Vector)
      → IsSound db
      → IsSound ((delete_note user_id title db).1)
  unfolding delete_note unresolve_links_to delete_row
  delete_note-IsSound user_id title db h = go (note_by_title user_id title db.notes)
    where
      gone : (i : ℕ) → IsSound (without i (unresolve_links_to i db))
      gone i = record {
        below = All-others _ i db.notes h.below;
        distinct = AreDistinct-others i db.notes h.distinct;
        linked =
            All-passed (IsLink (keys db.notes)) (IsLink (keys (others i db.notes))) _ _
              (IsLink-others i db.notes) (unresolved-All i (keys db.notes) db.edges h.linked);
      }

      go : (o : Option Note) → IsSound ((delete_found o db).1)
      go none = h
      go (some n) =
          if_intro (λ (o : Outcome (NotesDb Vector)). IsSound ((after_delete n.id o db).1))
            (is_cited n.id db.citations) _ _ (λ _. h) (λ _. gone n.id)

  abbrev pub empty_tables : NotesDb Vector
  empty_tables = record {
    notes = [];
    chunks = [];
    edges = [];
    tags = [];
    note_tags = [];
    citations = [];
    next_note = 1;
    next_tag = 1;
  }

  -- The tables that requests lead to, whether or not the embedding fails, and cited or not.
  pub data Reached (embed : List Text → Outcome (List Vector)) : NotesDb Vector → Type 0 where
    started : Reached embed empty_tables
    saved :
        (db : NotesDb Vector) (user_id : ℕ) (title body : Text) (tags : List Text)
        (merge_into : Option ℕ)
        → Reached embed db
        → Reached embed ((ingest_note embed user_id title body tags merge_into db).1)
    changed :
        (db : NotesDb Vector) (user_id : ℕ) (title : Text) (body : Option Text)
        (tags : Option (List Text))
        → Reached embed db
        → Reached embed ((update_note embed user_id title body tags db).1)
    deleted :
        (db : NotesDb Vector) (user_id : ℕ) (title : Text)
        → Reached embed db
        → Reached embed ((delete_note user_id title db).1)
    cited :
        (db : NotesDb Vector) (message_id note_id : ℕ)
        → Reached embed db
        → Reached embed (record db {
          citations = record { message_id = message_id; note_id = note_id } ∷ db.citations;
        })

  -- In all tables that requests reach from empty ones, errors included: no two notes have one id, no
  -- two notes of a user have one title, new ids are above all ids, and a resolved link leads from a
  -- note to a note of the link's title and of the same user.
  pub Reached-IsSound :
      (embed : List Text → Outcome (List Vector)) (db : NotesDb Vector)
      → Reached embed db
      → IsSound db
  Reached-IsSound embed _ started = record { below = tt; distinct = tt; linked = tt }
  Reached-IsSound embed _ (saved db u t b tags m r) =
      ingest_note-IsSound embed u t b tags m db (Reached-IsSound embed db r)
  Reached-IsSound embed _ (changed db u t b tags r) =
      update_note-IsSound embed u t b tags db (Reached-IsSound embed db r)
  Reached-IsSound embed _ (deleted db u t r) =
      delete_note-IsSound u t db (Reached-IsSound embed db r)
  Reached-IsSound embed _ (cited db m n r) =
      let h = Reached-IsSound embed db r in
      record { below = h.below; distinct = h.distinct; linked = h.linked }
