-- ===== src/Ingest/Soundness.antt =====
-- The tables of notes under the requests of app/ingest.py and app/mcp_tools.py.
use vegapunk_web.Base.{
  ℕ, suc, ◌<◌, ◌&&◌, ◌||◌, Bool, true, false, not, Option, none, some, List, [], ◌∷◌, ◌++◌, keep,
  All, All-append, In-append_left, eqb, eqb_iff, if_intro, ◌≡◌, ◌≢◌, refl, ap, sym, subst, ◌∙◌, inl,
  inr, arith, Bool-cases, Option-cases, ◌==◌, is_nil, contains,
}
use vegapunk_web.Text.{Text, text_eq, strip}
use vegapunk_web.Json.{Outcome, ok, raised}
use vegapunk_web.Notes.{Note, Edge, NoteTag, NotesDb, note_by_id, note_by_title}
use vegapunk_web.Ingest.{
  set_body, owned, tag_id_of, tag_note, add_tags, set_tags, insert_note, write_titled, write_merged,
  write_note,
}
use vegapunk_web.Ingest.Links.{Key, key, keys, IsLink}

-- No two notes have one id, and no two notes of a user have one title.
abbrev pub AreDistinct : List Key → Type 0
AreDistinct [] = Unit
AreDistinct (k ∷ ks) = All (λ (j : Key). (j.0 ≢ k.0) × (j.1 ≡ k.1 → j.2 ≢ k.2)) ks × AreDistinct ks

pub record IsSound {Vector : Type 0} (db : NotesDb Vector) : Type 0 where
  pub below : All (λ (k : Key). k.0 < db.next_note) (keys db.notes)
  pub distinct : AreDistinct (keys db.notes)
  pub linked : All (IsLink (keys db.notes)) db.edges

keys-set_body : (i : ℕ) (body : Text) (ns : List Note) → keys (set_body i body ns) ≡ keys ns
keys-set_body i body [] = refl
keys-set_body i body (n ∷ ns) = elim (Bool-cases (eqb n.id i)) [
  | inl e ↦ rw e (ap (◌∷◌ (key n)) (keys-set_body i body ns))
  | inr e ↦ rw e (ap (◌∷◌ (key n)) (keys-set_body i body ns))
]

keys-append : (ns ms : List Note) → keys (ns ++ ms) ≡ keys ns ++ keys ms
keys-append [] ms = refl
keys-append (n ∷ ns) ms = ap (◌∷◌ (key n)) (keys-append ns ms)

-- Links stay links when notes are added.
All-IsLink_more :
    (ks js : List Key) (es : List Edge) → All (IsLink ks) es → All (IsLink (ks ++ js)) es
All-IsLink_more ks js [] h = tt
All-IsLink_more ks js (e ∷ es) (h, hs) = (
  λ i q.
      let l = h i q in
      record {
        source = l.source;
        target = l.target;
        source_in = In-append_left l.source ks js l.source_in;
        target_in = In-append_left l.target ks js l.target_in;
        from_source = l.from_source;
        to_target = l.to_target;
        same_title = l.same_title;
        same_user = l.same_user;
      },
  All-IsLink_more ks js es hs,
)

AreDistinct-snoc :
    (ks : List Key) (k : Key)
    → AreDistinct ks
    → All (λ (j : Key). (k.0 ≢ j.0) × (k.1 ≡ j.1 → k.2 ≢ j.2)) ks
    → AreDistinct (ks ++ (k ∷ []))
AreDistinct-snoc [] k d h = (tt, tt)
AreDistinct-snoc (j ∷ ks) k (d, ds) (h, hs) =
    (All-append _ ks (k ∷ []) d (h, tt), AreDistinct-snoc ks k ds hs)

conflict : {a b : Bool} → a ≡ true → b ≡ true → a && b ≡ false → ⊥
conflict {a} {b} h k e = ground arith

-- A key that is new among the keys.
fresh :
    (user_id : ℕ) (title : Text) (next : ℕ) (ns : List Note)
    → note_by_title user_id title ns ≡ none
    → All (λ (k : Key). k.0 < next) (keys ns)
    → All (λ (j : Key). (next ≢ j.0) × (user_id ≡ j.1 → title ≢ j.2)) (keys ns)
unfolding note_by_title
fresh user_id title next [] h b = tt
fresh user_id title next (n ∷ ns) h (b, bs) =
    elim (Bool-cases (eqb n.user_id user_id && (n.title == title))) [
      | inl e ↦ cc (rw e at h)
      | inr e ↦ (
        (
          λ q. omega (arith, q, b),
          λ u t.
              conflict ((eqb_iff n.user_id user_id).1 (sym u))
                ((text_eq.same_iff n.title title).1 (sym t)) e,
        ),
        fresh user_id title next ns (rw e at h) bs,
      )
    ]

module _ {Vector : Type 0} where
  -- Only the keys, the next id and the edges count.
  IsSound-frame :
      (a b : NotesDb Vector)
      → keys b.notes ≡ keys a.notes
      → b.next_note ≡ a.next_note
      → b.edges ≡ a.edges
      → IsSound a
      → IsSound b
  IsSound-frame a b k n e h = record {
    below =
        subst (λ (ks : List Key). All (λ (j : Key). j.0 < b.next_note) ks) (sym k)
          (subst (λ (m : ℕ). All (λ (j : Key). j.0 < m) (keys a.notes)) (sym n) h.below);
    distinct = subst AreDistinct (sym k) h.distinct;
    linked =
        subst (λ (ks : List Key). All (IsLink ks) b.edges) (sym k)
          (subst (λ (es : List Edge). All (IsLink (keys a.notes)) es) (sym e) h.linked);
  }

  -- The tags of a note are in tables of their own.
  record IsSameNotes (a b : NotesDb Vector) : Type 0 where
    notes_same : b.notes ≡ a.notes
    next_same : b.next_note ≡ a.next_note
    edges_same : b.edges ≡ a.edges

  tag_note-IsSameNotes :
      (i : ℕ) (name : Text) (db : NotesDb Vector) → IsSameNotes db (tag_note i name db)
  unfolding tag_note
  tag_note-IsSameNotes i name db = elim (Option-cases (tag_id_of name db.tags)) [
    | inl e ↦ rw (e, tag_note) (record { notes_same = refl; next_same = refl; edges_same = refl })
    | inr (t, e) ↦
        rw (e, tag_note) (record { notes_same = refl; next_same = refl; edges_same = refl })
  ]

  add_tags-IsSameNotes :
      (i : ℕ) (tags seen : List Text) (db : NotesDb Vector)
      → IsSameNotes db ((add_tags i tags seen db).1)
  unfolding add_tags
  add_tags-IsSameNotes i [] seen db = record {
    notes_same = refl;
    next_same = refl;
    edges_same = refl;
  }
  add_tags-IsSameNotes i (raw ∷ tags) seen db =
      if_intro (λ (r : List Text × NotesDb Vector). IsSameNotes db r.1)
        (is_nil (strip raw) || contains seen (strip raw)) _ _
        (λ _. add_tags-IsSameNotes i tags seen db)
        (λ _.
          let a = tag_note-IsSameNotes i (strip raw) db in
          let b =
            add_tags-IsSameNotes i tags (seen ++ (strip raw ∷ [])) (tag_note i (strip raw) db) in
          record {
            notes_same = b.notes_same ∙ a.notes_same;
            next_same = b.next_same ∙ a.next_same;
            edges_same = b.edges_same ∙ a.edges_same;
          })

  pub set_tags-notes :
      (i : ℕ) (tags : List Text) (db : NotesDb Vector) → (set_tags i tags db).1.notes ≡ db.notes
  unfolding set_tags
  set_tags-notes i tags db =
      (add_tags-IsSameNotes i tags [] (record db {
        note_tags = keep (λ (x : NoteTag). not (eqb x.note_id i)) db.note_tags;
      })).notes_same

  pub set_tags-IsSound :
      (i : ℕ) (tags : List Text) (db : NotesDb Vector)
      → IsSound db
      → IsSound ((set_tags i tags db).1)
  unfolding set_tags
  set_tags-IsSound i tags db h =
      let t =
        add_tags-IsSameNotes i tags []
          (record db { note_tags = keep (λ (x : NoteTag). not (eqb x.note_id i)) db.note_tags }) in
      IsSound-frame db _ (ap keys t.notes_same) t.next_same t.edges_same h

  pub set_body-IsSound :
      (i : ℕ) (body : Text) (db : NotesDb Vector)
      → IsSound db
      → IsSound (record db { notes = set_body i body db.notes })
  set_body-IsSound i body db h = IsSound-frame db _ (keys-set_body i body db.notes) refl refl h

  insert-IsSound :
      (user_id : ℕ) (title body : Text) (db : NotesDb Vector)
      → note_by_title user_id title db.notes ≡ none
      → IsSound db
      → IsSound (insert_note user_id title body db)
  insert-IsSound user_id title body db n h =
      let k : Key = (db.next_note, user_id, title) in
      let e : keys (insert_note user_id title body db).notes ≡ keys db.notes ++ (k ∷ []) =
        keys-append db.notes _ in
      record {
        below =
            subst (λ (ks : List Key). All (λ (j : Key). j.0 < suc db.next_note) ks) (sym e)
              (All-append _ (keys db.notes) (k ∷ []) (All-weaken (keys db.notes) h.below)
                (omega arith, tt));
        distinct = subst AreDistinct (sym e) (
            AreDistinct-snoc (keys db.notes) k h.distinct
              (fresh user_id title db.next_note db.notes n h.below));
        linked =
            subst (λ (ks : List Key). All (IsLink ks) db.edges) (sym e)
              (All-IsLink_more (keys db.notes) (k ∷ []) db.edges h.linked);
      }
    where
      All-weaken :
          (ks : List Key)
          → All (λ (j : Key). j.0 < db.next_note) ks
          → All (λ (j : Key). j.0 < suc db.next_note) ks
      All-weaken [] b = tt
      All-weaken (j ∷ ks) (b, bs) = (omega (arith, b), All-weaken ks bs)

  -- The tables of an outcome are sound, if it has some.
  abbrev pub SoundIf : {A : Type 0} → (A → NotesDb Vector) → Outcome A → Type 0
  SoundIf f raised = Unit
  SoundIf f (ok a) = IsSound (f a)

  pub write_note-SoundIf :
      (user_id : ℕ) (title body : Text) (tags : List Text) (merge_into : Option ℕ)
      (db : NotesDb Vector)
      → IsSound db
      → SoundIf (λ r. r.1) (write_note user_id title body tags merge_into db)
  unfolding write_note write_titled write_merged
  write_note-SoundIf user_id title body tags (some target) db h =
      merged (owned user_id (note_by_id target db.notes))
    where
      merged : (o : Option Note) → SoundIf (λ r. r.1) (write_merged user_id body tags target o db)
      merged none = tt
      merged (some n) = set_tags-IsSound target tags _ (set_body-IsSound target body db h)
  write_note-SoundIf user_id title body tags none db h =
      titled (note_by_title user_id title db.notes) refl
    where
      titled :
          (o : Option Note)
          → note_by_title user_id title db.notes ≡ o
          → IsSound (write_titled user_id title body tags o db).1
      titled none e =
          set_tags-IsSound db.next_note tags _ (insert-IsSound user_id title body db e h)
      titled (some n) e = set_tags-IsSound n.id tags _ (set_body-IsSound n.id body db h)
