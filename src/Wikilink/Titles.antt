-- ===== src/Wikilink/Titles.antt =====
-- The titles that extract_links of app/wikilink.py makes of the groups that it matches.
use vegapunk_web.Base.{List, [], In, ◌⊎◌, ◌≡◌, ◌≢◌, subst, sym}
use vegapunk_web.Text.{Text, strip}
use vegapunk_web.Text.Laws.{strip-strip}
use vegapunk_web.Text.Dedupe.{IsDistinct, IsDeduped, add_all-IsDeduped}
use vegapunk_web.Wikilink.{before, groups, title_of, extract_links, remove_spans, tick, fence}

-- What the loop keeps of its list, and what it made it of.
pub record IsTitles (gs : List Text) (out : List Text) : Type 0 where
  pub distinct : IsDistinct out
  pub clean : (t : Text) → In t out → (t ≢ []) × (strip t ≡ t)
  pub sound : (t : Text) → In t out → (g : Text) × In g gs × (t ≡ title_of g)
  pub complete : (g : Text) → In g gs → (title_of g ≡ []) ⊎ In (title_of g) out

IsDeduped-IsTitles : (gs out : List Text) → IsDeduped title_of gs out → IsTitles gs out
unfolding title_of
IsDeduped-IsTitles gs out h = record {
  distinct = h.distinct;
  clean = λ t i.
      let (g, j, q) = h.sound t i in
      (h.full t i, subst (λ (x : Text). strip x ≡ x) (sym q) (strip-strip (before b'|' g)));
  sound = h.sound;
  complete = h.complete;
}

-- The titles of the links of a body, code being taken out of it, are distinct, stripped and not
-- empty, and they are exactly the titles of the groups that the link pattern matches, but for the
-- empty ones.
pub extract_links-IsTitles :
    (body : Text)
    → IsTitles (groups (remove_spans tick (remove_spans fence body))) (extract_links body)
unfolding extract_links
extract_links-IsTitles body =
    let gs = groups (remove_spans tick (remove_spans fence body)) in
    IsDeduped-IsTitles gs (extract_links body) (add_all-IsDeduped title_of gs)
