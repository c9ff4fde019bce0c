-- ===== src/Tests/Requests.antt =====
-- The theorems on requests at concrete inputs: saving, merging, distilling, and the tools.
use vegapunk_web.Base.Dict
use vegapunk_web.Base.Dict.{lookup-insert}
use vegapunk_web.Settings.{
  Redis, Spelling, Cache, defaults, threshold_key, setting_prefix, get, load, update,
}
use vegapunk_web.Settings.Restart.{KeepsWrites, load-update}
use vegapunk_web.Base.{
  inr, ◌++◌, ap, sym, ◌∙◌, ==-refl, ℕ, true, inl, Option, none, some, List, [], ◌∷◌, ◌≡◌, refl,
  list_beq,
}
use vegapunk_web.Base.Dict.{Dict}
use vegapunk_web.Text.{Text, codes, text_eq}
use vegapunk_web.Json.{
  raised, num, str, arr, obj, nil, cons, Fields, field, end, Codec, get_field, Outcome, ok,
}
use vegapunk_web.Session.{memory_store}
use vegapunk_web.OauthStore.{issue_access}
use vegapunk_web.Chunking.{split_into_chunks}
use vegapunk_web.Notes.{NotesDb}
use vegapunk_web.Search.{Row}
use vegapunk_web.Memory.{Conversation, ChatDb}
use vegapunk_web.Chat.{own_conversation}
use vegapunk_web.Ingest.{ingest_note, update_note, delete_note}
use vegapunk_web.Ingest.Soundness.{IsSound}
use vegapunk_web.Ingest.Histories.{empty_tables, Reached, started, saved, Reached-IsSound}
use vegapunk_web.Ingest.Owners.{LeavesOthers, requests-LeavesOthers}
use vegapunk_web.Pages.{NoteView, get_note}
use vegapunk_web.Pages.Saved.{get_note-ingest_note}
use vegapunk_web.Merging.{notes_of, nearest_to, find_merge_target}
use vegapunk_web.Merging.Targets.{IsChosen, find_merge_target-IsChosen}
use vegapunk_web.Distill.{
  extract_json_array, array_text, find_array_start, find_start, opens_array, scan, scan_char,
  scan_in_str, scan_outside, escaped,
}
use vegapunk_web.Distill.Request.{Candidate, distill}
use vegapunk_web.Distill.Proposals.{IsDistilled, distill-IsDistilled}
use vegapunk_web.Distill.Complete.{AreTextual, Proposes, distill-Proposes}
use vegapunk_web.Mcp.{AppState, Scope, call, empty_context}
use vegapunk_web.Mcp.Guard.{IsGuarded, call-IsGuarded}
use vegapunk_web.Mcp.Tenants.{delete, tool_app, IsAuthorized, call-IsAuthorized}
use vegapunk_web.Tests.StackCodec.{stack_codec}
use vegapunk_web.Tests.Ranking.{millionths}
use vegapunk_web.Tests.Notes.{no_vectors, target_note, source_note}

abbrev same_case : Text → Text
same_case t = t

-- User 7 saves `t`, then `s` with a link to it.
abbrev one_saved : NotesDb Text
one_saved = (ingest_note no_vectors 7 (codes "t") (codes "x") [] none empty_tables).1

abbrev two_saved : NotesDb Text
two_saved = (ingest_note no_vectors 7 (codes "s") (codes "[[t]]") [] none one_saved).1

two_saved-Reached : Reached no_vectors two_saved
two_saved-Reached =
    saved one_saved 7 (codes "s") (codes "[[t]]") [] none
      (saved empty_tables 7 (codes "t") (codes "x") [] none started)

two_saved-IsSound : IsSound two_saved
two_saved-IsSound = Reached-IsSound no_vectors two_saved two_saved-Reached

Reached-IsSound_example : IsSound two_saved
Reached-IsSound_example = Reached-IsSound no_vectors two_saved two_saved-Reached

requests-LeavesOthers_example :
    ((title body : Text) (tags : List Text) (merge_into : Option ℕ)
      → LeavesOthers 8 two_saved (ingest_note no_vectors 8 title body tags merge_into two_saved).1)
    × ((title : Text) (body : Option Text) (tags : Option (List Text))
        → LeavesOthers 8 two_saved (update_note no_vectors 8 title body tags two_saved).1)
    × ((title : Text) → LeavesOthers 8 two_saved (delete_note 8 title two_saved).1)
requests-LeavesOthers_example = requests-LeavesOthers no_vectors 8 two_saved two_saved-IsSound

get_note-ingest_note_example :
    (v : NoteView) × (get_note 7
        (codes "t")
        ((ingest_note no_vectors 7 (codes "t") (codes "new") [] none two_saved).1)
      ≡ some v)
    × (v.title ≡ codes "t")
    × (v.body ≡ codes "new")
get_note-ingest_note_example =
    get_note-ingest_note no_vectors 7 (codes "t") (codes "new") [] two_saved

-- The nearest chunk is always one of the note 2.
abbrev near : Text → ℕ → ℕ → List (Row millionths)
near text limit user_id = (5, 2, 100000) ∷ []

find_merge_target-IsChosen_example :
    IsChosen millionths 190000
      (nearest_to near 7)
      same_case
      (codes "u")
      (notes_of 7 (target_note ∷ source_note ∷ []))
      (split_into_chunks (codes "body"))
      (find_merge_target millionths 190000 near same_case 7
        (target_note ∷ source_note ∷ [])
        (codes "u")
        (codes "body"))
unfolding vegapunk_web.Text.is_space
find_merge_target-IsChosen_example =
    find_merge_target-IsChosen millionths 190000 near same_case 7 (target_note ∷ source_note ∷ [])
      (codes "u") (codes "body")

abbrev conversation : Conversation
conversation = record {
  id = 1;
  user_id = 7;
  title = none;
  summary = none;
  summary_upto_msg_id = none;
  memo = [];
}

abbrev talk : ChatDb
talk = record {
  conversations = conversation ∷ [];
  messages = [];
  next_conversation = 2;
  next_message = 1;
}

-- A decoder that reads one candidate.
abbrev one_dict : Fields
one_dict = field (codes "title") (str (codes "u")) (field (codes "body") (str (codes "body")) end)

abbrev one_found : Codec
one_found = record { dumps = λ v. []; loads = λ t. some (arr (cons (obj one_dict) nil)) }

abbrev talkative : Text → Outcome Text
talkative prompt = ok (codes "[{}]")

abbrev two_notes : NotesDb Text
two_notes = record two_saved { notes = target_note ∷ source_note ∷ [] }

distill-IsDistilled_example :
    IsDistilled millionths 190000 near same_case one_found talkative 7 1 talk two_notes
      (distill millionths 190000 near same_case one_found talkative 7 1 talk two_notes)
distill-IsDistilled_example =
    distill-IsDistilled millionths 190000 near same_case one_found talkative 7 1 talk two_notes
      (λ ch. ((source_note, inr (inl refl), refl), tt))

distill-Proposes_example :
    (out : List Candidate) × (distill millionths 190000 near same_case one_found talkative 7 1 talk
        two_saved
      ≡ ok out)
    × Proposes (codes "u") (codes "body") out
unfolding own_conversation extract_json_array array_text find_array_start find_start opens_array
    scan scan_char scan_in_str scan_outside escaped get_field list_beq AreTextual
distill-Proposes_example =
    distill-Proposes millionths 190000 near same_case one_found talkative 7 1 talk two_saved
      conversation (codes "[{}]") one_dict (codes "u") (codes "body") refl refl (tt, tt, tt)
      (inl refl) refl refl refl refl

-- A request with the access token `a` of user 7.
abbrev with_access : Dict Text Text
with_access =
    issue_access memory_store stack_codec [] (num 7) (str (codes "c")) (str (codes "mcp"))
      (codes "a")

abbrev request : Scope
request = record {
  kind = codes "http";
  path = codes "/mcp";
  headers = (codes "authorization", codes "bearer a") ∷ [];
  scheme = codes "https";
}

abbrev running : AppState
running = record { pool_set = true; store_set = true }

call-IsGuarded_example :
    IsGuarded some same_case memory_store stack_codec
      (codes "https://v")
      (tool_app no_vectors (delete (codes "t")))
      running
      with_access
      request
      empty_context
      two_saved
      (call some same_case memory_store stack_codec
        (codes "https://v")
        (tool_app no_vectors (delete (codes "t")))
        running
        with_access
        request
        empty_context
        two_saved)
call-IsGuarded_example =
    call-IsGuarded some same_case memory_store stack_codec (codes "https://v")
      (tool_app no_vectors (delete (codes "t"))) running with_access request empty_context two_saved

call-IsAuthorized_example :
    IsAuthorized some same_case memory_store stack_codec
      (codes "https://v")
      no_vectors
      running
      with_access
      request
      empty_context
      two_saved
      ((call some same_case memory_store stack_codec
        (codes "https://v")
        (tool_app no_vectors (delete (codes "t")))
        running
        with_access
        request
        empty_context
        two_saved).1)
unfolding vegapunk_web.Text.starts_with list_beq
call-IsAuthorized_example =
    call-IsAuthorized some same_case memory_store stack_codec (codes "https://v") no_vectors running
      with_access request empty_context (delete (codes "t")) two_saved two_saved-IsSound refl

-- Redis as a dict, and settings that are their own spelling.
abbrev redis : Redis
redis = record {
  State = Dict Text Text;
  read = λ d key. ok (Dict.lookup key d);
  write = λ d key value. ok (Dict.insert key value d);
}

abbrev spelling : Spelling
spelling = record {
  Float = Text;
  float_of = λ t. some t;
  str_of = λ t. t;
  threshold = codes "0.18";
}

redis-KeepsWrites : KeepsWrites redis
redis-KeepsWrites = record { read-write = λ s after key value e. kept_value s after key value e }
  where
    kept_value :
        (s after : Dict Text Text) (key value : Text)
        → ok (Dict.insert key value s) ≡ ok after
        → ok (Dict.lookup key after) ≡ ok (some value)
    kept_value s after key value e =
        ap (λ (o : Outcome (Dict Text Text)). looked_up o) (sym e)
        ∙ ap (λ (o : Option Text). ok o) (lookup-insert key key value s ∙ rw (==-refl key) refl)
      where
        looked_up : Outcome (Dict Text Text) → Outcome (Option Text)
        looked_up raised = raised
        looked_up (ok d) = ok (Dict.lookup key d)

load-update_example :
    (changed : Cache spelling redis) × (update spelling redis
        (some [])
        threshold_key
        (codes "0.2")
        (defaults spelling redis)
      ≡ ok (changed, some ((setting_prefix ++ threshold_key, codes "0.2") ∷ [])))
    × (get spelling redis changed threshold_key ≡ ok (codes "0.2"))
    × (get spelling redis
          (load spelling redis
            (some ((setting_prefix ++ threshold_key, codes "0.2") ∷ []))
            (defaults spelling redis))
          threshold_key
        ≡ ok (codes "0.2"))
unfolding Dict.insert
load-update_example =
    load-update spelling redis redis-KeepsWrites []
      ((setting_prefix ++ threshold_key, codes "0.2") ∷ []) (defaults spelling redis) (codes "0.2")
      refl refl
