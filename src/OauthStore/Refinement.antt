-- ===== src/OauthStore/Refinement.antt =====
-- The functions of app/oauth_store.py against tables of tokens.
use vegapunk_web.Base.{
  ℕ, ◌&&◌, Bool, true, false, Option, none, some, List, [], ◌∷◌, ◌++◌, map, eqb, eqb_iff,
  if◌then◌else◌, ◌==◌, ◌≡◌, refl, ap, ap₂, sym, subst, ◌∙◌, &&-true,
}
use vegapunk_web.Text.{Text, text_eq}
use vegapunk_web.Json.{Json, Items, Outcome, ok, Codec, IsCodec}
use vegapunk_web.Session.{Store, IsLawful, decode_raw}
use vegapunk_web.Session.Laws.{
  Namespace, client, authreq, auth_code, access_token, refresh_token, prefix, key_injective,
}
use vegapunk_web.OauthStore.{
  client_dict, token_dict, put, get, pop, pop_rest, register_client, get_client, save_authreq,
  pop_authreq, issue_code, pop_code, issue_access, resolve_access, issue_refresh, pop_refresh,
  client_ttl, authreq_ttl, code_ttl, access_ttl, refresh_ttl,
}

-- The tables of the specification: one for each kind of token, by the token.
pub data Kind : Type 0 where
  clients requests codes_given accesses refreshes : Kind

abbrev pub Tables : Type 0
Tables = Kind → Text → Option Json

abbrev pub family : Kind → Namespace
family clients = client
family requests = authreq
family codes_given = auth_code
family accesses = access_token
family refreshes = refresh_token

abbrev number : Kind → ℕ
number clients = 0
number requests = 1
number codes_given = 2
number accesses = 3
number refreshes = 4

abbrev pub is_place : Kind → Text → Kind → Text → Bool
is_place k t j u = eqb (number k) (number j) && (t == u)

abbrev pub with_entry : Kind → Text → Option Json → Tables → Tables
with_entry k t v tables j u = if is_place k t j u then v else tables j u

-- The functions as commands.
pub data Command : Type 0 where
  register : Items → Json → Text → Command
  client_of : Text → Command
  save_request : Json → Text → Command
  take_request : Text → Command
  give_code : Json → Text → Command
  take_code : Text → Command
  give_access : Json → Json → Json → Text → Command
  access_of : Text → Command
  give_refresh : Json → Json → Json → Text → Command
  take_refresh : Text → Command

-- The specification: what a command returns, and the tables behind it.
unfoldable pub specified : Command → Tables → Option Json × Tables
specified (register uris name t) tables =
    (none, with_entry clients t (some (client_dict uris name)) tables)
specified (client_of t) tables = (tables clients t, tables)
specified (save_request params t) tables = (none, with_entry requests t (some params) tables)
specified (take_request t) tables = (tables requests t, with_entry requests t none tables)
specified (give_code params t) tables = (none, with_entry codes_given t (some params) tables)
specified (take_code t) tables = (tables codes_given t, with_entry codes_given t none tables)
specified (give_access u c s t) tables =
    (none, with_entry accesses t (some (token_dict u c s)) tables)
specified (access_of t) tables = (tables accesses t, tables)
specified (give_refresh u c s t) tables =
    (none, with_entry refreshes t (some (token_dict u c s)) tables)
specified (take_refresh t) tables = (tables refreshes t, with_entry refreshes t none tables)

unfoldable pub specified_all : List Command → Tables → List (Option Json) × Tables
unfolding specified
specified_all [] tables = ([], tables)
specified_all (c ∷ cs) tables =
    let (out, after) = specified c tables in
    let (outs, end) = specified_all cs after in (out ∷ outs, end)

module _ (S : Store) (J : Codec) where
  -- The program.
  unfoldable pub run : Command → S.State → Outcome (Option Json) × S.State
  run (register uris name t) s = (ok none, register_client S J s uris name t)
  run (client_of t) s = (get_client S J s t, s)
  run (save_request params t) s = (ok none, save_authreq S J s params t)
  run (take_request t) s = pop_authreq S J s t
  run (give_code params t) s = (ok none, issue_code S J s params t)
  run (take_code t) s = pop_code S J s t
  run (give_access u c sc t) s = (ok none, issue_access S J s u c sc t)
  run (access_of t) s = (resolve_access S J s t, s)
  run (give_refresh u c sc t) s = (ok none, issue_refresh S J s u c sc t)
  run (take_refresh t) s = pop_refresh S J s t

  unfoldable pub run_all : List Command → S.State → List (Outcome (Option Json)) × S.State
  unfolding run
  run_all [] s = ([], s)
  run_all (c ∷ cs) s =
      let (out, after) = run c s in let (outs, end) = run_all cs after in (out ∷ outs, end)

  -- The store has exactly the entries of the tables under the keys of the five kinds.
  abbrev pub Represents : S.State → Tables → Type 0
  Represents s tables = (k : Kind) (t : Text) → get S J s (prefix (family k) ++ t) ≡ ok (tables k t)

both : (a b : Bool) → (a ≡ true → b ≡ true) → (b ≡ true → a ≡ true) → a ≡ b
both true b f g = sym (f refl)
both false true f g = g refl
both false false f g = refl

kind_of : Namespace → Option Kind
kind_of client = some clients
kind_of authreq = some requests
kind_of auth_code = some codes_given
kind_of access_token = some accesses
kind_of refresh_token = some refreshes
kind_of _ = none

kind_of-family : (k : Kind) → kind_of (family k) ≡ some k
unfolding kind_of
kind_of-family clients = refl
kind_of-family requests = refl
kind_of-family codes_given = refl
kind_of-family accesses = refl
kind_of-family refreshes = refl

family-inj : (k j : Kind) → family k ≡ family j → k ≡ j
family-inj k j e = some-inj (sym (kind_of-family k) ∙ ap kind_of e ∙ kind_of-family j)
  where
    some-inj : {a b : Kind} → some a ≡ some b → a ≡ b
    some-inj p = cc

kind_at : ℕ → Kind
kind_at n =
    if eqb n 0
    then clients
    else if eqb n 1
    then requests
    else if eqb n 2
    then codes_given
    else if eqb n 3
    then accesses
    else refreshes

kind_at-number : (k : Kind) → kind_at (number k) ≡ k
unfolding kind_at
kind_at-number clients = refl
kind_at-number requests = refl
kind_at-number codes_given = refl
kind_at-number accesses = refl
kind_at-number refreshes = refl

-- Keys agree exactly where places agree.
key-is_place :
    (k j : Kind) (t u : Text)
    → (prefix (family k) ++ t == prefix (family j) ++ u) ≡ is_place k t j u
key-is_place k j t u =
    both (prefix (family k) ++ t == prefix (family j) ++ u) (is_place k t j u)
      (λ h.
        let (n, e) =
          key_injective (family k) (family j) t u
            ((text_eq.same_iff (prefix (family k) ++ t) (prefix (family j) ++ u)).0 h) in
        rw ((eqb_iff (number k) (number j)).1 (ap number (family-inj k j n)))
          ((text_eq.same_iff t u).1 e))
      (λ h.
        let (n, e) = &&-true (eqb (number k) (number j)) (t == u) h in
        (text_eq.same_iff (prefix (family k) ++ t) (prefix (family j) ++ u)).1 (
          ap (λ (i : Kind). prefix (family i) ++ t)
            (sym (kind_at-number k)
              ∙ ap kind_at ((eqb_iff (number k) (number j)).0 n)
              ∙ kind_at-number j)
          ∙ ap (λ (v : Text). prefix (family j) ++ v) ((text_eq.same_iff t u).0 e)))

module _ (S : Store) (L : IsLawful S) (J : Codec) (C : IsCodec J) where
  write-Represents :
      (k : Kind) (t : Text) (ttl : ℕ) (v : Json) (s : S.State) (tables : Tables)
      → Represents S J s tables
      → Represents S J (put S J s (prefix (family k) ++ t) ttl v) (with_entry k t (some v) tables)
  unfolding get put
  write-Represents k t ttl v s tables h j u =
      ap (decode_raw J)
        (L.get-setex s (prefix (family j) ++ u) (prefix (family k) ++ t) ttl (J.dumps v))
      ∙ ap
          (λ (b : Bool).
            decode_raw J (if b then some (J.dumps v) else S.get s (prefix (family j) ++ u)))
          (key-is_place k j t u)
      ∙ decided (is_place k t j u)
    where
      decided :
          (b : Bool)
          → decode_raw J (if b then some (J.dumps v) else S.get s (prefix (family j) ++ u))
            ≡ ok (if b then some v else tables j u)
      decided true = rw (C.loads-dumps v)
      decided false = h j u

  clear-Represents :
      (k : Kind) (t : Text) (s : S.State) (tables : Tables)
      → Represents S J s tables
      → Represents S J (S.delete s (prefix (family k) ++ t)) (with_entry k t none tables)
  unfolding get
  clear-Represents k t s tables h j u =
      ap (decode_raw J) (L.get-delete s (prefix (family j) ++ u) (prefix (family k) ++ t))
      ∙ ap (λ (b : Bool). decode_raw J (if b then none else S.get s (prefix (family j) ++ u)))
          (key-is_place k j t u)
      ∙ decided (is_place k t j u)
    where
      decided :
          (b : Bool)
          → decode_raw J (if b then none else S.get s (prefix (family j) ++ u))
            ≡ ok (if b then none else tables j u)
      decided true = refl
      decided false = h j u

  -- A command of the program against the same command of the specification.
  abbrev Agrees : Outcome (Option Json) × S.State → Option Json × Tables → Type 0
  Agrees (out, s) (spec, tables) = (out ≡ ok spec) × Represents S J s tables

  take-Agrees :
      (k : Kind) (t : Text) (s : S.State) (tables : Tables)
      → Represents S J s tables
      → Agrees (pop S J s (prefix (family k) ++ t)) (tables k t, with_entry k t none tables)
  unfolding pop
  take-Agrees k t s tables h =
      subst
        (λ (o : Outcome (Option Json)).
          Agrees (pop_rest S J s (prefix (family k) ++ t) o)
            (tables k t, with_entry k t none tables))
        (sym (h k t)) (refl, clear-Represents k t s tables h)

  run-Agrees :
      (c : Command) (s : S.State) (tables : Tables)
      → Represents S J s tables
      → Agrees (run S J c s) (specified c tables)
  unfolding run specified register_client get_client save_authreq pop_authreq issue_code pop_code
      issue_access resolve_access issue_refresh pop_refresh
  run-Agrees (register uris name t) s tables h =
      (refl, write-Represents clients t client_ttl (client_dict uris name) s tables h)
  run-Agrees (client_of t) s tables h = (h clients t, h)
  run-Agrees (save_request params t) s tables h =
      (refl, write-Represents requests t authreq_ttl params s tables h)
  run-Agrees (take_request t) s tables h = take-Agrees requests t s tables h
  run-Agrees (give_code params t) s tables h =
      (refl, write-Represents codes_given t code_ttl params s tables h)
  run-Agrees (take_code t) s tables h = take-Agrees codes_given t s tables h
  run-Agrees (give_access u c sc t) s tables h =
      (refl, write-Represents accesses t access_ttl (token_dict u c sc) s tables h)
  run-Agrees (access_of t) s tables h = (h accesses t, h)
  run-Agrees (give_refresh u c sc t) s tables h =
      (refl, write-Represents refreshes t refresh_ttl (token_dict u c sc) s tables h)
  run-Agrees (take_refresh t) s tables h = take-Agrees refreshes t s tables h

  -- Over a lawful store that represents the tables, every sequence of calls returns what the
  -- specification returns, call by call and never raising, and the store represents the tables of the
  -- specification behind it: encoding, prefixes and the one store for all kinds do not show.
  pub run_all-refines :
      (cs : List Command) (s : S.State) (tables : Tables)
      → Represents S J s tables
      → ((run_all S J cs s).0 ≡ map (λ out. ok out) (specified_all cs tables).0)
        × Represents S J (run_all S J cs s).1 (specified_all cs tables).1
  unfolding run_all specified_all
  run_all-refines [] s tables h = (refl, h)
  run_all-refines (c ∷ cs) s tables h =
      let (e, k) = run-Agrees c s tables h in
      let (es, ks) = run_all-refines cs (run S J c s).1 (specified c tables).1 k in
      (ap₂ (λ out outs. out ∷ outs) e es, ks)
