-- ===== src/Accounts.antt =====
-- app/routes/auth.py: the users and their identities, from a profile that a provider gave out. Time
-- stamps are left out.
pub mod Identities
use vegapunk_web.Base.{
  ℕ, suc, Bool, true, false, not, ◌&&◌, ◌||◌, Option, none, some, List, [], ◌∷◌, ◌++◌, map, is_nil,
  eqb, if◌then◌else◌, ◌==◌,
}
use vegapunk_web.Text.{Text, text_eq, codes}

pub data Status : Type 0 where
  active merged : Status

-- A row of `users`.
pub record User : Type 0 where
  pub id : ℕ
  pub email : Text
  pub name : Option Text
  pub status : Status
  pub merged_into : Option ℕ

-- A row of `identities`.
pub record Identity : Type 0 where
  pub user_id : ℕ
  pub provider : Text
  pub sub : Text
  pub email : Option Text

pub record Profile : Type 0 where
  pub provider : Text
  pub sub : Text
  pub email : Option Text
  pub name : Option Text

-- The two tables, and the next id of the users.
pub record AccountsDb : Type 0 where
  pub users : List User
  pub identities : List Identity
  pub next_user : ℕ

abbrev pub is_identity : Text → Text → Identity → Bool
is_identity provider sub i = i.provider == provider && (i.sub == sub)

-- `SELECT user_id FROM identities WHERE provider=%s AND sub=%s`
unfoldable pub user_of : Text → Text → List Identity → Option ℕ
user_of provider sub [] = none
user_of provider sub (i ∷ is) =
    if is_identity provider sub i then some i.user_id else user_of provider sub is

abbrev pub has_identity : ℕ → List Identity → Bool
has_identity user_id [] = false
has_identity user_id (i ∷ is) = eqb i.user_id user_id || has_identity user_id is

abbrev pub is_active : Status → Bool
is_active active = true
is_active merged = false

-- An active user with the email and without identities.
unfoldable pub legacy_user : Text → List Identity → List User → Option ℕ
legacy_user email ids [] = none
legacy_user email ids (u ∷ us) =
    if u.email == email && is_active u.status && not (has_identity u.id ids)
    then some u.id
    else legacy_user email ids us

abbrev pub legacy_for : Option Text → AccountsDb → Option ℕ
legacy_for none db = none
legacy_for (some email) db = if is_nil email then none else legacy_user email db.identities db.users

-- `profile.get("email") or f'{provider}:{sub}'`
abbrev pub email_key : Profile → Text
email_key p =
    let placeholder : Text = p.provider ++ (codes ":" ++ p.sub) in
    elim p.email [ none ↦ placeholder | some e ↦ if is_nil e then placeholder else e ]

-- `INSERT INTO identities ... ON CONFLICT (provider, sub) DO NOTHING`
unfoldable pub add_identity : ℕ → Profile → List Identity → List Identity
add_identity user_id p [] =
    record { user_id = user_id; provider = p.provider; sub = p.sub; email = p.email } ∷ []
add_identity user_id p (i ∷ is) =
    if is_identity p.provider p.sub i then i ∷ is else i ∷ add_identity user_id p is

-- `INSERT INTO users ... RETURNING id`; migrations/0005_identities.sql lets users share an email.
abbrev pub insert_user : Profile → AccountsDb → ℕ × AccountsDb
insert_user p db = (
  db.next_user,
  record db {
    users =
        db.users
        ++ (record {
          id = db.next_user;
          email = email_key p;
          name = p.name;
          status = active;
          merged_into = none;
        }
            ∷ []);
    next_user = suc db.next_user;
  },
)

abbrev pub legacy_or_new : Profile → Option ℕ → AccountsDb → ℕ × AccountsDb
legacy_or_new p (some user_id) db = (user_id, db)
legacy_or_new p none db = insert_user p db

abbrev pub known_or : Profile → Option ℕ → AccountsDb → ℕ × AccountsDb
known_or p (some user_id) db = (user_id, db)
known_or p none db =
    let (user_id, db') = legacy_or_new p (legacy_for p.email db) db in
    (user_id, record db' { identities = add_identity user_id p db'.identities })

unfoldable pub resolve_user : Profile → AccountsDb → ℕ × AccountsDb
unfolding user_of legacy_user add_identity
resolve_user p db = known_or p (user_of p.provider p.sub db.identities) db

-- The answers of `_link_and_respond`.
pub data Linked : Type 0 where
  invalid : Linked
  conflict : ℕ → Linked
  linked : ℕ → Linked

abbrev pub link_existing : Profile → ℕ → Option ℕ → AccountsDb → Linked × AccountsDb
link_existing p current none db =
    (linked current, record db { identities = add_identity current p db.identities })
link_existing p current (some other) db =
    if not (eqb other current)
    then (conflict other, db)
    else (linked current, record db { identities = add_identity current p db.identities })

-- What `_link_and_respond` does behind the link token.
unfoldable pub link_profile : Profile → Option ℕ → AccountsDb → Linked × AccountsDb
unfolding user_of add_identity
link_profile p none db = (invalid, db)
link_profile p (some current) db =
    link_existing p current (user_of p.provider p.sub db.identities) db
