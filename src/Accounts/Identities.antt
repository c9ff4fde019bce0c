-- ===== src/Accounts/Identities.antt =====
-- The identities of the users in app/routes/auth.py: resolve_user and _link_and_respond.
use vegapunk_web.Base.{
  ℕ, not, Option, none, some, List, [], ◌∷◌, ◌≡◌, refl, inl, inr, arith, eqb, ==-refl, Bool-cases,
  if_intro,
}
use vegapunk_web.Text.{Text, text_eq}
use vegapunk_web.Accounts.{
  Profile, Identity, AccountsDb, is_identity, user_of, add_identity, legacy_for, legacy_or_new,
  known_or, resolve_user, Linked, link_existing, link_profile,
}

-- Behind the insert, the new identity has its user, and the others have the ones that they had.
user_of-add_identity :
    (p : Profile) (user_id : ℕ) (is : List Identity)
    → user_of p.provider p.sub is ≡ none
    → user_of p.provider p.sub (add_identity user_id p is) ≡ some user_id
unfolding user_of add_identity
user_of-add_identity p user_id [] h = rw (==-refl p.provider, ==-refl p.sub)
user_of-add_identity p user_id (i ∷ is) h = elim (Bool-cases (is_identity p.provider p.sub i)) [
  | inl e ↦ cc
  | inr e ↦ rw (e, e) (user_of-add_identity p user_id is (rw e at h))
]

user_of-add_identity_kept :
    (p : Profile) (user_id u : ℕ) (provider sub : Text) (is : List Identity)
    → user_of provider sub is ≡ some u
    → user_of provider sub (add_identity user_id p is) ≡ some u
unfolding user_of add_identity
user_of-add_identity_kept p user_id u provider sub [] h = cc
user_of-add_identity_kept p user_id u provider sub (i ∷ is) h =
    ground (arith, user_of-add_identity_kept p user_id u provider sub is)

resolved_again :
    (q : Profile) (after : AccountsDb) (user_id : ℕ)
    → user_of q.provider q.sub after.identities ≡ some user_id
    → resolve_user q after ≡ (user_id, after)
unfolding resolve_user
resolved_again q after user_id h = rw h

known_or-known :
    (p : Profile) (o : Option ℕ) (db : AccountsDb)
    → user_of p.provider p.sub db.identities ≡ o
    → user_of p.provider p.sub (known_or p o db).1.identities ≡ some (known_or p o db).0
known_or-known p (some u) db h = h
known_or-known p none db h = go (legacy_for p.email db)
  where
    go :
        (o : Option ℕ)
        → let (user_id, db') = legacy_or_new p o db in
          user_of p.provider p.sub (add_identity user_id p db'.identities) ≡ some user_id
    go none = user_of-add_identity p db.next_user db.identities h
    go (some u) = user_of-add_identity p u db.identities h

-- A login binds the identity to its user: whatever else the provider says of it later, the next
-- login with it resolves to the same user and changes nothing.
pub resolve_user_again :
    (p q : Profile) (db : AccountsDb)
    → q.provider ≡ p.provider
    → q.sub ≡ p.sub
    → let (user_id, after) = resolve_user p db in resolve_user q after ≡ (user_id, after)
unfolding resolve_user
resolve_user_again p q db hp hs =
    let known = known_or-known p (user_of p.provider p.sub db.identities) db refl in
    resolved_again q _ _ (rw (hp, hs) known)

-- Neither a login nor a link takes an identity away from the user that it belongs to.
pub identity_kept :
    (p : Profile) (current : Option ℕ) (provider sub : Text) (u : ℕ) (db : AccountsDb)
    → user_of provider sub db.identities ≡ some u
    → (user_of provider sub (resolve_user p db).1.identities ≡ some u)
      × (user_of provider sub (link_profile p current db).1.identities ≡ some u)
unfolding resolve_user link_profile
identity_kept p current provider sub u db h =
    (login (user_of p.provider p.sub db.identities), link current)
  where
    new : (o : Option ℕ) → user_of provider sub (legacy_or_new p o db).1.identities ≡ some u
    new none = h
    new (some v) = h

    login : (o : Option ℕ) → user_of provider sub (known_or p o db).1.identities ≡ some u
    login none = user_of-add_identity_kept p _ u provider sub _ (new (legacy_for p.email db))
    login (some v) = h

    existing :
        (c : ℕ) (o : Option ℕ) → user_of provider sub (link_existing p c o db).1.identities ≡ some u
    existing c none = user_of-add_identity_kept p c u provider sub db.identities h
    existing c (some other) =
        if_intro (λ (r : Linked × AccountsDb). user_of provider sub r.1.identities ≡ some u)
          (not (eqb other c)) _ _ (λ _. h)
          (λ _. user_of-add_identity_kept p c u provider sub db.identities h)

    link : (c : Option ℕ) → user_of provider sub (link_profile p c db).1.identities ≡ some u
    link none = h
    link (some c) = existing c (user_of p.provider p.sub db.identities)
