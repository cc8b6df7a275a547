-- ===== src/Auth/Sessions.antt =====
-- src/dominit0/auth.c: who has a session.
use facet_os.Prelude.{
  ℕ, ◌≡◌, ◌≢◌, refl, sym, ap, ◌∙◌, subst, ◌⊎◌, inl, inr, Bool, true, false, Option, none, some,
  List, [], ◌∷◌, ◌++◌, ltb, ◌-◌, ◌^◌, ◌==◌, ==_iff, if◌then◌else◌, Bool-cases, Option-cases, length,
  Bytes,
}
use facet_os.Prelude.Monad.{Result, ok, err, Fault, access_denied, invalid_argument}
use facet_os.Config.Schema.Records.{User, Domain, SystemConfig}
use facet_os.Config.Validation.Definitions.{text_of}
use facet_os.Auth.{
  Session, Authority, set_sessions, find_user, matches, check_password, authenticate, Principal,
  Proof, proof_of, user_of_name, find_authenticated_user, session_of, create_session_for_user,
  security_create, at_domain, find_by_name, session_by_name, session_for_user, authenticate_at,
  authenticate_user, initialize_authorities, auth_initialize,
}
use facet_os.Auth.Passwords.{find_user-find_by_name, FirstNamed, find_user-FirstNamed}

-- no authority of a domain
abbrev pub NoneOf : ℕ → List Authority → Type 0
NoneOf d [] = Unit
NoneOf d (a ∷ as') = (a.domain_id ≢ d) × NoneOf d as'

-- whether some authority is of a domain
abbrev pub serves : ℕ → List Authority → Bool
serves d [] = false
serves d (a ∷ as') = if a.domain_id == d then true else serves d as'

at_domain-first :
    (call : Authority → Result Session × Authority) (before : List Authority) (a : Authority)
    (rest : List Authority)
    → NoneOf a.domain_id before
    → at_domain call (before ++ a ∷ rest) a.domain_id ≡ ((call a).0, before ++ (call a).1 ∷ rest)
unfolding at_domain
at_domain-first call [] a rest h =
    let e : (a.domain_id == a.domain_id) ≡ true = (==_iff a.domain_id a.domain_id).1 refl in
    rw e refl
at_domain-first call (b ∷ before) a rest h =
    rw (differs b.domain_id h.0, at_domain-first call before a rest h.1) refl
  where
    differs : (n : ℕ) → n ≢ a.domain_id → (n == a.domain_id) ≡ false
    differs n k = elim (Bool-cases (n == a.domain_id)) [
      | inl e ↦ absurd (k ((==_iff n a.domain_id).0 e))
      | inr e ↦ e
    ]

-- the first user of its name is found again under it
find_user-again :
    (users : List User) (name : Bytes) (user : User)
    → find_user users name ≡ some user
    → text_of user.name ≡ name
find_user-again users name user e =
    (subst (FirstNamed users name) e (find_user-FirstNamed users name)).3

check_password-found :
    (crypt : Bytes → Bytes → Option Bytes) (password : Bytes) (o : Option User) (user : User)
    → check_password crypt password o ≡ ok user
    → o ≡ some user
unfolding check_password
check_password-found crypt password none user h = cc
check_password-found crypt password (some u) user h =
    by_match (matches (crypt _ (text_of u.password_hash)) (text_of u.password_hash)) h
  where
    by_match : (b : Bool) → (if b then ok u else err access_denied) ≡ ok user → some u ≡ some user
    by_match true h = cc
    by_match false h = cc

authenticate-found :
    (crypt : Bytes → Bytes → Option Bytes) (a : Authority) (name password : Bytes) (user : User)
    → authenticate crypt a (some name) (some password) ≡ ok user
    → find_user a.users name ≡ some user
unfolding authenticate
authenticate-found crypt a name password user h = by_size (ltb 4096 (length password)) h
  where
    by_size :
        (b : Bool)
        → (if b
            then err invalid_argument
            else check_password crypt password (find_user a.users name))
          ≡ ok user
        → find_user a.users name ≡ some user
    by_size true h = cc
    by_size false h = check_password-found crypt password (find_user a.users name) user h

find_authenticated_user-own :
    (a : Authority) (user : User)
    → find_user a.users (text_of user.name) ≡ some user
    → find_authenticated_user a (some (proof_of a user)) ≡ some user
unfolding find_authenticated_user
find_authenticated_user-own a user h =
    let e : (a.domain_id == a.domain_id) ≡ true = (==_iff a.domain_id a.domain_id).1 refl in rw e h

security_create-own :
    (a : Authority) (user : User)
    → find_user a.users (text_of user.name) ≡ some user
    → security_create a (some (proof_of a user))
      ≡ (ok (session_of a user), set_sessions (session_of a user ∷ a.sessions) a)
unfolding security_create create_session_for_user
security_create-own a user h = rw (find_authenticated_user-own a user h, security_create) refl

-- When the first authority of a domain authenticates a user, `dominit0_authenticate_user` gives a
-- session of that domain and of that user, and stores it, in that authority, before its other
-- sessions; nothing else changes.
pub authenticate_user-session :
    (crypt : Bytes → Bytes → Option Bytes) (before rest : List Authority) (a : Authority)
    (name password : Bytes) (user : User)
    → NoneOf a.domain_id before
    → authenticate crypt a (some name) (some password) ≡ ok user
    → authenticate_user crypt (before ++ a ∷ rest) a.domain_id (some name) (some password)
      ≡ (ok (session_of a user), before ++ set_sessions (session_of a user ∷ a.sessions) a ∷ rest)
unfolding authenticate_user authenticate_at
authenticate_user-session crypt before rest a name password user h k =
    at_domain-first (authenticate_at crypt (some name) (some password)) before a rest h
    ∙ ap (λ (r : Result Session × Authority). (r.0, before ++ r.1 ∷ rest)) logged_in
  where
    found : find_user a.users (text_of user.name) ≡ some user
    found =
        let e : find_user a.users name ≡ some user =
          authenticate-found crypt a name password user k in
        subst (λ (n : Bytes). find_user a.users n ≡ some user)
          (sym (find_user-again a.users name user e)) e

    logged_in :
        authenticate_at crypt (some name) (some password) a
        ≡ (ok (session_of a user), set_sessions (session_of a user ∷ a.sessions) a)
    logged_in = rw (k, authenticate_at) (security_create-own a user found)

-- Every session belongs to a user of its authority and carries its domain.
abbrev pub BelongTo : List User → ℕ → List Session → Type 0
BelongTo users d [] = Unit
BelongTo users d (s ∷ ss) =
    (s.session_domain ≡ d)
    × ((name : Bytes) × (find_user users name ≡ some s.user))
    × BelongTo users d ss

abbrev pub AllBelong : List Authority → Type 0
AllBelong [] = Unit
AllBelong (a ∷ as') = BelongTo a.users a.domain_id a.sessions × AllBelong as'

abbrev Belongs : Authority → Type 0
Belongs a = BelongTo a.users a.domain_id a.sessions

-- A call on the authorities: a login, a session for a named user, and one for a proof that is any
-- object at all.
pub data Step (crypt : Bytes → Bytes → Option Bytes)
    : List Authority → List Authority → Type 0 where
  login :
      (as' : List Authority) (d : ℕ) (name password : Option Bytes)
      → Step crypt as' (authenticate_user crypt as' d name password).1
  started :
      (as' : List Authority) (d : ℕ) (name : Option Bytes)
      → Step crypt as' (session_for_user as' d name).1
  proved :
      (before rest : List Authority) (a : Authority) (proof : Option Proof)
      → Step crypt (before ++ a ∷ rest) (before ++ (security_create a proof).1 ∷ rest)

-- the states that the calls reach
pub data Reached (crypt : Bytes → Bytes → Option Bytes) (start : List Authority)
    : List Authority → Type 0 where
  at_start : Reached crypt start start
  after_call :
      {as' bs : List Authority}
      → Reached crypt start as'
      → Step crypt as' bs
      → Reached crypt start bs

create_session-Belongs :
    (a : Authority) (user : User) (name : Bytes)
    → find_user a.users name ≡ some user
    → Belongs a
    → Belongs (create_session_for_user a user).1
unfolding create_session_for_user
create_session-Belongs a user name e h = (refl, (name, e), h)

user_of_name-found :
    (a : Authority) (r : Result Bytes) (user : User)
    → user_of_name a r ≡ some user
    → (name : Bytes) × (find_user a.users name ≡ some user)
user_of_name-found a (err f) user h = cc
user_of_name-found a (ok name) user h = (name, h)

find_authenticated_user-found :
    (a : Authority) (proof : Option Proof) (user : User)
    → find_authenticated_user a proof ≡ some user
    → (name : Bytes) × (find_user a.users name ≡ some user)
unfolding find_authenticated_user
find_authenticated_user-found a none user h = cc
find_authenticated_user-found a (some proof) user h =
    by_answers proof.get_principal proof.get_domain_id h
  where
    by_id :
        (b : Bool) (r : Result Bytes)
        → (if b then user_of_name a r else none) ≡ some user
        → (name : Bytes) × (find_user a.users name ≡ some user)
    by_id true r h = user_of_name-found a r user h
    by_id false r h = cc

    by_answers :
        (p : Result (Option Principal)) (d : Result ℕ)
        → (elim p [
          | err f ↦ none
          | ok none ↦ none
          | ok (some principal) ↦ elim d [
            | err f ↦ none
            | ok id ↦ if id == a.domain_id then user_of_name a principal.getname else none
          ]
        ])
          ≡ some user
        → (name : Bytes) × (find_user a.users name ≡ some user)
    by_answers (err f) d h = cc
    by_answers (ok none) d h = cc
    by_answers (ok (some principal)) (err f) h = cc
    by_answers (ok (some principal)) (ok id) h = by_id (id == a.domain_id) principal.getname h

security_create-Belongs :
    (a : Authority) (proof : Option Proof) → Belongs a → Belongs (security_create a proof).1
unfolding security_create
security_create-Belongs a proof h = elim (Option-cases (find_authenticated_user a proof)) [
  | inl e ↦ rw (e, security_create) h
  | inr (user, e) ↦
      let (name, f) = find_authenticated_user-found a proof user e in
      rw (e, security_create) (create_session-Belongs a user name f h)
]

session_by_name-Belongs :
    (name : Bytes) (a : Authority) → Belongs a → Belongs (session_by_name name a).1
unfolding session_by_name
session_by_name-Belongs name a h = elim (Option-cases (find_by_name a.users name)) [
  | inl e ↦ rw (e, session_by_name) h
  | inr (user, e) ↦
      rw (e, session_by_name)
        (create_session-Belongs a user name (find_user-find_by_name a.users name ∙ e) h)
]

Result-cases : {A : Type 0} (r : Result A) → ((f : Fault) × (r ≡ err f)) ⊎ ((a : A) × (r ≡ ok a))
Result-cases (err f) = inl (f, refl)
Result-cases (ok a) = inr (a, refl)

authenticate_at-Belongs :
    (crypt : Bytes → Bytes → Option Bytes) (name password : Option Bytes) (a : Authority)
    → Belongs a
    → Belongs (authenticate_at crypt name password a).1
unfolding authenticate_at
authenticate_at-Belongs crypt name password a h =
    elim (Result-cases (authenticate crypt a name password)) [
      | inl (f, e) ↦ rw (e, authenticate_at) h
      | inr (user, e) ↦
          rw (e, authenticate_at) (security_create-Belongs a (some (proof_of a user)) h)
    ]

at_domain-AllBelong :
    (call : Authority → Result Session × Authority) (as' : List Authority) (d : ℕ)
    → ((a : Authority) → Belongs a → Belongs (call a).1)
    → AllBelong as'
    → AllBelong (at_domain call as' d).1
unfolding at_domain
at_domain-AllBelong call [] d k h = tt
at_domain-AllBelong call (a ∷ as') d k h = elim (Bool-cases (a.domain_id == d)) [
  | inl e ↦ rw e (k a h.0, h.1)
  | inr e ↦ rw e (h.0, at_domain-AllBelong call as' d k h.1)
]

AllBelong-at :
    (before rest : List Authority) (a b : Authority)
    → (Belongs a → Belongs b)
    → AllBelong (before ++ a ∷ rest)
    → AllBelong (before ++ b ∷ rest)
AllBelong-at [] rest a b k h = (k h.0, h.1)
AllBelong-at (c ∷ before) rest a b k h = (h.0, AllBelong-at before rest a b k h.1)

Step-AllBelong :
    (crypt : Bytes → Bytes → Option Bytes) {as' bs : List Authority}
    → Step crypt as' bs
    → AllBelong as'
    → AllBelong bs
unfolding authenticate_user session_for_user
Step-AllBelong crypt (login as' d name password) h =
    at_domain-AllBelong (authenticate_at crypt name password) as' d
      (authenticate_at-Belongs crypt name password) h
Step-AllBelong crypt (started as' d none) h = h
Step-AllBelong crypt (started as' d (some name)) h =
    at_domain-AllBelong (session_by_name name) as' d (session_by_name-Belongs name) h
Step-AllBelong crypt (proved before rest a proof) h =
    AllBelong-at before rest a (security_create a proof).1 (security_create-Belongs a proof) h

initialize-AllBelong :
    (system : SystemConfig) (ds : List Domain) → AllBelong (initialize_authorities system ds)
unfolding initialize_authorities
initialize-AllBelong system [] = tt
initialize-AllBelong system (d ∷ ds) =
    elim (Bool-cases (d.authentication_source_index == 2 ^ 64 - 1)) [
      | inl e ↦ rw e (tt, initialize-AllBelong system ds)
      | inr e ↦ rw e (tt, initialize-AllBelong system ds)
    ]

-- Whatever logins, named sessions and proofs follow the start of the authorities, every session of
-- an authority carries the domain of the authority, and its user is one that the authority finds
-- under some name.
pub Reached-AllBelong :
    (crypt : Bytes → Bytes → Option Bytes) (system : SystemConfig) {as' : List Authority}
    → Reached crypt (auth_initialize system) as'
    → AllBelong as'
Reached-AllBelong crypt system at_start = initialize-AllBelong system system.domains
Reached-AllBelong crypt system (after_call r s) =
    Step-AllBelong crypt s (Reached-AllBelong crypt system r)
