-- ===== src/Auth.antt =====
-- src/dominit0/auth.c: authentication and sessions.
pub mod Compare
pub mod Passwords
pub mod Sessions
mod Tests
use facet_os.Prelude.{
  ℕ, zero, suc, ◌+◌, ◌-◌, ◌^◌, Bool, true, false, ◌&&◌, ◌||◌, Option, none, some, List, [], ◌∷◌,
  ◌++◌, ltb, leb, ◌==◌, if◌then◌else◌, length, take, Bytes, bytes_equal, codes,
}
use facet_os.Prelude.Monad.{
  Result, ok, err, Fault, invalid_argument, access_denied, not_found, invalid_handle,
}
use facet_os.Config.Schema.Records.{User, Domain, SystemConfig}
use facet_os.Config.Validation.Definitions.{text_of, list_of, is_set}
use facet_os.Config.Validation.Domains.{number_of}
use Compare.{constant_time_equal}

-- `Session`, whose principal is that of its user
pub record Session : Type 0 where
  pub session_domain : ℕ
  pub user : User

-- `AuthAuthority`. A handle of the service is the thing that it stands for, so the handles and the
-- tables of methods have no field. `sessions` is the linked list.
pub record Authority : Type 0 where
  pub users : List User
  pub sessions : List Session
  pub domain_id : ℕ

abbrev pub set_sessions : List Session → Authority → Authority
set_sessions ss a = record a { sessions = ss }

-- the test of a user's name against a `FacetString`
unfoldable pub is_named : Bytes → User → Bool
is_named name user =
    length (text_of user.name) == length name && constant_time_equal (text_of user.name) name

-- `strndup` stops at a zero byte
pub until_nul : Bytes → Bytes
until_nul [] = []
until_nul (c ∷ t) = let rest = until_nul t in if c == 0 then [] else c ∷ rest

-- the loop of `find_authenticated_user`, and of `authenticate` up to the password: the first user of
-- the name
unfoldable pub find_user : List User → Bytes → Option User
unfolding is_named
find_user [] name = none
find_user (user ∷ users) name =
    let rest = find_user users name in if is_named name user then some user else rest

-- The comparison of what `crypt` gives with the stored hash, over the length of that. A shorter
-- string differs from it at its end.
unfoldable pub matches : Option Bytes → Bytes → Bool
matches none hash = false
matches (some actual) hash =
    leb (length hash) (length actual) && constant_time_equal (take (length hash) actual) hash

module _ (crypt : Bytes → Bytes → Option Bytes) where
  -- what `authenticate` does with the user found
  unfoldable pub check_password : Bytes → Option User → Result User
  unfolding until_nul matches
  check_password password none = err access_denied
  check_password password (some user) =
      let hash = text_of user.password_hash in
      if matches (crypt (until_nul password) hash) hash then ok user else err access_denied

  -- `authenticate`. A string whose `data` is null is `none`. The handle that it gives is the user,
  -- whose authenticated principal it stands for; allocations and exports succeed.
  unfoldable pub authenticate : Authority → Option Bytes → Option Bytes → Result User
  unfolding check_password
  authenticate a none password = err invalid_argument
  authenticate a (some name) none = err invalid_argument
  authenticate a (some name) (some password) =
      if ltb 4096 (length password)
      then err invalid_argument
      else check_password password (find_user a.users name)

-- What a principal and a proof of authentication answer to a call. Any process may export such an
-- object, so the answers are arbitrary.
pub record Principal : Type 0 where
  pub getname : Result Bytes

pub record Proof : Type 0 where
  pub get_principal : Result (Option Principal)
  pub get_domain_id : Result ℕ

-- the objects of a user: `authenticated_principal`, `authenticated_domain_id`, `principal_name`
abbrev pub principal_of : User → Principal
principal_of user = record { getname = ok (text_of user.name) }

abbrev pub proof_of : Authority → User → Proof
proof_of a user = record {
  get_principal = ok (some (principal_of user));
  get_domain_id = ok a.domain_id;
}

abbrev pub user_of_name : Authority → Result Bytes → Option User
user_of_name a (err f) = none
user_of_name a (ok name) = find_user a.users name

-- `find_authenticated_user`; `none` stands for a handle that cannot be cloned.
unfoldable pub find_authenticated_user : Authority → Option Proof → Option User
find_authenticated_user a none = none
find_authenticated_user a (some proof) = elim proof.get_principal [
  | err f ↦ none
  | ok none ↦ none
  | ok (some principal) ↦ elim proof.get_domain_id [
    | err f ↦ none
    | ok id ↦ if id == a.domain_id then user_of_name a principal.getname else none
  ]
]

abbrev pub session_of : Authority → User → Session
session_of a user = record { session_domain = a.domain_id; user = user }

-- `create_session_for_user`
unfoldable pub create_session_for_user : Authority → User → Result Session × Authority
create_session_for_user a user =
    (ok (session_of a user), set_sessions (session_of a user ∷ a.sessions) a)

-- `security_create`
unfoldable pub security_create : Authority → Option Proof → Result Session × Authority
unfolding find_authenticated_user create_session_for_user
security_create a proof = elim (find_authenticated_user a proof) [
  | none ↦ (err access_denied, a)
  | some user ↦ create_session_for_user a user
]

abbrev pub with_first :
    Authority → List Authority → Result Session × Authority → Result Session × List Authority
with_first a rest (r, a') = (r, a' ∷ rest)

abbrev pub behind : Authority → Result Session × List Authority → Result Session × List Authority
behind a (r, rest) = (r, a ∷ rest)

-- the loops over the authorities: the call on the first one of the domain
unfoldable pub at_domain :
    (Authority → Result Session × Authority) → List Authority → ℕ → Result Session × List Authority
at_domain call [] domain_id = (err not_found, [])
at_domain call (a ∷ rest) domain_id =
    let later = at_domain call rest domain_id in
    if a.domain_id == domain_id then with_first a rest (call a) else behind a later

-- the inner loop of `dominit0_auth_session_for_user`, which compares by `strcmp`
abbrev pub find_by_name : List User → Bytes → Option User
find_by_name [] name = none
find_by_name (user ∷ users) name =
    let rest = find_by_name users name in
    if bytes_equal (text_of user.name) name then some user else rest

unfoldable pub session_by_name : Bytes → Authority → Result Session × Authority
session_by_name name a = elim (find_by_name a.users name) [
  | none ↦ (err not_found, a)
  | some user ↦ create_session_for_user a user
]

-- `dominit0_auth_session_for_user`; `none` is a null name.
unfoldable pub session_for_user :
    List Authority → ℕ → Option Bytes → Result Session × List Authority
unfolding session_by_name at_domain
session_for_user as' domain_id none = (err invalid_argument, as')
session_for_user as' domain_id (some name) = at_domain (session_by_name name) as' domain_id

module _ (crypt : Bytes → Bytes → Option Bytes) where
  unfoldable pub authenticate_at :
      Option Bytes → Option Bytes → Authority → Result Session × Authority
  unfolding security_create
  authenticate_at name password a = elim (authenticate crypt a name password) [
    | err f ↦ (err f, a)
    | ok user ↦ security_create a (some (proof_of a user))
  ]

  -- `dominit0_authenticate_user`
  unfoldable pub authenticate_user :
      List Authority → ℕ → Option Bytes → Option Bytes → Result Session × List Authority
  unfolding authenticate_at
  authenticate_user as' domain_id name password =
      at_domain (authenticate_at name password) as' domain_id

-- `session_credentials`: user, group and whether an administrator
abbrev pub session_credentials : Session → Option ℕ × Option ℕ × Bool
session_credentials s = (s.user.uid, s.user.gid, is_set s.user.admin)

-- `initialize_authority`
unfoldable pub initialize_authority : SystemConfig → Domain → Authority
initialize_authority system domain = record {
  users = system.users ++ list_of domain.users;
  sessions = [];
  domain_id = number_of domain.id;
}

-- the cleared element of a domain without an authority
abbrev pub no_authority : Authority
no_authority = record { users = []; sessions = []; domain_id = 0 }

-- the loop of `dominit0_auth_initialize`, whose binding of the services succeeds
unfoldable pub initialize_authorities : SystemConfig → List Domain → List Authority
unfolding initialize_authority
initialize_authorities system [] = []
initialize_authorities system (d ∷ ds) =
    (if d.authentication_source_index == 2 ^ 64 - 1
      then no_authority
      else initialize_authority system d)
    ∷ initialize_authorities system ds

-- `dominit0_auth_initialize`
abbrev pub auth_initialize : SystemConfig → List Authority
auth_initialize system = initialize_authorities system system.domains
