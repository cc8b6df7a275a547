-- ===== src/Auth/Tests.antt =====
-- A domain with two users, and the laws at it. `crypt` puts the password behind the salt.
use facet_os.Prelude.{◌≡◌, ◌↔◌, refl, true, Option, some, [], ◌∷◌, ◌++◌, take, Bytes, codes}
use facet_os.Prelude.Monad.{ok, err, access_denied}
use facet_os.Config.Schema.Records.{User, SystemConfig, blank_user, blank_domain, blank_config}
use facet_os.Auth.{
  Authority, set_sessions, find_user, authenticate, session_of, authenticate_user, auth_initialize,
}
use facet_os.Auth.Compare.{constant_time_equal, constant_time_equal_iff}
use facet_os.Auth.Passwords.{Decides, authenticate-Decides}
use facet_os.Auth.Sessions.{
  authenticate_user-session, AllBelong, login, at_start, after_call, Reached-AllBelong,
}

unfoldable crypt : Bytes → Bytes → Option Bytes
crypt password hash = some (take 1 hash ++ password)

abbrev alice : User
alice = record blank_user { name = some (codes "al"); password_hash = some (codes "$pw") }

abbrev bob : User
bob = record blank_user { name = some (codes "bo"); password_hash = some (codes "$xy") }

abbrev first_authority : Authority
first_authority = record { users = []; sessions = []; domain_id = 1 }

abbrev authority : Authority
authority = record { users = alice ∷ bob ∷ []; sessions = []; domain_id = 0 }

bob_authenticated : authenticate crypt authority (some (codes "bo")) (some (codes "xy")) ≡ ok bob
unfolding authenticate crypt find_user constant_time_equal
bob_authenticated = refl

alice_refused :
    authenticate crypt authority (some (codes "al")) (some (codes "xy")) ≡ err access_denied
unfolding authenticate crypt find_user constant_time_equal
alice_refused = refl

constant_time_equal_iff_example :
    (constant_time_equal (codes "abc") (codes "abd") ≡ true) ↔ (codes "abc" ≡ codes "abd")
constant_time_equal_iff_example = constant_time_equal_iff (codes "abc") (codes "abd") refl

authenticate-Decides_example :
    Decides crypt authority.users
      (codes "al")
      (codes "xy")
      (authenticate crypt authority (some (codes "al")) (some (codes "xy")))
authenticate-Decides_example = authenticate-Decides crypt authority (codes "al") (codes "xy")

authenticate_user-session_example :
    authenticate_user crypt
      (first_authority ∷ authority ∷ [])
      0
      (some (codes "bo"))
      (some (codes "xy"))
    ≡ (
      ok (session_of authority bob),
      first_authority ∷ set_sessions (session_of authority bob ∷ []) authority ∷ [],
    )
authenticate_user-session_example =
    authenticate_user-session crypt (first_authority ∷ []) [] authority (codes "bo") (codes "xy")
      bob ((λ h. cc), tt) bob_authenticated

abbrev system : SystemConfig
system = record blank_config {
  users = bob ∷ [];
  domains = record blank_domain { id = some 0 } ∷ [];
}

Reached-AllBelong_example :
    AllBelong
      (authenticate_user crypt (auth_initialize system) 0 (some (codes "bo")) (some (codes "xy"))).1
Reached-AllBelong_example =
    Reached-AllBelong crypt system (
      after_call at_start
        (login (auth_initialize system) 0 (some (codes "bo")) (some (codes "xy"))))
