-- ===== src/Auth/Passwords.antt =====
-- src/dominit0/auth.c: who is authenticated.
use facet_os.Prelude.{
  ◌≡◌, ◌≢◌, ◌≤◌, ◌<◌, refl, sym, ap, subst, ◌⊎◌, inl, inr, Bool, true, false, ◌&&◌, Option, none,
  some, List, [], ◌∷◌, ◌++◌, ◌↔◌, arith, ltb, ltb→lt, leb, ◌==◌, ==_iff, Bool-cases, length, take,
  length-take, Bytes, bytes_equal, bytes_equal_iff,
}
use facet_os.Prelude.Monad.{Result, ok, err, invalid_argument, access_denied}
use facet_os.Config.Schema.Records.{User}
use facet_os.Config.Validation.Definitions.{text_of}
use facet_os.Auth.{
  Authority, is_named, until_nul, find_user, matches, check_password, authenticate, find_by_name,
}
use facet_os.Auth.Compare.{constant_time_equal, constant_time_equal_iff}

is_named-bytes_equal :
    (name : Bytes) (user : User) → is_named name user ≡ bytes_equal (text_of user.name) name
unfolding is_named
is_named-bytes_equal name user = by_length (text_of user.name)
  where
    by_length :
        (t : Bytes) → (length t == length name && constant_time_equal t name) ≡ bytes_equal t name
    by_length t = elim (Bool-cases (bytes_equal t name)) [
      | inl e ↦
          let same : t ≡ name = (bytes_equal_iff t name).0 e in
          let n : (length t == length name) ≡ true =
            (==_iff (length t) (length name)).1 (ap length same) in
          let c : constant_time_equal t name ≡ true =
            (constant_time_equal_iff t name (ap length same)).1 same in
          rw (n, c, e) refl
      | inr e ↦ elim (Bool-cases (length t == length name)) [
        | inr f ↦ rw (f, e) refl
        | inl f ↦ elim (Bool-cases (constant_time_equal t name)) [
          | inr g ↦ rw (f, g, e) refl
          | inl g ↦
              let same : t ≡ name =
                (constant_time_equal_iff t name ((==_iff (length t) (length name)).0 f)).0 g in
              absurd (differs same e)
        ]
      ]
    ]
      where
        differs : t ≡ name → bytes_equal t name ≢ false
        differs same e' = cc' ((bytes_equal_iff t name).1 same) e'
          where
            cc' : {b : Bool} → b ≡ true → b ≢ false
            cc' h k = cc

-- The search of `authenticate`, which compares lengths and bytes in constant time, finds the same
-- user as the search by `strcmp` of `dominit0_auth_session_for_user`.
pub find_user-find_by_name :
    (users : List User) (name : Bytes) → find_user users name ≡ find_by_name users name
unfolding find_user
find_user-find_by_name [] name = refl
find_user-find_by_name (user ∷ users) name =
    rw (is_named-bytes_equal name user, find_user-find_by_name users name) refl

-- no user of a name
abbrev pub NoneNamed : List User → Bytes → Type 0
NoneNamed [] name = Unit
NoneNamed (user ∷ users) name = (text_of user.name ≢ name) × NoneNamed users name

-- the first user of a name, or that there is none
abbrev pub FirstNamed : List User → Bytes → Option User → Type 0
FirstNamed users name none = NoneNamed users name
FirstNamed users name (some user) =
    (before after : List User) × (users ≡ before ++ user ∷ after)
    × (text_of user.name ≡ name)
    × NoneNamed before name

find_by_name-FirstNamed :
    (users : List User) (name : Bytes) → FirstNamed users name (find_by_name users name)
find_by_name-FirstNamed [] name = tt
find_by_name-FirstNamed (user ∷ users) name =
    elim (Bool-cases (bytes_equal (text_of user.name) name)) [
      | inl e ↦ rw e ([], users, refl, (bytes_equal_iff (text_of user.name) name).0 e, tt)
      | inr e ↦
          rw e (later (find_by_name users name) (find_by_name-FirstNamed users name) (other_name e))
    ]
  where
    other_name : bytes_equal (text_of user.name) name ≡ false → text_of user.name ≢ name
    other_name e h = no ((bytes_equal_iff (text_of user.name) name).1 h) e
      where
        no : {b : Bool} → b ≡ true → b ≢ false
        no h k = cc

    later :
        (o : Option User)
        → FirstNamed users name o
        → text_of user.name ≢ name
        → FirstNamed (user ∷ users) name o
    later none h k = (k, h)
    later (some u) (before, after, split, named, new) k =
        (user ∷ before, after, ap (λ (us : List User). user ∷ us) split, named, (k, new))

pub find_user-FirstNamed :
    (users : List User) (name : Bytes) → FirstNamed users name (find_user users name)
find_user-FirstNamed users name =
    subst (FirstNamed users name) (sym (find_user-find_by_name users name))
      (find_by_name-FirstNamed users name)

-- what `crypt` gives begins with the hash
abbrev pub Unlocks : Option Bytes → Bytes → Type 0
Unlocks actual hash = (a : Bytes) × (actual ≡ some a) × (take (length hash) a ≡ hash)

matches-take : (a hash : Bytes) → (matches (some a) hash ≡ true) ↔ (take (length hash) a ≡ hash)
unfolding matches
matches-take a hash = (forth, back)
  where
    long : take (length hash) a ≡ hash → leb (length hash) (length a) ≡ true
    long e =
        let n : length (take (length hash) a) ≡ length hash = ap length e in
        ground (arith, length-take (length hash) a, n)

    back :
        take (length hash) a ≡ hash
        → (leb (length hash) (length a) && constant_time_equal (take (length hash) a) hash) ≡ true
    back e = rw (long e) ((constant_time_equal_iff (take (length hash) a) hash (ap length e)).1 e)

    forth :
        (leb (length hash) (length a) && constant_time_equal (take (length hash) a) hash) ≡ true
        → take (length hash) a ≡ hash
    forth h = elim (Bool-cases (leb (length hash) (length a))) [
      | inr e ↦ absurd (no (leb (length hash) (length a)) _ e h)
      | inl e ↦
          (constant_time_equal_iff (take (length hash) a) hash
              (ground (arith, length-take (length hash) a, e))).0
            (both (leb (length hash) (length a)) _ e h)
    ]
      where
        no : (b b' : Bool) → b ≡ false → (b && b') ≢ true
        no true b' e k = cc
        no false b' e k = cc

        both : (b b' : Bool) → b ≡ true → (b && b') ≡ true → b' ≡ true
        both true b' e k = k
        both false b' e k = cc

module _ (crypt : Bytes → Bytes → Option Bytes) (users : List User) (name password : Bytes) where
  abbrev hashed : User → Option Bytes
  hashed user = crypt (until_nul password) (text_of user.password_hash)

  -- what a result says of the name and the password
  abbrev pub Decides : Result User → Type 0
  Decides (ok user) =
      (length password ≤ 4096)
      × FirstNamed users name (some user)
      × Unlocks (hashed user) (text_of user.password_hash)
  Decides (err access_denied) =
      (length password ≤ 4096)
      × (NoneNamed users name
          ⊎ (user : User) × FirstNamed users name (some user)
            × (¬ Unlocks (hashed user) (text_of user.password_hash)))
  Decides (err invalid_argument) = 4096 < length password
  Decides (err _) = ⊥

  unlocked :
      (actual : Option Bytes) (hash : Bytes)
      → (matches actual hash ≡ true) × Unlocks actual hash
        ⊎ (matches actual hash ≡ false) × (¬ Unlocks actual hash)
  unfolding matches
  unlocked none hash = inr (refl, λ h. never h)
    where
      never : Unlocks none hash → ⊥
      never (a, e, t) = cc
  unlocked (some a) hash = elim (Bool-cases (matches (some a) hash)) [
    | inl e ↦ inl (e, (a, refl, (matches-take a hash).0 e))
    | inr e ↦ inr (e, λ h. never e h)
  ]
    where
      never : matches (some a) hash ≡ false → Unlocks (some a) hash → ⊥
      never e (b, f, t) =
          let same : b ≡ a = some_eq f in
          clash
            ((matches-take a hash).1 (subst (λ (c : Bytes). take (length hash) c ≡ hash) same t)) e
        where
          some_eq : some a ≡ some b → b ≡ a
          some_eq f = cc

          clash : matches (some a) hash ≡ true → matches (some a) hash ≡ false → ⊥
          clash h k = cc

  check_password-Decides :
      (o : Option User)
      → length password ≤ 4096
      → FirstNamed users name o
      → Decides (check_password crypt password o)
  unfolding check_password
  check_password-Decides none l h = (l, inl h)
  check_password-Decides (some user) l h =
      elim (unlocked (hashed user) (text_of user.password_hash)) [
        | inl e ↦ rw e.0 (l, h, e.1)
        | inr e ↦ rw e.0 (l, inr (user, h, e.1))
      ]

-- `authenticate` gives a user exactly when that is the first user of the name and what `crypt` makes
-- of the password, up to a zero byte, begins with the stored hash. It refuses access when there is
-- no user of the name or the first one has another hash, and a password of more than 4096 bytes is
-- an invalid argument. There is no other result.
pub authenticate-Decides :
    (crypt : Bytes → Bytes → Option Bytes) (a : Authority) (name password : Bytes)
    → Decides crypt a.users name password (authenticate crypt a (some name) (some password))
unfolding authenticate
authenticate-Decides crypt a name password = elim (Bool-cases (ltb 4096 (length password))) [
  | inl e ↦ rw e (ltb→lt 4096 (length password) e)
  | inr e ↦ rw e (
      check_password-Decides crypt a.users name password (find_user a.users name)
        (ground (arith, e)) (find_user-FirstNamed a.users name))
]
