-- ===== src/Config/Validation/Users.antt =====
-- src/config.c: the global users of a configuration that is accepted.
use facet_os.Prelude.{
  ℕ, zero, suc, ◌≡◌, ◌≢◌, refl, sym, ap, ◌∙◌, subst, ◌⊎◌, inl, inr, Bool, true, false, not, ◌&&◌,
  ◌||◌, Option, none, some, List, [], ◌∷◌, get_elem?, ==_iff, Bool-cases, bytes_equal,
  bytes_equal_iff, bytes_equal_symm, codes,
}
use facet_os.Config.Cursor.{schema, duplicate}
use facet_os.Config.Schema.Checks.{Checked}
use facet_os.Config.Schema.Gives.{Gives, Gives-any, Gives-ensure, Gives-eq}
use facet_os.Config.Schema.Records.{User, SystemConfig}
use facet_os.Config.Schema.Tables.{Document}
use facet_os.Config.Validation.{validate_required}
use facet_os.Config.Validation.Definitions.{
  nowhere, is_number, is_set, text_of, any, root_hash, validate_user, named, is_root, check_users,
}
use facet_os.Config.Validation.Apart.{Apart}
use facet_os.Config.Validation.Facts.{not-true, ConfigFacts, validate_required-Facts}

abbrev same_name : User → User → Bool
same_name x y = bytes_equal (text_of x.name) (text_of y.name)

abbrev is_called_root : User → Bool
is_called_root user = bytes_equal (text_of user.name) (codes "root")

-- all differ from those before
abbrev AllNew : List User → List User → Type 0
AllNew before [] = Unit
AllNew before (x ∷ xs) = (any (named (text_of x.name)) before ≡ false) × AllNew before xs

-- a user of the list that has passed the test on `root`
abbrev HasRoot : List User → Type 0
HasRoot xs =
    (i : ℕ) × (user : User) × (get_elem? xs i ≡ some user)
    × (is_called_root user ≡ true)
    × (is_root user ≡ true)

abbrev UsersFacts : List User → Bool → List User → Bool → Type 0
UsersFacts before found xs found' =
    AllNew before xs × Apart same_name xs × ((found' ≡ found) ⊎ HasRoot xs)

AllNew-drop : (x : User) (before xs : List User) → AllNew (x ∷ before) xs → AllNew before xs
AllNew-drop x before [] h = tt
AllNew-drop x before (y ∷ ys) h =
    (neither (named (text_of y.name) x) h.0, AllNew-drop x before ys h.1)
  where
    neither : (a : Bool) {b : Bool} → (a || b) ≡ false → b ≡ false
    neither true h = cc
    neither false h = h

AllNew-get_elem? :
    (x : User) (before xs : List User) (i : ℕ) (y : User)
    → AllNew (x ∷ before) xs
    → get_elem? xs i ≡ some y
    → same_name y x ≡ false
AllNew-get_elem? x before [] i y h k = cc
AllNew-get_elem? x before (z ∷ xs) zero y h k =
    subst (λ (w : User). same_name w x ≡ false) (some_eq k) (first (named (text_of z.name) x) _ h.0)
  where
    some_eq : {a b : User} → some a ≡ some b → a ≡ b
    some_eq k = cc

    first : (a b : Bool) → (a || b) ≡ false → a ≡ false
    first true b h = cc
    first false b h = refl
AllNew-get_elem? x before (z ∷ xs) (suc i) y h k = AllNew-get_elem? x before xs i y h.1 k

Apart-cons :
    (x : User) (before xs : List User)
    → AllNew (x ∷ before) xs
    → Apart same_name xs
    → Apart same_name (x ∷ xs)
Apart-cons x before xs new h zero zero y z hy hz e = refl
Apart-cons x before xs new h zero (suc j) y z hy hz e =
    clash (AllNew-get_elem? x before xs j z new hz)
      (subst (λ (w : User). same_name w z ≡ true) (sym (some_eq hy)) e)
  where
    some_eq : {a b : User} → some a ≡ some b → a ≡ b
    some_eq k = cc

    clash : same_name z x ≡ false → same_name x z ≡ true → 0 ≡ suc j
    clash a b = absurd (true_false (sym b ∙ bytes_equal_symm (text_of x.name) (text_of z.name) ∙ a))
      where
        true_false : true ≢ false
        true_false h = cc
Apart-cons x before xs new h (suc i) zero y z hy hz e =
    clash (AllNew-get_elem? x before xs i y new hy)
      (subst (λ (w : User). same_name y w ≡ true) (sym (some_eq hz)) e)
  where
    some_eq : {a b : User} → some a ≡ some b → a ≡ b
    some_eq k = cc

    clash : same_name y x ≡ false → same_name y x ≡ true → suc i ≡ 0
    clash a b = cc
Apart-cons x before xs new h (suc i) (suc j) y z hy hz e = ap suc (h i j y z hy hz e)

check_users-Facts :
    (before : List User) (found : Bool) (xs : List User)
    → Gives (UsersFacts before found xs) (check_users before found xs)
unfolding check_users
check_users-Facts before found [] = (tt, (λ i j x y h. cc), inl refl)
check_users-Facts before found (x ∷ xs) = Gives-any _ (validate_user x) _ λ u.
    Gives-ensure _ (not (any (named (text_of x.name)) before)) duplicate nowhere _ λ new.
      Gives-ensure _ (not (is_called_root x) || is_root x) schema nowhere _ λ root.
        extended (check_users (x ∷ before) (found || is_called_root x) xs) (not-true _ new) root
          (check_users-Facts (x ∷ before) (found || is_called_root x) xs)
  where
    root_found :
        (found' : Bool)
        → (not (is_called_root x) || is_root x) ≡ true
        → (found' ≡ (found || is_called_root x)) ⊎ HasRoot xs
        → (found' ≡ found) ⊎ HasRoot (x ∷ xs)
    root_found found' root (inr (i, user, a, b, e)) = inr (suc i, user, a, b, e)
    root_found found' root (inl e) = elim (Bool-cases (is_called_root x)) [
      | inl f ↦ inr (0, x, refl, f, implied (is_called_root x) f root)
      | inr f ↦ inl (e ∙ or_false found f)
    ]
      where
        implied : (a : Bool) {b : Bool} → a ≡ true → (not a || b) ≡ true → b ≡ true
        implied true e h = h
        implied false e h = cc

        or_false : (a : Bool) {b : Bool} → b ≡ false → (a || b) ≡ a
        or_false true e = refl
        or_false false e = e

    extended :
        (o : Checked Bool)
        → any (named (text_of x.name)) before ≡ false
        → (not (is_called_root x) || is_root x) ≡ true
        → Gives (UsersFacts (x ∷ before) (found || is_called_root x) xs) o
        → Gives (UsersFacts before found (x ∷ xs)) o
    extended (inl d) new root h = tt
    extended (inr found') new root h = (
      (new, AllNew-drop x before xs h.0),
      Apart-cons x before xs h.0 h.1,
      root_found found' root h.2,
    )

and4 :
    (a b g h : Bool) → (a && b && g && h) ≡ true → (a ≡ true) × (b ≡ true) × (g ≡ true) × (h ≡ true)
and4 true true true true e = (refl, refl, refl, refl)
and4 true true true false e = cc
and4 true true false h e = cc
and4 true false g h e = cc
and4 false b g h e = cc

is_root-parts :
    (user : User)
    → is_root user ≡ true
    → (is_set user.admin ≡ true)
      × (is_number 0 user.uid ≡ true)
      × (is_number 0 user.gid ≡ true)
      × (bytes_equal (text_of user.password_hash) root_hash ≡ true)
unfolding is_root
is_root-parts user e =
    and4 (is_set user.admin) (is_number 0 user.uid) (is_number 0 user.gid)
      (bytes_equal (text_of user.password_hash) root_hash) e

users_facts :
    (d : Document) (c : SystemConfig)
    → validate_required d ≡ inr c
    → Apart same_name c.users × HasRoot c.users
users_facts d c e =
    let facts = Gives-eq (ConfigFacts d) (validate_required d) (validate_required-Facts d) e in
    let (new, apart, root) =
      Gives-eq (UsersFacts [] false d.config.users) (check_users [] false d.config.users)
        (check_users-Facts [] false d.config.users) facts.users_checked in
    subst (λ (xs : List User). Apart same_name xs × HasRoot xs) (sym facts.kept_users)
      (apart, found root)
  where
    found : (true ≡ false) ⊎ HasRoot d.config.users → HasRoot d.config.users
    found (inl h) = cc
    found (inr h) = h

-- In a configuration that is accepted, two global users of one name are one user.
pub validate_required-user_apart :
    (d : Document) (c : SystemConfig) (i j : ℕ) (x y : User)
    → validate_required d ≡ inr c
    → get_elem? c.users i ≡ some x
    → get_elem? c.users j ≡ some y
    → text_of x.name ≡ text_of y.name
    → i ≡ j
validate_required-user_apart d c i j x y e h k same =
    (users_facts d c e).0 i j x y h k ((bytes_equal_iff (text_of x.name) (text_of y.name)).1 same)

-- In a configuration that is accepted, some global user is called `root`, is an administrator with
-- user and group 0, and has the fixed password hash.
pub validate_required-root_user :
    (d : Document) (c : SystemConfig)
    → validate_required d ≡ inr c
    → (i : ℕ) × (user : User) × (get_elem? c.users i ≡ some user)
      × (text_of user.name ≡ codes "root")
      × (user.admin ≡ some true)
      × (user.uid ≡ some 0)
      × (user.gid ≡ some 0)
      × (text_of user.password_hash ≡ root_hash)
validate_required-root_user d c e =
    let (i, user, at, called, root) = (users_facts d c e).1 in
    let (a, b, g, h) = is_root-parts user root in
    (
      i,
      user,
      at,
      (bytes_equal_iff (text_of user.name) (codes "root")).0 called,
      set_true user.admin a,
      zero_number user.uid b,
      zero_number user.gid g,
      (bytes_equal_iff (text_of user.password_hash) root_hash).0 h,
    )
  where
    set_true : (o : Option Bool) → is_set o ≡ true → o ≡ some true
    set_true none h = cc
    set_true (some b) h = ap some h

    zero_number : (o : Option ℕ) → is_number 0 o ≡ true → o ≡ some 0
    zero_number none h = cc
    zero_number (some n) h = ap some ((==_iff n 0).0 h)
