-- ===== src/Config/Validation/Definitions.antt =====
-- src/config.c: `validate_required` on sinks, seats, authentication sources and users.
use facet_os.Prelude.{
  ℕ, suc, inr, Bool, true, false, not, ◌&&◌, ◌||◌, Option, none, some, List, [], ◌∷◌, ◌==◌,
  if◌then◌else◌, take, drop, Bytes, bytes_equal, codes,
}
use facet_os.Config.Cursor.{schema, duplicate}
use facet_os.Config.Values.{Spot}
use facet_os.Config.Schema.Checks.{Checked, ◌>>=◌, ensure}
use facet_os.Config.Schema.Records.{SinkDefinition, SeatDefinition, AuthenticationSource, User}

-- The diagnostics of the validation stand at line 0 and column 0.
abbrev pub nowhere : Spot
nowhere = record { spot_line = 0; spot_column = 0 }

abbrev pub is_given : {A : Type 0} → Option A → Bool
is_given none = false
is_given (some a) = true

-- The bytes at a pointer that is read only when it is given.
abbrev pub text_of : Option Bytes → Bytes
text_of none = []
text_of (some t) = t

abbrev pub list_of : {A : Type 0} → Option (List A) → List A
list_of none = []
list_of (some xs) = xs

-- `text[0] == '\0'`
abbrev pub is_empty : Bytes → Bool
is_empty [] = true
is_empty (c ∷ t) = false

-- `text[0] == c`
abbrev pub starts_with : ℕ → Bytes → Bool
starts_with c [] = false
starts_with c (d ∷ t) = d == c

abbrev pub put_before : ℕ → Option (Bytes × Bytes) → Option (Bytes × Bytes)
put_before d none = none
put_before d (some (before, behind)) = some (d ∷ before, behind)

-- `strchr(text, c)`: what stands before the first `c`, and behind it
abbrev pub split_at : ℕ → Bytes → Option (Bytes × Bytes)
split_at c [] = none
split_at c (d ∷ t) = if d == c then some ([], t) else put_before d (split_at c t)

-- `strchr(text, c) != NULL`
abbrev pub has_byte : ℕ → Bytes → Bool
has_byte c t = is_given (split_at c t)

-- a loop that looks for an element, the first one with the property
abbrev pub any : {A : Type 0} → (A → Bool) → List A → Bool
any f [] = false
any f (x ∷ xs) = f x || any f xs

abbrev pub find_index : {A : Type 0} → (A → Bool) → List A → Option ℕ
find_index f [] = none
find_index f (x ∷ xs) =
    let later = find_index f xs in
    if f x then some 0 else elim later [ none ↦ none | some i ↦ some (suc i) ]

-- the first loop; `before` holds the sinks checked, the last one first
unfoldable pub check_sinks : List SinkDefinition → List SinkDefinition → Checked Unit
check_sinks before [] = inr tt
check_sinks before (x ∷ xs) = do
  a ← ensure (is_given x.name && is_given x.sink_type && is_given x.required) schema nowhere
  b ← ensure (not (is_empty (text_of x.name) || is_empty (text_of x.sink_type))) schema nowhere
  c ←
      ensure
        (not (any (λ (y : SinkDefinition). bytes_equal (text_of x.name) (text_of y.name)) before))
        duplicate nowhere
  check_sinks (x ∷ before) xs

-- the loop over the terminals of a seat
pub check_terminal_names : List Bytes → List Bytes → Checked Unit
check_terminal_names before [] = inr tt
check_terminal_names before (t ∷ ts) = do
  a ← ensure (not (is_empty t || has_byte b'.' t)) schema nowhere
  b ← ensure (not (any (bytes_equal t) before)) duplicate nowhere
  check_terminal_names (t ∷ before) ts

-- the loop over the seats
unfoldable pub check_seats : List SeatDefinition → List SeatDefinition → Checked Unit
unfolding check_terminal_names
check_seats before [] = inr tt
check_seats before (x ∷ xs) = do
  a ←
      ensure (is_given x.name && is_given x.seat_type && is_given x.server && is_given x.terminals)
        schema nowhere
  b ←
      ensure
        (not (
          is_empty (text_of x.name)
          || is_empty (text_of x.server)
          || not (starts_with b'/' (text_of x.server))
          || has_byte b'.' (text_of x.name)))
        schema nowhere
  c ←
      ensure
        (not (any (λ (y : SeatDefinition). bytes_equal (text_of x.name) (text_of y.name)) before))
        duplicate nowhere
  e ← check_terminal_names [] (list_of x.terminals)
  check_seats (x ∷ before) xs

-- the loop over the authentication sources
unfoldable pub check_sources : List AuthenticationSource → List AuthenticationSource → Checked Unit
check_sources before [] = inr tt
check_sources before (x ∷ xs) = do
  a ←
      ensure
        (is_given x.name
          && is_given x.provider_domain_id
          && is_given x.source_type
          && is_given x.required)
        schema nowhere
  b ← ensure (not (is_empty (text_of x.name) || is_empty (text_of x.source_type))) schema nowhere
  c ←
      ensure
        (not (
          any (λ (y : AuthenticationSource). bytes_equal (text_of x.name) (text_of y.name)) before))
        duplicate nowhere
  check_sources (x ∷ before) xs

-- `valid_password_hash`: `$5$`, a salt, `$` and a digest
unfoldable pub valid_password_hash : Bytes → Bool
valid_password_hash t = bytes_equal (take 3 t) (codes "$5$") && elim (split_at b'$' (drop 3 t)) [
  | none ↦ false
  | some (salt, digest) ↦ not (is_empty salt) && not (is_empty digest)
]

abbrev pub absolute_if_given : Option Bytes → Bool
absolute_if_given none = true
absolute_if_given (some t) = starts_with b'/' t

-- `validate_user`
unfoldable pub validate_user : User → Checked Unit
unfolding valid_password_hash
validate_user user = do
  a ←
      ensure
        (is_given user.name
          && is_given user.password_hash
          && is_given user.admin
          && is_given user.uid
          && is_given user.gid
          && is_given user.home_path
          && not (is_empty (text_of user.name))
          && valid_password_hash (text_of user.password_hash))
        schema nowhere
  b ← ensure (starts_with b'/' (text_of user.home_path)) schema nowhere
  ensure (absolute_if_given user.native_shell && absolute_if_given user.posix_shell) schema nowhere

abbrev pub named : Bytes → User → Bool
named t user = bytes_equal t (text_of user.name)

abbrev pub root_hash : Bytes
root_hash = codes "$5$facet$j7FgoXidvJl10CTaW0nguGP3ZnvKnqS3/IHmDVliPQ9"

abbrev pub is_number : ℕ → Option ℕ → Bool
is_number n none = false
is_number n (some m) = m == n

abbrev pub is_set : Option Bool → Bool
is_set none = false
is_set (some b) = b

-- the test on a user called `root`
unfoldable pub is_root : User → Bool
is_root user =
    is_set user.admin
    && is_number 0 user.uid
    && is_number 0 user.gid
    && bytes_equal (text_of user.password_hash) root_hash

-- the loop over the global users; it gives `root_found`
unfoldable pub check_users : List User → Bool → List User → Checked Bool
unfolding validate_user is_root
check_users before found [] = inr found
check_users before found (x ∷ xs) = do
  a ← validate_user x
  b ← ensure (not (any (named (text_of x.name)) before)) duplicate nowhere
  c ← ensure (not (bytes_equal (text_of x.name) (codes "root")) || is_root x) schema nowhere
  check_users (x ∷ before) (found || bytes_equal (text_of x.name) (codes "root")) xs
