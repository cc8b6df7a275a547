-- ===== src/Config/Validation/Terminals.antt =====
-- src/config.c: `validate_required` on the terminals of a domain.
use facet_os.Prelude.{
  ℕ, ◌+◌, inr, Bool, true, false, not, ◌&&◌, ◌||◌, Option, none, some, List, [], ◌∷◌, ◌++◌, ◌==◌,
  if◌then◌else◌, Bytes, bytes_equal,
}
use facet_os.Config.Cursor.{schema, duplicate, unresolved_reference}
use facet_os.Config.Schema.Checks.{Checked, ◌>>=◌, fail_at, ensure}
use facet_os.Config.Schema.Records.{
  Personality, native, posix, SeatDefinition, User, Terminal, Domain, SystemConfig,
}
use facet_os.Config.Validation.Definitions.{
  nowhere, is_given, text_of, list_of, is_empty, split_at, has_byte, any, find_index, named,
}

abbrev pub is_native : Option Personality → Bool
is_native (some native) = true
is_native _ = false

abbrev pub is_posix : Option Personality → Bool
is_posix (some posix) = true
is_posix _ = false

-- `_present` is `expected`, with or without `TERMINAL_RUN_AS`
abbrev pub has_expected : Bool → Terminal → Bool
has_expected native' t =
    is_given t.reference
    && (if native'
        then is_given t.view && is_given t.initial_process && not (is_given t.device_name)
        else is_given t.device_name && not (is_given t.view) && not (is_given t.initial_process))

abbrev pub empty_if_given : Option Bytes → Bool
empty_if_given none = false
empty_if_given (some t) = is_empty t

-- a user of the system or of the domain, if one is asked for
abbrev pub knows_run_as : List User → List User → Option Bytes → Bool
knows_run_as users local none = true
knows_run_as users local (some t) = any (named t) users || any (named t) local

abbrev pub device_taken : List Terminal → Terminal → Bool
device_taken before t =
    any (λ (other : Terminal). bytes_equal (text_of t.device_name) (text_of other.device_name))
      before

-- The test on the parts: neither is empty, and the second one has no other dot.
abbrev pub sound_parts : Option (Bytes × Bytes) → Option (Bytes × Bytes)
sound_parts none = none
sound_parts (some (seat, terminal)) =
    if is_empty seat || is_empty terminal || has_byte b'.' terminal
    then none
    else some (seat, terminal)

-- `seat.terminal`
abbrev pub reference_parts : Bytes → Option (Bytes × Bytes)
reference_parts t = sound_parts (split_at b'.' t)

abbrev pub with_seat : ℕ → Option ℕ → Option (ℕ × ℕ)
with_seat k none = none
with_seat k (some m) = some (k, m)

-- the turn for a seat: the first terminal of that name, in a seat of that name
abbrev pub in_seat : ℕ → SeatDefinition → Bytes → Bytes → Option (ℕ × ℕ)
in_seat k x seat terminal =
    if bytes_equal (text_of x.name) seat
    then with_seat k (find_index (bytes_equal terminal) (list_of x.terminals))
    else none

-- The loop over the seats, from number `k`. It goes on behind a seat with the terminal, so the last
-- one counts.
abbrev pub last_of : Option (ℕ × ℕ) → Option (ℕ × ℕ) → Option (ℕ × ℕ)
last_of here none = here
last_of here (some later) = some later

abbrev pub find_terminal : ℕ → List SeatDefinition → Bytes → Bytes → Option (ℕ × ℕ)
find_terminal k [] seat terminal = none
find_terminal k (x ∷ xs) seat terminal =
    last_of (in_seat k x seat terminal) (find_terminal (k + 1) xs seat terminal)

abbrev pub same_terminal : ℕ × ℕ → Terminal → Bool
same_terminal (k, m) other = other.seat_index == k && other.terminal_index == m

-- the last loop on a terminal, over those assigned before it
abbrev pub is_assigned : List Domain → List Terminal → ℕ × ℕ → Bool
is_assigned domains before place =
    any (λ (d : Domain). any (same_terminal place) (list_of d.terminals)) domains
    || any (same_terminal place) before

abbrev pub resolve_terminal : SystemConfig → Option (Bytes × Bytes) → Checked (ℕ × ℕ)
resolve_terminal c none = fail_at schema nowhere
resolve_terminal c (some (seat, terminal)) = elim (find_terminal 0 c.seats seat terminal) [
  | none ↦ fail_at unresolved_reference nowhere
  | some place ↦ inr place
]

-- The turn of the loop for a terminal: `domains` are those before its domain, and `before` the
-- terminals before it in its own domain.
unfoldable pub check_terminal :
    SystemConfig → List Domain → Domain → List Terminal → Terminal → Checked Terminal
check_terminal c domains d before t = do
  e ← ensure (has_expected (is_native d.personality) t) schema nowhere
  f ←
      ensure
        (not (
          is_empty (text_of t.reference)
          || empty_if_given t.initial_process
          || empty_if_given t.device_name))
        schema nowhere
  g ← ensure (knows_run_as c.users (list_of d.users) t.run_as) unresolved_reference nowhere
  h ← ensure (not (is_posix d.personality && device_taken before t)) duplicate nowhere
  place ← resolve_terminal c (reference_parts (text_of t.reference))
  i ← ensure (not (is_assigned domains before place)) duplicate nowhere
  inr (record t { seat_index = place.0; terminal_index = place.1 })

unfoldable pub check_terminals :
    SystemConfig → List Domain → Domain → List Terminal → List Terminal → Checked (List Terminal)
unfolding check_terminal
check_terminals c domains d before [] = inr before
check_terminals c domains d before (t ∷ ts) =
    check_terminal c domains d before t >>= λ t'. check_terminals c domains d (before ++ t' ∷ []) ts
