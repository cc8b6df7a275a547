-- ===== src/Klock.antt =====
-- src/dominit0/klock.c: the spin lock, for threads whose steps interleave in any order. The
-- atomic operations of the compiler take one step each.
pub mod Exclusion
mod Tests
use facet_os.Prelude.{
  ℕ, Bool, true, false, not, ◌||◌, Option, none, some, List, [], ◌∷◌, if◌then◌else◌, get_elem?, set,
  replicate,
}

-- Where a thread stands in `klock_lock`: outside, before the exchange, or in the inner loop.
pub data Place : Type 0 where
  outside trying spinning : Place

-- a thread, and whether it took the lock and has not called `klock_unlock` since
pub record Thread : Type 0 where
  pub place : Place
  pub holding : Bool

-- `locked` of the lock, and the threads
pub record System : Type 0 where
  pub locked : Bool
  pub threads : List Thread

-- any number of threads that have called nothing
abbrev pub idle_threads : ℕ → List Thread
idle_threads n = replicate n (record { place = outside; holding = false })

-- `klock_init`
unfoldable pub init : List Thread → System
init threads = record { locked = false; threads = threads }

-- `__atomic_exchange_n(&lock->locked, 1, ...)`: the old value, and the new one
abbrev pub exchange : Bool → Bool × Bool
exchange locked = (locked, true)

-- One step of `klock_lock`: the exchange, or a load of the inner loop.
pub lock_step : Bool → Thread → Bool × Thread
lock_step locked t = elim t.place [
  | outside ↦ (locked, t)
  | trying ↦
      let (old, locked') = exchange locked in
      (
        locked',
        if old then record t { place = spinning } else record { place = outside; holding = true },
      )
  | spinning ↦ (locked, record t { place = if locked then spinning else trying })
]

-- The calls. A thread within `klock_lock` makes none.

-- `klock_lock`, up to its first exchange
pub start : Bool → Thread → Bool × Thread
start locked t = elim t.place [
  | outside ↦ (locked, record t { place = trying })
  | trying ↦ (locked, t)
  | spinning ↦ (locked, t)
]

-- `klock_trylock`
pub try_lock : Bool → Thread → Bool × Thread
try_lock locked t = elim t.place [
  | outside ↦
      let (old, locked') = exchange locked in (locked', record t { holding = t.holding || not old })
  | trying ↦ (locked, t)
  | spinning ↦ (locked, t)
]

-- `klock_unlock`, whoever calls it
pub unlock : Bool → Thread → Bool × Thread
unlock locked t = elim t.place [
  | outside ↦ (false, record t { holding = false })
  | trying ↦ (locked, t)
  | spinning ↦ (locked, t)
]

-- what a thread does next
pub data Action : Type 0 where
  calls_lock steps calls_trylock calls_unlock : Action

unfoldable pub act : Action → Bool → Thread → Bool × Thread
unfolding start lock_step try_lock unlock
act calls_lock = start
act steps = lock_step
act calls_trylock = try_lock
act calls_unlock = unlock

-- the action of one thread
unfoldable pub event : System → ℕ × Action → System
event s (i, a) = elim (get_elem? s.threads i) [
  | none ↦ s
  | some t ↦
      let (locked, t') = act a s.locked t in
      record { locked = locked; threads = set s.threads i t' }
]

unfoldable pub events : System → List (ℕ × Action) → System
events s [] = s
events s (e ∷ es) = events (event s e) es
