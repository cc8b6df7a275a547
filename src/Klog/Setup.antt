-- ===== src/Klog/Setup.antt =====
-- src/dominit0/klog.c: how the log is set up, first with the emergency sink alone and later with
-- the configured sinks and a buffer on the heap.
pub mod Laws
use facet_os.Prelude.{
  ℕ, zero, suc, ◌+◌, ◌-◌, ◌*◌, ◌/◌, ◌%◌, ◌^◌, ◌≤◌, ◌<◌, min, max, bit_and, bit_or, bit_xor, ◌≡◌,
  refl, sym, ap, ap₂, ◌∙◌, subst, ◌≢◌, ◌↔◌, ◌⊎◌, inl, inr, Bool, true, false, not, ◌&&◌, ◌||◌,
  Option, none, some, List, [], ◌∷◌, ◌++◌, map, append-nil, append_assoc, arith, ltb, leb, ◌==◌,
  if◌then◌else◌, ltb→lt, lt→ltb, leb→le, ==_iff, tests, Bool-cases, Option-cases, length, get_elem?,
  get_or, set, take, drop, replicate, length-append, length-set, get_elem?-set_self,
  get_elem?-set_ne, take-append-drop, length-take, length-drop, length-replicate, length-map, Bytes,
  bytes_equal, bytes_equal_iff, bytes_equal_refl, bytes_equal_symm,
}
use mathlib.Core.Bool.{false≢true}
use native.Mathlib.Nat.{add-zero}
use facet_os.Prelude.Monad.{Result, ok, err, ◌>>=◌, ◌>>◌, guard, >>=-eq-some, guard-eq-some}
use facet_os.Klog.Format.{Arg}
use facet_os.Klog.Store.{Early, Prod, Services}
use facet_os.Klog.Emit.{Route, Store, no_store, to_early, to_prod, Log, klog}

-- `KLOG_MAX_SINKS`
abbrev pub max_sinks : ℕ
max_sinks = 8

abbrev pub no_route : {K : Type 0} → Route K
no_route = record { sink = none; maximum_level = 0; enabled = false }

-- `klog_valid_maximum_level`; the levels are those of idl/ILoggingConfig.facet
pub valid_maximum_level : ℕ → Bool
valid_maximum_level level =
    level == 0
    || level == 10
    || level == 20
    || level == 30
    || level == 40
    || level == 50
    || level == 60

-- `Sink` of the configuration, and `KlogSinkBinding`. Strings with a length and no data do not
-- occur here, so `klog_string_equal` compares bytes.
pub record Configured : Type 0 where
  pub name : Bytes
  pub level : ℕ

pub record Binding (K : Type 0) : Type 0 where
  pub name : Bytes
  pub sink : Option K

-- The loop over `j`, with what matched so far; `none` is a second match.
pub find_binding :
    {K : Type 0} → Bytes → List (Binding K) → Option (Binding K) → Option (Option (Binding K))
find_binding name [] match = some match
find_binding name (b ∷ bs) match =
    if bytes_equal name b.name
    then elim match [ none ↦ find_binding name bs (some b) | some first ↦ none ]
    else find_binding name bs match

-- the route of a sink whose binding was found
pub bound_route : {K : Type 0} → ℕ → Binding K → Route K
bound_route level b = elim b.sink [
  | none ↦ no_route
  | some k ↦
      if level == 0
      then no_route
      else record { sink = some k; maximum_level = level; enabled = true }
]

-- One turn of the loop over `i`; `none` is `return -1`.
pub configured_route : {K : Type 0} → List (Binding K) → Configured → Option (Route K)
unfolding valid_maximum_level find_binding bound_route
configured_route bindings c = do
  guard (valid_maximum_level c.level)
  match ← find_binding c.name bindings none
  b ← match
  some (bound_route c.level b)

pub configured_routes : {K : Type 0} → List (Binding K) → List Configured → Option (List (Route K))
unfolding configured_route
configured_routes bindings [] = some []
configured_routes bindings (c ∷ cs) = do
  r ← configured_route bindings c
  rs ← configured_routes bindings cs
  some (r ∷ rs)

-- `...` and the note that the buffer was cut, and the message of the switch
abbrev pub truncated_message : Bytes
truncated_message =
    b'.' ∷ b'.' ∷ b'.' ∷ b'\n' ∷ b'(' ∷ b'e' ∷ b'a' ∷ b'r' ∷ b'l' ∷ b'y' ∷ b' ' ∷ b'l' ∷ b'o' ∷ b'g'
    ∷ b'b' ∷ b'u' ∷ b'f' ∷ b' ' ∷ b't' ∷ b'r' ∷ b'u' ∷ b'n' ∷ b'c' ∷ b'a' ∷ b't' ∷ b'e' ∷ b'd'
    ∷ b')' ∷ b'\n' ∷ []

abbrev pub switched_message : Bytes
switched_message =
    b'S' ∷ b'w' ∷ b'i' ∷ b't' ∷ b'c' ∷ b'h' ∷ b'e' ∷ b'd' ∷ b' ' ∷ b't' ∷ b'o' ∷ b' ' ∷ b'd' ∷ b'y'
    ∷ b'n' ∷ b'a' ∷ b'm' ∷ b'i' ∷ b'c' ∷ b' ' ∷ b'l' ∷ b'o' ∷ b'g' ∷ b' ' ∷ b'b' ∷ b'u' ∷ b'f'
    ∷ b'f' ∷ b'e' ∷ b'r' ∷ b'!' ∷ b'\n' ∷ []

abbrev pub log_info : ℕ
log_info = 1

abbrev pub empty_early : Early
empty_early = record { kept = []; truncated = false }

-- `klog_init_early`; whether a sink has an `emit` is a parameter.
unfoldable pub init_early : {S K : Type 0} → (K → Bool) → S → Option K → Log S K
init_early has_emit s emergency = record {
  outside = s;
  routes = elim emergency [
    | none ↦ replicate max_sinks no_route
    | some k ↦
        if has_emit k
        then record { sink = some k; maximum_level = 60; enabled = true }
          ∷ replicate (max_sinks - 1) no_route
        else replicate max_sinks no_route
  ];
  emergency = emergency;
  store = to_early empty_early;
  in_progress = false;
}

-- what `klog_init_postboot` finds in the early buffer, which holds nothing before `klog_init_early`
pub early_of : Store → Early
early_of (to_early e) = e
early_of no_store = empty_early
early_of (to_prod e p) = e

module _ {S K : Type 0} (services : Services S K) (same_sink : K → K → Bool) where
  -- the log with the new routes and the buffer on the heap, before the closing messages
  pub switched : S → List (Route K) → Log S K → Log S K
  unfolding early_of
  switched s routes l =
      let e = early_of l.store in
      record l {
        outside = s;
        routes = routes ++ replicate (max_sinks - length routes) no_route;
        store =
            to_prod e
              (record { kept = e.kept; size = length e.kept + 1; terminator = length e.kept });
      }

  -- the messages at the end; `none` is a panic
  pub closing : Bool → Log S K → Option (Log S K)
  closing truncated l = do
    l' ← if truncated then klog services same_sink log_info truncated_message [] l else some l
    klog services same_sink log_info switched_message [] l'

  -- `klog_init_postboot` with its arguments not null: the log, and whether it returns 0. `none` is
  -- a panic. The configured sinks are what `getsinks` gives, `none` if it fails.
  unfoldable pub init_postboot :
      Option (List Configured) → List (Binding K) → Log S K → Option (Log S K × Bool)
  unfolding configured_routes switched closing early_of
  init_postboot none bindings l = some (l, false)
  init_postboot (some configured) bindings l =
      if ltb max_sinks (length configured)
      then some (l, false)
      else elim (configured_routes bindings configured) [
        | none ↦ some (l, false)
        | some routes ↦
            (let e = early_of l.store in
              elim (services.kmalloc l.outside (length e.kept + 1)) [
                | none ↦ some (l, false)
                | some s ↦ (do l' ← closing e.truncated (switched s routes l); some (l', true))
              ])
      ]
