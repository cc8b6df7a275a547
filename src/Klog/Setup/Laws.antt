-- ===== src/Klog/Setup/Laws.antt =====
-- src/dominit0/klog.c: klog_init_postboot, and the sinks that a configuration connects.
use facet_os.Prelude.{
  ℕ, zero, suc, ◌+◌, ◌-◌, ◌%◌, ◌≤◌, ◌<◌, ◌≡◌, refl, sym, ap, ◌⊎◌, inl, inr, Bool, true, false, ◌&&◌,
  Option, none, some, List, [], ◌∷◌, ◌++◌, arith, ltb, leb, ltb→lt, ◌==◌, if◌then◌else◌, Bool-cases,
  Option-cases, length, replicate, Bytes, bytes_equal, codes,
}
use facet_os.Prelude.Monad.{◌>>=◌}
use facet_os.Klog.Store.{Early, Services}
use facet_os.Klog.Emit.{Route, to_prod, Log, klog}
use facet_os.Klog.Setup.{
  valid_maximum_level, no_route, Configured, Binding, find_binding, bound_route, configured_route,
  configured_routes, early_of, switched, closing, init_postboot,
}

-- the bindings of a name
abbrev pub named : {K : Type 0} → Bytes → List (Binding K) → List (Binding K)
named name [] = []
named name (b ∷ bs) = if bytes_equal name b.name then b ∷ named name bs else named name bs

-- what a search finds, from what it found before
abbrev only : {K : Type 0} → Option (Binding K) → List (Binding K) → Option (Option (Binding K))
only match [] = some match
only none (b ∷ []) = some (some b)
only none (b ∷ c ∷ bs) = none
only (some a) (b ∷ bs) = none

find_binding-only :
    {K : Type 0} (name : Bytes) (bs : List (Binding K)) (match : Option (Binding K))
    → find_binding name bs match ≡ only match (named name bs)
unfolding find_binding
find_binding-only name [] match = refl
find_binding-only {K = K} name (b ∷ bs) none = elim (Bool-cases (bytes_equal name b.name)) [
  | inl e ↦ rw (e, find_binding-only name bs (some b)) (one (named name bs))
  | inr e ↦ rw (e, find_binding-only name bs none)
]
  where
    one : (cs : List (Binding K)) → only (some b) cs ≡ only none (b ∷ cs)
    one [] = refl
    one (c ∷ cs) = refl
find_binding-only name (b ∷ bs) (some a) = elim (Bool-cases (bytes_equal name b.name)) [
  | inl e ↦ rw e
  | inr e ↦ rw (e, find_binding-only name bs (some a))
]

-- the levels of the enumeration: none, and one for each of the ten steps up to the one of a trace
abbrev pub is_level : ℕ → Bool
is_level level = leb level 60 && level % 10 == 0

valid_maximum_level_lem : (level : ℕ) → valid_maximum_level level ≡ is_level level
unfolding valid_maximum_level
valid_maximum_level_lem level = ground arith

-- the route to the sink of a binding: none to no sink, and none at level 0
abbrev pub route_to : {K : Type 0} → ℕ → Option K → Route K
route_to level none = no_route
route_to zero (some k) = no_route
route_to (suc n) (some k) = record { sink = some k; maximum_level = suc n; enabled = true }

bound_route_lem :
    {K : Type 0} (level : ℕ) (b : Binding K) → bound_route level b ≡ route_to level b.sink
unfolding bound_route
bound_route_lem {K = K} level b = by_sink level b.sink
  where
    by_sink :
        (n : ℕ) (o : Option K)
        → elim o [
          | none ↦ no_route
          | some k ↦
              if n == 0
              then no_route
              else record { sink = some k; maximum_level = n; enabled = true }
        ]
          ≡ route_to n o
    by_sink n none = refl
    by_sink zero (some k) = refl
    by_sink (suc n) (some k) = let e : (suc n == 0) ≡ false = ground arith in rw e refl

-- A configured sink is refused unless its level is one of the seven and exactly one binding has
-- its name; that binding gives its route.
abbrev pub the_route : {K : Type 0} → ℕ → List (Binding K) → Option (Route K)
the_route level [] = none
the_route level (b ∷ []) = some (route_to level b.sink)
the_route level (b ∷ c ∷ bs) = none

abbrev pub the_routes : {K : Type 0} → List (Binding K) → List Configured → Option (List (Route K))
the_routes bindings [] = some []
the_routes bindings (c ∷ cs) = do
  r ← if is_level c.level then the_route c.level (named c.name bindings) else none
  rs ← the_routes bindings cs
  some (r ∷ rs)

configured_route_lem :
    {K : Type 0} (bindings : List (Binding K)) (c : Configured)
    → configured_route bindings c
      ≡ (if is_level c.level then the_route c.level (named c.name bindings) else none)
unfolding configured_route
configured_route_lem {K = K} bindings c =
    rw (sym (valid_maximum_level_lem c.level)) (elim (Bool-cases (valid_maximum_level c.level)) [
      | inr e ↦ rw e
      | inl e ↦ rw (e, find_binding-only c.name bindings none) (found (named c.name bindings))
    ])
  where
    found :
        (bs : List (Binding K))
        → (only none bs >>= λ m. m >>= λ b. some (bound_route c.level b)) ≡ the_route c.level bs
    found [] = refl
    found (b ∷ []) = ap some (bound_route_lem c.level b)
    found (b ∷ d ∷ bs) = refl

configured_routes-the_routes :
    {K : Type 0} (bindings : List (Binding K)) (cs : List Configured)
    → configured_routes bindings cs ≡ the_routes bindings cs
unfolding configured_routes
configured_routes-the_routes bindings [] = refl
configured_routes-the_routes bindings (c ∷ cs) =
    rw (configured_route_lem bindings c, configured_routes-the_routes bindings cs)

module _ {S K : Type 0} (services : Services S K) (same_sink : K → K → Bool) where
  -- the log connected to its routes, with what the early buffer held in a buffer on the heap
  abbrev pub connected : S → List (Route K) → Early → Log S K → Log S K
  connected s routes e l = record {
    outside = s;
    routes = routes ++ replicate (8 - length routes) no_route;
    emergency = l.emergency;
    store =
        to_prod e (record { kept = e.kept; size = length e.kept + 1; terminator = length e.kept });
    in_progress = l.in_progress;
  }

  -- a note if the early buffer was cut, and a message
  abbrev pub announced : Bool → Log S K → Option (Log S K)
  announced truncated l =
      (if truncated
        then klog services same_sink 1 (codes "...\n(early logbuf truncated)\n") [] l
        else some l)
      >>= λ l'. klog services same_sink 1 (codes "Switched to dynamic log buffer!\n") [] l'

  -- The set-up is accepted, and gives the log: the sinks are there, are at most eight, have the
  -- routes, and the allocator gives the buffer.
  abbrev pub Accepted :
      Option (List Configured) → List (Binding K) → Log S K → Option (Log S K) → Type 0
  Accepted sinks bindings l l' =
      (cs : List Configured) × (routes : List (Route K)) × (s : S) × (sinks ≡ some cs)
      × (length cs ≤ 8)
      × (the_routes bindings cs ≡ some routes)
      × (services.kmalloc l.outside (length (early_of l.store).kept + 1) ≡ some s)
      × (l' ≡ announced (early_of l.store).truncated (connected s routes (early_of l.store) l))

  abbrev pub Refused : Option (List Configured) → List (Binding K) → Log S K → Type 0
  Refused sinks bindings l =
      (sinks ≡ none)
      ⊎ ((cs : List Configured) × (sinks ≡ some cs)
          × ((8 < length cs)
              ⊎ (the_routes bindings cs ≡ none)
              ⊎ (services.kmalloc l.outside (length (early_of l.store).kept + 1) ≡ none)))

  abbrev pub SetUp :
      Option (List Configured) → List (Binding K) → Log S K → Option (Log S K × Bool) → Type 0
  SetUp sinks bindings l none = Accepted sinks bindings l none
  SetUp sinks bindings l (some (l', true)) = Accepted sinks bindings l (some l')
  SetUp sinks bindings l (some (l', false)) = (l' ≡ l) × Refused sinks bindings l

  SetUp-closing :
      (sinks : Option (List Configured)) (bindings : List (Binding K)) (l : Log S K)
      (o : Option (Log S K))
      → Accepted sinks bindings l o
      → SetUp sinks bindings l (o >>= λ l'. some (l', true))
  SetUp-closing sinks bindings l none a = a
  SetUp-closing sinks bindings l (some l') a = a

  -- `klog_init_postboot` accepts a configuration exactly if its sinks can be had and are at most
  -- eight, each has a level of the enumeration and exactly one binding of its name, and the
  -- allocator gives a buffer; it then connects the log to the sinks of those bindings in the order
  -- of the configuration, copies the early buffer to the new one, and says so, with a note if
  -- the early buffer was cut. Otherwise the log is as before.
  pub init_postboot-SetUp :
      (sinks : Option (List Configured)) (bindings : List (Binding K)) (l : Log S K)
      → SetUp sinks bindings l (init_postboot services same_sink sinks bindings l)
  unfolding init_postboot switched closing
  init_postboot-SetUp none bindings l = (refl, inl refl)
  init_postboot-SetUp (some cs) bindings l = elim (Bool-cases (ltb 8 (length cs))) [
    | inl many ↦ rw many (refl, inr (cs, refl, inl (ltb→lt _ _ many)))
    | inr few ↦ elim (Option-cases (the_routes bindings cs)) [
      | inl e ↦
          rw (few, configured_routes-the_routes bindings cs, e) (refl, inr (cs, refl, inr (inl e)))
      | inr (routes, e) ↦
          elim (Option-cases (services.kmalloc l.outside (length (early_of l.store).kept + 1))) [
            | inl f ↦
                rw (few, configured_routes-the_routes bindings cs, e, f)
                  (refl, inr (cs, refl, inr (inr f)))
            | inr (s, f) ↦
                rw (few, configured_routes-the_routes bindings cs, e, f)
                  (SetUp-closing (some cs) bindings l _
                    (cs, routes, s, refl, ground arith, e, f, refl))
          ]
    ]
  ]
