-- ===== src/Klog/Store/Laws.antt =====
-- src/dominit0/klog.c: the two stores of the log.
use facet_os.Prelude.{
  take_none, take_all, take-append, take_prefix, ℕ, ◌+◌, ◌-◌, ◌^◌, ◌≤◌, ◌<◌, ◌≡◌, refl, sym, ap,
  ap₂, ◌∙◌, subst, ◌≢◌, ◌⊎◌, inl, inr, Bool, true, false, Option, none, some, [], ◌∷◌, ◌++◌,
  append-nil, arith, ltb, ◌==◌, ltb→lt, Bool-cases, Option-cases, length, take, length-append,
  length-take, Bytes,
}
use facet_os.Klog.Store.{early_size, Early, early_store, Prod, Services, append_bytes, prod_store}

-- what the early buffer holds of a log, and whether it misses something
abbrev pub Holds : Early → Bytes → Type 0
Holds e log = (e.kept ≡ take early_size log) × (e.truncated ≡ ltb early_size (length log))

-- the two ways a piece is stored
room_left :
    (e : Early) (data' : Bytes)
    → length e.kept + length data' ≤ early_size
    → early_store e data' ≡ record { kept = e.kept ++ data'; truncated = e.truncated }
unfolding early_store
room_left e data' h = ground arith

no_room :
    (e : Early) (data' : Bytes)
    → early_size < length e.kept + length data'
    → length e.kept ≤ early_size
    → early_store e data'
      ≡ record { kept = e.kept ++ take (early_size - length e.kept) data'; truncated = true }
unfolding early_store
no_room e data' h l = ground arith

Holds-short :
    (log data' : Bytes)
    → length log ≤ early_size
    → Holds (early_store (record { kept = log; truncated = false }) data') (log ++ data')
Holds-short log data' l = elim (Bool-cases (ltb early_size (length log + length data'))) [
  | inl e ↦
      rw (no_room (record { kept = log; truncated = false }) data' (ltb→lt _ _ e) l)
        (sym (take-append early_size log data' l), rw (length-append log data', e))
  | inr e ↦ rw (room_left (record { kept = log; truncated = false }) data' (ground arith)) (
    sym (take_all early_size (log ++ data') (omega (arith, length-append log data', small e))),
    rw (length-append log data', e),
  )
]
  where
    small :
        ltb early_size (length log + length data') ≡ false → length log + length data' ≤ early_size
    small e = ground arith

full_store :
    (kept data' : Bytes)
    → length kept ≡ early_size
    → early_store (record { kept = kept; truncated = true }) data'
      ≡ record { kept = kept; truncated = true }
full_store kept [] l =
    room_left (record { kept = kept; truncated = true }) [] (omega arith)
    ∙ ap (λ (k : Bytes). record { kept = k; truncated = true }) (append-nil kept)
full_store kept (x ∷ xs) l =
    no_room (record { kept = kept; truncated = true }) (x ∷ xs) (omega arith) (omega arith)
    ∙ rw (take_none (early_size - length kept) (x ∷ xs) (omega arith), append-nil kept)

Holds-long :
    (log data' : Bytes)
    → early_size < length log
    → Holds
        (early_store (record { kept = take early_size log; truncated = true }) data')
        (log ++ data')
Holds-long log data' l =
    rw (full_store (take early_size log) data' (omega (arith, length-take early_size log))) (
      sym (take_prefix early_size log data' (omega arith)),
      ground (arith, length-append log data'),
    )

at_most : (m n : ℕ) → ltb m n ≡ false → n ≤ m
at_most m n h = ground arith

-- Storing one more piece keeps exactly the first 2048 bytes of the log, and the flag says
-- exactly if there were more.
pub early_store-Holds :
    (e : Early) (log data' : Bytes) → Holds e log → Holds (early_store e data') (log ++ data')
early_store-Holds e log data' h = elim (Bool-cases (ltb early_size (length log))) [
  | inl long ↦
      subst (λ (a : Early). Holds (early_store a data') (log ++ data')) (as_is (h.1 ∙ long))
        (Holds-long log data' (ltb→lt _ _ long))
  | inr short ↦
      subst (λ (a : Early). Holds (early_store a data') (log ++ data'))
        (sym (
          ap₂ (λ (k : Bytes) (t : Bool). record { kept = k; truncated = t })
            (h.0 ∙ take_all early_size log (at_most _ _ short)) (h.1 ∙ short)))
        (Holds-short log data' (at_most _ _ short))
]
  where
    as_is : e.truncated ≡ true → record { kept = take early_size log; truncated = true } ≡ e
    as_is t = sym (ap₂ (λ (k : Bytes) (t : Bool). record { kept = k; truncated = t }) h.0 t)

module _ {S K : Type 0} (services : Services S K) (s : S) (p : Prod) (data' : Bytes) where
  abbrev total : ℕ
  total = length p.kept + length data'

  -- where the byte 0 stands: inside the buffer, or right behind it
  abbrev pub Ended : Prod → Type 0
  Ended p' =
      (total ≡ p.size) × (p'.terminator ≡ p'.size) ⊎ (total ≢ p.size) × (p'.terminator < p'.size)

  -- the state of the services and the size of the buffer behind a piece that is stored: as before if
  -- there is room, and otherwise those that `krealloc` gives, the allocator not being at work
  abbrev pub Grown : S → Prod → Type 0
  Grown s' p' =
      (total ≤ p.size) × (s' ≡ s) × (p'.size ≡ p.size)
      ⊎ (p.size < total)
        × (services.kmalloc_is_in_progress s ≡ false)
        × (services.krealloc s (total + 1) ≡ some s')
        × (p'.size ≡ total + 1)

  abbrev pub Stored : Option (S × Prod) → Type 0
  Stored none =
      (p.size < total)
      × (services.kmalloc_is_in_progress s ≡ false)
      × ((2 ^ 64 - 1 ≤ total) ⊎ (services.krealloc s (total + 1) ≡ none))
  Stored (some (s', p')) =
      (p.size < total) × (services.kmalloc_is_in_progress s ≡ true) × (s' ≡ s) × (p' ≡ p)
      ⊎ Grown s' p' × (p'.kept ≡ p.kept ++ data') × (p'.terminator ≡ length p'.kept) × Ended p'

  fitting : total ≤ p.size → Stored (some (s, append_bytes p data'))
  unfolding append_bytes
  fitting h = inr (inl (h, refl, refl), refl, sym (length-append p.kept data'), ended)
    where
      ended : Ended (append_bytes p data')
      ended = elim (Bool-cases (total == p.size)) [
        | inl e ↦ inl (ground arith, ground arith)
        | inr e ↦ inr (ground arith, ground arith)
      ]

  growing :
      (s' : S)
      → p.size < total
      → services.kmalloc_is_in_progress s ≡ false
      → services.krealloc s (total + 1) ≡ some s'
      → Stored (some (s', append_bytes (record p { size = total + 1 }) data'))
  unfolding append_bytes
  growing s' h f e =
      inr (
        inr (h, f, e, refl),
        refl,
        sym (length-append p.kept data'),
        inr (ground arith, omega arith),
      )

  -- A piece is put behind what is kept, in the buffer as it is if the piece fits, and otherwise in
  -- one that is grown to hold it and a byte more; but if it needs room while the allocator is at
  -- work, nothing changes. The byte 0 is put right behind what is kept: inside the buffer, except
  -- that for a piece that fills the buffer exactly it falls on the first byte behind the buffer.
  -- The log panics only if the piece needs room, the allocator is not at work, and the size
  -- would wrap or the allocator gives nothing. What is kept is assumed to fit the buffer.
  pub prod_store-Stored : length p.kept ≤ p.size → Stored (prod_store services s p data')
  unfolding prod_store
  prod_store-Stored u = elim (Bool-cases (ltb (p.size - length p.kept) (length data'))) [
    | inr fits ↦ rw fits (fitting (ground arith))
    | inl grows ↦ elim (Bool-cases (services.kmalloc_is_in_progress s)) [
      | inl busy ↦ rw (grows, busy) (inl (ground arith, busy, refl, refl))
      | inr free ↦ elim (Bool-cases (ltb (2 ^ 64 - 1 - length p.kept - 1) (length data'))) [
        | inl wraps ↦ rw (grows, free, wraps) (ground arith, free, inl (ground arith))
        | inr small ↦ elim (Option-cases (services.krealloc s (total + 1))) [
          | inl e ↦ rw (grows, free, small, e) (ground arith, free, inr e)
          | inr (s', e) ↦ rw (grows, free, small, e) (growing s' (ground arith) free e)
        ]
      ]
    ]
  ]
