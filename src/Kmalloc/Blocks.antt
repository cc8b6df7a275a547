-- ===== src/Kmalloc/Blocks.antt =====
-- src/dominit0/kmalloc.c: the blocks that a client of the bootstrap heap holds.
use facet_os.Prelude.{
  ℕ, zero, suc, ◌+◌, ◌-◌, ◌%◌, ◌≤◌, ◌<◌, ◌≡◌, refl, subst, inl, inr, true, false, ◌||◌, Option,
  none, some, List, [], ◌∷◌, arith, ltb, ◌==◌, Bool-cases, get_elem?,
}
use facet_os.Kmalloc.{
  heap_size, alignment, Heap, initial, align, same_pointer, malloc_early, free_early, realloc_early,
}

-- offset and size
abbrev pub Block : Type 0
Block = ℕ × ℕ

-- A client allocates, frees a block that it holds, or resizes one. A size is one more than the
-- number, so no size is 0; a block is named by its place in the list of those held, newest first.
pub data Call : Type 0 where
  alloc : ℕ → Call
  release : ℕ → Call
  resize : ℕ → ℕ → Call

abbrev pub remove : ℕ → List Block → List Block
remove i [] = []
remove zero (b ∷ bs) = bs
remove (suc i) (b ∷ bs) = b ∷ remove i bs

abbrev pub resized : ℕ → ℕ → List Block → List Block
resized i size [] = []
resized zero size ((p, s) ∷ bs) = (p, size) ∷ bs
resized (suc i) size (b ∷ bs) = b ∷ resized i size bs

-- the heap, and the blocks held
pub record World : Type 0 where
  pub heap : Heap
  pub held : List Block

pub after_alloc : List Block → ℕ → Option ℕ × Heap → World
after_alloc held size (none, h) = record { heap = h; held = held }
after_alloc held size (some p, h) = record { heap = h; held = (p, size) ∷ held }

-- A failed resize keeps the block.
pub after_resize : List Block → ℕ → ℕ → Option ℕ × Heap → World
after_resize held i size (none, h) = record { heap = h; held = held }
after_resize held i size (some p, h) = record { heap = h; held = resized i size held }

pub call : World → Call → World
unfolding after_alloc after_resize
call w (alloc n) = after_alloc w.held (suc n) (malloc_early w.heap (suc n))
call w (release i) = elim (get_elem? w.held i) [
  | none ↦ w
  | some (p, s) ↦ record { heap = free_early w.heap (some p); held = remove i w.held }
]
call w (resize i n) = elim (get_elem? w.held i) [
  | none ↦ w
  | some (p, s) ↦ after_resize w.held i (suc n) (realloc_early w.heap (some p) (suc n))
]

unfoldable pub run : World → List Call → World
unfolding call
run w [] = w
run w (c ∷ cs) = run (call w c) cs

-- Each block is aligned, not empty, and ends where the next newer one begins or before.
abbrev pub Apart : ℕ → List Block → Type 0
Apart end [] = Unit
Apart end ((p, s) ∷ bs) = (p + s ≤ end) × (p % alignment ≡ 0) × (0 < s) × Apart p bs

-- What the heap remembers of the newest block, if it is still held.
abbrev LastIs : Option ℕ → Heap → List Block → Type 0
LastIs none h bs = Unit
LastIs (some q) h [] = ⊥
LastIs (some q) h ((p, s) ∷ bs) = (q ≡ p) × (h.last_old_used ≤ p) × Apart h.last_old_used bs

record Inv (w : World) : Type 0 where
  fits : w.heap.used ≤ heap_size
  apart : Apart w.heap.used w.held
  last : LastIs w.heap.last_ptr w.heap w.held

Apart-mono : (a b : ℕ) (bs : List Block) → a ≤ b → Apart a bs → Apart b bs
Apart-mono a b [] h c = tt
Apart-mono a b ((p, s) ∷ bs) h c = (omega arith, c.1, c.2, c.3)

Apart-remove : (a i : ℕ) (bs : List Block) → Apart a bs → Apart a (remove i bs)
Apart-remove a i [] c = tt
Apart-remove a zero ((p, s) ∷ bs) c = Apart-mono p a bs (omega arith) c.3
Apart-remove a (suc i) ((p, s) ∷ bs) c = (c.0, c.1, c.2, Apart-remove p i bs c.3)

-- an older block has another offset than the newest
older-ne :
    (a p s i : ℕ) (bs : List Block) {b : Block}
    → Apart a ((p, s) ∷ bs)
    → get_elem? bs i ≡ some b
    → b.0 < p
older-ne a p s i [] c h = cc
older-ne a p s zero ((q, t) ∷ bs) c h = ground arith
older-ne a p s (suc i) ((q, t) ∷ bs) c h = omega (arith, older-ne p q t i bs c.3 h, c.3)

alloc-Inv :
    (h : Heap) (bs : List Block) (n : ℕ)
    → Inv (record { heap = h; held = bs })
    → Inv (after_alloc bs (suc n) (malloc_early h (suc n)))
unfolding after_alloc malloc_early
alloc-Inv h bs n v =
    elim (Bool-cases (ltb heap_size (align h.used) || ltb (heap_size - align h.used) (suc n))) [
      | inl e ↦ rw e v
      | inr e ↦ rw e (record {
        fits = ground arith;
        apart = (omega arith, omega arith, omega arith, up);
        last = (refl, omega arith, v.apart);
      })
    ]
  where
    up : Apart (align h.used) bs
    up = Apart-mono h.used (align h.used) bs (omega arith) v.apart

-- freeing the newest block, or one that the heap does not remember
LastIs-remove :
    (h : Heap) (o : Option ℕ) (i p s : ℕ) (bs : List Block)
    → get_elem? bs i ≡ some (p, s)
    → LastIs o h bs
    → Apart h.used bs
    → same_pointer (some p) o ≡ false
    → LastIs o h (remove i bs)
LastIs-remove h none i p s bs e l a d = tt
LastIs-remove h (some q) i p s [] e l a d = cc
LastIs-remove h (some q) zero p s (b ∷ bs) e l a d = absurd (ground arith)
LastIs-remove h (some q) (suc i) p s (b ∷ bs) e l a d =
    (l.0, l.1, Apart-remove h.last_old_used i bs l.2)

freed_last :
    (h : Heap) (i p s : ℕ) (bs : List Block)
    → get_elem? bs i ≡ some (p, s)
    → LastIs (some p) h bs
    → Apart h.used bs
    → Apart h.last_old_used (remove i bs) × (h.last_old_used ≤ h.used)
freed_last h i p s [] e l a = cc
freed_last h zero p s ((q, t) ∷ bs) e l a = (l.2, omega arith)
freed_last h (suc i) p s ((q, t) ∷ bs) e l a =
    absurd (omega (arith, older-ne h.used q t i bs a e, l.0))

same_pointer→eq : (p : ℕ) (o : Option ℕ) → same_pointer (some p) o ≡ true → o ≡ some p
same_pointer→eq p none h = cc
same_pointer→eq p (some q) h = ground arith

release-Inv :
    (h : Heap) (i p s : ℕ) (bs : List Block)
    → get_elem? bs i ≡ some (p, s)
    → Inv (record { heap = h; held = bs })
    → Inv (record { heap = free_early h (some p); held = remove i bs })
unfolding free_early
release-Inv h i p s bs e v = elim (Bool-cases (same_pointer (some p) h.last_ptr)) [
  | inl same ↦
      let l = subst (λ o. LastIs o h bs) (same_pointer→eq p h.last_ptr same) v.last in
      let (a, le) = freed_last h i p s bs e l v.apart in
      rw same (record { fits = omega (arith, v.fits); apart = a; last = tt })
  | inr other ↦ rw other (record {
    fits = v.fits;
    apart = Apart-remove h.used i bs v.apart;
    last = LastIs-remove h h.last_ptr i p s bs e v.last v.apart other;
  })
]

resized_last :
    (h : Heap) (i p s size : ℕ) (bs : List Block)
    → get_elem? bs i ≡ some (p, s)
    → LastIs (some p) h bs
    → Apart h.used bs
    → 0 < size
    → Apart (p + size) (resized i size bs)
      × LastIs (some p) (record h { last_size = size; used = p + size }) (resized i size bs)
resized_last h i p s size [] e l a pos = cc
resized_last h zero p s size ((q, t) ∷ bs) e l a pos =
    let same : q ≡ p = ground arith in
    ((omega arith, omega arith, pos, a.3), (omega arith, l.1, l.2))
resized_last h (suc i) p s size ((q, t) ∷ bs) e l a pos =
    absurd (omega (arith, older-ne h.used q t i bs a e, l.0))

resize-Inv :
    (h : Heap) (i p s n : ℕ) (bs : List Block)
    → get_elem? bs i ≡ some (p, s)
    → Inv (record { heap = h; held = bs })
    → Inv (after_resize bs i (suc n) (realloc_early h (some p) (suc n)))
unfolding after_resize realloc_early
resize-Inv h i p s n bs e v =
    let nz : (suc n == 0) ≡ false = ground arith in
    elim (Bool-cases (same_pointer (some p) h.last_ptr)) [
      | inl same ↦ elim (Bool-cases (ltb (heap_size - p) (suc n))) [
        | inl big ↦ rw (nz, same, big) v
        | inr small ↦
            let is = same_pointer→eq p h.last_ptr same in
            let l = subst (λ o. LastIs o h bs) is v.last in
            let (a, l') = resized_last h i p s (suc n) bs e l v.apart (omega arith) in
            rw (nz, same, small) (record { fits = ground arith; apart = a; last = rw is l' })
      ]
      | inr other ↦ rw (nz, other) v
    ]

call-Inv : (w : World) (c : Call) → Inv w → Inv (call w c)
unfolding call
call-Inv w (alloc n) v = alloc-Inv w.heap w.held n v
call-Inv w (release i) v = at (get_elem? w.held i) refl
  where
    at :
        (o : Option Block)
        → get_elem? w.held i ≡ o
        → Inv (elim o [
          | none ↦ w
          | some (p, s) ↦ record { heap = free_early w.heap (some p); held = remove i w.held }
        ])
    at none e = v
    at (some (p, s)) e = release-Inv w.heap i p s w.held e v
call-Inv w (resize i n) v = at (get_elem? w.held i) refl
  where
    at :
        (o : Option Block)
        → get_elem? w.held i ≡ o
        → Inv (elim o [
          | none ↦ w
          | some (p, s) ↦ after_resize w.held i (suc n) (realloc_early w.heap (some p) (suc n))
        ])
    at none e = v
    at (some (p, s)) e = resize-Inv w.heap i p s n w.held e v

run-Inv : (w : World) (cs : List Call) → Inv w → Inv (run w cs)
unfolding run
run-Inv w [] v = v
run-Inv w (c ∷ cs) v = run-Inv (call w c) cs (call-Inv w c v)

-- Every block that a client holds lies in the heap, aligned and apart from the others, whatever
-- blocks of at least one byte it allocates, resizes and frees, as long as it frees and resizes
-- only blocks that it holds.
pub run-Apart :
    (cs : List Call) → Apart heap_size (run (record { heap = initial; held = [] }) cs).held
run-Apart cs = Apart-mono _ heap_size _ i.fits i.apart
  where
    i : Inv (run (record { heap = initial; held = [] }) cs)
    i = run-Inv _ cs (record { fits = omega arith; apart = tt; last = tt })
