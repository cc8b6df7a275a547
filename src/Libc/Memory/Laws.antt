-- ===== src/Libc/Memory/Laws.antt =====
-- src/libc/common/memory.c: copies in memory.
use facet_os.Prelude.{
  ℕ, zero, suc, ◌+◌, ◌-◌, ◌≤◌, ◌<◌, ◌≡◌, refl, sym, ap, ◌∙◌, ◌⊎◌, inl, inr, true, false, ◌&&◌,
  Option, some, [], ◌∷◌, arith, ltb, leb, ◌==◌, if◌then◌else◌, ltb→lt, Bool-cases, length,
  get_elem?, get_or, length-set, get_elem?-set_self, get_elem?-set_ne, Bytes,
}
use facet_os.Libc.Memory.{copy_byte, copy_up, copy_down, memmove}

get_or-get_elem? : (mem : Bytes) (i : ℕ) → i < length mem → some (get_or mem i 0) ≡ get_elem? mem i
get_or-get_elem? [] i h = absurd (omega arith)
get_or-get_elem? (x ∷ mem) zero h = refl
get_or-get_elem? (x ∷ mem) (suc i) h = get_or-get_elem? mem i (omega arith)

-- the byte that a copy of a block leaves at an index
abbrev pub moved : Bytes → ℕ → ℕ → ℕ → ℕ → Option ℕ
moved mem out from n i =
    if leb out i && ltb i (out + n) then get_elem? mem (from + (i - out)) else get_elem? mem i

moved_inside :
    (mem : Bytes) (out from n i : ℕ)
    → out ≤ i
    → i < out + n
    → moved mem out from n i ≡ get_elem? mem (from + (i - out))
moved_inside mem out from n i lo hi =
    let a : leb out i ≡ true = ground arith in
    let b : ltb i (out + n) ≡ true = ground arith in rw (a, b)

moved_outside :
    (mem : Bytes) (out from n i : ℕ)
    → (i < out) ⊎ (out + n ≤ i)
    → moved mem out from n i ≡ get_elem? mem i
moved_outside mem out from n i (inl h) = let a : leb out i ≡ false = ground arith in rw a
moved_outside mem out from n i (inr h) =
    let a : leb out i ≡ true = ground arith in
    let b : ltb i (out + n) ≡ false = ground arith in rw (a, b)

data Place (out n i : ℕ) : Type 0 where
  first : i ≡ out → Place out n i
  later : out < i → i < out + suc n → Place out n i
  beside : (i < out) ⊎ (out + suc n ≤ i) → Place out n i

place : (out n i : ℕ) → Place out n i
place out n i = elim (Bool-cases (ltb i out)) [
  | inl e ↦ beside (inl (ltb→lt _ _ e))
  | inr e ↦ elim (Bool-cases (i == out)) [
    | inl e' ↦ first (ground arith)
    | inr e' ↦ elim (Bool-cases (ltb i (out + suc n))) [
      | inl e'' ↦ later (ground arith) (ltb→lt _ _ e'')
      | inr e'' ↦ beside (inr (ground arith))
    ]
  ]
]

copied :
    (mem : Bytes) (out from i : ℕ)
    → out < length mem
    → from < length mem
    → i ≡ out
    → get_elem? (copy_byte mem out from) i ≡ get_elem? mem from
copied mem out from i h l e =
    ap (get_elem? (copy_byte mem out from)) e
    ∙ get_elem?-set_self mem out (get_or mem from 0) h
    ∙ get_or-get_elem? mem from l

up_step :
    (mem : Bytes) (out from n i : ℕ)
    → out < from
    → from + suc n ≤ length mem
    → Place out n i
    → moved (copy_byte mem out from) (out + 1) (from + 1) n i ≡ moved mem out from (suc n) i
up_step mem out from n i h l (first e) =
    moved_outside (copy_byte mem out from) (out + 1) (from + 1) n i (inl (omega arith))
    ∙ copied mem out from i (omega arith) (omega arith) e
    ∙ ap (get_elem? mem) (omega arith)
    ∙ sym (moved_inside mem out from (suc n) i (omega arith) (omega arith))
up_step mem out from n i h l (later lo hi) =
    moved_inside (copy_byte mem out from) (out + 1) (from + 1) n i (omega arith) (omega arith)
    ∙ get_elem?-set_ne mem (get_or mem from 0) (omega arith)
    ∙ ap (get_elem? mem) (omega arith)
    ∙ sym (moved_inside mem out from (suc n) i (omega arith) (omega arith))
up_step mem out from n i h l (beside w) =
    moved_outside (copy_byte mem out from) (out + 1) (from + 1) n i (ground arith)
    ∙ get_elem?-set_ne mem (get_or mem from 0) (ground arith)
    ∙ sym (moved_outside mem out from (suc n) i w)

copy_up-moved :
    (n : ℕ) (mem : Bytes) (out from i : ℕ)
    → out < from
    → from + n ≤ length mem
    → get_elem? (copy_up mem out from n) i ≡ moved mem out from n i
unfolding copy_up
copy_up-moved zero mem out from i h l = ground arith
copy_up-moved (suc n) mem out from i h l =
    copy_up-moved n (copy_byte mem out from) (out + 1) (from + 1) i (omega arith)
      (omega (arith, length-set mem out (get_or mem from 0)))
    ∙ up_step mem out from n i h l (place out n i)

data End (out n i : ℕ) : Type 0 where
  last : i ≡ out + n → End out n i
  before : out ≤ i → i < out + n → End out n i
  apart : (i < out) ⊎ (out + suc n ≤ i) → End out n i

where_in : (out n i : ℕ) → End out n i
where_in out n i = elim (Bool-cases (ltb i out)) [
  | inl e ↦ apart (inl (ltb→lt _ _ e))
  | inr e ↦ elim (Bool-cases (i == out + n)) [
    | inl e' ↦ last (ground arith)
    | inr e' ↦ elim (Bool-cases (ltb i (out + n))) [
      | inl e'' ↦ before (ground arith) (ltb→lt _ _ e'')
      | inr e'' ↦ apart (inr (ground arith))
    ]
  ]
]

down_step :
    (mem : Bytes) (out from n i : ℕ)
    → from < out
    → out + suc n ≤ length mem
    → End out n i
    → moved (copy_byte mem (out + n) (from + n)) out from n i ≡ moved mem out from (suc n) i
down_step mem out from n i h l (last e) =
    moved_outside (copy_byte mem (out + n) (from + n)) out from n i (inr (omega arith))
    ∙ copied mem (out + n) (from + n) i (omega arith) (omega arith) e
    ∙ ap (get_elem? mem) (omega arith)
    ∙ sym (moved_inside mem out from (suc n) i (omega arith) (omega arith))
down_step mem out from n i h l (before lo hi) =
    moved_inside (copy_byte mem (out + n) (from + n)) out from n i lo hi
    ∙ get_elem?-set_ne mem (get_or mem (from + n) 0) (omega arith)
    ∙ sym (moved_inside mem out from (suc n) i lo (omega arith))
down_step mem out from n i h l (apart w) =
    moved_outside (copy_byte mem (out + n) (from + n)) out from n i (ground arith)
    ∙ get_elem?-set_ne mem (get_or mem (from + n) 0) (ground arith)
    ∙ sym (moved_outside mem out from (suc n) i w)

copy_down-moved :
    (n : ℕ) (mem : Bytes) (out from i : ℕ)
    → from < out
    → out + n ≤ length mem
    → get_elem? (copy_down mem out from n) i ≡ moved mem out from n i
unfolding copy_down
copy_down-moved zero mem out from i h l = ground arith
copy_down-moved (suc n) mem out from i h l =
    copy_down-moved n (copy_byte mem (out + n) (from + n)) out from i h
      (omega (arith, length-set mem (out + n) (get_or mem (from + n) 0)))
    ∙ down_step mem out from n i h l (where_in out n i)

-- Moving a block inside the memory leaves at every index of the destination the byte that the
-- source held at its place, and changes no other, even if the two overlap.
pub memmove-moved :
    (mem : Bytes) (destination source count i : ℕ)
    → source + count ≤ length mem
    → destination + count ≤ length mem
    → get_elem? (memmove mem destination source count) i ≡ moved mem destination source count i
unfolding memmove
memmove-moved mem destination source count i hs hd = elim (Bool-cases (ltb destination source)) [
  | inl e ↦ rw e (copy_up-moved count mem destination source i (ltb→lt _ _ e) hs)
  | inr e ↦ elim (Bool-cases (ltb source destination)) [
    | inl e' ↦ rw (e, e') (copy_down-moved count mem destination source i (ltb→lt _ _ e') hd)
    | inr e' ↦ rw (e, e') (in_place (ground arith))
  ]
]
  where
    in_place : source ≡ destination → get_elem? mem i ≡ moved mem destination source count i
    in_place same_place = elim (Bool-cases (leb destination i && ltb i (destination + count))) [
      | inl e ↦ rw e (ap (get_elem? mem) (ground arith))
      | inr e ↦ rw e
    ]
