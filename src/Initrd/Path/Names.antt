-- ===== src/Initrd/Path/Names.antt =====
-- src/dominit0/initrd.c: the names of a path, the buffer that holds them, and its components.
use facet_os.Prelude.{
  ℕ, ◌+◌, ◌≤◌, ◌<◌, ◌≡◌, refl, sym, ap, ap₂, ◌∙◌, inl, inr, Bool, true, false, not, ◌&&◌, ◌||◌,
  List, [], ◌∷◌, ◌++◌, append_assoc, arith, leb, ◌==◌, if◌then◌else◌, Bool-cases, length,
  length-append, Bytes,
}
use facet_os.Prelude.Monad.{Result, ok, err}
use facet_os.Prelude.Monad.{Result, ok, err, invalid_argument}
use mathlib.Core.List.{reverse, reverse_aux, reverse-cons, reverse-append, reverse-reverse}
use facet_os.Initrd.Path.{
  path_max, slash, is_dot, is_dot_dot, pop_name, pop_slash, pop, push, enter,
}

-- The names of a path from the root, the last one first.
abbrev pub Names : Type 0
Names = List Bytes

-- a buffer that holds such a path, with its last byte first
abbrev under : Names → Bytes
under [] = []
under (n ∷ s) = reverse n ++ slash ∷ under s

abbrev pub buffer : Names → Bytes
buffer [] = slash ∷ []
buffer (n ∷ s) = reverse n ++ slash ∷ under s

-- the text of such a path
abbrev pub body : Names → Bytes
body [] = []
body (n ∷ s) = body s ++ slash ∷ n

abbrev pub text : Names → Bytes
text [] = slash ∷ []
text (n ∷ s) = body s ++ slash ∷ n

abbrev pub no_slash : Bytes → Bool
no_slash [] = true
no_slash (c ∷ n) = not (c == slash) && no_slash n

-- A name that stands for itself: not empty, no slash in it, and neither `.` nor `..`.
pub record IsName (n : Bytes) : Type 0 where
  pub filled : 0 < length n
  pub plain : no_slash n ≡ true
  pub not_dot : is_dot n ≡ false
  pub not_dot_dot : is_dot_dot n ≡ false

abbrev pub AllNames : Names → Type 0
AllNames [] = Unit
AllNames (n ∷ s) = IsName n × AllNames s

-- what a component does: nothing, one level up, stopping at the root, or one level down
abbrev pub step : Names → Bytes → Names
step s c =
    if length c == 0 || is_dot c
    then s
    else if is_dot_dot c
    then elim s [ [] ↦ [] | n ∷ r ↦ r ]
    else c ∷ s

-- the pieces between the slashes of a path
abbrev pub split : Bytes → List Bytes
split [] = [] ∷ []
split (c ∷ p) =
    if c == slash
    then [] ∷ split p
    else elim (split p) [ [] ↦ (c ∷ []) ∷ [] | n ∷ ns ↦ (c ∷ n) ∷ ns ]

abbrev pub steps : Names → List Bytes → Names
steps s [] = s
steps s (c ∷ cs) = steps (step s c) cs

-- the same with the limit on the length, which ends the walk
abbrev pub run_steps : Names → List Bytes → Result Names
run_steps s [] = ok s
run_steps s (c ∷ cs) =
    let rest = run_steps (step s c) cs in
    if leb (length (text (step s c))) path_max then rest else err invalid_argument

reverse-under : (s : Names) → reverse (under s) ≡ body s
reverse-under [] = refl
reverse-under (n ∷ s) =
    reverse-append (reverse n) (slash ∷ under s)
    ∙ ap₂ ◌++◌ (reverse-cons slash (under s)) (reverse-reverse n)
    ∙ rw (reverse-under s) (append_assoc (body s) (slash ∷ []) n)

pub reverse-buffer : (s : Names) → reverse (buffer s) ≡ text s
reverse-buffer [] = refl
reverse-buffer (n ∷ s) = reverse-under (n ∷ s)

pub reverse-text : (s : Names) → reverse (text s) ≡ buffer s
reverse-text s = ap reverse (sym (reverse-buffer s)) ∙ reverse-reverse (buffer s)

length-reverse_aux : (xs ys : Bytes) → length (reverse_aux xs ys) ≡ length xs + length ys
length-reverse_aux [] ys = omega arith
length-reverse_aux (x ∷ xs) ys = omega (arith, length-reverse_aux xs (x ∷ ys))

length-reverse : (xs : Bytes) → length (reverse xs) ≡ length xs
length-reverse xs = omega (arith, length-reverse_aux xs [])

length-buffer : (s : Names) → length (buffer s) ≡ length (text s)
length-buffer s = sym (ap length (reverse-text s)) ∙ length-reverse (text s)

no_slash-append : (xs ys : Bytes) → no_slash (xs ++ ys) ≡ (no_slash xs && no_slash ys)
no_slash-append [] ys = refl
no_slash-append (x ∷ xs) ys = ground (arith, no_slash-append xs ys)

no_slash-reverse : (xs : Bytes) → no_slash (reverse xs) ≡ no_slash xs
no_slash-reverse [] = refl
no_slash-reverse (x ∷ xs) =
    rw (reverse-cons x xs, no_slash-append (reverse xs) (x ∷ []), no_slash-reverse xs)
      (ground arith)

pop_name-append : (xs r : Bytes) → no_slash xs ≡ true → pop_name (xs ++ slash ∷ r) ≡ slash ∷ r
unfolding pop_name
pop_name-append [] [] h = refl
pop_name-append [] (d ∷ r) h = refl
pop_name-append (x ∷ []) r h = ground (arith, pop_name-append [] r)
pop_name-append (x ∷ y ∷ xs) r h = ground (arith, pop_name-append (y ∷ xs) r)

append-ne-nil : (xs ys : Bytes) (y : ℕ) → (z : ℕ) × (zs : Bytes) × (xs ++ y ∷ ys ≡ z ∷ zs)
append-ne-nil [] ys y = (y, ys, refl)
append-ne-nil (x ∷ xs) ys y = (x, xs ++ y ∷ ys, refl)

-- `..` takes the last name off, and leaves the root alone
pop-buffer : (n : Bytes) (s : Names) → no_slash n ≡ true → pop (buffer (n ∷ s)) ≡ buffer s
unfolding pop
pop-buffer n s h = rw (pop_name-append (reverse n) (under s) (no_slash-reverse n ∙ h)) (rest s)
  where
    rest : (s : Names) → pop_slash (slash ∷ under s) ≡ buffer s
    rest [] = unfold pop_slash in refl
    rest (m ∷ s) =
        let (z, zs, e) = append-ne-nil (reverse m) (under s) slash in unfold pop_slash in rw e

pop_root : pop (buffer []) ≡ buffer []
unfolding pop pop_name pop_slash
pop_root = refl

length-text_parent : (n : Bytes) (s : Names) → length (text s) ≤ length (text (n ∷ s))
length-text_parent n [] = omega arith
length-text_parent n (m ∷ s) = omega (arith, length-append (body (m ∷ s)) (slash ∷ n))

abbrev Entered : Names → Result Bytes
Entered s = if leb (length (text s)) path_max then ok (buffer s) else err invalid_argument

within : (s : Names) → length (text s) ≤ path_max → Entered s ≡ ok (buffer s)
within s h = ground arith

push-buffer : (s : Names) (n : Bytes) → AllNames s → push (buffer s) n ≡ Entered (n ∷ s)
unfolding push
push-buffer [] n v = ground arith
push-buffer (m ∷ s) n v = ground (
  arith,
  length-append (body (m ∷ s)) (slash ∷ n),
  length-buffer (m ∷ s),
  length-append (reverse m) (slash ∷ under s),
  length-reverse m,
  v.0.filled,
)

pub enter-buffer :
    (s : Names) (n : Bytes)
    → AllNames s
    → length (text s) ≤ path_max
    → enter (buffer s) n ≡ Entered (step s n)
unfolding enter
enter-buffer s n v fits = elim (Bool-cases (length n == 0 || is_dot n)) [
  | inl e ↦ rw e (sym (within s fits))
  | inr e ↦ elim (Bool-cases (is_dot_dot n)) [
    | inl up ↦ rw (e, up) (parent s v fits)
    | inr down ↦ rw (e, down) (push-buffer s n v)
  ]
]
  where
    parent :
        (s : Names)
        → AllNames s
        → length (text s) ≤ path_max
        → ok (pop (buffer s)) ≡ Entered (elim s [ [] ↦ [] | n ∷ r ↦ r ])
    parent [] v fits = ap ok pop_root ∙ sym (within [] fits)
    parent (m ∷ r) v fits =
        ap ok (pop-buffer m r v.0.plain) ∙ sym (within r (omega (arith, length-text_parent m r)))
