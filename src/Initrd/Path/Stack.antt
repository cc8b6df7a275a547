-- ===== src/Initrd/Path/Stack.antt =====
-- src/dominit0/initrd.c: resolve_path on a stack of names.
use facet_os.Prelude.{
  ℕ, zero, suc, ◌≤◌, ◌≡◌, refl, sym, ap, ◌∙◌, inl, inr, Bool, true, false, not, ◌&&◌, ◌||◌, List,
  [], ◌∷◌, ◌++◌, arith, ltb, leb, ◌==◌, if◌then◌else◌, leb→le, Bool-cases, length, Bytes,
}
use facet_os.Prelude.Monad.{Result, ok, err}
use facet_os.Prelude.Monad.{Result, ok, err, invalid_argument}
use mathlib.Core.List.{reverse}
use facet_os.Initrd.Path.{
  path_max, slash, is_dot, is_dot_dot, skip_slashes, name, after_name, has_nul, enter, walk,
  requires_directory, is_absolute, resolve_path,
}
use facet_os.Initrd.Path.Names.{
  Names, buffer, body, text, no_slash, AllNames, step, split, run_steps, reverse-buffer,
  reverse-text, enter-buffer,
}

-- the pieces behind a first one
abbrev tail_pieces : Bytes → List Bytes
tail_pieces [] = []
tail_pieces (c ∷ q) = split q

split-name : (p : Bytes) → split p ≡ name p ∷ tail_pieces (after_name p)
split-name [] = refl
split-name (c ∷ p) = elim (Bool-cases (c == slash)) [ inl e ↦ rw e | inr e ↦ rw (e, split-name p) ]

no_slash-name : (p : Bytes) → no_slash (name p) ≡ true
no_slash-name [] = refl
no_slash-name (c ∷ p) = elim (Bool-cases (c == slash)) [
  | inl e ↦ rw e
  | inr e ↦ rw (e, no_slash-name p) (rw e)
]

run_steps_nothing :
    (s : Names) (cs : List Bytes)
    → length (text s) ≤ path_max
    → run_steps s ([] ∷ cs) ≡ run_steps s cs
run_steps_nothing s cs h = ground arith

run_steps-skip_slashes :
    (s : Names) (p : Bytes)
    → length (text s) ≤ path_max
    → run_steps s (split (skip_slashes p)) ≡ run_steps s (split p)
run_steps-skip_slashes s [] h = refl
run_steps-skip_slashes s (c ∷ p) h = elim (Bool-cases (c == slash)) [
  | inl e ↦ rw e (run_steps-skip_slashes s p h ∙ sym (run_steps_nothing s (split p) h))
  | inr e ↦ rw e (rw e refl)
]

run_steps-tail_pieces :
    (s : Names) (p : Bytes)
    → length (text s) ≤ path_max
    → run_steps s (tail_pieces (after_name p)) ≡ run_steps s (split (after_name p))
run_steps-tail_pieces s [] h = sym (run_steps_nothing s [] h)
run_steps-tail_pieces s (c ∷ p) h = elim (Bool-cases (c == slash)) [
  | inl e ↦ rw (e, e) (sym (run_steps_nothing s (split p) h))
  | inr e ↦ rw e (run_steps-tail_pieces s p h)
]

length-after_name : (p : Bytes) → length (after_name p) ≤ length p
length-after_name [] = omega arith
length-after_name (c ∷ p) = ground (arith, length-after_name p)

pub after_name_shorter : (c : ℕ) (p : Bytes) → length (after_name (skip_slashes (c ∷ p))) ≤ length p
after_name_shorter c [] = ground arith
after_name_shorter c (d ∷ p) = ground (arith, after_name_shorter d p, length-after_name (d ∷ p))

step-AllNames : (s : Names) (p : Bytes) → AllNames s → AllNames (step s (name p))
step-AllNames s p v = elim (Bool-cases (length (name p) == 0 || is_dot (name p))) [
  | inl e ↦ rw e v
  | inr e ↦ elim (Bool-cases (is_dot_dot (name p))) [
    | inl up ↦ rw (e, up) (parent s v)
    | inr down ↦
        rw (e, down)
          (
            record {
              filled = ground arith;
              plain = no_slash-name p;
              not_dot = ground arith;
              not_dot_dot = down;
            },
            v,
          )
  ]
]
  where
    parent : (s : Names) → AllNames s → AllNames (elim s [ [] ↦ [] | n ∷ r ↦ r ])
    parent [] v = tt
    parent (n ∷ r) v = v.1

abbrev buffered : Result Names → Result Bytes
buffered (ok s) = ok (buffer s)
buffered (err e) = err e

-- one round of the walk, from the start of a name or at the end
walk_round :
    (fuel : ℕ) (s : Names) (rest : Bytes)
    → AllNames s
    → length (text s) ≤ path_max
    → (length (text (step s (name rest))) ≤ path_max
        → walk fuel (buffer (step s (name rest))) (after_name rest)
          ≡ buffered (run_steps (step s (name rest)) (split (after_name rest))))
    → elim (enter (buffer s) (name rest)) [
      | ok out ↦ walk fuel out (after_name rest)
      | err e ↦ err e
    ]
      ≡ buffered (run_steps s (split rest))
walk_round fuel s rest v fits ih =
    rw (enter-buffer s (name rest) v fits, split-name rest)
      (elim (Bool-cases (leb (length (text (step s (name rest)))) path_max)) [
        | inl e ↦
            let ok_step = leb→le _ _ e in
            rw (e, run_steps-tail_pieces (step s (name rest)) rest ok_step) (ih ok_step)
        | inr e ↦ rw e
      ])

walk-run_steps :
    (fuel : ℕ) (s : Names) (p : Bytes)
    → length p ≤ fuel
    → AllNames s
    → length (text s) ≤ path_max
    → walk fuel (buffer s) p ≡ buffered (run_steps s (split p))
unfolding walk
walk-run_steps fuel s [] h v fits = rw (run_steps_nothing s [] fits)
walk-run_steps zero s (c ∷ p) h v fits = absurd (omega arith)
walk-run_steps (suc fuel) s (c ∷ p) h v fits =
    walk_round fuel s (skip_slashes (c ∷ p)) v fits (λ ok_step.
      walk-run_steps fuel (step s (name (skip_slashes (c ∷ p)))) (after_name (skip_slashes (c ∷ p)))
        (omega (arith, after_name_shorter c p)) (step-AllNames s (skip_slashes (c ∷ p)) v) ok_step)
    ∙ ap buffered (run_steps-skip_slashes s (c ∷ p) fits)

append_absolute : (xs ys : Bytes) → is_absolute xs ≡ true → is_absolute (xs ++ ys) ≡ true
append_absolute [] ys h = cc
append_absolute (x ∷ xs) ys h = h

body_absolute : (n : Bytes) (s : Names) → is_absolute (body (n ∷ s)) ≡ true
body_absolute n [] = refl
body_absolute n (m ∷ s) = append_absolute (body (m ∷ s)) (slash ∷ n) (body_absolute m s)

text_absolute : (s : Names) → is_absolute (text s) ≡ true
text_absolute [] = refl
text_absolute (n ∷ s) = body_absolute n s

abbrev pub resolved : Bytes → Result Names → Result (Bytes × Bool)
resolved path (ok s) = ok (text s, requires_directory path)
resolved path (err e) = err e

finished :
    (path : Bytes) (r : Result Names)
    → elim (buffered r) [ ok out ↦ ok (reverse out, requires_directory path) | err e ↦ err e ]
      ≡ resolved path r
finished path (ok s) = rw (reverse-buffer s)
finished path (err e) = refl

and_false : (a : Bool) → (a && false) ≡ false
and_false true = refl
and_false false = refl

start-fits :
    (b : Names) (a : Bool)
    → length (text b) ≤ path_max
    → length (text (if a then [] else b)) ≤ path_max
start-fits b true h = omega arith
start-fits b false h = h

start-AllNames : (b : Names) (a : Bool) → AllNames b → AllNames (if a then [] else b)
start-AllNames b true v = tt
start-AllNames b false v = v

start-buffer :
    (b : Names) (a : Bool)
    → (if a then slash ∷ [] else reverse (text b)) ≡ buffer (if a then [] else b)
start-buffer b true = refl
start-buffer b false = reverse-text b

-- what a path is refused for at once
abbrev pub is_refused : Bytes → Bool
is_refused path = length path == 0 || ltb path_max (length path) || has_nul path

-- From a directory whose path is canonical, a path resolves to the text of the stack of names
-- that its pieces leave, started at the root if it is absolute: empty pieces and `.` do nothing,
-- `..` goes up and stays at the root, any other piece goes down. It is refused if it is empty,
-- too long or holds a NUL, or if a path on the way is longer than the limit.
pub resolve_path-run_steps :
    (b : Names) (path : Bytes)
    → AllNames b
    → length (text b) ≤ path_max
    → resolve_path (text b) path ≡ (
        if is_refused path
        then err invalid_argument
        else resolved path (run_steps (if is_absolute path then [] else b) (split path)))
unfolding resolve_path
resolve_path-run_steps b path v fits =
    let long : ltb path_max (length (text b)) ≡ false = ground arith in
    rw (text_absolute b, long)
      (elim (Bool-cases (is_refused path)) [
        | inl e ↦ rw e
        | inr e ↦
            rw
              (
                e,
                start-buffer b (is_absolute path),
                and_false (not (is_absolute path)),
                walk-run_steps (length path) (if is_absolute path then [] else b) path (omega arith)
                    (start-AllNames b (is_absolute path) v) (start-fits b (is_absolute path) fits),
              )
              (finished path (run_steps (if is_absolute path then [] else b) (split path)))
      ])
