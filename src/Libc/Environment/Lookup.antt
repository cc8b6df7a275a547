-- ===== src/Libc/Environment/Lookup.antt =====
-- src/libc/common/runtime.c: `getenv`.
use facet_os.Prelude.{
  ℕ, suc, ◌+◌, ◌≡◌, refl, sym, ap, ◌∙◌, inl, inr, false, Option, none, some, List, [], ◌∷◌, ◌++◌,
  arith, ◌==◌, if◌then◌else◌, Bool-cases, length, drop, Bytes, bytes_equal, bytes_equal_iff,
}
use facet_os.Libc.Text.{strncmp, strchr}
use facet_os.Libc.Environment.{initialize_runtime, entry_matches, find_entry_of, getenv}

-- the bytes of a name: neither the terminator nor `=`
abbrev pub IsPlain : Bytes → Type 0
IsPlain [] = Unit
IsPlain (c ∷ n) = ((c == b'=') ≡ false) × ((c == 0) ≡ false) × IsPlain n

abbrev pub AllPlain : List (Bytes × Bytes) → Type 0
AllPlain [] = Unit
AllPlain ((n, v) ∷ vars) = IsPlain n × AllPlain vars

-- the strings of an environment, `name=value`
abbrev pub entries_of : List (Bytes × Bytes) → List Bytes
entries_of [] = []
entries_of ((n, v) ∷ vars) = (n ++ b'=' ∷ v) ∷ entries_of vars

abbrev pub value_of : Bytes → List (Bytes × Bytes) → Option Bytes
value_of name [] = none
value_of name ((n, v) ∷ vars) = if bytes_equal n name then some v else value_of name vars

entry_matches_lem :
    (n v name : Bytes)
    → IsPlain n
    → IsPlain name
    → entry_matches (n ++ b'=' ∷ v) name ≡ bytes_equal n name
unfolding entry_matches strncmp
entry_matches_lem [] v [] p q = refl
entry_matches_lem [] v (c ∷ name) p q =
    let e : (b'=' == c) ≡ false = ground (arith, q.0) in rw (e, e)
entry_matches_lem (a ∷ n) v [] p q = p.0
entry_matches_lem (a ∷ n) v (c ∷ name) p q = elim (Bool-cases (a == c)) [
  | inl e ↦ rw e (entry_matches_lem n v name p.2 q.2)
  | inr e ↦ rw e (ground (arith, e))
]

drop-name : (n v : Bytes) → drop (length n + 1) (n ++ b'=' ∷ v) ≡ v
drop-name [] v = refl
drop-name (a ∷ n) v =
    let e : suc (length n) + 1 ≡ suc (length n + 1) = omega arith in rw e (drop-name n v)

find_entry_of-value_of :
    (name : Bytes) (vars : List (Bytes × Bytes))
    → IsPlain name
    → AllPlain vars
    → find_entry_of name (entries_of vars) ≡ value_of name vars
unfolding find_entry_of
find_entry_of-value_of name [] p q = refl
find_entry_of-value_of name ((n, v) ∷ vars) p q = elim (Bool-cases (bytes_equal n name)) [
  | inl e ↦
      rw (entry_matches_lem n v name q.0 p, e)
        (ap (λ (m : Bytes). some (drop (length m + 1) (n ++ b'=' ∷ v)))
            (sym ((bytes_equal_iff n name).0 e))
          ∙ ap some (drop-name n v))
  | inr e ↦ rw (entry_matches_lem n v name q.0 p, e) (find_entry_of-value_of name vars p q.1)
]

no_equals : (name : Bytes) → IsPlain name → strchr name b'=' ≡ none
unfolding strchr
no_equals [] p = refl
no_equals (c ∷ name) p = rw (p.0, no_equals name p.2)

-- After start-up with an environment of strings `name=value`, whose names hold no `=`, `getenv`
-- gives the value of the first variable of a name, and NULL if there is none. The name asked for
-- is not empty and holds no `=`.
pub getenv-value_of :
    (c : ℕ) (rest : Bytes) (vars : List (Bytes × Bytes)) (vector : Option (List (ℕ × ℕ)))
    → IsPlain (c ∷ rest)
    → AllPlain vars
    → getenv (initialize_runtime (some (entries_of vars)) vector) (c ∷ rest)
      ≡ value_of (c ∷ rest) vars
unfolding getenv initialize_runtime
getenv-value_of c rest vars vector p q =
    rw (p.1, no_equals (c ∷ rest) p) (find_entry_of-value_of (c ∷ rest) vars p q)
