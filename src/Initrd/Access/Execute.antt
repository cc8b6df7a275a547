-- ===== src/Initrd/Access/Execute.antt =====
-- src/dominit0/initrd.c: facet_initrd_check_execute, and the checks it stands for.
use facet_os.Prelude.{
  ℕ, zero, suc, ◌≤◌, ◌≡◌, refl, sym, ap, ◌∙◌, inl, inr, Bool, true, false, not, ◌&&◌, ◌||◌, Option,
  none, some, List, [], ◌∷◌, ◌++◌, append-nil, append_assoc, arith, ltb, ◌==◌, if◌then◌else◌,
  Bool-cases, length, Bytes,
}
use facet_os.Prelude.Monad.{Result, ok, err}
use facet_os.Prelude.Monad.{invalid_argument, not_found, access_denied}
use facet_os.Initrd.Path.{slash, path_max, is_absolute, skip_slashes, name, after_name}
use facet_os.Initrd.Image.{Entry}
use facet_os.Initrd.Path.Stack.{after_name_shorter}
use facet_os.Initrd.Access.Modes.{may_execute, entry_allows-may_execute}
use facet_os.Initrd.Access.{
  find_entry, entry_allows, check_directory, leading_slashes, check_prefixes, check_file,
  check_execute,
}

-- The prefixes of a path that end just before a slash behind a name: with the bytes before, and
-- a flag that says whether a slash stands there.
abbrev pub prefixes : Bool → Bytes → Bytes → List Bytes
prefixes after before [] = []
prefixes after before (c ∷ rest) =
    let more = prefixes (c == slash) (before ++ c ∷ []) rest in
    if c == slash && not after then before ∷ more else more

-- the directories that lead to a file, outermost first, but for the root
abbrev pub ancestors : Bytes → List Bytes
ancestors [] = []
ancestors (c ∷ rest) = prefixes true (c ∷ []) rest

-- the second check, if the first one passes
abbrev pub both : Result (Unit {0}) → Result (Unit {0}) → Result (Unit {0})
both (ok u) r = r
both (err e) r = err e

abbrev pub granted_if : Bool → Result (Unit {0})
granted_if b = if b then ok tt else err access_denied

module _ (es : List Entry) (uid gid : ℕ) (admin : Bool) where
  -- an entry of the path and the kind is there, and its mode lets the user execute it
  abbrev pub is_executable : Bytes → Bool → Result (Unit {0})
  is_executable path directory = elim (find_entry es path directory) [
    | none ↦ err not_found
    | some e ↦ granted_if (may_execute e.mode e.uid e.gid uid gid admin)
  ]

  abbrev pub check_all : List Bytes → Result (Unit {0})
  check_all [] = ok tt
  check_all (p ∷ ps) = both (is_executable p true) (check_all ps)

  executable_lem :
      (o : Option Entry)
      → elim o [ none ↦ err not_found | some e ↦ granted_if (entry_allows e uid gid admin 1) ]
        ≡ elim o [
          | none ↦ err not_found
          | some e ↦ granted_if (may_execute e.mode e.uid e.gid uid gid admin)
        ]
  executable_lem none = refl
  executable_lem (some e) = rw (entry_allows-may_execute e uid gid admin) refl

  check_directory_lem : (p : Bytes) → check_directory es uid gid admin p ≡ is_executable p true
  unfolding check_directory
  check_directory_lem p = executable_lem (find_entry es p true)

  check_file_lem : (p : Bytes) → check_file es uid gid admin p ≡ is_executable p false
  unfolding check_file
  check_file_lem p = executable_lem (find_entry es p false)

-- what the rest of the path holds behind a name
abbrev pub after_first : Bytes → Bytes → List Bytes
after_first before [] = []
after_first before (c ∷ rest) = before ∷ prefixes true before (c ∷ rest)

prefixes-skip_slashes :
    (before rest : Bytes)
    → prefixes true before rest ≡ prefixes true (before ++ leading_slashes rest) (skip_slashes rest)
prefixes-skip_slashes before [] = refl
prefixes-skip_slashes before (c ∷ rest) = elim (Bool-cases (c == slash)) [
  | inl e ↦
      rw (e, prefixes-skip_slashes (before ++ c ∷ []) rest)
        (ap (λ (b : Bytes). prefixes true b (skip_slashes rest))
          (append_assoc before (c ∷ []) (leading_slashes rest)))
  | inr e ↦ rw e (rw (append-nil before, e))
]

prefixes_name :
    (before rest : Bytes)
    → prefixes false before rest ≡ after_first (before ++ name rest) (after_name rest)
prefixes_name before [] = refl
prefixes_name before (c ∷ rest) = elim (Bool-cases (c == slash)) [
  | inl e ↦ rw e (rw (append-nil before, e))
  | inr e ↦ rw (e, prefixes_name (before ++ c ∷ []) rest, append_assoc before (c ∷ []) (name rest))
]

prefixes_flag :
    (before rest : Bytes)
    → prefixes true before (skip_slashes rest) ≡ prefixes false before (skip_slashes rest)
prefixes_flag before [] = refl
prefixes_flag before (c ∷ rest) = elim (Bool-cases (c == slash)) [
  | inl e ↦ rw e (prefixes_flag before rest)
  | inr e ↦ rw e (rw e)
]

pub prefixes_round :
    (before rest : Bytes)
    → prefixes true before rest
      ≡ after_first
          (before ++ leading_slashes rest ++ name (skip_slashes rest))
          (after_name (skip_slashes rest))
prefixes_round before rest =
    prefixes-skip_slashes before rest
    ∙ prefixes_flag (before ++ leading_slashes rest) rest
    ∙ prefixes_name (before ++ leading_slashes rest) (skip_slashes rest)

pub remaining :
    {fuel : ℕ} (rest : Bytes)
    → length rest ≤ suc fuel
    → length (after_name (skip_slashes rest)) ≤ fuel
remaining [] h = omega arith
remaining (c ∷ rest) h = omega (arith, after_name_shorter c rest)

join : (o x y : Result (Unit {0})) → x ≡ y → elim o [ err e ↦ err e | ok _ ↦ x ] ≡ both o y
join (ok u) x y h = h
join (err e) x y h = refl

module _ (es : List Entry) (uid gid : ℕ) (admin : Bool) where
  check_prefixes-check_all :
      (fuel : ℕ) (before rest : Bytes)
      → length rest ≤ fuel
      → check_prefixes fuel es uid gid admin before rest
        ≡ check_all es uid gid admin (prefixes true before rest)
  unfolding check_prefixes
  check_prefixes-check_all zero before [] h = refl
  check_prefixes-check_all zero before (c ∷ rest) h = absurd (omega arith)
  check_prefixes-check_all (suc fuel) before rest h = rw (prefixes_round before rest) (
      behind (after_name (skip_slashes rest))
        (check_prefixes-check_all fuel prefix (after_name (skip_slashes rest)) (remaining rest h)))
    where
      prefix : Bytes
      prefix = before ++ leading_slashes rest ++ name (skip_slashes rest)

      behind :
          (l : Bytes)
          → (check_prefixes fuel es uid gid admin prefix l
              ≡ check_all es uid gid admin (prefixes true prefix l))
          → elim l [
            | [] ↦ ok tt
            | c ∷ r ↦ elim (check_directory es uid gid admin prefix) [
              | err e ↦ err e
              | ok _ ↦ check_prefixes fuel es uid gid admin prefix (c ∷ r)
            ]
          ]
            ≡ check_all es uid gid admin (after_first prefix l)
      behind [] ih = refl
      behind (c ∷ r) ih =
          join (check_directory es uid gid admin prefix) _ _ ih
          ∙ ap
              (λ (o : Result (Unit {0})).
                both o (check_all es uid gid admin (prefixes true prefix (c ∷ r))))
              (check_directory_lem es uid gid admin prefix)

  -- what the check has to establish, once the path is accepted
  abbrev pub check_way : Bytes → Result (Unit {0})
  check_way path = elim (find_entry es (slash ∷ []) true) [
    | none ↦ err access_denied
    | some root ↦
        if may_execute root.mode root.uid root.gid uid gid admin
        then both (check_all es uid gid admin (ancestors path))
            (is_executable es uid gid admin path false)
        else err access_denied
  ]

  -- Execution is allowed exactly as the following checks in their order allow it: the path is
  -- absolute and no longer than the limit, the root can be searched, every directory on the way
  -- exists and can be searched, and the file exists and can be executed. To search or execute, an
  -- administrator and user 0 need an execute bit of any class, others that of their class. The
  -- first check that fails gives the fault.
  pub check_execute-check_way :
      (path : Bytes)
      → check_execute es path uid gid admin ≡ (
          if not (is_absolute path) || ltb path_max (length path)
          then err invalid_argument
          else check_way path)
  unfolding check_execute
  check_execute-check_way [] = refl
  check_execute-check_way (c ∷ rest) =
      ap
        (λ (r : Result (Unit {0})).
          if not (c == slash) || ltb path_max (suc (length rest)) then err invalid_argument else r)
        (way (find_entry es (slash ∷ []) true))
    where
      all :
          check_prefixes (suc (length rest)) es uid gid admin (c ∷ []) rest
          ≡ check_all es uid gid admin (ancestors (c ∷ rest))
      all = check_prefixes-check_all (suc (length rest)) (c ∷ []) rest (omega arith)

      way :
          (o : Option Entry)
          → elim o [
            | none ↦ err access_denied
            | some root ↦
                if entry_allows root uid gid admin 1
                then elim (check_prefixes (suc (length rest)) es uid gid admin (c ∷ []) rest) [
                  | err e ↦ err e
                  | ok _ ↦ check_file es uid gid admin (c ∷ rest)
                ]
                else err access_denied
          ]
            ≡ elim o [
              | none ↦ err access_denied
              | some root ↦
                  if may_execute root.mode root.uid root.gid uid gid admin
                  then both
                      (check_all es uid gid admin (ancestors (c ∷ rest)))
                      (is_executable es uid gid admin (c ∷ rest) false)
                  else err access_denied
            ]
      way none = refl
      way (some root) =
          rw
            (
              all,
              sym (entry_allows-may_execute root uid gid admin),
              sym (check_file_lem es uid gid admin (c ∷ rest)),
            )
            (ap
              (λ (r : Result (Unit {0})).
                if entry_allows root uid gid admin 1 then r else err access_denied)
              (join (check_all es uid gid admin (ancestors (c ∷ rest))) _ _ refl))
