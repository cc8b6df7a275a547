-- ===== src/FileView/Search.antt =====
-- src/dominit0/file_view.c: the directories that check_search looks at.
use facet_os.Prelude.{
  zero, suc, ◌≤◌, ◌≡◌, refl, sym, ap, ◌∙◌, inl, inr, Bool, true, false, List, [], ◌∷◌, ◌++◌,
  append-nil, append_assoc, arith, ◌==◌, ℕ, ap₂, Option, none, some, not, ◌&&◌, ◌||◌, ◌/◌,
  if◌then◌else◌, Bool-cases, length, Bytes,
}
use facet_os.Prelude.Monad.{Result, ok, err, invalid_argument, not_found}
use facet_os.Initrd.Path.{slash, resolve_path, is_absolute, skip_slashes, name, after_name}
use facet_os.Initrd.Image.{Entry}
use facet_os.Initrd.Access.{find_entry, open_node, leading_slashes}
use facet_os.Initrd.Access.Modes.{may_execute, class_bit, any_bit}
use facet_os.Initrd.Access.Execute.{
  granted_if, prefixes, ancestors, after_first, prefixes_round, remaining,
}
use facet_os.FileView.{
  CredentialFileStore, search_directory, search_prefixes, check_search, check_access, mode_allows,
}

-- the whole path, if something stands behind the bytes before
abbrev pub target : Bool → Bytes → Bytes → List Bytes
target include before [] = []
target include before (c ∷ rest) = if include then (before ++ c ∷ rest) ∷ [] else []

-- the directories of a path: the root, those on the way, and the path itself if it is asked for
abbrev pub directories_of : Bytes → Bool → List Bytes
directories_of [] include = []
directories_of (c ∷ rest) include =
    (slash ∷ []) ∷ ancestors (c ∷ rest) ++ target include (c ∷ []) rest

-- The path resolves to a directory of the image, and its mode lets the user search it.
abbrev pub searchable : CredentialFileStore → Bytes → Result (Unit {0})
searchable store path = elim (resolve_path (slash ∷ []) path) [
  | err f ↦ err f
  | ok (resolved, requires_directory) ↦ elim (find_entry store.entries resolved true) [
    | none ↦ err not_found
    | some e ↦ granted_if (may_execute e.mode e.uid e.gid store.uid store.gid store.admin)
  ]
]

-- each directory may be searched; the first that may not gives its fault
abbrev pub search_all : CredentialFileStore → List Bytes → Result (Unit {0})
search_all store [] = ok tt
search_all store (p ∷ ps) = elim (searchable store p) [ err f ↦ err f | ok _ ↦ search_all store ps ]

mode_allows-may_execute :
    (mode owner group uid gid : ℕ) (admin : Bool)
    → mode_allows mode owner group uid gid admin 1 ≡ may_execute mode owner group uid gid admin
unfolding mode_allows
mode_allows-may_execute mode owner group uid gid admin = elim (Bool-cases (admin || uid == 0)) [
  | inl root ↦ rw root (any_bit mode)
  | inr user ↦ elim (Bool-cases (uid == owner)) [
    | inl owns ↦ rw (user, owns) (class_bit (mode / 64))
    | inr not_owner ↦ elim (Bool-cases (gid == group)) [
      | inl member ↦ rw (user, not_owner, member) (class_bit (mode / 8))
      | inr other ↦ rw (user, not_owner, other) (class_bit mode)
    ]
  ]
]

search_directory-searchable :
    (store : CredentialFileStore) (path : Bytes)
    → search_directory store path ≡ searchable store path
unfolding open_node check_access
search_directory-searchable store path = by_path (resolve_path (slash ∷ []) path)
  where
    found : Result Entry → Result (Unit {0})
    found r = elim r [ err f ↦ err f | ok e ↦ check_access store e 1 ]

    by_entry :
        (o : Option Entry)
        → found (elim o [ none ↦ err not_found | some e ↦ ok e ]) ≡ elim o [
          | none ↦ err not_found
          | some e ↦ granted_if (may_execute e.mode e.uid e.gid store.uid store.gid store.admin)
        ]
    by_entry none = refl
    by_entry (some e) =
        ap granted_if (mode_allows-may_execute e.mode e.uid e.gid store.uid store.gid store.admin)

    by_path :
        (r : Result (Bytes × Bool))
        → found (elim r [
          | err f ↦ err f
          | ok (resolved, requires) ↦
              if requires && not true
              then err not_found
              else elim (find_entry store.entries resolved true) [
                | none ↦ err not_found
                | some e ↦ ok e
              ]
        ])
          ≡ elim r [
            | err f ↦ err f
            | ok (resolved, requires) ↦ elim (find_entry store.entries resolved true) [
              | none ↦ err not_found
              | some e ↦ granted_if (may_execute e.mode e.uid e.gid store.uid store.gid store.admin)
            ]
          ]
    by_path (err f) = refl
    by_path (ok (resolved, true)) = by_entry (find_entry store.entries resolved true)
    by_path (ok (resolved, false)) = by_entry (find_entry store.entries resolved true)

slashes-name : (p : Bytes) → leading_slashes p ++ skip_slashes p ≡ p
slashes-name [] = refl
slashes-name (c ∷ p) = elim (Bool-cases (c == slash)) [
  | inl e ↦ rw e (ap (λ (q : Bytes). c ∷ q) (slashes-name p))
  | inr e ↦ rw e refl
]

name-after_name : (p : Bytes) → name p ++ after_name p ≡ p
name-after_name [] = refl
name-after_name (c ∷ p) = elim (Bool-cases (c == slash)) [
  | inl e ↦ rw e refl
  | inr e ↦ rw e (ap (λ (q : Bytes). c ∷ q) (name-after_name p))
]

pieces :
    (before p : Bytes)
    → (before ++ leading_slashes p ++ name (skip_slashes p)) ++ after_name (skip_slashes p)
      ≡ before ++ p
pieces before p =
    append_assoc (before ++ leading_slashes p) (name (skip_slashes p)) (after_name (skip_slashes p))
    ∙ ap (λ (q : Bytes). before ++ leading_slashes p ++ q) (name-after_name (skip_slashes p))
    ∙ append_assoc before (leading_slashes p) (skip_slashes p)
    ∙ ap (λ (q : Bytes). before ++ q) (slashes-name p)

chained :
    {a b x y : Result (Unit {0})}
    → a ≡ b
    → x ≡ y
    → elim a [ err f ↦ err f | ok _ ↦ x ] ≡ elim b [ err f ↦ err f | ok _ ↦ y ]
chained p q = ap₂ (λ (r s : Result (Unit {0})). elim r [ err f ↦ err f | ok _ ↦ s ]) p q

module _ (store : CredentialFileStore) (include : Bool) where
  search_prefixes-search_all :
      (fuel : ℕ) (before rest : Bytes)
      → length rest ≤ fuel
      → search_prefixes fuel store include before rest
        ≡ search_all store (prefixes true before rest ++ target include before rest)
  unfolding search_prefixes
  search_prefixes-search_all zero before [] h = refl
  search_prefixes-search_all zero before (c ∷ rest) h = absurd (omega arith)
  search_prefixes-search_all (suc fuel) before [] h = refl
  search_prefixes-search_all (suc fuel) before (c ∷ rest) h =
      rw (prefixes_round before (c ∷ rest), sym (pieces before (c ∷ rest)))
        (behind (after_name (skip_slashes (c ∷ rest))) (
          search_prefixes-search_all fuel prefix (after_name (skip_slashes (c ∷ rest)))
            (remaining (c ∷ rest) h)))
    where
      prefix : Bytes
      prefix = before ++ leading_slashes (c ∷ rest) ++ name (skip_slashes (c ∷ rest))

      last :
          (b : Bool)
          → (if b then search_directory store prefix else ok tt)
            ≡ search_all store (if b then (prefix ++ []) ∷ [] else [])
      last true =
          rw (append-nil prefix, search_directory-searchable store prefix)
            (one (searchable store prefix))
        where
          one : (r : Result (Unit {0})) → r ≡ elim r [ err f ↦ err f | ok _ ↦ ok tt ]
          one (ok u) = refl
          one (err f) = refl
      last false = refl

      behind :
          (l : Bytes)
          → search_prefixes fuel store include prefix l
            ≡ search_all store (prefixes true prefix l ++ target include prefix l)
          → elim l [
            | [] ↦ if include then search_directory store prefix else ok tt
            | d ∷ r ↦ elim (search_directory store prefix) [
              | err f ↦ err f
              | ok _ ↦ search_prefixes fuel store include prefix (d ∷ r)
            ]
          ]
            ≡ search_all store
                (after_first prefix l ++ (if include then (prefix ++ l) ∷ [] else []))
      behind [] ih = last include
      behind (d ∷ r) ih = chained (search_directory-searchable store prefix) ih

-- Searching succeeds exactly if the path is absolute and the root, every directory on the way and,
-- if it is asked for, the target resolve to directories of the image that the user may search; the
-- first that fails gives the fault. To search a directory, an administrator and user 0 need an
-- execute bit of any class, others that of their class.
pub check_search-search_all :
    (store : CredentialFileStore) (path : Bytes) (include : Bool)
    → check_search store path include ≡ (
        if is_absolute path
        then search_all store (directories_of path include)
        else err invalid_argument)
unfolding check_search
check_search-search_all store [] include = refl
check_search-search_all store (c ∷ rest) include =
    ap (λ (x : Result (Unit {0})). if c == slash then x else err invalid_argument)
      (chained (search_directory-searchable store (slash ∷ []))
        (search_prefixes-search_all store include (suc (length rest)) (c ∷ []) rest (omega arith)))
