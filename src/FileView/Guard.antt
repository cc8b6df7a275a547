-- ===== src/FileView/Guard.antt =====
-- src/dominit0/file_view.c: opening and reading.
use facet_os.Prelude.{
  ℕ, ◌-◌, min, ◌≡◌, refl, sym, subst, ◌∙◌, ◌⊎◌, inl, inr, Bool, true, false, ◌&&◌, Option, none,
  some, List, [], ◌∷◌, ◌==◌, leb, if◌then◌else◌, length, Bytes, take, drop, bytes_equal_iff,
}
use facet_os.Prelude.Monad.{Result, ok, err, invalid_argument, access_denied}
use facet_os.Initrd.Path.{slash, is_absolute}
use facet_os.Initrd.Image.{Entry, c_string}
use facet_os.Initrd.Access.{same_kind, open_node, node_read}
use facet_os.FileView.{
  SyntheticNode, synthetic_none, CredentialNode, CredentialFileStore, synthetic_contents,
  synthetic_for_path, mode_allows, check_search, path_of, same_path, find_node, wrap_node,
  is_synthetic, store_open, is_shadow,
}
use facet_os.FileView.Search.{directories_of, search_all, check_search-search_all}

-- The node reads a file of the domain, for an administrator if it is the one with the passwords,
-- or a file of the image whose mode bits let the user read it.
abbrev pub Readable : CredentialFileStore → CredentialNode → ℕ → ℕ → Bytes → Type 0
Readable store node offset maximum bytes =
    ((contents : Bytes) × (synthetic_contents store node.synthetic ≡ some contents)
      × (is_shadow node.synthetic ≡ true → store.admin ≡ true)
      × (leb (length contents) offset ≡ true → bytes ≡ [])
      × (leb (length contents) offset ≡ false
          → bytes ≡ take (min (length contents - offset) maximum) (drop offset contents)))
    ⊎ ((e : Entry) × (node.backing ≡ some e)
        × (mode_allows e.mode e.uid e.gid store.uid store.gid store.admin 4 ≡ true)
        × (node_read e offset maximum ≡ ok bytes))

abbrev granted : Bool → Result (Unit {0})
granted b = if b then ok tt else err access_denied

ok_eq : {A : Type 0} {x y : A} → ok x ≡ ok y → y ≡ x
ok_eq h = cc

-- The node that was opened is the file of the domain that the path names, or a node of the image
-- that the path leads to, the directories of its own path being open to a search.
abbrev pub Opened : CredentialFileStore → Bytes → Bool → CredentialNode → Type 0
Opened store path directory node =
    ((is_synthetic (synthetic_for_path (c_string path) directory) ≡ true)
      × (path_of node.synthetic node.backing
          ≡ path_of (synthetic_for_path (c_string path) directory) none))
    ⊎ ((e : Entry) × (open_node store.entries (slash ∷ []) path directory ≡ ok e)
        × (is_absolute e.path ≡ true)
        × (search_all store (directories_of e.path directory) ≡ ok tt)
        × (path_of node.synthetic node.backing ≡ some e.path))

same_path-eq : (p q : Option Bytes) → same_path p q ≡ true → q ≡ p
same_path-eq none q h = cc
same_path-eq (some p) none h = cc
same_path-eq (some p) (some q) h = lift ((bytes_equal_iff p q).0 h)
  where
    lift : {x y : Bytes} → x ≡ y → some y ≡ some x
    lift e = cc

find_node-path :
    (path : Option Bytes) (directory : Bool) (ns : List CredentialNode) (n : CredentialNode)
    → find_node path directory ns ≡ some n
    → path_of n.synthetic n.backing ≡ path
unfolding find_node
find_node-path path directory [] n h = cc
find_node-path path directory (m ∷ ms) n h =
    by_test (same_kind m.directory directory) (same_path path (path_of m.synthetic m.backing)) refl
      (find_node-path path directory ms n) h
  where
    some_eq : {x y : CredentialNode} → some x ≡ some y → x ≡ y
    some_eq h = cc

    by_test :
        (a b : Bool)
        → same_path path (path_of m.synthetic m.backing) ≡ b
        → (find_node path directory ms ≡ some n → path_of n.synthetic n.backing ≡ path)
        → (if a && b then some m else find_node path directory ms) ≡ some n
        → path_of n.synthetic n.backing ≡ path
    by_test true true q k h =
        subst (λ (x : CredentialNode). path_of x.synthetic x.backing ≡ path) (some_eq h)
          (same_path-eq path (path_of m.synthetic m.backing) q)
    by_test true false q k h = k h
    by_test false b q k h = k h

wrap_node-path :
    (store : CredentialFileStore) (backing : Option Entry) (synthetic : SyntheticNode)
    (directory : Bool)
    → path_of
        (wrap_node store backing synthetic directory).0.synthetic
        (wrap_node store backing synthetic directory).0.backing
      ≡ path_of synthetic backing
unfolding wrap_node
wrap_node-path store backing synthetic directory =
    by_found (find_node (path_of synthetic backing) directory store.nodes) refl
  where
    fresh : CredentialNode
    fresh = record { backing = backing; synthetic = synthetic; directory = directory }

    given : Option CredentialNode → CredentialNode × CredentialFileStore
    given o = elim o [
      | some n ↦ (n, store)
      | none ↦ (fresh, record store { nodes = fresh ∷ store.nodes })
    ]

    by_found :
        (o : Option CredentialNode)
        → find_node (path_of synthetic backing) directory store.nodes ≡ o
        → path_of (given o).0.synthetic (given o).0.backing ≡ path_of synthetic backing
    by_found none q = refl
    by_found (some n) q = find_node-path (path_of synthetic backing) directory store.nodes n q

check_search-all :
    (store : CredentialFileStore) (path : Bytes) (directory : Bool)
    → check_search store path directory ≡ ok tt
    → (is_absolute path ≡ true) × (search_all store (directories_of path directory) ≡ ok tt)
check_search-all store path directory h =
    by_test (is_absolute path) (search_all store (directories_of path directory))
      (sym (check_search-search_all store path directory) ∙ h)
  where
    by_test :
        (b : Bool) (r : Result (Unit {0}))
        → (if b then r else err invalid_argument) ≡ ok tt
        → (b ≡ true) × (r ≡ ok tt)
    by_test true r h = (refl, h)
    by_test false r h = cc

-- A node that opening gives has the path of the file of the domain that the path names, or
-- the path of a file or directory of the image that the path leads to, and then the user may search
-- the root and each directory on the way to it, and a directory itself too.
pub store_open-Opened :
    (store store' : CredentialFileStore) (path : Bytes) (directory : Bool) (node : CredentialNode)
    → store_open store path directory ≡ ok (node, store')
    → Opened store path directory node
unfolding store_open
store_open-Opened store store' path directory node h = by_length (length path == 0) h
  where
    Outcome : Type 0
    Outcome = Result (CredentialNode × CredentialFileStore)

    wanted : SyntheticNode
    wanted = synthetic_for_path (c_string path) directory

    same_node :
        (backing : Option Entry) (s : SyntheticNode)
        → ok (wrap_node store backing s directory) ≡ ok (node, store')
        → path_of node.synthetic node.backing ≡ path_of s backing
    same_node backing s h =
        subst
          (λ (x : CredentialNode × CredentialFileStore).
            path_of x.0.synthetic x.0.backing ≡ path_of s backing)
          (sym (ok_eq h)) (wrap_node-path store backing s directory)

    by_search :
        (e : Entry) (r : Result (Unit {0}))
        → check_search store e.path directory ≡ r
        → elim r [ err f ↦ err f | ok _ ↦ ok (wrap_node store (some e) synthetic_none directory) ]
          ≡ ok (node, store')
        → (check_search store e.path directory ≡ ok tt)
          × (path_of node.synthetic node.backing ≡ some e.path)
    by_search e (ok u) q h = (q, same_node (some e) synthetic_none h)
    by_search e (err f) q h = cc

    searched : Entry → Outcome
    searched e = elim (check_search store e.path directory) [
      | err f ↦ err f
      | ok _ ↦ ok (wrap_node store (some e) synthetic_none directory)
    ]

    by_entry :
        (r : Result Entry)
        → open_node store.entries (slash ∷ []) path directory ≡ r
        → elim r [ err f ↦ err f | ok e ↦ searched e ] ≡ ok (node, store')
        → Opened store path directory node
    by_entry (err f) q h = cc
    by_entry (ok e) q h =
        let (a, b) = by_search e (check_search store e.path directory) refl h in
        let (c, d) = check_search-all store e.path directory a in inr (e, q, c, d, b)

    from_image : Outcome
    from_image = elim (open_node store.entries (slash ∷ []) path directory) [
      | err f ↦ err f
      | ok e ↦ searched e
    ]

    by_synthetic :
        (b : Bool)
        → is_synthetic wanted ≡ b
        → (if b then ok (wrap_node store none wanted directory) else from_image) ≡ ok (node, store')
        → Opened store path directory node
    by_synthetic true q h = inl (q, same_node none wanted h)
    by_synthetic false q h = by_entry (open_node store.entries (slash ∷ []) path directory) refl h

    by_length :
        (b : Bool)
        → (if b
            then err invalid_argument
            else if is_synthetic wanted
            then ok (wrap_node store none wanted directory)
            else from_image)
          ≡ ok (node, store')
        → Opened store path directory node
    by_length true h = cc
    by_length false h = by_synthetic (is_synthetic wanted) refl h
