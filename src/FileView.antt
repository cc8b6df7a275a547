-- ===== src/FileView.antt =====
-- src/dominit0/file_view.c: the files of the image as one user may see them, with the files of
-- /posix/etc that the domain supplies. Pointers are not null, exporting and cloning of handles
-- succeed, and a node stands for its handle.
pub mod Search
pub mod Guard
mod Tests
use facet_os.Prelude.{
  ℕ, zero, suc, ◌+◌, ◌-◌, ◌/◌, ◌%◌, min, bit_and, Bool, true, false, not, ◌&&◌, ◌||◌, Option, none,
  some, List, [], ◌∷◌, ◌++◌, ltb, leb, ◌==◌, if◌then◌else◌, length, take, drop, Bytes, bytes_equal,
  codes,
}
use facet_os.Prelude.Monad.{Result, ok, err, invalid_argument, invalid_handle, access_denied}
use facet_os.Initrd.Path.{slash, is_absolute, skip_slashes, name, after_name}
use facet_os.Initrd.Image.{Entry, c_string}
use facet_os.Initrd.Access.{
  leading_slashes, same_kind, open_node, node_size, node_read, node_metadata,
}

-- `SyntheticNode`
pub data SyntheticNode : Type 0 where
  synthetic_none synthetic_etc_directory synthetic_passwd synthetic_shadow synthetic_fstab :
      SyntheticNode

pub record CredentialNode : Type 0 where
  pub backing : Option Entry
  pub synthetic : SyntheticNode
  pub directory : Bool

-- `Dominit0CredentialFileStore`, but for its handle, its references and its link
pub record CredentialFileStore : Type 0 where
  pub entries : List Entry
  pub uid : ℕ
  pub gid : ℕ
  pub admin : Bool
  pub virtual_passwd : Bytes
  pub virtual_shadow : Bytes
  pub nodes : List CredentialNode

abbrev pub default_fstab : Bytes
default_fstab = codes "initrd / initrd ro 0 0\n"

abbrev pub synthetic_path : SyntheticNode → Option Bytes
synthetic_path synthetic_none = none
synthetic_path synthetic_etc_directory = some (codes "/posix/etc")
synthetic_path synthetic_passwd = some (codes "/posix/etc/passwd")
synthetic_path synthetic_shadow = some (codes "/posix/etc/shadow")
synthetic_path synthetic_fstab = some (codes "/posix/etc/fstab")

abbrev pub synthetic_contents : CredentialFileStore → SyntheticNode → Option Bytes
synthetic_contents store synthetic_none = none
synthetic_contents store synthetic_etc_directory = none
synthetic_contents store synthetic_passwd = some store.virtual_passwd
synthetic_contents store synthetic_shadow = some store.virtual_shadow
synthetic_contents store synthetic_fstab = some default_fstab

unfoldable pub synthetic_for_path : Bytes → Bool → SyntheticNode
synthetic_for_path path directory =
    if directory && bytes_equal path (codes "/posix/etc")
    then synthetic_etc_directory
    else if not directory && bytes_equal path (codes "/posix/etc/passwd")
    then synthetic_passwd
    else if not directory && bytes_equal path (codes "/posix/etc/shadow")
    then synthetic_shadow
    else if not directory && bytes_equal path (codes "/posix/etc/fstab")
    then synthetic_fstab
    else synthetic_none

unfoldable pub mode_allows : ℕ → ℕ → ℕ → ℕ → ℕ → Bool → ℕ → Bool
mode_allows mode owner group uid gid admin requested =
    if admin || uid == 0
    then not (not (bit_and requested 1 == 0) && bit_and mode 0o111 == 0)
    else (let granted =
          if uid == owner then mode / 64 % 8 else if gid == group then mode / 8 % 8 else mode % 8 in
        bit_and granted requested == requested)

unfoldable pub check_access : CredentialFileStore → Entry → ℕ → Result (Unit {0})
unfolding node_metadata
check_access store node requested =
    let (mode, owner, group) = node_metadata node in
    if mode_allows mode owner group store.uid store.gid store.admin requested
    then ok tt
    else err access_denied

-- what `check_search` does at one prefix
abbrev pub search_directory : CredentialFileStore → Bytes → Result (Unit {0})
search_directory store prefix = elim (open_node store.entries (slash ∷ []) prefix true) [
  | err f ↦ err f
  | ok e ↦ check_access store e 1
]

-- The loop over `i`, with the bytes before `i` and those behind. Each round takes a byte at least.
pub search_prefixes : ℕ → CredentialFileStore → Bool → Bytes → Bytes → Result (Unit {0})
search_prefixes zero store include_target before rest = ok tt
search_prefixes (suc fuel) store include_target before [] = ok tt
search_prefixes (suc fuel) store include_target before (c ∷ rest) =
    let prefix = before ++ leading_slashes (c ∷ rest) ++ name (skip_slashes (c ∷ rest)) in
    elim (after_name (skip_slashes (c ∷ rest))) [
      | [] ↦ if include_target then search_directory store prefix else ok tt
      | d ∷ behind ↦ elim (search_directory store prefix) [
        | err f ↦ err f
        | ok _ ↦ search_prefixes fuel store include_target prefix (d ∷ behind)
      ]
    ]

unfoldable pub check_search : CredentialFileStore → Bytes → Bool → Result (Unit {0})
check_search store path include_target =
    if is_absolute path
    then elim (search_directory store (slash ∷ [])) [
      | err f ↦ err f
      | ok _ ↦ search_prefixes (length path) store include_target (take 1 path) (drop 1 path)
    ]
    else err invalid_argument

-- the path of a node, as `node_path` and `wrap_node` take it
abbrev pub path_of : SyntheticNode → Option Entry → Option Bytes
path_of synthetic_none none = none
path_of synthetic_none (some e) = some e.path
path_of s b = synthetic_path s

abbrev pub node_path : CredentialNode → Result Bytes
node_path node = elim (path_of node.synthetic node.backing) [
  | none ↦ err invalid_handle
  | some p ↦ ok p
]

abbrev pub same_path : Option Bytes → Option Bytes → Bool
same_path none q = false
same_path (some p) none = false
same_path (some p) (some q) = bytes_equal p q

-- the loop of `wrap_node` over the nodes that are there
pub find_node : Option Bytes → Bool → List CredentialNode → Option CredentialNode
find_node path directory [] = none
find_node path directory (n ∷ ns) =
    let rest = find_node path directory ns in
    if same_kind n.directory directory && same_path path (path_of n.synthetic n.backing)
    then some n
    else rest

unfoldable pub wrap_node :
    CredentialFileStore → Option Entry → SyntheticNode → Bool → CredentialNode × CredentialFileStore
wrap_node store backing synthetic directory =
    let node : CredentialNode = record {
      backing = backing;
      synthetic = synthetic;
      directory = directory;
    } in
    elim (find_node (path_of synthetic backing) directory store.nodes) [
      | some n ↦ (n, store)
      | none ↦ (node, record store { nodes = node ∷ store.nodes })
    ]

abbrev pub is_synthetic : SyntheticNode → Bool
is_synthetic synthetic_none = false
is_synthetic s = true

unfoldable pub store_open :
    CredentialFileStore → Bytes → Bool → Result (CredentialNode × CredentialFileStore)
store_open store path directory =
    let synthetic = synthetic_for_path (c_string path) directory in
    if length path == 0
    then err invalid_argument
    else if is_synthetic synthetic
    then ok (wrap_node store none synthetic directory)
    else elim (open_node store.entries (slash ∷ []) path directory) [
      | err f ↦ err f
      | ok opened ↦ elim (check_search store opened.path directory) [
        | err f ↦ err f
        | ok _ ↦ ok (wrap_node store (some opened) synthetic_none directory)
      ]
    ]

-- A node without contents of its own is backed; the fault of one that is not stands for a use of
-- the null pointer.
unfoldable pub file_size : CredentialFileStore → CredentialNode → Result ℕ
file_size store node = elim (synthetic_contents store node.synthetic) [
  | some contents ↦ ok (length contents)
  | none ↦ elim node.backing [ none ↦ err invalid_handle | some e ↦ node_size e ]
]

abbrev pub is_shadow : SyntheticNode → Bool
is_shadow synthetic_shadow = true
is_shadow s = false

unfoldable pub file_read : CredentialFileStore → CredentialNode → ℕ → ℕ → Result Bytes
file_read store node offset maximum = elim (synthetic_contents store node.synthetic) [
  | some contents ↦
      if is_shadow node.synthetic && not store.admin
      then err access_denied
      else if leb (length contents) offset
      then ok []
      else ok (take (min (length contents - offset) maximum) (drop offset contents))
  | none ↦ elim node.backing [
    | none ↦ err invalid_handle
    | some e ↦ elim (check_access store e 4) [ err f ↦ err f | ok _ ↦ node_read e offset maximum ]
  ]
]
