-- ===== src/FileView/Tests.antt =====
-- A view of an image with a directory and a file, and the laws at it.
use facet_os.Prelude.{◌≡◌, refl, true, false, none, some, [], ◌∷◌, codes}
use facet_os.Prelude.Monad.{ok, err, access_denied}
use facet_os.Initrd.Path.{resolve_path, walk, enter, push, requires_directory}
use facet_os.Initrd.Image.{Entry, root, c_string}
use facet_os.Initrd.Access.{lookup, find_entry, open_node, node_metadata}
use facet_os.FileView.{
  CredentialNode, CredentialFileStore, synthetic_none, synthetic_shadow, synthetic_for_path,
  mode_allows, check_access, search_prefixes, check_search, find_node, wrap_node, store_open,
  file_read,
}
use facet_os.FileView.Search.{directories_of, search_all, check_search-search_all}
use facet_os.FileView.Guard.{Opened, store_open-Opened}

abbrev private_directory : Entry
private_directory = record {
  path = codes "/a";
  content = [];
  size = 0;
  directory = true;
  mode = 0o040700;
  uid = 1000;
  gid = 1000;
}

abbrev note : Entry
note = record {
  path = codes "/a/n";
  content = codes "hello";
  size = 5;
  directory = false;
  mode = 0o100644;
  uid = 1000;
  gid = 1000;
}

abbrev note_node : CredentialNode
note_node = record { backing = some note; synthetic = synthetic_none; directory = false }

abbrev shadow_node : CredentialNode
shadow_node = record { backing = none; synthetic = synthetic_shadow; directory = false }

abbrev owner_view : CredentialFileStore
owner_view = record {
  entries = root ∷ private_directory ∷ note ∷ [];
  uid = 1000;
  gid = 1000;
  admin = false;
  virtual_passwd = codes "p";
  virtual_shadow = codes "s";
  nodes = [];
}

abbrev opened_view : CredentialFileStore
opened_view = record owner_view { nodes = note_node ∷ [] }

abbrev other_view : CredentialFileStore
other_view = record owner_view { uid = 1001; gid = 1001 }

note_opened : store_open owner_view (codes "/a/./n") false ≡ ok (note_node, opened_view)
unfolding store_open open_node resolve_path find_entry check_search check_access search_prefixes
    synthetic_for_path c_string walk enter push requires_directory lookup mode_allows wrap_node
    find_node node_metadata
note_opened = refl

other_stopped : store_open other_view (codes "/a/n") false ≡ err access_denied
unfolding store_open open_node resolve_path find_entry check_search check_access search_prefixes
    synthetic_for_path c_string walk enter push requires_directory lookup mode_allows wrap_node
    find_node node_metadata
other_stopped = refl

shadow_refused : file_read owner_view shadow_node 0 8 ≡ err access_denied
unfolding file_read
shadow_refused = refl

check_search-search_all_example :
    check_search other_view (codes "/a/n") false
    ≡ search_all other_view (directories_of (codes "/a/n") false)
check_search-search_all_example = check_search-search_all other_view (codes "/a/n") false

store_open-Opened_example : Opened owner_view (codes "/a/./n") false note_node
store_open-Opened_example =
    store_open-Opened owner_view opened_view (codes "/a/./n") false note_node note_opened
