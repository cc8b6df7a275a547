-- ===== src/Initrd/Tests.antt =====
-- Runs of the files, and the laws at them.
use facet_os.Prelude.{
  ℕ, ◌≡◌, refl, true, false, not, ◌||◌, List, [], ◌∷◌, ◌++◌, arith, ltb, if◌then◌else◌, length,
  replicate, Bytes,
}
use facet_os.Prelude.Monad.{ok, err}
use facet_os.Prelude.Monad.{invalid_argument, access_denied}
use facet_os.Initrd.Path.{slash, dot, path_max, resolve_path, is_absolute}
use facet_os.Initrd.Path.Names.{Names, AllNames, text, split, run_steps}
use facet_os.Initrd.Path.Stack.{resolved, is_refused, resolve_path-run_steps}
use facet_os.Initrd.Image.{loaded, Entry, root, create, canonical_path, hex_field}
use facet_os.Initrd.Image.Entries.{Reads, create-Reads}
use facet_os.Initrd.Access.{
  check_execute, check_prefixes, check_directory, check_file, find_entry, lookup, entry_allows,
}
use facet_os.Initrd.Access.Execute.{check_way, check_execute-check_way}
use facet_os.Initrd.Listing.{directory_list, immediate_child}
use facet_os.Initrd.Listing.Pages.{children, shown, directory_list-shown}

-- `bin`, `/bin` and `/bin/sh`
abbrev bin : Bytes
bin = b'b' ∷ b'i' ∷ b'n' ∷ []

abbrev bin_path : Bytes
bin_path = slash ∷ bin

abbrev shell_path : Bytes
shell_path = bin_path ++ slash ∷ b's' ∷ b'h' ∷ []

abbrev bin_entry : Entry
bin_entry = record {
  path = bin_path;
  content = [];
  size = 0;
  directory = true;
  mode = 0o040755;
  uid = 0;
  gid = 0;
}

abbrev shell_entry : Entry
shell_entry = record {
  path = shell_path;
  content = b'#' ∷ b'!' ∷ [];
  size = 2;
  directory = false;
  mode = 0o100755;
  uid = 0;
  gid = 0;
}

abbrev files : List Entry
files = root ∷ bin_entry ∷ shell_entry ∷ []

abbrev in_bin : Names
in_bin = bin ∷ []

in_bin-AllNames : AllNames in_bin
in_bin-AllNames =
    (record { filled = omega arith; plain = refl; not_dot = refl; not_dot_dot = refl }, tt)

-- `.././bin//sh`
abbrev crooked : Bytes
crooked = dot ∷ dot ∷ slash ∷ dot ∷ slash ∷ b'b' ∷ b'i' ∷ b'n' ∷ slash ∷ slash ∷ b's' ∷ b'h' ∷ []

resolve_path-run_steps_example : resolve_path (text in_bin) crooked ≡ (
    if is_refused crooked
    then err invalid_argument
    else resolved crooked (run_steps (if is_absolute crooked then [] else in_bin) (split crooked)))
resolve_path-run_steps_example = resolve_path-run_steps in_bin crooked in_bin-AllNames (omega arith)

-- The header of a member with this mode, size and size of its name, each as eight digits.
abbrev zeros : Bytes
zeros = replicate 8 b'0'

abbrev header : Bytes → Bytes → Bytes → Bytes
header mode size name_size =
    b'0' ∷ b'7' ∷ b'0' ∷ b'7' ∷ b'0' ∷ b'1' ∷ zeros
    ++ mode
    ++ zeros
    ++ zeros
    ++ zeros
    ++ zeros
    ++ size
    ++ zeros
    ++ zeros
    ++ zeros
    ++ zeros
    ++ name_size
    ++ zeros

abbrev digits_of : ℕ → ℕ → Bytes
digits_of high low = replicate 6 b'0' ++ high ∷ low ∷ []

-- the mode of a regular file, 0o100644
abbrev file_mode : Bytes
file_mode = replicate 4 b'0' ++ b'8' ∷ b'1' ∷ b'A' ∷ b'4' ∷ []

-- an image with a file `a` that holds one byte, and the trailer
abbrev image : Bytes
image =
    header file_mode (digits_of b'0' b'1') (digits_of b'0' b'2')
    ++ b'a' ∷ 0 ∷ b'x' ∷ 0 ∷ 0 ∷ 0 ∷ header zeros zeros (digits_of b'0' b'b')
    ++ b'T' ∷ b'R' ∷ b'A' ∷ b'I' ∷ b'L' ∷ b'E' ∷ b'R' ∷ b'!' ∷ b'!' ∷ b'!' ∷ replicate 4 0

abbrev file_a : Entry
file_a = record {
  path = slash ∷ b'a' ∷ [];
  content = b'x' ∷ [];
  size = 1;
  directory = false;
  mode = 0o100644;
  uid = 0;
  gid = 0;
}

create_run : create image ≡ loaded (root ∷ file_a ∷ [])
unfolding create hex_field canonical_path
create_run = refl

create-Reads_example : Reads image (create image)
create-Reads_example = create-Reads image

check_execute-check_way_example : check_execute files shell_path 1000 1000 false ≡ (
    if not (is_absolute shell_path) || ltb path_max (length shell_path)
    then err invalid_argument
    else check_way files 1000 1000 false shell_path)
check_execute-check_way_example = check_execute-check_way files 1000 1000 false shell_path

-- the shell without execute bits, and in a directory that others may not search
abbrev locked : List Entry
locked = root ∷ bin_entry ∷ record shell_entry { mode = 0o100644 } ∷ []

abbrev hidden : List Entry
hidden = root ∷ record bin_entry { mode = 0o040750 } ∷ shell_entry ∷ []

shell_executes : check_execute files shell_path 1000 1000 false ≡ ok tt
unfolding check_execute check_prefixes check_directory check_file find_entry lookup entry_allows
shell_executes = refl

locked_refused : check_execute locked shell_path 0 0 true ≡ err access_denied
unfolding check_execute check_prefixes check_directory check_file find_entry lookup entry_allows
locked_refused = refl

hidden_refused : check_execute hidden shell_path 1000 1000 false ≡ err access_denied
unfolding check_execute check_prefixes check_directory check_file find_entry lookup entry_allows
hidden_refused = refl

directory_list-shown_example : directory_list files bin_path 0 8 ≡ (
    if ltb (length files) 0 then err invalid_argument else ok (shown (children bin_path files) 0 8))
directory_list-shown_example = directory_list-shown files bin_path 0 8

-- what is listed there
directory_list_run :
    directory_list files bin_path 0 8 ≡ ok ((b's' ∷ b'h' ∷ [], false) ∷ [], 1, true)
unfolding directory_list immediate_child
directory_list_run = refl
