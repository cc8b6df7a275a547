-- ===== src/Lib.antt =====
-- FacetOS: a model of parts of the system, and theorems about them.
--
-- dominit0 is the first domain that the kernel starts. It allocates from a bootstrap heap
-- (src/dominit0/kmalloc.c) until liballoc has pages, writes a log (src/dominit0/klog.c), and
-- serves files from a CPIO image (src/dominit0/initrd.c). It reads the configuration of the system
-- (src/config.c), checks passwords and keeps sessions for the domains that the configuration names
-- (src/dominit0/auth.c), and gives each domain an environment that leads names to objects
-- (src/dominit0/environment.c). It shows the files to each user as far as their modes allow
-- (src/dominit0/file_view.c). A seat (src/seat) shows the terminals of the users. The
-- configuration parser (src/config.c) and the interfaces check text with include/facetos/utf8.h.
--
-- The files:
--   Prelude              shared names, tests on numbers, lists and byte strings, results
--   Utf8                 include/facetos/utf8.h and append_utf8 of src/config.c
--   Utf8/Validate        utf8_validate of src/config.c
--   Seat/Screen          src/seat/pc_console.c, one screen
--   Seat/Console         src/seat/pc_console.c, the terminals
--   Seat/Cursor          src/seat/pc_cursor.c
--   Kmalloc              src/dominit0/kmalloc.c, the bootstrap heap
--   Kmalloc/Calls        src/dominit0/kmalloc.c, the entry points
--   Initrd/Image         src/dominit0/initrd.c, facet_initrd_create
--   Initrd/Path          src/dominit0/initrd.c, resolve_path
--   Initrd/Access        src/dominit0/initrd.c, nodes and facet_initrd_check_execute
--   Initrd/Listing       src/dominit0/initrd.c, directory_list
--   Klog/Format          src/dominit0/klog.c, klog_vprintf
--   Klog/Store           src/dominit0/klog.c, the early buffer and the one on the heap
--   Klog/Emit            src/dominit0/klog.c, the buffer of a message, the routes, klog
--   Klog/Setup           src/dominit0/klog.c, klog_init_early and klog_init_postboot
--   Klock                src/dominit0/klock.c
--   Libc                 src/libc/common: memory.c, string.c, format.c, runtime.c, auxv.c
--   Config               src/config.c, the lexical level: places, strings, keys, integers
--   Config/Values        src/config.c, values, arrays and inline tables
--   Config/Schema        src/config.c, the keys of the tables and what they may hold
--   Config/Lines         src/config.c, table headers, pairs and the lines of a document
--   Config/Validation    src/config.c, the checks of a whole document and its references
--   Config/Document      src/config.c, facet_config_parse and the configuration built in
--   Auth                 src/dominit0/auth.c
--   FileView             src/dominit0/file_view.c, the checks, opening and reading
--   Environment          src/dominit0/environment.c, the names of a domain's objects
--
-- The functions have the names of the source, without its prefixes. The theorems stand in the
-- modules below those of the definitions, and Tests modules hold runs and examples.
--
-- A byte is a number, a string or a buffer a list of them. State is a record that an operation
-- takes and gives back; a call that may fail gives an Option or a Result. Where a sum may wrap,
-- the wrap is written out. Code outside the repository's C files or below the parts modelled is a
-- parameter: liballoc (Liballoc), the ports of the cursor (CursorIo), the display, the services
-- that the log calls (Services), crypt, what an object of another process answers, and the
-- identifiers of interfaces (Iids). Allocation in the host functions of initrd.c and config.c is
-- taken to succeed, except where it is a parameter.
--
-- Loops over bytes that take several at once run on fuel, and the fuel is the number of bytes:
-- each round takes one at least. For the reader of images the theorem shows that the fuel is
-- enough; it is one more than the size of the image, and every round moves on by a header. Values
-- of the configuration nest, and run on four rounds for each byte and four more; the lines of a
-- document run on one more than its bytes. Theorems show that both are enough. The digits of a
-- number run on as much room as the source has for them: 64 in klog.c, 32 in format.c.
--
-- The lock is modelled alone, as steps of threads that interleave; elsewhere a call that finds the
-- lock taken waits, and otherwise runs to its end.
--
-- Not modelled: the texts of the diagnostics, the release of memory, directories of file views,
-- processes and their environment, terminals, the export of interfaces, the platform code for
-- seL4, start-up, the programs, the interface compiler, and liballoc, which is another project's.
pub mod Prelude
pub mod Utf8
pub mod Seat
pub mod Kmalloc
pub mod Initrd
pub mod Klog
pub mod Libc
pub mod Config
pub mod Klock
pub mod Auth
pub mod Environment
pub mod FileView
