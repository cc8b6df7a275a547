-- ===== src/Klog/Tests.antt =====
-- Runs of the log, and the laws at them.
use facet_os.Prelude.{
  ℕ, ◌≡◌, refl, true, false, none, some, List, [], ◌∷◌, ◌++◌, arith, ◌==◌, if◌then◌else◌, replicate,
  Bytes,
}
use facet_os.Klog.Format.{word, text, uint_digits, vprintf}
use facet_os.Klog.Store.{Prod, Services, prod_store}
use facet_os.Klog.Store.Laws.{Stored, prod_store-Stored}
use facet_os.Klog.Emit.{Log, klog}
use facet_os.Klog.Emit.Laws.{Kept, klog-Kept}
use facet_os.Klog.Setup.{Configured, Binding, init_early, init_postboot, empty_early}
use facet_os.Klog.Setup.Laws.{SetUp, init_postboot-SetUp}

-- `a%u%%%s` with 42 and a null pointer
vprintf_run :
    vprintf (b'a' ∷ b'%' ∷ b'u' ∷ b'%' ∷ b'%' ∷ b'%' ∷ b's' ∷ []) (word 42 ∷ text none ∷ [])
    ≡ b'a' ∷ b'4' ∷ b'2' ∷ b'%' ∷ b'(' ∷ b'n' ∷ b'u' ∷ b'l' ∷ b'l' ∷ b')' ∷ []
unfolding vprintf uint_digits
vprintf_run = refl

-- What sink 0 is given is kept, and any other sink fails.
abbrev recording : Services Bytes ℕ
recording = record {
  emit = λ s k d. if k == 0 then (true, s ++ d) else (false, s);
  kmalloc_is_in_progress = λ s. false;
  krealloc = λ s n. some s;
  kmalloc = λ s n. some s;
}

-- a buffer of four bytes with three in it
abbrev nearly_full : Prod
nearly_full = record { kept = replicate 3 b'a'; size = 4; terminator = 3 }

prod_store-Stored_example :
    Stored recording [] nearly_full (b'\n' ∷ []) (prod_store recording [] nearly_full (b'\n' ∷ []))
prod_store-Stored_example = prod_store-Stored recording [] nearly_full (b'\n' ∷ []) (omega arith)

-- A piece of one byte puts the byte 0 at index 4.
one_byte :
    prod_store recording [] nearly_full (b'\n' ∷ [])
    ≡ some ([], record { kept = b'a' ∷ b'a' ∷ b'a' ∷ b'\n' ∷ []; size = 4; terminator = 4 })
unfolding prod_store
one_byte = refl

abbrev started : Log Bytes ℕ
started = init_early (λ k. true) [] (some 0)

klog-Kept_example :
    (l' : Log Bytes ℕ) × (klog recording ◌==◌ 1 (b'h' ∷ b'%' ∷ b'd' ∷ []) (word 7 ∷ []) started
      ≡ some l')
    × Kept recording ◌==◌ started.routes ([] ++ vprintf (b'h' ∷ b'%' ∷ b'd' ∷ []) (word 7 ∷ [])) l'
    × (l'.in_progress ≡ false)
klog-Kept_example =
    klog-Kept recording ◌==◌ 1 (b'h' ∷ b'%' ∷ b'd' ∷ []) (word 7 ∷ []) started empty_early []
      (omega arith) (unfold init_early in refl) (unfold init_early in refl) (refl, refl)

abbrev serial : List Configured
serial = record { name = b's' ∷ []; level = 40 } ∷ []

abbrev bound : List (Binding ℕ)
bound = record { name = b's' ∷ []; sink = some 3 } ∷ record { name = b'v' ∷ []; sink = none } ∷ []

init_postboot-SetUp_example :
    SetUp recording ◌==◌
      (some serial)
      bound
      started
      (init_postboot recording ◌==◌ (some serial) bound started)
init_postboot-SetUp_example = init_postboot-SetUp recording ◌==◌ (some serial) bound started

-- a piece of two bytes, which grows the buffer, and the same while the allocator is at work
abbrev busy : Services Bytes ℕ
busy = record recording { kmalloc_is_in_progress = λ s. true }

grown :
    prod_store recording [] nearly_full (b'b' ∷ b'\n' ∷ [])
    ≡ some ([], record { kept = b'a' ∷ b'a' ∷ b'a' ∷ b'b' ∷ b'\n' ∷ []; size = 6; terminator = 5 })
unfolding prod_store
grown = refl

not_grown : prod_store busy [] nearly_full (b'b' ∷ b'\n' ∷ []) ≡ some ([], nearly_full)
unfolding prod_store
not_grown = refl
