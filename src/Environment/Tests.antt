-- ===== src/Environment/Tests.antt =====
-- An environment without a file store, and the laws at it.
use facet_os.Prelude.{◌≡◌, refl, none, some, [], ◌∷◌, codes, arith}
use facet_os.Prelude.Monad.{ok, err, invalid_handle}
use facet_os.Utf8.{is_valid}
use facet_os.Environment.{Environment, Iids, bind_named, bind_file_store, process_binding}
use facet_os.Environment.Bindings.{new_binding, with_extra}
use facet_os.Environment.Stable.{named, files, Steps, no_step, then_step, Steps-kept}
use facet_os.Environment.Resolve.{Leads, bind_named-Leads}

abbrev iids : Iids
iids = record { logger_iid = 1; page_allocator_iid = 2; domain_config_iid = 3; file_store_iid = 4 }

abbrev early : Environment
early = record {
  logger_handle = some 10;
  page_allocator_handle = none;
  domain_config_handle = some 12;
  file_store_handle = none;
  initrd = none;
  extra_bindings = [];
}

abbrev with_auth : Environment
with_auth = with_extra iids early (new_binding (codes "auth") 7 70 ∷ [])

abbrev with_files : Environment
with_files = record with_auth { initrd = some 99; file_store_handle = some 13 }

auth_bound : bind_named iids early (codes "auth") 7 (some 70) ≡ some with_auth
unfolding bind_named is_valid
auth_bound = refl

-- a fixed name without a handle can be bound, and is not found
shadowed :
    process_binding iids
      (with_extra iids early (new_binding (codes "files") 7 70 ∷ []))
      (some (codes "files"))
    ≡ err invalid_handle
unfolding process_binding is_valid
shadowed = refl

early-Steps : Steps iids early with_files
unfolding bind_file_store
early-Steps =
    then_step (then_step no_step (named (codes "auth") 7 (some 70) auth_bound))
      (files (some 99) (some 13) refl)

logger_found : process_binding iids early (some (codes "logger")) ≡ ok (1, 10)
unfolding process_binding is_valid
logger_found = refl

Steps-kept_example : process_binding iids with_files (some (codes "logger")) ≡ ok (1, 10)
Steps-kept_example = Steps-kept iids (codes "logger") (1, 10) early-Steps logger_found

bind_named-Leads_example :
    Leads (codes "auth") 7 70 (process_binding iids with_auth (some (codes "auth")))
bind_named-Leads_example =
    bind_named-Leads iids early with_auth (codes "auth") 7 70 (omega arith, tt) auth_bound
