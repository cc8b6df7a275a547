-- ===== src/Config/Validation.antt =====
-- src/config.c: `validate_required`.
pub mod Definitions
pub mod Terminals
pub mod Domains
pub mod Apart
pub mod Exclusive
pub mod Facts
pub mod References
pub mod Accepted
pub mod Roots
pub mod Users
mod Tests
use facet_os.Prelude.{
  ℕ, zero, suc, ◌+◌, inl, inr, Bool, true, false, not, ◌&&◌, Option, none, some, List, [], ◌∷◌,
  ◌++◌, ltb, ◌==◌, if◌then◌else◌, length, Bytes,
}
use facet_os.Config.Cursor.{schema, unresolved_reference}
use facet_os.Config.Schema.Checks.{Checked, ◌>>=◌, fail_at, ensure}
use facet_os.Config.Schema.Records.{AuthenticationSource, Domain, SystemConfig}
use facet_os.Config.Schema.Tables.{Document}
use Definitions.{
  nowhere, text_of, is_empty, check_sinks, check_seats, check_sources, check_users, find_index,
}
use Domains.{check_domain, has_id}

-- the loop over the domains; `before` holds those checked, with their references resolved
pub check_domains : SystemConfig → List Domain → List Domain → Checked (List Domain)
check_domains c before [] = inr before
check_domains c before (d ∷ ds) =
    check_domain c before d >>= λ d'. check_domains c (before ++ d' ∷ []) ds

-- `roots` and `root_index`, as the loop leaves them
abbrev pub count_roots : List Domain → ℕ
count_roots [] = 0
count_roots (d ∷ ds) = if has_id 0 d then suc (count_roots ds) else count_roots ds

abbrev pub last_root : ℕ → ℕ → List Domain → ℕ
last_root i found [] = found
last_root i found (d ∷ ds) = last_root (i + 1) (if has_id 0 d then i else found) ds

abbrev pub find_provider : List Domain → Option ℕ → Option ℕ
find_provider ds none = none
find_provider ds (some id) = find_index (has_id id) ds

-- the loop that finds the domains of the authentication sources
pub check_providers : List Domain → List AuthenticationSource → Checked (List AuthenticationSource)
check_providers ds [] = inr []
check_providers ds (source ∷ sources) = elim (find_provider ds source.provider_domain_id) [
  | none ↦ fail_at unresolved_reference nowhere
  | some i ↦ check_providers ds sources >>= λ rest.
      inr (record source { provider_domain_index = i } ∷ rest)
]

-- `validate_required`; the configuration that it gives has its references resolved
unfoldable pub validate_required : Document → Checked SystemConfig
unfolding check_domains check_providers check_sinks check_seats check_sources check_users
validate_required d = do
  let c = d.config
  a ← ensure (d.facet_seen && c.version == 1) schema nowhere
  b ← check_sinks [] c.logging_sinks
  e ← check_seats [] c.seats
  f ← check_sources [] c.authentication_sources
  root_found ← check_users [] false c.users
  g ← ensure root_found schema nowhere
  h ← ensure (not (length c.domains == 0)) schema nowhere
  ds ← check_domains c [] c.domains
  i ← ensure (count_roots ds == 1) schema nowhere
  sources ← check_providers ds c.authentication_sources
  j ← ensure (not (is_empty (text_of c.seat_initrd))) schema nowhere
  inr (record c { domains = ds; authentication_sources = sources; root_index = last_root 0 0 ds })
