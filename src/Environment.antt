-- ===== src/Environment.antt =====
-- src/dominit0/environment.c: the names that a domain gives to the objects it serves.
pub mod Bindings
pub mod Stable
pub mod Resolve
mod Tests
use facet_os.Prelude.{
  ℕ, zero, suc, ◌+◌, Bool, true, false, not, ◌&&◌, ◌||◌, Option, none, some, List, [], ◌∷◌, ◌++◌,
  map, ltb, leb, ◌==◌, if◌then◌else◌, length, Bytes, bytes_equal, codes,
}
use facet_os.Prelude.Monad.{
  Result, ok, err, Fault, invalid_argument, invalid_handle, no_interface, access_denied,
}
use facet_os.Utf8.{is_valid}

-- `ProcessBindingEntry`. A handle is the number of an object, `none` is the null one; an interface
-- identifier is a number too.
pub record Binding : Type 0 where
  pub name : Bytes
  pub primary_iid : ℕ
  pub handle : Option ℕ

-- The handles of `Dominit0DomainEnvironment` that have names, the image of the file store, and the extra bindings in their order.
pub record Environment : Type 0 where
  pub logger_handle : Option ℕ
  pub page_allocator_handle : Option ℕ
  pub domain_config_handle : Option ℕ
  pub file_store_handle : Option ℕ
  pub initrd : Option ℕ
  pub extra_bindings : List Binding

-- `DOMINIT0_EXTRA_BINDINGS_MAX`
abbrev pub max_extra_bindings : ℕ
max_extra_bindings = 16

-- the identifiers that the interface compiler generates
pub record Iids : Type 0 where
  pub logger_iid : ℕ
  pub page_allocator_iid : ℕ
  pub domain_config_iid : ℕ
  pub file_store_iid : ℕ

-- the test on a name: not empty, at most 127 bytes, and UTF-8
unfoldable pub is_name : Bytes → Bool
is_name name = not (length name == 0) && not (ltb 127 (length name)) && is_valid name

-- what a binding of an interface and a handle gives
abbrev pub bound : ℕ → Option ℕ → Result (ℕ × ℕ)
bound iid none = err invalid_handle
bound iid (some object) = ok (iid, object)

-- the loop over the extra bindings: the first one of the name
abbrev pub find_extra : List Binding → Bytes → Result (ℕ × ℕ)
find_extra [] name = err no_interface
find_extra (b ∷ bs) name =
    let rest = find_extra bs name in
    if bytes_equal name b.name then bound b.primary_iid b.handle else rest

-- a copy of the bytes read as a C string
pub c_string : Bytes → Bytes
c_string [] = []
c_string (c ∷ t) = let rest = c_string t in if c == 0 then [] else c ∷ rest

abbrev pub is_ok : {A : Type 0} → Result A → Bool
is_ok (ok a) = true
is_ok (err f) = false

module _ (iids : Iids) where
  -- the four fixed names, then the extra ones
  unfoldable pub binding_of : Environment → Bytes → Result (ℕ × ℕ)
  binding_of e name =
      if bytes_equal name (codes "logger")
      then bound iids.logger_iid e.logger_handle
      else if bytes_equal name (codes "memory.pages")
      then bound iids.page_allocator_iid e.page_allocator_handle
      else if bytes_equal name (codes "domain.config")
      then bound iids.domain_config_iid e.domain_config_handle
      else if bytes_equal name (codes "files")
      then bound iids.file_store_iid e.file_store_handle
      else find_extra e.extra_bindings name

  -- `process_binding`; a string without data is `none`.
  unfoldable pub process_binding : Environment → Option Bytes → Result (ℕ × ℕ)
  unfolding is_name binding_of
  process_binding e none = err invalid_argument
  process_binding e (some name) = if is_name name then binding_of e name else err invalid_argument

  -- `process_resolve_as`
  unfoldable pub process_resolve_as : Environment → Option Bytes → ℕ → Result ℕ
  unfolding process_binding
  process_resolve_as e name iid = elim (process_binding e name) [
    | err f ↦ err f
    | ok (primary, object) ↦ if primary == iid then ok object else err no_interface
  ]

  -- `dominit0_environment_bind_named`; `none` is the return of -1. The name is a C string without its
  -- zero byte, and copying it succeeds.
  unfoldable pub bind_named : Environment → Bytes → ℕ → Option ℕ → Option Environment
  unfolding process_binding
  bind_named e name iid none = none
  bind_named e name iid (some object) =
      if not (is_name name) || length e.extra_bindings == max_extra_bindings
      then none
      else if is_ok (process_binding e (some name))
      then none
      else some (record e {
        extra_bindings =
            e.extra_bindings
            ++ record { name = name; primary_iid = iid; handle = some object } ∷ [];
      })

  -- `environment_publish_service`, with the environment behind it
  unfoldable pub publish_service :
      Environment → Option Bytes → ℕ → Option ℕ → Result (Unit {0}) × Environment
  unfolding c_string bind_named
  publish_service e none iid service = (err invalid_argument, e)
  publish_service e (some name) iid none = (err invalid_argument, e)
  publish_service e (some name) iid (some object) =
      if is_name name
      then elim (bind_named e (c_string name) iid (some object)) [
        | none ↦ (err access_denied, e)
        | some e' ↦ (ok tt, e')
      ]
      else (err invalid_argument, e)

  -- `environment_resolve_service`
  unfoldable pub resolve_service : Environment → Option Bytes → ℕ → Result ℕ
  unfolding c_string process_resolve_as
  resolve_service e none iid = err invalid_argument
  resolve_service e (some name) iid =
      if is_name name then process_resolve_as e (some (c_string name)) iid else err invalid_argument

  -- `process_list_bindings`: the names with their interfaces; one that cannot be had fails.
  unfoldable pub list_bindings : Environment → Result (List (Bytes × ℕ))
  list_bindings e = elim e.logger_handle [
    | none ↦ err invalid_handle
    | some l ↦ elim e.page_allocator_handle [
      | none ↦ err invalid_handle
      | some p ↦ elim e.domain_config_handle [
        | none ↦ err invalid_handle
        | some c ↦ elim e.file_store_handle [
          | none ↦ err invalid_handle
          | some f ↦ ok (
              (codes "logger", iids.logger_iid)
              ∷ (codes "memory.pages", iids.page_allocator_iid)
              ∷ (codes "domain.config", iids.domain_config_iid)
              ∷ (codes "files", iids.file_store_iid)
              ∷ map (λ (b : Binding). (b.name, b.primary_iid)) e.extra_bindings)
        ]
      ]
    ]
  ]

-- `dominit0_environment_bind_page_allocator` and `dominit0_environment_bind_file_store`: only once
unfoldable pub bind_page_allocator : Environment → Option ℕ → Option Environment
bind_page_allocator e object = elim object [
  | none ↦ none
  | some o ↦ elim e.page_allocator_handle [
    | none ↦ some (record e { page_allocator_handle = some o })
    | some p ↦ none
  ]
]

unfoldable pub bind_file_store : Environment → Option ℕ → Option ℕ → Option Environment
bind_file_store e image object = elim image [
  | none ↦ none
  | some i ↦ elim object [
    | none ↦ none
    | some o ↦ elim e.file_store_handle [
      | none ↦ some (record e { initrd = some i; file_store_handle = some o })
      | some p ↦ none
    ]
  ]
]
