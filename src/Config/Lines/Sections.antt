-- ===== src/Config/Lines/Sections.antt =====
-- src/config.c: the section that a key is stored in, and the arrays of tables.
use facet_os.Prelude.{
  ℕ, ◌+◌, ◌≤◌, ◌<◌, ◌≡◌, refl, inl, inr, Bool, false, not, ◌&&◌, Option, none, some, List, [], ◌∷◌,
  ◌++◌, arith, leb, ◌==◌, Bool-cases, length, get_elem?, set, length-append, length-set, Bytes,
  bytes_equal, codes,
}
use facet_os.Config.Cursor.{unsupported_version}
use facet_os.Config.Values.{Spot, Value, spot_of}
use facet_os.Config.Grammar.{max_array_elements}
use facet_os.Config.Schema.Checks.{Checked, ◌>>=◌, ensure, field, string_of, integer_of}
use facet_os.Config.Schema.Gives.{Gives, Gives->>=, Gives-any, if-Gives}
use facet_os.Config.Schema.Records.{
  SystemConfig, blank_sink, blank_seat, blank_source, blank_user, blank_domain,
}
use facet_os.Config.Schema.Keys.{set_sink, set_source, set_user, set_seat}
use facet_os.Config.Schema.Domains.{set_domain}
use facet_os.Config.Schema.Tables.{
  Section, section_none, section_facet, section_logging_sink, section_authentication_source,
  section_user, section_seat, section_domain, Document, open_table, update, set_facet, set_key,
}

abbrev pub IsSection : Section → ℕ → SystemConfig → Type 0
IsSection section_none i c = Unit
IsSection section_facet i c = Unit
IsSection section_logging_sink i c = i < length c.logging_sinks
IsSection section_authentication_source i c = i < length c.authentication_sources
IsSection section_user i c = i < length c.users
IsSection section_seat i c = i < length c.seats
IsSection section_domain i c = i < length c.domains

abbrev pub IsBounded : SystemConfig → Type 0
IsBounded c =
    (length c.logging_sinks ≤ max_array_elements)
    × (length c.authentication_sources ≤ max_array_elements)
    × (length c.users ≤ max_array_elements)
    × (length c.seats ≤ max_array_elements)
    × (length c.domains ≤ max_array_elements)

-- The section is an element of its array, and the arrays are within their limit.
abbrev pub IsSound : Document → Type 0
IsSound d = IsSection d.section d.section_index d.config × IsBounded d.config

grown :
    {A : Type 0} (xs : List A) (x : A)
    → leb max_array_elements (length xs) ≡ false
    → (length xs < length (xs ++ x ∷ [])) × (length (xs ++ x ∷ []) ≤ max_array_elements)
grown xs x e =
    let n : length (xs ++ x ∷ []) ≡ length xs + 1 = length-append xs (x ∷ []) in
    (omega (arith, n), ground (arith, n))

update-Gives :
    {A : Type 0} (xs : List A) (i : ℕ) (f : A → Checked A)
    → Gives (λ ys. length ys ≡ length xs) (update xs i f)
update-Gives {A = A} xs i f = by_elem (get_elem? xs i)
  where
    by_elem :
        (o : Option A)
        → Gives
            (λ ys. length ys ≡ length xs)
            (elim o [ none ↦ inr xs | some x ↦ f x >>= λ y. inr (set xs i y) ])
    by_elem none = refl
    by_elem (some x) = Gives-any (λ ys. length ys ≡ length xs) (f x) _ λ y. length-set xs i y

pub open_table-Gives :
    (array : Bool) (name : Bytes) (at here : Spot) (d : Document)
    → IsSound d
    → Gives IsSound (open_table array name at here d)
unfolding open_table
open_table-Gives array name at here d h =
    if-Gives IsSound (not array && bytes_equal name (codes "facet")) _ _
      (if-Gives IsSound d.facet_seen _ _ tt (tt, h.1))
      (if-Gives IsSound (array && bytes_equal name (codes "logging_sinks")) _ _
        (elim (Bool-cases (leb max_array_elements (length d.config.logging_sinks))) [
          | inl e ↦ rw e tt
          | inr e ↦
              let k = grown d.config.logging_sinks blank_sink e in
              rw e (k.0, (k.1, h.1.1, h.1.2, h.1.3, h.1.4))
        ])
        (if-Gives IsSound (array && bytes_equal name (codes "authentication_sources")) _ _
          (elim (Bool-cases (leb max_array_elements (length d.config.authentication_sources))) [
            | inl e ↦ rw e tt
            | inr e ↦
                let k = grown d.config.authentication_sources blank_source e in
                rw e (k.0, (h.1.0, k.1, h.1.2, h.1.3, h.1.4))
          ])
          (if-Gives IsSound (array && bytes_equal name (codes "users")) _ _
            (elim (Bool-cases (leb max_array_elements (length d.config.users))) [
              | inl e ↦ rw e tt
              | inr e ↦
                  let k = grown d.config.users blank_user e in
                  rw e (k.0, (h.1.0, h.1.1, k.1, h.1.3, h.1.4))
            ])
            (if-Gives IsSound (array && bytes_equal name (codes "seats")) _ _
              (elim (Bool-cases (leb max_array_elements (length d.config.seats))) [
                | inl e ↦ rw e tt
                | inr e ↦
                    let k = grown d.config.seats blank_seat e in
                    rw e (k.0, (h.1.0, h.1.1, h.1.2, k.1, h.1.4))
              ])
              (if-Gives IsSound (array && bytes_equal name (codes "domains")) _ _
                (elim (Bool-cases (leb max_array_elements (length d.config.domains))) [
                  | inl e ↦ rw e tt
                  | inr e ↦
                      let k = grown d.config.domains blank_domain e in
                      rw e (k.0, (h.1.0, h.1.1, h.1.2, h.1.3, k.1))
                ])
                tt)))))

-- an array of the same length
keeps_lt : {i m n : ℕ} → i < m → n ≡ m → i < n
keeps_lt h e = omega arith

keeps_le : {m n k : ℕ} → m ≤ k → n ≡ m → n ≤ k
keeps_le h e = omega arith

update-then :
    {A : Type 0} (xs : List A) (i : ℕ) (f : A → Checked A) (g : List A → Document)
    → ((ys : List A) → length ys ≡ length xs → IsSound (g ys))
    → Gives IsSound (update xs i f >>= λ ys. inr (g ys))
update-then xs i f g k =
    Gives->>= (λ ys. length ys ≡ length xs) IsSound (update xs i f) (λ ys. inr (g ys))
      (update-Gives xs i f) k

set_facet-Gives :
    (key : Bytes) (at : Spot) (v : Value) (c : SystemConfig)
    → IsBounded c
    → Gives IsBounded (set_facet key at v c)
unfolding set_facet
set_facet-Gives key at v c h =
    if-Gives IsBounded (bytes_equal key (codes "seat_initrd")) _ _
      (Gives-any IsBounded (field c.seat_initrd at (string_of v))
        (λ x. inr (record c { seat_initrd = x })) λ x. h)
      (if-Gives IsBounded (bytes_equal key (codes "version")) _ _
        (if-Gives IsBounded (c.version == 0) _ _
          (Gives-any IsBounded (integer_of v)
            (λ i.
              ensure (not i.negative && i.magnitude == 1) unsupported_version (spot_of v) >>= λ u.
              inr (record c { version = 1 }))
            λ i.
              Gives-any IsBounded
                (ensure (not i.negative && i.magnitude == 1) unsupported_version (spot_of v))
                (λ u. inr (record c { version = 1 })) λ u. h)
          tt)
        tt)

abbrev document : Section → ℕ → Bool → SystemConfig → Document
document s i seen c = record { section = s; section_index = i; facet_seen = seen; config = c }

pub set_key-Gives :
    (key : Bytes) (at : Spot) (v : Value) (d : Document)
    → IsSound d
    → Gives IsSound (set_key key at v d)
unfolding set_key
set_key-Gives key at v d h = by_section d.section d.section_index d.facet_seen d.config h
  where
    by_section :
        (s : Section) (i : ℕ) (seen : Bool) (c : SystemConfig)
        → IsSound (document s i seen c)
        → Gives IsSound (set_key key at v (document s i seen c))
    by_section section_none i seen c h = tt
    by_section section_facet i seen c h =
        Gives->>= IsBounded IsSound (set_facet key at v c)
          (λ c'. inr (document section_facet i seen c')) (set_facet-Gives key at v c h.1)
          λ c' k. (tt, k)
    by_section section_logging_sink i seen c h =
        update-then c.logging_sinks i (set_sink key at v)
          (λ ys. document section_logging_sink i seen (record c { logging_sinks = ys }))
          λ ys e. (keeps_lt h.0 e, (keeps_le h.1.0 e, h.1.1, h.1.2, h.1.3, h.1.4))
    by_section section_authentication_source i seen c h =
        update-then c.authentication_sources i (set_source key at v)
          (λ ys.
            document section_authentication_source i seen
              (record c { authentication_sources = ys }))
          λ ys e. (keeps_lt h.0 e, (h.1.0, keeps_le h.1.1 e, h.1.2, h.1.3, h.1.4))
    by_section section_user i seen c h =
        update-then c.users i (set_user key at (spot_of v) v)
          (λ ys. document section_user i seen (record c { users = ys }))
          λ ys e. (keeps_lt h.0 e, (h.1.0, h.1.1, keeps_le h.1.2 e, h.1.3, h.1.4))
    by_section section_seat i seen c h =
        update-then c.seats i (set_seat key at v)
          (λ ys. document section_seat i seen (record c { seats = ys }))
          λ ys e. (keeps_lt h.0 e, (h.1.0, h.1.1, h.1.2, keeps_le h.1.3 e, h.1.4))
    by_section section_domain i seen c h =
        update-then c.domains i (set_domain key at v)
          (λ ys. document section_domain i seen (record c { domains = ys }))
          λ ys e. (keeps_lt h.0 e, (h.1.0, h.1.1, h.1.2, h.1.3, keeps_le h.1.4 e))
