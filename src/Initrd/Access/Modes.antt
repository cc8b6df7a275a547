-- ===== src/Initrd/Access/Modes.antt =====
-- src/dominit0/initrd.c: what the mode bits of an entry say on executing a file and searching a
-- directory.
use facet_os.Prelude.{
  ℕ, ◌/◌, ◌%◌, bit_and, ◌≡◌, inl, inr, Bool, not, ◌&&◌, ◌||◌, arith, ◌==◌, if◌then◌else◌,
  Bool-cases,
}
use facet_os.Prelude.Bits.{bit_and-one, bit_and-execute}
use facet_os.Initrd.Image.{Entry}
use facet_os.Initrd.Access.{entry_allows}

-- An administrator and user 0 may execute what has an execute bit at all; the owner, a user in the
-- group and any other need the bit of their class.
abbrev pub may_execute : ℕ → ℕ → ℕ → ℕ → ℕ → Bool → Bool
may_execute mode owner group uid gid admin =
    let by_owner = mode / 64 % 2 == 1 in
    let by_group = mode / 8 % 2 == 1 in
    let by_other = mode % 2 == 1 in
    if admin || uid == 0
    then by_owner || by_group || by_other
    else if uid == owner
    then by_owner
    else if gid == group
    then by_group
    else by_other

-- the bit of one class
pub class_bit : (n : ℕ) → (bit_and (n % 8) 1 == 1) ≡ (n % 2 == 1)
class_bit n = ground (arith, bit_and-one (n % 8))

-- the bits of all classes
pub any_bit :
    (mode : ℕ)
    → not (not (bit_and 1 1 == 0) && bit_and mode 0o111 == 0)
      ≡ (mode / 64 % 2 == 1 || mode / 8 % 2 == 1 || mode % 2 == 1)
any_bit mode = ground (arith, bit_and-execute mode)

pub entry_allows-may_execute :
    (e : Entry) (uid gid : ℕ) (admin : Bool)
    → entry_allows e uid gid admin 1 ≡ may_execute e.mode e.uid e.gid uid gid admin
unfolding entry_allows
entry_allows-may_execute e uid gid admin = elim (Bool-cases (admin || uid == 0)) [
  | inl root ↦ rw root (any_bit e.mode)
  | inr user ↦ elim (Bool-cases (uid == e.uid)) [
    | inl owner ↦ rw (user, owner) (class_bit (e.mode / 64))
    | inr not_owner ↦ elim (Bool-cases (gid == e.gid)) [
      | inl group ↦ rw (user, not_owner, group) (class_bit (e.mode / 8))
      | inr other ↦ rw (user, not_owner, other) (class_bit e.mode)
    ]
  ]
]
