-- ===== src/Shell/Commands.antt =====
-- The command `new` (internal/ssh/commands.go: cmdNew), with the VM manager present. What it prints,
-- and the metadata and the proxy route that it registers at the end, are left out. The
-- user is the one of the session.
pub mod Admission
pub mod Resources
use ussycode.Base.{
  ℕ, zero, suc, ◌+◌, ◌-◌, Bool, true, false, not, ◌&&◌, ◌||◌, String, Option, none, some, List, [],
  ◌∷◌, ◌++◌, map, ltb, leb, if◌then◌else◌, length, nat_eq, ◌==◌, Result, ok, err, Text, bytes,
  is_empty, has_prefix, trim_prefix,
}
use ussycode.Db.Models.{User, Vm, Db, DbError, TrustLimits, get_trust_limits}
use ussycode.Db.Vms.{vm_by_user_and_name, vm_count_by_user, create_vm}
use ussycode.Vm.Manager.{Manager, ManagerError, Attempt, create_and_start}

pub data ShellError : Type 0 where
  invalid_name already_exists limit_reached : ShellError
  creating : DbError → ShellError
  provisioning : ManagerError → ShellError

abbrev is_lower : ℕ → Bool
is_lower c = leb 97 c && leb c 122

abbrev is_digit : ℕ → Bool
is_digit c = leb 48 c && leb c 57

-- A letter, a digit or a hyphen.
abbrev is_middle : ℕ → Bool
is_middle c = is_lower c || is_digit c || c == 45

unfoldable pub all_middle : Text → Bool
all_middle [] = true
all_middle (c ∷ rest) = is_middle c && all_middle rest

-- The last byte is a letter or a digit.
unfoldable pub ends_well : Text → Bool
ends_well [] = false
ends_well (c ∷ []) = is_lower c || is_digit c
ends_well (c ∷ d ∷ rest) = ends_well (d ∷ rest)

unfoldable pub starts_well : Text → Bool
starts_well [] = false
starts_well (c ∷ rest) = is_lower c

-- `validName`, ^[a-z][a-z0-9-]{1,28}[a-z0-9]$.
unfoldable pub valid_name : Text → Bool
valid_name t = leb 3 (length t) && leb (length t) 30 && starts_well t && all_middle t && ends_well t

-- The lower case of what begins with the byte c, and how many bytes after it belong to it: the two
-- letters outside ASCII whose lower case lies in it are U+0130 and U+212A.
unfoldable pub lower_at : ℕ → Text → Text × ℕ
lower_at c t =
    if leb 65 c && leb c 90
    then ((c + 32) ∷ [], 0)
    else if has_prefix (c ∷ t) (196 ∷ 176 ∷ [])
    then (105 ∷ [], 1)
    else if has_prefix (c ∷ t) (226 ∷ 132 ∷ 170 ∷ [])
    then (107 ∷ [], 2)
    else (c ∷ [], 0)

unfoldable pub lower_from : ℕ → Text → Text
unfolding lower_at
lower_from n [] = []
lower_from (suc n) (c ∷ t) = lower_from n t
lower_from zero (c ∷ t) = let (lower, more) = lower_at c t in lower ++ lower_from more t

-- `strings.ToLower`, where the lower case is in ASCII. Any other letter outside ASCII is left as it is;
-- what is compared with the result is in ASCII, and so are the texts that the checks on names and
-- domains let pass.
unfoldable pub to_lower : Text → Text
unfolding lower_from
to_lower t = lower_from 0 t

-- The loop over the arguments: the last of a kind counts.
unfoldable pub parse_args : List Text → Text → Text → Text × Text
parse_args [] name image = (name, image)
parse_args (a ∷ args) name image =
    if has_prefix a (bytes "--name=")
    then parse_args args (trim_prefix a (bytes "--name=")) image
    else if has_prefix a (bytes "--image=")
    then parse_args args name (trim_prefix a (bytes "--image="))
    else parse_args args name image

abbrev pub over_limit : Option ℕ → ℕ → Bool
over_limit none count = false
over_limit (some limit) count = leb limit count

-- `if limit > 0 && n > limit { n = limit }`.
abbrev pub clamp : Option ℕ → ℕ → ℕ
clamp none n = n
clamp (some limit) n = if ltb 0 limit && ltb limit n then limit else n

unfoldable pub cpus_for : TrustLimits → ℕ
cpus_for limits = clamp limits.cpu_limit 2

unfoldable pub memory_for : TrustLimits → ℕ
memory_for limits =
    let memory = clamp limits.ram_limit 2048 in if ltb memory 512 then 512 else memory

-- The record is made, and the VM is started.
unfoldable pub provision :
    ℕ → Attempt → Manager → Text → Result DbError Vm × Db → Result ShellError (Unit {0}) × Manager
provision now a m name (err e, db) = (err (creating e), record m { db = db })
provision now a m name (ok vm, db) =
    let (answer, m') = create_and_start now a (record m { db = db }) vm.id name in
    elim answer [ err e ↦ (err (provisioning e), m') | ok _ ↦ (ok tt, m') ]

unfoldable pub new_named :
    ℕ → Attempt → Manager → User → Text → Text → Result ShellError (Unit {0}) × Manager
new_named now a m user name image =
    let limits = get_trust_limits user.trust_level in
    if not (valid_name name)
    then (err invalid_name, m)
    else elim (vm_by_user_and_name m.db user.id name) [
      | ok vm ↦ (err already_exists, m)
      | err e ↦
          if over_limit limits.vm_limit (vm_count_by_user m.db user.id)
          then (err limit_reached, m)
          else provision now a m name
              (create_vm now m.db user.id name image (cpus_for limits) (memory_for limits) 5)
    ]

-- `cmdNew`, where `random` is what `randomName` gives.
unfoldable pub new_vm :
    ℕ → Attempt → Manager → User → List Text → Text → Result ShellError (Unit {0}) × Manager
new_vm now a m user args random =
    let (name, image) = parse_args args [] (bytes "ussyuntu") in
    new_named now a m user (to_lower (if is_empty name then random else name)) image
