-- ===== src/Shell/Keys/Overlap.antt =====
-- Two sessions of one user that remove a key at once (internal/ssh/commands.go: cmdSSHKeyRemove).
use ussycode.Base.{ℕ, ◌≡◌, ◌≢◌, refl, true, false, ◌&&◌, nat_eq, ◌==◌, beq_iff, leb, arith, ok}
use ussycode.Db.Models.{User, Db}
use ussycode.Db.Vms.{exists_where}
use ussycode.Db.Counts.{count-delete, exists-count, count-none}
use ussycode.Db.ApiTokens.{ssh_keys_by_user, delete_ssh_key, ssh_key_count_by_user}
use ussycode.Shell.Keys.{remove_found}

-- A user has the key of an id.
abbrev pub Owns : Db → User → ℕ → Type 0
Owns db user key_id = exists_where (λ k. k.id == key_id) (ssh_keys_by_user db user.id) ≡ true

-- The two deletions, one after the other.
both_deleted :
    (db : Db) (user : User) (first second : ℕ)
    → first ≢ second
    → ssh_key_count_by_user db user.id ≡ 2
    → Owns db user first
    → Owns db user second
    → ssh_key_count_by_user (delete_ssh_key (delete_ssh_key db first) second) user.id ≡ 0
unfolding ssh_key_count_by_user ssh_keys_by_user delete_ssh_key
both_deleted db user first second differ two has_first has_second =
    let left = count-delete (λ k. k.user_id == user.id) (λ k. k.id == first) db.ssh_keys in
    let gone =
      count-delete (λ k. k.user_id == user.id) (λ k. k.id == second)
        (delete_ssh_key db first).ssh_keys in
    let one = exists-count (λ k. k.user_id == user.id) (λ k. k.id == first) db.ssh_keys has_first in
    let other =
      exists-count (λ k. k.user_id == user.id) (λ k. k.id == second) db.ssh_keys has_second in
    let kept =
      count-delete (λ k. k.user_id == user.id && k.id == second) (λ k. k.id == first) db.ssh_keys in
    let apart =
      count-none (λ k. (k.user_id == user.id && k.id == second) && k.id == first) db.ssh_keys
        (λ k mem. ground (arith, beq_iff k.id second, beq_iff k.id first)) in
    omega arith

-- A user has two keys, and two sessions remove one of them each. Where both have listed and counted
-- the keys before either deletes its own, both commands work, and the user has no key left.
pub overlapping_removals :
    (db : Db) (user : User) (first second : ℕ)
    → first ≢ second
    → ssh_key_count_by_user db user.id ≡ 2
    → Owns db user first
    → Owns db user second
    → let one = remove_found db db db user first in
      let other = remove_found db db one.1 user second in
      (one.0 ≡ ok tt) × (other.0 ≡ ok tt) × (ssh_key_count_by_user other.1 user.id ≡ 0)
unfolding remove_found
overlapping_removals db user first second differ two has_first has_second =
    let more : leb (ssh_key_count_by_user db user.id) 1 ≡ false = ground (arith, two) in
    rw (has_first, has_second, more)
      (refl, refl, both_deleted db user first second differ two has_first has_second)
