-- ===== src/Shell/Keys/Lockout.antt =====
-- A user who can log in stays able to, as long as no two commands on keys run at once
-- (internal/ssh/commands.go: cmdSSHKeyAdd, cmdSSHKeyRemove).
use ussycode.Base.{
  ℕ, suc, ◌+◌, ◌≤◌, ◌<◌, ◌≡◌, refl, ◌∙◌, sym, ap, subst, true, false, not, ◌&&◌, String, Option,
  none, some, List, [], ◌∷◌, ◌++◌, inl, inr, nat_eq, string_eq, ◌==◌, beq_iff, leb, Bool-cases,
  arith, Result, ok, err, Text, is_empty, Mem,
}
use ussycode.Db.Models.{User, SshKey, Db, DbError}
use ussycode.Db.Vms.{exists_where}
use ussycode.Db.Select.{Mem-delete, Mem-append_last}
use ussycode.Db.Counts.{
  count_where, count-delete, count-both, exists-count, count-disjoint, count-append, count-none,
}
use ussycode.Db.ApiTokens.{add_ssh_key, ssh_keys_by_user, delete_ssh_key, ssh_key_count_by_user}
use ussycode.Api.Words.{trim_space}
use ussycode.Shell.Keys.{
  ParsedKey, key_stored, add_parsed, cmd_ssh_key_add, KeyId, unparsed, negative, id, remove_found,
  remove_parsed, cmd_ssh_key_remove,
}

-- The ids of the keys differ, and lie below the next one.
pub record KeyIds (db : Db) : Type 0 where
  pub single : (key_id : ℕ) → count_where (λ k. k.id == key_id) db.ssh_keys ≤ 1
  pub below : (k : SshKey) → Mem k db.ssh_keys → k.id < db.next_key_id

-- After a command the ids still differ, and whoever had a key has one.
pub record StillIn (before after : Db) : Type 0 where
  pub ids : KeyIds after
  pub has_key :
      (user_id : ℕ)
      → 1 ≤ ssh_key_count_by_user before user_id
      → 1 ≤ ssh_key_count_by_user after user_id

not_both :
    (owner user_id other : ℕ)
    → (owner == user_id) ≡ true
    → (other == user_id) ≡ false
    → (owner == other) ≡ false
not_both owner user_id other own differs =
    let same = (beq_iff owner user_id).0 own in
    elim (Bool-cases (owner == other)) [
      | inr apart ↦ apart
      | inl equal ↦
          let also = (beq_iff owner other).0 equal in
          let clash = (beq_iff other user_id).1 (sym also ∙ same) in cc
    ]

module _ (db : Db) (ids : KeyIds db) where
  StillIn-same : StillIn db db
  StillIn-same = record { ids = ids; has_key = λ user_id h. h }

  -- A key is added at the end.
  added-KeyIds :
      (after : Db) (key : SshKey)
      → key.id ≡ db.next_key_id
      → after.ssh_keys ≡ db.ssh_keys ++ key ∷ []
      → after.next_key_id ≡ suc db.next_key_id
      → KeyIds after
  added-KeyIds after key fresh rows next = record {
    single = λ key_id.
        let one = ids.single key_id in
        let counted = count-append (λ k. k.id == key_id) db.ssh_keys key in
        subst (λ (keys : List SshKey). count_where (λ k. k.id == key_id) keys ≤ 1) (sym rows)
          (elim (Bool-cases (key.id == key_id)) [
            | inr other ↦
                let same : count_where (λ k. k.id == key_id) (db.ssh_keys ++ key ∷ [])
                    ≡ count_where (λ k. k.id == key_id) db.ssh_keys + 0 =
                  rw other at counted in
                omega arith
            | inl own ↦
                let at_next = (beq_iff key.id key_id).0 own in
                let unused =
                  count-none (λ k. k.id == key_id) db.ssh_keys
                    (λ k mem.
                      let small = ids.below k mem in
                      ground (arith, small, at_next, fresh, beq_iff k.id key_id)) in
                let same : count_where (λ k. k.id == key_id) (db.ssh_keys ++ key ∷ [])
                    ≡ count_where (λ k. k.id == key_id) db.ssh_keys + 1 =
                  rw own at counted in
                omega arith
          ]);
    below = λ k mem.
        elim (Mem-append_last db.ssh_keys key k
          (subst (λ (keys : List SshKey). Mem k keys) rows mem)) [
            | inl before ↦ let small = ids.below k before in omega arith
            | inr last ↦ let at_end = ap (λ (x : SshKey). x.id) last in omega arith
          ];
  }

  add_ssh_key-StillIn :
      (now user_id : ℕ) (line : Text) (fingerprint : String) (comment : Text)
      → StillIn db (add_ssh_key now db user_id line fingerprint comment).1
  unfolding add_ssh_key ssh_key_count_by_user ssh_keys_by_user
  add_ssh_key-StillIn now user_id line fingerprint comment =
      elim (Bool-cases (
        exists_where (λ u. u.id == user_id) db.users
        && not (exists_where (λ k. k.fingerprint == fingerprint) db.ssh_keys))) [
          | inr broken ↦ rw (broken, add_ssh_key) StillIn-same
          | inl new ↦
              rw (new, add_ssh_key)
                (record {
                  ids = added-KeyIds _ _ refl refl refl;
                  has_key = λ other h.
                      let counted = count-append (λ k. k.user_id == other) db.ssh_keys _ in
                      subst (λ n. 1 ≤ n) (sym counted) (omega arith);
                })
        ]

  key_stored-StillIn :
      (r : Result DbError SshKey) (after : Db)
      → StillIn db after
      → StillIn db (key_stored (r, after)).1
  unfolding key_stored
  key_stored-StillIn (ok key) after h = h
  key_stored-StillIn (err e) after h = h

  add_parsed-StillIn :
      (now : ℕ) (user : User) (line : Text) (key : Option ParsedKey)
      → StillIn db (add_parsed now db user line key).1
  unfolding add_parsed
  add_parsed-StillIn now user line none = StillIn-same
  add_parsed-StillIn now user line (some key) =
      elim (Bool-cases
        (exists_where (λ k. k.fingerprint == key.fingerprint) (ssh_keys_by_user db user.id))) [
          | inl old ↦ rw (old, add_parsed) StillIn-same
          | inr new ↦
              rw (new, add_parsed)
                (key_stored-StillIn _ _
                  (add_ssh_key-StillIn now user.id line key.fingerprint key.comment))
        ]

  -- One of two keys or more is deleted, by its id.
  delete_ssh_key-StillIn :
      (user_id key_id : ℕ)
      → exists_where (λ k. k.id == key_id) (ssh_keys_by_user db user_id) ≡ true
      → 2 ≤ ssh_key_count_by_user db user_id
      → StillIn db (delete_ssh_key db key_id)
  unfolding delete_ssh_key ssh_key_count_by_user ssh_keys_by_user
  delete_ssh_key-StillIn user_id key_id there_is two =
      let one = ids.single key_id in
      let mine =
        exists-count (λ k. k.user_id == user_id) (λ k. k.id == key_id) db.ssh_keys there_is in
      record {
        ids = record {
          single = λ other.
              let fewer = count-delete (λ k. k.id == other) (λ k. k.id == key_id) db.ssh_keys in
              let before = ids.single other in omega arith;
          below = λ k mem. ids.below k (Mem-delete _ db.ssh_keys k mem);
        };
        has_key = λ other h.
            let left = count-delete (λ k. k.user_id == other) (λ k. k.id == key_id) db.ssh_keys in
            elim (Bool-cases (other == user_id)) [
              | inl same ↦
                  let equal = (beq_iff other user_id).0 same in
                  let few =
                    count-both (λ k. k.user_id == other) (λ k. k.id == key_id) db.ssh_keys in
                  let many =
                    subst (λ n. 2 ≤ count_where (λ k. k.user_id == n) db.ssh_keys) (sym equal)
                      two in
                  omega arith
              | inr differs ↦
                  let apart =
                    count-disjoint (λ k. k.user_id == user_id) (λ k. k.user_id == other)
                      (λ k. k.id == key_id) db.ssh_keys
                      (λ k own. not_both k.user_id user_id other own differs) in
                  omega arith
            ];
      }

  remove_parsed-StillIn :
      (user : User) (key : KeyId) → StillIn db (remove_parsed db db db user key).1
  unfolding remove_parsed remove_found
  remove_parsed-StillIn user unparsed = StillIn-same
  remove_parsed-StillIn user negative = StillIn-same
  remove_parsed-StillIn user (id key_id) =
      elim (Bool-cases (exists_where (λ k. k.id == key_id) (ssh_keys_by_user db user.id))) [
        | inr missing ↦ rw (missing, remove_found) StillIn-same
        | inl there_is ↦ elim (Bool-cases (leb (ssh_key_count_by_user db user.id) 1)) [
          | inl last ↦ rw (there_is, last, remove_found) StillIn-same
          | inr more ↦
              rw (there_is, more, remove_found)
                (delete_ssh_key-StillIn user.id key_id there_is (ground (arith, more)))
        ]
      ]

-- A command on keys, with the line that was typed or the arguments.
pub data KeyRequest : Type 0 where
  adds : ℕ → User → Option Text → KeyRequest
  removes : User → List Text → KeyRequest

-- `parse` is ParseAuthorizedKey, and `scan` is Sscanf.
module _ (parse : Text → Option ParsedKey) (scan : Text → KeyId) where
  -- A command that runs alone finds the same database in all of its transactions.
  unfoldable pub key_step : Db → KeyRequest → Db
  key_step db (adds now user line) = (cmd_ssh_key_add parse now db user line).1
  key_step db (removes user args) = (cmd_ssh_key_remove scan db db db user args).1

  unfoldable pub key_run : Db → List KeyRequest → Db
  unfolding key_step
  key_run db [] = db
  key_run db (r ∷ requests) = key_run (key_step db r) requests

  key_step-StillIn : (db : Db) (r : KeyRequest) → KeyIds db → StillIn db (key_step db r)
  unfolding key_step cmd_ssh_key_add cmd_ssh_key_remove
  key_step-StillIn db (adds now user none) ids = StillIn-same db ids
  key_step-StillIn db (adds now user (some typed)) ids =
      elim (Bool-cases (is_empty (trim_space typed))) [
        | inl blank ↦ rw (blank, key_step) (StillIn-same db ids)
        | inr line ↦ rw (line, key_step) (add_parsed-StillIn db ids now user _ _)
      ]
  key_step-StillIn db (removes user []) ids = StillIn-same db ids
  key_step-StillIn db (removes user (arg ∷ args)) ids = remove_parsed-StillIn db ids user (scan arg)

  -- Where the ids of the keys differ and lie below the next one: over every history of the commands
  -- that add and remove SSH keys, by any users, one command after the other, a user who has a key
  -- still has one, and the ids still differ and lie below the next one.
  pub key_run-StillIn :
      (requests : List KeyRequest) (db : Db) (user_id : ℕ)
      → KeyIds db
      → 1 ≤ ssh_key_count_by_user db user_id
      → KeyIds (key_run db requests) × (1 ≤ ssh_key_count_by_user (key_run db requests) user_id)
  unfolding key_run
  key_run-StillIn [] db user_id ids h = (ids, h)
  key_run-StillIn (r ∷ requests) db user_id ids h =
      let step = key_step-StillIn db r ids in
      key_run-StillIn requests (key_step db r) user_id step.ids (step.has_key user_id h)
