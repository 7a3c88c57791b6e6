-- ===== src/Shell/Commands/Resources.antt =====
-- The CPUs and the memory of a new VM (internal/ssh/commands.go: cmdNew; internal/db/models.go:
-- GetTrustLimits).
use ussycode.Base.{
  ℕ, ◌≤◌, ◌≡◌, refl, Bool, true, false, String, none, some, if◌then◌else◌, nat_eq, list_eq,
  string_eq, ◌==◌, arith,
}
use ussycode.Db.Models.{TrustLimits, get_trust_limits}
use ussycode.Shell.Commands.{cpus_for, memory_for}

-- What a new VM gets lies within the limits, and is enough to run.
abbrev Fits : TrustLimits → Type 0
Fits limits =
    ((limit : ℕ) → limits.cpu_limit ≡ some limit → cpus_for limits ≤ limit)
    × ((limit : ℕ) → limits.ram_limit ≡ some limit → memory_for limits ≤ limit)
    × (1 ≤ cpus_for limits)
    × (512 ≤ memory_for limits)

pick : (b : Bool) (x y : TrustLimits) → Fits x → Fits y → Fits (if b then x else y)
pick true x y h k = h
pick false x y h k = k

-- Limits of one CPU and 512 MB at least fit.
limited :
    (limits : TrustLimits) (cpu ram : ℕ)
    → limits.cpu_limit ≡ some cpu
    → limits.ram_limit ≡ some ram
    → 1 ≤ cpu
    → 512 ≤ ram
    → Fits limits
unfolding cpus_for memory_for
limited limits cpu ram c r one enough =
    rw (c, r)
      (
        (λ limit e. let same : cpu ≡ limit = cc in ground (arith, same)),
        (λ limit e. let same : ram ≡ limit = cc in ground (arith, same)),
        ground arith,
        ground arith,
      )

-- No limits fit.
unlimited : (limits : TrustLimits) → limits.cpu_limit ≡ none → limits.ram_limit ≡ none → Fits limits
unfolding cpus_for memory_for
unlimited limits c r = rw (c, r) ((λ limit e. cc), (λ limit e. cc), ground arith, ground arith)

-- A new VM gets no more CPUs and no more memory than its owner's trust level allows, one CPU at
-- least, and 512 MB at least.
pub resources_in_limits :
    (level : String)
    → ((limit : ℕ)
        → (get_trust_limits level).cpu_limit ≡ some limit
        → cpus_for (get_trust_limits level) ≤ limit)
      × ((limit : ℕ)
          → (get_trust_limits level).ram_limit ≡ some limit
          → memory_for (get_trust_limits level) ≤ limit)
      × (1 ≤ cpus_for (get_trust_limits level))
      × (512 ≤ memory_for (get_trust_limits level))
unfolding get_trust_limits
resources_in_limits level =
    pick (level == "newbie") _ _ (limited _ 1 2048 refl refl (omega arith) (omega arith)) (
      pick (level == "citizen") _ _ (limited _ 4 8192 refl refl (omega arith) (omega arith)) (
        pick (level == "operator") _ _ (limited _ 8 16384 refl refl (omega arith) (omega arith)) (
          pick (level == "admin") _ _ (unlimited _ refl refl)
            (limited _ 1 2048 refl refl (omega arith) (omega arith)))))
