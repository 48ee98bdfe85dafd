-- ===== src/Registry/Commands.antt =====
-- work_registry/registry.py: the commands that read or write the file, as functions from its entries
-- to the exit code and the entries. A file that is missing or torn is loaded as no entries.
use project_firestarter.Prelude.{
  ℕ, String, String-Eq, ◌==◌, Bool, false, not, ◌&&◌, Option, none, some, ℤ, select, Dict, lookup,
  insert, pop, if◌then◌else◌,
}

pub record Entry (F : Type 0) : Type 0 where
  pub owner : String
  pub intent : String
  pub acquired_at : F
  pub heartbeat_at : F
  pub expires_at : F

-- `data["entries"]`
abbrev pub Entries : Type 0 → Type 0
Entries F = Dict String (Entry F)

-- What the commands do with the floats of `time.time()`: `a > b`, and adding whole seconds.
pub record TimeOps (F : Type 0) : Type 0 where
  pub later : F → F → Bool
  pub plus : F → ℤ → F

-- The readings of the clock by `cmd_claim`, in their order; the second is made only for a new claim.
pub record ClaimClock (F : Type 0) : Type 0 where
  pub at_live : F
  pub at_acquire : F
  pub at_heartbeat : F
  pub at_expiry : F

module _ {F : Type 0} where
  -- `held["acquired_at"] if held and held["owner"] == me else _now()`
  unfoldable pub acquired : String → Option (Entry F) → F → F
  acquired me none now = now
  acquired me (some held) now = if held.owner == me then held.acquired_at else now

  -- `held and held["owner"] != me and not a.force`
  unfoldable pub blocked : String → Bool → Option (Entry F) → Bool
  blocked me force none = false
  blocked me force (some held) = not (held.owner == me) && not force

  unfoldable pub check_code : String → Option (Entry F) → ℕ
  check_code me none = 0
  check_code me (some held) = if held.owner == me then 0 else 1

  -- `cmd_release`
  unfoldable pub cmd_release : String → String → Bool → Entries F → ℕ × Entries F
  cmd_release me resource force entries = elim (lookup entries resource) [
    | none ↦ (0, entries)
    | some e ↦ if not (e.owner == me) && not force then (1, entries) else (0, pop entries resource)
  ]

module _ {F : Type 0} (ops : TimeOps F) where
  -- `_live`
  unfoldable pub live : Entries F → F → Entries F
  live entries now = select (λ e. ops.later e.1.expires_at now) entries

  abbrev pub claim_entry : String → String → ℤ → ClaimClock F → Option (Entry F) → Entry F
  claim_entry me intent ttl clock held = record {
    owner = me;
    intent = intent;
    acquired_at = acquired me held clock.at_acquire;
    heartbeat_at = clock.at_heartbeat;
    expires_at = ops.plus clock.at_expiry ttl;
  }

  -- `cmd_claim`
  unfoldable pub cmd_claim :
      String → String → String → ℤ → Bool → ClaimClock F → Entries F → ℕ × Entries F
  unfolding live blocked acquired
  cmd_claim me resource intent ttl force clock entries =
      let current = live entries clock.at_live in
      let held = lookup current resource in
      if blocked me force held
      then (1, entries)
      else (0, insert current resource (claim_entry me intent ttl clock held))

  -- `cmd_check`
  unfoldable pub cmd_check : String → String → F → Entries F → ℕ
  unfolding live check_code
  cmd_check me resource now entries = check_code me (lookup (live entries now) resource)

  -- `cmd_heartbeat`: the two readings are for the heartbeat and for the expiry.
  unfoldable pub cmd_heartbeat : String → String → ℤ → F → F → Entries F → ℕ × Entries F
  cmd_heartbeat me resource ttl beat now entries = elim (lookup entries resource) [
    | none ↦ (1, entries)
    | some e ↦ if not (e.owner == me) then (1, entries) else (
      0,
      insert entries resource (record e { heartbeat_at = beat; expires_at = ops.plus now ttl }),
    )
  ]
