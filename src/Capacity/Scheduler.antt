-- ===== src/Capacity/Scheduler.antt =====
-- `resource_scheduler.schedule`: which candidates get a lane, and which wait because the lanes are
-- taken or because other heavy work runs in their group.
pub mod Ranking
pub mod Lanes
use project_firestarter.Prelude.{
  ℕ, suc, ◌-◌, ℤ, pos, negsuc, leb_ℤ, ltb_ℤ, pos_part, String, String-Eq, ◌==◌, Bool, true, false,
  not, ◌&&◌, ◌||◌, List, [], ◌∷◌, ◌++◌, Option, none, some, length, leb, nat_eq, any, all, member,
  subset, Result, ok, err, Error, value_error, type_error, refuse_if, ◌>>=◌, ◌>>◌, if◌then◌else◌,
}
use Prim.Native.String.{compare}
use Prim.Native.Nat.{Ordering}
use project_firestarter.Browser.Json.{
  Json, null, boolean, int, float, str, arr, obj, Fields, end, field,
}
use project_firestarter.Browser.Ids.{codes}
use project_firestarter.Supervisor.Parse.{get, names}

abbrev profile_keys : List String
profile_keys =
    "resource_class" ∷ "contention_group" ∷ "cpu_intensity" ∷ "memory_intensity" ∷ "io_intensity"
    ∷ []

abbrev resource_classes : List String
resource_classes = "light" ∷ "heavy" ∷ []

abbrev intensities : List String
intensities = "low" ∷ "moderate" ∷ "high" ∷ []

-- What the scheduler reads of a profile that has been checked.
pub record Profile : Type 0 where
  pub heavy : Bool
  pub group : String

-- `item["candidate_id"]`, with `int(...)` of the two numbers.
pub record Candidate (F : Type 0) : Type 0 where
  pub candidate_id : String
  pub priority : ℤ
  pub queue_seconds : ℤ
  pub resource_profile : Json F

unfoldable pub group_ok : String → Bool
group_ok s =
    let cs = codes s in
    not (s == "")
    && leb (length cs) 64
    && not (any (λ c. nat_eq c b'/' || nat_eq c b'\\' || nat_eq c b'@') cs)

abbrev is_heavy : Option String → Bool
is_heavy none = false
is_heavy (some s) = s == "heavy"

module _ {F : Type 0} where
  -- `value in allowed` for a set of texts: a list or a dictionary has no hash.
  unfoldable pub in_set : Option (Json F) → List String → Result Bool
  in_set none allowed = ok false
  in_set (some v) allowed = elim v [
    | str s ↦ ok (member s allowed)
    | arr xs ↦ err (type_error "unhashable type")
    | obj fs ↦ err (type_error "unhashable type")
    | _ ↦ ok false
  ]

  abbrev text_of : Option (Json F) → Option String
  text_of none = none
  text_of (some v) = elim v [ str s ↦ some s | _ ↦ none ]

  -- `if value[key] not in allowed: raise`
  unfoldable pub check_in : Fields F → String → List String → String → Result (Unit {0})
  unfolding in_set
  check_in fs key allowed message =
      in_set (get fs key) allowed >>= λ found. refuse_if (not found) message

  -- The first two checks of `_profile`.
  unfoldable pub shape : Fields F → Result (Unit {0})
  unfolding check_in
  shape fs =
      refuse_if (not (subset (names fs) profile_keys && subset profile_keys (names fs)))
        "resource_profile fields are incompatible"
      >> check_in fs "resource_class" resource_classes "resource_class is invalid"

  -- `_profile`
  unfoldable pub profile : Json F → Result Profile
  unfolding group_ok shape check_in
  profile value = elim value [
    | obj fs ↦ elim (text_of (get fs "contention_group")) [
      | none ↦
          shape fs >> refuse_if true "contention_group must be a coarse privacy-safe alias" >>= λ u.
          ok (record { heavy = false; group = "" })
      | some g ↦
          shape fs
          >> refuse_if (not (group_ok g)) "contention_group must be a coarse privacy-safe alias"
          >> check_in fs "cpu_intensity" intensities "cpu_intensity is invalid"
          >> check_in fs "memory_intensity" intensities "memory_intensity is invalid"
          >> check_in fs "io_intensity" intensities "io_intensity is invalid"
          >>= λ u. ok (record { heavy = is_heavy (text_of (get fs "resource_class")); group = g })
    ]
    | _ ↦ err (value_error "resource_profile fields are incompatible")
  ]

  -- `active_heavy_groups`
  unfoldable pub heavy_groups : List (Json F) → Result (List String)
  unfolding profile
  heavy_groups [] = ok []
  heavy_groups (v ∷ vs) =
      profile v >>= λ p. heavy_groups vs >>= λ rest. ok (if p.heavy then p.group ∷ rest else rest)

  -- The key's order: more priority first, then a longer wait, then the identifier.
  unfoldable pub comes_first : Candidate F → Candidate F → Bool
  comes_first c d =
      let by_id : Bool = elim (compare c.candidate_id d.candidate_id) [
        | Ordering.gt ↦ false
        | _ ↦ true
      ] in
      if ltb_ℤ d.priority c.priority
      then true
      else if ltb_ℤ c.priority d.priority
      then false
      else if ltb_ℤ d.queue_seconds c.queue_seconds
      then true
      else if ltb_ℤ c.queue_seconds d.queue_seconds
      then false
      else by_id

  unfoldable pub place : Candidate F → List (Candidate F) → List (Candidate F)
  unfolding comes_first
  place c [] = c ∷ []
  place c (d ∷ ds) = let rest = place c ds in if comes_first c d then c ∷ d ∷ ds else d ∷ rest

  -- `ordered`
  unfoldable pub ordered : List (Candidate F) → List (Candidate F)
  unfolding place
  ordered [] = []
  ordered (c ∷ cs) = place c (ordered cs)

-- A deferred candidate and the reason.
abbrev pub Deferred : Type 0
Deferred = String × String

module _ {F : Type 0} where
  -- The loop, after `n` candidates were selected: the rest of `selected` and of `deferred`.
  unfoldable pub fill :
      ℕ → ℕ → List String → List (Candidate F) → Result (List String × List Deferred)
  unfolding profile
  fill deficit n groups [] = ok ([], [])
  fill deficit n groups (c ∷ cs) =
      let full = fill deficit n groups cs >>= λ out.
      ok (out.0, (c.candidate_id, "LOGICAL_CAPACITY_FULL") ∷ out.1) in
      let busy = fill deficit n groups cs >>= λ out.
      ok (out.0, (c.candidate_id, "HEAVY_CONTENTION_SERIALIZED") ∷ out.1) in
      profile c.resource_profile >>= λ p.
      if leb deficit n
      then full
      else if p.heavy && member p.group groups
      then busy
      else (fill deficit (suc n) (if p.heavy then p.group ∷ groups else groups) cs >>= λ out.
          ok (c.candidate_id ∷ out.0, out.1))

pub record Schedule : Type 0 where
  pub logical_lane_deficit : ℕ
  pub selected_candidate_ids : List String
  pub deferred : List Deferred

-- `schedule`, on the profiles of the lanes that are active or reserved.
unfoldable pub schedule : {F : Type 0} → ℤ → List (Json F) → List (Candidate F) → Result Schedule
unfolding heavy_groups ordered fill
schedule capacity active candidates =
    let lanes = pos_part capacity in
    let deficit = lanes - length active in
    refuse_if (not (leb_ℤ (pos 1) capacity && leb_ℤ capacity (pos 64)))
      "configured_lane_capacity must be 1..64"
    >> (heavy_groups active >>= λ groups. fill deficit 0 groups (ordered candidates) >>= λ out.
        ok (record {
          logical_lane_deficit = deficit;
          selected_candidate_ids = out.0;
          deferred = out.1;
        }))
