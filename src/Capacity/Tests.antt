-- ===== src/Capacity/Tests.antt =====
-- Two lanes of which one is taken by heavy work on the disk, and two snapshots of a host.
use project_firestarter.Prelude.{
  All, In, none, ltb_ℤ, if◌then◌else◌, ◌-ℤ◌, false, pos_part, err, type_error, ◌>>=◌, leb, some,
  true, arith, ℕ, ◌+◌, ◌-◌, ◌≤◌, ◌≡◌, refl, pos, String, List, [], ◌∷◌, ok, count,
}
use project_firestarter.Browser.Json.{Json, str, int, arr, obj, nil, end, field}
use project_firestarter.Capacity.Adaptive.{Host, Metrics, compute_capacity}
use project_firestarter.Capacity.Adaptive.Requests.{
  source, evaluate, strict, identifier, timestamp, integer, load, evidence_ref,
}
use project_firestarter.Capacity.Adaptive.Bounds.{Worse, Within, compute_capacity-Within}
use project_firestarter.Capacity.Adaptive.Closed.{closed, evaluate-closed}
use project_firestarter.Capacity.Scheduler.{
  in_set, Candidate, Schedule, heavy_groups, ordered, schedule,
}
use project_firestarter.Capacity.Scheduler.Lanes.{Apart, Split, schedule-Apart}
use project_firestarter.Capacity.Scheduler.Ranking.{ids}

abbrev profile_of : String → String → Json ℕ
profile_of class group = obj (
    field "resource_class" (str class) (
      field "contention_group" (str group) (
        field "cpu_intensity" (str "low")
          (field "memory_intensity" (str "low") (field "io_intensity" (str "high") end)))))

abbrev candidates : List (Candidate ℕ)
candidates =
    record {
      candidate_id = "report";
      priority = pos 1;
      queue_seconds = pos 30;
      resource_profile = profile_of "light" "cpu";
    }
    ∷ record {
      candidate_id = "index";
      priority = pos 2;
      queue_seconds = pos 5;
      resource_profile = profile_of "heavy" "disk";
    }
    ∷ []

abbrev active : List (Json ℕ)
active = profile_of "heavy" "disk" ∷ []

abbrev planned : Schedule
planned = record {
  logical_lane_deficit = 1;
  selected_candidate_ids = "report" ∷ [];
  deferred = ("index", "HEAVY_CONTENTION_SERIALIZED") ∷ [];
}

scheduled : schedule (pos 2) active candidates ≡ ok planned
unfolding schedule
scheduled = refl

schedule-Apart_example :
    (1 ≤ 2 - 1)
    × ((i : String) → count i ("report" ∷ []) + count i ("index" ∷ []) ≡ count i (ids candidates))
    × ((groups : List String) × (picked : List (Candidate ℕ)) × (waiting : List (Candidate ℕ))
        × (heavy_groups active ≡ ok groups)
        × All (λ c. In c candidates) picked
        × All (λ c. In c candidates) waiting
        × Split (ordered candidates) picked waiting
        × (ids picked ≡ "report" ∷ [])
        × (ids waiting ≡ "index" ∷ [])
        × Apart groups picked)
schedule-Apart_example = schedule-Apart (pos 2) active candidates planned scheduled

-- Floats are numbers here, and no int from a million on converts; a date is not read.
abbrev host : Host ℕ
host = record {
  of_int = λ n. if ltb_ℤ n (pos 1000000) then some (pos_part n) else none;
  is_finite = λ x. true;
  is_negative = λ x. false;
  saturated = λ x cpus. leb cpus x;
  microseconds = λ s. some (pos 0);
}

abbrev calm : Metrics ℕ
calm = record {
  logical_cpus = 8;
  load_1m = 3;
  memory_pressure_pct = 40;
  swap_used_mb = 0;
  age_seconds = 5;
}

abbrev swapping : Metrics ℕ
swapping = record calm { swap_used_mb = 12; age_seconds = 9 }

swapping-Worse : Worse host calm swapping
swapping-Worse = record {
  age = omega arith;
  pressure = omega arith;
  swap = omega arith;
  saturated = λ h. h;
}

compute_capacity-Within_example :
    Within (compute_capacity host calm 4) (compute_capacity host swapping 3)
    × ((compute_capacity host calm 4).visible_cap ≤ 4)
    × ((compute_capacity host calm 4).visible_cap ≤ 4)
    × ((compute_capacity host calm 4).minimum_shipping_slots
        ≤ (compute_capacity host calm 4).visible_cap)
compute_capacity-Within_example =
    compute_capacity-Within host calm swapping 4 3 swapping-Worse (omega arith)

abbrev request : Json ℕ
request = obj (
    field "interface_version" (str "1.0") (
      field "request_id" (str "r1") (
        field "snapshot_id" (str "s1") (
          field "source"
            (obj (field "kind" (str "synthetic-fixture") (field "evidence_ref" (str "lab 1") end)))
            (field "metrics"
              (obj (
                field "logical_cpus" (int (pos 8)) (
                  field "load_1m" (int (pos 3)) (
                    field "memory_pressure_pct" (int (pos 40)) (
                      field "swap_used_mb" (int (pos 0))
                        (field "observed_at" (str "2026-01-01T00:00:00Z") end))))))
              (field "visible_limit" (int (pos 4))
                (field "now" (str "2026-01-01T00:00:00.5Z") end)))))))

evaluate-closed_example : closed (evaluate host request) ≡ true
evaluate-closed_example = evaluate-closed host request refl refl

-- A list as the source's kind is met with another exception.
abbrev odd_source : Json ℕ
odd_source = obj (field "kind" (arr nil) (field "evidence_ref" (str "lab 1") end))

odd_source_unhashable : source (some odd_source) ≡ err (type_error "unhashable type")
unfolding source strict
odd_source_unhashable = refl

-- The request is accepted.
request_accepted :
    (evaluate host request >>= λ r. ok r.1)
    ≡ ok (compute_capacity host (record calm { age_seconds = 0 }) 4)
unfolding evaluate strict identifier timestamp integer load evidence_ref in_set ◌-ℤ◌
request_accepted = refl
