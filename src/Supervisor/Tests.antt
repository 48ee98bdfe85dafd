-- ===== src/Supervisor/Tests.antt =====
-- Two services, an API that needs a database, and the theorems at them.
use project_firestarter.Prelude.{
  arith, if◌then◌else◌, ℕ, suc, ◌+◌, ◌≡◌, ◌≢◌, ◌↔◌, refl, pos, String, String-Eq, true, false, List,
  [], ◌∷◌, none, some, lookup, insert, length, leb, In, here, member, if◌then◌else◌,
}
use project_firestarter.Browser.Json.{Json, int, str, arr, obj, nil, cons, end, field}
use project_firestarter.Supervisor.Spec.{
  starting, stopped, ready, draining, ServiceSpec, Services, Manifest,
}
use project_firestarter.Supervisor.Dag.{
  returned, validate_dag, manifest_init, closure, keys, check_dependencies,
}
use project_firestarter.Supervisor.Dag.Order.{Topological, validate_dag-Topological}
use project_firestarter.Supervisor.Dag.Ends.{Ends, validate_dag-Ends}
use project_firestarter.Supervisor.Dag.Closure.{Reaches}
use project_firestarter.Supervisor.Dag.Accepted.{closure-Reaches, manifest_init-acyclic}
use project_firestarter.Supervisor.Runtime.{Time, Adapter, Runtime, Shared}
use project_firestarter.Supervisor.Synthetic.{
  Synthetic, Synthetic-Adapter, synthetic_start, synthetic_ready, synthetic_stop,
}
use project_firestarter.Supervisor.Machine.{Call, enter, holding}
use project_firestarter.Supervisor.Reaper.{plan_one, reap}
use project_firestarter.Supervisor.Reaper.Idle.{reap-reap, plan_one-reap}
use project_firestarter.Supervisor.Threads.{
  World, Turn, call, run, acquire, shutdown, run_all, initial,
}
use project_firestarter.Supervisor.Threads.Moves.{leases_of}
use project_firestarter.Supervisor.Threads.Leases.{holders, run_all-holders, run_all-stays_up}
use project_firestarter.Supervisor.Threads.Down.{is_down, Stops}
use project_firestarter.Supervisor.Threads.Shutdown.{shutdown-Down}
use project_firestarter.Supervisor.Parse.{
  Net, service_id_ok, exact_keys, dependency_list, health_path_ok, loopback_http_url, bounded_int,
  strict_bool,
}
use project_firestarter.Supervisor.Parse.Entries.{from_dict}
use project_firestarter.Supervisor.Parse.Valid.{Valid, from_dict-Valid}

abbrev api : ServiceSpec
api = record {
  service_id = "api";
  adapter = "synthetic";
  upstream = "http://127.0.0.1:8001";
  dependencies = "db" ∷ [];
  health = record { path = "/health"; interval_ms = 10 };
  wake_timeout_ms = 1000;
  idle_timeout_ms = 50;
  drain_grace_ms = 20;
  never_stop = false;
  retain = false;
}

abbrev db : ServiceSpec
db = record api { service_id = "db"; upstream = "http://127.0.0.1:8002"; dependencies = [] }

abbrev two : Services
two = ("api", api) ∷ ("db", db) ∷ []

abbrev in_order : List String
in_order = "db" ∷ "api" ∷ []

abbrev manifest : Manifest
manifest = record { services = two; topological_order = in_order }

two_ordered : validate_dag two 3 ≡ returned in_order
unfolding validate_dag lookup check_dependencies insert
two_ordered = refl

two_accepted : manifest_init two 3 ≡ returned manifest
unfolding manifest_init lookup check_dependencies insert
two_accepted = refl

validate_dag-Topological_example :
    Topological two [] in_order
    × ((x : String) → member x (keys two) ≡ true → member x in_order ≡ true)
validate_dag-Topological_example = validate_dag-Topological two 3 in_order two_ordered

validate_dag-Ends_example : Ends (validate_dag two (suc (length two)))
validate_dag-Ends_example = validate_dag-Ends two

closure-Reaches_example :
    (r : List String) × (closure manifest (length in_order) "api" ≡ returned r)
    × ((x : String) → (member x r ≡ true) ↔ Reaches two "api" x)
    × Topological two [] r
closure-Reaches_example = closure-Reaches two 3 manifest "api" two_accepted refl

manifest_init-acyclic_example : ¬ Reaches two "db" "api"
unfolding lookup
manifest_init-acyclic_example =
    manifest_init-acyclic two 3 manifest "api" "db" api two_accepted refl refl refl

instance abbrev Test_Time : Time ℕ
Test_Time = record {
  nought = 0;
  plus = λ a b. a + b;
  plus_ms = λ a ms. a + ms;
  earlier = λ a b. if leb a b then a else b;
  passed = λ deadline now. leb deadline now;
  at_least = λ now deadline. leb deadline now;
  lasted = λ now since ms. leb (since + ms) now;
}

instance abbrev Test_Adapter : Adapter ℕ (Synthetic ℕ)
Test_Adapter = Synthetic-Adapter

abbrev quiet : Synthetic ℕ
quiet = record {
  ready_delay = [];
  fail_start = [];
  fail_health = [];
  ready_at = [];
  start_count = [];
  stop_count = [];
}

-- The clock's readings, one after another.
abbrev clock : ℕ → ℕ
clock n = n

-- One thread acquires the API.
abbrev waking : List Turn
waking =
    call (acquire "api")
    ∷ run 0
    ∷ run 0
    ∷ run 0
    ∷ run 0
    ∷ run 0
    ∷ run 0
    ∷ run 0
    ∷ run 0
    ∷ run 0
    ∷ run 0
    ∷ []

abbrev leased : World ℕ (Synthetic ℕ)
leased = run_all clock (initial manifest quiet) waking

still_up : leased.system.shared.shutdown ≡ false
unfolding run_all initial synthetic_start synthetic_ready synthetic_stop closure lookup insert
still_up = refl

lease_held : In (holding in_order) leased.threads
unfolding run_all initial synthetic_start synthetic_ready synthetic_stop closure lookup insert
lease_held = here

run_all-holders_example : holders "db" leased.threads ≡ leases_of leased.system.runtimes "db"
run_all-holders_example = run_all-holders clock manifest quiet waking "db" still_up

run_all-stays_up_example :
    (r : Runtime ℕ) × (lookup leased.system.runtimes "db" ≡ some r)
    × (r.state ≢ stopped)
    × (r.state ≢ draining)
run_all-stays_up_example =
    run_all-stays_up clock manifest quiet waking (holding in_order) "db" still_up lease_held refl

-- The runtimes while the lease is held, and a supervisor in that state.
abbrev ready_db : Runtime ℕ
ready_db = record {
  spec = db;
  state = ready;
  leases = 0;
  retain = false;
  ready_at = some 7;
  last_release = some 9;
  drain_deadline = none;
}

abbrev at_work : World ℕ (Synthetic ℕ)
at_work = record {
  threads = holding in_order ∷ [];
  system = record {
    manifest = manifest;
    runtimes =
        ("api", record ready_db { spec = api; leases = 1 })
        ∷ ("db", record ready_db { leases = 1 })
        ∷ [];
    shared = record { events = []; adapter = quiet; reads = 12; shutdown = false };
  };
}

-- The lease is released, and a call of `acquire` begins, while `shutdown` goes on.
abbrev interleaved : List Turn
interleaved = run 1 ∷ run 0 ∷ call (acquire "api") ∷ run 0 ∷ run 1 ∷ run 2 ∷ []

quiet-Stops : Stops Test_Adapter
unfolding synthetic_stop
quiet-Stops s a = refl

abbrev down_db : Runtime ℕ
down_db = record ready_db { state = stopped; ready_at = none; last_release = none }

db_down :
    lookup (run_all clock at_work (call shutdown ∷ interleaved)).system.runtimes "db" ≡ some down_db
unfolding run_all initial synthetic_start synthetic_ready synthetic_stop closure lookup insert
db_down = refl

shutdown-Down_example : is_down down_db ≡ true
unfolding lookup
shutdown-Down_example =
    shutdown-Down clock quiet-Stops at_work interleaved "db"
      (
        (record ready_db { leases = 1 }, refl),
        ((record ready_db { spec = api; leases = 1 }, refl), tt),
      )
      refl (omega arith) down_db db_down

abbrev shared : Shared (Synthetic ℕ)
shared = at_work.system.shared

abbrev drained_db : Runtime ℕ
drained_db = (reap 60 [] [] "db" ready_db shared).1.0

abbrev waker : Call ℕ
waker = record { current = "db"; rest = []; overall_deadline = 200; acquired = []; started = [] }

reap-reap_example :
    (drained_db.state ≡ (if leb 80 60 then stopped else draining))
    × ((reap 90 [] [] "db" drained_db shared).1.0.state ≡ stopped)
    × ((enter clock waker 200 false drained_db shared).1.0.state
        ≡ (if false then drained_db.state else if leb 80 60 then starting else ready))
    × ((enter clock waker 200 false drained_db shared).1.0.drain_deadline
        ≡ (if false then drained_db.drain_deadline else none))
reap-reap_example =
    reap-reap clock 60 90 [] [] [] [] "db" ready_db shared shared waker 200 false quiet-Stops refl
      refl refl

plan_one-reap_example :
    (plan_one 60 [] "db" ready_db ≡ none) ↔ ((reap 60 [] [] "db" ready_db shared).1.0.state ≡ ready)
plan_one-reap_example = plan_one-reap 60 [] [] "db" ready_db shared quiet-Stops (λ p. p) (λ p. refl)

-- A retain pin that was set while the service drained: the plan has no step, and the service is
-- stopped all the same.
abbrev pinned_late : Runtime ℕ
pinned_late = record ready_db { state = draining; retain = true; drain_deadline = some 80 }

late_pin_planned : plan_one 90 ("db" ∷ []) "db" pinned_late ≡ none
unfolding plan_one
late_pin_planned = refl

late_pin_reaped : (reap 90 [] ("db" ∷ []) "db" pinned_late shared).1.0.state ≡ stopped
unfolding reap synthetic_stop
late_pin_reaped = refl

-- A manifest with one service; the stand-ins know one URL and one address.
abbrev stand_in : Net
stand_in = record {
  urlsplit = λ s. some (record {
    scheme = "http";
    username = none;
    password = none;
    hostname = some "127.0.0.1";
    port = some 8002;
    path = "";
    query = "";
    fragment = "";
  });
  ip_address = λ h. some (record { is_loopback = true; version = 4; text = "127.0.0.1" });
}

abbrev raw : Json ℕ
raw = obj (
    field "schema_version" (int (pos 1)) (
      field "services"
        (arr (
          cons
            (obj (
              field "id" (str "db") (
                field "adapter" (str "synthetic") (
                  field "upstream" (str "http://127.0.0.1:8002") (
                    field "health"
                      (obj (field "path" (str "/health") (field "interval_ms" (int (pos 10)) end)))
                      (field "wake_timeout_ms" (int (pos 1000)) (
                        field "idle_timeout_ms" (int (pos 50))
                          (field "drain_grace_ms" (int (pos 20)) end))))))))
            nil))
        end))

abbrev parsed : Manifest
parsed = record { services = ("db", db) ∷ []; topological_order = "db" ∷ [] }

raw-parsed : from_dict stand_in raw 2 ≡ returned parsed
unfolding from_dict exact_keys service_id_ok dependency_list health_path_ok loopback_http_url
    bounded_int strict_bool insert lookup check_dependencies
raw-parsed = refl

from_dict-Valid_example : (db.service_id ≡ "db") × Valid db
unfolding lookup
from_dict-Valid_example = from_dict-Valid stand_in raw 2 parsed "db" db raw-parsed refl
