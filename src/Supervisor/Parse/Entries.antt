-- ===== src/Supervisor/Parse/Entries.antt =====
-- The loop of `Manifest.from_dict` over the entries.
use Prim.Native.String.{◌++◌ as append}
use project_firestarter.Prelude.{
  ℕ, suc, ℤ_Eq, pos, String, String-Eq, ◌==◌, Bool, false, not, List, [], ◌∷◌, ◌++◌, Option, none,
  some, insert, leb, ltb, member, if◌then◌else◌,
}
use project_firestarter.Browser.Json.{Json, boolean, int, arr, obj, Items, nil, cons, Fields}
use project_firestarter.Supervisor.Spec.{ServiceSpec, Services, Manifest}
use project_firestarter.Supervisor.Dag.{Walk, returned, ◌>>=◌, manifest_init}
use project_firestarter.Supervisor.Parse.{
  Net, bad, decimal, get, get_or, exact_keys, bounded_int, strict_bool, text_of, dependency_list,
  service_id_ok, health_path_ok, loopback_http_url,
}

abbrev service_keys : List String
service_keys =
    "id" ∷ "adapter" ∷ "upstream" ∷ "dependencies" ∷ "health" ∷ "wake_timeout_ms"
    ∷ "idle_timeout_ms" ∷ "drain_grace_ms" ∷ "never_stop" ∷ "retain" ∷ []

abbrev health_keys : List String
health_keys = "path" ∷ "interval_ms" ∷ []

abbrev pub top_level_keys : List String
top_level_keys = "schema_version" ∷ "services" ∷ []

abbrev pub guard : Bool → String → String → Walk (Unit {0})
guard test context text = if test then returned tt else bad context text

-- `services` of `__init__`.
abbrev pub by_id : Services → List ServiceSpec → Services
by_id d [] = d
by_id d (s ∷ ss) = by_id (insert d s.service_id s) ss

module _ {F : Type 0} where
  abbrev pub fields_of : Option (Json F) → Option (Fields F)
  fields_of none = none
  fields_of (some v) = elim v [ obj fs ↦ some fs | _ ↦ none ]

  abbrev pub items_of : Option (Json F) → Option (Items F)
  items_of none = none
  items_of (some v) = elim v [ arr xs ↦ some xs | _ ↦ none ]

  abbrev pub count_items : Items F → ℕ
  count_items nil = 0
  count_items (cons v xs) = suc (count_items xs)

  -- `entry.get("id")`, checked.
  unfoldable pub entry_id : Fields F → List String → String → Walk String
  entry_id entry seen context = elim (text_of (get entry "id")) [
    | none ↦ bad context ".id is invalid"
    | some i ↦ guard (service_id_ok i) context ".id is invalid" >>= λ _.
        guard (not (member i seen)) "duplicate service id: " i >>= λ _. returned i
  ]

  -- `entry.get("health")` up to the check of the path, with the rest of its fields.
  unfoldable pub entry_health : Fields F → String → Walk (String × Fields F)
  entry_health entry context = elim (fields_of (get entry "health")) [
    | none ↦ bad context ".health must be an object"
    | some health ↦ exact_keys health health_keys (append context ".health") >>= λ _.
        elim (text_of (get health "path")) [
          | none ↦ bad context ".health.path is invalid"
          | some path ↦ guard (health_path_ok path) context ".health.path is invalid" >>= λ _.
              returned (path, health)
        ]
  ]

  abbrev is_synthetic : Option (Json F) → Bool
  is_synthetic v = elim (text_of v) [ none ↦ false | some s ↦ s == "synthetic" ]

  abbrev pub is_one : Option (Json F) → Bool
  is_one none = false
  is_one (some v) = elim v [ int n ↦ n == pos 1 | _ ↦ false ]

  module _ (net : Net) where
    -- The arguments of `ServiceSpec`, evaluated in order.
    unfoldable pub build_spec :
        Fields F → String → String → List String → String → Fields F → Walk ServiceSpec
    build_spec entry context i dependencies path health =
        loopback_http_url net (get entry "upstream") (append context ".upstream") >>= λ upstream.
        bounded_int (get health "interval_ms") (append context ".health.interval_ms") 1 10000
        >>= λ interval.
            bounded_int (get entry "wake_timeout_ms") (append context ".wake_timeout_ms") 1 300000
            >>= λ wake.
                bounded_int (get entry "idle_timeout_ms") (append context ".idle_timeout_ms") 0
                  86400000
                >>= λ idle.
                    bounded_int (get entry "drain_grace_ms") (append context ".drain_grace_ms") 0
                      60000
                    >>= λ grace.
                        strict_bool (get_or entry "never_stop" (boolean false))
                          (append context ".never_stop")
                        >>= λ never_stop.
                            strict_bool (get_or entry "retain" (boolean false))
                              (append context ".retain")
                            >>= λ retain. returned (record {
                              service_id = i;
                              adapter = "synthetic";
                              upstream = upstream;
                              dependencies = dependencies;
                              health = record { path = path; interval_ms = interval };
                              wake_timeout_ms = wake;
                              idle_timeout_ms = idle;
                              drain_grace_ms = grace;
                              never_stop = never_stop;
                              retain = retain;
                            })

    -- The body of the loop for one entry.
    unfoldable pub parse_entry : Json F → List String → String → Walk ServiceSpec
    unfolding entry_id entry_health build_spec
    parse_entry value seen context = elim (fields_of (some value)) [
      | none ↦ bad context " must be an object"
      | some entry ↦ exact_keys entry service_keys context >>= λ _.
          entry_id entry seen context >>= λ i.
          guard (is_synthetic (get entry "adapter")) context
            ".adapter must be synthetic in this source-only release"
          >>= λ _.
              dependency_list (get_or entry "dependencies" (arr nil)) context >>= λ dependencies.
              entry_health entry context >>= λ parts.
              build_spec entry context i dependencies parts.0 parts.1
    ]

    -- The loop, with `seen` and `parsed`.
    unfoldable pub parse_entries :
        ℕ → Items F → List String → List ServiceSpec → Walk (List ServiceSpec)
    unfolding parse_entry
    parse_entries index nil seen parsed = returned parsed
    parse_entries index (cons v rest) seen parsed =
        parse_entry v seen (append "services[" (append (decimal index) "]")) >>= λ s.
        parse_entries (suc index) rest (seen ++ (s.service_id ∷ [])) (parsed ++ (s ∷ []))

    -- `raw.get("services")`, checked and parsed.
    unfoldable pub from_entries : Option (Json F) → ℕ → Walk Manifest
    unfolding parse_entries manifest_init
    from_entries value fuel = elim (items_of value) [
      | none ↦ bad "manifest" " services must be a non-empty list"
      | some xs ↦
          guard (ltb 0 (count_items xs)) "manifest" " services must be a non-empty list" >>= λ _.
          guard (leb (count_items xs) 256) "manifest" " services exceeds the 256-service limit"
          >>= λ _. parse_entries 0 xs [] [] >>= λ parsed. manifest_init (by_id [] parsed) fuel
    ]

    unfoldable pub from_dict : Json F → ℕ → Walk Manifest
    unfolding from_entries
    from_dict raw fuel = elim (fields_of (some raw)) [
      | none ↦ bad "manifest" " must be a JSON object"
      | some top ↦ exact_keys top top_level_keys "manifest" >>= λ _.
          guard (is_one (get top "schema_version")) "manifest" " schema_version must be exactly 1"
          >>= λ _. from_entries (get top "services") fuel
    ]
