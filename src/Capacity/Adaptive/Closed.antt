-- ===== src/Capacity/Adaptive/Closed.antt =====
-- How the evaluation of a request ends.
use project_firestarter.Prelude.{
  ℕ, String, String-Eq, ◌≡◌, refl, sym, ap, subst, arith, Bool, true, false, not, Option, none,
  some, List, [], ◌∷◌, Result, ok, err, value_error, type_error, overflow_error, key_error,
  refuse_if, ◌>>=◌, ltb_ℤ, ◌-ℤ◌, pos_part,
}
use project_firestarter.Browser.Json.{Json, null, boolean, int, float, str, arr, obj, Fields}
use project_firestarter.Supervisor.Parse.{get}
use project_firestarter.Capacity.Scheduler.{in_set}
use project_firestarter.Capacity.Adaptive.{Host, max_visible_cap}
use project_firestarter.Capacity.Adaptive.Requests.{
  strict, identifier, timestamp, integer, load, source, evidence_ref, request_of, validate_request,
  evaluate, is_version, request_keys, metric_keys,
}

-- It returned, or it raised an `AuditInputError`.
abbrev pub closed : {A : Type 0} → Result A → Bool
closed (ok a) = true
closed (err (value_error text)) = true
closed (err (key_error text)) = false
closed (err (type_error text)) = false
closed (err (overflow_error text)) = false

bind-closed :
    {A B : Type 0} (w : Result A) (next : A → Result B)
    → closed w ≡ true
    → ((a : A) → w ≡ ok a → closed (next a) ≡ true)
    → closed (w >>= next) ≡ true
bind-closed (ok a) next h k = k a refl
bind-closed (err (value_error text)) next h k = refl
bind-closed (err (key_error text)) next h k = cc
bind-closed (err (type_error text)) next h k = cc
bind-closed (err (overflow_error text)) next h k = cc

refuse_if-closed : (test : Bool) (message : String) → closed (refuse_if test message) ≡ true
refuse_if-closed true message = refl
refuse_if-closed false message = refl

-- Neither a list nor a dictionary.
abbrev pub is_scalar : {F : Type 0} → Option (Json F) → Bool
is_scalar v = elim v [ some (arr xs) ↦ false | some (obj fs) ↦ false | _ ↦ true ]

-- `value["source"]["kind"]`, where the path leads through dictionaries.
abbrev pub source_kind : {F : Type 0} → Option (Json F) → Option (Json F)
source_kind v = elim v [ some (obj fs) ↦ get fs "kind" | _ ↦ none ]

abbrev pub kind_in : {F : Type 0} → Json F → Option (Json F)
kind_in v = elim v [ obj fs ↦ source_kind (get fs "source") | _ ↦ none ]

-- `value["metrics"]["load_1m"]`, where the path leads through dictionaries.
abbrev pub load_of : {F : Type 0} → Option (Json F) → Option (Json F)
load_of v = elim v [ some (obj fs) ↦ get fs "load_1m" | _ ↦ none ]

abbrev pub load_in : {F : Type 0} → Json F → Option (Json F)
load_in v = elim v [ obj fs ↦ load_of (get fs "metrics") | _ ↦ none ]

-- Not an int that is too large for a float.
abbrev pub converts : {F : Type 0} → Host F → Option (Json F) → Bool
converts host v = elim v [
  | some (int n) ↦ elim (host.of_int n) [ none ↦ false | some x ↦ true ]
  | _ ↦ true
]

module _ {F : Type 0} where
  strict-closed :
      (value : Option (Json F)) (fields : List String) (label : String)
      → closed (strict value fields label) ≡ true
  unfolding strict
  strict-closed value fields label = ground arith

  strict_gives :
      (value : Option (Json F)) (fields : List String) (label : String) (fs : Fields F)
      → strict value fields label ≡ ok fs
      → value ≡ some (obj fs)
  unfolding strict
  strict_gives value fields label fs h = ground (arith, h)

  identifier-closed :
      (value : Option (Json F)) (label : String) → closed (identifier value label) ≡ true
  unfolding identifier
  identifier-closed value label = ground arith

  timestamp-closed :
      (host : Host F) (value : Option (Json F)) (label : String)
      → closed (timestamp host value label) ≡ true
  unfolding timestamp
  timestamp-closed host value label = ground arith

  integer-closed :
      (value : Option (Json F)) (label : String) (low high : ℕ)
      → closed (integer value label low high) ≡ true
  unfolding integer
  integer-closed value label low high = ground arith

  load-closed :
      (host : Host F) (value : Option (Json F))
      → converts host value ≡ true
      → closed (load host value) ≡ true
  unfolding load
  load-closed host none k = refl
  load-closed host (some (int n)) k = ground (arith, k)
  load-closed host (some (float x)) k = ground arith
  load-closed host (some null) k = refl
  load-closed host (some (boolean b)) k = refl
  load-closed host (some (str s)) k = refl
  load-closed host (some (arr xs)) k = refl
  load-closed host (some (obj fs)) k = refl

  in_set-closed :
      (value : Option (Json F)) (allowed : List String)
      → is_scalar value ≡ true
      → closed (in_set value allowed) ≡ true
  unfolding in_set
  in_set-closed value allowed h = ground (arith, h)

  evidence_ref-closed : (value : Option (Json F)) → closed (evidence_ref value) ≡ true
  unfolding evidence_ref
  evidence_ref-closed value = ground arith

  source-closed :
      (value : Option (Json F))
      → is_scalar (source_kind value) ≡ true
      → closed (source value) ≡ true
  unfolding source
  source-closed value h =
      bind-closed (strict value ("kind" ∷ "evidence_ref" ∷ []) "source") _ (strict-closed _ _ _)
        (λ fs e.
          bind-closed
            (in_set (get fs "kind") ("synthetic-fixture" ∷ "untrusted-local-observation" ∷ [])) _
            (in_set-closed _ _ (rw (strict_gives value _ "source" fs e) at h))
            (λ found f.
              bind-closed (refuse_if (not found) "source.kind is unsupported") _
                (refuse_if-closed (not found) "source.kind is unsupported")
                (λ u g.
                  bind-closed (evidence_ref (get fs "evidence_ref")) _ (evidence_ref-closed _)
                    (λ r i. refl))))

  kind_inside :
      (value : Json F) (request : Fields F)
      → some value ≡ some (obj request)
      → is_scalar (kind_in value) ≡ true
      → is_scalar (source_kind (get request "source")) ≡ true
  kind_inside value request e h =
      let same : value ≡ obj request = cc in subst (λ v. is_scalar (kind_in v) ≡ true) same h

  load_inside :
      (host : Host F) (value : Json F) (request metrics : Fields F)
      → some value ≡ some (obj request)
      → get request "metrics" ≡ some (obj metrics)
      → converts host (load_in value) ≡ true
      → converts host (get metrics "load_1m") ≡ true
  load_inside host value request metrics e m h =
      let same : value ≡ obj request = cc in
      let inside : load_in value ≡ get metrics "load_1m" =
        subst (λ v. load_in v ≡ get metrics "load_1m") (sym same) (ap load_of m) in
      subst (λ v. converts host v ≡ true) inside h

  module _ (host : Host F) where
    request_of-closed :
        (request metrics : Fields F) (observed now : String) (age : ℕ)
        → is_scalar (source_kind (get request "source")) ≡ true
        → converts host (get metrics "load_1m") ≡ true
        → closed (request_of host request metrics observed now age) ≡ true
    unfolding request_of
    request_of-closed request metrics observed now age h total =
        bind-closed (identifier (get request "request_id") "request_id") _
          (identifier-closed (get request "request_id") "request_id")
          (λ a p.
            bind-closed (identifier (get request "snapshot_id") "snapshot_id") _
              (identifier-closed (get request "snapshot_id") "snapshot_id")
              (λ b q.
                bind-closed (source (get request "source")) _
                  (source-closed (get request "source") h)
                  (λ c r.
                    bind-closed (integer (get metrics "logical_cpus") "metrics.logical_cpus" 1 1024)
                      _ (integer-closed (get metrics "logical_cpus") "metrics.logical_cpus" 1 1024)
                      (λ d s.
                        bind-closed (load host (get metrics "load_1m")) _
                          (load-closed host (get metrics "load_1m") total)
                          (λ e t.
                            bind-closed
                              (integer (get metrics "memory_pressure_pct")
                                "metrics.memory_pressure_pct" 0 100)
                              _
                              (integer-closed (get metrics "memory_pressure_pct")
                                "metrics.memory_pressure_pct" 0 100)
                              (λ f u.
                                bind-closed
                                  (integer (get metrics "swap_used_mb") "metrics.swap_used_mb" 0
                                    2147483647)
                                  _
                                  (integer-closed (get metrics "swap_used_mb")
                                    "metrics.swap_used_mb" 0 2147483647)
                                  (λ g v.
                                    bind-closed
                                      (integer (get request "visible_limit") "visible_limit" 1
                                        max_visible_cap)
                                      _
                                      (integer-closed (get request "visible_limit") "visible_limit"
                                        1 max_visible_cap)
                                      (λ k w. refl))))))))

    validate_request-closed :
        (value : Json F)
        → is_scalar (kind_in value) ≡ true
        → converts host (load_in value) ≡ true
        → closed (validate_request host value) ≡ true
    unfolding validate_request
    validate_request-closed value h total =
        bind-closed (strict (some value) request_keys "adaptive capacity request") _
          (strict-closed (some value) request_keys "adaptive capacity request")
          (λ request p.
            bind-closed
              (refuse_if (not (is_version host (get request "interface_version")))
                "interface_version is unsupported")
              _
              (refuse_if-closed (not (is_version host (get request "interface_version")))
                "interface_version is unsupported")
              (λ u q.
                bind-closed (strict (get request "metrics") metric_keys "metrics") _
                  (strict-closed (get request "metrics") metric_keys "metrics")
                  (λ metrics r.
                    bind-closed (timestamp host (get metrics "observed_at") "metrics.observed_at") _
                      (timestamp-closed host (get metrics "observed_at") "metrics.observed_at")
                      (λ observed s.
                        bind-closed (timestamp host (get request "now") "now") _
                          (timestamp-closed host (get request "now") "now")
                          (λ now t.
                            bind-closed
                              (refuse_if (ltb_ℤ now.1 observed.1)
                                "metrics.observed_at cannot be in the future")
                              _
                              (refuse_if-closed (ltb_ℤ now.1 observed.1)
                                "metrics.observed_at cannot be in the future")
                              (λ v w.
                                request_of-closed request metrics observed.0 now.0
                                  (pos_part (now.1 -ℤ observed.1))
                                  (kind_inside value request
                                    (strict_gives (some value) request_keys
                                      "adaptive capacity request" request p)
                                    h)
                                  (load_inside host value request metrics
                                    (strict_gives (some value) request_keys
                                      "adaptive capacity request" request p)
                                    (strict_gives (get request "metrics") metric_keys "metrics"
                                      metrics r)
                                    total)))))))

-- If the load of the request is not an int that is too large for a float, and the kind of its source
-- is neither a list nor a dictionary, then `evaluate` returns a capacity or raises an
-- `AuditInputError`, and no other exception.
pub evaluate-closed :
    {F : Type 0} (host : Host F) (value : Json F)
    → converts host (load_in value) ≡ true
    → is_scalar (kind_in value) ≡ true
    → closed (evaluate host value) ≡ true
unfolding evaluate
evaluate-closed host value total h =
    bind-closed (validate_request host value) _ (validate_request-closed host value h total)
      (λ r e. refl)
