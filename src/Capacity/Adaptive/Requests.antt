-- ===== src/Capacity/Adaptive/Requests.antt =====
-- `validate_request` and `evaluate` of adaptive_capacity_policy.py.
use project_firestarter.Prelude.{
  ℕ, zero, suc, ◌+◌, ◌/◌, ℤ, pos, pos_part, ltb_ℤ, ◌-ℤ◌, String, String-Eq, ◌==◌, Bool, false, not,
  ◌&&◌, ◌||◌, List, [], ◌∷◌, Option, none, some, length, leb, nat_eq, all, subset, Result, ok, err,
  value_error, overflow_error, refuse_if, ◌>>=◌, if◌then◌else◌,
}
use Prim.Native.String.{◌++◌ as append}
use project_firestarter.Browser.Json.{Json, int, float, str, obj, Fields}
use project_firestarter.Browser.Ids.{codes, is_alnum, is_id_char}
use project_firestarter.Supervisor.Parse.{get, names, decimal}
use project_firestarter.Capacity.Scheduler.{in_set}
use project_firestarter.Capacity.Adaptive.{
  Host, Metrics, Capacity, compute_capacity, max_visible_cap,
}

-- [0-9]
abbrev is_digit : ℕ → Bool
is_digit c = leb b'0' c && leb c b'9'

-- The end of a timestamp, after the seconds: `Z`, or a point and one to six digits before it.
abbrev fraction : ℕ → List ℕ → Bool
fraction zero cs = elim cs [ [] ↦ false | c ∷ rest ↦ nat_eq c b'Z' && nat_eq (length rest) 0 ]
fraction (suc n) [] = false
fraction (suc n) (c ∷ rest) =
    let more = fraction n rest in
    if is_digit c then more else nat_eq c b'Z' && nat_eq (length rest) 0

abbrev ending : List ℕ → Bool
ending [] = false
ending (c ∷ rest) =
    let point : Bool = elim rest [ [] ↦ false | d ∷ ds ↦ is_digit d && fraction 5 ds ] in
    if nat_eq c b'.' then point else nat_eq c b'Z' && nat_eq (length rest) 0

-- A digit where the pattern has a zero, and else the pattern's own sign.
abbrev follows : List ℕ → List ℕ → Bool
follows [] cs = ending cs
follows (p ∷ ps) [] = false
follows (p ∷ ps) (c ∷ cs) =
    let more = follows ps cs in (if nat_eq p b'0' then is_digit c else nat_eq p c) && more

-- RFC3339_UTC.fullmatch
unfoldable pub rfc3339_utc : String → Bool
rfc3339_utc s = follows (codes "0000-00-00T00:00:00") (codes s)

abbrev bounded_codes : (ℕ → Bool) → List ℕ → Bool
bounded_codes ok_char [] = false
bounded_codes ok_char (c ∷ cs) = is_alnum c && all ok_char cs && leb (length cs) 127

-- IDENTIFIER.fullmatch and EVIDENCE_REF.fullmatch
unfoldable pub identifier_ok : String → Bool
unfolding is_alnum is_id_char
identifier_ok s = bounded_codes is_id_char (codes s)

unfoldable pub evidence_ref_ok : String → Bool
unfolding is_alnum is_id_char
evidence_ref_ok s = bounded_codes (λ c. is_id_char c || nat_eq c b' ') (codes s)

abbrev refused : {A : Type 0} → String → Result A
refused text = err (value_error text)

module _ {F : Type 0} where
  -- `_strict`
  unfoldable pub strict : Option (Json F) → List String → String → Result (Fields F)
  strict value fields label =
      let other : Result (Fields F) = refused (append label " fields are incompatible") in
      elim value [
        | some (obj fs) ↦
            if subset (names fs) fields && subset fields (names fs) then ok fs else other
        | _ ↦ other
      ]

  -- `_identifier`
  unfoldable pub identifier : Option (Json F) → String → Result String
  unfolding identifier_ok
  identifier value label =
      let other : Result String = refused (append label " must be a bounded stable identifier") in
      elim value [ some (str s) ↦ if identifier_ok s then ok s else other | _ ↦ other ]

  -- `_timestamp`
  unfoldable pub timestamp : Host F → Option (Json F) → String → Result (String × ℤ)
  unfolding rfc3339_utc
  timestamp host value label =
      let other : Result (String × ℤ) =
        refused (append label " must be an RFC3339 UTC timestamp") in
      elim value [
        | some (str s) ↦
            if rfc3339_utc s
            then elim (host.microseconds s) [
              | none ↦ refused (append label " must be a valid timestamp")
              | some t ↦ ok (s, t)
            ]
            else other
        | _ ↦ other
      ]

  -- `_integer`
  unfoldable pub integer : Option (Json F) → String → ℕ → ℕ → Result ℕ
  unfolding decimal
  integer value label low high =
      let other : Result ℕ = refused (
        append label (
          append " must be an integer from "
            (append (decimal low) (append " to " (decimal high))))) in
      elim value [
        | some (int (pos n)) ↦ if leb low n && leb n high then ok n else other
        | _ ↦ other
      ]

  -- `_load`
  unfoldable pub load : Host F → Option (Json F) → Result F
  load host value =
      let other : Result F = refused "metrics.load_1m must be finite and nonnegative" in
      let check : F → Result F =
        λ x. if not (host.is_finite x) || host.is_negative x then other else ok x in
      elim value [
        | some (int n) ↦ elim (host.of_int n) [
          | none ↦ err (overflow_error "int too large to convert to float")
          | some x ↦ check x
        ]
        | some (float x) ↦ check x
        | _ ↦ other
      ]

  abbrev pub kind_of : Option (Json F) → String
  kind_of v = elim v [ some (str s) ↦ s | _ ↦ "" ]

  unfoldable pub evidence_ref : Option (Json F) → Result String
  unfolding evidence_ref_ok
  evidence_ref value =
      let other : Result String = refused "source.evidence_ref must be a coarse local alias" in
      elim value [ some (str s) ↦ if evidence_ref_ok s then ok s else other | _ ↦ other ]

  -- `_source`
  unfoldable pub source : Option (Json F) → Result (String × String)
  unfolding in_set evidence_ref_ok
  source value = strict value ("kind" ∷ "evidence_ref" ∷ []) "source" >>= λ fs.
      in_set (get fs "kind") ("synthetic-fixture" ∷ "untrusted-local-observation" ∷ []) >>= λ found.
      refuse_if (not found) "source.kind is unsupported" >>= λ u.
      evidence_ref (get fs "evidence_ref") >>= λ ref. ok (kind_of (get fs "kind"), ref)

-- The request that `validate_request` returns, with the metrics as `evaluate` reads them.
pub record Request (F : Type 0) : Type 0 where
  pub request_id : String
  pub snapshot_id : String
  pub snapshot_source : String × String
  pub metrics : Metrics F
  pub observed_at : String
  pub visible_limit : ℕ
  pub evaluated_at : String

abbrev pub request_keys : List String
request_keys =
    "interface_version" ∷ "request_id" ∷ "snapshot_id" ∷ "source" ∷ "metrics" ∷ "visible_limit"
    ∷ "now" ∷ []

abbrev pub metric_keys : List String
metric_keys =
    "logical_cpus" ∷ "load_1m" ∷ "memory_pressure_pct" ∷ "swap_used_mb" ∷ "observed_at" ∷ []

module _ {F : Type 0} (host : Host F) where
  abbrev pub is_version : Option (Json F) → Bool
  is_version v = elim v [ some (str s) ↦ s == "1.0" | _ ↦ false ]

  -- The fields of the result, in the order in which they are checked. `age_seconds` is rounded up
  -- from microseconds.
  unfoldable pub request_of : Fields F → Fields F → String → String → ℕ → Result (Request F)
  unfolding identifier source integer load
  request_of request metrics observed now age =
      identifier (get request "request_id") "request_id" >>= λ request_id.
      identifier (get request "snapshot_id") "snapshot_id" >>= λ snapshot_id.
      source (get request "source") >>= λ origin.
      integer (get metrics "logical_cpus") "metrics.logical_cpus" 1 1024 >>= λ cpus.
      load host (get metrics "load_1m") >>= λ x.
      integer (get metrics "memory_pressure_pct") "metrics.memory_pressure_pct" 0 100
      >>= λ pressure.
          integer (get metrics "swap_used_mb") "metrics.swap_used_mb" 0 2147483647 >>= λ swap.
          integer (get request "visible_limit") "visible_limit" 1 max_visible_cap >>= λ limit.
          ok (record {
            request_id = request_id;
            snapshot_id = snapshot_id;
            snapshot_source = origin;
            metrics = record {
              logical_cpus = cpus;
              load_1m = x;
              memory_pressure_pct = pressure;
              swap_used_mb = swap;
              age_seconds = (age + 999999) / 1000000;
            };
            observed_at = observed;
            visible_limit = limit;
            evaluated_at = now;
          })

  unfoldable pub validate_request : Json F → Result (Request F)
  unfolding strict timestamp request_of
  validate_request value =
      strict (some value) request_keys "adaptive capacity request" >>= λ request.
      refuse_if (not (is_version (get request "interface_version")))
        "interface_version is unsupported"
      >>= λ u. strict (get request "metrics") metric_keys "metrics" >>= λ metrics.
          timestamp host (get metrics "observed_at") "metrics.observed_at" >>= λ observed.
          timestamp host (get request "now") "now" >>= λ now.
          refuse_if (ltb_ℤ now.1 observed.1) "metrics.observed_at cannot be in the future" >>= λ v.
          request_of request metrics observed.0 now.0 (pos_part (now.1 -ℤ observed.1))

  -- `evaluate`, without the digest and the constants of the result.
  unfoldable pub evaluate : Json F → Result (Request F × Capacity)
  unfolding validate_request compute_capacity
  evaluate value =
      validate_request value >>= λ r. ok (r, compute_capacity host r.metrics r.visible_limit)
