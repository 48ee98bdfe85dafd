-- ===== src/Supervisor/Parse.antt =====
-- `Manifest.from_dict` of supervisor.py and its checks. `urlsplit` and `ipaddress` are given.
pub mod Entries
pub mod Valid
use Prim.Native.String.{◌++◌ as append, slice}
use project_firestarter.Prelude.{
  ℕ, zero, suc, ◌/◌, ◌%◌, ℤ, pos, negsuc, String, String-Eq, ◌==◌, Bool, true, false, not, ◌&&◌,
  ◌||◌, List, [], ◌∷◌, ◌++◌, Option, none, some, Dict, insert, length, leb, ltb, nat_eq, any, all,
  select, member, to_set, sorted, if◌then◌else◌,
}
use project_firestarter.Browser.Json.{
  Json, null, boolean, int, float, str, arr, obj, Items, nil, cons, Fields, end, field,
}
use project_firestarter.Browser.Ids.{codes, is_alnum}
use project_firestarter.Supervisor.Spec.{
  Raised, manifest_error, HealthSpec, ServiceSpec, Services, Manifest,
}
use project_firestarter.Supervisor.Dag.{Walk, returned, raised, out_of_fuel, ◌>>=◌, manifest_init}

-- What `urlsplit` finds, with the properties that are read inside the `try`.
pub record Url : Type 0 where
  pub scheme : String
  pub username : Option String
  pub password : Option String
  pub hostname : Option String
  pub port : Option ℕ
  pub path : String
  pub query : String
  pub fragment : String

-- An address, with the text that `compressed` or `str` gives.
pub record Address : Type 0 where
  pub is_loopback : Bool
  pub version : ℕ
  pub text : String

-- `none` where the library raises `ValueError`.
pub record Net : Type 0 where
  pub urlsplit : String → Option Url
  pub ip_address : String → Option Address

abbrev pub bad : {A : Type 0} → String → String → Walk A
bad context text = raised (manifest_error (append context text))

-- Decimal digits of a number, before a text.
unfoldable pub digits : ℕ → ℕ → String → String
digits zero n text = text
digits (suc fuel) n text =
    let longer = append (slice "0123456789" (n % 10) (suc (n % 10))) text in
    let more = digits fuel (n / 10) longer in if nat_eq (n / 10) 0 then longer else more

-- The code prints no number of more than twenty digits.
unfoldable pub decimal : ℕ → String
unfolding digits
decimal n = digits 20 n ""

-- `value.get(key)`
abbrev pub get : {F : Type 0} → Fields F → String → Option (Json F)
get end key = none
get (field k v rest) key = if k == key then some v else get rest key

-- `value.get(key, default)`
abbrev pub get_or : {F : Type 0} → Fields F → String → Json F → Json F
get_or fs key default = elim (get fs key) [ none ↦ default | some v ↦ v ]

abbrev pub names : {F : Type 0} → Fields F → List String
names end = []
names (field k v rest) = k ∷ names rest

abbrev joined : List String → String
joined [] = ""
joined (s ∷ []) = s
joined (s ∷ t ∷ ss) = append s (append ", " (joined (t ∷ ss)))

module _ {F : Type 0} where
  unfoldable pub exact_keys : Fields F → List String → String → Walk (Unit {0})
  exact_keys fs allowed context =
      let unknown = sorted (select (λ k. not (member k allowed)) (names fs)) in
      elim unknown [
        | [] ↦ returned tt
        | k ∷ ks ↦ bad context (append " has unsupported keys: " (joined (k ∷ ks)))
      ]

  -- The minimum is not negative, so a negative value is below it.
  unfoldable pub bounded_int : Option (Json F) → String → ℕ → ℕ → Walk ℕ
  unfolding decimal
  bounded_int value context lowest highest =
      let outside : Walk ℕ =
        bad context (
          append " must be between "
            (append (decimal lowest) (append " and " (decimal highest)))) in
      let other : Walk ℕ = bad context " must be an integer" in
      elim value [
        | none ↦ other
        | some (int (negsuc n)) ↦ outside
        | some (int (pos n)) ↦ if leb lowest n && leb n highest then returned n else outside
        | _ ↦ other
      ]

  unfoldable pub strict_bool : Json F → String → Walk Bool
  strict_bool (boolean b) context = returned b
  strict_bool null context = bad context " must be a boolean"
  strict_bool (int n) context = bad context " must be a boolean"
  strict_bool (float x) context = bad context " must be a boolean"
  strict_bool (str s) context = bad context " must be a boolean"
  strict_bool (arr xs) context = bad context " must be a boolean"
  strict_bool (obj fs) context = bad context " must be a boolean"

  abbrev pub text_of : Option (Json F) → Option String
  text_of none = none
  text_of (some v) = elim v [ str s ↦ some s | _ ↦ none ]

  -- `isinstance(value, list)` of texts.
  abbrev texts_of : Items F → Option (List String)
  texts_of nil = some []
  texts_of (cons v xs) = elim v [
    | str s ↦ elim (texts_of xs) [ none ↦ none | some ss ↦ some (s ∷ ss) ]
    | _ ↦ none
  ]

  unfoldable pub dependency_list : Json F → String → Walk (List String)
  dependency_list value context =
      let refused : Walk (List String) = bad context ".dependencies must be unique service ids" in
      elim value [
        | arr xs ↦ elim (texts_of xs) [
          | none ↦ refused
          | some ds ↦ if nat_eq (length (to_set ds)) (length ds) then returned ds else refused
        ]
        | _ ↦ refused
      ]

-- SERVICE_ID_RE.fullmatch
unfoldable pub service_id_ok : String → Bool
unfolding is_alnum
service_id_ok s = elim (codes s) [
  | [] ↦ false
  | c ∷ cs ↦
      leb b'a' c
      && leb c b'z'
      && leb (length cs) 62
      && all
          (λ d.
            leb b'a' d && leb d b'z' || leb b'0' d && leb d b'9' || nat_eq d b'_' || nat_eq d b'-')
          cs
]

-- SAFE_HEALTH_RE.fullmatch
unfoldable pub health_path_ok : String → Bool
unfolding is_alnum
health_path_ok s = elim (codes s) [
  | [] ↦ false
  | c ∷ cs ↦
      nat_eq c b'/'
      && leb (length cs) 255
      && all (λ d. is_alnum d || any (nat_eq d) (codes "._~!$&'()*+,;=:@%/-")) cs
]

abbrev absent : Option String → Bool
absent none = true
absent (some s) = false

-- The tests of `_loopback_http_url` after the `try`, with the hostname and the port when they pass.
unfoldable pub origin_of : Url → Option (String × ℕ)
origin_of u = elim u.hostname [
  | none ↦ none
  | some host ↦ elim u.port [
    | none ↦ none
    | some port ↦
        if not (u.scheme == "http")
          || not (absent u.username)
          || not (absent u.password)
          || host == ""
          || not (leb 1 port && leb port 65535)
          || not (member u.path ("" ∷ "/" ∷ []))
          || not (u.query == "")
          || not (u.fragment == "")
        then none
        else some (host, port)
  ]
]

module _ {F : Type 0} (net : Net) where
  unfoldable pub loopback_http_url : Option (Json F) → String → Walk String
  unfolding origin_of decimal
  loopback_http_url value context = elim (text_of value) [
    | none ↦ bad context " must be a string"
    | some s ↦ elim (net.urlsplit s) [
      | none ↦ bad context " must be a valid loopback HTTP URL"
      | some u ↦ elim (origin_of u) [
        | none ↦ bad context " must be an origin-only loopback HTTP URL"
        | some (host, port) ↦ elim (net.ip_address host) [
          | none ↦ bad context " must use a loopback IP literal"
          | some address ↦
              let shown =
                if nat_eq address.version 6
                then append "[" (append address.text "]")
                else address.text in
              if not address.is_loopback
              then bad context " must use a loopback IP literal"
              else returned (append "http://" (append shown (append ":" (decimal port))))
        ]
      ]
    ]
  ]
