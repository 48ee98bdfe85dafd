-- ===== src/Browser/Ids.antt =====
-- SAFE_ID, SAFE_DIGEST and `require_id` of contracts.py, over the code points of a text.
use Prim.Native.Char.{code}
use Prim.Native.String as S
use Prim.Native.String.{◌++◌ as append}
use project_firestarter.Prelude.{
  ℕ, String, Bool, false, ◌&&◌, ◌||◌, not, List, [], ◌∷◌, leb, nat_eq, all, length, Result, ok,
  refuse_if, ◌>>◌, if◌then◌else◌,
}

abbrev pub codes : String → List ℕ
codes S.[] = []
codes (S.◌∷◌ c s) = code c ∷ codes s

-- [A-Za-z0-9]
unfoldable pub is_alnum : ℕ → Bool
is_alnum c = leb b'A' c && leb c b'Z' || leb b'a' c && leb c b'z' || leb b'0' c && leb c b'9'

-- [A-Za-z0-9_.:-]
unfoldable pub is_id_char : ℕ → Bool
unfolding is_alnum
is_id_char c = is_alnum c || nat_eq c b'_' || nat_eq c b'.' || nat_eq c b':' || nat_eq c b'-'

-- [0-9a-f]
unfoldable pub is_hex : ℕ → Bool
is_hex c = leb b'0' c && leb c b'9' || leb b'a' c && leb c b'f'

unfoldable pub safe_id_codes : List ℕ → Bool
unfolding is_alnum is_id_char
safe_id_codes [] = false
safe_id_codes (c ∷ cs) = is_alnum c && all is_id_char cs && leb (length cs) 95

-- SAFE_ID.fullmatch
unfoldable pub safe_id : String → Bool
unfolding safe_id_codes
safe_id s = safe_id_codes (codes s)

unfoldable pub strip_prefix : List ℕ → List ℕ → List ℕ
strip_prefix [] cs = cs
strip_prefix (p ∷ ps) [] = []
strip_prefix (p ∷ ps) (c ∷ cs) = if nat_eq p c then strip_prefix ps cs else []

-- SAFE_DIGEST.fullmatch: "sha256:" and 64 lower-case hexadecimal digits.
unfoldable pub safe_digest : String → Bool
unfolding strip_prefix is_hex
safe_digest s =
    let hex = strip_prefix (codes "sha256:") (codes s) in nat_eq (length hex) 64 && all is_hex hex

-- `require_id`; the model's texts are texts, so `isinstance(value, str)` holds.
unfoldable pub require_id : String → String → Result (Unit {0})
unfolding safe_id
require_id value name =
    refuse_if (not (safe_id value)) (append name " must be an opaque identifier")

-- `for value in values: require_id(value, name)`
unfoldable pub require_ids : List String → String → Result (Unit {0})
unfolding require_id
require_ids [] name = ok tt
require_ids (v ∷ vs) name = do require_id v name; require_ids vs name
