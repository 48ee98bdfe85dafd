-- ===== src/Browser/Json.antt =====
-- The values that the contracts hand to `json.dumps`, and what the model takes as given: the
-- floating-point numbers, and the SHA-256 digest of a canonical encoding.
use Prim.Native.String.{◌++◌ as append}
use project_firestarter.Prelude.{String, Bool, List, [], ◌∷◌, ℤ, Option, none, some}

-- Python's `float`: only the comparisons and the sum that the sources write. No law is assumed.
pub record FloatOps (F : Type 0) : Type 0 where
  pub float_le : F → F → Bool
  pub float_eq : F → F → Bool
  pub float_add : F → F → F
  pub float_zero : F
  pub float_one : F

mutual
  pub data Json (F : Type 0) : Type 0 where
    null : Json F
    boolean : Bool → Json F
    int : ℤ → Json F
    float : F → Json F
    str : String → Json F
    arr : Items F → Json F
    obj : Fields F → Json F

  pub data Items (F : Type 0) : Type 0 where
    nil : Items F
    cons : Json F → Items F → Items F

  pub data Fields (F : Type 0) : Type 0 where
    end : Fields F
    field : String → Json F → Fields F → Fields F

module _ {F : Type 0} where
  -- `list(xs)` of texts and of numbers.
  unfoldable pub strings : List String → Items F
  strings [] = nil
  strings (s ∷ ss) = cons (str s) (strings ss)

  unfoldable pub ints : List ℤ → Items F
  ints [] = nil
  ints (n ∷ ns) = cons (int n) (ints ns)

  -- `x if x is not None else None`
  unfoldable pub optional_str : Option String → Json F
  optional_str none = null
  optional_str (some s) = str s

  -- `canonical_digest`, over the hexadecimal SHA-256 of `json.dumps(value, sort_keys=True, …)`.
  unfoldable pub canonical_digest : (Json F → String) → Json F → String
  canonical_digest sha256_hex value = append "sha256:" (sha256_hex value)
