-- ===== src/Base/Json.antt =====
-- Python's `json`, as far as the program uses it: dicts that are written and read. The module is a
-- parameter of the model, with what it documents for dicts of strings.
use Prim.Native.Nat.{◌<◌}
use mathlib.Core.Path.{◌≡◌}
use mathlib.Core.Bool.{false}
use mathlib.Core.List.{List, [], ◌∷◌}
use batt_lock.Base.Tests.{if◌then◌else◌}
use batt_lock.Base.Lists.{All, list_eq}
use batt_lock.Base.Texts.{Text}
use batt_lock.Base.Utf8.{IsScalar}
use batt_lock.Base.Errors.{Result, ok, err, key_error}

-- A value of a dict: a str, or anything else that JSON has.
pub data Value : Type 0 where
  text : Text → Value
  other : Value

-- What a document holds at its top.
pub data Document : Type 0 where
  dict : List (Text × Value) → Document
  no_dict : Document

pub record JsonOps : Type 0 where
  pub dumps : List (Text × Value) → Text
  pub loads : Text → Result Document

-- A str without surrogates.
abbrev pub IsText : Value → Type 0
IsText (text t) = All IsScalar t
IsText other = ⊥

-- No key is there twice.
abbrev pub IsKeyed : List (Text × Value) → Type 0
IsKeyed [] = Unit
IsKeyed ((k, v) ∷ d) = All (λ (p : Text × Value). list_eq k p.0 ≡ false) d × IsKeyed d

pub record IsJson (json : JsonOps) : Type 0 where
  -- `ensure_ascii` is the default.
  pub dumps_ascii : (d : List (Text × Value)) → All (λ c. c < 128) (json.dumps d)
  -- Strings are read as they were written.
  pub loads-dumps :
      (d : List (Text × Value))
      → IsKeyed d
      → All (λ (p : Text × Value). All IsScalar p.0 × IsText p.1) d
      → json.loads (json.dumps d) ≡ ok (dict d)

-- `d[k]`
unfoldable pub item : Text → List (Text × Value) → Result Value
item k [] = err key_error
item k ((j, v) ∷ d) = if list_eq j k then ok v else item k d
