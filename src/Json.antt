-- ===== src/Json.antt =====
-- The JSON documents that the SDK handles as `dict[str, Any]`, and the Python operations on them.
-- An object is its list of fields in insertion order. A text holds code points; a float holds the
-- bits of its IEEE 754 double.
pub mod Double
pub mod Equality
pub mod Laws
use agentue.Prelude.{
  ℕ, String, Bool, true, false, Option, none, some, List, [], ◌∷◌, str_eq, if◌then◌else◌,
}

-- `negsuc n` is -(n + 1).
pub data ℤ : Type 0 where
  pos : ℕ → ℤ
  negsuc : ℕ → ℤ

mutual
  pub data Value : Type 0 where
    null : Value
    bool : Bool → Value
    int : ℤ → Value
    float : ℕ → Value
    str : String → Value
    arr : Items → Value
    obj : Fields → Value

  pub data Items : Type 0 where
    nil : Items
    cons : Value → Items → Items

  pub data Fields : Type 0 where
    empty : Fields
    field : String → Value → Fields → Fields

-- `d.get(k)`, with `none` for a missing key
unfoldable pub get : String → Fields → Option Value
get k empty = none
get k (field j v fs) = if str_eq j k then some v else get k fs

abbrev pub or_null : Option Value → Value
or_null none = null
or_null (some v) = v

-- `d.get(k)` with Python's default `None`
abbrev pub get_or_null : String → Fields → Value
get_or_null k fs = or_null (get k fs)

abbrev pub is_some {ℓ} : {A : Type ℓ} → Option A → Bool
is_some none = false
is_some (some a) = true

-- `k in d`
abbrev pub has : String → Fields → Bool
has k fs = is_some (get k fs)

-- `d[k] = v`: an existing key keeps its place
unfoldable pub set : String → Value → Fields → Fields
set k v empty = field k v empty
set k v (field j w fs) = if str_eq j k then field j v fs else field j w (set k v fs)

abbrev pub or_else : Option Value → Value → Value
or_else none d = d
or_else (some v) d = v

-- `d.setdefault(k, v)`, the dictionary that it leaves
abbrev pub set_default : String → Value → Fields → Fields
set_default k v fs = if has k fs then fs else set k v fs

-- `xs + ys` on lists
unfoldable pub concat : Items → Items → Items
concat nil ys = ys
concat (cons x xs) ys = cons x (concat xs ys)

-- `xs.append(x)`
abbrev pub append : Items → Value → Items
append xs x = concat xs (cons x nil)

abbrev pub to_list : Items → List Value
to_list nil = []
to_list (cons x xs) = x ∷ to_list xs

-- `bool(v)` for a value that is `None` or a dict
abbrev pub is_truthy_dict : Option Fields → Bool
is_truthy_dict none = false
is_truthy_dict (some empty) = false
is_truthy_dict (some (field k v fs)) = true

-- `d or {}`
abbrev pub or_empty : Option Fields → Fields
or_empty none = empty
or_empty (some fs) = fs
