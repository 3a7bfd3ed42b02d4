-- ===== src/Apply/Path.antt =====
-- `_read_path` and `_write_path` of apply.py: reading and writing below a dotted mask.
pub mod Laws
use agentue.Prelude.{String, Option, none, some, List, [], ◌∷◌, last_or}
use agentue.Json.{Value, obj, Fields, empty, get, set}
use agentue.Result.{Result, ok, err, type_error, attribute_error}

-- the loop of `_read_path`; a part that is missing falls back to the flat leaf of the payload
unfoldable pub read_from : Fields → String → Value → List String → Option Value
read_from source leaf current [] = some current
read_from source leaf (obj fs) (part ∷ path) = elim (get part fs) [
  | none ↦ get leaf source
  | some v ↦ read_from source leaf v path
]
read_from source leaf current (part ∷ path) = get leaf source

-- `_read_path`, with `none` for `_MISSING`
unfoldable pub read_path : Fields → List String → Option Value
unfolding read_from
read_path source path = read_from source (last_or path "") (obj source) path

-- the child dictionary that `_write_path` descends into
abbrev pub child : Option Value → Fields
child (some (obj fs)) = fs
child v = empty

-- `_write_path`; a path has at least one part
unfoldable pub write_path : Fields → List String → Value → Fields
write_path target [] value = target
write_path target (part ∷ []) value = set part value target
write_path target (part ∷ q ∷ path) value =
    set part (obj (write_path (child (get part target)) (q ∷ path) value)) target

-- `_write_path` on a target that may be no dictionary: Python refuses the assignment or the `get`
unfoldable pub write_value : Value → List String → Value → Result Value
unfolding write_path
write_value (obj fs) path value = ok (obj (write_path fs path value))
write_value v (part ∷ q ∷ path) value = err attribute_error
write_value v path value = err type_error
