-- ===== src/Apply/Blocks.antt =====
-- The loops of apply.py over `snapshot["blocks"]`, and what they do to the block that they find.
pub mod Laws
use mathlib.Core.Option
use Prim.Native.String
use agentue.Prelude.{String, Bool, true, false, Option, none, some, List, str_eq, if◌then◌else◌}
use agentue.Json.{
  Value, null, str, arr, obj, Items, nil, cons, Fields, empty, get, set, has, get_or_null, append,
  concat,
}
use agentue.Json.Equality.{py_eq}
use agentue.Result.{
  Result, ok, err, value_error, type_error, attribute_error, ◌>>=◌, ◌>>◌, raise_if, unresolved,
}
use agentue.Apply.Path.{write_path}

-- the first block whose id is `id`, replaced by what `act` makes of it; `none` if there is none.
-- An element that is no dictionary has no `get`.
unfoldable pub scan : Value → (Fields → Result Fields) → Items → Result (Option Items)
scan id act nil = ok none
scan id act (cons (obj fs) vs) =
    if py_eq (get_or_null "id" fs) id
    then (do fs' ← act fs; ok (some (cons (obj fs') vs)))
    else (do rest ← scan id act vs; ok (Option.map (cons (obj fs)) rest))
scan id act (cons v vs) = err attribute_error

-- the same over whatever `snapshot["blocks"]` holds: texts and dictionaries are iterated too
unfoldable pub scan_value : Value → (Fields → Result Fields) → Value → Result (Option Value)
unfolding scan
scan_value id act (arr vs) = do found ← scan id act vs; ok (Option.map arr found)
scan_value id act (str s) = if str_eq s "" then ok none else err attribute_error
scan_value id act (obj empty) = ok none
scan_value id act (obj fs) = err attribute_error
scan_value id act v = err type_error

-- `blocks.append(block)`
unfoldable pub append_value : Value → Fields → Result Value
append_value (arr vs) block = ok (arr (append vs (obj block)))
append_value v block = err attribute_error

-- the old value of the field with the delta joined on
unfoldable pub join : Value → Value → Result Value
join null new = ok new
join (str a) (str b) = ok (str (String.◌++◌ a b))
join (arr xs) (arr ys) = ok (arr (concat xs ys))
join old new = err type_error

-- the body of the loop of `_apply_append`, at the block that it looks for
unfoldable pub merge_field : String → Value → Fields → Result Fields
unfolding join
merge_field name value existing = do
  raise_if (has "ref" existing) unresolved
  joined ← join (get_or_null name existing) value
  ok (set name joined existing)

-- `_require_inline_block` and `_write_path`, at the target of `_set_by_mask`
unfoldable pub write_block : List String → Value → Fields → Result Fields
write_block path value target = do
  raise_if (has "ref" target) unresolved
  ok (write_path target path value)
