-- ===== src/Apply.antt =====
-- apply.py: the reducer. The code mutates the snapshot that it is given, also on a path that ends
-- in an exception, so an outcome holds the snapshot as it is left behind.
pub mod Path
pub mod Blocks
pub mod WellFormed
pub mod Atomic
pub mod Replay
pub mod Semantics
use agentue.Prelude.{
  String, Bool, true, false, ◌&&◌, ◌||◌, Option, none, some, List, [], ◌∷◌, str_eq, not,
  if◌then◌else◌,
}
use agentue.Prelude.Text.{Parts, has_dot, partition, split, remove_prefix}
use agentue.Json.{
  Value, null, str, arr, obj, Items, nil, Fields, empty, get, set, has, get_or_null, or_else,
  set_default, or_empty, is_truthy_dict,
}
use agentue.Json.Equality.{py_eq}
use agentue.Result.{
  Result, ok, err, Error, Reason, validation_error, value_error, type_error, ◌>>=◌, ◌>>◌, raise_if,
  append_mask_shape, append_id, append_field, block_incomplete, set_id, reference_version,
  set_mask_shape, no_value, no_target, set_root,
}
use agentue.Model.{protocol_version, validate_block, is_name}
use agentue.Event.{PatchOp, PatchEvent, Pydantic, model_validate}
use Blocks.{scan_value, append_value, merge_field, write_block}
use Path.{read_path, write_value}

-- the returned snapshot, or the exception beside the caller's snapshot as the code leaves it
pub data Outcome : Type 0 where
  done : Fields → Outcome
  raised : Error → Fields → Outcome

-- the snapshot that is left behind, whatever the outcome
abbrev pub left : Outcome → Fields
left (done s) = s
left (raised e s) = s

abbrev pub and_then : Outcome → (Fields → Outcome) → Outcome
and_then (done s) f = f s
and_then (raised e s) f = raised e s

-- go on with what the computation gives; an exception leaves the snapshot as it is
abbrev pub attempt : {A : Type 0} → Fields → Result A → (A → Outcome) → Outcome
attempt s (ok a) f = f a
attempt s (err e) f = raised e s

-- write a key that the computation succeeded for
abbrev pub store : String → Fields → Result Value → Outcome
store k s (ok v) = done (set k v s)
store k s (err e) = raised e s

-- `blocks = snapshot.setdefault("blocks", [])`, and what is then done to `blocks`
abbrev pub on_blocks : Fields → (Value → Result Value) → Outcome
on_blocks s f =
    let s' = set_default "blocks" (arr nil) s in store "blocks" s' (f (get_or_null "blocks" s'))

-- the payload of an append, once it is checked
pub record Delta : Type 0 where
  pub name : String
  pub block : Fields
  pub id : String
  pub value : Value

abbrev pub text_or_empty : Option String → String
text_or_empty none = ""
text_or_empty (some s) = s

-- `isinstance(block_id, str) and block_id`
abbrev pub non_empty : Option Value → Result String → Result String
non_empty (some (str s)) otherwise = if str_eq s "" then otherwise else ok s
non_empty v otherwise = otherwise

-- `isinstance(new_value, (str, list))`
abbrev pub text_or_list : Option Value → Result Value
text_or_list none = err (value_error append_field)
text_or_list (some (str s)) = ok (str s)
text_or_list (some (arr vs)) = ok (arr vs)
text_or_list (some v) = err type_error

-- the checks of `_apply_append` that come before the snapshot is touched
unfoldable pub read_delta : Option String → Fields → Result Delta
read_delta mask block = do
  let name = remove_prefix (text_or_empty mask) "block."
  raise_if (str_eq name "" || has_dot name) append_mask_shape
  id ← non_empty (get "id" block) (err (value_error append_id))
  value ← text_or_list (get name block)
  ok (record { name = name; block = block; id = id; value = value })

-- the branch of `_apply_append` for a block that is not there
unfoldable pub insert_missing : Fields → Value → Result Value
unfolding append_value
insert_missing block blocks = do
  raise_if (not (is_name (get "type" block))) block_incomplete
  checked ← validate_block block
  append_value blocks block

abbrev pub or_insert : Option Value → Result Value → Result Value
or_insert (some v) otherwise = ok v
or_insert none otherwise = otherwise

unfoldable pub append_blocks : Delta → Value → Result Value
unfolding insert_missing
append_blocks d blocks = do
  found ← scan_value (str d.id) (merge_field d.name d.value) blocks
  or_insert found (insert_missing d.block blocks)

-- `_apply_append`
unfoldable pub apply_append : Fields → PatchEvent → Outcome
unfolding read_delta append_blocks
apply_append s e =
    attempt s (read_delta e.mask (or_empty e.block)) (λ d. on_blocks s (append_blocks d))

-- the checks of `_upsert_block`, and the id
unfoldable pub check_upsert : Fields → Fields → Result String
check_upsert s block = do
  id ← non_empty (get "id" block) (err (value_error set_id))
  checked ← validate_block block
  raise_if (has "ref" block && not (py_eq (get_or_null "version" s) (str protocol_version)))
      reference_version
  ok id

unfoldable pub upsert_blocks : String → Fields → Value → Result Value
unfolding append_value
upsert_blocks id block blocks = do
  found ← scan_value (str id) (λ _. ok block) blocks
  or_insert found (append_value blocks block)

-- `_upsert_block`
unfoldable pub upsert_block : Fields → Fields → Outcome
unfolding check_upsert upsert_blocks
upsert_block s block = attempt s (check_upsert s block) (λ id. on_blocks s (upsert_blocks id block))

-- the branch of `_set_by_mask` for the root `meta`
unfoldable pub set_meta : Fields → List String → Value → Outcome
unfolding write_value
set_meta s path value =
    let s' = set_default "meta" (obj empty) s in
    store "meta" s' (write_value (get_or_null "meta" s') path value)

abbrev pub stored_or_missing : Fields → Result (Option Value) → Outcome
stored_or_missing s (ok (some v)) = done (set "blocks" v s)
stored_or_missing s (ok none) = raised (value_error no_target) s
stored_or_missing s (err e) = raised e s

-- its branch for the root `block`
unfoldable pub set_block : Fields → Value → List String → Value → Outcome
set_block s id path value =
    stored_or_missing s
      (scan_value id (write_block path value) (or_else (get "blocks" s) (arr nil)))

abbrev found_or : Reason → Option Value → Result Value
found_or r none = err (value_error r)
found_or r (some v) = ok v

-- the checks on the mask, and the value that it selects in the payload
unfoldable pub read_masked : Parts → Fields → Result Value
unfolding read_path
read_masked parts source = do
  raise_if (not parts.separator || str_eq parts.rest "") set_mask_shape
  found_or no_value (read_path source (split parts.rest))

abbrev pub write_at_root : String → Fields → Fields → List String → Value → Outcome
write_at_root root s source path value =
    if str_eq root "meta"
    then set_meta s path value
    else if str_eq root "block"
    then set_block s (get_or_null "id" source) path value
    else raised (value_error set_root) s

-- `_set_by_mask`
unfoldable pub set_by_mask : Fields → String → Fields → Outcome
unfolding read_masked set_meta set_block
set_by_mask s mask source =
    let parts = partition mask in
    attempt s (read_masked parts source) (write_at_root parts.root s source (split parts.rest))

abbrev pub or_block : Option Fields → Option Fields → Fields
or_block (some meta) block = meta
or_block none block = or_empty block

-- `_apply_set`
unfoldable pub apply_set : Fields → PatchEvent → Outcome
unfolding upsert_block set_by_mask
apply_set s e = elim e.mask [
  | none ↦ upsert_block s (or_empty e.block)
  | some mask ↦ set_by_mask s mask (or_block e.meta e.block)
]

abbrev apply_op : PatchOp → Fields → PatchEvent → Outcome
apply_op PatchOp.start s e = done (if is_truthy_dict e.model then or_empty e.model else s)
apply_op PatchOp.set s e = apply_set s e
apply_op PatchOp.error s e = set_by_mask s "meta.error" (or_empty e.meta)
apply_op PatchOp.append s e = apply_append s e
apply_op op s e = done s

-- `apply_patch` on an event
unfoldable pub apply_event : Fields → PatchEvent → Outcome
unfolding apply_set apply_append
apply_event s e = apply_op e.op s e

-- a patch as the callers hand it over; a text is the document that it denotes (`none`: not JSON)
pub data PatchInput : Type 0 where
  text : Option Value → PatchInput
  mapping : Fields → PatchInput
  event : PatchEvent → PatchInput

module _ (py : Pydantic) where
  -- `_coerce_event`
  unfoldable pub coerce_event : PatchInput → Result PatchEvent
  coerce_event (event e) = ok e
  coerce_event (text (some (obj fs))) = model_validate py fs
  coerce_event (text v) = err validation_error
  coerce_event (mapping fs) = model_validate py fs

  -- `apply_patch`
  unfoldable pub apply_patch : Fields → PatchInput → Outcome
  unfolding coerce_event apply_event
  apply_patch s patch = attempt s (coerce_event patch) (apply_event s)

  -- `apply_patches`
  unfoldable pub apply_patches : Fields → List PatchInput → Outcome
  unfolding apply_patch
  apply_patches s [] = done s
  apply_patches s (p ∷ ps) = and_then (apply_patch s p) (λ s'. apply_patches s' ps)
