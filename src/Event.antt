-- ===== src/Event.antt =====
-- event.py: the event envelope, its validation, and its JSON form. Events travel as JSON documents:
-- `to_json` gives the object that the text denotes.
pub mod Valid
pub mod Wire
use text.Mathlib.Text.{starts_with}
use agentue.Prelude.{
  ℕ, String, ◌≡◌, Bool, true, false, ◌&&◌, ◌||◌, Option, none, some, List, [], ◌∷◌, str_eq, not,
  if◌then◌else◌,
}
use agentue.Prelude.Text.{second_part}
use agentue.Json.{
  ℤ, pos, Value, null, int, str, obj, Fields, field, get, has, is_some, or_empty, or_null,
  get_or_null,
}
use agentue.Result.{
  Result, ok, err, Error, validation_error, value_error, Reason, ◌>>=◌, ◌>>◌, raise_if, validated,
  start_needs_model, start_only_model, model_only_start, set_one_payload, set_needs_block,
  set_mask_root, append_needs_block, append_no_meta, append_mask, error_needs_meta, error_no_block,
  no_payload, reference_patch, id_patch,
}
use agentue.Model.{validate_block, parse_ui_model, only_keys, member}

pub data PatchOp : Type 0 where
  start set append error ping end : PatchOp

pub record PatchEvent : Type 0 where
  pub op : PatchOp
  pub seq : ℕ
  pub stream_id : Option String
  pub ts : Option ℕ
  pub mask : Option String
  pub event_type : Option String
  pub model : Option Fields
  pub meta : Option Fields
  pub block : Option Fields

-- an event with the given operation and number, and nothing else set
abbrev pub bare : PatchOp → ℕ → Option String → PatchEvent
bare op seq stream_id = record {
  op = op;
  seq = seq;
  stream_id = stream_id;
  ts = none;
  mask = none;
  event_type = none;
  model = none;
  meta = none;
  block = none;
}

-- `_validate_block_field_patch`
unfoldable pub validate_block_field_patch : String → Fields → Result (Unit {0})
validate_block_field_patch mask block = do
  raise_if (has "ref" block) reference_patch
  raise_if (member (second_part mask) ("id" ∷ "ref" ∷ [])) id_patch

-- `not mask.startswith(root)`, for a mask that may be `None`
abbrev pub outside : String → Option String → Bool
outside root none = false
outside root (some mask) = not (starts_with mask root)

-- `not self.mask or not self.mask.startswith("block.")`
abbrev bad_append_mask : Option String → Bool
bad_append_mask none = true
bad_append_mask (some mask) = str_eq mask "" || not (starts_with mask "block.")

abbrev is_dict : Value → Bool
is_dict (obj fs) = true
is_dict v = false

abbrev is_mask : Option String → String → Bool
is_mask none m = false
is_mask (some mask) m = str_eq mask m

abbrev validate_start : Option Fields → Result (Unit {0})
validate_start none = err (value_error start_needs_model)
validate_start (some model) = parse_ui_model model >>= λ _. ok tt

-- the payload checks of `set`: a whole block, or a field of one
abbrev validate_set_block : Option String → Option Fields → Result (Unit {0})
validate_set_block mask none = ok tt
validate_set_block none (some block) = validate_block block >>= λ _. ok tt
validate_set_block (some mask) (some block) = validate_block_field_patch mask block

abbrev patch_of : Option String → Option Fields → Result (Unit {0})
patch_of (some mask) (some block) = validate_block_field_patch mask block
patch_of mask block = ok tt

-- `both or neither is None`
abbrev same_presence : Bool → Bool → Bool
same_presence true b = b
same_presence false b = not b

-- the clauses of `validate_operation`, one for each operation
unfoldable pub check_operation : PatchOp → PatchEvent → Result (Unit {0})
unfolding validate_block_field_patch
check_operation start e = do
  raise_if (not (is_some e.model)) start_needs_model
  raise_if (is_some e.meta || is_some e.block) start_only_model
  validate_start e.model
check_operation set e = do
  raise_if (is_some e.model) model_only_start
  raise_if (same_presence (is_some e.meta) (is_some e.block)) set_one_payload
  raise_if (not (is_some e.mask) && not (is_some e.block)) set_needs_block
  raise_if (outside (if is_some e.meta then "meta." else "block.") e.mask) set_mask_root
  validate_set_block e.mask e.block
check_operation append e = do
  raise_if (is_some e.model) model_only_start
  raise_if (not (is_some e.block)) append_needs_block
  raise_if (is_some e.meta) append_no_meta
  raise_if (bad_append_mask e.mask) append_mask
  patch_of e.mask e.block
check_operation error e = do
  raise_if (is_some e.model) model_only_start
  raise_if
      (not (is_mask e.mask "meta.error") || not (is_dict (get_or_null "error" (or_empty e.meta))))
      error_needs_meta
  raise_if (is_some e.block) error_no_block
check_operation op e = do
  raise_if (is_some e.model) model_only_start
  raise_if (is_some e.meta || is_some e.block || is_some e.mask) no_payload

-- `validate_operation`: the event itself, or what the validator raises
unfoldable pub validate_operation : PatchEvent → Result PatchEvent
unfolding check_operation
validate_operation e = check_operation e.op e >>= λ _. ok e

-- `PatchEvent(…)` with arguments of the declared types
unfoldable pub construct : PatchEvent → Result PatchEvent
unfolding validate_operation
construct e = validated (validate_operation e)

abbrev pub op_name : PatchOp → String
op_name start = "start"
op_name set = "set"
op_name append = "append"
op_name error = "error"
op_name ping = "ping"
op_name end = "end"

-- `PatchOp(text)`
abbrev pub op_of : String → Option PatchOp
op_of s =
    if str_eq s "start"
    then some start
    else if str_eq s "set"
    then some set
    else if str_eq s "append"
    then some append
    else if str_eq s "error"
    then some error
    else if str_eq s "ping"
    then some ping
    else if str_eq s "end"
    then some end
    else none

-- `exclude_none=True` drops an envelope field that is `None`; what a payload holds stays.
abbrev pub add {ℓ} : {A : Type ℓ} → String → (A → Value) → Option A → Fields → Fields
add k f none rest = rest
add k f (some a) rest = field k (f a) rest

abbrev pub number : ℕ → Value
number n = int (pos n)

-- `to_json`
unfoldable pub to_json : PatchEvent → Fields
to_json e = field "op" (str (op_name e.op)) (
    field "seq" (number e.seq) (
      add "stream_id" str e.stream_id (
        add "ts" number e.ts (
          add "mask" str e.mask (
            add "event_type" str e.event_type (
              add "model" obj e.model
                (add "meta" obj e.meta (add "block" obj e.block Fields.empty))))))))

-- `extract_patch_op`, on the document that the text denotes (`none`: not JSON)
unfoldable pub extract_patch_op : Option Value → Option String
extract_patch_op (some (obj fs)) = elim (get "op" fs) [ some (str s) ↦ some s | _ ↦ none ]
extract_patch_op v = none

-- What pydantic does beyond the declared fields: how a value becomes an `int` field in lax mode.
pub record Pydantic : Type 0 where
  pub lax_int : Value → Option ℤ
  pub lax_int-int : (i : ℤ) → lax_int (int i) ≡ some i

abbrev pub envelope : List String
envelope =
    "op" ∷ "seq" ∷ "stream_id" ∷ "ts" ∷ "mask" ∷ "event_type" ∷ "model" ∷ "meta" ∷ "block" ∷ []

unfoldable pub read_op : Option Value → Result PatchOp
read_op (some (str s)) = elim (op_of s) [ none ↦ err validation_error | some op ↦ ok op ]
read_op v = err validation_error

abbrev non_negative : Option ℤ → Result ℕ
non_negative (some (pos n)) = ok n
non_negative i = err validation_error

-- `str | None = None`
unfoldable pub read_str : Option Value → Result (Option String)
read_str none = ok none
read_str (some null) = ok none
read_str (some (str s)) = ok (some s)
read_str v = err validation_error

-- `dict[str, Any] | None = None`
unfoldable pub read_dict : Option Value → Result (Option Fields)
read_dict none = ok none
read_dict (some null) = ok none
read_dict (some (obj fs)) = ok (some fs)
read_dict v = err validation_error

module _ (py : Pydantic) where
  -- `int` with `ge=0`
  unfoldable pub read_nat : Option Value → Result ℕ
  read_nat none = err validation_error
  read_nat (some v) = non_negative (py.lax_int v)

  -- `int | None` with `ge=0`
  unfoldable pub read_optional_nat : Option Value → Result (Option ℕ)
  read_optional_nat none = ok none
  read_optional_nat (some null) = ok none
  read_optional_nat (some v) = do n ← non_negative (py.lax_int v); ok (some n)

  -- the declared fields, before the `after` validator
  unfoldable pub read_envelope : Fields → Result PatchEvent
  unfolding read_op read_str read_dict read_nat read_optional_nat
  read_envelope fs = do
    op ← read_op (get "op" fs)
    seq ← read_nat (get "seq" fs)
    stream_id ← read_str (get "stream_id" fs)
    ts ← read_optional_nat (get "ts" fs)
    mask ← read_str (get "mask" fs)
    event_type ← read_str (get "event_type" fs)
    model ← read_dict (get "model" fs)
    meta ← read_dict (get "meta" fs)
    block ← read_dict (get "block" fs)
    ok (record {
      op = op;
      seq = seq;
      stream_id = stream_id;
      ts = ts;
      mask = mask;
      event_type = event_type;
      model = model;
      meta = meta;
      block = block;
    })

  -- `PatchEvent.model_validate`
  unfoldable pub model_validate : Fields → Result PatchEvent
  unfolding construct read_envelope
  model_validate fs =
      if only_keys envelope fs then (do e ← read_envelope fs; construct e) else err validation_error
