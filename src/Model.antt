-- ===== src/Model.antt =====
-- model.py: what counts as a block and as a model. An instance is kept as the JSON object that it
-- was validated from, with the fields that the code reads beside it.
pub mod Unique
use agentue.Prelude.{
  String, Bool, true, false, ◌&&◌, ◌||◌, Option, none, some, List, [], ◌∷◌, str_eq, if◌then◌else◌,
  not,
}
use agentue.Json.{
  Value, null, str, arr, obj, Items, nil, cons, Fields, empty, field, get, has, get_or_null,
}
use agentue.Result.{Result, ok, err, validation_error, ◌>>=◌, ◌>>◌, raise_if}

abbrev pub protocol_version : String
protocol_version = "1.1"

-- `str` with `min_length=1`
abbrev pub is_name : Option Value → Bool
is_name (some (str s)) = not (str_eq s "")
is_name v = false

-- `str`
abbrev pub is_str : Option Value → Bool
is_str (some (str s)) = true
is_str v = false

-- `str | None = None`
abbrev pub is_optional_str : Option Value → Bool
is_optional_str none = true
is_optional_str (some null) = true
is_optional_str v = is_str v

-- `dict | None = None`
abbrev pub is_optional_dict : Option Value → Bool
is_optional_dict none = true
is_optional_dict (some null) = true
is_optional_dict (some (obj fs)) = true
is_optional_dict v = false

-- `s in ts`
abbrev pub member : String → List String → Bool
member s [] = false
member s (t ∷ ts) = str_eq t s || member s ts

-- `extra="forbid"`: only the listed keys
abbrev pub only_keys : List String → Fields → Bool
only_keys allowed empty = true
only_keys allowed (field k v fs) = member k allowed && only_keys allowed fs

-- `BaseBlock`: any further field is kept; `reject_reference` refuses `ref`
unfoldable pub is_base_block : Fields → Bool
is_base_block fs =
    not (has "ref" fs)
    && is_name (get "id" fs)
    && is_name (get "type" fs)
    && is_optional_str (get "parent_id" fs)

-- `GroupedBlock`
unfoldable pub is_grouped_block : Fields → Bool
unfolding is_base_block
is_grouped_block fs = is_base_block fs && is_optional_str (get "group_id" fs)

-- `ReferenceBlock`: exactly `id` and `ref`
unfoldable pub is_reference_block : Fields → Bool
is_reference_block fs =
    is_name (get "id" fs) && is_name (get "ref" fs) && only_keys ("id" ∷ "ref" ∷ []) fs

pub data Block : Type 0 where
  base reference : Fields → Block

-- `validate_block`
unfoldable pub validate_block : Fields → Result Block
unfolding is_base_block is_reference_block
validate_block value =
    if has "ref" value
    then (if is_reference_block value then ok (reference value) else err validation_error)
    else (if is_base_block value then ok (base value) else err validation_error)

-- `ErrorInfo`
unfoldable pub is_error_info : Fields → Bool
is_error_info fs =
    is_str (get "code" fs)
    && is_str (get "message" fs)
    && is_optional_str (get "detail" fs)
    && is_optional_str (get "trace_id" fs)

abbrev is_optional_error : Option Value → Bool
is_optional_error none = true
is_optional_error (some null) = true
is_optional_error (some (obj fs)) = is_error_info fs
is_optional_error v = false

-- `ModelMeta`
unfoldable pub is_model_meta : Fields → Bool
unfolding is_error_info
is_model_meta fs =
    is_optional_error (get "error" fs)
    && is_optional_str (get "task_id" fs)
    && is_optional_str (get "trace_id" fs)
    && is_optional_dict (get "stats" fs)

pub record UiModel : Type 0 where
  pub version : String
  pub biz : String
  pub meta : Fields
  pub blocks : List Block

-- `version: Literal["1.0", "1.1"] = "1.1"`
unfoldable pub parse_version : Option Value → Result String
parse_version none = ok protocol_version
parse_version (some (str s)) =
    if str_eq s "1.0" || str_eq s "1.1" then ok s else err validation_error
parse_version (some v) = err validation_error

unfoldable pub parse_biz : Option Value → Result String
parse_biz (some (str s)) = if str_eq s "" then err validation_error else ok s
parse_biz v = err validation_error

unfoldable pub parse_meta : Option Value → Result Fields
unfolding is_model_meta
parse_meta (some (obj fs)) = if is_model_meta fs then ok fs else err validation_error
parse_meta v = err validation_error

-- `BaseBlock | ReferenceBlock`
unfoldable pub parse_block : Value → Result Block
unfolding is_base_block is_reference_block
parse_block (obj fs) =
    if is_base_block fs
    then ok (base fs)
    else if is_reference_block fs
    then ok (reference fs)
    else err validation_error
parse_block v = err validation_error

unfoldable pub parse_items : Items → Result (List Block)
unfolding parse_block
parse_items nil = ok []
parse_items (cons v vs) = do block ← parse_block v; blocks ← parse_items vs; ok (block ∷ blocks)

-- `blocks: list[…] = Field(default_factory=list)`
unfoldable pub parse_blocks : Option Value → Result (List Block)
unfolding parse_items
parse_blocks none = ok []
parse_blocks (some (arr vs)) = parse_items vs
parse_blocks (some v) = err validation_error

abbrev pub content : Block → Fields
content (base fs) = fs
content (reference fs) = fs

abbrev pub text_of : Option Value → String
text_of (some (str s)) = s
text_of v = ""

-- `block.id`
abbrev pub id_of : Block → String
id_of b = text_of (get "id" (content b))

abbrev pub is_reference : Block → Bool
is_reference (base fs) = false
is_reference (reference fs) = true

-- the loop of `validate_blocks`
unfoldable pub check_blocks : String → List String → List Block → Result (Unit {0})
check_blocks version ids [] = ok tt
check_blocks version ids (b ∷ bs) =
    if is_reference b && not (str_eq version protocol_version)
    then err validation_error
    else if member (id_of b) ids
    then err validation_error
    else check_blocks version (id_of b ∷ ids) bs

-- `UIModel.model_validate`
unfoldable pub parse_ui_model : Fields → Result UiModel
unfolding parse_version parse_biz parse_meta parse_blocks check_blocks
parse_ui_model fs = do
  version ← parse_version (get "version" fs)
  biz ← parse_biz (get "biz" fs)
  meta ← parse_meta (get "meta" fs)
  blocks ← parse_blocks (get "blocks" fs)
  check_blocks version [] blocks
  ok (record { version = version; biz = biz; meta = meta; blocks = blocks })
