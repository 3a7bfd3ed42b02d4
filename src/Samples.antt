-- ===== src/Samples.antt =====
-- Sample runs of the model: a page with a text block and an unresolved reference, events on it, and
-- instances of theorems.
pub mod Store
pub mod Recoveries
pub mod Producing
pub mod Runs
pub mod Versions
pub mod Lifecycles
pub mod Endings
use agentue.Prelude.{
  differ, String, ◌≡◌, ◌≢◌, refl, true, false, none, some, [], ◌∷◌, ◌++◌, arith, eq_iff, inl,
  if◌then◌else◌, str_eq,
}
use agentue.Prelude.Text.{split, remove_prefix, has_dot}
use agentue.Json.{str, arr, obj, int, Items, nil, cons, Fields, empty, field, get, set, has}
use agentue.Json.Equality.{py_eq}
use agentue.Result.{ok, value_error, unresolved}
use agentue.Model.{parse_ui_model, UiModel, validate_block, base, reference, is_base_block}
use agentue.Event.{
  PatchOp, PatchEvent, bare, Pydantic, validate_operation, check_operation, construct, to_json,
  model_validate, number, validate_block_field_patch,
}
use agentue.Event.Wire.{model_validate-to_json}
use agentue.Apply.{
  apply_append, append_blocks, read_delta, done, raised, apply_event, apply_patch, coerce_event,
  apply_patches, and_then, event, mapping,
}
use agentue.Apply.Blocks.Laws.{find}
use agentue.Apply.Blocks.{scan, scan_value, merge_field, join}
use agentue.Apply.WellFormed.{IsWellFormed}
use agentue.Apply.WellFormed.Start.{parse_ui_model-IsWellFormed}
use agentue.Apply.WellFormed.Preserved.{apply_event-IsWellFormed, start-restarts}
use agentue.Apply.Replay.{apply_patches-IsWellFormed, apply_patches-append}
use agentue.Apply.Semantics.{if_found, block_at, ids_of}
use agentue.Apply.Semantics.Upsert.{Settable, set-block_at}
use agentue.Apply.Semantics.Append.{Appends, Joins, texts, append-block_at, append-append_text}
use agentue.Apply.Semantics.References.{SetsField, append-unresolved, set-unresolved}
use agentue.Apply.Atomic.{IsUntouched, apply_patch-raised}
use agentue.Apply.Path.{read_path, read_from, write_path}
use agentue.Apply.Path.Laws.{read_path-write_path, write_path-write_path}
use agentue.Emitter.{PatchEmitter, emit, run, end_call, end, ping, error, error_payload}
use agentue.Emitter.Order.{run-Fits}
use agentue.Emitter.Reports.{error-reported, signals-keep}
use agentue.Sse.{
  encode_sse, lines_by, splitlines, join_lines, has_any, has_newline, is_boundary, message_lines,
  id_lines, data_line,
}
use agentue.Sse.Frames.{received_lines, encode_sse-received, encode_sse-whole}
use agentue.Runner.{RunnerContext, Bridge, complete, run_business, returned}
use agentue.Runner.Stream.{Run, run_business-Run}
use agentue.Runner.Terminal.{Report, Finalized, finalize, ops, finalize-closing}

abbrev pub intro : Fields
intro = field "id" (str "intro") (field "type" (str "text") (field "content" (str "Hel") empty))

abbrev pub link : Fields
link = field "id" (str "link") (field "ref" (str "notes") empty)

-- the model with these blocks
abbrev pub page_of : Items → Fields
page_of blocks = field "version" (str "1.1") (
    field "biz" (str "docs")
      (field "meta" (obj (field "task_id" (str "t1") empty)) (field "blocks" (arr blocks) empty)))

abbrev pub page : Fields
page = page_of (cons (obj intro) (cons (obj link) nil))

abbrev delta : String → Fields
delta s = field "id" (str "intro") (field "content" (str s) empty)

abbrev pub on_intro : String → PatchEvent
on_intro s = record (bare PatchOp.append 2 (some "main")) {
  mask = some "block.content";
  block = some (delta s);
}

-- pydantic reads an `int` from an integer at least
abbrev pub strict : Pydantic
strict = record { lax_int = λ v. elim v [ int i ↦ some i | _ ↦ none ]; lax_int-int = λ i. refl }

pub accepted : (s : String) → validate_operation (on_intro s) ≡ ok (on_intro s)
unfolding validate_operation check_operation validate_block_field_patch get split
accepted s = refl

abbrev pub page_model : UiModel
page_model = record {
  version = "1.1";
  biz = "docs";
  meta = field "task_id" (str "t1") empty;
  blocks = base intro ∷ reference link ∷ [];
}

page_parsed : parse_ui_model page ≡ ok page_model
unfolding parse_ui_model get
page_parsed = refl

page-IsWellFormed : IsWellFormed page
page-IsWellFormed = parse_ui_model-IsWellFormed page page_model page_parsed

-- the page once "lo" is appended
abbrev pub intro_with : String → Fields
intro_with content =
    field "id" (str "intro") (field "type" (str "text") (field "content" (str content) empty))

abbrev pub hello : Fields
hello = page_of (cons (obj (intro_with "Hello")) (cons (obj link) nil))

pub hello_applied : apply_event page (on_intro "lo") ≡ done hello
unfolding apply_event apply_append get set split remove_prefix py_eq append_blocks read_delta
    scan_value scan merge_field join has_dot
hello_applied = refl

apply_event-IsWellFormed_example : IsWellFormed hello
apply_event-IsWellFormed_example =
    apply_event-IsWellFormed page hello (on_intro "lo") (accepted "lo") page-IsWellFormed
      hello_applied

hello_replayed : apply_patches strict page (event (on_intro "lo") ∷ []) ≡ done hello
unfolding apply_patches apply_patch coerce_event
hello_replayed = rw hello_applied refl

apply_patches-IsWellFormed_example : IsWellFormed hello
apply_patches-IsWellFormed_example =
    apply_patches-IsWellFormed strict page hello (event (on_intro "lo") ∷ []) (accepted "lo", tt)
      page-IsWellFormed hello_replayed

appends : (s : String) → Appends (on_intro s) "content" "intro" (str s)
unfolding get has_dot
appends s = record {
  block = delta s;
  op = refl;
  mask = refl;
  payload = refl;
  named = refl;
  has_value = refl;
  delta = tt;
  name_ok = (differ "content" "" refl, refl, differ "content" "id" refl);
  id_ok = differ "intro" "" refl;
}

intro_there : block_at "intro" page ≡ some intro
unfolding get py_eq find
intro_there = refl

link_there : block_at "link" page ≡ some link
unfolding get py_eq find
link_there = refl

intro_inline : has "ref" intro ≡ false
unfolding get
intro_inline = refl

intro_content : get "content" intro ≡ some (str "Hel")
unfolding get
intro_content = refl

content-Joins : Joins (get "content" intro) (str "lo") (str "Hello")
unfolding get
content-Joins = texts "Hel" "lo"

append-block_at_example :
    (s' : Fields) × (apply_event page (on_intro "lo") ≡ done s')
    × ((j : String)
        → block_at j s' ≡ (
            if str_eq "intro" j then some (set "content" (str "Hello") intro) else block_at j page))
    × (ids_of s' ≡ ids_of page)
    × ((k : String) → k ≢ "blocks" → get k s' ≡ get k page)
append-block_at_example =
    append-block_at page (on_intro "lo") "content" "intro" (str "lo") (str "Hello") intro
      page-IsWellFormed (appends "lo") intro_there intro_inline content-Joins

append-append_text_example :
    and_then (apply_event page (on_intro "l")) (λ s'. apply_event s' (on_intro "o"))
    ≡ apply_event page (on_intro "lo")
append-append_text_example =
    append-append_text page (on_intro "l") (on_intro "o") (on_intro "lo") "content" "intro" "Hel"
      "l" "o" intro page-IsWellFormed (differ "content" "id" refl, differ "content" "ref" refl)
      (appends "l") (appends "o") (appends "lo") intro_there intro_inline intro_content

-- a reference is not patched
abbrev on_link : PatchEvent
on_link = record (bare PatchOp.append 2 none) {
  mask = some "block.content";
  block = some (field "id" (str "link") (field "content" (str "x") empty));
}

on_link-Appends : Appends on_link "content" "link" (str "x")
unfolding get has_dot
on_link-Appends = record {
  block = field "id" (str "link") (field "content" (str "x") empty);
  op = refl;
  mask = refl;
  payload = refl;
  named = refl;
  has_value = refl;
  delta = tt;
  name_ok = (differ "content" "" refl, refl, differ "content" "id" refl);
  id_ok = differ "link" "" refl;
}

link_ref : has "ref" link ≡ true
unfolding get
link_ref = refl

append-unresolved_example : apply_event page on_link ≡ raised (value_error unresolved) page
append-unresolved_example =
    append-unresolved page on_link "content" "link" (str "x") link page-IsWellFormed on_link-Appends
      link_there link_ref

abbrev pub set_link : PatchEvent
set_link = record (bare PatchOp.set 3 none) {
  mask = some "block.data.title";
  block = some (field "id" (str "link") (field "title" (str "x") empty));
}

set_link-SetsField : SetsField set_link "data.title" "link" (str "x")
unfolding get split read_path read_from
set_link-SetsField = record {
  block = field "id" (str "link") (field "title" (str "x") empty);
  op = refl;
  mask = refl;
  no_meta = refl;
  payload = refl;
  named = refl;
  has_value = refl;
  rest_ok = differ "data.title" "" refl;
}

set-unresolved_example : apply_event page set_link ≡ raised (value_error unresolved) page
set-unresolved_example =
    set-unresolved page set_link "data.title" "link" (str "x") link page-IsWellFormed
      set_link-SetsField link_there link_ref

append_refused : apply_patch strict page (event on_link) ≡ raised (value_error unresolved) page
unfolding apply_patch coerce_event
append_refused =
    append-unresolved page on_link "content" "link" (str "x") link page-IsWellFormed on_link-Appends
      link_there link_ref

apply_patch-raised_example : IsUntouched page page
apply_patch-raised_example =
    apply_patch-raised strict page page (event on_link) (value_error unresolved) append_refused

-- a new block
abbrev outro : Fields
outro = field "id" (str "outro") (field "type" (str "text") empty)

abbrev set_outro : PatchEvent
set_outro = record (bare PatchOp.set 3 none) { block = some outro }

outro-Settable : Settable page outro "outro"
unfolding get validate_block is_base_block
outro-Settable = record {
  named = refl;
  non_empty_id = differ "outro" "" refl;
  kind = base outro;
  complete = refl;
  version = inl refl;
}

set-block_at_example :
    (s' : Fields) × (apply_event page set_outro ≡ done s')
    × ((j : String) → block_at j s' ≡ (if str_eq "outro" j then some outro else block_at j page))
    × (ids_of s' ≡ if_found (block_at "outro" page) (ids_of page) (ids_of page ++ str "outro" ∷ []))
set-block_at_example =
    set-block_at page set_outro outro "outro" page-IsWellFormed refl refl refl outro-Settable

-- a start event of the page
abbrev pub opening : PatchEvent
opening = record (bare PatchOp.start 1 none) { model = some page }

opening-accepted : validate_operation opening ≡ ok opening
unfolding validate_operation check_operation
opening-accepted = rw page_parsed refl

start-restarts_example :
    (model : Fields) × (opening.model ≡ some model)
    × (apply_event empty opening ≡ done model)
    × IsWellFormed model
start-restarts_example = start-restarts empty opening refl opening-accepted

model_validate-to_json_example : model_validate strict (to_json opening) ≡ ok opening
model_validate-to_json_example = model_validate-to_json strict opening opening-accepted
