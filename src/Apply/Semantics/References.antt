-- ===== src/Apply/Semantics/References.antt =====
-- An unresolved reference receives no field patch.
use Prim.Native.String
use agentue.Prelude.{String, ◌≡◌, ◌≢◌, ◌∙◌, true, none, some, List, str_eq-ne}
use agentue.Prelude.Text.{partition-block, split}
use agentue.Json.{Value, str, Fields, get, has}
use agentue.Result.{err, value_error, unresolved}
use agentue.Event.{PatchOp, PatchEvent}
use agentue.Apply.Path.{read_path}
use agentue.Apply.Blocks.{merge_field, write_block}
use agentue.Apply.Blocks.Laws.{find}
use agentue.Apply.WellFormed.{IsWellFormed}
use agentue.Apply.WellFormed.Masks.{stored-or_else}
use agentue.Apply.Semantics.{
  block_at, blocks_of-items, apply_event-op, on_blocks-eq, scan_value-find, set_default-found,
}
use agentue.Apply.Semantics.Append.{Appends, read_delta-Appends, delta_of}
use agentue.Apply.{
  raised, append_blocks, apply_append, set_block, read_masked, set_by_mask, apply_set, apply_event,
}

merge_field-reference :
    (name : String) (value : Value) (old : Fields)
    → has "ref" old ≡ true
    → merge_field name value old ≡ err (value_error unresolved)
unfolding merge_field
merge_field-reference name value old h = rw h

-- An append to a block that is an unresolved reference raises, and leaves the snapshot as it is.
pub append-unresolved :
    (s : Fields) (e : PatchEvent) (name id : String) (value : Value) (old : Fields)
    → IsWellFormed s
    → Appends e name id value
    → block_at id s ≡ some old
    → has "ref" old ≡ true
    → apply_event s e ≡ raised (value_error unresolved) s
unfolding apply_append append_blocks
append-unresolved s e name id value old w a there h =
    let found : find (str id) w.items ≡ some old = rw (blocks_of-items s w) at there in
    apply_event-op PatchOp.append s e a.op
    ∙ rw (read_delta-Appends e name id value a) (
        on_blocks-eq s w (append_blocks (delta_of a.block name id value))
        ∙ rw (
          scan_value-find (str id) (merge_field name value) w.items old found,
          merge_field-reference name value old h,
          set_default-found s w (str id) old found,
        ))

write_block-reference :
    (path : List String) (value : Value) (old : Fields)
    → has "ref" old ≡ true
    → write_block path value old ≡ err (value_error unresolved)
unfolding write_block
write_block-reference path value old h = rw h

-- An event that sets a field of the block with an id.
pub record SetsField (e : PatchEvent) (rest id : String) (value : Value) : Type 0 where
  pub block : Fields
  pub op : e.op ≡ PatchOp.set
  pub mask : e.mask ≡ some (String.◌++◌ "block." rest)
  pub no_meta : e.meta ≡ none
  pub payload : e.block ≡ some block
  pub named : get "id" block ≡ some (str id)
  pub has_value : read_path block (split rest) ≡ some value
  pub rest_ok : rest ≢ ""

-- A field set on a block that is an unresolved reference raises, and leaves the snapshot as it is.
pub set-unresolved :
    (s : Fields) (e : PatchEvent) (rest id : String) (value : Value) (old : Fields)
    → IsWellFormed s
    → SetsField e rest id value
    → block_at id s ≡ some old
    → has "ref" old ≡ true
    → apply_event s e ≡ raised (value_error unresolved) s
unfolding apply_set set_by_mask set_block read_masked
set-unresolved s e rest id value old w a there h =
    let found : find (str id) w.items ≡ some old = rw (blocks_of-items s w) at there in
    apply_event-op PatchOp.set s e a.op
    ∙ rw (
      a.mask,
      a.no_meta,
      a.payload,
      partition-block rest,
      str_eq-ne rest "" a.rest_ok,
      a.has_value,
      a.named,
      stored-or_else (get "blocks" s) w.items w.stored,
      scan_value-find (str id) (write_block (split rest) value) w.items old found,
      write_block-reference (split rest) value old h,
    )
