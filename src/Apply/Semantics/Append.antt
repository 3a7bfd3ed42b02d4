-- ===== src/Apply/Semantics/Append.antt =====
-- `append` joins a text or a list to a field of one block, and creates the block if there is none.
use Prim.Native.String
use text.Mathlib.TextLemmas.{append_assoc}
use agentue.Prelude.{
  String, ◌≡◌, ◌≢◌, ◌∙◌, refl, sym, false, Option, none, some, ap, if◌then◌else◌, str_eq, str_eq-ne,
}
use agentue.Prelude.Text.{has_dot, remove_prefix-append}
use agentue.Json.{
  Value, null, str, arr, Items, Fields, get, get_or_null, or_null, has, set, concat, or_empty,
  is_some,
}
use agentue.Json.Equality.{py_eq-str}
use agentue.Json.Laws.{get-set_self, get-set_ne, set-set}
use agentue.Result.{ok}
use agentue.Event.{PatchOp, PatchEvent}
use agentue.Apply.Blocks.{merge_field, join}
use agentue.Apply.Blocks.Laws.{find, replace, find-id, find-replace, replace-replace, find-All}
use agentue.Event.Valid.{IsPatchable}
use agentue.Apply.WellFormed.{
  IsWellFormed, IsBlock, AllowsReferences, replace-AreBlocks, set-blocks-IsWellFormed,
}
use agentue.Apply.WellFormed.Steps.{merge_field-KeepsBlock}
use agentue.Apply.Semantics.{
  block_at, blocks_of, ids_of, blocks_of-set, blocks_of-items, apply_event-op, on_blocks-eq,
  scan_value-find, set_default-found, find-replace_if, ids-replace_named,
}
use agentue.Apply.{
  done, and_then, Delta, text_or_list, read_delta, append_blocks, apply_append, apply_event,
}

-- what may be appended
abbrev pub IsDelta : Value → Type 0
IsDelta (str s) = Unit
IsDelta (arr vs) = Unit
IsDelta v = ⊥

-- The field before, the delta, and the field after.
pub data Joins : Option Value → Value → Value → Type 0 where
  absent : (v : Value) → Joins none v v
  was_null : (v : Value) → Joins (some null) v v
  texts : (a b : String) → Joins (some (str a)) (str b) (str (String.◌++◌ a b))
  lists : (xs ys : Items) → Joins (some (arr xs)) (arr ys) (arr (concat xs ys))

-- An event that appends a value to a field of a block.
pub record Appends (e : PatchEvent) (name id : String) (value : Value) : Type 0 where
  pub block : Fields
  pub op : e.op ≡ PatchOp.append
  pub mask : e.mask ≡ some (String.◌++◌ "block." name)
  pub payload : e.block ≡ some block
  pub named : get "id" block ≡ some (str id)
  pub has_value : get name block ≡ some value
  pub delta : IsDelta value
  pub name_ok : (name ≢ "") × (has_dot name ≡ false) × (name ≢ "id")
  pub id_ok : id ≢ ""

text_or_list-IsDelta : (v : Value) → IsDelta v → text_or_list (some v) ≡ ok v
text_or_list-IsDelta (str s) h = refl
text_or_list-IsDelta (arr vs) h = refl
text_or_list-IsDelta v h = absurd h

abbrev pub delta_of : Fields → String → String → Value → Delta
delta_of block name id value = record { name = name; block = block; id = id; value = value }

pub read_delta-Appends :
    (e : PatchEvent) (name id : String) (value : Value) (a : Appends e name id value)
    → read_delta e.mask (or_empty e.block) ≡ ok (delta_of a.block name id value)
unfolding read_delta
read_delta-Appends e name id value a = rw (
  a.mask,
  a.payload,
  remove_prefix-append,
  str_eq-ne name "" a.name_ok.0,
  a.name_ok.1,
  a.named,
  str_eq-ne id "" a.id_ok,
  a.has_value,
  text_or_list-IsDelta value a.delta,
)

join-Joins : (o : Option Value) (v new : Value) → Joins o v new → join (or_null o) v ≡ ok new
unfolding join
join-Joins o v new (absent _) = refl
join-Joins o v new (was_null _) = refl
join-Joins o v new (texts a b) = refl
join-Joins o v new (lists xs ys) = refl

merge_field-Joins :
    (name : String) (value new : Value) (old : Fields)
    → has "ref" old ≡ false
    → Joins (get name old) value new
    → merge_field name value old ≡ ok (set name new old)
unfolding merge_field
merge_field-Joins name value new old inline j = rw (inline, join-Joins (get name old) value new j)

append-eq :
    (s : Fields) (e : PatchEvent) (name id : String) (value new : Value) (old : Fields)
    (w : IsWellFormed s)
    → Appends e name id value
    → find (str id) w.items ≡ some old
    → has "ref" old ≡ false
    → Joins (get name old) value new
    → apply_append s e ≡ done (set "blocks" (arr (replace (str id) (set name new old) w.items)) s)
unfolding apply_append append_blocks
append-eq s e name id value new old w a found inline j = rw (read_delta-Appends e name id value a) (
    on_blocks-eq s w (append_blocks (delta_of a.block name id value))
    ∙ rw (
      scan_value-find (str id) (merge_field name value) w.items old found,
      merge_field-Joins name value new old inline j,
      set_default-found s w (str id) old found,
    ))

-- On a well-formed snapshot, appending to an inline block that is there, of a value that joins with
-- the field, succeeds: the field holds the joined value, the other fields and the other blocks are as
-- they were, and so are the order and every key of the snapshot but `blocks`.
pub append-block_at :
    (s : Fields) (e : PatchEvent) (name id : String) (value new : Value) (old : Fields)
    → IsWellFormed s
    → Appends e name id value
    → block_at id s ≡ some old
    → has "ref" old ≡ false
    → Joins (get name old) value new
    → (s' : Fields) × (apply_event s e ≡ done s')
      × ((j : String)
          → block_at j s' ≡ (if str_eq id j then some (set name new old) else block_at j s))
      × (ids_of s' ≡ ids_of s)
      × ((k : String) → k ≢ "blocks" → get k s' ≡ get k s)
append-block_at s e name id value new old w a there inline j =
    let found : find (str id) w.items ≡ some old = rw (blocks_of-items s w) at there in
    let vs = replace (str id) (set name new old) w.items in
    let named : get_or_null "id" (set name new old) ≡ str id =
      ap or_null (get-set_ne name "id" new old a.name_ok.2)
      ∙ (py_eq-str _ id).0 (find-id (str id) w.items old found) in
    (
      set "blocks" (arr vs) s,
      apply_event-op PatchOp.append s e a.op
          ∙ append-eq s e name id value new old w a found inline j,
      λ k.
          rw (blocks_of-set s vs, blocks_of-items s w)
            (find-replace_if id k _ old w.items found named),
      rw (blocks_of-set s vs, blocks_of-items s w) (ids-replace_named id _ w.items named),
      λ k other. get-set_ne "blocks" k (arr vs) s (λ e. other (sym e)),
    )

-- What the first of two appends leaves is well formed, with the block updated.
record Midway (s s₁ : Fields) (id : String) (new : Fields) : Type 0 where
  well : IsWellFormed s₁
  items_eq : well.items ≡ replace (str id) new (blocks_of s)
  there : find (str id) well.items ≡ some new

module _ (s : Fields) (w : IsWellFormed s) (name id : String) (old : Fields) (p : IsPatchable name)
    (found : find (str id) w.items ≡ some old) (inline : has "ref" old ≡ false) where
  set-id : (v : Value) → get_or_null "id" (set name v old) ≡ str id
  set-id v =
      ap or_null (get-set_ne name "id" v old p.0)
      ∙ (py_eq-str _ id).0 (find-id (str id) w.items old found)

  midway :
      (value new : Value)
      → Joins (get name old) value new
      → Midway s
          (set "blocks" (arr (replace (str id) (set name new old) w.items)) s)
          id
          (set name new old)
  midway value new j =
      let vs = replace (str id) (set name new old) w.items in
      let merged = merge_field-Joins name value new old inline j in
      let old_block =
        find-All (IsBlock (AllowsReferences s)) (str id) w.items old found w.good.blocks in
      let k = merge_field-KeepsBlock (AllowsReferences s) name value p in
      let good =
        replace-AreBlocks (AllowsReferences s) (str id) (set name new old) w.items w.good
          (k.block old (set name new old) merged old_block)
          (λ o f. set-id new ∙ sym ((py_eq-str _ id).0 (find-id (str id) w.items o f))) in
      let well = set-blocks-IsWellFormed s vs good in
      let e : well.items ≡ vs = sym (blocks_of-items _ well) ∙ blocks_of-set s vs in
      record {
        well = well;
        items_eq = e ∙ ap (replace (str id) (set name new old)) (sym (blocks_of-items s w));
        there = rw e (
            find-replace (str id) (set name new old) old w.items found
              ((py_eq-str _ id).1 (set-id new)));
      }

-- Appending two texts one after the other to a text field of an inline block gives the snapshot
-- that appending their concatenation at once gives.
pub append-append_text :
    (s : Fields) (e₁ e₂ e : PatchEvent) (name id text a b : String) (old : Fields)
    → IsWellFormed s
    → IsPatchable name
    → Appends e₁ name id (str a)
    → Appends e₂ name id (str b)
    → Appends e name id (str (String.◌++◌ a b))
    → block_at id s ≡ some old
    → has "ref" old ≡ false
    → get name old ≡ some (str text)
    → and_then (apply_event s e₁) (λ s'. apply_event s' e₂) ≡ apply_event s e
append-append_text s e₁ e₂ e name id text a b old w p a₁ a₂ a₃ there inline h =
    let found : find (str id) w.items ≡ some old = rw (blocks_of-items s w) at there in
    let ta = String.◌++◌ text a in
    let new₁ = set name (str ta) old in
    let s₁ = set "blocks" (arr (replace (str id) new₁ w.items)) s in
    let j₁ : Joins (get name old) (str a) (str ta) = rw h (texts text a) in
    let j₃ : Joins (get name old) (str (String.◌++◌ a b))
        (str (String.◌++◌ text (String.◌++◌ a b))) =
      rw h (texts text (String.◌++◌ a b)) in
    let m = midway s w name id old p found inline (str a) (str ta) j₁ in
    let j₂ : Joins (get name new₁) (str b) (str (String.◌++◌ ta b)) =
      rw get-set_self (texts ta b) in
    let first =
      apply_event-op PatchOp.append s e₁ a₁.op
      ∙ append-eq s e₁ name id (str a) (str ta) old w a₁ found inline j₁ in
    let second =
      apply_event-op PatchOp.append s₁ e₂ a₂.op
      ∙ append-eq s₁ e₂ name id (str b) _ new₁ m.well a₂ m.there
          (ap is_some (get-set_ne name "ref" _ old p.1) ∙ inline) j₂ in
    let both =
      apply_event-op PatchOp.append s e a₃.op
      ∙ append-eq s e name id _ _ old w a₃ found inline j₃ in
    let items : replace (str id) (set name (str (String.◌++◌ ta b)) new₁) m.well.items
        ≡ replace (str id) (set name (str (String.◌++◌ text (String.◌++◌ a b))) old) w.items =
      rw (m.items_eq, blocks_of-items s w)
        (replace-replace (str id) new₁ _ w.items
            ((py_eq-str _ id).1 (set-id s w name id old p found inline (str ta)))
          ∙ rw (set-set, append_assoc)) in
    rw (first, both)
      (second
        ∙ ap done (set-set "blocks" _ _ s ∙ ap (λ (vs : Items). set "blocks" (arr vs) s) items))
