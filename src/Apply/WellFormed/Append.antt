-- ===== src/Apply/WellFormed/Append.antt =====
-- `_apply_append` on a snapshot that is well formed.
use agentue.Prelude.{
  String, ◌≡◌, ◌∙◌, refl, true, false, Option, some, arith, inl, inr, not, str_eq, ◌||◌,
}
use agentue.Prelude.Text.{has_dot, remove_prefix, remove_prefix-append, split-of_no_dot}
use agentue.Json.{Value, str, arr, Items, Fields, get, or_empty}
use agentue.Result.{
  ok, err, value_error, append_mask_shape, append_id, block_incomplete, raise_if-eq-ok, >>=-eq-ok,
  ok-injective,
}
use agentue.Model.{is_name, validate_block}
use agentue.Event.{PatchEvent}
use agentue.Event.Valid.{IsPatchable, BlockMask, AppendParts}
use agentue.Apply.Blocks.{scan, scan_value, merge_field, append_value}
use agentue.Apply.Blocks.Laws.{scan-some_inv, scan-none_inv}
use agentue.Apply.WellFormed.{AllowsReferences, AreBlocks, IsWellFormed}
use agentue.Apply.WellFormed.Steps.{
  attempt-inv, or_insert-inv, Found-AreBlocks, merge_field-KeepsBlock,
}
use agentue.Apply.WellFormed.Upsert.{
  non_empty-inv, Stored, append_value-Stored, on_blocks-IsWellFormed,
}
use agentue.Apply.{
  done, Delta, non_empty, text_or_list, read_delta, insert_missing, append_blocks, apply_append,
}

-- What the checks of an append establish.
pub record DeltaFacts (mask : String) (block : Fields) (d : Delta) : Type 0 where
  pub block_eq : d.block ≡ block
  pub name_eq : d.name ≡ remove_prefix mask "block."
  pub no_dot : has_dot d.name ≡ false
  pub named : get "id" block ≡ some (str d.id)
  pub is_named : is_name (get "id" block) ≡ true
  pub value_eq : get d.name block ≡ some d.value

text_or_list-inv : (o : Option Value) (v : Value) → text_or_list o ≡ ok v → o ≡ some v
text_or_list-inv (some (str s)) v h = ground arith
text_or_list-inv (some (arr vs)) v h = ground arith
text_or_list-inv o v h = cc

pub read_delta-DeltaFacts :
    (mask : String) (block : Fields) (d : Delta)
    → read_delta (some mask) block ≡ ok d
    → DeltaFacts mask block d
unfolding read_delta
read_delta-DeltaFacts mask block d h =
    let name = remove_prefix mask "block." in
    let (shape, h₁) = raise_if-eq-ok (str_eq name "" || has_dot name) append_mask_shape _ h in
    let (i, named, h₂) =
      >>=-eq-ok (non_empty (get "id" block) (err (value_error append_id))) _ h₁ in
    let (v, chosen, h₃) = >>=-eq-ok (text_or_list (get name block)) _ h₂ in
    let (e, is_named) = non_empty-inv (get "id" block) (value_error append_id) i named in
    let chosen' = text_or_list-inv (get name block) v chosen in
    let made : ok (record { name = name; block = block; id = i; value = v }) ≡ ok d = h₃ in
    rw (← ok-injective made) (record {
      block_eq = refl;
      name_eq = refl;
      no_dot = ground arith;
      named = e;
      is_named = is_named;
      value_eq = chosen';
    })

pub AppendParts-IsPatchable :
    (mask : String) (block : Fields) (d : Delta)
    → BlockMask mask block
    → DeltaFacts mask block d
    → IsPatchable d.name
AppendParts-IsPatchable mask block d m f =
    let e : d.name ≡ m.rest = f.name_eq ∙ (rw m.shape (remove_prefix-append "block." m.rest)) in
    rw e (let first = m.first in rw (split-of_no_dot m.rest (rw (← e) f.no_dot)) at first)

insert_missing-inv :
    (block : Fields) (blocks v : Value)
    → insert_missing block blocks ≡ ok v
    → append_value blocks block ≡ ok v
unfolding insert_missing
insert_missing-inv block blocks v h =
    let (typed, h₁) = raise_if-eq-ok (not (is_name (get "type" block))) block_incomplete _ h in
    let (b, valid, h₂) = >>=-eq-ok (validate_block block) _ h₁ in h₂

append_blocks-Stored :
    (allowed : Type 0) (mask : String) (block : Fields) (d : Delta) (vs : Items) (v : Value)
    → BlockMask mask block
    → DeltaFacts mask block d
    → AreBlocks allowed vs
    → append_blocks d (arr vs) ≡ ok v
    → Stored allowed v
unfolding append_blocks scan_value
append_blocks-Stored allowed mask block d vs v m f w h =
    elim (or_insert-inv (scan (str d.id) (merge_field d.name d.value) vs)
      (insert_missing d.block (arr vs)) v h) [
        | inl (vs', scanned, shape) ↦ record {
          items = vs';
          shape = shape;
          good =
              Found-AreBlocks allowed (str d.id) (merge_field d.name d.value) vs vs'
                (merge_field-KeepsBlock allowed d.name d.value
                  (AppendParts-IsPatchable mask block d m f))
                w (scan-some_inv (str d.id) (merge_field d.name d.value) vs vs' scanned);
        }
        | inr (scanned, inserted) ↦
            append_value-Stored allowed vs block d.id v w
              (f.is_named, λ r. absurd (ground (arith, m.inline))) f.named
              (scan-none_inv (str d.id) (merge_field d.name d.value) vs scanned).1
              (insert_missing-inv block (arr vs) v (rw (← f.block_eq) inserted))
      ]

pub apply_append-IsWellFormed :
    (s s' : Fields) (e : PatchEvent)
    → AppendParts e
    → IsWellFormed s
    → apply_append s e ≡ done s'
    → IsWellFormed s'
unfolding apply_append
apply_append-IsWellFormed s s' e p w h =
    let (d, read, h') = attempt-inv s (read_delta e.mask (or_empty e.block)) _ s' h in
    let f = read_delta-DeltaFacts p.mask p.block d (rw (p.has_mask, p.has_block) at read) in
    on_blocks-IsWellFormed s (append_blocks d) s' w
      (λ v. append_blocks-Stored (AllowsReferences s) p.mask p.block d w.items v p.parts f w.good)
      h'
