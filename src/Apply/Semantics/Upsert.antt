-- ===== src/Apply/Semantics/Upsert.antt =====
-- A whole-block `set` is a dictionary update by block id that keeps the order of the blocks.
use agentue.Prelude.{
  String, ◌≡◌, ◌≢◌, ◌∙◌, refl, Bool, true, false, Option, none, some, [], ◌∷◌, ◌++◌, arith, ap, inl,
  inr, ◌⊎◌, Option-cases, String-cases, if◌then◌else◌, str_eq, eq_refl, str_eq-ne, not, ◌&&◌,
}
use agentue.Json.{
  Value, str, arr, obj, Items, nil, Fields, get, get_or_null, or_null, set_default, append, has,
  set,
}
use agentue.Json.Equality.{py_eq, py_eq-str}
use agentue.Result.{ok, ◌>>◌, raise_if, reference_version}
use agentue.Model.{Block, validate_block, protocol_version}
use agentue.Event.{PatchOp, PatchEvent}
use agentue.Apply.Blocks.{append_value}
use agentue.Apply.Blocks.Laws.{find, replace, ids, find-append_self, find-append_ne}
use agentue.Apply.WellFormed.{IsWellFormed, AreBlocks, AllowsReferences, IsBlock-IsDict, ids-append}
use agentue.Apply.Semantics.{
  if_found, block_at, ids_of, blocks_of-set, blocks_of-items, apply_event-op, on_blocks-eq,
  scan_value-find, scan_value-find-none, find-replace_if, ids-replace_named,
}
use agentue.Apply.{done, check_upsert, upsert_blocks, upsert_block, apply_set, apply_event}

-- the list with the block in the place of the one with its id, or at the end
abbrev pub put_block : String → Fields → Items → Items
put_block id block vs =
    if_found (find (str id) vs) (replace (str id) block vs) (append vs (obj block))

-- What a block needs for a whole-block `set`.
pub record Settable (s block : Fields) (id : String) : Type 0 where
  pub named : get "id" block ≡ some (str id)
  pub non_empty_id : id ≢ ""
  pub kind : Block
  pub complete : validate_block block ≡ ok kind
  pub version : (has "ref" block ≡ false) ⊎ (get "version" s ≡ some (str protocol_version))

allowed-version :
    (id : String) (r : Bool) (v : Option Value)
    → (r ≡ false) ⊎ (v ≡ some (str protocol_version))
    → (raise_if (r && not (py_eq (or_null v) (str protocol_version))) reference_version >> ok id)
      ≡ ok id
allowed-version id false v h = refl
allowed-version id true v (inl h) = cc
allowed-version id true v (inr h) =
    rw (h, (py_eq-str (str protocol_version) protocol_version).1 refl) refl

check_upsert-Settable :
    (s block : Fields) (id : String) → Settable s block id → check_upsert s block ≡ ok id
unfolding check_upsert
check_upsert-Settable s block id p =
    let e : str_eq id "" ≡ false = str_eq-ne id "" p.non_empty_id in
    rw (p.named, e, p.complete) (allowed-version id (has "ref" block) (get "version" s) p.version)

upsert_blocks-put_block :
    (allowed : Type 0) (block : Fields) (id : String) (vs : Items)
    → AreBlocks allowed vs
    → upsert_blocks id block (arr vs) ≡ ok (arr (put_block id block vs))
unfolding upsert_blocks append_value
upsert_blocks-put_block allowed block id vs w = elim (Option-cases (find (str id) vs)) [
  | inl missing ↦ rw (missing, scan_value-find-none (str id) (λ _. ok block) allowed vs w missing)
  | inr (old, found) ↦ rw (found, scan_value-find (str id) (λ _. ok block) vs old found)
]

named-py_eq :
    (block : Fields) (id : String)
    → get "id" block ≡ some (str id)
    → py_eq (get_or_null "id" block) (str id) ≡ true
named-py_eq block id named = (py_eq-str _ id).1 (ap or_null named)

other-py_eq :
    (block : Fields) (id j : String)
    → get "id" block ≡ some (str id)
    → id ≢ j
    → py_eq (get_or_null "id" block) (str j) ≡ false
other-py_eq block id j named other =
    ground (arith, py_eq-str (get_or_null "id" block) j, ap or_null named)

find-put_block :
    (allowed : Type 0) (block : Fields) (id j : String) (vs : Items)
    → AreBlocks allowed vs
    → get "id" block ≡ some (str id)
    → find (str j) (put_block id block vs) ≡ (if str_eq id j then some block else find (str j) vs)
find-put_block allowed block id j vs w named = elim (Option-cases (find (str id) vs)) [
  | inl missing ↦ rw missing (elim (String-cases id j) [
    | inl same ↦
        rw (← same, eq_refl id)
          (find-append_self (str id) block vs (IsBlock-IsDict allowed _ w.blocks) missing
            (named-py_eq block id named))
    | inr other ↦
        rw (str_eq-ne id j other)
          (find-append_ne (str j) block vs (other-py_eq block id j named other))
  ])
  | inr (old, found) ↦ rw found (find-replace_if id j block old vs found (ap or_null named))
]

ids-put_block :
    (allowed : Type 0) (block : Fields) (id : String) (vs : Items)
    → get "id" block ≡ some (str id)
    → ids (put_block id block vs) ≡ if_found (find (str id) vs) (ids vs) (ids vs ++ str id ∷ [])
ids-put_block allowed block id vs named = elim (Option-cases (find (str id) vs)) [
  | inl missing ↦
      rw missing
        (ids-append vs (obj block) ∙ ap (λ (v : Value). ids vs ++ v ∷ []) (ap or_null named))
  | inr (old, found) ↦ rw found (ids-replace_named id block vs (ap or_null named))
]

-- A whole-block `set` of a complete block succeeds on a well-formed snapshot. Afterwards the block
-- with its id is the payload and every other block is as it was; the order is the old one, with a
-- new block at the end. A reference needs a model of version 1.1.
pub set-block_at :
    (s : Fields) (e : PatchEvent) (block : Fields) (id : String)
    → IsWellFormed s
    → e.op ≡ PatchOp.set
    → e.mask ≡ none
    → e.block ≡ some block
    → Settable s block id
    → (s' : Fields) × (apply_event s e ≡ done s')
      × ((j : String) → block_at j s' ≡ (if str_eq id j then some block else block_at j s))
      × (ids_of s' ≡ if_found (block_at id s) (ids_of s) (ids_of s ++ str id ∷ []))
unfolding apply_set upsert_block
set-block_at s e block id w op mask payload p =
    let s₁ = set_default "blocks" (arr nil) s in
    let vs = put_block id block w.items in
    (
      set "blocks" (arr vs) s₁,
      apply_event-op PatchOp.set s e op
          ∙ rw (mask, payload, check_upsert-Settable s block id p)
              (on_blocks-eq s w (upsert_blocks id block)
                ∙ rw (upsert_blocks-put_block (AllowsReferences s) block id w.items w.good)),
      λ j.
          rw (blocks_of-set s₁ vs, blocks_of-items s w)
            (find-put_block (AllowsReferences s) block id j w.items w.good p.named),
      rw (blocks_of-set s₁ vs, blocks_of-items s w)
          (ids-put_block (AllowsReferences s) block id w.items p.named),
    )
