-- ===== src/Apply/WellFormed/Upsert.antt =====
-- A whole-block set keeps a snapshot well formed.
use agentue.Prelude.{
  String, ◌≡◌, ◌∙◌, sym, Bool, true, false, Option, none, some, arith, ap, Option-cases, inl, inr,
  not, ◌&&◌,
}
use agentue.Json.{
  Value, str, arr, obj, Items, nil, Fields, get, has, get_or_null, or_null, to_list, set_default,
  append,
}
use agentue.Json.Equality.{py_eq, py_eq-str}
use agentue.Result.{
  Result, ok, err, raise_if-eq-ok, >>=-eq-ok, Error, value_error, set_id, reference_version,
}
use agentue.Model.{
  Block, parse_version, protocol_version, is_name, is_reference_block, validate_block,
}
use agentue.Apply.Blocks.{scan, scan_value, append_value}
use agentue.Apply.Blocks.Laws.{find, find-id, Found, scan-some_inv, scan-none_inv, find-none-Absent}
use agentue.Apply.WellFormed.{
  AllowsReferences, IsBlock, AreBlocks, IsWellFormed, append-AreBlocks, replace-AreBlocks,
  IsBlock-IsDict, set_default-Defaulted, set-blocks-IsWellFormed,
}
use agentue.Apply.WellFormed.Steps.{or_insert-inv, attempt-inv, store-inv}
use agentue.Apply.{done, on_blocks, non_empty, check_upsert, upsert_blocks, upsert_block}

pub non_empty-inv :
    (o : Option Value) (e : Error) (id : String)
    → non_empty o (err e) ≡ ok id
    → (o ≡ some (str id)) × (is_name o ≡ true)
non_empty-inv (some (str s)) e id h = ground arith
non_empty-inv o e id h = cc

-- What the checks of an upsert establish of the block.
record Upsertable (s block : Fields) (id : String) : Type 0 where
  named : get "id" block ≡ some (str id)
  is_block : IsBlock (AllowsReferences s) (obj block)

reference-valid :
    (block : Fields) (b : Block)
    → validate_block block ≡ ok b
    → has "ref" block ≡ true
    → is_reference_block block ≡ true
unfolding validate_block
reference-valid block b h r = ground arith

version-AllowsReferences :
    (s : Fields)
    → py_eq (get_or_null "version" s) (str protocol_version) ≡ true
    → AllowsReferences s
unfolding parse_version
version-AllowsReferences s h =
    let e = (py_eq-str (get_or_null "version" s) protocol_version).0 h in
    elim (Option-cases (get "version" s)) [
      | inl missing ↦ cc (ap or_null missing)
      | inr (v, found) ↦ rw found (rw (sym (ap or_null found) ∙ e))
    ]

abbrev needs_version : Fields → Fields → Bool
needs_version s block =
    has "ref" block && not (py_eq (get_or_null "version" s) (str protocol_version))

needed :
    (s block : Fields)
    → needs_version s block ≡ false
    → has "ref" block ≡ true
    → py_eq (get_or_null "version" s) (str protocol_version) ≡ true
needed s block h r = ground arith

check_upsert-inv :
    (s block : Fields) (id : String) → check_upsert s block ≡ ok id → Upsertable s block id
unfolding check_upsert
check_upsert-inv s block id h =
    let (i, named, h₁) = >>=-eq-ok (non_empty (get "id" block) (err (value_error set_id))) _ h in
    let (b, valid, h₂) = >>=-eq-ok (validate_block block) _ h₁ in
    let (version, h₃) = raise_if-eq-ok (needs_version s block) reference_version (ok i) h₂ in
    let same : i ≡ id = ground arith in
    let (e, name) = non_empty-inv (get "id" block) (value_error set_id) i named in
    record {
      named = rw e (ap (λ (t : String). some (str t)) same);
      is_block = (
        name,
        λ r. (
          reference-valid block b valid r,
          version-AllowsReferences s (needed s block version r),
        ),
      );
    }

pub record Stored (allowed : Type 0) (v : Value) : Type 0 where
  pub items : Items
  pub shape : v ≡ arr items
  pub good : AreBlocks allowed items

pub append_value-Stored :
    (allowed : Type 0) (vs : Items) (block : Fields) (id : String) (v : Value)
    → AreBlocks allowed vs
    → IsBlock allowed (obj block)
    → get "id" block ≡ some (str id)
    → find (str id) vs ≡ none
    → append_value (arr vs) block ≡ ok v
    → Stored allowed v
unfolding append_value
append_value-Stored allowed vs block id v w b named f h = record {
  items = append vs (obj block);
  shape = ground arith;
  good =
      append-AreBlocks allowed vs block w b
        (rw named (find-none-Absent id vs (IsBlock-IsDict allowed (to_list vs) w.blocks) f));
}

upserted-AreBlocks :
    (s block : Fields) (id : String) (vs vs' : Items)
    → Upsertable s block id
    → AreBlocks (AllowsReferences s) vs
    → Found (str id) (λ _. ok block) vs vs'
    → AreBlocks (AllowsReferences s) vs'
upserted-AreBlocks s block id vs vs' u w f =
    let e : block ≡ f.new = ground arith in
    rw (f.result, ← e)
      (replace-AreBlocks (AllowsReferences s) (str id) block vs w u.is_block
        λ old found. ap or_null u.named ∙ sym ((py_eq-str _ id).0 (find-id (str id) vs old found)))

upsert_blocks-Stored :
    (s block : Fields) (id : String) (vs : Items) (v : Value)
    → Upsertable s block id
    → AreBlocks (AllowsReferences s) vs
    → upsert_blocks id block (arr vs) ≡ ok v
    → Stored (AllowsReferences s) v
unfolding upsert_blocks scan_value
upsert_blocks-Stored s block id vs v u w h =
    elim (or_insert-inv (scan (str id) (λ _. ok block) vs) (append_value (arr vs) block) v h) [
      | inl (vs', scanned, shape) ↦ record {
        items = vs';
        shape = shape;
        good =
            upserted-AreBlocks s block id vs vs' u w
              (scan-some_inv (str id) (λ _. ok block) vs vs' scanned);
      }
      | inr (scanned, appended) ↦
          append_value-Stored (AllowsReferences s) vs block id v w u.is_block u.named
            (scan-none_inv (str id) (λ _. ok block) vs scanned).1 appended
    ]

-- What is done to the list of blocks of a well-formed snapshot, if it keeps them blocks.
pub on_blocks-IsWellFormed :
    (s : Fields) (f : Value → Result Value) (s' : Fields) (w : IsWellFormed s)
    → ((v : Value) → f (arr w.items) ≡ ok v → Stored (AllowsReferences s) v)
    → on_blocks s f ≡ done s'
    → IsWellFormed s'
on_blocks-IsWellFormed s f s' w keep h =
    let d = set_default-Defaulted s w in
    let (v, made, e) = store-inv "blocks" (set_default "blocks" (arr nil) s) _ s' h in
    let st = keep v (rw (← d.stored) made) in
    rw (e, st.shape)
      (set-blocks-IsWellFormed (set_default "blocks" (arr nil) s) st.items (rw d.version st.good))

pub upsert_block-IsWellFormed :
    (s block s' : Fields) → IsWellFormed s → upsert_block s block ≡ done s' → IsWellFormed s'
unfolding upsert_block
upsert_block-IsWellFormed s block s' w h =
    let (id, checked, h') = attempt-inv s (check_upsert s block) _ s' h in
    let u = check_upsert-inv s block id checked in
    on_blocks-IsWellFormed s (upsert_blocks id block) s' w
      (λ v. upsert_blocks-Stored s block id w.items v u w.good) h'
