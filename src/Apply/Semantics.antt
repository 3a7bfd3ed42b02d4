-- ===== src/Apply/Semantics.antt =====
-- What `set` and `append` do to the blocks of a well-formed snapshot, in terms of the block with an
-- id and of the list with that block replaced.
pub mod Upsert
pub mod Append
pub mod References
use mathlib.Core.Path.{subst}
use agentue.Prelude.{
  String, List, ◌≡◌, ◌∙◌, refl, sym, true, Option, none, some, arith, ap, inl, inr, Option-cases,
  String-cases, str_eq, str_eq-ne, eq_refl, if◌then◌else◌,
}
use mathlib.Core.Option
use mathlib.Core.Option.{some-injective, none-ne-some}
use agentue.Json.{
  Value, str, set, arr, obj, Items, nil, Fields, get, get_or_null, set_default, append, has,
  is_some,
}
use agentue.Json.Equality.{py_eq-str}
use agentue.Json.Laws.{get-set}
use agentue.Result.{Result, ok, err, ◌>>=◌}
use agentue.Event.{PatchOp, PatchEvent}
use agentue.Apply.Blocks.{scan, scan_value}
use agentue.Apply.Blocks.Laws.{
  find, ids, find-nil, find-id, find-replace, find-replace_ne, ids-replace, replace, scan-find,
  scan-find-none,
}
use agentue.Apply.WellFormed.{
  IsWellFormed, AreBlocks, IsBlock-IsDict, set_default-Defaulted, stored_items,
}
use agentue.Apply.{Outcome, store, on_blocks, apply_op, apply_event}

abbrev pub or_nil : Option Items → Items
or_nil none = nil
or_nil (some vs) = vs

-- one of two values, by whether there is a block
abbrev pub if_found {ℓ} : {A : Type ℓ} → Option Fields → A → A → A
if_found (some old) x y = x
if_found none x y = y

-- `snapshot["blocks"]`, as far as it is a list
abbrev pub blocks_of : Fields → Items
blocks_of s = or_nil (stored_items (get "blocks" s))

-- the block with the id, in the whole snapshot
abbrev pub block_at : String → Fields → Option Fields
block_at id s = find (str id) (blocks_of s)

-- the ids in the order of the blocks
abbrev pub ids_of : Fields → List Value
ids_of s = ids (blocks_of s)

pub blocks_of-set : (s : Fields) (vs : Items) → blocks_of (set "blocks" (arr vs) s) ≡ vs
blocks_of-set s vs = rw get-set

pub blocks_of-items : (s : Fields) (w : IsWellFormed s) → blocks_of s ≡ w.items
blocks_of-items s w = rw w.stored

pub apply_event-op :
    (op : PatchOp) (s : Fields) (e : PatchEvent) → e.op ≡ op → apply_event s e ≡ apply_op op s e
unfolding apply_event
apply_event-op op s e h = ap (λ (o : PatchOp). apply_op o s e) h

pub on_blocks-eq :
    (s : Fields) (w : IsWellFormed s) (f : Value → Result Value)
    → on_blocks s f ≡ store "blocks" (set_default "blocks" (arr nil) s) (f (arr w.items))
on_blocks-eq s w f =
    ap (λ (v : Value). store "blocks" (set_default "blocks" (arr nil) s) (f v))
      (set_default-Defaulted s w).stored

pub scan_value-find :
    (id : Value) (act : Fields → Result Fields) (vs : Items) (old : Fields)
    → find id vs ≡ some old
    → scan_value id act (arr vs) ≡ (act old >>= λ new. ok (some (arr (replace id new vs))))
unfolding scan_value
scan_value-find id act vs old h =
    rw (scan-find id act vs old h) (lift (act old) (λ new. replace id new vs))
  where
    lift :
        (r : Result Fields) (k : Fields → Items)
        → ((r >>= λ new. ok (some (k new))) >>= λ found. ok (Option.map arr found))
          ≡ (r >>= λ new. ok (some (arr (k new))))
    lift (ok new) k = refl
    lift (err e) k = refl

pub scan_value-find-none :
    (id : Value) (act : Fields → Result Fields) (allowed : Type 0) (vs : Items)
    → AreBlocks allowed vs
    → find id vs ≡ none
    → scan_value id act (arr vs) ≡ ok none
unfolding scan_value
scan_value-find-none id act allowed vs w h =
    rw (scan-find-none id act vs (IsBlock-IsDict allowed _ w.blocks) h)

-- a snapshot with a block has its list of blocks
pub set_default-found :
    (s : Fields) (w : IsWellFormed s) (id : Value) (old : Fields)
    → find id w.items ≡ some old
    → set_default "blocks" (arr nil) s ≡ s
set_default-found s w id old h = elim (Option-cases (get "blocks" s)) [
  | inl missing ↦
      let no_items : nil ≡ w.items = some-injective nil w.items (rw missing at w.stored) in
      absurd (none-ne-some old (sym (find-nil id) ∙ ap (find id) no_items ∙ h))
  | inr (v, there) ↦ rw there
]

-- The blocks by id, once the block with one id is replaced by one with that id.
pub find-replace_if :
    (id j : String) (new old : Fields) (vs : Items)
    → find (str id) vs ≡ some old
    → get_or_null "id" new ≡ str id
    → find (str j) (replace (str id) new vs) ≡ (if str_eq id j then some new else find (str j) vs)
find-replace_if id j new old vs found named = elim (String-cases id j) [
  | inl same ↦
      rw (← same, eq_refl id) (find-replace (str id) new old vs found ((py_eq-str _ id).1 named))
  | inr other ↦ rw (str_eq-ne id j other) (find-replace_ne id j new vs named other)
]

pub ids-replace_named :
    (id : String) (new : Fields) (vs : Items)
    → get_or_null "id" new ≡ str id
    → ids (replace (str id) new vs) ≡ ids vs
ids-replace_named id new vs named =
    ids-replace (str id) new vs (λ o f. named ∙ sym ((py_eq-str _ id).0 (find-id (str id) vs o f)))
