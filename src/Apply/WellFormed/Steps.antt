-- ===== src/Apply/WellFormed/Steps.antt =====
-- Each operation of the reducer keeps the invariant of a snapshot.
use mathlib.Core.Option
use mathlib.Core.Option.{some-injective}
use agentue.Prelude.{
  String, ◌≡◌, ◌∙◌, refl, sym, false, Option, none, some, List, arith, ap, ◌⊎◌, inl, inr,
}
use agentue.Prelude.Text.{first_part}
use agentue.Json.{Value, arr, obj, Items, Fields, get, set, has, get_or_null, or_null, is_some}
use agentue.Json.Laws.{get-set_ne}
use agentue.Result.{Result, ok, err, ◌>>=◌, raise_if-eq-ok, >>=-eq-ok, unresolved}
use agentue.Event.Valid.{IsPatchable}
use agentue.Apply.Path.{write_path}
use agentue.Apply.Path.Laws.{get-write_path_first}
use agentue.Apply.Blocks.{merge_field, write_block, join}
use agentue.Apply.Blocks.Laws.{Found, find-All}
use agentue.Apply.WellFormed.{IsBlock, AreBlocks, replace-AreBlocks}
use agentue.Apply.{Outcome, done, attempt, store, or_insert}

-- the two ways in which a scan that may insert succeeds
pub or_insert-inv :
    (r : Result (Option Items)) (k : Result Value) (v : Value)
    → ((r >>= λ found. ok (Option.map arr found)) >>= λ found. or_insert found k) ≡ ok v
    → ((vs' : Items) × (r ≡ ok (some vs')) × (v ≡ arr vs')) ⊎ ((r ≡ ok none) × (k ≡ ok v))
or_insert-inv (ok (some vs')) k v h = inl (vs', refl, ground arith)
or_insert-inv (ok none) k v h = inr (refl, h)
or_insert-inv (err e) k v h = cc

-- An action that keeps a block a block, with its id.
pub record KeepsBlock (allowed : Type 0) (act : Fields → Result Fields) : Type 0 where
  pub block :
      (old new : Fields) → act old ≡ ok new → IsBlock allowed (obj old) → IsBlock allowed (obj new)
  pub id : (old new : Fields) → act old ≡ ok new → get_or_null "id" new ≡ get_or_null "id" old

pub Found-AreBlocks :
    (allowed : Type 0) (id : Value) (act : Fields → Result Fields) (vs vs' : Items)
    → KeepsBlock allowed act
    → AreBlocks allowed vs
    → Found id act vs vs'
    → AreBlocks allowed vs'
Found-AreBlocks allowed id act vs vs' k w f = rw f.result (
    replace-AreBlocks allowed id f.new vs w
      (k.block f.old f.new f.acted (find-All (IsBlock allowed) id vs f.old f.found w.blocks))
      (λ old found.
        let e : old ≡ f.old = some-injective old f.old (sym found ∙ f.found) in
        rw e (k.id f.old f.new f.acted)))

-- a field of an inline block, other than `id` and `ref`, written
patched-IsBlock :
    (allowed : Type 0) (old new : Fields)
    → has "ref" old ≡ false
    → get "id" new ≡ get "id" old
    → get "ref" new ≡ get "ref" old
    → IsBlock allowed (obj old)
    → IsBlock allowed (obj new)
patched-IsBlock allowed old new inline id ref h =
    (rw id h.0, λ r. absurd (ground (arith, ap is_some ref)))

record Merged (name : String) (value : Value) (old new : Fields) : Type 0 where
  inline : has "ref" old ≡ false
  joined : Value
  result : new ≡ set name joined old

merge_field-inv :
    (name : String) (value : Value) (old new : Fields)
    → merge_field name value old ≡ ok new
    → Merged name value old new
unfolding merge_field
merge_field-inv name value old new h =
    let (inline, e) = raise_if-eq-ok (has "ref" old) unresolved _ h in
    let (joined, j, f) = >>=-eq-ok (join (get_or_null name old) value) _ e in
    record { inline = inline; joined = joined; result = ground arith }

pub merge_field-KeepsBlock :
    (allowed : Type 0) (name : String) (value : Value)
    → IsPatchable name
    → KeepsBlock allowed (merge_field name value)
merge_field-KeepsBlock allowed name value p = record {
  block = λ old new h b.
      let m = merge_field-inv name value old new h in
      patched-IsBlock allowed old new m.inline (rw m.result (get-set_ne name "id" m.joined old p.0))
        (rw m.result (get-set_ne name "ref" m.joined old p.1)) b;
  id = λ old new h.
      let m = merge_field-inv name value old new h in
      rw m.result (ap or_null (get-set_ne name "id" m.joined old p.0));
}

write_block-inv :
    (path : List String) (value : Value) (old new : Fields)
    → write_block path value old ≡ ok new
    → (has "ref" old ≡ false) × (new ≡ write_path old path value)
unfolding write_block
write_block-inv path value old new h =
    let (inline, e) = raise_if-eq-ok (has "ref" old) unresolved _ h in (inline, ground arith)

pub write_block-KeepsBlock :
    (allowed : Type 0) (path : List String) (value : Value)
    → IsPatchable (first_part path)
    → KeepsBlock allowed (write_block path value)
write_block-KeepsBlock allowed path value p = record {
  block = λ old new h b.
      let (inline, e) = write_block-inv path value old new h in
      patched-IsBlock allowed old new inline (rw e (get-write_path_first "id" old path value p.0))
        (rw e (get-write_path_first "ref" old path value p.1)) b;
  id = λ old new h.
      let (inline, e) = write_block-inv path value old new h in
      rw e (ap or_null (get-write_path_first "id" old path value p.0));
}

-- Inversions of an operation that returns.
pub attempt-inv :
    {A : Type 0} (s : Fields) (r : Result A) (f : A → Outcome) (s' : Fields)
    → attempt s r f ≡ done s'
    → (a : A) × (r ≡ ok a) × (f a ≡ done s')
attempt-inv s (ok a) f s' h = (a, refl, h)
attempt-inv s (err e) f s' h = cc

pub store-inv :
    (k : String) (s : Fields) (r : Result Value) (s' : Fields)
    → store k s r ≡ done s'
    → (v : Value) × (r ≡ ok v) × (s' ≡ set k v s)
store-inv k s (ok v) s' h = (v, refl, ground arith)
store-inv k s (err e) s' h = cc
