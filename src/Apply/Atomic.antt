-- ===== src/Apply/Atomic.antt =====
-- What a patch that raises leaves behind.
use agentue.Prelude.{
  String, ◌≡◌, Option, none, some, List, arith, ◌⊎◌, inl, inr, str_eq, Option-cases, Bool-cases,
}
use agentue.Json.{Value, arr, obj, nil, Fields, empty, set_default, get_or_null, or_empty}
use agentue.Result.{Result, ok, err, Error}
use agentue.Event.{PatchOp, PatchEvent, Pydantic}
use agentue.Prelude.Text.{partition, split}
use agentue.Apply.Path.{write_value}
use agentue.Apply.{
  Outcome, raised, attempt, store, on_blocks, apply_append, upsert_block, set_meta, set_block,
  stored_or_missing, write_at_root, read_masked, set_by_mask, check_upsert, upsert_blocks,
  read_delta, append_blocks, or_block, apply_set, apply_op, apply_event, apply_patch, PatchInput,
  coerce_event,
}

-- the snapshot as it was, or with the empty container that `setdefault` put in
abbrev pub IsUntouched : Fields → Fields → Type 0
IsUntouched s s' =
    (s' ≡ s) ⊎ ((s' ≡ set_default "blocks" (arr nil) s) ⊎ (s' ≡ set_default "meta" (obj empty) s))

attempt-raised :
    {A : Type 0} (s s' : Fields) (r : Result A) (f : A → Outcome) (x : Error)
    → ((a : A) → f a ≡ raised x s' → IsUntouched s s')
    → attempt s r f ≡ raised x s'
    → IsUntouched s s'
attempt-raised s s' (ok a) f x k h = k a h
attempt-raised s s' (err e) f x k h = inl (ground arith)

store-raised :
    (k : String) (s s' : Fields) (r : Result Value) (x : Error) → store k s r ≡ raised x s' → s' ≡ s
store-raised k s s' (ok v) x h = cc
store-raised k s s' (err e) x h = ground arith

on_blocks-raised :
    (s s' : Fields) (f : Value → Result Value) (x : Error)
    → on_blocks s f ≡ raised x s'
    → IsUntouched s s'
on_blocks-raised s s' f x h =
    inr (inl (store-raised "blocks" (set_default "blocks" (arr nil) s) s' _ x h))

stored_or_missing-raised :
    (s s' : Fields) (r : Result (Option Value)) (x : Error)
    → stored_or_missing s r ≡ raised x s'
    → s' ≡ s
stored_or_missing-raised s s' (ok (some v)) x h = cc
stored_or_missing-raised s s' (ok none) x h = ground arith
stored_or_missing-raised s s' (err e) x h = ground arith

raised-left : {e x : Error} {s s' : Fields} → Path Outcome (raised e s) (raised x s') → s' ≡ s
raised-left h = cc h

write_at_root-raised :
    (root : String) (s s' source : Fields) (path : List String) (value : Value) (x : Error)
    → write_at_root root s source path value ≡ raised x s'
    → IsUntouched s s'
unfolding set_meta set_block
write_at_root-raised root s s' source path value x h = elim (Bool-cases (str_eq root "meta")) [
  | inl at_meta ↦ inr (
      inr (
        store-raised "meta" (set_default "meta" (obj empty) s) s'
          (write_value (get_or_null "meta" (set_default "meta" (obj empty) s)) path value) x
          (rw at_meta at h)))
  | inr other ↦ elim (Bool-cases (str_eq root "block")) [
    | inl at_block ↦ inl (stored_or_missing-raised s s' _ x (rw (other, at_block) at h))
    | inr none_of_both ↦ inl (raised-left (rw (other, none_of_both) at h))
  ]
]

set_by_mask-raised :
    (s s' source : Fields) (mask : String) (x : Error)
    → set_by_mask s mask source ≡ raised x s'
    → IsUntouched s s'
unfolding set_by_mask
set_by_mask-raised s s' source mask x h =
    let parts = partition mask in
    attempt-raised s s' (read_masked parts source)
      (write_at_root parts.root s source (split parts.rest)) x
      (λ v. write_at_root-raised parts.root s s' source (split parts.rest) v x) h

apply_set-raised :
    (s s' : Fields) (e : PatchEvent) (x : Error) → apply_set s e ≡ raised x s' → IsUntouched s s'
unfolding apply_set upsert_block
apply_set-raised s s' e x h = elim (Option-cases e.mask) [
  | inl em ↦
      attempt-raised s s' (check_upsert s (or_empty e.block))
        (λ id. on_blocks s (upsert_blocks id (or_empty e.block))) x
        (λ id. on_blocks-raised s s' (upsert_blocks id (or_empty e.block)) x) (rw em at h)
  | inr (mask, em) ↦ set_by_mask-raised s s' (or_block e.meta e.block) mask x (rw em at h)
]

op-raised :
    (op : PatchOp) (s s' : Fields) (e : PatchEvent) (x : Error)
    → apply_op op s e ≡ raised x s'
    → IsUntouched s s'
unfolding apply_append
op-raised PatchOp.set s s' e x h = apply_set-raised s s' e x h
op-raised PatchOp.append s s' e x h =
    attempt-raised s s' (read_delta e.mask (or_empty e.block)) (λ d. on_blocks s (append_blocks d))
      x (λ d. on_blocks-raised s s' (append_blocks d) x) h
op-raised PatchOp.error s s' e x h = set_by_mask-raised s s' (or_empty e.meta) "meta.error" x h
op-raised _ s s' e x h = cc

-- A patch that raises, whatever the reason, leaves the caller's snapshot as it was, but for the
-- empty `blocks` or `meta` that `setdefault` may have put where there was none.
pub apply_patch-raised :
    (py : Pydantic) (s s' : Fields) (patch : PatchInput) (x : Error)
    → apply_patch py s patch ≡ raised x s'
    → IsUntouched s s'
unfolding apply_patch apply_event
apply_patch-raised py s s' patch x h =
    attempt-raised s s' (coerce_event py patch) (apply_event s) x (λ e. op-raised e.op s s' e x) h
