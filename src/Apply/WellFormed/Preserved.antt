-- ===== src/Apply/WellFormed/Preserved.antt =====
-- Events that the validator accepts keep a snapshot well formed, and `start` makes it so.
use agentue.Prelude.{
  String, ◌≡◌, ◌∙◌, refl, true, some, arith, ap, inl, inr, Option-cases, if◌then◌else◌,
}
use mathlib.Core.Path.{subst}
use agentue.Json.{Fields, get, or_empty, is_truthy_dict, field, empty}
use agentue.Result.{ok, Result-cases, >>=-eq-ok}
use agentue.Model.{UiModel, parse_ui_model}
use agentue.Event.{PatchOp, PatchEvent, check_operation, validate_operation}
use agentue.Event.Valid.{set-parts, append-AppendParts}
use agentue.Apply.{Outcome, done, apply_op, apply_set, apply_event}
use agentue.Apply.WellFormed.{IsWellFormed}
use agentue.Apply.WellFormed.Upsert.{upsert_block-IsWellFormed}
use agentue.Apply.WellFormed.Masks.{
  set_by_mask-block, set_by_mask-meta, set_meta-IsWellFormed, set_block-IsWellFormed,
}
use agentue.Apply.WellFormed.Append.{apply_append-IsWellFormed}
use agentue.Apply.WellFormed.Start.{parse_ui_model-IsWellFormed}

pub done-injective : {s s' : Fields} → Path Outcome (done s) (done s') → s ≡ s'
done-injective h = cc h

validate-check : (e : PatchEvent) → validate_operation e ≡ ok e → check_operation e.op e ≡ ok tt
unfolding validate_operation
validate-check e h = let (u, checked, same) = >>=-eq-ok (check_operation e.op e) _ h in checked

-- a masked set of either root
masked-IsWellFormed :
    (s s' : Fields) (e : PatchEvent) (mask : String)
    → e.mask ≡ some mask
    → check_operation PatchOp.set e ≡ ok tt
    → IsWellFormed s
    → apply_set s e ≡ done s'
    → IsWellFormed s'
unfolding apply_set
masked-IsWellFormed s s' e mask em checked w h = elim (set-parts e mask em checked) [
  | inl m ↦
      let h' = rw (em, m.has_meta, m.shape) at h in
      let (value, written) = set_by_mask-meta s m.rest m.meta s' h' in
      set_meta-IsWellFormed s _ value s' w written
  | inr b ↦
      let h' = rw (em, b.no_meta, b.has_block, b.parts.shape) at h in
      let (value, written) = set_by_mask-block s b.parts.rest b.block s' h' in
      set_block-IsWellFormed s _ _ value s' b.parts.first w written
]

set-IsWellFormed :
    (s s' : Fields) (e : PatchEvent)
    → check_operation PatchOp.set e ≡ ok tt
    → IsWellFormed s
    → apply_set s e ≡ done s'
    → IsWellFormed s'
unfolding apply_set
set-IsWellFormed s s' e checked w h = elim (Option-cases e.mask) [
  | inl em ↦ upsert_block-IsWellFormed s (or_empty e.block) s' w (rw em at h)
  | inr (mask, em) ↦ masked-IsWellFormed s s' e mask em checked w h
]

record StartParts (e : PatchEvent) : Type 0 where
  model : Fields
  parsed : UiModel
  has_model : e.model ≡ some model
  parses : parse_ui_model model ≡ ok parsed

start-StartParts : (e : PatchEvent) → check_operation PatchOp.start e ≡ ok tt → StartParts e
unfolding check_operation
start-StartParts e h = elim (Option-cases e.model) [
  | inl missing ↦ absurd (ground arith)
  | inr (model, em) ↦ elim (Result-cases (parse_ui_model model)) [
    | inl (x, bad) ↦ absurd (ground arith)
    | inr (m, good) ↦ record { model = model; parsed = m; has_model = em; parses = good }
  ]
]

truthy_of_parsed :
    (model : Fields) (m : UiModel)
    → parse_ui_model model ≡ ok m
    → is_truthy_dict (some model) ≡ true
unfolding parse_ui_model get
truthy_of_parsed empty m h = cc
truthy_of_parsed (field k v fs) m h = refl

start-IsWellFormed :
    (s s' : Fields) (e : PatchEvent)
    → check_operation PatchOp.start e ≡ ok tt
    → (if is_truthy_dict e.model then or_empty e.model else s) ≡ s'
    → IsWellFormed s'
start-IsWellFormed s s' e checked h =
    let p = start-StartParts e checked in
    let h' = rw (p.has_model, truthy_of_parsed p.model p.parsed p.parses) at h in
    rw (← h') (parse_ui_model-IsWellFormed p.model p.parsed p.parses)

op-IsWellFormed :
    (op : PatchOp) (s s' : Fields) (e : PatchEvent)
    → check_operation op e ≡ ok tt
    → IsWellFormed s
    → apply_op op s e ≡ done s'
    → IsWellFormed s'
op-IsWellFormed PatchOp.start s s' e checked w h =
    start-IsWellFormed s s' e checked (done-injective h)
op-IsWellFormed PatchOp.set s s' e checked w h = set-IsWellFormed s s' e checked w h
op-IsWellFormed PatchOp.append s s' e checked w h =
    apply_append-IsWellFormed s s' e (append-AppendParts e checked) w h
op-IsWellFormed PatchOp.error s s' e checked w h =
    let (value, written) = set_by_mask-meta s "error" (or_empty e.meta) s' h in
    set_meta-IsWellFormed s _ value s' w written
op-IsWellFormed PatchOp.ping s s' e checked w h = rw (← done-injective h) w
op-IsWellFormed PatchOp.end s s' e checked w h = rw (← done-injective h) w

-- An event that the validator accepts takes a well-formed snapshot to a well-formed one: the ids of
-- the blocks stay names that differ, every block stays a dictionary, a reference holds nothing but
-- its id and key, and references stand only in a model of version 1.1.
pub apply_event-IsWellFormed :
    (s s' : Fields) (e : PatchEvent)
    → validate_operation e ≡ ok e
    → IsWellFormed s
    → apply_event s e ≡ done s'
    → IsWellFormed s'
unfolding apply_event
apply_event-IsWellFormed s s' e valid w h = op-IsWellFormed e.op s s' e (validate-check e valid) w h

-- A `start` that the validator accepts replaces the snapshot by its model, whatever came before,
-- and the model is well formed.
pub start-restarts :
    (s : Fields) (e : PatchEvent)
    → e.op ≡ PatchOp.start
    → validate_operation e ≡ ok e
    → (model : Fields) × (e.model ≡ some model)
      × (apply_event s e ≡ done model)
      × IsWellFormed model
unfolding apply_event
start-restarts s e op valid =
    let p =
      start-StartParts e
        (subst (λ (o : PatchOp). check_operation o e ≡ ok tt) op (validate-check e valid)) in
    (
      p.model,
      p.has_model,
      ap (λ (o : PatchOp). apply_op o s e) op
          ∙ rw (p.has_model, truthy_of_parsed p.model p.parsed p.parses) refl,
      parse_ui_model-IsWellFormed p.model p.parsed p.parses,
    )
