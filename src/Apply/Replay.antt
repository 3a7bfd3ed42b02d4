-- ===== src/Apply/Replay.antt =====
-- Replaying a sequence of patches.
use agentue.Prelude.{◌≡◌, refl, some, List, [], ◌∷◌, ◌++◌, inl, inr, All, Bool-cases}
use agentue.Json.{Fields, obj}
use agentue.Result.{err-ne-ok, ok, >>=-eq-ok, ok-injective}
use agentue.Model.{only_keys}
use agentue.Event.{
  to_json, PatchEvent, Pydantic, validate_operation, construct, envelope, model_validate,
  read_envelope,
}
use agentue.Event.Valid.{construct-valid}
use agentue.Event.Wire.{model_validate-to_json}
use agentue.Apply.{
  Outcome, done, raised, and_then, PatchInput, text, mapping, event, coerce_event, apply_event,
  apply_patch, apply_patches,
}
use agentue.Apply.WellFormed.{IsWellFormed}
use agentue.Apply.WellFormed.Steps.{attempt-inv}
use agentue.Apply.WellFormed.Preserved.{done-injective, apply_event-IsWellFormed}

-- An instance that was handed over passed its validator; texts and mappings are validated here.
abbrev pub IsAccepted : PatchInput → Type 0
IsAccepted (event e) = validate_operation e ≡ ok e
IsAccepted p = Unit

and_then-inv :
    (o : Outcome) (f : Fields → Outcome) (s' : Fields)
    → and_then o f ≡ done s'
    → (s : Fields) × (o ≡ done s) × (f s ≡ done s')
and_then-inv (done s) f s' h = (s, refl, h)
and_then-inv (raised e s) f s' h = cc

and_then_assoc :
    (o : Outcome) (f g h : Fields → Outcome)
    → ((s : Fields) → h s ≡ and_then (f s) g)
    → and_then o h ≡ and_then (and_then o f) g
and_then_assoc (done s) f g h same = same s
and_then_assoc (raised e s) f g h same = refl

module _ (py : Pydantic) where
  model_validate-valid :
      (fs : Fields) (e : PatchEvent) → model_validate py fs ≡ ok e → validate_operation e ≡ ok e
  unfolding model_validate
  model_validate-valid fs e h = elim (Bool-cases (only_keys envelope fs)) [
    | inl known ↦
        let (a, read, made) = >>=-eq-ok (read_envelope py fs) construct (rw known at h) in
        construct-valid a e made
    | inr unknown ↦ absurd (err-ne-ok (rw unknown at h))
  ]

  pub coerce_event-valid :
      (p : PatchInput) (e : PatchEvent)
      → IsAccepted p
      → coerce_event py p ≡ ok e
      → validate_operation e ≡ ok e
  unfolding coerce_event
  coerce_event-valid (event a) e v h = rw (← ok-injective h) v
  coerce_event-valid (text (some (obj fs))) e v h = model_validate-valid fs e h
  coerce_event-valid (text o) e v h = cc
  coerce_event-valid (mapping fs) e v h = model_validate-valid fs e h

  -- Replaying two sequences one after the other is replaying their concatenation: an exception in
  -- the first keeps the second from being read.
  pub apply_patches-append :
      (s : Fields) (ps qs : List PatchInput)
      → apply_patches py s (ps ++ qs)
        ≡ and_then (apply_patches py s ps) (λ s'. apply_patches py s' qs)
  unfolding apply_patches
  apply_patches-append s [] qs = refl
  apply_patches-append s (p ∷ ps) qs =
      and_then_assoc (apply_patch py s p) _ _ _ (λ s'. apply_patches-append s' ps qs)

  apply_patch-IsWellFormed :
      (s s' : Fields) (p : PatchInput)
      → IsAccepted p
      → IsWellFormed s
      → apply_patch py s p ≡ done s'
      → IsWellFormed s'
  unfolding apply_patch
  apply_patch-IsWellFormed s s' p v w h =
      let (e, coerced, applied) = attempt-inv s (coerce_event py p) (apply_event s) s' h in
      apply_event-IsWellFormed s s' e (coerce_event-valid p e v coerced) w applied

  -- Any accepted sequence of patches takes a well-formed snapshot to a well-formed one.
  pub apply_patches-IsWellFormed :
      (s s' : Fields) (ps : List PatchInput)
      → All IsAccepted ps
      → IsWellFormed s
      → apply_patches py s ps ≡ done s'
      → IsWellFormed s'
  unfolding apply_patches
  apply_patches-IsWellFormed s s' [] v w h = rw (← done-injective h) w
  apply_patches-IsWellFormed s s' (p ∷ ps) v w h =
      let (s₁, first, rest) = and_then-inv (apply_patch py s p) _ s' h in
      apply_patches-IsWellFormed s₁ s' ps v.1 (apply_patch-IsWellFormed s s₁ p v.0 w first) rest

  -- an event that is valid, applied in its JSON form
  pub apply_patch-to_json :
      (s : Fields) (e : PatchEvent)
      → validate_operation e ≡ ok e
      → apply_patch py s (mapping (to_json e)) ≡ apply_event s e
  unfolding apply_patch coerce_event
  apply_patch-to_json s e valid = rw (model_validate-to_json py e valid) refl
