-- ===== src/Result.antt =====
-- What the Python code raises, as values: a constructor for each `raise` statement that the models
-- reach, and for the exceptions that Python's own operations raise on JSON values of another kind.
use agentue.Prelude.{String, ◌≡◌, refl, Bool, true, false, ◌⊎◌, inl, inr}

-- The `raise` statements of event.py, apply.py, emitter.py, runner/runner.py, runner/types.py and
-- scripts/version.py, in this order; `not_a_number` is what `int` raises on a text.
pub data Reason : Type 0 where
  start_needs_model start_only_model model_only_start set_one_payload set_needs_block : Reason
  set_mask_root append_needs_block append_no_meta append_mask error_needs_meta : Reason
  error_no_block no_payload reference_patch id_patch : Reason
  append_mask_shape append_id append_field block_incomplete : Reason
  set_id reference_version set_mask_shape no_value no_target set_root unresolved : Reason
  negative_offset start_backwards event_id_newline stream_op stream_seq : Reason
  empty_key_prefix timeout_not_greater : Reason
  not_a_number empty_version no_project_version : Reason
  not_positive : String → Reason

pub data Error : Type 0 where
  -- pydantic's `ValidationError`
  validation_error : Error
  value_error : Reason → Error
  type_error attribute_error key_error : Error

-- what a function of the SDK returns, or what it raises
pub data Result {ℓ} (Answer : Type ℓ) : Type ℓ where
  err : (raised : Error) → Result Answer
  ok : (returned : Answer) → Result Answer

-- `if b: raise ValueError(…)`
abbrev pub raise_if : Bool → Reason → Result (Unit {0})
raise_if true r = err (value_error r)
raise_if false r = ok tt

-- A `ValueError` raised inside a pydantic validator surfaces as a `ValidationError`.
abbrev pub validated {ℓ} : {A : Type ℓ} → Result A → Result A
validated (ok a) = ok a
validated (err e) = err validation_error

-- An exception ends the function: the statements after it do not run.
infixl 5 ◌>>=◌
abbrev pub ◌>>=◌ {α β} :
    {Answer : Type α} {Next : Type β} → Result Answer → (Answer → Result Next) → Result Next
◌>>=◌ (err raised) next = err raised
◌>>=◌ (ok returned) next = next returned

-- a statement that only checks
infixl 5 ◌>>◌
abbrev pub ◌>>◌ {β} : {Next : Type β} → Result (Unit {0}) → Result Next → Result Next
◌>>◌ check next = check >>= (λ done. next)

-- A function that returns has come past each of its statements.
pub >>=-eq-ok {α β} :
    {Answer : Type α} {Next : Type β} (first : Result Answer) (next : Answer → Result Next)
    → {b : Next} → first >>= next ≡ ok b
    → (returned : Answer) × (first ≡ ok returned) × (next returned ≡ ok b)
>>=-eq-ok (err raised) next h = cc
>>=-eq-ok (ok returned) next h = (returned, refl, h)

pub raise_if-eq-ok {ℓ} :
    {A : Type ℓ} (b : Bool) (r : Reason) (k : Result A) {a : A}
    → (raise_if b r >> k) ≡ ok a
    → (b ≡ false) × (k ≡ ok a)
raise_if-eq-ok true r k h = cc
raise_if-eq-ok false r k h = (refl, h)

pub raise_if-ok : (b : Bool) (r : Reason) (u : Unit {0}) → raise_if b r ≡ ok u → b ≡ false
raise_if-ok true r u h = cc
raise_if-ok false r u h = refl

pub Result-cases {ℓ} :
    {A : Type ℓ} (r : Result A) → ((e : Error) × (r ≡ err e)) ⊎ ((a : A) × (r ≡ ok a))
Result-cases (ok a) = inr (a, refl)
Result-cases (err e) = inl (e, refl)

pub ok-injective {ℓ} : {A : Type ℓ} {a b : A} → Path (Result A) (ok a) (ok b) → a ≡ b
ok-injective h = cc h

pub err-ne-ok {ℓ} : {A : Type ℓ} {a : A} {x : Error} → Path (Result A) (err x) (ok a) → ⊥
err-ne-ok h = cc h
