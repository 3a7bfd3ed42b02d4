-- ===== src/Event/Wire.antt =====
-- An event survives its JSON form.
use mathlib.Core.Option
use agentue.Prelude.{
  ℕ, String, ◌≡◌, refl, true, Option, none, some, List, str_eq, if◌then◌else◌, arith,
}
use agentue.Json.{Value, pos, str, obj, Fields, empty, field, get}
use agentue.Result.{ok}
use agentue.Model.{only_keys, member}
use agentue.Event.{
  PatchOp, PatchEvent, add, number, to_json, op_name, read_op, read_str, read_dict, read_nat,
  read_optional_nat, Pydantic, model_validate, validate_operation, construct, envelope,
  read_envelope,
}

abbrev or_from {ℓ} : {A : Type ℓ} → Option A → Option A → Option A
or_from none r = r
or_from (some v) r = some v

or_from-none {ℓ} : {A : Type ℓ} (o : Option A) → or_from o none ≡ o
or_from-none none = refl
or_from-none (some v) = refl

get-add :
    {A : Type 0} (k j : String) (f : A → Value) (o : Option A) (rest : Fields)
    → get k (add j f o rest)
      ≡ (if str_eq j k then or_from (Option.map f o) (get k rest) else get k rest)
unfolding get
get-add k j f none rest = ground arith
get-add k j f (some a) rest = refl

get-field :
    (k j : String) (v : Value) (rest : Fields)
    → get k (field j v rest) ≡ (if str_eq j k then some v else get k rest)
unfolding get
get-field k j v rest = refl

get-empty : (k : String) → get k empty ≡ none
unfolding get
get-empty k = refl

only_keys-add :
    {A : Type 0} (allowed : List String) (j : String) (f : A → Value) (o : Option A) (rest : Fields)
    → member j allowed ≡ true
    → only_keys allowed rest ≡ true
    → only_keys allowed (add j f o rest) ≡ true
only_keys-add allowed j f none rest m h = h
only_keys-add allowed j f (some a) rest m h = rw (m, h)

ruleset wire = (get-field, get-add, get-empty, or_from-none)

read_op-name : (op : PatchOp) → read_op (some (str (op_name op))) ≡ ok op
unfolding read_op
read_op-name PatchOp.start = refl
read_op-name PatchOp.set = refl
read_op-name PatchOp.append = refl
read_op-name PatchOp.error = refl
read_op-name PatchOp.ping = refl
read_op-name PatchOp.end = refl

read_str-map : (o : Option String) → read_str (Option.map str o) ≡ ok o
unfolding read_str
read_str-map none = refl
read_str-map (some s) = refl

read_dict-map : (o : Option Fields) → read_dict (Option.map obj o) ≡ ok o
unfolding read_dict
read_dict-map none = refl
read_dict-map (some s) = refl

known_keys : (e : PatchEvent) → only_keys envelope (to_json e) ≡ true
unfolding to_json
known_keys e = only_keys-add envelope "stream_id" str e.stream_id _ refl (
    only_keys-add envelope "ts" number e.ts _ refl (
      only_keys-add envelope "mask" str e.mask _ refl (
        only_keys-add envelope "event_type" str e.event_type _ refl (
          only_keys-add envelope "model" obj e.model _ refl (
            only_keys-add envelope "meta" obj e.meta _ refl
              (only_keys-add envelope "block" obj e.block _ refl refl))))))

module _ (py : Pydantic) where
  read_nat-number : (n : ℕ) → read_nat py (some (number n)) ≡ ok n
  unfolding read_nat
  read_nat-number n = rw (py.lax_int-int (pos n))

  read_optional_nat-map : (o : Option ℕ) → read_optional_nat py (Option.map number o) ≡ ok o
  unfolding read_optional_nat
  read_optional_nat-map none = refl
  read_optional_nat-map (some n) = rw (py.lax_int-int (pos n))

  read_envelope-to_json : (e : PatchEvent) → read_envelope py (to_json e) ≡ ok e
  unfolding to_json read_envelope
  read_envelope-to_json e =
      simp wire
        (simp (read_op-name, read_nat-number, read_str-map, read_optional_nat-map, read_dict-map))

  -- An event that passes validation is read back from its JSON form as it was: the payloads and the
  -- optional fields, an absent one too.
  pub model_validate-to_json :
      (e : PatchEvent) → validate_operation e ≡ ok e → model_validate py (to_json e) ≡ ok e
  unfolding model_validate construct
  model_validate-to_json e valid = rw (known_keys e, read_envelope-to_json e, valid)

pub get-seq : (e : PatchEvent) → get "seq" (to_json e) ≡ some (number e.seq)
unfolding to_json
get-seq e = simp wire

pub get-stream_id : (e : PatchEvent) → get "stream_id" (to_json e) ≡ Option.map str e.stream_id
unfolding to_json
get-stream_id e = simp wire
