-- ===== src/Event/Valid.antt =====
-- What the validator of event.py guarantees of the events that it accepts.
use text.Mathlib.Text.{starts_with}
use Prim.Native.String
use agentue.Prelude.{
  ◌∙◌, ap, sym, String, ◌≡◌, ◌≢◌, refl, Bool, true, false, not, none, some, [], ◌∷◌, arith, eq_iff,
  ◌⊎◌, inl, inr, Option-cases,
}
use agentue.Prelude.Text.{second_part, first_part, second_part-block, split, starts_with-inv}
use agentue.Json.{Fields, has, is_some}
use agentue.Result.{
  err-ne-ok, Result-cases, ok-injective, >>=-eq-ok, ok, raise_if, raise_if-eq-ok, set_mask_root,
  ◌>>◌,
}
use agentue.Model.{member}
use agentue.Event.{
  PatchOp, PatchEvent, construct, validate_block_field_patch, check_operation, validate_operation,
}

-- the first part of a path that may be patched in a block
abbrev pub IsPatchable : String → Type 0
IsPatchable part = (part ≢ "id") × (part ≢ "ref")

-- A mask that passes the checks on a field patch of a block.
pub record BlockMask (mask : String) (block : Fields) : Type 0 where
  pub rest : String
  pub shape : mask ≡ String.◌++◌ "block." rest
  pub first : IsPatchable (first_part (split rest))
  pub inline : has "ref" block ≡ false

not_member : (part : String) → member part ("id" ∷ "ref" ∷ []) ≡ false → IsPatchable part
not_member part h = ground (arith, eq_iff "id" part, eq_iff "ref" part)

pub field_patch-BlockMask :
    (mask : String) (block : Fields)
    → starts_with mask "block." ≡ true
    → validate_block_field_patch mask block ≡ ok tt
    → BlockMask mask block
unfolding validate_block_field_patch
field_patch-BlockMask mask block s h =
    let (rest, e) = starts_with-inv mask "block." s in
    let outside_keys : member (second_part mask) ("id" ∷ "ref" ∷ []) ≡ false = ground arith in
    record {
      rest = rest;
      shape = e;
      first =
          not_member (first_part (split rest)) (rw (← second_part-block rest, ← e) outside_keys);
      inline = ground arith;
    }

-- What an accepted append carries.
pub record AppendParts (e : PatchEvent) : Type 0 where
  pub mask : String
  pub block : Fields
  pub has_mask : e.mask ≡ some mask
  pub has_block : e.block ≡ some block
  pub parts : BlockMask mask block

pub append-AppendParts : (e : PatchEvent) → check_operation PatchOp.append e ≡ ok tt → AppendParts e
unfolding check_operation
append-AppendParts e h = elim (Option-cases e.mask) [
  | inl missing ↦ absurd (ground arith)
  | inr (m, em) ↦ elim (Option-cases e.block) [
    | inl missing ↦ absurd (ground arith)
    | inr (b, eb) ↦ record {
      mask = m;
      block = b;
      has_mask = em;
      has_block = eb;
      parts = field_patch-BlockMask m b (ground arith) (ground arith);
    }
  ]
]

-- A field set of the metadata, or of a block.
pub record MetaParts (e : PatchEvent) (mask : String) : Type 0 where
  pub meta : Fields
  pub rest : String
  pub has_meta : e.meta ≡ some meta
  pub shape : mask ≡ String.◌++◌ "meta." rest

pub record BlockParts (e : PatchEvent) (mask : String) : Type 0 where
  pub block : Fields
  pub no_meta : e.meta ≡ none
  pub has_block : e.block ≡ some block
  pub parts : BlockMask mask block

not-not : (b : Bool) → not b ≡ false → b ≡ true
not-not true h = refl
not-not false h = cc

block_set-BlockMask :
    (mask : String) (block : Fields)
    → (raise_if (not (starts_with mask "block.")) set_mask_root
        >> validate_block_field_patch mask block)
      ≡ ok tt
    → BlockMask mask block
block_set-BlockMask mask block h =
    let (s, v) = raise_if-eq-ok _ _ _ h in field_patch-BlockMask mask block (not-not _ s) v

meta_set-shape :
    (mask : String)
    → (raise_if (not (starts_with mask "meta.")) set_mask_root >> ok (tt {0})) ≡ ok tt
    → (u : String) × (mask ≡ String.◌++◌ "meta." u)
meta_set-shape mask h =
    starts_with-inv mask "meta." (not-not _ (raise_if-eq-ok _ set_mask_root (ok tt) h).0)

pub set-parts :
    (e : PatchEvent) (mask : String)
    → e.mask ≡ some mask
    → check_operation PatchOp.set e ≡ ok tt
    → MetaParts e mask ⊎ BlockParts e mask
unfolding check_operation
set-parts e mask em h = elim (Option-cases e.meta) [
  | inr (m, meta) ↦ elim (Option-cases e.block) [
    | inr (b, eb) ↦ absurd (ground arith)
    | inl no_block ↦
        let h' = (raise_if-eq-ok (is_some e.model) _ _ (rw (em, meta, no_block) at h)).1 in
        let (u, shape) = meta_set-shape mask h' in
        inl (record { meta = m; rest = u; has_meta = meta; shape = shape })
  ]
  | inl no_meta ↦ elim (Option-cases e.block) [
    | inl missing ↦ absurd (ground arith)
    | inr (b, eb) ↦ inr (record {
      block = b;
      no_meta = no_meta;
      has_block = eb;
      parts =
          block_set-BlockMask mask b
            (raise_if-eq-ok (is_some e.model) _ _ (rw (em, no_meta, eb) at h)).1;
    })
  ]
]

pub validate_operation-same : (a b : PatchEvent) → validate_operation a ≡ ok b → a ≡ b
unfolding validate_operation
validate_operation-same a b h =
    let (u, checked, same) = >>=-eq-ok (check_operation a.op a) _ h in ok-injective same

pub construct-same : (a e : PatchEvent) → construct a ≡ ok e → a ≡ e
unfolding construct
construct-same a e h = elim (Result-cases (validate_operation a)) [
  | inl (x, bad) ↦ absurd (err-ne-ok (rw bad at h))
  | inr (b, good) ↦ validate_operation-same a b good ∙ ok-injective (rw good at h)
]

pub construct-valid : (a e : PatchEvent) → construct a ≡ ok e → validate_operation e ≡ ok e
unfolding construct
construct-valid a e h = elim (Result-cases (validate_operation a)) [
  | inl (x, bad) ↦ absurd (err-ne-ok (rw bad at h))
  | inr (b, good) ↦
      let same : a ≡ e = validate_operation-same a b good ∙ ok-injective (rw good at h) in
      rw (← same) (good ∙ ap (λ (c : PatchEvent). ok c) (sym (validate_operation-same a b good)))
]
