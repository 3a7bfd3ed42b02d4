-- ===== src/Model/Unique.antt =====
-- What a validated model guarantees of its blocks: they are complete, their ids differ, and
-- references stand only in a model of version 1.1.
use agentue.Prelude.{
  String, ◌≡◌, ◌≢◌, refl, true, false, Option, some, List, [], ◌∷◌, arith, map, inl, inr,
  Bool-cases, eq_iff, All, Absent, Distinct,
}
use agentue.Json.{Value, str, obj, Items, nil, cons, Fields, get, has}
use agentue.Result.{ok, >>=-eq-ok, ok-injective}
use agentue.Model.{
  Block, base, reference, id_of, text_of, is_reference, is_name, member, is_base_block,
  is_reference_block, parse_block, parse_items, check_blocks, protocol_version,
}

-- what the validation of one element of `blocks` establishes
abbrev pub IsParsed : Value → Block → Type 0
IsParsed (obj fs) b =
    (get "id" fs ≡ some (str (id_of b)))
    × (is_name (get "id" fs) ≡ true)
    × (has "ref" fs ≡ true → (is_reference_block fs ≡ true) × (is_reference b ≡ true))
IsParsed v b = ⊥

abbrev pub AreParsed : Items → List Block → Type 0
AreParsed nil [] = Unit
AreParsed (cons v vs) (b ∷ bs) = IsParsed v b × AreParsed vs bs
AreParsed vs bs = ⊥

name-text : (o : Option Value) → is_name o ≡ true → o ≡ some (str (text_of o))
name-text (some (str s)) h = refl
name-text o h = cc

base-inv :
    (fs : Fields)
    → is_base_block fs ≡ true
    → (is_name (get "id" fs) ≡ true) × (has "ref" fs ≡ false)
unfolding is_base_block
base-inv fs h = ground arith

reference-inv : (fs : Fields) → is_reference_block fs ≡ true → is_name (get "id" fs) ≡ true
unfolding is_reference_block
reference-inv fs h = ground arith

parse_block-IsParsed : (v : Value) (b : Block) → parse_block v ≡ ok b → IsParsed v b
unfolding parse_block
parse_block-IsParsed (obj fs) b h = elim (Bool-cases (is_base_block fs)) [
  | inl inline ↦
      let e : base fs ≡ b = ground arith in
      let (named, no_ref) = base-inv fs inline in
      rw (← e) (name-text (get "id" fs) named, named, λ r. absurd (ground arith))
  | inr other ↦ elim (Bool-cases (is_reference_block fs)) [
    | inl valid ↦
        let e : reference fs ≡ b = ground arith in
        let named = reference-inv fs valid in
        rw (← e) (name-text (get "id" fs) named, named, λ r. (valid, refl))
    | inr neither ↦ absurd (ground arith)
  ]
]
parse_block-IsParsed v b h = cc

pub parse_items-AreParsed :
    (vs : Items) (bs : List Block) → parse_items vs ≡ ok bs → AreParsed vs bs
unfolding parse_items
parse_items-AreParsed nil [] h = tt
parse_items-AreParsed nil (b ∷ bs) h = cc
parse_items-AreParsed (cons v vs) bs h =
    let (b, parsed, h₁) = >>=-eq-ok (parse_block v) _ h in
    let (rest, more, h₂) = >>=-eq-ok (parse_items vs) _ h₁ in
    rw (← ok-injective h₂) (parse_block-IsParsed v b parsed, parse_items-AreParsed vs rest more)

-- The loop of `validate_blocks` passes only if the ids are new and differ.
pub record Checked (version : String) (seen : List String) (bs : List Block) : Type 0 where
  pub fresh : All (λ b. member (id_of b) seen ≡ false) bs
  pub distinct : Distinct (map (λ b. str (id_of b)) bs)
  pub versions : All (λ b. is_reference b ≡ true → version ≡ protocol_version) bs

record Head (version : String) (seen : List String) (b : Block) (bs : List Block) : Type 0 where
  is_new : member (id_of b) seen ≡ false
  version_ok : is_reference b ≡ true → version ≡ protocol_version
  passed : check_blocks version (id_of b ∷ seen) bs ≡ ok tt

check-first :
    (version : String) (seen : List String) (b : Block) (bs : List Block)
    → check_blocks version seen (b ∷ bs) ≡ ok tt
    → Head version seen b bs
unfolding check_blocks
check-first version seen b bs h = record {
  is_new = ground arith;
  version_ok = λ r. ground (arith, eq_iff version protocol_version);
  passed = ground arith;
}

text_of-eq : (s t : String) → str s ≡ str t → s ≡ t
text_of-eq s t e = cc e

member-cons :
    (s t : String) (ts : List String)
    → member s (t ∷ ts) ≡ false
    → (member s ts ≡ false) × (str s ≢ str t)
member-cons s t ts h = (ground arith, λ e. ground (arith, eq_iff t s, text_of-eq s t e))

-- names that are not among the seen ones are not the newest of them, nor any older one
older :
    (t : String) (ts : List String) (bs : List Block)
    → All (λ b. member (id_of b) (t ∷ ts) ≡ false) bs
    → All (λ b. member (id_of b) ts ≡ false) bs × Absent (str t) (map (λ b. str (id_of b)) bs)
older t ts [] h = (tt, tt)
older t ts (b ∷ bs) (h, hs) =
    let (old, ne) = member-cons (id_of b) t ts h in
    let (olds, nes) = older t ts bs hs in ((old, olds), (ne, nes))

pub check_blocks-Checked :
    (version : String) (seen : List String) (bs : List Block)
    → check_blocks version seen bs ≡ ok tt
    → Checked version seen bs
unfolding check_blocks
check_blocks-Checked version seen [] h = record { fresh = tt; distinct = tt; versions = tt }
check_blocks-Checked version seen (b ∷ bs) h =
    let head = check-first version seen b bs h in
    let rest = check_blocks-Checked version (id_of b ∷ seen) bs head.passed in
    let (fresh, absent) = older (id_of b) seen bs rest.fresh in
    record {
      fresh = (head.is_new, fresh);
      distinct = (absent, rest.distinct);
      versions = (head.version_ok, rest.versions);
    }
