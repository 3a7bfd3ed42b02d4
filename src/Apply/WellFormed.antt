-- ===== src/Apply/WellFormed.antt =====
-- The invariant of a snapshot: `blocks` is a list of dictionaries with ids that differ and are not
-- empty, and unresolved references stand only in a model of version 1.1. A block may lack a type: a
-- field set can take it away.
pub mod Steps
pub mod Upsert
pub mod Masks
pub mod Append
pub mod Start
pub mod Preserved
use agentue.Prelude.{
  String, ◌≡◌, ◌≢◌, refl, Bool, true, false, Option, none, some, List, [], ◌∷◌, ◌++◌, map, arith,
  if◌then◌else◌, Option-cases, inl, inr, All, All-append, Distinct, Distinct-concat, Absent, ap,
}
use agentue.Json.{
  Value, null, str, arr, obj, Items, nil, cons, Fields, empty, get, set, has, get_or_null, or_null,
  concat, to_list, set_default, append,
}
use agentue.Json.Laws.{get-set, to_list-concat}
use agentue.Result.{Result, ok, err}
use agentue.Model.{parse_version, protocol_version, is_name, is_reference_block}
use agentue.Apply.Blocks.Laws.{
  IsDict, block_id, ids, find, replace, Found, ids-replace, All-replace, find-none-Absent,
}

-- references may stand in the model: its version is 1.1, which is also the default
abbrev pub AllowsReferences : Fields → Type 0
AllowsReferences s = parse_version (get "version" s) ≡ ok protocol_version

-- a dictionary with a name; a reference is exactly an id and a key, where references may stand
abbrev pub IsBlock : Type 0 → Value → Type 0
IsBlock allowed (obj fs) =
    (is_name (get "id" fs) ≡ true)
    × (has "ref" fs ≡ true → (is_reference_block fs ≡ true) × allowed)
IsBlock allowed v = ⊥

-- what `snapshot.get("blocks", [])` holds, if it is a list
abbrev pub stored_items : Option Value → Option Items
stored_items none = some nil
stored_items (some (arr vs)) = some vs
stored_items v = none

pub record AreBlocks (allowed : Type 0) (vs : Items) : Type 0 where
  pub blocks : All (IsBlock allowed) (to_list vs)
  pub distinct : Distinct (ids vs)

pub record IsWellFormed (s : Fields) : Type 0 where
  pub items : Items
  pub stored : stored_items (get "blocks" s) ≡ some items
  pub good : AreBlocks (AllowsReferences s) items

pub IsBlock-IsDict : (allowed : Type 0) (l : List Value) → All (IsBlock allowed) l → All IsDict l
IsBlock-IsDict allowed [] h = tt
IsBlock-IsDict allowed (obj fs ∷ l) h = (tt, IsBlock-IsDict allowed l h.1)
IsBlock-IsDict allowed (v ∷ l) h = absurd h.0

-- A block replaced by one with its id.
pub replace-AreBlocks :
    (allowed : Type 0) (id : Value) (new : Fields) (vs : Items)
    → AreBlocks allowed vs
    → IsBlock allowed (obj new)
    → ((old : Fields) → find id vs ≡ some old → get_or_null "id" new ≡ get_or_null "id" old)
    → AreBlocks allowed (replace id new vs)
replace-AreBlocks allowed id new vs w b same = record {
  blocks = All-replace (IsBlock allowed) id new vs w.blocks b;
  distinct = rw (ids-replace id new vs same) w.distinct;
}

pub ids-append : (vs : Items) (v : Value) → ids (append vs v) ≡ ids vs ++ block_id v ∷ []
unfolding concat
ids-append nil v = refl
ids-append (cons x vs) v = ap (λ (l : List Value). block_id x ∷ l) (ids-append vs v)

-- A block with a new name at the end.
pub append-AreBlocks :
    (allowed : Type 0) (vs : Items) (block : Fields)
    → AreBlocks allowed vs
    → IsBlock allowed (obj block)
    → Absent (get_or_null "id" block) (ids vs)
    → AreBlocks allowed (append vs (obj block))
append-AreBlocks allowed vs block w b new = record {
  blocks = rw to_list-concat (All-append (IsBlock allowed) (to_list vs) _ w.blocks (b, tt));
  distinct = rw ids-append (Distinct-concat (ids vs) (get_or_null "id" block) w.distinct new);
}

-- Writing another key of the model keeps it well formed.
pub set-meta-IsWellFormed :
    (s : Fields) (v : Value) → IsWellFormed s → IsWellFormed (set "meta" v s)
set-meta-IsWellFormed s v w = record {
  items = w.items;
  stored = rw get-set w.stored;
  good = rw get-set w.good;
}

pub set-blocks-IsWellFormed :
    (s : Fields) (vs : Items)
    → AreBlocks (AllowsReferences s) vs
    → IsWellFormed (set "blocks" (arr vs) s)
set-blocks-IsWellFormed s vs w = record {
  items = vs;
  stored = rw get-set refl;
  good = rw get-set w;
}

-- `setdefault("blocks", [])` makes the list that the invariant speaks of explicit.
pub record Defaulted (s : Fields) (vs : Items) : Type 0 where
  pub stored : get_or_null "blocks" (set_default "blocks" (arr nil) s) ≡ arr vs
  pub version : get "version" (set_default "blocks" (arr nil) s) ≡ get "version" s

stored_items-inv : (v : Value) (vs : Items) → stored_items (some v) ≡ some vs → v ≡ arr vs
stored_items-inv (arr ws) vs h = ground arith
stored_items-inv v vs h = cc

pub set_default-Defaulted : (s : Fields) (w : IsWellFormed s) → Defaulted s w.items
set_default-Defaulted s w = elim (Option-cases (get "blocks" s)) [
  | inl e ↦
      let same : nil ≡ w.items = ground arith in
      record { stored = rw e (rw get-set (ap arr same)); version = rw e (rw get-set) }
  | inr (v, e) ↦
      let same : v ≡ arr w.items = stored_items-inv v w.items (rw e at w.stored) in
      record { stored = rw e (rw e same); version = rw e }
]
