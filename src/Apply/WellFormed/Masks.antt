-- ===== src/Apply/WellFormed/Masks.antt =====
-- `_set_by_mask` at a mask of each root, on a snapshot that is well formed.
use mathlib.Core.Option
use Prim.Native.String
use agentue.Prelude.{String, ◌≡◌, refl, true, Option, none, some, List, arith, Bool-cases, inl, inr}
use agentue.Prelude.Text.{first_part, split, partition, partition-block, partition-meta}
use agentue.Json.{
  Value, arr, obj, Items, nil, Fields, empty, get, set, has, get_or_null, set_default, or_else,
}
use agentue.Result.{Result, ok, err, ◌>>=◌}
use agentue.Event.Valid.{IsPatchable}
use agentue.Apply.Blocks.{scan, scan_value, write_block}
use agentue.Apply.Blocks.Laws.{scan-some_inv}
use agentue.Apply.WellFormed.{
  AllowsReferences, IsWellFormed, set-blocks-IsWellFormed, set-meta-IsWellFormed, stored_items,
  stored_items-inv,
}
use agentue.Apply.WellFormed.Steps.{attempt-inv, store-inv, Found-AreBlocks, write_block-KeepsBlock}
use agentue.Apply.{
  done, set_meta, set_block, set_by_mask, stored_or_missing, read_masked, write_at_root,
}

-- What the mask selects is written below the root that the mask names.
set_by_mask-inv :
    (s : Fields) (mask : String) (source s' : Fields) (root rest : String)
    → partition mask ≡ record { root = root; separator = true; rest = rest }
    → set_by_mask s mask source ≡ done s'
    → (value : Value) × (write_at_root root s source (split rest) value ≡ done s')
unfolding set_by_mask
set_by_mask-inv s mask source s' root rest p h =
    let (value, read, written) =
      attempt-inv s (read_masked (partition mask) source)
        (write_at_root (partition mask).root s source (split (partition mask).rest)) s' h in
    (value, rw p at written)

pub set_by_mask-block :
    (s : Fields) (rest : String) (source s' : Fields)
    → set_by_mask s (String.◌++◌ "block." rest) source ≡ done s'
    → (value : Value) × (set_block s (get_or_null "id" source) (split rest) value ≡ done s')
set_by_mask-block s rest source s' h =
    set_by_mask-inv s _ source s' "block" rest (partition-block rest) h

pub set_by_mask-meta :
    (s : Fields) (rest : String) (source s' : Fields)
    → set_by_mask s (String.◌++◌ "meta." rest) source ≡ done s'
    → (value : Value) × (set_meta s (split rest) value ≡ done s')
set_by_mask-meta s rest source s' h =
    set_by_mask-inv s _ source s' "meta" rest (partition-meta rest) h

default_meta : (s : Fields) → IsWellFormed s → IsWellFormed (set_default "meta" (obj empty) s)
default_meta s w = elim (Bool-cases (has "meta" s)) [
  | inl there ↦ rw there w
  | inr missing ↦ rw missing (set-meta-IsWellFormed s (obj empty) w)
]

pub set_meta-IsWellFormed :
    (s : Fields) (path : List String) (value : Value) (s' : Fields)
    → IsWellFormed s
    → set_meta s path value ≡ done s'
    → IsWellFormed s'
unfolding set_meta
set_meta-IsWellFormed s path value s' w h =
    let (v, made, e) = store-inv "meta" (set_default "meta" (obj empty) s) _ s' h in
    rw e (set-meta-IsWellFormed (set_default "meta" (obj empty) s) v (default_meta s w))

pub stored-or_else :
    (o : Option Value) (vs : Items) → stored_items o ≡ some vs → or_else o (arr nil) ≡ arr vs
stored-or_else none vs h = ground arith
stored-or_else (some v) vs h = stored_items-inv v vs h

-- a scan that only writes succeeds in one way
stored-inv :
    (s : Fields) (r : Result (Option Items)) (s' : Fields)
    → stored_or_missing s (r >>= λ found. ok (Option.map arr found)) ≡ done s'
    → (vs : Items) × (r ≡ ok (some vs)) × (s' ≡ set "blocks" (arr vs) s)
stored-inv s (ok (some vs)) s' h = (vs, refl, ground arith)
stored-inv s (ok none) s' h = cc
stored-inv s (err e) s' h = cc

pub set_block-IsWellFormed :
    (s : Fields) (id : Value) (path : List String) (value : Value) (s' : Fields)
    → IsPatchable (first_part path)
    → IsWellFormed s
    → set_block s id path value ≡ done s'
    → IsWellFormed s'
unfolding set_block scan_value
set_block-IsWellFormed s id path value s' p w h =
    let (vs, scanned, e) =
      stored-inv s (scan id (write_block path value) w.items) s'
        (rw (stored-or_else (get "blocks" s) w.items w.stored) at h) in
    rw e (
      set-blocks-IsWellFormed s vs (
        Found-AreBlocks (AllowsReferences s) id (write_block path value) w.items vs
          (write_block-KeepsBlock (AllowsReferences s) path value p) w.good
          (scan-some_inv id (write_block path value) w.items vs scanned)))
