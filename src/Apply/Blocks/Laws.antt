-- ===== src/Apply/Blocks/Laws.antt =====
-- What the loops over `snapshot["blocks"]` amount to: the block with an id, and the list with that
-- block replaced.
use mathlib.Core.Option
use agentue.Prelude.{
  String, ◌≡◌, ◌≢◌, refl, ap, true, false, Option, none, some, List, ◌∷◌, map, arith, if◌then◌else◌,
  Bool-cases, inl, inr, All, Absent,
}
use agentue.Json.{
  Value, null, str, obj, Items, nil, cons, Fields, get_or_null, concat, append, to_list,
}
use agentue.Json.Equality.{py_eq, py_eq-str}
use agentue.Result.{Result, ok, err, ◌>>=◌}
use agentue.Apply.Blocks.{scan}

abbrev pub IsDict : Value → Type 0
IsDict (obj fs) = Unit
IsDict v = ⊥

-- `block.get("id")`
abbrev pub block_id : Value → Value
block_id (obj fs) = get_or_null "id" fs
block_id v = null

abbrev pub ids : Items → List Value
ids vs = map block_id (to_list vs)

-- the first block with the id
unfoldable pub find : Value → Items → Option Fields
find id nil = none
find id (cons (obj fs) vs) = if py_eq (get_or_null "id" fs) id then some fs else find id vs
find id (cons v vs) = none

pub find-nil : (id : Value) → find id nil ≡ none
unfolding find
find-nil id = refl

-- the list with that block replaced
pub replace : Value → Fields → Items → Items
replace id new nil = nil
replace id new (cons (obj fs) vs) =
    if py_eq (get_or_null "id" fs) id then cons (obj new) vs else cons (obj fs) (replace id new vs)
replace id new (cons v vs) = cons v vs

abbrev prepend : Fields → Option Items → Option Items
prepend gs found = Option.map (cons (obj gs)) found

-- putting a block in front of the rest that a step gives
prepend-step :
    (gs : Fields) (r : Result Fields) (k : Fields → Items)
    → ((r >>= λ new. ok (some (k new))) >>= λ rest. ok (prepend gs rest))
      ≡ (r >>= λ new. ok (some (cons (obj gs) (k new))))
prepend-step gs (ok new) k = refl
prepend-step gs (err e) k = refl

prepend-some_inv :
    (gs : Fields) (r : Result (Option Items)) (vs' : Items)
    → (r >>= λ rest. ok (prepend gs rest)) ≡ ok (some vs')
    → (rest : Items) × (r ≡ ok (some rest)) × (vs' ≡ cons (obj gs) rest)
prepend-some_inv gs (ok (some rest)) vs' h = (rest, refl, ground arith)
prepend-some_inv gs (ok none) vs' h = cc
prepend-some_inv gs (err e) vs' h = cc

prepend-none_inv :
    (gs : Fields) (r : Result (Option Items))
    → (r >>= λ rest. ok (prepend gs rest)) ≡ ok none
    → r ≡ ok none
prepend-none_inv gs (ok none) h = refl
prepend-none_inv gs (ok (some rest)) h = cc
prepend-none_inv gs (err e) h = cc

-- What a scan that found its block did.
pub record Found (id : Value) (act : Fields → Result Fields) (vs vs' : Items) : Type 0 where
  pub old : Fields
  pub new : Fields
  pub found : find id vs ≡ some old
  pub acted : act old ≡ ok new
  pub result : vs' ≡ replace id new vs

module _ (id : Value) (act : Fields → Result Fields) where
  pub scan-find :
      (vs : Items) (fs : Fields)
      → find id vs ≡ some fs
      → scan id act vs ≡ (act fs >>= λ new. ok (some (replace id new vs)))
  unfolding scan find replace
  scan-find nil fs h = cc
  scan-find (cons (obj gs) vs) fs h = elim (Bool-cases (py_eq (get_or_null "id" gs) id)) [
    | inl same ↦
        let e : gs ≡ fs = ground arith in
        rw same (ap (λ (g : Fields). act g >>= λ new. ok (some (cons (obj new) vs))) e)
    | inr other ↦
        rw other (
          rw (scan-find vs fs (ground arith)) (prepend-step gs (act fs) (λ new. replace id new vs)))
  ]
  scan-find (cons v vs) fs h = cc

  pub scan-find-none :
      (vs : Items) → All IsDict (to_list vs) → find id vs ≡ none → scan id act vs ≡ ok none
  unfolding scan find
  scan-find-none nil d h = refl
  scan-find-none (cons (obj gs) vs) d h = ground (arith, scan-find-none vs d.1)
  scan-find-none (cons v vs) d h = ground arith

  bind-some_inv :
      (r : Result Fields) (vs vs' : Items)
      → (r >>= λ new. ok (some (cons (obj new) vs))) ≡ ok (some vs')
      → (new : Fields) × (r ≡ ok new) × (vs' ≡ cons (obj new) vs)
  bind-some_inv (ok new) vs vs' h = (new, refl, ground arith)
  bind-some_inv (err e) vs vs' h = cc

  pub scan-some_inv : (vs vs' : Items) → scan id act vs ≡ ok (some vs') → Found id act vs vs'
  unfolding scan find replace
  scan-some_inv nil vs' h = cc
  scan-some_inv (cons (obj gs) vs) vs' h = elim (Bool-cases (py_eq (get_or_null "id" gs) id)) [
    | inl same ↦
        let (new, acted, e) = bind-some_inv (act gs) vs vs' (rw same at h) in
        record { old = gs; new = new; found = rw same; acted = acted; result = rw same e }
    | inr other ↦
        let (rest, scanned, e) = prepend-some_inv gs (scan id act vs) vs' (rw other at h) in
        let f = scan-some_inv vs rest scanned in
        record {
          old = f.old;
          new = f.new;
          found = rw other f.found;
          acted = f.acted;
          result = rw other (rw (← f.result) e);
        }
  ]
  scan-some_inv (cons v vs) vs' h = cc

  bind-ne-none :
      (r : Result Fields) (vs : Items) → (r >>= λ new. ok (some (cons (obj new) vs))) ≢ ok none
  bind-ne-none (ok new) vs h = cc
  bind-ne-none (err e) vs h = cc

  pub scan-none_inv :
      (vs : Items) → scan id act vs ≡ ok none → All IsDict (to_list vs) × (find id vs ≡ none)
  unfolding scan find
  scan-none_inv nil h = (tt, refl)
  scan-none_inv (cons (obj gs) vs) h = elim (Bool-cases (py_eq (get_or_null "id" gs) id)) [
    | inl same ↦ absurd (bind-ne-none (act gs) vs (rw same at h))
    | inr other ↦
        let (d, f) = scan-none_inv vs (prepend-none_inv gs (scan id act vs) (rw other at h)) in
        ((tt, d), rw other f)
  ]
  scan-none_inv (cons v vs) h = cc

-- Replacing the block keeps the ids, if the new block has the id of the old one.
pub ids-replace :
    (id : Value) (new : Fields) (vs : Items)
    → ((old : Fields) → find id vs ≡ some old → get_or_null "id" new ≡ get_or_null "id" old)
    → ids (replace id new vs) ≡ ids vs
unfolding find replace
ids-replace id new nil h = refl
ids-replace id new (cons (obj gs) vs) h = elim (Bool-cases (py_eq (get_or_null "id" gs) id)) [
  | inl same ↦ rw same (ap (λ (v : Value). v ∷ ids vs) (h gs (rw same)))
  | inr other ↦ rw other (
      ap (λ (l : List Value). get_or_null "id" gs ∷ l)
        (ids-replace id new vs (λ old f. h old (rw other f))))
]
ids-replace id new (cons v vs) h = refl

-- What holds of all the blocks and of the new one holds of the list with the block replaced.
pub All-replace {ℓ} :
    (P : Value → Type ℓ) (id : Value) (new : Fields) (vs : Items)
    → All P (to_list vs)
    → P (obj new)
    → All P (to_list (replace id new vs))
unfolding replace
All-replace P id new nil h p = tt
All-replace P id new (cons (obj gs) vs) h p = elim (Bool-cases (py_eq (get_or_null "id" gs) id)) [
  | inl same ↦ rw same (p, h.1)
  | inr other ↦ rw other (h.0, All-replace P id new vs h.1 p)
]
All-replace P id new (cons v vs) h p = h

-- The block that is found is one of the blocks.
pub find-All {ℓ} :
    (P : Value → Type ℓ) (id : Value) (vs : Items) (fs : Fields)
    → find id vs ≡ some fs
    → All P (to_list vs)
    → P (obj fs)
unfolding find
find-All P id nil fs f h = cc
find-All P id (cons (obj gs) vs) fs f h = elim (Bool-cases (py_eq (get_or_null "id" gs) id)) [
  | inl same ↦ let e : gs ≡ fs = ground arith in rw (← e) h.0
  | inr other ↦ find-All P id vs fs (rw other at f) h.1
]
find-All P id (cons v vs) fs f h = cc

pub find-id :
    (id : Value) (vs : Items) (fs : Fields)
    → find id vs ≡ some fs
    → py_eq (get_or_null "id" fs) id ≡ true
unfolding find
find-id id nil fs f = cc
find-id id (cons (obj gs) vs) fs f = elim (Bool-cases (py_eq (get_or_null "id" gs) id)) [
  | inl same ↦ let e : gs ≡ fs = ground arith in rw (← e) same
  | inr other ↦ find-id id vs fs (rw other at f)
]
find-id id (cons v vs) fs f = cc

-- A text that no block has for its id is absent from the ids.
pub find-none-Absent :
    (s : String) (vs : Items)
    → All IsDict (to_list vs)
    → find (str s) vs ≡ none
    → Absent (str s) (ids vs)
unfolding find
find-none-Absent s nil d h = tt
find-none-Absent s (cons (obj gs) vs) d h = (
  λ e. ground (arith, py_eq-str (get_or_null "id" gs) s, e),
  find-none-Absent s vs d.1 (ground arith),
)
find-none-Absent s (cons v vs) d h = absurd d.0

-- The block that was put in is found under its id.
pub find-replace :
    (id : Value) (new old : Fields) (vs : Items)
    → find id vs ≡ some old
    → py_eq (get_or_null "id" new) id ≡ true
    → find id (replace id new vs) ≡ some new
unfolding find replace
find-replace id new old nil f same = cc
find-replace id new old (cons (obj gs) vs) f same =
    elim (Bool-cases (py_eq (get_or_null "id" gs) id)) [
      | inl here ↦ rw (here, find) (rw same)
      | inr later ↦ rw (later, find) (rw later (find-replace id new old vs (rw later at f) same))
    ]
find-replace id new old (cons v vs) f same = cc

-- A block under another id is as it was.
pub find-replace_ne :
    (s t : String) (new : Fields) (vs : Items)
    → get_or_null "id" new ≡ str s
    → s ≢ t
    → find (str t) (replace (str s) new vs) ≡ find (str t) vs
unfolding find replace
find-replace_ne s t new nil named ne = refl
find-replace_ne s t new (cons (obj gs) vs) named ne = ground (
  arith,
  find-replace_ne s t new vs named ne,
  py_eq-str (get_or_null "id" gs) s,
  py_eq-str (get_or_null "id" gs) t,
  py_eq-str (get_or_null "id" new) t,
)
find-replace_ne s t new (cons v vs) named ne = refl

-- A second replacement hides the first.
pub replace-replace :
    (id : Value) (x y : Fields) (vs : Items)
    → py_eq (get_or_null "id" x) id ≡ true
    → replace id y (replace id x vs) ≡ replace id y vs
unfolding replace
replace-replace id x y nil same = refl
replace-replace id x y (cons (obj gs) vs) same =
    elim (Bool-cases (py_eq (get_or_null "id" gs) id)) [
      | inl here ↦ rw (here, replace) (rw same)
      | inr later ↦
          rw (later, replace) (rw later (ap (cons (obj gs)) (replace-replace id x y vs same)))
    ]
replace-replace id x y (cons v vs) same = refl

-- A block at the end is found under its id, if no other block is.
pub find-append_self :
    (id : Value) (block : Fields) (vs : Items)
    → All IsDict (to_list vs)
    → find id vs ≡ none
    → py_eq (get_or_null "id" block) id ≡ true
    → find id (append vs (obj block)) ≡ some block
unfolding find concat
find-append_self id block nil d f same = rw same
find-append_self id block (cons (obj gs) vs) d f same =
    ground (arith, find-append_self id block vs d.1)
find-append_self id block (cons v vs) d f same = absurd d.0

pub find-append_ne :
    (id : Value) (block : Fields) (vs : Items)
    → py_eq (get_or_null "id" block) id ≡ false
    → find id (append vs (obj block)) ≡ find id vs
unfolding find concat
find-append_ne id block nil other = rw other
find-append_ne id block (cons (obj gs) vs) other =
    ap (λ (o : Option Fields). if py_eq (get_or_null "id" gs) id then some gs else o)
      (find-append_ne id block vs other)
find-append_ne id block (cons v vs) other = refl
