-- ===== src/Json/Laws.antt =====
-- The laws of dictionaries that the proofs go by.
use agentue.Prelude.{
  String, ◌≡◌, ◌≢◌, refl, some, List, ◌∷◌, ◌++◌, arith, eq_iff, eq_refl, str_eq, str_eq-ne,
  if◌then◌else◌, ap,
}
use agentue.Json.{Value, Items, nil, cons, Fields, empty, field, get, set, concat, to_list}

pub get-set :
    (k j : String) (v : Value) (fs : Fields)
    → get j (set k v fs) ≡ (if str_eq k j then some v else get j fs)
unfolding get set
get-set k j v empty = refl
get-set k j v (field i w fs) = ground (arith, eq_iff k j, eq_iff i k, eq_iff i j, get-set k j v fs)

pub get-set_self : (k : String) (v : Value) (fs : Fields) → get k (set k v fs) ≡ some v
get-set_self k v fs = simp (get-set, eq_refl)

pub get-set_ne : (k j : String) (v : Value) (fs : Fields) → k ≢ j → get j (set k v fs) ≡ get j fs
get-set_ne k j v fs h = rw (get-set, str_eq-ne k j h)

-- Writing back what a key holds changes nothing.
pub set-get_self : (k : String) (v : Value) (fs : Fields) → get k fs ≡ some v → set k v fs ≡ fs
unfolding get set
set-get_self k v empty h = cc
set-get_self k v (field j w fs) h = ground (arith, set-get_self k v fs)

pub set-set : (k : String) (v w : Value) (fs : Fields) → set k w (set k v fs) ≡ set k w fs
unfolding set
set-set k v w empty = ground (arith, eq_refl k)
set-set k v w (field j u fs) = ground (arith, eq_iff j k, set-set k v w fs)

pub concat-nil : (xs : Items) → concat xs nil ≡ xs
unfolding concat
concat-nil nil = refl
concat-nil (cons x xs) = ap (cons x) (concat-nil xs)

pub concat_assoc : (xs ys zs : Items) → concat (concat xs ys) zs ≡ concat xs (concat ys zs)
unfolding concat
concat_assoc nil ys zs = refl
concat_assoc (cons x xs) ys zs = ap (cons x) (concat_assoc xs ys zs)

pub to_list-concat : (xs ys : Items) → to_list (concat xs ys) ≡ to_list xs ++ to_list ys
unfolding concat
to_list-concat nil ys = refl
to_list-concat (cons x xs) ys = ap (λ (l : List Value). x ∷ l) (to_list-concat xs ys)
