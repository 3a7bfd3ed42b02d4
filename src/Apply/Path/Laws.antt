-- ===== src/Apply/Path/Laws.antt =====
-- Reading back what `_write_path` wrote, and what it leaves alone.
use agentue.Prelude.{String, ◌≡◌, ◌≢◌, refl, some, List, [], ◌∷◌, last_or}
use agentue.Prelude.Text.{first_part}
use agentue.Json.{Value, obj, Fields, get}
use agentue.Json.Laws.{get-set_self, get-set_ne, set-set}
use agentue.Apply.Path.{read_from, read_path, child, write_path}

read_from-write_path :
    (source : Fields) (leaf : String) (target : Fields) (part : String) (path : List String)
    (value : Value)
    → read_from source leaf (obj (write_path target (part ∷ path) value)) (part ∷ path) ≡ some value
unfolding read_from write_path
read_from-write_path source leaf target part [] value = rw (get-set_self, read_from)
read_from-write_path source leaf target part (q ∷ path) value =
    rw (get-set_self, read_from)
      (read_from-write_path source leaf (child (get part target)) q path value)

-- What is written below a path is read back from there.
pub read_path-write_path :
    (target : Fields) (part : String) (path : List String) (value : Value)
    → read_path (write_path target (part ∷ path) value) (part ∷ path) ≡ some value
unfolding read_path
read_path-write_path target part path value =
    read_from-write_path (write_path target (part ∷ path) value) (last_or (part ∷ path) "") target
      part path value

-- A second write below the same path replaces the first.
pub write_path-write_path :
    (target : Fields) (part : String) (path : List String) (v w : Value)
    → write_path (write_path target (part ∷ path) v) (part ∷ path) w
      ≡ write_path target (part ∷ path) w
unfolding write_path
write_path-write_path target part [] v w = set-set part v w target
write_path-write_path target part (q ∷ path) v w =
    rw get-set_self
      (rw (write_path-write_path (child (get part target)) q path v w) (set-set part _ _ target))

-- Only the first key of the path is touched.
pub get-write_path_ne :
    (k : String) (target : Fields) (part : String) (path : List String) (value : Value)
    → part ≢ k
    → get k (write_path target (part ∷ path) value) ≡ get k target
unfolding write_path
get-write_path_ne k target part [] value h = get-set_ne part k value target h
get-write_path_ne k target part (q ∷ path) value h = get-set_ne part k _ target h

pub get-write_path_first :
    (k : String) (target : Fields) (path : List String) (value : Value)
    → first_part path ≢ k
    → get k (write_path target path value) ≡ get k target
unfolding write_path
get-write_path_first k target [] value h = refl
get-write_path_first k target (part ∷ path) value h = get-write_path_ne k target part path value h
