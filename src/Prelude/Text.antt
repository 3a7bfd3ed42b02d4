-- ===== src/Prelude/Text.antt =====
-- The `str` methods that the sources call on masks: `in`, `partition`, `split`, `removeprefix`.
-- A text is a list of code points.
use Prim.Native.Char.{Char, code}
use Prim.Native.String
use Prim.Native.String.{String, [], ◌∷◌, len, slice}
use mathlib.Core.Path.{◌≡◌, refl, sym}
use mathlib.Core.Bool.{Bool, true, false, ◌||◌}
use mathlib.Core.List.{List, [], ◌∷◌}
use native.Mathlib.Omega.{arith}
use text.Mathlib.Text.{starts_with}
use text.Mathlib.TextEquality.{starts_with_iff}
use text.Mathlib.TextLemmas.{nil-append, cons-append}
use text.Mathlib.TextPositions.{len-append, slice-append_right, starts_with-append}
use agentue.Prelude.Tests.{◌==◌, if◌then◌else◌}

-- `"." in s`
unfoldable pub has_dot : String → Bool
has_dot [] = false
has_dot (c ∷ s) = code c == b'.' || has_dot s

-- `s.partition(".")`: what stands before the first dot, whether there is one, and what follows
pub record Parts : Type 0 where
  pub root : String
  pub separator : Bool
  pub rest : String

abbrev grow : Char → Parts → Parts
grow c p = record { root = c ∷ p.root; separator = p.separator; rest = p.rest }

unfoldable pub partition : String → Parts
partition [] = record { root = ""; separator = false; rest = "" }
partition (c ∷ s) =
    if code c == b'.'
    then record { root = ""; separator = true; rest = s }
    else grow c (partition s)

abbrev grow_head : Char → List String → List String
grow_head c [] = (c ∷ []) ∷ []
grow_head c (p ∷ ps) = (c ∷ p) ∷ ps

-- `s.split(".")`, which has at least one part
unfoldable pub split : String → List String
split [] = "" ∷ []
split (c ∷ s) = if code c == b'.' then "" ∷ split s else grow_head c (split s)

abbrev second : List String → String
second (p ∷ q ∷ ps) = q
second ps = ""

-- `s.split(".")[1]`; the callers have checked that there is a dot
abbrev pub second_part : String → String
second_part s = second (split s)

-- `s.removeprefix(p)`
unfoldable pub remove_prefix : String → String → String
remove_prefix s p = if starts_with s p then slice s (len p) (len s) else s

pub partition-block :
    (s : String)
    → partition (String.◌++◌ "block." s) ≡ record { root = "block"; separator = true; rest = s }
unfolding partition
partition-block s =
    rw (cons-append, cons-append, cons-append, cons-append, cons-append, cons-append, nil-append)

pub partition-meta :
    (s : String)
    → partition (String.◌++◌ "meta." s) ≡ record { root = "meta"; separator = true; rest = s }
unfolding partition
partition-meta s = rw (cons-append, cons-append, cons-append, cons-append, cons-append, nil-append)

pub split-block : (s : String) → split (String.◌++◌ "block." s) ≡ "block" ∷ split s
unfolding split
split-block s =
    rw (cons-append, cons-append, cons-append, cons-append, cons-append, cons-append, nil-append)

pub remove_prefix-append : (p s : String) → remove_prefix (String.◌++◌ p s) p ≡ s
unfolding remove_prefix
remove_prefix-append p s = rw (starts_with-append, len-append) (slice-append_right p s)

pub split-of_no_dot : (s : String) → has_dot s ≡ false → split s ≡ s ∷ []
unfolding split has_dot
split-of_no_dot [] h = refl
split-of_no_dot (c ∷ s) h = ground (arith, split-of_no_dot s)

pub starts_with-inv : (s p : String) → starts_with s p ≡ true → (u : String) × (s ≡ String.◌++◌ p u)
starts_with-inv s p h = let (u, e) = (starts_with_iff s p).0 h in (u, sym e)

-- the first part of a split path
abbrev pub first_part : List String → String
first_part [] = ""
first_part (p ∷ ps) = p

second-cons : (p : String) (ps : List String) → second (p ∷ ps) ≡ first_part ps
second-cons p [] = refl
second-cons p (q ∷ ps) = refl

pub second_part-block : (s : String) → second_part (String.◌++◌ "block." s) ≡ first_part (split s)
second_part-block s = rw split-block (second-cons "block" (split s))
