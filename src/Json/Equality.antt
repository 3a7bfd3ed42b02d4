-- ===== src/Json/Equality.antt =====
-- Python's `==` on JSON values: numbers compare by value across `bool`, `int` and `float`, and
-- dicts whatever their order. The identity test that containers make first is not modelled: it
-- changes the answer only for a NaN inside a container.
use agentue.Prelude.{
  ◌≡◌, ◌↔◌, ap, String, arith, eq_iff, ℕ, suc, ◌+◌, ◌*◌, ◌%◌, ◌^◌, Bool, true, false, not, ◌&&◌,
  none, some, str_eq, ◌==◌, if◌then◌else◌,
}
use agentue.Json.Double.{exponent, sign_bit, float_eq}
use agentue.Json.{
  ℤ, pos, negsuc, Value, null, bool, int, float, str, arr, obj, Items, nil, cons, Fields, empty,
  field, get,
}

abbrev magnitude : ℤ → ℕ
magnitude (pos n) = n
magnitude (negsuc n) = suc n

abbrev is_negative : ℤ → Bool
is_negative (pos n) = false
is_negative (negsuc n) = true

abbrev int_eq : ℤ → ℤ → Bool
int_eq (pos m) (pos n) = m == n
int_eq (negsuc m) (negsuc n) = m == n
int_eq i j = false

-- |x| * 2 ^ 1075 for a finite double x
abbrev scaled : ℕ → ℕ
scaled bits =
    if exponent bits == 0 then bits % 2 ^ 52 * 2 else (bits % 2 ^ 52 + 2 ^ 52) * 2 ^ exponent bits

-- an integer and a double, compared exactly
int_float_eq : ℤ → ℕ → Bool
int_float_eq i b =
    if exponent b == 2047
    then false
    else magnitude i * 2 ^ 1075 == scaled b
      && (if magnitude i == 0
          then true
          else (if is_negative i then sign_bit b else not (sign_bit b)))

abbrev of_bool : Bool → ℤ
of_bool true = pos 1
of_bool false = pos 0

-- the number of fields
abbrev size : Fields → ℕ
size empty = 0
size (field k v fs) = suc (size fs)

-- a number against any value
num_eq : ℤ → Value → Bool
unfolding int_float_eq
num_eq i (bool b) = int_eq i (of_bool b)
num_eq i (int j) = int_eq i j
num_eq i (float b) = int_float_eq i b
num_eq i _ = false

float_value_eq : ℕ → Value → Bool
unfolding float_eq int_float_eq
float_value_eq a (bool b) = int_float_eq (of_bool b) a
float_value_eq a (int j) = int_float_eq j a
float_value_eq a (float b) = float_eq a b
float_value_eq a _ = false

unfoldable mutual
  unfolding num_eq float_value_eq

  pub py_eq : Value → Value → Bool
  py_eq null null = true
  py_eq (bool b) w = num_eq (of_bool b) w
  py_eq (int i) w = num_eq i w
  py_eq (float a) w = float_value_eq a w
  py_eq (str s) (str t) = str_eq s t
  py_eq (arr xs) (arr ys) = items_eq xs ys
  py_eq (obj fs) (obj gs) = size fs == size gs && fields_eq fs gs
  py_eq v w = false

  pub items_eq : Items → Items → Bool
  items_eq nil nil = true
  items_eq (cons x xs) (cons y ys) = py_eq x y && items_eq xs ys
  items_eq xs ys = false

  -- every field of the first is in the second, with an equal value
  pub fields_eq : Fields → Fields → Bool
  fields_eq empty gs = true
  fields_eq (field k v fs) gs =
      elim (get k gs) [ none ↦ false | some w ↦ py_eq v w ] && fields_eq fs gs

-- A text equals only itself.
pub py_eq-str : (v : Value) (t : String) → (py_eq v (str t) ≡ true) ↔ (v ≡ str t)
unfolding py_eq
py_eq-str (str s) t = (λ h. ap str ((eq_iff s t).0 h), λ e. ground (arith, eq_iff s t))
py_eq-str v t = ground arith
