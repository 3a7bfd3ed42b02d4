-- ===== src/Runner/Options.antt =====
-- `RunnerOptions` of runner/types.py, and what its `__post_init__` accepts.
use agentue.Prelude.{
  ℕ, ◌<◌, ◌⊎◌, String, ◌≡◌, ◌≢◌, ◌↔◌, refl, Bool, true, false, List, [], ◌∷◌, str_eq, str_eq-ne,
  leb, arith, eq_iff, All, Bool-cases, inl, inr,
}
use agentue.Json.{ℤ, pos, negsuc}
use agentue.Json.Double.{is_nan, sign_bit, size_bits, float_le, float_le-nan_left}
use agentue.Result.{
  Result, ok, ◌>>◌, raise_if, raise_if-eq-ok, >>=-eq-ok, raise_if-ok, not_positive,
  empty_key_prefix, timeout_not_greater,
}

-- the settings; an interval in seconds is a double, by its bits
pub record RunnerOptions : Type 0 where
  pub key_prefix : String
  pub task_ttl : ℤ
  pub stream_read_count : ℤ
  pub stream_block_ms : ℤ
  pub heartbeat_interval : ℕ
  pub heartbeat_timeout : ℕ
  pub watchdog_check_interval : ℕ
  pub scan_interval : ℕ
  pub recovery_claim_ttl : ℤ

-- 1.0, 5.0 and 30.0
abbrev one_second : ℕ
one_second = 4_607_182_418_800_017_408

abbrev five_seconds : ℕ
five_seconds = 4_617_315_517_961_601_024

abbrev thirty_seconds : ℕ
thirty_seconds = 4_629_137_466_983_448_576

-- the defaults of the fields
abbrev pub defaults : RunnerOptions
defaults = record {
  key_prefix = "agentue:runner";
  task_ttl = pos 86_400;
  stream_read_count = pos 100;
  stream_block_ms = pos 1_000;
  heartbeat_interval = five_seconds;
  heartbeat_timeout = thirty_seconds;
  watchdog_check_interval = one_second;
  scan_interval = five_seconds;
  recovery_claim_ttl = pos 60;
}

-- `n <= 0` on an int
abbrev int_not_positive : ℤ → Bool
int_not_positive (pos n) = leb n 0
int_not_positive (negsuc n) = true

-- `x <= 0` on a float
abbrev pub float_not_positive : ℕ → Bool
float_not_positive x = float_le x 0

-- a setting, by its name
pub record Setting (A : Type 0) : Type 0 where
  pub name : String
  pub value : A

-- a loop of `__post_init__` over the settings of one kind
unfoldable pub check_positive : {A : Type 0} → (A → Bool) → List (Setting A) → Result (Unit {0})
check_positive not_pos [] = ok tt
check_positive not_pos (s ∷ rest) = do
  raise_if (not_pos s.value) (not_positive s.name)
  check_positive not_pos rest

abbrev counts : RunnerOptions → List (Setting ℤ)
counts o =
    record { name = "task_ttl"; value = o.task_ttl }
    ∷ record { name = "stream_read_count"; value = o.stream_read_count }
    ∷ record { name = "stream_block_ms"; value = o.stream_block_ms }
    ∷ record { name = "recovery_claim_ttl"; value = o.recovery_claim_ttl }
    ∷ []

abbrev intervals : RunnerOptions → List (Setting ℕ)
intervals o =
    record { name = "heartbeat_interval"; value = o.heartbeat_interval }
    ∷ record { name = "heartbeat_timeout"; value = o.heartbeat_timeout }
    ∷ record { name = "watchdog_check_interval"; value = o.watchdog_check_interval }
    ∷ record { name = "scan_interval"; value = o.scan_interval }
    ∷ []

-- `__post_init__`
unfoldable pub post_init : RunnerOptions → Result (Unit {0})
unfolding check_positive
post_init o = do
  raise_if (str_eq o.key_prefix "") empty_key_prefix
  check_positive int_not_positive (counts o)
  check_positive float_not_positive (intervals o)
  raise_if (float_le o.heartbeat_timeout o.heartbeat_interval) timeout_not_greater

abbrev pub IsPositive : ℤ → Type 0
IsPositive (pos n) = 0 < n
IsPositive (negsuc n) = ⊥

-- above 0, or a NaN
abbrev pub IsPositiveFloat : ℕ → Type 0
IsPositiveFloat x = (is_nan x ≡ true) ⊎ ((sign_bit x ≡ false) × (0 < size_bits x))

-- What the settings have to be.
pub record IsValid (o : RunnerOptions) : Type 0 where
  pub has_prefix : o.key_prefix ≢ ""
  pub counts_positive : All (λ (s : Setting ℤ). IsPositive s.value) (counts o)
  pub intervals_positive : All (λ (s : Setting ℕ). IsPositiveFloat s.value) (intervals o)
  pub timeout_greater : float_le o.heartbeat_timeout o.heartbeat_interval ≡ false

int_not_positive_lem : (i : ℤ) → (int_not_positive i ≡ false) ↔ IsPositive i
int_not_positive_lem (pos n) = ground arith
int_not_positive_lem (negsuc n) = ground arith

float_not_positive_lem : (x : ℕ) → (float_not_positive x ≡ false) ↔ IsPositiveFloat x
unfolding float_le
float_not_positive_lem x = elim (Bool-cases (is_nan x)) [
  | inl nan ↦ rw nan (λ h. inl refl, λ p. refl)
  | inr number ↦ elim (Bool-cases (sign_bit x)) [
    | inl negative ↦ rw (number, negative) (ground arith)
    | inr positive ↦ rw (number, positive) (ground arith)
  ]
]

check_positive-All :
    {A : Type 0} (not_pos : A → Bool) (P : A → Type 0)
    → ((a : A) → (not_pos a ≡ false) ↔ P a)
    → (settings : List (Setting A))
    → (check_positive not_pos settings ≡ ok tt) ↔ All (λ (s : Setting A). P s.value) settings
unfolding check_positive
check_positive-All not_pos P same [] = (λ h. tt, λ h. refl)
check_positive-All not_pos P same (s ∷ rest) = (
  λ h.
      let (first, others) = raise_if-eq-ok (not_pos s.value) (not_positive s.name) _ h in
      ((same s.value).0 first, (check_positive-All not_pos P same rest).0 others),
  λ (p, ps). rw ((same s.value).1 p) ((check_positive-All not_pos P same rest).1 ps),
)

-- The options are accepted exactly if the key prefix is not empty, each count is positive, each
-- interval is positive or a NaN, and the heartbeat timeout is not at most the heartbeat interval.
pub post_init-IsValid : (o : RunnerOptions) → (post_init o ≡ ok tt) ↔ IsValid o
unfolding post_init
post_init-IsValid o = (
  λ h.
      let (prefix, r₁) = raise_if-eq-ok (str_eq o.key_prefix "") empty_key_prefix _ h in
      let (u, ints, r₂) = >>=-eq-ok (check_positive int_not_positive (counts o)) _ r₁ in
      let (v, floats, r₃) = >>=-eq-ok (check_positive float_not_positive (intervals o)) _ r₂ in
      record {
        has_prefix = ground (arith, eq_iff o.key_prefix "");
        counts_positive =
            (check_positive-All int_not_positive IsPositive int_not_positive_lem (counts o)).0 ints;
        intervals_positive =
            (check_positive-All float_not_positive IsPositiveFloat float_not_positive_lem
                (intervals o)).0
              floats;
        timeout_greater = raise_if-ok _ timeout_not_greater tt r₃;
      },
  λ v. rw (
    str_eq-ne o.key_prefix "" v.has_prefix,
    (check_positive-All int_not_positive IsPositive int_not_positive_lem (counts o)).1
        v.counts_positive,
    (check_positive-All float_not_positive IsPositiveFloat float_not_positive_lem (intervals o)).1
        v.intervals_positive,
    v.timeout_greater,
  ),
)

-- A NaN in place of the heartbeat timeout is accepted wherever the options were.
pub post_init-nan_timeout :
    (o : RunnerOptions) (x : ℕ)
    → is_nan x ≡ true
    → post_init o ≡ ok tt
    → post_init (record o { heartbeat_timeout = x }) ≡ ok tt
post_init-nan_timeout o x nan h =
    let v = (post_init-IsValid o).0 h in
    (post_init-IsValid (record o { heartbeat_timeout = x })).1 (record {
      has_prefix = v.has_prefix;
      counts_positive = v.counts_positive;
      intervals_positive = (v.intervals_positive.0, (inl nan, v.intervals_positive.1.1));
      timeout_greater = float_le-nan_left x o.heartbeat_interval nan;
    })
