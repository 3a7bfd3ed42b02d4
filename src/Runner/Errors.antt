-- ===== src/Runner/Errors.antt =====
-- What runner/runner.py tells readers of an exception: `_error_code` and `_error_message`.
use Prim.Native.Char.{Char, code}
use Prim.Native.String.{[], ◌∷◌}
use text.Mathlib.TextLemmas.{cons≢nil}
use agentue.Prelude.{
  ℕ, String, ◌≡◌, ◌≢◌, refl, Bool, true, false, ◌&&◌, ◌||◌, str_eq, ◌==◌, leb, if◌then◌else◌, ◌⊎◌,
  inl, inr, Bool-cases, String-cases, str_eq-ne, differ, if-either, ap, ◌∙◌,
}

-- `CompletionSource`
pub data CompletionSource : Type 0 where
  pre_start execute cancelled shutdown heartbeat_timeout : CompletionSource

-- what the code reads of an exception: whether it is a `CancelledError`, the name of its class, and
-- its text
pub record Exception : Type 0 where
  pub is_cancelled : Bool
  pub class_name : String
  pub text : String

-- the character of the second text that stands where the first one has the given character
abbrev translate : String → String → Char → Char
translate (a ∷ froms) (b ∷ tos) c = if code c == code a then b else translate froms tos c
translate froms tos c = c

-- `s.lower()` on the name of a class, whose letters are those of ASCII
unfoldable pub lower : String → String
lower [] = []
lower (c ∷ s) = translate "ABCDEFGHIJKLMNOPQRSTUVWXYZ" "abcdefghijklmnopqrstuvwxyz" c ∷ lower s

-- `s.removesuffix(p)`, for a `p` that is not empty
unfoldable pub remove_suffix : String → String → String
remove_suffix [] p = []
remove_suffix (c ∷ s) p = if str_eq (c ∷ s) p then [] else c ∷ remove_suffix s p

-- `str.isspace` on a code point
abbrev pub is_space : ℕ → Bool
is_space n =
    leb 9 n && leb n 13
    || leb 28 n && leb n 32
    || n == 133
    || n == 160
    || n == 5760
    || leb 8192 n && leb n 8202
    || n == 8232
    || n == 8233
    || n == 8239
    || n == 8287
    || n == 12288

unfoldable pub strip_left : String → String
strip_left [] = []
strip_left (c ∷ s) = let rest = strip_left s in if is_space (code c) then rest else c ∷ s

-- a character before a text that is stripped on the right
abbrev drop_blank : Char → String → String
drop_blank c [] = if is_space (code c) then [] else c ∷ []
drop_blank c (d ∷ s) = c ∷ d ∷ s

unfoldable pub strip_right : String → String
strip_right [] = []
strip_right (c ∷ s) = drop_blank c (strip_right s)

-- `s.strip()`
unfoldable pub strip : String → String
unfolding strip_left strip_right
strip s = strip_right (strip_left s)

-- `s or t`
abbrev pub or_text : String → String → String
or_text s t = if str_eq s "" then t else s

-- `_error_code`
unfoldable pub error_code : Exception → CompletionSource → String
unfolding lower remove_suffix
error_code x heartbeat_timeout = "heartbeat_timeout"
error_code x source =
    if x.is_cancelled
    then "cancelled"
    else or_text (lower (remove_suffix x.class_name "Error")) "failed"

abbrev no_message : Exception → CompletionSource → String
no_message x shutdown = "Runner shut down before the task completed."
no_message x source =
    if x.is_cancelled then "Task execution was cancelled." else "Task execution failed."

-- `_error_message`
unfoldable pub error_message : Exception → CompletionSource → String
unfolding strip
error_message x source = or_text (strip x.text) (no_message x source)

-- a text that begins and ends with a character that is no space
abbrev pub StartsDark : String → Type 0
StartsDark [] = ⊥
StartsDark (c ∷ s) = is_space (code c) ≡ false

abbrev pub EndsDark : String → Type 0
EndsDark [] = ⊥
EndsDark (c ∷ []) = is_space (code c) ≡ false
EndsDark (c ∷ d ∷ s) = EndsDark (d ∷ s)

abbrev Trimmed : String → Type 0
Trimmed s = (s ≡ "") ⊎ (StartsDark s × EndsDark s)

chosen-StartsDark :
    (space : Bool) (c : Char) (s rest : String)
    → is_space (code c) ≡ space
    → (rest ≡ "") ⊎ StartsDark rest
    → ((if space then rest else c ∷ s) ≡ "") ⊎ StartsDark (if space then rest else c ∷ s)
chosen-StartsDark true c s rest e h = h
chosen-StartsDark false c s rest e h = inr e

strip_left-StartsDark : (s : String) → (strip_left s ≡ "") ⊎ StartsDark (strip_left s)
unfolding strip_left
strip_left-StartsDark [] = inl refl
strip_left-StartsDark (c ∷ s) =
    chosen-StartsDark (is_space (code c)) c s (strip_left s) refl (strip_left-StartsDark s)

prepend-EndsDark : (c : Char) (s : String) → EndsDark s → EndsDark (c ∷ s)
prepend-EndsDark c [] h = absurd h
prepend-EndsDark c (d ∷ s) h = h

kept-EndsDark :
    (c : Char) (rest : String)
    → (rest ≡ "") ⊎ EndsDark rest
    → (drop_blank c rest ≡ "") ⊎ EndsDark (drop_blank c rest)
kept-EndsDark c [] h = elim (Bool-cases (is_space (code c))) [
  | inl space ↦ rw space (inl refl)
  | inr dark ↦ rw dark (inr dark)
]
kept-EndsDark c (d ∷ s) (inl e) = absurd (cons≢nil e)
kept-EndsDark c (d ∷ s) (inr h) = inr h

strip_right-EndsDark : (s : String) → (strip_right s ≡ "") ⊎ EndsDark (strip_right s)
unfolding strip_right
strip_right-EndsDark [] = inl refl
strip_right-EndsDark (c ∷ s) = kept-EndsDark c (strip_right s) (strip_right-EndsDark s)

drop_blank-StartsDark :
    (c : Char) (rest : String) → is_space (code c) ≡ false → StartsDark (drop_blank c rest)
drop_blank-StartsDark c [] h = rw h h
drop_blank-StartsDark c (d ∷ s) h = h

strip_right-StartsDark : (s : String) → StartsDark s → StartsDark (strip_right s)
unfolding strip_right
strip_right-StartsDark [] h = absurd h
strip_right-StartsDark (c ∷ s) h = drop_blank-StartsDark c (strip_right s) h

strip_right-nil : strip_right "" ≡ ""
unfolding strip_right
strip_right-nil = refl

strip-Trimmed : (s : String) → Trimmed (strip s)
unfolding strip
strip-Trimmed s = elim (strip_left-StartsDark s) [
  | inl blank ↦ inl (ap strip_right blank ∙ strip_right-nil)
  | inr starts ↦ elim (strip_right-EndsDark (strip_left s)) [
    | inl blank ↦ inl blank
    | inr ends ↦ inr (strip_right-StartsDark (strip_left s) starts, ends)
  ]
]

-- a text to show: it is not empty, and has no space at either end
abbrev pub IsShown : String → Type 0
IsShown s = StartsDark s × EndsDark s

or_text-IsShown : (s t : String) → Trimmed s → IsShown t → IsShown (or_text s t)
or_text-IsShown s t (inl blank) h = rw blank h
or_text-IsShown s t (inr shown) h = elim (String-cases s "") [
  | inl blank ↦ rw blank h
  | inr text ↦ rw (str_eq-ne s "" text) shown
]

or_text-ne : (s t : String) → t ≢ "" → or_text s t ≢ ""
or_text-ne s t h = elim (String-cases s "") [
  | inl blank ↦ rw blank h
  | inr text ↦ rw (str_eq-ne s "" text) text
]

if_cancelled-IsShown :
    (b : Bool) → IsShown (if b then "Task execution was cancelled." else "Task execution failed.")
if_cancelled-IsShown b = if-either IsShown b _ _ (refl, refl) (refl, refl)

no_message-IsShown : (x : Exception) (source : CompletionSource) → IsShown (no_message x source)
no_message-IsShown x shutdown = (refl, refl)
no_message-IsShown x pre_start = if_cancelled-IsShown x.is_cancelled
no_message-IsShown x execute = if_cancelled-IsShown x.is_cancelled
no_message-IsShown x cancelled = if_cancelled-IsShown x.is_cancelled
no_message-IsShown x heartbeat_timeout = if_cancelled-IsShown x.is_cancelled

named-ne : (b : Bool) (name : String) → (if b then "cancelled" else or_text name "failed") ≢ ""
named-ne b name =
    if-either (λ s. s ≢ "") b _ _ (differ "cancelled" "" refl)
      (or_text-ne name "failed" (differ "failed" "" refl))

error_code-ne : (x : Exception) (source : CompletionSource) → error_code x source ≢ ""
unfolding error_code
error_code-ne x heartbeat_timeout = differ "heartbeat_timeout" "" refl
error_code-ne x pre_start = named-ne x.is_cancelled (lower (remove_suffix x.class_name "Error"))
error_code-ne x execute = named-ne x.is_cancelled (lower (remove_suffix x.class_name "Error"))
error_code-ne x cancelled = named-ne x.is_cancelled (lower (remove_suffix x.class_name "Error"))
error_code-ne x shutdown = named-ne x.is_cancelled (lower (remove_suffix x.class_name "Error"))

-- Whatever the exception, the code that readers get is not empty, and the message is not empty and
-- has no space at either end.
pub error_code-message :
    (x : Exception) (source : CompletionSource)
    → (error_code x source ≢ "") × IsShown (error_message x source)
unfolding error_code error_message
error_code-message x source = (
  error_code-ne x source,
  or_text-IsShown (strip x.text) (no_message x source) (strip-Trimmed x.text)
      (no_message-IsShown x source),
)
