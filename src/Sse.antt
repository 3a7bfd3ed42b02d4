-- ===== src/Sse.antt =====
-- sse.py: the framing of an event for Server-Sent Events. A text is a list of code points.
pub mod Frames
use Prim.Native.Char.{Char, code}
use Prim.Native.String
use Prim.Native.String.{[], ◌∷◌}
use mathlib.Core.List
use agentue.Prelude.{
  ℕ, String, Bool, true, false, ◌&&◌, ◌||◌, Option, none, some, List, ◌++◌, map, ◌==◌, ltb,
  if◌then◌else◌,
}
use agentue.Result.{Result, ok, ◌>>=◌, ◌>>◌, raise_if, event_id_newline}

-- line feed and carriage return
abbrev pub is_newline : ℕ → Bool
is_newline c = c == 10 || c == 13

-- where `str.splitlines` ends a line: a newline, the vertical tab, the form feed, the file, group
-- and record separators, the next-line character and the line and paragraph separators
abbrev pub is_boundary : ℕ → Bool
is_boundary c =
    is_newline c
    || (c == 11
        || (c == 12
            || (c == 28 || (c == 29 || (c == 30 || (c == 133 || (c == 8232 || c == 8233)))))))

unfoldable pub has_any : (ℕ → Bool) → String → Bool
has_any p [] = false
has_any p (c ∷ s) = p (code c) || has_any p s

abbrev pub grow_line : Char → List String → List String
grow_line c List.[] = List.◌∷◌ (c ∷ []) List.[]
grow_line c (List.◌∷◌ l ls) = List.◌∷◌ (c ∷ l) ls

-- The lines of a text, by the characters that end one; the flag says that a carriage return stands
-- before the text, whose line feed then belongs to the same line end.
unfoldable pub lines_by : (ℕ → Bool) → Bool → String → List String
lines_by p after_cr [] = List.[]
lines_by p after_cr (c ∷ s) =
    let rest = lines_by p (p (code c) && code c == 13) s in
    if after_cr && code c == 10
    then rest
    else if p (code c)
    then List.◌∷◌ "" rest
    else grow_line c rest

-- `str.splitlines`
unfoldable pub splitlines : String → List String
unfolding lines_by
splitlines s = lines_by is_boundary false s

-- `"\n".join(lines)`
unfoldable pub join_lines : List String → String
join_lines List.[] = ""
join_lines (List.◌∷◌ l List.[]) = l
join_lines (List.◌∷◌ l (List.◌∷◌ m ls)) =
    String.◌++◌ l (String.◌++◌ "\n" (join_lines (List.◌∷◌ m ls)))

-- `lines or [""]`
abbrev pub or_blank : List String → List String
or_blank List.[] = List.◌∷◌ "" List.[]
or_blank ls = ls

abbrev pub has_newline : Option String → Bool
has_newline none = false
has_newline (some id) = has_any is_newline id

abbrev pub id_lines : Option String → List String
id_lines none = List.[]
id_lines (some id) = List.◌∷◌ (String.◌++◌ "id: " id) List.[]

abbrev pub data_line : String → String
data_line line = String.◌++◌ "data: " line

abbrev pub message_lines : String → Option String → List String
message_lines payload event_id = id_lines event_id ++ map data_line (or_blank (splitlines payload))

-- `encode_sse`, on the JSON text of the event
unfoldable pub encode_sse : String → Option String → Result String
unfolding splitlines
encode_sse payload event_id = do
  raise_if (has_newline event_id) event_id_newline
  ok (String.◌++◌ (join_lines (message_lines payload event_id)) "\n\n")
