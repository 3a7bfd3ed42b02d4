-- ===== src/Sse/Frames.antt =====
-- What a reader of the event stream finds in an encoded message.
use Prim.Native.Char.{Char, code}
use Prim.Native.String
use Prim.Native.String.{[], ◌∷◌}
use text.Mathlib.TextLemmas.{nil-append, cons-append, append_assoc}
use agentue.Prelude.{
  ℕ, String, ◌≡◌, ◌≢◌, refl, ap, ◌∙◌, Bool, true, false, ◌&&◌, ◌||◌, Option, none, some, List, ◌++◌,
  map, ◌==◌, if◌then◌else◌, arith, All, All-append, All-map,
}
use agentue.Result.{ok, raise_if-eq-ok, event_id_newline, ok-injective}
use agentue.Sse.{
  is_newline, is_boundary, has_any, grow_line, lines_by, splitlines, join_lines, or_blank,
  has_newline, id_lines, data_line, message_lines, encode_sse,
}

-- The lines that a reader finds, as the standard of Server-Sent Events has them: a line ends at a
-- line feed, a carriage return or both.
unfoldable pub received_lines : String → List String
unfolding lines_by
received_lines s = lines_by is_newline false s

-- the text holds no character that ends a line of `p`
abbrev pub Lacks : (ℕ → Bool) → String → Type 0
Lacks p s = has_any p s ≡ false

Lacks-append : (p : ℕ → Bool) (s t : String) → Lacks p s → Lacks p t → Lacks p (String.◌++◌ s t)
unfolding has_any
Lacks-append p [] t hs ht = rw nil-append ht
Lacks-append p (c ∷ s) t hs ht =
    let tail = Lacks-append p s t in rw cons-append (ground (arith, tail))

Lacks-newline : (s : String) → Lacks is_boundary s → Lacks is_newline s
unfolding has_any
Lacks-newline [] h = refl
Lacks-newline (c ∷ s) h = ground (arith, Lacks-newline s)

-- a line without an end of its own, before a line feed
lines_by-line :
    (p : ℕ → Bool) (l s : String)
    → p 10 ≡ true
    → Lacks p l
    → lines_by p false (String.◌++◌ l (String.◌++◌ "\n" s)) ≡ List.◌∷◌ l (lines_by p false s)
unfolding has_any lines_by
lines_by-line p [] s ten h = rw (nil-append, cons-append, nil-append) (rw ten refl)
lines_by-line p (c ∷ l) s ten h = rw cons-append (ground (arith, lines_by-line p l s ten))

grow_line-Lacks :
    (p : ℕ → Bool) (c : Char) (ls : List String)
    → p (code c) ≡ false
    → All (Lacks p) ls
    → All (Lacks p) (grow_line c ls)
unfolding has_any
grow_line-Lacks p c List.[] plain h = (rw plain refl, tt)
grow_line-Lacks p c (List.◌∷◌ l ls) plain (hl, h) = (rw plain hl, h)

step-Lacks :
    (p : ℕ → Bool) (skip ends : Bool) (c : Char) (ls : List String)
    → p (code c) ≡ ends
    → All (Lacks p) ls
    → All (Lacks p) (if skip then ls else if ends then List.◌∷◌ "" ls else grow_line c ls)
unfolding has_any
step-Lacks p true ends c ls e h = h
step-Lacks p false true c ls e h = (refl, h)
step-Lacks p false false c ls e h = grow_line-Lacks p c ls e h

-- the lines that end at the characters of `p` hold none of them
lines_by-Lacks :
    (p : ℕ → Bool) (after_cr : Bool) (s : String) → All (Lacks p) (lines_by p after_cr s)
unfolding lines_by
lines_by-Lacks p after_cr [] = tt
lines_by-Lacks p after_cr (c ∷ s) =
    step-Lacks p (after_cr && code c == 10) (p (code c)) c _ refl
      (lines_by-Lacks p (p (code c) && code c == 13) s)

lines_by-joined :
    (l : String) (ls : List String)
    → All (Lacks is_newline) (List.◌∷◌ l ls)
    → received_lines (String.◌++◌ (join_lines (List.◌∷◌ l ls)) "\n\n")
      ≡ List.◌∷◌ l ls ++ List.◌∷◌ "" List.[]
unfolding received_lines join_lines
lines_by-joined l List.[] (h, hs) = lines_by-line is_newline l "\n" refl h
lines_by-joined l (List.◌∷◌ m ls) (h, hs) =
    rw (append_assoc, append_assoc)
      (lines_by-line is_newline l _ refl h
        ∙ ap (λ (x : List String). List.◌∷◌ l x) (lines_by-joined m ls hs))

prefixed-Lacks :
    (label : String) (ls : List String)
    → Lacks is_newline label
    → All (Lacks is_newline) ls
    → All (Lacks is_newline) (map (λ l. String.◌++◌ label l) ls)
prefixed-Lacks label List.[] no_end h = tt
prefixed-Lacks label (List.◌∷◌ l ls) no_end (hl, h) =
    (Lacks-append is_newline label l no_end hl, prefixed-Lacks label ls no_end h)

or_blank-Lacks :
    (ls : List String) → All (Lacks is_newline) ls → All (Lacks is_newline) (or_blank ls)
unfolding has_any
or_blank-Lacks List.[] h = (refl, tt)
or_blank-Lacks (List.◌∷◌ l ls) h = h

id_lines-Lacks :
    (event_id : Option String)
    → has_newline event_id ≡ false
    → All (Lacks is_newline) (id_lines event_id)
unfolding has_any
id_lines-Lacks none h = tt
id_lines-Lacks (some id) h = (Lacks-append is_newline "id: " id refl h, tt)

message_lines-Lacks :
    (payload : String) (event_id : Option String)
    → has_newline event_id ≡ false
    → All (Lacks is_newline) (message_lines payload event_id)
unfolding splitlines has_any
message_lines-Lacks payload event_id h =
    All-append (Lacks is_newline) (id_lines event_id) _ (id_lines-Lacks event_id h) (
      prefixed-Lacks "data: " (or_blank (splitlines payload)) refl (
        or_blank-Lacks (splitlines payload) (
          All-map (Lacks is_boundary) (Lacks is_newline) Lacks-newline (splitlines payload)
            (lines_by-Lacks is_boundary false payload))))

received-joined :
    (ls ms : List String)
    → All (Lacks is_newline) (ls ++ map data_line (or_blank ms))
    → received_lines (String.◌++◌ (join_lines (ls ++ map data_line (or_blank ms))) "\n\n")
      ≡ (ls ++ map data_line (or_blank ms)) ++ List.◌∷◌ "" List.[]
received-joined List.[] List.[] h = lines_by-joined _ _ h
received-joined List.[] (List.◌∷◌ m ms) h = lines_by-joined _ _ h
received-joined (List.◌∷◌ l ls) ms h = lines_by-joined _ _ h

-- Of an encoded message a reader finds exactly the id line, when there is an event id, then one data
-- line for each line of the payload, then the one blank line that ends the message: neither the
-- payload nor the event id can end the message early or add a field to it.
pub encode_sse-received :
    (payload : String) (event_id : Option String) (sent : String)
    → encode_sse payload event_id ≡ ok sent
    → received_lines sent ≡ message_lines payload event_id ++ List.◌∷◌ "" List.[]
unfolding encode_sse
encode_sse-received payload event_id sent h =
    let (no_end, made) = raise_if-eq-ok (has_newline event_id) event_id_newline _ h in
    rw (← ok-injective made) (
      received-joined (id_lines event_id) (splitlines payload)
        (message_lines-Lacks payload event_id no_end))

neither : (a b : Bool) → (a || b) ≡ false → (a ≡ false) × (b ≡ false)
neither true b h = cc
neither false b h = (refl, h)

lines_by-plain :
    (p : ℕ → Bool) (c : Char) (s : String)
    → p (code c) ≡ false
    → lines_by p false (c ∷ s) ≡ grow_line c (lines_by p false s)
unfolding lines_by
lines_by-plain p c s h = rw h refl

lines_by-whole :
    (p : ℕ → Bool) (c : Char) (s : String)
    → Lacks p (c ∷ s)
    → lines_by p false (c ∷ s) ≡ List.◌∷◌ (c ∷ s) List.[]
unfolding lines_by has_any
lines_by-whole p c [] h = lines_by-plain p c "" (neither (p (code c)) false h).0
lines_by-whole p c (d ∷ s) h =
    let (plain, rest) = neither (p (code c)) _ h in
    lines_by-plain p c (d ∷ s) plain ∙ ap (grow_line c) (lines_by-whole p d s rest)

id_lines-then :
    (event_id : Option String) (l : String) (ls : List String)
    → (id_lines event_id ++ List.◌∷◌ l List.[]) ++ ls ≡ id_lines event_id ++ List.◌∷◌ l ls
id_lines-then none l ls = refl
id_lines-then (some id) l ls = refl

-- A payload that is not empty and holds no character that `splitlines` ends a line at reaches the
-- reader whole, in one data line.
pub encode_sse-whole :
    (payload : String) (event_id : Option String)
    → payload ≢ ""
    → has_newline event_id ≡ false
    → Lacks is_boundary payload
    → (sent : String) × (encode_sse payload event_id ≡ ok sent)
      × (received_lines sent
          ≡ id_lines event_id ++ List.◌∷◌ (data_line payload) (List.◌∷◌ "" List.[]))
unfolding encode_sse splitlines
encode_sse-whole [] event_id some_text h whole = absurd (some_text refl)
encode_sse-whole (c ∷ payload) event_id some_text h whole =
    let sent = String.◌++◌ (join_lines (message_lines (c ∷ payload) event_id)) "\n\n" in
    let built : encode_sse (c ∷ payload) event_id ≡ ok sent = rw h refl in
    let single =
      ap (λ ls. id_lines event_id ++ map data_line (or_blank ls))
        (lines_by-whole is_boundary c payload whole) in
    (
      sent,
      built,
      encode_sse-received (c ∷ payload) event_id sent built
          ∙ ap (λ ls. ls ++ List.◌∷◌ "" List.[]) single
          ∙ id_lines-then event_id (data_line (c ∷ payload)) (List.◌∷◌ "" List.[]),
    )
