-- ===== src/Http/Web/Events.antt =====
-- What the handler of /api/calls in Main of httptap.go writes: an event stream with one event for
-- each call. The JSON of a call is a parameter; Encode writes it with a newline after it.
use httptap.Shared.{
  ◌≡◌, refl, ap, sym, ◌∙◌, Bool, false, ◌==◌, Option, none, some, List, [], ◌∷◌, ◌++◌, map,
  append-nil, append_assoc, All, Text, codes, if◌then◌else◌,
}
use httptap.Http.{Header, HttpCall}

-- The header fields that are set before the first event.
unfoldable event_header : Header
event_header =
    (codes "Access-Control-Allow-Origin", codes "*" ∷ [])
    ∷ (codes "Access-Control-Expose-Headers", codes "Content-Type" ∷ [])
    ∷ (codes "Content-Type", codes "text/event-stream" ∷ [])
    ∷ (codes "Content-Encoding", codes "none" ∷ [])
    ∷ (codes "Cache-Control", codes "no-cache" ∷ [])
    ∷ (codes "Connection", codes "keep-alive" ∷ [])
    ∷ []

module _ (json : HttpCall → Text) where
  -- The JSON of a pointer.
  abbrev pub json_of : Option HttpCall → Text
  json_of none = codes "null"
  json_of (some c) = json c

  -- The three writes of one round.
  unfoldable pub event : Option HttpCall → Text
  event c = codes "data: " ++ ((json_of c ++ codes "\n") ++ codes "\n\n")

  unfoldable pub event_stream : List (Option HttpCall) → Text
  unfolding event
  event_stream [] = []
  event_stream (c ∷ cs) = event c ++ event_stream cs

-- How a browser reads an event stream without carriage returns, as the HTML standard has it: its
-- complete lines, where `line` is what has been read of the first one.
abbrev lines_from : Text → Text → List Text
lines_from line [] = []
lines_from line (c ∷ t) =
    let ended = line ∷ lines_from [] t in
    let goes_on = lines_from (line ++ c ∷ []) t in if c == b'\n' then ended else goes_on

-- The value of a field `data`: what follows the colon and one space.
abbrev without_space : Text → Text
without_space [] = []
without_space (c ∷ t) = if c == b' ' then t else c ∷ t

abbrev field : Text → Text → Option Text
field [] [] = none
field [] (c ∷ t) = if c == b':' then some (without_space t) else none
field (n ∷ name) [] = none
field (n ∷ name) (c ∷ t) = let rest = field name t in if n == c then rest else none

abbrev joined : Option Text → Option Text → Option Text
joined buffer none = buffer
joined none (some v) = some v
joined (some d) (some v) = some (d ++ (b'\n' ∷ v))

-- An empty line dispatches an event, if there is data.
abbrev events_from : Option Text → List Text → List Text
events_from buffer [] = []
events_from none ([] ∷ ls) = events_from none ls
events_from (some d) ([] ∷ ls) = d ∷ events_from none ls
events_from buffer ((c ∷ l) ∷ ls) = events_from (joined buffer (field (codes "data") (c ∷ l))) ls

abbrev pub read_events : Text → List Text
read_events t = events_from none (lines_from [] t)

-- A text of one line.
abbrev pub IsLine : Text → Type 0
IsLine t = All (λ c. (c == b'\n') ≡ false) t

lines_from-line :
    (line t rest : Text)
    → IsLine t
    → lines_from line (t ++ (b'\n' ∷ rest)) ≡ (line ++ t) ∷ lines_from [] rest
lines_from-line line [] rest h = ap (λ l. l ∷ lines_from [] rest) (sym (append-nil line))
lines_from-line line (c ∷ t) rest h =
    ap
      (λ (b : Bool).
        if b
        then line ∷ lines_from [] (t ++ (b'\n' ∷ rest))
        else lines_from (line ++ c ∷ []) (t ++ (b'\n' ∷ rest)))
      h.0
    ∙ lines_from-line (line ++ c ∷ []) t rest h.1
    ∙ ap (λ l. l ∷ lines_from [] rest) (append_assoc line (c ∷ []) t)

-- Where the JSON of a call is one line, a browser reads from what the handler has written exactly
-- the JSON of the calls, one event for each, in their order; nil is read as null.
pub read_events-event_stream :
    (json : HttpCall → Text)
    → ((c : HttpCall) → IsLine (json c))
    → (cs : List (Option HttpCall)) → read_events (event_stream json cs) ≡ map (json_of json) cs
unfolding event_stream
read_events-event_stream json h [] = refl
read_events-event_stream json h (c ∷ cs) =
    let rest = event_stream json cs in
    let t = json_of json c in
    let is_line : IsLine t = elim c as (λ x. IsLine (json_of json x)) [
      | none ↦ (refl, (refl, (refl, (refl, tt))))
      | some x ↦ h x
    ] in
    let written : ((t ++ codes "\n") ++ codes "\n\n") ++ rest
        ≡ t ++ (b'\n' ∷ b'\n' ∷ b'\n' ∷ rest) =
      append_assoc (t ++ codes "\n") (codes "\n\n") rest
      ∙ append_assoc t (codes "\n") (b'\n' ∷ b'\n' ∷ rest) in
    ap (λ u. events_from none (lines_from (codes "data: ") u)) written
    ∙ ap (events_from none) (lines_from-line (codes "data: ") t (b'\n' ∷ b'\n' ∷ rest) is_line)
    ∙ ap (λ l. t ∷ l) (read_events-event_stream json h cs)
