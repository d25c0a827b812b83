-- ===== src/Http/Terminal/Printed.antt =====
-- What the terminal prints of the recorded calls.
use httptap.Shared.{
  ℕ, zero, suc, ◌≡◌, refl, ap, sym, ◌∙◌, Bool, true, false, Option, none, some, List, [], ◌∷◌, ◌++◌,
  Text, codes, arith,
}
use mathlib.Core.Path.{subst}
use httptap.Http.{
  Header, HttpCall, Listener, Holder, free, sending, HttpLog, new_log, listen_http, listener_at,
  done, receive, pushed, notify_http, sent_to, send_next, change_at,
}
use httptap.Http.Positions.{
  listener_at-map, listener_at-append, change_at-other, change_at-same, map_option,
  take_one-history,
}
use httptap.Http.Listeners.{
  Step, listen, notify, send, take, finish, Reach, here, next, Sees, due, closed,
  listeners_miss_nothing, finish_http-done,
}
use httptap.Http.Terminal.{
  Output, blue, colored, logged, response_color, request_line, response_line, logged_values,
  logged_header, logged_body, when, print_request, print_response, print_calls,
}

-- The lines in a colour, without what the options add.
abbrev pub colored_of : List Output → List Output
colored_of [] = []
colored_of (colored c t ∷ out) = colored c t ∷ colored_of out
colored_of (logged t ∷ out) = colored_of out

-- The two lines of each call.
abbrev pub summary : List HttpCall → List Output
summary [] = []
summary (c ∷ cs) =
    colored blue (request_line c.request)
    ∷ (colored (response_color c.response.status_code) (response_line c) ∷ summary cs)

summary-append : (cs ds : List HttpCall) → summary (cs ++ ds) ≡ summary cs ++ summary ds
summary-append [] ds = refl
summary-append (c ∷ cs) ds =
    ap
      (λ l.
        colored blue (request_line c.request)
        ∷ (colored (response_color c.response.status_code) (response_line c) ∷ l))
      (summary-append cs ds)

colored_of-append : (a b : List Output) → colored_of (a ++ b) ≡ colored_of a ++ colored_of b
colored_of-append [] b = refl
colored_of-append (colored c t ∷ a) b = ap (λ l. colored c t ∷ l) (colored_of-append a b)
colored_of-append (logged t ∷ a) b = colored_of-append a b

values_uncolored : (mark key : Text) (vs : List Text) → colored_of (logged_values mark key vs) ≡ []
values_uncolored mark key [] = refl
values_uncolored mark key (v ∷ vs) = values_uncolored mark key vs

header_uncolored : (mark : Text) (h : Header) → colored_of (logged_header mark h) ≡ []
unfolding logged_header
header_uncolored mark [] = refl
header_uncolored mark ((key, vs) ∷ h) =
    colored_of-append (logged_values mark key vs) (logged_header mark h)
    ∙ ap (λ l. l ++ colored_of (logged_header mark h)) (values_uncolored mark key vs)
    ∙ header_uncolored mark h

when_uncolored : (b : Bool) (out : List Output) → colored_of out ≡ [] → colored_of (when b out) ≡ []
when_uncolored true out h = h
when_uncolored false out h = refl

body_uncolored : (b : List ℕ) → colored_of (logged_body b) ≡ []
body_uncolored [] = refl
body_uncolored (c ∷ b) = refl

options_uncolored :
    (head body : Bool) (mark : Text) (h : Header) (b : List ℕ)
    → colored_of (when head (logged_header mark h) ++ when body (logged_body b)) ≡ []
options_uncolored head body mark h b =
    colored_of-append (when head (logged_header mark h)) (when body (logged_body b))
    ∙ ap (λ l. l ++ colored_of (when body (logged_body b)))
        (when_uncolored head (logged_header mark h) (header_uncolored mark h))
    ∙ when_uncolored body (logged_body b) (body_uncolored b)

pub print_calls-summary :
    (head body : Bool) (cs : List HttpCall) → colored_of (print_calls head body cs) ≡ summary cs
unfolding print_calls print_request print_response
print_calls-summary head body [] = refl
print_calls-summary head body (c ∷ cs) =
    colored_of-append (print_request head body c.request ++ print_response head body c)
      (print_calls head body cs)
    ∙ ap (λ l. l ++ colored_of (print_calls head body cs))
        (colored_of-append (print_request head body c.request) (print_response head body c)
          ∙ ap
              (λ l.
                (colored blue (request_line c.request) ∷ l)
                ++ colored_of (print_response head body c))
              (options_uncolored head body (codes "> ") c.request.header c.request.body)
          ∙ ap
              (λ l.
                colored blue (request_line c.request)
                ∷ (colored (response_color c.response.status_code) (response_line c) ∷ l))
              (options_uncolored head body (codes "< ") c.response.header c.response.body))
    ∙ ap
        (λ l.
          colored blue (request_line c.request)
          ∷ (colored (response_color c.response.status_code) (response_line c) ∷ l))
        (print_calls-summary head body cs)

-- One step before others.
Reach-after : {s t u : HttpLog} → Step s t → Reach t u → Reach s u
Reach-after st here = next here st
Reach-after st (next r st') = next (Reach-after st r) st'

-- The first listener is there, and was given no history.
abbrev HasFirst : HttpLog → Type 0
HasFirst s = (l : Listener) × (listener_at 0 s.listeners ≡ some l) × (l.history ≡ [])

change-HasFirst :
    (f : Listener → Listener) (i : ℕ) (s : HttpLog) (h : Holder)
    → ((l : Listener) → (f l).history ≡ l.history)
    → HasFirst s
    → HasFirst (record s { listeners = change_at i f s.listeners; holder = h })
change-HasFirst f zero s h keeps (l, at, e) =
    (f l, change_at-same f 0 s.listeners ∙ ap (map_option f) at, keeps l ∙ e)
change-HasFirst f (suc i) s h keeps (l, at, e) =
    (l, change_at-other f 0 (suc i) s.listeners (λ d. ground arith) ∙ at, e)

send-HasFirst : (s t : HttpLog) → send_next s ≡ done t → HasFirst s → HasFirst t
unfolding send_next
send-HasFirst s t e h = held s.holder refl
  where
    told :
        (call : HttpCall) (i : ℕ) (o : Option Listener) → sent_to s call i o ≡ done t → HasFirst t
    told call i none sent =
        let t_is : record s { holder = free } ≡ t = ground arith in subst HasFirst t_is h
    told call i (some k) sent =
        let next_log : HttpLog = record s {
          listeners = change_at i (pushed call) s.listeners;
          holder = sending call (suc i);
        } in
        let t_is : next_log ≡ t = ground arith in
        subst HasFirst t_is (change-HasFirst (pushed call) i s (sending call (suc i)) (λ l. refl) h)

    held : (x : Holder) → s.holder ≡ x → HasFirst t
    held free hs = let t_is : s ≡ t = ground arith in subst HasFirst t_is h
    held (sending call i) hs = told call i (listener_at i s.listeners) (ground arith)

Step-HasFirst : {s t : HttpLog} → Step s t → HasFirst s → HasFirst t
unfolding listen_http notify_http receive
Step-HasFirst {s} (listen f e) (l, at, h) =
    subst HasFirst (sym e) (l, listener_at-append 0 s.listeners _ l at, h)
Step-HasFirst {s} (notify call f e) h = subst HasFirst (sym e) h
Step-HasFirst {s} {t = u} (send e) h = send-HasFirst s u e h
Step-HasFirst {s} (take i e) h =
    subst HasFirst (sym e) (change-HasFirst _ i s s.holder (λ l. take_one-history l l.chan.items) h)
Step-HasFirst {s} {t = u} (finish f e) (l, at, h) =
    subst HasFirst (sym (finish_http-done s u e))
      (closed l, listener_at-map closed 0 s.listeners ∙ ap (map_option closed) at, h)

-- The log when the terminal listens: nothing is recorded before.
abbrev at_start : HttpLog
at_start = (listen_http new_log).0

Reach-HasFirst : {s : HttpLog} → Reach at_start s → HasFirst s
unfolding listen_http
Reach-HasFirst here = (_, refl, refl)
Reach-HasFirst (next r st) = Step-HasFirst st (Reach-HasFirst r)

-- The terminal listens before any call is recorded. However calls are recorded, other listeners
-- are added, listeners receive and all are closed, up to the first send on a closed channel, and
-- whatever the options --head and --body: the coloured lines of what the terminal prints for the
-- calls that it has received are two for each, the request and, in the colour of its status, the
-- response; these, and those of the calls that are still to come to it, are the lines of all
-- recorded calls, in order.
pub terminal_prints_all :
    (head body : Bool) {s : HttpLog}
    → Reach at_start s
    → (l : Listener) × (listener_at 0 s.listeners ≡ some l)
      × (colored_of (print_calls head body l.received) ++ summary (l.chan.items ++ due s.holder 0)
          ≡ summary s.calls)
terminal_prints_all head body {s} r =
    let (l, at, h) = Reach-HasFirst r in
    let sees : Sees s.calls (due s.holder 0) l =
      listeners_miss_nothing (Reach-after (listen refl refl) r) 0 l at in
    (
      l,
      at,
      ap (λ a. a ++ summary (l.chan.items ++ due s.holder 0))
            (print_calls-summary head body l.received)
          ∙ sym (summary-append l.received (l.chan.items ++ due s.holder 0))
          ∙ ap summary
              (ap (λ a. a ++ (l.received ++ (l.chan.items ++ due s.holder 0))) (sym h) ∙ sees),
    )
