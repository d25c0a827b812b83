-- ===== src/Http/Listeners.antt =====
-- What the listeners of http.go are given.
use mathlib.Core.Path.{subst}
use httptap.Shared.{
  ℕ, suc, ◌≡◌, ◌≢◌, refl, ap, sym, ◌∙◌, inl, inr, true, none, some, Option, List, [], ◌∷◌, ◌++◌,
  map, append-nil, append_assoc, leb, if◌then◌else◌, arith,
}
use httptap.Http.{
  HttpCall, Listener, Holder, free, sending, HttpLog, new_log, listen_http, listener_at, Ending,
  done, waits, panics, pushed, sent_to, send_next, notify_http, close_all, finish_http, take_one,
  receive, change_at,
}
use httptap.Http.Positions.{
  listener_at-map_inv, listener_at-append_inv, listener_at-past, change_at-inv,
}

-- One event: a listener is added, a call is recorded, the next listener is told of it, a listener
-- receives, all are closed. Who locks httpMu finds it free.
pub data Step (s : HttpLog) (t : HttpLog) : Type 0 where
  listen : s.holder ≡ free → t ≡ (listen_http s).0 → Step s t
  notify : (call : HttpCall) → s.holder ≡ free → t ≡ notify_http call s → Step s t
  send : send_next s ≡ done t → Step s t
  take : (i : ℕ) → t ≡ record s { listeners = receive i s.listeners } → Step s t
  finish : s.holder ≡ free → finish_http s ≡ done t → Step s t

pub data Reach (s : HttpLog) : HttpLog → Type 0 where
  here : Reach s s
  next : {t u : HttpLog} → Reach s t → Step t u → Reach s u

-- The call that notifyHTTP has still to send to the listener `j`.
abbrev pub due : Holder → ℕ → List HttpCall
due free j = []
due (sending call i) j = if leb i j then call ∷ [] else []

-- What a listener was given at first, has received, will find in its channel and is to be sent.
abbrev pub Sees : List HttpCall → List HttpCall → Listener → Type 0
Sees calls coming l = l.history ++ (l.received ++ (l.chan.items ++ coming)) ≡ calls

abbrev pub SeesAll : HttpLog → Type 0
SeesAll s =
    (j : ℕ) (l : Listener) → listener_at j s.listeners ≡ some l → Sees s.calls (due s.holder j) l

-- More calls at the end, which the listener is to be sent.
later-Sees :
    (calls new : List HttpCall) (l : Listener) → Sees calls [] l → Sees (calls ++ new) new l
later-Sees calls new l h =
    regroup l.history l.received l.chan.items
    ∙ ap (λ x. x ++ new)
        (ap (λ x. l.history ++ (l.received ++ x)) (sym (append-nil l.chan.items)) ∙ h)
  where
    regroup : (a b c : List HttpCall) → a ++ (b ++ (c ++ new)) ≡ (a ++ (b ++ c)) ++ new
    regroup a b c =
        ap (λ x. a ++ x) (sym (append_assoc b c new)) ∙ sym (append_assoc a (b ++ c) new)

-- The call that was to be sent stands in the channel.
pushed-Sees :
    (call : HttpCall) (calls : List HttpCall) (l : Listener)
    → Sees calls (call ∷ []) l
    → Sees calls [] (pushed call l)
pushed-Sees call calls l h =
    ap (λ x. l.history ++ (l.received ++ x)) (append-nil (l.chan.items ++ call ∷ [])) ∙ h

take_one-Sees :
    (calls coming items : List HttpCall) (l : Listener)
    → l.chan.items ≡ items
    → Sees calls coming l
    → Sees calls coming (take_one l items)
take_one-Sees calls coming [] l e h = h
take_one-Sees calls coming (c ∷ cs) l e h =
    ap (λ x. l.history ++ x)
      (append_assoc l.received (c ∷ []) (cs ++ coming)
        ∙ ap (λ x. l.received ++ (x ++ coming)) (sym e))
    ∙ h

listen-SeesAll : (s : HttpLog) → s.holder ≡ free → SeesAll s → SeesAll (listen_http s).0
unfolding listen_http
listen-SeesAll s f h j l at = elim (listener_at-append_inv j s.listeners _ l at) [
  | inl old ↦ h j l old
  | inr new ↦ let none_due = ap (λ x. due x j) f in rw (new, none_due) (append-nil s.calls)
]

-- Of the loop that goes on to the next listener, only the one that it comes from is done with.
pub due-suc :
    (call : HttpCall) (i j : ℕ) → i ≢ j → due (sending call i) j ≡ due (sending call (suc i)) j
due-suc call i j d = ground arith

pub due-own : (call : HttpCall) (i : ℕ) → due (sending call i) i ≡ call ∷ []
due-own call i = ground arith

pub due-first : (call : HttpCall) (j : ℕ) → due (sending call 0) j ≡ call ∷ []
due-first call j = ground arith

pub due-next : (call : HttpCall) (i : ℕ) → due (sending call (suc i)) i ≡ []
due-next call i = ground arith

notify-SeesAll :
    (s : HttpLog) (call : HttpCall) → s.holder ≡ free → SeesAll s → SeesAll (notify_http call s)
unfolding notify_http
notify-SeesAll s call f h j l at =
    rw (due-first call j)
      (later-Sees s.calls (call ∷ []) l (subst (λ x. Sees s.calls (due x j) l) f (h j l at)))

send-SeesAll : (s t : HttpLog) → send_next s ≡ done t → SeesAll s → SeesAll t
unfolding send_next
send-SeesAll s t e h = held s.holder refl
  where
    told :
        (call : HttpCall) (i : ℕ) (o : Option Listener)
        → s.holder ≡ sending call i
        → listener_at i s.listeners ≡ o
        → sent_to s call i o ≡ done t
        → SeesAll t
    told call i none hs at sent =
        let t_is : record s { holder = free } ≡ t = ground arith in
        subst SeesAll t_is λ j l here.
          let none_due : due (sending call i) j ≡ [] =
            ground (arith, listener_at-past i j s.listeners l at here) in
          subst (λ d. Sees s.calls d l) (ap (λ x. due x j) hs ∙ none_due) (h j l here)
    told call i (some k) hs at sent =
        let after : HttpLog = record s {
          listeners = change_at i (pushed call) s.listeners;
          holder = sending call (suc i);
        } in
        let t_is : after ≡ t = ground arith in
        subst SeesAll t_is λ j l here. elim (change_at-inv (pushed call) j i s.listeners l here) [
          | inl (other, old) ↦
              subst (λ d. Sees s.calls d l) (ap (λ x. due x j) hs ∙ due-suc call i j other)
                (h j l old)
          | inr (m, same, old, is_l) ↦
              let own : due s.holder j ≡ call ∷ [] =
                ap (λ x. due x j) hs ∙ ap (due (sending call i)) (sym same) ∙ due-own call i in
              let past : due (sending call (suc i)) j ≡ [] =
                ap (due (sending call (suc i))) (sym same) ∙ due-next call i in
              rw (is_l, past)
                (pushed-Sees call s.calls m (subst (λ d. Sees s.calls d m) own (h j m old)))
        ]

    held : (x : Holder) → s.holder ≡ x → SeesAll t
    held free hs = let t_is : s ≡ t = ground arith in subst SeesAll t_is h
    held (sending call i) hs = told call i (listener_at i s.listeners) hs refl (ground arith)

take-SeesAll :
    (s : HttpLog) (i : ℕ) → SeesAll s → SeesAll (record s { listeners = receive i s.listeners })
unfolding receive
take-SeesAll s i h j l at =
    elim (change_at-inv (λ l. take_one l l.chan.items) j i s.listeners l at) [
      | inl (other, old) ↦ h j l old
      | inr (k, same, old, is_l) ↦
          rw is_l (take_one-Sees s.calls (due s.holder j) k.chan.items k refl (h j k old))
    ]

abbrev pub closed : Listener → Listener
closed l = record l { chan = record l.chan { closed = true } }

close_all-done : (ls ls' : List Listener) → close_all ls ≡ done ls' → ls' ≡ map closed ls
unfolding close_all
close_all-done [] ls' e = ground arith
close_all-done (l ∷ ls) ls' e = step (close_all ls) refl e (close_all-done ls)
  where
    step :
        (x : Ending (List Listener))
        → close_all ls ≡ x
        → close_all (l ∷ ls) ≡ done ls'
        → ((r : List Listener) → close_all ls ≡ done r → r ≡ map closed ls)
        → ls' ≡ map closed (l ∷ ls)
    step (done r) hx e ih = ground (arith, ih r hx)
    step waits hx e ih = ground arith
    step panics hx e ih = ground arith

pub finish_http-done :
    (s t : HttpLog) → finish_http s ≡ done t → t ≡ record s { listeners = map closed s.listeners }
unfolding finish_http
finish_http-done s t e = step (close_all s.listeners) refl
  where
    step :
        (x : Ending (List Listener))
        → close_all s.listeners ≡ x
        → t ≡ record s { listeners = map closed s.listeners }
    step (done r) hx =
        let t_is : record s { listeners = r } ≡ t = ground arith in
        sym t_is ∙ ap (λ ls. record s { listeners = ls }) (close_all-done s.listeners r hx)
    step waits hx = absurd (ground arith)
    step panics hx = absurd (ground arith)

finish-SeesAll : (s t : HttpLog) → finish_http s ≡ done t → SeesAll s → SeesAll t
finish-SeesAll s t e h = subst SeesAll (sym (finish_http-done s t e)) λ j l at.
    let (k, old, is_l) = listener_at-map_inv closed j s.listeners l at in rw is_l (h j k old)

Step-SeesAll : {s t : HttpLog} → Step s t → SeesAll s → SeesAll t
Step-SeesAll {s} (listen f e) h = subst SeesAll (sym e) (listen-SeesAll s f h)
Step-SeesAll {s} (notify call f e) h = subst SeesAll (sym e) (notify-SeesAll s call f h)
Step-SeesAll {s} {t = u} (send e) h = send-SeesAll s u e h
Step-SeesAll {s} (take i e) h = subst SeesAll (sym e) (take-SeesAll s i h)
Step-SeesAll {s} {t = u} (finish f e) h = finish-SeesAll s u e h

pub listeners_miss_nothing : {s : HttpLog} → Reach new_log s → SeesAll s
listeners_miss_nothing here = λ j l at. absurd (ground arith)
listeners_miss_nothing (next r st) = Step-SeesAll st (listeners_miss_nothing r)

-- A call that is recorded after the listeners have been closed panics at the first one.
pub notify_after_finish :
    (s t : HttpLog) (l : Listener) (ls : List Listener) (call : HttpCall)
    → s.listeners ≡ l ∷ ls
    → finish_http s ≡ done t
    → send_next (notify_http call t) ≡ panics
unfolding notify_http send_next
notify_after_finish s t l ls call hl e =
    let told : t.listeners ≡ closed l ∷ map closed ls =
      ap (λ (u : HttpLog). u.listeners) (finish_http-done s t e) ∙ ap (map closed) hl in
    ap (λ k. sent_to (notify_http call t) call 0 (listener_at 0 k)) told
