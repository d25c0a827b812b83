-- ===== src/Http/Web/Delivered.antt =====
-- What a client of /api/calls reads, from its first request on.
use mathlib.Core.Path.{subst}
use httptap.Shared.{
  ℕ, zero, suc, ◌≡◌, ◌⊎◌, inl, refl, ap, sym, ◌∙◌, Bool, true, false, some, List, [], ◌∷◌, ◌++◌,
  map, Text, if◌then◌else◌, codes,
}
use httptap.Http.{HttpCall, Listener, free, HttpLog, new_log, listen_http, listener_at, receive}
use httptap.Http.Positions.{listener_at-end}
use httptap.Http.Listeners.{
  listen, notify, send, take, finish, Reach, next, Sees, due, listeners_miss_nothing,
}
use httptap.Http.Web.{Client, got, Ready, call_ready, request_done, open_client, serve_client}
use httptap.Http.Web.Events.{IsLine, json_of, event_stream, read_events, read_events-event_stream}
use httptap.Http.Web.Served.{
  WebStep, listens, notifies, sends, takes, finishes, serves, WebReach, opened, after,
  calls_then_nils, IsServed, WebStep-IsServed,
}

-- A round of the loop is a receipt of the log, or leaves it.
serve-Reach :
    (r : Ready) (s : HttpLog) (v : Client)
    → Reach new_log s
    → Reach new_log (serve_client r (s, v)).0
unfolding serve_client
serve-Reach request_done s v reach = reach
serve-Reach call_ready s v reach = served v.gone
  where
    served :
        (b : Bool)
        → let x : HttpLog × Client = if b then (s, v) else (
          record s { listeners = receive v.listener s.listeners },
          record v { sent = v.sent ++ got (listener_at v.listener s.listeners) },
        ) in
          Reach new_log x.0
    served true = reach
    served false = next reach (take v.listener refl)

WebStep-Reach : {x y : HttpLog × Client} → WebStep x y → Reach new_log x.0 → Reach new_log y.0
WebStep-Reach (listens f e) r = next r (listen f (ap (λ (z : HttpLog × Client). z.0) e))
WebStep-Reach (notifies call f e) r = next r (notify call f (ap (λ (z : HttpLog × Client). z.0) e))
WebStep-Reach (sends e v) r = next r (send e)
WebStep-Reach (takes j other e) r = next r (take j (ap (λ (z : HttpLog × Client). z.0) e))
WebStep-Reach (finishes f e v) r = next r (finish f e)
WebStep-Reach {x} (serves q e) r =
    subst (λ (z : HttpLog × Client). Reach new_log z.0) (sym e) (serve-Reach q x.0 x.1 r)

abbrev pub nulls : ℕ → List Text
nulls zero = []
nulls (suc k) = codes "null" ∷ nulls k

json-nils :
    (json : HttpCall → Text) (cs : List HttpCall) (k : ℕ)
    → map (json_of json) (calls_then_nils cs k) ≡ map json cs ++ nulls k
json-nils json [] zero = refl
json-nils json [] (suc k) = ap (λ l. codes "null" ∷ l) (json-nils json [] k)
json-nils json (c ∷ cs) k = ap (λ l. json c ∷ l) (json-nils json cs k)

module _ (s : HttpLog) (reached : Reach new_log s) (unlocked : s.holder ≡ free) where
  open-IsServed : IsServed s.calls (open_client s)
  unfolding open_client listen_http
  open-IsServed = (_, 0, listener_at-end s.listeners _, refl, refl, inl refl)

  open-Reach : Reach new_log (open_client s).0
  unfolding open_client
  open-Reach = next reached (listen unlocked refl)

  WebReach-holds :
      {y : HttpLog × Client} → WebReach (open_client s) y → IsServed s.calls y × Reach new_log y.0
  WebReach-holds opened = (open-IsServed, open-Reach)
  WebReach-holds (after r st) =
      let (h, k) = WebReach-holds r in (WebStep-IsServed s.calls st h, WebStep-Reach st k)

  -- A client of /api/calls that comes when the log is `s` and httpMu is free. However from then on
  -- calls are recorded, other listeners are added or receive, all are closed, and the loop of the
  -- client goes round, up to the first send on a closed channel: what a browser reads from the bytes
  -- that have been written to the client is the JSON of some calls, each as one event, and then the
  -- event null some times. These calls and those that are still to come to the client, in its
  -- channel or from notifyHTTP, are the calls recorded since it came, in order. The event null comes
  -- only once the channel is closed and empty. The JSON of a call is taken to be one line.
  pub client_reads_calls :
      (json : HttpCall → Text)
      → ((c : HttpCall) → IsLine (json c))
      → {t : HttpLog} {v : Client} → WebReach (open_client s) (t, v)
      → (l : Listener) × (read : List HttpCall) × (k : ℕ) × (listener_at v.listener t.listeners
          ≡ some l)
        × (read_events (event_stream json v.sent) ≡ map json read ++ nulls k)
        × (t.calls ≡ s.calls ++ (read ++ (l.chan.items ++ due t.holder v.listener)))
        × ((k ≡ 0) ⊎ ((l.chan.items ≡ []) × (l.chan.closed ≡ true)))
  client_reads_calls json line {t} {v} r =
      let ((l, k, at, h, sent, x), reach) = WebReach-holds r in
      let sees : Sees t.calls (due t.holder v.listener) l =
        listeners_miss_nothing reach v.listener l at in
      (
        l,
        l.received,
        k,
        at,
        read_events-event_stream json line v.sent
            ∙ ap (map (json_of json)) sent
            ∙ json-nils json l.received k,
        sym sees ∙ ap (λ a. a ++ (l.received ++ (l.chan.items ++ due t.holder v.listener))) h,
        x,
      )
