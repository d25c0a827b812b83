-- ===== src/Http/Web/Served.antt =====
-- A client of /api/calls with the log: their steps, and what the client has been sent.
use mathlib.Core.Path.{subst}
use mathlib.Core.Option.{some-injective}
use mathlib.Core.List.{map-append}
use httptap.Shared.{
  ℕ, ◌==◌, Bool-cases, zero, suc, ◌≡◌, ◌≢◌, ◌⊎◌, inl, inr, refl, ap, sym, ◌∙◌, Bool, true, false,
  Option, none, some, List, [], ◌∷◌, ◌++◌, map, if◌then◌else◌, append_assoc, append-nil, arith,
}
use httptap.Http.{
  HttpCall, Listener, Holder, free, sending, HttpLog, listen_http, listener_at, done, pushed,
  notify_http, sent_to, send_next, finish_http, receive, take_one, change_at,
}
use httptap.Http.Positions.{
  map_option, listener_at-map, listener_at-append, change_at-other, change_at-same,
  take_one-history,
}
use httptap.Http.Listeners.{closed, finish_http-done}
use httptap.Http.Web.{Client, got_from, got, Ready, call_ready, request_done, serve_client}

-- A step of the log, or a round of the client's loop, which alone receives from its listener.
pub data WebStep (x : HttpLog × Client) (y : HttpLog × Client) : Type 0 where
  listens : x.0.holder ≡ free → y ≡ ((listen_http x.0).0, x.1) → WebStep x y
  notifies : (call : HttpCall) → x.0.holder ≡ free → y ≡ (notify_http call x.0, x.1) → WebStep x y
  sends : send_next x.0 ≡ done y.0 → y.1 ≡ x.1 → WebStep x y
  takes :
      (j : ℕ)
      → j ≢ x.1.listener
      → y ≡ (record x.0 { listeners = receive j x.0.listeners }, x.1)
      → WebStep x y
  finishes : x.0.holder ≡ free → finish_http x.0 ≡ done y.0 → y.1 ≡ x.1 → WebStep x y
  serves : (r : Ready) → y ≡ serve_client r x → WebStep x y

pub data WebReach (x : HttpLog × Client) : HttpLog × Client → Type 0 where
  opened : WebReach x x
  after : {y z : HttpLog × Client} → WebReach x y → WebStep y z → WebReach x z

abbrev pub nils : ℕ → List (Option HttpCall)
nils zero = []
nils (suc k) = none ∷ nils k

abbrev pub calls_then_nils : List HttpCall → ℕ → List (Option HttpCall)
calls_then_nils cs k = map (λ c. some c) cs ++ nils k

nils-suc : (k : ℕ) → nils k ++ none ∷ [] ≡ nils (suc k)
nils-suc zero = refl
nils-suc (suc k) = ap (λ l. none ∷ l) (nils-suc k)

-- Nil is received only of a closed and empty channel.
abbrev pub Exhausted : ℕ → Listener → Type 0
Exhausted k l = (k ≡ 0) ⊎ ((l.chan.items ≡ []) × (l.chan.closed ≡ true))

-- The listener of the client: it was given `first`, and the client has been sent what it has
-- received, and then nil some times.
abbrev pub IsServed : List HttpCall → HttpLog × Client → Type 0
IsServed first (s, v) =
    (l : Listener) × (k : ℕ) × (listener_at v.listener s.listeners ≡ some l)
    × (l.history ≡ first)
    × (v.sent ≡ calls_then_nils l.received k)
    × Exhausted k l

still_open :
    {P : Type 0} (k : ℕ) (l : Listener) → l.chan.closed ≡ false → Exhausted k l → (k ≡ 0) ⊎ P
still_open k l e (inl z) = inl z
still_open k l e (inr (y, c)) = absurd (ground arith)

-- Calls are sent to an open channel only.
sends-IsServed :
    (first : List HttpCall) (s t : HttpLog) (v : Client)
    → send_next s ≡ done t
    → IsServed first (s, v)
    → IsServed first (t, v)
unfolding send_next
sends-IsServed first s t v e (l, k, at, h, r, x) = held s.holder refl
  where
    told :
        (call : HttpCall) (i : ℕ) (o : Option Listener)
        → listener_at i s.listeners ≡ o
        → sent_to s call i o ≡ done t
        → IsServed first (t, v)
    told call i none hs sent =
        let t_is : record s { holder = free } ≡ t = ground arith in
        subst (λ u. IsServed first (u, v)) t_is (l, k, at, h, r, x)
    told call i (some m) hs sent =
        let next_log : HttpLog = record s {
          listeners = change_at i (pushed call) s.listeners;
          holder = sending call (suc i);
        } in
        let t_is : next_log ≡ t = ground arith in
        let is_open : m.chan.closed ≡ false = ground arith in
        subst (λ u. IsServed first (u, v)) t_is
          (elim (Bool-cases (i == v.listener)) [
            | inl same ↦
                let i_is : i ≡ v.listener = ground arith in
                let m_is : m ≡ l =
                  some-injective _ _ (sym hs ∙ ap (λ j. listener_at j s.listeners) i_is ∙ at) in
                let l_open : l.chan.closed ≡ false =
                  ap (λ (y : Listener). y.chan.closed) (sym m_is) ∙ is_open in
                (
                  pushed call l,
                  k,
                  ap (λ j. listener_at v.listener (change_at j (pushed call) s.listeners)) i_is
                      ∙ change_at-same (pushed call) v.listener s.listeners
                      ∙ ap (map_option (pushed call)) at,
                  h,
                  r,
                  still_open k l l_open x,
                )
            | inr apart ↦
                let other : i ≢ v.listener = λ d. ground arith in
                (l, k, change_at-other (pushed call) v.listener i s.listeners other ∙ at, h, r, x)
          ])

    held : (y : Holder) → s.holder ≡ y → IsServed first (t, v)
    held free hs =
        let t_is : s ≡ t = ground arith in
        subst (λ u. IsServed first (u, v)) t_is (l, k, at, h, r, x)
    held (sending call i) hs = told call i (listener_at i s.listeners) refl (ground arith)

-- One receipt of the client.
got-sent :
    (l : Listener) (k : ℕ) (sent : List (Option HttpCall)) (items : List HttpCall) (b : Bool)
    → l.chan.items ≡ items
    → l.chan.closed ≡ b
    → sent ≡ calls_then_nils l.received k
    → Exhausted k l
    → (k' : ℕ) × (sent ++ got_from items b ≡ calls_then_nils (take_one l items).received k')
      × Exhausted k' (take_one l items)
got-sent l k sent (c ∷ cs) b hi hb r (inr x) = absurd (ground arith)
got-sent l k sent (c ∷ cs) b hi hb r (inl z) = (
  0,
  ap (λ y. y ++ some c ∷ [])
        (r ∙ ap (λ n. calls_then_nils l.received n) z ∙ append-nil (map (λ d. some d) l.received))
      ∙ sym (append-nil (map (λ d. some d) l.received ++ some c ∷ []) ∙ refl)
      ∙ ap (λ y. y ++ []) (sym (map-append (λ d. some d) l.received (c ∷ []))),
  inl refl,
)
got-sent l k sent [] true hi hb r x = (
  suc k,
  ap (λ y. y ++ none ∷ []) r
      ∙ append_assoc (map (λ c. some c) l.received) (nils k) (none ∷ [])
      ∙ ap (λ y. map (λ c. some c) l.received ++ y) (nils-suc k),
  inr (hi, hb),
)
got-sent l k sent [] false hi hb r x = (k, append-nil sent ∙ r, x)

serve-IsServed :
    (first : List HttpCall) (r : Ready) (s : HttpLog) (v : Client)
    → IsServed first (s, v)
    → IsServed first (serve_client r (s, v))
unfolding serve_client receive
serve-IsServed first request_done s v h = h
serve-IsServed first call_ready s v (l, k, at, h, r, x) = served v.gone
  where
    served :
        (b : Bool)
        → IsServed first (
            if b then (s, v) else (
              record s { listeners = receive v.listener s.listeners },
              record v { sent = v.sent ++ got (listener_at v.listener s.listeners) },
            ))
    served true = (l, k, at, h, r, x)
    served false =
        let (k', sent, x') = got-sent l k v.sent l.chan.items l.chan.closed refl refl r x in
        (
          take_one l l.chan.items,
          k',
          change_at-same (λ y. take_one y y.chan.items) v.listener s.listeners
              ∙ ap (map_option (λ y. take_one y y.chan.items)) at,
          take_one-history l l.chan.items ∙ h,
          ap (λ o. v.sent ++ got o) at ∙ sent,
          x',
        )

pub WebStep-IsServed :
    (first : List HttpCall) {x y : HttpLog × Client}
    → WebStep x y
    → IsServed first x
    → IsServed first y
unfolding listen_http notify_http receive
WebStep-IsServed first {x} {y} (listens f e) (l, k, at, h, g, z) =
    subst (IsServed first) (sym e)
      (l, k, listener_at-append x.1.listener x.0.listeners _ l at, h, g, z)
WebStep-IsServed first {x} {y} (notifies call f e) h = subst (IsServed first) (sym e) h
WebStep-IsServed first {x} {y} (sends e v) h =
    subst (λ u. IsServed first (y.0, u)) (sym v) (sends-IsServed first x.0 y.0 x.1 e h)
WebStep-IsServed first {x} {y} (finishes f e v) (l, k, at, h, r, z) =
    subst (λ u. IsServed first (y.0, u)) (sym v)
      (subst (λ t. IsServed first (t, x.1)) (sym (finish_http-done x.0 y.0 e))
        (
          closed l,
          k,
          listener_at-map closed x.1.listener x.0.listeners ∙ ap (map_option closed) at,
          h,
          r,
          elim z [ inl n ↦ inl n | inr (i, c) ↦ inr (i, refl) ],
        ))
WebStep-IsServed first {x} {y} (takes j other e) (l, k, at, h, g, z) =
    subst (IsServed first) (sym e)
      (l, k, change_at-other _ x.1.listener j x.0.listeners other ∙ at, h, g, z)
WebStep-IsServed first {x} {y} (serves r e) h =
    subst (IsServed first) (sym e) (serve-IsServed first r x.0 x.1 h)
