-- ===== src/Http/Web/Abandoned.antt =====
-- What becomes of the recording of calls when a client has left.
use mathlib.Core.Path.{subst}
use mathlib.Core.Option.{some-injective}
use httptap.Shared.{
  ℕ, ◌==◌, suc, ◌+◌, ◌≤◌, ◌≡◌, ◌≢◌, refl, ap, sym, ◌∙◌, Bool-cases, inl, inr, Option, true, none,
  some, [], ◌∷◌, length, length-append, room, arith,
}
use httptap.Http.{
  HttpCall, Listener, Holder, free, sending, HttpLog, listen_http, listener_at, done, pushed,
  sent_to, send_next, notify_http, receive, change_at,
}
use httptap.Http.Positions.{
  listener_at-append, listener_at-past, change_at-other, change_at-same, map_option,
}
use httptap.Http.Listeners.{due, due-own, due-suc, due-next, due-first}
use httptap.Http.Web.{Client, request_done, serve_client}

-- What can happen while nobody receives from the listener `i` and none is closed, with the number of
-- calls that are recorded meanwhile.
pub data Unattended (i : ℕ) (s : HttpLog) : HttpLog → ℕ → Type 0 where
  start : Unattended i s s 0
  listen :
      {t : HttpLog} {n : ℕ}
      → Unattended i s t n
      → t.holder ≡ free
      → Unattended i s (listen_http t).0 n
  take :
      {t : HttpLog} {n : ℕ} (j : ℕ)
      → Unattended i s t n
      → j ≢ i
      → Unattended i s (record t { listeners = receive j t.listeners }) n
  notify :
      {t : HttpLog} {n : ℕ} (call : HttpCall)
      → Unattended i s t n
      → t.holder ≡ free
      → Unattended i s (notify_http call t) (suc n)
  send : {t u : HttpLog} {n : ℕ} → Unattended i s t n → send_next t ≡ done u → Unattended i s u n

-- The listener after n more calls, within its size; `owed` calls were to be sent to it at first.
record Grown (i n owed : ℕ) (l : Listener) (t : HttpLog) : Type 0 where
  now : Listener
  is_at : listener_at i t.listeners ≡ some now
  same_size : now.chan.size ≡ l.chan.size
  grown : length now.chan.items + length (due t.holder i) ≡ n + length l.chan.items + owed
  bounded : length now.chan.items ≤ now.chan.size

owes_one : (h : Holder) (i : ℕ) → length (due h i) ≤ 1
owes_one free i = omega arith
owes_one (sending call j) i = ground arith

module _ (i n owed : ℕ) (l : Listener) where
  send-Grown : (t u : HttpLog) → send_next t ≡ done u → Grown i n owed l t → Grown i n owed l u
  unfolding send_next
  send-Grown t u e g = held t.holder refl
    where
      told :
          (call : HttpCall) (j : ℕ) (o : Option Listener)
          → t.holder ≡ sending call j
          → listener_at j t.listeners ≡ o
          → sent_to t call j o ≡ done u
          → Grown i n owed l u
      told call j none hs at sent =
          let u_is : record t { holder = free } ≡ u = ground arith in
          let past : length (due t.holder i) ≡ 0 =
            ap (λ x. length (due x i)) hs
            ∙ ground (arith, listener_at-past j i t.listeners g.now at g.is_at) in
          subst (Grown i n owed l) u_is (record {
            now = g.now;
            is_at = g.is_at;
            same_size = g.same_size;
            grown = omega (arith, g.grown, past);
            bounded = g.bounded;
          })
      told call j (some k) hs at sent =
          let after : HttpLog = record t {
            listeners = change_at j (pushed call) t.listeners;
            holder = sending call (suc j);
          } in
          let u_is : after ≡ u = ground arith in
          let has_room : room k.chan ≡ true = ground arith in
          subst (Grown i n owed l) u_is (elim (Bool-cases (j == i)) [
            | inl same ↦
                let j_is : j ≡ i = ground arith in
                let k_is : k ≡ g.now =
                  some-injective _ _
                    (sym at ∙ ap (λ x. listener_at x t.listeners) j_is ∙ g.is_at) in
                let own : length (due t.holder i) ≡ 1 =
                  ap (λ x. length (due x i)) hs
                  ∙ ap (λ x. length (due (sending call x) i)) j_is
                  ∙ ap length (due-own call i) in
                let past : length (due (sending call (suc j)) i) ≡ 0 =
                  ap (λ x. length (due (sending call (suc x)) i)) j_is
                  ∙ ap length (due-next call i) in
                let fits : room g.now.chan ≡ true =
                  ap (λ (x : Listener). room x.chan) (sym k_is) ∙ has_room in
                let more = length-append g.now.chan.items (call ∷ []) in
                record {
                  now = pushed call g.now;
                  is_at =
                      ap (λ x. listener_at i (change_at x (pushed call) t.listeners)) j_is
                      ∙ change_at-same (pushed call) i t.listeners
                      ∙ ap (map_option (pushed call)) g.is_at;
                  same_size = g.same_size;
                  grown = omega (arith, g.grown, own, past, more);
                  bounded = ground (arith, more, fits);
                }
            | inr apart ↦
                let other : j ≢ i = λ e. ground arith in
                let kept : length (due (sending call (suc j)) i) ≡ length (due t.holder i) =
                  ap length (sym (due-suc call j i other)) ∙ ap (λ x. length (due x i)) (sym hs) in
                record {
                  now = g.now;
                  is_at = change_at-other (pushed call) i j t.listeners other ∙ g.is_at;
                  same_size = g.same_size;
                  grown = omega (arith, g.grown, kept);
                  bounded = g.bounded;
                }
          ])

      held : (x : Holder) → t.holder ≡ x → Grown i n owed l u
      held free hs = let u_is : t ≡ u = ground arith in subst (Grown i n owed l) u_is g
      held (sending call j) hs = told call j (listener_at j t.listeners) hs refl (ground arith)

module _ (i : ℕ) (s : HttpLog) (l : Listener) (at : listener_at i s.listeners ≡ some l)
    (bound : length l.chan.items ≤ l.chan.size) where
  Unattended-Grown :
      {t : HttpLog} {n : ℕ} → Unattended i s t n → Grown i n (length (due s.holder i)) l t
  unfolding listen_http notify_http receive
  Unattended-Grown start = record {
    now = l;
    is_at = at;
    same_size = refl;
    grown = omega arith;
    bounded = bound;
  }
  Unattended-Grown (listen {t} r f) =
      let g = Unattended-Grown r in
      record {
        now = g.now;
        is_at = listener_at-append i t.listeners _ g.now g.is_at;
        same_size = g.same_size;
        grown = g.grown;
        bounded = g.bounded;
      }
  Unattended-Grown (take {t} j r d) =
      let g = Unattended-Grown r in
      record {
        now = g.now;
        is_at = change_at-other _ i j t.listeners d ∙ g.is_at;
        same_size = g.same_size;
        grown = g.grown;
        bounded = g.bounded;
      }
  Unattended-Grown (notify {t} call r f) =
      let g = Unattended-Grown r in
      let nothing : length (due t.holder i) ≡ 0 = ap (λ x. length (due x i)) f in
      let one : length (due (sending call 0) i) ≡ 1 = ap length (due-first call i) in
      record {
        now = g.now;
        is_at = g.is_at;
        same_size = g.same_size;
        grown = omega (arith, g.grown, nothing, one);
        bounded = g.bounded;
      }
  Unattended-Grown (send {t} {u} r e) = send-Grown i _ _ l t u e (Unattended-Grown r)

-- Once a client of the web interface has left, and until the listeners are closed, at most one more
-- call is recorded than its channel has room for, however long httptap runs, whatever is recorded,
-- and whoever listens or receives: its listener stays on the list, and nobody receives from it any
-- more.
pub gone_client_limits :
    (s t : HttpLog) (v : Client) (l : Listener) (n : ℕ)
    → listener_at v.listener s.listeners ≡ some l
    → length l.chan.items ≤ l.chan.size
    → Unattended v.listener (serve_client request_done (s, v)).0 t n
    → n + length l.chan.items ≤ suc l.chan.size
unfolding serve_client
gone_client_limits s t v l n at bound r =
    let g = Unattended-Grown v.listener s l at bound r in
    omega (arith, g.grown, g.bounded, g.same_size, owes_one t.holder v.listener)
