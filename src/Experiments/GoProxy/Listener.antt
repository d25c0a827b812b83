-- ===== src/Experiments/GoProxy/Listener.antt =====
-- stoppableListener of experiments/goproxy, and how main stops on an interrupt: a WaitGroup counts
-- the connections that are served, and main waits until there is none.
use httptap.Shared.{
  ℕ, zero, suc, ◌+◌, ◌≡◌, ◌≢◌, ◌⊎◌, inl, inr, ◌↔◌, ◌-◌, refl, Bool, true, false, if◌then◌else◌,
  arith,
}
use httptap.Http.{Ending, done, waits, panics}

-- The goroutine that waits for the interrupt: before it, after `sl.Add(1)`, after `sl.Close()`,
-- after `logger.Close()`, and after `sl.Done()`.
pub data Stage : Type 0 where
  serving counted listener_closed logger_closed stopped : Stage

-- The counter of the WaitGroup, how many connections are open, the stage, and whether http.Serve is
-- still calling Accept.
pub record Server : Type 0 where
  pub counter : ℕ
  pub conns : ℕ
  pub stage : Stage
  pub serves : Bool

abbrev pub new_server : Server
new_server = record { counter = 0; conns = 0; stage = serving; serves = true }

-- WaitGroup.Add(1) and WaitGroup.Done: a counter below zero panics.
abbrev add : Server → Server
add s = record s { counter = s.counter + 1 }

abbrev wg_done : Server → ℕ → Ending Server
wg_done s zero = panics
wg_done s (suc n) = done (record s { counter = n })

abbrev is_listening : Stage → Bool
is_listening serving = true
is_listening counted = true
is_listening _ = false

-- Accept, by what Accept of the inner listener returns: a connection, which a closed listener has
-- none of, or an error, which comes at the latest when the listener has been closed. The error ends
-- http.Serve, and main goes on to `sl.Wait()`.
pub data Accepted : Type 0 where
  connection failure : Accepted

abbrev accept_as : Server → Accepted → Ending Server
accept_as s connection =
    if is_listening s.stage then done (add (record s { conns = s.conns + 1 })) else waits
accept_as s failure = done (record s { serves = false })

unfoldable pub accept : Accepted → Server → Ending Server
accept r s = if s.serves then accept_as s r else waits

-- Close of a connection that is open, for the first time.
abbrev one_less : Server → Server
one_less s = record s { conns = s.conns - 1 }

abbrev has_conn : ℕ → Bool
has_conn zero = false
has_conn (suc n) = true

unfoldable pub close_conn : Server → Ending Server
close_conn s = if has_conn s.conns then wg_done (one_less s) s.counter else waits

-- One call of the goroutine for the interrupt.
abbrev stop_at : Server → Stage → Ending Server
stop_at s serving = done (add (record s { stage = counted }))
stop_at s counted = done (record s { stage = listener_closed })
stop_at s listener_closed = done (record s { stage = logger_closed })
stop_at s logger_closed = wg_done (record s { stage = stopped }) s.counter
stop_at s stopped = waits

unfoldable pub interrupt : Server → Ending Server
interrupt s = stop_at s s.stage

abbrev pub logger_open : Stage → Bool
logger_open logger_closed = false
logger_open stopped = false
logger_open _ = true

-- LogReq or LogResp for a connection that is served: a send on the channel of the logger, which
-- panics once that is closed.
unfoldable pub log_call : Server → Ending Server
log_call s = if has_conn s.conns then (if logger_open s.stage then done s else panics) else waits

-- `sl.Wait()`, which main reaches when Serve has returned.
unfoldable pub wait : Server → Ending Server
wait s = if s.serves then waits else if has_conn s.counter then waits else done s

pub data Step (s : Server) (t : Server) : Type 0 where
  accepts : (r : Accepted) → accept r s ≡ done t → Step s t
  closes : close_conn s ≡ done t → Step s t
  interrupts : interrupt s ≡ done t → Step s t

pub data Reach (s : Server) : Server → Type 0 where
  here : Reach s s
  next : {t u : Server} → Reach s t → Step t u → Reach s u

-- What the goroutine for the interrupt adds to the counter.
abbrev holds : Stage → ℕ
holds serving = 0
holds stopped = 0
holds _ = 1

abbrev IsCounted : Server → Type 0
IsCounted s = s.counter ≡ s.conns + holds s.stage

Step-IsCounted : {s t : Server} → Step s t → IsCounted s → IsCounted t
unfolding accept close_conn interrupt
Step-IsCounted (accepts connection e) h = ground arith
Step-IsCounted (accepts failure e) h = ground arith
Step-IsCounted (closes e) h = ground arith
Step-IsCounted (interrupts e) h = ground arith

Reach-IsCounted : {s : Server} → Reach new_server s → IsCounted s
Reach-IsCounted here = refl
Reach-IsCounted (next r st) = Step-IsCounted st (Reach-IsCounted r)

-- However connections are accepted, each is closed once, Accept fails, and whenever the interrupt
-- comes: neither Close nor the goroutine for the interrupt panics. The logging of a served call
-- panics exactly when a connection is still open and the logger has been closed. When the wait of
-- main returns, no connection is open, and either the logger has been closed, or the interrupt has
-- not come yet.
pub stop_is_graceful :
    {s : Server}
    → Reach new_server s
    → (close_conn s ≢ panics)
      × (interrupt s ≢ panics)
      × ((log_call s ≡ panics) ↔ ((s.conns ≢ 0) × (logger_open s.stage ≡ false)))
      × ((t : Server)
          → wait s ≡ done t
          → (s.conns ≡ 0) × ((s.stage ≡ stopped) ⊎ (s.stage ≡ serving)))
unfolding close_conn interrupt wait log_call
stop_is_graceful {s} r =
    let h = Reach-IsCounted r in
    (
      λ e. ground arith,
      λ e. ground arith,
      logs,
      λ t e. (ground arith, ended s.stage refl (ground arith)),
    )
  where
    logs : (log_call s ≡ panics) ↔ ((s.conns ≢ 0) × (logger_open s.stage ≡ false))
    logs = ((λ e. (λ z. ground arith, ground arith)), λ p. panicked s.conns refl p.0 p.1)
      where
        panicked :
            (n : ℕ) → s.conns ≡ n → s.conns ≢ 0 → logger_open s.stage ≡ false → log_call s ≡ panics
        panicked zero e ne o = absurd (ne e)
        panicked (suc n) e ne o = ground arith

    ended :
        (x : Stage) → s.stage ≡ x → holds s.stage ≡ 0 → (s.stage ≡ stopped) ⊎ (s.stage ≡ serving)
    ended serving e k = inr e
    ended stopped e k = inl e
    ended counted e k = absurd (ground arith)
    ended listener_closed e k = absurd (ground arith)
    ended logger_closed e k = absurd (ground arith)
