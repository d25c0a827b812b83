-- ===== src/Experiments/GoProxy/Logger.antt =====
-- HttpLogger of experiments/goproxy: LogMeta hands a Meta over an unbuffered channel to a goroutine,
-- which writes it to the log; Close closes the channel and waits for the goroutine to end.
use httptap.Shared.{
  ℕ, zero, suc, ap, ◌∙◌, ◌≤◌, ◌≡◌, refl, Bool, true, false, Option, none, some, List, [], ◌∷◌, ◌++◌,
  if◌then◌else◌, Option-cases, inl, inr, arith,
}
use httptap.Packet.{Bytes}
use httptap.Http.{Ending, done, waits, panics}
use httptap.Experiments.GoProxy.Meta.{Meta, Writer, write_to}

-- The Metas that have been handed over, the one that the goroutine is writing, what it has handed
-- to the file, and whether the channel is closed and the goroutine has closed the file.
pub record HttpLogger : Type 0 where
  pub handed : List Meta
  pub pending : Option Meta
  pub file : List Bytes
  pub closed : Bool
  pub ended : Bool

-- NewLogger, where the file has been created.
abbrev pub new_logger : HttpLogger
new_logger = record { handed = []; pending = none; file = []; closed = false; ended = false }

-- `logger.c <- m`: it waits until the goroutine receives.
unfoldable pub log_meta : Meta → HttpLogger → Ending HttpLogger
log_meta m l = if l.closed then panics else (elim l.pending [
  | some n ↦ waits
  | none ↦ done (record l { handed = l.handed ++ m ∷ []; pending = some m })
])

-- One round of the goroutine: it writes what it has received, or ends when the channel is closed. An
-- error of WriteTo is only reported.
unfoldable pub work : Writer → HttpLogger → Ending HttpLogger
work w l = elim l.pending [
  | some m ↦ done (record l { pending = none; file = (write_to w m l.file).written })
  | none ↦ if l.ended then waits else if l.closed then done (record l { ended = true }) else waits
]

-- `close(logger.c)`, and the receiving from errch.
unfoldable pub close_channel : HttpLogger → Ending HttpLogger
close_channel l = if l.closed then panics else done (record l { closed = true })

unfoldable pub await_end : HttpLogger → Ending HttpLogger
await_end l = if l.ended then done l else waits

pub data Step (w : Writer) (s : HttpLogger) (t : HttpLogger) : Type 0 where
  logs : (m : Meta) → log_meta m s ≡ done t → Step w s t
  works : work w s ≡ done t → Step w s t
  closes : close_channel s ≡ done t → Step w s t

pub data Reach (w : Writer) (s : HttpLogger) : HttpLogger → Type 0 where
  here : Reach w s s
  next : {t u : HttpLogger} → Reach w s t → Step w t u → Reach w s u

-- What a log holds to which the Metas have been written, each by one WriteTo.
abbrev pub log_of : Writer → List Meta → List Bytes → List Bytes
log_of w [] out = out
log_of w (m ∷ ms) out = log_of w ms (write_to w m out).written

log_of-append :
    (w : Writer) (ms : List Meta) (m : Meta) (out : List Bytes)
    → log_of w (ms ++ m ∷ []) out ≡ (write_to w m (log_of w ms out)).written
log_of-append w [] m out = refl
log_of-append w (n ∷ ms) m out = log_of-append w ms m (write_to w n out).written

abbrev finished_file : Writer → Option Meta → List Bytes → List Bytes
finished_file w none file = file
finished_file w (some m) file = (write_to w m file).written

-- The file, once the goroutine has written what it has received, holds all that was handed over; and
-- the goroutine ends with nothing left to write.
pub record IsComplete (w : Writer) (l : HttpLogger) : Type 0 where
  pub holds : finished_file w l.pending l.file ≡ log_of w l.handed []
  pub idle : l.ended ≡ true → (l.pending ≡ none) × (l.closed ≡ true)

module _ (w : Writer) where
  log_meta-IsComplete :
      (s t : HttpLogger) (m : Meta) → log_meta m s ≡ done t → IsComplete w s → IsComplete w t
  unfolding log_meta
  log_meta-IsComplete s t m e v = ground (arith, log_of-append w s.handed m [])

  work-IsComplete : (s t : HttpLogger) → work w s ≡ done t → IsComplete w s → IsComplete w t
  unfolding work
  work-IsComplete s t e v = ground arith

  close-IsComplete : (s t : HttpLogger) → close_channel s ≡ done t → IsComplete w s → IsComplete w t
  unfolding close_channel
  close-IsComplete s t e v = ground arith

  Step-IsComplete : {s t : HttpLogger} → Step w s t → IsComplete w s → IsComplete w t
  Step-IsComplete {s} {t = u} (logs m e) v = log_meta-IsComplete s u m e v
  Step-IsComplete {s} {t = u} (works e) v = work-IsComplete s u e v
  Step-IsComplete {s} {t = u} (closes e) v = close-IsComplete s u e v

  Reach-IsComplete : {s : HttpLogger} → Reach w new_logger s → IsComplete w s
  Reach-IsComplete here = record { holds = refl; idle = λ e. absurd (ground arith) }
  Reach-IsComplete (next r st) = Step-IsComplete st (Reach-IsComplete r)

  abbrev pub and_then : Ending HttpLogger → (HttpLogger → Ending HttpLogger) → Ending HttpLogger
  and_then (done l) f = f l
  and_then waits f = waits
  and_then panics f = panics

  -- The goroutine goes round `n` times.
  unfoldable pub rounds : ℕ → HttpLogger → Ending HttpLogger
  rounds zero l = done l
  rounds (suc n) l = and_then (work w l) (rounds n)

  -- From a reachable state whose channel is open, Close closes it, so that a call of LogMeta then
  -- panics; and after at most two rounds of the goroutine, none of which waits, Close returns. The
  -- file then holds all that has been handed to the logger, each by one WriteTo and in order.
  pub close_completes :
      {s : HttpLogger} (m : Meta)
      → Reach w new_logger s
      → s.closed ≡ false
      → (t u : HttpLogger) × (close_channel s ≡ done t)
        × (n : ℕ) × (n ≤ 2)
        × (rounds n t ≡ done u)
        × (log_meta m t ≡ panics)
        × (await_end u ≡ done u)
        × (u.file ≡ log_of w s.handed [])
  unfolding close_channel work await_end log_meta rounds
  close_completes {s} m r open_channel =
      let v = Reach-IsComplete r in
      let running : s.ended ≡ false = ground (arith, v.idle) in
      let t : HttpLogger = record s { closed = true } in
      elim (Option-cases s.pending) [
        | inl idle ↦
            let u : HttpLogger = record t { ended = true } in
            let ends : work w t ≡ done u = ground arith in
            (
              t,
              u,
              ground arith,
              1,
              omega arith,
              ap (λ x. and_then x (rounds 0)) ends,
              refl,
              refl,
              ground (arith, v.holds),
            )
        | inr (n, busy) ↦
            let mid : HttpLogger = record t {
              pending = none;
              file = (write_to w n s.file).written;
            } in
            let u : HttpLogger = record mid { ended = true } in
            let written : work w t ≡ done mid = ground arith in
            let ends : work w mid ≡ done u = ground arith in
            (
              t,
              u,
              ground arith,
              2,
              omega arith,
              ap (λ x. and_then x (rounds 1)) written ∙ ap (λ x. and_then x (rounds 0)) ends,
              refl,
              refl,
              ground (arith, v.holds),
            )
      ]
