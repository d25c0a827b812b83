-- ===== src/Har/Timing.antt =====
-- client_tracer.go of pkg/harlog and UpdateEntryWithTimings: the times of one call.
use httptap.Shared.{
  ℕ, ◌+◌, ◌-◌, ◌≤◌, ◌<◌, ◌≡◌, ◌==◌, leb, if◌then◌else◌, pos, minus, some, List, [], ◌∷◌, arith,
  refl, ap, ◌∙◌, Bool-cases, inl, inr,
}
use httptap.Har.Types.{Time, Duration, Timings, HarEntry}

pub record TimingTrace : Type 0 where
  pub start_at : Time
  pub conn_start : Time
  pub conn_obtained : Time
  pub first_response_byte : Time
  pub dns_start : Time
  pub dns_end : Time
  pub tls_handshake_start : Time
  pub tls_handshake_end : Time
  pub write_request : Time
  pub end_at : Time

-- NewTimingTrace: only the start is known.
abbrev pub new_timing_trace : Time → TimingTrace
new_timing_trace now = record {
  start_at = now;
  conn_start = 0;
  conn_obtained = 0;
  first_response_byte = 0;
  dns_start = 0;
  dns_end = 0;
  tls_handshake_start = 0;
  tls_handshake_end = 0;
  write_request = 0;
  end_at = 0;
}

-- The hooks that the tracer sets.
pub data Hook : Type 0 where
  get_conn got_conn got_first_response_byte dns_start_hook dns_done tls_handshake_start_hook
        tls_handshake_done wrote_request :
      Hook

unfoldable pub on_hook : Hook → Time → TimingTrace → TimingTrace
on_hook get_conn now t = record t { conn_start = now }
on_hook got_conn now t = record t { conn_obtained = now }
on_hook got_first_response_byte now t = record t { first_response_byte = now }
on_hook dns_start_hook now t = record t { dns_start = now }
on_hook dns_done now t = record t { dns_end = now }
on_hook tls_handshake_start_hook now t = record t { tls_handshake_start = now }
on_hook tls_handshake_done now t = record t { tls_handshake_end = now }
on_hook wrote_request now t = record t { write_request = now }

-- The hooks that a call runs, each with the time at which it runs.
abbrev pub on_hooks : List (Hook × Time) → TimingTrace → TimingTrace
on_hooks [] t = t
on_hooks ((h, now) ∷ l) t = on_hooks l (on_hook h now t)

-- time.Time.Sub: the difference, or the nearest Duration, an int64, where it is none.
abbrev pub sub_time : Time → Time → Duration
sub_time a b =
    if leb b a
    then (if leb (a - b) 9223372036854775807 then pos (a - b) else pos 9223372036854775807)
    else (if leb (b - a) 9223372036854775808 then minus (b - a) else minus 9223372036854775808)

-- The difference of two times, or -1 where the first is the zero time.
abbrev pub unless_zero : Time → Time → Duration
unless_zero from to = if from == 0 then minus 1 else sub_time to from

unfoldable pub update_entry_with_timings : HarEntry → TimingTrace → HarEntry
update_entry_with_timings entry t = record entry {
  started_date_time = t.start_at;
  time = sub_time t.end_at t.start_at;
  timings = some record {
    blocked = sub_time t.start_at t.conn_start;
    dns = unless_zero t.dns_start t.dns_end;
    connect = unless_zero t.conn_start t.conn_obtained;
    send = sub_time t.write_request t.conn_obtained;
    wait = sub_time t.first_response_byte t.write_request;
    receive = sub_time t.end_at t.first_response_byte;
    ssl = unless_zero t.tls_handshake_start t.tls_handshake_end;
    comment = [];
  };
}

sub_time_after : (a b : ℕ) → b ≤ a → a - b < 9223372036854775808 → sub_time a b ≡ pos (a - b)
sub_time_after a b h k = ground arith

sub_time_before : (a b : ℕ) → a ≤ b → b - a < 9223372036854775808 → sub_time a b ≡ minus (b - a)
sub_time_before a b h k = elim (Bool-cases (leb b a)) [
  | inl e ↦ let same' : a ≡ b = ground arith in rw e (ground arith)
  | inr e ↦ ground arith
]

unless_zero_after :
    (a b : ℕ) → 0 < a → a ≤ b → b - a < 9223372036854775808 → unless_zero a b ≡ pos (b - a)
unless_zero_after a b z h k = ground (arith, sub_time_after b a h k)

-- When the times of a call follow one another, beginning after the zero time, and span less than
-- 2^63 nanoseconds, then connecting, sending, waiting and receiving are durations that make up the
-- whole time together with the time before the connection was asked for. The recorded `blocked`,
-- however, is minus the latter.
pub timings_add_up :
    (entry : HarEntry) (t : TimingTrace)
    → 0 < t.start_at
    → t.start_at ≤ t.conn_start
    → t.conn_start ≤ t.conn_obtained
    → t.conn_obtained ≤ t.write_request
    → t.write_request ≤ t.first_response_byte
    → t.first_response_byte ≤ t.end_at
    → t.end_at - t.start_at < 9223372036854775808
    → (x : Timings) × (connect send wait receive before : ℕ) × ((update_entry_with_timings entry
          t).timings
        ≡ some x)
      × ((update_entry_with_timings entry t).time ≡ pos (before + connect + send + wait + receive))
      × (x.connect ≡ pos connect)
      × (x.send ≡ pos send)
      × (x.wait ≡ pos wait)
      × (x.receive ≡ pos receive)
      × (x.blocked ≡ minus before)
unfolding update_entry_with_timings
timings_add_up entry t h0 h1 h2 h3 h4 h5 h6 = (
  record {
    blocked = sub_time t.start_at t.conn_start;
    dns = unless_zero t.dns_start t.dns_end;
    connect = unless_zero t.conn_start t.conn_obtained;
    send = sub_time t.write_request t.conn_obtained;
    wait = sub_time t.first_response_byte t.write_request;
    receive = sub_time t.end_at t.first_response_byte;
    ssl = unless_zero t.tls_handshake_start t.tls_handshake_end;
    comment = [];
  },
  t.conn_obtained - t.conn_start,
  t.write_request - t.conn_obtained,
  t.first_response_byte - t.write_request,
  t.end_at - t.first_response_byte,
  t.conn_start - t.start_at,
  refl,
  sub_time_after t.end_at t.start_at (omega arith) h6 ∙ ap (λ n. pos n) (omega arith),
  unless_zero_after t.conn_start t.conn_obtained (omega arith) h2 (omega arith),
  sub_time_after t.write_request t.conn_obtained h3 (omega arith),
  sub_time_after t.first_response_byte t.write_request h4 (omega arith),
  sub_time_after t.end_at t.first_response_byte h5 (omega arith),
  sub_time_before t.start_at t.conn_start h1 (omega arith),
)
