-- ===== src/Tcp/Life/Keeps.antt =====
-- The stages of a packet and the methods of a stream keep what holds of streams and channels.
use httptap.Shared.{
  ℕ, ◌≤◌, ◌<◌, ◌≡◌, refl, Bool, some, List, [], ◌∷◌, Text, length, length-append, arith, Chan,
  IsBounded, send-IsBounded, Bool-cases, Option-cases, inl, inr, ◌⊎◌, Result, ok, err, ◌&&◌, not,
}
use httptap.Packet.{Bytes, Ipv4Header, TcpHeader, Gopacket}
use httptap.Tcp.{
  TcpState, init, syn_received, connected, other_side_finished, finished, state_is, u32, TcpStream,
  accept, reject, write, close, send_fin, read, read_loop, emit, emit_write, advance, reply_ip,
}
use httptap.Tcp.Sequence.{write-stream}
use httptap.Tcp.Stack.{syn_stage, later_stages, fin_stage, ack_stage, payload_stage, sent_fin}
use httptap.Tcp.Life.{
  Method, call_accept, call_reject, call_write, call_close, call_read, IsGood, spawn_limit,
}

-- The stages of a packet keep a stream good.
pub stages-IsGood :
    (g : Gopacket) (ipv4 : Ipv4Header) (tcp : TcpHeader) (s : TcpStream) (to : Chan Bytes)
    (key : Text)
    → tcp.seq < 4294967296
    → IsGood key s
    → IsGood key (later_stages g ipv4 tcp (syn_stage tcp s) to).0
unfolding later_stages fin_stage ack_stage payload_stage syn_stage
stages-IsGood g ipv4 tcp s to key h k =
    ground (arith, length-append s.from_subprocess.items (tcp.payload ∷ []))

sent_fin-IsBounded :
    (s : TcpStream) (to : Chan Bytes) (r : Result Bytes)
    → IsBounded to
    → IsBounded (sent_fin s to r).1
sent_fin-IsBounded s to (ok packet) h = send-IsBounded to packet h
sent_fin-IsBounded s to (err e) h = h

module _ (g : Gopacket) (ipv4 : Ipv4Header) (tcp : TcpHeader) (s : TcpStream)
    (to : Chan Bytes) where
  fin_stage-IsBounded : IsBounded to → IsBounded (fin_stage g ipv4 tcp s to).1
  unfolding fin_stage
  fin_stage-IsBounded h = elim (Bool-cases (tcp.fin_flag && not (state_is s.state init))) [
    | inl e ↦ rw (e, fin_stage) (sent_fin-IsBounded _ to _ h)
    | inr e ↦ rw (e, fin_stage) h
  ]

  later_stages-channel : (later_stages g ipv4 tcp s to).1 ≡ (fin_stage g ipv4 tcp s to).1
  unfolding later_stages
  later_stages-channel = ground arith

  -- The stages of a packet keep the channel to the subprocess within its size.
  pub stages-IsBounded : IsBounded to → IsBounded (later_stages g ipv4 tcp s to).1
  stages-IsBounded h = rw later_stages-channel (fin_stage-IsBounded h)

  -- No packet leads a stream back to the initial state, and a SYN leads it out.
  pub stages-spawn_limit :
      spawn_limit (some s) ≤ spawn_limit (some (later_stages g ipv4 tcp (syn_stage tcp s) to).0)
  unfolding later_stages fin_stage ack_stage payload_stage syn_stage
  stages-spawn_limit = ground arith

emit-stream : (s : TcpStream) (to : Chan Bytes) (r : Result Bytes) → (emit s to r).0 ≡ s
emit-stream s to (ok p) = refl
emit-stream s to (err e) = refl

emit-IsBounded :
    (s : TcpStream) (to : Chan Bytes) (r : Result Bytes) → IsBounded to → IsBounded (emit s to r).1
emit-IsBounded s to (ok p) h = send-IsBounded to p h
emit-IsBounded s to (err e) h = h

emit_write-IsBounded :
    (s : TcpStream) (to : Chan Bytes) (n : ℕ) (r : Result Bytes)
    → IsBounded to
    → IsBounded (emit_write s to n r).1
emit_write-IsBounded s to n (ok p) h = ground (arith, send-IsBounded to p h)
emit_write-IsBounded s to n (err e) h = h

-- A stream changed by a method: counters move, queued packets are taken off, and the state stays or
-- becomes Finished.
record IsLater (s t : TcpStream) : Type 0 where
  same_subprocess : t.subprocess ≡ s.subprocess
  same_world : t.world ≡ s.world
  seq_word : s.seq < 4294967296 → t.seq < 4294967296
  same_ack : t.ack ≡ s.ack
  same_size : t.from_subprocess.size ≡ s.from_subprocess.size
  fewer : length t.from_subprocess.items ≤ length s.from_subprocess.items
  same_closed : t.from_subprocess.closed ≡ s.from_subprocess.closed
  stays_open : spawn_limit (some s) ≤ spawn_limit (some t)

advance-IsLater : (n : ℕ) (s : TcpStream) → IsLater s (advance n s)
advance-IsLater n s = ground arith

read_loop_fewer :
    (size : ℕ) (c : Bool) (items : List Bytes) → length (read_loop size c items).0 ≤ length items
unfolding read_loop
read_loop_fewer size c [] = omega arith
read_loop_fewer size c (p ∷ ps) = ground (arith, read_loop_fewer size c ps)

read-IsLater : (size : ℕ) (s : TcpStream) → IsLater s (read size s).0
unfolding read
read-IsLater size s =
    ground (arith, read_loop_fewer size s.from_subprocess.closed s.from_subprocess.items)

module _ (g : Gopacket) (s : TcpStream) (to : Chan Bytes) where
  finish-IsLater : IsLater s (record (advance 1 s) { state = finished })
  finish-IsLater = ground arith

  close_cases :
      (((close g s to).0 ≡ s) × ((close g s to).1 ≡ to)) ⊎ (close g s to ≡ send_fin g s to)
  unfolding close
  close_cases = go s.state refl
    where
      go :
          (t : TcpState)
          → s.state ≡ t
          → (((close g s to).0 ≡ s) × ((close g s to).1 ≡ to)) ⊎ (close g s to ≡ send_fin g s to)
      go init h = inl (ground arith, ground arith)
      go finished h = inl (ground arith, ground arith)
      go syn_received h = inr (ground arith)
      go connected h = inr (ground arith)
      go other_side_finished h = inr (ground arith)

  IsLater-refl : IsLater s s
  IsLater-refl = ground arith

  send_fin-IsLater : IsLater s (send_fin g s to).0
  unfolding send_fin
  send_fin-IsLater = rw (emit-stream) finish-IsLater

  send_fin-IsBounded : IsBounded to → IsBounded (send_fin g s to).1
  unfolding send_fin
  send_fin-IsBounded h = emit-IsBounded _ to _ h

-- Every method leaves a later stream.
Method-IsLater :
    (g : Gopacket) (s : TcpStream) (to : Chan Bytes) {s' : TcpStream} {to' : Chan Bytes}
    → Method g s to s' to'
    → IsLater s s'
unfolding accept reject
Method-IsLater g s to call_accept = rw emit-stream (advance-IsLater 1 s)
Method-IsLater g s to call_reject = rw emit-stream (advance-IsLater 1 s)
Method-IsLater g s to (call_write p) = rw write-stream (advance-IsLater (u32 (length p)) s)
Method-IsLater g s to call_close = elim (close_cases g s to) [
  | inl h ↦ rw h.0 (IsLater-refl g s to)
  | inr h ↦ rw h (send_fin-IsLater g s to)
]
Method-IsLater g s to (call_read size) = read-IsLater size s

write-IsBounded :
    (g : Gopacket) (p : Bytes) (s : TcpStream) (to : Chan Bytes)
    → IsBounded to
    → IsBounded (write g p s to).1
unfolding write
write-IsBounded g p s to h = elim (Option-cases (g.network_layer (reply_ip s))) [
  | inl e ↦ rw (e, write) (emit_write-IsBounded _ to _ _ h)
  | inr (x, e) ↦ rw (e, write) h
]

-- Every method keeps the channel to the subprocess within its size.
pub Method-IsBounded :
    (g : Gopacket) (s : TcpStream) (to : Chan Bytes) {s' : TcpStream} {to' : Chan Bytes}
    → Method g s to s' to'
    → IsBounded to
    → IsBounded to'
unfolding accept reject
Method-IsBounded g s to call_accept h = emit-IsBounded _ to _ h
Method-IsBounded g s to call_reject h = emit-IsBounded _ to _ h
Method-IsBounded g s to (call_write p) h = write-IsBounded g p s to h
Method-IsBounded g s to call_close h = elim (close_cases g s to) [
  | inl e ↦ rw e.1 h
  | inr e ↦ rw e (send_fin-IsBounded g s to h)
]
Method-IsBounded g s to (call_read size) h = h

pub Method-IsGood :
    (g : Gopacket) (s : TcpStream) (to : Chan Bytes) (key : Text) {s' : TcpStream}
    {to' : Chan Bytes}
    → Method g s to s' to'
    → IsGood key s
    → IsGood key s'
Method-IsGood g s to key {s' = t} m k = ground (arith, Method-IsLater g s to m, k)

pub Method-spawn_limit :
    (g : Gopacket) (s : TcpStream) (to : Chan Bytes) {s' : TcpStream} {to' : Chan Bytes}
    → Method g s to s' to'
    → spawn_limit (some s) ≤ spawn_limit (some s')
Method-spawn_limit g s to m = (Method-IsLater g s to m).stays_open
