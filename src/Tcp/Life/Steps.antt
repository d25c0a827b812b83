-- ===== src/Tcp/Life/Steps.antt =====
-- Every step of the stack keeps the invariant.
use mathlib.Core.Option.{some-injective}
use mathlib.Core.Path.{subst}
use httptap.Shared.{
  ◌+◌, ◌≤◌, ◌<◌, ◌≡◌, refl, ap, ◌∙◌, sym, Bool, true, false, Option, none, some, List, [], ◌∷◌,
  Text, same, same_iff, same_refl, length, if◌then◌else◌, arith, Chan, send, send-IsBounded,
  Bool-cases, inl, inr,
}
use httptap.Packet.{Bytes, Ipv4Header, TcpHeader, Gopacket}
use httptap.Mux.{RequestHandler, first_match}
use httptap.Tcp.{TcpStream, new_tcp_stream, local_addr}
use httptap.Tcp.Stack.{
  lookup, insert, TcpStack, key_of, found_or_new, opens, spawn, syn_stage, later_stages, fin_stage,
  ack_stage, payload_stage, handle_packet,
}
use httptap.Tcp.Isolation.{lookup-insert, stream_before, handle_packet_lem}
use httptap.Tcp.Life.{
  Method, Step, packet, method, transmit, datagram, times_spawned, IsGood, spawn_limit, Inv,
}
use httptap.Tcp.Life.Keeps.{
  stages-IsGood, stages-IsBounded, stages-spawn_limit, Method-IsGood, Method-IsBounded,
  Method-spawn_limit,
}

pub AllGood : List (Text × TcpStream) → Type 0
AllGood m = (key : Text) (s : TcpStream) → lookup key m ≡ some s → IsGood key s

insert-AllGood :
    (k : Text) (t : TcpStream) (m : List (Text × TcpStream))
    → AllGood m
    → IsGood k t
    → AllGood (insert k t m)
unfolding AllGood
insert-AllGood k t m all good key s h = elim (Bool-cases (same k key)) [
  | inl e ↦
      let is_t : t ≡ s = some-injective _ _ (rw (lookup-insert k key t m, e) at h) in
      subst (λ x. IsGood key x) is_t (subst (λ x. IsGood x t) ((same_iff k key).0 e) good)
  | inr e ↦ all key s (rw (lookup-insert k key t m, e) at h)
]

times_spawned-spawn :
    {H : Type 0} (key k : Text) (o : Option (RequestHandler H)) (l : List (RequestHandler H × Text))
    → times_spawned key (spawn o k l) ≤ times_spawned key l + (if same k key then 1 else 0)
times_spawned-spawn key k none l = omega arith
times_spawned-spawn key k (some h) [] = ground arith
times_spawned-spawn key k (some h) ((h', j) ∷ l) =
    ground (arith, times_spawned-spawn key k (some h) l)

found_or_new-IsGood :
    (ipv4 : Ipv4Header) (tcp : TcpHeader) (m : List (Text × TcpStream)) (o : Option TcpStream)
    → tcp.seq < 4294967296
    → ((s : TcpStream) → o ≡ some s → IsGood (key_of ipv4 tcp) s)
    → IsGood (key_of ipv4 tcp) (found_or_new o ipv4 tcp)
unfolding new_tcp_stream
found_or_new-IsGood ipv4 tcp m none h all = record {
  keyed = refl;
  seq_word = omega arith;
  ack_word = h;
  channel_size = refl;
  channel_bound = omega arith;
  channel_open = refl;
}
found_or_new-IsGood ipv4 tcp m (some s) h all = all s refl

found_or_new-limit :
    (ipv4 : Ipv4Header) (tcp : TcpHeader) (o : Option TcpStream)
    → spawn_limit o ≡ spawn_limit (some (found_or_new o ipv4 tcp))
unfolding new_tcp_stream
found_or_new-limit ipv4 tcp none = refl
found_or_new-limit ipv4 tcp (some s) = refl

-- A packet that opens a stream finds it in the initial state, and leaves it in another.
opens-limit :
    (g : Gopacket) (ipv4 : Ipv4Header) (tcp : TcpHeader) (s : TcpStream) (to : Chan Bytes)
    → opens tcp s ≡ true
    → (spawn_limit (some s) ≡ 0)
      × (spawn_limit (some (later_stages g ipv4 tcp (syn_stage tcp s) to).0) ≡ 1)
unfolding later_stages fin_stage ack_stage payload_stage syn_stage
opens-limit g ipv4 tcp s to h = (ground arith, ground arith)

module _ {H U : Type 0} (g : Gopacket) (ipv4 : Ipv4Header) (tcp : TcpHeader)
    (st : TcpStack H U) where
  abbrev before : TcpStream
  before = stream_before g ipv4 tcp st

  abbrev later : TcpStream × Chan Bytes
  later = later_stages g ipv4 tcp (syn_stage tcp before) st.to_subprocess

  abbrev spawned_by : Bool → List (RequestHandler H × Text)
  spawned_by b =
      if b
      then spawn (first_match st.app.tcp_handlers (local_addr (syn_stage tcp before)))
          (key_of ipv4 tcp) st.spawned
      else st.spawned

  packet-once_same :
      (b : Bool)
      → opens tcp before ≡ b
      → times_spawned (key_of ipv4 tcp) st.spawned
        ≤ spawn_limit (lookup (key_of ipv4 tcp) st.streams)
      → times_spawned (key_of ipv4 tcp) (spawned_by b) ≤ spawn_limit (some later.0)
  packet-once_same true o h =
      let k = key_of ipv4 tcp in
      let more =
        times_spawned-spawn k k
          (first_match st.app.tcp_handlers (local_addr (syn_stage tcp before))) st.spawned in
      let limits = opens-limit g ipv4 tcp before st.to_subprocess o in
      let same_limit = found_or_new-limit ipv4 tcp (lookup k st.streams) in
      let one : times_spawned k (spawned_by true) ≤ times_spawned k st.spawned + 1 =
        rw same_refl at more in
      omega (arith, one, limits.0, limits.1, same_limit, h)
  packet-once_same false o h =
      let same_limit = found_or_new-limit ipv4 tcp (lookup (key_of ipv4 tcp) st.streams) in
      omega (arith, same_limit, h, stages-spawn_limit g ipv4 tcp before st.to_subprocess)

  packet-once_other :
      (key : Text) (b : Bool)
      → same (key_of ipv4 tcp) key ≡ false
      → times_spawned key (spawned_by b) ≤ times_spawned key st.spawned
  packet-once_other key true n =
      let more =
        times_spawned-spawn key (key_of ipv4 tcp)
          (first_match st.app.tcp_handlers (local_addr (syn_stage tcp before))) st.spawned in
      let none_more : times_spawned key (spawned_by true) ≤ times_spawned key st.spawned + 0 =
        rw n at more in
      omega (arith, none_more)
  packet-once_other key false n = omega arith

  packet-Inv :
      (st' : TcpStack H U)
      → tcp.seq < 4294967296
      → Inv st
      → handle_packet g ipv4 tcp st ≡ some st'
      → Inv st'
  packet-Inv st' word v e =
      let k = key_of ipv4 tcp in
      subst Inv (some-injective _ _ (sym (handle_packet_lem g ipv4 tcp st v.unlocked) ∙ e))
        (record {
          unlocked = v.unlocked;
          bounded = stages-IsBounded g ipv4 tcp (syn_stage tcp before) st.to_subprocess v.bounded;
          good =
              unfold AllGood in
              insert-AllGood k later.0 st.streams v.good (
                stages-IsGood g ipv4 tcp before st.to_subprocess k word
                  (found_or_new-IsGood ipv4 tcp st.streams (lookup k st.streams) word (v.good k)));
          once = λ key. elim (Bool-cases (same k key)) [
            | inl s ↦
                subst
                  (λ x.
                    times_spawned x (spawned_by (opens tcp before))
                    ≤ spawn_limit (lookup x (insert k later.0 st.streams)))
                  ((same_iff k key).0 s)
                  (rw (lookup-insert k k later.0 st.streams)
                    (rw (same_refl k) (packet-once_same (opens tcp before) refl (v.once k))))
            | inr s ↦
                rw (lookup-insert k key later.0 st.streams)
                  (rw s (omega (arith, packet-once_other key (opens tcp before) s, v.once key)))
          ];
        })

pub spawn_limit-le : (o : Option TcpStream) → spawn_limit o ≤ 1
spawn_limit-le none = omega arith
spawn_limit-le (some s) = ground arith

module _ {H U : Type 0} (g : Gopacket) where
  Method-Inv :
      (st : TcpStack H U) (key : Text) (s s' : TcpStream) (to' : Chan Bytes)
      → lookup key st.streams ≡ some s
      → Method g s st.to_subprocess s' to'
      → Inv st
      → Inv (record st { streams = insert key s' st.streams; to_subprocess = to' })
  Method-Inv st k s s' to' found m v = record {
    unlocked = v.unlocked;
    bounded = Method-IsBounded g s st.to_subprocess m v.bounded;
    good =
        unfold AllGood in
        insert-AllGood k s' st.streams v.good
          (Method-IsGood g s st.to_subprocess k m (v.good k s found));
    once = λ key. elim (Bool-cases (same k key)) [
      | inl e ↦
          let limit : times_spawned k st.spawned ≤ spawn_limit (some s) = rw found at (v.once k) in
          subst (λ x. times_spawned x st.spawned ≤ spawn_limit (lookup x (insert k s' st.streams)))
            ((same_iff k key).0 e)
            (rw (lookup-insert k k s' st.streams)
              (rw (same_refl k) (omega (arith, limit, Method-spawn_limit g s st.to_subprocess m))))
      | inr e ↦ rw (lookup-insert k key s' st.streams) (rw e (v.once key))
    ];
  }

  transmit-Inv :
      (st : TcpStack H U) (p : Bytes) (rest : List Bytes)
      → st.to_subprocess.items ≡ p ∷ rest
      → Inv st
      → Inv (record st { to_subprocess = record st.to_subprocess { items = rest } })
  transmit-Inv st p rest e v = record {
    unlocked = v.unlocked;
    bounded = omega (arith, v.bounded, ap (length {A = Bytes}) e);
    good = v.good;
    once = v.once;
  }

  datagram-Inv :
      (st : TcpStack H U) (p : Bytes)
      → Inv st
      → Inv (record st { to_subprocess = send st.to_subprocess p })
  datagram-Inv st p v = record {
    unlocked = v.unlocked;
    bounded = send-IsBounded st.to_subprocess p v.bounded;
    good = v.good;
    once = v.once;
  }

  pub Step-Inv : {st st' : TcpStack H U} → Step g st st' → Inv st → Inv st'
  Step-Inv {st} {st' = t} (packet ipv4 tcp word e) v = packet-Inv g ipv4 tcp st t word v e
  Step-Inv {st} (method k s s' to' found m e) v =
      subst Inv (sym e) (Method-Inv st k s s' to' found m v)
  Step-Inv {st} (transmit p rest items e) v = subst Inv (sym e) (transmit-Inv st p rest items v)
  Step-Inv {st} (datagram p e) v = subst Inv (sym e) (datagram-Inv st p v)
