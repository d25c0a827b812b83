-- ===== src/Tcp/Life/Reachable.antt =====
-- What holds in every stack that can be reached.
use httptap.Shared.{ℕ, ◌≤◌, ◌≡◌, ◌≢◌, false, none, some, Text, arith, Chan, IsBounded, eof, err}
use httptap.Packet.{Bytes, Gopacket}
use httptap.Mux.{Mux}
use httptap.Tcp.{init, TcpStream, read, returned}
use httptap.Tcp.Stream.{read_never_eof}
use httptap.Tcp.Stack.{lookup, TcpStack, new_tcp_stack}
use httptap.Tcp.Life.{Reach, here, next, times_spawned, Inv}
use httptap.Tcp.Life.Steps.{Step-Inv, spawn_limit-le}

module _ {H U : Type 0} (g : Gopacket) where
  -- A new stack over a multiplexer whose lock is free and a channel within its size satisfies the
  -- invariant, and so does every stack that any packets, method calls and transmissions lead to.
  pub Reach-Inv :
      (app : Mux H U) (link : Chan Bytes) {st : TcpStack H U}
      → app.locked ≡ false
      → IsBounded link
      → Reach g (new_tcp_stack app link) st
      → Inv st
  unfolding new_tcp_stack
  Reach-Inv app link free bound here = record {
    unlocked = free;
    bounded = bound;
    good = λ key s h. absurd (unfold lookup in cc);
    once = λ key. omega arith;
  }
  Reach-Inv app link free bound (next r st) = Step-Inv g st (Reach-Inv app link free bound r)

  -- In every stack that a new one leads to, over a multiplexer whose lock is free and a channel
  -- within its size, at most one handler has been started for a connection, whatever its
  -- packets (repeated SYNs, and SYNs after its end, included), and none for a connection that is
  -- not in the table or is still in the initial state.
  pub handled_once :
      (app : Mux H U) (link : Chan Bytes) (st : TcpStack H U)
      → app.locked ≡ false
      → IsBounded link
      → Reach g (new_tcp_stack app link) st
      → (key : Text)
      → (times_spawned key st.spawned ≤ 1)
        × (lookup key st.streams ≡ none → times_spawned key st.spawned ≡ 0)
        × ((s : TcpStream)
            → lookup key st.streams ≡ some s
            → s.state ≡ init
            → times_spawned key st.spawned ≡ 0)
  handled_once app link st free bound r key =
      let v = Reach-Inv app link free bound r in
      (
        omega (arith, v.once key, spawn_limit-le (lookup key st.streams)),
        λ h. ground (arith, v.once key),
        λ s h i. ground (arith, v.once key),
      )

  -- In every stack that a new one leads to, over a multiplexer whose lock is free and a channel
  -- within its size, Read on any stream returns a packet or an error or waits, but never
  -- reports the end of the stream, not even after the subprocess has sent its FIN.
  pub reachable_never_eof :
      (app : Mux H U) (link : Chan Bytes) (st : TcpStack H U)
      → app.locked ≡ false
      → IsBounded link
      → Reach g (new_tcp_stack app link) st
      → (key : Text) (s : TcpStream) (size : ℕ) → lookup key st.streams ≡ some s
      → (read size s).1 ≢ returned (err eof)
  reachable_never_eof app link st free bound r key s size found =
      read_never_eof size s ((Reach-Inv app link free bound r).good key s found).channel_open
