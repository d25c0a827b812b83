-- ===== src/Experiments/Echo/Loops.antt =====
-- The two loops of experiments/gvisor-echo: that of Main, which accepts connections, and that of
-- echo, which reads one. Both wait for a notice where there is nothing yet.
use httptap.Shared.{ℕ, ◌≡◌, refl, ap, Bool, true, false, List, [], ◌∷◌}
use httptap.Packet.{Bytes}

-- What Read or Accept finds: a value, ErrWouldBlock, or another error.
pub data Found (A : Type 0) : Type 0 where
  got : A → Found A
  would_block : Found A
  failed : Found A

-- What echo does: it prints, waits for the notice, and at the end makes its deferred calls.
pub data EchoEvent : Type 0 where
  registers : EchoEvent
  prints : Bytes → EchoEvent
  awaits_notice unregisters closes : EchoEvent

-- The loop over what the reads find, as far as they are given.
unfoldable echo_loop : List (Found Bytes) → List EchoEvent
echo_loop [] = []
echo_loop (got b ∷ rs) = prints b ∷ echo_loop rs
echo_loop (would_block ∷ rs) = awaits_notice ∷ echo_loop rs
echo_loop (failed ∷ rs) = unregisters ∷ closes ∷ []

unfoldable echo : List (Found Bytes) → List EchoEvent
unfolding echo_loop
echo rs = registers ∷ echo_loop rs

-- What the loop of Main does: it starts a goroutine with echo, waits, or ends the process.
pub data AcceptEvent : Type 0 where
  starts_echo : ℕ → AcceptEvent
  awaits_connection fatal : AcceptEvent

unfoldable accept_loop : List (Found ℕ) → List AcceptEvent
accept_loop [] = []
accept_loop (got ep ∷ rs) = starts_echo ep ∷ accept_loop rs
accept_loop (would_block ∷ rs) = awaits_connection ∷ accept_loop rs
accept_loop (failed ∷ rs) = fatal ∷ []

-- The data that reads find before the first error, and that is printed.
abbrev data_of : List (Found Bytes) → List Bytes
data_of [] = []
data_of (got b ∷ rs) = b ∷ data_of rs
data_of (would_block ∷ rs) = data_of rs
data_of (failed ∷ rs) = []

abbrev pub printed : List EchoEvent → List Bytes
printed [] = []
printed (prints b ∷ es) = b ∷ printed es
printed (_ ∷ es) = printed es

abbrev pub fails : List (Found Bytes) → Bool
fails [] = false
fails (got b ∷ rs) = fails rs
fails (would_block ∷ rs) = fails rs
fails (failed ∷ rs) = true

abbrev is_closed : List EchoEvent → Bool
is_closed [] = false
is_closed (closes ∷ es) = true
is_closed (_ ∷ es) = is_closed es

-- echo prints the data of a connection in order, up to the first error that is not ErrWouldBlock,
-- and closes the connection exactly if there is one. It sends nothing back, whatever its name says.
echo_prints :
    (rs : List (Found Bytes)) → (printed (echo rs) ≡ data_of rs) × (is_closed (echo rs) ≡ fails rs)
unfolding echo
echo_prints rs = (prints_data rs, closes_after rs)
  where
    prints_data : (rs : List (Found Bytes)) → printed (echo_loop rs) ≡ data_of rs
    prints_data [] = refl
    prints_data (got b ∷ rs) = ap (λ l. b ∷ l) (prints_data rs)
    prints_data (would_block ∷ rs) = prints_data rs
    prints_data (failed ∷ rs) = refl

    closes_after : (rs : List (Found Bytes)) → is_closed (echo_loop rs) ≡ fails rs
    closes_after [] = refl
    closes_after (got b ∷ rs) = closes_after rs
    closes_after (would_block ∷ rs) = closes_after rs
    closes_after (failed ∷ rs) = refl
