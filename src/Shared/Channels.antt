-- ===== src/Shared/Channels.antt =====
-- A buffered Go channel: what is queued, the size that it was made with, and whether it is closed.
use Prim.Native.Nat.{ℕ, ◌≤◌}
use mathlib.Core.Bool.{Bool, false}
use mathlib.Core.List.{List, [], ◌∷◌, ◌++◌}
use native.Mathlib.Omega.{arith}
use httptap.Shared.Tests.{ltb, if◌then◌else◌}
use httptap.Shared.Lists.{length, length-append}

pub record Chan {ℓ} (A : Type ℓ) : Type ℓ where
  pub items : List A
  pub size : ℕ
  pub closed : Bool

module _ {ℓ} {A : Type ℓ} where
  abbrev pub make_chan : ℕ → Chan A
  make_chan n = record { items = []; size = n; closed = false }

  -- Whether a send on the open channel would go ahead at once.
  abbrev pub room : Chan A → Bool
  room c = ltb (length c.items) c.size

  -- `select { case c <- a: default: }` on an open channel: the send is dropped when the buffer is
  -- full.
  abbrev pub send : Chan A → A → Chan A
  send c a = if room c then record c { items = c.items ++ a ∷ [] } else c

  abbrev pub IsBounded : Chan A → Type 0
  IsBounded c = length c.items ≤ c.size

  pub send-IsBounded : (c : Chan A) (a : A) → IsBounded c → IsBounded (send c a)
  send-IsBounded c a h = ground (arith, length-append c.items (a ∷ []))
