-- ===== src/Mux/Locking.antt =====
-- The mutex and the order of the tables of mux.go.
use httptap.Shared.{
  ℕ, ◌≡◌, refl, false, Option, none, some, List, [], ◌∷◌, ◌++◌, Text, arith, if◌then◌else◌,
}
use httptap.Addr.{AddrPort}
use httptap.Mux.{
  Entry, Mux, RequestHandler, accepting, pattern_matches, first_match, handle_tcp, listen_tcp,
  notify_tcp, notify_udp,
}

-- What a lookup gives when one more entry stands at the end: the earlier entries go first.
abbrev pub or_entry : {H : Type 0} → Option H → Entry H → AddrPort → Option H
or_entry (some h) e addr = some h
or_entry none e addr = if pattern_matches e.pat addr then some e.handler else none

pub first_match-append :
    {H : Type 0} (es : List (Entry H)) (e : Entry H) (addr : AddrPort)
    → first_match (es ++ e ∷ []) addr ≡ or_entry (first_match es addr) e addr
unfolding first_match
first_match-append [] e addr = refl
first_match-append (d ∷ es) e addr = ground (arith, first_match-append es e addr)

module _ {H U : Type 0} (m : Mux H U) where
  -- ListenTCP never returns, in whatever state the multiplexer is: it waits for a lock that it
  -- holds itself.
  pub listen_tcp_deadlock : (pat : Text) (listener : ℕ) → listen_tcp pat listener m ≡ none
  unfolding listen_tcp
  listen_tcp_deadlock pat listener = ground arith

  -- With the lock free, HandleTCP returns and leaves the lock free, and afterwards notifyTCP starts
  -- the handler that it would have started before, or else the new one if its pattern matches;
  -- what notifyUDP starts is as before.
  notify_tcp-handle_tcp :
      (pat : Text) (h : H) (addr : AddrPort)
      → m.locked ≡ false
      → (m' : Mux H U) × (handle_tcp pat h m ≡ some (m', tt))
        × (m'.locked ≡ false)
        × (notify_tcp addr m'
            ≡ some (
              m',
              or_entry
                  (first_match m.tcp_handlers addr)
                  (record { pat = pat; handler = accepting h })
                  addr,
            ))
        × (notify_udp addr m' ≡ some (m', first_match m.udp_handlers addr))
  unfolding handle_tcp notify_tcp notify_udp
  notify_tcp-handle_tcp pat h addr free =
      let entry : Entry (RequestHandler H) = record { pat = pat; handler = accepting h } in
      (
        record m { locked = false; tcp_handlers = m.tcp_handlers ++ entry ∷ [] },
        ground arith,
        refl,
        ground (arith, first_match-append m.tcp_handlers entry addr),
        refl,
      )
