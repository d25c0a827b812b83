-- ===== src/Device/Dump.antt =====
-- The goroutine of Main in httptap.go that dumps the raw packets of the device, with --dump-tcp.
use httptap.Shared.{List, [], ◌∷◌, Error, Result, ok, err}
use httptap.Packet.{Bytes}

-- What it prints: a packet, or the error after which it stops.
pub data Dumped : Type 0 where
  packet_dump : Bytes → Dumped
  aborted : Error → Dumped

-- The loop, over what ReadFrom returns.
unfoldable dump_packets : List (Result Bytes) → List Dumped
dump_packets [] = []
dump_packets (ok buf ∷ reads) = packet_dump buf ∷ dump_packets reads
dump_packets (err e ∷ reads) = aborted e ∷ []
