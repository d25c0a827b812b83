-- ===== src/Forward.antt =====
-- proxy.go: bytes are copied between the subprocess and the world. What a Read returns is one
-- event; the writer is told each chunk in turn, and says whether it failed.
pub mod Copied
pub mod Arrived
use httptap.Shared.{
  ℕ, suc, ◌==◌, Bool, true, false, Option, none, some, List, [], ◌∷◌, Error, eof, Result, ok, err,
}
use httptap.Packet.{Bytes}
use httptap.Http.Bodies.{Io}

-- How the loop of proxyBytes ends: at the end of the input, at an error of Read, or not yet, where
-- the next Read has not returned.
pub data CopyEnd : Type 0 where
  at_eof : CopyEnd
  at_error : Error → CopyEnd
  still_reading : CopyEnd

-- The calls of Write that proxyBytes makes, each with its result, and how it ends. `writer k` is
-- the result of the k-th call.
abbrev pub Copy : Type 0
Copy = List (Bytes × Option Error) × CopyEnd

unfoldable pub proxy_bytes : (ℕ → Bytes → Option Error) → ℕ → List Io → Copy
proxy_bytes writer k [] = ([], still_reading)
proxy_bytes writer k ((chunk, some eof) ∷ reads) = ([], at_eof)
proxy_bytes writer k ((chunk, some e) ∷ reads) = ([], at_error e)
proxy_bytes writer k ((chunk, none) ∷ reads) =
    let rest = proxy_bytes writer (suc k) reads in ((chunk, writer k chunk) ∷ rest.0, rest.1)

-- proxyTCP: what is dialled, and what is started: the two copies, or the closing of the
-- subprocess's connection.
pub data Proxied (Conn : Type 0) : Type 0 where
  close_subprocess : Proxied Conn
  copy_both : (subprocess world : Conn) → Proxied Conn

unfoldable pub proxy_tcp : {Conn : Type 0} → Result Conn → Conn → Proxied Conn
proxy_tcp (err e) subprocess = close_subprocess
proxy_tcp (ok world) subprocess = copy_both subprocess world
