-- ===== src/Addr.antt =====
-- Addresses: net.IP and net.Addr as far as the program prints them, and AddrPort of httptap.go.
pub mod Injective
use httptap.Shared.{ℕ, ◌++◌, ◌∷◌, Text, codes, itoa}

-- A net.IP: the four bytes of an IPv4 address, or another address by the text that net prints.
pub data Ip : Type 0 where
  v4 : ℕ → ℕ → ℕ → ℕ → Ip
  v6 : Text → Ip

-- net.IP.String of the standard library: dotted decimal for four bytes.
unfoldable pub ip_string : Ip → Text
ip_string (v4 a b c d) = itoa a ++ (b'.' ∷ (itoa b ++ (b'.' ∷ (itoa c ++ (b'.' ∷ itoa d)))))
ip_string (v6 text) = text

pub record AddrPort : Type 0 where
  pub addr : Ip
  pub port : ℕ  -- uint16

-- AddrPort.String
unfoldable pub addr_port_string : AddrPort → Text
addr_port_string ap = ip_string ap.addr ++ (b':' ∷ itoa ap.port)

-- String of net.TCPAddr and net.UDPAddr in the standard library: an address that is not IPv4 is
-- put in brackets.
unfoldable pub net_addr_host : Ip → Text
net_addr_host (v4 a b c d) = ip_string (v4 a b c d)
net_addr_host (v6 text) = b'[' ∷ (text ++ codes "]")

unfoldable pub net_addr_string : AddrPort → Text
net_addr_string ap = net_addr_host ap.addr ++ (b':' ∷ itoa ap.port)

-- The key of tcpStack.handlePacket: `src.String() + " => " + dst.String()`.
unfoldable pub srcdst : AddrPort → AddrPort → Text
srcdst src dst = addr_port_string src ++ (codes " => " ++ addr_port_string dst)
