-- ===== src/Addr/Injective.antt =====
-- The key under which tcpStack keeps a stream determines both end points.
use httptap.Shared.{
  ℕ, ◌≡◌, ◌≢◌, itoa, itoa-injective, itoa-All-IsDigit, IsDigit, All, All-append, All-map,
  append_cut, arith,
}
use httptap.Addr.{Ip, v4, v6, ip_string, AddrPort, addr_port_string, srcdst}

-- The address is an IPv4 address, as every address in an IPv4 header is.
abbrev pub IsV4 : Ip → Type 0
IsV4 (v4 a b c d) = Unit {0}
IsV4 (v6 text) = ⊥

module _ (sep : ℕ) (out : ¬ IsDigit sep) where
  itoa_without : (n : ℕ) → All (λ c. c ≢ sep) (itoa n)
  itoa_without n =
      All-map IsDigit (λ c. c ≢ sep) (itoa n) (λ c h e. out (omega arith)) (itoa-All-IsDigit n)

dot_no-IsDigit : ¬ IsDigit b'.'
dot_no-IsDigit h = omega arith

colon_no-IsDigit : ¬ IsDigit b':'
colon_no-IsDigit h = omega arith

space_no-IsDigit : ¬ IsDigit b' '
space_no-IsDigit h = omega arith

module _ (sep : ℕ) (out : ¬ IsDigit sep) (ne : b'.' ≢ sep) where
  ip_string_without : (i : Ip) → IsV4 i → All (λ c. c ≢ sep) (ip_string i)
  unfolding ip_string
  ip_string_without (v4 a b c d) h = All-append _ (itoa a) _ (itoa_without sep out a) (
    ne,
    All-append _ (itoa b) _ (itoa_without sep out b)
        (ne, All-append _ (itoa c) _ (itoa_without sep out c) (ne, itoa_without sep out d)),
  )
  ip_string_without (v6 t) h = absurd h

pub ip_string-injective : (i j : Ip) → IsV4 i → IsV4 j → ip_string i ≡ ip_string j → i ≡ j
unfolding ip_string
ip_string-injective (v4 a b c d) (v4 a' b' c' d') h k e =
    let dotless = itoa_without b'.' dot_no-IsDigit in
    let (p, e1) = append_cut b'.' (itoa a) (itoa a') _ _ (dotless a) (dotless a') e in
    let (q, e2) = append_cut b'.' (itoa b) (itoa b') _ _ (dotless b) (dotless b') e1 in
    let (r, e3) = append_cut b'.' (itoa c) (itoa c') _ _ (dotless c) (dotless c') e2 in
    cc (itoa-injective a a' p, itoa-injective b b' q, itoa-injective c c' r, itoa-injective d d' e3)
ip_string-injective (v4 a b c d) (v6 t) h k e = absurd k
ip_string-injective (v6 t) j h k e = absurd h

pub addr_port_string-injective :
    (x y : AddrPort) → IsV4 x.addr → IsV4 y.addr → addr_port_string x ≡ addr_port_string y → x ≡ y
unfolding addr_port_string
addr_port_string-injective x y h k e =
    let without = ip_string_without b':' colon_no-IsDigit (omega arith) in
    let (p, q) =
      append_cut b':' (ip_string x.addr) (ip_string y.addr) _ _ (without x.addr h)
        (without y.addr k) e in
    let ports = itoa-injective x.port y.port q in
    let addrs = ip_string-injective x.addr y.addr h k p in
    λ i. record { addr = addrs i; port = ports i }

addr_port_string_without : (x : AddrPort) → IsV4 x.addr → All (λ c. c ≢ b' ') (addr_port_string x)
unfolding addr_port_string
addr_port_string_without x h =
    All-append _ (ip_string x.addr) _
      (ip_string_without b' ' space_no-IsDigit (omega arith) x.addr h)
      (omega arith, itoa_without b' ' space_no-IsDigit x.port)

-- Two IPv4 connections with the same key have the same source and the same destination.
pub srcdst-injective :
    (src dst src' dst' : AddrPort)
    → IsV4 src.addr
    → IsV4 dst.addr
    → IsV4 src'.addr
    → IsV4 dst'.addr
    → srcdst src dst ≡ srcdst src' dst'
    → (src ≡ src') × (dst ≡ dst')
unfolding srcdst
srcdst-injective src dst src' dst' h1 h2 h3 h4 e =
    let (p, q) =
      append_cut b' ' (addr_port_string src) (addr_port_string src') _ _
        (addr_port_string_without src h1) (addr_port_string_without src' h3) e in
    (addr_port_string-injective src src' h1 h3 p, addr_port_string-injective dst dst' h2 h4 (cc))
