-- ===== src/App/Redirect.antt =====
-- The redirection of the special address to the loopback interface of the host.
use httptap.Shared.{
  ℕ, ◌≡◌, ◌≢◌, refl, ap, ◌∙◌, [], ◌∷◌, ◌++◌, Text, codes, itoa, itoa-All-IsDigit, IsDigit, All,
  All-append, All-map, arith,
}
use httptap.Addr.{v4, ip_string, net_addr_host, net_addr_string}
use httptap.Mux.{has_prefix}
use httptap.App.{special_host_ip, replace_first, redirect, proxy_tcp_destination}

-- A text without the first character of `old` has no occurrence of it.
replace_first_absent :
    (c : ℕ) (s old new : Text) → All (λ x. x ≢ c) s → replace_first s (c ∷ old) new ≡ s
unfolding replace_first has_prefix
replace_first_absent c [] old new h = refl
replace_first_absent c (x ∷ s) old new h = ground (arith, h.0, replace_first_absent c s old new h.1)

abbrev NotH : ℕ → Type 0
NotH x = x ≢ b'h'

digits-NotH : (n : ℕ) → All NotH (itoa n)
digits-NotH n = All-map IsDigit NotH (itoa n) (λ c h e. omega arith) (itoa-All-IsDigit n)

special_text :
    (p : ℕ)
    → net_addr_string (record { addr = v4 169 254 77 65; port = p })
      ≡ special_host_ip ++ (b':' ∷ itoa p)
unfolding net_addr_string net_addr_host ip_string itoa
special_text p = refl

special_tail-NotH : (p : ℕ) → All NotH (special_host_ip ++ (b':' ∷ itoa p))
special_tail-NotH p =
    All-append NotH special_host_ip (b':' ∷ itoa p) (omega arith) (omega arith, digits-NotH p)

replace_special :
    (rest new : Text) → replace_first (special_host_ip ++ rest) special_host_ip new ≡ new ++ rest
unfolding replace_first has_prefix
replace_special rest new = refl

-- A connection to the address 169.254.77.65 is dialled at 127.0.0.1, on the same port.
proxy_tcp_destination-special :
    (p : ℕ)
    → proxy_tcp_destination (record { addr = v4 169 254 77 65; port = p })
      ≡ codes "127.0.0.1:" ++ itoa p
unfolding proxy_tcp_destination redirect
proxy_tcp_destination-special p =
    let local = codes "127.0.0.1" in
    let tail = b':' ∷ itoa p in
    ap redirect (special_text p)
    ∙ ap (λ s. replace_first s special_host_ip local)
        (replace_first_absent b'h' (special_host_ip ++ tail) (codes "ost.httptap.local") local
          (special_tail-NotH p))
    ∙ replace_special tail local
