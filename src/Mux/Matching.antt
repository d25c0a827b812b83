-- ===== src/Mux/Matching.antt =====
-- Which addresses a pattern of mux.go matches (desenEşleşiyorMu).
use httptap.Shared.{
  ℕ, zero, suc, ◌-◌, ◌≡◌, ◌≢◌, ◌↔◌, refl, sym, ap, ◌∙◌, true, false, List, [], ◌∷◌, ◌++◌, Text,
  codes, itoa, itoa-injective, itoa-All-IsDigit, IsDigit, All, All-map, same→eq, same_refl, length,
  drop, length-append, arith,
}
use httptap.Addr.{AddrPort, net_addr_host, net_addr_string}
use httptap.Mux.{has_prefix, has_suffix, pattern_matches}

no_sep : (sep : ℕ) (xs ys ys' : List ℕ) → All (λ c. c ≢ sep) ys → ¬ (ys ≡ xs ++ sep ∷ ys')
no_sep sep [] [] ys' h e = cc
no_sep sep [] (y ∷ ys) ys' h e = h.0 (cc)
no_sep sep (x ∷ xs) [] ys' h e = cc
no_sep sep (x ∷ xs) (y ∷ ys) ys' h e = no_sep sep xs ys ys' h.1 (cc)

-- A text with no separator in it is determined by what stands behind the last separator.
last_cut :
    (sep : ℕ) (xs xs' ys ys' : List ℕ)
    → All (λ c. c ≢ sep) ys
    → All (λ c. c ≢ sep) ys'
    → xs ++ sep ∷ ys ≡ xs' ++ sep ∷ ys'
    → ys ≡ ys'
last_cut sep [] [] ys ys' h h' e = cc
last_cut sep [] (x' ∷ xs') ys ys' h h' e = absurd (no_sep sep xs' ys ys' h (cc))
last_cut sep (x ∷ xs) [] ys ys' h h' e = absurd (no_sep sep xs ys' ys h' (cc))
last_cut sep (x ∷ xs) (x' ∷ xs') ys ys' h h' e = last_cut sep xs xs' ys ys' h h' (cc)

drop-append : (xs ys : Text) → drop (length xs) (xs ++ ys) ≡ ys
drop-append [] ys = refl
drop-append (x ∷ xs) ys = drop-append xs ys

drop_split : (n : ℕ) (s : Text) → (pre : Text) × (s ≡ pre ++ drop n s)
drop_split zero s = ([], refl)
drop_split (suc n) [] = ([], refl)
drop_split (suc n) (c ∷ s) = let (pre, e) = drop_split n s in (c ∷ pre, ap (λ r. c ∷ r) e)

has_suffix-append : (xs ys : Text) → has_suffix (xs ++ ys) ys ≡ true
unfolding has_suffix
has_suffix-append xs ys =
    let long = length-append xs ys in
    let n : length (xs ++ ys) - length ys ≡ length xs = omega (arith, long) in
    rw (n, drop-append xs ys, same_refl ys) (ground (arith, long))

has_suffix_split : (s t : Text) → has_suffix s t ≡ true → (pre : Text) × (s ≡ pre ++ t)
unfolding has_suffix
has_suffix_split s t h =
    let (pre, e) = drop_split (length s - length t) s in
    let eq = same→eq (drop (length s - length t) s) t (ground arith) in
    (pre, e ∙ ap (λ r. pre ++ r) eq)

colonless : (n : ℕ) → All (λ c. c ≢ b':') (itoa n)
colonless n = All-map IsDigit (λ c. c ≢ b':') (itoa n) (λ c h e. omega arith) (itoa-All-IsDigit n)

abbrev pub port_pattern : ℕ → Text
port_pattern p = b':' ∷ itoa p

pattern_matches-port_pattern :
    (p : ℕ) (addr : AddrPort)
    → pattern_matches (port_pattern p) addr ≡ has_suffix (net_addr_string addr) (port_pattern p)
unfolding pattern_matches
pattern_matches-port_pattern p addr = ground arith

-- A pattern `:port` matches exactly the addresses with that port, whatever their IP address.
pub pattern_matches_iff-port :
    (p : ℕ) (addr : AddrPort) → (pattern_matches (port_pattern p) addr ≡ true) ↔ (addr.port ≡ p)
pattern_matches_iff-port p addr = (sound, complete)
  where
    sound : pattern_matches (port_pattern p) addr ≡ true → addr.port ≡ p
    sound h =
        let (pre, e) =
          has_suffix_split (net_addr_string addr) (port_pattern p)
            (sym (pattern_matches-port_pattern p addr) ∙ h) in
        itoa-injective addr.port p (
          last_cut b':' (net_addr_host addr.addr) pre (itoa addr.port) (itoa p)
            (colonless addr.port) (colonless p) (unfold net_addr_string in e))

    complete : addr.port ≡ p → pattern_matches (port_pattern p) addr ≡ true
    complete e =
        pattern_matches-port_pattern p addr
        ∙ ap (λ q. has_suffix (net_addr_string addr) (port_pattern q)) (sym e)
        ∙ unfold net_addr_string in
          has_suffix-append (net_addr_host addr.addr) (port_pattern addr.port)

-- The pattern `*` matches every address.
pub pattern_matches-star : (addr : AddrPort) → pattern_matches (codes "*") addr ≡ true
unfolding pattern_matches
pattern_matches-star addr = refl

-- A pattern that is neither `*` nor begins with a colon, such as the documented `example.com` and
-- `example.com:80`, matches no address at all.
pattern_matches-host :
    (pat : Text) (addr : AddrPort)
    → pat ≢ codes "*"
    → has_prefix pat (codes ":") ≡ false
    → pattern_matches pat addr ≡ false
unfolding pattern_matches
pattern_matches-host pat addr ne h = ground (arith, same→eq pat (codes "*"))
