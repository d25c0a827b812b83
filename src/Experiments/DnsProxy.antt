-- ===== src/Experiments/DnsProxy.antt =====
-- experiments/dns: a DNS server that resolves the queries for IPv4 addresses itself and sends the
-- others to an upstream server, from which dns.go of httptap has been made. The library and the
-- resolver are the parameter of Dns.
use httptap.Shared.{
  String, ◌==◌, ◌≡◌, refl, ap, sym, ◌∙◌, Bool, true, false, List, [], ◌∷◌, ◌++◌, Option, none, some,
  Text, codes, same, error, Result, ok, err, ◌>>=◌, if◌then◌else◌, arith,
}
use httptap.Addr.{Ip, ip_string}
use httptap.Packet.{Bytes}
use httptap.Dns.{
  resolve_a, answer_first, answer_question, Question, Msg, DnsLib, special_question, special_ip,
  upstream_dns, wrap_error, nonempty_answer, make_rrs, query_a, query_upstream, answer_type,
  answers, handle_dns_query, handle_dns, packed,
}
use httptap.Dns.Codes.{QType, type_a, type_aaaa}

module _ {RR : Type 0} (lib : DnsLib RR) where
  -- The loop over the addresses: the first record that cannot be made ends it.
  unfoldable make_a_rrs : Text → List Ip → Result (List RR)
  make_a_rrs name [] = ok []
  make_a_rrs name (ip ∷ ips) = do
    rr ← wrap_error "rr oluşturulurken hata" (lib.new_rr (name ++ (codes " A " ++ ip_string ip)))
    rrs ← make_a_rrs name ips
    ok (rr ∷ rrs)

  abbrev nonempty_reply : List RR → Result (List RR)
  nonempty_reply [] = err (error "bulunamadı")
  nonempty_reply (rr ∷ rrs) = ok (rr ∷ rrs)

  -- The switch on the type of the first question.
  unfoldable handle_type : QType → Question → Msg RR → Result (List RR)
  unfolding make_a_rrs
  handle_type type_a q req = do
    ips ← wrap_error "varsayılan çözücü dedi ki" (lib.lookup_ip (codes "ip4") q.name)
    make_a_rrs q.name ips
  handle_type _ q req = do
    response ← lib.exchange (record req { question = q ∷ [] }) upstream_dns
    nonempty_reply response.answer

  unfoldable pub handle_first : List Question → Msg RR → Result (List RR)
  unfolding handle_type
  handle_first [] req = ok []
  handle_first (q ∷ qs) req = handle_type q.qtype q req

  unfoldable handle : Msg RR → Result (List RR)
  unfolding handle_first
  handle req = handle_first req.question req

  -- The handler of all names: the message that WriteMsg is called with, if it is.
  unfoldable pub serve : Msg RR → Option (Msg RR)
  unfolding handle
  serve req =
      if req.opcode == lib.opcode_query
      then some (record (lib.set_reply req) { answer = answers lib (handle req) })
      else none

-- A result without its error's text.
abbrev pub outcome : {A : Type 0} → Result A → Option A
outcome (ok a) = some a
outcome (err e) = none

outcome->>= :
    {A B : Type 0} (r s : Result A) (f g : A → Result B)
    → outcome r ≡ outcome s
    → ((a : A) → outcome (f a) ≡ outcome (g a))
    → outcome (r >>= f) ≡ outcome (s >>= g)
outcome->>= (ok a) (ok b) f g e h = ground (arith, h a)
outcome->>= (ok a) (err y) f g e h = absurd (ground arith)
outcome->>= (err x) (ok b) f g e h = absurd (ground arith)
outcome->>= (err x) (err y) f g e h = refl

outcome-wrap_error :
    {A : Type 0} (m n : String) (r : Result A) → outcome (wrap_error m r) ≡ outcome (wrap_error n r)
outcome-wrap_error m n (ok a) = refl
outcome-wrap_error m n (err e) = refl

-- The questions that httptap answers in another way: for the special name, and for IPv6 addresses.
abbrev is_changed : QType → Text → Bool
is_changed type_a name = same name special_question
is_changed type_aaaa name = true
is_changed _ name = false

abbrev AreUnchanged : List Question → Type 0
AreUnchanged [] = Unit
AreUnchanged (q ∷ qs) = is_changed q.qtype q.name ≡ false

module _ {RR : Type 0} (lib : DnsLib RR) where
  make_a_rrs-outcome :
      (name : Text) (ips : List Ip)
      → outcome (make_a_rrs lib name ips) ≡ outcome (make_rrs lib name (codes " A ") ips)
  unfolding make_a_rrs make_rrs
  make_a_rrs-outcome name [] = refl
  make_a_rrs-outcome name (ip ∷ ips) =
      outcome->>= _ _ _ _ (outcome-wrap_error _ _ (lib.new_rr _)) λ rr.
        outcome->>= (make_a_rrs lib name ips) (make_rrs lib name (codes " A ") ips) _ _
          (make_a_rrs-outcome name ips) λ rrs. refl

  query_a-outcome :
      (q : Question) (req : Msg RR)
      → same q.name special_question ≡ false
      → outcome (handle_type lib type_a q req) ≡ outcome (query_a lib q.name)
  unfolding handle_type query_a
  query_a-outcome q req h =
      outcome->>= _ (wrap_error "the default resolver said" (lib.lookup_ip (codes "ip4") q.name)) _
        (make_rrs lib q.name (codes " A ")) (outcome-wrap_error _ _ (lib.lookup_ip _ _))
        (make_a_rrs-outcome q.name)
      ∙ ap
          (λ (b : Bool). outcome (do
            ips ← resolve_a lib q.name (if b then some special_ip else none)
            make_rrs lib q.name (codes " A ") ips))
          (sym h)

  upstream-outcome :
      (r : Result (Msg RR))
      → outcome (do x ← r; nonempty_reply lib x.answer)
        ≡ outcome (do x ← r; nonempty_answer lib x.answer)
  upstream-outcome r = outcome->>= r r _ _ refl λ x. nonempty x.answer
    where
      nonempty : (l : List RR) → outcome (nonempty_reply lib l) ≡ outcome (nonempty_answer lib l)
      nonempty [] = refl
      nonempty (rr ∷ l) = refl

  type-outcome :
      (t : QType) (q : Question) (req : Msg RR)
      → is_changed t q.name ≡ false
      → outcome (handle_type lib t q req) ≡ outcome (answer_type lib t q req)
  unfolding handle_type answer_type query_upstream
  type-outcome type_a q req h = query_a-outcome q req h
  type-outcome type_aaaa q req h = absurd (ground arith)
  type-outcome _ q req h =
      upstream-outcome (lib.exchange (record req { question = q ∷ [] }) upstream_dns)

  questions-outcome :
      (qs : List Question) (req : Msg RR)
      → AreUnchanged qs
      → outcome (handle_first lib qs req) ≡ outcome (answer_first lib qs req)
  unfolding handle_first answer_first answer_question
  questions-outcome [] req h = refl
  questions-outcome (q ∷ qs) req h = type-outcome q.qtype q req h

  answers-outcome : (r s : Result (List RR)) → outcome r ≡ outcome s → answers lib r ≡ answers lib s
  answers-outcome (ok a) (ok b) e = ground arith
  answers-outcome (ok a) (err y) e = absurd (ground arith)
  answers-outcome (err x) (ok b) e = absurd (ground arith)
  answers-outcome (err x) (err y) e = refl

  -- The bytes of a message that is written, if one is.
  abbrev pub written : Option (Msg RR) → Option Bytes
  written none = none
  written (some m) = packed lib (lib.pack m)

  -- httptap replies to a query as the server of the experiment does, byte for byte, also where the
  -- resolver, the upstream server or the making of a record fails, and by no reply where the
  -- experiment makes none; but for the two changes: the first question asks for an IPv6 address, or
  -- for the IPv4 address of host.httptap.local.
  pub handle_dns-serve :
      (payload : Bytes) (req : Msg RR)
      → lib.unpack payload ≡ ok req
      → AreUnchanged req.question
      → handle_dns lib payload ≡ written (serve lib req)
  unfolding handle_dns serve handle handle_dns_query
  handle_dns-serve payload req e h =
      let same_answers : answers lib (handle lib req) ≡ answers lib (handle_dns_query lib req) =
        answers-outcome _ _ (questions-outcome req.question req h) in
      ground (arith, same_answers)
