-- ===== src/Experiments/Clients/Verified.antt =====
-- The order of the calls of experiments/tls/get.
use httptap.Shared.{◌≡◌, refl, Bool, true, false, [], ◌∷◌, ◌++◌, Text, codes, wrap}
use httptap.System.{Trace, Os}
use httptap.System.Follows.{Follows, ◌then◌, planned_call}
use httptap.System.Guarded.{guarded, Follows-guarded}
use httptap.Experiments.Clients.{
  ClientCall, dial, handshake, verify_hostname, new_request, write_request, read_response,
  get_response,
}

abbrev shakes : ClientCall → Bool
shakes handshake = true
shakes _ = false

abbrev verifies : ClientCall → Bool
verifies (verify_hostname name) = true
verifies _ = false

abbrev pub sends : ClientCall → Bool
sends write_request = true
sends _ = false

module _ (os : Os ClientCall) (address host_name : Text) where
  get_response_follows :
      (tr : Trace ClientCall)
      → Follows tr
          (dial (codes "tcp") address
            ∷ handshake
            ∷ verify_hostname host_name
            ∷ new_request (codes "https://" ++ host_name)
            ∷ write_request
            ∷ read_response
            ∷ [])
          tt
          (get_response os address host_name)
  unfolding get_response
  get_response_follows tr =
      (planned_call {tr = tr} os (wrap "sunucuya bağlanırken hata") (dial (codes "tcp") address)
        then planned_call os (wrap "tls el sıkışması başarısız") handshake
        then planned_call os (wrap "tls host adı doğrulanamadı") (verify_hostname host_name)
        then planned_call os (λ e. e) (new_request (codes "https://" ++ host_name))
        then planned_call os (wrap "tls üzerinden http isteği gönderilirken hata") write_request
        then planned_call os (wrap "tls üzerinden http yanıtı okunurken hata")
            read_response).follows

  -- Whichever call fails, tls/get verifies the name of the server only after the handshake has
  -- succeeded, and sends its request only after the verification has.
  request_after_verification :
      (tr : Trace ClientCall)
      → (new : Trace ClientCall) × ((get_response os address host_name tr).0 ≡ tr ++ new)
        × (guarded shakes verifies false new ≡ true)
        × (guarded verifies sends false new ≡ true)
  unfolding guarded
  request_after_verification tr =
      let (new, e, keeps) =
        Follows-guarded tr _ tt (get_response os address host_name) (get_response_follows tr) in
      (new, e, keeps shakes verifies refl, keeps verifies sends refl)
