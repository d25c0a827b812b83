-- ===== src/Experiments/Clients.antt =====
-- The experiments tls/get, udp, resolve, pcap, fin and overlayfs: short sequences of calls. What
-- answers a call is a parameter.
pub mod Verified
use httptap.Shared.{
  ℕ, zero, suc, Option, none, some, List, [], ◌∷◌, ◌++◌, Text, codes, Error, wrap, Result, ok, err,
}
use httptap.System.{Os, M, call, deferring, for_each, ◌>>=◌, ◌>>◌}
use httptap.System.Files.{FileCall, mkdir_all, mount, Paths}

pub data ClientCall : Type 0 where
  dial : Text → Text → ClientCall
  handshake write_request read_response read_body close_body : ClientCall
  verify_hostname new_request lookup_ip4 : Text → ClientCall
  interface_by_name listen_raw : Text → ClientCall
  set_promiscuous write_datagram read_raw : ClientCall
  open_live : Text → ClientCall
  set_checksum : ClientCall
  serialize : ℕ → ClientCall
  write_packet : ClientCall

-- A call whose error is thrown away.
abbrev pub ignoring : {C : Type 0} → Os C → C → M C (Unit {0})
ignoring os c tr = (tr ++ (c, os tr c) ∷ [], ok tt)

abbrev times : ℕ → List (Unit {0})
times zero = []
times (suc n) = tt ∷ times n

module _ (os : Os ClientCall) where
  -- tls/get, up to the response, and with its body.
  unfoldable pub get_response : Text → Text → M ClientCall (Unit {0})
  get_response address host_name = do
    call os (wrap "sunucuya bağlanırken hata") (dial (codes "tcp") address)
    call os (wrap "tls el sıkışması başarısız") handshake
    call os (wrap "tls host adı doğrulanamadı") (verify_hostname host_name)
    call os (λ e. e) (new_request (codes "https://" ++ host_name))
    call os (wrap "tls üzerinden http isteği gönderilirken hata") write_request
    call os (wrap "tls üzerinden http yanıtı okunurken hata") read_response

  unfoldable pub get : Text → Text → M ClientCall (Unit {0})
  unfolding get_response
  get address host_name =
      get_response address host_name
      >> deferring os close_body
          (call os (wrap "tls üzerinden http gövdesi okunurken hata") read_body)

  -- udp, which sends a datagram and reads `count` packets.
  unfoldable udp_probe : Text → Text → ℕ → M ClientCall (Unit {0})
  udp_probe interface remote count = do
    call os (λ e. e) (interface_by_name interface)
    call os (wrap "ham paket dinlerken hata") (listen_raw interface)
    call os (wrap "ham paket bağlantısını promiscuous moda ayarlarken hata") set_promiscuous
    call os (wrap "bağlanırken hata") (dial (codes "udp") remote)
    ignoring os write_datagram
    for_each (λ _. call os (wrap "ham paket okurken hata") read_raw) (times count)

  unfoldable resolve : Text → M ClientCall (Unit {0})
  resolve host = call os (wrap "varsayılan çözücü dedi ki") (lookup_ip4 host)

  -- pcap, which sends one datagram to a port of the machine itself.
  unfoldable send_udp : Text → ℕ → M ClientCall (Unit {0})
  send_udp device port = do
    call os (λ e. e) (open_live device)
    call os (λ e. e) set_checksum
    call os (wrap "paket serileştirilirken hata") (serialize port)
    call os (wrap "paket gönderilirken hata") write_packet

-- fin: what the server does with what Accept answers, and the error that ends it.
pub data FinEvent : Type 0 where
  greets closes : FinEvent

unfoldable fin_loop : List (Option Error) → List FinEvent × Option Error
fin_loop [] = ([], none)
fin_loop (none ∷ rest) = let (es, e) = fin_loop rest in (greets ∷ closes ∷ es, e)
fin_loop (some e ∷ rest) = ([], some e)

-- overlayfs, in a directory that Getwd names: os.ModeDir as a permission is no permission at all.
abbrev mode_dir : ℕ
mode_dir = 2147483648

abbrev cwd_or_error : {A : Type 0} → (Text → M FileCall A) → Result Text → M FileCall A
cwd_or_error k (ok cwd) tr = k cwd tr
cwd_or_error k (err e) tr = (tr, err e)

unfoldable overlay_fs : Os FileCall → Paths → Result Text → M FileCall (Unit {0})
overlay_fs os paths = cwd_or_error λ cwd.
    let lower = paths.join cwd (codes "alt") in
    let upper = paths.join cwd (codes "ust") in
    let work = paths.join cwd (codes "calisma") in
    let merged = paths.join cwd (codes "birlesik") in
    for_each (λ dir. ignoring os (mkdir_all dir mode_dir)) (lower ∷ upper ∷ work ∷ merged ∷ [])
    >> call os (wrap "overlay dosya sistemi bağlanırken hata oluştu") (
        mount (codes "overlay") merged (codes "overlay") [] (
          codes "lowerdir="
          ++ (lower ++ (codes ",upperdir=" ++ (upper ++ (codes ",workdir=" ++ work))))))
