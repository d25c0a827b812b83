-- ===== src/Experiments/Tls.antt =====
-- experiments/tls: a server that makes its certificates while clients connect, and a first request
-- to itself. The making of certificates and what answers a call are parameters.
use httptap.Shared.{if◌then◌else◌, ◌++◌, Text, codes, same, error, wrap, Result, ok, err}
use httptap.Packet.{Bytes}
use httptap.System.{Trace, Os, M, call, deferring, ◌>>◌}

pub data TlsCall : Type 0 where
  create_file : Text → TlsCall
  encode_pem : Text → Bytes → TlsCall
  close_file : Text → TlsCall
  new_cert listen get_url : Text → TlsCall
  close_server read_all : TlsCall

abbrev text : Text
text = codes "merhaba httptap dünyası"

module _ (os : Os TlsCall) (made : Text → Bytes) where
  -- sertifikaDosyasiniYaz.
  unfoldable write_cert : Bytes → Text → M TlsCall (Unit {0})
  write_cert cert path =
      call os (wrap "PEM dosyasını yazmak için açarken hata") (create_file path)
      >> deferring os (close_file path)
          (call os (wrap "CA'yı PEM'e kodlarken hata") (encode_pem path cert))

  abbrev whatever : {A : Type 0} → A → Trace TlsCall × Result (Unit {0}) → Trace TlsCall × Result A
  whatever a (tr, r) = (tr, ok a)

  -- GetCertificate: the certificate for the name that the client asks for, which is also written to
  -- a file; an error of the writing is only reported.
  unfoldable pub get_certificate : Text → M TlsCall Bytes
  unfolding write_cert
  get_certificate server_name =
      call os (wrap "için anında sertifika oluşturulurken hata") (new_cert server_name) >> λ tr.
      whatever (made server_name) (write_cert (made server_name) (codes "certificate.crt") tr)

  -- The first request, whose body is `body` without the space around it.
  abbrev check_body : Text → M TlsCall (Unit {0})
  check_body body tr = (tr, if same body text then ok tt else err (error "uyumsuzluk, alınan"))

  -- Ana, up to the point from which it only waits.
  unfoldable pub serve : Text → Text → M TlsCall (Unit {0})
  unfolding write_cert
  serve port body = do
    call os (wrap "root CA oluşturulurken hata") (new_cert (codes "root CA"))
    write_cert (made (codes "root CA")) (codes "ca.crt")
    call os (wrap "üzerinde dinlenemiyor") (listen port)
    deferring os close_server (do
      call os (λ e. e) (get_url (codes "https://127.0.0.1" ++ (port ++ codes "/")))
      call os (λ e. e) read_all
      check_body body)
