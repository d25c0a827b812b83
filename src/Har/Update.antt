-- ===== src/Har/Update.antt =====
-- update.go of pkg/harlog: what a HAR entry holds of a request and of a response. The parsers of
-- the standard library are a parameter.
use httptap.Shared.{
  ℕ, Bool, ℤ, pos, negsuc, if◌then◌else◌, same, Option, none, some, List, [], ◌∷◌, ◌++◌, Text,
  codes, length, Error, error, Result, ok, err,
}
use httptap.Packet.{Bytes}
use httptap.Http.{Header, header_values}
use httptap.Mux.{has_prefix}
use httptap.Har.Types.{Time, Cookie, Nvp, Param, PostData, HarRequest, HarEntry}

-- A file of a multipart form.
pub record FormFile : Type 0 where
  pub filename : Text
  pub header : Header

pub record Parsers : Type 0 where
  pub parse_media_type : Text → Text × List (Text × Text)
  pub parse_query : Bytes → Result (List (Text × List Text))
  pub read_form : Text → Bytes → Result (List (Text × List Text) × List (Text × List FormFile))
  pub base64 : Bytes → Text

-- http.Cookie, as far as it is recorded.
pub record HttpCookie : Type 0 where
  pub name : Text
  pub value : Text
  pub path : Text
  pub domain : Text
  pub expires : Time
  pub http_only : Bool
  pub secure : Bool

-- An io.ReadCloser: what is still to be read, and the error at its end if that is not io.EOF.
pub record Body : Type 0 where
  pub bytes : Bytes
  pub fails : Option Error

-- http.Request and http.Response; the cookies and the query are those that their methods return.
pub record ClientRequest : Type 0 where
  pub method : Text
  pub url : Text
  pub proto : Text
  pub header : Header
  pub cookies : List HttpCookie
  pub query : List (Text × List Text)
  pub body : Option Body
  pub get_body : Option (Result (Option Body))

pub record ClientResponse : Type 0 where
  pub status_code : ℕ
  pub proto : Text
  pub header : Header
  pub cookies : List HttpCookie
  pub content_length : ℤ
  pub body : Body

-- Header.Get.
abbrev pub first_value : List Text → Text
first_value [] = []
first_value (v ∷ vs) = v

abbrev pub get_header : Header → Text → Text
get_header h key = first_value (header_values key h)

unfoldable pub to_har_cookies : List HttpCookie → List Cookie
to_har_cookies [] = []
to_har_cookies (c ∷ cs) =
    record {
      name = c.name;
      value = c.value;
      path = c.path;
      domain = c.domain;
      expires = c.expires;
      http_only = c.http_only;
      secure = c.secure;
      comment = [];
    }
    ∷ to_har_cookies cs

-- The nested loops over a map of lists, in the order in which the map is given: `make k s` is what
-- they append for a value `s` of the key `k`.
abbrev pub for_values : {A B : Type 0} → (Text → A → B) → Text → List A → List B
for_values make k [] = []
for_values make k (s ∷ v) = make k s ∷ for_values make k v

abbrev pub for_map : {A B : Type 0} → (Text → A → B) → List (Text × List A) → List B
for_map make [] = []
for_map make ((k, v) ∷ vs) = for_values make k v ++ for_map make vs

abbrev pub nvp : Text → Text → Nvp
nvp k s = record { name = k; value = s; comment = [] }

unfoldable pub to_har_nvp : List (Text × List Text) → List Nvp
to_har_nvp vs = for_map nvp vs

abbrev pub value_param : Text → Text → Param
value_param k s = record { name = k; value = s; file_name = []; content_type = []; comment = [] }

abbrev pub file_param : Text → FormFile → Param
file_param k s = record {
  name = k;
  value = [];
  file_name = s.filename;
  content_type = get_header s.header (codes "Content-Type");
  comment = [];
}

-- mediaParams["boundary"].
abbrev pub find_param : Text → List (Text × Text) → Option Text
find_param key [] = none
find_param key ((k, v) ∷ l) = if same k key then some v else find_param key l

abbrev pub urlencoded_params : Result (List (Text × List Text)) → List Param
urlencoded_params (ok formdata) = for_map value_param formdata
urlencoded_params (err e) = []

abbrev pub multipart_params :
    Result (List (Text × List Text) × List (Text × List FormFile)) → List Param
multipart_params (ok formdata) = for_map value_param formdata.0 ++ for_map file_param formdata.1
multipart_params (err e) = []

module _ (p : Parsers) where
  -- The switch on the media type.
  unfoldable pub post_params : Text × List (Text × Text) → Bytes → Result (List Param)
  post_params media body =
      if same media.0 (codes "application/x-www-form-urlencoded")
      then ok (urlencoded_params (p.parse_query body))
      else if same media.0 (codes "multipart/form-data")
      then (elim (find_param (codes "boundary") media.1) [
        | none ↦ err (error "multipart/form-data request without a boundary")
        | some boundary ↦ ok (multipart_params (p.read_form boundary body))
      ])
      else ok []

  abbrev pub har_request : ClientRequest → Option PostData → ℤ → HarRequest
  har_request r post size = record {
    method = r.method;
    url = r.url;
    http_version = r.proto;
    cookies = to_har_cookies r.cookies;
    headers = to_har_nvp r.header;
    query_string = to_har_nvp r.query;
    post_data = post;
    headers_size = negsuc 0;
    body_size = size;
    comment = [];
  }

  abbrev pub request_params : ClientRequest → Bytes → Result (List Param)
  request_params r body =
      post_params (p.parse_media_type (get_header r.header (codes "Content-Type"))) body

  abbrev pub with_params :
      HarEntry → ClientRequest → Bytes → Result (List Param) → HarEntry × Option Error
  with_params entry r body (err e) = (entry, some e)
  with_params entry r body (ok params) = (
    record entry {
      request = some (
          har_request r
            (some record {
              mime_type = get_header r.header (codes "Content-Type");
              params = params;
              text = body;
              comment = [];
            })
            (pos (length body)));
    },
    none,
  )

  -- The entry, and an error or not.
  unfoldable pub update_entry_with_request :
      HarEntry → ClientRequest → Option Bytes → HarEntry × Option Error
  update_entry_with_request entry r none =
      (record entry { request = some (har_request r none (negsuc 0)) }, none)
  update_entry_with_request entry r (some body) = with_params entry r body (request_params r body)

  -- The text of a response and its encoding.
  abbrev pub response_text : Text → Bytes → Text × Text
  response_text media body =
      if has_prefix media (codes "text/") then (body, []) else (p.base64 body, codes "base64")

  unfoldable pub update_entry_with_response : HarEntry → ClientResponse → Bytes → HarEntry
  update_entry_with_response entry resp body =
      let mime = get_header resp.header (codes "Content-Type") in
      let (text, encoding) = response_text (p.parse_media_type mime).0 body in
      record entry {
        response = some record {
          status = resp.status_code;
          status_text = [];
          http_version = resp.proto;
          cookies = to_har_cookies resp.cookies;
          headers = to_har_nvp resp.header;
          content = record {
            size = resp.content_length;
            compression = pos 0;
            mime_type = mime;
            text = text;
            encoding = encoding;
            comment = [];
          };
          redirect_url = get_header resp.header (codes "Location");
          headers_size = negsuc 0;
          body_size = resp.content_length;
          comment = [];
        };
      }
