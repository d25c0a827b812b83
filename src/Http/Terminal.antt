-- ===== src/Http/Terminal.antt =====
-- The goroutine of Main of httptap.go that prints the recorded calls, and errorf. What a terminal
-- does with a colour is outside.
pub mod Printed
use httptap.Shared.{
  ℕ, zero, suc, Bool, true, false, ◌&&◌, not, Option, none, some, List, [], ◌∷◌, ◌++◌, map, Text,
  codes, length, itoa, ltb, ◌==◌, if◌then◌else◌, drop, ◌-◌,
}
use httptap.Packet.{Bytes}
use httptap.Http.{Header, HttpRequest, HttpResponse, HttpCall, Listener}

pub data Color : Type 0 where
  blue green magenta yellow red : Color

-- What is written at once: in a colour, or by the package log, which ends the line itself.
pub data Output : Type 0 where
  colored : Color → Text → Output
  logged : Text → Output

-- `log.Printf("> %s: %s", k, v)` for the values of one key.
abbrev pub logged_values : Text → Text → List Text → List Output
logged_values mark key [] = []
logged_values mark key (v ∷ vs) =
    logged (mark ++ (key ++ (codes ": " ++ v))) ∷ logged_values mark key vs

-- The range over a header goes through its keys in the order that the list has.
unfoldable pub logged_header : Text → Header → List Output
logged_header mark [] = []
logged_header mark ((key, vs) ∷ h) = logged_values mark key vs ++ logged_header mark h

abbrev pub logged_body : Bytes → List Output
logged_body [] = []
logged_body (b ∷ body) = logged (b ∷ body) ∷ []

-- The switch on the status code.
unfoldable pub response_color : ℕ → Color
response_color code =
    if ltb code 300
    then green
    else if ltb code 400
    then magenta
    else if ltb code 500
    then yellow
    else red

abbrev pub request_line : HttpRequest → Text
request_line r = codes "---> " ++ (r.method ++ (codes " " ++ (r.url ++ codes "\n")))

abbrev pub response_line : HttpCall → Text
response_line c =
    codes "<--- "
    ++ (itoa c.response.status_code
        ++ (codes " "
            ++ (c.request.url
                ++ (codes " (" ++ (itoa (length c.response.body) ++ codes " bytes)\n")))))

-- `args.Head` and `args.Body` let the header and a body that is not empty be printed.
abbrev pub when : Bool → List Output → List Output
when b out = if b then out else []

unfoldable pub print_request : Bool → Bool → HttpRequest → List Output
unfolding logged_header
print_request head body r =
    colored blue (request_line r)
    ∷ (when head (logged_header (codes "> ") r.header) ++ when body (logged_body r.body))

unfoldable pub print_response : Bool → Bool → HttpCall → List Output
unfolding logged_header response_color itoa
print_response head body c =
    colored (response_color c.response.status_code) (response_line c)
    ∷ (when head (logged_header (codes "< ") c.response.header)
        ++ when body (logged_body c.response.body))

-- The loop over the calls that have been received.
unfoldable pub print_calls : Bool → Bool → List HttpCall → List Output
unfolding print_request print_response
print_calls head body [] = []
print_calls head body (c ∷ cs) =
    (print_request head body c.request ++ print_response head body c) ++ print_calls head body cs

-- strings.HasSuffix(fmt, "\n") of errorf.
abbrev ends_line : Text → Bool
ends_line [] = false
ends_line (c ∷ []) = c == 10
ends_line (c ∷ (d ∷ t)) = ends_line (d ∷ t)

-- errorf: the text that is printed for a format without verbs.
unfoldable errorf : Text → Output
errorf format = colored red (if ends_line format then format else format ++ codes "\n")
