-- ===== src/Experiments/GoProxy/Meta.antt =====
-- Meta of experiments/goproxy and its WriteTo, and what LogReq and LogResp make of a request and a
-- response. The dumps of net/http/httputil are parameters, and a session is numbered from 1.
pub mod Written
use httptap.Shared.{
  ℕ, zero, suc, ◌+◌, ◌≡◌, refl, ap, sym, ◌∙◌, Bool, true, false, Option, none, some, List, [], ◌∷◌,
  ◌++◌, Text, codes, itoa, Error, length, arith,
}
use httptap.Packet.{Bytes}
use httptap.Experiments.GoProxy.Stream.{FileStream, new_file_stream}

-- http.Request and http.Response as far as they are logged: what DumpRequest and DumpResponse say
-- of them, and of a request its RemoteAddr.
pub record Request : Type 0 where
  pub dump : Bytes
  pub dump_error : Option Error
  pub remote_addr : Text

pub record Response : Type 0 where
  pub dump : Bytes
  pub dump_error : Option Error

-- Meta. The field bodyPath, which nothing sets or reads, is left out.
pub record Meta : Type 0 where
  pub req : Option Request
  pub resp : Option Response
  pub err : Option Text
  pub t : Text
  pub sess : ℕ
  pub from : Text

-- A writer: what Write does with bytes, given what has been written.
abbrev pub Writer : Type 0
Writer = List Bytes → Bytes → ℕ × Option Error

-- The named results of WriteTo, and what has been handed to the writer.
pub record Progress : Type 0 where
  pub nr : ℕ
  pub err : Option Error
  pub written : List Bytes

abbrev pub nothing_written : List Bytes → Progress
nothing_written out = record { nr = 0; err = none; written = out }

module _ (w : Writer) where
  abbrev pub write_at : Bytes → Progress → ℕ × Option Error → Progress
  write_at b p (n, e) = record { nr = p.nr + n; err = e; written = p.written ++ b ∷ [] }

  -- write, and fprintf with its text made: nothing more is written after an error.
  unfoldable pub write_more : Bytes → Progress → Progress
  write_more b p = elim p.err [ some e ↦ p | none ↦ write_at b p (w p.written b) ]

  abbrev pub type_line : Option Request → Option Response → Progress → Progress
  type_line (some r) resp p = write_more (codes "Type: request\r\n") p
  type_line none (some r) p = write_more (codes "Type: response\r\n") p
  type_line none none p = p

  -- `if err2 != nil { return nr, err2 }`.
  abbrev pub dumped : Bytes → Option Error → Progress → Progress
  dumped b (some e) p = record p { err = some e }
  dumped b none p = write_more b p

  abbrev pub last_part : Option Text → Option Request → Option Response → Progress → Progress
  last_part (some e) req resp p = write_more (codes "Error: " ++ (e ++ codes "\r\n\r\n\r\n\r\n")) p
  last_part none (some r) resp p = dumped r.dump r.dump_error (write_more (codes "\r\n") p)
  last_part none none (some r) p = dumped r.dump r.dump_error (write_more (codes "\r\n") p)
  last_part none none none p = p

  unfoldable pub write_to : Meta → List Bytes → Progress
  unfolding write_more itoa
  write_to m out = last_part m.err m.req m.resp (
      write_more (codes "From: " ++ (m.from ++ codes "\r\n")) (
        write_more (codes "Session: " ++ (itoa m.sess ++ codes "\r\n")) (
          write_more (codes "ReceivedAt: " ++ (m.t ++ codes "\r\n"))
            (type_line m.req m.resp (nothing_written out)))))

-- LogReq and LogResp: the Meta that is logged for a request or response that may be nil, in the
-- session, with the error of the context, at a time; of a response, the address that the round trip
-- was made to. With it the file that the body is to be written to while it is read, where there is
-- a body; `dir` is the directory of the logger and `join` that of the package path.
abbrev empty_req : Request
empty_req = record { dump = []; dump_error = none; remote_addr = [] }

abbrev empty_resp : Response
empty_resp = record { dump = []; dump_error = none }

abbrev or_empty : {A : Type 0} → A → Option A → A
or_empty empty none = empty
or_empty empty (some a) = a

abbrev tee_for : {A : Type 0} → Text → Option A → Option FileStream
tee_for path none = none
tee_for path (some a) = some (new_file_stream path)

module _ (join : Text → Text → Text) (dir : Text) where
  unfoldable pub log_req : Option Request → ℕ → Option Text → Text → Meta × Option FileStream
  unfolding itoa
  log_req req sess e t =
      let r = or_empty empty_req req in
      (
        record { req = some r; resp = none; err = e; t = t; sess = sess; from = r.remote_addr },
        tee_for (join dir (itoa sess ++ codes "_req")) req,
      )

  unfoldable log_resp :
      Option Response → ℕ → Option Text → Text → Option Text → Meta × Option FileStream
  unfolding itoa
  log_resp resp sess e t from = (
    record {
      req = none;
      resp = some (or_empty empty_resp resp);
      err = e;
      t = t;
      sess = sess;
      from = or_empty [] from;
    },
    tee_for (join dir (itoa sess ++ codes "_resp")) resp,
  )
