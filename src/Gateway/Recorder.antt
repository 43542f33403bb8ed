-- ===== src/Gateway/Recorder.antt =====
-- sdk/go/gateway/response_recorder.go over the `http.ResponseWriter` of net/http.
-- An informational status (100 to 199, but for 101) leaves that writer open for the final one.
-- The body that net/http drops for HEAD, 204 and 304 is not told apart here.
pub mod Final
use stellarmesh_sdk.Base.{
  ℕ, Bool, true, false, not, ◌&&◌, List, [], ◌∷◌, ◌++◌, Option, none, some, leb, eqb, if◌then◌else◌,
}
use stellarmesh_sdk.Text.{Text}
use stellarmesh_sdk.Gateway.Header
use stellarmesh_sdk.Gateway.Header.{Header, no_header}
use stellarmesh_sdk.Gateway.Types.{Panic}

-- `final` holds the final status and the header at the time it was written.
pub record Writer : Type 0 where
  pub header : Header
  pub informational : List ℕ
  pub final : Option (ℕ × Header)
  pub body : Text

abbrev pub is_informational : ℕ → Bool
is_informational status = leb 100 status && leb status 199 && not (eqb status 101)

send_status : ℕ → Writer → Option (ℕ × Header) → Writer
send_status status w none =
    if is_informational status
    then record w { informational = w.informational ++ status ∷ [] }
    else record w { final = some (status, w.header) }
send_status status w (some sent) = w

-- `WriteHeader` of net/http.
unfoldable pub writer_write_header : ℕ → Writer → Writer
unfolding send_status
writer_write_header status w = send_status status w w.final

-- `Write` of net/http: it sends status 200 if none was sent.
unfoldable pub writer_write : Text → Writer → Writer
writer_write body w = let w' = writer_write_header 200 w in record w' { body = w'.body ++ body }

pub record Recorder : Type 0 where
  pub status : ℕ
  pub wrote_header : Bool
  pub writer : Writer

unfoldable pub new_recorder : Writer → Recorder
new_recorder w = record { status = 200; wrote_header = false; writer = w }

unfoldable pub write_header : ℕ → Recorder → Recorder
write_header status r = if r.wrote_header then r else record r {
  status = status;
  wrote_header = true;
  writer = writer_write_header status r.writer;
}

unfoldable pub write : Text → Recorder → Recorder
write body r =
    let r' = if r.wrote_header then r else write_header 200 r in
    record r' { writer = writer_write body r'.writer }

-- The calls that a handler makes of its `http.ResponseWriter`.
pub data WriterCall : Type 0 where
  set_header add_header : Text → Text → WriterCall
  del_header : Text → WriterCall
  send_header : ℕ → WriterCall
  send_body : Text → WriterCall

abbrev with_header : Recorder → (Header → Header) → Recorder
with_header r f = record r { writer = record (r.writer) { header = f r.writer.header } }

unfoldable pub run_call : WriterCall → Recorder → Recorder
run_call (set_header name v) r = with_header r (λ h. Header.set h name v)
run_call (add_header name v) r = with_header r (λ h. Header.add h name v)
run_call (del_header name) r = with_header r (λ h. Header.del h name)
run_call (send_header status) r = write_header status r
run_call (send_body body) r = write body r

unfoldable pub run_calls : List WriterCall → Recorder → Recorder
run_calls [] r = r
run_calls (c ∷ cs) r = run_calls cs (run_call c r)

-- What a handler does: its calls in order, and whether it then panics.
pub record Reply : Type 0 where
  pub calls : List WriterCall
  pub panic : Option Panic
