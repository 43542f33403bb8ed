-- ===== src/Gateway/Recorder/Final.antt =====
-- The status that a response ends with.
use stellarmesh_sdk.Base.{ℕ, ◌≡◌, refl, Bool, true, false, List, [], ◌∷◌, none, some, arith, ◌∙◌}
use stellarmesh_sdk.Text.{Text}
use stellarmesh_sdk.Gateway.Recorder.{
  Writer, is_informational, send_status, writer_write_header, writer_write, Recorder, new_recorder,
  write_header, write, WriterCall, set_header, add_header, del_header, send_header, send_body,
  run_call, run_calls,
}

-- A call of a handler that has started its response changes neither the status nor that fact.
run_call-status :
    (c : WriterCall) (r : Recorder)
    → r.wrote_header ≡ true
    → ((run_call c r).status ≡ r.status) × ((run_call c r).wrote_header ≡ true)
unfolding run_call write_header write
run_call-status (set_header name v) r started = ground arith
run_call-status (add_header name v) r started = ground arith
run_call-status (del_header name) r started = ground arith
run_call-status (send_header status) r started = ground arith
run_call-status (send_body body) r started = ground arith

-- Once a response was started, no sequence of the handler's calls changes the recorded status or
-- the fact that it was started.
pub run_calls-status :
    (calls : List WriterCall) (r : Recorder)
    → r.wrote_header ≡ true
    → ((run_calls calls r).status ≡ r.status) × ((run_calls calls r).wrote_header ≡ true)
unfolding run_calls
run_calls-status [] r started = (refl, started)
run_calls-status (c ∷ cs) r started =
    let (same, started') = run_call-status c r started in
    let (same', started'') = run_calls-status cs (run_call c r) started' in
    (same' ∙ same, started'')

-- The handler sends a status or a part of the body.
abbrev pub starts : List WriterCall → Bool
starts [] = false
starts (send_header status ∷ cs) = true
starts (send_body body ∷ cs) = true
starts (set_header name v ∷ cs) = starts cs
starts (add_header name v ∷ cs) = starts cs
starts (del_header name ∷ cs) = starts cs

send_header-started :
    (status : ℕ) (r : Recorder) → (run_call (send_header status) r).wrote_header ≡ true
unfolding run_call write_header
send_header-started status r = ground arith

send_body-started : (body : Text) (r : Recorder) → (run_call (send_body body) r).wrote_header ≡ true
unfolding run_call write_header write
send_body-started body r = ground arith

pub run_calls-started :
    (calls : List WriterCall) (r : Recorder)
    → starts calls ≡ true
    → (run_calls calls r).wrote_header ≡ true
unfolding run_calls
run_calls-started [] r h = cc
run_calls-started (send_header status ∷ cs) r h =
    (run_calls-status cs _ (send_header-started status r)).1
run_calls-started (send_body body ∷ cs) r h = (run_calls-status cs _ (send_body-started body r)).1
run_calls-started (set_header name v ∷ cs) r h = run_calls-started cs _ h
run_calls-started (add_header name v ∷ cs) r h = run_calls-started cs _ h
run_calls-started (del_header name ∷ cs) r h = run_calls-started cs _ h

-- On a writer with no final status, a handler that sends an informational status, then a final one
-- and a body, ends with the informational status on the recorder, and the client is sent the final
-- status 200 instead of the handler's.
pub informational_drops_final :
    (w : Writer) (early status : ℕ) (body : Text)
    → w.final ≡ none
    → is_informational early ≡ true
    → let r =
        run_calls (send_header early ∷ send_header status ∷ send_body body ∷ []) (new_recorder w) in
      (r.status ≡ early) × (r.writer.final ≡ some (200, w.header))
unfolding run_calls run_call write_header write writer_write_header writer_write send_status
    new_recorder
informational_drops_final w early status body open_writer h = ground arith
