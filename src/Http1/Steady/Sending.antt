-- ===== src/Http1/Steady/Sending.antt =====
-- What a stream sends keeps a steady predicate of the protocol (protocol/h11.py, `stream_send`).
use nonecorn.Http1.Steady.{Sends, Steady}
use nonecorn.Http1.Steady.Closing.{Kept, send_io-Keeps, maybe_recycle-Keeps}
use nonecorn.Prelude.{◌||◌, not, ◌∷◌, ℕ, some, refl, none, [], Option, List, Bool}
use nonecorn.Bytes.{Bytes, Text}
use nonecorn.Exec.{when, throw, Action, local_protocol_error, type_error}
use nonecorn.Exec.Keeps.{Keeps-throw, Keeps-pass, Keeps-if, Keeps-bind, Keeps-when}
use nonecorn.Stream.{World}
use nonecorn.Stream.Keeps.{stream_rules}
use nonecorn.Asgi.{Header, StreamEvent}
use nonecorn.Http1.H11.{H11, Sendable, Chunk}
use nonecorn.Http1.State.{Http1, IoEvent, send_io, Settings, Files}
use nonecorn.Http1.Send.{
  send_h11_event, send_made, send_error_response, send_chunks, send_file, zero_copy, send_response,
  stream_send, is_passthrough, is_error,
}

module _ (h : H11) (P : Http1 h → Type 0) (sending : Sends h P) where
  module _ {S : Type 0} where
    abbrev with_connection : h.Connection → World S (Http1 h) → World S (Http1 h)
    with_connection c w = record w { rest = record w.rest { connection = c } }

    after_send-Keeps :
        (bytes : Option Bytes) (fails : Bool)
        → Kept h P {S = S} (λ w. elim bytes [
          | some bytes ↦ send_io (IoEvent.raw_bytes bytes) w
          | none ↦ when fails (throw local_protocol_error) w
        ])
    after_send-Keeps none fails = Keeps-when fails _ (Keeps-throw local_protocol_error)
    after_send-Keeps (some bytes) fails = send_io-Keeps h P sending _ refl

    pub send_h11_event-Keeps : (event : Sendable) → Kept h P {S = S} (send_h11_event h event)
    unfolding send_h11_event
    send_h11_event-Keeps event = record {
      at = λ w r.
          let c : h.Connection = (h.send event w.rest.connection).1 in
          (after_send-Keeps (h.send event w.rest.connection).0
              (is_passthrough w.rest.passthrough || not (is_error (h.their_state c)))).at
            (with_connection c w) (record { rest = sending.sends w.rest event r.rest });
    }

    pub send_made-Keeps : (event : Sendable) → Kept h P {S = S} (send_made h event)
    unfolding send_made
    send_made-Keeps event =
        Keeps-if (h.accepts event) (send_h11_event h event) (throw local_protocol_error)
          (send_h11_event-Keeps event) (Keeps-throw local_protocol_error)

    pub send_error_response-Keeps :
        (headers : List Header) (status : ℕ)
        → Kept h P {S = S} (send_error_response h headers status)
    unfolding send_error_response
    send_error_response-Keeps headers status = search (stream_rules, send_made-Keeps)

    send_chunks-Keeps :
        (file offset count : ℕ) (chunks : List Chunk)
        → Kept h P {S = S} (send_chunks h file offset count chunks)
    unfolding send_chunks
    send_chunks-Keeps file offset count [] = Keeps-pass
    send_chunks-Keeps file offset count (Chunk.bytes bytes ∷ chunks) =
        Keeps-bind _ _ (send_io-Keeps h P sending _ refl)
          (λ x. send_chunks-Keeps file offset count chunks)
    send_chunks-Keeps file offset count (Chunk.file ∷ chunks) =
        Keeps-bind _ _ (send_io-Keeps h P sending _ refl)
          (λ x. send_chunks-Keeps file offset count chunks)

    after_file-Keeps :
        (file offset count : ℕ) (chunks : Option (List Chunk))
        → Kept h P {S = S} (λ w. elim chunks [
          | none ↦ throw local_protocol_error w
          | some chunks ↦ send_chunks h file offset count chunks w
        ])
    after_file-Keeps file offset count none = Keeps-throw local_protocol_error
    after_file-Keeps file offset count (some chunks) = send_chunks-Keeps file offset count chunks

    send_file-Keeps : (file offset count : ℕ) → Kept h P {S = S} (send_file h file offset count)
    unfolding send_file
    send_file-Keeps file offset count = record {
      at = λ w r.
          let c : h.Connection = (h.send_file count w.rest.connection).1 in
          (after_file-Keeps file offset count (h.send_file count w.rest.connection).0).at
            (with_connection c w) (record { rest = sending.sends_file w.rest count r.rest });
    }

    zero_copy-Keeps :
        (files : Files) (file offset count : Option ℕ)
        → Kept h P {S = S} (zero_copy h files file offset count)
    unfolding zero_copy
    zero_copy-Keeps files none offset count = Keeps-throw type_error
    zero_copy-Keeps files (some file) offset none = search (stream_rules, send_file-Keeps)
    zero_copy-Keeps files (some file) offset (some count) = send_file-Keeps file _ count

    send_response-Keeps :
        (settings : Settings) (headers : List Header) (status : ℕ) (reason : Text)
        → Kept h P {S = S} (send_response h settings headers status reason)
    unfolding send_response
    send_response-Keeps settings headers status reason =
        search (stream_rules, send_made-Keeps) depth 12

module _ (h : H11) (P : Http1 h → Type 0) (steady : Steady h P) where
  module _ {S : Type 0} where
    pub stream_send-Keeps :
        (settings : Settings) (files : Files) (close : Action (World S (Http1 h)))
        → Kept h P {S = S} close
        → (event : StreamEvent) → Kept h P {S = S} (stream_send h settings files close event)
    unfolding stream_send
    stream_send-Keeps settings files close keeps (StreamEvent.response id headers status reason) =
        send_response-Keeps h P steady.sending settings headers status reason
    stream_send-Keeps settings files close keeps (StreamEvent.body id bytes flush) =
        send_h11_event-Keeps h P steady.sending _
    stream_send-Keeps settings files close keeps (StreamEvent.zero_copy_send id file offset count) =
        zero_copy-Keeps h P steady.sending files file offset count
    stream_send-Keeps settings files close keeps (StreamEvent.end_body id headers) =
        send_made-Keeps h P steady.sending _
    stream_send-Keeps settings files close keeps (StreamEvent.trailer_headers_send id headers end) =
        send_made-Keeps h P steady.sending _
    stream_send-Keeps settings files close keeps (StreamEvent.ws_data id bytes flush) =
        send_io-Keeps h P steady.sending _ refl
    stream_send-Keeps settings files close keeps (StreamEvent.stream_closed id) =
        maybe_recycle-Keeps h P steady close keeps
    stream_send-Keeps settings files close keeps _ = Keeps-pass
