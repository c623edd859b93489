-- ===== src/Http/Sending.antt =====
-- `HttpConnection::sendRequest` of myhttp/http/http_connection.cpp and `sendResponse` of
-- myhttp/http/http_session.cpp: the text of a message, written to the stream.
use http_practice.Prelude.{ℕ, suc, ◌^◌, ◌<◌, ◌≡◌, ◌≢◌, refl, ◌++◌, Option, some, length, true}
use http_practice.Prelude.Int.{pos}
use http_practice.Prelude.Text.{Bytes, is_line}
use http_practice.Prelude.Results.{ok}
use http_practice.Http.Codes.{HttpMethod, http_method_to_string}
use http_practice.Http.Message.{HttpRequest, HttpResponse, dump_request, dump_response, reason_text}
use http_practice.Http.Lines.{read_head}
use http_practice.Http.Dump.{
  request_lines, response_lines, IsWritable, IsClean, dump_request-read_head,
  dump_response-read_head,
}
use http_practice.Streams.Loops.{Ending, on_ok, write_fix_size}
use http_practice.Streams.Writing.{Sink, write_fix_size-all}

module _ {ℓ} {S : Type ℓ} (write : Bytes → S → Option ℕ × S) where
  unfoldable pub send_request : ℕ → HttpRequest → S → Ending S
  send_request fuel r s =
      on_ok (dump_request r) (λ text. write_fix_size write fuel text (length text) s)

  unfoldable pub send_response : ℕ → HttpResponse → S → Ending S
  send_response fuel r s =
      let text = dump_response r in write_fix_size write fuel text (length text) s

module _ {ℓ} {S : Type ℓ} (sink : Sink S) where
  pub send_request-read_head :
      (fuel : ℕ) (r : HttpRequest) (s : S)
      → r.method ≢ HttpMethod.invalid_method
      → IsWritable r
      → ((text : Bytes) → dump_request r ≡ ok text → (length text < fuel) × (length text < 2 ^ 31))
      → (text : Bytes) × (name : Bytes) × (t : S) × (send_request sink.write_some fuel r s
          ≡ some (ok (pos (length text), (text, t))))
        × (sink.sent t ≡ sink.sent s ++ text)
        × (http_method_to_string r.method ≡ ok name)
        × (read_head (suc (length (request_lines name r))) text
            ≡ some (request_lines name r, r.body))
  unfolding send_request
  send_request-read_head fuel r s named writable fits =
      let (text, run, (name, n, back)) = dump_request-read_head r named writable in
      let (enough, small) = fits text run in
      let (t, sends, e) = write_fix_size-all sink fuel (length text) text s refl enough small in
      (text, name, t, rw run e, sends, n, back)

  -- sendResponse of a response whose reason and headers have no CR and no header an empty name,
  -- and whose text is shorter than 2^31 bytes, to a peer that takes one byte at least of each
  -- write, ends with fuel for one turn more than the text, returns its length and sends exactly
  -- the text, from which a peer that reads lines up to the empty one gets back the status line,
  -- the headers but those named connection, the connection line, the content-length line if
  -- there is a body, and behind them exactly the body.
  pub send_response-read_head :
      (fuel : ℕ) (r : HttpResponse) (s : S)
      → is_line (reason_text r) ≡ true
      → IsClean r.headers
      → length (dump_response r) < fuel
      → length (dump_response r) < 2 ^ 31
      → (t : S) × (send_response sink.write_some fuel r s
          ≡ some (ok (pos (length (dump_response r)), (dump_response r, t))))
        × (sink.sent t ≡ sink.sent s ++ dump_response r)
        × (read_head (suc (length (response_lines r))) (dump_response r)
            ≡ some (response_lines r, r.body))
  unfolding send_response
  send_response-read_head fuel r s reason clean enough small =
      let text = dump_response r in
      let (t, sends, e) = write_fix_size-all sink fuel (length text) text s refl enough small in
      (t, e, sends, dump_response-read_head r reason clean)
