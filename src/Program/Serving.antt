-- ===== src/Program/Serving.antt =====
-- A request for `/uni` that arrives over TLS.
use https_http_server.Shared.{
  ℕ, suc, ◌+◌, ◌≤◌, ◌<◌, ◌≡◌, refl, ap, ◌∙◌, List, [], ◌∷◌, ◌++◌, map, Text, codes, true, take,
  length, All, text_eq, find, find_byte,
}
use https_http_server.Message.Method.{Method, method_name}
use https_http_server.Message.Fields.{Fields, has}
use https_http_server.Message.Envelope.{JsonLib}
use https_http_server.Routing.Tree.Table.{same_place}
use https_http_server.Routing.Tree.Routes.{route_to_add, route_to_get}
use https_http_server.Routing.Router.{RouterManager}
use https_http_server.Codec.Parse.{ok, ◌>>=◌, parse}
use https_http_server.Codec.Parse.Search.{IsLine}
use https_http_server.Codec.Parse.TargetLine.{target_line}
use https_http_server.Codec.Parse.Whole.{body_of}
use https_http_server.Codec.Parse.RoundTrip.{IsField, AreFresh, print_request, parse-print_request}
use https_http_server.Codec.Serialize.{serialize}
use https_http_server.Codec.Process.Answering.{request, response_to}
use https_http_server.Connection.Socket.{reception_buf_limit, TlsRead, got, TlsWrite, returned}
use https_http_server.Connection.Http.Sends.{room}
use https_http_server.Connection.Http.Serving.{answer_text}
use https_http_server.Connection.Https.{process_connection}
use https_http_server.Connection.Https.Receives.{payload, Fills}
use https_http_server.Connection.Https.Sends.{plain, Writes}
use https_http_server.Connection.Https.Serving.{process_connection-true}
use https_http_server.Program.{registered}
use https_http_server.Program.Answers.{uni_response, only_route, registered-calls, only_answer}

module _ (J : JsonLib) where
  abbrev pub uni_request : Fields → Text → Text
  uni_request fs body = print_request Method.get (codes "/uni") (codes "HTTP/1.1") fs body

  -- The first line of the request, read by the parser.
  target_line-IsLine :
      IsLine (target_line (method_name Method.get) (codes "/uni") (codes "HTTP/1.1"))
  unfolding method_name find
  target_line-IsLine = refl

  pub same_uni : same_place Method.get (codes "/uni") Method.get (codes "/uni") ≡ true
  unfolding route_to_add route_to_get text_eq
  same_uni = refl

  -- What the parser makes of the request, and the response to that.
  pub parse-uni_request :
      (id : Text) (fs : Fields) (body : Text) (json : J.Json)
      → All IsField fs
      → AreFresh [] fs
      → has (codes "Host") fs ≡ true
      → body_of J body ≡ ok json
      → IsLine (take 15 body)
      → parse J id (uni_request fs body)
        ≡ ok (request J id Method.get (codes "/uni") (codes "HTTP/1.1") fs json)
  unfolding method_name find_byte
  parse-uni_request id fs body json hf fresh host hb spill =
      parse-print_request J id Method.get (codes "/uni") (codes "HTTP/1.1") fs body json (λ e. cc)
        refl target_line-IsLine hf fresh host hb spill

  pub response_to-uni :
      (now first second : ℕ) (id id' : Text) (fs : Fields) (json : J.Json)
      → response_to J now id'
          (only_route J now first second)
          (ok (request J id Method.get (codes "/uni") (codes "HTTP/1.1") fs json))
        ≡ ok (uni_response J now first second)
  response_to-uni now first second id id' fs json = ap ok (
      only_answer J now first second Method.get (codes "/uni")
        (request J id Method.get (codes "/uni") (codes "HTTP/1.1") fs json)
      ∙ rw (same_uni) refl)

  uni_answer :
      (now first second : ℕ) (id id' : Text) (fs : Fields) (body : Text) (json : J.Json)
      → All IsField fs
      → AreFresh [] fs
      → has (codes "Host") fs ≡ true
      → body_of J body ≡ ok json
      → IsLine (take 15 body)
      → answer_text J now id id' (only_route J now first second) (uni_request fs body)
        ≡ ok (serialize J (uni_response J now first second))
  uni_answer now first second id id' fs body json hf fresh host hb spill =
      ap (λ p. response_to J now id' (only_route J now first second) p >>= λ r. ok (serialize J r))
        (parse-uni_request id fs body json hf fresh host hb spill)
      ∙ ap (λ p. p >>= λ r. ok (serialize J r)) (response_to-uni now first second id id' fs json)

  -- In the program: a `GET` of `/uni` that a client prints, whatever its header fields and its body, and
  -- that arrives over TLS, in reads that fill the buffer and a shorter last one, below the limit
  -- together, is answered whole: where every `SSL_write` gets on and they have room for the response,
  -- `process` returns `true`, and the wire has got the printed response with the result code `success`,
  -- the message and a new identifier. The fields are such that a line can carry them, differ in more
  -- than case, and name the host; the JSON library reads the body; and the body has no line end in its
  -- first 15 bytes.
  pub process_connection-uni :
      (now first second : ℕ) (id id' : Text) (rm : RouterManager J) (bufsize : ℕ)
      (es rest : List TlsRead) (c : ℕ) (tail : Text) (writes : List TlsWrite) (wire : Text)
      (fs : Fields) (body : Text) (json : J.Json)
      → All IsField fs
      → AreFresh [] fs
      → has (codes "Host") fs ≡ true
      → body_of J body ≡ ok json
      → IsLine (take 15 body)
      → payload es ++ c ∷ tail ≡ uni_request fs body
      → All (Fills bufsize) es
      → suc (length tail) < bufsize
      → length (payload es) + suc (length tail) < reception_buf_limit
      → All Writes writes
      → length (serialize J (uni_response J now first second)) ≤ room (map plain writes)
      → ((process_connection J now id id'
            (registered J now first second rm)
            bufsize
            (es ++ got c tail ∷ rest)
            writes
            wire).result
          ≡ returned true)
        × ((process_connection J now id id'
              (registered J now first second rm)
              bufsize
              (es ++ got c tail ∷ rest)
              writes
              wire).wire
            ≡ wire ++ serialize J (uni_response J now first second))
  process_connection-uni now first second id id' rm bufsize es rest c tail writes wire fs body json
        hf fresh host hb spill whole fills short small hw fits =
      let cs = only_route J now first second in
      let text = serialize J (uni_response J now first second) in
      let same : answer_text J now id id' cs (payload es ++ c ∷ tail) ≡ ok text =
        ap (answer_text J now id id' cs) whole
        ∙ uni_answer now first second id id' fs body json hf fresh host hb spill in
      let calls_same = registered-calls J now first second rm in
      let (done, all) =
        process_connection-true J now id id' rm cs bufsize es rest c tail writes wire text fills
          short small hw same fits in
      (
        ap
              (λ r.
                (process_connection J now id id' r bufsize (es ++ got c tail ∷ rest) writes
                  wire).result)
              calls_same
            ∙ done,
        ap
              (λ r.
                (process_connection J now id id' r bufsize (es ++ got c tail ∷ rest) writes
                  wire).wire)
              calls_same
            ∙ all,
      )
