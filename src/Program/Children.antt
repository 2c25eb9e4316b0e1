-- ===== src/Program/Children.antt =====
-- What the children of the program answer, with the identifiers that they draw: the child's part of
-- `HttpsServer::clientIntakeCycle`, of src/server/src/http/https_server.cc, with the handler of
-- src/main/server.cc.
use https_http_server.Shared.{
  ℕ, suc, ◌+◌, ◌≤◌, ◌<◌, ◌≡◌, refl, ap, subst, ◌∙◌, List, [], ◌∷◌, ◌++◌, map, Text, codes, Bool,
  true, false, length, All, if◌then◌else◌, some, find, Bool-cases, inl, inr,
}
use https_http_server.Message.Method.{Method}
use https_http_server.Message.Envelope.{JsonLib, Request, Response, make_resp}
use https_http_server.Routing.Tree.Table.{same_place}
use https_http_server.Routing.Router.{RouterManager}
use https_http_server.Routing.Router.Dispatch.{Registration}
use https_http_server.Codec.Parse.{Parsed, ok, refused, thrown, exhausted, ◌>>=◌}
use https_http_server.Codec.Parse
use https_http_server.Codec.Serialize.{serialize}
use https_http_server.Codec.Process.Answering.{response_to}
use https_http_server.Connection.Socket.{
  reception_buf_limit, TlsRead, got, TlsWrite, Sent, returned,
}
use https_http_server.Connection.Http.Sends.{room}
use https_http_server.Connection.Https.{process_connection}
use https_http_server.Connection.Https.Receives.{payload, Fills}
use https_http_server.Connection.Https.Sends.{plain, Writes}
use https_http_server.Connection.Https.Serving.{process_connection-true}
use https_http_server.Server.Children.{Generator, draw_id}
use https_http_server.Server.Children.Identifiers.{id_at}
use https_http_server.Program.{registered}
use https_http_server.Program.Answers.{only_route, registered-calls, only_answer}

module _ (J : JsonLib) (G : Generator) where
  -- `connection.process()` in a child that starts with the generator `g`, at the time `now`. The
  -- parser draws an identifier for a request that it accepts, and the handler of `/uni` the next; where
  -- there is no request, `makeResp` draws one, which is the child's first then.
  unfoldable pub child_process :
      ℕ → G.State → RouterManager J → ℕ → List TlsRead → List TlsWrite → Text → Sent TlsWrite
  unfolding draw_id process_connection registered
  child_process now g manager bufsize reads writes wire =
      let (id, g') = draw_id G g in
      let (first, g'') = G.next g' in
      let (second, g''') = G.next g'' in
      process_connection J now id id (registered J now first second manager) bufsize reads writes
        wire

  -- Whether what the parser gives is a request for `/uni`.
  abbrev pub asks_uni : Parsed (Request J) → Bool
  asks_uni (ok req) = same_place Method.get (codes "/uni") req.method req.path
  asks_uni _ = false

  -- What the child reads of a text, and its response, or the exception.
  abbrev pub child_request : G.State → Text → Parsed (Request J)
  child_request g raw = Parse.parse J (id_at G g 0) raw

  abbrev pub child_routes : ℕ → G.State → List (Registration J)
  child_routes now g =
      let (first, g'') = G.next (draw_id G g).1 in only_route J now first (G.next g'').0

  abbrev pub child_response : ℕ → G.State → Text → Parsed (Response J)
  child_response now g raw =
      response_to J now (id_at G g 0) (child_routes now g) (child_request g raw)

  abbrev pub HasId : Text → Parsed (Request J) → Type 0
  HasId id (ok req) = req.id ≡ id
  HasId id _ = Unit

  HasId-bind :
      {A : Type 0} (id : Text) (m : Parsed A) (f : A → Parsed (Request J))
      → ((a : A) → HasId id (f a))
      → HasId id (m >>= f)
  HasId-bind id (ok a) f h = h a
  HasId-bind id refused f h = tt
  HasId-bind id thrown f h = tt
  HasId-bind id exhausted f h = tt

  parse-HasId : (id raw : Text) → HasId id (Parse.parse J id raw)
  unfolding Parse.parse
  parse-HasId id raw = HasId-bind id (Parse.require_found (find Parse.crlf raw)) _ λ end_targets.
      HasId-bind id (Parse.substr 0 (some end_targets) raw) _ λ targets.
        HasId-bind id (Parse.parse_target targets) _ λ target.
          HasId-bind id (Parse.substr (end_targets + 2) (find Parse.crlf_crlf raw) raw) _ λ headers.
            HasId-bind id (Parse.parse_headers headers) _ λ fields.
              HasId-bind id (Parse.parse_body J (find Parse.crlf_crlf raw) raw) _ λ body. refl

  -- The response, if there is one, has one header field, with the identifier.
  abbrev pub Identifies : Text → Response J → Type 0
  Identifies id r = r.headers ≡ (codes "X-Request-Id", id) ∷ []

  abbrev AnyIdentifies : Text → Parsed (Response J) → Type 0
  AnyIdentifies id (ok r) = Identifies id r
  AnyIdentifies id _ = Unit

  headers_of :
      (now : ℕ) (g : G.State) (p : Parsed (Request J))
      → HasId (id_at G g 0) p
      → AnyIdentifies
          (id_at G g (if asks_uni p then 1 else 0))
          (response_to J now (id_at G g 0) (child_routes now g) p)
  unfolding make_resp draw_id
  headers_of now g refused h = refl
  headers_of now g thrown h = tt
  headers_of now g exhausted h = tt
  headers_of now g (ok req) h =
      ap (λ r. r.headers) (only_answer J now _ _ req.method req.path req)
      ∙ elim (Bool-cases (same_place Method.get (codes "/uni") req.method req.path)) [
        | inl y ↦ rw y refl
        | inr n ↦ rw n (ap (λ i. (codes "X-Request-Id", i) ∷ []) h)
      ]

  -- A child that starts with the generator `g`, and that receives a text over TLS in reads that fill
  -- the buffer and a shorter last one, below the limit together, where the parser does not throw, every
  -- `SSL_write` gets on and they have room for the response: `process` returns `true`, the wire has got
  -- the printed response, and that response has one header field, `X-Request-Id`, with the second identifier that `g` gives
  -- where the text is a request for `/uni`, and with the first one where it is not.
  pub child_process-child_response :
      (now : ℕ) (g : G.State) (manager : RouterManager J) (bufsize : ℕ) (es rest : List TlsRead)
      (c : ℕ) (tail : Text) (writes : List TlsWrite) (wire : Text) (r : Response J)
      → All (Fills bufsize) es
      → suc (length tail) < bufsize
      → length (payload es) + suc (length tail) < reception_buf_limit
      → All Writes writes
      → child_response now g (payload es ++ c ∷ tail) ≡ ok r
      → length (serialize J r) ≤ room (map plain writes)
      → ((child_process now g manager bufsize (es ++ got c tail ∷ rest) writes wire).result
          ≡ returned true)
        × ((child_process now g manager bufsize (es ++ got c tail ∷ rest) writes wire).wire
            ≡ wire ++ serialize J r)
        × Identifies
            (id_at G g (if asks_uni (child_request g (payload es ++ c ∷ tail)) then 1 else 0))
            r
  unfolding child_process
  child_process-child_response now g manager bufsize es rest c tail writes wire r fills short small
        hw answered fits =
      let first = (G.next (draw_id G g).1).0 in
      let second = (G.next (G.next (draw_id G g).1).1).0 in
      let id = id_at G g 0 in
      let (done, all) =
        process_connection-true J now id id manager (only_route J now first second) bufsize es rest
          c tail writes wire (serialize J r) fills short small hw
          (ap (λ p. p >>= λ x. ok (serialize J x)) answered) fits in
      let same = registered-calls J now first second manager in
      let raw = payload es ++ c ∷ tail in
      (
        ap
              (λ m.
                (process_connection J now id id m bufsize (es ++ got c tail ∷ rest) writes
                  wire).result)
              same
            ∙ done,
        ap
              (λ m.
                (process_connection J now id id m bufsize (es ++ got c tail ∷ rest) writes
                  wire).wire)
              same
            ∙ all,
        subst (AnyIdentifies (id_at G g (if asks_uni (child_request g raw) then 1 else 0))) answered
            (headers_of now g (child_request g raw) (parse-HasId id raw)),
      )
