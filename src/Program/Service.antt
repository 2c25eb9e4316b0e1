-- ===== src/Program/Service.antt =====
-- The TLS server as a whole: the loop that takes the clients, and the children that answer them, each
-- over the connection of its client. The children run apart from each other, so their order is of no
-- account.
use https_http_server.Shared.{
  ℕ, suc, ◌+◌, ◌≤◌, ◌<◌, ◌≡◌, refl, sym, ap, ap₂, ◌∙◌, List, [], ◌∷◌, ◌++◌, map, Text, true, length,
  All,
}
use https_http_server.Message.Envelope.{JsonLib, Response}
use https_http_server.Routing.Router.{RouterManager}
use https_http_server.Codec.Parse.{Parsed, ok, ◌>>=◌}
use https_http_server.Codec.Serialize.{serialize}
use https_http_server.Connection.Socket.{
  reception_buf_limit, TlsRead, got, TlsWrite, Sent, returned,
}
use https_http_server.Connection.Http.Sends.{room}
use https_http_server.Connection.Https.Receives.{payload, Fills}
use https_http_server.Connection.Https.Sends.{plain, Writes}
use https_http_server.Server.Children.{Generator, Visit, Parent, tls_rounds}
use https_http_server.Server.Children.Identifiers.{IsVisit, handed, copy_at, tls_rounds-ids}
use https_http_server.Program.Children.{child_process, child_response, child_process-child_response}

-- What goes on over the connection of a client: the time, the reads before the last one, the last one
-- and those behind it, and the writes.
pub record Talk : Type 0 where
  pub now : ℕ
  pub bufsize : ℕ
  pub full : List TlsRead
  pub first : ℕ
  pub tail : Text
  pub rest : List TlsRead
  pub writes : List TlsWrite

abbrev pub reads_of : Talk → List TlsRead
reads_of t = t.full ++ got t.first t.tail ∷ t.rest

-- The text that arrives.
abbrev pub text_of : Talk → Text
text_of t = payload t.full ++ t.first ∷ t.tail

module _ (J : JsonLib) (G : Generator) where
  -- The children, on the generators that they have started with.
  unfoldable pub serve : RouterManager J → List G.State → List Talk → List (Sent TlsWrite)
  unfolding child_process
  serve manager [] talks = []
  serve manager (c ∷ copies) [] = []
  serve manager (c ∷ copies) (t ∷ talks) =
      child_process J G t.now c manager t.bufsize (reads_of t) t.writes []
      ∷ serve manager copies talks

  -- The printed responses, or exceptions.
  abbrev pub responses : List G.State → List Talk → List (Parsed Text)
  responses [] talks = []
  responses (c ∷ copies) [] = []
  responses (c ∷ copies) (t ∷ talks) =
      (child_response J G t.now c (text_of t) >>= λ r. ok (serialize J r)) ∷ responses copies talks

  -- The reads fill the buffer, but for a shorter last one, and are below the limit together; every
  -- write gets on; and the text has a response, as the parser does not throw, for which there is room.
  abbrev pub Suits : G.State → Talk → Type 0
  Suits c t =
      All (Fills t.bufsize) t.full
      × (suc (length t.tail) < t.bufsize)
      × (length (payload t.full) + suc (length t.tail) < reception_buf_limit)
      × All Writes t.writes
      × (r : Response J) × (child_response J G t.now c (text_of t) ≡ ok r)
      × (length (serialize J r) ≤ room (map plain t.writes))

  -- All talks, with the generators of their children.
  abbrev pub AllSuit : List G.State → List Talk → Type 0
  AllSuit [] talks = Unit
  AllSuit (c ∷ copies) [] = Unit
  AllSuit (c ∷ copies) (t ∷ talks) = Suits c t × AllSuit copies talks

  abbrev pub IsDone : Sent TlsWrite → Type 0
  IsDone s = s.result ≡ returned true

  serve-responses :
      (manager : RouterManager J) (copies : List G.State) (talks : List Talk)
      → AllSuit copies talks
      → (map (λ s. ok s.wire) (serve manager copies talks) ≡ responses copies talks)
        × All IsDone (serve manager copies talks)
  unfolding serve
  serve-responses manager [] talks h = (refl, tt)
  serve-responses manager (c ∷ copies) [] h = (refl, tt)
  serve-responses manager (c ∷ copies) (t ∷ talks)
        ((fills, short, small, hw, r, answered, fits), h) =
      let (done, wire, headers) =
        child_process-child_response J G t.now c manager t.bufsize t.full t.rest t.first t.tail
          t.writes [] r fills short small hw answered fits in
      let (wires, all) = serve-responses manager copies talks h in
      (
        ap₂ (λ x xs. x ∷ xs) (ap ok wire ∙ ap (λ p. p >>= λ x. ok (serialize J x)) (sym answered))
            wires,
        (done, all),
      )

  -- The server, from its start, on any clients that come with descriptors above 0, where each client
  -- that is handed to a child sends a text on which the parser does not throw, in reads that fill the
  -- buffer and a shorter last one, and takes the whole response: every child returns `true`, and each client gets the printed response of
  -- the program to its own text, which depends on nothing else than the time and how many clients
  -- `accept` has given before.
  pub serve-tls_rounds :
      (manager : RouterManager J) (visits : List Visit) (s : Parent G) (talks : List Talk)
      → All IsVisit visits
      → s.copies ≡ []
      → AllSuit (tls_rounds G visits s).copies talks
      → (map (λ s. ok s.wire) (serve manager (tls_rounds G visits s).copies talks)
          ≡ responses (map (copy_at G s.generator) (handed 0 visits)) talks)
        × All IsDone (serve manager (tls_rounds G visits s).copies talks)
  serve-tls_rounds manager visits s talks h none_yet suit =
      let copies : (tls_rounds G visits s).copies ≡ map (copy_at G s.generator) (handed 0 visits) =
        (tls_rounds-ids G s.generator visits s h refl).2
        ∙ ap (λ cs. cs ++ map (copy_at G s.generator) (handed 0 visits)) none_yet in
      let (wires, all) = serve-responses manager (tls_rounds G visits s).copies talks suit in
      (wires ∙ ap (λ cs. responses cs talks) copies, all)
