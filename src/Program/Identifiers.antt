-- ===== src/Program/Identifiers.antt =====
-- Which request identifiers the clients of the TLS server are sent.
use https_http_server.Shared.{
  ℕ, suc, ◌≡◌, refl, sym, ap, subst, ◌∙◌, List, [], ◌++◌, map, Text, true, false, All, get_elem?,
  get_elem?-map, some, some-injective, if◌then◌else◌,
}
use https_http_server.Message.Envelope.{JsonLib, Response}
use https_http_server.Routing.Router.{RouterManager}
use https_http_server.Codec.Serialize.{serialize}
use https_http_server.Connection.Socket.{TlsWrite, Sent}
use https_http_server.Server.Children.{Generator, Visit, Parent, tls_rounds}
use https_http_server.Server.Children.Identifiers.{IsVisit, handed, id_at, copy_at, tls_rounds-ids}
use https_http_server.Server.Intake.{Peer}
use https_http_server.Program.Children.{
  child_process, child_request, asks_uni, Identifies, child_process-child_response,
}
use https_http_server.Program.Service.{Talk, reads_of, text_of, Suits}

module _ (J : JsonLib) (G : Generator) where
  -- What a child sends over the connection of its client.
  abbrev pub sends : RouterManager J → G.State → Talk → Sent TlsWrite
  sends manager c t = child_process J G t.now c manager t.bufsize (reads_of t) t.writes []

  -- What is sent is a printed response whose header field `X-Request-Id` is the identifier.
  abbrev pub Carries : Text → Text → Type 0
  Carries id wire = (r : Response J) × (wire ≡ serialize J r) × Identifies J G id r

  sends-Carries :
      (manager : RouterManager J) (c : G.State) (t : Talk)
      → Suits J G c t
      → Carries
          (id_at G c (if asks_uni J G (child_request J G c (text_of t)) then 1 else 0))
          (sends manager c t).wire
  sends-Carries manager c t (fills, short, small, hw, r, answered, fits) =
      let (done, wire, headers) =
        child_process-child_response J G t.now c manager t.bufsize t.full t.rest t.first t.tail
          t.writes [] r fills short small hw answered fits in
      (r, wire, headers)

  copy_lem :
      (visits : List Visit) (s : Parent G) (i : ℕ) (x : ℕ × Peer) (c : G.State)
      → All IsVisit visits
      → s.copies ≡ []
      → get_elem? (handed 0 visits) i ≡ some x
      → get_elem? (tls_rounds G visits s).copies i ≡ some c
      → c ≡ copy_at G s.generator x
  copy_lem visits s i x c h none_yet at copy =
      let g = s.generator in
      let copies : (tls_rounds G visits s).copies ≡ map (copy_at G g) (handed 0 visits) =
        (tls_rounds-ids G g visits s h refl).2
        ∙ ap (λ cs. cs ++ map (copy_at G g) (handed 0 visits)) none_yet in
      some-injective c (copy_at G g x) (
        sym copy
        ∙ (ap (λ cs. get_elem? cs i) copies ∙ get_elem?-map (copy_at G g) (handed 0 visits) i x at))

  -- The loop, from its start, on any clients that come with descriptors above 0, where it hands two
  -- clients that `accept` has given one behind the other to children, the first of which asks for
  -- `/uni` and the second for anything else, or for nothing that the parser accepts; where the parser
  -- throws on neither text, the reads fill the buffer but for a shorter last one, and the writes get on
  -- and have room: what either child sends is a printed response, and the header field `X-Request-Id`
  -- of both is the same, the identifier that the loop draws for the next client.
  pub tls_rounds-same_id :
      (manager : RouterManager J) (visits : List Visit) (s : Parent G) (i n : ℕ) (p p' : Peer)
      (c c' : G.State) (t t' : Talk)
      → All IsVisit visits
      → s.copies ≡ []
      → get_elem? (handed 0 visits) i ≡ some (n, p)
      → get_elem? (handed 0 visits) (suc i) ≡ some (suc n, p')
      → get_elem? (tls_rounds G visits s).copies i ≡ some c
      → get_elem? (tls_rounds G visits s).copies (suc i) ≡ some c'
      → Suits J G c t
      → Suits J G c' t'
      → asks_uni J G (child_request J G c (text_of t)) ≡ true
      → asks_uni J G (child_request J G c' (text_of t')) ≡ false
      → Carries (id_at G s.generator (suc (suc n))) (sends manager c t).wire
        × Carries (id_at G s.generator (suc (suc n))) (sends manager c' t').wire
  tls_rounds-same_id manager visits s i n p p' c c' t t' h none_yet at at' copy copy' suit suit' uni
        other =
      let e = copy_lem visits s i (n, p) c h none_yet at copy in
      let e' = copy_lem visits s (suc i) (suc n, p') c' h none_yet at' copy' in
      let same : id_at G c (if asks_uni J G (child_request J G c (text_of t)) then 1 else 0)
          ≡ id_at G s.generator (suc (suc n)) =
        ap (λ b. id_at G c (if b then 1 else 0)) uni ∙ ap (λ d. id_at G d 1) e in
      let same' : id_at G c' (if asks_uni J G (child_request J G c' (text_of t')) then 1 else 0)
          ≡ id_at G s.generator (suc (suc n)) =
        ap (λ b. id_at G c' (if b then 1 else 0)) other ∙ ap (λ d. id_at G d 0) e' in
      (
        subst (λ id. Carries id (sends manager c t).wire) same (sends-Carries manager c t suit),
        subst (λ id. Carries id (sends manager c' t').wire) same'
            (sends-Carries manager c' t' suit'),
      )
