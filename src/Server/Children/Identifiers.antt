-- ===== src/Server/Children/Identifiers.antt =====
-- Which identifiers the clients get, and which generators the children.
use https_http_server.Shared.{
  ℕ, zero, suc, ◌≡◌, refl, sym, ap, ◌∙◌, List, [], ◌∷◌, ◌++◌, map, append_assoc, append-nil, Text,
  Option, none, some, Bool, true, false, ◌&&◌, if◌then◌else◌, All,
}
use https_http_server.Connection.Descriptor.{
  ℤ, pos, negsuc, is_positive, ClientConnection, drop_client,
}
use https_http_server.Server.Intake.{
  Peer, Handshake, no_ssl, refused, accepted, accept_connection, ssl_handshake, tls_intake,
}
use https_http_server.Server.Children.{
  Generator, Visit, draw_id, arrive, Parent, tls_round, tls_rounds,
}

-- `accept` gives descriptors above 0.
abbrev pub IsVisit : Visit → Type 0
IsVisit v = elim v.peer [ none ↦ Unit | some p ↦ is_positive p.sockfd ≡ true ]

-- Whether a client is handed to a child.
abbrev pub is_served : Visit → Bool
is_served v = elim v.handshake [ accepted ↦ true | _ ↦ false ] && v.is_forked

-- The clients that are handed to children, each with its number among all that `accept` has given,
-- of which the first has the number `n`.
abbrev pub handed : ℕ → List Visit → List (ℕ × Peer)
handed n [] = []
handed n (v ∷ visits) = elim v.peer [
  | none ↦ handed n visits
  | some p ↦ if is_served v then (n, p) ∷ handed (suc n) visits else handed (suc n) visits
]

-- How many clients `accept` has given.
abbrev pub arrived : ℕ → List Visit → ℕ
arrived n [] = n
arrived n (v ∷ visits) = elim v.peer [ none ↦ arrived n visits | some p ↦ arrived (suc n) visits ]

module _ (G : Generator) where
  -- The generator when so many identifiers have been drawn, and the next one that it gives.
  abbrev pub after_ids : ℕ → G.State → G.State
  after_ids zero g = g
  after_ids (suc n) g = (draw_id G (after_ids n g)).1

  abbrev pub id_at : G.State → ℕ → Text
  id_at g n = (draw_id G (after_ids n g)).0

  -- The client with a number, as its child has it.
  abbrev pub client_at : G.State → ℕ × Peer → ClientConnection
  client_at g (n, p) = record { id = id_at g n; sockfd = p.sockfd; ip = p.ip; port = p.port }

  abbrev pub copy_at : G.State → ℕ × Peer → G.State
  copy_at g (n, p) = after_ids (suc n) g

  -- What a number of rounds does to the generator, the children and the copies.
  abbrev pub Hands : G.State → ℕ → List Visit → Parent G → Parent G → Type 0
  Hands g n visits s s' =
      (s'.generator ≡ after_ids (arrived n visits) g)
      × (s'.intake.children ≡ s.intake.children ++ map (client_at g) (handed n visits))
      × (s'.copies ≡ s.copies ++ map (copy_at g) (handed n visits))

  abbrev pub visit : Option Peer → Handshake → Bool → Visit
  visit peer h f = record { peer = peer; handshake = h; is_forked = f }

  round_one :
      (g : G.State) (n : ℕ) (fd : ℤ) (ip : Text) (port : ℕ) (h : Handshake) (f : Bool)
      (s : Parent G)
      → is_positive fd ≡ true
      → s.generator ≡ after_ids n g
      → Hands g n
          (visit (some (record { sockfd = fd; ip = ip; port = port })) h f ∷ [])
          s
          (tls_round G (visit (some (record { sockfd = fd; ip = ip; port = port })) h f) s)
  unfolding tls_round arrive tls_intake accept_connection drop_client ssl_handshake
  round_one g n (pos zero) ip port h f s e same = cc
  round_one g n (pos (suc k)) ip port no_ssl f s e same =
      (ap (λ x. (draw_id G x).1) same, sym (append-nil _), sym (append-nil _))
  round_one g n (pos (suc k)) ip port refused f s e same =
      (ap (λ x. (draw_id G x).1) same, sym (append-nil _), sym (append-nil _))
  round_one g n (pos (suc k)) ip port accepted true s e same = (
    ap (λ x. (draw_id G x).1) same,
    ap
        (λ x.
          s.intake.children
          ++ (record { id = (draw_id G x).0; sockfd = pos (suc k); ip = ip; port = port }) ∷ [])
        same,
    ap (λ x. s.copies ++ (draw_id G x).1 ∷ []) same,
  )
  round_one g n (pos (suc k)) ip port accepted false s e same =
      (ap (λ x. (draw_id G x).1) same, sym (append-nil _), sym (append-nil _))
  round_one g n (negsuc k) ip port h f s e same = cc

  round_visit :
      (g : G.State) (n : ℕ) (peer : Option Peer) (h : Handshake) (f : Bool) (s : Parent G)
      → IsVisit (visit peer h f)
      → s.generator ≡ after_ids n g
      → Hands g n (visit peer h f ∷ []) s (tls_round G (visit peer h f) s)
  unfolding tls_round arrive tls_intake accept_connection drop_client
  round_visit g n none h f s e same = (same, sym (append-nil _), sym (append-nil _))
  round_visit g n (some p) h f s e same = round_one g n p.sockfd p.ip p.port h f s e same

  -- The number behind one round.
  arrived_cons :
      (n : ℕ) (v : Visit) (visits : List Visit)
      → arrived (arrived n (v ∷ [])) visits ≡ arrived n (v ∷ visits)
  arrived_cons n v visits = go v.peer
    where
      go :
          (peer : Option Peer)
          → arrived (arrived n (visit peer v.handshake v.is_forked ∷ [])) visits
            ≡ arrived n (visit peer v.handshake v.is_forked ∷ visits)
      go none = refl
      go (some p) = refl

  map-handed {ℓ} :
      {A : Type ℓ} (f : ℕ × Peer → A) (n : ℕ) (v : Visit) (visits : List Visit)
      → map f (handed n (v ∷ [])) ++ map f (handed (arrived n (v ∷ [])) visits)
        ≡ map f (handed n (v ∷ visits))
  map-handed f n v visits = go v.peer (is_served v)
    where
      go :
          (peer : Option Peer) (b : Bool)
          → map f (elim peer [ none ↦ [] | some p ↦ if b then (n, p) ∷ [] else [] ])
              ++ map f (handed (elim peer [ none ↦ n | some p ↦ suc n ]) visits)
            ≡ map f (elim peer [
              | none ↦ handed n visits
              | some p ↦ if b then (n, p) ∷ handed (suc n) visits else handed (suc n) visits
            ])
      go none b = refl
      go (some p) true = refl
      go (some p) false = refl

  -- What one round and the others append.
  append-handed {ℓ} :
      {A : Type ℓ} (f : ℕ × Peer → A) (n : ℕ) (v : Visit) (visits : List Visit) (xs ys : List A)
      → ys ≡ xs ++ map f (handed n (v ∷ []))
      → ys ++ map f (handed (arrived n (v ∷ [])) visits) ≡ xs ++ map f (handed n (v ∷ visits))
  append-handed f n v visits xs ys e =
      ap (λ zs. zs ++ map f (handed (arrived n (v ∷ [])) visits)) e
      ∙ (append_assoc xs (map f (handed n (v ∷ []))) (map f (handed (arrived n (v ∷ [])) visits))
          ∙ ap (λ zs. xs ++ zs) (map-handed f n v visits))

  Hands-tls_rounds :
      (g : G.State) (n : ℕ) (visits : List Visit) (s : Parent G)
      → All IsVisit visits
      → s.generator ≡ after_ids n g
      → Hands g n visits s (tls_rounds G visits s)
  unfolding tls_rounds
  Hands-tls_rounds g n [] s h same = (same, sym (append-nil _), sym (append-nil _))
  Hands-tls_rounds g n (v ∷ visits) s h same =
      let s' = tls_round G v s in
      let (generator, children, copies) =
        round_visit g n v.peer v.handshake v.is_forked s h.0 same in
      let (generator', children', copies') =
        Hands-tls_rounds g (arrived n (v ∷ [])) visits s' h.1 generator in
      (
        generator' ∙ ap (λ k. after_ids k g) (arrived_cons n v visits),
        children'
            ∙ append-handed (client_at g) n v visits s.intake.children s'.intake.children children,
        copies' ∙ append-handed (copy_at g) n v visits s.copies s'.copies copies,
      )

  -- The process that takes the clients, on any clients that come with descriptors above 0: it has
  -- drawn one identifier for each client that `accept` has given, so that a client that is handed to
  -- a child has the identifier of its number; and the child starts with the generator behind that
  -- draw, which is the one that draws the identifier of the next client.
  pub tls_rounds-ids :
      (g : G.State) (visits : List Visit) (s : Parent G)
      → All IsVisit visits
      → s.generator ≡ g
      → Hands g 0 visits s (tls_rounds G visits s)
  tls_rounds-ids g = Hands-tls_rounds g 0
