-- ===== src/Server/Processes/Room.antt =====
-- How many clients a server ever answers.
use https_http_server.Shared.{
  ℕ, zero, suc, ◌+◌, ◌-◌, ◌≡◌, refl, sym, ap, ap₂, ◌∙◌, List, [], ◌∷◌, ◌++◌, append_assoc,
  append-nil, Text, true, false, ltb, ltb→lt, take, take-nil, take-append_parts, arith, Bool-cases,
  inl, inr, length, All,
}
use https_http_server.Connection.Descriptor.{ℤ, pos, negsuc, is_positive, drop_client}
use https_http_server.Server.Intake.{
  Peer, Handshake, no_ssl, refused, accepted, Arrival, Intake, accept_connection, ssl_handshake,
  tls_intake,
}
use https_http_server.Server.Intake.Clients.{served, served_cons, has_session}
use https_http_server.Server.Processes.{
  Happening, comes, stalls, child_ends, Processes, arrival_of, happen, happen_all,
}

-- `accept` gives descriptors above 0.
abbrev pub IsHappening : Happening → Type 0
IsHappening (comes p id h) = is_positive p.sockfd ≡ true
IsHappening (stalls p) = Unit
IsHappening child_ends = Unit

-- The clients up to the first one that stalls, as if every `fork` started a child.
abbrev pub heard : List Happening → List Arrival
heard [] = []
heard (comes p id h ∷ hs) = arrival_of p id h true ∷ heard hs
heard (stalls p ∷ hs) = []
heard (child_ends ∷ hs) = heard hs

-- The room that is left in the table.
abbrev pub room : ℕ → Processes → ℕ
room limit s = limit - (s.running + s.ended)

abbrev peer_of : ℤ → Text → ℕ → Peer
peer_of fd ip port = record { sockfd = fd; ip = ip; port = port }

-- What a client changes: the child that it gets, where there is room, and the room.
abbrev Takes : ℕ → Arrival → Processes → Processes → Type 0
Takes limit a s s' =
    (s'.intake.children ≡ s.intake.children ++ take (room limit s) (served has_session (a ∷ [])))
    × (room limit s' ≡ room limit s - length (served has_session (a ∷ [])))
    × (s'.in_handshake ≡ false)

no_child :
    (limit : ℕ) (s : Processes)
    → (s.intake.children ≡ s.intake.children ++ take (room limit s) [])
      × (room limit s ≡ room limit s - 0)
      × (false ≡ false)
no_child limit s = (
  sym (append-nil s.intake.children)
      ∙ ap (λ cs. s.intake.children ++ cs) (sym (take-nil (room limit s))),
  omega arith,
  refl,
)

comes_one :
    (limit : ℕ) (fd : ℤ) (ip : Text) (port : ℕ) (id : Text) (h : Handshake) (s : Processes)
    → is_positive fd ≡ true
    → s.in_handshake ≡ false
    → Takes limit
        (arrival_of (peer_of fd ip port) id h true)
        s
        (happen limit (comes (peer_of fd ip port) id h) s)
unfolding happen tls_intake accept_connection drop_client ssl_handshake
comes_one limit (pos zero) ip port id h s e free = cc
comes_one limit (negsuc n) ip port id h s e free = cc
comes_one limit (pos (suc n)) ip port id no_ssl s e free = rw (free, happen) (no_child limit s)
comes_one limit (pos (suc n)) ip port id refused s e free = rw (free, happen) (no_child limit s)
comes_one limit (pos (suc n)) ip port id accepted s e free =
    let client = accept_connection (arrival_of (peer_of (pos (suc n)) ip port) id accepted true) in
    elim (Bool-cases (ltb (s.running + s.ended) limit)) [
      | inl y ↦
          let left = limit - (suc s.running + s.ended) in
          let some_room : room limit s ≡ suc left =
            omega (arith, ltb→lt (s.running + s.ended) limit y) in
          let front : take (room limit s) (client ∷ []) ≡ client ∷ [] =
            ap (λ k. take k (client ∷ [])) some_room ∙ ap (λ cs. client ∷ cs) (take-nil left) in
          rw (free, y, happen)
            (ap (λ cs. s.intake.children ++ cs) (sym front), omega (arith, some_room), refl)
      | inr full ↦
          let no_room : room limit s ≡ 0 = ground arith in
          rw (free, full, happen)
            (
              sym (append-nil s.intake.children)
                  ∙ ap (λ k. s.intake.children ++ take k (client ∷ [])) (sym no_room),
              omega (arith, no_room),
              refl,
            )
    ]

child_ends-intake : (limit : ℕ) (s : Processes) → (happen limit child_ends s).intake ≡ s.intake
unfolding happen
child_ends-intake limit s = ground arith

child_ends-room :
    (limit : ℕ) (s : Processes)
    → (room limit (happen limit child_ends s) ≡ room limit s)
      × ((happen limit child_ends s).in_handshake ≡ s.in_handshake)
unfolding happen
child_ends-room limit s = ground arith

stuck :
    (limit : ℕ) (hs : List Happening) (i : Intake) (r e : ℕ)
    → (happen_all limit hs
        (record { intake = i; running = r; ended = e; in_handshake = true })).intake
      ≡ i
unfolding happen_all happen
stuck limit [] i r e = refl
stuck limit (comes p id h ∷ hs) i r e = stuck limit hs i r e
stuck limit (stalls p ∷ hs) i r e = stuck limit hs i r e
stuck limit (child_ends ∷ hs) i zero e = stuck limit hs i zero e
stuck limit (child_ends ∷ hs) i (suc r) e = stuck limit hs i r (suc e)

-- The process that takes TLS clients, whatever happens: where the table of processes has room for a
-- number of its children, it hands to children the first clients with a session, as many as there
-- were room for at the start, and no other, whether the children have ended or not; and no client
-- behind one that never goes on with its handshake. The clients come with descriptors above 0.
pub happen_all-served :
    (limit : ℕ) (hs : List Happening) (s : Processes)
    → s.in_handshake ≡ false
    → All IsHappening hs
    → (happen_all limit hs s).intake.children
      ≡ s.intake.children ++ take (limit - (s.running + s.ended)) (served has_session (heard hs))
unfolding happen_all
happen_all-served limit [] s free h =
    sym (append-nil s.intake.children)
    ∙ ap (λ cs. s.intake.children ++ cs) (sym (take-nil (room limit s)))
happen_all-served limit (stalls p ∷ hs) s free h =
    ap (λ i. i.children) (stuck limit hs s.intake s.running s.ended)
    ∙ (sym (append-nil s.intake.children)
        ∙ ap (λ cs. s.intake.children ++ cs) (sym (take-nil (room limit s))))
happen_all-served limit (child_ends ∷ hs) s free h =
    let (same, still) = child_ends-room limit s in
    happen_all-served limit hs (happen limit child_ends s) (still ∙ free) h.1
    ∙ ap₂ (λ i k. i.children ++ take k (served has_session (heard hs))) (child_ends-intake limit s)
        same
happen_all-served limit (comes p id t ∷ hs) s free h =
    let a = arrival_of p id t true in
    let first = served has_session (a ∷ []) in
    let others = served has_session (heard hs) in
    let s' = happen limit (comes p id t) s in
    let (children, left, still) = comes_one limit p.sockfd p.ip p.port id t s h.0 free in
    happen_all-served limit hs s' still h.1
    ∙ (ap₂ (λ cs k. cs ++ take k others) children left
        ∙ (append_assoc s.intake.children (take (room limit s) first)
              (take (room limit s - length first) others)
            ∙ ap (λ cs. s.intake.children ++ cs)
                (sym (take-append_parts (room limit s) first others)
                  ∙ ap (take (room limit s)) (served_cons has_session a (heard hs)))))
