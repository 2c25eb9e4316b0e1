-- ===== src/Server/Children/Different.antt =====
-- That the identifiers of the clients differ.
use https_http_server.Shared.{
  ℕ, suc, ◌≤◌, ◌<◌, ◌^◌, ◌≡◌, ◌≢◌, sym, ap, ◌∙◌, List, [], ◌∷◌, ◌++◌, map, Text, Option, none, some,
  Bool, true, false, if◌then◌else◌, All, arith, subst,
}
use https_http_server.Uuid.Identity.{first_bits, second_bits, generate_uuid_v4_lem}
use https_http_server.Server.Intake.{Peer}
use https_http_server.Server.Children.{Generator, Visit, draw_id, Parent, tls_rounds}
use https_http_server.Server.Children.Identifiers.{
  IsVisit, is_served, handed, arrived, after_ids, id_at, client_at, tls_rounds-ids,
}

-- All texts of a list differ.
abbrev pub AreDifferent : List Text → Type 0
AreDifferent [] = Unit
AreDifferent (x ∷ xs) = All (λ y. x ≢ y) xs × AreDifferent xs

module _ (G : Generator) where
  -- The random numbers of the identifier with a number.
  abbrev pub numbers_at : G.State → ℕ → ℕ × ℕ
  numbers_at g n = let (first, g') = G.next (after_ids G n g) in (first, (G.next g').0)

  -- The bits of them that an identifier keeps.
  abbrev pub bits_at : G.State → ℕ → (ℕ × ℕ) × ℕ
  bits_at g n = (first_bits (numbers_at g n).0, second_bits (numbers_at g n).1)

  abbrev pub Is64Bit : Type 0
  Is64Bit = (g : G.State) → (G.next g).0 < 2 ^ 64

  bits-id_at :
      Is64Bit → (g : G.State) (m n : ℕ) → id_at G g m ≡ id_at G g n → bits_at g m ≡ bits_at g n
  unfolding draw_id
  bits-id_at small g m n e =
      let (a, b) = numbers_at g m in
      let (c, d) = numbers_at g n in
      let (first, second) =
        (generate_uuid_v4_lem a b c d (small _) (small _) (small _) (small _)).2.0 e in
      ap (λ x. (x, second_bits b)) first ∙ ap (λ x. (first_bits c, x)) second

  -- The numbers of a list rise, from `n` on and below `b`.
  abbrev pub IsRising : ℕ → ℕ → List (ℕ × Peer) → Type 0
  IsRising n b [] = n ≤ b
  IsRising n b (x ∷ xs) = (n ≤ x.0) × (x.0 < b) × IsRising (suc x.0) b xs

  IsRising-from : (m n b : ℕ) (xs : List (ℕ × Peer)) → m ≤ n → IsRising n b xs → IsRising m b xs
  IsRising-from m n b [] le h = omega arith
  IsRising-from m n b (x ∷ xs) le (first, below, h) = (omega arith, below, h)

  IsRising-le : (n b : ℕ) (xs : List (ℕ × Peer)) → IsRising n b xs → n ≤ b
  IsRising-le n b [] h = h
  IsRising-le n b (x ∷ xs) (first, below, h) = omega arith

  handed-IsRising : (n : ℕ) (visits : List Visit) → IsRising n (arrived n visits) (handed n visits)
  handed-IsRising n [] = omega arith
  handed-IsRising n (v ∷ visits) =
      go v.peer (is_served v) (handed-IsRising n visits) (handed-IsRising (suc n) visits)
    where
      go :
          (peer : Option Peer) (b : Bool)
          → IsRising n (arrived n visits) (handed n visits)
          → IsRising (suc n) (arrived (suc n) visits) (handed (suc n) visits)
          → IsRising n
              (elim peer [ none ↦ arrived n visits | some p ↦ arrived (suc n) visits ])
              (elim peer [
                | none ↦ handed n visits
                | some p ↦ if b then (n, p) ∷ handed (suc n) visits else handed (suc n) visits
              ])
      go none b same more = same
      go (some p) false same more =
          IsRising-from n (suc n) _ (handed (suc n) visits) (omega arith) more
      go (some p) true same more =
          (omega arith, IsRising-le (suc n) _ (handed (suc n) visits) more, more)

  All-ids :
      (g : G.State) (n b : ℕ) (P : Text → Type 0) (hs : List (ℕ × Peer))
      → IsRising n b hs
      → ((k : ℕ) → n ≤ k → k < b → P (id_at G g k))
      → All P (map (λ c. c.id) (map (client_at G g) hs))
  All-ids g n b P [] rising h = tt
  All-ids g n b P (x ∷ hs) (first, below, rising) h =
      (h x.0 first below, All-ids g (suc x.0) b P hs rising (λ k le. h k (omega arith)))

  rising-AreDifferent :
      (g : G.State) (n b : ℕ) (hs : List (ℕ × Peer))
      → IsRising n b hs
      → ((i j : ℕ) → i < j → j < b → id_at G g i ≢ id_at G g j)
      → AreDifferent (map (λ c. c.id) (map (client_at G g) hs))
  rising-AreDifferent g n b [] rising h = tt
  rising-AreDifferent g n b (x ∷ hs) (first, below, rising) h = (
    All-ids g (suc x.0) b (λ y. id_at G g x.0 ≢ y) hs rising (λ k later less. h x.0 k later less),
    rising-AreDifferent g (suc x.0) b hs rising h,
  )

  -- The clients that the loop hands to children from its start, with descriptors above 0, have
  -- identifiers that differ from each other, where the generator gives numbers of 64 bits, and gives
  -- no two of the clients that come the same random bits, those of the version and of the variant left
  -- out.
  pub tls_rounds-AreDifferent :
      (g : G.State) (visits : List Visit) (s : Parent G)
      → All IsVisit visits
      → s.generator ≡ g
      → s.intake.children ≡ []
      → Is64Bit
      → ((i j : ℕ) → i < j → j < arrived 0 visits → bits_at g i ≢ bits_at g j)
      → AreDifferent (map (λ c. c.id) (tls_rounds G visits s).intake.children)
  tls_rounds-AreDifferent g visits s h same none_yet small fresh =
      subst (λ cs. AreDifferent (map (λ c. c.id) cs))
        (sym (
          (tls_rounds-ids G g visits s h same).1
          ∙ ap (λ cs. cs ++ map (client_at G g) (handed 0 visits)) none_yet))
        (rising-AreDifferent g 0 (arrived 0 visits) (handed 0 visits) (handed-IsRising 0 visits)
          (λ i j lt less e. fresh i j lt less (bits-id_at small g i j e)))
