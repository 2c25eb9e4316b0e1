-- ===== src/Server/Children/Examples.antt =====
-- Instances of the theorems on the identifiers of the clients.
use https_http_server.Shared.{
  ℕ, zero, suc, ◌%◌, ◌^◌, ◌<◌, ◌≡◌, ◌≢◌, refl, ap, List, [], ◌∷◌, map, codes, some, none, true,
  arith,
}
use https_http_server.Connection.Descriptor.{pos}
use https_http_server.Server.Intake.{Handshake}
use https_http_server.Server.Children.{Generator, Visit, draw_id, Parent, tls_rounds}
use https_http_server.Server.Children.Identifiers.{arrived, Hands, tls_rounds-ids}
use https_http_server.Server.Children.Different.{
  AreDifferent, bits_at, Is64Bit, tls_rounds-AreDifferent,
}

-- A generator that counts.
abbrev pub counter : Generator
counter = record { State = ℕ; next = λ g. (g % 2 ^ 64, suc g) }

abbrev pub visits : List Visit
visits =
    record {
      peer = some (record { sockfd = pos 6; ip = codes "::1"; port = 4000 });
      handshake = Handshake.accepted;
      is_forked = true;
    }
    ∷ record { peer = none; handshake = Handshake.no_ssl; is_forked = true }
    ∷ record {
      peer = some (record { sockfd = pos 7; ip = codes "::1"; port = 4001 });
      handshake = Handshake.accepted;
      is_forked = true;
    }
    ∷ []

abbrev pub start : Parent counter
start = record {
  generator = 0;
  intake = record { closed = []; children = []; ssl_objects = 0 };
  copies = [];
}

tls_rounds-ids_example : Hands counter 0 0 visits start (tls_rounds counter visits start)
tls_rounds-ids_example = tls_rounds-ids counter 0 visits start (refl, (tt, (refl, tt))) refl

counter-Is64Bit : Is64Bit counter
counter-Is64Bit g = omega arith

-- The numbers of the two clients.
fresh : (i j : ℕ) → i < j → j < arrived 0 visits → bits_at counter 0 i ≢ bits_at counter 0 j
unfolding draw_id
fresh zero zero lt less = absurd (omega arith)
fresh zero (suc zero) lt less = λ e. let h : 0 ≡ 2 = ap (λ x. x.0.1) e in omega (arith, h)
fresh zero (suc (suc j)) lt less = absurd (omega arith)
fresh (suc i) j lt less = absurd (omega arith)

tls_rounds-AreDifferent_example :
    AreDifferent (map (λ c. c.id) (tls_rounds counter visits start).intake.children)
tls_rounds-AreDifferent_example =
    tls_rounds-AreDifferent counter 0 visits start (refl, (tt, (refl, tt))) refl refl
      counter-Is64Bit fresh
