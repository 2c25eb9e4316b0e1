-- ===== src/Uuid/Examples.antt =====
-- A test of the identifiers and an instance of their theorem.
use https_http_server.Shared.{◌≡◌, ◌↔◌, ◌+◌, refl, codes, length, arith}
use https_http_server.Uuid.{generate_uuid_v4}
use https_http_server.Uuid.Layout.{layout}
use https_http_server.Uuid.Identity.{first_bits, second_bits, generate_uuid_v4_lem}

sample :
    generate_uuid_v4 0x0123456789abcdef 0xfedcba9876543210
    ≡ codes "01234567-89ab-4def-bedc-ba9876543210"
unfolding generate_uuid_v4
sample = refl

generate_uuid_v4_example :
    (generate_uuid_v4 7 9 ≡ layout 7 9)
    × (length (generate_uuid_v4 7 9) ≡ 36)
    × ((generate_uuid_v4 7 9 ≡ generate_uuid_v4 (0x4000 + 7) 9)
        ↔ ((first_bits 7 ≡ first_bits (0x4000 + 7)) × (second_bits 9 ≡ second_bits 9)))
generate_uuid_v4_example =
    generate_uuid_v4_lem 7 9 (0x4000 + 7) 9 (omega arith) (omega arith) (omega arith) (omega arith)
