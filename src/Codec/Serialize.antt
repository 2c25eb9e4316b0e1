-- ===== src/Codec/Serialize.antt =====
-- `HttpCodec::serialize`, of src/server/src/http/http_codec.cc, and the decimal numbers of
-- src/common/include/project/common/tostring.h that it prints.
pub mod Reading
pub mod Client
pub mod Results
use https_http_server.Shared.{
  ℕ, zero, suc, ◌+◌, ◌/◌, ◌%◌, [], ◌∷◌, ◌++◌, Text, codes, if◌then◌else◌, ltb, length,
}
use https_http_server.Status.Codes.{code, obsolete_reason}
use https_http_server.Message.Fields.{Fields}
use https_http_server.Message.Envelope.{JsonLib, Response}
use https_http_server.Codec.Parse.{crlf}

-- The digits of a number; the fuel counts the digits that are left.
unfoldable pub digits : ℕ → ℕ → Text
digits zero n = []
digits (suc fuel) n =
    let front = digits fuel (n / 10) in
    if ltb n 10 then (48 + n) ∷ [] else front ++ (48 + n % 10) ∷ []

-- `to_string` of a number or an enumeration, `std::to_string`. A number has fewer digits than it
-- counts, so the fuel is enough.
unfoldable pub to_decimal : ℕ → Text
unfolding digits
to_decimal n = digits (suc n) n

-- The loop of `for_each` over the header fields.
unfoldable pub print_fields : Fields → Text
print_fields [] = []
print_fields ((k, v) ∷ fields) = k ++ (codes ": " ++ (v ++ (crlf ++ print_fields fields)))

module _ (J : JsonLib) where
  unfoldable pub serialize : Response J → Text
  serialize resp =
      let body = J.dump 4 resp.body in
      codes "HTTP/1.1 "
      ++ (to_decimal (code resp.status)
          ++ (codes " "
              ++ (obsolete_reason resp.status
                  ++ (crlf
                      ++ (codes "Content-Type: application/json"
                          ++ (crlf
                              ++ (codes "Content-Length: "
                                  ++ (to_decimal (length body)
                                      ++ (crlf
                                          ++ (print_fields resp.headers ++ (crlf ++ body)))))))))))
