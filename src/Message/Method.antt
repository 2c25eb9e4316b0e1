-- ===== src/Message/Method.antt =====
-- `enum class Method`, its names and its reader, of http_message.h and http_message.cc.
use https_http_server.Shared.{
  ℕ, ◌+◌, ◌≤◌, ◌≡◌, refl, ap, ◌↔◌, ◌≢◌, [], ◌∷◌, map, ◌&&◌, arith, Text, codes, text_eq,
  text_eq_iff, if◌then◌else◌, leb, ltb, length,
}

pub data Method : Type 0 where
  get post put delete patch unknown : Method

-- `static_cast<size_t>(mtd)`
abbrev pub method_index : Method → ℕ
method_index get = 0
method_index post = 1
method_index put = 2
method_index delete = 3
method_index patch = 4
method_index unknown = 5

-- `to_string(Method m)`
unfoldable pub method_name : Method → Text
method_name get = codes "GET"
method_name post = codes "POST"
method_name put = codes "PUT"
method_name delete = codes "DELETE"
method_name patch = codes "PATCH"
method_name unknown = codes "UNKNOWN"

-- `std::tolower` of an unsigned char, in the "C" locale.
unfoldable pub to_lower : ℕ → ℕ
to_lower c = if leb b'A' c && leb c b'Z' then c + 32 else c

-- The comparisons of `to_method`, on the lowered text.
pub method_of_lower : Text → Method
method_of_lower lower =
    if text_eq lower (codes "get")
    then get
    else if text_eq lower (codes "post")
    then post
    else if text_eq lower (codes "put")
    then put
    else if text_eq lower (codes "delete")
    then delete
    else if text_eq lower (codes "patch")
    then patch
    else unknown

unfoldable pub to_method : Text → Method
unfolding method_of_lower to_lower text_eq
to_method s = if ltb 6 (length s) then unknown else method_of_lower (map to_lower s)

pub to_lower_idem : (c : ℕ) → to_lower (to_lower c) ≡ to_lower c
unfolding to_lower
to_lower_idem c = ground arith

pub map-to_lower_idem : (s : Text) → map to_lower (map to_lower s) ≡ map to_lower s
map-to_lower_idem [] = refl
map-to_lower_idem (c ∷ s) = cc (to_lower_idem c, map-to_lower_idem s)

length-map-to_lower : (s : Text) → length (map to_lower s) ≡ length s
length-map-to_lower [] = refl
length-map-to_lower (c ∷ s) = omega (arith, length-map-to_lower s)

-- The name of each method is read as that method, and `UNKNOWN` as the unknown method.
pub to_method-method_name : (m : Method) → to_method (method_name m) ≡ m
unfolding to_method method_name
to_method-method_name get = refl
to_method-method_name _ = refl

module _ (s : Text) where
  method_of_lower_sound :
      (m : Method) → m ≢ unknown → method_of_lower s ≡ m → s ≡ map to_lower (method_name m)
  unfolding method_of_lower method_name to_lower
  method_of_lower_sound get h e = ground (
    arith,
    text_eq_iff s (codes "get"),
    text_eq_iff s (codes "post"),
    text_eq_iff s (codes "put"),
    text_eq_iff s (codes "delete"),
    text_eq_iff s (codes "patch"),
  )
  method_of_lower_sound _ h e = ground (
    arith,
    text_eq_iff s (codes "get"),
    text_eq_iff s (codes "post"),
    text_eq_iff s (codes "put"),
    text_eq_iff s (codes "delete"),
    text_eq_iff s (codes "patch"),
  )

method_of_lower_name : (m : Method) → method_of_lower (map to_lower (method_name m)) ≡ m
unfolding method_of_lower method_name to_lower text_eq
method_of_lower_name get = refl
method_of_lower_name _ = refl

length-method_name : (m : Method) → m ≢ unknown → length (method_name m) ≤ 6
unfolding method_name
length-method_name get h = omega arith
length-method_name unknown h = absurd (h refl)
length-method_name _ h = omega arith

-- A text is read as a method other than the unknown one exactly if it is that method's name in
-- some mixture of cases.
pub to_method_iff :
    (s : Text) (m : Method)
    → m ≢ unknown
    → (to_method s ≡ m) ↔ (map to_lower s ≡ map to_lower (method_name m))
unfolding to_method
to_method_iff s m h = (
  λ e. method_of_lower_sound (map to_lower s) m h (ground arith),
  λ e. ground (
    arith,
    ap length e,
    length-map-to_lower s,
    length-map-to_lower (method_name m),
    length-method_name m h,
    ap method_of_lower e,
    method_of_lower_name m,
  ),
)
