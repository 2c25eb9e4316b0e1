-- ===== src/Routing/Hash.antt =====
-- The keyed hash of the path elements, of src/routing/include/project/routing/crypto.h and
-- src/routing/src/crypto.cc. OpenSSL's `EVP_MAC` is the parameter `MacLib`; what `RAND_bytes` and the
-- calls of `make_ctx` give are arguments. `size_t` has 64 bits, with its least byte first.
mod Examples
pub mod Tags
pub mod Copies
pub mod Interface
use https_http_server.Shared.{
  ℕ, zero, suc, ◌+◌, ◌*◌, List, [], ◌∷◌, Text, Option, none, some, Bool, true, false, not, length,
  take, ◌==◌, ◌&&◌, if◌then◌else◌,
}

-- A context whose tags have 8 bytes, and the calls on it: each leaves a context. `update` and `init`
-- tell whether they return 1; `final` gives the tag that it writes, unless it does not return 1.
pub record MacLib : Type 1 where
  pub Ctx : Type 0
  pub init : List ℕ → Ctx → Bool × Ctx
  pub update : Text → Ctx → Bool × Ctx
  pub final : Ctx → Option (List ℕ) × Ctx

-- `make_hash_key` and `make_hash_key_ptr` of `n` bytes, on what `RAND_bytes` writes, `none` unless it
-- returns 1.
unfoldable pub make_hash_key : ℕ → (ℕ → Option (List ℕ)) → Option (List ℕ)
make_hash_key zero random = none
make_hash_key (suc n) random = random (suc n)

-- `make_siphash_key` and `make_siphash_key_ptr`
unfoldable pub make_siphash_key : (ℕ → Option (List ℕ)) → Option (List ℕ)
make_siphash_key random = random 16

-- `tag_to_size_t`, a copy of at most eight bytes over 0.
unfoldable pub number_of_bytes : List ℕ → ℕ
number_of_bytes [] = 0
number_of_bytes (b ∷ bs) = b + 256 * number_of_bytes bs

unfoldable pub tag_to_size_t : List ℕ → ℕ
unfolding number_of_bytes
tag_to_size_t tag = number_of_bytes (take 8 tag)

module _ (M : MacLib) where
  open M use {Ctx, init, update, final}

  -- A null pointer is `none`.
  pub record SipHash : Type 0 where
    pub ctx : Option Ctx
    pub key : Option (List ℕ)

  -- What the calls of `make_ctx` give: `EVP_MAC_fetch`, `EVP_MAC_CTX_new` and
  -- `EVP_MAC_CTX_set_params`, the last with the context behind it, `none` unless it returns 1.
  pub record Fetched : Type 0 where
    pub mac : Bool
    pub created : Bool
    pub configured : Option Ctx

  unfoldable pub make_ctx : Fetched → Option Ctx
  make_ctx f = elim (f.mac && f.created) [ false ↦ none | true ↦ f.configured ]

  -- `SipHash()`
  unfoldable pub new_siphash : Fetched → (ℕ → Option (List ℕ)) → SipHash
  unfolding make_ctx make_siphash_key
  new_siphash f random = record { ctx = make_ctx f; key = make_siphash_key random }

  -- A constructor that throws unless there is a context.
  unfoldable pub with_ctx : Option Ctx → Option (List ℕ) → Option SipHash
  with_ctx none key = none
  with_ctx (some c) key = some (record { ctx = some c; key = key })

  -- `SipHash(key)`, whose body makes the context again.
  unfoldable pub siphash_of_key : Fetched → Option (List ℕ) → Option SipHash
  unfolding with_ctx make_ctx
  siphash_of_key second key = with_ctx (make_ctx second) key

  -- `SipHash(const SipHash&)`
  unfoldable pub copy : Fetched → SipHash → Option SipHash
  unfolding with_ctx make_ctx
  copy f h = with_ctx (make_ctx f) h.key

  -- `SipHash(SipHash&&)`: the new hash, and the one that is moved from.
  unfoldable pub move : SipHash → SipHash × SipHash
  move h = (h, record { ctx = none; key = none })

  -- `operator=(const SipHash&)` on two objects: the target, and whether the call returns, or throws.
  unfoldable pub assign_copy : Fetched → SipHash → SipHash → SipHash × Bool
  unfolding make_ctx
  assign_copy f h target =
      let c = make_ctx f in
      (record { ctx = c; key = h.key }, elim c [ none ↦ false | some x ↦ true ])

  -- `operator=(SipHash&&)` on two objects: the target, and the one that is moved from.
  unfoldable pub assign_move : SipHash → SipHash → SipHash × SipHash
  assign_move h target = (h, record { ctx = none; key = none })

  unfoldable pub swap : SipHash → SipHash → SipHash × SipHash
  swap h g = (g, h)

  -- What `fhash` gives: a tag, or `std::nullopt`, with the hash behind it; or nothing that is defined,
  -- where the pointer to the key or to the context is null.
  pub data Hashed : Type 0 where
    hashed : Option (List ℕ) → SipHash → Hashed
    undefined : Hashed

  -- The calls of OpenSSL in their order, each unless one before it failed.
  unfoldable pub mac_calls : List ℕ → Text → Ctx → Option (List ℕ) × Ctx
  mac_calls key v c =
      let (is_init, c1) = init key c in
      if is_init
      then (let (is_updated, c2) = update v c1 in
          if is_updated
          then (let (tag, c3) = final c2 in
              (elim tag [ none ↦ none | some t ↦ if length t == 8 then some t else none ], c3))
          else (none, c2))
      else (none, c1)

  -- `fhash`
  unfoldable pub fhash : Text → SipHash → Hashed
  unfolding mac_calls
  fhash v h = elim h.key [
    | none ↦ undefined
    | some key ↦ elim h.ctx [
      | none ↦ undefined
      | some c ↦
          let (tag, c') = mac_calls key v c in hashed tag (record { ctx = some c'; key = some key })
    ]
  ]

  -- `operator()` on a text: its number, `none` where that is not defined, and the hash behind it.
  unfoldable pub call : Text → SipHash → Option ℕ × SipHash
  unfolding fhash tag_to_size_t
  call v h = elim (fhash v h) [
    | undefined ↦ (none, h)
    | hashed tag h' ↦ (elim tag [ none ↦ some 0 | some t ↦ some (tag_to_size_t t) ], h')
  ]
