-- ===== src/Routing/Hash/Interface.antt =====
-- The template `Hash<Derived>`, of src/routing/include/project/routing/crypto.h, and `hash` and `clone`
-- of `SipHash`, of src/routing/src/crypto.cc.
use https_http_server.Shared.{ℕ, ◌≡◌, refl, sym, ap, ◌∙◌, List, Text, Option, none, some}
use https_http_server.Routing.Hash.{
  MacLib, SipHash, Fetched, Hashed, hashed, undefined, fhash, copy, call, tag_to_size_t,
}
use https_http_server.Routing.Hash.Copies.{Resets, hash_of, call_all, copy-call}

-- A class `Derived` by what `operator()` uses of it: `hash`, and `fhash` where the class has it. Each
-- gives a tag or `std::nullopt`, or nothing that is defined, and what it leaves of the object.
pub record HashClass : Type 1 where
  pub Object : Type 0
  pub hash : Text → Object → Option (Option (List ℕ)) × Object
  pub fhash : Option (Text → Object → Option (Option (List ℕ)) × Object)

-- The number of what the member gives, 0 for `std::nullopt`; `none` where it is not defined.
unfoldable pub tag_number : Option (Option (List ℕ)) → Option ℕ
unfolding tag_to_size_t
tag_number none = none
tag_number (some none) = some 0
tag_number (some (some tag)) = some (tag_to_size_t tag)

-- `operator()` on a text: `if constexpr (requires { self->fhash(v); })`.
unfoldable pub call_class : (C : HashClass) → Text → C.Object → Option ℕ × C.Object
unfolding tag_number
call_class C v h = elim C.fhash [
  | none ↦ let (tag, h') = C.hash v h in (tag_number tag, h')
  | some f ↦ let (tag, h') = f v h in (tag_number tag, h')
]

-- `operator()` on a value that is trivially copyable: on its bytes.
unfoldable pub call_value :
    (C : HashClass) {T : Type 0} → (T → Text) → T → C.Object → Option ℕ × C.Object
unfolding call_class
call_value C bytes_of v = call_class C (bytes_of v)

module _ (M : MacLib) where
  -- `fhash` as a member: `undefined` is `none`.
  abbrev pub fhash_member : Text → SipHash M → Option (Option (List ℕ)) × SipHash M
  fhash_member v h = elim (fhash M v h) [ hashed tag h' ↦ (some tag, h') | undefined ↦ (none, h) ]

  -- `SipHash::hash`, a copy of the tag into a vector.
  unfoldable pub hash : Text → SipHash M → Option (Option (List ℕ)) × SipHash M
  unfolding fhash
  hash v h =
      let (result, h') = fhash_member v h in
      (
        elim result [ none ↦ none | some tag ↦ some (elim tag [ none ↦ none | some t ↦ some t ]) ],
        h',
      )

  -- `SipHash::clone`; `none` where the copy constructor throws.
  unfoldable pub clone : Fetched M → SipHash M → Option (SipHash M)
  unfolding copy
  clone f h = copy M f h

  -- `SipHash` as a class of the template.
  abbrev pub siphash_class : HashClass
  siphash_class = record { Object = SipHash M; hash = hash; fhash = some fhash_member }

  -- The class without `fhash`.
  abbrev pub by_hash : HashClass
  by_hash = record { Object = SipHash M; hash = hash; fhash = none }

  same_number :
      (r : Option (List ℕ))
      → tag_number (some (elim r [ none ↦ none | some t ↦ some t ])) ≡ tag_number (some r)
  same_number none = refl
  same_number (some t) = refl

  call_class-call : (v : Text) (h : SipHash M) → call_class siphash_class v h ≡ call M v h
  unfolding call_class call tag_number
  call_class-call v h = go (fhash M v h)
    where
      go :
          (r : Hashed M)
          → (let (tag, h') = elim r as (λ x. Option (Option (List ℕ)) × SipHash M) [
            | hashed tag h' ↦ (some tag, h')
            | undefined ↦ (none, h)
          ] in
              (tag_number tag, h'))
            ≡ elim r as (λ x. Option ℕ × SipHash M) [
              | undefined ↦ (none, h)
              | hashed tag h' ↦ (elim tag [ none ↦ some 0 | some t ↦ some (tag_to_size_t t) ], h')
            ]
      go undefined = refl
      go (hashed none h') = refl
      go (hashed (some t) h') = refl

  by_hash-siphash_class :
      (v : Text) (h : SipHash M) → (call_class by_hash v h).0 ≡ (call_class siphash_class v h).0
  unfolding call_class hash tag_number
  by_hash-siphash_class v h = go (fhash_member v h).0
    where
      go :
          (r : Option (Option (List ℕ)))
          → tag_number (elim r [
            | none ↦ none
            | some tag ↦ some (elim tag [ none ↦ none | some t ↦ some t ])
          ])
            ≡ tag_number r
      go none = refl
      go (some r) = same_number r

  -- The number of a value that is trivially copyable, in the template: `SipHash` gives the same by
  -- `hash` as by `fhash`, which it has; and where OpenSSL sets a context up again by `EVP_MAC_init`, a
  -- clone of a hash with a key and a context, that may have hashed any texts, gives the value the
  -- number that the hash gave it before.
  pub clone-call_value :
      {T : Type 0} (bytes_of : T → Text)
      → Resets M
      → (key : List ℕ) (c : MacLib.Ctx M) (vs : List Text) (v : T) (f : Fetched M) (g : SipHash M)
      → clone f (call_all M vs (hash_of M key c)) ≡ some g
      → ((call_value by_hash bytes_of v g).0 ≡ (call_value siphash_class bytes_of v g).0)
        × ((call_value siphash_class bytes_of v g).0
            ≡ (call_value siphash_class bytes_of v (hash_of M key c)).0)
  unfolding call_value clone
  clone-call_value bytes_of r key c vs v f g e = (
    by_hash-siphash_class (bytes_of v) g,
    ap (λ x. x.0) (call_class-call (bytes_of v) g)
        ∙ ((copy-call M r key c vs (bytes_of v) f g e).1
            ∙ sym (ap (λ x. x.0) (call_class-call (bytes_of v) (hash_of M key c)))),
  )
