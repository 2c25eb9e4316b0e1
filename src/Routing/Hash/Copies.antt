-- ===== src/Routing/Hash/Copies.antt =====
-- Copies of a hash.
use https_http_server.Shared.{
  ℕ, ◌≡◌, ◌↔◌, ◌≢◌, is_some, arith, ◌⊎◌, inl, inr, refl, sym, ap, ◌∙◌, List, [], ◌∷◌, Text, Option,
  none, some,
}
use mathlib.Core.Option.{some-injective}
use https_http_server.Routing.Hash.{
  MacLib, SipHash, Fetched, make_ctx, with_ctx, copy, assign_copy, move, new_siphash,
  make_siphash_key, mac_calls, fhash, call, tag_to_size_t,
}

-- A context is set up again by `EVP_MAC_init`, whatever it was used for.
abbrev pub Resets : MacLib → Type 0
Resets M = (key : List ℕ) (c d : MacLib.Ctx M) → MacLib.init M key c ≡ MacLib.init M key d

module _ (M : MacLib) where
  mac_calls-alike :
      Resets M
      → (key : List ℕ) (v : Text) (c d : MacLib.Ctx M) → mac_calls M key v c ≡ mac_calls M key v d
  unfolding mac_calls
  mac_calls-alike r key v c d = rw (r key c d) refl

  abbrev pub hash_of : List ℕ → MacLib.Ctx M → SipHash M
  hash_of key c = record { ctx = some c; key = some key }

  call-same_key :
      Resets M
      → (v : Text) (key : List ℕ) (c d : MacLib.Ctx M)
      → call M v (hash_of key c) ≡ call M v (hash_of key d)
  unfolding call fhash
  call-same_key r v key c d =
      ap (λ x. (elim x.0 [ none ↦ some 0 | some t ↦ some (tag_to_size_t t) ], hash_of key x.1))
        (mac_calls-alike r key v c d)

  -- Hashes of texts, one behind another.
  abbrev pub call_all : List Text → SipHash M → SipHash M
  call_all [] h = h
  call_all (v ∷ vs) h = call_all vs (call M v h).1

  call-keeps :
      (v : Text) (key : List ℕ) (c : MacLib.Ctx M)
      → (d : MacLib.Ctx M) × ((call M v (hash_of key c)).1 ≡ hash_of key d)
  unfolding call fhash
  call-keeps v key c = ((mac_calls M key v c).1, refl)

  call_all-keeps :
      (vs : List Text) (key : List ℕ) (c : MacLib.Ctx M)
      → (d : MacLib.Ctx M) × (call_all vs (hash_of key c) ≡ hash_of key d)
  call_all-keeps [] key c = (c, refl)
  call_all-keeps (v ∷ vs) key c =
      let (d, e) = call-keeps v key c in
      let (d', e') = call_all-keeps vs key d in (d', ap (call_all vs) e ∙ e')

  copy-key :
      (f : Fetched M) (key : List ℕ) (c : MacLib.Ctx M) (g : SipHash M)
      → copy M f (hash_of key c) ≡ some g
      → (d : MacLib.Ctx M) × (g ≡ hash_of key d)
  unfolding copy with_ctx
  copy-key f key c g e = of_ctx (make_ctx M f) e
    where
      of_ctx :
          (o : Option (MacLib.Ctx M))
          → with_ctx M o (some key) ≡ some g
          → (d : MacLib.Ctx M) × (g ≡ hash_of key d)
      of_ctx none e = cc
      of_ctx (some d) e = (d, sym (some-injective (hash_of key d) g e))

  -- Where OpenSSL sets a context up again by `EVP_MAC_init`: a hash with a key and a context gives a
  -- text the number that it gave it before, also after it has hashed any other texts, and so does each
  -- copy that the copy constructor makes of it then.
  pub copy-call :
      Resets M
      → (key : List ℕ) (c : MacLib.Ctx M) (vs : List Text) (v : Text) (f : Fetched M)
        (g : SipHash M)
      → copy M f (call_all vs (hash_of key c)) ≡ some g
      → ((call M v (call_all vs (hash_of key c))).0 ≡ (call M v (hash_of key c)).0)
        × ((call M v g).0 ≡ (call M v (hash_of key c)).0)
  copy-call r key c vs v f g q =
      let (d, e) = call_all-keeps vs key c in
      let (b, w) = copy-key f key d g (ap (copy M f) (sym e) ∙ q) in
      (
        ap (λ h. (call M v h).0) e ∙ ap (λ x. x.0) (call-same_key r v key d c),
        ap (λ h. (call M v h).0) w ∙ ap (λ x. x.0) (call-same_key r v key b c),
      )

  no_value_parts :
      (v : Text) (k : Option (List ℕ)) (c : Option (MacLib.Ctx M))
      → ((call M v (record { ctx = c; key = k })).0 ≡ none) ↔ ((k ≡ none) ⊎ (c ≡ none))
  unfolding call fhash
  no_value_parts v none c = (λ e. inl refl, λ o. refl)
  no_value_parts v (some k) none = (λ e. inr refl, λ o. refl)
  no_value_parts v (some k) (some c) =
      (λ e. absurd (is_value (mac_calls M k v c).0 e), λ o. elim o [ inl e ↦ cc | inr e ↦ cc ])
    where
      is_value :
          (o : Option (List ℕ))
          → (elim o as (λ x. Option ℕ) [ none ↦ some 0 | some t ↦ some (tag_to_size_t t) ]) ≢ none
      is_value none e = cc
      is_value (some t) e = cc

  no_value_iff :
      (v : Text) (h : SipHash M) → ((call M v h).0 ≡ none) ↔ ((h.key ≡ none) ⊎ (h.ctx ≡ none))
  no_value_iff v h = no_value_parts v h.key h.ctx

  -- For every text: the hash that the default constructor makes has no defined value exactly where no
  -- random key is made, or no context; a hash that was moved from has none; and the target of a copy
  -- assignment has none exactly where the source has no key, or no context is made, in which case the
  -- assignment has thrown.
  pub undefined_hashes :
      (v : Text) (f : Fetched M) (random : ℕ → Option (List ℕ)) (h target : SipHash M)
      → (((call M v (new_siphash M f random)).0 ≡ none)
          ↔ ((make_siphash_key random ≡ none) ⊎ (make_ctx M f ≡ none)))
        × ((call M v (move M h).1).0 ≡ none)
        × (((call M v (assign_copy M f h target).0).0 ≡ none)
            ↔ ((h.key ≡ none) ⊎ (make_ctx M f ≡ none)))
        × ((assign_copy M f h target).1 ≡ is_some (make_ctx M f))
  unfolding new_siphash move assign_copy
  undefined_hashes v f random h target = (
    no_value_iff v (new_siphash M f random),
    (no_value_iff v (move M h).1).1 (inl refl),
    no_value_iff v (assign_copy M f h target).0,
    ground arith,
  )
