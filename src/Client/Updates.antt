-- ===== src/Client/Updates.antt =====
-- src/src/api/api_client.rs: an `Api` is updated in full or not at all, as a new one would be made.
use substrate_api_client.Prelude.{
  ◌≡◌, ◌↔◌, ◌⊎◌, inl, inr, refl, sym, ◌∙◌, ap, ok-inj, ok, err, panic, out_of_fuel,
}
use substrate_api_client.Prelude.{Result}
use substrate_api_client.Node.Metadata.Types.{Metadata}
use substrate_api_client.Primitives.Params.{Api}
use substrate_api_client.Rpc.Action.{Request, >>=-open, >>=-ok}
use substrate_api_client.Client.Runtime.{
  RuntimeVersion, RuntimeFormats, get_genesis_hash, get_metadata, get_runtime_version, new,
  new_offline, read_runtime, stored, update_runtime,
}

-- An answer that is there, or what is there instead.
answer-cases :
    {E A S : Type 0} (p : Result E A × S)
    → ((a : A) × (t : S) × (p ≡ (ok a, t)))
      ⊎ ((e : E) × (p.0 ≡ err e))
      ⊎ (p.0 ≡ panic)
      ⊎ (p.0 ≡ out_of_fuel)
answer-cases (ok a, t) = inl (a, t, refl)
answer-cases (err e, t) = inr (inl (e, refl))
answer-cases (panic, t) = inr (inr (inl refl))
answer-cases (out_of_fuel, t) = inr (inr (inr refl))

-- An `Api` with other metadata and another version.
abbrev pub updated :
    {Signer Tip Hash : Type 0}
    → Api Signer Tip Hash
    → Metadata
    → RuntimeVersion
    → Api Signer Tip Hash
updated api m v = record api {
  metadata = m;
  spec_version = v.spec_version;
  transaction_version = v.transaction_version;
}

module _ {Json S Signer Tip Hash : Type 0} (client : Request Json S) (f : RuntimeFormats Json Hash)
    (api : Api Signer Tip Hash) (s : S) where
  -- What `update_runtime` is to do where it succeeds: the node answers both requests, with
  -- metadata and then with a version that can be read, and both are put into the `Api`.
  abbrev pub IsUpdated : Api Signer Tip Hash → S → Type 0
  IsUpdated api₂ u =
      (m : Metadata) × (v : RuntimeVersion) × (t : S) × (get_metadata client f s ≡ (ok m, t))
      × (get_runtime_version client f t ≡ (ok v, u))
      × (api₂ ≡ updated api m v)

  -- `update_runtime` succeeds, with an `Api` and a state, if and only if the node answers both
  -- requests, with metadata and then with a version that can be read, the `Api` has both and is the
  -- old one otherwise, and the state is that behind the answers. Where it does not succeed, it
  -- leaves the `Api` as it was.
  pub update_runtime-all_or_nothing :
      (api₂ : Api Signer Tip Hash) (u : S)
      → ((update_runtime client f api s ≡ (ok tt, (api₂, u))) ↔ IsUpdated api₂ u)
        × (((update_runtime client f api s).0 ≡ ok tt)
            ⊎ ((update_runtime client f api s).1.0 ≡ api))
  unfolding update_runtime stored read_runtime
  update_runtime-all_or_nothing api₂ u = (
    (forth, back),
    elim (answer-cases (read_runtime client f s)) [
      | inl (answer, w, e) ↦ inl (rw e refl)
      | inr (inl (x, e)) ↦ inr (rw e refl)
      | inr (inr (inl e)) ↦ inr (rw e refl)
      | inr (inr (inr e)) ↦ inr (rw e refl)
    ],
  )
    where
      forth : update_runtime client f api s ≡ (ok tt, (api₂, u)) → IsUpdated api₂ u
      forth h = elim (answer-cases (read_runtime client f s)) [
        | inl (answer, w, e) ↦ >>=-open (get_metadata client f) _ s e (λ m t a b.
            >>=-open (get_runtime_version client f) _ t b (λ v x c d.
              let made : (ok tt, (updated api m v, x)) ≡ (ok tt, (api₂, u)) = rw (e ∙ sym d) at h in
              let same : updated api m v ≡ api₂ = ap (λ p. p.1.0) made in
              let behind : x ≡ u = ap (λ p. p.1.1) made in
              (m, v, t, a, c ∙ ap (λ z. (ok v, z)) behind, sym same)))
        | inr (inl (x, e)) ↦ let y = rw e at h in cc
        | inr (inr (inl e)) ↦ let y = rw e at h in cc
        | inr (inr (inr e)) ↦ let y = rw e at h in cc
      ]

      back : IsUpdated api₂ u → update_runtime client f api s ≡ (ok tt, (api₂, u))
      back (m, v, t, a, c, q) =
          let e : read_runtime client f s ≡ (ok (m, v), u) =
            >>=-ok (get_metadata client f) _ a ∙ >>=-ok (get_runtime_version client f) _ c in
          rw (e, q) refl

  as_new :
      (g : Hash) (t : S) (m : Metadata) (v : RuntimeVersion) (t₂ : S)
      → read_runtime client f t ≡ (ok (m, v), t₂)
      → {fresh : Api Signer Tip Hash} → new_offline g m v ≡ fresh
      → {u : S} → t₂ ≡ u
      → (update_runtime client f api t ≡ (
        ok tt,
        (
          record api {
            metadata = fresh.metadata;
            spec_version = fresh.spec_version;
            transaction_version = fresh.transaction_version;
          },
          u,
        ),
      ))
        × (fresh
            ≡ new_offline g fresh.metadata (record {
              spec_version = fresh.spec_version;
              transaction_version = fresh.transaction_version;
            }))
  unfolding update_runtime stored new_offline
  as_new g t m v t₂ e made after = rw (← made, ← after) (rw e refl, refl)

  -- Where a new `Api` can be made, updating an old one right after the genesis hash was asked for
  -- succeeds, leaves the node in the same state, and gives the old one the metadata and the
  -- versions of the new one, and nothing else of it.
  pub update_runtime-new :
      (fresh : Api Signer Tip Hash) (u : S)
      → new client f s ≡ (ok fresh, u)
      → (g : Hash) × (t : S) × (get_genesis_hash client f s ≡ (ok g, t))
        × (update_runtime client f api t ≡ (
          ok tt,
          (
            record api {
              metadata = fresh.metadata;
              spec_version = fresh.spec_version;
              transaction_version = fresh.transaction_version;
            },
            u,
          ),
        ))
        × (fresh
            ≡ new_offline g fresh.metadata (record {
              spec_version = fresh.spec_version;
              transaction_version = fresh.transaction_version;
            }))
  unfolding new update_runtime read_runtime new_offline
  update_runtime-new fresh u h = >>=-open (get_genesis_hash client f) _ s h (λ g t a h₁.
      >>=-open (get_metadata client f) _ t h₁ (λ m t₁ b h₂.
        >>=-open (get_runtime_version client f) _ t₁ h₂ (λ v t₂ c h₃.
          let e : read_runtime client f t ≡ (ok (m, v), t₂) =
            >>=-ok (get_metadata client f) _ b ∙ >>=-ok (get_runtime_version client f) _ c in
          let made : new_offline g m v ≡ fresh = ok-inj (ap (λ p. p.0) h₃) in
          let after : t₂ ≡ u = ap (λ p. p.1) h₃ in
          let (x, y) = as_new g t m v t₂ e made after in (g, t, a, x, y))))
