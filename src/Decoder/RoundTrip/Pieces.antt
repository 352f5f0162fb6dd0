-- ===== src/Decoder/RoundTrip/Pieces.antt =====
-- Runs of a decoder and of the encoder on its result, one piece after the other.
use substrate_api_client.Prelude.{◌≡◌, refl, ◌++◌, arith, Bytes, ok}
use substrate_api_client.Prelude.{◌>>=◌, >>=-eq-ok, map_err}
use substrate_api_client.Codec.{Decoder, Inverts}
use substrate_api_client.Decoder.Decode.{Parser, mapped, codec_error}
use substrate_api_client.Decoder.Encode.{Written, written, followed}
use mathlib.Core.List.{append_assoc}

-- The call `e` writes bytes from which `d` reads `a`, whatever follows them.
abbrev pub Reencodes : {A E : Type 0} → Parser A → A → Written E → Type 0
Reencodes d a e = (w : Bytes) × (e ≡ written w) × ((more : Bytes) → d (w ++ more) ≡ ok (a, more))

-- Every value that `d` returns is written by `e` so that `d` reads it again.
abbrev pub Faithful : {A E : Type 0} → Parser A → (A → Written E) → Type 0
Faithful {A} d e =
    (bytes : Bytes) (a : A) (rest : Bytes) → d bytes ≡ ok (a, rest) → Reencodes d a (e a)

module _ {A B C : Type 0} (d₁ : Parser A) (d₂ : Parser B) (g : A → B → C) where
  -- `d₁`, then `d₂` on what it leaves.
  abbrev pub paired : Parser C
  paired bytes = d₁ bytes >>= λ p. d₂ p.1 >>= λ q. ok (g p.0 q.0, q.1)

  pub Reencodes-paired :
      {E : Type 0} {a : A} {b : B} {e₁ e₂ : Written E}
      → Reencodes d₁ a e₁
      → Reencodes d₂ b e₂
      → Reencodes paired (g a b) (followed e₁ e₂)
  Reencodes-paired {a} {b} (w₁, p₁, q₁) (w₂, p₂, q₂) =
      (w₁ ++ w₂, rw (p₁, p₂), λ more. rw (append_assoc w₁ w₂ more, q₁ (w₂ ++ more)) (rw (q₂ more)))

module _ {A B : Type 0} (d₁ : Parser A) (d₂ : Parser B) where
  -- The inversion of a successful run of two decoders.
  pub paired-eq-ok :
      {C : Type 0} (g : A → B → C) (bytes : Bytes) {x : C} {rest : Bytes}
      → paired d₁ d₂ g bytes ≡ ok (x, rest)
      → (a : A) × (b : B) × (mid : Bytes) × (d₁ bytes ≡ ok (a, mid))
        × (d₂ mid ≡ ok (b, rest))
        × (x ≡ g a b)
  paired-eq-ok g bytes h =
      let ((a, mid), p, q) = >>=-eq-ok (d₁ bytes) _ h in
      let ((b, end), r, s) = >>=-eq-ok (d₂ mid) _ q in
      (a, b, mid, p, ground (arith, r, s), ground (arith, s))

module _ {A B : Type 0} (d : Parser A) (f : A → B) where
  pub Reencodes-mapped :
      {E : Type 0} {a : A} {e : Written E}
      → Reencodes d a e
      → Reencodes (λ bytes. mapped f (d bytes)) (f a) e
  Reencodes-mapped (w, p, q) = (w, p, λ more. rw (q more))

  pub mapped-eq-ok :
      (bytes : Bytes) {b : B} {rest : Bytes}
      → mapped f (d bytes) ≡ ok (b, rest)
      → (a : A) × (d bytes ≡ ok (a, rest)) × (b ≡ f a)
  mapped-eq-ok bytes h =
      let ((a, mid), p, q) = >>=-eq-ok (d bytes) _ h in (a, ground (arith, p, q), ground (arith, q))

-- A decoder of the codec that inverts its encoder at `a`.
pub Reencodes-codec :
    {A E : Type 0} (d : Decoder A) (a : A) (w : Bytes)
    → Inverts d a w
    → Reencodes {E = E} (λ bytes. map_err codec_error (d bytes)) a (written w)
Reencodes-codec d a w h = (w, refl, λ more. rw (h more))
