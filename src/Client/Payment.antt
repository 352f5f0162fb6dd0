-- ===== src/Client/Payment.antt =====
-- src/src/api/rpc_api/pallet_transaction_payment.rs and pallet_balances.rs: fees asked of a node come
-- as `NumberOrHex`, and are converted to balances by `try_into`.
use substrate_api_client.Prelude.{
  ◌≡◌, ◌↔◌, refl, ◌∙◌, String, Option, none, some, [], ◌∷◌, Result, ok, ok_or, ok_or-eq-ok,
  >>=-open, ok-inj, ◌>>=◌,
}
use substrate_api_client.Codec.{Decoder}
use substrate_api_client.Node.Metadata.Types.{Metadata}
use substrate_api_client.Primitives.Fees.{InclusionFee, FeeDetails}
use substrate_api_client.Rpc.Action.{Action, Request, lift, map_action_err, ◌>>=◌ as and_then}
use substrate_api_client.Client.Error.{ApiError, rpc_client, try_from_int_error}
use substrate_api_client.Client.State.{get_constant}

module _ {NumberOrHex Balance : Type 0} (try_into : NumberOrHex → Option Balance) where
  unfoldable pub inclusion_fee_with_balance :
      InclusionFee NumberOrHex → Result ApiError (InclusionFee Balance)
  inclusion_fee_with_balance f = do
    base_fee ← ok_or try_from_int_error (try_into f.base_fee)
    len_fee ← ok_or try_from_int_error (try_into f.len_fee)
    adjusted_weight_fee ← ok_or try_from_int_error (try_into f.adjusted_weight_fee)
    ok (record {
      base_fee = base_fee;
      len_fee = len_fee;
      adjusted_weight_fee = adjusted_weight_fee;
    })

  -- The inclusion fee, if there is one.
  unfoldable pub convert_inclusion_fee :
      Option (InclusionFee NumberOrHex) → Result ApiError (Option (InclusionFee Balance))
  unfolding inclusion_fee_with_balance
  convert_inclusion_fee none = ok none
  convert_inclusion_fee (some f) = do f₂ ← inclusion_fee_with_balance f; ok (some f₂)

  unfoldable pub convert_fee_details : FeeDetails NumberOrHex → Result ApiError (FeeDetails Balance)
  unfolding convert_inclusion_fee
  convert_fee_details details = do
    inclusion_fee ← convert_inclusion_fee details.inclusion_fee
    tip ← ok_or try_from_int_error (try_into details.tip)
    ok (record { inclusion_fee = inclusion_fee; tip = tip })

  -- The conversion of what the node answered, if it answered with fees.
  unfoldable pub convert_answer :
      Option (FeeDetails NumberOrHex) → Result ApiError (Option (FeeDetails Balance))
  unfolding convert_fee_details
  convert_answer none = ok none
  convert_answer (some details) = do d ← convert_fee_details details; ok (some d)

  -- Each number of the fees is converted.
  abbrev pub ConvertsFee : InclusionFee NumberOrHex → InclusionFee Balance → Type 0
  ConvertsFee f g =
      (try_into f.base_fee ≡ some g.base_fee)
      × (try_into f.len_fee ≡ some g.len_fee)
      × (try_into f.adjusted_weight_fee ≡ some g.adjusted_weight_fee)

  abbrev pub ConvertsInclusion :
      Option (InclusionFee NumberOrHex) → Option (InclusionFee Balance) → Type 0
  ConvertsInclusion none none = Unit
  ConvertsInclusion (some f) (some g) = ConvertsFee f g
  ConvertsInclusion _ _ = ⊥

  inclusion_fee_with_balance_iff :
      (f : InclusionFee NumberOrHex) (g : InclusionFee Balance)
      → (inclusion_fee_with_balance f ≡ ok g) ↔ ConvertsFee f g
  unfolding inclusion_fee_with_balance
  inclusion_fee_with_balance_iff f g = (
    λ h. >>=-open (ok_or try_from_int_error (try_into f.base_fee)) _ h (λ a p h₁.
        >>=-open (ok_or try_from_int_error (try_into f.len_fee)) _ h₁ (λ b q h₂.
          >>=-open (ok_or try_from_int_error (try_into f.adjusted_weight_fee)) _ h₂ (λ c r h₃.
            rw (← ok-inj h₃) (
              ok_or-eq-ok try_from_int_error _ p,
              ok_or-eq-ok try_from_int_error _ q,
              ok_or-eq-ok try_from_int_error _ r,
            )))),
    λ (p, q, r). rw (p, q, r) refl,
  )

  convert_inclusion_fee_iff :
      (o : Option (InclusionFee NumberOrHex)) (p : Option (InclusionFee Balance))
      → (convert_inclusion_fee o ≡ ok p) ↔ ConvertsInclusion o p
  unfolding convert_inclusion_fee
  convert_inclusion_fee_iff none none = (λ h. tt, λ c. refl)
  convert_inclusion_fee_iff none (some g) = (λ h. cc, λ c. absurd c)
  convert_inclusion_fee_iff (some f) none =
      (λ h. >>=-open (inclusion_fee_with_balance f) _ h (λ g a b. cc), λ c. absurd c)
  convert_inclusion_fee_iff (some f) (some g) = (
    λ h.
        >>=-open (inclusion_fee_with_balance f) _ h
          (λ k a b. (inclusion_fee_with_balance_iff f g).0 (a ∙ some-ok k g b)),
    λ c. rw ((inclusion_fee_with_balance_iff f g).1 c) refl,
  )
    where
      some-ok :
          (k g : InclusionFee Balance)
          → ◌≡◌ {A = Result ApiError (Option (InclusionFee Balance))} (ok (some k)) (ok (some g))
          → ◌≡◌ {A = Result ApiError (InclusionFee Balance)} (ok k) (ok g)
      some-ok k g e = cc

  -- Converting fees succeeds with exactly the fees of which every number is the conversion of the
  -- number in its place, with an inclusion fee if and only if there was one.
  pub convert_fee_details_iff :
      (details : FeeDetails NumberOrHex) (d : FeeDetails Balance)
      → (convert_fee_details details ≡ ok d) ↔ (
          ConvertsInclusion details.inclusion_fee d.inclusion_fee
          × (try_into details.tip ≡ some d.tip))
  unfolding convert_fee_details
  convert_fee_details_iff details d = (
    λ h. >>=-open (convert_inclusion_fee details.inclusion_fee) _ h (λ i p h₁.
        >>=-open (ok_or try_from_int_error (try_into details.tip)) _ h₁ (λ t q h₂.
          rw (← ok-inj h₂) (
            (convert_inclusion_fee_iff details.inclusion_fee i).0 p,
            ok_or-eq-ok try_from_int_error _ q,
          ))),
    λ (c, t). rw ((convert_inclusion_fee_iff details.inclusion_fee d.inclusion_fee).1 c, t) refl,
  )

-- Serialized parameters and answers.
pub record PaymentFormats (Json Hash NumberOrHex DispatchInfo : Type 0) : Type 0 where
  pub string : String → Json
  pub block : Option Hash → Json
  pub to_fee_details : Json → Result String (Option (FeeDetails NumberOrHex))
  pub to_dispatch_info : Json → Result String (Option DispatchInfo)

module _ {Json S Hash NumberOrHex DispatchInfo : Type 0} (client : Request Json S)
    (f : PaymentFormats Json Hash NumberOrHex DispatchInfo) where
  unfoldable pub get_fee_details :
      {Balance : Type 0}
      → (NumberOrHex → Option Balance)
      → String
      → Option Hash
      → Action S ApiError (Option (FeeDetails Balance))
  unfolding convert_answer
  get_fee_details try_into xthex_prefixed at_block =
      and_then
        (map_action_err rpc_client (
          client.request f.to_fee_details "payment_queryFeeDetails"
            (f.string xthex_prefixed ∷ f.block at_block ∷ [])))
        (λ details. lift (convert_answer try_into details))

  unfoldable pub get_payment_info : String → Option Hash → Action S ApiError (Option DispatchInfo)
  get_payment_info xthex_prefixed at_block = map_action_err rpc_client (
      client.request f.to_dispatch_info "payment_queryInfo"
        (f.string xthex_prefixed ∷ f.block at_block ∷ []))

unfoldable pub get_existential_deposit :
    {Balance : Type 0} → Decoder Balance → Metadata → Result ApiError Balance
unfolding get_constant
get_existential_deposit decode m = get_constant decode m "Balances" "ExistentialDeposit"
