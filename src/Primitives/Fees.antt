-- ===== src/Primitives/Fees.antt =====
-- primitives/src/types.rs: fees, on balances of `w` bits with saturating addition.
use substrate_api_client.Prelude.{ℕ, ◌+◌, ◌≡◌, Option, none, some, leb, if◌then◌else◌, arith}

pub record InclusionFee (Balance : Type 0) : Type 0 where
  pub base_fee : Balance
  pub len_fee : Balance
  pub adjusted_weight_fee : Balance

pub record FeeDetails (Balance : Type 0) : Type 0 where
  pub inclusion_fee : Option (InclusionFee Balance)
  pub tip : Balance

module _ (max : ℕ) where
  -- `max` is the largest balance.
  abbrev pub saturating_add : ℕ → ℕ → ℕ
  saturating_add a b = if leb (a + b) max then a + b else max

  unfoldable pub inclusion_fee : InclusionFee ℕ → ℕ
  inclusion_fee f = saturating_add (saturating_add f.base_fee f.len_fee) f.adjusted_weight_fee

  unfoldable pub final_fee : FeeDetails ℕ → ℕ
  unfolding inclusion_fee
  final_fee d = elim d.inclusion_fee [
    | none ↦ saturating_add 0 d.tip
    | some f ↦ saturating_add (inclusion_fee f) d.tip
  ]

  -- All that a transaction costs.
  abbrev pub total : FeeDetails ℕ → ℕ
  total d = elim d.inclusion_fee [
    | none ↦ d.tip
    | some f ↦ f.base_fee + f.len_fee + f.adjusted_weight_fee + d.tip
  ]

  -- The final fee is the sum of the three parts of the inclusion fee, where there is one, and the
  -- tip, or the largest balance if the sum is above it.
  pub final_fee-total :
      (d : FeeDetails ℕ) → final_fee d ≡ (if leb (total d) max then total d else max)
  unfolding final_fee inclusion_fee
  final_fee-total d = go d.inclusion_fee d.tip
    where
      go :
          (o : Option (InclusionFee ℕ)) (t : ℕ)
          → final_fee (record { inclusion_fee = o; tip = t }) ≡ (
              if leb (total (record { inclusion_fee = o; tip = t })) max
              then total (record { inclusion_fee = o; tip = t })
              else max)
      go none t = ground arith
      go (some f) t = ground arith
