-- ===== src/Primitives/DispatchInfo.antt =====
-- primitives/src/types.rs: what a node says of a call's dispatch, and destinations of rewards.
use substrate_api_client.Prelude.{String, Option, List, [], ◌∷◌, Result, ok_or, ◌>>=◌}

pub data DispatchClass : Type 0 where
  normal operational mandatory : DispatchClass

unfoldable pub default_class : DispatchClass
default_class = normal

-- `DispatchClass::all` and `DispatchClass::non_mandatory`
unfoldable pub all : List DispatchClass
all = normal ∷ operational ∷ mandatory ∷ []

unfoldable pub non_mandatory : List DispatchClass
non_mandatory = normal ∷ operational ∷ []

pub record RuntimeDispatchInfo (Balance Weight : Type 0) : Type 0 where
  pub weight : Weight
  pub class : DispatchClass
  pub partial_fee : Balance

-- `serde_balance`: a balance is serialized as its text; `display` and `parse` are its `Display` and
-- `FromStr`, and `as_text` reads a text from the serialized form.
module _ {Balance Json : Type 0} where
  unfoldable pub serialize : (Balance → String) → (String → Json) → Balance → Json
  serialize display to_json t = to_json (display t)

  unfoldable pub deserialize :
      (Json → Result String String) → (String → Option Balance) → Json → Result String Balance
  deserialize as_text parse json = as_text json >>= λ s. ok_or "Parse from string failed" (parse s)

pub data RewardDestination (AccountId : Type 0) : Type 0 where
  staked stash controller : RewardDestination AccountId
  account : AccountId → RewardDestination AccountId
  no_destination : RewardDestination AccountId

unfoldable pub default_destination : {AccountId : Type 0} → RewardDestination AccountId
default_destination = staked
