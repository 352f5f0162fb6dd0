-- ===== src/Rpc/Action.antt =====
-- What a client does with a node: `S` is the state of everything outside of the client (the node and
-- the wire), which every request may change. An error keeps what was done before.
use substrate_api_client.Prelude.{◌≡◌, refl, ap, String, List, [], ◌∷◌, ◌++◌}
use substrate_api_client.Prelude.{Result, ok, err, panic, out_of_fuel, map_err}
use substrate_api_client.Rpc.Error.{RpcClientError}

abbrev pub Action : Type 0 → Type 0 → Type 0 → Type 0
Action S E A = S → Result E A × S

module _ {S E A : Type 0} where
  -- What needs no node.
  abbrev pub lift : Result E A → Action S E A
  lift r s = (r, s)

  abbrev pub map_action_err : {F : Type 0} → (E → F) → Action S E A → Action S F A
  map_action_err f m s = let (r, t) = m s in (map_err f r, t)

-- The continuation of a result in a state: `?` after an action.
abbrev pub then_do : {S E A B : Type 0} → Result E A → S → (A → Action S E B) → Result E B × S
then_do (ok a) s k = k a s
then_do (err e) s k = (err e, s)
then_do panic s k = (panic, s)
then_do out_of_fuel s k = (out_of_fuel, s)

infixl 5 ◌>>=◌
abbrev pub ◌>>=◌ : {S E A B : Type 0} → Action S E A → (A → Action S E B) → Action S E B
(m >>= k) s = then_do (m s).0 (m s).1 k

-- src/src/rpc/mod.rs, the trait `Request`: a method and serialized parameters are sent, and the
-- answer is deserialized by the function given for its type.
pub record Request (Json S : Type 0) : Type 1 where
  pub request :
      {R : Type 0} → (Json → Result String R) → String → List Json → Action S RpcClientError R

-- A client over a node that answers or fails, as the clients of the program are built: the answer
-- to a request is deserialized.
abbrev pub over :
    {Json S : Type 0} → (String → List Json → Action S RpcClientError Json) → Request Json S
over send = record {
  request = λ of method params s.
      then_do (send method params s).0 (send method params s).1
        (λ answer. lift (map_err RpcClientError.serde (of answer)));
}

abbrev pub Log : Type 0 → Type 0 → Type 0
Log Json S = List (String × List Json) × S

-- A client that keeps what was requested.
abbrev pub recorded : {Json S : Type 0} → Request Json S → Request Json (Log Json S)
recorded client = record {
  request = λ of method params (log, s).
      let (r, t) = client.request of method params s in (r, (log ++ (method, params) ∷ [], t));
}

pub >>=-ok :
    {S E A B : Type 0} (m : Action S E A) (k : A → Action S E B) {s : S} {a : A} {t : S}
    → m s ≡ (ok a, t)
    → (m >>= k) s ≡ k a t
>>=-ok m k h = ap (λ p. then_do p.0 p.1 k) h

-- Inversion of a successful action, for a goal `C`.
pub >>=-open :
    {S E A B : Type 0} {C : Type 0} (m : Action S E A) (k : A → Action S E B) (s : S) {b : B}
    {u : S}
    → (m >>= k) s ≡ (ok b, u)
    → ((a : A) (t : S) → m s ≡ (ok a, t) → k a t ≡ (ok b, u) → C)
    → C
>>=-open {S} {E} {A} {B} {C} m k s {b} {u} = opened (m s)
  where
    opened :
        (p : Result E A × S)
        → then_do p.0 p.1 k ≡ (ok b, u)
        → ((a : A) (t : S) → p ≡ (ok a, t) → k a t ≡ (ok b, u) → C)
        → C
    opened (ok a, t) h c = c a t refl h
    opened (err e, t) h c = cc
    opened (panic, t) h c = cc
    opened (out_of_fuel, t) h c = cc
