-- ===== src/Client/Watch.antt =====
-- src/src/api/rpc_api/author.rs: `submit_and_watch_extrinsic_until`. What the subscription delivers
-- is a list, which ends where `next` returns `None`; the outcome of `unsubscribe` is a parameter.
use substrate_api_client.Prelude.{
  ◌≡◌, ◌↔◌, refl, sym, ap, inl, inr, ◌⊎◌, none, some, String, Bool-cases, true, false, Option, List,
  [], ◌∷◌, ◌++◌, All,
}
use substrate_api_client.Prelude.{
  Result, ok, err, panic, out_of_fuel, ◌>>=◌, ◌>>◌, ok-inj, if◌then◌else◌, leb,
}
use mathlib.Core.Path.{subst}
use substrate_api_client.Client.Error.{ApiError, extrinsic, no_stream}
use substrate_api_client.Client.Status.{
  XtStatus, TransactionStatus, status_number, as_u8, is_supported, return_block_hash_if_available,
}

module _ {Hash BlockHash : Type 0} where
  module _ (debug : TransactionStatus Hash BlockHash → String)
      (unsubscribe : Result {0, 0} ApiError Unit) (watch_until : XtStatus) where
    unfoldable pub watch :
        List (Result ApiError (TransactionStatus Hash BlockHash))
        → Result ApiError (Option BlockHash)
    unfolding as_u8 status_number is_supported return_block_hash_if_available
    watch [] = err no_stream
    watch (item ∷ items) =
        let rest = watch items in
        item >>= λ status.
        if is_supported status
        then (if leb (status_number watch_until) (as_u8 status)
            then (unsubscribe >> ok (return_block_hash_if_available status))
            else rest)
        else (unsubscribe >> err (extrinsic (debug status)))

    unfoldable pub submit_and_watch_extrinsic_until :
        Result ApiError (List (Result ApiError (TransactionStatus Hash BlockHash)))
        → Result ApiError (Option BlockHash)
    unfolding watch
    submit_and_watch_extrinsic_until subscription = subscription >>= λ items. watch items

  -- The statuses at which watching goes on. Watching until a block has the transaction goes on at
  -- the block, whose number is below that of `XtStatus::InBlock`.
  abbrev pub GoesOn : XtStatus → TransactionStatus Hash BlockHash → Type 0
  GoesOn XtStatus.broadcast TransactionStatus.ready = Unit
  GoesOn XtStatus.in_block TransactionStatus.ready = Unit
  GoesOn XtStatus.in_block (TransactionStatus.broadcast ps) = Unit
  GoesOn XtStatus.in_block (TransactionStatus.in_block b) = Unit
  GoesOn XtStatus.finalized TransactionStatus.ready = Unit
  GoesOn XtStatus.finalized (TransactionStatus.broadcast ps) = Unit
  GoesOn XtStatus.finalized (TransactionStatus.in_block b) = Unit
  GoesOn XtStatus.finalized (TransactionStatus.finality_timeout b) = Unit
  GoesOn _ _ = ⊥

  -- The statuses at which it ends, with the result.
  abbrev pub Reaches : XtStatus → TransactionStatus Hash BlockHash → Option BlockHash → Type 0
  Reaches u (TransactionStatus.finalized b) h = h ≡ some b
  Reaches XtStatus.ready TransactionStatus.ready h = h ≡ none
  Reaches XtStatus.ready (TransactionStatus.broadcast ps) h = h ≡ none
  Reaches XtStatus.ready (TransactionStatus.in_block b) h = h ≡ some b
  Reaches XtStatus.ready (TransactionStatus.finality_timeout b) h = h ≡ some b
  Reaches XtStatus.broadcast (TransactionStatus.broadcast ps) h = h ≡ none
  Reaches XtStatus.broadcast (TransactionStatus.in_block b) h = h ≡ some b
  Reaches XtStatus.broadcast (TransactionStatus.finality_timeout b) h = h ≡ some b
  Reaches XtStatus.in_block (TransactionStatus.finality_timeout b) h = h ≡ some b
  Reaches _ _ _ = ⊥

  abbrev pub delivered :
      List (TransactionStatus Hash BlockHash)
      → List (Result ApiError (TransactionStatus Hash BlockHash))
  delivered [] = []
  delivered (s ∷ ss) = ok s ∷ delivered ss

  -- What the numbers of the statuses say.
  GoesOn-tests :
      (v : XtStatus) (s : TransactionStatus Hash BlockHash)
      → GoesOn v s
      → (is_supported s ≡ true) × (leb (status_number v) (as_u8 s) ≡ false)
  unfolding is_supported status_number as_u8
  GoesOn-tests XtStatus.broadcast TransactionStatus.ready g = (refl, refl)
  GoesOn-tests XtStatus.in_block TransactionStatus.ready g = (refl, refl)
  GoesOn-tests XtStatus.in_block (TransactionStatus.broadcast ps) g = (refl, refl)
  GoesOn-tests XtStatus.in_block (TransactionStatus.in_block b) g = (refl, refl)
  GoesOn-tests XtStatus.finalized TransactionStatus.ready g = (refl, refl)
  GoesOn-tests XtStatus.finalized (TransactionStatus.broadcast ps) g = (refl, refl)
  GoesOn-tests XtStatus.finalized (TransactionStatus.in_block b) g = (refl, refl)
  GoesOn-tests XtStatus.finalized (TransactionStatus.finality_timeout b) g = (refl, refl)
  GoesOn-tests v s g = absurd g

  Reaches-tests :
      (v : XtStatus) (s : TransactionStatus Hash BlockHash) (h : Option BlockHash)
      → Reaches v s h
      → (is_supported s ≡ true)
        × (leb (status_number v) (as_u8 s) ≡ true)
        × (return_block_hash_if_available s ≡ h)
  unfolding is_supported status_number as_u8 return_block_hash_if_available
  Reaches-tests XtStatus.ready TransactionStatus.ready h g = (refl, refl, sym g)
  Reaches-tests XtStatus.ready (TransactionStatus.broadcast ps) h g = (refl, refl, sym g)
  Reaches-tests XtStatus.ready (TransactionStatus.in_block b) h g = (refl, refl, sym g)
  Reaches-tests XtStatus.ready (TransactionStatus.finality_timeout b) h g = (refl, refl, sym g)
  Reaches-tests XtStatus.ready (TransactionStatus.finalized b) h g = (refl, refl, sym g)
  Reaches-tests XtStatus.broadcast (TransactionStatus.broadcast ps) h g = (refl, refl, sym g)
  Reaches-tests XtStatus.broadcast (TransactionStatus.in_block b) h g = (refl, refl, sym g)
  Reaches-tests XtStatus.broadcast (TransactionStatus.finality_timeout b) h g = (refl, refl, sym g)
  Reaches-tests XtStatus.broadcast (TransactionStatus.finalized b) h g = (refl, refl, sym g)
  Reaches-tests XtStatus.in_block (TransactionStatus.finality_timeout b) h g = (refl, refl, sym g)
  Reaches-tests XtStatus.in_block (TransactionStatus.finalized b) h g = (refl, refl, sym g)
  Reaches-tests XtStatus.finalized (TransactionStatus.finalized b) h g = (refl, refl, sym g)
  Reaches-tests v s h g = absurd g

  tests-cases :
      (v : XtStatus) (s : TransactionStatus Hash BlockHash)
      → is_supported s ≡ true
      → GoesOn v s ⊎ Reaches v s (return_block_hash_if_available s)
  unfolding is_supported return_block_hash_if_available
  tests-cases XtStatus.ready TransactionStatus.ready p = inr refl
  tests-cases XtStatus.ready (TransactionStatus.broadcast ps) p = inr refl
  tests-cases XtStatus.ready (TransactionStatus.in_block b) p = inr refl
  tests-cases XtStatus.ready (TransactionStatus.finality_timeout b) p = inr refl
  tests-cases XtStatus.ready (TransactionStatus.finalized b) p = inr refl
  tests-cases XtStatus.broadcast TransactionStatus.ready p = inl tt
  tests-cases XtStatus.broadcast (TransactionStatus.broadcast ps) p = inr refl
  tests-cases XtStatus.broadcast (TransactionStatus.in_block b) p = inr refl
  tests-cases XtStatus.broadcast (TransactionStatus.finality_timeout b) p = inr refl
  tests-cases XtStatus.broadcast (TransactionStatus.finalized b) p = inr refl
  tests-cases XtStatus.in_block TransactionStatus.ready p = inl tt
  tests-cases XtStatus.in_block (TransactionStatus.broadcast ps) p = inl tt
  tests-cases XtStatus.in_block (TransactionStatus.in_block b) p = inl tt
  tests-cases XtStatus.in_block (TransactionStatus.finality_timeout b) p = inr refl
  tests-cases XtStatus.in_block (TransactionStatus.finalized b) p = inr refl
  tests-cases XtStatus.finalized TransactionStatus.ready p = inl tt
  tests-cases XtStatus.finalized (TransactionStatus.broadcast ps) p = inl tt
  tests-cases XtStatus.finalized (TransactionStatus.in_block b) p = inl tt
  tests-cases XtStatus.finalized (TransactionStatus.finality_timeout b) p = inl tt
  tests-cases XtStatus.finalized (TransactionStatus.finalized b) p = inr refl
  tests-cases v s p = cc

  module _ (debug : TransactionStatus Hash BlockHash → String)
      (unsubscribe : Result {0, 0} ApiError Unit) (u : XtStatus) where
    -- Statuses at which watching goes on are passed over.
    watch-delivered :
        (ss : List (TransactionStatus Hash BlockHash))
        → All (GoesOn u) ss
        → (items : List (Result ApiError (TransactionStatus Hash BlockHash)))
        → watch debug unsubscribe u (delivered ss ++ items) ≡ watch debug unsubscribe u items
    unfolding watch
    watch-delivered [] a items = refl
    watch-delivered (s ∷ ss) (g, a) items =
        let (p, q) = GoesOn-tests u s g in rw (p, q) (watch-delivered ss a items)

    abbrev pub Watched :
        List (Result ApiError (TransactionStatus Hash BlockHash)) → Option BlockHash → Type 0
    Watched items h =
        (ss : List (TransactionStatus Hash BlockHash)) × (s : TransactionStatus Hash BlockHash)
        × (rest : List (Result ApiError (TransactionStatus Hash BlockHash))) × (items
            ≡ delivered ss ++ (ok s ∷ rest))
        × All (GoesOn u) ss
        × Reaches u s h

    -- When unsubscribing succeeds, watching returns a result if and only if the subscription
    -- delivers a status at which watching for `u` ends, with that result, and before it only
    -- statuses at which it goes on. It ends at `Finalized` and, where it is not for `Finalized`, at
    -- `FinalityTimeout`; for `Ready` or `Broadcast` also at the status watched for, at a
    -- broadcast and in a block. It goes on at the supported statuses before these, which for
    -- `InBlock` has a status in a block among them. The result is the hash of the block, if the
    -- status has one.
    pub watch_iff :
        unsubscribe ≡ ok tt
        → (items : List (Result ApiError (TransactionStatus Hash BlockHash))) (h : Option BlockHash)
        → (watch debug unsubscribe u items ≡ ok h) ↔ Watched items h
    unfolding watch
    watch_iff un items h = (
      reached items,
      λ (ss, s, rest, e, a, g).
          let (p, q, r) = Reaches-tests u s h g in
          rw e (rw (watch-delivered ss a (ok s ∷ rest)) (rw (p, q, un, r))),
    )
      where
        reached :
            (items : List (Result ApiError (TransactionStatus Hash BlockHash)))
            → watch debug unsubscribe u items ≡ ok h
            → Watched items h
        reached [] e = cc
        reached (err x ∷ items) e = cc
        reached (panic ∷ items) e = cc
        reached (out_of_fuel ∷ items) e = cc
        reached (ok s ∷ items) e = elim (Bool-cases (is_supported s)) [
          | inr n ↦ let x = rw (n, un, watch) at e in cc
          | inl y ↦ elim (tests-cases u s y) [
            | inr g ↦
                let (p, q, r) = Reaches-tests u s (return_block_hash_if_available s) g in
                let is_h = ok-inj (rw (p, q, un, watch) at e) in
                ([], s, items, refl, tt, subst (Reaches u s) is_h g)
            | inl g ↦
                let (p, q) = GoesOn-tests u s g in
                let (ss, t, rest, f, a, r) = reached items (rw (p, q, watch) at e) in
                (s ∷ ss, t, rest, ap (λ l. ok s ∷ l) f, (g, a), r)
          ]
        ]
