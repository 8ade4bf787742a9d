-- ===== src/Cosmos/Metered.antt =====
-- The daily limit of a denomination over runs of the whole CosmWasm bridge.
use kinet_std.Shared.{
  ℕ, ◌+◌, ◌≤◌, ◌<◌, ◌≡◌, ◌⊎◌, inl, inr, refl, false, Option, some, none, All, List, ok, err, arith,
  Bytes, bytes_eq, bytes_eq_sound, sym, ◌∙◌, ap, if◌then◌else◌, Result-cases, Bool-cases,
}
use kinet_std.Shared.Int.{ℤ, pos}
use kinet_std.Spec.Run.{logged, sum_of}
use kinet_std.Spec.Metered.{Metered, run-day, WithinDay}
use kinet_std.Cosmos.State.{
  Event, ExecuteMsg, Inbound, MessageInfo, Response, Runtime, Storage, TokenConfig,
}
use kinet_std.Cosmos.Contract
use kinet_std.Cosmos.Inbound.{Minted, mint_bridged-Minted}
use kinet_std.Cosmos.LimitLaws.{limit_quota, limit_step, meter, Timely}

-- What an event reports as minted of a denomination.
unfoldable pub minted_of : Bytes → Event → ℕ
minted_of d (Event.mint s n r v e) = if bytes_eq e d then v else 0
minted_of d _ = 0

-- Every message but one that registers the denomination, which would start its record anew.
abbrev pub Keeps : Bytes → ExecuteMsg → Type 0
Keeps d (ExecuteMsg.register_token e native limit) = bytes_eq e d ≡ false
Keeps d _ = Unit

module _ (rt : Runtime) where
  -- A message that goes through, with the events of its response.
  unfoldable pub event_step : Storage → Contract.Call → Option (Storage × List Event)
  event_step s c = elim (Contract.execute rt s c) [ ok (t, r) ↦ some (t, r.events) | err e ↦ none ]

  module _ (d : Bytes) (s : Storage) (now : ℕ) (x : TokenConfig)
      (here : s.token_configs d ≡ some x) where
    -- What a message does to the record of the denomination `d`.
    abbrev Effect : Storage → Response → Type 0
    Effect t r =
        ((t.token_configs d ≡ some x) × (sum_of (minted_of d) r.events ≡ 0))
        ⊎ ((y : TokenConfig) × (t.token_configs d ≡ some y)
            × (limit_step rt x (pos now) (sum_of (minted_of d) r.events) ≡ some y))

    mint_bridged-Effect :
        (m : Inbound) (t : Storage) (r : Response) → Minted rt s now m t r → Effect t r
    unfolding limit_step sum_of minted_of
    mint_bridged-Effect m t r p = elim (Bool-cases (bytes_eq m.denom d)) [
      | inl same ↦
          let found : some p.token ≡ some x =
            sym p.registered ∙ ap s.token_configs (bytes_eq_sound m.denom d same) ∙ here in
          let token_is : p.token ≡ x = cc in
          inr (
            p.checked,
            ground (arith, p.state_after, same),
            rw (p.published, sum_of, minted_of, same, ← token_is) (ground (arith, p.within_limit)),
          )
      | inr other ↦ inl (
        ground (arith, p.state_after, other, here),
        rw (p.published, sum_of, minted_of, other) refl,
      )
    ]

    dispatch-Effect :
        (info : MessageInfo) (msg : ExecuteMsg) (t : Storage) (r : Response)
        → Keeps d msg
        → Contract.dispatch rt s now info msg ≡ ok (t, r)
        → Effect t r
    unfolding Contract.dispatch Contract.lock_and_bridge Contract.burn_bridged Contract.release
        Contract.register_token Contract.update_signers Contract.update_fee Contract.pause
        Contract.unpause sum_of minted_of
    dispatch-Effect info (ExecuteMsg.mint_bridged m) t r keeps h =
        mint_bridged-Effect m t r (mint_bridged-Minted rt s now m t r h)
    dispatch-Effect info msg t r keeps h = inl (ground (arith, here), ground arith)

  event_step-went :
      (s : Storage) (c : Contract.Call) (t : Storage) (es : List Event)
      → event_step s c ≡ some (t, es)
      → (r : Response) × (es ≡ r.events) × (Contract.dispatch rt s c.now c.info c.msg ≡ ok (t, r))
  unfolding event_step Contract.execute
  event_step-went s c t es h = elim (Result-cases (Contract.dispatch rt s c.now c.info c.msg)) [
    | inl ((t', r), went) ↦ (r, ground arith, ground arith)
    | inr (e, failed) ↦ absurd (ground arith)
  ]

  metered :
      (d : Bytes)
      → Metered event_step
          (λ s. s.token_configs d)
          (limit_step rt)
          (λ c. pos c.now)
          (minted_of d)
          (λ s. Unit {0})
          (λ c. Keeps d c.msg)
  metered d = record {
    stays = λ s c t es v h. tt;
    charges = λ s c t es x v keeps h here.
        let (r, log, went) = event_step-went s c t es h in
        rw log (dispatch-Effect d s c.now x here c.info c.msg t r keeps went);
  }

  -- Let a denomination of the CosmWasm bridge have a limit that is not 0 and that its period keeps,
  -- and let the clock be a day or more from the end of u64. Over any sequence of messages that all
  -- stand within 86400 seconds and none of which registers the denomination, the amounts of the mints
  -- of it that the responses report add up to at most twice its limit, less what the period had used
  -- already.
  pub cosmos_run-minted_per_day :
      (d : Bytes) (s : Storage) (x : TokenConfig) (from : ℤ) (calls : List Contract.Call)
      → s.token_configs d ≡ some x
      → 0 < x.daily_mint_limit
      → x.daily_minted ≤ x.daily_mint_limit
      → Timely (pos x.period_start)
      → All (λ c. Keeps d c.msg) calls
      → WithinDay (λ c. pos c.now) Timely from calls
      → x.daily_minted + sum_of (minted_of d) (logged event_step s calls)
        ≤ x.daily_mint_limit + x.daily_mint_limit
  cosmos_run-minted_per_day d s x from calls here positive fits early keeps within =
      run-day (metered d) meter Timely (limit_quota rt) from s calls x tt here positive fits early
        keeps within
