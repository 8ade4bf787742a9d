-- ===== src/Cosmos/Admin.antt =====
-- Who may change what in the CosmWasm bridge, and what a pause stops.
use kinet_std.Shared.{
  ℕ, ◌≤◌, ◌≡◌, Bool, true, false, some, ok, err, bytes_eq, arith, Option-cases, inl, inr,
}
use kinet_std.Cosmos.State.{Config, Storage, ExecuteMsg, MessageInfo, Response, StdError, Runtime}
use kinet_std.Cosmos.Inbound.{mint_bridged-Minted, release-Released}
use kinet_std.Cosmos.Contract

-- What only the admin may change.
pub record SameRules (c d : Config) : Type 0 where
  pub admin : d.admin ≡ c.admin
  pub signers : d.mpc_signers ≡ c.mpc_signers
  pub threshold : d.threshold ≡ c.threshold
  pub fee : d.fee_bps ≡ c.fee_bps
  pub collector : d.fee_collector ≡ c.fee_collector
  pub paused : d.paused ≡ c.paused
  pub chain : d.chain_id ≡ c.chain_id

abbrev pub is_transfer : ExecuteMsg → Bool
is_transfer (ExecuteMsg.lock_and_bridge x y) = true
is_transfer (ExecuteMsg.mint_bridged m) = true
is_transfer (ExecuteMsg.burn_bridged x y z w) = true
is_transfer (ExecuteMsg.release m) = true
is_transfer _ = false

module _ (rt : Runtime) (s : Storage) (now : ℕ) (info : MessageInfo) (c : Config)
    (loaded : s.config ≡ some c) where
  -- A call of anyone but the admin that goes through leaves the admin, the signers, the threshold,
  -- the fee and its collector, the pause and the chain id as they were.
  pub dispatch-SameRules :
      (msg : ExecuteMsg) (t : Storage) (r : Response)
      → bytes_eq info.sender c.admin ≡ false
      → Contract.dispatch rt s now info msg ≡ ok (t, r)
      → (d : Config) × (t.config ≡ some d) × SameRules c d
  unfolding Contract.dispatch Contract.as_admin
  dispatch-SameRules (ExecuteMsg.lock_and_bridge x y) t r stranger h =
      unfold Contract.lock_and_bridge in
      elim (Option-cases t.config) [
        | inl missing ↦ absurd (ground arith)
        | inr (d, stored) ↦ (d, stored, ground arith)
      ]
  dispatch-SameRules (ExecuteMsg.mint_bridged m) t r stranger h =
      (c, ground (arith, (mint_bridged-Minted rt s now m t r h).state_after), ground arith)
  dispatch-SameRules (ExecuteMsg.burn_bridged x y z w) t r stranger h =
      unfold Contract.burn_bridged in
      elim (Option-cases t.config) [
        | inl missing ↦ absurd (ground arith)
        | inr (d, stored) ↦ (d, stored, ground arith)
      ]
  dispatch-SameRules (ExecuteMsg.release m) t r stranger h =
      (c, ground (arith, (release-Released rt s m t r h).state_after), ground arith)
  dispatch-SameRules (ExecuteMsg.register_token x y z) t r stranger h =
      absurd (unfold Contract.register_token in ground arith)
  dispatch-SameRules (ExecuteMsg.update_signers x y) t r stranger h =
      absurd (unfold Contract.update_signers in ground arith)
  dispatch-SameRules (ExecuteMsg.update_fee x) t r stranger h =
      absurd (unfold Contract.update_fee in ground arith)
  dispatch-SameRules ExecuteMsg.pause t r stranger h =
      absurd (unfold Contract.pause in ground arith)
  dispatch-SameRules ExecuteMsg.unpause t r stranger h =
      absurd (unfold Contract.unpause in ground arith)

  -- While the bridge is paused every lock, mint, burn and release fails as paused.
  pub dispatch-paused :
      (msg : ExecuteMsg)
      → c.paused ≡ true
      → is_transfer msg ≡ true
      → Contract.dispatch rt s now info msg ≡ err StdError.paused
  unfolding Contract.dispatch Contract.lock_and_bridge Contract.mint_bridged Contract.burn_bridged
      Contract.release Contract.authorize
  dispatch-paused (ExecuteMsg.lock_and_bridge x y) stopped transfer = ground arith
  dispatch-paused msg stopped transfer = ground arith

module _ (rt : Runtime) (s : Storage) (now : ℕ) (info : MessageInfo) (c : Config)
    (loaded : s.config ≡ some c) where
  dispatch-config :
      (msg : ExecuteMsg) (t : Storage) (r : Response)
      → Contract.dispatch rt s now info msg ≡ ok (t, r)
      → (d : Config) × (t.config ≡ some d)
  unfolding Contract.dispatch Contract.as_admin Contract.lock_and_bridge Contract.burn_bridged
      Contract.register_token Contract.update_signers Contract.update_fee Contract.pause
      Contract.unpause
  dispatch-config (ExecuteMsg.mint_bridged m) t r h =
      (c, ground (arith, (mint_bridged-Minted rt s now m t r h).state_after))
  dispatch-config (ExecuteMsg.release m) t r h =
      (c, ground (arith, (release-Released rt s m t r h).state_after))
  dispatch-config msg t r h = elim (Option-cases t.config) [
    | inl missing ↦ absurd (ground arith)
    | inr found ↦ found
  ]

  dispatch-fee_and_admin :
      (msg : ExecuteMsg) (t : Storage) (r : Response) (d : Config)
      → c.fee_bps ≤ 500
      → Contract.dispatch rt s now info msg ≡ ok (t, r)
      → t.config ≡ some d
      → (d.fee_bps ≤ 500) × (d.admin ≡ c.admin)
  unfolding Contract.dispatch Contract.as_admin Contract.lock_and_bridge Contract.burn_bridged
      Contract.register_token Contract.update_signers Contract.update_fee Contract.pause
      Contract.unpause
  dispatch-fee_and_admin (ExecuteMsg.mint_bridged m) t r d capped h stored =
      ground (arith, (mint_bridged-Minted rt s now m t r h).state_after)
  dispatch-fee_and_admin (ExecuteMsg.release m) t r d capped h stored =
      ground (arith, (release-Released rt s m t r h).state_after)
  dispatch-fee_and_admin msg t r d capped h stored = ground arith

  -- Every call that goes through, the admin's included, keeps the admin, and keeps the fee at 5% or
  -- less if it was.
  pub dispatch-fee_capped :
      (msg : ExecuteMsg) (t : Storage) (r : Response)
      → c.fee_bps ≤ 500
      → Contract.dispatch rt s now info msg ≡ ok (t, r)
      → (d : Config) × (t.config ≡ some d) × (d.fee_bps ≤ 500) × (d.admin ≡ c.admin)
  dispatch-fee_capped msg t r capped h =
      let (d, stored) = dispatch-config msg t r h in
      let (fee, admin) = dispatch-fee_and_admin msg t r d capped h stored in (d, stored, fee, admin)
