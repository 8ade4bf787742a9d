-- ===== src/Solana/Rotation.antt =====
-- The signer rotation of the Solana bridge: propose, wait, execute.
use kinet_std.Shared.{
  ℕ, ◌≡◌, ◌↔◌, refl, true, Option, some, ok, List, All, arith, Bytes, Option-cases, inl, inr,
  bytes_eq, bytes_eq_refl, ◌∙◌,
}
use kinet_std.Shared.Int.{ℤ, pos, ◌+ℤ◌, ◌<ℤ◌, add_i64, +ℤ_parts, eq_of_parts}
use kinet_std.Spec.Run.{ended, ended_inv_of}
use kinet_std.Solana.State.{Pubkey, Signers, BridgeConfig, default_signers, has_pending_rotation}
use kinet_std.Solana.Runtime.{Spl, Addresses, Accounts, Instruction}
use kinet_std.Solana.Admin
use kinet_std.Solana.Replay.{Transaction, step}
use kinet_std.Solana.Pending.{
  LeavesRotation, Executed, Waits, step-Waits, execute_signers-Executed, propose_signers-Waits,
}

+ℤ_zero : (a : ℤ) → a +ℤ pos 0 ≡ a
+ℤ_zero a = eq_of_parts (a +ℤ pos 0) a (omega (arith, +ℤ_parts a (pos 0)))

-- The configuration after the pending rotation.
abbrev pub rotated : BridgeConfig → BridgeConfig
rotated c = record c {
  mpc_signers = c.pending_signers;
  threshold = c.pending_threshold;
  pending_signers = default_signers;
  pending_threshold = 0;
  pending_signers_eta = pos 0;
}

module _ {spl : Spl} (at : Addresses) where
  -- Whatever transactions stand between the proposal of a rotation and an `execute_signers`, if the
  -- admin neither proposes nor executes nor cancels by one of them: the execution goes through, with
  -- given accounts, exactly when the admin signs it, the proposal's time and the delay in force then
  -- have passed and their sum is positive, and all that it does is to install just the proposed
  -- signers and threshold, with no rotation pending. The delay and all else may change in between.
  pub propose_signers-execute_signers :
      (a : Accounts spl) (signer executor : Pubkey) (c : BridgeConfig) (now later : ℤ)
      (previous : Option Instruction) (new : Signers) (threshold : ℕ) (message : Bytes)
      (b b' : Accounts spl) (between : List (Transaction spl))
      → a.config ≡ some c
      → Admin.propose_signers at a signer now previous new threshold message ≡ ok b
      → All (LeavesRotation c.admin) between
      → (Admin.execute_signers (ended (step at) b between) executor later ≡ ok b')
        ↔ Executed
            (ended (step at) b between)
            c.admin
            executor
            new
            threshold
            (now +ℤ c.rotation_delay)
            later
            b'
  propose_signers-execute_signers a signer executor c now later previous new threshold message b b'
        between found proposed leaves =
      let eta = now +ℤ c.rotation_delay in
      let proposal : Waits b c.admin new threshold eta =
        propose_signers-Waits at a signer c now previous new threshold message b found proposed in
      execute_signers-Executed at c.admin new threshold eta (ended (step at) b between) executor
        later b'
        (ended_inv_of (step at) (λ s. Waits s c.admin new threshold eta) (LeavesRotation c.admin)
          (λ s x t q went w. step-Waits at c.admin new threshold eta s x t q went w) b between
          leaves proposal)

  -- `initialize` leaves the delay at 0. So on a bridge that was just initialized, a rotation that
  -- the admin proposes with a signer's signature is executed at once, at the very same time.
  pub initialize-rotation_at_once :
      (a a' b : Accounts spl) (admin : Pubkey) (signers new : Signers)
      (threshold fee_bps chain_id t : ℕ) (now : ℤ) (previous : Option Instruction) (message : Bytes)
      → Admin.initialize at a admin signers threshold fee_bps chain_id ≡ ok a'
      → pos 0 <ℤ now
      → Admin.propose_signers at a' admin now previous new t message ≡ ok b
      → (b' : Accounts spl) × (d : BridgeConfig) × (Admin.execute_signers b admin now ≡ ok b')
        × (b'.config ≡ some d)
        × (d.mpc_signers ≡ new)
        × (d.threshold ≡ t)
  unfolding Admin.initialize Admin.propose_signers Admin.execute_signers Admin.as_admin
      has_pending_rotation add_i64
  initialize-rotation_at_once a a' b admin signers new threshold fee_bps chain_id t now previous
        message made positive proposed =
      elim (Option-cases b.config) [
        | inl missing ↦ absurd (ground arith)
        | inr (c, stored) ↦
            let owner : bytes_eq c.admin admin ≡ true = ground (arith, bytes_eq_refl admin) in
            let due : c.pending_signers_eta ≡ now +ℤ pos 0 = ground arith in
            let now_due : c.pending_signers_eta ≡ now = due ∙ +ℤ_zero now in
            let pending : c.pending_signers ≡ new = ground arith in
            let pending_t : c.pending_threshold ≡ t = ground arith in
            (
              Admin.with_config b (rotated c),
              rotated c,
              ground (arith, now_due),
              refl,
              pending,
              pending_t,
            )
      ]
