-- ===== src/Solana/Pending.antt =====
-- A rotation of the signers of the Solana bridge that waits for its time.
use kinet_std.Shared.{
  ℕ, ◌≡◌, ◌↔◌, Bool, true, false, ◌&&◌, Option, some, ok, arith, Bytes, Option-cases, inl, inr,
  bytes_eq, ◌∙◌, state_of-eq-some,
}
use kinet_std.Shared.Int.{ℤ, pos, ◌+ℤ◌, ◌≤ℤ◌, ◌<ℤ◌, add_i64}
use kinet_std.Solana.State.{
  Pubkey, Event, Signers, BridgeConfig, default_signers, has_pending_rotation, next_nonce,
}
use kinet_std.Solana.Runtime.{Spl, Addresses, Accounts, Instruction}
use kinet_std.Solana.Admin
use kinet_std.Solana.Transfers
use kinet_std.Solana.Program
use kinet_std.Solana.Program.{Call}
use kinet_std.Solana.Replay.{Transaction, found_by, step}

-- The instructions that start or end a rotation.
abbrev pub rotates : Call → Bool
rotates (Call.propose_signers p s t m) = true
rotates Call.execute_signers = true
rotates Call.cancel_signers = true
rotates _ = false

-- The admin neither proposes, nor executes, nor cancels a rotation by this transaction.
abbrev pub LeavesRotation : {spl : Spl} → Pubkey → Transaction spl → Type 0
LeavesRotation admin x = (bytes_eq admin x.signer && rotates x.call) ≡ false

-- A rotation to these signers waits for its time.
pub record Waits {spl : Spl} (a : Accounts spl) (admin : Pubkey) (new : Signers) (threshold : ℕ)
    (eta : ℤ) : Type 0 where
  pub config : BridgeConfig
  pub stored : a.config ≡ some config
  pub owner : config.admin ≡ admin
  pub signers : config.pending_signers ≡ new
  pub pending_threshold : config.pending_threshold ≡ threshold
  pub due : config.pending_signers_eta ≡ eta

-- An execution that went through: the admin's, no earlier than the time, which is positive; all
-- that changes is that the signers and the threshold are the proposed ones and none is pending.
pub record Executed {spl : Spl} (a : Accounts spl) (admin executor : Pubkey) (new : Signers)
    (threshold : ℕ) (eta later : ℤ) (b : Accounts spl) : Type 0 where
  pub owner : bytes_eq admin executor ≡ true
  pub positive : pos 0 <ℤ eta
  pub due : eta ≤ℤ later
  pub config : BridgeConfig
  pub found : a.config ≡ some config
  pub installed : b ≡ record a {
    config = some (record config {
      mpc_signers = new;
      threshold = threshold;
      pending_signers = default_signers;
      pending_threshold = 0;
      pending_signers_eta = pos 0;
    });
  }

module _ {spl : Spl} (at : Addresses) (admin : Pubkey) (new : Signers) (threshold : ℕ)
    (eta : ℤ) where
  run_call-stored :
      (a : Accounts spl) (signer : Pubkey) (now : ℤ) (x : Call) (b : Accounts spl)
      (e : Option Event) (c : BridgeConfig)
      → Program.run_call at a signer now x ≡ ok (b, e)
      → a.config ≡ some c
      → (d : BridgeConfig) × (b.config ≡ some d)
  unfolding Program.run_call Admin.as_admin Admin.initialize Admin.register_token
      Admin.propose_signers Admin.pause Admin.unpause Admin.execute_signers Admin.cancel_signers
      Admin.update_fee Admin.set_rotation_delay Transfers.live_config Transfers.lock_and_bridge
      Transfers.burn_bridged Transfers.mint_bridged Transfers.release next_nonce
      has_pending_rotation
  run_call-stored a signer now x b e c went found = elim (Option-cases b.config) [
    | inl missing ↦ absurd (ground arith)
    | inr (d, stored) ↦ (d, stored)
  ]

  run_call-kept :
      (a : Accounts spl) (signer : Pubkey) (now : ℤ) (x : Call) (b : Accounts spl)
      (e : Option Event) (c d : BridgeConfig)
      → (bytes_eq c.admin signer && rotates x) ≡ false
      → Program.run_call at a signer now x ≡ ok (b, e)
      → a.config ≡ some c
      → b.config ≡ some d
      → (d.admin ≡ c.admin)
        × (d.pending_signers ≡ c.pending_signers)
        × (d.pending_threshold ≡ c.pending_threshold)
        × (d.pending_signers_eta ≡ c.pending_signers_eta)
  unfolding Program.run_call Admin.as_admin Admin.initialize Admin.register_token
      Admin.propose_signers Admin.pause Admin.unpause Admin.execute_signers Admin.cancel_signers
      Admin.update_fee Admin.set_rotation_delay Transfers.live_config Transfers.lock_and_bridge
      Transfers.burn_bridged Transfers.mint_bridged Transfers.release next_nonce
      has_pending_rotation
  run_call-kept a signer now Call.execute_signers b e c d other went found stored =
      absurd (ground arith)
  run_call-kept a signer now x b e c d other went found stored = ground arith

  pub step-Waits :
      (a : Accounts spl) (x : Transaction spl) (b : Accounts spl)
      → LeavesRotation admin x
      → step at a x ≡ some b
      → Waits a admin new threshold eta
      → Waits b admin new threshold eta
  unfolding step
  step-Waits a x b other h w =
      let (e, went) =
        state_of-eq-some (Program.run_call at (found_by a x) x.signer x.now x.call) h in
      let (d, stored) =
        run_call-stored (found_by a x) x.signer x.now x.call b e w.config went w.stored in
      let stranger : (bytes_eq w.config.admin x.signer && rotates x.call) ≡ false =
        rw w.owner other in
      let (owner, signers, pending, due) =
        run_call-kept (found_by a x) x.signer x.now x.call b e w.config d stranger went w.stored
          stored in
      record {
        config = d;
        stored = stored;
        owner = owner ∙ w.owner;
        signers = signers ∙ w.signers;
        pending_threshold = pending ∙ w.pending_threshold;
        due = due ∙ w.due;
      }

  pub execute_signers-Executed :
      (a : Accounts spl) (executor : Pubkey) (later : ℤ) (b : Accounts spl)
      → Waits a admin new threshold eta
      → (Admin.execute_signers a executor later ≡ ok b)
        ↔ Executed a admin executor new threshold eta later b
  unfolding Admin.execute_signers Admin.as_admin has_pending_rotation
  execute_signers-Executed a executor later b w = (
    λ h. record {
      owner = ground (arith, w.stored, w.owner);
      positive = ground (arith, w.stored, w.due);
      due = ground (arith, w.stored, w.due);
      config = w.config;
      found = w.stored;
      installed = ground (arith, w.stored, w.signers, w.pending_threshold);
    },
    λ p. ground (
      arith, w.stored, w.owner, w.signers, w.pending_threshold, w.due, p.owner, p.positive, p.due,
      p.found, p.installed,
    ),
  )

module _ {spl : Spl} (at : Addresses) where
  pub propose_signers-Waits :
      (a : Accounts spl) (signer : Pubkey) (c : BridgeConfig) (now : ℤ)
      (previous : Option Instruction) (new : Signers) (threshold : ℕ) (message : Bytes)
      (b : Accounts spl)
      → a.config ≡ some c
      → Admin.propose_signers at a signer now previous new threshold message ≡ ok b
      → Waits b c.admin new threshold (now +ℤ c.rotation_delay)
  unfolding Admin.propose_signers Admin.as_admin add_i64
  propose_signers-Waits a signer c now previous new threshold message b found proposed =
      elim (Option-cases b.config) [
        | inl missing ↦ absurd (ground arith)
        | inr (d, stored) ↦ record {
          config = d;
          stored = stored;
          owner = ground arith;
          signers = ground arith;
          pending_threshold = ground arith;
          due = ground arith;
        }
      ]
