-- ===== src/Solana/Config.antt =====
-- The configuration of the Solana bridge under every instruction: what stays well formed, and who
-- may change what.
use kinet_std.Shared.{◌≤◌, ◌≡◌, true, false, Option, some, none, ok, arith, bytes_eq}
use kinet_std.Shared.Int.{ℤ, pos, ◌≤ℤ◌, ◌<ℤ◌}
use kinet_std.Solana.State.{
  Pubkey, Event, BridgeConfig, max_rotation_delay, next_nonce, has_pending_rotation,
}
use kinet_std.Solana.Runtime.{Spl, Addresses, Accounts}
use kinet_std.Solana.Admin
use kinet_std.Solana.Transfers
use kinet_std.Solana.Program
use kinet_std.Solana.Program.{Call}

-- The fee is at most 5%, the threshold and a pending one are 1 to 3 of 3, and the rotation delay
-- is 0 to 7 days.
pub record IsWellFormed (c : BridgeConfig) : Type 0 where
  pub fee : c.fee_bps ≤ 500
  pub threshold_low : 1 ≤ c.threshold
  pub threshold_high : c.threshold ≤ 3
  pub delay_low : pos 0 ≤ℤ c.rotation_delay
  pub delay_high : c.rotation_delay ≤ℤ pos max_rotation_delay
  pub pending_low : pos 0 <ℤ c.pending_signers_eta → 1 ≤ c.pending_threshold
  pub pending_high : pos 0 <ℤ c.pending_signers_eta → c.pending_threshold ≤ 3

-- A program with no configuration yet is well formed too.
abbrev pub ConfigWellFormed : Option BridgeConfig → Type 0
ConfigWellFormed none = Unit
ConfigWellFormed (some c) = IsWellFormed c

module _ {spl : Spl} (at : Addresses) (a : Accounts spl) (signer : Pubkey) (now : ℤ) where
  -- Every instruction that goes through leaves a well-formed configuration, if it found one or none.
  pub run_call-IsWellFormed :
      (x : Call) (b : Accounts spl) (e : Option Event) (d : BridgeConfig)
      → ConfigWellFormed a.config
      → Program.run_call at a signer now x ≡ ok (b, e)
      → b.config ≡ some d
      → IsWellFormed d
  unfolding Program.run_call Admin.as_admin Admin.initialize Admin.register_token
      Admin.propose_signers Admin.pause Admin.unpause Admin.execute_signers Admin.cancel_signers
      Admin.update_fee Admin.set_rotation_delay Transfers.live_config Transfers.lock_and_bridge
      Transfers.burn_bridged Transfers.mint_bridged Transfers.release next_nonce
      has_pending_rotation
  run_call-IsWellFormed (Call.initialize s t f i) b e d w h stored = ground arith
  run_call-IsWellFormed (Call.lock_and_bridge x) b e d w h stored = ground arith
  run_call-IsWellFormed Call.execute_signers b e d w h stored = ground arith
  run_call-IsWellFormed x b e d w h stored = ground arith

-- How the signers may change: not at all, or by the admin's `execute_signers` once the pending
-- rotation is due, to the pending ones.
pub data SignersStep (c d : BridgeConfig) (signer : Pubkey) (now : ℤ) : Type 0 where
  kept : d.mpc_signers ≡ c.mpc_signers → d.threshold ≡ c.threshold → SignersStep c d signer now
  rotated :
      bytes_eq c.admin signer ≡ true
      → pos 0 <ℤ c.pending_signers_eta
      → c.pending_signers_eta ≤ℤ now
      → d.mpc_signers ≡ c.pending_signers
      → d.threshold ≡ c.pending_threshold
      → SignersStep c d signer now

-- What only the admin may change.
pub record SameRules (c d : BridgeConfig) : Type 0 where
  pub admin : d.admin ≡ c.admin
  pub fee : d.fee_bps ≡ c.fee_bps
  pub collector : d.fee_collector ≡ c.fee_collector
  pub paused : d.paused ≡ c.paused
  pub delay : d.rotation_delay ≡ c.rotation_delay
  pub pending : d.pending_signers ≡ c.pending_signers
  pub pending_threshold : d.pending_threshold ≡ c.pending_threshold
  pub eta : d.pending_signers_eta ≡ c.pending_signers_eta

module _ {spl : Spl} (at : Addresses) (a : Accounts spl) (signer : Pubkey) (now : ℤ)
    (c : BridgeConfig) (found : a.config ≡ some c) where
  -- Whatever instruction goes through, the signers and the threshold of the Solana bridge stay, or
  -- become the pending ones: then the admin signed, and a rotation was pending and due.
  pub run_call-SignersStep :
      (x : Call) (b : Accounts spl) (e : Option Event) (d : BridgeConfig)
      → Program.run_call at a signer now x ≡ ok (b, e)
      → b.config ≡ some d
      → SignersStep c d signer now
  unfolding Program.run_call Admin.as_admin Admin.initialize Admin.register_token
      Admin.propose_signers Admin.pause Admin.unpause Admin.execute_signers Admin.cancel_signers
      Admin.update_fee Admin.set_rotation_delay Transfers.live_config Transfers.lock_and_bridge
      Transfers.burn_bridged Transfers.mint_bridged Transfers.release next_nonce
      has_pending_rotation
  run_call-SignersStep Call.execute_signers b e d h stored =
      rotated (ground arith) (ground arith) (ground arith) (ground arith) (ground arith)
  run_call-SignersStep x b e d h stored = kept (ground arith) (ground arith)

  -- Whatever instruction of anyone but the admin goes through, the admin, the fee and its
  -- collector, the pause, the rotation delay and the pending rotation of the Solana bridge stay.
  pub run_call-SameRules :
      (x : Call) (b : Accounts spl) (e : Option Event) (d : BridgeConfig)
      → bytes_eq c.admin signer ≡ false
      → Program.run_call at a signer now x ≡ ok (b, e)
      → b.config ≡ some d
      → SameRules c d
  unfolding Program.run_call Admin.as_admin Admin.initialize Admin.register_token
      Admin.propose_signers Admin.pause Admin.unpause Admin.execute_signers Admin.cancel_signers
      Admin.update_fee Admin.set_rotation_delay Transfers.live_config Transfers.lock_and_bridge
      Transfers.burn_bridged Transfers.mint_bridged Transfers.release next_nonce
      has_pending_rotation
  run_call-SameRules Call.execute_signers b e d stranger h stored = absurd (ground arith)
  run_call-SameRules x b e d stranger h stored = ground arith
