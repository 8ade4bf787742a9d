-- ===== src/Solana/Program.antt =====
-- lib.rs: the instructions of the program, with what the transaction supplies to each.
use kinet_std.Shared.{ℕ, Bool, Option, some, none, Bytes, Result, ok, ◌>>=◌}
use kinet_std.Shared.Int.{ℤ}
use kinet_std.Solana.State.{Pubkey, Fault, Event, Signers}
use kinet_std.Solana.Runtime.{Spl, Addresses, Accounts, Instruction}
use kinet_std.Solana.Admin
use kinet_std.Solana.Transfers
use kinet_std.Solana.Transfers.{LockAndBridge, BurnBridged, MintBridged, Release}

-- `signer` has signed the transaction where an instruction asks for an admin.
pub data Call : Type 0 where
  initialize : (mpc_signers : Signers) (threshold fee_bps chain_id : ℕ) → Call
  register_token :
      (mint : Pubkey) (wrapped_mint : Option Pubkey) (is_native : Bool) (daily_mint_limit : ℕ)
      → Call
  lock_and_bridge : LockAndBridge → Call
  mint_bridged : MintBridged → Call
  burn_bridged : BurnBridged → Call
  release : Release → Call
  pause : Call
  unpause : Call
  propose_signers :
      (previous : Option Instruction) (new_signers : Signers) (threshold : ℕ) (message : Bytes)
      → Call
  execute_signers : Call
  cancel_signers : Call
  update_fee : (fee_bps : ℕ) → Call
  set_rotation_delay : (delay_seconds : ℤ) → Call

-- An instruction that emits no event.
abbrev quiet :
    {spl : Spl} → Result Fault (Accounts spl) → Result Fault (Accounts spl × Option Event)
quiet r = do a ← r; ok (a, none)

abbrev loud :
    {spl : Spl} → Result Fault (Accounts spl × Event) → Result Fault (Accounts spl × Option Event)
loud r = do (a, e) ← r; ok (a, some e)

module _ {spl : Spl} (at : Addresses) where
  unfoldable pub run_call :
      Accounts spl → (signer : Pubkey) (now : ℤ) → Call → Result Fault (Accounts spl × Option Event)
  run_call a signer now (Call.initialize s t f c) = quiet (Admin.initialize at a signer s t f c)
  run_call a signer now (Call.register_token m w n l) =
      quiet (Admin.register_token at a signer now m w n l)
  run_call a signer now (Call.lock_and_bridge x) = loud (Transfers.lock_and_bridge at a now x)
  run_call a signer now (Call.mint_bridged x) = loud (Transfers.mint_bridged at a now x)
  run_call a signer now (Call.burn_bridged x) = loud (Transfers.burn_bridged at a now x)
  run_call a signer now (Call.release x) = loud (Transfers.release at a now x)
  run_call a signer now Call.pause = quiet (Admin.pause a signer)
  run_call a signer now Call.unpause = quiet (Admin.unpause a signer)
  run_call a signer now (Call.propose_signers p s t m) =
      quiet (Admin.propose_signers at a signer now p s t m)
  run_call a signer now Call.execute_signers = quiet (Admin.execute_signers a signer now)
  run_call a signer now Call.cancel_signers = quiet (Admin.cancel_signers a signer)
  run_call a signer now (Call.update_fee f) = quiet (Admin.update_fee a signer f)
  run_call a signer now (Call.set_rotation_delay d) = quiet (Admin.set_rotation_delay a signer d)
