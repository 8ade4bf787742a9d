-- ===== src/Solana/Witnesses.antt =====
-- The configuration and the locks of the Solana bridge at concrete inputs.
use kinet_std.Shared.{◌+◌, ◌≡◌, refl, true, false, some, none, ok, arith, bytes_eq, bytes_eq_iff}
use kinet_std.Shared.Int.{pos}
use kinet_std.Solana.State
use kinet_std.Solana.State.{Event}
use kinet_std.Solana.Runtime.{Accounts}
use kinet_std.Solana.Samples
use kinet_std.Solana.Admin
use kinet_std.Solana.Transfers
use kinet_std.Solana.Transfers.{LockAndBridge}
use kinet_std.Solana.Program
use kinet_std.Solana.Program.{Call}
use kinet_std.Solana.Config
use kinet_std.Solana.Config.{IsWellFormed, SignersStep}
use kinet_std.Solana.Custody

abbrev paused_accounts : Accounts Samples.plain_spl
paused_accounts = record Samples.accounts {
  config = some (record Samples.config { paused = true });
}

paused_now :
    Program.run_call Samples.addresses Samples.accounts (Samples.key 1) (pos 5) Call.pause
    ≡ ok (paused_accounts, none)
unfolding Program.run_call Admin.pause Admin.as_admin bytes_eq
paused_now = refl

sample-IsWellFormed : IsWellFormed Samples.config
sample-IsWellFormed = omega arith

run_call-IsWellFormed_example : IsWellFormed (record Samples.config { paused = true })
run_call-IsWellFormed_example =
    Config.run_call-IsWellFormed Samples.addresses Samples.accounts (Samples.key 1) (pos 5)
      Call.pause paused_accounts none (record Samples.config { paused = true }) sample-IsWellFormed
      paused_now refl

-- A lock that pays its fee of 30, and what the same lock without a fee account leaves.
abbrev paid_call : LockAndBridge
paid_call = record Samples.lock_call { fee_account = some (Samples.key 30) }

abbrev to_vault : Samples.plain_spl.Ledger
to_vault =
    Samples.credit (Samples.debit Samples.accounts.ledger (Samples.key 20) 9970) (Samples.key 4)
      9970

abbrev locked_accounts : Accounts Samples.plain_spl
locked_accounts = record Samples.accounts {
  config = some (record Samples.config { outbound_nonce = 1 });
  ledger = Samples.credit (Samples.debit to_vault (Samples.key 20) 30) (Samples.key 30) 30;
}

abbrev lock_event : Event
lock_event = Event.lock 900 5 0 (Samples.key 3) (Samples.key 21) (Samples.key 22) 9970 30 (pos 5)

locked :
    Transfers.lock_and_bridge Samples.addresses Samples.accounts (pos 5) paid_call
    ≡ ok (locked_accounts, lock_event)
unfolding Transfers.lock_and_bridge Transfers.live_config Transfers.active_token Transfers.pay_fee
    State.next_nonce bytes_eq
locked = refl

apart : bytes_eq (Samples.key 20) (Samples.key 4) ≡ false
unfolding bytes_eq
apart = refl

lock_and_bridge-fee_unpaid_example :
    (t : Custody.Taken Samples.accounts (pos 5) paid_call locked_accounts lock_event)
    × (l : Samples.plain_spl.Ledger) × (Transfers.lock_and_bridge Samples.addresses Samples.accounts
          (pos 5)
          Samples.lock_call
        ≡ ok (record locked_accounts { ledger = l }, lock_event))
    × (l (Samples.key 4) ≡ 50000 + t.bridged)
    × (l (Samples.key 20) + t.bridged ≡ 50000)
lock_and_bridge-fee_unpaid_example =
    Custody.lock_and_bridge-fee_unpaid Samples.addresses Samples.accounts (pos 5) paid_call
      Samples.plain_laws locked_accounts lock_event locked
      (λ e. ground (arith, bytes_eq_iff (Samples.key 20) (Samples.key 4), apart, e))
