-- ===== src/Solana/Rotations.antt =====
-- The signer rotation and the missing trackers of the Solana bridge at concrete inputs.
use kinet_std.Shared.{◌↔◌, ◌≡◌, refl, Option, some, none, List, [], ◌∷◌, ok, bytes_eq, u16_at}
use kinet_std.Shared.Int.{pos, ◌+ℤ◌, add_i64}
use kinet_std.Spec.Run.{ended}
use kinet_std.Spec.Replay.{accepted}
use kinet_std.Solana.State
use kinet_std.Solana.State.{Signers, BridgeConfig}
use kinet_std.Solana.Runtime.{Accounts, Instruction}
use kinet_std.Solana.Samples
use kinet_std.Solana.Samples.{key}
use kinet_std.Solana.Ed25519
use kinet_std.Solana.Admin
use kinet_std.Solana.Transfers
use kinet_std.Solana.Program
use kinet_std.Solana.Program.{Call}
use kinet_std.Solana.Replay
use kinet_std.Solana.Config
use kinet_std.Solana.Config.{SignersStep}
use kinet_std.Solana.Rotation
use kinet_std.Solana.Pending
use kinet_std.Solana.Lifeless

abbrev new_signers : Signers
new_signers = record { first = key 31; second = key 32; third = key 33 }

abbrev approval : Option Instruction
approval = some (Samples.signed (Ed25519.propose_message new_signers 2))

abbrev proposed_config : BridgeConfig
proposed_config = record Samples.config {
  pending_signers = new_signers;
  pending_threshold = 2;
  pending_signers_eta = pos 1100;
}

abbrev proposed_accounts : Accounts Samples.plain_spl
proposed_accounts = record Samples.accounts { config = some proposed_config }

proposed :
    Admin.propose_signers Samples.addresses Samples.accounts
      (key 1)
      (pos 1000)
      approval
      new_signers
      2
      (Ed25519.propose_message new_signers 2)
    ≡ ok proposed_accounts
unfolding Admin.propose_signers Admin.as_admin Ed25519.verify_propose_signers_signature
    Ed25519.load_instruction Ed25519.check_indices Ed25519.check_content Ed25519.propose_message
    State.is_authorized add_i64 ◌+ℤ◌ bytes_eq u16_at
proposed = refl

-- While the rotation waits, a user locks tokens and the admin sets the longest delay.
abbrev between : List (Replay.Transaction Samples.plain_spl)
between =
    record {
      signer = key 21;
      now = pos 1010;
      ledger = Samples.accounts.ledger;
      call = Call.lock_and_bridge Samples.lock_call;
    }
    ∷ record {
      signer = key 1;
      now = pos 1020;
      ledger = Samples.accounts.ledger;
      call = Call.set_rotation_delay (pos 604800);
    }
    ∷ []

abbrev waiting_accounts : Accounts Samples.plain_spl
waiting_accounts = ended (Replay.step Samples.addresses) proposed_accounts between

abbrev rotated_accounts : Accounts Samples.plain_spl
rotated_accounts = record Samples.accounts {
  config = some (record (Rotation.rotated proposed_config) {
    rotation_delay = pos 604800;
    outbound_nonce = 1;
  });
}

executed : Admin.execute_signers waiting_accounts (key 1) (pos 1100) ≡ ok rotated_accounts
unfolding Admin.execute_signers Admin.as_admin State.has_pending_rotation bytes_eq ended Replay.step
    Program.run_call Transfers.lock_and_bridge Transfers.live_config Transfers.active_token
    Transfers.pay_fee State.next_nonce Admin.set_rotation_delay
executed = refl

propose_signers-execute_signers_example :
    (Admin.execute_signers waiting_accounts (key 1) (pos 1100) ≡ ok rotated_accounts)
    ↔ Pending.Executed waiting_accounts
        (key 1)
        (key 1)
        new_signers
        2
        (pos 1000 +ℤ pos 100)
        (pos 1100)
        rotated_accounts
unfolding bytes_eq
propose_signers-execute_signers_example =
    Rotation.propose_signers-execute_signers Samples.addresses Samples.accounts (key 1) (key 1)
      Samples.config (pos 1000) (pos 1100) approval new_signers 2
      (Ed25519.propose_message new_signers 2) proposed_accounts rotated_accounts between refl
      proposed (refl, (refl, tt))

-- What that execution rests on holds.
at_1100-Executed :
    Pending.Executed waiting_accounts
      (key 1)
      (key 1)
      new_signers
      2
      (pos 1000 +ℤ pos 100)
      (pos 1100)
      rotated_accounts
unfolding bytes_eq
at_1100-Executed =
    (Rotation.propose_signers-execute_signers Samples.addresses Samples.accounts (key 1) (key 1)
        Samples.config (pos 1000) (pos 1100) approval new_signers 2
        (Ed25519.propose_message new_signers 2) proposed_accounts rotated_accounts between refl
        proposed (refl, (refl, tt))).0
      executed

-- Executed with nothing in between, as an instruction of the program.
abbrev at_once : Accounts Samples.plain_spl
at_once = record Samples.accounts { config = some (Rotation.rotated proposed_config) }

executed_at_once :
    Program.run_call Samples.addresses proposed_accounts (key 1) (pos 1100) Call.execute_signers
    ≡ ok (at_once, none)
unfolding Program.run_call Admin.execute_signers Admin.as_admin State.has_pending_rotation bytes_eq
executed_at_once = refl

run_call-SignersStep_example :
    SignersStep proposed_config (Rotation.rotated proposed_config) (key 1) (pos 1100)
run_call-SignersStep_example =
    Config.run_call-SignersStep Samples.addresses proposed_accounts (key 1) (pos 1100)
      proposed_config refl Call.execute_signers at_once none (Rotation.rotated proposed_config)
      executed_at_once refl

abbrev new_accounts : Accounts Samples.plain_spl
new_accounts = record Samples.accounts { trackers = λ c. none }

abbrev transactions : List (Replay.Transaction Samples.plain_spl)
transactions =
    record {
      signer = key 21;
      now = pos 5;
      ledger = Samples.accounts.ledger;
      call = Call.lock_and_bridge Samples.lock_call;
    }
    ∷ record {
      signer = key 21;
      now = pos 90000;
      ledger = Samples.accounts.ledger;
      call = Call.mint_bridged Samples.mint_call;
    }
    ∷ record {
      signer = key 21;
      now = pos 90001;
      ledger = Samples.accounts.ledger;
      call = Call.lock_and_bridge Samples.lock_call;
    }
    ∷ []

solana_nothing_accepted_example :
    accepted (Replay.step Samples.addresses) Replay.transaction_key new_accounts transactions ≡ []
solana_nothing_accepted_example =
    Lifeless.solana_nothing_accepted Samples.addresses new_accounts transactions (λ c. refl)
