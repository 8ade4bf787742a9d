-- ===== src/Solana/Outbound.antt =====
-- The outbound nonces of the Solana bridge, and the pause.
use kinet_std.Shared.{
  ℕ, ◌≤◌, ◌<◌, ◌≡◌, ◌≢◌, Bool, true, false, Option, some, none, List, ok, err, arith, Result-cases,
  inl, inr,
}
use kinet_std.Shared.Int.{ℤ}
use kinet_std.Spec.Outbound.{Sequencer, emitted, Increasing, emitted-Increasing}
use kinet_std.Solana.State.{Pubkey, Event, BridgeConfig, next_nonce}
use kinet_std.Solana.Runtime.{Spl, Addresses, Accounts}
use kinet_std.Solana.Admin
use kinet_std.Solana.Transfers
use kinet_std.Solana.Program
use kinet_std.Solana.Program.{Call}
use kinet_std.Solana.Replay.{Transaction, found_by}

abbrev pub next_free : {spl : Spl} → Accounts spl → ℕ
next_free a = elim a.config [ none ↦ 0 | some c ↦ c.outbound_nonce ]

-- The nonce that an event of a lock or a burn reports.
unfoldable pub reported_nonce : Option Event → Option ℕ
reported_nonce none = none
reported_nonce (some (Event.lock s d n t f r a x w)) = some n
reported_nonce (some (Event.burn s d n t f r a w)) = some n
reported_nonce (some (Event.mint s n t r a w)) = none
reported_nonce (some (Event.release s n t r a w)) = none

-- What a call that goes through does to the next free nonce.
unfoldable pub Advances : ℕ → Option ℕ → ℕ → Type 0
Advances before none after = before ≤ after
Advances before (some n) after = (before ≤ n) × (n < after)

module _ {spl : Spl} (at : Addresses) where
  run_call-Advances :
      (a : Accounts spl) (signer : Pubkey) (now : ℤ) (c : Call) (b : Accounts spl)
      (e : Option Event)
      → Program.run_call at a signer now c ≡ ok (b, e)
      → Advances (next_free a) (reported_nonce e) (next_free b)
  unfolding Program.run_call Admin.as_admin Admin.initialize Admin.register_token
      Admin.propose_signers Admin.pause Admin.unpause Admin.execute_signers Admin.cancel_signers
      Admin.update_fee Admin.set_rotation_delay Transfers.live_config Transfers.lock_and_bridge
      Transfers.burn_bridged Transfers.mint_bridged Transfers.release next_nonce Advances
      reported_nonce
  run_call-Advances a signer now c b e h = ground arith

  -- A transaction that goes through, with the nonce that it reports.
  unfoldable pub outbound_step : Accounts spl → Transaction spl → Option (Accounts spl × Option ℕ)
  outbound_step a x = elim (Program.run_call at (found_by a x) x.signer x.now x.call) [
    | ok (b, e) ↦ some (b, reported_nonce e)
    | err f ↦ none
  ]

  outbound_step-Advances :
      (a : Accounts spl) (x : Transaction spl) (b : Accounts spl) (n : Option ℕ)
      → outbound_step a x ≡ some (b, n)
      → Advances (next_free a) n (next_free b)
  unfolding outbound_step
  outbound_step-Advances a x b n h =
      elim (Result-cases (Program.run_call at (found_by a x) x.signer x.now x.call)) [
        | inr (f, failed) ↦ absurd (ground arith)
        | inl ((b', e), went) ↦
            let same : b' ≡ b = ground arith in
            let nonce : reported_nonce e ≡ n = ground arith in
            rw (same, nonce) at (run_call-Advances (found_by a x) x.signer x.now x.call b' e went)
      ]

  sequencer : Sequencer outbound_step next_free
  unfolding Advances
  sequencer = record {
    reports = λ a x b n h. outbound_step-Advances a x b (some n) h;
    grows = λ a x b h. outbound_step-Advances a x b none h;
  }

  -- Over any sequence of transactions of the Solana bridge, from any accounts, the nonces that its
  -- locks and burns report grow strictly.
  pub solana_nonces-Increasing :
      (a : Accounts spl) (transactions : List (Transaction spl))
      → Increasing (emitted outbound_step a transactions)
  solana_nonces-Increasing a transactions = emitted-Increasing sequencer a transactions

-- The instructions that move tokens.
abbrev pub moves_tokens : Call → Bool
moves_tokens (Call.lock_and_bridge x) = true
moves_tokens (Call.mint_bridged x) = true
moves_tokens (Call.burn_bridged x) = true
moves_tokens (Call.release x) = true
moves_tokens _ = false

-- While the Solana bridge is paused, no lock, mint, burn or release goes through.
pub run_call-paused :
    {spl : Spl} (at : Addresses) (a : Accounts spl) (signer : Pubkey) (now : ℤ) (c : Call)
    (config : BridgeConfig)
    → a.config ≡ some config
    → config.paused ≡ true
    → moves_tokens c ≡ true
    → (b : Accounts spl) (e : Option Event) → Program.run_call at a signer now c ≢ ok (b, e)
unfolding Program.run_call Transfers.live_config Transfers.lock_and_bridge Transfers.burn_bridged
    Transfers.mint_bridged Transfers.release
run_call-paused at a signer now c config found stopped moving b e = ground arith
