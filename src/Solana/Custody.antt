-- ===== src/Solana/Custody.antt =====
-- What a lock of the Solana bridge does to the token accounts.
use kinet_std.Shared.{
  ℕ, refl, ◌+◌, ◌-◌, ◌*◌, ◌/◌, ◌≡◌, ◌≢◌, some, none, ok, arith, Option-cases, Result-cases, inl,
  inr,
}
use kinet_std.Shared.Int.{ℤ}
use kinet_std.Solana.State.{Event, BridgeConfig, TokenConfig, next_nonce}
use kinet_std.Solana.Runtime.{Spl, SplLaws, Addresses, Accounts}
use kinet_std.Solana.Transfers
use kinet_std.Solana.Transfers.{LockAndBridge}

-- A lock that went through: the fee is the rate's share, rounded down; the bridged amount went to
-- the token's vault, then the fee was paid, if an account for it was passed; the event has both
-- amounts and the nonce that is used up.
pub record Taken {spl : Spl} (a : Accounts spl) (now : ℤ) (x : LockAndBridge) (b : Accounts spl)
    (e : Event) : Type 0 where
  pub config : BridgeConfig
  pub configured : a.config ≡ some config
  pub token : TokenConfig
  pub registered : a.tokens x.mint ≡ some token
  pub fee : ℕ
  pub bridged : ℕ
  pub rate : fee ≡ x.amount * config.fee_bps / 10000
  pub parts : bridged + fee ≡ x.amount
  pub between : spl.Ledger
  pub to_vault : spl.transfer a.ledger x.user_token x.vault x.sender bridged ≡ some between
  pub to_fee : Transfers.pay_fee spl between x.user_token x.fee_account x.sender fee ≡ ok b.ledger
  pub config_after : b.config ≡ some (record config { outbound_nonce = config.outbound_nonce + 1 })
  pub event :
      e
      ≡ Event.lock config.chain_id x.dest_chain_id config.outbound_nonce token.mint x.sender
          x.recipient bridged fee now

module _ {spl : Spl} (at : Addresses) (a : Accounts spl) (now : ℤ) (x : LockAndBridge) where
  -- Every lock of the Solana bridge that goes through splits the amount into the bridged part, which
  -- goes to the vault, and the rate's share as fee; its event reports both and the next nonce.
  pub lock_and_bridge-Taken :
      (b : Accounts spl) (e : Event)
      → Transfers.lock_and_bridge at a now x ≡ ok (b, e)
      → Taken a now x b e
  unfolding Transfers.lock_and_bridge Transfers.live_config Transfers.active_token next_nonce
  lock_and_bridge-Taken b e h = elim (Option-cases a.config) [
    | inl missing ↦ absurd (ground arith)
    | inr (c, configured) ↦ elim (Option-cases (a.tokens x.mint)) [
      | inl unknown ↦ absurd (ground arith)
      | inr (t, registered) ↦
          let fee = x.amount * c.fee_bps / 10000 in
          elim (Option-cases
            (spl.transfer a.ledger x.user_token x.vault x.sender (x.amount - fee))) [
              | inl refused ↦ absurd (ground arith)
              | inr (l, to_vault) ↦
                  elim (Result-cases
                    (Transfers.pay_fee spl l x.user_token x.fee_account x.sender fee)) [
                      | inr (f, unpaid) ↦ absurd (ground arith)
                      | inl (m, to_fee) ↦ record {
                        config = c;
                        configured = configured;
                        token = t;
                        registered = registered;
                        fee = fee;
                        bridged = x.amount - fee;
                        rate = refl;
                        parts = ground arith;
                        between = l;
                        to_vault = to_vault;
                        to_fee = ground arith;
                        config_after = ground arith;
                        event = ground arith;
                      }
                    ]
            ]
    ]
  ]

  -- Where a lock of the Solana bridge goes through, the same call without the fee account goes
  -- through too: the vault alone is paid, the program's own accounts end the same, and the event is
  -- the same, fee and all.
  lock_and_bridge-no_fee_account :
      (b : Accounts spl) (e : Event) (h : Transfers.lock_and_bridge at a now x ≡ ok (b, e))
      → let t : Taken a now x b e = lock_and_bridge-Taken b e h in
        Transfers.lock_and_bridge at a now (record x { fee_account = none })
        ≡ ok (record b { ledger = t.between }, e)
  unfolding Transfers.lock_and_bridge Transfers.live_config Transfers.active_token next_nonce
      Transfers.pay_fee
  lock_and_bridge-no_fee_account b e h =
      let t : Taken a now x b e = lock_and_bridge-Taken b e h in
      let whole : t.bridged ≡ x.amount - t.fee = ground (arith, t.parts) in
      let paid : spl.transfer a.ledger x.user_token x.vault x.sender
            (x.amount - x.amount * t.config.fee_bps / 10000)
          ≡ some t.between =
        ground (arith, t.to_vault, whole, t.rate) in
      ground (arith, t.configured, t.registered, paid)

  -- Let transfers move balances as documented, and the sender's account not be the vault. Where a
  -- lock of the Solana bridge goes through, with a fee account or without, the same call with no fee
  -- account goes through as well, with the program's own accounts and the event, fee and all, the
  -- same; but the vault gains the bridged amount, and that is all the sender's account loses.
  pub lock_and_bridge-fee_unpaid :
      (laws : SplLaws spl) (b : Accounts spl) (e : Event)
      → Transfers.lock_and_bridge at a now x ≡ ok (b, e)
      → x.user_token ≢ x.vault
      → (t : Taken a now x b e) × (l : spl.Ledger) × (Transfers.lock_and_bridge at a now
            (record x { fee_account = none })
          ≡ ok (record b { ledger = l }, e))
        × (spl.balance l x.vault ≡ spl.balance a.ledger x.vault + t.bridged)
        × (spl.balance l x.user_token + t.bridged ≡ spl.balance a.ledger x.user_token)
  lock_and_bridge-fee_unpaid laws b e h apart =
      let t : Taken a now x b e = lock_and_bridge-Taken b e h in
      (
        t,
        t.between,
        lock_and_bridge-no_fee_account b e h,
        laws.transfer_to a.ledger x.user_token x.vault x.sender t.bridged t.between t.to_vault
            apart,
        laws.transfer_from a.ledger x.user_token x.vault x.sender t.bridged t.between t.to_vault
            apart,
      )
