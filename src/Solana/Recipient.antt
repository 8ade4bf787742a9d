-- ===== src/Solana/Recipient.antt =====
-- Which token account a mint and a release of the Solana bridge pay.
use kinet_std.Shared.{◌≡◌, some, ok, arith}
use kinet_std.Shared.Int.{ℤ}
use kinet_std.Solana.State.{Pubkey, Event}
use kinet_std.Solana.Runtime.{Spl, Addresses, Accounts}
use kinet_std.Solana.Transfers
use kinet_std.Solana.Transfers.{MintBridged, Release}

module _ {spl : Spl} (at : Addresses) (a : Accounts spl) (now : ℤ) (account : Pubkey) where
  -- Where a mint of the Solana bridge goes through, the same call with any other token account that
  -- the token program mints to goes through as well: that account is paid in place of the first, the
  -- program's own accounts end the same, and the event names the same recipient.
  pub mint_bridged-recipient_unbound :
      (x : MintBridged) (b : Accounts spl) (e : Event)
      → Transfers.mint_bridged at a now x ≡ ok (b, e)
      → (l : spl.Ledger)
      → spl.mint_to a.ledger x.wrapped_mint account at.mint_authority x.amount ≡ some l
      → Transfers.mint_bridged at a now (record x { recipient_token = account })
        ≡ ok (record b { ledger = l }, e)
  unfolding Transfers.mint_bridged Transfers.live_config Transfers.active_token
  mint_bridged-recipient_unbound x b e h l paid = ground arith

  -- The same of a release, whose vault pays the account passed.
  release-recipient_unbound :
      (x : Release) (b : Accounts spl) (e : Event)
      → Transfers.release at a now x ≡ ok (b, e)
      → (l : spl.Ledger)
      → spl.transfer a.ledger x.vault account at.vault_authority x.amount ≡ some l
      → Transfers.release at a now (record x { recipient_token = account })
        ≡ ok (record b { ledger = l }, e)
  unfolding Transfers.release Transfers.live_config Transfers.active_token
  release-recipient_unbound x b e h l paid = ground arith
