-- ===== src/Solana/Exact.antt =====
-- When exactly a mint of the Solana bridge goes through, and what it leaves behind.
use kinet_std.Shared.{
  ℕ, ◌≡◌, ◌↔◌, true, false, some, ok, arith, insert_bytes, insert_nat, ◌<◌, ◌/◌, ◌%◌, ◌==◌, ◌||◌,
  ◌++◌, codes, to_le_bytes, get_or, set,
}
use kinet_std.Shared.Int.{ℤ}
use kinet_std.Solana.State.{
  Event, BridgeConfig, TokenConfig, NonceTracker, is_processed, mark_processed, set_bit,
}
use kinet_std.Solana.Runtime.{Spl, Addresses, Accounts}
use kinet_std.Solana.Ed25519.{mint_message}
use kinet_std.Solana.Booked.{Booked, check_daily_limit-Booked, Booked-check_daily_limit}
use kinet_std.Solana.Bitmap.{is_processed-mark_processed}
use kinet_std.Solana.Replay.{TrackersValid}
use kinet_std.Solana.Transfers
use kinet_std.Solana.Transfers.{MintBridged}
use kinet_std.Solana.Accepted.{Carries, Accepted, mint_bridged-Accepted, Accepted-mint_bridged}

-- A mint as `Accepted` has it, with the bytes of the message, the bit of the nonce and the counter of the daily limit
-- written out: the tracker afterwards shows the nonce and just what it showed before.
pub record Exactly {spl : Spl} (at : Addresses) (a : Accounts spl) (now : ℤ) (x : MintBridged)
    (b : Accounts spl) (e : Event) : Type 0 where
  pub config : BridgeConfig
  pub configured : a.config ≡ some config
  pub live : config.paused ≡ false
  pub token : TokenConfig
  pub registered : a.tokens x.mint ≡ some token
  pub active : token.active ≡ true
  pub wrapped : x.wrapped_mint ≡ token.wrapped_mint
  pub tracker : NonceTracker
  pub tracked : a.trackers x.source_chain_id ≡ some tracker
  pub fresh : is_processed tracker x.nonce ≡ false
  pub room : x.nonce < 8192
  pub carried : Carries at x.previous config.mpc_signers (
      codes "KNT_BRIDGE_MINT"
      ++ (to_le_bytes 8 x.source_chain_id
          ++ (to_le_bytes 8 x.nonce ++ (x.recipient ++ (token.mint ++ to_le_bytes 8 x.amount)))))
  pub charged : TokenConfig
  pub booked : Booked token x.amount now charged
  pub ledger : spl.Ledger
  pub paid :
      spl.mint_to a.ledger x.wrapped_mint x.recipient_token at.mint_authority x.amount ≡ some ledger
  pub marked : NonceTracker
  pub marks : marked ≡ record tracker {
    bitmap =
        set tracker.bitmap
          (x.nonce / 8)
          (set_bit (get_or tracker.bitmap (x.nonce / 8) 0) (x.nonce % 8));
  }
  pub shows : (m : ℕ) → is_processed marked m ≡ (x.nonce == m || is_processed tracker m)
  pub accounts_after : b ≡ record a {
    tokens = insert_bytes a.tokens x.mint charged;
    trackers = insert_nat a.trackers x.source_chain_id marked;
    ledger = ledger;
  }
  pub event : e ≡ Event.mint x.source_chain_id x.nonce token.mint x.recipient x.amount now

module _ {spl : Spl} (at : Addresses) (a : Accounts spl) (now : ℤ) (x : MintBridged)
    (b : Accounts spl) (e : Event) where
  Accepted-Exactly : TrackersValid a → Accepted at a now x b e → Exactly at a now x b e
  unfolding mark_processed mint_message
  Accepted-Exactly valid p =
      let size = (valid x.source_chain_id p.tracker p.tracked).size in
      let byte = x.nonce / 8 in
      let bits = set_bit (get_or p.tracker.bitmap byte 0) (x.nonce % 8) in
      let marked : p.marked ≡ record p.tracker { bitmap = set p.tracker.bitmap byte bits } =
        ground (arith, p.marks) in
      record {
        config = p.config;
        configured = p.configured;
        live = p.live;
        token = p.token;
        registered = p.registered;
        active = p.active;
        wrapped = p.wrapped;
        tracker = p.tracker;
        tracked = p.tracked;
        fresh = p.fresh;
        room = ground (arith, p.marks, size);
        carried = p.carried;
        charged = p.charged;
        booked = check_daily_limit-Booked p.token x.amount now p.charged p.limited;
        ledger = p.ledger;
        paid = p.paid;
        marked = p.marked;
        marks = marked;
        shows = λ m.
            is_processed-mark_processed p.tracker x.nonce m p.marked
              (valid x.source_chain_id p.tracker p.tracked) p.marks;
        accounts_after = p.accounts_after;
        event = p.event;
      }

  Exactly-Accepted : TrackersValid a → Exactly at a now x b e → Accepted at a now x b e
  unfolding mark_processed mint_message
  Exactly-Accepted valid p =
      let size = (valid x.source_chain_id p.tracker p.tracked).size in
      record {
        config = p.config;
        configured = p.configured;
        live = p.live;
        token = p.token;
        registered = p.registered;
        active = p.active;
        wrapped = p.wrapped;
        tracker = p.tracker;
        tracked = p.tracked;
        fresh = p.fresh;
        carried = p.carried;
        charged = p.charged;
        limited = Booked-check_daily_limit p.token x.amount now p.charged p.booked;
        ledger = p.ledger;
        paid = p.paid;
        marked = p.marked;
        marks = ground (arith, p.marks, p.room, size);
        accounts_after = p.accounts_after;
        event = p.event;
      }

  -- Where every tracker has its 1024 bytes, a mint of the Solana bridge goes through, with given
  -- accounts and a given event after it, exactly when the bridge is live, the token active and its
  -- wrapped mint passed, the nonce below 8192 and not shown by the tracker of its chain, a signer's
  -- key and the bytes of the tag, chain, nonce, recipient, token and amount in the Ed25519
  -- instruction before, the amount within the token's daily limit, if it has one, and the token
  -- program mints. The tracker then shows this nonce and what it showed before, the token's counter
  -- has the amount if there is a limit, and the event reports the signed arguments.
  pub solana_mint_bridged_iff :
      TrackersValid a → (Transfers.mint_bridged at a now x ≡ ok (b, e)) ↔ Exactly at a now x b e
  solana_mint_bridged_iff valid = (
    λ h. Accepted-Exactly valid (mint_bridged-Accepted at a now x b e h),
    λ p. Accepted-mint_bridged at a now x b e (Exactly-Accepted valid p),
  )
