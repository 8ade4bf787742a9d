-- ===== src/Stellar/Contract.antt =====
-- The functions of stellar-bridge/src/lib.rs. A call that panics leaves the storage and the ledger
-- as they were. `auth` tells whose authorization a call carries.
use kinet_std.Shared.{
  ℕ, ◌+◌, ◌^◌, Bool, true, false, not, some, none, List, [], ◌∷◌, ◌++◌, Bytes, Key, codes, bytes_eq,
  contains, to_le_bytes, insert_key, Result, ok, ◌>>=◌, ◌>>◌, require, ok_or, leb, checked, is_some,
}
use kinet_std.Shared.Int.{ℤ, pos, ltb_ℤ, scale, quot, ◌+ℤ◌, ◌-ℤ◌, i128, bits_128}
use kinet_std.Stellar.State.{
  BridgeConfig, Call, Event, Host, Inbound, Outbound, Outcome, Panic, Storage,
}

abbrev quiet : Outcome
quiet = record { returned = none; events = [] }

unfoldable pub build_mint_message : ℕ → ℕ → Bytes → ℤ → Bytes
build_mint_message chain_id nonce _recipient amount =
    codes "KNT_BRIDGE_MINT"
    ++ (to_le_bytes 8 chain_id ++ (to_le_bytes 8 nonce ++ to_le_bytes 16 (bits_128 amount)))

module _ {host : Host} where
  unfoldable pub initialize :
      Storage host → Bytes → List Bytes → ℕ → ℕ → Result Panic (Storage host × Outcome)
  initialize s admin mpc_signers threshold fee_bps = do
    require (leb fee_bps 500) Panic.fee_too_high
    ok (
      record s {
        config = some (record {
          admin = admin;
          mpc_signers = mpc_signers;
          threshold = threshold;
          fee_bps = fee_bps;
          paused = false;
          outbound_nonce = 0;
          total_locked = pos 0;
          total_burned = pos 0;
        });
      },
      quiet,
    )

  unfoldable pub lock_and_bridge :
      (Bytes → Bool) → Storage host → Outbound → Result Panic (Storage host × Outcome)
  lock_and_bridge auth s x = do
    require (auth x.sender) Panic.not_authorized
    config ← ok_or s.config Panic.missing
    require (not config.paused) Panic.paused
    require (ltb_ℤ (pos 0) x.amount) Panic.zero_amount
    product ← ok_or (i128 (scale x.amount config.fee_bps)) Panic.overflow
    let fee = quot product 10000
    bridge_amount ← ok_or (i128 (x.amount -ℤ fee)) Panic.overflow
    ledger ←
        ok_or (host.transfer s.ledger x.token_addr x.sender host.contract_address x.amount)
          Panic.token_failure
    total_locked ← ok_or (i128 (config.total_locked +ℤ bridge_amount)) Panic.overflow
    nonce ← ok_or (checked (2 ^ 64) (config.outbound_nonce + 1)) Panic.overflow
    ok (
      record s {
        config = some (record config { total_locked = total_locked; outbound_nonce = nonce });
        ledger = ledger;
      },
      record {
        returned = some nonce;
        events = Event.lock x.dest_chain_id nonce x.sender x.recipient bridge_amount ∷ [];
      },
    )

  unfoldable pub mint_bridged : Storage host → Inbound → Result Panic (Storage host × Outcome)
  mint_bridged s m = do
    config ← ok_or s.config Panic.missing
    require (not config.paused) Panic.paused
    require (ltb_ℤ (pos 0) m.amount) Panic.zero
    require (contains config.mpc_signers m.signer_pubkey) Panic.unauthorized
    let nonce_key : Key = (m.source_chain_id, m.nonce)
    require (not (is_some (s.nonces nonce_key))) Panic.nonce_processed
    let msg_hash = host.sha256 (build_mint_message m.source_chain_id m.nonce m.recipient m.amount)
    require (host.ed25519_verify m.signer_pubkey msg_hash m.signature) Panic.bad_signature
    ledger ←
        ok_or (host.transfer s.ledger m.token_addr host.contract_address m.recipient m.amount)
          Panic.token_failure
    ok (
      record s { nonces = insert_key s.nonces nonce_key true; ledger = ledger },
      record {
        returned = none;
        events = Event.mint m.source_chain_id m.nonce m.recipient m.amount ∷ [];
      },
    )

  unfoldable pub burn_bridged :
      (Bytes → Bool) → Storage host → Outbound → Result Panic (Storage host × Outcome)
  burn_bridged auth s x = do
    require (auth x.sender) Panic.not_authorized
    config ← ok_or s.config Panic.missing
    require (not config.paused) Panic.paused
    require (ltb_ℤ (pos 0) x.amount) Panic.zero
    ledger ←
        ok_or (host.transfer s.ledger x.token_addr x.sender host.contract_address x.amount)
          Panic.token_failure
    total_burned ← ok_or (i128 (config.total_burned +ℤ x.amount)) Panic.overflow
    nonce ← ok_or (checked (2 ^ 64) (config.outbound_nonce + 1)) Panic.overflow
    ok (
      record s {
        config = some (record config { total_burned = total_burned; outbound_nonce = nonce });
        ledger = ledger;
      },
      record {
        returned = some nonce;
        events = Event.burn x.dest_chain_id nonce x.sender x.recipient x.amount ∷ [];
      },
    )

  -- The checks and the load with which `pause` and `unpause` begin.
  unfoldable pub as_admin : (Bytes → Bool) → Storage host → Bytes → Result Panic BridgeConfig
  as_admin auth s admin = do
    require (auth admin) Panic.not_authorized
    config ← ok_or s.config Panic.missing
    require (bytes_eq admin config.admin) Panic.assertion
    ok config

  unfoldable pub pause :
      (Bytes → Bool) → Storage host → Bytes → Result Panic (Storage host × Outcome)
  pause auth s admin = do
    config ← as_admin auth s admin
    ok (record s { config = some (record config { paused = true }) }, quiet)

  unfoldable pub unpause :
      (Bytes → Bool) → Storage host → Bytes → Result Panic (Storage host × Outcome)
  unpause auth s admin = do
    config ← as_admin auth s admin
    ok (record s { config = some (record config { paused = false }) }, quiet)

  -- The views.
  unfoldable pub total_locked : Storage host → Result Panic ℤ
  total_locked s = do config ← ok_or s.config Panic.missing; ok config.total_locked

  unfoldable pub total_burned : Storage host → Result Panic ℤ
  total_burned s = do config ← ok_or s.config Panic.missing; ok config.total_burned

  unfoldable pub run_call :
      (Bytes → Bool) → Storage host → Call → Result Panic (Storage host × Outcome)
  run_call auth s (Call.initialize admin signers threshold fee) =
      initialize s admin signers threshold fee
  run_call auth s (Call.lock_and_bridge x) = lock_and_bridge auth s x
  run_call auth s (Call.mint_bridged m) = mint_bridged s m
  run_call auth s (Call.burn_bridged x) = burn_bridged auth s x
  run_call auth s (Call.pause admin) = pause auth s admin
  run_call auth s (Call.unpause admin) = unpause auth s admin
