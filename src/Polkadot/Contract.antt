-- ===== src/Polkadot/Contract.antt =====
-- The constructor and the messages of polkadot-bridge/lib.rs. The chain undoes what a message that
-- returns an error or traps has written.
use kinet_std.Shared.{
  ℕ, ◌+◌, ◌*◌, ◌/◌, ◌^◌, Bool, true, false, not, ◌||◌, some, none, List, [], ◌∷◌, ◌++◌, Bytes, Key,
  codes, bytes_eq, contains, to_le_bytes, insert_key, Result, ok, ◌>>=◌, ◌>>◌, require, fail_if,
  ok_or, unwrap_or, leb, ltb, ◌==◌, word, sub_word,
}
use kinet_std.Polkadot.State.{
  Call, Chain, Context, Error, Event, Inbound, is_payable, KntBridge, Outcome, State,
}

abbrev pub polkadot_chain_id : ℕ
polkadot_chain_id = 1886745444

abbrev quiet : Outcome
quiet = record { returned = none; events = [] }

unfoldable pub new : Context → List Bytes → ℕ → ℕ → Result Error KntBridge
new cx mpc_signers threshold fee_bps = do
  require (cx.transferred_value == 0) Error.value_refused
  require (leb fee_bps 500) Error.assertion
  ok (record {
    admin = cx.caller;
    mpc_signers = mpc_signers;
    threshold = threshold;
    fee_bps = fee_bps;
    paused = false;
    outbound_nonce = 0;
    total_locked = 0;
    total_burned = 0;
    processed_nonces = λ k. none;
    token_configs = λ h. none;
  })

unfoldable pub require_not_paused : KntBridge → Result Error (Unit {0})
require_not_paused b = fail_if b.paused Error.paused

unfoldable pub require_admin : KntBridge → Context → Result Error (Unit {0})
require_admin b cx = fail_if (not (bytes_eq cx.caller b.admin)) Error.not_admin

unfoldable pub build_mint_message : ℕ → ℕ → Bytes → ℕ → Bytes
build_mint_message chain_id nonce recipient amount =
    codes "KNT_BRIDGE_MINT"
    ++ (to_le_bytes 8 chain_id ++ (to_le_bytes 8 nonce ++ (recipient ++ to_le_bytes 16 amount)))

unfoldable pub build_release_message : ℕ → ℕ → Bytes → ℕ → Bytes
build_release_message chain_id nonce recipient amount =
    codes "KNT_BRIDGE_RELEASE"
    ++ (to_le_bytes 8 chain_id ++ (to_le_bytes 8 nonce ++ (recipient ++ to_le_bytes 16 amount)))

-- The source's placeholder.
unfoldable pub verify_ed25519 : Bytes → Bytes → Bytes → Bool
verify_ed25519 _message _signature _pubkey = true

module _ (overflow_checks : Bool) where
  unfoldable pub lock_and_bridge :
      KntBridge → Context → ℕ → Bytes → Result Error (KntBridge × Outcome)
  unfolding require_not_paused
  lock_and_bridge b cx dest_chain_id recipient = do
    require_not_paused b
    let amount = cx.transferred_value
    fail_if (amount == 0) Error.amount_zero
    product ← ok_or (word overflow_checks (2 ^ 128) (amount * b.fee_bps)) Error.overflow
    let fee = product / 10000
    bridge_amount ← ok_or (sub_word overflow_checks (2 ^ 128) amount fee) Error.overflow
    total_locked ←
        ok_or (word overflow_checks (2 ^ 128) (b.total_locked + bridge_amount)) Error.overflow
    nonce ← ok_or (word overflow_checks (2 ^ 64) (b.outbound_nonce + 1)) Error.overflow
    ok (
      record b { total_locked = total_locked; outbound_nonce = nonce },
      record {
        returned = some nonce;
        events =
            Event.lock polkadot_chain_id dest_chain_id nonce cx.caller recipient bridge_amount fee
            ∷ [];
      },
    )

  unfoldable pub burn_bridged : KntBridge → Context → ℕ → Bytes → Result Error (KntBridge × Outcome)
  unfolding require_not_paused
  burn_bridged b cx dest_chain_id recipient = do
    require_not_paused b
    let amount = cx.transferred_value
    fail_if (amount == 0) Error.amount_zero
    total_burned ← ok_or (word overflow_checks (2 ^ 128) (b.total_burned + amount)) Error.overflow
    nonce ← ok_or (word overflow_checks (2 ^ 64) (b.outbound_nonce + 1)) Error.overflow
    ok (
      record b { total_burned = total_burned; outbound_nonce = nonce },
      record {
        returned = some nonce;
        events = Event.burn polkadot_chain_id dest_chain_id nonce cx.caller recipient amount ∷ [];
      },
    )

module _ {chain : Chain} where
  unfoldable pub mint_bridged : State chain → Inbound → Result Error (State chain × Outcome)
  unfolding require_not_paused verify_ed25519
  mint_bridged s m = do
    require_not_paused s.bridge
    fail_if (m.amount == 0) Error.amount_zero
    fail_if (not (contains s.bridge.mpc_signers m.signer_pubkey)) Error.unauthorized_signer
    let key : Key = (m.source_chain_id, m.nonce)
    fail_if (unwrap_or (s.bridge.processed_nonces key) false) Error.nonce_processed
    let message = build_mint_message m.source_chain_id m.nonce m.recipient m.amount
    fail_if (not (verify_ed25519 message m.signature m.signer_pubkey)) Error.invalid_signature
    ledger ← ok_or (chain.transfer s.ledger m.recipient m.amount) Error.insufficient_balance
    ok (
      record {
        bridge = record s.bridge {
          processed_nonces = insert_key s.bridge.processed_nonces key true;
        };
        ledger = ledger;
      },
      record {
        returned = none;
        events = Event.mint m.source_chain_id m.nonce m.recipient m.amount ∷ [];
      },
    )

  unfoldable pub release : State chain → Inbound → Result Error (State chain × Outcome)
  unfolding require_not_paused verify_ed25519
  release s m = do
    require_not_paused s.bridge
    fail_if (not (contains s.bridge.mpc_signers m.signer_pubkey)) Error.unauthorized_signer
    let key : Key = (m.source_chain_id, m.nonce)
    fail_if (unwrap_or (s.bridge.processed_nonces key) false) Error.nonce_processed
    let message = build_release_message m.source_chain_id m.nonce m.recipient m.amount
    fail_if (not (verify_ed25519 message m.signature m.signer_pubkey)) Error.invalid_signature
    ledger ← ok_or (chain.transfer s.ledger m.recipient m.amount) Error.insufficient_balance
    ok (
      record {
        bridge = record s.bridge {
          processed_nonces = insert_key s.bridge.processed_nonces key true;
        };
        ledger = ledger;
      },
      record {
        returned = none;
        events = Event.release m.source_chain_id m.nonce m.recipient m.amount ∷ [];
      },
    )

unfoldable pub pause : KntBridge → Context → Result Error (KntBridge × Outcome)
unfolding require_admin
pause b cx = do require_admin b cx; ok (record b { paused = true }, quiet)

unfoldable pub unpause : KntBridge → Context → Result Error (KntBridge × Outcome)
unfolding require_admin
unpause b cx = do require_admin b cx; ok (record b { paused = false }, quiet)

unfoldable pub set_signers :
    KntBridge → Context → List Bytes → ℕ → Result Error (KntBridge × Outcome)
unfolding require_admin
set_signers b cx signers threshold = do
  require_admin b cx
  ok (record b { mpc_signers = signers; threshold = threshold }, quiet)

unfoldable pub set_fee : KntBridge → Context → ℕ → Result Error (KntBridge × Outcome)
unfolding require_admin
set_fee b cx fee_bps = do
  require_admin b cx
  fail_if (ltb 500 fee_bps) Error.fee_too_high
  ok (record b { fee_bps = fee_bps }, quiet)

-- The views.
unfoldable pub total_locked : KntBridge → ℕ
total_locked b = b.total_locked

unfoldable pub total_burned : KntBridge → ℕ
total_burned b = b.total_burned

unfoldable pub is_paused : KntBridge → Bool
is_paused b = b.paused

module _ (overflow_checks : Bool) {chain : Chain} where
  -- A message that moves no balance of the contract.
  abbrev on_ledger :
      State chain → Result Error (KntBridge × Outcome) → Result Error (State chain × Outcome)
  on_ledger s call = do (b, o) ← call; ok (record s { bridge = b }, o)

  unfoldable pub dispatch : State chain → Context → Call → Result Error (State chain × Outcome)
  dispatch s cx (Call.lock_and_bridge dest recipient) =
      on_ledger s (lock_and_bridge overflow_checks s.bridge cx dest recipient)
  dispatch s cx (Call.mint_bridged m) = mint_bridged s m
  dispatch s cx (Call.burn_bridged dest recipient) =
      on_ledger s (burn_bridged overflow_checks s.bridge cx dest recipient)
  dispatch s cx (Call.release m) = release s m
  dispatch s cx Call.pause = on_ledger s (pause s.bridge cx)
  dispatch s cx Call.unpause = on_ledger s (unpause s.bridge cx)
  dispatch s cx (Call.set_signers signers threshold) =
      on_ledger s (set_signers s.bridge cx signers threshold)
  dispatch s cx (Call.set_fee fee) = on_ledger s (set_fee s.bridge cx fee)

  -- What ink! makes of the messages: the check of the value, and the call.
  unfoldable pub run_call : State chain → Context → Call → Result Error (State chain × Outcome)
  run_call s cx c = do
    require (cx.transferred_value == 0 || is_payable c) Error.value_refused
    dispatch s cx c
