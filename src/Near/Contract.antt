-- ===== src/Near/Contract.antt =====
-- The methods of near-bridge/src/lib.rs. A call that panics leaves the state as it was.
use kinet_std.Shared.{
  ℕ, ◌+◌, ◌-◌, ◌*◌, ◌/◌, ◌^◌, Bool, true, false, not, ◌||◌, Option, some, none, List, [], ◌∷◌, ◌++◌,
  Bytes, codes, bytes_eq, contains, to_le_bytes, to_string, insert_bytes, Result, ok, ◌>>=◌, ◌>>◌,
  require, ok_or, unwrap_or, ltb, leb, ◌==◌, length, checked, if◌then◌else◌, err,
}
use kinet_std.Near.State.{AccountId, Call, is_payable, KntBridge, Context, Inbound, Outcome, Panic}

abbrev pub near_chain_id : ℕ
near_chain_id = 1313161554

abbrev pub max_fee_bps : ℕ
max_fee_bps = 500

-- `copy_from_slice` into an array of `n` bytes
unfoldable pub copy_from_slice : ℕ → Bytes → Result Panic Bytes
copy_from_slice n s = if length s == n then ok s else err Panic.slice_length

-- `signers.iter().map(…).collect()`
unfoldable pub to_keys : List Bytes → Result Panic (List Bytes)
to_keys [] = ok []
to_keys (s ∷ ss) = do key ← copy_from_slice 32 s; keys ← to_keys ss; ok (key ∷ keys)

abbrev quiet : Outcome
quiet = record { returned = none; logs = []; promises = [] }

unfoldable pub new : Context → List Bytes → ℕ → ℕ → Result Panic (KntBridge × Outcome)
new cx mpc_signers threshold fee_bps = do
  require (leb fee_bps max_fee_bps) Panic.fee_too_high
  signers ← to_keys mpc_signers
  ok (
    record {
      admin = cx.predecessor;
      mpc_signers = signers;
      threshold = threshold;
      fee_bps = fee_bps;
      paused = false;
      outbound_nonce = 0;
      total_locked = 0;
      total_burned = 0;
      processed_nonces = λ key. none;
    },
    quiet,
  )

unfoldable pub lock_and_bridge :
    KntBridge → Context → ℕ → Bytes → Result Panic (KntBridge × Outcome)
lock_and_bridge b cx dest_chain_id recipient = do
  require (not b.paused) Panic.paused
  require (ltb 0 cx.deposit) Panic.zero_amount
  product ← ok_or (checked (2 ^ 128) (cx.deposit * b.fee_bps)) Panic.overflow
  let fee = product / 10000
  require (leb fee cx.deposit) Panic.overflow
  let bridge_amount = cx.deposit - fee
  total_locked ← ok_or (checked (2 ^ 128) (b.total_locked + bridge_amount)) Panic.overflow
  nonce ← ok_or (checked (2 ^ 64) (b.outbound_nonce + 1)) Panic.overflow
  ok (
    record b { total_locked = total_locked; outbound_nonce = nonce },
    record {
      returned = some nonce;
      logs =
          record {
            event_type = codes "lock";
            source_chain = near_chain_id;
            dest_chain = dest_chain_id;
            nonce = nonce;
            sender = cx.predecessor;
            recipient = recipient;
            amount = to_string bridge_amount;
          }
          ∷ [];
      promises = [];
    },
  )

unfoldable pub build_mint_message : ℕ → ℕ → AccountId → ℕ → Bytes
build_mint_message chain_id nonce recipient amount =
    codes "KNT_BRIDGE_MINT"
    ++ (to_le_bytes 8 chain_id
        ++ (to_le_bytes 8 nonce ++ (recipient.text ++ to_le_bytes 16 amount)))

unfoldable pub build_release_message : ℕ → ℕ → AccountId → ℕ → Bytes
build_release_message chain_id nonce recipient amount =
    codes "KNT_BRIDGE_RELEASE"
    ++ (to_le_bytes 8 chain_id
        ++ (to_le_bytes 8 nonce ++ (recipient.text ++ to_le_bytes 16 amount)))

-- `format!("{}:{}", source_chain_id, nonce)`
unfoldable pub nonce_key : ℕ → ℕ → Bytes
nonce_key source_chain_id nonce = to_string source_chain_id ++ (b':' ∷ to_string nonce)

-- The chain's check of a signature over a message by a key.
module _ (ed25519_verify : (signature message pubkey : Bytes) → Bool) where
  unfoldable pub mint_bridged : KntBridge → Inbound → Result Panic (KntBridge × Outcome)
  mint_bridged b m = do
    require (not b.paused) Panic.paused
    require (ltb 0 m.amount) Panic.zero_amount
    pk ← copy_from_slice 32 m.signer_pubkey
    require (contains b.mpc_signers pk) Panic.unauthorized_signer
    let key = nonce_key m.source_chain_id m.nonce
    require (not (unwrap_or (b.processed_nonces key) false)) Panic.nonce_processed
    let message = build_mint_message m.source_chain_id m.nonce m.recipient m.amount
    sig ← copy_from_slice 64 m.signature
    require (ed25519_verify sig message pk) Panic.invalid_signature
    ok (
      record b { processed_nonces = insert_bytes b.processed_nonces key true },
      record {
        returned = none;
        logs =
            record {
              event_type = codes "mint";
              source_chain = m.source_chain_id;
              dest_chain = near_chain_id;
              nonce = m.nonce;
              sender = codes "bridge";
              recipient = m.recipient.text;
              amount = to_string m.amount;
            }
            ∷ [];
        promises = record { receiver = m.recipient; amount = m.amount } ∷ [];
      },
    )

  unfoldable pub release : KntBridge → Inbound → Result Panic (KntBridge × Outcome)
  release b m = do
    require (not b.paused) Panic.assertion
    pk ← copy_from_slice 32 m.signer_pubkey
    require (contains b.mpc_signers pk) Panic.unauthorized
    let key = nonce_key m.source_chain_id m.nonce
    require (not (unwrap_or (b.processed_nonces key) false)) Panic.nonce_processed
    let message = build_release_message m.source_chain_id m.nonce m.recipient m.amount
    sig ← copy_from_slice 64 m.signature
    require (ed25519_verify sig message pk) Panic.invalid_sig
    ok (
      record b { processed_nonces = insert_bytes b.processed_nonces key true },
      record {
        returned = none;
        logs = [];
        promises = record { receiver = m.recipient; amount = m.amount } ∷ [];
      },
    )

unfoldable pub burn_bridged : KntBridge → Context → ℕ → Bytes → Result Panic (KntBridge × Outcome)
burn_bridged b cx dest_chain_id recipient = do
  require (not b.paused) Panic.paused
  require (ltb 0 cx.deposit) Panic.zero_amount
  total_burned ← ok_or (checked (2 ^ 128) (b.total_burned + cx.deposit)) Panic.overflow
  nonce ← ok_or (checked (2 ^ 64) (b.outbound_nonce + 1)) Panic.overflow
  ok (
    record b { total_burned = total_burned; outbound_nonce = nonce },
    record {
      returned = some nonce;
      logs =
          record {
            event_type = codes "burn";
            source_chain = near_chain_id;
            dest_chain = dest_chain_id;
            nonce = nonce;
            sender = cx.predecessor;
            recipient = recipient;
            amount = to_string cx.deposit;
          }
          ∷ [];
      promises = [];
    },
  )

unfoldable pub assert_admin : KntBridge → Context → Result Panic (Unit {0})
assert_admin b cx = require (bytes_eq cx.predecessor b.admin) Panic.not_admin

unfoldable pub pause : KntBridge → Context → Result Panic (KntBridge × Outcome)
pause b cx = do assert_admin b cx; ok (record b { paused = true }, quiet)

unfoldable pub unpause : KntBridge → Context → Result Panic (KntBridge × Outcome)
unpause b cx = do assert_admin b cx; ok (record b { paused = false }, quiet)

unfoldable pub set_signers :
    KntBridge → Context → List Bytes → ℕ → Result Panic (KntBridge × Outcome)
set_signers b cx signers threshold = do
  assert_admin b cx
  keys ← to_keys signers
  ok (record b { mpc_signers = keys; threshold = threshold }, quiet)

unfoldable pub set_fee : KntBridge → Context → ℕ → Result Panic (KntBridge × Outcome)
set_fee b cx fee_bps = do
  assert_admin b cx
  require (leb fee_bps max_fee_bps) Panic.assertion
  ok (record b { fee_bps = fee_bps }, quiet)

-- The views.
unfoldable pub total_locked : KntBridge → Bytes
total_locked b = to_string b.total_locked

unfoldable pub total_burned : KntBridge → Bytes
total_burned b = to_string b.total_burned

unfoldable pub is_paused : KntBridge → Bool
is_paused b = b.paused

-- Before the state exists only `new` goes through.
unfoldable pub construct : Context → Call → Result Panic (KntBridge × Outcome)
construct cx (Call.new signers threshold fee) = new cx signers threshold fee
construct cx _ = err Panic.not_initialized

module _ (ed25519_verify : (signature message pubkey : Bytes) → Bool) where
  unfoldable pub dispatch : KntBridge → Context → Call → Result Panic (KntBridge × Outcome)
  dispatch b cx (Call.new signers threshold fee) = err Panic.already_initialized
  dispatch b cx (Call.lock_and_bridge dest recipient) = lock_and_bridge b cx dest recipient
  dispatch b cx (Call.mint_bridged m) = mint_bridged ed25519_verify b m
  dispatch b cx (Call.burn_bridged dest recipient) = burn_bridged b cx dest recipient
  dispatch b cx (Call.release m) = release ed25519_verify b m
  dispatch b cx Call.pause = pause b cx
  dispatch b cx Call.unpause = unpause b cx
  dispatch b cx (Call.set_signers signers threshold) = set_signers b cx signers threshold
  dispatch b cx (Call.set_fee fee) = set_fee b cx fee

  -- What `#[near_bindgen]` makes of the methods: the deposit's check, the load of the state, and the
  -- call.
  unfoldable pub run_call : Option KntBridge → Context → Call → Result Panic (KntBridge × Outcome)
  run_call s cx c = do
    require (cx.deposit == 0 || is_payable c) Panic.deposit_refused
    elim s [ none ↦ construct cx c | some b ↦ dispatch b cx c ]
