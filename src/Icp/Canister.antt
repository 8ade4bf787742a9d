-- ===== src/Icp/Canister.antt =====
-- The functions of icp-bridge/src/knt_bridge.rs. The chain undoes what a call that traps has written.
use kinet_std.Shared.{
  ℕ, ◌+◌, ◌*◌, ◌/◌, ◌^◌, Bool, true, false, not, ◌&&◌, some, none, List, [], ◌∷◌, ◌++◌, Bytes, Key,
  bytes_eq, contains, key_eq, Option, Result, ok, ◌>>=◌, ◌>>◌, require, ok_or, leb, ltb, word,
  sub_word, if◌then◌else◌,
}
use kinet_std.Icp.State.{Call, Context, Inbound, LockEvent, Statics, Trap}

abbrev pub icp_chain_id : ℕ
icp_chain_id = 4294967490

abbrev pub max_fee_bps : ℕ
max_fee_bps = 500

-- The statics of a canister that was just installed.
abbrev pub installed : Statics
installed = record { config = none; processed_nonces = λ k. false; event_log = [] }

unfoldable pub init : Statics → Context → List Bytes → ℕ → ℕ → Result Trap Statics
init s cx mpc_signers threshold fee_bps = do
  require (leb fee_bps max_fee_bps) Trap.fee_too_high
  ok (record s {
    config = some (record {
      admin = cx.caller;
      mpc_signers = mpc_signers;
      threshold = threshold;
      fee_bps = fee_bps;
      paused = false;
      outbound_nonce = 0;
      total_locked = 0;
      total_burned = 0;
    });
  })

module _ (overflow_checks : Bool) where
  unfoldable pub lock_and_bridge : Statics → Context → ℕ → ℕ → Bytes → Result Trap (Statics × ℕ)
  lock_and_bridge s cx amount dest_chain_id recipient = do
    cfg ← ok_or s.config Trap.not_initialized
    require (not cfg.paused) Trap.bridge_paused
    require (ltb 0 amount) Trap.zero_amount
    product ← ok_or (word overflow_checks (2 ^ 128) (amount * cfg.fee_bps)) Trap.overflow
    let fee = product / 10000
    bridge_amount ← ok_or (sub_word overflow_checks (2 ^ 128) amount fee) Trap.overflow
    total_locked ←
        ok_or (word overflow_checks (2 ^ 128) (cfg.total_locked + bridge_amount)) Trap.overflow
    nonce ← ok_or (word overflow_checks (2 ^ 64) (cfg.outbound_nonce + 1)) Trap.overflow
    ok (
      record s {
        config = some (record cfg { total_locked = total_locked; outbound_nonce = nonce });
        event_log =
            s.event_log
            ++ record {
              source_chain = icp_chain_id;
              dest_chain = dest_chain_id;
              nonce = nonce;
              sender = cx.caller;
              recipient = recipient;
              amount = bridge_amount;
              fee = fee;
              timestamp = cx.time;
            }
              ∷ [];
      },
      nonce,
    )

  unfoldable pub burn_bridged : Statics → ℕ → ℕ → Bytes → Result Trap (Statics × ℕ)
  burn_bridged s amount dest_chain_id recipient = do
    cfg ← ok_or s.config Trap.not_initialized
    require (not cfg.paused) Trap.bridge_paused
    require (ltb 0 amount) Trap.zero_amount
    total_burned ← ok_or (word overflow_checks (2 ^ 128) (cfg.total_burned + amount)) Trap.overflow
    nonce ← ok_or (word overflow_checks (2 ^ 64) (cfg.outbound_nonce + 1)) Trap.overflow
    ok (
      record s {
        config = some (record cfg { total_burned = total_burned; outbound_nonce = nonce });
      },
      nonce,
    )

-- `HashSet::insert`
abbrev pub insert_nonce : (Key → Bool) → Key → Key → Bool
insert_nonce nonces j k = if key_eq j k then true else nonces k

unfoldable pub mint_bridged : Statics → Inbound → Result Trap Statics
mint_bridged s m = do
  cfg ← ok_or s.config Trap.not_initialized
  require (not cfg.paused) Trap.bridge_paused
  require (ltb 0 m.amount) Trap.zero_amount
  require (contains cfg.mpc_signers m.signer_pubkey) Trap.unauthorized_signer
  let key : Key = (m.source_chain_id, m.nonce)
  require (not (s.processed_nonces key)) Trap.nonce_processed
  ok (record s { processed_nonces = insert_nonce s.processed_nonces key })

unfoldable pub pause : Statics → Context → Result Trap Statics
pause s cx = do
  cfg ← ok_or s.config Trap.not_initialized
  require (bytes_eq cx.caller cfg.admin) Trap.not_admin
  ok (record s { config = some (record cfg { paused = true }) })

unfoldable pub unpause : Statics → Context → Result Trap Statics
unpause s cx = do
  cfg ← ok_or s.config Trap.not_initialized
  require (bytes_eq cx.caller cfg.admin) Trap.not_admin
  ok (record s { config = some (record cfg { paused = false }) })

-- The queries.
unfoldable pub total_locked : Statics → Result Trap ℕ
total_locked s = do cfg ← ok_or s.config Trap.not_initialized; ok cfg.total_locked

unfoldable pub total_burned : Statics → Result Trap ℕ
total_burned s = do cfg ← ok_or s.config Trap.not_initialized; ok cfg.total_burned

unfoldable pub is_paused : Statics → Result Trap Bool
is_paused s = do cfg ← ok_or s.config Trap.not_initialized; ok cfg.paused

-- `iter().filter(…).cloned().collect()`
unfoldable pub in_range : ℕ → ℕ → List LockEvent → List LockEvent
in_range from to [] = []
in_range from to (e ∷ es) =
    let rest = in_range from to es in if leb from e.nonce && leb e.nonce to then e ∷ rest else rest

unfoldable pub get_events : Statics → ℕ → ℕ → List LockEvent
unfolding in_range
get_events s from to = in_range from to s.event_log

abbrev silent : Result Trap Statics → Result Trap (Statics × Option ℕ)
silent call = do s ← call; ok (s, none)

abbrev returning : Result Trap (Statics × ℕ) → Result Trap (Statics × Option ℕ)
returning call = do (s, nonce) ← call; ok (s, some nonce)

-- An update call, with the nonce that it returns, if it returns one.
unfoldable pub run_call : Bool → Statics → Context → Call → Result Trap (Statics × Option ℕ)
run_call checks s cx (Call.lock_and_bridge amount dest recipient) =
    returning (lock_and_bridge checks s cx amount dest recipient)
run_call checks s cx (Call.mint_bridged m) = silent (mint_bridged s m)
run_call checks s cx (Call.burn_bridged amount dest recipient) =
    returning (burn_bridged checks s amount dest recipient)
run_call checks s cx Call.pause = silent (pause s cx)
run_call checks s cx Call.unpause = silent (unpause s cx)
