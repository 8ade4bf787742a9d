-- ===== src/Cosmos/Contract.antt =====
-- The entry points of contract.rs. A call that returns an error leaves the storage as it was: the
-- chain discards what it wrote.
use kinet_std.Shared.{
  ℕ, ◌+◌, Bool, true, false, not, Option, some, none, List, [], ◌∷◌, ◌++◌, Bytes, codes, bytes_eq,
  contains, to_le_bytes, insert_key, insert_bytes, Result, ok, ◌>>=◌, ◌>>◌, fail_if, ok_or,
  unwrap_or, ltb,
}
use kinet_std.Cosmos.State.{
  Config, Storage, InstantiateMsg, Inbound, ExecuteMsg, QueryMsg, Coin, MessageInfo, BankMsg, Event,
  Response, Reply, StdError, Runtime, wrap_u64,
}
use kinet_std.Cosmos.Limit.{check_daily_limit}

abbrev respond : List BankMsg → List Event → Response
respond ms es = record { messages = ms; events = es; attributes = [] }

abbrev acted : Bytes → Response
acted action = record { messages = []; events = []; attributes = (codes "action", action) ∷ [] }

unfoldable pub build_mint_message : ℕ → ℕ → Bytes → ℕ → Bytes
build_mint_message chain_id nonce recipient amount =
    codes "KNT_BRIDGE_MINT"
    ++ (to_le_bytes 8 chain_id ++ (to_le_bytes 8 nonce ++ (recipient ++ to_le_bytes 16 amount)))

unfoldable pub build_release_message : ℕ → ℕ → Bytes → ℕ → Bytes
build_release_message chain_id nonce recipient amount =
    codes "KNT_BRIDGE_RELEASE"
    ++ (to_le_bytes 8 chain_id ++ (to_le_bytes 8 nonce ++ (recipient ++ to_le_bytes 16 amount)))

unfoldable pub instantiate : Storage → MessageInfo → InstantiateMsg → Storage × Response
instantiate s info msg = (
  record s {
    config = some (record {
      admin = info.sender;
      mpc_signers = msg.mpc_signers;
      threshold = msg.threshold;
      fee_bps = msg.fee_bps;
      fee_collector = info.sender;
      paused = false;
      outbound_nonce = 0;
      chain_id = msg.chain_id;
      total_locked = 0;
      total_burned = 0;
    });
  },
  acted (codes "instantiate"),
)

-- The only coin sent, if there is exactly one.
abbrev pub single_coin : List Coin → Option Coin
single_coin [] = none
single_coin (c ∷ []) = some c
single_coin (c ∷ d ∷ cs) = none

module _ (rt : Runtime) where
  unfoldable pub lock_and_bridge :
      Storage → MessageInfo → ℕ → Bytes → Result StdError (Storage × Response)
  lock_and_bridge s info dest_chain_id recipient = do
    config ← ok_or s.config StdError.not_found
    fail_if config.paused StdError.paused
    sent ← ok_or (single_coin info.funds) StdError.one_coin
    fee ← ok_or (rt.multiply_ratio sent.amount config.fee_bps 10000) StdError.overflow
    bridge_amount ← ok_or (rt.checked_sub sent.amount fee) StdError.fee_exceeds_amount
    total_locked ← ok_or (rt.add config.total_locked bridge_amount) StdError.overflow
    let nonce = wrap_u64 (config.outbound_nonce + 1)
    ok (
      record s {
        config = some (record config { total_locked = total_locked; outbound_nonce = nonce });
      },
      respond [] (
          Event.lock config.chain_id dest_chain_id nonce sent.denom info.sender recipient
            bridge_amount fee
          ∷ []),
    )

  -- The checks with which `mint_bridged` and `release` begin: pause, nonce, signer and signature.
  -- The two report three of the failures by different texts.
  unfoldable pub authorize :
      Storage → Inbound → Bytes → (bad_sig bad_pk failed : StdError) → Result StdError (Unit {0})
  authorize s m message bad_sig bad_pk failed = do
    config ← ok_or s.config StdError.not_found
    fail_if config.paused StdError.paused
    fail_if (unwrap_or (s.processed_nonces (m.source_chain_id, m.nonce)) false)
        StdError.nonce_processed
    fail_if (not (contains config.mpc_signers m.signer_pubkey)) StdError.unauthorized_signer
    sig_bytes ← ok_or (rt.hex_decode m.signature) bad_sig
    pk_bytes ← ok_or (rt.hex_decode m.signer_pubkey) bad_pk
    valid ← ok_or (rt.ed25519_verify message sig_bytes pk_bytes) failed
    fail_if (not valid) StdError.invalid_signature

  unfoldable pub mint_bridged : Storage → ℕ → Inbound → Result StdError (Storage × Response)
  mint_bridged s now m = do
    authorize s m (build_mint_message m.source_chain_id m.nonce m.recipient m.amount)
        StdError.signature_hex StdError.pubkey_hex StdError.verification_failed
    token_config ← ok_or (s.token_configs m.denom) StdError.not_found
    checked ← check_daily_limit rt token_config m.amount now
    recipient_addr ← ok_or (rt.addr_validate m.recipient) StdError.invalid_address
    ok (
      record s {
        token_configs = insert_bytes s.token_configs m.denom checked;
        processed_nonces = insert_key s.processed_nonces (m.source_chain_id, m.nonce) true;
      },
      respond
          (BankMsg.send recipient_addr (record { denom = m.denom; amount = m.amount } ∷ []) ∷ [])
          (Event.mint m.source_chain_id m.nonce m.recipient m.amount m.denom ∷ []),
    )

  unfoldable pub burn_bridged :
      Storage → MessageInfo → ℕ → Bytes → Bytes → ℕ → Result StdError (Storage × Response)
  burn_bridged s info dest_chain_id recipient denom amount = do
    config ← ok_or s.config StdError.not_found
    fail_if config.paused StdError.paused
    total_burned ← ok_or (rt.add config.total_burned amount) StdError.overflow
    let nonce = wrap_u64 (config.outbound_nonce + 1)
    ok (
      record s {
        config = some (record config { total_burned = total_burned; outbound_nonce = nonce });
      },
      respond (BankMsg.burn (record { denom = denom; amount = amount } ∷ []) ∷ [])
          (Event.burn config.chain_id dest_chain_id nonce denom info.sender recipient amount ∷ []),
    )

  unfoldable pub release : Storage → Inbound → Result StdError (Storage × Response)
  release s m = do
    authorize s m (build_release_message m.source_chain_id m.nonce m.recipient m.amount)
        StdError.invalid_sig StdError.invalid_pk StdError.sig_verify_failed
    recipient_addr ← ok_or (rt.addr_validate m.recipient) StdError.invalid_address
    ok (
      record s {
        processed_nonces = insert_key s.processed_nonces (m.source_chain_id, m.nonce) true;
      },
      respond
          (BankMsg.send recipient_addr (record { denom = m.denom; amount = m.amount } ∷ []) ∷ [])
          (Event.release m.source_chain_id m.nonce m.recipient m.amount ∷ []),
    )

-- The load of CONFIG and the admin check with which every admin message begins.
unfoldable pub as_admin : Storage → MessageInfo → Result StdError Config
as_admin s info = do
  config ← ok_or s.config StdError.not_found
  fail_if (not (bytes_eq info.sender config.admin)) StdError.unauthorized
  ok config

unfoldable pub register_token :
    Storage → MessageInfo → Bytes → Bool → ℕ → Result StdError (Storage × Response)
register_token s info denom is_native daily_limit = do
  config ← as_admin s info
  ok (
    record s {
      token_configs = insert_bytes s.token_configs denom (record {
        denom = denom;
        is_native = is_native;
        daily_mint_limit = daily_limit;
        daily_minted = 0;
        period_start = 0;
        active = true;
      });
    },
    record {
      messages = [];
      events = [];
      attributes = (codes "action", codes "register_token") ∷ (codes "denom", denom) ∷ [];
    },
  )

unfoldable pub update_signers :
    Storage → MessageInfo → List Bytes → ℕ → Result StdError (Storage × Response)
update_signers s info signers threshold = do
  config ← as_admin s info
  ok (
    record s { config = some (record config { mpc_signers = signers; threshold = threshold }) },
    acted (codes "update_signers"),
  )

unfoldable pub update_fee : Storage → MessageInfo → ℕ → Result StdError (Storage × Response)
update_fee s info fee_bps = do
  config ← as_admin s info
  fail_if (ltb 500 fee_bps) StdError.fee_too_high
  ok (record s { config = some (record config { fee_bps = fee_bps }) }, acted (codes "update_fee"))

unfoldable pub pause : Storage → MessageInfo → Result StdError (Storage × Response)
pause s info = do
  config ← as_admin s info
  ok (record s { config = some (record config { paused = true }) }, acted (codes "pause"))

unfoldable pub unpause : Storage → MessageInfo → Result StdError (Storage × Response)
unpause s info = do
  config ← as_admin s info
  ok (record s { config = some (record config { paused = false }) }, acted (codes "unpause"))

-- `env.block.time.seconds()`, the sender and the message of a call.
pub record Call : Type 0 where
  pub now : ℕ
  pub info : MessageInfo
  pub msg : ExecuteMsg

module _ (rt : Runtime) where
  unfoldable pub dispatch :
      Storage → ℕ → MessageInfo → ExecuteMsg → Result StdError (Storage × Response)
  dispatch s now info (ExecuteMsg.lock_and_bridge dest_chain_id recipient) =
      lock_and_bridge rt s info dest_chain_id recipient
  dispatch s now info (ExecuteMsg.mint_bridged m) = mint_bridged rt s now m
  dispatch s now info (ExecuteMsg.burn_bridged dest_chain_id recipient denom amount) =
      burn_bridged rt s info dest_chain_id recipient denom amount
  dispatch s now info (ExecuteMsg.release m) = release rt s m
  dispatch s now info (ExecuteMsg.register_token denom is_native daily_limit) =
      register_token s info denom is_native daily_limit
  dispatch s now info (ExecuteMsg.update_signers signers threshold) =
      update_signers s info signers threshold
  dispatch s now info (ExecuteMsg.update_fee fee_bps) = update_fee s info fee_bps
  dispatch s now info ExecuteMsg.pause = pause s info
  dispatch s now info ExecuteMsg.unpause = unpause s info

  unfoldable pub execute : Storage → Call → Result StdError (Storage × Response)
  execute s c = dispatch s c.now c.info c.msg

unfoldable pub query : Storage → QueryMsg → Result StdError Reply
query s QueryMsg.config = do ok (Reply.config (← ok_or s.config StdError.not_found))
query s (QueryMsg.token_config denom) = do
  ok (Reply.token_config (← ok_or (s.token_configs denom) StdError.not_found))
query s (QueryMsg.is_nonce_processed source_chain_id nonce) =
    ok (Reply.processed (unwrap_or (s.processed_nonces (source_chain_id, nonce)) false))
query s QueryMsg.total_locked = do
  config ← ok_or s.config StdError.not_found
  ok (Reply.total config.total_locked)
query s QueryMsg.total_burned = do
  config ← ok_or s.config StdError.not_found
  ok (Reply.total config.total_burned)
