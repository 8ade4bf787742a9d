-- ===== src/Crossing/Tests.antt =====
-- A mint of the CosmWasm bridge whose signature mints on the NEAR bridge too.
use kinet_std.Shared.{
  ◌+◌, ◌-◌, ◌*◌, ◌/◌, ◌^◌, ◌≡◌, refl, Bool, true, false, some, none, [], ◌∷◌, Bytes, codes, ok,
  arith, bytes_eq, contains, take, replicate, ltb, leb, if◌then◌else◌, insert_key, insert_bytes,
}
use kinet_std.Cosmos.State.{
  BankMsg, Config, Event, Inbound as CosmosTransfer, Response, Runtime, Storage, TokenConfig,
}
use kinet_std.Cosmos.Limit.{check_daily_limit}
use kinet_std.Cosmos.Contract as CosmosContract
use kinet_std.Near.State.{AccountId, KntBridge, Outcome}
use kinet_std.Near.Contract
use kinet_std.Crossing

-- A signature verifies if it begins with the key.
abbrev pub verify : Bytes → Bytes → Bytes → Bool
verify signature message pubkey = bytes_eq (take 32 signature) pubkey

abbrev pub runtime : Runtime
runtime = record {
  ed25519_verify = λ m s p. some (bytes_eq (take 32 s) p);
  addr_validate = λ a. some a;
  hex_decode = λ x. some x;
  add = λ a b. if ltb (a + b) (2 ^ 128) then some (a + b) else none;
  checked_sub = λ a b. if leb b a then some (a - b) else none;
  multiply_ratio = λ a n d. if ltb (a * n / d) (2 ^ 128) then some (a * n / d) else none;
  add_law = λ a b. refl;
  sub_law = λ a b. refl;
  ratio_law = λ a n d h. refl;
}

abbrev pub key : Bytes
key = replicate 32 1

abbrev config : Config
config = record {
  admin = codes "admin";
  mpc_signers = key ∷ [];
  threshold = 2;
  fee_bps = 30;
  fee_collector = codes "admin";
  paused = false;
  outbound_nonce = 0;
  chain_id = 118;
  total_locked = 0;
  total_burned = 0;
}

abbrev pub token : TokenConfig
token = record {
  denom = codes "uknt";
  is_native = true;
  daily_mint_limit = 0;
  daily_minted = 0;
  period_start = 0;
  active = true;
}

abbrev pub storage : Storage
storage = record {
  config = some config;
  token_configs = λ d. some token;
  processed_nonces = λ k. none;
}

abbrev transfer : CosmosTransfer
transfer = record {
  source_chain_id = 96369;
  nonce = 1;
  recipient = codes "cosmos1bob";
  amount = 700;
  denom = codes "uknt";
  signature = replicate 64 1;
  signer_pubkey = key;
}

abbrev minted : Storage × Response
minted = (
  record storage {
    token_configs = insert_bytes storage.token_configs (codes "uknt") token;
    processed_nonces = insert_key storage.processed_nonces (96369, 1) true;
  },
  record {
    messages =
        BankMsg.send (codes "cosmos1bob") (record { denom = codes "uknt"; amount = 700 } ∷ []) ∷ [];
    events = Event.mint 96369 1 (codes "cosmos1bob") 700 (codes "uknt") ∷ [];
    attributes = [];
  },
)

mint_700 : CosmosContract.mint_bridged runtime storage 90000 transfer ≡ ok minted
unfolding CosmosContract.mint_bridged CosmosContract.authorize check_daily_limit bytes_eq contains
mint_700 = refl

abbrev pub bridge : KntBridge
bridge = record {
  admin = codes "admin.near";
  mpc_signers = key ∷ [];
  threshold = 1;
  fee_bps = 100;
  paused = false;
  outbound_nonce = 0;
  total_locked = 0;
  total_burned = 0;
  processed_nonces = λ k. none;
}

same_checks :
    (message signature pubkey : Bytes)
    → runtime.ed25519_verify message signature pubkey ≡ some true
    → verify signature message pubkey ≡ true
same_checks message signature pubkey h = cc

-- A text of 10 letters and digits, which is a NEAR account id as well.
abbrev account : AccountId
account = record { text = codes "cosmos1bob"; shortest = omega arith; longest = omega arith }

mint_bridged-crosses_example :
    (t' : KntBridge) × (o : Outcome) × (Contract.mint_bridged verify bridge
        (Crossing.carried transfer account (replicate 64 1) key)
      ≡ ok (t', o))
    × (o.promises ≡ record { receiver = account; amount = 700 } ∷ [])
unfolding bytes_eq contains
mint_bridged-crosses_example =
    Crossing.mint_bridged-crosses runtime verify same_checks storage 90000 transfer minted.0
      minted.1 bridge account (replicate 64 1) key refl mint_700 refl refl refl (omega arith) refl
      refl refl refl
