-- ===== src/Cosmos/UnitTests.antt =====
-- The unit tests of contract.rs: what they set up. The children have the tests, each as what it
-- asserts of the model.
mod Transfers
mod Admin
use kinet_std.Shared.{
  ℕ, ◌+◌, ◌-◌, ◌*◌, ◌/◌, ◌^◌, refl, true, some, none, List, [], ◌∷◌, ◌++◌, Bytes, codes, Result, ok,
  err, ◌>>=◌, replicate, bytes_eq, leb, ltb, if◌then◌else◌,
}
use kinet_std.Cosmos.State.{
  Coin, Config, Event, ExecuteMsg, InstantiateMsg, MessageInfo, QueryMsg, Reply, Response, Runtime,
  StdError, Storage,
}
use kinet_std.Cosmos.Contract

-- cosmwasm-std's mocks: every address is valid, hex is read as it stands, and a signature is the
-- key and then the message.
abbrev pub runtime : Runtime
runtime = record {
  ed25519_verify = λ m s p. some (bytes_eq s (p ++ m));
  addr_validate = λ a. some a;
  hex_decode = λ x. some x;
  add = λ a b. if ltb (a + b) (2 ^ 128) then some (a + b) else none;
  checked_sub = λ a b. if leb b a then some (a - b) else none;
  multiply_ratio = λ a n d. if ltb (a * n / d) (2 ^ 128) then some (a * n / d) else none;
  add_law = λ a b. refl;
  sub_law = λ a b. refl;
  ratio_law = λ a n d h. refl;
}

abbrev pub admin : Bytes
admin = codes "admin"

abbrev pub user : Bytes
user = codes "user"

abbrev pub recipient : Bytes
recipient = codes "cosmwasm1h34lmpywh4upnjdg90cjf4j70aee6z8qqfspugamjp42e4q28kqs8s7vcp"

abbrev pub chain_id : ℕ
chain_id = 118

abbrev pub dest_chain : ℕ
dest_chain = 96369

abbrev pub default_instantiate_msg : InstantiateMsg
default_instantiate_msg = record {
  mpc_signers = codes "aaaa" ∷ codes "bbbb" ∷ [];
  threshold = 2;
  fee_bps = 30;
  chain_id = chain_id;
}

-- `mock_info`, and the time of `mock_env`
abbrev pub mock_info : Bytes → List Coin → MessageInfo
mock_info sender funds = record { sender = sender; funds = funds }

abbrev pub mock_time : ℕ
mock_time = 1571797419

abbrev pub empty : Storage
empty = record { config = none; token_configs = λ d. none; processed_nonces = λ k. none }

abbrev pub setup : Storage
setup = (Contract.instantiate empty (mock_info admin []) default_instantiate_msg).0

abbrev pub call : Storage → MessageInfo → ExecuteMsg → Result StdError (Storage × Response)
call s info msg = Contract.execute runtime s (record { now = mock_time; info = info; msg = msg })

-- A call by the admin that must go through.
abbrev pub as_admin : Storage → ExecuteMsg → Result StdError Storage
as_admin s msg = do (t, r) ← call s (mock_info admin []) msg; ok t

abbrev pub register_token : Storage → Bytes → ℕ → Result StdError Storage
register_token s denom limit = as_admin s (ExecuteMsg.register_token denom true limit)

-- The configuration that a query answers.
abbrev pub config_of : Reply → Result StdError Config
config_of (Reply.config c) = ok c
config_of _ = err StdError.not_found

abbrev pub query_config : Storage → Result StdError Config
query_config s = do reply ← Contract.query s QueryMsg.config; config_of reply

-- `res.events[i].ty`
abbrev pub ty : Event → Bytes
ty (Event.lock s d n e f r a x) = codes "lock"
ty (Event.mint s n r a d) = codes "mint"
ty (Event.burn s d n e f r a) = codes "burn"
ty (Event.release s n r a) = codes "release"

-- A key of the tests, from its seed, and its signature under a mint.
abbrev pub pubkey_hex : ℕ → Bytes
pubkey_hex seed = replicate 32 seed

abbrev pub sign_mint : ℕ → ℕ → ℕ → Bytes → ℕ → Bytes × Bytes
sign_mint seed source_chain_id nonce to amount = (
  pubkey_hex seed,
  pubkey_hex seed ++ Contract.build_mint_message source_chain_id nonce to amount,
)

-- A mint of nonce 1 under the signature of `seed` for the amount `signed`.
abbrev pub mint : ℕ → ℕ → ℕ → ExecuteMsg
mint seed signed amount = ExecuteMsg.mint_bridged (record {
  source_chain_id = dest_chain;
  nonce = 1;
  recipient = recipient;
  amount = amount;
  denom = codes "bridged_uknt";
  signature = (sign_mint seed dest_chain 1 recipient signed).1;
  signer_pubkey = pubkey_hex seed;
})

-- The bridge with the key of `seed` for its only signer, and the token registered.
abbrev pub with_signer : ℕ → Result StdError Storage
with_signer seed = do
  s ← as_admin setup (ExecuteMsg.update_signers (pubkey_hex seed ∷ []) 1)
  register_token s (codes "bridged_uknt") 1000000
