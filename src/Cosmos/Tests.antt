-- ===== src/Cosmos/Tests.antt =====
-- The CosmWasm bridge on concrete inputs, and the theorems at concrete inputs.
use kinet_std.Shared.{
  All, ◌+◌, ◌-◌, ◌*◌, ◌/◌, ◌^◌, ◌≤◌, ◌≡◌, ◌↔◌, refl, true, false, Option, some, none, List, [], ◌∷◌,
  Bytes, codes, ok, ltb, leb, if◌then◌else◌, arith, bytes_eq, contains, ◌==◌, ◌&&◌,
}
use kinet_std.Shared.Int.{pos, ◌+ℤ◌}
use kinet_std.Spec.Replay.{Distinct, accepted}
use kinet_std.Spec.Run.{logged, sum_of}
use kinet_std.Cosmos.State.{
  Config, TokenConfig, Storage, Inbound, ExecuteMsg, MessageInfo, BankMsg, Event, Response, Runtime,
}
use kinet_std.Cosmos.Limit.{check_daily_limit}
use kinet_std.Cosmos.Contract
use kinet_std.Cosmos.Authorize
use kinet_std.Cosmos.Inbound
use kinet_std.Cosmos.Inbound.{Released}
use kinet_std.Cosmos.Replay
use kinet_std.Cosmos.Outbound
use kinet_std.Cosmos.Messages
use kinet_std.Cosmos.Metered
use kinet_std.Cosmos.Liveness

-- Every signature verifies, addresses are valid, and hex is read as it stands.
abbrev runtime : Runtime
runtime = record {
  ed25519_verify = λ m s p. some true;
  addr_validate = λ a. some a;
  hex_decode = λ x. some x;
  add = λ a b. if ltb (a + b) (2 ^ 128) then some (a + b) else none;
  checked_sub = λ a b. if leb b a then some (a - b) else none;
  multiply_ratio = λ a n d. if ltb (a * n / d) (2 ^ 128) then some (a * n / d) else none;
  add_law = λ a b. refl;
  sub_law = λ a b. refl;
  ratio_law = λ a n d h. refl;
}

abbrev config : Config
config = record {
  admin = codes "admin";
  mpc_signers = codes "aaaa" ∷ codes "bbbb" ∷ [];
  threshold = 2;
  fee_bps = 30;
  fee_collector = codes "admin";
  paused = false;
  outbound_nonce = 0;
  chain_id = 118;
  total_locked = 0;
  total_burned = 0;
}

abbrev token : TokenConfig
token = record {
  denom = codes "uknt";
  is_native = true;
  daily_mint_limit = 1000;
  daily_minted = 0;
  period_start = 0;
  active = true;
}

abbrev unlimited : TokenConfig
unlimited = record token { denom = codes "uatom"; daily_mint_limit = 0 }

abbrev tokens : Bytes → Option TokenConfig
tokens d =
    if bytes_eq (codes "uknt") d
    then some token
    else if bytes_eq (codes "uatom") d
    then some unlimited
    else none

abbrev storage : Storage
storage = record { config = some config; token_configs = tokens; processed_nonces = λ k. none }

abbrev user : MessageInfo
user = record {
  sender = codes "user";
  funds = record { denom = codes "uknt"; amount = 10000 } ∷ [];
}

abbrev inbound : Inbound
inbound = record {
  source_chain_id = 96369;
  nonce = 1;
  recipient = codes "bob";
  amount = 700;
  denom = codes "uknt";
  signature = codes "sig";
  signer_pubkey = codes "aaaa";
}

abbrev mint_call : Contract.Call
mint_call = record { now = 90000; info = user; msg = ExecuteMsg.mint_bridged inbound }

-- The second call repeats the first, and the third is over the limit; the fourth releases under
-- another nonce.
abbrev calls : List Contract.Call
calls =
    mint_call
    ∷ mint_call
    ∷ record mint_call { msg = ExecuteMsg.mint_bridged (record inbound { nonce = 2 }) }
    ∷ record mint_call { msg = ExecuteMsg.release (record inbound { nonce = 3 }) }
    ∷ []

accepted-calls :
    accepted (Replay.step runtime) (Replay.call_key runtime) storage calls
    ≡ (96369, 1) ∷ (96369, 3) ∷ []
unfolding accepted Replay.step Contract.execute Contract.dispatch Contract.mint_bridged
    Contract.release Contract.authorize check_daily_limit bytes_eq contains
accepted-calls = refl

lock_10000 :
    Contract.lock_and_bridge runtime storage user 96369 (codes "0xdead")
    ≡ ok (
      record storage { config = some (record config { total_locked = 9970; outbound_nonce = 1 }) },
      record {
        messages = [];
        events = Event.lock 118 96369 1 (codes "uknt") (codes "user") (codes "0xdead") 9970 30 ∷ [];
        attributes = [];
      },
    )
unfolding Contract.lock_and_bridge
lock_10000 = refl

cosmos_no_replay_example :
    let keys = accepted (Replay.step runtime) (Replay.call_key runtime) storage calls in
    Distinct keys × All (λ k. Authorize.processed storage k ≡ false) keys
cosmos_no_replay_example = Replay.cosmos_no_replay runtime storage calls

abbrev minted_storage : Storage
minted_storage = record storage {
  token_configs = λ d.
      if bytes_eq (codes "uknt") d
      then some (record token { daily_minted = 700; period_start = 90000 })
      else tokens d;
  processed_nonces = λ k. if 96369 == k.0 && 1 == k.1 then some true else none;
}

abbrev minted_response : Response
minted_response = record {
  messages = BankMsg.send (codes "bob") (record { denom = codes "uknt"; amount = 700 } ∷ []) ∷ [];
  events = Event.mint 96369 1 (codes "bob") 700 (codes "uknt") ∷ [];
  attributes = [];
}

minted : Contract.mint_bridged runtime storage 90000 inbound ≡ ok (minted_storage, minted_response)
unfolding Contract.mint_bridged Contract.authorize check_daily_limit bytes_eq contains
minted = refl

cosmos_mint_bridged_iff_example :
    (Contract.mint_bridged runtime storage 90000 inbound ≡ ok (minted_storage, minted_response))
    ↔ Inbound.Exactly runtime storage 90000 inbound minted_storage minted_response
cosmos_mint_bridged_iff_example =
    Inbound.cosmos_mint_bridged_iff runtime storage 90000 inbound minted_storage minted_response

-- The conditions of that mint hold.
mint_700-Exactly : Inbound.Exactly runtime storage 90000 inbound minted_storage minted_response
mint_700-Exactly =
    (Inbound.cosmos_mint_bridged_iff runtime storage 90000 inbound minted_storage minted_response).0
      minted

abbrev released_storage : Storage
released_storage = record storage {
  processed_nonces = λ k. if 96369 == k.0 && 1 == k.1 then some true else none;
}

abbrev released_response : Response
released_response = record {
  messages = BankMsg.send (codes "bob") (record { denom = codes "uknt"; amount = 700 } ∷ []) ∷ [];
  events = Event.release 96369 1 (codes "bob") 700 ∷ [];
  attributes = [];
}

released : Contract.release runtime storage inbound ≡ ok (released_storage, released_response)
unfolding Contract.release Contract.authorize bytes_eq contains
released = refl

cosmos_release_iff_example :
    (Contract.release runtime storage inbound ≡ ok (released_storage, released_response))
    ↔ Released runtime storage inbound released_storage released_response
cosmos_release_iff_example =
    Inbound.cosmos_release_iff runtime storage inbound released_storage released_response

release_700-Released : Released runtime storage inbound released_storage released_response
release_700-Released =
    Inbound.release-Released runtime storage inbound released_storage released_response released

mint_bridged-denom_unbound_example :
    (t' : Storage) × (r' : Response) × (a : Bytes) × (Contract.mint_bridged runtime storage 90000
        (record inbound { denom = codes "uatom" })
      ≡ ok (t', r'))
    × (r'.messages ≡ BankMsg.send a (record { denom = codes "uatom"; amount = 700 } ∷ []) ∷ [])
unfolding bytes_eq
mint_bridged-denom_unbound_example =
    Messages.mint_bridged-denom_unbound runtime storage 90000 inbound minted_storage minted_response
      (codes "uatom") unlimited minted refl refl

abbrev locked_storage : Storage
locked_storage = record storage {
  config = some (record config { total_locked = 9970; outbound_nonce = 1 });
}

abbrev locked_response : Response
locked_response = record {
  messages = [];
  events = Event.lock 118 96369 1 (codes "uknt") (codes "user") (codes "0xdead") 9970 30 ∷ [];
  attributes = [];
}

lock_and_bridge-Locked_example : Outbound.Locked storage user locked_storage locked_response
lock_and_bridge-Locked_example =
    Outbound.lock_and_bridge-Locked runtime storage user 96369 (codes "0xdead") locked_storage
      locked_response lock_10000

registered : storage.token_configs (codes "uknt") ≡ some token
unfolding bytes_eq
registered = refl

cosmos_run-minted_per_day_example :
    0
      + sum_of
          (Metered.minted_of (codes "uknt"))
          (logged (Metered.event_step runtime) storage calls)
    ≤ 1000 + 1000
unfolding ◌+ℤ◌
cosmos_run-minted_per_day_example =
    Metered.cosmos_run-minted_per_day runtime (codes "uknt") storage token (pos 90000) calls
      registered (omega arith) (omega arith) (omega arith) (tt, (tt, (tt, (tt, tt)))) (omega arith)

-- A release that none of the calls above touches.
abbrev later : Inbound
later = record inbound { nonce = 9 }
