-- ===== src/Cosmos/Outbound.antt =====
-- Locks and burns of the CosmWasm bridge: the fee, the totals, the nonce.
use kinet_std.Shared.{
  ℕ, ◌+◌, ◌-◌, ◌*◌, ◌/◌, ◌%◌, ◌^◌, ◌≤◌, ◌<◌, ◌≡◌, refl, false, some, List, [], ◌∷◌, ok, err, Bytes,
  arith, Option-cases, inl, inr,
}
use kinet_std.Cosmos.State.{
  Config, Storage, Coin, MessageInfo, BankMsg, Event, Response, StdError, Runtime, wrap_u64,
}
use kinet_std.Cosmos.Contract

-- The fee of an amount, rounded down.
abbrev pub fee_of : Config → ℕ → ℕ
fee_of c amount = amount * c.fee_bps / 10000

fee-le : (amount bps : ℕ) → bps ≤ 10000 → amount * bps / 10000 ≤ amount
fee-le amount bps h = grind arith

single_coin-funds :
    (coins : List Coin) (coin : Coin) → Contract.single_coin coins ≡ some coin → coins ≡ coin ∷ []
single_coin-funds [] coin h = cc
single_coin-funds (c ∷ []) coin h = cc
single_coin-funds (c ∷ d ∷ cs) coin h = cc

-- On a live bridge whose fee is at most the whole, a lock of one coin goes through, unless the
-- total would leave Uint128: the fee is rounded down, the rest is locked, the nonce is the next
-- one, and one event reports all of it. Nothing else of the storage changes.
pub lock_and_bridge_lem :
    (rt : Runtime) (s : Storage) (info : MessageInfo) (dest : ℕ) (recipient denom : Bytes)
    (amount : ℕ) (c : Config)
    → s.config ≡ some c
    → c.paused ≡ false
    → info.funds ≡ record { denom = denom; amount = amount } ∷ []
    → c.fee_bps ≤ 10000
    → amount < 2 ^ 128
    → c.total_locked + amount < 2 ^ 128
    → let fee = fee_of c amount in
      let nonce = (c.outbound_nonce + 1) % 2 ^ 64 in
      Contract.lock_and_bridge rt s info dest recipient
      ≡ ok (
        record s {
          config =
              some (record c {
                total_locked = c.total_locked + (amount - fee);
                outbound_nonce = nonce;
              });
        },
        record {
          messages = [];
          events =
              Event.lock c.chain_id dest nonce denom info.sender recipient (amount - fee) fee ∷ [];
          attributes = [];
        },
      )
unfolding Contract.lock_and_bridge
lock_and_bridge_lem rt s info dest recipient denom amount c loaded live sent fee_ok small room =
    ground (
      arith,
      rt.ratio_law amount c.fee_bps 10000 (omega arith),
      rt.sub_law amount (fee_of c amount),
      rt.add_law c.total_locked (amount - fee_of c amount),
      fee-le amount c.fee_bps fee_ok,
    )

-- What a lock that goes through has done: the coin is split into the bridged amount and the fee
-- with nothing lost, and the total grows by the bridged amount.
pub record Locked (s : Storage) (info : MessageInfo) (t : Storage) (r : Response) : Type 0 where
  pub config : Config
  pub loaded : s.config ≡ some config
  pub live : config.paused ≡ false
  pub coin : Coin
  pub sent : info.funds ≡ coin ∷ []
  pub bridged : ℕ
  pub fee : ℕ
  pub rate : fee ≡ fee_of config coin.amount
  pub split : bridged + fee ≡ coin.amount
  pub config_after : Config
  pub stored : t.config ≡ some config_after
  pub total : config_after.total_locked ≡ config.total_locked + bridged
  pub sequence : config_after.outbound_nonce ≡ wrap_u64 (config.outbound_nonce + 1)
  pub reported :
      (dest : ℕ) × (recipient : Bytes) × (r.events
        ≡ Event.lock config.chain_id dest config_after.outbound_nonce coin.denom info.sender
            recipient bridged fee
          ∷ [])

-- Every lock that goes through keeps the amount: bridged amount and fee add up to the one coin
-- sent, the fee is the rate's share rounded down, and the total grows by the bridged amount.
pub lock_and_bridge-Locked :
    (rt : Runtime) (s : Storage) (info : MessageInfo) (dest : ℕ) (recipient : Bytes) (t : Storage)
    (r : Response)
    → Contract.lock_and_bridge rt s info dest recipient ≡ ok (t, r)
    → Locked s info t r
unfolding Contract.lock_and_bridge
lock_and_bridge-Locked rt s info dest recipient t r h = elim (Option-cases s.config) [
  | inl missing ↦ absurd (ground arith)
  | inr (c, loaded) ↦ elim (Option-cases (Contract.single_coin info.funds)) [
    | inl none_sent ↦ absurd (ground arith)
    | inr (coin, single) ↦
        let fee = fee_of c coin.amount in
        let ratio = rt.ratio_law coin.amount c.fee_bps 10000 (omega arith) in
        let sub = rt.sub_law coin.amount fee in
        let add = rt.add_law c.total_locked (coin.amount - fee) in
        record {
          config = c;
          loaded = loaded;
          live = ground arith;
          coin = coin;
          sent = single_coin-funds info.funds coin single;
          bridged = coin.amount - fee;
          fee = fee;
          rate = refl;
          split = ground (arith, ratio, sub);
          config_after = record c {
            total_locked = c.total_locked + (coin.amount - fee);
            outbound_nonce = wrap_u64 (c.outbound_nonce + 1);
          };
          stored = ground (arith, ratio, sub, add);
          total = refl;
          sequence = refl;
          reported = (dest, recipient, ground (arith, ratio, sub, add));
        }
  ]
]

-- A fee above the whole amount, which `instantiate` does not rule out, stops every lock of a
-- positive amount whose fee is a Uint128.
pub lock_and_bridge-fee_too_high :
    (rt : Runtime) (s : Storage) (info : MessageInfo) (dest : ℕ) (recipient denom : Bytes)
    (amount : ℕ) (c : Config)
    → s.config ≡ some c
    → c.paused ≡ false
    → info.funds ≡ record { denom = denom; amount = amount } ∷ []
    → amount < fee_of c amount
    → fee_of c amount < 2 ^ 128
    → Contract.lock_and_bridge rt s info dest recipient ≡ err StdError.fee_exceeds_amount
unfolding Contract.lock_and_bridge
lock_and_bridge-fee_too_high rt s info dest recipient denom amount c loaded live sent high fits =
    ground (
      arith,
      rt.ratio_law amount c.fee_bps 10000 (omega arith),
      rt.sub_law amount (fee_of c amount),
    )

-- On a live bridge a burn goes through for any sender who sends no coins at all, as long as the
-- total stays a Uint128: the contract burns the amount named, counts it, and reports the next nonce.
pub burn_bridged-unfunded :
    (rt : Runtime) (s : Storage) (sender : Bytes) (dest : ℕ) (recipient denom : Bytes) (amount : ℕ)
    (c : Config)
    → s.config ≡ some c
    → c.paused ≡ false
    → c.total_burned + amount < 2 ^ 128
    → let nonce = (c.outbound_nonce + 1) % 2 ^ 64 in
      Contract.burn_bridged rt s
        (record { sender = sender; funds = [] })
        dest
        recipient
        denom
        amount
      ≡ ok (
        record s {
          config =
              some (record c { total_burned = c.total_burned + amount; outbound_nonce = nonce });
        },
        record {
          messages = BankMsg.burn (record { denom = denom; amount = amount } ∷ []) ∷ [];
          events = Event.burn c.chain_id dest nonce denom sender recipient amount ∷ [];
          attributes = [];
        },
      )
unfolding Contract.burn_bridged
burn_bridged-unfunded rt s sender dest recipient denom amount c loaded live room =
    ground (arith, rt.add_law c.total_burned amount)
