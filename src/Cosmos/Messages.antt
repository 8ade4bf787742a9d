-- ===== src/Cosmos/Messages.antt =====
-- What a signature over a message of the CosmWasm bridge binds, and what it leaves open.
use kinet_std.Shared.{
  ℕ, ◌^◌, ◌<◌, ◌≡◌, ◌≢◌, refl, some, [], ◌∷◌, Bytes, ok, wire-injective, mint-ne-release, codes,
}
use kinet_std.Cosmos.State.{Storage, Inbound, TokenConfig, Runtime, Response, BankMsg}
use kinet_std.Cosmos.Limit.{check_daily_limit-unlimited}
use kinet_std.Cosmos.Authorize.{Authorized}
use kinet_std.Cosmos.Inbound.{Minted, mint_bridged-Minted, mint_bridged_complete}
use kinet_std.Cosmos.Contract

-- Two mint messages of the CosmWasm bridge over u64 chains and nonces and u128 amounts are the
-- same bytes only if chain, nonce, recipient and amount are the same.
pub build_mint_message-injective :
    (c n : ℕ) (r : Bytes) (a c' n' : ℕ) (r' : Bytes) (a' : ℕ)
    → c < 2 ^ 64
    → n < 2 ^ 64
    → a < 2 ^ 128
    → c' < 2 ^ 64
    → n' < 2 ^ 64
    → a' < 2 ^ 128
    → Contract.build_mint_message c n r a ≡ Contract.build_mint_message c' n' r' a'
    → (c ≡ c') × (n ≡ n') × (r ≡ r') × (a ≡ a')
unfolding Contract.build_mint_message
build_mint_message-injective = wire-injective (codes "KNT_BRIDGE_MINT")

pub build_release_message-injective :
    (c n : ℕ) (r : Bytes) (a c' n' : ℕ) (r' : Bytes) (a' : ℕ)
    → c < 2 ^ 64
    → n < 2 ^ 64
    → a < 2 ^ 128
    → c' < 2 ^ 64
    → n' < 2 ^ 64
    → a' < 2 ^ 128
    → Contract.build_release_message c n r a ≡ Contract.build_release_message c' n' r' a'
    → (c ≡ c') × (n ≡ n') × (r ≡ r') × (a ≡ a')
unfolding Contract.build_release_message
build_release_message-injective = wire-injective (codes "KNT_BRIDGE_RELEASE")

-- No mint message of the CosmWasm bridge is also a release message.
pub build_mint_message-ne-build_release_message :
    (c n : ℕ) (r : Bytes) (a c' n' : ℕ) (r' : Bytes) (a' : ℕ)
    → Contract.build_mint_message c n r a ≢ Contract.build_release_message c' n' r' a'
unfolding Contract.build_mint_message Contract.build_release_message
build_mint_message-ne-build_release_message c n r a c' n' r' a' = mint-ne-release _ _

-- The message of a mint does not name the token, so its authorization holds for any other.
swap_denom :
    (rt : Runtime) (s : Storage) (m : Inbound) (d message : Bytes)
    → Authorized rt s m message
    → Authorized rt s (record m { denom = d }) message
swap_denom rt s m d message a = record {
  config = a.config;
  loaded = a.loaded;
  live = a.live;
  fresh = a.fresh;
  signer = a.signer;
  signature = a.signature;
  sig_decoded = a.sig_decoded;
  pubkey = a.pubkey;
  pk_decoded = a.pk_decoded;
  verified = a.verified;
}

-- Where a mint of the CosmWasm bridge goes through, the same signature in its place also pays the
-- same amount of any other registered token that has no daily limit.
pub mint_bridged-denom_unbound :
    (rt : Runtime) (s : Storage) (now : ℕ) (m : Inbound) (t : Storage) (r : Response) (d : Bytes)
    (other : TokenConfig)
    → Contract.mint_bridged rt s now m ≡ ok (t, r)
    → s.token_configs d ≡ some other
    → other.daily_mint_limit ≡ 0
    → (t' : Storage) × (r' : Response) × (a : Bytes) × (Contract.mint_bridged rt s now
          (record m { denom = d })
        ≡ ok (t', r'))
      × (r'.messages ≡ BankMsg.send a (record { denom = d; amount = m.amount } ∷ []) ∷ [])
mint_bridged-denom_unbound rt s now m t r d other went registered unlimited =
    let p : Minted rt s now m t r = mint_bridged-Minted rt s now m t r went in
    (
      _,
      _,
      p.address,
      mint_bridged_complete rt s now (record m { denom = d }) other other p.address
          (swap_denom rt s m d _ p.authorized) registered
          (check_daily_limit-unlimited rt other m.amount now unlimited) p.valid,
      refl,
    )
