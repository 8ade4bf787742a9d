-- ===== src/Solana/Messages.antt =====
-- What one Ed25519 instruction can say to the Solana bridge: the messages of mint_bridged.rs and
-- release.rs, and the mints and releases that it may stand before.
use kinet_std.Shared.{
  ℕ, ◌≡◌, ◌<◌, ◌^◌, sym, ap, ◌∙◌, Option, some, none, ◌++◌, Bytes, codes, ok, arith, length, u16_at,
  to_le_bytes, length-to_le_bytes, to_le_bytes-injective, append-injective_left,
  append-injective_right, mint-ne-release, bytes_eq_sound, Option-cases, Result, Result-cases, inl,
  inr,
}
use mathlib.Core.List.{append_cancel_left}
use kinet_std.Shared.Int.{ℤ, pos}
use kinet_std.Solana.State.{Pubkey, Event, Fault, BridgeConfig}
use kinet_std.Solana.Runtime.{Spl, Addresses, Accounts, Instruction}
use kinet_std.Solana.Ed25519.{
  slice, load_instruction, check_content, mint_message, release_message, verify_ed25519_signature,
  verify_release_signature,
}
use kinet_std.Solana.Transfers
use kinet_std.Solana.Transfers.{MintBridged, Release}

-- The ranges of the types of the four signed arguments.
pub record InRange (chain nonce : ℕ) (recipient : Pubkey) (amount : ℕ) : Type 0 where
  pub chain_u64 : chain < 2 ^ 64
  pub nonce_u64 : nonce < 2 ^ 64
  pub recipient_32 : length recipient ≡ 32
  pub amount_u64 : amount < 2 ^ 64

-- Under one tag, equal bytes say the same.
signed-injective :
    (tag : Bytes) (c n : ℕ) (r m : Pubkey) (v c' n' : ℕ) (r' m' : Pubkey) (v' : ℕ)
    → InRange c n r v
    → InRange c' n' r' v'
    → tag ++ (to_le_bytes 8 c ++ (to_le_bytes 8 n ++ (r ++ (m ++ to_le_bytes 8 v))))
      ≡ tag ++ (to_le_bytes 8 c' ++ (to_le_bytes 8 n' ++ (r' ++ (m' ++ to_le_bytes 8 v'))))
    → (c ≡ c') × (n ≡ n') × (r ≡ r') × (m ≡ m') × (v ≡ v')
signed-injective tag c n r m v c' n' r' m' v' p q e =
    let (chains, e₁) =
      append-injective_left (to_le_bytes 8 c) (to_le_bytes 8 c')
        (omega (arith, length-to_le_bytes 8 c, length-to_le_bytes 8 c'))
        (append_cancel_left tag _ _ e) in
    let (nonces, e₂) =
      append-injective_left (to_le_bytes 8 n) (to_le_bytes 8 n')
        (omega (arith, length-to_le_bytes 8 n, length-to_le_bytes 8 n')) e₁ in
    let (recipients, e₃) = append-injective_left r r' (p.recipient_32 ∙ sym q.recipient_32) e₂ in
    let (mints, amounts) =
      append-injective_right m m' (omega (arith, length-to_le_bytes 8 v, length-to_le_bytes 8 v'))
        e₃ in
    (
      to_le_bytes-injective 8 c c' p.chain_u64 q.chain_u64 chains,
      to_le_bytes-injective 8 n n' p.nonce_u64 q.nonce_u64 nonces,
      recipients,
      mints,
      to_le_bytes-injective 8 v v' p.amount_u64 q.amount_u64 amounts,
    )

-- The message that the instruction before this one names.
abbrev named_message : Option Instruction → Option Bytes
named_message none = none
named_message (some ix) = some (slice ix.data' (u16_at ix.data' 10) (u16_at ix.data' 12))

-- An event without its time.
abbrev pub untimed : Event → Event
untimed (Event.lock s d n m u r v f t) = Event.lock s d n m u r v f (pos 0)
untimed (Event.mint s n m r v t) = Event.mint s n m r v (pos 0)
untimed (Event.burn s d n m u r v t) = Event.burn s d n m u r v (pos 0)
untimed (Event.release s n m r v t) = Event.release s n m r v (pos 0)

-- The two calls that need a signature of the signers.
pub data Inbound : Type 0 where
  mint : MintBridged → Inbound
  release : Release → Inbound

abbrev pub previous_of : Inbound → Option Instruction
previous_of (Inbound.mint x) = x.previous
previous_of (Inbound.release x) = x.previous

abbrev pub CallInRange : Inbound → Type 0
CallInRange (Inbound.mint x) = InRange x.source_chain_id x.nonce x.recipient x.amount
CallInRange (Inbound.release x) = InRange x.source_chain_id x.nonce x.recipient x.amount

abbrev pub accept :
    {spl : Spl} → Addresses → Accounts spl → ℤ → Inbound → Result Fault (Accounts spl × Event)
accept at a now (Inbound.mint x) = Transfers.mint_bridged at a now x
accept at a now (Inbound.release x) = Transfers.release at a now x

-- The message that a call of the given token needs signed, and the event that it emits.
abbrev signed_message : Inbound → Pubkey → Bytes
signed_message (Inbound.mint x) token =
    mint_message x.source_chain_id x.nonce x.recipient token x.amount
signed_message (Inbound.release x) token =
    release_message x.source_chain_id x.nonce x.recipient token x.amount

abbrev event_of : Inbound → Pubkey → ℤ → Event
event_of (Inbound.mint x) token now =
    Event.mint x.source_chain_id x.nonce token x.recipient x.amount now
event_of (Inbound.release x) token now =
    Event.release x.source_chain_id x.nonce token x.recipient x.amount now

module _ (at : Addresses) (previous : Option Instruction) (c : BridgeConfig) where
  loaded-named :
      (bytes message : Bytes)
      → load_instruction at previous ≡ ok bytes
      → check_content bytes c.mpc_signers message ≡ ok tt
      → named_message previous ≡ some message
  unfolding load_instruction check_content
  loaded-named bytes message loaded passed = elim (Option-cases previous) [
    | inl missing ↦ absurd (ground arith)
    | inr (ix, found) ↦
        let same : ix.data' ≡ bytes = ground arith in
        let text = bytes_eq_sound (slice bytes (u16_at bytes 10) (u16_at bytes 12)) message in
        ground (arith, text)
  ]

  mint-named :
      (s n : ℕ) (r m : Pubkey) (v : ℕ)
      → verify_ed25519_signature at previous c s n r m v ≡ ok tt
      → named_message previous ≡ some (mint_message s n r m v)
  unfolding verify_ed25519_signature
  mint-named s n r m v h = elim (Result-cases (load_instruction at previous)) [
    | inr (f, failed) ↦ absurd (ground arith)
    | inl (bytes, loaded) ↦ loaded-named bytes (mint_message s n r m v) loaded (ground arith)
  ]

  release-named :
      (s n : ℕ) (r m : Pubkey) (v : ℕ)
      → verify_release_signature at previous c s n r m v ≡ ok tt
      → named_message previous ≡ some (release_message s n r m v)
  unfolding verify_release_signature
  release-named s n r m v h = elim (Result-cases (load_instruction at previous)) [
    | inr (f, failed) ↦ absurd (ground arith)
    | inl (bytes, loaded) ↦ loaded-named bytes (release_message s n r m v) loaded (ground arith)
  ]

module _ {spl : Spl} (at : Addresses) where
  -- A call that went through names its signed message before it and announces it.
  accept-named :
      (a : Accounts spl) (now : ℤ) (i : Inbound) (b : Accounts spl) (e : Event)
      → accept at a now i ≡ ok (b, e)
      → (token : Pubkey) × (e ≡ event_of i token now)
        × (named_message (previous_of i) ≡ some (signed_message i token))
  unfolding Transfers.mint_bridged Transfers.release Transfers.live_config Transfers.active_token
  accept-named a now (Inbound.mint x) b e h = elim (Option-cases a.config) [
    | inl missing ↦ absurd (ground arith)
    | inr (c, configured) ↦ elim (Option-cases (a.tokens x.mint)) [
      | inl unknown ↦ absurd (ground arith)
      | inr (t, registered) ↦ (
        t.mint,
        ground arith,
        mint-named at x.previous c x.source_chain_id x.nonce x.recipient t.mint x.amount
            (ground arith),
      )
    ]
  ]
  accept-named a now (Inbound.release x) b e h = elim (Option-cases a.config) [
    | inl missing ↦ absurd (ground arith)
    | inr (c, configured) ↦ elim (Option-cases (a.tokens x.mint)) [
      | inl unknown ↦ absurd (ground arith)
      | inr (t, registered) ↦ (
        t.mint,
        ground arith,
        release-named at x.previous c x.source_chain_id x.nonce x.recipient t.mint x.amount
            (ground arith),
      )
    ]
  ]

signed_message-one_event :
    (i j : Inbound) (t u : Pubkey) (now later : ℤ)
    → CallInRange i
    → CallInRange j
    → signed_message i t ≡ signed_message j u
    → untimed (event_of i t now) ≡ untimed (event_of j u later)
unfolding mint_message release_message
signed_message-one_event (Inbound.mint x) (Inbound.mint y) t u now later p q e =
    let (chains, nonces, recipients, tokens, amounts) =
      signed-injective (codes "KNT_BRIDGE_MINT") x.source_chain_id x.nonce x.recipient t x.amount
        y.source_chain_id y.nonce y.recipient u y.amount p q e in
    cc (chains, nonces, recipients, tokens, amounts)
signed_message-one_event (Inbound.mint x) (Inbound.release y) t u now later p q e =
    absurd (mint-ne-release _ _ e)
signed_message-one_event (Inbound.release x) (Inbound.mint y) t u now later p q e =
    absurd (mint-ne-release _ _ (sym e))
signed_message-one_event (Inbound.release x) (Inbound.release y) t u now later p q e =
    let (chains, nonces, recipients, tokens, amounts) =
      signed-injective (codes "KNT_BRIDGE_RELEASE") x.source_chain_id x.nonce x.recipient t x.amount
        y.source_chain_id y.nonce y.recipient u y.amount p q e in
    cc (chains, nonces, recipients, tokens, amounts)

module _ {spl : Spl} (at : Addresses) where
  -- If two calls of the Solana bridge that mint or release, with arguments in the ranges of their
  -- types, have the same Ed25519 instruction before them and both go through, whatever the accounts
  -- and the time of each, then their events agree but for the time: both mint or both release, the
  -- same amount of the same token from the same source chain and nonce to the same recipient.
  pub solana_one_meaning :
      (a c : Accounts spl) (now later : ℤ) (i j : Inbound) (b d : Accounts spl) (e f : Event)
      → CallInRange i
      → CallInRange j
      → previous_of i ≡ previous_of j
      → accept at a now i ≡ ok (b, e)
      → accept at c later j ≡ ok (d, f)
      → untimed e ≡ untimed f
  solana_one_meaning a c now later i j b d e f p q same first second =
      let (t, said, named) = accept-named at a now i b e first in
      let (u, said', named') = accept-named at c later j d f second in
      let texts : signed_message i t ≡ signed_message j u = ground (arith, named, named', same) in
      ap untimed said
      ∙ signed_message-one_event i j t u now later p q texts
      ∙ sym (ap untimed said')
