-- ===== src/Solana/Indices.antt =====
-- The instruction indices of an Ed25519 instruction, which verify_release_signature of release.rs
-- does not read.
use kinet_std.Shared.{
  ℕ, zero, suc, ◌+◌, ◌-◌, ◌≤◌, ◌≡◌, refl, sym, ap, ◌∙◌, some, [], ◌∷◌, Bytes, arith, drop, take,
  length, u16_at, Option-cases, inl, inr,
}
use kinet_std.Shared.Int.{ℤ}
use kinet_std.Solana.State.{Pubkey, Signers, BridgeConfig}
use kinet_std.Solana.Runtime.{Spl, Addresses, Accounts, Instruction}
use kinet_std.Solana.Ed25519.{
  slice, load_instruction, check_content, release_message, verify_release_signature,
}
use kinet_std.Solana.Transfers
use kinet_std.Solana.Transfers.{Release}

-- Two instructions that differ at most in the bytes 0 to 5, 8, 9, 14 and 15: the count of
-- signatures, the offset of the signature and the three instruction indices. The key and the
-- message stand behind these 16 bytes.
pub record SameContent (i j : Instruction) : Type 0 where
  pub program : i.program_id ≡ j.program_id
  pub size : length i.data' ≡ length j.data'
  pub key_offset : u16_at i.data' 6 ≡ u16_at j.data' 6
  pub message_offset : u16_at i.data' 10 ≡ u16_at j.data' 10
  pub message_size : u16_at i.data' 12 ≡ u16_at j.data' 12
  pub rest : drop 16 i.data' ≡ drop 16 j.data'
  pub key_behind : 16 ≤ u16_at i.data' 6
  pub message_behind : 16 ≤ u16_at i.data' 10

drop-nil : (n : ℕ) → drop {A = ℕ} n [] ≡ []
drop-nil zero = refl
drop-nil (suc n) = refl

drop-add : (m n : ℕ) (xs : Bytes) → drop (m + n) xs ≡ drop n (drop m xs)
drop-add zero n xs = let same : 0 + n ≡ n = omega arith in ap (λ k. drop k xs) same
drop-add (suc m) n [] = drop-nil (suc m + n) ∙ sym (drop-nil n)
drop-add (suc m) n (x ∷ xs) =
    let same : suc m + n ≡ suc (m + n) = omega arith in
    ap (λ k. drop k (x ∷ xs)) same ∙ drop-add m n xs

same_slice :
    (xs ys : Bytes) (offset size : ℕ)
    → drop 16 xs ≡ drop 16 ys
    → 16 ≤ offset
    → slice xs offset size ≡ slice ys offset size
same_slice xs ys offset size e h =
    let split : 16 + (offset - 16) ≡ offset = omega arith in
    ap (take size) (
      ap (λ n. drop n xs) (sym split)
      ∙ drop-add 16 (offset - 16) xs
      ∙ ap (drop (offset - 16)) e
      ∙ sym (drop-add 16 (offset - 16) ys)
      ∙ ap (λ n. drop n ys) split)

check_content-same :
    (i j : Instruction) (signers : Signers) (message : Bytes)
    → SameContent i j
    → check_content i.data' signers message ≡ check_content j.data' signers message
unfolding check_content
check_content-same i j signers message s = ground (
  arith,
  s.size,
  s.key_offset,
  s.message_offset,
  s.message_size,
  same_slice i.data' j.data' (u16_at i.data' 6) 32 s.rest s.key_behind,
  same_slice i.data' j.data' (u16_at i.data' 10) (u16_at i.data' 12) s.rest s.message_behind,
)

verify_release_signature-same :
    (at : Addresses) (i j : Instruction) (c : BridgeConfig) (s n : ℕ) (r m : Pubkey) (v : ℕ)
    → SameContent i j
    → verify_release_signature at (some i) c s n r m v
      ≡ verify_release_signature at (some j) c s n r m v
unfolding verify_release_signature load_instruction
verify_release_signature-same at i j c s n r m v same = ground (
  arith,
  same.program,
  same.size,
  check_content-same i j c.mpc_signers (release_message s n r m v) same,
)

module _ {spl : Spl} (at : Addresses) where
  -- A release of the Solana bridge has the same outcome for two Ed25519 instructions with the same
  -- content, whatever their counts of signatures and instruction indices are: nothing makes sure
  -- that the chain verified the key and the message that the bridge reads.
  pub release-SameContent :
      (a : Accounts spl) (now : ℤ) (x : Release) (i j : Instruction)
      → SameContent i j
      → Transfers.release at a now (record x { previous = some i })
        ≡ Transfers.release at a now (record x { previous = some j })
  unfolding Transfers.release Transfers.live_config Transfers.active_token
  release-SameContent a now x i j s = elim (Option-cases a.config) [
    | inl missing ↦ ground arith
    | inr (c, configured) ↦ elim (Option-cases (a.tokens x.mint)) [
      | inl unknown ↦ ground arith
      | inr (t, registered) ↦
          let same =
            verify_release_signature-same at i j c x.source_chain_id x.nonce x.recipient t.mint
              x.amount s in
          ground (arith, configured, registered, same)
    ]
  ]
