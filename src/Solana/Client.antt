-- ===== src/Solana/Client.antt =====
-- buildBridgeMessage and buildEd25519Ix of programs/solana-bridge/tests/bridge.ts, which build what a
-- relayer sends before a mint, against the checks of mint_bridged.rs.
use kinet_std.Shared.{
  ℕ, zero, suc, ◌+◌, ◌^◌, ◌<◌, ◌≡◌, ◌↔◌, refl, true, some, [], ◌∷◌, ◌++◌, Bytes, ◌>>=◌, ◌>>◌, ◌≤◌,
  bytes_eq_iff, bytes_eq_refl, codes, to_le_bytes, u16_at, length, length-append, take, drop, ok,
  arith, ap, sym, ◌∙◌,
}
use kinet_std.Solana.State.{Pubkey, Signers, is_authorized, BridgeConfig}
use kinet_std.Solana.Runtime.{Addresses, Instruction}
use kinet_std.Solana.Ed25519.{
  slice, mint_message, load_instruction, check_indices, check_content, verify_ed25519_signature,
}

-- The bytes of `prefix`, then the fields, one behind the other.
unfoldable pub build_bridge_message : Bytes → ℕ → ℕ → Pubkey → Pubkey → ℕ → Bytes
build_bridge_message prefix source_chain_id nonce recipient mint amount =
    prefix
    ++ (to_le_bytes 8 source_chain_id
        ++ (to_le_bytes 8 nonce ++ (recipient ++ (mint ++ to_le_bytes 8 amount))))

-- Offsets of the signature, of the key and of the message.
abbrev sig_offset : ℕ
sig_offset = 16

abbrev pk_offset : ℕ
pk_offset = sig_offset + 64

abbrev msg_offset : ℕ
msg_offset = pk_offset + 32

-- For a key of 32 bytes and a signature of 64; a message of more than 65535 bytes is an exception
-- of `writeUInt16LE`.
unfoldable pub build_ed25519_ix : Addresses → (pubkey message signature : Bytes) → Instruction
build_ed25519_ix at pubkey message signature = record {
  program_id = at.ed25519_program;
  data' =
      (1 ∷ 0 ∷ [])
      ++ (to_le_bytes 2 sig_offset
          ++ (to_le_bytes 2 0xFFFF
              ++ (to_le_bytes 2 pk_offset
                  ++ (to_le_bytes 2 0xFFFF
                      ++ (to_le_bytes 2 msg_offset
                          ++ (to_le_bytes 2 (length message)
                              ++ (to_le_bytes 2 0xFFFF ++ (signature ++ (pubkey ++ message)))))))));
}

-- Past the first part, a drop goes on in the second.
drop-append : (n m : ℕ) (xs ys : Bytes) → length xs ≡ n → drop (n + m) (xs ++ ys) ≡ drop m ys
drop-append zero m [] ys e = let same : 0 + m ≡ m = omega arith in ap (λ k. drop k ys) same
drop-append (suc n) m [] ys e = absurd (omega arith)
drop-append zero m (x ∷ xs) ys e = absurd (omega arith)
drop-append (suc n) m (x ∷ xs) ys e =
    let same : suc n + m ≡ suc (n + m) = omega arith in
    ap (λ k. drop k (x ∷ (xs ++ ys))) same ∙ drop-append n m xs ys (omega arith)

take-append : (n : ℕ) (xs ys : Bytes) → length xs ≡ n → take n (xs ++ ys) ≡ xs
take-append zero [] ys e = refl
take-append (suc n) [] ys e = absurd (omega arith)
take-append zero (x ∷ xs) ys e = absurd (omega arith)
take-append (suc n) (x ∷ xs) ys e = ap (λ zs. x ∷ zs) (take-append n xs ys (omega arith))

take-length : (xs : Bytes) → take (length xs) xs ≡ xs
take-length [] = refl
take-length (x ∷ xs) = ap (λ zs. x ∷ zs) (take-length xs)

-- The check of a key and a message that stand where the offsets say.
check_content-found :
    (bytes key message : Bytes) (signers : Signers) (expected : Bytes)
    → u16_at bytes 6 + 32 ≤ length bytes
    → slice bytes (u16_at bytes 6) 32 ≡ key
    → u16_at bytes 10 + u16_at bytes 12 ≤ length bytes
    → slice bytes (u16_at bytes 10) (u16_at bytes 12) ≡ message
    → (check_content bytes signers expected ≡ ok tt)
      ↔ ((is_authorized signers key ≡ true) × (message ≡ expected))
unfolding check_content
check_content-found bytes key message signers expected key_in key_at text_in text_at =
    let same = bytes_eq_iff (slice bytes (u16_at bytes 10) (u16_at bytes 12)) expected in
    (
      λ h. (ground arith, sym text_at ∙ same.0 (ground arith)),
      λ (listed, e). ground (arith, same.1 (text_at ∙ e)),
    )

module _ (at : Addresses) (pubkey message signature : Bytes) (key_32 : length pubkey ≡ 32)
    (signature_64 : length signature ≡ 64) (small : length message < 2 ^ 16) where
  abbrev built : Bytes
  built = (build_ed25519_ix at pubkey message signature).data'

  built-key : slice built (u16_at built 6) 32 ≡ pubkey
  unfolding build_ed25519_ix to_le_bytes u16_at
  built-key =
      ap (take 32) (drop-append 64 0 signature (pubkey ++ message) signature_64)
      ∙ take-append 32 pubkey message key_32

  built-message_size : u16_at built 12 ≡ length message
  unfolding build_ed25519_ix to_le_bytes u16_at
  built-message_size = omega arith

  drop-built : drop 112 built ≡ message
  unfolding build_ed25519_ix to_le_bytes
  drop-built =
      drop-append 64 32 signature (pubkey ++ message) signature_64
      ∙ drop-append 32 0 pubkey message key_32

  built-message : slice built (u16_at built 10) (u16_at built 12) ≡ message
  unfolding build_ed25519_ix to_le_bytes u16_at
  built-message =
      ap (λ n. slice built 112 n) built-message_size
      ∙ ap (take (length message)) drop-built
      ∙ take-length message

  length-built : length built ≡ 112 + length message
  unfolding build_ed25519_ix to_le_bytes
  length-built =
      omega (arith, length-append signature (pubkey ++ message), length-append pubkey message)

  built-loaded :
      load_instruction at (some (build_ed25519_ix at pubkey message signature)) ≡ ok built
  unfolding load_instruction build_ed25519_ix
  built-loaded = ground (arith, bytes_eq_refl at.ed25519_program, length-built)

  built-own : check_indices built ≡ ok tt
  unfolding check_indices build_ed25519_ix to_le_bytes u16_at
  built-own = refl

  built-key_offset : u16_at built 6 ≡ 80
  unfolding build_ed25519_ix to_le_bytes u16_at
  built-key_offset = refl

  built-message_offset : u16_at built 10 ≡ 112
  unfolding build_ed25519_ix to_le_bytes u16_at
  built-message_offset = refl

  built-content :
      (signers : Signers) (expected : Bytes)
      → (check_content built signers expected ≡ ok tt)
        ↔ ((is_authorized signers pubkey ≡ true) × (message ≡ expected))
  built-content signers expected =
      check_content-found built pubkey message signers expected
        (omega (arith, length-built, built-key_offset)) built-key
        (omega (arith, length-built, built-message_offset, built-message_size)) built-message

  -- What the client builds for a key, a message and a signature of their lengths passes the check of a
  -- mint exactly when the key is a configured signer's and the message is that of the mint's source
  -- chain, nonce, recipient, token and amount.
  pub build_ed25519_ix-verify_ed25519_signature :
      (config : BridgeConfig) (source_chain_id nonce : ℕ) (recipient mint : Pubkey) (amount : ℕ)
      → (verify_ed25519_signature at
            (some (build_ed25519_ix at pubkey message signature))
            config
            source_chain_id
            nonce
            recipient
            mint
            amount
          ≡ ok tt)
        ↔ ((is_authorized config.mpc_signers pubkey ≡ true)
            × (message
                ≡ build_bridge_message
                    (codes "KNT_BRIDGE_MINT")
                    source_chain_id
                    nonce
                    recipient
                    mint
                    amount))
  unfolding verify_ed25519_signature build_bridge_message mint_message
  build_ed25519_ix-verify_ed25519_signature config s n r m v =
      rw (built-loaded, ◌>>=◌, built-own, ◌>>◌)
        (built-content config.mpc_signers (mint_message s n r m v))
