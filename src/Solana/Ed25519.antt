-- ===== src/Solana/Ed25519.antt =====
-- The checks of the Ed25519 instruction before this one: verify_ed25519_signature of
-- mint_bridged.rs, verify_release_signature of release.rs, and verify_propose_signers_signature of
-- admin.rs.
use kinet_std.Shared.{
  ℕ, ◌+◌, Option, [], ◌∷◌, ◌++◌, Bytes, codes, bytes_eq, to_le_bytes, u16_at, Result, ok, ◌>>=◌,
  ◌>>◌, require, ok_or, leb, ◌==◌, length, get_or, take, drop,
}
use kinet_std.Solana.State.{Pubkey, Fault, Signers, is_authorized, BridgeConfig}
use kinet_std.Solana.Runtime.{Instruction, Addresses}

-- `data[offset..offset + size]`
abbrev pub slice : Bytes → ℕ → ℕ → Bytes
slice bytes offset size = take size (drop offset bytes)

unfoldable pub mint_message : ℕ → ℕ → Pubkey → Pubkey → ℕ → Bytes
mint_message source_chain_id nonce recipient mint amount =
    codes "KNT_BRIDGE_MINT"
    ++ (to_le_bytes 8 source_chain_id
        ++ (to_le_bytes 8 nonce ++ (recipient ++ (mint ++ to_le_bytes 8 amount))))

unfoldable pub release_message : ℕ → ℕ → Pubkey → Pubkey → ℕ → Bytes
release_message source_chain_id nonce recipient mint amount =
    codes "KNT_BRIDGE_RELEASE"
    ++ (to_le_bytes 8 source_chain_id
        ++ (to_le_bytes 8 nonce ++ (recipient ++ (mint ++ to_le_bytes 8 amount))))

unfoldable pub propose_message : Signers → ℕ → Bytes
propose_message s threshold =
    codes "KNT_BRIDGE_PROPOSE" ++ (s.first ++ (s.second ++ (s.third ++ (threshold ∷ []))))

module _ (at : Addresses) where
  -- The instruction before this one, which must be the Ed25519 program's and long enough.
  unfoldable pub load_instruction : Option Instruction → Result Fault Bytes
  load_instruction previous = do
    ix ← ok_or previous Fault.ed25519_instruction_missing
    require (bytes_eq ix.program_id at.ed25519_program) Fault.ed25519_instruction_missing
    require (leb (16 + 64 + 32) (length ix.data')) Fault.ed25519_verification_failed
    ok ix.data'

-- At least one signature, and its three parts in this very instruction.
unfoldable pub check_indices : Bytes → Result Fault (Unit {0})
check_indices bytes = do
  require (leb 1 (get_or bytes 0 0)) Fault.ed25519_verification_failed
  require (u16_at bytes 4 == 0xFFFF) Fault.ed25519_verification_failed
  require (u16_at bytes 8 == 0xFFFF) Fault.ed25519_verification_failed
  require (u16_at bytes 14 == 0xFFFF) Fault.ed25519_verification_failed

-- The key is one of the signers, and the message is the expected one.
unfoldable pub check_content : Bytes → Signers → Bytes → Result Fault (Unit {0})
check_content bytes signers message = do
  let pk_offset = u16_at bytes 6
  require (leb (pk_offset + 32) (length bytes)) Fault.ed25519_verification_failed
  require (is_authorized signers (slice bytes pk_offset 32)) Fault.unauthorized_signer
  let msg_offset = u16_at bytes 10
  let msg_size = u16_at bytes 12
  require (leb (msg_offset + msg_size) (length bytes)) Fault.ed25519_verification_failed
  require (bytes_eq (slice bytes msg_offset msg_size) message) Fault.ed25519_verification_failed

module _ (at : Addresses) (previous : Option Instruction) (config : BridgeConfig) where
  unfoldable pub verify_ed25519_signature : ℕ → ℕ → Pubkey → Pubkey → ℕ → Result Fault (Unit {0})
  verify_ed25519_signature source_chain_id nonce recipient mint amount = do
    bytes ← load_instruction at previous
    check_indices bytes
    check_content bytes config.mpc_signers
        (mint_message source_chain_id nonce recipient mint amount)

  -- `check_indices` has no counterpart here: the source does not look at those fields.
  unfoldable pub verify_release_signature : ℕ → ℕ → Pubkey → Pubkey → ℕ → Result Fault (Unit {0})
  verify_release_signature source_chain_id nonce recipient mint amount = do
    bytes ← load_instruction at previous
    check_content bytes config.mpc_signers
        (release_message source_chain_id nonce recipient mint amount)

  unfoldable pub verify_propose_signers_signature : Signers → ℕ → Bytes → Result Fault (Unit {0})
  verify_propose_signers_signature new_signers threshold message = do
    require (bytes_eq message (propose_message new_signers threshold))
        Fault.ed25519_verification_failed
    bytes ← load_instruction at previous
    check_indices bytes
    check_content bytes config.mpc_signers (propose_message new_signers threshold)
