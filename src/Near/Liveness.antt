-- ===== src/Near/Liveness.antt =====
-- No one but the admin can keep a signed transfer of the NEAR bridge from going through.
use kinet_std.Shared.{
  ◌<◌, ◌≡◌, ◌⊎◌, inl, inr, refl, Bool, true, false, Option, some, List, All, ok, Bytes, bytes_eq,
  arith, Bool-cases, Result-cases, ◌∙◌,
}
use kinet_std.Spec.Run.{final, final_inv_of}
use kinet_std.Near.State.{BridgeEvent, Inbound, KntBridge, Outcome}
use kinet_std.Near.Contract
use kinet_std.Near.Inbound.{Authorized, key_of, mint_bridged-goes_through, processed}
use kinet_std.Near.Replay.{Transaction}
use kinet_std.Near.Books.{logging_step}
use kinet_std.Near.Rules.{dispatch-SameRules, SameRules}

-- A transaction of someone else than the admin.
abbrev pub IsStranger : KntBridge → Transaction → Type 0
IsStranger b x = bytes_eq x.context.predecessor b.admin ≡ false

-- The bridge stands, under the same rules.
abbrev Stands : KntBridge → Option KntBridge → Type 0
Stands b s = (t : KntBridge) × (s ≡ some t) × SameRules b t

module _ (verify : (signature message pubkey : Bytes) → Bool) (b : KntBridge) where
  logging_step-Stands :
      (s : Option KntBridge) (x : Transaction) (t : Option KntBridge) (es : List BridgeEvent)
      → IsStranger b x
      → logging_step verify s x ≡ some (t, es)
      → Stands b s
      → Stands b t
  unfolding logging_step Contract.run_call
  logging_step-Stands s x t es stranger h (a, here, same) =
      elim (Result-cases (Contract.dispatch verify a x.context x.call)) [
        | inl ((c, o), went) ↦
            let stored : t ≡ some c = ground arith in
            let outside : bytes_eq x.context.predecessor a.admin ≡ false =
              rw (same.admin) stranger in
            let rules : SameRules a c =
              dispatch-SameRules verify a x.context x.call c o outside went in
            (
              c,
              stored,
              record {
                admin = rules.admin ∙ same.admin;
                signers = rules.signers ∙ same.signers;
                threshold = rules.threshold ∙ same.threshold;
                fee = rules.fee ∙ same.fee;
                paused = rules.paused ∙ same.paused;
              },
            )
        | inr (e, failed) ↦ absurd (ground arith)
      ]

  -- Let a mint of the NEAR bridge be authorized and of an amount that is not 0. After any sequence
  -- of transactions of others than the admin, the bridge stands, and in it the nonce of the mint is
  -- used or the mint goes through: no one else can stop it but by using its nonce.
  pub near_mint-unstoppable :
      (m : Inbound) (transactions : List Transaction)
      → Authorized verify b m
          (Contract.build_mint_message m.source_chain_id m.nonce m.recipient m.amount)
      → 0 < m.amount
      → All (IsStranger b) transactions
      → (t : KntBridge) × (final (logging_step verify) (some b) transactions ≡ some t)
        × ((processed t (key_of m) ≡ true)
            ⊎ ((u : KntBridge) × (o : Outcome) × (Contract.mint_bridged verify t m ≡ ok (u, o))))
  near_mint-unstoppable m transactions a positive strangers =
      let start : Stands b (some b) = (
        b,
        refl,
        record { admin = refl; signers = refl; threshold = refl; fee = refl; paused = refl },
      ) in
      let (t, stands, same) =
        final_inv_of (logging_step verify) (Stands b) (IsStranger b) logging_step-Stands (some b)
          transactions strangers start in
      (
        t,
        stands,
        elim (Bool-cases (processed t (key_of m))) [
          | inl used ↦ inl used
          | inr fresh ↦ inr (
              mint_bridged-goes_through verify t m
                (record {
                  live = same.paused ∙ a.live;
                  key_length = a.key_length;
                  signer = rw (same.signers) a.signer;
                  fresh = fresh;
                  signature_length = a.signature_length;
                  signed = a.signed;
                })
                positive)
        ],
      )
