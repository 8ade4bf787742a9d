-- ===== src/Solana/Metered.antt =====
-- The daily limit of a token over runs of the whole Solana bridge.
use kinet_std.Shared.{
  ℕ, ◌+◌, ◌≤◌, ◌<◌, ◌≡◌, ◌⊎◌, inl, inr, refl, true, false, Option, some, none, everywhere-All, List,
  [], ◌∷◌, ok, err, arith, bytes_eq, bytes_eq_sound, bytes_eq_refl, sym, ◌∙◌, ap, if◌then◌else◌,
  Result-cases, Bool-cases,
}
use kinet_std.Shared.Int.{ℤ}
use kinet_std.Spec.Run.{logged, sum_of}
use kinet_std.Spec.Metered.{Metered, run-day, WithinDay}
use kinet_std.Solana.State.{check_daily_limit, Event, Pubkey, TokenConfig}
use kinet_std.Solana.Runtime.{Spl, Addresses, Accounts}
use kinet_std.Solana.Admin
use kinet_std.Solana.Transfers
use kinet_std.Solana.Transfers.{MintBridged}
use kinet_std.Solana.Accepted.{Accepted, mint_bridged-Accepted}
use kinet_std.Solana.LimitLaws.{AnyTime, limit_quota, limit_step, meter}
use kinet_std.Solana.Program
use kinet_std.Solana.Program.{Call}
use kinet_std.Solana.Replay.{found_by, Transaction}

-- A token's account stands at the address that its mint gives.
abbrev pub IsKeyed : {spl : Spl} → Accounts spl → Type 0
IsKeyed a = (m : Pubkey) (t : TokenConfig) → a.tokens m ≡ some t → t.mint ≡ m

-- What an event reports as minted of a token.
unfoldable pub minted_of : Pubkey → Event → ℕ
minted_of m (Event.mint s n t r v w) = if bytes_eq t m then v else 0
minted_of m _ = 0

abbrev pub log_of : Option Event → List Event
log_of none = []
log_of (some e) = e ∷ []

check_daily_limit-mint :
    (t u : TokenConfig) (amount : ℕ) (now : ℤ)
    → check_daily_limit t amount now ≡ ok u
    → u.mint ≡ t.mint
unfolding check_daily_limit
check_daily_limit-mint t u amount now h = ground arith

module _ {spl : Spl} (at : Addresses) where
  -- A transaction that goes through, with its event.
  unfoldable pub event_step : Accounts spl → Transaction spl → Option (Accounts spl × List Event)
  event_step a x = elim (Program.run_call at (found_by a x) x.signer x.now x.call) [
    | ok (b, e) ↦ some (b, log_of e)
    | err f ↦ none
  ]

  module _ (m : Pubkey) (a : Accounts spl) (now : ℤ) (t : TokenConfig) (keyed : IsKeyed a)
      (here : a.tokens m ≡ some t) where
    -- What a call does to the account of the token `m`.
    abbrev Effect : Accounts spl → List Event → Type 0
    Effect b es =
        ((b.tokens m ≡ some t) × (sum_of (minted_of m) es ≡ 0))
        ⊎ ((u : TokenConfig) × (b.tokens m ≡ some u)
            × (limit_step t now (sum_of (minted_of m) es) ≡ some u))

    -- The account that a mint charges, if it is the one of `m`.
    mint_bridged-charged :
        (x : MintBridged) (b : Accounts spl) (e : Event) (p : Accepted at a now x b e)
        → x.mint ≡ m
        → (p.token ≡ t) × (b.tokens m ≡ some p.charged) × (sum_of (minted_of m) (e ∷ []) ≡ x.amount)
    unfolding minted_of sum_of
    mint_bridged-charged x b e p same =
        let found : some p.token ≡ some t = sym p.registered ∙ ap a.tokens same ∙ here in
        let mint_is : p.token.mint ≡ m = keyed x.mint p.token p.registered ∙ same in
        let matches : bytes_eq x.mint m ≡ true = rw same (bytes_eq_refl m) in
        let names : bytes_eq p.token.mint m ≡ true = rw mint_is (bytes_eq_refl m) in
        (
          cc,
          ground (arith, p.accounts_after, matches),
          rw (p.event, minted_of, names) (omega arith),
        )

    mint_bridged-quiet :
        (x : MintBridged) (b : Accounts spl) (e : Event) (p : Accepted at a now x b e)
        → bytes_eq x.mint m ≡ false
        → (b.tokens m ≡ some t) × (sum_of (minted_of m) (e ∷ []) ≡ 0)
    unfolding minted_of sum_of
    mint_bridged-quiet x b e p other =
        let names : bytes_eq p.token.mint m ≡ false =
          rw (keyed x.mint p.token p.registered) other in
        (ground (arith, p.accounts_after, other, here), rw (p.event, minted_of, names) refl)

    mint_bridged-Effect :
        (x : MintBridged) (b : Accounts spl) (e : Event)
        → Transfers.mint_bridged at a now x ≡ ok (b, e)
        → Effect b (e ∷ [])
    unfolding limit_step
    mint_bridged-Effect x b e h =
        let p = mint_bridged-Accepted at a now x b e h in
        elim (Bool-cases (bytes_eq x.mint m)) [
          | inl same ↦
              let (token_is, stored, amount_is) =
                mint_bridged-charged x b e p (bytes_eq_sound x.mint m same) in
              inr (p.charged, stored, rw (amount_is, ← token_is, p.limited) refl)
          | inr other ↦ inl (mint_bridged-quiet x b e p other)
        ]

    run_call-Effect :
        (signer : Pubkey) (c : Call) (b : Accounts spl) (e : Option Event)
        → Program.run_call at a signer now c ≡ ok (b, e)
        → Effect b (log_of e)
    unfolding Program.run_call
    run_call-Effect signer (Call.mint_bridged x) b e h =
        elim (Result-cases (Transfers.mint_bridged at a now x)) [
          | inl ((b', v), went) ↦
              let same_accounts : b' ≡ b = ground arith in
              let same_event : some v ≡ e = ground arith in
              rw (← same_accounts, ← same_event) (mint_bridged-Effect x b' v went)
          | inr (f, failed) ↦ absurd (ground arith)
        ]
    run_call-Effect signer (Call.register_token n w k l) b e h = elim (Bool-cases (bytes_eq n m)) [
      | inl same ↦
          let exists : a.tokens n ≡ some t = ap a.tokens (bytes_eq_sound n m same) ∙ here in
          absurd (unfold Admin.register_token in ground (arith, exists))
      | inr other ↦
          unfold Admin.register_token sum_of in inl (ground (arith, other, here), ground arith)
    ]
    run_call-Effect signer c b e h =
        unfold Admin.initialize Admin.pause Admin.unpause Admin.propose_signers
          Admin.execute_signers Admin.cancel_signers Admin.update_fee Admin.set_rotation_delay
          Transfers.lock_and_bridge Transfers.burn_bridged Transfers.release sum_of minted_of in
        inl (ground (arith, here), ground arith)

  run_call-IsKeyed :
      (a : Accounts spl) (signer : Pubkey) (now : ℤ) (c : Call) (b : Accounts spl)
      (e : Option Event)
      → IsKeyed a
      → Program.run_call at a signer now c ≡ ok (b, e)
      → IsKeyed b
  unfolding Program.run_call
  run_call-IsKeyed a signer now (Call.mint_bridged x) b e keyed h m u found =
      elim (Result-cases (Transfers.mint_bridged at a now x)) [
        | inl ((b', v), went) ↦
            let p = mint_bridged-Accepted at a now x b' v went in
            elim (Bool-cases (bytes_eq x.mint m)) [
              | inl same ↦
                  let charged : p.charged ≡ u = ground (arith, p.accounts_after) in
                  ap (λ w. w.mint) (sym charged)
                  ∙ check_daily_limit-mint p.token p.charged x.amount now p.limited
                  ∙ keyed x.mint p.token p.registered
                  ∙ bytes_eq_sound x.mint m same
              | inr other ↦ keyed m u (ground (arith, p.accounts_after))
            ]
        | inr (f, failed) ↦ absurd (ground arith)
      ]
  run_call-IsKeyed a signer now (Call.register_token n w k l) b e keyed h m u found =
      elim (Bool-cases (bytes_eq n m)) [
        | inl same ↦
            let n_is : n ≡ m = bytes_eq_sound n m same in
            let u_is : u.mint ≡ n = unfold Admin.register_token in ground arith in u_is ∙ n_is
        | inr other ↦ keyed m u (unfold Admin.register_token in ground arith)
      ]
  run_call-IsKeyed a signer now c b e keyed h m u found = keyed m u (
      unfold Admin.initialize Admin.pause Admin.unpause Admin.propose_signers Admin.execute_signers
        Admin.cancel_signers Admin.update_fee Admin.set_rotation_delay Transfers.lock_and_bridge
        Transfers.burn_bridged Transfers.release in
      ground arith)

  event_step-went :
      (a : Accounts spl) (x : Transaction spl) (b : Accounts spl) (es : List Event)
      → event_step a x ≡ some (b, es)
      → (e : Option Event) × (es ≡ log_of e)
        × (Program.run_call at (found_by a x) x.signer x.now x.call ≡ ok (b, e))
  unfolding event_step
  event_step-went a x b es h =
      elim (Result-cases (Program.run_call at (found_by a x) x.signer x.now x.call)) [
        | inl ((b', e), went) ↦ (e, ground arith, ground arith)
        | inr (f, failed) ↦ absurd (ground arith)
      ]

  metered :
      (m : Pubkey)
      → Metered event_step
          (λ a. a.tokens m)
          limit_step
          (λ x. x.now)
          (minted_of m)
          IsKeyed
          (λ x. Unit {0})
  metered m = record {
    stays = λ a x b es keyed h.
        let (e, log, went) = event_step-went a x b es h in
        run_call-IsKeyed (found_by a x) x.signer x.now x.call b e keyed went;
    charges = λ a x b es t keyed allowed h here.
        let (e, log, went) = event_step-went a x b es h in
        rw log (run_call-Effect m (found_by a x) x.now t keyed here x.signer x.call b e went);
  }

  -- Let the token account of a mint on the Solana bridge have a limit that is not 0 and that its
  -- period keeps, and let every token account stand at its mint's address. Over any sequence of
  -- transactions that all stand within 86400 seconds, those of the admin included, the amounts of the
  -- mints of the token that are logged add up to at most twice its limit, less what the period had
  -- used already.
  pub solana_run-minted_per_day :
      (m : Pubkey) (a : Accounts spl) (t : TokenConfig) (from : ℤ)
      (transactions : List (Transaction spl))
      → IsKeyed a
      → a.tokens m ≡ some t
      → 0 < t.daily_mint_limit
      → t.daily_minted ≤ t.daily_mint_limit
      → WithinDay (λ x. x.now) AnyTime from transactions
      → t.daily_minted + sum_of (minted_of m) (logged event_step a transactions)
        ≤ t.daily_mint_limit + t.daily_mint_limit
  solana_run-minted_per_day m a t from transactions keyed here positive fits within =
      run-day (metered m) meter AnyTime limit_quota from a transactions t keyed here positive fits
        tt (everywhere-All _ (λ x. tt) transactions) within
