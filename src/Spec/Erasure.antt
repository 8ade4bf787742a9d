-- ===== src/Spec/Erasure.antt =====
-- A part of a contract's state, or of its calls, that nothing depends on: with it erased, every run
-- gives the same answers.
use kinet_std.Shared.{◌≡◌, refl, ap, List, [], ◌∷◌, map, Result, ok, err, Result-cases, inl, inr}
use kinet_std.Spec.Answers.{answers, end_of}

module _ {A B E Out : Type 0} (f : A → B) where
  -- The outcome of a call, with the state after it put in another form.
  abbrev pub erased : Result E (A × Out) → Result E (B × Out)
  erased (ok (t, o)) = ok (f t, o)
  erased (err e) = err e

module _ {State Call E Out : Type 0} (run : State → Call → Result E (State × Out))
    (erase : State → State) (erase_call : Call → Call) where
  -- A call on an erased state answers as on the state.
  pub record Ignores : Type 0 where
    pub same_call : (s : State) (c : Call) → run (erase s) (erase_call c) ≡ erased erase (run s c)

module _ {State Call E Out : Type 0} {run : State → Call → Result E (State × Out)}
    {erase : State → State} {erase_call : Call → Call}
    (ignores : Ignores run erase erase_call) where
  pub answers-erased :
      (s : State) (cs : List Call)
      → (answers run (erase s) (map erase_call cs) ≡ answers run s cs)
        × (end_of run (erase s) (map erase_call cs) ≡ erase (end_of run s cs))
  unfolding answers end_of
  answers-erased s [] = (refl, refl)
  answers-erased s (c ∷ cs) = elim (Result-cases (run s c)) [
    | inl ((t, o), went) ↦
        let rest = answers-erased t cs in
        rw (ignores.same_call s c, went, erased, answers, end_of)
          (ap (λ rs. ok o ∷ rs) rest.0, rest.1)
    | inr (e, failed) ↦
        let rest = answers-erased s cs in
        rw (ignores.same_call s c, failed, erased, answers, end_of)
          (ap (λ rs. err e ∷ rs) rest.0, rest.1)
  ]
