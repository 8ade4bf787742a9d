-- ===== src/Spec/Answers.antt =====
-- What the calls of a run answer one by one, failures included.
use kinet_std.Shared.{List, [], ◌∷◌, Result, ok, err}

module _ {State Call E Out : Type 0} (run : State → Call → Result E (State × Out)) where
  -- What the calls of a run answer, and where it ends; a call that fails changes nothing.
  unfoldable pub answers : State → List Call → List (Result E Out)
  answers s [] = []
  answers s (c ∷ cs) = elim (run s c) [
    | ok (t, o) ↦ ok o ∷ answers t cs
    | err e ↦ err e ∷ answers s cs
  ]

  unfoldable pub end_of : State → List Call → State
  end_of s [] = s
  end_of s (c ∷ cs) = elim (run s c) [ ok (t, o) ↦ end_of t cs | err e ↦ end_of s cs ]
