-- ===== src/Exceptions/Message.antt =====
-- The text of an Exception, `what` of include/Programmer/Exceptions.hpp and src/Exceptions.cpp, over
-- std::vformat as a parameter: the text is that of the parts that the model keeps.
use programmer.Prelude.{ℕ, List, [], ◌∷◌, ◌++◌, ◌≡◌, sym, ap, ◌∙◌}
use mathlib.Core.List.{append_assoc}
use programmer.Exceptions.{Part}

module _ (vformat : Part → List ℕ) where
  -- A constructor with a format, `append` and `prepend`, on `_message`; 32 is a space.
  unfoldable pub create : Part → List ℕ
  create p = vformat p

  unfoldable pub append : Part → List ℕ → List ℕ
  append p message = (message ++ 32 ∷ []) ++ vformat p

  unfoldable pub prepend : Part → List ℕ → List ℕ
  prepend p message = vformat p ++ (32 ∷ [] ++ message)

  -- The text of a first part and those after it.
  unfoldable pub what : Part → List Part → List ℕ
  what p [] = vformat p
  what p (q ∷ ps) = vformat p ++ (32 ∷ what q ps)

  -- A part at the end is one that `append` puts there.
  pub what-append : (p q : Part) (ps : List Part) → what q (ps ++ p ∷ []) ≡ append p (what q ps)
  unfolding what append
  what-append p q [] = sym (append_assoc (vformat q) (32 ∷ []) (vformat p))
  what-append p q (r ∷ ps) =
      ap (λ m. vformat q ++ (32 ∷ m)) (what-append p r ps)
      ∙ ap (λ m. vformat q ++ (32 ∷ m)) (append_assoc (what r ps) (32 ∷ []) (vformat p))
      ∙ sym (append_assoc (vformat q) (32 ∷ what r ps) (32 ∷ vformat p))
      ∙ sym (append_assoc (vformat q ++ (32 ∷ what r ps)) (32 ∷ []) (vformat p))
