-- ===== src/Prelude/Order.antt =====
-- Sublists: what of a sequence is left, in its order.
use mathlib.Core.Path.{refl}
use mathlib.Core.List.{List, [], ◌∷◌, ◌++◌, Sublistᴰ}
use mathlib.Core.List.Sublistᴰ.{slnil, cons, cons-cons}
use mathlib.Core.List.Sublistᴰ

module _ {ℓ} {A : Type ℓ} where
  pub append-Sublistᴰ : (l : List A) {m n : List A} → Sublistᴰ m n → Sublistᴰ (l ++ m) (l ++ n)
  append-Sublistᴰ [] s = s
  append-Sublistᴰ (x ∷ l) s = cons-cons refl (append-Sublistᴰ l s)

  pub Sublistᴰ-append : {m n : List A} (l : List A) → Sublistᴰ m n → Sublistᴰ (m ++ l) (n ++ l)
  Sublistᴰ-append l slnil = Sublistᴰ.refl l
  Sublistᴰ-append l (cons s) = cons (Sublistᴰ-append l s)
  Sublistᴰ-append l (cons-cons e s) = cons-cons e (Sublistᴰ-append l s)

  -- What stands in the middle may be left out.
  pub drop-Sublistᴰ : (l m n : List A) → Sublistᴰ (l ++ n) (l ++ (m ++ n))
  drop-Sublistᴰ l m n = append-Sublistᴰ l (Sublistᴰ-append n (Sublistᴰ.nil-sublist m))
