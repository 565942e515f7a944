-- ===== src/Std/Distinct.antt =====
-- Lists whose items differ by a test of the program.
use ktsense.Prelude.{Bool, false, ◌≡◌, List, [], ◌∷◌, ◌++◌, All, All-append}

module _ {ℓ} {A : Type ℓ} (same : A → A → Bool) where
  -- Each item differs from those behind it.
  abbrev pub Distinct : List A → Type 0
  Distinct [] = Unit
  Distinct (x ∷ xs) = All (λ y. same x y ≡ false) xs × Distinct xs

  pub Distinct-append :
      (xs : List A) (y : A)
      → All (λ x. same x y ≡ false) xs
      → Distinct xs
      → Distinct (xs ++ (y ∷ []))
  Distinct-append [] y h d = (tt, tt)
  Distinct-append (x ∷ xs) y h d =
      (All-append (λ z. same x z ≡ false) xs (y ∷ []) d.0 (h.0, tt), Distinct-append xs y h.1 d.1)
