-- ===== src/Prelude/Text.antt =====
-- Texts as lists of numbers (bytes, or code points), with the operations of Rust's `str` and slices
-- that the program calls.
use Prim.Native.Char.{code}
use Prim.Native.Nat.{ℕ, suc, ◌-◌}
use Prim.Native.String.{String}
use mathlib.Core.Path.{◌≡◌, refl}
use mathlib.Core.Logic.{◌↔◌}
use mathlib.Core.Bool.{Bool, true, false, ◌&&◌}
use mathlib.Core.List.{List, [], ◌∷◌, ◌++◌}
use mathlib.Core.Option
use mathlib.Core.Option.{Option, none, some}
use native.Mathlib.Omega.{arith}
use ktsense.Prelude.Tests.{◌==◌, leb, if◌then◌else◌}
use ktsense.Prelude.Lists.{length, drop}

abbrev pub Bytes : Type 0
Bytes = List ℕ

-- The code points of a literal; these are its bytes when the text is ASCII.
abbrev pub codes : String → Bytes
codes String.[] = []
codes (String.◌∷◌ c s) = code c ∷ codes s

-- `a == b` on slices and strings
unfoldable pub bytes_eq : Bytes → Bytes → Bool
bytes_eq [] [] = true
bytes_eq [] (y ∷ ys) = false
bytes_eq (x ∷ xs) [] = false
bytes_eq (x ∷ xs) (y ∷ ys) = x == y && bytes_eq xs ys

pub bytes_eq_iff : (a b : Bytes) → (bytes_eq a b ≡ true) ↔ (a ≡ b)
unfolding bytes_eq
bytes_eq_iff [] [] = (λ _. refl, λ _. refl)
bytes_eq_iff [] (y ∷ ys) = ground arith
bytes_eq_iff (x ∷ xs) [] = ground arith
bytes_eq_iff (x ∷ xs) (y ∷ ys) = ground (arith, bytes_eq_iff xs ys)

-- `s.starts_with(p)`
unfoldable pub starts_with : Bytes → Bytes → Bool
starts_with s [] = true
starts_with [] (p ∷ ps) = false
starts_with (c ∷ s) (p ∷ ps) = c == p && starts_with s ps

pub starts_with-append : (p s : Bytes) → starts_with (p ++ s) p ≡ true
unfolding starts_with
starts_with-append [] s = refl
starts_with-append (c ∷ p) s = ground (arith, starts_with-append p s)

-- A text that starts with `p` is `p` and the rest.
pub starts_with-split : (s p : Bytes) → starts_with s p ≡ true → s ≡ p ++ drop (length p) s
unfolding starts_with
starts_with-split s [] h = refl
starts_with-split [] (p ∷ ps) h = ground arith
starts_with-split (c ∷ s) (p ∷ ps) h = ground (arith, starts_with-split s ps)

-- More text at the end keeps a prefix.
pub starts_with_mono : (s p t : Bytes) → starts_with s p ≡ true → starts_with (s ++ t) p ≡ true
unfolding starts_with
starts_with_mono s [] t h = refl
starts_with_mono [] (p ∷ ps) t h = ground arith
starts_with_mono (c ∷ s) (p ∷ ps) t h = ground (arith, starts_with_mono s ps t)

-- `s.ends_with(p)`
unfoldable pub ends_with : Bytes → Bytes → Bool
unfolding bytes_eq
ends_with s p = leb (length p) (length s) && bytes_eq (drop (length s - length p) s) p

-- The index of the first window equal to the needle, `windows(n).position(..)`.
unfoldable pub find_subslice : Bytes → Bytes → Option ℕ
unfolding starts_with
find_subslice [] needle = if starts_with [] needle then some 0 else none
find_subslice (c ∷ s) needle =
    if starts_with (c ∷ s) needle then some 0 else Option.map suc (find_subslice s needle)

module _ {ℓ κ} {A : Type ℓ} (P : A → Type κ) where
  abbrev pub All : List A → Type κ
  All [] = Unit
  All (x ∷ xs) = P x × All xs

  pub All-append : (xs ys : List A) → All xs → All ys → All (xs ++ ys)
  All-append [] ys _ hy = hy
  All-append (x ∷ xs) ys (px, hx) hy = (px, All-append xs ys hx hy)

pub All-mono {ℓ κ μ} :
    {A : Type ℓ} (P : A → Type κ) (Q : A → Type μ)
    → ((a : A) → P a → Q a)
    → (xs : List A) → All P xs
    → All Q xs
All-mono P Q f [] h = tt
All-mono P Q f (x ∷ xs) h = (f x h.0, All-mono P Q f xs h.1)
