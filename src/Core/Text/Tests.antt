-- ===== src/Core/Text/Tests.antt =====
-- Fences, neutralized text and layouts of crates/ktsense-core/src/text.rs on concrete texts.
use ktsense.Prelude.{
  ℕ, ◌≡◌, ◌≤◌, ◌↔◌, refl, Bool, ◌&&◌, ◌||◌, none, ◌++◌, [], ◌∷◌, Bytes, codes, leb, replicate,
  find_subslice, All,
}
use ktsense.Core.Text.{backtick, fence_for, neutralize}
use ktsense.Core.Text.Safe.{fence_for-closes, neutralize-IsSafe, IsSafe}
use ktsense.Core.Layout.{normalize_signature_layout}
use ktsense.Core.Layout.Tokens.{visible}
use ktsense.Core.Layout.Visible.{normalize_signature_layout-visible}

abbrev fenced : Bytes
fenced = codes "a " ++ replicate 4 backtick ++ codes " b"

abbrev call_site : Bytes
call_site = codes "Pipeline<Unit>(" ++ (b'\n' ∷ codes "    Setup,") ++ (b'\n' ∷ codes ")")

is_letter : ℕ → Bool
is_letter c = (leb b'a' c && leb c b'z') || (leb b'A' c && leb c b'Z')

folds : normalize_signature_layout is_letter call_site ≡ codes "Pipeline<Unit>(Setup)"
unfolding normalize_signature_layout is_letter
folds = refl

fence_of_five : fence_for fenced ≡ replicate 5 backtick
unfolding fence_for
fence_of_five = refl

normalize_signature_layout-visible_example :
    visible (normalize_signature_layout is_letter call_site) ≡ visible call_site
normalize_signature_layout-visible_example = normalize_signature_layout-visible is_letter call_site

fence_for-closes_example :
    (n : ℕ) × (fence_for fenced ≡ replicate n backtick)
    × (3 ≤ n)
    × (find_subslice fenced (fence_for fenced) ≡ none)
fence_for-closes_example = fence_for-closes fenced

abbrev reversed_text : Bytes
reversed_text = 0x61 ∷ 0x202E ∷ 0x0A ∷ []

neutralize-IsSafe_example :
    All IsSafe (neutralize reversed_text)
    × ((All IsSafe reversed_text) ↔ (neutralize reversed_text ≡ reversed_text))
neutralize-IsSafe_example = neutralize-IsSafe reversed_text
