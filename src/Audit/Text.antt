-- ===== src/Audit/Text.antt =====
-- Strings, as src/aero_bot/audit.py and the other modules compare them.
use aero_bot.Prelude.{ℕ, Bool, true, false, ◌&&◌, List, [], ◌∷◌, ◌==◌, ◌≡◌, ◌↔◌, refl, arith}
use Prim.Native.Char.{code}
use Prim.Native.String.{String, [] as empty, ◌∷◌ as ◌∷ˢ◌}

-- A string, by its code points.
abbrev pub Text : Type 0
Text = List ℕ

-- A string constant of the source.
abbrev pub codes : String → Text
codes empty = []
codes (c ∷ˢ s) = code c ∷ codes s

-- `==` of two strings.
unfoldable pub same_text : Text → Text → Bool
same_text [] [] = true
same_text [] (_ ∷ _) = false
same_text (_ ∷ _) [] = false
same_text (x ∷ xs) (y ∷ ys) = (x == y) && same_text xs ys

pub same_text-true_iff : (x y : Text) → (same_text x y ≡ true) ↔ (x ≡ y)
unfolding same_text
same_text-true_iff [] [] = (λ e. refl, λ e. refl)
same_text-true_iff [] (y ∷ ys) = (λ e. cc, λ e. cc)
same_text-true_iff (x ∷ xs) [] = (λ e. cc, λ e. cc)
same_text-true_iff (x ∷ xs) (y ∷ ys) = let tail = same_text-true_iff xs ys in ground arith
