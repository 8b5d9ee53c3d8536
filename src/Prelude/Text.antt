-- ===== src/Prelude/Text.antt =====
-- Rust's `str::trim` and `char::is_whitespace`, over the code points of a text.
use Prim.Native.Char.{code}
use Prim.Native.String.{String}
use mathlib.Core.List.{reverse-cons, reverse-reverse}
use Prim.Native.Nat.{ℕ}
use mathlib.Core.Path.{◌≡◌, refl, ap, ◌∙◌}
use mathlib.Core.Bool.{Bool, true, false, not, ◌&&◌, ◌||◌}
use mathlib.Core.List.{List, [], ◌∷◌, ◌++◌, reverse}
use native.Mathlib.Omega.{arith}
use pi_musubi_core.Prelude.Tests.{leb, nat_beq, if◌then◌else◌}
use pi_musubi_core.Prelude.Lists.{any}

abbrev pub codes : String → List ℕ
codes String.[] = []
codes (String.◌∷◌ c s) = code c ∷ codes s

-- The property `White_Space` of Unicode.
unfoldable pub is_whitespace : ℕ → Bool
is_whitespace c =
    (leb 9 c && leb c 13)
    || nat_beq c 32
    || nat_beq c 0x85
    || nat_beq c 0xa0
    || nat_beq c 0x1680
    || (leb 0x2000 c && leb c 0x200a)
    || nat_beq c 0x2028
    || nat_beq c 0x2029
    || nat_beq c 0x202f
    || nat_beq c 0x205f
    || nat_beq c 0x3000

unfoldable pub trim_start : List ℕ → List ℕ
trim_start [] = []
trim_start (c ∷ s) = let rest = trim_start s in if is_whitespace c then rest else c ∷ s

unfoldable pub trim : List ℕ → List ℕ
unfolding trim_start is_whitespace
trim s = reverse (trim_start (reverse (trim_start s)))

abbrev pub is_empty : List ℕ → Bool
is_empty [] = true
is_empty (c ∷ s) = false

abbrev pub is_black : ℕ → Bool
is_black c = not (is_whitespace c)

any-append : (p : ℕ → Bool) (s t : List ℕ) → any p (s ++ t) ≡ (any p s || any p t)
any-append p [] t = refl
any-append p (c ∷ s) t = ground (arith, any-append p s t)

or_swap : (a a' b : Bool) → a ≡ a' → (a || (b || false)) ≡ (b || a')
or_swap a a' b h = ground arith

pub any-reverse : (p : ℕ → Bool) (s : List ℕ) → any p (reverse s) ≡ any p s
any-reverse p [] = refl
any-reverse p (c ∷ s) =
    ap (any p) (reverse-cons c s)
    ∙ any-append p (reverse s) (c ∷ [])
    ∙ or_swap (any p (reverse s)) (any p s) (p c) (any-reverse p s)

any-trim_start : (s : List ℕ) → any is_black (trim_start s) ≡ any is_black s
unfolding trim_start
any-trim_start [] = refl
any-trim_start (c ∷ s) = ground (arith, any-trim_start s)

trim_start_head : (s : List ℕ) → not (is_empty (trim_start s)) ≡ any is_black s
unfolding trim_start
trim_start_head [] = refl
trim_start_head (c ∷ s) = ground (arith, trim_start_head s)

not_empty-append : (s : List ℕ) (c : ℕ) → not (is_empty (s ++ c ∷ [])) ≡ true
not_empty-append [] c = refl
not_empty-append (d ∷ s) c = refl

not_empty-reverse : (s : List ℕ) → not (is_empty (reverse s)) ≡ not (is_empty s)
not_empty-reverse [] = refl
not_empty-reverse (c ∷ s) =
    ap (λ t. not (is_empty t)) (reverse-cons c s) ∙ not_empty-append (reverse s) c

-- A trimmed text is not empty exactly when the text has a character that is not white space.
pub trim-is_empty : (s : List ℕ) → not (is_empty (trim s)) ≡ any is_black s
unfolding trim
trim-is_empty s =
    not_empty-reverse (trim_start (reverse (trim_start s)))
    ∙ trim_start_head (reverse (trim_start s))
    ∙ any-reverse is_black (trim_start s)
    ∙ any-trim_start s

trim_start_clean : (s : List ℕ) → any is_whitespace s ≡ false → trim_start s ≡ s
unfolding trim_start
trim_start_clean [] h = refl
trim_start_clean (c ∷ s) h = ground arith

-- A text without white space is trimmed.
pub trim_clean : (s : List ℕ) → any is_whitespace s ≡ false → trim s ≡ s
unfolding trim
trim_clean s h =
    ap reverse (
      ap trim_start (ap reverse (trim_start_clean s h))
      ∙ trim_start_clean (reverse s) (any-reverse is_whitespace s ∙ h))
    ∙ reverse-reverse s
