-- ===== src/Orchestration/Json/Order.antt =====
-- The order of the keys of a JSON object: Rust's order on `str`, that of the code points.
use pi_musubi_core.Prelude.{
  ℕ, ◌≡◌, refl, Bool, true, false, ◌&&◌, ◌||◌, List, [], ◌∷◌, ltb, nat_beq, arith,
}

unfoldable pub lex_lt : List ℕ → List ℕ → Bool
lex_lt [] [] = false
lex_lt [] (d ∷ t) = true
lex_lt (c ∷ s) [] = false
lex_lt (c ∷ s) (d ∷ t) = let rest = lex_lt s t in ltb c d || (nat_beq c d && rest)

pub lex_lt_asym : (s t : List ℕ) → lex_lt s t ≡ true → lex_lt t s ≡ false
unfolding lex_lt
lex_lt_asym [] [] h = refl
lex_lt_asym [] (d ∷ t) h = refl
lex_lt_asym (c ∷ s) [] h = ground arith
lex_lt_asym (c ∷ s) (d ∷ t) h = ground (arith, lex_lt_asym s t)

pub lex_lt_total : (s t : List ℕ) → lex_lt s t ≡ false → lex_lt t s ≡ false → s ≡ t
unfolding lex_lt
lex_lt_total [] [] h k = refl
lex_lt_total [] (d ∷ t) h k = ground arith
lex_lt_total (c ∷ s) [] h k = ground arith
lex_lt_total (c ∷ s) (d ∷ t) h k = ground (arith, lex_lt_total s t)

-- From `b ≤ x` and `x < a` it follows that `b < a`.
pub lex_le_lt : (b x a : List ℕ) → lex_lt x b ≡ false → lex_lt x a ≡ true → lex_lt b a ≡ true
unfolding lex_lt
lex_le_lt [] [] [] h k = k
lex_le_lt [] x (d ∷ a) h k = refl
lex_le_lt [] (c ∷ x) [] h k = ground arith
lex_le_lt (c ∷ b) [] a h k = ground arith
lex_le_lt (c ∷ b) (d ∷ x) [] h k = k
lex_le_lt (c ∷ b) (d ∷ x) (e ∷ a) h k = ground (arith, lex_le_lt b x a)
