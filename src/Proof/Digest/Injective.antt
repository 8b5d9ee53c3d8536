-- ===== src/Proof/Digest/Injective.antt =====
-- apps/backend/src/services/proof.rs: the parts of a digest are read back from its bytes.
use pi_musubi_core.Prelude.{
  ℕ, zero, suc, ◌+◌, ◌-◌, ◌*◌, ◌/◌, ◌%◌, ◌≤◌, ◌<◌, ◌≡◌, ◌≢◌, refl, sym, ap, ◌∙◌, List, [], ◌∷◌,
  ◌++◌, ltb, arith, Bool-cases, inl, inr, All, All-append, length, length-append,
}
use pi_musubi_core.Settlement.Currency.{byte_count, utf8_width}
use pi_musubi_core.Proof.State.{Str}
use pi_musubi_core.Proof.Digest.{Bytes, encode_char, as_bytes, decimal, nat_to_string, encode_parts}

-- The number that a text of digits writes.
value : ℕ → Str → ℕ
value n [] = n
value n (c ∷ s) = value (n * 10 + (c - 48)) s

value-append : (n : ℕ) (s t : Str) → value n (s ++ t) ≡ value (value n s) t
unfolding value
value-append n [] t = refl
value-append n (c ∷ s) t = value-append (n * 10 + (c - 48)) s t

value-decimal : (fuel n : ℕ) → n ≤ fuel → value 0 (decimal fuel n) ≡ n
unfolding value decimal
value-decimal zero n h = omega arith
value-decimal (suc fuel) n h = ground (
  arith,
  value-append 0 (decimal fuel (n / 10)) ((48 + n % 10) ∷ []),
  value-decimal fuel (n / 10),
)

nat_to_string_injective : (m n : ℕ) → nat_to_string m ≡ nat_to_string n → m ≡ n
unfolding nat_to_string
nat_to_string_injective m n h =
    sym (value-decimal m m (omega arith)) ∙ ap (value 0) h ∙ value-decimal n n (omega arith)

IsText : Str → Type 0
IsText = All (λ c. c ≢ 58)

decimal-IsText : (fuel n : ℕ) → IsText (decimal fuel n)
unfolding decimal IsText
decimal-IsText zero n = ((λ e. omega arith), tt)
decimal-IsText (suc fuel) n = elim (Bool-cases (ltb n 10)) [
  | inl e ↦ rw (e, decimal) ((λ k. ground arith), tt)
  | inr e ↦
      rw (e, decimal)
        (All-append (λ c. c ≢ 58) (decimal fuel (n / 10)) ((48 + n % 10) ∷ [])
          (decimal-IsText fuel (n / 10)) ((λ k. omega arith), tt))
]

-- The text before the first colon, and the text after it.
cut : (s t u v : Str) → IsText s → IsText t → s ++ 58 ∷ u ≡ t ++ 58 ∷ v → (s ≡ t) × (u ≡ v)
unfolding IsText
cut [] [] u v hs ht e = ground arith
cut [] (d ∷ t) u v hs ht e = absurd (ground arith)
cut (c ∷ s) [] u v hs ht e = absurd (ground arith)
cut (c ∷ s) (d ∷ t) u v hs ht e = ground (arith, cut s t u v hs.1 ht.1)

-- Texts of one length that stand at the front.
front : (s t u v : Bytes) → length s ≡ length t → s ++ u ≡ t ++ v → (s ≡ t) × (u ≡ v)
front [] [] u v l e = (refl, e)
front [] (d ∷ t) u v l e = absurd (omega arith)
front (c ∷ s) [] u v l e = absurd (omega arith)
front (c ∷ s) (d ∷ t) u v l e = ground (arith, front s t u v)

length-encode_char : (c : ℕ) → length (encode_char c) ≡ utf8_width c
length-encode_char c = ground arith

length-as_bytes : (s : Str) → length (as_bytes s) ≡ byte_count s
length-as_bytes [] = refl
length-as_bytes (c ∷ s) =
    length-append (encode_char c) (as_bytes s)
    ∙ ap (λ n. n + length (as_bytes s)) (length-encode_char c)
    ∙ ap (λ n. utf8_width c + n) (length-as_bytes s)

-- A code point of Unicode.
abbrev IsChar : ℕ → Type 0
IsChar c = c < 0x110000

encode_char_injective :
    (c d : ℕ) (u v : Bytes)
    → IsChar c
    → IsChar d
    → encode_char c ++ u ≡ encode_char d ++ v
    → (c ≡ d) × (u ≡ v)
encode_char_injective c d u v hc hd e = ground arith

abbrev IsUnicode : Str → Type 0
IsUnicode = All IsChar

encode_char_ne_nil : (c : ℕ) (s : Bytes) → encode_char c ++ s ≢ []
encode_char_ne_nil c s e = ground arith

as_bytes_injective : (s t : Str) → IsUnicode s → IsUnicode t → as_bytes s ≡ as_bytes t → s ≡ t
as_bytes_injective [] [] hs ht e = refl
as_bytes_injective [] (d ∷ t) hs ht e = absurd (encode_char_ne_nil d (as_bytes t) (sym e))
as_bytes_injective (c ∷ s) [] hs ht e = absurd (encode_char_ne_nil c (as_bytes s) e)
as_bytes_injective (c ∷ s) (d ∷ t) hs ht e =
    let (head, rest) = encode_char_injective c d (as_bytes s) (as_bytes t) hs.0 ht.0 e in
    cc (head, as_bytes_injective s t hs.1 ht.1 rest)

middle_ne_nil : (s t : Bytes) → s ++ 58 ∷ t ≢ []
middle_ne_nil [] t e = ground arith
middle_ne_nil (c ∷ s) t e = ground arith

-- The bytes that are hashed name the parts, one by one: no two lists of parts are hashed alike, so
-- a text cannot move from one part to the next.
pub encode_parts_injective :
    (ps qs : List Str)
    → All (All (λ c. c < 0x110000)) ps
    → All (All (λ c. c < 0x110000)) qs
    → encode_parts ps ≡ encode_parts qs
    → ps ≡ qs
unfolding encode_parts nat_to_string
encode_parts_injective [] [] hp hq e = refl
encode_parts_injective [] (q ∷ qs) hp hq e =
    absurd (middle_ne_nil (nat_to_string (byte_count q)) _ (sym e))
encode_parts_injective (p ∷ ps) [] hp hq e =
    absurd (middle_ne_nil (nat_to_string (byte_count p)) _ e)
encode_parts_injective (p ∷ ps) (q ∷ qs) hp hq e =
    let (digits, rest) =
      cut (nat_to_string (byte_count p)) (nat_to_string (byte_count q)) _ _
        (decimal-IsText (byte_count p) (byte_count p))
        (decimal-IsText (byte_count q) (byte_count q)) e in
    let same : byte_count p ≡ byte_count q =
      nat_to_string_injective (byte_count p) (byte_count q) digits in
    let (text, tail) =
      front (as_bytes p) (as_bytes q) _ _ (length-as_bytes p ∙ same ∙ sym (length-as_bytes q))
        rest in
    let one : p ≡ q = as_bytes_injective p q hp.0 hq.0 text in
    let others : ps ≡ qs = encode_parts_injective ps qs hp.1 hq.1 (ground (arith, tail)) in
    cc (one, others)
