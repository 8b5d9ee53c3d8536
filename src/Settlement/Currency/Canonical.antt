-- ===== src/Settlement/Currency/Canonical.antt =====
-- apps/backend/crates/settlement-domain/src/money.rs: the normal form of a currency code.
use mathlib.Core.List.{reverse-cons}
use pi_musubi_core.Prelude.{
  ℕ, ◌≡◌, ◌≤◌, refl, ap, sym, ◌∙◌, true, false, List, [], ◌∷◌, ◌++◌, map, reverse, ok, any, length,
  arith,
}
use pi_musubi_core.Prelude.Text.{trim, trim_start, is_whitespace, trim_clean}
use pi_musubi_core.Settlement.Currency.{
  CurrencyCode, to_ascii_uppercase, is_code_char, all, byte_count, check_code, new_currency_code,
}

uppercase : List ℕ → List ℕ
uppercase = map to_ascii_uppercase

whitespace_uppercase : (c : ℕ) → is_whitespace (to_ascii_uppercase c) ≡ is_whitespace c
unfolding is_whitespace
whitespace_uppercase c = ground arith

uppercase_twice :
    (s : List ℕ) → map to_ascii_uppercase (map to_ascii_uppercase s) ≡ map to_ascii_uppercase s
uppercase_twice [] = refl
uppercase_twice (c ∷ s) = ground (arith, uppercase_twice s)

trim_start-map :
    (s : List ℕ) → trim_start (map to_ascii_uppercase s) ≡ map to_ascii_uppercase (trim_start s)
unfolding trim_start
trim_start-map [] = refl
trim_start-map (c ∷ s) = ground (arith, whitespace_uppercase c, trim_start-map s)

map-append :
    (s t : List ℕ)
    → map to_ascii_uppercase (s ++ t) ≡ map to_ascii_uppercase s ++ map to_ascii_uppercase t
map-append [] t = refl
map-append (c ∷ s) t = ap (λ r. to_ascii_uppercase c ∷ r) (map-append s t)

reverse-map : (s : List ℕ) → reverse (map to_ascii_uppercase s) ≡ map to_ascii_uppercase (reverse s)
reverse-map [] = refl
reverse-map (c ∷ s) =
    reverse-cons (to_ascii_uppercase c) (map to_ascii_uppercase s)
    ∙ ap (λ r. r ++ to_ascii_uppercase c ∷ []) (reverse-map s)
    ∙ sym (map-append (reverse s) (c ∷ []))
    ∙ ap (map to_ascii_uppercase) (sym (reverse-cons c s))

trim-map : (s : List ℕ) → trim (map to_ascii_uppercase s) ≡ map to_ascii_uppercase (trim s)
unfolding trim
trim-map s = simp (trim_start-map, reverse-map) refl

-- Whatever the case of its letters, a text makes the same currency code, or fails alike.
pub new_currency_code_case :
    (s : List ℕ) → new_currency_code (map to_ascii_uppercase s) ≡ new_currency_code s
unfolding new_currency_code
new_currency_code_case s =
    ap check_code (ap (map to_ascii_uppercase) (trim-map s) ∙ uppercase_twice (trim s))

code_char_black : (c : ℕ) → is_code_char c ≡ true → is_whitespace c ≡ false
unfolding is_whitespace
code_char_black c h = ground arith

code_has_no_space : (s : List ℕ) → all is_code_char s ≡ true → any is_whitespace s ≡ false
code_has_no_space [] h = refl
code_has_no_space (c ∷ s) h = ground (arith, code_char_black c, code_has_no_space s)

uppercase_code : (s : List ℕ) → all is_code_char s ≡ true → map to_ascii_uppercase s ≡ s
uppercase_code [] h = refl
uppercase_code (c ∷ s) h = ground (arith, uppercase_code s)

byte_count-length : (s : List ℕ) → all is_code_char s ≡ true → byte_count s ≡ length s
byte_count-length [] h = refl
byte_count-length (c ∷ s) h = ground (arith, byte_count-length s)

check_code_ok :
    (v : List ℕ) (c : CurrencyCode)
    → check_code v ≡ ok c
    → (v ≡ c.code_points) × (all is_code_char v ≡ true) × (2 ≤ byte_count v)
check_code_ok v c h = ground arith

check_code_valid :
    (v : List ℕ)
    → all is_code_char v ≡ true
    → 2 ≤ byte_count v
    → check_code v ≡ ok (record { code_points = v })
check_code_valid [] h k = absurd (omega arith)
check_code_valid (c ∷ s) h k = ground arith

-- An accepted currency code has at least two characters, each an upper-case letter, a digit, `_`
-- or `-`, and is its own normal form: to make a code of it again gives it back.
pub new_currency_code_normal :
    (s : List ℕ) (c : CurrencyCode)
    → new_currency_code s ≡ ok c
    → (all is_code_char c.code_points ≡ true)
      × (2 ≤ length c.code_points)
      × (new_currency_code c.code_points ≡ ok c)
unfolding new_currency_code
new_currency_code_normal s c h =
    let (e, a, l) = check_code_ok (map to_ascii_uppercase (trim s)) c h in
    let a' : all is_code_char c.code_points ≡ true = rw (← e) a in
    let l' : 2 ≤ byte_count c.code_points = rw (← e) l in
    (
      a',
      rw (← byte_count-length c.code_points a') l',
      ap check_code (
            ap (map to_ascii_uppercase)
              (trim_clean c.code_points (code_has_no_space c.code_points a'))
            ∙ uppercase_code c.code_points a')
          ∙ check_code_valid c.code_points a' l',
    )
