-- ===== src/Settlement/Currency.antt =====
-- apps/backend/crates/settlement-domain/src/money.rs: `CurrencyCode`. A text is the list of its
-- code points.
pub mod Canonical
use pi_musubi_core.Prelude.{
  ℕ, ◌+◌, ◌-◌, ◌≡◌, Bool, true, false, not, ◌&&◌, ◌||◌, List, [], ◌∷◌, map, Result, ok, err, ltb,
  leb, nat_beq, if◌then◌else◌,
}
use pi_musubi_core.Prelude.Text.{trim, is_empty}

pub record CurrencyCode : Type 0 where
  pub code_points : List ℕ

pub data CurrencyCodeError : Type 0 where
  empty too_short invalid_character : CurrencyCodeError

-- `to_ascii_uppercase`, the number of bytes in UTF-8, and `all`.
abbrev pub to_ascii_uppercase : ℕ → ℕ
to_ascii_uppercase c = if leb 97 c && leb c 122 then c - 32 else c

abbrev pub utf8_width : ℕ → ℕ
utf8_width c = if ltb c 0x80 then 1 else if ltb c 0x800 then 2 else if ltb c 0x10000 then 3 else 4

abbrev pub byte_count : List ℕ → ℕ
byte_count [] = 0
byte_count (c ∷ s) = utf8_width c + byte_count s

abbrev pub all : (ℕ → Bool) → List ℕ → Bool
all p [] = true
all p (c ∷ s) = p c && all p s

-- An upper-case letter, a digit, `_` or `-`.
abbrev pub is_code_char : ℕ → Bool
is_code_char c = (leb 65 c && leb c 90) || (leb 48 c && leb c 57) || nat_beq c 95 || nat_beq c 45

abbrev pub check_code : List ℕ → Result CurrencyCodeError CurrencyCode
check_code value =
    if is_empty value
    then err empty
    else if ltb (byte_count value) 2
    then err too_short
    else if not (all is_code_char value)
    then err invalid_character
    else ok (record { code_points = value })

unfoldable pub new_currency_code : List ℕ → Result CurrencyCodeError CurrencyCode
unfolding trim
new_currency_code value = check_code (map to_ascii_uppercase (trim value))
