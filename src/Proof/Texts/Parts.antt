-- ===== src/Proof/Texts/Parts.antt =====
-- apps/backend/src/services/proof.rs: what a coarse location looks like, in words.
use pi_musubi_core.Prelude.{
  ℕ, ◌≤◌, ◌≡◌, refl, ap, sym, subst, Bool, true, false, ◌&&◌, ◌||◌, List, [], ◌∷◌, ◌++◌, any, arith,
  leb, nat_beq, if◌then◌else◌, length, All, Bool-cases, inl, inr,
}
use pi_musubi_core.Settlement.Currency.{byte_count, all}
use pi_musubi_core.Proof.State.{Str}
use pi_musubi_core.Proof.Texts.{
  is_ascii_digit, is_bucket_char, is_valid_bucket, has_double_dash, grow, split_dash, is_named_part,
  all_parts,
}

abbrev is_letter : ℕ → Bool
is_letter c = leb 97 c && leb c 122

abbrev is_part_char : ℕ → Bool
is_part_char c = is_letter c || is_ascii_digit c

-- Small letters and digits, with a letter among them.
abbrev pub IsPart : Str → Type 0
IsPart part = (all is_part_char part ≡ true) × (any is_letter part ≡ true)

-- A dash before each part, and a dash between each two parts.
abbrev dashed : List Str → Str
dashed [] = []
dashed (part ∷ parts) = 45 ∷ (part ++ dashed parts)

abbrev pub join_dash : List Str → Str
join_dash [] = []
join_dash (part ∷ parts) = part ++ dashed parts

-- Two parts or more, with dashes between them, in at most 32 bytes.
pub record IsBucket (b : Str) : Type 0 where
  pub parts : List Str
  pub joined : join_dash parts ≡ b
  pub several : 2 ≤ length parts
  pub named : All IsPart parts
  pub short : byte_count b ≤ 32

split_pos : (s : Str) → 1 ≤ length (split_dash s)
split_pos [] = omega arith
split_pos (c ∷ s) = grown (split_dash s) (split_pos s)
  where
    grown :
        (parts : List Str)
        → 1 ≤ length parts
        → 1 ≤ length (if nat_beq c 45 then [] ∷ parts else grow c parts)
    grown [] h = absurd (omega (arith, h))
    grown (part ∷ parts) h = ground arith

join_grow : (c : ℕ) (parts : List Str) → join_dash (grow c parts) ≡ c ∷ join_dash parts
join_grow c [] = refl
join_grow c (part ∷ parts) = refl

dashed_lem : (parts : List Str) → 1 ≤ length parts → dashed parts ≡ 45 ∷ join_dash parts
dashed_lem [] h = absurd (omega (arith, h))
dashed_lem (part ∷ parts) h = refl

join-split : (s : Str) → join_dash (split_dash s) ≡ s
join-split [] = refl
join-split (c ∷ s) =
    ground
      (arith, join_grow c (split_dash s), dashed_lem (split_dash s) (split_pos s), join-split s)

length-grow : (c : ℕ) (parts : List Str) → 1 ≤ length parts → length (grow c parts) ≡ length parts
length-grow c [] h = absurd (omega (arith, h))
length-grow c (part ∷ parts) h = refl

split_several : (s : Str) → any (λ c. nat_beq c 45) s ≡ true → 2 ≤ length (split_dash s)
split_several [] h = absurd (cc)
split_several (c ∷ s) h =
    ground (arith, split_pos s, length-grow c (split_dash s) (split_pos s), split_several s)

Chars : List Str → Type 0
Chars = All (λ part. all is_part_char part ≡ true)

grow-Chars : (c : ℕ) (parts : List Str) → is_part_char c ≡ true → Chars parts → Chars (grow c parts)
unfolding Chars
grow-Chars c [] h hs = (ground (arith, h), tt)
grow-Chars c (part ∷ parts) h hs = (ground (arith, h, hs.0), hs.1)

split-Chars : (s : Str) → all is_bucket_char s ≡ true → Chars (split_dash s)
unfolding Chars
split-Chars [] h = (refl, tt)
split-Chars (c ∷ s) h = elim (Bool-cases (nat_beq c 45)) [
  | inl e ↦ rw e (refl, split-Chars s (ground (arith, h)))
  | inr e ↦
      rw e (grow-Chars c (split_dash s) (ground (arith, h)) (split-Chars s (ground (arith, h))))
]

some_letter :
    (p : Str) → all is_part_char p ≡ true → all is_ascii_digit p ≡ false → any is_letter p ≡ true
some_letter [] h k = absurd (cc)
some_letter (c ∷ p) h k = ground (arith, some_letter p)

named-All : (parts : List Str) → Chars parts → all_parts parts ≡ true → All IsPart parts
unfolding Chars
named-All [] hs h = tt
named-All (p ∷ parts) hs h =
    ((hs.0, ground (arith, some_letter p hs.0)), named-All parts hs.1 (ground (arith, h)))

not_all_digits : (p : Str) → any is_letter p ≡ true → all is_ascii_digit p ≡ false
not_all_digits [] h = absurd (cc)
not_all_digits (c ∷ p) h = ground (arith, not_all_digits p)

IsPart-named : (p : Str) → IsPart p → is_named_part p ≡ true
IsPart-named [] h = absurd (ground (arith, h.1))
IsPart-named (c ∷ p) h = ground (arith, not_all_digits (c ∷ p) h.1)

All-named : (parts : List Str) → All IsPart parts → all_parts parts ≡ true
All-named [] h = refl
All-named (p ∷ parts) h = ground (arith, IsPart-named p h.0, All-named parts h.1)

split_part :
    (p : Str) (parts : List Str)
    → all is_part_char p ≡ true
    → All IsPart parts
    → split_dash (p ++ dashed parts) ≡ p ∷ parts
split_part [] [] h hs = refl
split_part [] (q ∷ parts) h hs = ap (λ x. [] ∷ x) (split_part q parts hs.0.0 hs.1)
split_part (c ∷ p) parts h hs = ground (arith, split_part p parts (ground (arith, h)) hs)

part_chars :
    (p r : Str)
    → all is_part_char p ≡ true
    → all is_bucket_char r ≡ true
    → all is_bucket_char (p ++ r) ≡ true
part_chars [] r h k = k
part_chars (c ∷ p) r h k = ground (arith, part_chars p r)

dashed_chars : (parts : List Str) → All IsPart parts → all is_bucket_char (dashed parts) ≡ true
dashed_chars [] hs = refl
dashed_chars (p ∷ parts) hs = part_chars p (dashed parts) hs.0.0 (dashed_chars parts hs.1)

any_later : (p r : Str) → any (λ c. nat_beq c 45) r ≡ true → any (λ c. nat_beq c 45) (p ++ r) ≡ true
any_later [] r h = h
any_later (c ∷ p) r h = ground (arith, any_later p r)

part_double_dash :
    (p r : Str) → all is_part_char p ≡ true → has_double_dash (p ++ r) ≡ has_double_dash r
part_double_dash [] r h = refl
part_double_dash (c ∷ []) [] h = refl
part_double_dash (c ∷ []) (d ∷ r) h = ground (arith, h)
part_double_dash (c ∷ d ∷ p) r h = ground (arith, h, part_double_dash (d ∷ p) r (ground (arith, h)))

no_double_dash : (parts : List Str) → All IsPart parts → has_double_dash (dashed parts) ≡ false
no_double_dash [] hs = refl
no_double_dash ([] ∷ parts) hs = absurd (ground (arith, hs.0.1))
no_double_dash ((c ∷ p) ∷ parts) hs =
    ground
      (arith, hs.0.0, part_double_dash (c ∷ p) (dashed parts) hs.0.0, no_double_dash parts hs.1)

-- The test of the code finds exactly such texts.
pub valid-IsBucket : (s : Str) → is_valid_bucket s ≡ true → IsBucket s
unfolding is_valid_bucket
valid-IsBucket s h = record {
  parts = split_dash s;
  joined = join-split s;
  several = split_several s (ground (arith, h));
  named = named-All (split_dash s) (split-Chars s (ground (arith, h))) (ground (arith, h));
  short = ground (arith, h);
}

joined_valid :
    (parts : List Str)
    → 2 ≤ length parts
    → All IsPart parts
    → byte_count (join_dash parts) ≤ 32
    → is_valid_bucket (join_dash parts) ≡ true
unfolding is_valid_bucket
joined_valid [] n hs short = absurd (omega (arith, n))
joined_valid (p ∷ []) n hs short = absurd (omega (arith, n))
joined_valid (p ∷ q ∷ parts) n hs short =
    let rest = dashed (q ∷ parts) in
    ground (
      arith,
      short,
      part_chars p rest hs.0.0 (dashed_chars (q ∷ parts) hs.1),
      any_later p rest refl,
      part_double_dash p rest hs.0.0,
      no_double_dash (q ∷ parts) hs.1,
      ap all_parts (split_part p (q ∷ parts) hs.0.0 hs.1),
      All-named (p ∷ q ∷ parts) hs,
    )

pub IsBucket-valid : (s : Str) → IsBucket s → is_valid_bucket s ≡ true
IsBucket-valid s b =
    subst (λ x. is_valid_bucket x ≡ true) b.joined
      (joined_valid b.parts b.several b.named
        (subst (λ x. byte_count x ≤ 32) (sym b.joined) b.short))
