-- ===== src/Memory/Client/Parsed.antt =====
-- Which lines `parseRequest` of examples/memory/client.go takes, and what it reads from them.
use modbusone.Base.{
  ℕ, ◌+◌, ◌-◌, ◌*◌, ◌^◌, ◌≤◌, ◌<◌, ◌≡◌, ◌≢◌, ◌⊎◌, ◌∙◌, refl, ap, List, [], ◌∷◌, ◌++◌, All, ok,
  arith, true, IsU16, u8, u16, sym, append_assoc,
}
use modbusone.FunctionCode.{valid}
use modbusone.Memory.Client.{
  is_cut, trim_left, keep, trim_right, trim, split, parse_digit, parse_digits, parse_uint,
  with_quantity, with_address, parse_request,
}

abbrev pub IsDigit : ℕ → Type 0
IsDigit c = (48 ≤ c) × (c ≤ 57)

-- The number that digits make behind the number `n`.
abbrev pub spelled : ℕ → List ℕ → ℕ
spelled front [] = front
spelled front (c ∷ s) = spelled (front * 10 + (c - 48)) s

-- Digits, one at least, that make the number `n`.
abbrev pub Spells : List ℕ → ℕ → Type 0
Spells s n = (s ≢ []) × All IsDigit s × (spelled 0 s ≡ n)

-- Characters that `Trim` takes off.
abbrev pub IsCut : ℕ → Type 0
IsCut c = (c ≡ 32) ⊎ ((c ≡ 13) ⊎ (c ≡ 10))

spelled_grows : (s : List ℕ) (n : ℕ) → n ≤ spelled n s
spelled_grows [] n = omega arith
spelled_grows (c ∷ s) n = omega (arith, spelled_grows s (n * 10 + (c - b'0')))

digits-spelled :
    (max_value n : ℕ) (s : List ℕ)
    → All IsDigit s
    → spelled n s ≤ max_value
    → parse_digits max_value n s ≡ ok (spelled n s)
unfolding parse_digits parse_digit
digits-spelled max_value n [] h fits = refl
digits-spelled max_value n (c ∷ s) (digit, h) fits = ground (
  arith,
  digits-spelled max_value (n * 10 + (c - b'0')) s h fits,
  spelled_grows s (n * 10 + (c - b'0')),
)

parse_uint-Spells :
    (bits : ℕ) (s : List ℕ) (n : ℕ) → Spells s n → n ≤ 2 ^ bits - 1 → parse_uint bits s ≡ ok n
unfolding parse_uint
parse_uint-Spells bits [] n (some_digits, h, e) fits = absurd (some_digits refl)
parse_uint-Spells bits (c ∷ s) n (some_digits, h, e) fits =
    digits-spelled (2 ^ bits - 1) 0 (c ∷ s) h (omega arith) ∙ ap ok e

trim_left-cut : (before s : List ℕ) → All IsCut before → trim_left (before ++ s) ≡ trim_left s
unfolding trim_left is_cut
trim_left-cut [] s h = refl
trim_left-cut (c ∷ before) s (cut, h) = ground (arith, trim_left-cut before s h)

trim_left-digits : (s rest : List ℕ) → s ≢ [] → All IsDigit s → trim_left (s ++ rest) ≡ s ++ rest
unfolding trim_left is_cut
trim_left-digits [] rest ne h = absurd (ne refl)
trim_left-digits (c ∷ s) rest ne (digit, h) = ground arith

trim_right-cut : (after : List ℕ) → All IsCut after → trim_right after ≡ []
unfolding trim_right keep is_cut
trim_right-cut [] h = refl
trim_right-cut (c ∷ after) (cut, h) = rw (trim_right-cut after h) (ground arith)

keep-kept : (c : ℕ) (s : List ℕ) → s ≢ [] → keep c s ≡ c ∷ s
unfolding keep
keep-kept c [] h = absurd (h refl)
keep-kept c (d ∷ s) h = refl

append-ne-nil : (xs ys : List ℕ) → ys ≢ [] → xs ++ ys ≢ []
append-ne-nil [] ys h = h
append-ne-nil (x ∷ xs) ys h = λ e. cc

-- `Trim` keeps what stands before something that it keeps.
trim_right-append :
    (xs ys zs : List ℕ) → trim_right ys ≡ zs → zs ≢ [] → trim_right (xs ++ ys) ≡ xs ++ zs
unfolding trim_right
trim_right-append [] ys zs e ne = e
trim_right-append (x ∷ xs) ys zs e ne =
    ap (keep x) (trim_right-append xs ys zs e ne) ∙ keep-kept x (xs ++ zs) (append-ne-nil xs zs ne)

trim_right-digits :
    (s after : List ℕ) → All IsDigit s → All IsCut after → trim_right (s ++ after) ≡ s
unfolding trim_right keep is_cut
trim_right-digits [] after h cut = trim_right-cut after cut
trim_right-digits (c ∷ []) after (digit, h) cut = rw (trim_right-cut after cut) (ground arith)
trim_right-digits (c ∷ d ∷ s) after (digit, h) cut = rw (trim_right-digits (d ∷ s) after h cut) refl

split-digits : (s : List ℕ) → All IsDigit s → split s ≡ s ∷ []
unfolding split
split-digits [] h = refl
split-digits (c ∷ s) (digit, h) = rw (split-digits s h) (ground arith)

split-word : (s rest : List ℕ) → All IsDigit s → split (s ++ (b' ' ∷ rest)) ≡ s ∷ split rest
unfolding split
split-word [] rest h = refl
split-word (c ∷ s) rest (digit, h) = rw (split-word s rest h) (ground arith)

-- A line of three numbers.
abbrev pub words : List ℕ → List ℕ → List ℕ → List ℕ
words f a q = f ++ (b' ' ∷ a ++ (b' ' ∷ q))

words-append : (f a q : List ℕ) → words f a q ≡ (f ++ (b' ' ∷ a ++ (b' ' ∷ []))) ++ q
words-append f a q = sym (
    append_assoc f (b' ' ∷ a ++ (b' ' ∷ [])) q
    ∙ ap (λ (t : List ℕ). f ++ (b' ' ∷ t)) (append_assoc a (b' ' ∷ []) q))

trim-words :
    (before f a q after : List ℕ)
    → All IsCut before
    → f ≢ []
    → All IsDigit f
    → q ≢ []
    → All IsDigit q
    → All IsCut after
    → trim (before ++ (words f a q ++ after)) ≡ words f a q
unfolding trim
trim-words before f a q after cut ne h ne' h' cut' =
    let rest = b' ' ∷ a ++ (b' ' ∷ q) in
    let front = f ++ (b' ' ∷ a ++ (b' ' ∷ [])) in
    let left : trim_left (before ++ (words f a q ++ after)) ≡ words f a q ++ after =
      trim_left-cut before (words f a q ++ after) cut
      ∙ ap trim_left (append_assoc f rest after)
      ∙ trim_left-digits f (rest ++ after) ne h
      ∙ sym (append_assoc f rest after) in
    ap trim_right
      (left ∙ ap (λ (t : List ℕ). t ++ after) (words-append f a q) ∙ append_assoc front q after)
    ∙ trim_right-append front (q ++ after) q (trim_right-digits q after h' cut') ne'
    ∙ sym (words-append f a q)

split-words :
    (f a q : List ℕ)
    → All IsDigit f
    → All IsDigit a
    → All IsDigit q
    → split (words f a q) ≡ f ∷ a ∷ q ∷ []
split-words f a q hf ha hq =
    split-word f (a ++ (b' ' ∷ q)) hf
    ∙ ap (◌∷◌ f) (split-word a q ha ∙ ap (◌∷◌ a) (split-digits q hq))

valid→lt : (n : ℕ) → valid n ≡ true → n < 17
unfolding valid
valid→lt n h = ground arith

parse_request-words :
    (f a q : List ℕ) (n m k : ℕ)
    → Spells f n
    → Spells a m
    → Spells q k
    → valid n ≡ true
    → IsU16 m
    → IsU16 k
    → parse_request (f ∷ a ∷ q ∷ []) ≡ ok (n, m, k)
unfolding parse_request with_address with_quantity
parse_request-words f a q n m k hf ha hq supported wm wk =
    let small = valid→lt n supported in
    let n8 : u8 n ≡ n = omega arith in
    let m16 : u16 m ≡ m = omega arith in
    let k16 : u16 k ≡ k = omega arith in
    rw
      (
        parse_uint-Spells 7 f n hf (omega arith),
        parse_uint-Spells 16 a m ha (omega arith),
        parse_uint-Spells 16 q k hq (omega arith),
        n8,
        m16,
        k16,
        supported,
      )
      refl

-- A line of three words of decimal digits, with a space between two of them and any spaces, carriage
-- returns and line feeds around. If the first word is a valid function code and the others are 16-bit
-- numbers, then `parseRequest` gives those three of what `Trim` and `Split` make of the line.
pub parse_request_lem :
    (before f a q after : List ℕ) (n m k : ℕ)
    → All IsCut before
    → Spells f n
    → Spells a m
    → Spells q k
    → All IsCut after
    → valid n ≡ true
    → IsU16 m
    → IsU16 k
    → parse_request (split (trim (before ++ (words f a q ++ after)))) ≡ ok (n, m, k)
parse_request_lem before f a q after n m k cut hf ha hq cut' supported wm wk =
    ap (λ (t : List ℕ). parse_request (split t))
      (trim-words before f a q after cut hf.0 hf.1 hq.0 hq.1 cut')
    ∙ ap parse_request (split-words f a q hf.1 ha.1 hq.1)
    ∙ parse_request-words f a q n m k hf ha hq supported wm wk
