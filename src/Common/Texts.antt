-- ===== src/Common/Texts.antt =====
-- A Python `str` as the list of its code points, and the string methods that the code uses.
use Prim.Native.Nat.{ℕ, zero, suc, ◌+◌, ◌-◌, ◌*◌, ◌/◌, ◌%◌, ◌<◌, ◌≤◌}
use Prim.Native.Char.{code}
use Prim.Native.String.{String}
use mathlib.Core.Path.{◌≡◌, refl, ap, ◌∙◌, sym}
use mathlib.Core.Logic.{◌↔◌, inl, inr}
use mathlib.Core.Bool.{Bool, true, false, ◌&&◌, ◌||◌}
use mathlib.Core.List.{List, [], ◌∷◌, ◌++◌, foldl, foldl-append}
use native.Mathlib.Omega.{arith}
use credbroker.Common.Tests.{◌==◌, ltb, if◌then◌else◌, Bool-cases}

abbrev pub Text : Type 0
Text = List ℕ

-- The code points of a literal.
abbrev pub codes : String → Text
codes String.[] = []
codes (String.◌∷◌ c s) = code c ∷ codes s

module _ {ℓ} {A : Type ℓ} where
  abbrev pub length : List A → ℕ
  length [] = 0
  length (x ∷ xs) = suc (length xs)

  abbrev pub take : ℕ → List A → List A
  take zero xs = []
  take (suc n) [] = []
  take (suc n) (x ∷ xs) = x ∷ take n xs

  abbrev pub drop : ℕ → List A → List A
  drop zero xs = xs
  drop (suc n) [] = []
  drop (suc n) (x ∷ xs) = drop n xs

  pub length-append : (xs ys : List A) → length (xs ++ ys) ≡ length xs + length ys
  length-append [] ys = omega arith
  length-append (x ∷ xs) ys = omega (arith, length-append xs ys)

  pub take-append : (xs ys : List A) → take (length xs) (xs ++ ys) ≡ xs
  take-append [] ys = refl
  take-append (x ∷ xs) ys = ap (λ t. x ∷ t) (take-append xs ys)

  pub drop-append : (xs ys : List A) → drop (length xs) (xs ++ ys) ≡ ys
  drop-append [] ys = refl
  drop-append (x ∷ xs) ys = drop-append xs ys

-- `a == b` on texts
unfoldable pub text_eq : Text → Text → Bool
text_eq [] [] = true
text_eq [] (y ∷ ys) = false
text_eq (x ∷ xs) [] = false
text_eq (x ∷ xs) (y ∷ ys) = (x == y) && text_eq xs ys

pub text_eq_refl : (a : Text) → text_eq a a ≡ true
unfolding text_eq
text_eq_refl [] = refl
text_eq_refl (x ∷ xs) = ground (arith, text_eq_refl xs)

pub text_eq→eq : (a b : Text) → text_eq a b ≡ true → a ≡ b
unfolding text_eq
text_eq→eq [] [] h = refl
text_eq→eq [] (y ∷ ys) h = cc
text_eq→eq (x ∷ xs) [] h = cc
text_eq→eq (x ∷ xs) (y ∷ ys) h = ground (arith, text_eq→eq xs ys)

pub text_eq_iff : (a b : Text) → (text_eq a b ≡ true) ↔ (a ≡ b)
text_eq_iff a b = (text_eq→eq a b, λ e. ap (text_eq a) (sym e) ∙ text_eq_refl a)

pub text_eq-heads : (x y : ℕ) (a b : Text) → (x == y) ≡ false → text_eq (x ∷ a) (y ∷ b) ≡ false
unfolding text_eq
text_eq-heads x y a b h = rw h refl

pub text_eq-tails : (x : ℕ) (a b : Text) → text_eq (x ∷ a) (x ∷ b) ≡ text_eq a b
unfolding text_eq
text_eq-tails x a b = ground arith

-- `s.startswith(p)`
unfoldable pub starts_with : Text → Text → Bool
starts_with s [] = true
starts_with [] (p ∷ ps) = false
starts_with (c ∷ s) (p ∷ ps) = (c == p) && starts_with s ps

pub starts_with-append : (p s : Text) → starts_with (p ++ s) p ≡ true
unfolding starts_with
starts_with-append [] s = refl
starts_with-append (x ∷ p) s = ground (arith, starts_with-append p s)

pub append_cancel_left : (p a b : Text) → p ++ a ≡ p ++ b → a ≡ b
append_cancel_left [] a b h = h
append_cancel_left (x ∷ p) a b h = append_cancel_left p a b (ap (drop 1) h)

-- Decimal digits of a number, with fuel; a number has fewer digits than its successor.
decimal_digits : ℕ → ℕ → Text
decimal_digits zero n = []
decimal_digits (suc f) n =
    let rest = decimal_digits f (n / 10) in
    if ltb n 10 then (48 + n) ∷ [] else rest ++ (48 + n % 10) ∷ []

-- `str(n)` of an `int` that is not negative
unfoldable pub decimal : ℕ → Text
unfolding decimal_digits
decimal n = decimal_digits (suc n) n

-- The number that a text of decimal digits denotes.
unfoldable pub decimal_value : Text → ℕ
decimal_value t = foldl (λ n c. n * 10 + (c - 48)) 0 t

decimal_value-append :
    (t : Text) (c : ℕ) → decimal_value (t ++ c ∷ []) ≡ decimal_value t * 10 + (c - 48)
unfolding decimal_value
decimal_value-append t c = rw foldl-append

decimal_value-digits : (f n : ℕ) → n < f → decimal_value (decimal_digits f n) ≡ n
unfolding decimal_digits
decimal_value-digits zero n h = elim h [ ]
decimal_value-digits (suc f) n h = elim (Bool-cases (ltb n 10)) [
  | inl one ↦ rw one (unfold decimal_value in omega arith)
  | inr more ↦
      rw (more, decimal_value-append, decimal_value-digits f (n / 10) (ground arith)) (omega arith)
]

pub decimal_value-decimal : (n : ℕ) → decimal_value (decimal n) ≡ n
unfolding decimal
decimal_value-decimal n = decimal_value-digits (suc n) n (omega arith)

pub decimal_inj : (m n : ℕ) → decimal m ≡ decimal n → m ≡ n
decimal_inj m n h = sym (decimal_value-decimal m) ∙ ap decimal_value h ∙ decimal_value-decimal n

-- `c in t`, for a character
unfoldable pub has : ℕ → Text → Bool
has c [] = false
has c (x ∷ t) = (x == c) || has c t

pub has-append : (c : ℕ) (s t : Text) → has c s ≡ false → has c t ≡ false → has c (s ++ t) ≡ false
unfolding has
has-append c [] t hs ht = ht
has-append c (x ∷ s) t hs ht = ground (arith, has-append c s t)

has-digits : (f c n : ℕ) → 58 ≤ c → has c (decimal_digits f n) ≡ false
unfolding has decimal_digits
has-digits zero c n h = refl
has-digits (suc f) c n h = elim (Bool-cases (ltb n 10)) [
  | inl one ↦ rw one (ground arith)
  | inr more ↦
      rw more
        (has-append c (decimal_digits f (n / 10)) _ (has-digits f c (n / 10) h) (ground arith))
]

-- Digits are what `decimal` writes.
pub has-decimal : (c n : ℕ) → 58 ≤ c → has c (decimal n) ≡ false
unfolding decimal
has-decimal c n h = has-digits (suc n) c n h

-- Whether the text of an integer is that of a negative one: it begins with "-".
abbrev pub is_negative : Text → Bool
is_negative [] = false
is_negative (c ∷ t) = c == 45

is_negative-append :
    (s t : Text) → is_negative s ≡ false → is_negative t ≡ false → is_negative (s ++ t) ≡ false
is_negative-append [] t hs ht = ht
is_negative-append (x ∷ s) t hs ht = hs

is_negative-digits : (f n : ℕ) → is_negative (decimal_digits f n) ≡ false
unfolding decimal_digits
is_negative-digits zero n = refl
is_negative-digits (suc f) n = elim (Bool-cases (ltb n 10)) [
  | inl one ↦ rw one (ground arith)
  | inr more ↦ rw more (
      is_negative-append (decimal_digits f (n / 10)) _ (is_negative-digits f (n / 10))
        (ground arith))
]

pub is_negative-decimal : (n : ℕ) → is_negative (decimal n) ≡ false
unfolding decimal
is_negative-decimal n = is_negative-digits (suc n) n
