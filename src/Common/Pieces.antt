-- ===== src/Common/Pieces.antt =====
-- `str.split` on a character.
use Prim.Native.Nat.{ℕ}
use credbroker.Common.Tests.{◌==◌, ==_refl, if◌then◌else◌}
use credbroker.Common.Texts.{Text, has}
use mathlib.Core.Bool.{Bool, false, ◌||◌}
use mathlib.Core.List.{List, [], ◌∷◌, ◌++◌, append_assoc, append-nil}
use mathlib.Core.Path.{◌≡◌, refl, ◌∙◌}
use native.Mathlib.Omega.{arith}

-- `t.split(c)`, for a character; the first argument is the piece that is being read.
split_from : Text → ℕ → Text → List Text
split_from piece c [] = piece ∷ []
split_from piece c (x ∷ t) =
    let cut = piece ∷ split_from [] c t in
    let longer = split_from (piece ++ x ∷ []) c t in if x == c then cut else longer

unfoldable pub split : ℕ → Text → List Text
unfolding split_from
split c t = split_from [] c t

first_false : (a b : Bool) → (a || b) ≡ false → a ≡ false
first_false a b h = ground arith

rest_false : (a b : Bool) → (a || b) ≡ false → b ≡ false
rest_false a b h = ground arith

split_from-piece :
    (p a : Text) (c : ℕ) (rest : Text)
    → has c a ≡ false
    → split_from p c (a ++ c ∷ rest) ≡ (p ++ a) ∷ split_from [] c rest
unfolding has split_from
split_from-piece p [] c rest h = rw (==_refl, append-nil) refl
split_from-piece p (x ∷ a) c rest h = rw (first_false (x == c) (has c a) h) (
    split_from-piece (p ++ x ∷ []) a c rest (rest_false (x == c) (has c a) h)
    ∙ rw append_assoc refl)

split_from-last : (p a : Text) (c : ℕ) → has c a ≡ false → split_from p c a ≡ (p ++ a) ∷ []
unfolding has split_from
split_from-last p [] c h = rw append-nil refl
split_from-last p (x ∷ a) c h =
    rw (first_false (x == c) (has c a) h)
      (split_from-last (p ++ x ∷ []) a c (rest_false (x == c) (has c a) h) ∙ rw append_assoc refl)

-- A piece without the separator, before one and at the end.
pub split-piece :
    (a : Text) (c : ℕ) (rest : Text) → has c a ≡ false → split c (a ++ c ∷ rest) ≡ a ∷ split c rest
unfolding split
split-piece a c rest h = split_from-piece [] a c rest h

pub split-last : (a : Text) (c : ℕ) → has c a ≡ false → split c a ≡ a ∷ []
unfolding split
split-last a c h = split_from-last [] a c h
