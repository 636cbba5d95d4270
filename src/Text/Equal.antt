-- ===== src/Text/Equal.antt =====
-- text_equal and starts_with decide the relations that they are named for.
use glass_os.Prelude.{◌≡◌, refl, ◌↔◌, true, [], ◌∷◌, ◌++◌, arith}
use glass_os.Text.{Text, text_equal, starts_with}

pub text_equal-eq : (a b : Text) → text_equal a b ≡ true → a ≡ b
unfolding text_equal
text_equal-eq [] [] h = refl
text_equal-eq [] (y ∷ ys) h = ground arith
text_equal-eq (x ∷ xs) [] h = ground arith
text_equal-eq (x ∷ xs) (y ∷ ys) h = ground (arith, text_equal-eq xs ys)

pub text_equal_refl : (a : Text) → text_equal a a ≡ true
unfolding text_equal
text_equal_refl [] = refl
text_equal_refl (x ∷ xs) = ground (arith, text_equal_refl xs)

-- `text_equal` returns true exactly for equal texts.
pub text_equal_iff : (a b : Text) → (text_equal a b ≡ true) ↔ (a ≡ b)
text_equal_iff a b = (text_equal-eq a b, λ e. subst' e (text_equal_refl a))
  where
    subst' : a ≡ b → text_equal a a ≡ true → text_equal a b ≡ true
    subst' e h = rw (← e) h

pub starts_with-append : (p rest : Text) → starts_with (p ++ rest) p ≡ true
unfolding starts_with
starts_with-append [] rest = refl
starts_with-append (x ∷ xs) rest = ground (arith, starts_with-append xs rest)
