-- ===== src/Js/Laws.antt =====
-- Laws of the string operations.
use backups_microservice.Prelude.{
  ℕ, ◌-◌, ◌+◌, ◌≡◌, refl, ◌↔◌, ap, sym, true, [], ◌∷◌, ◌++◌, arith, &&_iff, leb_iff, length, take,
  drop, length-append, drop-append, take-append, take-append-drop, ◌∙◌,
}
use backups_microservice.Js.{Text, text_eq, starts_with, ends_with, slice_before}

pub text_eq_refl : (s : Text) → text_eq s s ≡ true
unfolding text_eq
text_eq_refl [] = refl
text_eq_refl (c ∷ s) = ground (arith, text_eq_refl s)

pub eq_of_text_eq : (s t : Text) → text_eq s t ≡ true → s ≡ t
unfolding text_eq
eq_of_text_eq [] [] h = refl
eq_of_text_eq [] (b ∷ t) h = cc
eq_of_text_eq (a ∷ s) [] h = cc
eq_of_text_eq (a ∷ s) (b ∷ t) h = ground (arith, eq_of_text_eq s t)

pub text_eq_of_eq : (s t : Text) → s ≡ t → text_eq s t ≡ true
text_eq_of_eq s t e = rw e (text_eq_refl t)

-- `===` decides equality of texts.
pub text_eq_iff : (s t : Text) → (text_eq s t ≡ true) ↔ (s ≡ t)
text_eq_iff s t = (eq_of_text_eq s t, text_eq_of_eq s t)

pub starts_with-append : (p s : Text) → starts_with p (p ++ s) ≡ true
unfolding starts_with
starts_with-append [] s = refl
starts_with-append (a ∷ p) s = ground (arith, starts_with-append p s)

sub-add : (n m : ℕ) → n + m - m ≡ n
sub-add n m = omega arith

length_sub : (s p : Text) → length (s ++ p) - length p ≡ length s
length_sub s p = rw length-append (sub-add (length s) (length p))

pub ends_with-append : (s p : Text) → ends_with p (s ++ p) ≡ true
unfolding ends_with
ends_with-append s p = rw (length_sub s p) (
    rw (drop-append s p)
      (ground (arith, text_eq_refl p, length-append s p, leb_iff (length p) (length (s ++ p)))))

pub slice_before-append : (s p : Text) → slice_before (length p) (s ++ p) ≡ s
unfolding slice_before
slice_before-append s p = rw (length_sub s p) (take-append s p)

-- A text that ends with `p` is what `slice(0, -p.length)` leaves, followed by `p`.
pub append_of_ends_with : (p s : Text) → ends_with p s ≡ true → slice_before (length p) s ++ p ≡ s
unfolding ends_with slice_before
append_of_ends_with p s h =
    let e : drop (length s - length p) s ≡ p = eq_of_text_eq _ p ((&&_iff _ _).0 h).1 in
    subst_drop e
  where
    subst_drop : drop (length s - length p) s ≡ p → take (length s - length p) s ++ p ≡ s
    subst_drop e =
        ap (λ t. take (length s - length p) s ++ t) (sym e)
        ∙ take-append-drop (length s - length p) s

pub starts_with-append_left :
    (p s t : Text) → starts_with p s ≡ true → starts_with p (s ++ t) ≡ true
unfolding starts_with
starts_with-append_left [] s t h = refl
starts_with-append_left (a ∷ p) [] t h = cc
starts_with-append_left (a ∷ p) (b ∷ s) t h = ground (arith, starts_with-append_left p s t)
