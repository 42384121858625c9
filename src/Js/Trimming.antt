-- ===== src/Js/Trimming.antt =====
-- Trimming a text that is trimmed.
use backups_microservice.Prelude.{ℕ, ◌≡◌, refl, Bool, false, [], ◌∷◌, arith, Bool-cases, inl, inr}
use backups_microservice.Js.{Text, strip_start, strip_end, cons_unless, is_space, trim}

module _ (p : ℕ → Bool) where
  StartsOutside : Text → Type 0
  StartsOutside [] = Unit
  StartsOutside (c ∷ s) = p c ≡ false

  strip_start-StartsOutside : (s : Text) → StartsOutside (strip_start p s)
  unfolding StartsOutside strip_start
  strip_start-StartsOutside [] = tt
  strip_start-StartsOutside (c ∷ s) = elim (Bool-cases (p c)) [
    | inl h ↦ rw h (strip_start-StartsOutside s)
    | inr h ↦ rw h h
  ]

  cons_outside : (c : ℕ) (s : Text) → p c ≡ false → StartsOutside (cons_unless (p c) c s)
  unfolding StartsOutside
  cons_outside c [] h = rw h h
  cons_outside c (d ∷ s) h = h

  strip_end-StartsOutside : (s : Text) → StartsOutside s → StartsOutside (strip_end p s)
  unfolding StartsOutside strip_end
  strip_end-StartsOutside [] h = tt
  strip_end-StartsOutside (c ∷ s) h = cons_outside c (strip_end p s) h

  strip_start_fixed : (s : Text) → StartsOutside s → strip_start p s ≡ s
  unfolding StartsOutside strip_start
  strip_start_fixed [] h = refl
  strip_start_fixed (c ∷ s) h = rw h

  strip_end-cons :
      (c : ℕ) (t : Text)
      → strip_end p t ≡ t
      → strip_end p (cons_unless (p c) c t) ≡ cons_unless (p c) c t
  unfolding strip_end
  strip_end-cons c [] h = ground arith
  strip_end-cons c (d ∷ t) h = rw (h, cons_unless)

  pub strip_end_idem : (s : Text) → strip_end p (strip_end p s) ≡ strip_end p s
  unfolding strip_end
  strip_end_idem [] = refl
  strip_end_idem (c ∷ s) = strip_end-cons c (strip_end p s) (strip_end_idem s)

pub trim_idem : (s : Text) → trim (trim s) ≡ trim s
unfolding trim
trim_idem s =
    rw
      (strip_start_fixed is_space _
        (strip_end-StartsOutside is_space _ (strip_start-StartsOutside is_space s)))
      (strip_end_idem is_space (strip_start is_space s))
