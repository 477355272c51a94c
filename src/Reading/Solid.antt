-- ===== src/Reading/Solid.antt =====
-- Texts with no white space at either end, which `strip` leaves alone.
use mathlib.Core.List.{append_assoc, reverse, reverse-append, reverse-cons, reverse-reverse}
use compliance_wizard_engine.Prelude.{
  ℕ, ◌≡◌, ◌≢◌, refl, sym, ap, ◌∙◌, Bool, true, false, not, [], ◌∷◌, ◌++◌, Text, text, is_space,
  drop_while, strip_by, strip, arith,
}

-- The first character, if there is one, is no space.
abbrev pub starts_solid : Text → Bool
starts_solid [] = true
starts_solid (c ∷ t) = not (is_space c)

pub record IsSolid (t : Text) : Type 0 where
  pub at_start : starts_solid t ≡ true
  pub at_end : starts_solid (reverse t) ≡ true

drop_while-solid : (t : Text) → starts_solid t ≡ true → drop_while is_space t ≡ t
unfolding drop_while
drop_while-solid [] h = refl
drop_while-solid (c ∷ t) h = ground arith

drop_while-starts : (t : Text) → starts_solid (drop_while is_space t) ≡ true
unfolding drop_while
drop_while-starts [] = refl
drop_while-starts (c ∷ t) = ground (arith, drop_while-starts t)

drop_while-append :
    (t : Text) (c : ℕ)
    → is_space c ≡ false
    → drop_while is_space (t ++ c ∷ []) ≡ drop_while is_space t ++ c ∷ []
unfolding drop_while
drop_while-append [] c h = ground arith
drop_while-append (d ∷ t) c h = ground (arith, drop_while-append t c h)

starts_solid-append : (s t : Text) → s ≢ [] → starts_solid (s ++ t) ≡ starts_solid s
starts_solid-append [] t h = absurd (h refl)
starts_solid-append (c ∷ s) t h = refl

pub strip-solid : (t : Text) → IsSolid t → strip t ≡ t
unfolding strip strip_by
strip-solid t h =
    rw (drop_while-solid t h.at_start)
      (rw (drop_while-solid (reverse t) h.at_end) (reverse-reverse t))

trimmed_end :
    (t : Text)
    → starts_solid t ≡ true
    → starts_solid (reverse (drop_while is_space (reverse t))) ≡ true
unfolding drop_while
trimmed_end [] h = refl
trimmed_end (c ∷ t) h =
    let off : is_space c ≡ false = ground arith in
    rw (reverse-cons c t) (
      rw (drop_while-append (reverse t) c off)
        (rw (reverse-append (drop_while is_space (reverse t)) (c ∷ [])) h))

pub strip-IsSolid : (t : Text) → IsSolid (strip t)
unfolding strip strip_by
strip-IsSolid t = record {
  at_start = trimmed_end (drop_while is_space t) (drop_while-starts t);
  at_end =
      rw (reverse-reverse (drop_while is_space (reverse (drop_while is_space t))))
        (drop_while-starts (reverse (drop_while is_space t)));
}

reverse-ne_nil : (t : Text) → t ≢ [] → reverse t ≢ []
reverse-ne_nil t h e = h (sym (reverse-reverse t) ∙ ap reverse e)

pub append-IsSolid :
    (s t : Text) → s ≢ [] → t ≢ [] → IsSolid s → IsSolid t → IsSolid (s ++ (text "\n" ++ t))
append-IsSolid s t hs ht a b =
    let back : reverse (s ++ 10 ∷ t) ≡ reverse t ++ (10 ∷ reverse s) =
      reverse-append s (10 ∷ t)
      ∙ (ap (λ l. l ++ reverse s) (reverse-cons 10 t)
          ∙ append_assoc (reverse t) (10 ∷ []) (reverse s)) in
    record {
      at_start = starts_solid-append s (10 ∷ t) hs ∙ a.at_start;
      at_end =
          rw back
            (starts_solid-append (reverse t) (10 ∷ reverse s) (reverse-ne_nil t ht) ∙ b.at_end);
    }
