-- ===== src/Prelude/Texts.antt =====
-- Python's `str` as the list of its code points, with the methods and the patterns that the program
-- uses. Letters, digits and spaces are the ASCII ones; any other code point is none of these.
use Prim.Native.Nat.{ℕ, ◌+◌, ◌-◌, ◌*◌}
use Prim.Native.Char.{code}
use Prim.Native.String.{String}
use mathlib.Core.Path.{◌≡◌, refl}
use mathlib.Core.Logic.{◌↔◌}
use mathlib.Core.Bool.{Bool, true, false, ◌&&◌, ◌||◌}
use mathlib.Core.Option.{Option, none, some}
use mathlib.Core.List.{List, [], ◌∷◌, ◌++◌, map, reverse}
use native.Mathlib.Omega.{arith}
use compliance_wizard_engine.Prelude.Tests.{leb, ltb, nat_beq, if◌then◌else◌, Equality}
use compliance_wizard_engine.Prelude.Lists.{keep, contains}

abbrev pub Text : Type 0
Text = List ℕ

abbrev pub text : String → Text
text String.[] = []
text (String.◌∷◌ c s) = code c ∷ text s

unfoldable pub text_beq : Text → Text → Bool
text_beq [] [] = true
text_beq (a ∷ as') (b ∷ bs) = nat_beq a b && text_beq as' bs
text_beq _ _ = false

pub text_beq_iff : (s t : Text) → (text_beq s t ≡ true) ↔ (s ≡ t)
unfolding text_beq
text_beq_iff [] [] = (λ h. refl, λ h. refl)
text_beq_iff (a ∷ as') (b ∷ bs) =
    (λ h. ground (arith, (text_beq_iff as' bs).0), λ h. ground (arith, (text_beq_iff as' bs).1))
text_beq_iff [] (b ∷ bs) = (λ h. cc, λ h. cc)
text_beq_iff (a ∷ as') [] = (λ h. cc, λ h. cc)

instance abbrev pub text_eq : Equality Text
text_eq = record { same = text_beq; same_iff = text_beq_iff }

abbrev pub is_nil : Text → Bool
is_nil [] = true
is_nil (c ∷ s) = false

-- Python's `s or d`.
abbrev pub text_or : Text → Text → Text
text_or [] d = d
text_or (c ∷ s) d = c ∷ s

-- Python's `o or d` for a text that may be None.
abbrev pub opt_text_or : Option Text → Text → Text
opt_text_or none d = d
opt_text_or (some s) d = text_or s d

-- character classes
unfoldable pub is_digit : ℕ → Bool
is_digit c = leb b'0' c && leb c b'9'

unfoldable pub is_upper : ℕ → Bool
is_upper c = leb b'A' c && leb c b'Z'

unfoldable pub is_lower : ℕ → Bool
is_lower c = leb b'a' c && leb c b'z'

unfoldable pub is_alnum : ℕ → Bool
unfolding is_digit is_upper is_lower
is_alnum c = is_digit c || is_upper c || is_lower c

-- the white space of `str.strip` and `\s`
unfoldable pub is_space : ℕ → Bool
is_space c = leb 9 c && leb c 13 || leb 28 c && leb c 32

unfoldable pub lower_char : ℕ → ℕ
unfolding is_upper
lower_char c = if is_upper c then c + 32 else c

unfoldable pub upper_char : ℕ → ℕ
unfolding is_lower
upper_char c = if is_lower c then c - 32 else c

unfoldable pub lower : Text → Text
unfolding lower_char
lower s = map lower_char s

unfoldable pub upper : Text → Text
unfolding upper_char
upper s = map upper_char s

unfoldable pub take_while : (ℕ → Bool) → Text → Text
take_while p [] = []
take_while p (c ∷ s) = if p c then c ∷ take_while p s else []

unfoldable pub drop_while : (ℕ → Bool) → Text → Text
drop_while p [] = []
drop_while p (c ∷ s) = if p c then drop_while p s else c ∷ s

-- `s.strip()` and `s.strip(chars)`
unfoldable pub strip_by : (ℕ → Bool) → Text → Text
unfolding drop_while
strip_by p s = reverse (drop_while p (reverse (drop_while p s)))

unfoldable pub strip : Text → Text
unfolding strip_by
strip s = strip_by is_space s

unfoldable pub starts_with : Text → Text → Bool
starts_with s [] = true
starts_with [] (p ∷ ps) = false
starts_with (c ∷ s) (p ∷ ps) = nat_beq c p && starts_with s ps

-- `needle in s`
unfoldable pub has_part : Text → Text → Bool
unfolding starts_with
has_part needle [] = is_nil needle
has_part needle (c ∷ s) = starts_with (c ∷ s) needle || has_part needle s

-- `re.sub(r"\D", "", s)`
unfoldable pub digits : Text → Text
unfolding is_digit
digits s = keep is_digit s

-- `int(s)` for a run of digits
unfoldable pub number_from : ℕ → Text → ℕ
number_from n [] = n
number_from n (c ∷ s) = number_from (n * 10 + (c - b'0')) s

pub digits_idem : (s : Text) → digits (digits s) ≡ digits s
unfolding digits
digits_idem [] = refl
digits_idem (c ∷ s) = ground (arith, digits_idem s)

-- The order of `sorted` on texts.
unfoldable pub text_leb : Text → Text → Bool
text_leb [] t = true
text_leb (a ∷ s) [] = false
text_leb (a ∷ s) (b ∷ t) = ltb a b || nat_beq a b && text_leb s t

-- The members of a set built from a list.
unfoldable pub dedup : List Text → List Text
dedup [] = []
dedup (t ∷ ts) = let rest = dedup ts in if contains t rest then rest else t ∷ rest

-- `sep.join(parts)`
unfoldable pub joined : Text → List Text → Text
joined sep [] = []
joined sep (part ∷ []) = part
joined sep (part ∷ parts) = part ++ (sep ++ joined sep parts)
