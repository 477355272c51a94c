-- ===== src/Eurlex/Skips.antt =====
-- What the text extractor leaves out.
use compliance_wizard_engine.Prelude.{
  ℕ, suc, ◌<◌, ◌≡◌, refl, sym, ap, ◌∙◌, true, false, Bool, text, if◌then◌else◌, List, [], ◌∷◌, ◌++◌,
  Text, nat_eq, arith,
}
use compliance_wizard_engine.Eurlex.{
  Event, start, start_end, end, content, Extractor, with_part, broken_at, is_break, is_skip, handle,
  feed,
}

-- The events inside a skipped element, and those of them that are tags of other elements: texts, such
-- tags, and elements that are skipped themselves, each with its end.
pub data IsHidden : List Event → List Event → Type 0 where
  quiet : IsHidden [] []
  says : (s : Text) {es ts : List Event} → IsHidden es ts → IsHidden (content s ∷ es) ts
  opens :
      (tag : Text) {es ts : List Event}
      → is_skip tag ≡ false
      → IsHidden es ts
      → IsHidden (start tag ∷ es) (start tag ∷ ts)
  closes :
      (tag : Text) {es ts : List Event}
      → is_skip tag ≡ false
      → IsHidden es ts
      → IsHidden (end tag ∷ es) (end tag ∷ ts)
  stands :
      (tag : Text) {es ts : List Event}
      → IsHidden es ts
      → IsHidden (start_end tag ∷ es) (start_end tag ∷ ts)
  nested :
      (last : Text) {tag : Text} {inner es ts us : List Event}
      → is_skip tag ≡ true
      → is_skip last ≡ true
      → IsHidden inner ts
      → IsHidden es us
      → IsHidden (start tag ∷ inner ++ (end last ∷ es)) (ts ++ us)

feed-append : (es fs : List Event) (x : Extractor) → feed (es ++ fs) x ≡ feed fs (feed es x)
unfolding feed
feed-append [] fs x = refl
feed-append (e ∷ es) fs x = feed-append es fs (handle e x)

handle-start :
    (tag : Text) (x : Extractor)
    → is_skip tag ≡ true
    → handle (start tag) x ≡ record x { skip = suc x.skip }
unfolding handle
handle-start tag x h = rw h refl

handle-end :
    (tag : Text) (x : Extractor)
    → is_skip tag ≡ true
    → handle (end tag) (record x { skip = suc x.skip }) ≡ x
unfolding handle
handle-end tag x h = rw h (ground arith)

handle-content : (s : Text) (x : Extractor) → 0 < x.skip → handle (content s) x ≡ x
unfolding handle
handle-content s x h = ground arith

-- The extractor with these parts, this deep inside skipped elements.
abbrev at : List Text → ℕ → Extractor
at ps n = record { parts = ps; skip = n }

-- The parts after a tag that is no skipped element's.
abbrev broken : Text → List Text → List Text
broken tag ps = (broken_at tag (at ps 0)).parts

break_if :
    (b : Bool) (ps : List Text) (n : ℕ)
    → (if b then with_part (text "\n") (at ps n) else at ps n)
      ≡ at (if b then with_part (text "\n") (at ps 0) else at ps 0).parts n
break_if true ps n = refl
break_if false ps n = refl

broken_at-skip :
    (tag : Text) (ps : List Text) (n : ℕ) → broken_at tag (at ps n) ≡ at (broken tag ps) n
unfolding broken_at
broken_at-skip tag ps n = break_if (is_break tag) ps n

handle-opens :
    (tag : Text) (ps : List Text) (n : ℕ)
    → is_skip tag ≡ false
    → handle (start tag) (at ps n) ≡ at (broken tag ps) n
unfolding handle
handle-opens tag ps n h = rw h (broken_at-skip tag ps n)

handle-closes :
    (tag : Text) (ps : List Text) (n : ℕ)
    → is_skip tag ≡ false
    → handle (end tag) (at ps n) ≡ at (broken tag ps) n
unfolding handle
handle-closes tag ps n h = rw h (broken_at-skip tag ps n)

handle-stands :
    (tag : Text) (ps : List Text) (n : ℕ) → handle (start_end tag) (at ps n) ≡ at (broken tag ps) n
unfolding handle
handle-stands tag ps n = broken_at-skip tag ps n

-- The parts after the tags of other elements.
abbrev parts_after : List Event → List Text → List Text
parts_after ts ps = (feed ts (at ps 0)).parts

-- A tag that breaks lines alone, in front of events that do not look at the depth.
step :
    (e : Event) (ts : List Event) (ps qs : List Text) (n : ℕ)
    → ((m : ℕ) → handle e (at ps m) ≡ at qs m)
    → feed ts (at qs n) ≡ at (parts_after ts qs) n
    → feed (e ∷ ts) (at ps n) ≡ at (parts_after (e ∷ ts) ps) n
unfolding feed
step e ts ps qs n h k = ap (feed ts) (h n) ∙ (k ∙ ap (λ y. at y.parts n) (sym (ap (feed ts) (h 0))))

-- Those tags act alike inside and outside a skipped element.
tags-feed :
    {es ts : List Event}
    → IsHidden es ts
    → (ps : List Text) (n : ℕ) → feed ts (at ps n) ≡ at (parts_after ts ps) n
unfolding feed
tags-feed quiet ps n = refl
tags-feed (says s k) ps n = tags-feed k ps n
tags-feed (opens tag {es} {ts} a k) ps n =
    step (start tag) ts ps (broken tag ps) n (λ m. handle-opens tag ps m a)
      (tags-feed k (broken tag ps) n)
tags-feed (closes tag {es} {ts} a k) ps n =
    step (end tag) ts ps (broken tag ps) n (λ m. handle-closes tag ps m a)
      (tags-feed k (broken tag ps) n)
tags-feed (stands tag {es} {ts} k) ps n =
    step (start_end tag) ts ps (broken tag ps) n (λ m. handle-stands tag ps m)
      (tags-feed k (broken tag ps) n)
tags-feed (nested last {tag} {inner} {es} {ts} {us} a b k l) ps n =
    let q = parts_after ts ps in
    let both = (λ (m : ℕ).
      feed-append ts us (at ps m) ∙ (ap (feed us) (tags-feed k ps m) ∙ tags-feed l q m)) in
    both n ∙ ap (λ y. at y.parts n) (sym (both 0))

-- From the start of a skipped element to its end, if inside it only the tags of other elements act.
skipped-feed :
    {inner ts : List Event} (tag last : Text) (rest : List Event) (ps : List Text) (n : ℕ)
    → is_skip tag ≡ true
    → is_skip last ≡ true
    → IsHidden inner ts
    → feed inner (at ps (suc n)) ≡ feed ts (at ps (suc n))
    → feed (start tag ∷ inner ++ (end last ∷ rest)) (at ps n) ≡ feed rest (feed ts (at ps n))
unfolding feed
skipped-feed {inner} {ts} tag last rest ps n a b k same =
    let q = parts_after ts ps in
    ap (feed (inner ++ (end last ∷ rest))) (handle-start tag (at ps n) a)
    ∙ (feed-append inner (end last ∷ rest) (at ps (suc n))
        ∙ (ap (feed (end last ∷ rest)) (same ∙ tags-feed k ps (suc n))
            ∙ (ap (feed rest) (handle-end last (at q n) b)
                ∙ sym (ap (feed rest) (tags-feed k ps n)))))

-- Inside a skipped element only the tags of other elements act.
hidden-feed :
    {es ts : List Event}
    → IsHidden es ts
    → (ps : List Text) (n : ℕ) → feed es (at ps (suc n)) ≡ feed ts (at ps (suc n))
unfolding feed
hidden-feed quiet ps n = refl
hidden-feed (says s {es} k) ps n =
    ap (feed es) (handle-content s (at ps (suc n)) (omega arith)) ∙ hidden-feed k ps n
hidden-feed (opens tag {es} {ts} a k) ps n =
    let h = handle-opens tag ps (suc n) a in
    ap (feed es) h ∙ (hidden-feed k (broken tag ps) n ∙ sym (ap (feed ts) h))
hidden-feed (closes tag {es} {ts} a k) ps n =
    let h = handle-closes tag ps (suc n) a in
    ap (feed es) h ∙ (hidden-feed k (broken tag ps) n ∙ sym (ap (feed ts) h))
hidden-feed (stands tag {es} {ts} k) ps n =
    let h = handle-stands tag ps (suc n) in
    ap (feed es) h ∙ (hidden-feed k (broken tag ps) n ∙ sym (ap (feed ts) h))
hidden-feed (nested last {tag} {inner} {es} {ts} {us} a b k l) ps n =
    let q = parts_after ts ps in
    let outer = tags-feed k ps (suc n) in
    skipped-feed tag last es ps (suc n) a b k (hidden-feed k ps (suc n))
    ∙ (ap (feed es) outer
        ∙ (hidden-feed l q n
            ∙ (sym (ap (feed us) outer) ∙ sym (feed-append ts us (at ps (suc n))))))

-- A skipped element leaves nothing but the tags of other elements inside it, wherever it stands.
pub feed-skipped :
    (before inner ts rest : List Event) (tag last : Text) (x : Extractor)
    → is_skip tag ≡ true
    → is_skip last ≡ true
    → IsHidden inner ts
    → feed (before ++ (start tag ∷ inner ++ (end last ∷ rest))) x ≡ feed (before ++ (ts ++ rest)) x
feed-skipped before inner ts rest tag last x a b k =
    let y = feed before x in
    feed-append before (start tag ∷ inner ++ (end last ∷ rest)) x
    ∙ (skipped-feed tag last rest y.parts y.skip a b k (hidden-feed k y.parts y.skip)
        ∙ (sym (feed-append ts rest y) ∙ sym (feed-append before (ts ++ rest) x)))
