-- ===== src/Knowledge/Chunking/Sentences.antt =====
-- What the sentences of a text keep of it: `_split_sentences` of app/knowledge/ingest/chunker.py.
use general_agent_framework.Prelude.{
  ◌≡◌, refl, ap, sym, ◌∙◌, Bool, true, false, not, List, [], ◌∷◌, ◌++◌, arith, All, All-append,
  Bool-cases, inl, inr, if◌then◌else◌,
}
use general_agent_framework.Knowledge.Chunking.{
  is_empty, extend_last, lstrip, rstrip, strip, has_words, close_segment, sentences_from,
}

pub append_nil : {A : Type 0} (xs : List A) → xs ++ [] ≡ xs
append_nil [] = refl
append_nil (x ∷ xs) = rw (append_nil xs) refl

pub append_assoc : {A : Type 0} (xs ys zs : List A) → (xs ++ ys) ++ zs ≡ xs ++ (ys ++ zs)
append_assoc [] ys zs = refl
append_assoc (x ∷ xs) ys zs = rw (append_assoc xs ys zs) refl

module _ {C : Type 0} (is_space is_ender : C → Bool) where
  -- the characters that `strip` leaves alone
  abbrev pub ink : List C → List C
  ink [] = []
  ink (c ∷ s) = let rest = ink s in if is_space c then rest else c ∷ rest

  abbrev pub inks : List (List C) → List C
  inks [] = []
  inks (s ∷ ss) = ink s ++ inks ss

  -- the text from its first character that ends no sentence
  abbrev pub drop_enders : List C → List C
  drop_enders [] = []
  drop_enders (c ∷ s) = let rest = drop_enders s in if is_ender c then rest else c ∷ s

  pub ink-append : (s t : List C) → ink (s ++ t) ≡ ink s ++ ink t
  ink-append [] t = refl
  ink-append (c ∷ s) t = ground (arith, ink-append s t)

  inks-append : (xs ys : List (List C)) → inks (xs ++ ys) ≡ inks xs ++ inks ys
  inks-append [] ys = refl
  inks-append (x ∷ xs) ys =
      ap (λ r. ink x ++ r) (inks-append xs ys) ∙ sym (append_assoc (ink x) (inks xs) (inks ys))

  pub inks-snoc : (xs : List (List C)) (s : List C) → inks (xs ++ s ∷ []) ≡ inks xs ++ ink s
  inks-snoc xs s = inks-append xs (s ∷ []) ∙ ap (λ r. inks xs ++ r) (append_nil (ink s))

  ink-lstrip : (s : List C) → ink (lstrip is_space is_ender s) ≡ ink s
  unfolding lstrip
  ink-lstrip [] = refl
  ink-lstrip (c ∷ s) = ground (arith, ink-lstrip s)

  ink-empty : (s : List C) → is_empty s ≡ true → ink s ≡ []
  ink-empty [] e = refl
  ink-empty (c ∷ s) e = ground arith

  ink-rstrip : (s : List C) → ink (rstrip is_space is_ender s) ≡ ink s
  unfolding rstrip
  ink-rstrip [] = refl
  ink-rstrip (c ∷ s) = ground (arith, ink-rstrip s, ink-empty (rstrip is_space is_ender s))

  pub ink-strip : (s : List C) → ink (strip is_space is_ender s) ≡ ink s
  unfolding strip
  ink-strip s = ink-rstrip (lstrip is_space is_ender s) ∙ ink-lstrip s

  inks-extend_last :
      (s x : List C) (xs : List (List C)) → inks (extend_last s (x ∷ xs)) ≡ inks (x ∷ xs) ++ ink s
  inks-extend_last s x [] =
      append_nil (ink (x ++ s)) ∙ ink-append x s ∙ ap (λ r. r ++ ink s) (sym (append_nil (ink x)))
  inks-extend_last s x (y ∷ xs) =
      ap (λ r. ink x ++ r) (inks-extend_last s y xs)
      ∙ sym (append_assoc (ink x) (inks (y ∷ xs)) (ink s))

  -- once there is a sentence, a segment is kept
  abbrev Extends : List (List C) → List C → List (List C) → Type 0
  Extends ss s ss' = (is_empty ss' ≡ false) × (inks ss' ≡ inks ss ++ ink s)

  close_segment-Extends :
      (s : List C) (ss : List (List C))
      → is_empty ss ≡ false
      → Extends ss s (close_segment is_space is_ender s ss)
  unfolding close_segment
  close_segment-Extends s [] some_ = ground arith
  close_segment-Extends [] (x ∷ xs) some_ = (refl, sym (append_nil (inks (x ∷ xs))))
  close_segment-Extends (c ∷ s) (x ∷ xs) some_ =
      elim (Bool-cases (has_words is_space is_ender (c ∷ s))) [
        | inl e ↦ rw e (refl, inks-snoc (x ∷ xs) (c ∷ s))
        | inr e ↦ rw e (extended x xs, inks-extend_last (c ∷ s) x xs)
      ]
    where
      extended : (y : List C) (ys : List (List C)) → is_empty (extend_last (c ∷ s) (y ∷ ys)) ≡ false
      extended y [] = refl
      extended y (z ∷ zs) = refl

  absorbed :
      (ss ss' : List (List C)) (s text : List C)
      → inks ss' ≡ inks ss ++ ink s
      → inks ss' ++ ink text ≡ inks ss ++ ink (s ++ text)
  absorbed ss ss' s text kept =
      ap (λ r. r ++ ink text) kept
      ∙ append_assoc (inks ss) (ink s) (ink text)
      ∙ ap (λ r. inks ss ++ r) (sym (ink-append s text))

  -- a text that `strip` leaves nothing of
  pub blank : (s : List C) → is_empty (strip is_space is_ender s) ≡ true → ink s ≡ []
  blank s e = sym (ink-strip s) ∙ ink-empty (strip is_space is_ender s) e

  sentences_from-inks :
      (segment : List C) (ss : List (List C)) (text : List C)
      → is_empty ss ≡ false
      → inks (sentences_from is_space is_ender segment ss text) ≡ inks ss ++ ink (segment ++ text)
  unfolding sentences_from
  sentences_from-inks segment ss [] some_ =
      elim (Bool-cases (is_empty (strip is_space is_ender segment))) [
        | inl e ↦ rw (e, append_nil segment, blank segment e) (sym (append_nil (inks ss)))
        | inr e ↦
            rw (e, append_nil segment)
              (inks-snoc ss (strip is_space is_ender segment)
                ∙ ap (λ r. inks ss ++ r) (ink-strip segment))
      ]
  sentences_from-inks segment ss (c ∷ text) some_ =
      let seg = segment ++ c ∷ [] in
      let s = strip is_space is_ender seg in
      let (still, kept) = close_segment-Extends s ss some_ in
      elim (Bool-cases (is_ender c)) [
        | inl e ↦ rw e (
            sentences_from-inks [] (close_segment is_space is_ender s ss) text still
            ∙ absorbed ss (close_segment is_space is_ender s ss) seg text
                (kept ∙ ap (λ r. inks ss ++ r) (ink-strip seg))
            ∙ ap (λ r. inks ss ++ ink r) (append_assoc segment (c ∷ []) text))
        | inr e ↦ rw e (
            sentences_from-inks seg ss text some_
            ∙ ap (λ r. inks ss ++ ink r) (append_assoc segment (c ∷ []) text))
      ]

  -- a segment without an ender, and one that closes it
  abbrev Open : List C → Type 0
  Open = All (λ c. is_ender c ≡ false)

  words :
      (seg : List C) (c : C)
      → Open seg
      → is_ender c ≡ true
      → is_space c ≡ false
      → has_words is_space is_ender (strip is_space is_ender (seg ++ c ∷ []))
        ≡ not (is_empty (ink seg))
  unfolding has_words strip lstrip rstrip
  words [] c open_ ends inked = ground arith
  words (y ∷ seg) c open_ ends inked = ground (arith, words seg c open_.1 ends inked)

  drop_enders-Open :
      (seg text : List C)
      → Open seg
      → is_empty (ink seg) ≡ false
      → drop_enders (ink seg ++ text) ≡ ink seg ++ text
  drop_enders-Open [] text open_ inked = ground arith
  drop_enders-Open (y ∷ seg) text open_ inked = ground (arith, drop_enders-Open seg text open_.1)

  close_segment-first :
      (s : List C)
      → close_segment is_space is_ender s []
        ≡ (if has_words is_space is_ender s then s ∷ [] else [])
  unfolding close_segment has_words
  close_segment-first [] = refl
  close_segment-first (c ∷ s) = ground arith

  nothing : {A : Type 0} (s : List A) → is_empty s ≡ true → s ≡ []
  nothing [] e = refl
  nothing (c ∷ s) e = ground arith

  tail-inks :
      (segment : List C)
      → Open segment
      → inks (sentences_from is_space is_ender segment [] []) ≡ drop_enders (ink segment ++ [])
  unfolding sentences_from
  tail-inks segment open_ = whole ∙ elim (Bool-cases (is_empty (ink segment))) [
    | inl e ↦ rw (nothing (ink segment) e) refl
    | inr e ↦ sym (drop_enders-Open segment [] open_ e ∙ append_nil (ink segment))
  ]
    where
      whole : inks (sentences_from is_space is_ender segment [] []) ≡ ink segment
      whole = elim (Bool-cases (is_empty (strip is_space is_ender segment))) [
        | inl e ↦ rw (e, blank segment e) refl
        | inr e ↦ rw e (append_nil (ink (strip is_space is_ender segment)) ∙ ink-strip segment)
      ]

  moved :
      (segment : List C) (c : C) (text : List C)
      → ink (segment ++ c ∷ []) ++ ink text ≡ ink segment ++ ink (c ∷ text)
  moved segment c text =
      sym (ink-append (segment ++ c ∷ []) text)
      ∙ ap ink (append_assoc segment (c ∷ []) text)
      ∙ ink-append segment (c ∷ text)

  -- before there is a sentence, enders alone are dropped
  pub first_sentences :
      (segment text : List C)
      → ((c : C) → is_ender c ≡ true → is_space c ≡ false)
      → Open segment
      → inks (sentences_from is_space is_ender segment [] text)
        ≡ drop_enders (ink segment ++ ink text)
  unfolding sentences_from
  first_sentences segment [] apart open_ = tail-inks segment open_
  first_sentences segment (c ∷ text) apart open_ =
      let s = strip is_space is_ender (segment ++ c ∷ []) in
      elim (Bool-cases (is_ender c)) [
        | inl e ↦ rw e (elim (Bool-cases (is_empty (ink segment))) [
          | inl q ↦
              let none_ = words segment c open_ e (apart c e) in
              rw (close_segment-first s, none_, nothing (ink segment) q, apart c e)
                (rw e (first_sentences [] text apart tt))
          | inr q ↦
              let some_ = words segment c open_ e (apart c e) in
              rw (close_segment-first s, some_, q)
                (sentences_from-inks [] (s ∷ []) text refl
                  ∙ ap (λ r. r ++ ink text) (append_nil (ink s) ∙ ink-strip (segment ++ c ∷ []))
                  ∙ moved segment c text
                  ∙ sym (drop_enders-Open segment (ink (c ∷ text)) open_ q))
        ])
        | inr e ↦ rw e (
            first_sentences (segment ++ c ∷ []) text apart
              (All-append (λ x. is_ender x ≡ false) segment (c ∷ []) open_ (e, tt))
            ∙ ap drop_enders (moved segment c text))
      ]
