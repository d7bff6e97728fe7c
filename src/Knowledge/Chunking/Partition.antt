-- ===== src/Knowledge/Chunking/Partition.antt =====
-- What the cutting of a text without overlap keeps of it: `_split_text` of
-- app/knowledge/ingest/chunker.py, as the clauses are cut into their parents.
use general_agent_framework.Prelude.{
  ℕ, zero, suc, ◌+◌, ◌≤◌, ◌≡◌, refl, ap, sym, ◌∙◌, Bool, true, false, ◌||◌, Option, none, some,
  List, [], ◌∷◌, ◌++◌, length, take, drop, leb, arith, Bool-cases, inl, inr, take-append-drop,
  if◌then◌else◌,
}
use general_agent_framework.Knowledge.Chunking.{
  is_empty, remainder, Cut, hard_cut, strip, split_sentences, joined, after_cut, add_sentence,
  last_piece, add_sentences, split_text,
}
use general_agent_framework.Knowledge.Chunking.Termination.{split_text-some}
use general_agent_framework.Knowledge.Chunking.Sentences.{
  append_nil, append_assoc, ink, inks, drop_enders, ink-append, inks-snoc, ink-strip, blank,
  first_sentences,
}

module _ {C : Type 0} (is_space is_ender : C → Bool) where
  -- the ink of the pieces, the current one, and what is left of a sentence
  abbrev ink_of : Cut C → List C
  ink_of (pieces, current, s) =
      inks is_space is_ender pieces ++ (ink is_space is_ender current ++ ink is_space is_ender s)

  take-drop :
      (n : ℕ) (s : List C)
      → ink is_space is_ender (take n s) ++ ink is_space is_ender (drop n s)
        ≡ ink is_space is_ender s
  take-drop n s =
      sym (ink-append is_space is_ender (take n s) (drop n s))
      ∙ ap (ink is_space is_ender) (take-append-drop n s)

  shifted :
      (n : ℕ) (pieces : List (List C)) (s : List C)
      → inks is_space is_ender (pieces ++ take n s ∷ []) ++ ink is_space is_ender (drop n s)
        ≡ inks is_space is_ender pieces ++ ink is_space is_ender s
  shifted n pieces s =
      ap (λ r. r ++ ink is_space is_ender (drop n s))
        (inks-snoc is_space is_ender pieces (take n s))
      ∙ append_assoc (inks is_space is_ender pieces) (ink is_space is_ender (take n s))
          (ink is_space is_ender (drop n s))
      ∙ ap (λ r. inks is_space is_ender pieces ++ r) (take-drop n s)

  hard_cut-ink :
      (fuel chunk_size : ℕ) (pieces : List (List C)) (s : List C) (cut : Cut C)
      → hard_cut fuel chunk_size 0 pieces [] s ≡ some cut
      → ink_of cut ≡ inks is_space is_ender pieces ++ ink is_space is_ender s
  unfolding hard_cut remainder
  hard_cut-ink zero chunk_size pieces s cut h = ground arith
  hard_cut-ink (suc fuel) chunk_size pieces s cut h =
      let rest = drop chunk_size s in
      let pieces' = pieces ++ take chunk_size s ∷ [] in
      ground (
        arith,
        shifted chunk_size pieces s,
        append_nil (ink is_space is_ender rest),
        hard_cut-ink fuel chunk_size pieces' rest cut,
      )

  module _ (newline : C) (blank_newline : is_space newline ≡ true) where
    joined-ink :
        (current s : List C)
        → ink is_space is_ender (joined is_space is_ender newline current s)
          ≡ ink is_space is_ender current ++ ink is_space is_ender s
    unfolding joined
    joined-ink current s =
        ink-strip is_space is_ender (current ++ newline ∷ s)
        ∙ ink-append is_space is_ender current (newline ∷ s)
        ∙ rw blank_newline refl

    -- the ink of the pieces and the current one, where the code gave them
    abbrev Ink : List C → Option (List (List C) × List C) → Type 0
    Ink x none = Unit
    Ink x (some (pieces, current)) =
        inks is_space is_ender pieces ++ ink is_space is_ender current ≡ x

    after_cut-Ink :
        (x : List C) (o : Option (Cut C))
        → ((cut : Cut C) → o ≡ some cut → ink_of cut ≡ x)
        → Ink x (after_cut is_space is_ender newline o)
    unfolding after_cut
    after_cut-Ink x none h = tt
    after_cut-Ink x (some (pieces, current, [])) h =
        ap (λ r. inks is_space is_ender pieces ++ r)
          (sym (append_nil (ink is_space is_ender current)))
        ∙ h (pieces, current, []) refl
    after_cut-Ink x (some (pieces, current, c ∷ s)) h =
        ap (λ r. inks is_space is_ender pieces ++ r) (joined-ink current (c ∷ s))
        ∙ h (pieces, current, c ∷ s) refl

    -- what the loop has, and has still to read
    abbrev held : List (List C) → List C → List C → List C
    held pieces current more =
        inks is_space is_ender pieces ++ (ink is_space is_ender current ++ more)

    add_sentence-Ink :
        (fuel chunk_size : ℕ) (pieces : List (List C)) (current s : List C)
        → Ink
            (held pieces current (ink is_space is_ender s))
            (add_sentence is_space is_ender newline fuel chunk_size 0 pieces current s)
    unfolding add_sentence
    add_sentence-Ink fuel chunk_size pieces current s =
        elim (Bool-cases (leb (length current + length s + 1) chunk_size || is_empty current)) [
          | inl e ↦ rw e (ap (λ r. inks is_space is_ender pieces ++ r) (joined-ink current s))
          | inr e ↦ rw e (
              after_cut-Ink (held pieces current (ink is_space is_ender s))
                (hard_cut fuel chunk_size 0 (pieces ++ current ∷ []) [] s)
                (λ cut h.
                  hard_cut-ink fuel chunk_size (pieces ++ current ∷ []) s cut h
                  ∙ ap (λ r. r ++ ink is_space is_ender s)
                      (inks-snoc is_space is_ender pieces current)
                  ∙ append_assoc (inks is_space is_ender pieces) (ink is_space is_ender current)
                      (ink is_space is_ender s)))
        ]

    last_piece-ink :
        (pieces : List (List C)) (current : List C)
        → inks is_space is_ender (last_piece is_space is_ender newline pieces current)
          ≡ held pieces current []
    last_piece-ink pieces current = elim (Bool-cases (is_empty (strip is_space is_ender current))) [
      | inl e ↦
          rw (e, blank is_space is_ender current e)
            (sym (append_nil (inks is_space is_ender pieces)))
      | inr e ↦
          rw (e, append_nil (ink is_space is_ender current))
            (inks-snoc is_space is_ender pieces current)
    ]

    add_sentences-ink :
        (fuel chunk_size : ℕ) (ss pieces : List (List C)) (current : List C) (ps : List (List C))
        → add_sentences is_space is_ender newline fuel chunk_size 0 ss (some (pieces, current))
          ≡ some ps
        → inks is_space is_ender ps ≡ held pieces current (inks is_space is_ender ss)
    unfolding add_sentences
    add_sentences-ink fuel chunk_size [] pieces current ps h =
        ground (arith, last_piece-ink pieces current)
    add_sentences-ink fuel chunk_size (s ∷ ss) pieces current ps h =
        further (add_sentence is_space is_ender newline fuel chunk_size 0 pieces current s)
          (add_sentences-ink fuel chunk_size ss) (add_sentence-Ink fuel chunk_size pieces current s)
          h
      where
        further :
            (o : Option (List (List C) × List C))
            → ((pieces' : List (List C)) (current' : List C) (qs : List (List C))
                → add_sentences is_space is_ender newline fuel chunk_size 0 ss
                    (some (pieces', current'))
                  ≡ some qs
                → inks is_space is_ender qs ≡ held pieces' current' (inks is_space is_ender ss))
            → Ink (held pieces current (ink is_space is_ender s)) o
            → add_sentences is_space is_ender newline fuel chunk_size 0 ss o ≡ some ps
            → inks is_space is_ender ps
              ≡ held pieces current (ink is_space is_ender s ++ inks is_space is_ender ss)
        further none ih ink_ h = ground arith
        further (some (pieces', current')) ih ink_ h =
            let so_far = inks is_space is_ender pieces in
            let now = ink is_space is_ender current in
            let read = ink is_space is_ender s in
            let more = inks is_space is_ender ss in
            ih pieces' current' ps h
            ∙ sym (
                append_assoc (inks is_space is_ender pieces') (ink is_space is_ender current') more)
            ∙ ap (λ r. r ++ more) ink_
            ∙ append_assoc so_far (now ++ read) more
            ∙ ap (λ r. so_far ++ r) (append_assoc now read more)

    kept_by :
        (fuel chunk_size : ℕ) (text : List C) (ps : List (List C))
        → ((c : C) → is_ender c ≡ true → is_space c ≡ false)
        → split_text is_space is_ender newline fuel chunk_size 0 text ≡ some ps
        → inks is_space is_ender ps ≡ (
            if leb (length text) chunk_size
            then ink is_space is_ender text
            else drop_enders is_space is_ender (ink is_space is_ender text))
    unfolding split_text split_sentences
    kept_by fuel chunk_size text ps apart h = cut (leb (length text) chunk_size) h
      where
        cut :
            (whole : Bool)
            → (if whole
                then some (text ∷ [])
                else add_sentences is_space is_ender newline fuel chunk_size 0
                    (split_sentences is_space is_ender text)
                    (some ([], [])))
              ≡ some ps
            → inks is_space is_ender ps ≡ (
                if whole
                then ink is_space is_ender text
                else drop_enders is_space is_ender (ink is_space is_ender text))
        cut true h = ground (arith, append_nil (ink is_space is_ender text))
        cut false h =
            add_sentences-ink fuel chunk_size (split_sentences is_space is_ender text) [] [] ps h
            ∙ first_sentences is_space is_ender [] text apart tt

    -- A text is cut without overlap into pieces that hold its characters in their order, but for
    -- whitespace and, where the text is longer than the size, for the sentence enders before its first
    -- other character.
    pub split_text-inks :
        (chunk_size : ℕ) (text : List C)
        → 1 ≤ chunk_size
        → ((c : C) → is_ender c ≡ true → is_space c ≡ false)
        → (ps : List (List C)) × (split_text is_space is_ender newline
              (length text + 1)
              chunk_size
              0
              text
            ≡ some ps)
          × (inks is_space is_ender ps ≡ (
              if leb (length text) chunk_size
              then ink is_space is_ender text
              else drop_enders is_space is_ender (ink is_space is_ender text)))
    split_text-inks chunk_size text pos apart =
        let (ps, e) = split_text-some is_space is_ender newline chunk_size 0 text (omega arith) in
        (ps, e, kept_by (length text + 1) chunk_size text ps apart e)
