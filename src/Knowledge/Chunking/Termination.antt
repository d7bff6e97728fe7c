-- ===== src/Knowledge/Chunking/Termination.antt =====
-- When the cutting of a text ends: the loops of `_split_text` in app/knowledge/ingest/chunker.py.
use general_agent_framework.Prelude.{
  ℕ, zero, suc, ◌+◌, ◌-◌, ◌*◌, ◌≤◌, ◌<◌, ◌≡◌, refl, ap, ◌∙◌, if◌then◌else◌, ◌⊎◌, inl, inr, Bool,
  ◌||◌, none, some, List, [], ◌∷◌, ◌++◌, length, take, ltb, leb, arith, All, Bool-cases,
  length-append, length-drop,
}
use general_agent_framework.Knowledge.Chunking.{
  is_empty, take_last, extend_last, remainder, Cut, hard_cut, lstrip, rstrip, strip, close_segment,
  sentences_from, split_sentences, after_cut, add_sentence, add_sentences, split_text,
}

module _ {C : Type 0} where
  -- An overlap below the size makes each round shorten the sentence.
  remainder_shorter :
      (chunk_size overlap : ℕ) (s : List C)
      → overlap < chunk_size
      → chunk_size < length s
      → length (remainder chunk_size overlap s) < length s
  unfolding remainder
  remainder_shorter chunk_size overlap s small long =
      ground (arith, length-drop (chunk_size - overlap) s, length-drop chunk_size s)

  hard_cut-some :
      (fuel chunk_size overlap : ℕ) (pieces : List (List C)) (current s : List C)
      → overlap < chunk_size
      → length s < fuel
      → (r : Cut C) × (hard_cut fuel chunk_size overlap pieces current s ≡ some r)
  unfolding hard_cut
  hard_cut-some zero chunk_size overlap pieces current s small enough = absurd (omega arith)
  hard_cut-some (suc fuel) chunk_size overlap pieces current s small enough =
      elim (Bool-cases (ltb chunk_size (length s))) [
        | inr e ↦ rw e (_, refl)
        | inl e ↦
            rw e (elim (Bool-cases (leb (length (remainder chunk_size overlap s)) chunk_size)) [
              | inl q ↦ rw q (_, refl)
              | inr q ↦ rw q (
                  hard_cut-some fuel chunk_size overlap (pieces ++ take chunk_size s ∷ []) current
                    (remainder chunk_size overlap s) small
                    (ground (arith, remainder_shorter chunk_size overlap s small)))
            ])
      ]

  -- An overlap of the size, or of more than twice the size, leaves the sentence too long.
  remainder_long :
      (chunk_size overlap : ℕ) (s : List C)
      → (overlap ≡ chunk_size) ⊎ (2 * chunk_size < overlap)
      → 1 ≤ chunk_size
      → chunk_size < length s
      → chunk_size < length (remainder chunk_size overlap s)
  unfolding remainder
  remainder_long chunk_size overlap s wide pos long = ground (
    arith,
    length-drop (chunk_size - overlap) s,
    length-drop (length s - (overlap - chunk_size)) s,
  )

  -- The loop never ends on a sentence longer than the size, whatever the fuel, where the overlap is
  -- the size or more than twice the size.
  pub hard_cut-none :
      (fuel chunk_size overlap : ℕ) (pieces : List (List C)) (current s : List C)
      → (overlap ≡ chunk_size) ⊎ (2 * chunk_size < overlap)
      → 1 ≤ chunk_size
      → chunk_size < length s
      → hard_cut fuel chunk_size overlap pieces current s ≡ none
  unfolding hard_cut
  hard_cut-none zero chunk_size overlap pieces current s wide pos long = refl
  hard_cut-none (suc fuel) chunk_size overlap pieces current s wide pos long =
      let rest = remainder chunk_size overlap s in
      let still = remainder_long chunk_size overlap s wide pos long in
      ground (
        arith,
        still,
        hard_cut-none fuel chunk_size overlap (pieces ++ take chunk_size s ∷ []) current rest wide
            pos still,
      )

  abbrev total : List (List C) → ℕ
  total [] = 0
  total (s ∷ ss) = length s + total ss

  total-append : (xs ys : List (List C)) → total (xs ++ ys) ≡ total xs + total ys
  total-append [] ys = omega arith
  total-append (x ∷ xs) ys = omega (arith, total-append xs ys)

  total-extend_last :
      (s : List C) (xs : List (List C)) → total (extend_last s xs) ≤ total xs + length s
  total-extend_last s [] = omega arith
  total-extend_last s (x ∷ []) = omega (arith, length-append x s)
  total-extend_last s (x ∷ y ∷ xs) = omega (arith, total-extend_last s (y ∷ xs))

  All-total : (xs : List (List C)) (n : ℕ) → total xs < n → All (λ s. length s < n) xs
  All-total [] n h = tt
  All-total (x ∷ xs) n h = (omega arith, All-total xs n (omega arith))

  module _ (is_space is_ender : C → Bool) where
    length-lstrip : (s : List C) → length (lstrip is_space is_ender s) ≤ length s
    unfolding lstrip
    length-lstrip [] = omega arith
    length-lstrip (c ∷ s) = ground (arith, length-lstrip s)

    length-rstrip : (s : List C) → length (rstrip is_space is_ender s) ≤ length s
    unfolding rstrip
    length-rstrip [] = omega arith
    length-rstrip (c ∷ s) = ground (arith, length-rstrip s)

    length-strip : (s : List C) → length (strip is_space is_ender s) ≤ length s
    unfolding strip
    length-strip s = omega (arith, length-rstrip (lstrip is_space is_ender s), length-lstrip s)

    total-close_segment :
        (s : List C) (ss : List (List C))
        → total (close_segment is_space is_ender s ss) ≤ total ss + length s
    unfolding close_segment
    total-close_segment s ss = ground (arith, total-append ss (s ∷ []), total-extend_last s ss)

    total-sentences_from :
        (segment : List C) (ss : List (List C)) (text : List C)
        → total (sentences_from is_space is_ender segment ss text)
          ≤ total ss + length segment + length text
    unfolding sentences_from
    total-sentences_from segment ss [] =
        ground (arith, total-append ss (strip is_space is_ender segment ∷ []), length-strip segment)
    total-sentences_from segment ss (c ∷ text) =
        let seg = segment ++ c ∷ [] in
        let closed = close_segment is_space is_ender (strip is_space is_ender seg) ss in
        ground (
          arith,
          length-append segment (c ∷ []),
          length-strip seg,
          total-close_segment (strip is_space is_ender seg) ss,
          total-sentences_from [] closed text,
          total-sentences_from seg ss text,
        )

    module _ (newline : C) where
      after_cut-some :
          (cut : Cut C)
          → (r : List (List C) × List C) × (after_cut is_space is_ender newline (some cut) ≡ some r)
      unfolding after_cut
      after_cut-some (pieces, current, []) = (_, refl)
      after_cut-some (pieces, current, c ∷ s) = (_, refl)

      add_sentence-some :
          (fuel chunk_size overlap : ℕ) (pieces : List (List C)) (current s : List C)
          → overlap < chunk_size
          → length s < fuel
          → (r : List (List C) × List C) × (add_sentence is_space is_ender newline fuel chunk_size
                overlap pieces current s
              ≡ some r)
      unfolding add_sentence
      add_sentence-some fuel chunk_size overlap pieces current s small enough =
          elim (Bool-cases (leb (length current + length s + 1) chunk_size || is_empty current)) [
            | inl e ↦ rw e (_, refl)
            | inr e ↦
                let carried = if ltb 0 overlap then take_last overlap current else [] in
                let (cut, h) =
                  hard_cut-some fuel chunk_size overlap (pieces ++ current ∷ []) carried s small
                    enough in
                rw (e, h) (after_cut-some cut)
          ]

      add_sentences-some :
          (fuel chunk_size overlap : ℕ) (ss : List (List C)) (pieces : List (List C))
          (current : List C)
          → overlap < chunk_size
          → All (λ s. length s < fuel) ss
          → (ps : List (List C)) × (add_sentences is_space is_ender newline fuel chunk_size overlap
                ss
                (some (pieces, current))
              ≡ some ps)
      unfolding add_sentences
      add_sentences-some fuel chunk_size overlap [] pieces current small enough = (_, refl)
      add_sentences-some fuel chunk_size overlap (s ∷ ss) pieces current small enough =
          let ((pieces', current'), e) =
            add_sentence-some fuel chunk_size overlap pieces current s small enough.0 in
          let (ps, further) =
            add_sentences-some fuel chunk_size overlap ss pieces' current' small enough.1 in
          (ps, ap (add_sentences is_space is_ender newline fuel chunk_size overlap ss) e ∙ further)

      -- Where the overlap is below the size, every text is cut, and the length of the text is fuel
      -- enough for each of its sentences.
      pub split_text-some :
          (chunk_size overlap : ℕ) (text : List C)
          → overlap < chunk_size
          → (ps : List (List C)) × (split_text is_space is_ender newline
                (length text + 1)
                chunk_size
                overlap
                text
              ≡ some ps)
      unfolding split_text split_sentences
      split_text-some chunk_size overlap text small =
          elim (Bool-cases (leb (length text) chunk_size)) [
            | inl e ↦ rw e (_, refl)
            | inr e ↦ rw e (
                add_sentences-some (length text + 1) chunk_size overlap
                  (sentences_from is_space is_ender [] [] text) [] [] small
                  (All-total (sentences_from is_space is_ender [] [] text) (length text + 1)
                    (omega (arith, total-sentences_from [] [] text))))
          ]
