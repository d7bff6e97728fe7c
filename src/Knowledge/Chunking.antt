-- ===== src/Knowledge/Chunking.antt =====
-- The cutting of a text into pieces: `_split_sentences` and `_split_text` of
-- app/knowledge/ingest/chunker.py. A text is the list of its characters, over any alphabet `C`, with
-- the characters that `strip` takes off (`is_space`), those that end a sentence (`is_ender`), and the
-- newline.
pub mod Termination
pub mod Sentences
pub mod Partition
mod Samples
use general_agent_framework.Prelude.{
  ℕ, zero, suc, ◌+◌, ◌-◌, Bool, true, false, not, ◌&&◌, ◌||◌, Option, none, some, List, [], ◌∷◌,
  ◌++◌, length, take, drop, ltb, leb, if◌then◌else◌,
}

abbrev pub is_empty : {C : Type 0} → List C → Bool
is_empty [] = true
is_empty (c ∷ cs) = false

-- `s[-n:]`, for a positive `n`
abbrev pub take_last : {C : Type 0} → ℕ → List C → List C
take_last n s = drop (length s - n) s

-- `xs[-1] += s`, where there is a last one
abbrev pub extend_last : {C : Type 0} → List C → List (List C) → List (List C)
extend_last s [] = []
extend_last s (x ∷ []) = (x ++ s) ∷ []
extend_last s (x ∷ y ∷ xs) = x ∷ extend_last s (y ∷ xs)

-- `sentence[chunk_size - overlap:]`, which counts from the end where the difference is negative
unfoldable pub remainder : {C : Type 0} → ℕ → ℕ → List C → List C
remainder chunk_size overlap sentence =
    if ltb 0 overlap
    then (if leb overlap chunk_size
        then drop (chunk_size - overlap) sentence
        else take_last (overlap - chunk_size) sentence)
    else drop chunk_size sentence

-- The pieces, the `current` piece, and what is left of the sentence.
abbrev pub Cut : Type 0 → Type 0
Cut C = List (List C) × List C × List C

-- The `while` loop of a huge sentence, on fuel.
unfoldable pub hard_cut :
    {C : Type 0} → ℕ → ℕ → ℕ → List (List C) → List C → List C → Option (Cut C)
unfolding remainder
hard_cut zero chunk_size overlap pieces current sentence = none
hard_cut (suc fuel) chunk_size overlap pieces current sentence =
    let rest = remainder chunk_size overlap sentence in
    let pieces' = pieces ++ take chunk_size sentence ∷ [] in
    let further = hard_cut fuel chunk_size overlap pieces' current rest in
    if ltb chunk_size (length sentence)
    then (if leb (length rest) chunk_size then some (pieces', rest, []) else further)
    else some (pieces, current, sentence)

module _ {C : Type 0} (is_space is_ender : C → Bool) where
  -- `s.lstrip()`, `s.rstrip()` and `s.strip()`
  unfoldable pub lstrip : List C → List C
  lstrip [] = []
  lstrip (c ∷ s) = let rest = lstrip s in if is_space c then rest else c ∷ s

  unfoldable pub rstrip : List C → List C
  rstrip [] = []
  rstrip (c ∷ s) = let rest = rstrip s in if is_empty rest && is_space c then [] else c ∷ rest

  unfoldable pub strip : List C → List C
  unfolding lstrip rstrip
  strip s = rstrip (lstrip s)

  -- `segment.strip(_ENDER_CHARS)` is not empty
  unfoldable pub has_words : List C → Bool
  has_words [] = false
  has_words (c ∷ s) = not (is_ender c) || has_words s

  unfoldable pub close_segment : List C → List (List C) → List (List C)
  unfolding has_words
  close_segment segment sentences =
      if not (is_empty segment) && has_words segment
      then sentences ++ segment ∷ []
      else if not (is_empty segment) && not (is_empty sentences)
      then extend_last segment sentences
      else sentences

  -- the loop over the enders, with the segment that is open, and the tail
  unfoldable pub sentences_from : List C → List (List C) → List C → List (List C)
  unfolding close_segment strip
  sentences_from segment sentences [] =
      if is_empty (strip segment) then sentences else sentences ++ strip segment ∷ []
  sentences_from segment sentences (c ∷ text) =
      let closed = sentences_from [] (close_segment (strip (segment ++ c ∷ [])) sentences) text in
      let open_ = sentences_from (segment ++ c ∷ []) sentences text in
      if is_ender c then closed else open_

  -- `_split_sentences`
  unfoldable pub split_sentences : List C → List (List C)
  unfolding sentences_from
  split_sentences text = sentences_from [] [] text

  module _ (newline : C) where
    -- `f"{current}\n{sentence}".strip()`
    unfoldable pub joined : List C → List C → List C
    unfolding strip
    joined current sentence = strip (current ++ newline ∷ sentence)

    -- `if sentence`
    unfoldable pub after_cut : Option (Cut C) → Option (List (List C) × List C)
    unfolding joined
    after_cut none = none
    after_cut (some (pieces, current, [])) = some (pieces, current)
    after_cut (some (pieces, current, c ∷ s)) = some (pieces, joined current (c ∷ s))

    -- the body of the `for` loop
    unfoldable pub add_sentence :
        ℕ → ℕ → ℕ → List (List C) → List C → List C → Option (List (List C) × List C)
    unfolding joined after_cut hard_cut
    add_sentence fuel chunk_size overlap pieces current sentence =
        if leb (length current + length sentence + 1) chunk_size || is_empty current
        then some (pieces, joined current sentence)
        else after_cut (
            hard_cut fuel chunk_size overlap (pieces ++ current ∷ [])
              (if ltb 0 overlap then take_last overlap current else []) sentence)

    abbrev last_piece : List (List C) → List C → List (List C)
    last_piece pieces current = if is_empty (strip current) then pieces else pieces ++ current ∷ []

    -- the `for` loop and what follows it
    unfoldable pub add_sentences :
        ℕ → ℕ → ℕ → List (List C) → Option (List (List C) × List C) → Option (List (List C))
    unfolding add_sentence strip
    add_sentences fuel chunk_size overlap sentences none = none
    add_sentences fuel chunk_size overlap [] (some (pieces, current)) =
        some (last_piece pieces current)
    add_sentences fuel chunk_size overlap (s ∷ ss) (some (pieces, current)) =
        add_sentences fuel chunk_size overlap ss
          (add_sentence fuel chunk_size overlap pieces current s)

    -- `_split_text`, with fuel for each huge sentence
    unfoldable pub split_text : ℕ → ℕ → ℕ → List C → Option (List (List C))
    unfolding split_sentences add_sentences
    split_text fuel chunk_size overlap text =
        if leb (length text) chunk_size
        then some (text ∷ [])
        else add_sentences fuel chunk_size overlap (split_sentences text) (some ([], []))
