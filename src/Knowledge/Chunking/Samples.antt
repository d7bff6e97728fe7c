-- ===== src/Knowledge/Chunking/Samples.antt =====
-- A small alphabet, and texts that are cut. The module holds the tests and the examples of the
-- theorems on the cutting.
use general_agent_framework.Prelude.{
  ◌≡◌, refl, inl, Bool, true, false, none, some, List, [], ◌∷◌, arith,
}
use general_agent_framework.Knowledge.Chunking.{hard_cut, split_text}
use general_agent_framework.Knowledge.Chunking.Termination.{split_text-some, hard_cut-none}
use general_agent_framework.Knowledge.Chunking.Sentences.{inks}
use general_agent_framework.Knowledge.Chunking.Partition.{split_text-inks}

data Letter : Type 0 where
  a b stop newline : Letter

abbrev is_space : Letter → Bool
is_space newline = true
is_space _ = false

abbrev is_ender : Letter → Bool
is_ender stop = true
is_ender _ = false

-- an ender, and two sentences
abbrev text : List Letter
text = stop ∷ a ∷ a ∷ stop ∷ b ∷ b ∷ b ∷ stop ∷ []

cut_without_overlap :
    split_text is_space is_ender newline 9 3 0 text
    ≡ some ((a ∷ a ∷ stop ∷ []) ∷ (b ∷ b ∷ b ∷ []) ∷ (stop ∷ []) ∷ [])
unfolding split_text
cut_without_overlap = refl

split_text-some_example :
    (ps : List (List Letter)) × (split_text is_space is_ender newline 9 3 1 text ≡ some ps)
split_text-some_example = split_text-some is_space is_ender newline 3 1 text (omega arith)

split_text-inks_example :
    (ps : List (List Letter)) × (split_text is_space is_ender newline 9 3 0 text ≡ some ps)
    × (inks is_space is_ender ps ≡ a ∷ a ∷ stop ∷ b ∷ b ∷ b ∷ stop ∷ [])
split_text-inks_example =
    split_text-inks is_space is_ender newline refl 3 text (omega arith) (λ c e. ground arith)

hard_cut-none_example : hard_cut 1000 2 2 [] [] (a ∷ a ∷ a ∷ []) ≡ none
hard_cut-none_example =
    hard_cut-none 1000 2 2 [] [] (a ∷ a ∷ a ∷ []) (inl refl) (omega arith) (omega arith)
