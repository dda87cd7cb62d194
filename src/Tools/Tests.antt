-- ===== src/Tools/Tests.antt =====
-- tools/realtime-spike/src/wer.ts: word error rates of short texts.
use palancar.Base.{
  ◌≡◌, refl, ◌≤◌, Bool, true, not, some, List, [], ◌∷◌, length, Text, codes, text, is_space, trim,
  trim_start,
}
use palancar.Tools.WordErrorRate.{
  Platform, WordErrorRateResult, report, compare_words, compute_word_error_rate, compute_in,
  validate_language, normalize_tokens, tokens_of, checked_tokens, all_within, split_words, pieces,
  token_source, characters, join_character, compare_tokens, last_cell, rows, next_row, columns,
  put_first, initial_cells, cell, preferred_cell, preferred, comes_before, rate,
}
use palancar.Tools.WordErrorRate.Alignments.{Edit, delete, insert, before, after, edits}
use palancar.Tools.WordErrorRate.Optimal.{compare_words-least}

abbrev starts_no_space : Text → Bool
starts_no_space [] = true
starts_no_space (c ∷ cs) = not (is_space c)

-- A platform for texts of ASCII characters in lower case.
abbrev plain : Platform
plain = record {
  byte_length = length;
  normalized = λ t language. some t;
  is_word = starts_no_space;
}

abbrev two_words : List Text
two_words = codes "una" ∷ codes "casa" ∷ []

abbrev three_words : List Text
three_words = codes "una" ∷ codes "gran" ∷ codes "cosa" ∷ []

abbrev long_way : List Edit
long_way =
    delete (codes "una")
    ∷ delete (codes "casa")
    ∷ insert (codes "una")
    ∷ insert (codes "gran")
    ∷ insert (codes "cosa")
    ∷ []

compare_words_run :
    compare_words two_words three_words
    ≡ some (record {
      substitutions = 1;
      deletions = 0;
      insertions = 1;
      numerator = 2;
      denominator = 2;
      word_error_rate = (2, 2);
    })
unfolding compare_words report last_cell rows next_row put_first columns initial_cells cell rate
    preferred_cell preferred comes_before
compare_words_run = refl

compute_run :
    compute_word_error_rate plain
      (text (codes " una  casa "))
      (text (codes "una"))
      (text (codes "es"))
    ≡ some (record {
      substitutions = 0;
      deletions = 1;
      insertions = 0;
      numerator = 1;
      denominator = 2;
      word_error_rate = (1, 2);
    })
unfolding compute_word_error_rate compute_in validate_language compare_tokens normalize_tokens
    tokens_of checked_tokens split_words trim trim_start token_source characters join_character
    pieces all_within is_space compare_words report last_cell rows next_row put_first columns
    initial_cells cell rate preferred_cell preferred comes_before
compute_run = refl

compare_words-least_example :
    (r : WordErrorRateResult) × (compare_words two_words three_words ≡ some r)
    × (r.numerator ≤ edits long_way)
unfolding before after
compare_words-least_example =
    compare_words-least two_words three_words long_way (record { reads = refl; leaves = refl })
