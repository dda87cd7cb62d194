-- ===== src/Tools/WordErrorRate.antt =====
-- tools/realtime-spike/src/wer.ts: the word error rate of a transcript. What the runtime does for the
-- source (the length of a text in UTF-8, the normal form in lower case, the classes of characters) is a
-- parameter.
pub mod Table
pub mod Alignments
pub mod Optimal
use palancar.Base.{
  ℕ, ◌+◌, Bool, true, ◌&&◌, ◌||◌, Option, none, some, List, [], ◌∷◌, ◌++◌, ltb, leb, nat_beq,
  if◌then◌else◌, length, get_elem?, Text, codes, text_beq, Value, text, trim, is_space,
}

abbrev pub max_wer_input_bytes : ℕ
max_wer_input_bytes = 65_536

abbrev pub max_wer_tokens : ℕ
max_wer_tokens = 512

abbrev pub max_wer_token_bytes : ℕ
max_wer_token_bytes = 128

pub data SpikeTargetLanguage : Type 0 where
  es tr : SpikeTargetLanguage

-- `normalized` is the lower case of the normal form NFKC, and may fail; `is_word` is the class of letters,
-- marks and numbers.
pub record Platform : Type 0 where
  pub byte_length : Text → ℕ
  pub normalized : Text → SpikeTargetLanguage → Option Text
  pub is_word : Text → Bool

pub record EditCell : Type 0 where
  pub distance : ℕ
  pub substitutions : ℕ
  pub deletions : ℕ
  pub insertions : ℕ

-- The rate is a numerator with its denominator.
pub record WordErrorRateResult : Type 0 where
  pub substitutions : ℕ
  pub deletions : ℕ
  pub insertions : ℕ
  pub numerator : ℕ
  pub denominator : ℕ
  pub word_error_rate : ℕ × ℕ

-- `validateLanguage`
unfoldable pub validate_language : Value → Option SpikeTargetLanguage
validate_language v = elim v [
  | text t ↦
      if text_beq t (codes "es")
      then some es
      else (if text_beq t (codes "tr") then some tr else none)
  | _ ↦ none
]

-- The characters of a text: a high and a low surrogate are one.
unfoldable pub join_character : ℕ → List Text → List Text
join_character c [] = (c ∷ []) ∷ []
join_character c ([] ∷ rest) = (c ∷ []) ∷ [] ∷ rest
join_character c ((l ∷ ls) ∷ rest) =
    if leb 55_296 c && leb c 56_319 && leb 56_320 l && leb l 57_343
    then (c ∷ l ∷ ls) ∷ rest
    else (c ∷ []) ∷ (l ∷ ls) ∷ rest

unfoldable pub characters : Text → List Text
characters [] = []
characters (c ∷ cs) = join_character c (characters cs)

unfoldable pub token_source : (Text → Bool) → List Text → Text
token_source is_word [] = []
token_source is_word (c ∷ cs) = (if is_word c then c else codes " ") ++ token_source is_word cs

-- The first piece and the others, of a text that is cut at its runs of spaces.
unfoldable pub pieces : Text → Text × List Text
pieces [] = ([], [])
pieces (c ∷ cs) =
    let rest = pieces cs in
    if is_space c
    then ([], if text_beq rest.0 [] then rest.1 else rest.0 ∷ rest.1)
    else (c ∷ rest.0, rest.1)

unfoldable pub split_words : Text → List Text
split_words [] = []
split_words (c ∷ cs) = let p = pieces (c ∷ cs) in p.0 ∷ p.1

unfoldable pub all_within : (Text → ℕ) → List Text → Bool
all_within byte_length [] = true
all_within byte_length (t ∷ ts) =
    leb (byte_length t) max_wer_token_bytes && all_within byte_length ts

unfoldable pub checked_tokens : Platform → List Text → Option (List Text)
checked_tokens p ts =
    if leb (length ts) max_wer_tokens && all_within p.byte_length ts then some ts else none

unfoldable pub tokens_of : Platform → Option Text → Option (List Text)
tokens_of p none = none
tokens_of p (some t) = checked_tokens p (split_words (trim (token_source p.is_word (characters t))))

-- `normalizeTokens`, of a value that the caller declares to be a string.
unfoldable pub normalize_tokens : Platform → Value → SpikeTargetLanguage → Option (List Text)
normalize_tokens p input language = elim input [
  | text t ↦
      if leb (p.byte_length t) max_wer_input_bytes
      then tokens_of p (p.normalized t language)
      else none
  | _ ↦ none
]

-- Whether a cell comes before another one in the order of `WER_TIE_POLICY`.
unfoldable pub comes_before : EditCell → EditCell → Bool
comes_before c d =
    ltb c.distance d.distance
    || nat_beq c.distance d.distance
      && (ltb c.substitutions d.substitutions
          || nat_beq c.substitutions d.substitutions
            && (ltb c.deletions d.deletions
                || nat_beq c.deletions d.deletions && ltb c.insertions d.insertions))

-- `preferredCell`: the first cell that none comes before.
unfoldable pub preferred : EditCell → EditCell → EditCell
preferred c d = if comes_before d c then d else c

unfoldable pub preferred_cell : EditCell → EditCell → EditCell → EditCell
preferred_cell c d e = preferred (preferred c d) e

abbrev pub empty_cell : EditCell
empty_cell = record { distance = 0; substitutions = 0; deletions = 0; insertions = 0 }

abbrev pub substituted : EditCell → EditCell
substituted c = record c { distance = c.distance + 1; substitutions = c.substitutions + 1 }

abbrev pub deleted : EditCell → EditCell
deleted c = record c { distance = c.distance + 1; deletions = c.deletions + 1 }

abbrev pub inserted : EditCell → EditCell
inserted c = record c { distance = c.distance + 1; insertions = c.insertions + 1 }

-- A cell, from the cells that are diagonal, above and left.
unfoldable pub cell : Text → Text → EditCell → EditCell → EditCell → EditCell
cell x y diagonal above left =
    if text_beq x y
    then diagonal
    else preferred_cell (substituted diagonal) (deleted above) (inserted left)

unfoldable pub initial_cells : ℕ → List Text → List EditCell
initial_cells n [] = []
initial_cells n (t ∷ ts) =
    record { distance = n + 1; substitutions = 0; deletions = 0; insertions = n + 1 }
    ∷ initial_cells (n + 1) ts

unfoldable pub put_first : EditCell → Option (List EditCell) → Option (List EditCell)
put_first c none = none
put_first c (some cs) = some (c ∷ cs)

-- The loop over the columns, with the cells left and diagonal of the next one, and those above from it on.
unfoldable pub columns :
    Text → EditCell → EditCell → List EditCell → List Text → Option (List EditCell)
columns x left diagonal above [] = some []
columns x left diagonal [] (y ∷ ys) = none
columns x left diagonal (above ∷ aboves) (y ∷ ys) =
    let current = cell x y diagonal above left in
    put_first current (columns x current above aboves ys)

unfoldable pub next_row : Text → ℕ → List EditCell → List Text → Option (List EditCell)
next_row x row [] actual = none
next_row x row (diagonal ∷ aboves) actual =
    let first : EditCell = record {
      distance = row;
      substitutions = 0;
      deletions = row;
      insertions = 0;
    } in
    put_first first (columns x first diagonal aboves actual)

-- The loop over the rows.
unfoldable pub rows : ℕ → Option (List EditCell) → List Text → List Text → Option (List EditCell)
rows row none expected actual = none
rows row (some previous) [] actual = some previous
rows row (some previous) (x ∷ expected) actual =
    rows (row + 1) (next_row x row previous actual) expected actual

unfoldable pub rate : ℕ → ℕ → ℕ × ℕ
rate distance denominator =
    if nat_beq denominator 0
    then (if nat_beq distance 0 then 0 else 1, 1)
    else (distance, denominator)

unfoldable pub report : ℕ → Option EditCell → Option WordErrorRateResult
report denominator none = none
report denominator (some c) = some (record {
  substitutions = c.substitutions;
  deletions = c.deletions;
  insertions = c.insertions;
  numerator = c.distance;
  denominator = denominator;
  word_error_rate = rate c.distance denominator;
})

unfoldable pub last_cell : Option (List EditCell) → ℕ → Option EditCell
last_cell none n = none
last_cell (some row) n = get_elem? row n

-- What `computeWordErrorRate` does with the words.
unfoldable pub compare_words : List Text → List Text → Option WordErrorRateResult
compare_words expected actual = report (length expected) (
    last_cell (rows 1 (some (empty_cell ∷ initial_cells 0 actual)) expected actual) (length actual))

unfoldable pub compare_tokens : Option (List Text) → Option (List Text) → Option WordErrorRateResult
compare_tokens none actual = none
compare_tokens (some expected) none = none
compare_tokens (some expected) (some actual) = compare_words expected actual

unfoldable pub compute_in :
    Platform → Value → Value → Option SpikeTargetLanguage → Option WordErrorRateResult
compute_in p reference hypothesis none = none
compute_in p reference hypothesis (some language) =
    compare_tokens (normalize_tokens p reference language) (normalize_tokens p hypothesis language)

-- `computeWordErrorRate`; every failure is `invalid-wer-input`.
unfoldable pub compute_word_error_rate :
    Platform → Value → Value → Value → Option WordErrorRateResult
compute_word_error_rate p reference hypothesis language =
    compute_in p reference hypothesis (validate_language language)
