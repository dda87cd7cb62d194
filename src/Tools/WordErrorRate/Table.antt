-- ===== src/Tools/WordErrorRate/Table.antt =====
-- tools/realtime-spike/src/wer.ts: what each cell of the table holds.
use palancar.Base.{
  ℕ, suc, ◌+◌, ◌≡◌, refl, ap, ◌∙◌, some, List, [], ◌∷◌, arith, length, get_elem?, Text, text_eq,
  nat_eq,
}
use palancar.Tools.WordErrorRate.{
  EditCell, empty_cell, cell, initial_cells, put_first, columns, next_row, rows, report, last_cell,
  compare_words,
}

-- The cell of two lists of words that are read from the last word to the first.
unfoldable pub best : List Text → List Text → EditCell
best [] ys = record {
  distance = length ys;
  substitutions = 0;
  deletions = 0;
  insertions = length ys;
}
best (x ∷ xs) [] = record {
  distance = suc (length xs);
  substitutions = 0;
  deletions = suc (length xs);
  insertions = 0;
}
best (x ∷ xs) (y ∷ ys) = cell x y (best xs ys) (best xs (y ∷ ys)) (best (x ∷ xs) ys)

-- A list in front of another one, its last element first.
unfoldable pub onto : List Text → List Text → List Text
onto [] rs = rs
onto (y ∷ ys) rs = onto ys (y ∷ rs)

-- The cells of a row after the one at some words.
unfoldable row_after : List Text → List Text → List Text → List EditCell
row_after xs rs [] = []
row_after xs rs (y ∷ ys) = best xs (y ∷ rs) ∷ row_after xs (y ∷ rs) ys

row_of : List Text → List Text → List EditCell
row_of xs ys = best xs [] ∷ row_after xs [] ys

pub add_one : (n : ℕ) → n + 1 ≡ suc n
add_one n = omega arith

initial-row : (rs ys : List Text) → initial_cells (length rs) ys ≡ row_after [] rs ys
unfolding initial_cells row_after best
initial-row rs [] = refl
initial-row rs (y ∷ ys) =
    ap
      (λ n.
        record { distance = n; substitutions = 0; deletions = 0; insertions = n }
        ∷ initial_cells n ys)
      (add_one (length rs))
    ∙ ap (λ cs. best [] (y ∷ rs) ∷ cs) (initial-row (y ∷ rs) ys)

columns-row :
    (x : Text) (xs rs ys : List Text)
    → columns x (best (x ∷ xs) rs) (best xs rs) (row_after xs rs ys) ys
      ≡ some (row_after (x ∷ xs) rs ys)
unfolding columns row_after best put_first
columns-row x xs rs [] = refl
columns-row x xs rs (y ∷ ys) =
    ap (put_first (best (x ∷ xs) (y ∷ rs))) (columns-row x xs (y ∷ rs) ys)

pub best-first :
    (xs : List Text)
    → best xs []
      ≡ record { distance = length xs; substitutions = 0; deletions = length xs; insertions = 0 }
unfolding best
best-first [] = refl
best-first (x ∷ xs) = refl

next_row-row :
    (x : Text) (xs ys : List Text)
    → next_row x (suc (length xs)) (row_of xs ys) ys ≡ some (row_of (x ∷ xs) ys)
unfolding next_row row_of best put_first
next_row-row x xs ys = ap (put_first (best (x ∷ xs) [])) (columns-row x xs [] ys)

rows-row :
    (xs es ys : List Text)
    → rows (suc (length xs)) (some (row_of xs ys)) es ys ≡ some (row_of (onto es xs) ys)
unfolding rows onto
rows-row xs [] ys = refl
rows-row xs (e ∷ es) ys =
    ap (λ n. rows n (next_row e (suc (length xs)) (row_of xs ys) ys) es ys)
      (add_one (suc (length xs)))
    ∙ ap (λ r. rows (suc (suc (length xs))) r es ys) (next_row-row e xs ys)
    ∙ rows-row (e ∷ xs) es ys

last-row :
    (xs rs ys : List Text)
    → get_elem? (best xs rs ∷ row_after xs rs ys) (length ys) ≡ some (best xs (onto ys rs))
unfolding row_after onto
last-row xs rs [] = refl
last-row xs rs (y ∷ ys) = last-row xs (y ∷ rs) ys

-- The words are compared, and the result is the one of the cell at all words.
pub compare_words-best :
    (es ys : List Text)
    → compare_words es ys ≡ report (length es) (some (best (onto es []) (onto ys [])))
unfolding compare_words last_cell row_of best
compare_words-best es ys =
    ap (λ cs. report (length es) (last_cell (rows 1 (some (empty_cell ∷ cs)) es ys) (length ys)))
      (initial-row [] ys)
    ∙ ap (λ r. report (length es) (last_cell r (length ys))) (rows-row [] es ys)
    ∙ ap (report (length es)) (last-row (onto es []) [] ys)
