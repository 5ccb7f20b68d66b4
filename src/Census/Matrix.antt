-- ===== src/Census/Matrix.antt =====
-- scripts/discover-mutation-kills.mjs, the matrix: rows appended to a file as lines of JSON, read
-- back at the next start. JSON is a parameter.
use mathlib.Core.List.{append_assoc}
use tflw_tests.Prelude.{
  ℕ, ◌≡◌, refl, ap, ◌∙◌, ◌⊎◌, inl, inr, Bool, true, false, not, Option, none, some, List, [], ◌∷◌,
  ◌++◌, ◌==◌, any, Text, Map, lookup, insert, split, split-append, split-none,
}
use tflw_tests.Census.Patch.{AnchorState}

pub data RowState : Type 0 where
  killed survived unbuildable skipped retracted : RowState

pub data Reason : Type 0 where
  no_reason : Reason
  anchor : AnchorState → Reason
  anchor_matches : ℕ → Reason
  revendor_failed : Reason
  same_bundle : Reason
  roster_short : ℕ → Reason
  drift : List Text → Reason
  remeasure : Text → Reason

-- A row of the matrix, less the timestamps and durations.
pub record Row : Type 0 where
  pub id : Text
  pub file : Text
  pub milestone : Option Text
  pub state : RowState
  pub reason : Reason
  pub kills : List Text
  pub contended_plants : List Text
  pub bundle : Option Text
  pub previous : Option (RowState × List Text)
  pub revert_failed : List Text

abbrev pub newline : ℕ
newline = 10

abbrev pub Done : Type 0
Done = Map Row

pub keep_row : Option Row → Done → Done
keep_row none done = done
keep_row (some row) done = insert row.id row done

-- A blank line and one that does not parse are passed over.
pub read_lines : (Text → Option Row) → List Text → Done → Done
unfolding keep_row
read_lines parse [] done = done
read_lines parse (line ∷ lines) done = read_lines parse lines (keep_row (parse line) done)

-- `done`, as the start of a sweep reads it from the file.
pub read_matrix : (Text → Option Row) → Text → Done
unfolding read_lines split
read_matrix parse file = read_lines parse (split newline file) []

-- `appendFileSync` of a row and a newline.
unfoldable pub append_row : (Row → Text) → Row → Text → Text
append_row print row file = file ++ (print row ++ newline ∷ [])

pub is_retracted : RowState → Bool
is_retracted retracted = true
is_retracted killed = false
is_retracted survived = false
is_retracted unbuildable = false
is_retracted skipped = false

pub counts : Option Row → Bool
unfolding is_retracted
counts none = false
counts (some row) = not (is_retracted row.state)

unfoldable pub settled : Done → Text → Bool
unfolding counts lookup
settled done id = counts (lookup id done)

-- The file is empty or ends with a newline, so that the next row begins a line.
abbrev pub IsClosed : Text → Type 0
IsClosed file = (file ≡ []) ⊎ ((body : Text) × (file ≡ body ++ newline ∷ []))

module _ (parse : Text → Option Row) where
  read_lines-append :
      (ls ms : List Text) (done : Done)
      → read_lines parse (ls ++ ms) done ≡ read_lines parse ms (read_lines parse ls done)
  unfolding read_lines
  read_lines-append [] ms done = refl
  read_lines-append (l ∷ ls) ms done = read_lines-append ls ms (keep_row (parse l) done)

  -- A closing newline adds no row.
  read_matrix-closing :
      (body tail : Text)
      → read_matrix parse (body ++ newline ∷ tail)
        ≡ read_lines parse (split newline tail) (read_matrix parse body)
  unfolding read_matrix
  read_matrix-closing body tail =
      rw (split-append newline body tail)
        (read_lines-append (split newline body) (split newline tail) [])

  read_matrix-row :
      (row : Row) (line : Text) (done : Done)
      → parse [] ≡ none
      → parse line ≡ some row
      → any (λ c. c == newline) line ≡ false
      → read_lines parse (split newline (line ++ newline ∷ [])) done ≡ insert row.id row done
  unfolding read_lines keep_row split
  read_matrix-row row line done blank here one =
      rw (split-append newline line [], split-none newline line one, here, blank) refl

  -- A row that is appended to a closed file is read back at the next start on top of the others.
  pub read_matrix-append_row :
      (print : Row → Text) (row : Row) (file : Text)
      → IsClosed file
      → parse [] ≡ none
      → parse (print row) ≡ some row
      → any (λ c. c == newline) (print row) ≡ false
      → read_matrix parse (append_row print row file) ≡ insert row.id row (read_matrix parse file)
  read_matrix-append_row print row file (inl e) blank here one =
      let at_start = read_matrix-row row (print row) [] blank here one in
      unfold append_row in
      rw e (unfold read_matrix split read_lines keep_row in rw blank (unfold split in at_start))
  read_matrix-append_row print row file (inr (body, e)) blank here one =
      let line = print row ++ newline ∷ [] in
      let closed : read_matrix parse (body ++ newline ∷ []) ≡ read_matrix parse body =
        read_matrix-closing body [] ∙ unfold split read_lines keep_row in rw blank refl in
      unfold append_row in
      rw (e, closed)
        (ap (read_matrix parse) (append_assoc body (newline ∷ []) line)
          ∙ read_matrix-closing body line
          ∙ read_matrix-row row (print row) (read_matrix parse body) blank here one)
