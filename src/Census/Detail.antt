-- ===== src/Census/Detail.antt =====
-- scripts/lib/kill-detail.mjs (deriveKind, detailFromRosterOutput, mergeProduced) and the reading of
-- the roster's table in scripts/discover-mutation-kills.mjs. The regular expressions of a table row
-- and of a clause are read as the records of their groups.
use tflw_tests.Prelude.{
  any, is_nil, Bool, true, false, not, ◌||◌, Option, none, some, List, [], ◌∷◌, if◌then◌else◌,
  is_some, all, filter, Text, codes, text_eq, includes, Map, lookup, insert,
}

pub data Glyph : Type 0 where
  tick cross dash : Glyph

-- One row of the grader's closing table.
pub record TableRow : Type 0 where
  pub glyph : Glyph
  pub id : Text
  pub recall : Text
  pub precision : Text
  pub skipped : Option Text

-- One line that names a clause that came out false.
pub record Clause : Type 0 where
  pub id : Text
  pub text : Text

-- A line that the roster's expression reads, a mark and a plant: the producer's expression asks for
-- the whole row and reads no other line, and of a whole row it reads the same mark and plant.
pub data Line : Type 0 where
  whole_row : TableRow → Line
  mark_only : Glyph → Text → Line

pub record Page : Type 0 where
  pub rows : List Line
  pub clauses : List Clause

-- `table` of the producer: the last whole row of an id stands.
pub table_of : List Line → Map TableRow → Map TableRow
table_of [] table = table
table_of (whole_row r ∷ rs) table = table_of rs (insert r.id r table)
table_of (mark_only glyph id ∷ rs) table = table_of rs table

-- `seen` of the roster: the last mark of an id stands.
pub seen_of : List Line → Map Glyph → Map Glyph
seen_of [] seen = seen
seen_of (whole_row r ∷ rs) seen = seen_of rs (insert r.id r.glyph seen)
seen_of (mark_only glyph id ∷ rs) seen = seen_of rs (insert id glyph seen)

pub is_cross : Glyph → Bool
is_cross cross = true
is_cross tick = false
is_cross dash = false

pub is_red : Option Glyph → Bool
unfolding is_cross
is_red none = false
is_red (some glyph) = is_cross glyph

-- What `runRoster` answers of the plants that it was to grade.
pub record Roster : Type 0 where
  pub missing : List Text
  pub red : List Text
  pub page : Page

unfoldable pub read_roster : List Text → Page → Roster
unfolding seen_of is_red
read_roster graded page =
    let seen = seen_of page.rows [] in
    record {
      missing = filter (λ id. not (is_some (lookup id seen))) graded;
      red = filter (λ id. is_red (lookup id seen)) graded;
      page = page;
    }

pub data Kind : Type 0 where
  refusal no_assertions assertion held contended : Kind

-- What the plant answered with nothing mutated, and the clauses that failed then.
pub data Control : Type 0 where
  red_alone : List Text → Control
  green_alone : Control

pub record Detail : Type 0 where
  pub kind : Kind
  pub tally : Option (Text × Text)
  pub failed : List Text
  pub skipped : Option Text
  pub control : Option Control

pub is_red_alone : Option Control → Bool
is_red_alone none = false
is_red_alone (some (red_alone failed)) = true
is_red_alone (some green_alone) = false

pub derive_kind : Option (Text × Text) → List Text → Option Text → Option Control → Kind
unfolding is_red_alone is_some
derive_kind none failed skipped control = if is_some skipped then refusal else no_assertions
derive_kind (some tally) failed skipped control =
    if is_nil failed then held else if is_red_alone control then contended else assertion

abbrev pub not_available : Text
not_available = codes "n/a"

pub clauses_of : Text → List Clause → List Text
clauses_of id [] = []
clauses_of id (c ∷ cs) =
    let rest = clauses_of id cs in if text_eq c.id id then c.text ∷ rest else rest

-- The entry of one red plant: its tally and failed clauses only if it asserted anything.
pub detail_of_row : TableRow → List Clause → Detail
unfolding derive_kind clauses_of
detail_of_row r clauses =
    let asserted =
      not (text_eq r.recall not_available) || not (text_eq r.precision not_available) in
    let tally : Option (Text × Text) = if asserted then some (r.recall, r.precision) else none in
    let failed = if asserted then clauses_of r.id clauses else [] in
    record {
      kind = derive_kind tally failed r.skipped none;
      tally = tally;
      failed = failed;
      skipped = r.skipped;
      control = none;
    }

pub add_detail : Text → Option TableRow → List Clause → Option (Map Detail) → Option (Map Detail)
unfolding detail_of_row
add_detail id none clauses rest = none
add_detail id (some r) clauses none = none
add_detail id (some r) clauses (some details) = some ((id, detail_of_row r clauses) ∷ details)

-- The entries of the red plants; a plant that the table does not hold is an error.
pub details_of : Map TableRow → List Clause → List Text → Option (Map Detail)
unfolding add_detail
details_of table clauses [] = some []
details_of table clauses (id ∷ ids) =
    add_detail id (lookup id table) clauses (details_of table clauses ids)

unfoldable pub detail_from_roster_output : Page → List Text → Option (Map Detail)
unfolding table_of details_of
detail_from_roster_output page red = details_of (table_of page.rows []) page.clauses red

pub is_assertion : Kind → Bool
is_assertion assertion = true
is_assertion refusal = false
is_assertion no_assertions = false
is_assertion held = false
is_assertion contended = false

-- `deriveKind(block[p]) === 'assertion'`, of a plant that the block may not hold.
unfoldable pub asserts : Option Detail → Bool
unfolding derive_kind is_assertion
asserts none = false
asserts (some d) = is_assertion (derive_kind d.tally d.failed d.skipped d.control)

unfoldable pub failed_of : Option Detail → List Text
failed_of none = []
failed_of (some d) = d.failed

-- The control's evidence on one entry of the block.
pub with_control : Bool → List Text → Detail → Detail
with_control true failed d = record d { control = some (red_alone failed); kind = contended }
with_control false failed d = record d { control = some green_alone }

-- The entries of the plants that the control ran.
unfoldable pub control_block :
    List Text → (Text → Bool) → (Text → List Text) → Map Detail → Map Detail
unfolding with_control
control_block ran red failed [] = []
control_block ran red failed ((p, d) ∷ block) =
    let rest = control_block ran red failed block in
    if includes ran p then (p, with_control (red p) (failed p) d) ∷ rest else (p, d) ∷ rest

-- The line is a whole row of the plant.
abbrev pub is_row_of : Text → Line → Bool
is_row_of id (whole_row r) = text_eq id r.id
is_row_of id (mark_only glyph i) = false

-- Every plant of the list has a whole row on the page.
abbrev pub all_rows : Page → List Text → Bool
all_rows page ids = all (λ id. any (is_row_of id) page.rows) ids
