-- ===== src/Filing/Board.antt =====
-- The table of plans: `file_plan` and `unfile` of src/marshall/atc/filing.py. The table is a `dict` from its
-- primary key, a row with no label has "", and its other constraint is the unique index on lower(label) of
-- src/services/migrations/010_flight_plans_have_a_spoken_name.sql.
use marshall.Prelude.{
  String, Bool, true, false, not, ◌&&◌, Option, none, some, List, [], ◌∷◌, ◌==◌, is_in, any, lower,
  strip, if◌then◌else◌,
}
use marshall.Prelude.Dict
use marshall.Prelude.Dict.{Dict}
use marshall.Filing.{Plan, Refusal, no_such_plan, Warning, check, or_else}
use marshall.Filing.Keys.{key_for, next_key}

pub data Answer : Type 0 where
  filed : String → List Warning → Answer
  refused : List Refusal → List Warning → Answer

module _ {Pos : Type 0} where
  -- taken_labels; no two rows have one label, so that no entry replaces another
  unfoldable pub taken_labels : Dict (Plan Pos) → List (String × String)
  taken_labels [] = []
  taken_labels ((name, row) ∷ rows) =
      let rest = taken_labels rows in
      if row.label == "" then rest else (lower row.label, name) ∷ rest

  -- The unique index refuses a row whose label another row has.
  abbrev pub clashes : Plan Pos → String × Plan Pos → Bool
  clashes row (name, held) =
      not (name == row.name) && (not (held.label == "") && lower held.label == lower row.label)

  -- INSERT ... ON CONFLICT (name) DO UPDATE; none where the database raises
  unfoldable pub upsert : Plan Pos → Dict (Plan Pos) → Option (Dict (Plan Pos))
  upsert row board = if any (clashes row) board then none else some (Dict.put board row.name row)

  -- The row's key: the one that is updated, the one that was supplied, or a new one.
  unfoldable pub row_name : Plan Pos → String → Dict (Plan Pos) → String
  row_name plan updating board =
      let given = strip (or_else updating plan.name) in
      if given == "" then next_key (key_for (strip plan.label)) (Dict.keys board) else given

  unfoldable pub row_for : Plan Pos → String → Dict (Plan Pos) → Plan Pos
  row_for plan updating board = record plan {
    name = row_name plan updating board;
    label = strip plan.label;
  }

  unfoldable pub put_on_file :
      Plan Pos → Dict (Plan Pos) → List Refusal × List Warning → Option (Dict (Plan Pos) × Answer)
  put_on_file row board (b ∷ bad, warn) = some (board, refused (b ∷ bad) warn)
  put_on_file row board ([], warn) = elim (upsert row board) [
    | none ↦ none
    | some rows ↦ some (rows, filed row.name warn)
  ]

  unfoldable pub file_plan :
      (Pos → Pos → Bool)
      → Plan Pos
      → String
      → List String
      → Dict Pos
      → Dict (Plan Pos)
      → Option (Dict (Plan Pos) × Answer)
  file_plan far plan updating_as_given fixes at board =
      let updating = strip updating_as_given in
      if not (updating == "") && not (is_in updating (Dict.keys board))
      then some (board, refused (no_such_plan updating ∷ []) [])
      else put_on_file (row_for plan updating board) board
          (check far plan fixes (taken_labels board) updating at)

  -- unfile, and whether there was such a plan
  unfoldable pub unfile : String → Dict (Plan Pos) → Dict (Plan Pos) × Bool
  unfile name board =
      if is_in name (Dict.keys board) then (Dict.remove board name, true) else (board, false)
