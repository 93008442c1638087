-- ===== src/Filing/Tests.antt =====
-- Plans filed, refused, and filed twice.
use marshall.Prelude.{
  ℕ, ◌≡◌, refl, ◌↔◌, String, Bool, true, Option, none, some, List, [], ◌∷◌, lower, strip, str_len,
  str_append, arith,
}
use marshall.Prelude.Dict
use marshall.Prelude.Dict.{Dict}
use marshall.Names.{split_at}
use marshall.Filing.{
  Leg, Plan, unsayable_label, no_altitude, unknown_fix, no_task, not_round, sounds_like,
  also_published, others, too_close, key_of, is_carried, refuse_altitude, refuse_leg, refuse_legs,
  refuse_label, no_leg, refusals, warn_place, warn_altitude, warn_legs, last_fix, warn_task,
  warn_label, check,
}
use marshall.Filing.Keys.{
  all_chars, name_ok, label_ok, str_take, dashed, left_dashes, right_dashes, key_for, decimal,
  numbered, count_on, next_key, near, once, words,
}
use marshall.Filing.Accepting.{IsFileable, refusals-IsFileable}
use marshall.Filing.Board.{
  filed, taken_labels, file_plan, unfile, upsert, row_name, row_for, put_on_file,
}
use marshall.Filing.Keeping.{new_key, warnings, file_plan-raises}
use marshall.Filing.Undone.{file_plan-keeps, unfile-file_plan}
use marshall.Filing.Naming.{key_for-name_ok}

abbrev leg : String → Option ℕ → Leg ℕ
leg fix alt_ft = record { fix = fix; place = none; alt_ft = alt_ft }

abbrev plan : String → List (Leg ℕ) → Plan ℕ
plan label legs = record { name = ""; label = label; legs = legs; task = "Intercept"; origin = "" }

abbrev route : List (Leg ℕ)
route =
    leg "Lima" (some 3000)
    ∷ record { fix = "Initial"; place = some 7; alt_ft = some 2050 }
    ∷ leg "Batumi" (some 0)
    ∷ []

abbrev chart : List String
chart = "lima" ∷ "initial" ∷ "batumi" ∷ []

abbrev far : ℕ → ℕ → Bool
far a b = true

check-warns :
    check far (plan "Domino" route) chart (("dominic", "dominic") ∷ []) "" (("initial", 9) ∷ []) ≡ (
      [],
      sounds_like "Domino" "dominic" "dominic"
          ∷ also_published "Initial"
          ∷ not_round "Initial" 2050
          ∷ [],
    )
unfolding all_chars name_ok label_ok str_take dashed left_dashes right_dashes key_for decimal
    numbered count_on next_key near once words split_at str_len str_append lower strip others
    too_close key_of is_carried refuse_altitude refuse_leg refuse_legs refuse_label no_leg refusals
    warn_place warn_altitude warn_legs last_fix warn_task warn_label check taken_labels file_plan
    unfile upsert row_name row_for put_on_file Dict.get Dict.put Dict.keys Dict.remove
check-warns = refl

check-refuses :
    (check far
      (record (plan "Samovar One" (leg "Nowhere" none ∷ [])) { task = " " })
      chart
      []
      ""
      []).0
    ≡ unsayable_label ∷ unknown_fix "Nowhere" ∷ no_altitude "Nowhere" ∷ no_task ∷ []
unfolding all_chars name_ok label_ok str_take dashed left_dashes right_dashes key_for decimal
    numbered count_on next_key near once words split_at str_len str_append lower strip others
    too_close key_of is_carried refuse_altitude refuse_leg refuse_legs refuse_label no_leg refusals
    warn_place warn_altitude warn_legs last_fix warn_task warn_label check taken_labels file_plan
    unfile upsert row_name row_for put_on_file Dict.get Dict.put Dict.keys Dict.remove
check-refuses = refl

key_for-test : key_for " The Big  Show! " ≡ "the-big-show"
unfolding all_chars name_ok label_ok str_take dashed left_dashes right_dashes key_for decimal
    numbered count_on next_key near once words split_at str_len str_append lower strip
key_for-test = refl

next_key-test : next_key "domino" ("domino" ∷ "domino-2" ∷ []) ≡ "domino-3"
unfolding all_chars name_ok label_ok str_take dashed left_dashes right_dashes key_for decimal
    numbered count_on next_key near once words split_at str_len str_append lower strip
next_key-test = refl

abbrev held : Plan ℕ
held = record (plan "Domino" route) { name = "domino" }

-- The same label again: `check` has nothing against it, and the database raises.
file_plan-twice : file_plan far (plan "Domino" route) "" chart [] (("domino", held) ∷ []) ≡ none
unfolding all_chars name_ok label_ok str_take dashed left_dashes right_dashes key_for decimal
    numbered count_on next_key near once words split_at str_len str_append lower strip others
    too_close key_of is_carried refuse_altitude refuse_leg refuse_legs refuse_label no_leg refusals
    warn_place warn_altitude warn_legs last_fix warn_task warn_label check taken_labels file_plan
    unfile upsert row_name row_for put_on_file Dict.get Dict.put Dict.keys Dict.remove
file_plan-twice = refl

refusals-IsFileable_example :
    (refusals (plan "Domino" route) chart [] "" ≡ []) ↔ IsFileable (plan "Domino" route) chart [] ""
refusals-IsFileable_example = refusals-IsFileable (plan "Domino" route) chart [] ""

key_for-name_ok_example : name_ok (key_for "The Big Show") ≡ true
unfolding all_chars name_ok label_ok str_take dashed left_dashes right_dashes key_for decimal
    numbered count_on next_key near once words split_at str_len str_append lower strip
key_for-name_ok_example = key_for-name_ok "The Big Show" (omega arith)

file_plan-raises_example :
    file_plan far (plan "Domino" route) "" chart [] (("domino", held) ∷ []) ≡ none
unfolding all_chars name_ok label_ok str_take dashed left_dashes right_dashes key_for decimal
    numbered count_on next_key near once words split_at str_len str_append lower strip others
    too_close key_of is_carried refuse_altitude refuse_leg refuse_legs refuse_label no_leg refusals
    warn_place warn_altitude warn_legs last_fix warn_task warn_label check taken_labels file_plan
    unfile upsert row_name row_for put_on_file Dict.get Dict.put Dict.keys Dict.remove
file_plan-raises_example =
    file_plan-raises far (plan "Domino" route) chart [] (("domino", held) ∷ []) 2 "domino" held refl
      refl (omega arith) (omega arith) refl refl refl refl

-- The key `domino` is that of a plan that is called Marlin by now.
abbrev marlin : Dict (Plan ℕ)
marlin = ("domino", record held { label = "Marlin" }) ∷ []

abbrev both : Dict (Plan ℕ)
both =
    ("domino", record held { label = "Marlin" })
    ∷ ("domino-2", record held { name = "domino-2" })
    ∷ []

file_plan-keeps_example : Dict.get both "domino" ≡ some (record held { label = "Marlin" })
unfolding all_chars name_ok label_ok str_take dashed left_dashes right_dashes key_for decimal
    numbered count_on next_key near once words split_at str_len str_append lower strip others
    too_close key_of is_carried refuse_altitude refuse_leg refuse_legs refuse_label no_leg refusals
    warn_place warn_altitude warn_legs last_fix warn_task warn_label check taken_labels file_plan
    unfile upsert row_name row_for put_on_file Dict.get Dict.put Dict.keys Dict.remove
file_plan-keeps_example =
    file_plan-keeps far (plan "Domino" route) chart [] marlin both
      (filed "domino-2" (not_round "Initial" 2050 ∷ [])) 2 "domino"
      (record held { label = "Marlin" }) refl (omega arith) (omega arith) refl refl refl

unfile-file_plan_example :
    (rows : Dict (Plan ℕ)) × (file_plan far (plan "Domino" route) "" chart [] marlin
      ≡ some (
        rows,
        filed
            (new_key (plan "Domino" route) marlin)
            (warnings far (plan "Domino" route) chart [] marlin),
      ))
    × (Dict.get rows (new_key (plan "Domino" route) marlin)
        ≡ some (record (plan "Domino" route) {
          name = new_key (plan "Domino" route) marlin;
          label = strip "Domino";
        }))
    × ((k : String)
        → Dict.get (unfile (new_key (plan "Domino" route) marlin) rows).0 k ≡ Dict.get marlin k)
unfolding all_chars name_ok label_ok str_take dashed left_dashes right_dashes key_for decimal
    numbered count_on next_key near once words split_at str_len str_append lower strip others
    too_close key_of is_carried refuse_altitude refuse_leg refuse_legs refuse_label no_leg refusals
    warn_place warn_altitude warn_legs last_fix warn_task warn_label check taken_labels file_plan
    unfile upsert row_name row_for put_on_file Dict.get Dict.put Dict.keys Dict.remove
unfile-file_plan_example =
    unfile-file_plan far (plan "Domino" route) chart [] marlin 2 refl refl (omega arith)
      (omega arith) refl (refl, tt)
