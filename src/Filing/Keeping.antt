-- ===== src/Filing/Keeping.antt =====
-- Filing a new plan, with no key given for it: `file_plan` and `unfile` of src/marshall/atc/filing.py.
use marshall.Prelude.{
  ℕ, ◌≤◌, ◌<◌, ◌≡◌, refl, sym, ap, subst, ◌∙◌, inl, inr, String, Bool, true, false, none, some,
  List, [], ◌∷◌, ◌==◌, is_in, any, lower, strip, arith, eq_iff, Bool-cases,
}
use Prim.Native.Char.{Char}
use mathlib.Core.Option.{some-injective}
use marshall.Prelude.Dict
use marshall.Prelude.Dict.{Dict}
use marshall.Filing.{Plan, Warning, key_of, refusals, check}
use marshall.Filing.Keys.{name_ok, str_take, key_for, numbered, next_key}
use marshall.Filing.Board.{taken_labels, clashes, upsert, row_name, row_for, put_on_file, file_plan}
use marshall.Filing.Accepting.{refusals-IsFileable}
use marshall.Filing.Naming.{next_key-IsFree}

cons-nonempty : (c : Char) (s : String) → (String.◌∷◌ c s == "") ≡ false
cons-nonempty c s = elim (Bool-cases (String.◌∷◌ c s == "")) [
  | inl e ↦ absurd (cc ((eq_iff (String.◌∷◌ c s) "").0 e))
  | inr e ↦ e
]

long_enough : (s : String) → name_ok s ≡ true → (str_take 60 s == "") ≡ false
unfolding name_ok str_take
long_enough String.[] h = absurd (cc)
long_enough (String.◌∷◌ c s) h = cons-nonempty c (str_take 59 s)

module _ {Pos : Type 0} where
  pub get-keys :
      (board : Dict (Plan Pos)) (k : String) (row : Plan Pos)
      → Dict.get board k ≡ some row
      → is_in k (Dict.keys board) ≡ true
  unfolding Dict.get Dict.keys
  get-keys [] k row h = absurd (cc)
  get-keys ((j, held) ∷ board) k row h = elim (Bool-cases (k == j)) [
    | inl c ↦ rw c refl
    | inr c ↦ rw c (get-keys board k row (rw c at h))
  ]

  -- Another row with the label is a clash.
  clash :
      (board : Dict (Plan Pos)) (row held : Plan Pos) (k : String)
      → Dict.get board k ≡ some held
      → (k == row.name) ≡ false
      → (held.label == "") ≡ false
      → (lower held.label == lower row.label) ≡ true
      → any (clashes row) board ≡ true
  unfolding Dict.get
  clash [] row held k h n l s = absurd (cc)
  clash ((j, first) ∷ board) row held k h n l s = elim (Bool-cases (k == j)) [
    | inr c ↦ let later = clash board row held k (rw c at h) n l s in ground arith
    | inl c ↦
        let same : first ≡ held = some-injective first held (rw c at h) in
        let at_k : j ≡ k = sym ((eq_iff k j).0 c) in rw (same, at_k, n, l, s) refl
  ]

  pub no_key :
      (board : Dict (Plan Pos)) (k : String)
      → is_in k (Dict.keys board) ≡ false
      → Dict.get board k ≡ none
  unfolding Dict.get Dict.keys
  no_key [] k h = refl
  no_key ((j, held) ∷ board) k h = elim (Bool-cases (k == j)) [
    | inl c ↦ absurd (cc (rw c at h))
    | inr c ↦ rw c (no_key board k (rw c at h))
  ]

  -- The key that a plan gets to which none is given.
  abbrev pub new_key : Plan Pos → Dict (Plan Pos) → String
  new_key plan board = next_key (key_for (strip plan.label)) (Dict.keys board)

  pub row_name-new :
      (plan : Plan Pos) (board : Dict (Plan Pos))
      → plan.name ≡ ""
      → row_name plan "" board ≡ new_key plan board
  unfolding row_name strip
  row_name-new plan board e = rw e refl

  key_of-new : (plan : Plan Pos) → plan.name ≡ "" → key_of plan ≡ key_for (strip plan.label)
  unfolding key_of strip
  key_of-new plan e = rw e refl

  pub new_key-IsFree :
      (plan : Plan Pos) (fixes : List String) (board : Dict (Plan Pos)) (m : ℕ)
      → plan.name ≡ ""
      → refusals plan fixes (taken_labels board) "" ≡ []
      → 2 ≤ m
      → m < 1000
      → is_in (numbered (str_take 60 (key_for (strip plan.label))) m) (Dict.keys board) ≡ false
      → is_in (new_key plan board) (Dict.keys board) ≡ false
  new_key-IsFree plan fixes board m e ok lo hi g =
      let fileable = (refusals-IsFileable plan fixes (taken_labels board) "").0 ok in
      let formed : name_ok (key_for (strip plan.label)) ≡ true =
        subst (λ k. name_ok k ≡ true) (key_of-new plan e) fileable.0 in
      (next_key-IsFree (key_for (strip plan.label)) (Dict.keys board) m (long_enough _ formed) lo hi
        g).0

  abbrev pub warnings :
      (Pos → Pos → Bool) → Plan Pos → List String → Dict Pos → Dict (Plan Pos) → List Warning
  warnings far plan fixes at board = (check far plan fixes (taken_labels board) "" at).1

  -- What is left of filing once nothing is refused.
  pub accepted :
      (far : Pos → Pos → Bool) (plan : Plan Pos) (fixes : List String) (at : Dict Pos)
      (board : Dict (Plan Pos))
      → refusals plan fixes (taken_labels board) "" ≡ []
      → file_plan far plan "" fixes at board
        ≡ put_on_file (row_for plan "" board) board ([], warnings far plan fixes at board)
  unfolding file_plan check strip
  accepted far plan fixes at board ok =
      ap (λ bad. put_on_file (row_for plan "" board) board (bad, warnings far plan fixes at board))
        ok

  -- A plan that `check` refuses nothing, to which no key was given and for which a numbered key is free: if a
  -- row of the board has its label, it is not refused, and the database raises.
  pub file_plan-raises :
      (far : Pos → Pos → Bool) (plan : Plan Pos) (fixes : List String) (at : Dict Pos)
      (board : Dict (Plan Pos)) (m : ℕ) (k : String) (held : Plan Pos)
      → plan.name ≡ ""
      → refusals plan fixes (taken_labels board) "" ≡ []
      → 2 ≤ m
      → m < 1000
      → is_in (numbered (str_take 60 (key_for (strip plan.label))) m) (Dict.keys board) ≡ false
      → Dict.get board k ≡ some held
      → (held.label == "") ≡ false
      → (lower held.label == lower (strip plan.label)) ≡ true
      → file_plan far plan "" fixes at board ≡ none
  unfolding put_on_file upsert row_for
  file_plan-raises far plan fixes at board m k held e ok lo hi g there l same =
      accepted far plan fixes at board ok ∙ rw (clashing, put_on_file) refl
    where
      other : (k == row_name plan "" board) ≡ false
      other = elim (Bool-cases (k == row_name plan "" board)) [
        | inr c ↦ c
        | inl c ↦
            let at_k : k ≡ new_key plan board =
              (eq_iff k (row_name plan "" board)).0 c ∙ row_name-new plan board e in
            absurd (
              cc
                (get-keys board k held there, new_key-IsFree plan fixes board m e ok lo hi g, at_k))
      ]

      clashing : any (clashes (row_for plan "" board)) board ≡ true
      clashing = clash board (row_for plan "" board) held k there other l same
