-- ===== src/Filing/Undone.antt =====
-- What filing a new plan leaves of the board, and taking it off again: `file_plan` and `unfile` of
-- src/marshall/atc/filing.py.
use marshall.Prelude.{
  ℕ, ◌≤◌, ◌<◌, ◌≡◌, refl, sym, ap, subst, ◌∙◌, inl, inr, String, Bool, false, some, List, [], ◌∷◌,
  ◌==◌, is_in, any, lower, strip, arith, eq_iff, eq_refl, Bool-cases, All,
}
use mathlib.Core.Option.{some-injective}
use marshall.Prelude.Dict
use marshall.Prelude.Dict.{Dict}
use marshall.Filing.{Plan, Refusal, Warning, refusals, check}
use marshall.Filing.Keys.{str_take, key_for, numbered}
use marshall.Filing.Board.{
  Answer, filed, refused, taken_labels, clashes, upsert, row_for, put_on_file, file_plan, unfile,
}
use marshall.Filing.Keeping.{
  get-keys, no_key, new_key, row_name-new, new_key-IsFree, warnings, accepted,
}

module _ {Pos : Type 0} where
  -- A row under a new key leaves the others as they are.
  put-other :
      (board : Dict (Plan Pos)) (row held : Plan Pos) (k : String)
      → is_in row.name (Dict.keys board) ≡ false
      → Dict.get board k ≡ some held
      → Dict.get (Dict.put board row.name row) k ≡ some held
  put-other board row held k n h =
      Dict.get-put board row.name k row ∙ elim (Bool-cases (row.name == k)) [
        | inr c ↦ rw c h
        | inl c ↦ absurd (cc (get-keys board k held h, n, (eq_iff row.name k).0 c))
      ]

  put_on_file-keeps :
      (board rows : Dict (Plan Pos)) (row held : Plan Pos) (k : String) (bad : List Refusal)
      (warn : List Warning) (answer : Answer)
      → (bad ≡ [] → is_in row.name (Dict.keys board) ≡ false)
      → put_on_file row board (bad, warn) ≡ some (rows, answer)
      → Dict.get board k ≡ some held
      → Dict.get rows k ≡ some held
  unfolding put_on_file upsert
  put_on_file-keeps board rows row held k (b ∷ bad) warn answer n h g =
      subst (λ (d : Dict (Plan Pos)). Dict.get d k ≡ some held)
        (ap (λ p. p.0) (some-injective (board, refused (b ∷ bad) warn) (rows, answer) h)) g
  put_on_file-keeps board rows row held k [] warn answer n h g =
      elim (Bool-cases (any (clashes row) board)) [
        | inl c ↦ absurd (cc (rw (c, put_on_file) at h))
        | inr c ↦
            subst (λ (d : Dict (Plan Pos)). Dict.get d k ≡ some held)
              (ap (λ p. p.0)
                (some-injective (Dict.put board row.name row, filed row.name warn) (rows, answer)
                  (rw (c, put_on_file) at h)))
              (put-other board row held k (n refl) g)
      ]

  -- Filing a plan to which no key is given, where a numbered key is free for it, changes no plan that is on
  -- the board.
  pub file_plan-keeps :
      (far : Pos → Pos → Bool) (plan : Plan Pos) (fixes : List String) (at : Dict Pos)
      (board rows : Dict (Plan Pos)) (answer : Answer) (m : ℕ) (k : String) (held : Plan Pos)
      → plan.name ≡ ""
      → 2 ≤ m
      → m < 1000
      → is_in (numbered (str_take 60 (key_for (strip plan.label))) m) (Dict.keys board) ≡ false
      → file_plan far plan "" fixes at board ≡ some (rows, answer)
      → Dict.get board k ≡ some held
      → Dict.get rows k ≡ some held
  unfolding file_plan check strip row_for
  file_plan-keeps far plan fixes at board rows answer m k held e lo hi g h =
      put_on_file-keeps board rows (row_for plan "" board) held k
        (refusals plan fixes (taken_labels board) "") (warnings far plan fixes at board) answer
        (λ ok. rw (row_name-new plan board e) (new_key-IsFree plan fixes board m e ok lo hi g)) h

  -- No row has the label.
  abbrev pub IsUnsaid : String → Dict (Plan Pos) → Type 0
  IsUnsaid label board =
      All (λ (r : String × Plan Pos). (lower r.1.label == lower label) ≡ false) board

  unsaid :
      (row : Plan Pos) (board : Dict (Plan Pos))
      → IsUnsaid row.label board
      → any (clashes row) board ≡ false
  unsaid row [] h = refl
  unsaid row ((k, held) ∷ board) h =
      let rest = unsaid row board h.1 in let first = h.0 in ground arith

  -- A plan that `check` refuses nothing, to which no key is given, for which a numbered key is free and whose
  -- label no row has, is filed: the board then has it under its new key, and taking that off again leaves
  -- every key as it was.
  pub unfile-file_plan :
      (far : Pos → Pos → Bool) (plan : Plan Pos) (fixes : List String) (at : Dict Pos)
      (board : Dict (Plan Pos)) (m : ℕ)
      → plan.name ≡ ""
      → refusals plan fixes (taken_labels board) "" ≡ []
      → 2 ≤ m
      → m < 1000
      → is_in (numbered (str_take 60 (key_for (strip plan.label))) m) (Dict.keys board) ≡ false
      → IsUnsaid (strip plan.label) board
      → (rows : Dict (Plan Pos)) × (file_plan far plan "" fixes at board
          ≡ some (rows, filed (new_key plan board) (warnings far plan fixes at board)))
        × (Dict.get rows (new_key plan board)
            ≡ some (record plan { name = new_key plan board; label = strip plan.label }))
        × ((k : String) → Dict.get (unfile (new_key plan board) rows).0 k ≡ Dict.get board k)
  unfolding put_on_file upsert row_for unfile
  unfile-file_plan far plan fixes at board m e ok lo hi g u = (
    rows,
    accepted far plan fixes at board ok ∙ rw (clear, row_name-new plan board e, put_on_file) refl,
    there,
    back,
  )
    where
      key : String
      key = new_key plan board

      row : Plan Pos
      row = record plan { name = key; label = strip plan.label }

      rows : Dict (Plan Pos)
      rows = Dict.put board key row

      clear : any (clashes (row_for plan "" board)) board ≡ false
      clear = unsaid (row_for plan "" board) board u

      there : Dict.get rows key ≡ some row
      there = Dict.get-put board key key row ∙ rw (eq_refl key) refl

      back : (k : String) → Dict.get (unfile key rows).0 k ≡ Dict.get board k
      back k =
          rw (get-keys rows key row there, unfile)
            (Dict.get-remove rows key k ∙ elim (Bool-cases (key == k)) [
              | inl c ↦ rw c (
                  sym (
                    no_key board k (
                      subst (λ j. is_in j (Dict.keys board) ≡ false) ((eq_iff key k).0 c)
                        (new_key-IsFree plan fixes board m e ok lo hi g))))
              | inr c ↦ rw c (Dict.get-put board key k row ∙ rw c refl)
            ])
