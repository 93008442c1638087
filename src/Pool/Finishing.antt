-- ===== src/Pool/Finishing.antt =====
-- Every transmission of src/marshall/radio/pool.py can come to its end.
use marshall.Prelude.{
  ℕ, zero, suc, ◌+◌, ◌≤◌, ◌≡◌, ◌⊎◌, refl, List, [], ◌∷◌, any, arith, All, Bool-cases, inl, inr,
}
use marshall.Pool.{
  Shared, Stage, locking, waiting, admitted, sending, returned, unlocking, done, crashed, step_at,
  run, fresh, calls,
}
use marshall.Pool.Sharing.{total, broken, Whole, run-Whole, fresh-Whole, total-calls}
use marshall.Pool.Channels.{IsExclusive, run-IsExclusive}
use marshall.Pool.OnAir.{fresh-IsExclusive}
use marshall.Pool.Ordered.{Differ, Ordered, run-Ordered, calls-Ordered}
use marshall.Pool.Progress.{
  rank, movable, step_at-rank, All-Stuck, total-permitted, sum, nothing_locked, total-rank,
}

-- What is true in every interleaving.
abbrev Fair : ℕ → Shared → List Stage → Type 0
Fair n sh ss = (Whole n sh ss × (total broken ss ≡ 0)) × (IsExclusive sh ss × All Ordered ss)

run-Fair :
    (n : ℕ) (turns : List ℕ) (sh : Shared) (ss : List Stage)
    → Fair n sh ss
    → Fair n (run turns sh ss).0 (run turns sh ss).1
run-Fair n turns sh ss h = (
  run-Whole n turns sh ss h.0.0 h.0.1,
  (run-IsExclusive turns sh ss h.1.0, run-Ordered turns sh ss h.1.1),
)

step_at-Fair :
    (n i : ℕ) (sh : Shared) (ss : List Stage)
    → Fair n sh ss
    → Fair n (step_at i sh ss).0 (step_at i sh ss).1
unfolding run
step_at-Fair n i sh ss h = run-Fair n (i ∷ []) sh ss h

-- Either all the calls have ended, or some thread's turn brings them nearer to it.
rank-cases :
    (n : ℕ) (sh : Shared) (ss : List Stage)
    → 1 ≤ n
    → Fair n sh ss
    → (total rank ss ≡ 0) ⊎ ((i : ℕ) × (total rank (step_at i sh ss).1 + 1 ≤ total rank ss))
rank-cases n sh ss p h = elim (Bool-cases (any (movable sh) ss)) [
  | inl e ↦ inr (step_at-rank sh ss e)
  | inr e ↦
      let stuck = All-Stuck sh ss e h.0.1 in
      let unused = total-permitted sh ss stuck in
      let whole = h.0.0.1 in
      let left : 1 ≤ sh.permits = omega arith in
      inl (
        total-rank sh ss left stuck (λ k.
          nothing_locked sh (suc (sum sh sh.locked)) k ss left stuck h.1.1 h.1.0 (omega arith)))
]

ending :
    (n fuel : ℕ) (sh : Shared) (ss : List Stage)
    → 1 ≤ n
    → Fair n sh ss
    → total rank ss ≤ fuel
    → (more : List ℕ) × (total rank (run more sh ss).1 ≡ 0)
unfolding run
ending n zero sh ss p h b = ([], omega arith)
ending n (suc fuel) sh ss p h b = elim (rank-cases n sh ss p h) [
  | inl e ↦ ([], e)
  | inr (i, less) ↦
      let rest =
        ending n fuel (step_at i sh ss).0 (step_at i sh ss).1 p (step_at-Fair n i sh ss h)
          (omega arith) in
      (i ∷ rest.0, rest.1)
]

rank-done : (s : Stage) → rank s ≡ 0 → broken s ≡ 0 → s ≡ done
rank-done (locking taken todo) r b = absurd (omega arith)
rank-done (waiting taken) r b = absurd (omega arith)
rank-done (admitted taken) r b = absurd (omega arith)
rank-done (sending taken c) r b = absurd (omega arith)
rank-done (returned taken) r b = absurd (omega arith)
rank-done (unlocking taken) r b = absurd (omega arith)
rank-done done r b = refl
rank-done (crashed taken) r b = absurd (omega arith)

total-done : (ss : List Stage) → total rank ss ≡ 0 → total broken ss ≡ 0 → All (λ s. s ≡ done) ss
total-done [] r b = tt
total-done (s ∷ ss) r b =
    (rank-done s (omega arith) (omega arith), total-done ss (omega arith) (omega arith))

-- Calls that name no frequency twice, on a pool of at least one client, never wait for each other for
-- ever: from wherever an interleaving has brought them, turns can follow after which all have ended.
pub run-done :
    (n : ℕ) (jobs : List (List ℕ)) (turns : List ℕ)
    → 1 ≤ n
    → All Differ jobs
    → (more : List ℕ) × All
        (λ s. s ≡ done)
        (run more (run turns (fresh n) (calls jobs)).0 (run turns (fresh n) (calls jobs)).1).1
run-done n jobs turns p d =
    let sh = (run turns (fresh n) (calls jobs)).0 in
    let ss = (run turns (fresh n) (calls jobs)).1 in
    let fair : Fair n sh ss = run-Fair n turns (fresh n) (calls jobs) (
      (fresh-Whole n jobs, total-calls broken (λ todo. refl) jobs),
      (fresh-IsExclusive n jobs, calls-Ordered jobs d),
    ) in
    let last = ending n (total rank ss) sh ss p fair (omega arith) in
    (last.0, total-done (run last.0 sh ss).1 last.1 (run-Fair n last.0 sh ss fair).0.1)
