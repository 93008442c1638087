-- ===== src/Pool/Tests.antt =====
-- Three threads and two clients, in one interleaving.
use marshall.Prelude.{ℕ, ◌≤◌, All, arith, ◌≡◌, refl, List, [], ◌∷◌}
use marshall.Pool.{
  locking, sending, done, insert_key, sorted_keys, transmit, acquire, pick, act, step_at, run,
  clients, fresh, calls,
}
use marshall.Pool.Sharing.{total, using, broken, run-sharing}
use marshall.Pool.OnAir.{on_air, run-on_air}
use marshall.Pool.Finishing.{run-done}

abbrev jobs : List (List ℕ)
jobs = (251 ∷ 124 ∷ []) ∷ (124 ∷ []) ∷ (131 ∷ []) ∷ []

abbrev turns : List ℕ
turns = 0 ∷ 1 ∷ 0 ∷ 2 ∷ 0 ∷ 0 ∷ 0 ∷ 2 ∷ 2 ∷ 2 ∷ 1 ∷ []

-- The second waits for the first's channel, and the third sends beside the first.
run-turns :
    (run turns (fresh 2) (calls jobs)).1
    ≡ sending (251 ∷ 124 ∷ []) 2 ∷ locking [] (124 ∷ []) ∷ sending (131 ∷ []) 1 ∷ []
unfolding run step_at act acquire pick fresh clients calls transmit sorted_keys insert_key
run-turns = refl

run-sharing_example :
    (total using (run turns (fresh 2) (calls jobs)).1 ≤ 2)
    × (total broken (run turns (fresh 2) (calls jobs)).1 ≡ 0)
run-sharing_example = run-sharing 2 jobs turns

run-on_air_example : on_air 124 jobs (run turns (fresh 2) (calls jobs)).1 ≤ 1
run-on_air_example = run-on_air 2 jobs turns 124

-- A call that names a frequency twice waits for itself.
run-twice :
    (run (0 ∷ 0 ∷ 0 ∷ 0 ∷ []) (fresh 2) (calls ((124 ∷ 124 ∷ []) ∷ []))).1
    ≡ locking (124 ∷ []) (124 ∷ []) ∷ []
unfolding run step_at act acquire pick fresh clients calls transmit sorted_keys insert_key
run-twice = refl

run-done_example :
    (more : List ℕ) × All
      (λ s. s ≡ done)
      (run more (run turns (fresh 2) (calls jobs)).0 (run turns (fresh 2) (calls jobs)).1).1
run-done_example =
    run-done 2 jobs turns (omega arith) (((refl, tt), (tt, tt)), ((tt, tt), ((tt, tt), tt)))
