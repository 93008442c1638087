-- ===== src/Pool/OnAir.antt =====
-- No two threads of src/marshall/radio/pool.py are on the air on one frequency.
use marshall.Prelude.{
  ℕ, zero, suc, ◌+◌, ◌≤◌, ◌≡◌, refl, List, [], ◌∷◌, eqb, leb, arith, Bool-cases, inl, inr,
  if◌then◌else◌,
}
use marshall.Pool.{
  Shared, Stage, locking, waiting, admitted, sending, returned, unlocking, done, crashed,
  insert_key, sorted_keys, transmit, is_locked, acquire, pick, act, step_at, run, fresh, calls,
}
use marshall.Pool.Sharing.{total, count, has_channel, total-calls}
use marshall.Pool.Channels.{IsExclusive, run-IsExclusive}

insert_key-count :
    (j k : ℕ) (ks : List ℕ) → count k (insert_key j ks) ≡ (if eqb k j then 1 else 0) + count k ks
unfolding insert_key
insert_key-count j k [] = refl
insert_key-count j k (i ∷ ks) = elim (Bool-cases (leb j i)) [
  | inl e ↦ rw e refl
  | inr e ↦ let rest = insert_key-count j k ks in rw (e, rest) (omega arith)
]

sorted_keys-count : (k : ℕ) (ks : List ℕ) → count k (sorted_keys ks) ≡ count k ks
unfolding sorted_keys
sorted_keys-count k [] = refl
sorted_keys-count k (j ∷ ks) =
    let one = insert_key-count j k (sorted_keys ks) in
    let rest = sorted_keys-count k ks in omega arith

-- A thread has, or has still to take, every channel of its call until it gives them back.
abbrev Fits : List ℕ → Stage → Type 0
Fits freqs (locking taken todo) = (k : ℕ) → count k taken + count k todo ≡ count k freqs
Fits freqs (waiting taken) = (k : ℕ) → count k taken ≡ count k freqs
Fits freqs (admitted taken) = (k : ℕ) → count k taken ≡ count k freqs
Fits freqs (sending taken c) = (k : ℕ) → count k taken ≡ count k freqs
Fits freqs (returned taken) = Unit
Fits freqs (unlocking taken) = Unit
Fits freqs done = Unit
Fits freqs (crashed taken) = Unit

acquire-Fits :
    (freqs free : List ℕ) (n : ℕ) (locked taken : List ℕ)
    → ((k : ℕ) → count k taken ≡ count k freqs)
    → Fits freqs (acquire free n locked taken).1
unfolding acquire
acquire-Fits freqs free zero locked taken h = h
acquire-Fits freqs free (suc n) locked taken h = h

pick-Fits :
    (freqs free : List ℕ) (n : ℕ) (locked taken : List ℕ)
    → ((k : ℕ) → count k taken ≡ count k freqs)
    → Fits freqs (pick free n locked taken).1
unfolding pick
pick-Fits freqs [] n locked taken h = tt
pick-Fits freqs (c ∷ free) n locked taken h = h

act-Fits : (freqs : List ℕ) (sh : Shared) (s : Stage) → Fits freqs s → Fits freqs (act sh s).1
unfolding act
act-Fits freqs sh (locking taken []) h = λ k. let all = h k in omega arith
act-Fits freqs sh (locking taken (j ∷ todo)) h = elim (Bool-cases (is_locked j sh.locked)) [
  | inl e ↦ rw e h
  | inr e ↦ rw e (λ k. let all = h k in omega arith)
]
act-Fits freqs sh (waiting taken) h = acquire-Fits freqs sh.free sh.permits sh.locked taken h
act-Fits freqs sh (admitted taken) h = pick-Fits freqs sh.free sh.permits sh.locked taken h
act-Fits freqs sh (sending taken c) h = tt
act-Fits freqs sh (returned taken) h = tt
act-Fits freqs sh (unlocking []) h = tt
act-Fits freqs sh (unlocking (k ∷ taken)) h = tt
act-Fits freqs sh done h = tt
act-Fits freqs sh (crashed taken) h = tt

abbrev AllFit : List (List ℕ) → List Stage → Type 0
AllFit [] [] = Unit
AllFit (freqs ∷ jobs) (s ∷ ss) = Fits freqs s × AllFit jobs ss
AllFit [] (s ∷ ss) = ⊥
AllFit (freqs ∷ jobs) [] = ⊥

step_at-AllFit :
    (i : ℕ) (sh : Shared) (jobs : List (List ℕ)) (ss : List Stage)
    → AllFit jobs ss
    → AllFit jobs (step_at i sh ss).1
unfolding step_at
step_at-AllFit i sh [] [] h = tt
step_at-AllFit zero sh (freqs ∷ jobs) (s ∷ ss) h = (act-Fits freqs sh s h.0, h.1)
step_at-AllFit (suc i) sh (freqs ∷ jobs) (s ∷ ss) h = (h.0, step_at-AllFit i sh jobs ss h.1)
step_at-AllFit i sh [] (s ∷ ss) h = absurd h
step_at-AllFit i sh (freqs ∷ jobs) [] h = absurd h

run-AllFit :
    (turns : List ℕ) (sh : Shared) (jobs : List (List ℕ)) (ss : List Stage)
    → AllFit jobs ss
    → AllFit jobs (run turns sh ss).1
unfolding run
run-AllFit [] sh jobs ss h = h
run-AllFit (i ∷ turns) sh jobs ss h =
    run-AllFit turns (step_at i sh ss).0 jobs (step_at i sh ss).1 (step_at-AllFit i sh jobs ss h)

calls-AllFit : (jobs : List (List ℕ)) → AllFit jobs (calls jobs)
unfolding calls transmit
calls-AllFit [] = tt
calls-AllFit (freqs ∷ jobs) =
    (λ k. let same = sorted_keys-count k freqs in omega arith, calls-AllFit jobs)

-- How often a frequency is on the air: the calls that name it and whose thread is sending now.
abbrev pub sends : ℕ → List ℕ → Stage → ℕ
sends k freqs (sending taken c) = count k freqs
sends k freqs _ = 0

abbrev pub on_air : ℕ → List (List ℕ) → List Stage → ℕ
on_air k (freqs ∷ jobs) (s ∷ ss) = sends k freqs s + on_air k jobs ss
on_air k _ _ = 0

sends_le : (k : ℕ) (freqs : List ℕ) (s : Stage) → Fits freqs s → sends k freqs s ≤ has_channel k s
sends_le k freqs (locking taken todo) h = omega arith
sends_le k freqs (waiting taken) h = omega arith
sends_le k freqs (admitted taken) h = omega arith
sends_le k freqs (sending taken c) h = let all = h k in omega arith
sends_le k freqs (returned taken) h = omega arith
sends_le k freqs (unlocking taken) h = omega arith
sends_le k freqs done h = omega arith
sends_le k freqs (crashed taken) h = omega arith

on_air_le :
    (k : ℕ) (jobs : List (List ℕ)) (ss : List Stage)
    → AllFit jobs ss
    → on_air k jobs ss ≤ total (has_channel k) ss
on_air_le k [] [] h = omega arith
on_air_le k (freqs ∷ jobs) (s ∷ ss) h =
    let one = sends_le k freqs s h.0 in let rest = on_air_le k jobs ss h.1 in omega arith
on_air_le k [] (s ∷ ss) h = absurd h
on_air_le k (freqs ∷ jobs) [] h = absurd h

pub fresh-IsExclusive : (n : ℕ) (jobs : List (List ℕ)) → IsExclusive (fresh n) (calls jobs)
unfolding fresh
fresh-IsExclusive n jobs = λ k. (total-calls (has_channel k) (λ todo. refl) jobs, omega arith)

-- Whatever the threads call and in whatever order they run, on each frequency at most one of them
-- sends at a time.
pub run-on_air :
    (n : ℕ) (jobs : List (List ℕ)) (turns : List ℕ) (k : ℕ)
    → on_air k jobs (run turns (fresh n) (calls jobs)).1 ≤ 1
run-on_air n jobs turns k =
    let fits = run-AllFit turns (fresh n) jobs (calls jobs) (calls-AllFit jobs) in
    let below = on_air_le k jobs (run turns (fresh n) (calls jobs)).1 fits in
    let owner = run-IsExclusive turns (fresh n) (calls jobs) (fresh-IsExclusive n jobs) k in
    let same = owner.0 in let once = owner.1 in omega arith
