-- ===== src/Pool/Sharing.antt =====
-- What the threads of src/marshall/radio/pool.py can rely on, in every interleaving.
use marshall.Prelude.{
  ℕ, zero, suc, ◌+◌, ◌≤◌, ◌≡◌, refl, ap, ◌∙◌, List, [], ◌∷◌, length, eqb, arith, Bool-cases, inl,
  inr, if◌then◌else◌,
}
use marshall.Pool.{
  Shared, Stage, locking, waiting, admitted, sending, returned, unlocking, done, crashed, transmit,
  is_locked, acquire, pick, act, step_at, run, clients, fresh, calls, sorted_keys,
}

abbrev pub total : (Stage → ℕ) → List Stage → ℕ
total w [] = 0
total w (s ∷ ss) = w s + total w ss

-- A thread that has a client, and one that has a permit.
abbrev pub using : Stage → ℕ
using (sending taken c) = 1
using _ = 0

abbrev pub ready : Stage → ℕ
ready (admitted taken) = 1
ready _ = 0

abbrev pub idle_permit : Stage → ℕ
idle_permit (admitted taken) = 1
idle_permit (returned taken) = 1
idle_permit (crashed taken) = 1
idle_permit _ = 0

abbrev pub permitted : Stage → ℕ
permitted s = using s + idle_permit s

abbrev pub broken : Stage → ℕ
broken (crashed taken) = 1
broken _ = 0

abbrev pub taken_of : Stage → List ℕ
taken_of (locking taken todo) = taken
taken_of (waiting taken) = taken
taken_of (admitted taken) = taken
taken_of (sending taken c) = taken
taken_of (returned taken) = taken
taken_of (unlocking taken) = taken
taken_of done = []
taken_of (crashed taken) = taken

abbrev pub count : ℕ → List ℕ → ℕ
count k [] = 0
count k (j ∷ js) = (if eqb k j then 1 else 0) + count k js

abbrev pub has_channel : ℕ → Stage → ℕ
has_channel k s = count k (taken_of s)

-- What every thread leaves the same, a step leaves the same.
step_at-same :
    (w : Stage → ℕ) (m : Shared → ℕ)
    → ((sh : Shared) (s : Stage) → w (act sh s).1 + m (act sh s).0 ≡ w s + m sh)
    → (i : ℕ) (sh : Shared) (ss : List Stage)
    → total w (step_at i sh ss).1 + m (step_at i sh ss).0 ≡ total w ss + m sh
unfolding step_at
step_at-same w m h i sh [] = refl
step_at-same w m h zero sh (s ∷ ss) = ground (arith, h sh s)
step_at-same w m h (suc i) sh (s ∷ ss) = ground (arith, step_at-same w m h i sh ss)

acquire-clients :
    (free : List ℕ) (n : ℕ) (locked taken : List ℕ)
    → using (acquire free n locked taken).1 + length (acquire free n locked taken).0.free
      ≡ length free
unfolding acquire
acquire-clients free zero locked taken = omega arith
acquire-clients free (suc n) locked taken = omega arith

pick-clients :
    (free : List ℕ) (n : ℕ) (locked taken : List ℕ)
    → using (pick free n locked taken).1 + length (pick free n locked taken).0.free ≡ length free
unfolding pick
pick-clients [] n locked taken = omega arith
pick-clients (c ∷ free) n locked taken = omega arith

act-clients :
    (sh : Shared) (s : Stage)
    → using (act sh s).1 + length (act sh s).0.free ≡ using s + length sh.free
unfolding act
act-clients sh (locking taken []) = refl
act-clients sh (locking taken (k ∷ todo)) = elim (Bool-cases (is_locked k sh.locked)) [
  | inl e ↦ rw e refl
  | inr e ↦ rw e refl
]
act-clients sh (waiting taken) =
    let l = acquire-clients sh.free sh.permits sh.locked taken in omega arith
act-clients sh (admitted taken) =
    let l = pick-clients sh.free sh.permits sh.locked taken in omega arith
act-clients sh (sending taken c) = omega arith
act-clients sh (returned taken) = refl
act-clients sh (unlocking []) = refl
act-clients sh (unlocking (k ∷ taken)) = refl
act-clients sh done = refl
act-clients sh (crashed taken) = refl

acquire-permits :
    (free : List ℕ) (n : ℕ) (locked taken : List ℕ)
    → permitted (acquire free n locked taken).1 + (acquire free n locked taken).0.permits ≡ n
unfolding acquire
acquire-permits free zero locked taken = refl
acquire-permits free (suc n) locked taken = omega arith

pick-permits :
    (free : List ℕ) (n : ℕ) (locked taken : List ℕ)
    → permitted (pick free n locked taken).1 + (pick free n locked taken).0.permits ≡ suc n
unfolding pick
pick-permits [] n locked taken = omega arith
pick-permits (c ∷ free) n locked taken = omega arith

act-permits :
    (sh : Shared) (s : Stage)
    → permitted (act sh s).1 + (act sh s).0.permits ≡ permitted s + sh.permits
unfolding act
act-permits sh (locking taken []) = refl
act-permits sh (locking taken (k ∷ todo)) = elim (Bool-cases (is_locked k sh.locked)) [
  | inl e ↦ rw e refl
  | inr e ↦ rw e refl
]
act-permits sh (waiting taken) =
    let l = acquire-permits sh.free sh.permits sh.locked taken in omega arith
act-permits sh (admitted taken) =
    let l = pick-permits sh.free sh.permits sh.locked taken in omega arith
act-permits sh (sending taken c) = refl
act-permits sh (returned taken) = omega arith
act-permits sh (unlocking []) = refl
act-permits sh (unlocking (k ∷ taken)) = refl
act-permits sh done = refl
act-permits sh (crashed taken) = refl

-- A pool of some size, whose permits and clients are all with it or with a thread.
abbrev pub Whole : ℕ → Shared → List Stage → Type 0
Whole size sh ss =
    (total using ss + length sh.free ≡ size) × (total permitted ss + sh.permits ≡ size)

step_at-Whole :
    (size i : ℕ) (sh : Shared) (ss : List Stage)
    → Whole size sh ss
    → Whole size (step_at i sh ss).0 (step_at i sh ss).1
step_at-Whole size i sh ss h = (
  step_at-same using (λ x. length x.free) act-clients i sh ss ∙ h.0,
  step_at-same permitted (λ x. x.permits) act-permits i sh ss ∙ h.1,
)

total_plus :
    (v w : Stage → ℕ) (ss : List Stage) → total (λ s. v s + w s) ss ≡ total v ss + total w ss
total_plus v w [] = refl
total_plus v w (s ∷ ss) = ground (arith, total_plus v w ss)

ready_le : (s : Stage) → ready s ≤ idle_permit s
ready_le (locking taken todo) = omega arith
ready_le (waiting taken) = omega arith
ready_le (admitted taken) = omega arith
ready_le (sending taken c) = omega arith
ready_le (returned taken) = omega arith
ready_le (unlocking taken) = omega arith
ready_le done = omega arith
ready_le (crashed taken) = omega arith

total_le : (ss : List Stage) → total ready ss ≤ total idle_permit ss
total_le [] = omega arith
total_le (s ∷ ss) = ground (arith, ready_le s, total_le ss)

-- Whoever has been admitted finds a client.
Whole-ready :
    (size : ℕ) (sh : Shared) (ss : List Stage) → Whole size sh ss → total ready ss ≤ length sh.free
Whole-ready size sh ss h =
    let parts = total_plus using idle_permit ss in
    let small = total_le ss in let a = h.0 in let b = h.1 in omega arith

pick-broken :
    (free : List ℕ) (n : ℕ) (locked taken : List ℕ)
    → 1 ≤ length free
    → broken (pick free n locked taken).1 ≡ 0
unfolding pick
pick-broken [] n locked taken h = omega arith
pick-broken (c ∷ free) n locked taken h = refl

acquire-broken :
    (free : List ℕ) (n : ℕ) (locked taken : List ℕ) → broken (acquire free n locked taken).1 ≡ 0
unfolding acquire
acquire-broken free zero locked taken = refl
acquire-broken free (suc n) locked taken = refl

act-broken :
    (sh : Shared) (s : Stage) → ready s ≤ length sh.free → broken s ≡ 0 → broken (act sh s).1 ≡ 0
unfolding act
act-broken sh (locking taken []) h b = refl
act-broken sh (locking taken (k ∷ todo)) h b = elim (Bool-cases (is_locked k sh.locked)) [
  | inl e ↦ rw e refl
  | inr e ↦ rw e refl
]
act-broken sh (waiting taken) h b = acquire-broken sh.free sh.permits sh.locked taken
act-broken sh (admitted taken) h b = pick-broken sh.free sh.permits sh.locked taken h
act-broken sh (sending taken c) h b = refl
act-broken sh (returned taken) h b = refl
act-broken sh (unlocking []) h b = refl
act-broken sh (unlocking (k ∷ taken)) h b = refl
act-broken sh done h b = refl
act-broken sh (crashed taken) h b = b

step_at-broken :
    (i : ℕ) (sh : Shared) (ss : List Stage)
    → total ready ss ≤ length sh.free
    → total broken ss ≡ 0
    → total broken (step_at i sh ss).1 ≡ 0
unfolding step_at
step_at-broken i sh [] h b = refl
step_at-broken zero sh (s ∷ ss) h b =
    let one = act-broken sh s (omega arith) (omega arith) in omega arith
step_at-broken (suc i) sh (s ∷ ss) h b =
    let rest = step_at-broken i sh ss (omega arith) (omega arith) in omega arith

-- Through every interleaving the clients and the permits stay whole, and no thread finds the list of
-- idle clients empty.
pub run-Whole :
    (size : ℕ) (turns : List ℕ) (sh : Shared) (ss : List Stage)
    → Whole size sh ss
    → total broken ss ≡ 0
    → Whole size (run turns sh ss).0 (run turns sh ss).1 × (total broken (run turns sh ss).1 ≡ 0)
unfolding run
run-Whole size [] sh ss h b = (h, b)
run-Whole size (i ∷ turns) sh ss h b =
    run-Whole size turns (step_at i sh ss).0 (step_at i sh ss).1 (step_at-Whole size i sh ss h)
      (step_at-broken i sh ss (Whole-ready size sh ss h) b)

length-clients : (n : ℕ) → length (clients n) ≡ n
unfolding clients
length-clients zero = refl
length-clients (suc n) = ap suc (length-clients n)

-- Threads that have only called hold nothing.
abbrev Holdless : (Stage → ℕ) → Type 0
Holdless w = (todo : List ℕ) → w (locking [] todo) ≡ 0

pub total-calls : (w : Stage → ℕ) → Holdless w → (jobs : List (List ℕ)) → total w (calls jobs) ≡ 0
unfolding calls transmit
total-calls w h [] = refl
total-calls w h (freqs ∷ jobs) = ground (arith, h (sorted_keys freqs), total-calls w h jobs)

pub fresh-Whole : (n : ℕ) (jobs : List (List ℕ)) → Whole n (fresh n) (calls jobs)
unfolding fresh
fresh-Whole n jobs =
    let a = length-clients n in
    let b = total-calls using (λ todo. refl) jobs in
    let c = total-calls permitted (λ todo. refl) jobs in (omega arith, omega arith)

-- Of a pool of some size, at most that many threads send at once in any interleaving, and no thread
-- that the semaphore lets through finds the list of clients empty.
pub run-sharing :
    (n : ℕ) (jobs : List (List ℕ)) (turns : List ℕ)
    → (total using (run turns (fresh n) (calls jobs)).1 ≤ n)
      × (total broken (run turns (fresh n) (calls jobs)).1 ≡ 0)
run-sharing n jobs turns =
    let after =
      run-Whole n turns (fresh n) (calls jobs) (fresh-Whole n jobs)
        (total-calls broken (λ todo. refl) jobs) in
    let whole = after.0.0 in (omega arith, after.1)
