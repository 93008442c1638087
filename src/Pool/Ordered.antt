-- ===== src/Pool/Ordered.antt =====
-- The threads of src/marshall/radio/pool.py lock their channels in rising order.
use marshall.Prelude.{
  ℕ, zero, suc, ◌<◌, ◌≡◌, false, List, [], ◌∷◌, eqb, leb, leb→lt, arith, All, All-map, Pairwise,
  Bool-cases, inl, inr,
}
use marshall.Pool.{
  Shared, Stage, locking, waiting, admitted, sending, returned, unlocking, done, crashed,
  insert_key, sorted_keys, transmit, is_locked, acquire, pick, act, step_at, run, calls,
}

abbrev pub Rising : List ℕ → Type 0
Rising = Pairwise (λ j k. j < k)

-- No frequency of a call is named twice.
abbrev pub Differ : List ℕ → Type 0
Differ = Pairwise (λ j k. eqb j k ≡ false)

-- What is taken is below what is still to take.
abbrev pub Ordered : Stage → Type 0
Ordered (locking taken todo) = Rising todo × All (λ t. All (λ k. t < k) todo) taken
Ordered (waiting taken) = Unit
Ordered (admitted taken) = Unit
Ordered (sending taken c) = Unit
Ordered (returned taken) = Unit
Ordered (unlocking taken) = Unit
Ordered done = Unit
Ordered (crashed taken) = Unit

acquire-Ordered :
    (free : List ℕ) (n : ℕ) (locked taken : List ℕ) → Ordered (acquire free n locked taken).1
unfolding acquire
acquire-Ordered free zero locked taken = tt
acquire-Ordered free (suc n) locked taken = tt

pick-Ordered :
    (free : List ℕ) (n : ℕ) (locked taken : List ℕ) → Ordered (pick free n locked taken).1
unfolding pick
pick-Ordered [] n locked taken = tt
pick-Ordered (c ∷ free) n locked taken = tt

act-Ordered : (sh : Shared) (s : Stage) → Ordered s → Ordered (act sh s).1
unfolding act
act-Ordered sh (locking taken []) h = tt
act-Ordered sh (locking taken (k ∷ todo)) h = elim (Bool-cases (is_locked k sh.locked)) [
  | inl e ↦ rw e h
  | inr e ↦ rw e (
    h.0.1,
    (
      h.0.0,
      All-map (λ t. All (λ j. t < j) (k ∷ todo)) (λ t. All (λ j. t < j) todo) taken (λ t a. a.1)
          h.1,
    ),
  )
]
act-Ordered sh (waiting taken) h = acquire-Ordered sh.free sh.permits sh.locked taken
act-Ordered sh (admitted taken) h = pick-Ordered sh.free sh.permits sh.locked taken
act-Ordered sh (sending taken c) h = tt
act-Ordered sh (returned taken) h = tt
act-Ordered sh (unlocking []) h = tt
act-Ordered sh (unlocking (k ∷ taken)) h = tt
act-Ordered sh done h = tt
act-Ordered sh (crashed taken) h = tt

step_at-Ordered :
    (i : ℕ) (sh : Shared) (ss : List Stage) → All Ordered ss → All Ordered (step_at i sh ss).1
unfolding step_at
step_at-Ordered i sh [] h = tt
step_at-Ordered zero sh (s ∷ ss) h = (act-Ordered sh s h.0, h.1)
step_at-Ordered (suc i) sh (s ∷ ss) h = (h.0, step_at-Ordered i sh ss h.1)

pub run-Ordered :
    (turns : List ℕ) (sh : Shared) (ss : List Stage)
    → All Ordered ss
    → All Ordered (run turns sh ss).1
unfolding run
run-Ordered [] sh ss h = h
run-Ordered (i ∷ turns) sh ss h =
    run-Ordered turns (step_at i sh ss).0 (step_at i sh ss).1 (step_at-Ordered i sh ss h)

insert_key-All : (P : ℕ → Type 0) (k : ℕ) (ks : List ℕ) → P k → All P ks → All P (insert_key k ks)
unfolding insert_key
insert_key-All P k [] p h = (p, tt)
insert_key-All P k (j ∷ ks) p h = elim (Bool-cases (leb k j)) [
  | inl e ↦ rw e (p, h)
  | inr e ↦ rw e (h.0, insert_key-All P k ks p h.1)
]

sorted_keys-All : (P : ℕ → Type 0) (ks : List ℕ) → All P ks → All P (sorted_keys ks)
unfolding sorted_keys
sorted_keys-All P [] h = tt
sorted_keys-All P (k ∷ ks) h = insert_key-All P k (sorted_keys ks) h.0 (sorted_keys-All P ks h.1)

insert_key-Rising :
    (k : ℕ) (ks : List ℕ) → Rising ks → All (λ j. eqb k j ≡ false) ks → Rising (insert_key k ks)
unfolding insert_key
insert_key-Rising k [] h d = (tt, tt)
insert_key-Rising k (j ∷ ks) h d = elim (Bool-cases (leb k j)) [
  | inl e ↦
      let first : k < j = ground (arith, e, d.0) in
      rw e ((first, All-map (λ i. j < i) (λ i. k < i) ks (λ i a. omega arith) h.0), h)
  | inr e ↦
      rw e (insert_key-All (λ i. j < i) k ks (leb→lt k j e) h.0, insert_key-Rising k ks h.1 d.1)
]

sorted_keys-Rising : (ks : List ℕ) → Differ ks → Rising (sorted_keys ks)
unfolding sorted_keys
sorted_keys-Rising [] h = tt
sorted_keys-Rising (k ∷ ks) h =
    insert_key-Rising k (sorted_keys ks) (sorted_keys-Rising ks h.1)
      (sorted_keys-All (λ j. eqb k j ≡ false) ks h.0)

pub calls-Ordered : (jobs : List (List ℕ)) → All Differ jobs → All Ordered (calls jobs)
unfolding calls transmit
calls-Ordered [] h = tt
calls-Ordered (freqs ∷ jobs) h = ((sorted_keys-Rising freqs h.0, tt), calls-Ordered jobs h.1)
