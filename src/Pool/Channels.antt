-- ===== src/Pool/Channels.antt =====
-- One thread at a time on a channel, in src/marshall/radio/pool.py.
use marshall.Prelude.{
  ℕ, zero, suc, ◌+◌, ◌≤◌, ◌≡◌, refl, sym, subst, false, List, [], ◌∷◌, eqb, eqb→eq, arith,
  Bool-cases, inl, inr, if◌then◌else◌,
}
use marshall.Pool.{
  Shared, Stage, locking, waiting, admitted, sending, returned, unlocking, done, crashed, is_locked,
  unlock, acquire, pick, act, step_at, run,
}
use marshall.Pool.Sharing.{total, count, has_channel}

unlock-count :
    (j k : ℕ) (ls : List ℕ)
    → 1 ≤ count j ls
    → (if eqb k j then 1 else 0) + count k (unlock j ls) ≡ count k ls
unfolding unlock
unlock-count j k [] h = omega arith
unlock-count j k (i ∷ ls) h = elim (Bool-cases (eqb j i)) [
  | inl e ↦ rw (e, eqb→eq j i e) refl
  | inr e ↦
      let more : 1 ≤ count j ls = ground (arith, e) in
      let rest = unlock-count j k ls more in rw e (omega arith)
]

not_locked-count : (j : ℕ) (ls : List ℕ) → is_locked j ls ≡ false → count j ls ≡ 0
not_locked-count j [] h = refl
not_locked-count j (i ∷ ls) h = ground (arith, not_locked-count j ls)

abbrev Owns : Shared → Stage → Type 0
Owns sh s = (k : ℕ) → has_channel k s ≤ count k sh.locked

abbrev Once : Shared → Type 0
Once sh = (k : ℕ) → count k sh.locked ≤ 1

acquire-channel :
    (free : List ℕ) (n : ℕ) (locked taken : List ℕ) (k : ℕ)
    → (has_channel k (acquire free n locked taken).1 ≡ count k taken)
      × ((acquire free n locked taken).0.locked ≡ locked)
unfolding acquire
acquire-channel free zero locked taken k = (refl, refl)
acquire-channel free (suc n) locked taken k = (refl, refl)

pick-channel :
    (free : List ℕ) (n : ℕ) (locked taken : List ℕ) (k : ℕ)
    → (has_channel k (pick free n locked taken).1 ≡ count k taken)
      × ((pick free n locked taken).0.locked ≡ locked)
unfolding pick
pick-channel [] n locked taken k = (refl, refl)
pick-channel (c ∷ free) n locked taken k = (refl, refl)

-- What a thread takes and gives back is what becomes locked and free.
abbrev Balanced : Shared → Stage → ℕ → Type 0
Balanced sh s k =
    has_channel k (act sh s).1 + count k sh.locked ≡ has_channel k s + count k (act sh s).0.locked

act-Balanced : (sh : Shared) (s : Stage) (k : ℕ) → Owns sh s → Balanced sh s k
unfolding act
act-Balanced sh (locking taken []) k h = refl
act-Balanced sh (locking taken (j ∷ todo)) k h = elim (Bool-cases (is_locked j sh.locked)) [
  | inl e ↦ rw e refl
  | inr e ↦ rw e (omega arith)
]
act-Balanced sh (waiting taken) k h =
    let two = acquire-channel sh.free sh.permits sh.locked taken k in rw (two.0, two.1) refl
act-Balanced sh (admitted taken) k h =
    let two = pick-channel sh.free sh.permits sh.locked taken k in rw (two.0, two.1) refl
act-Balanced sh (sending taken c) k h = refl
act-Balanced sh (returned taken) k h = refl
act-Balanced sh (unlocking []) k h = refl
act-Balanced sh (unlocking (j ∷ taken)) k h =
    let mine = h j in
    let held : 1 ≤ count j sh.locked = ground arith in
    let back = unlock-count j k sh.locked held in omega arith
act-Balanced sh done k h = refl
act-Balanced sh (crashed taken) k h = refl

act-Once : (sh : Shared) (s : Stage) → Owns sh s → Once sh → Once (act sh s).0
unfolding act
act-Once sh (locking taken []) h o k = o k
act-Once sh (locking taken (j ∷ todo)) h o k = elim (Bool-cases (is_locked j sh.locked)) [
  | inl e ↦ rw e (o k)
  | inr e ↦ rw e (elim (Bool-cases (eqb k j)) [
    | inl c ↦ subst (λ i. count i (j ∷ sh.locked) ≤ 1) (sym (eqb→eq k j c)) (once j e)
    | inr c ↦ rw c (other (o k))
  ])
]
  where
    once : (j : ℕ) → is_locked j sh.locked ≡ false → count j (j ∷ sh.locked) ≤ 1
    once j e = let none_yet = not_locked-count j sh.locked e in ground (arith, none_yet)

    other : {n : ℕ} → n ≤ 1 → 0 + n ≤ 1
    other h = omega arith
act-Once sh (waiting taken) h o k =
    rw ((acquire-channel sh.free sh.permits sh.locked taken k).1) (o k)
act-Once sh (admitted taken) h o k =
    rw ((pick-channel sh.free sh.permits sh.locked taken k).1) (o k)
act-Once sh (sending taken c) h o k = o k
act-Once sh (returned taken) h o k = o k
act-Once sh (unlocking []) h o k = o k
act-Once sh (unlocking (j ∷ taken)) h o k =
    let mine = h j in
    let held : 1 ≤ count j sh.locked = ground arith in
    let back = unlock-count j k sh.locked held in let few = o k in omega arith
act-Once sh done h o k = o k
act-Once sh (crashed taken) h o k = o k

abbrev AllOwn : Shared → List Stage → Type 0
AllOwn sh ss = (k : ℕ) → total (has_channel k) ss ≤ count k sh.locked

step_at-Balanced :
    (i : ℕ) (sh : Shared) (ss : List Stage) (k : ℕ)
    → AllOwn sh ss
    → total (has_channel k) (step_at i sh ss).1 + count k sh.locked
      ≡ total (has_channel k) ss + count k (step_at i sh ss).0.locked
unfolding step_at
step_at-Balanced i sh [] k h = refl
step_at-Balanced zero sh (s ∷ ss) k h =
    let one = act-Balanced sh s k (λ j. at_most j (h j)) in omega arith
  where
    at_most :
        (j : ℕ)
        → has_channel j s + total (has_channel j) ss ≤ count j sh.locked
        → has_channel j s ≤ count j sh.locked
    at_most j h = omega arith
step_at-Balanced (suc i) sh (s ∷ ss) k h =
    let rest = step_at-Balanced i sh ss k (λ j. at_most j (h j)) in omega arith
  where
    at_most :
        (j : ℕ)
        → has_channel j s + total (has_channel j) ss ≤ count j sh.locked
        → total (has_channel j) ss ≤ count j sh.locked
    at_most j h = omega arith

step_at-Once :
    (i : ℕ) (sh : Shared) (ss : List Stage) → AllOwn sh ss → Once sh → Once (step_at i sh ss).0
unfolding step_at
step_at-Once i sh [] h o = o
step_at-Once zero sh (s ∷ ss) h o = act-Once sh s (λ j. at_most j (h j)) o
  where
    at_most :
        (j : ℕ)
        → has_channel j s + total (has_channel j) ss ≤ count j sh.locked
        → has_channel j s ≤ count j sh.locked
    at_most j h = omega arith
step_at-Once (suc i) sh (s ∷ ss) h o = step_at-Once i sh ss (λ j. at_most j (h j)) o
  where
    at_most :
        (j : ℕ)
        → has_channel j s + total (has_channel j) ss ≤ count j sh.locked
        → total (has_channel j) ss ≤ count j sh.locked
    at_most j h = omega arith

-- Each channel that is locked is one thread's, and once.
abbrev pub IsExclusive : Shared → List Stage → Type 0
IsExclusive sh ss =
    (k : ℕ) → (total (has_channel k) ss ≡ count k sh.locked) × (count k sh.locked ≤ 1)

pub run-IsExclusive :
    (turns : List ℕ) (sh : Shared) (ss : List Stage)
    → IsExclusive sh ss
    → IsExclusive (run turns sh ss).0 (run turns sh ss).1
unfolding run
run-IsExclusive [] sh ss h = h
run-IsExclusive (i ∷ turns) sh ss h =
    run-IsExclusive turns (step_at i sh ss).0 (step_at i sh ss).1 (λ k. (
      moved k (step_at-Balanced i sh ss k owned) (h k).0,
      step_at-Once i sh ss owned (λ j. (h j).1) k,
    ))
  where
    owned : AllOwn sh ss
    owned k = subst (λ n. total (has_channel k) ss ≤ n) (h k).0 (omega arith)

    moved :
        (k : ℕ)
        → total (has_channel k) (step_at i sh ss).1 + count k sh.locked
          ≡ total (has_channel k) ss + count k (step_at i sh ss).0.locked
        → total (has_channel k) ss ≡ count k sh.locked
        → total (has_channel k) (step_at i sh ss).1 ≡ count k (step_at i sh ss).0.locked
    moved k a b = omega arith
