-- ===== src/Pool/Progress.antt =====
-- The transmissions of src/marshall/radio/pool.py do not wait for each other for ever.
use marshall.Prelude.{
  ℕ, zero, suc, ◌+◌, ◌*◌, ◌≤◌, ◌<◌, ◌≡◌, refl, Bool, true, false, not, List, [], ◌∷◌, length, any,
  eqb, leb, leb→lt, arith, All, Bool-cases, inl, inr,
}
use marshall.Pool.{
  Shared, Stage, locking, waiting, admitted, sending, returned, unlocking, done, crashed, is_locked,
  acquire, pick, act, step_at,
}
use marshall.Pool.Sharing.{total, permitted, broken, count, has_channel}
use marshall.Pool.Channels.{IsExclusive}
use marshall.Pool.Ordered.{Ordered}

-- How many turns a thread still needs at most.
abbrev pub rank : Stage → ℕ
rank (locking taken todo) = length taken + (2 * length todo + 6)
rank (waiting taken) = length taken + 5
rank (admitted taken) = length taken + 4
rank (sending taken c) = length taken + 3
rank (returned taken) = length taken + 2
rank (unlocking taken) = length taken + 1
rank done = 0
rank (crashed taken) = 0

abbrev pub movable : Shared → Stage → Bool
movable sh (locking taken []) = true
movable sh (locking taken (k ∷ todo)) = not (is_locked k sh.locked)
movable sh (waiting taken) = leb 1 sh.permits
movable sh (admitted taken) = true
movable sh (sending taken c) = true
movable sh (returned taken) = true
movable sh (unlocking taken) = true
movable sh done = false
movable sh (crashed taken) = false

acquire-rank :
    (free : List ℕ) (n : ℕ) (locked taken : List ℕ)
    → leb 1 n ≡ true
    → rank (acquire free n locked taken).1 + 1 ≤ length taken + 5
unfolding acquire
acquire-rank free zero locked taken h = ground arith
acquire-rank free (suc n) locked taken h = omega arith

pick-rank :
    (free : List ℕ) (n : ℕ) (locked taken : List ℕ)
    → rank (pick free n locked taken).1 + 1 ≤ length taken + 4
unfolding pick
pick-rank [] n locked taken = omega arith
pick-rank (c ∷ free) n locked taken = omega arith

-- The turn of a thread that need not wait brings it nearer to its end.
act-rank : (sh : Shared) (s : Stage) → movable sh s ≡ true → rank (act sh s).1 + 1 ≤ rank s
unfolding act
act-rank sh (locking taken []) h = omega arith
act-rank sh (locking taken (k ∷ todo)) h = elim (Bool-cases (is_locked k sh.locked)) [
  | inl e ↦ absurd (cc (rw e at h))
  | inr e ↦ rw e (omega arith)
]
act-rank sh (waiting taken) h = acquire-rank sh.free sh.permits sh.locked taken h
act-rank sh (admitted taken) h = pick-rank sh.free sh.permits sh.locked taken
act-rank sh (sending taken c) h = omega arith
act-rank sh (returned taken) h = omega arith
act-rank sh (unlocking []) h = omega arith
act-rank sh (unlocking (k ∷ taken)) h = omega arith
act-rank sh done h = absurd (cc)
act-rank sh (crashed taken) h = absurd (cc)

pub step_at-rank :
    (sh : Shared) (ss : List Stage)
    → any (movable sh) ss ≡ true
    → (i : ℕ) × (total rank (step_at i sh ss).1 + 1 ≤ total rank ss)
unfolding step_at
step_at-rank sh [] h = absurd (cc)
step_at-rank sh (s ∷ ss) h = elim (Bool-cases (movable sh s)) [
  | inl e ↦ let one = act-rank sh s e in (0, omega arith)
  | inr e ↦
      let rest = step_at-rank sh ss (rw e at h) in let less = rest.1 in (suc rest.0, omega arith)
]

not-false : (b : Bool) → not b ≡ false → b ≡ true
not-false b h = ground arith

module _ (sh : Shared) where
  abbrev Stuck : Stage → Type 0
  Stuck s = (movable sh s ≡ false) × (broken s ≡ 0)

  pub All-Stuck :
      (ss : List Stage) → any (movable sh) ss ≡ false → total broken ss ≡ 0 → All Stuck ss
  All-Stuck [] h b = tt
  All-Stuck (s ∷ ss) h b = ((ground arith, omega arith), All-Stuck ss (ground arith) (omega arith))

  Stuck-permitted : (s : Stage) → Stuck s → permitted s ≡ 0
  Stuck-permitted (locking taken todo) h = refl
  Stuck-permitted (waiting taken) h = refl
  Stuck-permitted (admitted taken) h = absurd (cc (h.0))
  Stuck-permitted (sending taken c) h = absurd (cc (h.0))
  Stuck-permitted (returned taken) h = absurd (cc (h.0))
  Stuck-permitted (unlocking taken) h = refl
  Stuck-permitted done h = refl
  Stuck-permitted (crashed taken) h = let one = h.1 in omega arith

  pub total-permitted : (ss : List Stage) → All Stuck ss → total permitted ss ≡ 0
  total-permitted [] h = refl
  total-permitted (s ∷ ss) h =
      let one = Stuck-permitted s h.0 in let rest = total-permitted ss h.1 in omega arith

  below :
      (k j : ℕ) (todo taken : List ℕ)
      → All (λ t. All (λ i. t < i) (j ∷ todo)) taken
      → 1 ≤ count k taken
      → k < j
  below k j todo [] h c = absurd (omega arith)
  below k j todo (t ∷ taken) h c = elim (Bool-cases (eqb k t)) [
    | inl e ↦ let first = h.0.0 in ground (arith, e)
    | inr e ↦
        let later : 1 ≤ 0 + count k taken = rw e at c in below k j todo taken h.1 (omega arith)
  ]

  -- A thread that waits while it has a channel waits for a higher one.
  Stuck-next :
      (k : ℕ) (s : Stage)
      → 1 ≤ sh.permits
      → Stuck s
      → Ordered s
      → 1 ≤ has_channel k s
      → (j : ℕ) × (k < j) × (is_locked j sh.locked ≡ true)
  Stuck-next k (locking taken []) p h o c = absurd (cc (h.0))
  Stuck-next k (locking taken (j ∷ todo)) p h o c =
      (j, below k j todo taken o.1 c, not-false (is_locked j sh.locked) h.0)
  Stuck-next k (waiting taken) p h o c = let blocked = h.0 in absurd (ground (arith, blocked))
  Stuck-next k (admitted taken) p h o c = absurd (cc (h.0))
  Stuck-next k (sending taken c') p h o c = absurd (cc (h.0))
  Stuck-next k (returned taken) p h o c = absurd (cc (h.0))
  Stuck-next k (unlocking taken) p h o c = absurd (cc (h.0))
  Stuck-next k done p h o c = absurd (omega arith)
  Stuck-next k (crashed taken) p h o c = let one = h.1 in absurd (omega arith)

  next-locked :
      (k : ℕ) (ss : List Stage)
      → 1 ≤ sh.permits
      → All Stuck ss
      → All Ordered ss
      → 1 ≤ total (has_channel k) ss
      → (j : ℕ) × (k < j) × (is_locked j sh.locked ≡ true)
  next-locked k [] p h o c = absurd (omega arith)
  next-locked k (s ∷ ss) p h o c = elim (Bool-cases (leb 1 (has_channel k s))) [
    | inl e ↦ Stuck-next k s p h.0 o.0 (ground (arith, e))
    | inr e ↦ next-locked k ss p h.1 o.1 (let few = leb→lt 1 (has_channel k s) e in omega arith)
  ]

  abbrev pub sum : List ℕ → ℕ
  sum [] = 0
  sum (j ∷ js) = j + sum js

  is_locked-sum : (k : ℕ) (ls : List ℕ) → is_locked k ls ≡ true → k ≤ sum ls
  is_locked-sum k [] h = absurd (cc)
  is_locked-sum k (j ∷ ls) h = ground (arith, is_locked-sum k ls)

  is_locked-count : (k : ℕ) (ls : List ℕ) → is_locked k ls ≡ true → 1 ≤ count k ls
  is_locked-count k [] h = absurd (cc)
  is_locked-count k (j ∷ ls) h = elim (Bool-cases (eqb k j)) [
    | inl e ↦ rw e (omega arith)
    | inr e ↦ rw e (let rest = is_locked-count k ls (rw e at h) in omega arith)
  ]

  -- The chain of who waits for whom climbs, so it would leave the channels that are locked.
  pub nothing_locked :
      (fuel k : ℕ) (ss : List Stage)
      → 1 ≤ sh.permits
      → All Stuck ss
      → All Ordered ss
      → IsExclusive sh ss
      → sum sh.locked < k + fuel
      → is_locked k sh.locked ≡ false
  nothing_locked zero k ss p h o x b = elim (Bool-cases (is_locked k sh.locked)) [
    | inl e ↦ let most = is_locked-sum k sh.locked e in absurd (omega arith)
    | inr e ↦ e
  ]
  nothing_locked (suc fuel) k ss p h o x b = elim (Bool-cases (is_locked k sh.locked)) [
    | inr e ↦ e
    | inl e ↦
        let some_one = is_locked-count k sh.locked e in
        let owner = (x k).0 in
        let next = next-locked k ss p h o (omega arith) in
        let higher = next.1 in
        absurd (cc (nothing_locked fuel next.0 ss p h o x (omega arith), next.2))
  ]

  Stuck-rank :
      (s : Stage)
      → 1 ≤ sh.permits
      → Stuck s
      → ((k : ℕ) → is_locked k sh.locked ≡ false)
      → rank s ≡ 0
  Stuck-rank (locking taken []) p h n = absurd (cc (h.0))
  Stuck-rank (locking taken (j ∷ todo)) p h n =
      absurd (cc (n j, not-false (is_locked j sh.locked) h.0))
  Stuck-rank (waiting taken) p h n = let blocked = h.0 in absurd (ground (arith, blocked))
  Stuck-rank (admitted taken) p h n = absurd (cc (h.0))
  Stuck-rank (sending taken c) p h n = absurd (cc (h.0))
  Stuck-rank (returned taken) p h n = absurd (cc (h.0))
  Stuck-rank (unlocking taken) p h n = absurd (cc (h.0))
  Stuck-rank done p h n = refl
  Stuck-rank (crashed taken) p h n = refl

  pub total-rank :
      (ss : List Stage)
      → 1 ≤ sh.permits
      → All Stuck ss
      → ((k : ℕ) → is_locked k sh.locked ≡ false)
      → total rank ss ≡ 0
  total-rank [] p h n = refl
  total-rank (s ∷ ss) p h n =
      let one = Stuck-rank s p h.0 n in let rest = total-rank ss p h.1 n in omega arith
