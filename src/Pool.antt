-- ===== src/Pool.antt =====
-- src/marshall/radio/pool.py: threads that share a few radio clients. A thread inside `transmit` is a
-- stage; what the threads share are the idle clients (by number, the last one appended first), the
-- semaphore's permits and the channels that are locked, by their frequency in hertz. One call of `act`
-- is what a thread does until the next call that may wait.
pub mod Sharing
pub mod Channels
pub mod OnAir
pub mod Ordered
pub mod Progress
pub mod Finishing
mod Tests
use marshall.Prelude.{
  ℕ, zero, suc, Bool, true, false, Option, none, some, List, [], ◌∷◌, any, eqb, leb, if◌then◌else◌,
}

pub record Shared : Type 0 where
  pub free : List ℕ
  pub permits : ℕ
  pub locked : List ℕ

pub data Stage : Type 0 where
  locking : List ℕ → List ℕ → Stage
  waiting : List ℕ → Stage
  admitted : List ℕ → Stage
  sending : List ℕ → ℕ → Stage
  returned : List ℕ → Stage
  unlocking : List ℕ → Stage
  done : Stage
  -- `self._free.pop()` raised IndexError
  crashed : List ℕ → Stage

unfoldable pub insert_key : ℕ → List ℕ → List ℕ
insert_key k [] = k ∷ []
insert_key k (j ∷ js) = let rest = insert_key k js in if leb k j then k ∷ j ∷ js else j ∷ rest

-- sorted(freqs)
unfoldable pub sorted_keys : List ℕ → List ℕ
sorted_keys [] = []
sorted_keys (k ∷ ks) = insert_key k (sorted_keys ks)

-- A thread that calls `transmit` on these frequencies.
unfoldable pub transmit : List ℕ → Stage
transmit freqs = locking [] (sorted_keys freqs)

abbrev pub is_locked : ℕ → List ℕ → Bool
is_locked k = any (eqb k)

unfoldable pub unlock : ℕ → List ℕ → List ℕ
unlock k [] = []
unlock k (j ∷ js) = let rest = unlock k js in if eqb k j then js else j ∷ rest

-- self._sem.acquire()
unfoldable pub acquire : List ℕ → ℕ → List ℕ → List ℕ → Shared × Stage
acquire free zero locked taken =
    (record { free = free; permits = zero; locked = locked }, waiting taken)
acquire free (suc n) locked taken =
    (record { free = free; permits = n; locked = locked }, admitted taken)

-- self._free.pop()
unfoldable pub pick : List ℕ → ℕ → List ℕ → List ℕ → Shared × Stage
pick [] permits locked taken =
    (record { free = []; permits = permits; locked = locked }, crashed taken)
pick (c ∷ free) permits locked taken =
    (record { free = free; permits = permits; locked = locked }, sending taken c)

-- A thread that has to wait stays as it is.
unfoldable pub act : Shared → Stage → Shared × Stage
act sh (locking taken []) = (sh, waiting taken)
act sh (locking taken (k ∷ todo)) =
    if is_locked k sh.locked
    then (sh, locking taken (k ∷ todo))
    else (record sh { locked = k ∷ sh.locked }, locking (k ∷ taken) todo)
act sh (waiting taken) = acquire sh.free sh.permits sh.locked taken
act sh (admitted taken) = pick sh.free sh.permits sh.locked taken
act sh (sending taken c) = (record sh { free = c ∷ sh.free }, returned taken)
act sh (returned taken) = (record sh { permits = suc sh.permits }, unlocking taken)
act sh (unlocking []) = (sh, done)
act sh (unlocking (k ∷ taken)) = (record sh { locked = unlock k sh.locked }, unlocking taken)
act sh done = (sh, done)
act sh (crashed taken) = (sh, crashed taken)

-- The thread at a place of the list goes on.
unfoldable pub step_at : ℕ → Shared → List Stage → Shared × List Stage
step_at i sh [] = (sh, [])
step_at zero sh (s ∷ ss) = let r = act sh s in (r.0, r.1 ∷ ss)
step_at (suc i) sh (s ∷ ss) = let r = step_at i sh ss in (r.0, s ∷ r.1)

-- An interleaving: whose turn it is, again and again.
unfoldable pub run : List ℕ → Shared → List Stage → Shared × List Stage
run [] sh ss = (sh, ss)
run (i ∷ turns) sh ss = let r = step_at i sh ss in run turns r.0 r.1

unfoldable pub clients : ℕ → List ℕ
clients zero = []
clients (suc n) = suc n ∷ clients n

-- TransmitPool(size=n)
unfoldable pub fresh : ℕ → Shared
fresh n = record { free = clients n; permits = n; locked = [] }

unfoldable pub calls : List (List ℕ) → List Stage
calls [] = []
calls (freqs ∷ rest) = transmit freqs ∷ calls rest
