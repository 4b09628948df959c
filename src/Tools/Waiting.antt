-- ===== src/Tools/Waiting.antt =====
-- One round of `deleteAllObjects`, tools/main.go: the goroutines run in any order, and each one's end is
-- counted by `wg.Done()`.
use pz_workflow.Prelude.{
  ℕ, ◌+◌, ◌-◌, ◌≤◌, ◌<◌, ◌≡◌, refl, ap, ◌↔◌, List, [], ◌∷◌, ◌++◌, length, length-append, arith,
}
use pz_workflow.Tools.{max_threads, spawned}
use pz_workflow.Tools.Rounds.{length-spawned}

-- The wait group's counter, and the pages whose goroutines have not ended.
pub record Round : Type 0 where
  pub counter : ℕ
  pub running : List ℕ

-- `wg.Add(maxThreads)`, and the goroutines started for `ids`.
abbrev pub begun : List ℕ → Round
begun ids = record { counter = max_threads; running = ids }

-- Any running goroutine ends next; its `wg.Done()` lowers the counter, which is not 0 then.
pub data Step (r : Round) (s : Round) : Type 0 where
  ended :
      (before after : List ℕ) (page : ℕ)
      → r.running ≡ before ++ (page ∷ after)
      → 0 < r.counter
      → s.running ≡ before ++ after
      → s.counter ≡ r.counter - 1
      → Step r s

pub data Reach (r : Round) : Round → Type 0 where
  here : Reach r r
  next : {s t : Round} → Reach r s → Step s t → Reach r t

-- `wg.Wait()` returns.
abbrev pub Passes : Round → Type 0
Passes r = r.counter ≡ 0

-- What the counter has above the running goroutines stays.
Step-gap : {r s : Round} → Step r s → s.counter + length r.running ≡ r.counter + length s.running
Step-gap {r} {s} (ended before after page e h e' d) = omega (
  arith,
  ap length e,
  ap length e',
  length-append {0} before (page ∷ after),
  length-append {0} before after,
  d,
  h,
)

Reach-gap : {r s : Round} → Reach r s → s.counter + length r.running ≡ r.counter + length s.running
Reach-gap here = omega arith
Reach-gap (next p st) = omega (arith, Reach-gap p, Step-gap st)

Step-le : {r s : Round} → Step r s → s.counter ≤ r.counter
Step-le (ended before after page e h e' d) = omega (arith, d)

Reach-le : {r s : Round} → Reach r s → s.counter ≤ r.counter
Reach-le here = omega arith
Reach-le (next p st) = omega (arith, Reach-le p, Step-le st)

-- However the goroutines of a round take turns: no more than ten run at once, and the counter is the
-- number of those that still run and of those that were never started.
pub Reach-counter :
    (ids : List ℕ) {s : Round}
    → length ids ≤ max_threads
    → Reach (begun ids) s
    → (length s.running ≤ max_threads) × (s.counter ≡ length s.running + (max_threads - length ids))
Reach-counter ids h p = omega (arith, Reach-gap p, Reach-le p)

Reach-before : {r s t : Round} → Step r s → Reach s t → Reach r t
Reach-before st here = next here st
Reach-before st (next p st') = next (Reach-before st p) st'

Reach-trans : {r s t : Round} → Reach r s → Reach s t → Reach r t
Reach-trans p here = p
Reach-trans p (next q st) = next (Reach-trans p q) st

-- The goroutines can end one after the other, the first first.
drain :
    (ids : List ℕ) (c : ℕ)
    → length ids ≤ c
    → Reach
        (record { counter = c; running = ids })
        (record { counter = c - length ids; running = [] })
drain [] c h = let e : c - 0 ≡ c = omega arith in rw e here
drain (page ∷ ids) c h =
    let e : c - length (page ∷ ids) ≡ (c - 1) - length ids = omega arith in
    rw e (
      Reach-before (ended [] ids page refl (omega arith) refl refl)
        (drain ids (c - 1) (omega arith)))

length-spawned-le : (i pages : ℕ) → length (spawned max_threads 0 i pages) ≤ max_threads
length-spawned-le i pages = ground (arith, length-spawned max_threads 0 i pages)

-- A round passes `wg.Wait()` from whichever state its goroutines have brought it to, if ten of them
-- were started; and never, in no state that they can bring it to, if fewer were started.
pub round-Passes :
    (i pages : ℕ) (s : Round)
    → Reach (begun (spawned max_threads 0 i pages)) s
    → ((t : Round) × Reach s t × Passes t) ↔ (length (spawned max_threads 0 i pages) ≡ max_threads)
round-Passes i pages s p = (
  λ r.
      let (t, q, passes) = r in
      omega (
        arith,
        Reach-counter (spawned max_threads 0 i pages) (length-spawned-le i pages) (Reach-trans p q),
        length-spawned-le i pages,
        passes,
      ),
  λ e.
      let c = Reach-counter (spawned max_threads 0 i pages) (length-spawned-le i pages) p in
      (
        record { counter = s.counter - length s.running; running = [] },
        drain s.running s.counter (omega arith),
        omega arith,
      ),
)
