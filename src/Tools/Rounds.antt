-- ===== src/Tools/Rounds.antt =====
-- When the loop of `deleteAllObjects`, tools/main.go, ends, and which pages it visits.
use pz_workflow.Prelude.{
  ℕ, zero, suc, ◌+◌, ◌-◌, ◌%◌, ◌<◌, ◌≤◌, ◌≡◌, ◌⊎◌, inl, inr, Bool, true, false, ◌||◌, ◌&&◌, count,
  count-append, Option, none, some, Option-cases, List, [], ◌++◌, length, ltb, leb, nat_eq,
  if◌then◌else◌, arith,
}
use pz_workflow.Tools.{max_threads, num_pages, spawned, visited, delete_all_objects}

pub length-spawned :
    (k j i pages : ℕ)
    → length (spawned k j i pages)
      ≡ (if leb k (pages + 1 - (i + j)) then k else pages + 1 - (i + j))
unfolding spawned
length-spawned zero j i pages = ground arith
length-spawned (suc k) j i pages = ground (arith, length-spawned k (j + 1) i pages)

abbrev pub returns {ℓ} : {A : Type ℓ} → Option A → Bool
returns none = false
returns (some a) = true

-- The last round is full: the pages end a round of ten, or miss one page for that.
abbrev pub full_rounds : ℕ → Bool
full_rounds pages = nat_eq (pages % max_threads) 0 || nat_eq (pages % max_threads) 9

visited-returns :
    (fuel i pages : ℕ)
    → pages - i < fuel
    → returns (visited fuel i pages) ≡ (leb pages i || full_rounds (pages - i))
unfolding visited
visited-returns zero i pages h = absurd (omega arith)
visited-returns (suc fuel) i pages h =
    ground
      (arith, length-spawned max_threads 0 i pages, visited-returns fuel (i + max_threads) pages)

-- When the number of objects could be had, `deleteAllObjects` returns if and only if the number of pages
-- ends in 0 or in 9; otherwise its last `wg.Wait()` waits for goroutines that were never started.
pub delete_all_objects-returns :
    (n : ℕ) → returns (delete_all_objects (n, none)) ≡ full_rounds (num_pages n)
unfolding delete_all_objects
delete_all_objects-returns n = ground (arith, visited-returns (suc (num_pages n)) 0 (num_pages n))

count-spawned :
    (p k j i pages : ℕ)
    → count p (spawned k j i pages)
      ≡ (if leb (i + j) p && (ltb p (i + j + k) && leb p pages) then 1 else 0)
unfolding spawned
count-spawned p zero j i pages = ground arith
count-spawned p (suc k) j i pages = ground (arith, count-spawned p k (j + 1) i pages)

-- Which pages are visited from `i` on, where the loop ends.
abbrev pub is_visited : ℕ → ℕ → ℕ → Bool
is_visited p i pages =
    leb i p && (ltb p pages || nat_eq p pages && nat_eq ((pages - i) % max_threads) 9)

-- How a round goes on to the next.
visited_next :
    (fuel i pages : ℕ) (ids : List ℕ)
    → visited (suc fuel) i pages ≡ some ids
    → ((pages ≤ i) × (ids ≡ []))
      ⊎ ((i + 9 ≤ pages)
          × (rest : List ℕ) × (visited fuel (i + max_threads) pages ≡ some rest)
          × (ids ≡ spawned max_threads 0 i pages ++ rest))
unfolding visited
visited_next fuel i pages ids h = elim (Option-cases (visited fuel (i + max_threads) pages)) [
  | inl e ↦ ground (arith, length-spawned max_threads 0 i pages)
  | inr (rest, e) ↦ ground (arith, length-spawned max_threads 0 i pages)
]

-- The pages of a round of ten, and those of the rounds after it.
round_count :
    (p i pages : ℕ)
    → i + 9 ≤ pages
    → (if leb (i + 0) p && (ltb p (i + 0 + max_threads) && leb p pages) then 1 else 0)
        + (if is_visited p (i + max_threads) pages then 1 else 0)
      ≡ (if is_visited p i pages then 1 else 0)
round_count p i pages h = ground arith

none_visited : (p i pages : ℕ) → pages ≤ i → is_visited p i pages ≡ false
none_visited p i pages h = ground arith

count-visited :
    (p fuel i pages : ℕ) (ids : List ℕ)
    → visited fuel i pages ≡ some ids
    → count p ids ≡ (if is_visited p i pages then 1 else 0)
unfolding visited
count-visited p zero i pages ids h = absurd (ground arith)
count-visited p (suc fuel) i pages ids h = elim (visited_next fuel i pages ids h) [
  | inl (le, e) ↦ rw (e, none_visited p i pages le)
  | inr (le, rest, r, e) ↦
      rw
        (
          e,
          count-append p (spawned max_threads 0 i pages) rest,
          count-spawned p max_threads 0 i pages,
          count-visited p fuel (i + max_threads) pages rest r,
        )
        (round_count p i pages le)
]

-- Where `deleteAllObjects` returns and there are objects, it has started exactly one goroutine for each page that exists, and
-- for no other page, but for the page behind the last where the number of pages ends in 9.
pub delete_all_objects-count :
    (n p : ℕ) (ids : List ℕ)
    → 0 < n
    → delete_all_objects (n, none) ≡ some (none, ids)
    → count p ids ≡ (if is_visited p 0 (num_pages n) then 1 else 0)
unfolding delete_all_objects
delete_all_objects-count n p ids some_objects h =
    elim (Option-cases (visited (suc (num_pages n)) 0 (num_pages n))) [
      | inl e ↦ absurd (ground arith)
      | inr (pages, e) ↦ ground (arith, count-visited p (suc (num_pages n)) 0 (num_pages n) pages e)
    ]
