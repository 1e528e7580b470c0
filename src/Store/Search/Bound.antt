-- ===== src/Store/Search/Bound.antt =====
-- How far a search can overshoot the cap.
use native.Mathlib.Nat.{mul-le-mul_left}
use veloria.Base.{ℕ, suc, ◌+◌, ◌-◌, ◌*◌, ◌≤◌, ◌<◌, ◌≡◌, refl, List, [], ◌∷◌, ◌++◌, arith}
use veloria.Search.{FileMatch}
use veloria.Search.Bounds.{count_matches}
use veloria.Store.{Extension}
use veloria.Store.Search.{
  global_match_cap, Phase, queued, started, searching, counted, finished, skipped, Job, job, Hit,
  Search, slots, active, queue, start, Step, launch, stop, cancel, begin, skip, miss, count,
  publish, Reaches, begin_with, then_step,
}
use veloria.Store.Search.Steps.{
  sum_of, sum_of_change, slot_of, active_sum, search_slot, searching_of, searching_active,
}

-- the matches of the results
unfoldable pub matches_of : List Hit → ℕ
matches_of [] = 0
matches_of (h ∷ hs) = count_matches h.matches + matches_of hs

matches_of-append :
    (hs : List Hit) (h : Hit) → matches_of (hs ++ h ∷ []) ≡ matches_of hs + count_matches h.matches
unfolding matches_of
matches_of-append [] h = omega arith
matches_of-append (x ∷ hs) h = omega (arith, matches_of-append hs h)

mul_next : (m a b : ℕ) → a ≡ suc b → m * a ≡ m * b + m
mul_next m a b e = rw e (omega arith)

module _ (workers m : ℕ) (found : Extension → List FileMatch)
    (most : (e : Extension) → count_matches (found e) ≤ m) where
  -- matches that are counted and not yet in the results
  abbrev pending_of : Extension → Phase → ℕ
  pending_of e counted = count_matches (found e)
  pending_of e queued = 0
  pending_of e started = 0
  pending_of e searching = 0
  pending_of e finished = 0
  pending_of e skipped = 0

  abbrev pending : Job → ℕ
  pending j = pending_of j.extension j.phase

  record IsSafe (s : Search) : Type 0 where
    slots_taken : sum_of slot_of s.jobs ≤ workers
    budget : s.total_matches + m * sum_of searching_of s.jobs ≤ (global_match_cap - 1) + m * workers
    counts : matches_of s.results + sum_of pending s.jobs ≡ s.total_matches

  start_slots : (es : List Extension) → sum_of slot_of (queue es) ≡ 0
  unfolding queue slots
  start_slots [] = refl
  start_slots (e ∷ es) = omega (arith, start_slots es)

  start_searching : (es : List Extension) → sum_of searching_of (queue es) ≡ 0
  unfolding queue
  start_searching [] = refl
  start_searching (e ∷ es) = omega (arith, start_searching es)

  start_pending : (es : List Extension) → sum_of pending (queue es) ≡ 0
  unfolding queue
  start_pending [] = refl
  start_pending (e ∷ es) = omega (arith, start_pending es)

  start-IsSafe : (es : List Extension) → IsSafe (start es)
  unfolding start matches_of
  start-IsSafe es = record {
    slots_taken = omega (arith, start_slots es);
    budget = rw (start_searching es) (omega arith);
    counts = omega (arith, start_pending es);
  }

  slots_le :
      (s : Search) (xs ys : List Job) (e : Extension) (p q : Phase)
      → s.jobs ≡ xs ++ job e p ∷ ys
      → slots q ≤ slots p
      → IsSafe s
      → sum_of slot_of (xs ++ job e q ∷ ys) ≤ workers
  slots_le s xs ys e p q k le h =
      omega (arith, sum_of_change slot_of xs ys (job e p) (job e q) k, le, h.slots_taken)

  pending_same :
      (s : Search) (xs ys : List Job) (e : Extension) (p q : Phase)
      → s.jobs ≡ xs ++ job e p ∷ ys
      → pending_of e p ≡ pending_of e q
      → IsSafe s
      → matches_of s.results + sum_of pending (xs ++ job e q ∷ ys) ≡ s.total_matches
  pending_same s xs ys e p q k eq h =
      omega (arith, sum_of_change pending xs ys (job e p) (job e q) k, eq, h.counts)

  searching_le :
      (s : Search) (xs ys : List Job) (e : Extension) (p q : Phase)
      → s.jobs ≡ xs ++ job e p ∷ ys
      → search_slot q ≤ search_slot p
      → IsSafe s
      → s.total_matches + m * sum_of searching_of (xs ++ job e q ∷ ys)
        ≤ (global_match_cap - 1) + m * workers
  searching_le s xs ys e p q k le h =
      let c = sum_of_change searching_of xs ys (job e p) (job e q) k in
      let b : sum_of searching_of (xs ++ job e q ∷ ys) ≤ sum_of searching_of s.jobs =
        omega (arith, c, le) in
      omega (arith, mul-le-mul_left m b, h.budget)

  launch_slots :
      (s : Search) (xs ys : List Job) (e : Extension)
      → s.jobs ≡ xs ++ job e queued ∷ ys
      → active s.jobs < workers
      → sum_of slot_of (xs ++ job e started ∷ ys) ≤ workers
  unfolding slots
  launch_slots s xs ys e k free =
      omega (
        arith,
        sum_of_change slot_of xs ys (job e queued) (job e started) k,
        active_sum s.jobs,
        free,
      )

  -- below the cap, all slots may be searching
  begin_budget :
      (n : ℕ) (js : List Job)
      → n < global_match_cap
      → sum_of slot_of js ≤ workers
      → n + m * sum_of searching_of js ≤ (global_match_cap - 1) + m * workers
  begin_budget n js k le =
      let b : sum_of searching_of js ≤ workers = omega (arith, searching_active js, le) in
      omega (arith, mul-le-mul_left m b, k)

  -- a count takes the place of a search
  count_budget :
      (s : Search) (xs ys : List Job) (e : Extension)
      → s.jobs ≡ xs ++ job e searching ∷ ys
      → IsSafe s
      → (s.total_matches + count_matches (found e))
          + m * sum_of searching_of (xs ++ job e counted ∷ ys)
        ≤ (global_match_cap - 1) + m * workers
  count_budget s xs ys e k h =
      let c = sum_of_change searching_of xs ys (job e searching) (job e counted) k in
      let n =
        mul_next m (sum_of searching_of s.jobs) (sum_of searching_of (xs ++ job e counted ∷ ys))
          (omega (arith, c)) in
      omega (arith, n, most e, h.budget)

  Step-IsSafe : {s t : Search} → Step workers found s t → IsSafe s → IsSafe t
  unfolding slots
  Step-IsSafe {s} (launch xs ys e k _ free _ _ _) h = record {
    slots_taken = launch_slots s xs ys e k free;
    budget = searching_le s xs ys e queued started k (omega arith) h;
    counts = pending_same s xs ys e queued started k refl h;
  }
  Step-IsSafe (stop _) h = record {
    slots_taken = h.slots_taken;
    budget = h.budget;
    counts = h.counts;
  }
  Step-IsSafe cancel h = record {
    slots_taken = h.slots_taken;
    budget = h.budget;
    counts = h.counts;
  }
  Step-IsSafe {s} (begin xs ys e k below) h =
      let taken = slots_le s xs ys e started searching k (omega arith) h in
      record {
        slots_taken = taken;
        budget = begin_budget s.total_matches (xs ++ job e searching ∷ ys) below taken;
        counts = pending_same s xs ys e started searching k refl h;
      }
  Step-IsSafe {s} (skip xs ys e k _) h = record {
    slots_taken = slots_le s xs ys e started skipped k (omega arith) h;
    budget = searching_le s xs ys e started skipped k (omega arith) h;
    counts = pending_same s xs ys e started skipped k refl h;
  }
  Step-IsSafe {s} (miss xs ys e k _) h = record {
    slots_taken = slots_le s xs ys e searching finished k (omega arith) h;
    budget = searching_le s xs ys e searching finished k (omega arith) h;
    counts = pending_same s xs ys e searching finished k refl h;
  }
  Step-IsSafe {s} (count xs ys e k _) h = record {
    slots_taken = slots_le s xs ys e searching counted k (omega arith) h;
    budget = count_budget s xs ys e k h;
    counts =
        omega (arith, sum_of_change pending xs ys (job e searching) (job e counted) k, h.counts);
  }
  Step-IsSafe {s} (publish xs ys e k) h = record {
    slots_taken = slots_le s xs ys e counted finished k (omega arith) h;
    budget = searching_le s xs ys e counted finished k (omega arith) h;
    counts = omega (
      arith,
      sum_of_change pending xs ys (job e counted) (job e finished) k,
      h.counts,
      matches_of-append s.results (record { extension = e; matches = found e }),
    );
  }

  Reaches-IsSafe :
      (es : List Extension) {s : Search} → Reaches workers found (start es) s → IsSafe s
  Reaches-IsSafe es begin_with = start-IsSafe es
  Reaches-IsSafe es (then_step r t) = Step-IsSafe t (Reaches-IsSafe es r)

  -- At every moment of a search, if no extension has more than `m` matches, at most `workers` workers
  -- run, and the results have at most 99,999 + m * workers matches.
  pub search_bound :
      (es : List Extension) {s : Search}
      → Reaches workers found (start es) s
      → (active s.jobs ≤ workers) × (matches_of s.results ≤ (global_match_cap - 1) + m * workers)
  search_bound es {s} r =
      let h = Reaches-IsSafe es r in
      (omega (arith, active_sum s.jobs, h.slots_taken), omega (arith, h.counts, h.budget))
