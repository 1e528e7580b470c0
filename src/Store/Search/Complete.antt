-- ===== src/Store/Search/Complete.antt =====
-- A search that ends below the cap misses no extension.
use mathlib.Core.List.{Memᴰ}
use veloria.Base.{
  ℕ, ◌+◌, ◌≤◌, ◌<◌, ◌≡◌, ◌≢◌, ◌⊎◌, inl, inr, refl, subst, Bool, true, false, List, [], ◌∷◌, ◌++◌,
  All, arith,
}
use veloria.Search.{FileMatch}
use veloria.Search.Bounds.{count_matches}
use veloria.Store.{Extension}
use veloria.Store.Search.{
  global_match_cap, Phase, queued, started, searching, counted, finished, skipped, Job, job, Hit,
  Search, slots, active, queue, start, Step, launch, stop, cancel, begin, skip, miss, count,
  publish, Reaches, begin_with, then_step, IsOver,
}
use veloria.Store.Search.Jobs.{
  All_change, All_map, Mem-left, Mem-last, extensions_of, extensions_change, extensions_queue,
}

module _ (found : Extension → List FileMatch) where
  abbrev pub hit : Extension → Hit
  hit e = record { extension = e; matches = found e }

  -- what is known of an extension behind its phase
  Account : List Hit → ℕ → Extension → Phase → Type 0
  Account hs n e queued = Unit
  Account hs n e started = Unit
  Account hs n e searching = Unit
  Account hs n e counted = Unit
  Account hs n e finished = (found e ≡ []) ⊎ Memᴰ (hit e) hs
  Account hs n e skipped = global_match_cap ≤ n

  abbrev IsAccounted : List Hit → ℕ → Job → Type 0
  IsAccounted hs n j = Account hs n j.extension j.phase

  grow_hits :
      (hs ks : List Hit) (n : ℕ) (e : Extension) (p : Phase)
      → Account hs n e p
      → Account (hs ++ ks) n e p
  unfolding Account
  grow_hits hs ks n e queued a = a
  grow_hits hs ks n e started a = a
  grow_hits hs ks n e searching a = a
  grow_hits hs ks n e counted a = a
  grow_hits hs ks n e finished (inl h) = inl h
  grow_hits hs ks n e finished (inr h) = inr (Mem-left hs ks h)
  grow_hits hs ks n e skipped a = a

  grow_matches :
      (hs : List Hit) (n m : ℕ) (e : Extension) (p : Phase)
      → Account hs n e p
      → Account hs (n + m) e p
  unfolding Account
  grow_matches hs n m e queued a = a
  grow_matches hs n m e started a = a
  grow_matches hs n m e searching a = a
  grow_matches hs n m e counted a = a
  grow_matches hs n m e finished a = a
  grow_matches hs n m e skipped a = omega (arith, a)

  more_hits : (hs ks : List Hit) (n : ℕ) (j : Job) → IsAccounted hs n j → IsAccounted (hs ++ ks) n j
  more_hits hs ks n j a = grow_hits hs ks n j.extension j.phase a

  more_matches : (hs : List Hit) (n m : ℕ) (j : Job) → IsAccounted hs n j → IsAccounted hs (n + m) j
  more_matches hs n m j a = grow_matches hs n m j.extension j.phase a

  record IsComplete (es : List Extension) (s : Search) : Type 0 where
    all_there : extensions_of s.jobs ≡ es
    accounted : All (IsAccounted s.results s.total_matches) s.jobs
    stop_reason :
        (s.stopped ≡ false) ⊎ ((global_match_cap ≤ s.total_matches) ⊎ (s.cancelled ≡ true))

  start-IsAccounted : (es : List Extension) → All (IsAccounted [] 0) (queue es)
  unfolding Account queue
  start-IsAccounted [] = tt
  start-IsAccounted (e ∷ es) = (tt, start-IsAccounted es)

  start-IsComplete : (es : List Extension) → IsComplete es (start es)
  unfolding start
  start-IsComplete es = record {
    all_there = extensions_queue es;
    accounted = start-IsAccounted es;
    stop_reason = inl refl;
  }

  -- a move that changes neither the results nor the count
  move :
      {es : List Extension} {s : Search} (xs ys : List Job) (e : Extension) (p q : Phase)
      → s.jobs ≡ xs ++ job e p ∷ ys
      → Account s.results s.total_matches e q
      → IsComplete es s
      → IsComplete es (record s { jobs = xs ++ job e q ∷ ys })
  move {s = s} xs ys e p q k a h = record {
    all_there = extensions_change xs ys e p q k h.all_there;
    accounted = All_change (IsAccounted s.results s.total_matches) xs ys _ _ k a h.accounted;
    stop_reason = h.stop_reason;
  }

  grow_reason :
      (stopped cancelled : Bool) (n m : ℕ)
      → (stopped ≡ false) ⊎ ((global_match_cap ≤ n) ⊎ (cancelled ≡ true))
      → (stopped ≡ false) ⊎ ((global_match_cap ≤ n + m) ⊎ (cancelled ≡ true))
  grow_reason stopped cancelled n m (inl h) = inl h
  grow_reason stopped cancelled n m (inr (inl h)) = inr (inl (omega (arith, h)))
  grow_reason stopped cancelled n m (inr (inr h)) = inr (inr h)

  Step-IsComplete :
      {workers : ℕ} {es : List Extension} {s t : Search}
      → Step workers found s t
      → IsComplete es s
      → IsComplete es t
  unfolding Account
  Step-IsComplete (launch xs ys e k _ _ _ _ _) h = move xs ys e queued started k tt h
  Step-IsComplete (stop r) h = record {
    all_there = h.all_there;
    accounted = h.accounted;
    stop_reason = inr r;
  }
  Step-IsComplete cancel h = record {
    all_there = h.all_there;
    accounted = h.accounted;
    stop_reason = inr (inr refl);
  }
  Step-IsComplete (begin xs ys e k _) h = move xs ys e started searching k tt h
  Step-IsComplete (skip xs ys e k c) h = move xs ys e started skipped k c h
  Step-IsComplete (miss xs ys e k n) h = move xs ys e searching finished k (inl n) h
  Step-IsComplete {s = s} (count xs ys e k _) h =
      let n = count_matches (found e) in
      record {
        all_there = extensions_change xs ys e searching counted k h.all_there;
        accounted =
            All_change (IsAccounted s.results (s.total_matches + n)) xs ys _ _ k tt
              (All_map s.jobs (more_matches s.results s.total_matches n) h.accounted);
        stop_reason = grow_reason s.stopped s.cancelled s.total_matches n h.stop_reason;
      }
  Step-IsComplete {s = s} (publish xs ys e k) h = record {
    all_there = extensions_change xs ys e counted finished k h.all_there;
    accounted =
        All_change (IsAccounted (s.results ++ hit e ∷ []) s.total_matches) xs ys _ _ k
          (inr (Mem-last (hit e) s.results))
          (All_map s.jobs (more_hits s.results (hit e ∷ []) s.total_matches) h.accounted);
    stop_reason = h.stop_reason;
  }

  Reaches-IsComplete :
      {workers : ℕ} (es : List Extension) {s : Search}
      → Reaches workers found (start es) s
      → IsComplete es s
  Reaches-IsComplete es begin_with = start-IsComplete es
  Reaches-IsComplete es (then_step r t) = Step-IsComplete t (Reaches-IsComplete es r)

  -- at the end of a search below the cap, what is known of one job
  job_over :
      (hs : List Hit) (n : ℕ) (e : Extension) (p : Phase)
      → slots p ≡ 0
      → p ≢ queued
      → n < global_match_cap
      → Account hs n e p
      → (found e ≡ []) ⊎ Memᴰ (hit e) hs
  unfolding Account slots
  job_over hs n e queued z q k a = absurd (q refl)
  job_over hs n e started z q k a = absurd (omega (arith, z))
  job_over hs n e searching z q k a = absurd (omega (arith, z))
  job_over hs n e counted z q k a = absurd (omega (arith, z))
  job_over hs n e finished z q k a = a
  job_over hs n e skipped z q k a = absurd (omega (arith, a, k))

  jobs_over :
      (hs : List Hit) (n : ℕ) (js : List Job)
      → active js ≡ 0
      → All (λ j. j.phase ≢ queued) js
      → n < global_match_cap
      → All (IsAccounted hs n) js
      → All (λ e. (found e ≡ []) ⊎ Memᴰ (hit e) hs) (extensions_of js)
  unfolding active extensions_of
  jobs_over hs n [] z q k a = tt
  jobs_over hs n (j ∷ js) z (q, qs) k (a, ps) = (
    job_over hs n j.extension j.phase (omega (arith, z)) q k a,
    jobs_over hs n js (omega (arith, z)) qs k ps,
  )

  none_queued :
      {es : List Extension} (s : Search)
      → IsComplete es s
      → IsOver s
      → s.cancelled ≡ false
      → s.total_matches < global_match_cap
      → All (λ j. j.phase ≢ queued) s.jobs
  none_queued s h o c k = elim o.no_waiting [
    | inr q ↦ q
    | inl st ↦ elim h.stop_reason [
      | inl r ↦ absurd (cc (st, r))
      | inr (inl r) ↦ absurd (omega (arith, r, k))
      | inr (inr r) ↦ absurd (cc (r, c))
    ]
  ]

  -- A search that ends, not cancelled, with fewer matches counted than the cap has a result, with all
  -- its matches, for each extension that has a match.
  pub search_complete :
      {workers : ℕ} (es : List Extension) {s : Search}
      → Reaches workers found (start es) s
      → IsOver s
      → s.cancelled ≡ false
      → s.total_matches < global_match_cap
      → All (λ e. (found e ≡ []) ⊎ Memᴰ (hit e) s.results) es
  search_complete es {s} r o c k =
      let h = Reaches-IsComplete es r in
      let a =
        jobs_over s.results s.total_matches s.jobs o.no_worker (none_queued s h o c k) k
          h.accounted in
      subst (All (λ e. (found e ≡ []) ⊎ Memᴰ (hit e) s.results)) h.all_there a
