-- ===== src/Http/Client/Laws.antt =====
-- The outcomes of a fetch, and the limits on it.
use veloria.Base.{
  ℕ, zero, suc, ◌≤◌, ◌≡◌, ◌↔◌, inl, inr, refl, Bool, true, false, Option, none, some, length, Bytes,
  arith, if◌then◌else◌, Bool-cases,
}
use veloria.Base.Int.{ℤ}
use veloria.Http.Client.{
  exhausted_retries, cancelled, Reply, body_of, throttled, reply_error, Fetched, stopped, decoded,
  fetch_round, back_off, fetch_loop, fetch_json,
}

-- From attempt `a` on, with `left` retries left: throttled replies, each with a wait that the context
-- outlives, and then a body that decodes to `v`.
pub data Delivers {ℓ} {A : Type ℓ} (decode : Bytes → Option A) (reply : ℕ → Reply) (live : ℕ → Bool)
    (v : A) : ℕ → ℕ → Type ℓ where
  now :
      {a left : ℕ} {b : Bytes}
      → reply a ≡ body_of b
      → decode b ≡ some v
      → Delivers decode reply live v a left
  later :
      {a left : ℕ} {wait : ℤ}
      → reply a ≡ throttled wait
      → live (suc a) ≡ true
      → Delivers decode reply live v (suc a) left
      → Delivers decode reply live v a (suc left)

module _ {ℓ} {A : Type ℓ} (decode : Bytes → Option A) (reply : ℕ → Reply) (live : ℕ → Bool) where
  round-now :
      (a : ℕ) (b : Bytes) (v : A) (rest : ℤ → Fetched A)
      → reply a ≡ body_of b
      → decode b ≡ some v
      → (fetch_round decode (reply a) rest).value ≡ inr v
  unfolding fetch_round decoded
  round-now a b v rest e d = rw (e, d)

  loop-Delivers :
      (v : A) (a left : ℕ)
      → Delivers decode reply live v a left
      → (fetch_loop decode reply live a left).value ≡ inr v
  unfolding fetch_loop fetch_round back_off
  loop-Delivers v a zero (now {b} e d) = round-now a b v _ e d
  loop-Delivers v a (suc left) (now {b} e d) = round-now a b v _ e d
  loop-Delivers v a (suc left) (later e l r) = rw (e, l) (loop-Delivers v (suc a) left r)

  decoded-some : (o : Option A) (v : A) → decoded o ≡ inr v → o ≡ some v
  unfolding decoded
  decoded-some none v e = cc
  decoded-some (some x) v e = cc

  end-Delivers :
      (v : A) (a : ℕ) (r : Reply)
      → reply a ≡ r
      → (fetch_round decode r (λ wait. stopped exhausted_retries)).value ≡ inr v
      → Delivers decode reply live v a 0
  unfolding fetch_round stopped
  end-Delivers v a (body_of b) k e = now k (decoded-some (decode b) v e)
  end-Delivers v a (throttled x) k e = cc
  end-Delivers v a (reply_error x) k e = cc

  live_of :
      (b : Bool) (wait : ℤ) (rest : Fetched A) (v : A)
      → (back_off b wait rest).value ≡ inr v
      → (b ≡ true) × (rest.value ≡ inr v)
  unfolding back_off stopped
  live_of true wait rest v e = (refl, e)
  live_of false wait rest v e = cc

  round-Delivers :
      (v : A) (a left : ℕ) (r : Reply) (rest : Fetched A)
      → reply a ≡ r
      → (rest.value ≡ inr v → Delivers decode reply live v (suc a) left)
      → (fetch_round decode r (λ wait. back_off (live (suc a)) wait rest)).value ≡ inr v
      → Delivers decode reply live v a (suc left)
  unfolding fetch_round
  round-Delivers v a left (body_of b) rest k ih e = now k (decoded-some (decode b) v e)
  round-Delivers v a left (throttled x) rest k ih e =
      let (l, f) = live_of (live (suc a)) x rest v e in later k l (ih f)
  round-Delivers v a left (reply_error x) rest k ih e = cc

  Delivers-loop :
      (v : A) (a left : ℕ)
      → (fetch_loop decode reply live a left).value ≡ inr v
      → Delivers decode reply live v a left
  unfolding fetch_loop
  Delivers-loop v a zero e = end-Delivers v a (reply a) refl e
  Delivers-loop v a (suc left) e =
      round-Delivers v a left (reply a) (fetch_loop decode reply live (suc a) left) refl
        (Delivers-loop v (suc a) left) e

  start_live :
      (b : Bool) (f : Fetched A) (v : A)
      → (if b then f else stopped cancelled).value ≡ inr v
      → (b ≡ true) × (f.value ≡ inr v)
  unfolding stopped
  start_live true f v e = (refl, e)
  start_live false f v e = cc

  -- A fetch gives `v` exactly if the context outlives the wait for the first token, and some attempt
  -- within the retries gets a body that decodes to `v`, behind attempts that were all throttled with
  -- waits that the context outlives.
  pub fetch_json_value :
      (max_retries : ℕ) (v : A)
      → ((fetch_json decode reply live max_retries).value ≡ inr v)
        ↔ ((live 0 ≡ true) × Delivers decode reply live v 0 max_retries)
  unfolding fetch_json
  fetch_json_value max_retries v = (
    (λ e.
        let (l, f) = start_live (live 0) (fetch_loop decode reply live 0 max_retries) v e in
        (l, Delivers-loop v 0 max_retries f)),
    (λ (l, d). rw l (loop-Delivers v 0 max_retries d)),
  )

  round_attempts :
      (r : Reply) (rest : ℤ → Fetched A) (n : ℕ)
      → ((wait : ℤ) → ((rest wait).attempts ≤ n) × (length (rest wait).sleeps ≤ n))
      → ((fetch_round decode r rest).attempts ≤ suc n)
        × (length (fetch_round decode r rest).sleeps ≤ n)
  unfolding fetch_round
  round_attempts (body_of b) rest n h = (omega arith, omega arith)
  round_attempts (reply_error x) rest n h = (omega arith, omega arith)
  round_attempts (throttled w) rest n h = (omega (arith, (h w).0), (h w).1)

  back_off_attempts :
      (b : Bool) (wait : ℤ) (rest : Fetched A) (n : ℕ)
      → (rest.attempts ≤ suc n) × (length rest.sleeps ≤ n)
      → ((back_off b wait rest).attempts ≤ suc n) × (length (back_off b wait rest).sleeps ≤ suc n)
  unfolding back_off stopped
  back_off_attempts true wait rest n h = (h.0, omega (arith, h.1))
  back_off_attempts false wait rest n h = (omega arith, omega arith)

  loop_attempts :
      (a left : ℕ)
      → ((fetch_loop decode reply live a left).attempts ≤ suc left)
        × (length (fetch_loop decode reply live a left).sleeps ≤ left)
  unfolding fetch_loop stopped
  loop_attempts a zero =
      round_attempts (reply a) (λ wait. stopped exhausted_retries) 0
        (λ wait. (omega arith, omega arith))
  loop_attempts a (suc left) =
      round_attempts (reply a) _ (suc left)
        (λ wait. back_off_attempts (live (suc a)) wait _ left (loop_attempts (suc a) left))

  -- A fetch makes at most one request more than its retries, and sleeps at most once per retry.
  fetch_json_attempts :
      (max_retries : ℕ)
      → ((fetch_json decode reply live max_retries).attempts ≤ suc max_retries)
        × (length (fetch_json decode reply live max_retries).sleeps ≤ max_retries)
  unfolding fetch_json stopped
  fetch_json_attempts max_retries = elim (Bool-cases (live 0)) [
    | inl e ↦ rw e (loop_attempts 0 max_retries)
    | inr e ↦ rw e (omega arith, omega arith)
  ]
