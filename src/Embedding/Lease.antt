-- ===== src/Embedding/Lease.antt =====
-- Leases and retries of the embedding worker.
use imageboard.Base.{
  ℕ, zero, suc, ◌+◌, ◌*◌, ◌≤◌, ◌≡◌, ◌≢◌, refl, Bool, true, false, ◌&&◌, leb, arith, Bool-cases, inl,
  inr, min,
}
use imageboard.Text.{Bytes, bytes_eq}
use imageboard.Embedding.{
  Item, Job, is_claimable, claim, claimed, is_current, renew, is_publishable, publish, published,
  retry_delay, fail, put_off,
}

retry_delay_late : (n : ℕ) → 7 ≤ n → retry_delay n ≡ 600
unfolding retry_delay
retry_delay_late n h = let capped : min n 7 ≡ 7 = omega (arith, h) in rw capped refl

retry_delay_lem :
    (n : ℕ)
    → 1 ≤ n
    → (10 ≤ retry_delay n)
      × (retry_delay n ≤ 600)
      × (retry_delay (suc n) ≡ min 600 (2 * retry_delay n))
unfolding retry_delay
retry_delay_lem zero h = absurd (omega (arith, h))
retry_delay_lem (suc zero) h = (ground arith, ground arith, refl)
retry_delay_lem (suc (suc zero)) h = (ground arith, ground arith, refl)
retry_delay_lem (suc (suc (suc zero))) h = (ground arith, ground arith, refl)
retry_delay_lem (suc (suc (suc (suc zero)))) h = (ground arith, ground arith, refl)
retry_delay_lem (suc (suc (suc (suc (suc zero))))) h = (ground arith, ground arith, refl)
retry_delay_lem (suc (suc (suc (suc (suc (suc zero)))))) h = (ground arith, ground arith, refl)
retry_delay_lem (suc (suc (suc (suc (suc (suc (suc n))))))) h =
    rw
      (
        retry_delay_late (suc (suc (suc (suc (suc (suc (suc n))))))) (omega arith),
        retry_delay_late (suc (suc (suc (suc (suc (suc (suc (suc n)))))))) (omega arith),
      )
      (ground arith, ground arith, refl)

module _ {V : Type 0} where
  published_rests :
      (absent : Bool) (version hash : Bytes) (job other : Job) (vector : V) (i : Item V) (now : ℕ)
      → (is_publishable other now (published absent version hash job vector i) ≡ false)
        × (is_claimable now (published absent version hash job vector i) ≡ false)
  unfolding is_publishable is_current is_claimable published
  published_rests true version hash job other vector i now = ground arith
  published_rests false version hash job other vector i now = ground arith

  -- After a publication that went through, no job can publish again, and the row is not claimed
  -- until it is queued again.
  pub publish_once :
      (setting setting' version version' : Bytes) (job other : Job) (now later : ℕ)
      (absent absent' : Bool) (hash hash' : Bytes) (vector vector' : V) (i : Item V)
      → (publish setting version job now absent hash vector i).0 ≡ true
      → let i' = (publish setting version job now absent hash vector i).1 in
        ((publish setting' version' other later absent' hash' vector' i').0 ≡ false)
        × (is_claimable later i' ≡ false)
  unfolding publish
  publish_once setting setting' version version' job other now later absent absent' hash hash'
        vector vector' i h =
      elim (Bool-cases (is_publishable job now i && bytes_eq setting version)) [
        | inr q ↦ absurd (ground (arith, q))
        | inl q ↦
            rw (q, (published_rests absent version hash job other vector i later).0)
              (refl, (published_rests absent version hash job other vector i later).1)
      ]

  -- Where a row has been claimed under another token, a worker that held it before can neither
  -- publish nor renew its lease, and what it reports as a failure changes nothing.
  pub claim_fences_publish :
      (old : Job) (token now later : ℕ) (setting version : Bytes) (absent : Bool) (hash : Bytes)
      (vector : V) (i : Item V)
      → old.token ≢ token
      → is_claimable now i ≡ true
      → let i' = (claim token now i).1 in
        (publish setting version old later absent hash vector i' ≡ (false, i'))
        × (renew old later i' ≡ (false, i'))
        × (fail old later i' ≡ i')
  unfolding claim claimed publish is_publishable renew fail is_current
  claim_fences_publish old token now later setting version absent hash vector i n h =
      rw h (ground (arith, n))

  -- A failed job waits 10 to 600 seconds, twice as long with each attempt until then, and can be
  -- claimed from that moment on.
  pub fail_retries :
      (job : Job) (now later : ℕ) (i : Item V)
      → 1 ≤ job.attempts
      → is_current job i ≡ true
      → (is_claimable later (fail job now i) ≡ leb (now + retry_delay job.attempts) later)
        × (10 ≤ retry_delay job.attempts)
        × (retry_delay job.attempts ≤ 600)
        × (retry_delay (suc job.attempts) ≡ min 600 (2 * retry_delay job.attempts))
  unfolding fail put_off is_claimable
  fail_retries job now later i a h = rw h (
    ground arith,
    (retry_delay_lem job.attempts a).0,
    (retry_delay_lem job.attempts a).1,
    (retry_delay_lem job.attempts a).2,
  )
