-- ===== src/Client/Retry/Laws.antt =====
-- retryThrottled of pkg/client/retry.go, for any call, any cloud and any jitter.
use openshift_capi_alicloud.Prelude.{
  ℕ, zero, suc, ◌+◌, ◌*◌, ◌/◌, ◌≤◌, String, true, List, [], ◌∷◌, Result, ◌≡◌, refl, ap, arith, inl,
  inr, Bool-cases,
}
use openshift_capi_alicloud.Client.Retry.{
  throttle_max_retries, throttle_base_delay, throttle_max_delay, is_throttled, cap_delay, observed,
  back_off, retry_loop, retry_throttled,
}
use openshift_capi_alicloud.Client.Sdk.{
  Sdk, Env, Effect, cloud_api, throttle_retry, instance_op, sleep,
}

-- The cloud after so many calls.
abbrev pub calls : {W A : Type 0} → (W → Result A × W) → ℕ → W → W
calls fn zero w = w
calls fn (suc n) w = calls fn n (fn w).1

-- The first so many calls are all throttled.
abbrev pub AllThrottled : {W A : Type 0} → (W → Result A × W) → ℕ → W → Type 0
AllThrottled fn zero w = Unit
AllThrottled fn (suc n) w = (is_throttled (fn w).0 ≡ true) × AllThrottled fn n (fn w).1

abbrev pub retries : List Effect → ℕ
retries [] = 0
retries (throttle_retry op ∷ t) = suc (retries t)
retries (cloud_api op f ∷ t) = retries t
retries (instance_op a f ∷ t) = retries t
retries (sleep d ∷ t) = retries t

-- The time slept, in nanoseconds.
abbrev pub slept : List Effect → ℕ
slept [] = 0
slept (throttle_retry op ∷ t) = slept t
slept (cloud_api op f ∷ t) = slept t
slept (instance_op a f ∷ t) = slept t
slept (sleep d ∷ t) = d + slept t

cap_delay-le : (d : ℕ) → cap_delay d ≤ throttle_max_delay
cap_delay-le d = ground arith

module _ {W A : Type 0} (sdk : Sdk W) (op : String) (fn : W → Result A × W) where
  -- A run of the loop that begins at `s` with `left` retries allowed, told without its code.
  pub record Run (left : ℕ) (s : Env W) (out : Result A × Env W) : Type 0 where
    pub count : ℕ
    pub within : count ≤ left
    pub calls_made : out.1.cloud ≡ calls fn (suc count) s.cloud
    pub last_result : out.0 ≡ (fn (calls fn count s.cloud)).0
    pub earlier_throttled : AllThrottled fn count s.cloud
    pub gives_up_last : is_throttled out.0 ≡ true → count ≡ left
    pub counted : retries out.1.trace ≡ count + retries s.trace
    pub rested : slept out.1.trace ≤ count * throttle_max_delay + slept s.trace

  again-Run :
      (left delay : ℕ) (s : Env W) (out : Result A × Env W)
      → is_throttled (fn s.cloud).0 ≡ true
      → Run left (back_off sdk op delay (record s { cloud = (fn s.cloud).1 })) out
      → Run (suc left) s out
  unfolding back_off
  again-Run left delay s out p r =
      let bound = cap_delay-le (delay + sdk.int63n s.draws (delay / 2 + 1)) in
      record {
        count = suc r.count;
        within = omega arith;
        calls_made = r.calls_made;
        last_result = r.last_result;
        earlier_throttled = (p, r.earlier_throttled);
        gives_up_last = λ h. ap suc (r.gives_up_last h);
        counted = omega (arith, r.counted);
        rested = omega (arith, r.rested, bound);
      }

  retry_loop-Run : (left delay : ℕ) (s : Env W) → Run left s (retry_loop sdk op fn left delay s)
  unfolding retry_loop observed
  retry_loop-Run zero delay s = record {
    count = 0;
    within = omega arith;
    calls_made = refl;
    last_result = refl;
    earlier_throttled = tt;
    gives_up_last = λ h. refl;
    counted = omega arith;
    rested = omega arith;
  }
  retry_loop-Run (suc left) delay s = elim (Bool-cases (is_throttled (fn s.cloud).0)) [
    | inl p ↦ rw p (again-Run left delay s _ p (retry_loop-Run left (cap_delay (delay * 2)) _))
    | inr n ↦ rw n (record {
      count = 0;
      within = omega arith;
      calls_made = refl;
      last_result = refl;
      earlier_throttled = tt;
      gives_up_last = λ h. cc (n, h);
      counted = omega arith;
      rested = omega arith;
    })
  ]

  pub retry_throttled-Run : (s : Env W) → Run throttle_max_retries s (retry_throttled sdk op fn s)
  unfolding retry_throttled
  retry_throttled-Run s = retry_loop-Run throttle_max_retries throttle_base_delay s
