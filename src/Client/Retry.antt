-- ===== src/Client/Retry.antt =====
-- pkg/client/retry.go: calls that the cloud throttles are made again, with capped exponential
-- backoff and jitter.
pub mod Laws
use openshift_capi_alicloud.Prelude.{
  ℕ, zero, suc, ◌+◌, ◌*◌, ◌/◌, String, Bool, true, false, not, ◌||◌, Option, none, some, List, ◌∷◌,
  Result, ok, err, ServerError, Error, ◌==◌, nat_eq, string_eq, ltb, if◌then◌else◌, contains_text,
}
use openshift_capi_alicloud.Client.Sdk.{
  Sdk, Env, Effect, cloud_api, throttle_retry, sleep, server_error,
}

abbrev pub throttle_max_retries : ℕ
throttle_max_retries = 5

abbrev pub throttle_base_delay : ℕ
throttle_base_delay = 200_000_000

abbrev pub throttle_max_delay : ℕ
throttle_max_delay = 5_000_000_000

is_throttling_server : ServerError → Bool
is_throttling_server srv =
    contains_text srv.error_code "Throttling"
    || (srv.error_code == "ServiceUnavailable"
        || (srv.error_code == "RequestThrottled"
            || (srv.error_code == "RequestLimitExceeded"
                || (srv.http_status == 429 || srv.http_status == 503))))

unfoldable pub is_throttling_error : Error → Bool
unfolding is_throttling_server server_error
is_throttling_error e = elim (server_error e) [ none ↦ false | some srv ↦ is_throttling_server srv ]

abbrev pub is_throttled : {A : Type 0} → Result A → Bool
is_throttled (ok a) = false
is_throttled (err e) = is_throttling_error e

abbrev pub is_failure : {A : Type 0} → Result A → Bool
is_failure (ok a) = false
is_failure (err e) = true

abbrev pub cap_delay : ℕ → ℕ
cap_delay d = if ltb throttle_max_delay d then throttle_max_delay else d

module _ {W : Type 0} where
  -- metrics.ObserveCloudAPI and the return that follows it.
  pub observed : {A : Type 0} → String → Result A → Env W → Result A × Env W
  observed op r s = (r, record s { trace = cloud_api op (is_failure r) ∷ s.trace })

  module _ (sdk : Sdk W) where
    -- The retry is counted, and the loop sleeps.
    pub back_off : String → ℕ → Env W → Env W
    back_off op delay s =
        let pause = cap_delay (delay + sdk.int63n s.draws (delay / 2 + 1)) in
        record s { trace = sleep pause ∷ throttle_retry op ∷ s.trace; draws = suc s.draws }

    module _ {A : Type 0} (op : String) (fn : W → Result A × W) where
      -- The loop of `retryThrottled`, with `throttleMaxRetries - attempt` rounds left.
      pub retry_loop : (left delay : ℕ) → Env W → Result A × Env W
      retry_loop zero delay s = let (r, w) = fn s.cloud in observed op r (record s { cloud = w })
      retry_loop (suc left) delay s =
          let (r, w) = fn s.cloud in
          let s' = record s { cloud = w } in
          let again = retry_loop left (cap_delay (delay * 2)) (back_off op delay s') in
          if is_throttled r then again else observed op r s'

      unfoldable pub retry_throttled : Env W → Result A × Env W
      unfolding retry_loop observed back_off
      retry_throttled = retry_loop throttle_max_retries throttle_base_delay
