-- ===== src/Gateway/Burst/Fixtures.antt =====
-- A limiter of two requests in ten seconds, with numbers of four decimal places for doubles: they
-- are exact for every refill of this limiter.
use hivepoint_backend.Common.{◌+◌, ◌-◌, ◌*◌, ◌/◌, true}
use hivepoint_backend.Gateway.Burst.{BurstConfig, Doubles}

abbrev pub decimals : Doubles
decimals = record {
  one = 10000;
  plus = λ a b. a + b;
  minus = λ a b. a - b;
  times = λ a b. a * b / 10000;
  divided = λ a b. a * 10000 / b;
}

abbrev pub burst_config : BurstConfig
burst_config = record {
  doubles = decimals;
  enabled = true;
  window_seconds = 10;
  multiplier = 20000;
  min_requests = 1;
  max_requests = 50;
}
