-- ===== src/RateLimit/Tests.antt =====
-- Runs of node/src/rate_limit.rs on small inputs, over a limiter that lets a burst pass once.
use agentme.Prelude.{
  ◌<◌, ◌⊎◌, ℕ, ◌+◌, ◌≡◌, refl, Bool, true, false, Option, none, some, List, [], ◌∷◌, Result, ok,
  err, Text, codes, same, ltb, nat_key, if◌then◌else◌,
}
use agentme.Prelude.Map.{Map, get, insert}
use agentme.Security.Ip.{IpAddr, v4, v6}
use agentme.RateLimit.{
  Governor, RateLimitConfig, Request, Inner, new, parse_ip_candidate, extract_client_ip,
}
use agentme.RateLimit.Admission.{
  Arrival, run, replies, limited_state, limited_replies, open_state, open_replies, run-admitted,
}

abbrev counted : Option ℕ → ℕ
counted none = 0
counted (some n) = n

abbrev last_number : IpAddr → ℕ
last_number (v4 a b c d) = d
last_number (v6 n) = n

-- Keyed by the last number of an address alone.
abbrev once : Governor (ℕ × Map ℕ ℕ)
once = record {
  keyed = λ rps burst. (burst, []);
  check_key = λ l ip now.
      let n = counted (get (last_number ip) l.1) in
      if ltb n l.0
      then ((l.0, insert (last_number ip) (n + 1) l.1), none)
      else (l, some (now + 1_000_000_000));
}

abbrev no_trim : Text → Text
no_trim s = s

abbrev no_parse : Text → Option IpAddr
no_parse s = none

abbrev count_requests : Inner ℕ ℕ ℕ ℕ
count_requests s request = (s + 1, ok request.body)

abbrev limits : RateLimitConfig
limits = record { requests_per_second = 1; burst_size = 2; enabled = true }

abbrev from : Option IpAddr → ℕ → Arrival ℕ
from ip now = record {
  request = record {
    forwarded_for = some (codes "9.9.9.9");
    real_ip = none;
    connected = ip;
    body = 7;
  };
  now = now;
  later = now;
}

abbrev arrivals : List (Arrival ℕ)
arrivals =
    from (some (v4 1 2 3 4)) 10
    ∷ from none 11
    ∷ from (some (v4 1 2 3 4)) 12
    ∷ from (some (v4 1 2 3 4)) 13
    ∷ from (some (v4 127 0 0 1)) 14
    ∷ from none 15
    ∷ []

two_each :
    (run once no_trim no_parse no_parse count_requests false (new once limits, 0) arrivals).1 ≡ 4
unfolding run agentme.RateLimit.call agentme.RateLimit.check new agentme.Prelude.ℕ_discrete
    extract_client_ip
two_each = refl

abbrev first : ℕ × Map ℕ ℕ
first = once.keyed 1 2

run-admitted_example :
    let go = run once no_trim no_parse no_parse count_requests false in
    let tell = replies once no_trim no_parse no_parse count_requests false in
    ((limits.enabled ≡ true)
      × (0 < limits.requests_per_second)
      × ((go (new once limits, 0) arrivals).1
          ≡ limited_state once no_trim no_parse no_parse count_requests false first 0 arrivals)
      × (tell (new once limits, 0) arrivals
          ≡ limited_replies once no_trim no_parse no_parse count_requests false limits first 0
              arrivals))
    ⊎ (((limits.enabled ≡ false) ⊎ (limits.requests_per_second ≡ 0))
        × ((go (new once limits, 0) arrivals).1
            ≡ open_state once no_trim no_parse no_parse count_requests false 0 arrivals)
        × (tell (new once limits, 0) arrivals
            ≡ open_replies once no_trim no_parse no_parse count_requests false 0 arrivals))
run-admitted_example =
    run-admitted once no_trim no_parse no_parse count_requests false limits 0 arrivals

abbrev parse_one : Text → Option IpAddr
parse_one s = if same s (codes "1:2") then some (v6 12) else none

bracketed : parse_ip_candidate no_trim parse_one no_parse (codes "[1:2]") ≡ some (v6 12)
unfolding parse_ip_candidate agentme.Prelude.Text-discrete agentme.Prelude.ℕ_discrete
bracketed = refl

unknown_proxy : parse_ip_candidate no_trim parse_one no_parse (codes "Unknown") ≡ none
unfolding parse_ip_candidate agentme.Prelude.Text-discrete agentme.Prelude.ℕ_discrete
unknown_proxy = refl
