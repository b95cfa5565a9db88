-- ===== src/RateLimit.antt =====
-- The rate limit of the HTTP interface (node/src/rate_limit.rs). The limiter of the governor crate,
-- the parsing of addresses and `trim` are parameters; a reply is the status and the numbers of its
-- headers.
pub mod Clients
pub mod Admission
mod Tests
use agentme.Prelude.{
  ℕ, ◌+◌, ◌-◌, ◌*◌, ◌/◌, Bool, true, false, ◌&&◌, ◌||◌, Option, none, some, List, [], ◌∷◌, ltb, leb,
  ◌==◌, if◌then◌else◌, Result, ok, err, Text, codes, same,
}
use agentme.Security.Ip.{IpAddr, v4}

abbrev pub u32_max : ℕ
u32_max = 4_294_967_295

pub record RateLimitConfig : Type 0 where
  pub requests_per_second : ℕ
  pub burst_size : ℕ
  pub enabled : Bool

abbrev pub default_limits : RateLimitConfig
default_limits = record { requests_per_second = 100; burst_size = 50; enabled = true }

pub data RateLimitResult : Type 0 where
  allowed : ℕ → ℕ → ℕ → RateLimitResult
  limited : ℕ → ℕ → RateLimitResult

-- `RateLimiter::keyed` with a quota per second and its burst, and `check_key` at a time: nothing,
-- or the earliest time for another try.
pub record Governor (L : Type 0) : Type 0 where
  pub keyed : ℕ → ℕ → L
  pub check_key : L → IpAddr → ℕ → L × Option ℕ

pub record RateLimitService (L : Type 0) : Type 0 where
  pub config : RateLimitConfig
  pub limiter : Option L

-- The headers that are there and are text, and the address of the connection.
pub record Request (B : Type 0) : Type 0 where
  pub forwarded_for : Option Text
  pub real_ip : Option Text
  pub connected : Option IpAddr
  pub body : B

-- Limit, remaining and reset; the wait and the limit.
pub data Reply (B : Type 0) : Type 0 where
  served : B → ℕ → ℕ → ℕ → Reply B
  too_many_requests : ℕ → ℕ → Reply B

abbrev pub at_least_one : ℕ → ℕ
at_least_one n = if leb n 1 then 1 else n

abbrev pub localhost : IpAddr
localhost = v4 127 0 0 1

abbrev pub or_localhost : Option IpAddr → IpAddr
or_localhost none = localhost
or_localhost (some ip) = ip

module _ {L : Type 0} (g : Governor L) where
  unfoldable pub new : RateLimitConfig → RateLimitService L
  new config = record {
    config = config;
    limiter =
        if config.enabled && ltb 0 config.requests_per_second
        then some (g.keyed config.requests_per_second (at_least_one config.burst_size))
        else none;
  }

  -- The wait of at least a second, from the second reading of the clock.
  abbrev pub wait_secs : ℕ → ℕ → ℕ
  wait_secs earliest later = at_least_one ((earliest - later) / 1_000_000_000)

  abbrev pub checked : RateLimitService L → L × Option ℕ → ℕ → RateLimitService L × RateLimitResult
  checked s (l, none) later = (
    record s { limiter = some l },
    allowed (s.config.burst_size - 1) s.config.requests_per_second 1,
  )
  checked s (l, some earliest) later = (
    record s { limiter = some l },
    limited (wait_secs earliest later) s.config.requests_per_second,
  )

  abbrev pub check_with :
      RateLimitService L → Option L → Option IpAddr → ℕ → ℕ → RateLimitService L × RateLimitResult
  check_with s none client now later = (s, allowed u32_max u32_max 0)
  check_with s (some l) client now later = checked s (g.check_key l (or_localhost client) now) later

  unfoldable pub check :
      RateLimitService L → Option IpAddr → ℕ → ℕ → RateLimitService L × RateLimitResult
  check s client now later = check_with s s.limiter client now later

abbrev pub lower : ℕ → ℕ
lower c = if leb 65 c && leb c 90 then c + 32 else c

abbrev pub lowered : Text → Text
lowered [] = []
lowered (c ∷ s) = lower c ∷ lowered s

abbrev pub before_comma : Text → Text
before_comma [] = []
before_comma (c ∷ s) = if c == 44 then [] else c ∷ before_comma s

abbrev pub prefixed : ℕ → Option Text → Option Text
prefixed c none = none
prefixed c (some s) = some (c ∷ s)

-- `strip_suffix` of a closing bracket.
abbrev pub unclosed : Text → Option Text
unclosed [] = none
unclosed (c ∷ []) = if c == 93 then some [] else none
unclosed (c ∷ d ∷ s) = prefixed c (unclosed (d ∷ s))

abbrev pub unbracketed : Text → Option Text
unbracketed [] = none
unbracketed (c ∷ s) = if c == 91 then unclosed s else none

abbrev pub or_else : {A : Type 0} → Option A → Option A → Option A
or_else none o = o
or_else (some x) o = some x

abbrev pub and_then : {A B : Type 0} → Option A → (A → Option B) → Option B
and_then none g = none
and_then (some x) g = g x

module _ (trim : Text → Text) (parse_ip parse_socket : Text → Option IpAddr) where
  abbrev pub parse_trimmed : Text → Option IpAddr
  parse_trimmed s =
      if same s [] || same (lowered s) (codes "unknown")
      then none
      else or_else (parse_ip s) (or_else (parse_socket s) (and_then (unbracketed s) parse_ip))

  unfoldable pub parse_ip_candidate : Text → Option IpAddr
  parse_ip_candidate value = parse_trimmed (trim value)

  unfoldable pub extract_header_ip : Option Text → Bool → Option IpAddr
  extract_header_ip none allow_multiple = none
  extract_header_ip (some value) allow_multiple =
      parse_ip_candidate (if allow_multiple then before_comma value else value)

  module _ {B : Type 0} where
    unfoldable pub extract_client_ip : Request B → Bool → Option IpAddr
    extract_client_ip request trust_proxy =
        if trust_proxy
        then or_else (extract_header_ip request.forwarded_for true)
            (or_else (extract_header_ip request.real_ip false) request.connected)
        else request.connected

-- The inner service, with its state: a reply or its error.
abbrev pub Inner : Type 0 → Type 0 → Type 0 → Type 0 → Type 0
Inner S B C E = S → Request B → S × Result E C

module _ {S B C E : Type 0} (inner : Inner S B C E) where
  abbrev pub with_headers : S × Result E C → ℕ → ℕ → ℕ → S × Result E (Reply C)
  with_headers (s, ok body) limit remaining reset = (s, ok (served body limit remaining reset))
  with_headers (s, err e) limit remaining reset = (s, err e)

  abbrev pub respond : S → Request B → RateLimitResult → S × Result E (Reply C)
  respond s request (allowed remaining limit reset) =
      with_headers (inner s request) limit remaining reset
  respond s request (limited retry_after limit) = (s, ok (too_many_requests retry_after limit))

module _ {L S B C E : Type 0} (g : Governor L) (trim : Text → Text)
    (parse_ip parse_socket : Text → Option IpAddr) (inner : Inner S B C E)
    (trust_proxy : Bool) where
  abbrev pub answer :
      S
      → Request B
      → RateLimitService L × RateLimitResult
      → RateLimitService L × S × Result E (Reply C)
  answer s request (limits, result) =
      let (s', reply) = respond inner s request result in (limits, s', reply)

  -- `RateLimitMiddleware::call`, at the times of the check and of the wait.
  unfoldable pub call :
      RateLimitService L → S → Request B → ℕ → ℕ → RateLimitService L × S × Result E (Reply C)
  call limits s request now later =
      answer s request (
        check g limits (extract_client_ip trim parse_ip parse_socket request trust_proxy) now later)
