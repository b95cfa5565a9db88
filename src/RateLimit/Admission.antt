-- ===== src/RateLimit/Admission.antt =====
-- Which requests the middleware (node/src/rate_limit.rs) passes on and how it replies, over any
-- history.
use agentme.Prelude.{
  ℕ, ◌-◌, ◌/◌, max, ◌≡◌, refl, ap, ◌∙◌, Bool, true, false, Option, none, some, List, [], ◌∷◌,
  Result, ok, err, Text, arith, inl, inr, ◌<◌, Bool-cases, ltb, ◌⊎◌,
}
use agentme.Security.Ip.{IpAddr}
use agentme.RateLimit.{
  Governor, RateLimitService, RateLimitConfig, Request, Reply, Inner, new, check, check_with,
  checked, u32_max, or_localhost, extract_client_ip, with_headers, answer, call, served, allowed,
  too_many_requests, at_least_one,
}
use agentme.RateLimit.Clients.{address_for, address_lem}

-- A request with the time of its check and of its wait.
pub record Arrival (B : Type 0) : Type 0 where
  pub request : Request B
  pub now : ℕ
  pub later : ℕ

abbrev pub Results : Type 0 → Type 0 → Type 0
Results E C = List (Result E (Reply C))

-- The reply to a request that was served, with its numbers of the limit.
abbrev pub numbered : {C E : Type 0} → Result E C → ℕ → ℕ → Result E (Reply C)
numbered (ok body) limit remaining = ok (served body limit remaining 1)
numbered (err e) limit remaining = err e

abbrev unlimited : {C E : Type 0} → Result E C → Result E (Reply C)
unlimited (ok body) = ok (served body 4_294_967_295 4_294_967_295 0)
unlimited (err e) = err e

at_least_one-max : (n : ℕ) → at_least_one n ≡ max 1 n
at_least_one-max n = ground arith

module _ {L S B C E : Type 0} (g : Governor L) (trim : Text → Text)
    (parse_ip parse_socket : Text → Option IpAddr) (inner : Inner S B C E)
    (trust_proxy : Bool) where
  -- The state of the limiter and of the inner service after the requests, and the replies.
  unfoldable pub run : RateLimitService L × S → List (Arrival B) → RateLimitService L × S
  run x [] = x
  run (limits, s) (a ∷ arrivals) =
      let (limits', s', reply) =
        call g trim parse_ip parse_socket inner trust_proxy limits s a.request a.now a.later in
      run (limits', s') arrivals

  unfoldable pub replies : RateLimitService L × S → List (Arrival B) → Results E C
  replies x [] = []
  replies (limits, s) (a ∷ arrivals) =
      let (limits', s', reply) =
        call g trim parse_ip parse_socket inner trust_proxy limits s a.request a.now a.later in
      reply ∷ replies (limits', s') arrivals

  abbrev pub client : Request B → IpAddr
  client request = address_for trim parse_ip parse_socket trust_proxy request

  -- The inner service and the replies, from what the limiter says to each request.
  abbrev after_check : S → Arrival B → Option ℕ → S
  after_check s a none = (inner s a.request).0
  after_check s a (some earliest) = s

  abbrev reply_to : RateLimitConfig → S → Arrival B → Option ℕ → Result E (Reply C)
  reply_to config s a none =
      numbered (inner s a.request).1 config.requests_per_second (config.burst_size - 1)
  reply_to config s a (some earliest) =
      ok (
        too_many_requests (max 1 ((earliest - a.later) / 1_000_000_000)) config.requests_per_second)

  abbrev pub limited_state : L → S → List (Arrival B) → S
  limited_state l s [] = s
  limited_state l s (a ∷ arrivals) =
      let (l', refusal) = g.check_key l (client a.request) a.now in
      limited_state l' (after_check s a refusal) arrivals

  abbrev pub limited_replies : RateLimitConfig → L → S → List (Arrival B) → Results E C
  limited_replies config l s [] = []
  limited_replies config l s (a ∷ arrivals) =
      let (l', refusal) = g.check_key l (client a.request) a.now in
      reply_to config s a refusal ∷ limited_replies config l' (after_check s a refusal) arrivals

  -- The same when the limit is off.
  abbrev pub open_state : S → List (Arrival B) → S
  open_state s [] = s
  open_state s (a ∷ arrivals) = open_state (inner s a.request).0 arrivals

  abbrev pub open_replies : S → List (Arrival B) → Results E C
  open_replies s [] = []
  open_replies s (a ∷ arrivals) =
      unlimited (inner s a.request).1 ∷ open_replies (inner s a.request).0 arrivals

  headers-state :
      (x : S × Result E C) (limit remaining reset : ℕ)
      → (with_headers inner x limit remaining reset).0 ≡ x.0
  headers-state (s, ok body) limit remaining reset = refl
  headers-state (s, err e) limit remaining reset = refl

  headers-numbered :
      (x : S × Result E C) (limit remaining : ℕ)
      → (with_headers inner x limit remaining 1).1 ≡ numbered x.1 limit remaining
  headers-numbered (s, ok body) limit remaining = refl
  headers-numbered (s, err e) limit remaining = refl

  headers-unlimited :
      (x : S × Result E C) → (with_headers inner x u32_max u32_max 0).1 ≡ unlimited x.1
  headers-unlimited (s, ok body) = refl
  headers-unlimited (s, err e) = refl

  client_lem :
      (request : Request B)
      → or_localhost (extract_client_ip trim parse_ip parse_socket request trust_proxy)
        ≡ client request
  client_lem request = address_lem trim parse_ip parse_socket trust_proxy request

  -- What the middleware does with the requests behind an outcome of the first one.
  abbrev state_after : RateLimitService L × S × Result E (Reply C) → List (Arrival B) → S
  state_after (limits, s, reply) arrivals = (run (limits, s) arrivals).1

  abbrev replies_after :
      RateLimitService L × S × Result E (Reply C) → List (Arrival B) → Results E C
  replies_after (limits, s, reply) arrivals = reply ∷ replies (limits, s) arrivals

  abbrev Follows : List (Arrival B) → Type 0
  Follows arrivals =
      (limits : RateLimitService L) (s : S) (l : L)
      → limits.limiter ≡ some l
      → ((run (limits, s) arrivals).1 ≡ limited_state l s arrivals)
        × (replies (limits, s) arrivals ≡ limited_replies limits.config l s arrivals)

  answered :
      (limits : RateLimitService L) (s : S) (a : Arrival B) (arrivals : List (Arrival B))
      (r : L × Option ℕ)
      → Follows arrivals
      → let x =
          answer g trim parse_ip parse_socket inner trust_proxy s a.request
            (checked g limits r a.later) in
        (state_after x arrivals ≡ limited_state r.0 (after_check s a r.1) arrivals)
        × (replies_after x arrivals
            ≡ reply_to limits.config s a r.1
              ∷ limited_replies limits.config r.0 (after_check s a r.1) arrivals)
  answered limits s a arrivals (l, none) later =
      let x = inner s a.request in
      let remaining = limits.config.burst_size - 1 in
      let limit = limits.config.requests_per_second in
      let served_state = headers-state x limit remaining 1 in
      let (state, rest) =
        later (record limits { limiter = some l }) (with_headers inner x limit remaining 1).0 l
          refl in
      (
        state ∙ ap (λ y. limited_state l y arrivals) served_state,
        ap
              (λ reply.
                reply
                ∷ replies
                    (record limits { limiter = some l }, (with_headers inner x limit remaining 1).0)
                    arrivals)
              (headers-numbered x limit remaining)
            ∙ ap (λ rs. numbered x.1 limit remaining ∷ rs)
                (rest ∙ ap (λ y. limited_replies limits.config l y arrivals) served_state),
      )
  answered limits s a arrivals (l, some earliest) later =
      let (state, rest) = later (record limits { limiter = some l }) s l refl in
      (
        state,
        ap
              (λ wait.
                ok (too_many_requests wait limits.config.requests_per_second)
                ∷ replies (record limits { limiter = some l }, s) arrivals)
              (at_least_one-max ((earliest - a.later) / 1_000_000_000))
            ∙ ap (λ rs. reply_to limits.config s a (some earliest) ∷ rs) rest,
      )

  call-checked :
      (limits : RateLimitService L) (s : S) (a : Arrival B) (l : L)
      → limits.limiter ≡ some l
      → call g trim parse_ip parse_socket inner trust_proxy limits s a.request a.now a.later
        ≡ answer g trim parse_ip parse_socket inner trust_proxy s a.request
            (checked g limits (g.check_key l (client a.request) a.now) a.later)
  unfolding call check
  call-checked limits s a l e =
      ap
        (λ o. answer g trim parse_ip parse_socket inner trust_proxy s a.request (
          check_with g limits o (extract_client_ip trim parse_ip parse_socket a.request trust_proxy)
            a.now a.later))
        e
      ∙ ap
          (λ ip.
            answer g trim parse_ip parse_socket inner trust_proxy s a.request
              (checked g limits (g.check_key l ip a.now) a.later))
          (client_lem a.request)

  call-unchecked :
      (limits : RateLimitService L) (s : S) (a : Arrival B)
      → limits.limiter ≡ none
      → call g trim parse_ip parse_socket inner trust_proxy limits s a.request a.now a.later
        ≡ answer g trim parse_ip parse_socket inner trust_proxy s a.request
            (limits, allowed u32_max u32_max 0)
  unfolding call check
  call-unchecked limits s a e =
      ap
        (λ o. answer g trim parse_ip parse_socket inner trust_proxy s a.request (
          check_with g limits o (extract_client_ip trim parse_ip parse_socket a.request trust_proxy)
            a.now a.later))
        e

  replies-limited_replies : (arrivals : List (Arrival B)) → Follows arrivals
  unfolding run replies
  replies-limited_replies [] limits s l e = (refl, refl)
  replies-limited_replies (a ∷ arrivals) limits s l e =
      let (state, rest) =
        answered limits s a arrivals (g.check_key l (client a.request) a.now)
          (replies-limited_replies arrivals) in
      (
        ap (λ x. state_after x arrivals) (call-checked limits s a l e) ∙ state,
        ap (λ x. replies_after x arrivals) (call-checked limits s a l e) ∙ rest,
      )

  abbrev Passes : List (Arrival B) → Type 0
  Passes arrivals =
      (limits : RateLimitService L) (s : S)
      → limits.limiter ≡ none
      → ((run (limits, s) arrivals).1 ≡ open_state s arrivals)
        × (replies (limits, s) arrivals ≡ open_replies s arrivals)

  replies-open_replies : (arrivals : List (Arrival B)) → Passes arrivals
  unfolding run replies
  replies-open_replies [] limits s e = (refl, refl)
  replies-open_replies (a ∷ arrivals) limits s e =
      let x = inner s a.request in
      let passed = with_headers inner x u32_max u32_max 0 in
      let (state, rest) = replies-open_replies arrivals limits passed.0 e in
      let served_state = headers-state x u32_max u32_max 0 in
      (
        ap (λ y. state_after y arrivals) (call-unchecked limits s a e)
            ∙ state
            ∙ ap (λ y. open_state y arrivals) served_state,
        ap (λ y. replies_after y arrivals) (call-unchecked limits s a e)
            ∙ ap (λ reply. reply ∷ replies (limits, passed.0) arrivals) (headers-unlimited x)
            ∙ ap (λ rs. unlimited x.1 ∷ rs) (rest ∙ ap (λ y. open_replies y arrivals) served_state),
      )

  -- From a fresh service, over any requests. When the limit is enabled and not 0, a limiter with
  -- this rate and the burst, at least 1, is asked for the client of each request: the first
  -- address, as `parse_ip_candidate` reads it, from the header x-forwarded-for (up to a comma),
  -- x-real-ip and the connection, or only that of the connection when proxies are not trusted, and
  -- 127.0.0.1 if there is none. A request that it lets pass is served, and its reply carries the
  -- rate, the burst less 1 and 1; one that it refuses does not reach the inner service, and is told
  -- the wait in seconds, at least 1, and the rate. When the limit is off or 0, every request is
  -- served, with the greatest numbers of 32 bits and 0 in its reply.
  pub run-admitted :
      (config : RateLimitConfig) (s : S) (arrivals : List (Arrival B))
      → let l = g.keyed config.requests_per_second (max 1 config.burst_size) in
        ((config.enabled ≡ true)
          × (0 < config.requests_per_second)
          × ((run (new g config, s) arrivals).1 ≡ limited_state l s arrivals)
          × (replies (new g config, s) arrivals ≡ limited_replies config l s arrivals))
        ⊎ (((config.enabled ≡ false) ⊎ (config.requests_per_second ≡ 0))
            × ((run (new g config, s) arrivals).1 ≡ open_state s arrivals)
            × (replies (new g config, s) arrivals ≡ open_replies s arrivals))
  unfolding new
  run-admitted config s arrivals = elim (Bool-cases config.enabled) [
    | inl on ↦ elim (Bool-cases (ltb 0 config.requests_per_second)) [
      | inl positive ↦
          let (state, told) =
            replies-limited_replies arrivals (new g config) s
              (g.keyed config.requests_per_second (max 1 config.burst_size))
              (rw (on, positive, at_least_one-max config.burst_size) refl) in
          inl (on, ground (arith, positive), state, told)
      | inr zero_rate ↦
          let (state, told) =
            replies-open_replies arrivals (new g config) s (rw (on, zero_rate) refl) in
          inr (inr (ground (arith, zero_rate)), state, told)
    ]
    | inr off ↦
        let (state, told) = replies-open_replies arrivals (new g config) s (rw off refl) in
        inr (inl off, state, told)
  ]
