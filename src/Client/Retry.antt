-- ===== src/Client/Retry.antt =====
-- internal/client/client.go: how long a rate limit is waited for, and how often a request is sent.
use yougpu_agent.Prelude.{
  ℕ, ℤ, pos, negsuc, ◌≤ℤ◌, ltb_ℤ, suc, ◌*◌, ◌-◌, ◌^◌, ◌≤◌, ◌<◌, ltb, leb, eqb, String, Bool, false,
  ◌||◌, Option, none, some, is_empty, ◌≡◌, refl, ◌∙◌, ap, eqb_iff, ◌⊎◌, inl, inr, arith, Bool-cases,
  atoi,
}
use yougpu_agent.Prelude.Int64.{signed, signed_small}
use yougpu_agent.Prelude.Result.{ok, Result-cases}
use yougpu_agent.Client.{
  Response, Http, second, max_wait, positive_atoi, cap, until, wait_for, parse_retry_after, resend,
  settle, read_payload, request, unsign, in_range,
}

-- A wait that a client may make: above 0 and at most a minute.
abbrev pub IsWait : ℤ → Type 0
IsWait d = (pos 1 ≤ℤ d) × (d ≤ℤ max_wait)

cap-IsWait : (d : ℤ) → pos 1 ≤ℤ d → IsWait (cap d)
cap-IsWait d h = ground arith

until-IsWait : (d : Option ℤ) → IsWait (until d)
until-IsWait none = ground arith
until-IsWait (some d) = elim (Bool-cases (ltb_ℤ (pos 0) d)) [
  | inl t ↦ rw t (cap-IsWait d (ground arith))
  | inr f ↦ rw f (ground arith)
]

in_range-positive : (o : Option ℕ) (n : ℕ) → in_range o ≡ some n → 0 < n
in_range-positive none n e = absurd (cc)
in_range-positive (some m) n e = ground arith

-- Whatever the header says, the wait is above 0 and at most 60 seconds, as long as the number of
-- seconds in it is at most 9223372036, where the product in nanoseconds still fits in an int64.
pub parse_retry_after-IsWait :
    (date : String → Option ℤ) (h : String)
    → ((n : ℕ) → positive_atoi h ≡ some n → n ≤ 9223372036)
    → IsWait (parse_retry_after date h)
unfolding parse_retry_after positive_atoi
parse_retry_after-IsWait date h fits = elim (Bool-cases (is_empty h)) [
  | inl t ↦ rw t (ground arith)
  | inr f ↦ rw f (waits (positive_atoi h) refl)
]
  where
    waits : (o : Option ℕ) → positive_atoi h ≡ o → IsWait (wait_for o (date h))
    waits none e = until-IsWait (date h)
    waits (some n) e =
        let small = fits n e in
        let positive = in_range-positive (atoi (unsign h)) n e in
        rw (signed_small (n * second) (omega arith)) (cap-IsWait (pos (n * second)) (omega arith))

-- The requests that reach the network, counted.
pub record Counted {W : Type 0} (net : Http W) : Type 0 where
  pub count : W → ℕ
  pub counts : (w : W) → count (net.send w).1 ≡ suc (count w)
  pub keeps : (d : ℤ) (w : W) → count (net.wait d w).1 ≡ count w

module _ {W : Type 0} (net : Http W) (c : Counted net) where
  settle-keeps : (wanted : Bool) (r : Response) (w : W) → (settle net wanted r w).1 ≡ w
  unfolding settle read_payload
  settle-keeps wanted r w = elim (Bool-cases (eqb r.status 204)) [
    | inl t ↦ rw t refl
    | inr f ↦ elim (Bool-cases (ltb r.status 200 || leb 300 r.status)) [
      | inl t ↦ rw (f, t) refl
      | inr g ↦ elim (Bool-cases wanted) [
        | inr t ↦ rw (f, g, t) refl
        | inl t ↦ elim (Result-cases (net.read r.body)) [
          | inl (raw, k) ↦ rw (f, g, t, k) refl
          | inr (e, k) ↦ rw (f, g, t, k) refl
        ]
      ]
    ]
  ]

  -- A request is sent once, or twice and then the first answer had the status 429; never more often.
  pub request_sends :
      (wanted : Bool) (w : W)
      → (c.count (request net wanted w).1 ≡ suc (c.count w))
        ⊎ ((c.count (request net wanted w).1 ≡ suc (suc (c.count w)))
            × ((r : Response) × ((net.send w).0 ≡ ok r) × (r.status ≡ 429)))
  unfolding request resend
  request_sends wanted w =
      let w1 : W = (net.send w).1 in
      elim (Result-cases (net.send w).0) [
        | inr (e, f) ↦ rw f (inl (c.counts w))
        | inl (r, t) ↦ elim (Bool-cases (eqb r.status 429)) [
          | inr other ↦ rw (t, other, settle-keeps wanted r w1) (inl (c.counts w))
          | inl limited ↦
              let d : ℤ = parse_retry_after net.date r.retry_after in
              let w2 : W = (net.wait d w1).1 in
              let twice : c.count (net.send w2).1 ≡ suc (suc (c.count w)) =
                c.counts w2 ∙ ap suc (c.keeps d w1 ∙ c.counts w) in
              let is_429 = (eqb_iff r.status 429).0 limited in
              elim (Result-cases (net.wait d w1).0) [
                | inr (e, f) ↦ rw (t, limited, f) (inl (c.keeps d w1 ∙ c.counts w))
                | inl (u, k) ↦ elim (Result-cases (net.send w2).0) [
                  | inr (e, f) ↦ rw (t, limited, k, f) (inr (twice, (r, refl, is_429)))
                  | inl (r', g) ↦
                      rw (t, limited, k, g, settle-keeps wanted r' (net.send w2).1)
                        (inr (twice, (r, refl, is_429)))
                ]
              ]
        ]
      ]

signed_large : (n : ℕ) → 2 ^ 63 ≤ n → n < 2 ^ 64 → signed n ≡ negsuc (2 ^ 64 - 1 - n)
unfolding signed
signed_large n h k = ground arith

-- A header that asks for 9223372037 to 18446744073 seconds, more than an int64 of nanoseconds holds,
-- makes the wait negative.
pub parse_retry_after_wraps :
    (date : String → Option ℤ) (h : String) (n : ℕ)
    → is_empty h ≡ false
    → positive_atoi h ≡ some n
    → 9223372037 ≤ n
    → n ≤ 18446744073
    → parse_retry_after date h ≤ℤ negsuc 0
unfolding parse_retry_after
parse_retry_after_wraps date h n full e low high =
    rw (full, e, signed_large (n * second) (omega arith) (omega arith)) (ground arith)
