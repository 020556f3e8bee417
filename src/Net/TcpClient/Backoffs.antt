-- ===== src/Net/TcpClient/Backoffs.antt =====
-- The delays before the attempts to reconnect.
use affini_x.Base.{
  ℕ, zero, suc, ◌*◌, ◌^◌, ◌<◌, ◌≡◌, ◌==◌, if◌then◌else◌, false, min, refl, sym, ap, ◌∙◌, arith,
}
use affini_x.Net.TcpClient.{Backoff, next, reset}

-- The backoff after a number of delays.
abbrev pub after : ℕ → Backoff → Backoff
unfolding next
after zero b = b
after (suc n) b = (next (after n b)).1

next_current :
    (b : Backoff)
    → 0 < b.current
    → (next b ≡ (b.current, record b { current = min (b.current * 2) b.max }))
unfolding next
next_current b h = ground arith

min_double : (a m : ℕ) → min (min a m * 2) m ≡ min (a * 2) m
min_double a m = omega arith

suc-not_zero : (n : ℕ) → (suc n == 0) ≡ false
suc-not_zero n = ground arith

pow_positive : (n : ℕ) → 0 < 2 ^ n
pow_positive zero = omega arith
pow_positive (suc n) = omega (arith, pow_positive n)

min_positive : (i n m : ℕ) → 0 < i → 0 < m → 0 < min (i * 2 ^ n) m
min_positive i n m h k = grind (arith, pow_positive n)

double_pow : (i n : ℕ) → i * 2 ^ n * 2 ≡ i * 2 ^ suc n
double_pow i n = grind arith

after_current :
    (n : ℕ) (b : Backoff)
    → 0 < b.initial
    → 0 < b.max
    → after (suc n) (reset b) ≡ record b { current = min (b.initial * 2 ^ suc n) b.max }
unfolding next
after_current zero b h k = ap (λ c. record b { current = min c b.max }) refl
after_current (suc n) b h k =
    let c = record b { current = min (b.initial * 2 ^ suc n) b.max } in
    ap (λ x. (next x).1) (after_current n b h k)
    ∙ ap (λ p. p.1) (next_current c (min_positive b.initial (suc n) b.max h k))
    ∙ ap (λ x. record b { current = x })
        (min_double (b.initial * 2 ^ suc n) b.max
          ∙ ap (λ x. min x b.max) (double_pow b.initial (suc n)))

-- After a reset, the first delay of a backoff whose initial and longest delay are positive is the initial
-- one, even where it is longer than the longest; the delay after n others is the initial one doubled n
-- times, and no more than the longest.
pub next-after :
    (n : ℕ) (b : Backoff)
    → 0 < b.initial
    → 0 < b.max
    → (next (after n (reset b))).0 ≡ (if n == 0 then b.initial else min (b.initial * 2 ^ n) b.max)
unfolding next
next-after zero b h k = refl
next-after (suc n) b h k =
    let c = record b { current = min (b.initial * 2 ^ suc n) b.max } in
    ap (λ x. (next x).0) (after_current n b h k)
    ∙ ap (λ p. p.0) (next_current c (min_positive b.initial (suc n) b.max h k))
    ∙ ap (λ t. if t then b.initial else c.current) (sym (suc-not_zero n))
