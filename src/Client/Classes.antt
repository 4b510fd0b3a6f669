-- ===== src/Client/Classes.antt =====
-- The classes of a reply's status in client/src/smtp/smtp.c.
use postman.Prelude.{ℕ, ◌+◌, ◌/◌, ◌<◌, ◌≤◌, ◌==◌, ltb, leb, ◌&&◌, ◌≡◌, arith}
use postman.Client.Smtp.{word, in_hundred, is_smtp_success, is_smtp_4xx_error, is_smtp_5xx_error}

hundred_quotient : (m : ℕ) → (m / 100 == 0) ≡ ltb m 100
hundred_quotient m = ground arith

in_hundred-range :
    (base n : ℕ) → base ≤ 1000 → n < word → in_hundred base n ≡ (leb base n && ltb n (base + 100))
in_hundred-range base n b h = ground (arith, b, h)

-- For every status of 32 bits, also one so small that the difference with the base of a class
-- wraps around, a success is a number from 200 to 399, a temporary error one from 400 to 499, and
-- a permanent error one from 500 to 599.
pub is_smtp_success-range :
    (n : ℕ)
    → n < word
    → (is_smtp_success n ≡ (leb 200 n && ltb n 400))
      × (is_smtp_4xx_error n ≡ (leb 400 n && ltb n 500))
      × (is_smtp_5xx_error n ≡ (leb 500 n && ltb n 600))
unfolding is_smtp_success is_smtp_4xx_error is_smtp_5xx_error
is_smtp_success-range n h = (
  ground (arith, in_hundred-range 200 n (omega arith) h, in_hundred-range 300 n (omega arith) h),
  in_hundred-range 400 n (omega arith) h,
  in_hundred-range 500 n (omega arith) h,
)
