-- ===== src/Config/Decimal.antt =====
-- Load on numbers that the environment gives in decimal.
use Prim.Native.Char.{code}
use Prim.Native.String.{String, [], ◌∷◌}
use native.Mathlib.Nat.{add-mul, mul_assoc}
use company_service.Common.{
  ℕ, ◌+◌, ◌-◌, ◌*◌, ◌%◌, ◌^◌, ◌≡◌, ◌≢◌, ◌≤◌, ◌<◌, ◌∙◌, refl, ap, arith, some, eq_iff,
}
use company_service.Common.Int.{ℤ, pos}
use company_service.Common.Text.{rune_count}
use company_service.Config.{int32_of, get_int, loaded_config}
use company_service.Config.Numbers.{atoi, number, digits, with_sign}

abbrev pub AreDigits : String → Type 0
AreDigits [] = Unit
AreDigits (c ∷ s) = (b'0' ≤ code c) × (code c ≤ b'9') × AreDigits s

-- The number that digits show: each counts by its place from the right.
unfoldable pub shown : String → ℕ
shown [] = 0
shown (c ∷ s) = (code c - b'0') * 10 ^ rune_count s + shown s

-- A number in decimal, without a sign, that an int of 64 bits holds.
pub record IsDecimal (s : String) : Type 0 where
  pub digits : AreDigits s
  pub not_empty : s ≢ ""
  pub fits : shown s < 2 ^ 63

place : (n d p : ℕ) → (n * 10 + d) * p ≡ n * (10 * p) + d * p
place n d p = add-mul (n * 10) d p ∙ ap (λ k. k + d * p) (mul_assoc n 10 p)

digits-shown :
    (n : ℕ) (s : String) → AreDigits s → digits n s ≡ some (n * 10 ^ rune_count s + shown s)
unfolding digits shown rune_count
digits-shown n [] h = ap some (omega arith)
digits-shown n (c ∷ s) (low, high, h) =
    rw (digits-shown (n * 10 + (code c - b'0')) s h)
      (ground (arith, place n (code c - b'0') (10 ^ rune_count s)))

atoi-shown : (s : String) → IsDecimal s → atoi s ≡ some (pos (shown s))
unfolding atoi number with_sign
atoi-shown [] h = absurd (h.not_empty refl)
atoi-shown (c ∷ s) h =
    let (low, high, _) = h.digits in
    rw (digits-shown 0 (c ∷ s) h.digits) (ground (arith, low, high, h.fits))

module _ (float_part : (f unit k : ℕ) → ℕ) (getenv : String → String) where
  get_int-shown :
      (key : String) (fallback : ℤ)
      → IsDecimal (getenv key)
      → get_int float_part getenv key fallback ≡ pos (shown (getenv key))
  unfolding get_int
  get_int-shown key fallback h =
      rw (atoi-shown (getenv key) h) (ground (arith, eq_iff (getenv key) "", h.not_empty))

  -- Decimal numbers in DB_MAX_CONNS, DB_MIN_CONNS and OUTBOX_BATCH_SIZE are those of the
  -- configuration, the numbers of connections without what is beyond their low 32 bits, where these
  -- show a number that is not negative.
  pub loaded_config-shown :
      IsDecimal (getenv "DB_MAX_CONNS")
      → IsDecimal (getenv "DB_MIN_CONNS")
      → IsDecimal (getenv "OUTBOX_BATCH_SIZE")
      → shown (getenv "DB_MAX_CONNS") % 2 ^ 32 < 2 ^ 31
      → shown (getenv "DB_MIN_CONNS") % 2 ^ 32 < 2 ^ 31
      → ((loaded_config float_part getenv).database.max_conns
          ≡ pos (shown (getenv "DB_MAX_CONNS") % 2 ^ 32))
        × ((loaded_config float_part getenv).database.min_conns
            ≡ pos (shown (getenv "DB_MIN_CONNS") % 2 ^ 32))
        × ((loaded_config float_part getenv).events.outbox_batch_size
            ≡ pos (shown (getenv "OUTBOX_BATCH_SIZE")))
  unfolding loaded_config int32_of
  loaded_config-shown max min batch max_low min_low = (
    rw (get_int-shown "DB_MAX_CONNS" (pos 10) max) (ground (arith, max_low)),
    rw (get_int-shown "DB_MIN_CONNS" (pos 1) min) (ground (arith, min_low)),
    get_int-shown "OUTBOX_BATCH_SIZE" (pos 10) batch,
  )
