-- ===== src/Publisher/Running.antt =====
-- How often Run takes a batch, and the settings that NewPublisher makes of its arguments.
use company_service.Common.{ℕ, zero, suc, ◌≡◌, ◌≤◌, ◌⊎◌, refl, arith, Option, List, [], ◌∷◌}
use company_service.Common.Int.{ℤ, pos, negsuc, ◌≤ℤ◌}
use company_service.Errors.{GoError}
use company_service.Application.{Context, EventProducer, TransactionRunner}
use company_service.Publisher.{
  OutboxRepository, Publisher, Signal, done, tick, new_publisher, process_and_log, run_loop, run,
  two_seconds,
}
use company_service.Common.{String}

-- `f` applied `n` times
abbrev pub times {ℓ} : {A : Type ℓ} → ℕ → (A → A) → A → A
times zero f a = a
times (suc n) f a = times n f (f a)

-- The ticks that come before the context is done.
abbrev pub ticks : List Signal → ℕ
ticks [] = 0
ticks (done ∷ signals) = 0
ticks (tick ∷ signals) = suc (ticks signals)

module _ {S : Type 0} (text : GoError → String) (p : Publisher S) (ctx : Context) where
  run_loop-times :
      (signals : List Signal) (s : S)
      → run_loop text p ctx signals s ≡ times (ticks signals) (process_and_log text p ctx) s
  unfolding run_loop
  run_loop-times [] s = refl
  run_loop-times (done ∷ signals) s = refl
  run_loop-times (tick ∷ signals) s = run_loop-times signals (process_and_log text p ctx s)

  -- Run takes one batch at its start and one for each tick before the context is done, and none
  -- after that.
  pub run-times :
      (signals : List Signal) (s : S)
      → run text p ctx signals s ≡ times (suc (ticks signals)) (process_and_log text p ctx) s
  unfolding run
  run-times signals s = run_loop-times signals (process_and_log text p ctx s)

module _ {S : Type 0} (repo : OutboxRepository S) (tx : Option (TransactionRunner S Unit))
    (producer : EventProducer S) where
  -- The interval of a publisher is positive, as time.NewTicker wants it, and so is its batch, whatever
  -- the configuration says: each is the one of the configuration, or that is not positive, and it is
  -- two seconds or ten.
  pub new_publisher-bounds :
      (interval batch_size : ℤ)
      → let p = new_publisher repo tx producer interval batch_size in
        (pos 1 ≤ℤ p.interval)
        × (1 ≤ p.batch)
        × ((p.interval ≡ interval) ⊎ ((interval ≤ℤ pos 0) × (p.interval ≡ two_seconds)))
        × ((pos p.batch ≡ batch_size) ⊎ ((batch_size ≤ℤ pos 0) × (p.batch ≡ 10)))
  unfolding new_publisher
  new_publisher-bounds (pos n) (pos k) = ground arith
  new_publisher-bounds (pos n) (negsuc k) = ground arith
  new_publisher-bounds (negsuc n) (pos k) = ground arith
  new_publisher-bounds (negsuc n) (negsuc k) = ground arith
