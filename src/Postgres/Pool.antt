-- ===== src/Postgres/Pool.antt =====
-- internal/infrastructure/postgres/postgres.go: NewPool. The library pgxpool is a parameter.
use company_service.Common.{ℕ, ◌+◌, ◌-◌, ◌≡◌, refl, arith, String, inl, inr}
use company_service.Common.Int.{ℤ}
use company_service.Action.{
  Result, ok, err, Action, pure, lift, wrapping, raise, attempt, ◌>>=◌, ◌>>◌,
}
use company_service.Action.Inversion.{Result-cases}
use company_service.Errors.{GoError, wrap}
use company_service.Application.{Context}
use company_service.Config.{DatabaseConfig}

-- `pgxpool.Config`: the fields that the code sets, and the others
pub record PoolConfig (O : Type 0) : Type 0 where
  pub max_conns : ℤ
  pub min_conns : ℤ
  pub max_conn_lifetime : ℤ
  pub max_conn_idle_time : ℤ
  pub others : O

pub record PoolLibrary (O P S : Type 0) : Type 0 where
  pub parse_config : String → Result (PoolConfig O)
  pub connect_config : Context → PoolConfig O → Action S P
  pub ping : P → Context → Action S Unit
  pub close : P → S → S

module _ {O P S : Type 0} (lib : PoolLibrary O P S) where
  -- What NewPool does with the answer of Ping.
  unfoldable pub pinged : P → Result (Unit {0}) → Action S P
  pinged pool (ok _) s = (ok pool, s)
  pinged pool (err e) s = (err (wrap "ping postgres: " e), lib.close pool s)

  -- The pool's configuration, with the settings of the service
  abbrev pub sized : DatabaseConfig → PoolConfig O → PoolConfig O
  sized cfg pool_config = record pool_config {
    max_conns = cfg.max_conns;
    min_conns = cfg.min_conns;
    max_conn_lifetime = cfg.max_conn_lifetime;
    max_conn_idle_time = cfg.max_conn_idle_time;
  }

  -- NewPool
  unfoldable pub new_pool : Context → DatabaseConfig → Action S P
  new_pool ctx cfg = do
    pool_config ← wrapping "parse postgres config: " (lift (lib.parse_config cfg.url))
    pool ← wrapping "connect to postgres: " (lib.connect_config ctx (sized cfg pool_config))
    attempt (lib.ping pool ctx) (pinged pool)

-- What is documented of the library, where `opened s` is the number of pools that are open: a
-- connection opens one, unless it fails, and a Close closes one.
pub record PoolLaws {O P S : Type 0} (lib : PoolLibrary O P S) (opened : S → ℕ) : Type 0 where
  pub connected :
      (ctx : Context) (c : PoolConfig O) (s s' : S) (pool : P)
      → lib.connect_config ctx c s ≡ (ok pool, s')
      → opened s' ≡ opened s + 1
  pub refused :
      (ctx : Context) (c : PoolConfig O) (s s' : S) (e : GoError)
      → lib.connect_config ctx c s ≡ (err e, s')
      → opened s' ≡ opened s
  pub pinged : (pool : P) (ctx : Context) (s : S) → opened (lib.ping pool ctx s).1 ≡ opened s
  pub closed : (pool : P) (s : S) → opened (lib.close pool s) ≡ opened s - 1

-- The pools that a call leaves open: one more beside a pool, and none more beside an error.
abbrev pub LeavesOpen : {P S : Type 0} → (S → ℕ) → S → Result P × S → Type 0
LeavesOpen opened s (ok pool, s') = opened s' ≡ opened s + 1
LeavesOpen opened s (err e, s') = opened s' ≡ opened s

module _ {O P S : Type 0} (lib : PoolLibrary O P S) (opened : S → ℕ)
    (laws : PoolLaws lib opened) where
  pinged-LeavesOpen :
      (pool : P) (r : Result (Unit {0})) (n : ℕ) (s : S)
      → opened s ≡ n + 1
      → (s0 : S) → opened s0 ≡ n
      → LeavesOpen opened s0 (pinged lib pool r s)
  unfolding pinged
  pinged-LeavesOpen pool (ok _) n s h s0 h0 = ground arith
  pinged-LeavesOpen pool (err e) n s h s0 h0 = ground (arith, laws.closed pool s)

  connected-LeavesOpen :
      (ctx : Context) (c : PoolConfig O) (s : S) (r : Result P × S)
      → lib.connect_config ctx c s ≡ r
      → LeavesOpen opened s (
          company_service.Action.continue
            (company_service.Action.wrap_err "connect to postgres: " r.0)
            (λ pool. attempt (lib.ping pool ctx) (pinged lib pool))
            r.1)
  connected-LeavesOpen ctx c s (err e, s') h = laws.refused ctx c s s' e h
  connected-LeavesOpen ctx c s (ok pool, s') h =
      pinged-LeavesOpen pool (lib.ping pool ctx s').0 (opened s) (lib.ping pool ctx s').1
        (ground (arith, laws.connected ctx c s s' pool h, laws.pinged pool ctx s')) s refl

  -- NewPool leaves no pool open when it fails, whichever of its steps failed, and exactly one, the one
  -- it returns, when it succeeds.
  pub new_pool-LeavesOpen :
      (ctx : Context) (cfg : DatabaseConfig) (s : S) → LeavesOpen opened s (new_pool lib ctx cfg s)
  unfolding new_pool
  new_pool-LeavesOpen ctx cfg s = elim (Result-cases (lib.parse_config cfg.url)) [
    | inr (e, failed) ↦ rw failed refl
    | inl (c, parsed) ↦ rw parsed (connected-LeavesOpen ctx (sized lib cfg c) s _ refl)
  ]
