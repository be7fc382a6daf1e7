-- ===== src/Coordinator/Conditions.antt =====
-- What the coordinator relies on of the state machine library: a condition is a counter.
use wtf.Prelude.{
  ℕ, zero, suc, ◌+◌, ◌-◌, ◌<◌, ◌≤◌, ◌≡◌, some, arith, ◌==◌, if◌then◌else◌, max, dec_lt, word,
  add64_exact,
}
use wtf.Coordinator.{
  Condition, config, ack, stable, checkp, checkps, checkpgc, Env, broadcast_until, broadcast_as,
}

abbrev pub code : Condition → ℕ
code config = 0
code ack = 1
code stable = 2
code checkp = 3
code checkps = 4
code checkpgc = 5

-- A condition is known by its number. A broadcast succeeds, adds one to the condition, gives the new
-- value, and leaves the other conditions alone; alarms and suspicions leave all of them alone.
pub record Counts {Ctx : Type 0} (env : Env Ctx) (value : ℕ → Ctx → ℕ) : Type 0 where
  pub given : (c : Condition) (x : Ctx) → (env.broadcast c x).0 ≡ some (suc (value (code c) x))
  pub counted :
      (c : Condition) (d : ℕ) (x : Ctx)
      → value d (env.broadcast c x).1 ≡ (if code c == d then suc (value d x) else value d x)
  pub quiet_alarm : (d : ℕ) (x : Ctx) → value d (env.alarm x) ≡ value d x
  pub quiet_suspect : (d sid : ℕ) (x : Ctx) → value d (env.suspect sid x) ≡ value d x

module _ {Ctx : Type 0} (env : Env Ctx) (value : ℕ → Ctx → ℕ) (law : Counts env value) where
  -- The loop ends with the condition at the target (less the slack), if it was not there before.
  pub broadcast_until_lem :
      (c : Condition) (slack fuel through target : ℕ) (x : Ctx)
      → value (code c) x ≡ through
      → target ≤ through + fuel
      → through + slack < word
      → target + slack < word
      → (y : Ctx) × (broadcast_until env c slack fuel through target x
          ≡ some (max through (target - slack), y))
        × ((d : ℕ) → value d y ≡ (if code c == d then max through (target - slack) else value d x))
  unfolding broadcast_until
  broadcast_until_lem c slack zero through target x v f w g =
      (x, ground (arith, add64_exact through slack), λ d. ground arith)
  broadcast_until_lem c slack (suc fuel) through target x v f w g =
      elim (dec_lt (through + slack) target) [
        | yes more ↦
            let next = suc (value (code c) x) in
            let (y, e, k) =
              broadcast_until_lem c slack fuel next target (env.broadcast c x).1
                (ground (arith, law.counted c (code c) x)) (omega arith) (omega arith) g in
            (
              y,
              ground (arith, add64_exact through slack, law.given c x, e),
              λ d. ground (arith, k d, law.counted c d x),
            )
        | no done ↦ (x, ground (arith, add64_exact through slack), λ d. ground arith)
      ]

  pub broadcast_as_lem :
      (c : Condition) (n : ℕ) (x : Ctx)
      → suc (value (code c) x) ≡ n
      → broadcast_as env c n x ≡ some (env.broadcast c x).1
  unfolding broadcast_as
  broadcast_as_lem c n x e = ground (arith, law.given c x)
