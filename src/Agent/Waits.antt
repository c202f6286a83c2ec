-- ===== src/Agent/Waits.antt =====
-- The schedule of the update loop.
use go_binsync.Prelude.{
  ℕ, zero, suc, ◌*◌, ◌^◌, ◌≤◌, ◌≡◌, refl, ap, ◌∙◌, inl, inr, Bool-cases, min, ltb, All, length,
  List, [], ◌∷◌, arith,
}
use go_binsync.Agent.{Agent, World, cycle, double_loop, wait_for, max_poll, fails_after, run}
use go_binsync.Agent.Always.{Always, Always-pure, Always-bind}
use go_binsync.Agent.Loop.{Forward, Forward-refl, Forward-trans, IsCycle, cycle-IsCycle}

power_pos : (n : ℕ) → 1 ≤ 2 ^ n
power_pos zero = omega arith
power_pos (suc n) = omega (arith, power_pos n)

product_le : (a b : ℕ) → 1 ≤ b → a ≤ a * b
product_le a zero h = absurd (omega arith)
product_le a (suc b) h = omega arith

-- The wait behind `fails` failed cycles in a row is the
-- interval doubled as often, and maxPoll at most.
pub wait_for-power :
    (poll max_wait fails : ℕ) → wait_for poll max_wait fails ≡ min (poll * 2 ^ fails) max_wait
unfolding wait_for double_loop
wait_for-power poll max_wait zero = omega arith
wait_for-power poll max_wait (suc n) = elim (Bool-cases (ltb poll max_wait)) [
  | inl below ↦
      rw below (wait_for-power (poll * 2) max_wait n ∙ ap (λ (k : ℕ). min k max_wait) (grind arith))
  | inr above ↦ rw above (ground (arith, above, product_le poll (2 ^ suc n) (power_pos (suc n))))
]

-- Neither shorter than the interval, but for maxPoll, nor longer than maxPoll.
abbrev pub IsWait : ℕ → ℕ → Type 0
IsWait poll k = (min poll max_poll ≤ k) × (k ≤ max_poll)

wait_for-IsWait : (poll fails : ℕ) → IsWait poll (wait_for poll max_poll fails)
wait_for-IsWait poll fails =
    let e = wait_for-power poll max_poll fails in
    let p = product_le poll (2 ^ fails) (power_pos fails) in (omega (arith, e, p), omega (arith, e))

-- Behind `n` cycles.
pub record IsRun (poll : ℕ) (n : ℕ) (a : Agent) (x : List ℕ × Agent) : Type 0 where
  pub forward : Forward a x.1
  pub slept : length x.0 ≡ n
  pub paced : All (IsWait poll) x.0

-- Where build returns in every cycle (a panic of it would end the process), and whatever else its
-- cycles meet: run goes through all of them, sleeps behind each of them for the interval at least and
-- maxPoll at most, an interval above maxPoll counting as maxPoll, and the sequence number that it
-- remembers never falls.
pub run-IsRun :
    (poll : ℕ) (ws : List World) (fails : ℕ) (a : Agent)
    → Always (IsRun poll (length ws) a) (run poll ws fails a)
unfolding run
run-IsRun poll [] fails a =
    Always-pure (IsRun poll 0 a) ([], a)
      (record { forward = Forward-refl a; slept = refl; paced = tt })
run-IsRun poll (w ∷ ws) fails a =
    Always-bind (IsCycle a) (IsRun poll (suc (length ws)) a) (cycle w a) _ (cycle-IsCycle w a)
      (λ (o, b) c.
        Always-bind (IsRun poll (length ws) b) (IsRun poll (suc (length ws)) a)
          (run poll ws (fails_after fails o) b) _ (run-IsRun poll ws (fails_after fails o) b)
          (λ (waits, d) h.
            Always-pure (IsRun poll (suc (length ws)) a)
              (wait_for poll max_poll (fails_after fails o) ∷ waits, d)
              (record {
                forward = Forward-trans a b d c.forward h.forward;
                slept = ap suc h.slept;
                paced = (wait_for-IsWait poll (fails_after fails o), h.paced);
              })))
