-- ===== src/Agent/Always.antt =====
-- Actions that always come back with a value, never with an error.
use go_binsync.Prelude.{Bool, true, false, if◌then◌else◌}
use go_binsync.Release.Disk.{
  Run, Reply, done, failed, Io, pure, ◌>>=◌, continue, handle, catch, ignore,
}
use go_binsync.Agent.{attempt}

-- An action that comes back with a value, for which `P` holds.
abbrev pub Gives : {A : Type 0} → (A → Type 0) → Reply A → Type 0
Gives P (done a) = P a
Gives P (failed e) = ⊥

pub record Always {A : Type 0} (P : A → Type 0) (m : Io A) : Type 0 where
  pub run : (r : Run) → Gives P (m r).0

pub Always-pure : {A : Type 0} (P : A → Type 0) (a : A) → P a → Always P (pure a)
Always-pure P a h = record { run = λ r. h }

pub Always-bind :
    {A B : Type 0} (P : A → Type 0) (Q : B → Type 0) (m : Io A) (k : A → Io B)
    → Always P m
    → ((a : A) → P a → Always Q (k a))
    → Always Q (m >>= k)
unfolding ◌>>=◌
Always-bind P Q m k h f = record { run = λ r. go (m r) (h.run r) }
  where
    go : (x : Reply _ × Run) → Gives P x.0 → Gives Q (continue x.0 k x.1).0
    go (done a, r) p = (f a p).run r
    go (failed e, r) p = absurd p

pub Always-attempt : (m : Io (Unit {0})) → Always (λ _. Unit) (attempt m)
unfolding attempt catch ◌>>=◌
Always-attempt m = record { run = λ r. go (m r) }
  where
    go :
        (x : Reply (Unit {0}) × Run)
        → Gives
            (λ _. Unit)
            (handle
              (continue x.0 (λ _. pure true) x.1).0
              (λ e. pure false)
              (continue x.0 (λ _. pure true) x.1).1).0
    go (done a, r) = tt
    go (failed e, r) = tt

pub Always-ignore : (m : Io (Unit {0})) → Always (λ _. Unit) (ignore m)
unfolding ignore catch
Always-ignore m = record { run = λ r. go (m r) }
  where
    go : (x : Reply (Unit {0}) × Run) → Gives (λ _. Unit) (handle x.0 (λ _. pure tt) x.1).0
    go (done a, r) = tt
    go (failed e, r) = tt

pub Always-weaken :
    {A : Type 0} (P Q : A → Type 0) (m : Io A) → ((a : A) → P a → Q a) → Always P m → Always Q m
Always-weaken P Q m f h = record { run = λ r. go (m r).0 (h.run r) }
  where
    go : (x : Reply _) → Gives P x → Gives Q x
    go (done a) p = f a p
    go (failed e) p = p

pub Always-if :
    {A : Type 0} (P : A → Type 0) (b : Bool) (m n : Io A)
    → Always P m
    → Always P n
    → Always P (if b then m else n)
Always-if P true m n h k = h
Always-if P false m n h k = k

pub Always-recover : {A : Type 0} (m : Io A) (a : A) → Always (λ _. Unit) (catch m (λ e. pure a))
unfolding catch
Always-recover m a = record { run = λ r. go (m r) }
  where
    go : (x : Reply _ × Run) → Gives (λ _. Unit) (handle x.0 (λ e. pure a) x.1).0
    go (done b, r) = tt
    go (failed e, r) = tt
