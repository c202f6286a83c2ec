-- ===== src/Release/Disk/Triples.antt =====
-- Hoare triples for runs that may fail and crash: where a run starts from a disk with `Pre`, every
-- disk that it passes through has `Inv`, and it ends with `Post` or with an error and `Fail`.
use go_binsync.Prelude.{ℕ, List, [], ◌∷◌, Option, none, some, All}
use go_binsync.Release.Disk.{
  Disk, IoError, call_failed, Reply, done, failed, Run, Io, pure, raise, continue, ◌>>=◌, ◌>>◌,
  handle, catch, ignore, outcome, sys, quiet,
}

abbrev pub Ends :
    {A : Type 0} → (A → Disk → Type 0) → (IoError → Disk → Type 0) → Reply A → Disk → Type 0
Ends Post Fail (done a) d = Post a d
Ends Post Fail (failed e) d = Fail e d

pub record Triple {A : Type 0} (Pre Inv : Disk → Type 0) (m : Io A) (Post : A → Disk → Type 0)
    (Fail : IoError → Disk → Type 0) : Type 0 where
  pub run :
      (r : Run)
      → Pre r.disk
      → All Inv r.seen
      → All Inv (m r).1.seen × Ends Post Fail (m r).0 (m r).1.disk

module _ {A : Type 0} {Inv : Disk → Type 0} {Fail : IoError → Disk → Type 0} where
  pub Triple-pure :
      {Pre : Disk → Type 0} {Post : A → Disk → Type 0} (a : A)
      → ((d : Disk) → Pre d → Post a d)
      → Triple Pre Inv (pure a) Post Fail
  Triple-pure a h = record { run = λ r p s. (s, h r.disk p) }

  pub Triple-raise :
      {Pre : Disk → Type 0} {Post : A → Disk → Type 0} (e : IoError)
      → ((d : Disk) → Pre d → Fail e d)
      → Triple Pre Inv (raise e) Post Fail
  Triple-raise e h = record { run = λ r p s. (s, h r.disk p) }

  pub Triple-sys :
      {Pre : Disk → Type 0} {Post : A → Disk → Type 0} (f : Disk → Reply A × Disk)
      (g : ℕ → Disk → Disk)
      → ((d : Disk) → Pre d → Inv (f d).1 × Ends Post Fail (f d).0 (f d).1)
      → ((n : ℕ) (d : Disk) → Pre d → Inv (g n d) × Fail call_failed (g n d))
      → Triple Pre Inv (sys f g) Post Fail
  unfolding sys
  Triple-sys {Pre} {Post} f g good bad = record { run = go }
    where
      go :
          (r : Run)
          → Pre r.disk
          → All Inv r.seen
          → All Inv (sys f g r).1.seen × Ends Post Fail (sys f g r).0 (sys f g r).1.disk
      go r p s = cases r.faults
        where
          cases :
              (l : List (Option ℕ))
              → (Inv (outcome l f g r.disk).1 × All Inv r.seen)
                × Ends Post Fail (outcome l f g r.disk).0 (outcome l f g r.disk).1
          cases [] = let x = good r.disk p in ((x.0, s), x.1)
          cases (none ∷ l) = let x = good r.disk p in ((x.0, s), x.1)
          cases (some n ∷ l) = let x = bad n r.disk p in ((x.0, s), x.1)

module _ {A B : Type 0} {Pre Inv : Disk → Type 0} {Fail : IoError → Disk → Type 0} where
  pub Triple-bind :
      {Mid : A → Disk → Type 0} {Post : B → Disk → Type 0} {m : Io A} {k : A → Io B}
      → Triple Pre Inv m Mid Fail
      → ((a : A) → Triple (Mid a) Inv (k a) Post Fail)
      → Triple Pre Inv (m >>= k) Post Fail
  unfolding ◌>>=◌
  Triple-bind {Mid} {Post} {m} {k} t u = record { run = λ r p s. go (m r) (t.run r p s) }
    where
      go :
          (x : Reply A × Run)
          → All Inv x.1.seen × Ends Mid Fail x.0 x.1.disk
          → All Inv (continue x.0 k x.1).1.seen
            × Ends Post Fail (continue x.0 k x.1).0 (continue x.0 k x.1).1.disk
      go (done a, r) (s, p) = (u a).run r p s
      go (failed e, r) h = h

module _ {A : Type 0} {Pre Inv : Disk → Type 0} where
  pub Triple-catch :
      {Mid Fail : IoError → Disk → Type 0} {Post : A → Disk → Type 0} {m : Io A}
      {h : IoError → Io A}
      → Triple Pre Inv m Post Mid
      → ((e : IoError) → Triple (Mid e) Inv (h e) Post Fail)
      → Triple Pre Inv (catch m h) Post Fail
  unfolding catch
  Triple-catch {Mid} {Fail} {Post} {m} {h} t u = record { run = λ r p s. go (m r) (t.run r p s) }
    where
      go :
          (x : Reply A × Run)
          → All Inv x.1.seen × Ends Post Mid x.0 x.1.disk
          → All Inv (handle x.0 h x.1).1.seen
            × Ends Post Fail (handle x.0 h x.1).0 (handle x.0 h x.1).1.disk
      go (done a, r) p = p
      go (failed e, r) (s, p) = (u e).run r p s

  pub Triple-weaken :
      {Pre' : Disk → Type 0} {Fail Fail' : IoError → Disk → Type 0} {Post Post' : A → Disk → Type 0}
      {m : Io A}
      → ((d : Disk) → Pre' d → Pre d)
      → ((a : A) (d : Disk) → Post a d → Post' a d)
      → ((e : IoError) (d : Disk) → Fail e d → Fail' e d)
      → Triple Pre Inv m Post Fail
      → Triple Pre' Inv m Post' Fail'
  Triple-weaken {Fail} {Fail'} {Post} {Post'} {m} pre post fail t = record {
    run = λ r p s. go (m r) (t.run r (pre r.disk p) s);
  }
    where
      go :
          (x : Reply A × Run)
          → All Inv x.1.seen × Ends Post Fail x.0 x.1.disk
          → All Inv x.1.seen × Ends Post' Fail' x.0 x.1.disk
      go (done a, r) (s, p) = (s, post a r.disk p)
      go (failed e, r) (s, p) = (s, fail e r.disk p)

-- A call that leaves the names alone keeps what is known of them.
pub Triple-quiet :
    {P Inv : Disk → Type 0} → ((d : Disk) → P d → Inv d) → Triple P Inv quiet (λ _. P) (λ _. P)
unfolding quiet
Triple-quiet h = Triple-sys _ _ (λ d p. (h d p, p)) (λ n d p. (h d p, p))

-- What `m` leaves, whether it fails or not, a call that is not looked at leaves.
pub Triple-ignore :
    {P Q Inv : Disk → Type 0} {m : Io (Unit {0})} {Fail : IoError → Disk → Type 0}
    → Triple P Inv m (λ _. Q) (λ _. Q)
    → Triple P Inv (ignore m) (λ _. Q) Fail
unfolding ignore
Triple-ignore t = Triple-catch t (λ e. Triple-pure tt (λ d q. q))

-- A call with a clean-up behind its error, which is then passed on.
pub Triple-cleanup :
    {Pre Inv Mid Q : Disk → Type 0} {Post : Unit {0} → Disk → Type 0} {m undo : Io (Unit {0})}
    → Triple Pre Inv m Post (λ _. Mid)
    → Triple Mid Inv undo (λ _. Q) (λ _. Q)
    → Triple Pre Inv (catch m (λ e. ignore undo >> raise e)) Post (λ _. Q)
Triple-cleanup t u =
    Triple-catch t (λ e. Triple-bind (Triple-ignore u) (λ _. Triple-raise e (λ d q. q)))

-- What holds whether a call failed or not.
pub Ends-both :
    {A : Type 0} (P : Disk → Type 0) (x : Reply A) (d : Disk) → P d → Ends (λ _. P) (λ _. P) x d
Ends-both P (done a) d p = p
Ends-both P (failed e) d p = p
