-- ===== src/Publish/Safe.antt =====
-- A program that keeps the store right, whatever others do to it between the program's calls.
pub mod Chains
pub mod Reads
pub mod Known
pub mod Pointers
pub mod Puts
use go_binsync.Prelude.{
  ℕ, ◌^◌, ◌<◌, ◌≡◌, ◌≢◌, refl, Bool, true, false, List, Option, none, some, if◌then◌else◌,
}
use go_binsync.Release.Hash.{Hash}
use go_binsync.Publish.Program.{
  Prog, pure, fail, get, put, read_cache, write_cache, now, Answer, PutAnswer, done, lost_race,
  put_broken, ◌>>=◌,
}
use go_binsync.Publish.Store.{
  Object, Store, write, Allowed, IsAnswer, IsVersion, Setting, Call, got, written, refused,
  cache_read, cache_written, clock,
}
use go_binsync.Publish.Right.{IsRight, Keeps}
use go_binsync.Publish.Right.Writes.{Keeps-refl, Keeps-trans, IsFine, IsFine-refl}

module _ (w : Setting) where
  abbrev pub version : List ℕ → List ℕ → Object
  version body tag = record { body = body; etag = tag }

  -- From the store `s` on, every Put of the program keeps a right store right, and where it ends, `Q`
  -- holds of its result and the store.
  abbrev pub Safe : {A : Type 0} → (A → Store → Type 0) → Store → Prog A → Type 0
  Safe Q s (pure a) = Q a s
  Safe Q s (fail e) = Unit
  Safe Q s (get key range k) =
      (t : Store)
      → Keeps w s t
      → IsRight w t
      → (a : Answer) → IsAnswer t key range a
      → Safe Q t (k a)
  Safe Q s (put key body im k) =
      (t : Store)
      → Keeps w s t
      → IsRight w t
      → ((tag : List ℕ)
          → Allowed im (t key)
          → IsVersion w.version_of (version body tag)
          → IsFine w t (write t key (version body tag))
            × Safe Q (write t key (version body tag)) (k done))
        × ((a : PutAnswer) → a ≢ done → Safe Q t (k a))
  Safe Q s (read_cache h k) =
      (t : Store) → Keeps w s t → IsRight w t → (b : Option (List ℕ)) → Safe Q t (k b)
  Safe Q s (write_cache h b k) = (t : Store) → Keeps w s t → IsRight w t → Safe Q t k
  Safe Q s (now k) = (t : Store) → Keeps w s t → IsRight w t → (c : ℕ) → c < 2 ^ 64 → Safe Q t (k c)

  pub Safe-bind :
      {A B : Type 0} (Q : A → Store → Type 0) (R : B → Store → Type 0) (s : Store) (m : Prog A)
      → (f : A → Prog B) → Safe Q s m
      → ((a : A) (t : Store) → Keeps w s t → Q a t → Safe R t (f a))
      → Safe R s (m >>= f)
  Safe-bind Q R s (pure a) f h k = k a s (Keeps-refl w s) h
  Safe-bind Q R s (fail e) f h k = tt
  Safe-bind Q R s (get key range c) f h k = λ t st right a ans.
      Safe-bind Q R t (c a) f (h t st right a ans) (λ b u tu. k b u (Keeps-trans w s t u st tu))
  Safe-bind Q R s (put key body im c) f h k = λ t st right.
      let (all, other) = h t st right in
      (
        λ tag allowed v.
            let (fine, rest) = all tag allowed v in
            (
              fine,
              Safe-bind Q R (write t key (version body tag)) (c done) f rest (λ b u tu. k b u (
                  Keeps-trans w s t u st
                    (Keeps-trans w t (write t key (version body tag)) u fine.kept tu))),
            ),
        λ a ne. Safe-bind Q R t (c a) f (other a ne) (λ b u tu. k b u (Keeps-trans w s t u st tu)),
      )
  Safe-bind Q R s (read_cache x c) f h k = λ t st right b.
      Safe-bind Q R t (c b) f (h t st right b) (λ b u tu. k b u (Keeps-trans w s t u st tu))
  Safe-bind Q R s (write_cache x y c) f h k =
      λ t st right. Safe-bind Q R t c f (h t st right) (λ b u tu. k b u (Keeps-trans w s t u st tu))
  Safe-bind Q R s (now c) f h k = λ t st right x lt.
      Safe-bind Q R t (c x) f (h t st right x lt) (λ b u tu. k b u (Keeps-trans w s t u st tu))

  -- Nothing is said of the result.
  abbrev pub Any : {A : Type 0} → A → Store → Type 0
  Any a s = Unit

  -- What others do in the meantime does not matter.
  pub Safe-Keeps :
      {A : Type 0} (s t : Store) (m : Prog A) → Keeps w s t → Safe Any s m → Safe Any t m
  Safe-Keeps s t (pure a) k h = tt
  Safe-Keeps s t (fail e) k h = tt
  Safe-Keeps s t (get key range c) k h = λ u tu. h u (Keeps-trans w s t u k tu)
  Safe-Keeps s t (put key body im c) k h = λ u tu. h u (Keeps-trans w s t u k tu)
  Safe-Keeps s t (read_cache x c) k h = λ u tu. h u (Keeps-trans w s t u k tu)
  Safe-Keeps s t (write_cache x y c) k h = λ u tu. h u (Keeps-trans w s t u k tu)
  Safe-Keeps s t (now c) k h = λ u tu. h u (Keeps-trans w s t u k tu)

  pub Safe-if :
      {A : Type 0} (Q : A → Store → Type 0) (s : Store) (b : Bool) (x y : Prog A)
      → (b ≡ true → Safe Q s x)
      → (b ≡ false → Safe Q s y)
      → Safe Q s (if b then x else y)
  Safe-if Q s true x y h k = h refl
  Safe-if Q s false x y h k = k refl

  -- One call of a safe program.
  pub Call-Safe :
      {A : Type 0} (s t : Store) (m n : Prog A)
      → Call w.version_of s m t n
      → IsRight w s
      → Safe Any s m
      → IsFine w s t × Safe Any t n
  Call-Safe s t m n (got a ans) right h = (IsFine-refl w s right, h s (Keeps-refl w s) right a ans)
  Call-Safe s t m n (written tag done allowed v) right h =
      (h s (Keeps-refl w s) right).0 tag allowed v
  Call-Safe s t m n (written {key} {body} {k} tag lost_race allowed v) right h =
      let (all, other) = h s (Keeps-refl w s) right in
      let fine = (all tag allowed v).0 in
      (fine, Safe-Keeps s t (k lost_race) fine.kept (other lost_race (λ e. cc)))
  Call-Safe s t m n (written {key} {body} {k} tag put_broken allowed v) right h =
      let (all, other) = h s (Keeps-refl w s) right in
      let fine = (all tag allowed v).0 in
      (fine, Safe-Keeps s t (k put_broken) fine.kept (other put_broken (λ e. cc)))
  Call-Safe s t m n (refused a ne) right h =
      (IsFine-refl w s right, (h s (Keeps-refl w s) right).1 a ne)
  Call-Safe s t m n (cache_read b) right h = (IsFine-refl w s right, h s (Keeps-refl w s) right b)
  Call-Safe s t m n cache_written right h = (IsFine-refl w s right, h s (Keeps-refl w s) right)
  Call-Safe s t m n (clock x lt) right h = (IsFine-refl w s right, h s (Keeps-refl w s) right x lt)
