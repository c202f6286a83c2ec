-- ===== src/Publish/Right/Writes.antt =====
-- The writes that keep a right store right, and what they leave as it was.
use go_binsync.Prelude.{
  ℕ, ◌≡◌, ◌≢◌, refl, sym, ap, ◌∙◌, ◌⊎◌, inl, inr, Bool-cases, List, [], ◌∷◌, some, ok, All_mono,
  arith,
}
use mathlib.Core.Path.{subst}
use go_binsync.Release.Hash.{Hash, bytes_eq}
use go_binsync.Release.Hash.RoundTrip.{bytes_eq_iff}
use go_binsync.Release.Pointer.{Edge, patch_key, blob_key}
use go_binsync.Publish.{pointer_key}
use go_binsync.Publish.Store.{Object, Store, write, Setting}
use go_binsync.Publish.Right.{
  IsSetting, patch_of, blob_of, IsGood, IsPointer, IsRight, Keeps, Moves,
}

-- Reading behind a write.
pub write_self : (s : Store) (key : List ℕ) (o : Object) → write s key o key ≡ some o
unfolding write
write_self s key o = rw ((bytes_eq_iff key key).1 refl) refl

pub write_ne : (s : Store) (key k : List ℕ) (o : Object) → k ≢ key → write s key o k ≡ s k
unfolding write
write_ne s key k o h = elim (Bool-cases (bytes_eq k key)) [
  | inl same ↦ absurd (h ((bytes_eq_iff k key).0 same))
  | inr differs ↦ rw differs refl
]

pub write-cases :
    (s : Store) (key k : List ℕ) (o o' : Object)
    → write s key o k ≡ some o'
    → ((k ≡ key) × (o' ≡ o)) ⊎ ((k ≢ key) × (s k ≡ some o'))
unfolding write
write-cases s key k o o' h = elim (Bool-cases (bytes_eq k key)) [
  | inl same ↦ inl ((bytes_eq_iff k key).0 same, cc (rw same at h))
  | inr differs ↦ inr (λ e. cc ((bytes_eq_iff k key).1 e), rw differs at h)
]

pub some-injective {ℓ} : {A : Type ℓ} {a b : A} → some a ≡ some b → a ≡ b
some-injective h = cc

pub first_byte : List ℕ → ℕ
first_byte [] = 0
first_byte (x ∷ xs) = x

pub patch_key-ne-pointer_key : (a b : Hash) → patch_key a b ≢ pointer_key
unfolding patch_key first_byte
patch_key-ne-pointer_key a b h = absurd (omega (arith, ap first_byte h))

pub blob_key-ne-pointer_key : (a : Hash) → blob_key a ≢ pointer_key
unfolding blob_key first_byte
blob_key-ne-pointer_key a h = absurd (omega (arith, ap first_byte h))

pub patch_key-ne-blob_key : (a b c : Hash) → patch_key a b ≢ blob_key c
unfolding patch_key blob_key first_byte
patch_key-ne-blob_key a b c h = absurd (omega (arith, ap first_byte h))

module _ (w : Setting) where
  pub Keeps-refl : (s : Store) → Keeps w s s
  Keeps-refl s = record { keeps = λ key o ne h. (o, h, refl) }

  pub Keeps-trans : (s t u : Store) → Keeps w s t → Keeps w t u → Keeps w s u
  Keeps-trans s t u a b = record {
    keeps = λ key o ne h.
        let (o1, h1, e1) = a.keeps key o ne h in
        let (o2, h2, e2) = b.keeps key o1 ne h1 in (o2, h2, e2 ∙ e1);
  }

  pub Keeps-IsGood : (s t : Store) → Keeps w s t → (e : Edge) → IsGood w s e → IsGood w t e
  Keeps-IsGood s t k e g =
      let (o, h, same) =
        k.keeps e.key g.at_key (λ x. patch_key-ne-pointer_key e.source e.target (sym g.key ∙ x))
          g.stored in
      record {
        from = g.from;
        to = g.to;
        key = g.key;
        patch = g.patch;
        made = g.made;
        size = g.size;
        digest = g.digest;
        at_key = o;
        stored = h;
        holds = same ∙ g.holds;
      }

  -- The pointer of a right store, in a later store that has the same one.
  Keeps-IsPointer : (s t : Store) (o : Object) → Keeps w s t → IsPointer w s o → IsPointer w t o
  Keeps-IsPointer s t o k x = record {
    version = x.version;
    p = x.p;
    parsed = x.parsed;
    head = x.head;
    chain = All_mono (Keeps-IsGood s t k) x.p.chain x.chain;
  }

  -- What a Put may do to a right store.
  pub record IsFine (s t : Store) : Type 0 where
    pub right : IsRight w t
    pub kept : Keeps w s t
    pub moves : Moves w s t

  pub IsFine-refl : (s : Store) → IsRight w s → IsFine s s
  unfolding Moves
  IsFine-refl s right = record {
    right = right;
    kept = Keeps-refl s;
    moves = λ o p at_pointer parsed. (o, p, at_pointer, parsed, inl refl);
  }

  module _ (ok_w : IsSetting w) (s : Store) (right : IsRight w s) where
    -- An object that is not the pointer, where the store may hold it already.
    Keeps-write :
        (key : List ℕ) (o : Object)
        → ((o' : Object) → s key ≡ some o' → o.body ≡ o'.body)
        → Keeps w s (write s key o)
    Keeps-write key o same = record {
      keeps = λ k o' ne h. elim (Bool-cases (bytes_eq k key)) [
        | inl eq ↦
            let e : k ≡ key = (bytes_eq_iff k key).0 eq in
            (
              o,
              subst (λ (x : List ℕ). write s key o x ≡ some o) (sym e) (write_self s key o),
              same o' (ap s (sym e) ∙ h),
            )
        | inr differs ↦ (o', write_ne s key k o (λ e. cc ((bytes_eq_iff k key).1 e)) ∙ h, refl)
      ];
    }

    Moves-write : (key : List ℕ) (o : Object) → key ≢ pointer_key → Moves w s (write s key o)
    unfolding Moves
    Moves-write key o ne a p at_pointer parsed =
        (a, p, write_ne s key pointer_key o (λ e. ne (sym e)) ∙ at_pointer, parsed, inl refl)

    pointer-write :
        (key : List ℕ) (o : Object)
        → key ≢ pointer_key
        → Keeps w s (write s key o)
        → (a : Object) → write s key o pointer_key ≡ some a
        → IsPointer w (write s key o) a
    pointer-write key o ne k a h =
        Keeps-IsPointer s (write s key o) a k
          (right.pointer a (sym (write_ne s key pointer_key o (λ e. ne (sym e))) ∙ h))

    -- The patch between two releases, under its key.
    pub write_patch-IsFine :
        (a b : Hash) (o : Object)
        → w.Release a
        → w.Release b
        → patch_of w a b ≡ ok o.body
        → IsFine s (write s (patch_key a b) o)
    write_patch-IsFine a b o is_a is_b made =
        let ne = patch_key-ne-pointer_key a b in
        let k =
          Keeps-write (patch_key a b) o (λ o' h. cc (made, right.patches a b o' is_a is_b h)) in
        record {
          kept = k;
          moves = Moves-write (patch_key a b) o ne;
          right = record {
            pointer = pointer-write (patch_key a b) o ne k;
            patches = λ c d o' is_c is_d h.
                elim (write-cases s (patch_key a b) (patch_key c d) o o' h) [
                  | inl (same, e) ↦
                      let (ca, db) = ok_w.patches_apart c d a b is_c is_d is_a is_b same in
                      ap (λ x. patch_of w x d) ca
                      ∙ ap (patch_of w a) db
                      ∙ made
                      ∙ ap (λ (x : Object). ok x.body) (sym e)
                  | inr (differs, old) ↦ right.patches c d o' is_c is_d old
                ];
            blobs = λ c o' is_c h. right.blobs c o' is_c (
                sym (
                  write_ne s (patch_key a b) (blob_key c) o
                    (λ e. patch_key-ne-blob_key a b c (sym e)))
                ∙ h);
          };
        }

    pub write_blob-IsFine :
        (a : Hash) (o : Object)
        → w.Release a
        → o.body ≡ (blob_of w a).0
        → IsFine s (write s (blob_key a) o)
    write_blob-IsFine a o is_a made =
        let ne = blob_key-ne-pointer_key a in
        let k = Keeps-write (blob_key a) o (λ o' h. made ∙ sym (right.blobs a o' is_a h)) in
        record {
          kept = k;
          moves = Moves-write (blob_key a) o ne;
          right = record {
            pointer = pointer-write (blob_key a) o ne k;
            patches = λ c d o' is_c is_d h.
                right.patches c d o' is_c is_d (
                  sym (write_ne s (blob_key a) (patch_key c d) o (patch_key-ne-blob_key c d a))
                  ∙ h);
            blobs = λ c o' is_c h. elim (write-cases s (blob_key a) (blob_key c) o o' h) [
              | inl (same, e) ↦
                  ap (λ (x : Object). x.body) e
                  ∙ made
                  ∙ ap (λ x. (blob_of w x).0) (sym (ok_w.blobs_apart c a is_c is_a same))
              | inr (differs, old) ↦ right.blobs c o' is_c old
            ];
          };
        }

    -- A pointer that follows the one that it replaces.
    pub write_pointer-IsFine :
        (o : Object)
        → IsPointer w s o
        → Moves w s (write s pointer_key o)
        → IsFine s (write s pointer_key o)
    write_pointer-IsFine o x moves =
        let k : Keeps w s (write s pointer_key o) = record {
          keeps = λ key o' ne h. (o', write_ne s pointer_key key o ne ∙ h, refl);
        } in
        record {
          kept = k;
          moves = moves;
          right = record {
            pointer = λ a h.
                subst (IsPointer w (write s pointer_key o))
                  (some-injective (sym (write_self s pointer_key o) ∙ h))
                  (Keeps-IsPointer s (write s pointer_key o) o k x);
            patches = λ c d o' is_c is_d h.
                right.patches c d o' is_c is_d (
                  sym (write_ne s pointer_key (patch_key c d) o (patch_key-ne-pointer_key c d))
                  ∙ h);
            blobs = λ c o' is_c h.
                right.blobs c o' is_c
                  (sym (write_ne s pointer_key (blob_key c) o (blob_key-ne-pointer_key c)) ∙ h);
          };
        }
