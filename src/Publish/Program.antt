-- ===== src/Publish/Program.antt =====
-- What a publisher does with its surroundings: the calls of a store (store/store.go), the release
-- cache and the clock. An ETag is a text, and `get` names the range that it wants, if any.
use go_binsync.Prelude.{ℕ, List, Option}
use go_binsync.Release.Hash.{Hash}
use go_binsync.Release.Pointer.{Pointer}
use go_binsync.Delta.Codec.{Calls}

pub data Answer : Type 0 where
  found : List ℕ → List ℕ → Answer
  missing broken : Answer

-- `lost_race` is ErrPreconditionFailed.
pub data PutAnswer : Type 0 where
  done lost_race put_broken : PutAnswer

pub data PublishError : Type 0 where
  store_error bad_pointer bad_patch crashed : PublishError

pub data Prog (A : Type 0) : Type 0 where
  pure : A → Prog A
  fail : PublishError → Prog A
  get : List ℕ → Option (ℕ × ℕ) → (Answer → Prog A) → Prog A
  put : List ℕ → List ℕ → Option (List ℕ) → (PutAnswer → Prog A) → Prog A
  -- What the file of that name holds.
  read_cache : Hash → (Option (List ℕ) → Prog A) → Prog A
  write_cache : Hash → List ℕ → Prog A → Prog A
  now : (ℕ → Prog A) → Prog A

infixl 5 ◌>>=◌ ◌>>◌
abbrev pub ◌>>=◌ : {A B : Type 0} → Prog A → (A → Prog B) → Prog B
pure a >>= f = f a
fail e >>= f = fail e
get key range k >>= f = get key range (λ a. k a >>= f)
put key body im k >>= f = put key body im (λ a. k a >>= f)
read_cache h k >>= f = read_cache h (λ b. k b >>= f)
write_cache h b k >>= f = write_cache h b (k >>= f)
now k >>= f = now (λ t. k t >>= f)

abbrev pub ◌>>◌ : {A B : Type 0} → Prog A → Prog B → Prog B
m >> k = m >>= λ _. k

-- What every publisher calls: the codec with its libraries, and encoding/json.
pub record Site : Type 0 where
  pub calls : Calls
  pub marshal : Pointer → List ℕ
  pub unmarshal : List ℕ → Option Pointer
