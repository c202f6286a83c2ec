-- ===== src/Tests/Publish/Site.antt =====
-- Two releases, a hash that tells them apart, and libraries that are small functions.
use go_binsync.Prelude.{
  ℕ, ◌^◌, ◌<◌, ◌≡◌, ◌≢◌, inl, inr, refl, sym, ap, ◌∙◌, Bool, true, false, Bool-cases, List, [], ◌∷◌,
  ◌++◌, none, some, err, length, drop, replicate, get_or, if◌then◌else◌, arith,
}
use mathlib.Core.Path.{subst}
use go_binsync.Cz.{Codecs}
use go_binsync.Release.Hash.{Hash, bytes_eq, is_zero}
use go_binsync.Release.Hash.RoundTrip.{bytes_eq_iff}
use go_binsync.Release.Pointer.{patch_key, blob_key}
use go_binsync.Delta.Errors.{unsupported}
use go_binsync.Delta.Codec.{Calls}
use go_binsync.Agent.Fetch.Chain.{IsFile}
use go_binsync.Publish.Program.{Site}
use go_binsync.Publish.Store.{Setting}
use go_binsync.Publish.Right.{IsSetting}
use go_binsync.Publish.Update.{IsPlainSetting}
use go_binsync.Tests.Publish.Json.{marshal, unmarshal, unmarshal-marshal, unmarshal-seq}

abbrev codecs : Codecs
codecs = record {
  zstd_encode = λ b. 200 ∷ b;
  zstd_decode = λ b. some (drop 1 b);
  brotli_encode = λ q b. none;
  brotli_decode = λ b. none;
}

-- The old release is `false`.
abbrev pub file : Bool → List ℕ
file false = replicate 150 1
file true = replicate 150 1 ++ (2 ∷ [])

abbrev pub name : Bool → Hash
name false = replicate 32 1
name true = replicate 32 2

abbrev pub toy_hash : List ℕ → Hash
toy_hash b =
    if bytes_eq b (file false)
    then name false
    else if bytes_eq b (file true)
    then name true
    else replicate 32 9

abbrev pub calls : Calls
calls = record {
  codecs = codecs;
  hash_of = toy_hash;
  encode_go = λ old new o. err unsupported;
  apply_go = λ old body h. err unsupported;
}

abbrev pub site : Site
site = record { calls = calls; marshal = marshal; unmarshal = unmarshal }

abbrev pub IsRelease : Hash → Type 0
IsRelease h = (i : Bool) × (h ≡ name i)

abbrev pub content_of : Hash → List ℕ
content_of h = if bytes_eq h (name false) then file false else file true

-- The ETag of an object is its body.
abbrev pub setting : Setting
setting = record { site = site; version_of = λ t. t; Release = IsRelease; content = content_of }

toy_hash-digest : (b : List ℕ) → length (toy_hash b) ≡ 32
toy_hash-digest b = elim (Bool-cases (bytes_eq b (file false))) [
  | inl same ↦ rw same refl
  | inr other ↦ rw other (last (bytes_eq b (file true)))
]
  where
    last : (x : Bool) → length (if x then name true else replicate 32 9) ≡ 32
    last true = refl
    last false = refl

-- The elements that tell the names and the keys apart.
lead_byte : List ℕ → ℕ
lead_byte b = get_or b 0 0

number : Bool → ℕ
number false = 1
number true = 2

name-injective : (i j : Bool) → name i ≡ name j → i ≡ j
unfolding lead_byte
name-injective false false h = refl
name-injective true true h = refl
name-injective false true h = absurd (omega (arith, ap lead_byte h))
name-injective true false h = absurd (omega (arith, ap lead_byte h))

toy_hash-name : (i : Bool) (b : List ℕ) → toy_hash b ≡ name i → b ≡ file i
toy_hash-name i b h = elim (Bool-cases (bytes_eq b (file false))) [
  | inl same ↦
      (bytes_eq_iff b (file false)).0 same ∙ ap file (name-injective false i (rw same at h))
  | inr other ↦ elim (Bool-cases (bytes_eq b (file true))) [
    | inl same ↦
        (bytes_eq_iff b (file true)).0 same
        ∙ ap file (name-injective true i (rw (other, same) at h))
    | inr unknown ↦ absurd (no_name i (rw (other, unknown) at h))
  ]
]
  where
    no_name : (j : Bool) → replicate 32 9 ≢ name j
    no_name false e = absurd (omega (arith, ap (λ b. get_or b 0 0) e))
    no_name true e = absurd (omega (arith, ap (λ b. get_or b 0 0) e))

content_of-name : (i : Bool) → content_of (name i) ≡ file i
unfolding bytes_eq
content_of-name false = refl
content_of-name true = refl

digit : Bool → ℕ
digit false = b'1'
digit true = b'2'

digit-injective : (i j : Bool) → digit i ≡ digit j → i ≡ j
unfolding digit
digit-injective false false h = refl
digit-injective true true h = refl
digit-injective false true h = absurd (omega (arith, h))
digit-injective true false h = absurd (omega (arith, h))

source_digit : (i j : Bool) → get_or (patch_key (name i) (name j)) 9 0 ≡ digit i
unfolding digit patch_key bytes_eq
source_digit false false = refl
source_digit false true = refl
source_digit true false = refl
source_digit true true = refl

target_digit : (i j : Bool) → get_or (patch_key (name i) (name j)) 18 0 ≡ digit j
unfolding digit patch_key bytes_eq
target_digit false false = refl
target_digit false true = refl
target_digit true false = refl
target_digit true true = refl

blob_digit : (i : Bool) → get_or (blob_key (name i)) 7 0 ≡ digit i
unfolding digit blob_key bytes_eq
blob_digit false = refl
blob_digit true = refl

name-not_zero : (i : Bool) → is_zero (name i) ≡ false
unfolding is_zero bytes_eq
name-not_zero false = refl
name-not_zero true = refl

pub setting-IsSetting : IsSetting setting
setting-IsSetting = record {
  unique = λ h b (i, e) same.
      toy_hash-name i b (same ∙ e) ∙ sym (content_of-name i) ∙ ap content_of (sym e);
  not_zero = λ h (i, e). ap is_zero e ∙ name-not_zero i;
  small = λ h (i, e). subst (λ (x : Hash). length (content_of x) < 2 ^ 62) (sym e) (short_file i);
  patches_apart = λ a b c d (i, ea) (j, eb) (k, ec) (l, ed) same.
      let keys : patch_key (name i) (name j) ≡ patch_key (name k) (name l) =
        rw (← ea, ← eb, ← ec, ← ed) same in
      (
        ea
            ∙ ap name (
                digit-injective i k
                  (sym (source_digit i j) ∙ ap (λ x. get_or x 9 0) keys ∙ source_digit k l))
            ∙ sym ec,
        eb
            ∙ ap name (
                digit-injective j l
                  (sym (target_digit i j) ∙ ap (λ x. get_or x 18 0) keys ∙ target_digit k l))
            ∙ sym ed,
      );
  blobs_apart = λ a b (i, ea) (j, eb) same.
      let keys : blob_key (name i) ≡ blob_key (name j) = rw (← ea, ← eb) same in
      ea
      ∙ ap name
          (digit-injective i j (sym (blob_digit i) ∙ ap (λ x. get_or x 7 0) keys ∙ blob_digit j))
      ∙ sym eb;
  json_int = unmarshal-seq;
  json_back = unmarshal-marshal;
}
  where
    short_file : (i : Bool) → length (content_of (name i)) < 2 ^ 62
    short_file false =
        subst (λ (x : List ℕ). length x < 2 ^ 62) (sym (content_of-name false)) (omega arith)
    short_file true =
        subst (λ (x : List ℕ). length x < 2 ^ 62) (sym (content_of-name true)) (omega arith)

file-IsFile : (i : Bool) → IsFile (file i)
file-IsFile false = record { bytes = omega arith; size = omega arith }
file-IsFile true = record { bytes = omega arith; size = omega arith }

pub setting-IsPlainSetting : IsPlainSetting setting
setting-IsPlainSetting = record {
  right = record {
    lossless = record { zstd_back = λ b. refl; brotli_back = λ q b z e. cc };
    digests = toy_hash-digest;
  };
  file = λ h (i, e). subst IsFile (sym (content_of-name i) ∙ ap content_of (sym e)) (file-IsFile i);
  declines = λ old new. refl;
}
