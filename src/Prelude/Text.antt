-- ===== src/Prelude/Text.antt =====
-- The operations of `str` that the code uses, on bytes.
use mathlib.Core.List.{reverse-append, reverse-reverse, append_assoc}
use ledgerfs.Prelude.{
  ℕ, suc, ◌+◌, ◌≡◌, refl, sym, ◌∙◌, inl, inr, Bool-cases, ap, ◌≢◌, Bool, true, false, ◌&&◌, Option,
  none, some, List, [], ◌∷◌, ◌++◌, reverse, arith, ◌==◌, if◌then◌else◌, All,
}
use ledgerfs.Prelude.Bytes.{Bytes, bytes_eq, bytes_eq_iff}

unfoldable pub starts_with : Bytes → Bytes → Bool
starts_with s [] = true
starts_with [] (c ∷ t) = false
starts_with (d ∷ s) (c ∷ t) = d == c && starts_with s t

-- `strip_suffix` and `ends_with` work from the end.
unfoldable pub strip_prefix : Bytes → Bytes → Option Bytes
strip_prefix s [] = some s
strip_prefix [] (c ∷ t) = none
strip_prefix (d ∷ s) (c ∷ t) = if d == c then strip_prefix s t else none

abbrev pub strip_suffix : Bytes → Bytes → Option Bytes
strip_suffix s t = elim (strip_prefix (reverse s) (reverse t)) [
  | none ↦ none
  | some r ↦ some (reverse r)
]

abbrev pub ends_with : Bytes → Bytes → Bool
ends_with s t = starts_with (reverse s) (reverse t)

-- `path.matches('/').count()`
unfoldable pub count_slashes : Bytes → ℕ
count_slashes [] = 0
count_slashes (c ∷ s) = if c == b'/' then suc (count_slashes s) else count_slashes s

abbrev pub cons_head : ℕ → List Bytes → List Bytes
cons_head c [] = (c ∷ []) ∷ []
cons_head c (part ∷ parts) = (c ∷ part) ∷ parts

-- `path.split('/')`
unfoldable pub split : Bytes → List Bytes
split [] = [] ∷ []
split (c ∷ s) = let rest = split s in if c == b'/' then [] ∷ rest else cons_head c rest

-- A text with no separator.
abbrev pub IsPlain : Bytes → Type 0
IsPlain s = All (λ c. (c == b'/') ≡ false) s

pub split_plain : (s : Bytes) → IsPlain s → split s ≡ s ∷ []
unfolding split
split_plain [] h = refl
split_plain (c ∷ s) h = ground (arith, split_plain s h.1)

pub split-append : (s t : Bytes) → IsPlain s → split (s ++ b'/' ∷ t) ≡ s ∷ split t
unfolding split
split-append [] t h = refl
split-append (c ∷ s) t h = ground (arith, split-append s t h.1)

pub count_slashes-append :
    (s t : Bytes) → count_slashes (s ++ t) ≡ count_slashes s + count_slashes t
unfolding count_slashes
count_slashes-append [] t = omega arith
count_slashes-append (c ∷ s) t = ground (arith, count_slashes-append s t)

pub count_slashes_plain : (s : Bytes) → IsPlain s → count_slashes s ≡ 0
unfolding count_slashes
count_slashes_plain [] h = refl
count_slashes_plain (c ∷ s) h = ground (arith, count_slashes_plain s h.1)

pub starts_with-append : (s t : Bytes) → starts_with (s ++ t) s ≡ true
unfolding starts_with
starts_with-append [] t = refl
starts_with-append (c ∷ s) t = ground (arith, starts_with-append s t)

pub strip_prefix-append : (s t : Bytes) → strip_prefix (s ++ t) s ≡ some t
unfolding strip_prefix
strip_prefix-append [] t = refl
strip_prefix-append (c ∷ s) t = ground (arith, strip_prefix-append s t)

pub IsPlain-append : (s t : Bytes) → IsPlain s → IsPlain t → IsPlain (s ++ t)
IsPlain-append [] t h k = k
IsPlain-append (c ∷ s) t h k = (h.0, IsPlain-append s t h.1 k)

pub IsPlain-reverse : (s : Bytes) → IsPlain s → IsPlain (reverse s)
IsPlain-reverse [] h = tt
IsPlain-reverse (c ∷ s) h =
    rw (reverse-append (c ∷ []) s)
      (IsPlain-append (reverse s) (c ∷ []) (IsPlain-reverse s h.1) (h.0, tt))

plain_prefix :
    (b t a : Bytes)
    → IsPlain b
    → IsPlain t
    → starts_with (b ++ b'/' ∷ a) (t ++ b'/' ∷ []) ≡ bytes_eq b t
unfolding starts_with bytes_eq
plain_prefix [] [] a h k = refl
plain_prefix [] (c ∷ t) a h k = ground (arith, k.0)
plain_prefix (d ∷ b) [] a h k = ground (arith, h.0)
plain_prefix (d ∷ b) (c ∷ t) a h k = ground (arith, plain_prefix b t a h.1 k.1)

-- A path ends in `/` and a plain name exactly when that is its last part.
pub ends_with_plain :
    (a b t : Bytes)
    → IsPlain b
    → IsPlain t
    → ends_with (a ++ b'/' ∷ b) (b'/' ∷ t) ≡ bytes_eq (reverse b) (reverse t)
ends_with_plain a b t h k = rw (reverse-append a (b'/' ∷ b)) (
    rw (reverse-append (b'/' ∷ []) b) (
      rw (reverse-append (b'/' ∷ []) t) (
        rw (append_assoc (reverse b) (b'/' ∷ []) (reverse a)) (
          plain_prefix (reverse b) (reverse t) (reverse a) (IsPlain-reverse b h)
            (IsPlain-reverse t k)))))

pub ends_with-append : (s t : Bytes) → ends_with (s ++ t) t ≡ true
ends_with-append s t = rw (reverse-append s t) (starts_with-append (reverse t) (reverse s))

pub strip_suffix-append : (s t : Bytes) → strip_suffix (s ++ t) t ≡ some s
strip_suffix-append s t =
    rw (reverse-append s t, strip_suffix)
      (rw (strip_prefix-append (reverse t) (reverse s), strip_suffix) (ap some (reverse-reverse s)))

pub reverse_three :
    (s t b : Bytes) → reverse (s ++ (t ++ b)) ≡ (reverse b ++ reverse t) ++ reverse s
reverse_three s t b = rw (reverse-append s (t ++ b)) (rw (reverse-append t b) refl)

-- A path whose last part is another plain name does not end in `/` and this one.
pub ends_with_other :
    (a b t : Bytes) → IsPlain b → IsPlain t → b ≢ t → ends_with (a ++ b'/' ∷ b) (b'/' ∷ t) ≡ false
ends_with_other a b t h k n = elim (Bool-cases (ends_with (a ++ b'/' ∷ b) (b'/' ∷ t))) [
  | inl e ↦
      let same : reverse b ≡ reverse t =
        (bytes_eq_iff (reverse b) (reverse t)).0 (sym (ends_with_plain a b t h k) ∙ e) in
      absurd (n (sym (reverse-reverse b) ∙ ap reverse same ∙ reverse-reverse t))
  | inr e ↦ e
]
