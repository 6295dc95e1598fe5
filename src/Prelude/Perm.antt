-- ===== src/Prelude/Perm.antt =====
-- What lists of the same elements, in any order, share.
use mathlib.Core.List.{List, Permᴰ}
use mathlib.Core.Path.{◌≡◌, refl, sym, ap, ◌∙◌, subst}
use mathlib.Core.Bool.{Bool}
use native.Mathlib.Omega.{arith}
use Prim.Native.Nat.{ℕ, suc}
use ledgerfs.Prelude.Tests.{if◌then◌else◌}
use ledgerfs.Prelude.Lists.{All, count, length}

pub All-Perm : {A : Type 0} (P : A → Type 0) {l m : List A} → Permᴰ l m → All P m → All P l
All-Perm P Permᴰ.nil h = tt
All-Perm P (Permᴰ.cons e rest) h = (subst P (sym e) h.0, All-Perm P rest h.1)
All-Perm P (Permᴰ.swap e e') h = (subst P (sym e) h.1.0, (subst P (sym e') h.0, h.1.1))
All-Perm P (Permᴰ.trans first second) h = All-Perm P first (All-Perm P second h)

pub count-Perm : {A : Type 0} (q : A → Bool) {l m : List A} → Permᴰ l m → count q l ≡ count q m
count-Perm q Permᴰ.nil = refl
count-Perm q (Permᴰ.cons e rest) =
    omega (arith, ap {B = ℕ} (λ e. if q e then 1 else 0) e, count-Perm q rest)
count-Perm q (Permᴰ.swap e e') =
    omega
      (arith, ap {B = ℕ} (λ e. if q e then 1 else 0) e, ap {B = ℕ} (λ e. if q e then 1 else 0) e')
count-Perm q (Permᴰ.trans first second) = count-Perm q first ∙ count-Perm q second

pub length-Perm : {A : Type 0} {l m : List A} → Permᴰ l m → length l ≡ length m
length-Perm Permᴰ.nil = refl
length-Perm (Permᴰ.cons e rest) = ap suc (length-Perm rest)
length-Perm (Permᴰ.swap e e') = refl
length-Perm (Permᴰ.trans first second) = length-Perm first ∙ length-Perm second
