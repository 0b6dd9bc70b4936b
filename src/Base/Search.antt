-- ===== src/Base/Search.antt =====
-- Prefixes, suffixes and infixes of byte strings, against equations.
use Prim.Native.Nat.{ℕ}
use mathlib.Core.Path.{◌≡◌, refl, sym, ap, ◌∙◌}
use mathlib.Core.Logic.{◌↔◌, ◌≢◌, inl, inr}
use mathlib.Core.Bool.{true, false, false≢true}
use mathlib.Core.List.{[], ◌∷◌, ◌++◌, reverse, reverse-append, reverse-reverse}
use native.Mathlib.Omega.{arith}
use mock_salesforce.Base.Tests.{Bool-cases}
use mock_salesforce.Base.Lists.{length, take}
use mock_salesforce.Base.Text.{Bytes, starts_with, ends_with, contains}

prefix_split : (s p : Bytes) → starts_with s p ≡ true → (b : Bytes) × (s ≡ p ++ b)
unfolding starts_with
prefix_split s [] h = (s, refl)
prefix_split [] (y ∷ p) h = cc
prefix_split (x ∷ s) (y ∷ p) h =
    let (b, e) = prefix_split s p (ground arith) in let same : x ≡ y = ground arith in (b, cc)

pub starts_with-append : (p b : Bytes) → starts_with (p ++ b) p ≡ true
unfolding starts_with
starts_with-append [] b = refl
starts_with-append (y ∷ p) b = ground (arith, starts_with-append p b)

pub starts_with_iff : (s p : Bytes) → (starts_with s p ≡ true) ↔ ((b : Bytes) × (s ≡ p ++ b))
starts_with_iff s p = (prefix_split s p, λ (b, e). rw e (starts_with-append p b))

pub ends_with-append : (a p : Bytes) → ends_with (a ++ p) p ≡ true
unfolding ends_with
ends_with-append a p = rw reverse-append (starts_with-append (reverse p) (reverse a))

suffix_split : (s p : Bytes) → ends_with s p ≡ true → (a : Bytes) × (s ≡ a ++ p)
unfolding ends_with
suffix_split s p h =
    let (b, e) = prefix_split (reverse s) (reverse p) h in
    (
      reverse b,
      sym (reverse-reverse s)
          ∙ ap reverse e
          ∙ reverse-append (reverse p) b
          ∙ ap (λ x. reverse b ++ x) (reverse-reverse p),
    )

pub ends_with_iff : (s p : Bytes) → (ends_with s p ≡ true) ↔ ((a : Bytes) × (s ≡ a ++ p))
ends_with_iff s p = (suffix_split s p, λ (a, e). rw e (ends_with-append a p))

infix_split : (s p : Bytes) → contains s p ≡ true → (a : Bytes) × (b : Bytes) × (s ≡ a ++ (p ++ b))
unfolding contains
infix_split [] p h = let (b, e) = prefix_split [] p h in ([], b, e)
infix_split (c ∷ s) p h = elim (Bool-cases (starts_with (c ∷ s) p)) [
  | inl here ↦ let (b, e) = prefix_split (c ∷ s) p here in ([], b, e)
  | inr there ↦ let (a, b, e) = infix_split s p (rw there at h) in (c ∷ a, b, ap (λ x. c ∷ x) e)
]

contains_of_prefix : (s p : Bytes) → starts_with s p ≡ true → contains s p ≡ true
unfolding contains
contains_of_prefix [] p h = h
contains_of_prefix (c ∷ s) p h = rw h

contains-cons : (c : ℕ) (s p : Bytes) → contains s p ≡ true → contains (c ∷ s) p ≡ true
unfolding contains
contains-cons c s p h = ground arith

pub contains-append : (a p b : Bytes) → contains (a ++ (p ++ b)) p ≡ true
contains-append [] p b = contains_of_prefix (p ++ b) p (starts_with-append p b)
contains-append (c ∷ a) p b = contains-cons c (a ++ (p ++ b)) p (contains-append a p b)

pub contains_iff :
    (s p : Bytes) → (contains s p ≡ true) ↔ ((a : Bytes) × (b : Bytes) × (s ≡ a ++ (p ++ b)))
contains_iff s p = (infix_split s p, λ (a, b, e). rw e (contains-append a p b))

pub take-append : (x y : Bytes) → take (length x) (x ++ y) ≡ x
take-append [] y = refl
take-append (c ∷ x) y = ap (λ z. c ∷ z) (take-append x y)

-- Whether a byte stands last does not hang on what is in front of a text that is not empty.
ends_with_cons :
    (c d : ℕ) (x : Bytes) → x ≢ [] → ends_with (c ∷ x) (d ∷ []) ≡ true → ends_with x (d ∷ []) ≡ true
ends_with_cons c d x n h = go (suffix_split (c ∷ x) (d ∷ []) h)
  where
    go : (a : Bytes) × (c ∷ x ≡ a ++ d ∷ []) → ends_with x (d ∷ []) ≡ true
    go ([], e) = absurd (n (cc))
    go (b ∷ a, e) = let same : x ≡ a ++ d ∷ [] = cc in rw same (ends_with-append a (d ∷ []))

pub ends_with_cons_false :
    (c d : ℕ) (x : Bytes)
    → x ≢ []
    → ends_with x (d ∷ []) ≡ false
    → ends_with (c ∷ x) (d ∷ []) ≡ false
ends_with_cons_false c d x n h = elim (Bool-cases (ends_with (c ∷ x) (d ∷ []))) [
  | inl e ↦ absurd (false≢true (sym h ∙ ends_with_cons c d x n e))
  | inr e ↦ e
]

pub starts_with_append_false :
    (d : ℕ) (x y : Bytes)
    → x ≢ []
    → starts_with x (d ∷ []) ≡ false
    → starts_with (x ++ y) (d ∷ []) ≡ false
unfolding starts_with
starts_with_append_false d [] y n h = absurd (n refl)
starts_with_append_false d (c ∷ x) y n h = h
