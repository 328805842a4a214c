-- ===== src/Text/Order.antt =====
-- Go's order on strings is a strict total order.
use Prim.Native.Char.{Char, code}
use Prim.Native.Nat.{Ordering, compare as compare_nat}
use Prim.Native.String.{compare, then as then_by}
use Prim.Native.String.compare.{nil-nil, nil-cons, cons-nil, cons-cons}
use text.Mathlib.Text.{is_lt, is_eq}
use harness_gitops_agent_ope.Common.{
  ◌≡◌, refl, sym, ◌∙◌, ap, true, false, ◌&&◌, ◌||◌, String, ltb, nat_eq, arith,
}
use harness_gitops_agent_ope.Text.{◌==◌, str_lt, eq_iff}

is_lt-then : (a b : Ordering) → is_lt (then_by a b) ≡ is_lt a || (is_eq a && is_lt b)
is_lt-then Ordering.lt b = refl
is_lt-then Ordering.eq b = refl
is_lt-then Ordering.gt b = refl

is_eq-then : (a b : Ordering) → is_eq (then_by a b) ≡ (is_eq a && is_eq b)
is_eq-then Ordering.lt b = refl
is_eq-then Ordering.eq b = refl
is_eq-then Ordering.gt b = refl

module _ (c d : Char) (s t : String) where
  lt-cons :
      str_lt (String.◌∷◌ c s) (String.◌∷◌ d t)
      ≡ (ltb (code c) (code d) || (nat_eq (code c) (code d) && str_lt s t))
  unfolding str_lt
  lt-cons = ap is_lt (cons-cons c d s t) ∙ is_lt-then (compare_nat (code c) (code d)) (compare s t)

  eq-cons : (String.◌∷◌ c s == String.◌∷◌ d t) ≡ (nat_eq (code c) (code d) && (s == t))
  eq-cons = ap is_eq (cons-cons c d s t) ∙ is_eq-then (compare_nat (code c) (code d)) (compare s t)

lt-nil : (d : Char) (t : String) → str_lt "" (String.◌∷◌ d t) ≡ true
unfolding str_lt
lt-nil d t = ap is_lt (nil-cons d t)

nil-lt : (s : String) → str_lt s "" ≡ false
unfolding str_lt
nil-lt String.[] = ap is_lt nil-nil
nil-lt (String.◌∷◌ c s) = ap is_lt (cons-nil c s)

pub str_lt_trans : (s t u : String) → str_lt s t ≡ true → str_lt t u ≡ true → str_lt s u ≡ true
str_lt_trans s String.[] u h k = ground (arith, nil-lt s)
str_lt_trans s (String.◌∷◌ d t) String.[] h k = ground (arith, nil-lt (String.◌∷◌ d t))
str_lt_trans String.[] (String.◌∷◌ d t) (String.◌∷◌ e u) h k = lt-nil e u
str_lt_trans (String.◌∷◌ c s) (String.◌∷◌ d t) (String.◌∷◌ e u) h k =
    ground (arith, lt-cons c d s t, lt-cons d e t u, lt-cons c e s u, str_lt_trans s t u)

pub str_lt_irrefl : (s : String) → str_lt s s ≡ false
str_lt_irrefl String.[] = nil-lt ""
str_lt_irrefl (String.◌∷◌ c s) = ground (arith, lt-cons c c s s, str_lt_irrefl s)

pub str_lt_asym : (s t : String) → str_lt s t ≡ true → str_lt t s ≡ false
str_lt_asym s t h = ground (arith, str_lt_trans s t s h, str_lt_irrefl s)

pub str_lt_total : (s t : String) → (s == t) ≡ false → str_lt s t ≡ false → str_lt t s ≡ true
str_lt_total String.[] String.[] differ h = ground (arith)
str_lt_total String.[] (String.◌∷◌ d t) differ h = ground (arith, lt-nil d t)
str_lt_total (String.◌∷◌ c s) String.[] differ h = lt-nil c s
str_lt_total (String.◌∷◌ c s) (String.◌∷◌ d t) differ h =
    ground (arith, lt-cons c d s t, lt-cons d c t s, eq-cons c d s t, str_lt_total s t)

-- equal strings can be exchanged in the tests
module _ (s t u : String) (same : (s == t) ≡ true) where
  path : s ≡ t
  path = (eq_iff s t).0 same

  pub lt-left : str_lt s u ≡ str_lt t u
  lt-left = ap (λ v. str_lt v u) path

  pub lt-right : str_lt u s ≡ str_lt u t
  lt-right = ap (str_lt u) path

  pub eq-left : (s == u) ≡ (t == u)
  eq-left = ap (λ v. v == u) path

  pub eq-right : (u == s) ≡ (u == t)
  eq-right = ap (λ v. u == v) path

pub lt-differ : (s t : String) → str_lt s t ≡ true → (s == t) ≡ false
lt-differ s t h = ground (arith, lt-left s t t, str_lt_irrefl t)

pub eq_comm : (s t : String) → (s == t) ≡ true → (t == s) ≡ true
eq_comm s t h = (eq_iff t s).1 (sym ((eq_iff s t).0 h))

pub not_lt_trans : (s t u : String) → str_lt s t ≡ false → str_lt t u ≡ false → str_lt s u ≡ false
not_lt_trans s t u h k = ground (
  arith,
  str_lt_total s t,
  str_lt_total t u,
  lt-left s t u,
  lt-right t u s,
  str_lt_trans u t s,
  str_lt_asym s u,
)
