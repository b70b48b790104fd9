-- ===== src/Base/Order.antt =====
-- Strict total orders as Boolean tests, their lexicographic product, and the front of a sorted list.
use mathlib.Core.Path.{◌≡◌}
use mathlib.Core.Logic.{◌↔◌}
use mathlib.Core.Bool.{Bool, true, false}
use native.Mathlib.Omega.{arith}
use hyper_link.Base.Tests.{ltb, ◌==◌, if◌then◌else◌, ==_iff}
use hyper_link.Base.Strings.{
  text_eq, text_lt, text_eq_iff, text_lt_irrefl, text_lt_trans, text_lt_total,
}

pub record IsStrict {A : Type 0} (eq lt : A → A → Bool) : Type 0 where
  pub eq_iff : (a b : A) → (eq a b ≡ true) ↔ (a ≡ b)
  pub irrefl : (a : A) → lt a a ≡ false
  pub trans : (a b c : A) → lt a b ≡ true → lt b c ≡ true → lt a c ≡ true
  pub total : (a b : A) → lt a b ≡ false → lt b a ≡ false → a ≡ b

pub number_order : IsStrict ◌==◌ ltb
number_order = record {
  eq_iff = ==_iff;
  irrefl = λ a. ground arith;
  trans = λ a b c h k. ground arith;
  total = λ a b h k. ground arith;
}

pub text_order : IsStrict text_eq text_lt
text_order = record {
  eq_iff = text_eq_iff;
  irrefl = text_lt_irrefl;
  trans = text_lt_trans;
  total = text_lt_total;
}

module _ {A B : Type 0} (eq lt : A → A → Bool) (eq' lt' : B → B → Bool) where
  abbrev pub pair_eq : A × B → A × B → Bool
  pair_eq p q = if eq p.0 q.0 then eq' p.1 q.1 else false

  -- The first components decide unless they are equal.
  abbrev pub pair_lt : A × B → A × B → Bool
  pair_lt p q = if eq p.0 q.0 then lt' p.1 q.1 else lt p.0 q.0

  pub pair_order : IsStrict eq lt → IsStrict eq' lt' → IsStrict pair_eq pair_lt
  pair_order o o' = record {
    eq_iff = λ p q. ground (arith, o.eq_iff p.0 q.0, o'.eq_iff p.1 q.1);
    irrefl = λ p. ground (arith, o.irrefl p.0, o'.irrefl p.1);
    trans = λ p q r h k. ground (
      arith,
      o.eq_iff p.0 q.0,
      o.eq_iff q.0 r.0,
      o.eq_iff p.0 r.0,
      o.trans p.0 q.0 r.0,
      o'.trans p.1 q.1 r.1,
      o.irrefl p.0,
      o.trans p.0 q.0 p.0,
    );
    total = λ p q h k.
        ground (arith, o.eq_iff p.0 q.0, o.eq_iff q.0 p.0, o.total p.0 q.0, o'.total p.1 q.1);
  }
