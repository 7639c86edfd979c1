-- ===== src/Core/Exclusive.antt =====
-- At most one thread is between the begin and the end of a life cycle call.
use narthex.Prelude.{
  ℕ, ◌≡◌, ◌≢◌, ◌⊎◌, refl, sym, ap, ◌∙◌, true, false, inl, inr, arith, ◌==◌, ==_iff, Bool-cases,
}
use narthex.Core.{NthLifecycle, Place, World, put, step, advance, Reachable, at_start, then_step}
use narthex.Core.Effect.{
  holds, owed, settled, Effect, stays_out, enters, goes_on, leaves, advance-Effect, holds-unsettled,
}

-- A thread inside finds the word that it left, and is the only one inside.
pub record Exclusive (w : World) : Type 0 where
  pub owner : (i : ℕ) → holds (w.place i) ≡ true → w.life ≡ owed (w.place i)
  pub single : (i j : ℕ) → holds (w.place i) ≡ true → holds (w.place j) ≡ true → i ≡ j
  pub busy : settled w.life ≡ false → (i : ℕ) × (holds (w.place i) ≡ true)

-- A thread that is inside after `i` was put at `q`.
who :
    (place : ℕ → Place) (i : ℕ) (q : Place) (j : ℕ)
    → holds (put place i q j) ≡ true
    → ((i ≡ j) × (holds q ≡ true) × (put place i q j ≡ q))
      ⊎ ((i ≢ j) × (holds (place j) ≡ true) × (put place i q j ≡ place j))
who place i q j h = elim (Bool-cases (i == j)) [
  | inl same ↦ inl ((==_iff i j).0 same, rw same at h, rw same)
  | inr differ ↦ inr ((λ e. ground (arith, differ, e)), rw differ at h, rw differ)
]

put_self : (place : ℕ → Place) (i : ℕ) (q : Place) → put place i q i ≡ q
put_self place i q = let same : (i == i) ≡ true = (==_iff i i).1 refl in rw same

put-other : (place : ℕ → Place) (i : ℕ) (q : Place) (j : ℕ) → i ≢ j → put place i q j ≡ place j
put-other place i q j ne = let differ : (i == j) ≡ false = ground (arith, ne) in rw differ

module _ (w : World) (i : ℕ) (x : Exclusive w) where
  -- Nobody is inside when the word is settled.
  nobody : settled w.life ≡ true → (j : ℕ) → holds (w.place j) ≡ false
  nobody s j = elim (Bool-cases (holds (w.place j))) [
    | inl inside ↦
        absurd (clash (ap settled (x.owner j inside)) (holds-unsettled (w.place j) inside))
    | inr out ↦ out
  ]
    where
      clash : settled w.life ≡ settled (owed (w.place j)) → settled (owed (w.place j)) ≡ false → ⊥
      clash a b = cc

  stays-Exclusive :
      (q : Place)
      → holds (w.place i) ≡ false
      → holds q ≡ false
      → Exclusive (record { life = w.life; place = put w.place i q })
  stays-Exclusive q was now = record {
    owner = λ j h. elim (who w.place i q j h) [
      | inl (e, inside, is) ↦ cc
      | inr (ne, inside, is) ↦ x.owner j inside ∙ ap owed (sym is)
    ];
    single = λ j k h g. elim (who w.place i q j h) [
      | inl (e, inside, is) ↦ cc
      | inr (ne, inside, is) ↦ elim (who w.place i q k g) [
        | inl (e', inside', is') ↦ cc
        | inr (ne', inside', is') ↦ x.single j k inside inside'
      ]
    ];
    busy = λ u.
        let (j, inside) = x.busy u in (j, ap holds (put-other w.place i q j (λ e. cc)) ∙ inside);
  }

  enters-Exclusive :
      (q : Place) (lc : NthLifecycle)
      → settled w.life ≡ true
      → holds q ≡ true
      → lc ≡ owed q
      → Exclusive (record { life = lc; place = put w.place i q })
  enters-Exclusive q lc s now is_owed = record {
    owner = λ j h. elim (who w.place i q j h) [
      | inl (e, inside, is) ↦ is_owed ∙ ap owed (sym is)
      | inr (ne, inside, is) ↦ let out = nobody s j in cc
    ];
    single = λ j k h g. elim (who w.place i q j h) [
      | inl (e, inside, is) ↦ elim (who w.place i q k g) [
        | inl (e', inside', is') ↦ sym e ∙ e'
        | inr (ne', inside', is') ↦ let out = nobody s k in cc
      ]
      | inr (ne, inside, is) ↦ let out = nobody s j in cc
    ];
    busy = λ u. (i, ap holds (put_self w.place i q) ∙ now);
  }

  goes_on-Exclusive :
      (q : Place)
      → holds (w.place i) ≡ true
      → holds q ≡ true
      → owed q ≡ owed (w.place i)
      → Exclusive (record { life = w.life; place = put w.place i q })
  goes_on-Exclusive q was now same = record {
    owner = λ j h. elim (who w.place i q j h) [
      | inl (e, inside, is) ↦ x.owner i was ∙ (sym same ∙ ap owed (sym is))
      | inr (ne, inside, is) ↦ absurd (ne (x.single i j was inside))
    ];
    single = λ j k h g. elim (who w.place i q j h) [
      | inl (e, inside, is) ↦ elim (who w.place i q k g) [
        | inl (e', inside', is') ↦ sym e ∙ e'
        | inr (ne', inside', is') ↦ absurd (ne' (x.single i k was inside'))
      ]
      | inr (ne, inside, is) ↦ absurd (ne (x.single i j was inside))
    ];
    busy = λ u. (i, ap holds (put_self w.place i q) ∙ now);
  }

  leaves-Exclusive :
      (q : Place) (lc : NthLifecycle)
      → holds (w.place i) ≡ true
      → holds q ≡ false
      → settled lc ≡ true
      → Exclusive (record { life = lc; place = put w.place i q })
  leaves-Exclusive q lc was now s = record {
    owner = λ j h. elim (who w.place i q j h) [
      | inl (e, inside, is) ↦ cc
      | inr (ne, inside, is) ↦ absurd (ne (x.single i j was inside))
    ];
    single = λ j k h g. elim (who w.place i q j h) [
      | inl (e, inside, is) ↦ cc
      | inr (ne, inside, is) ↦ absurd (ne (x.single i j was inside))
    ];
    busy = λ u. cc;
  }

  put-Exclusive :
      (r : Place × NthLifecycle)
      → Effect (w.place i) w.life r
      → Exclusive (record { life = r.1; place = put w.place i r.0 })
  put-Exclusive _ (stays_out q was now) = stays-Exclusive q was now
  put-Exclusive _ (enters q lc was s now is_owed u) = enters-Exclusive q lc s now is_owed
  put-Exclusive _ (goes_on q was now same) = goes_on-Exclusive q was now same
  put-Exclusive _ (leaves q lc was now s) = leaves-Exclusive q lc was now s

-- In every state that threads reach by calling `nth_init` and `nth_term` in any interleaving,
-- whatever the initialisers return, at most one thread is between the begin and the end of its
-- call; the word says which call, `starting` or `stopping`; and it says neither unless some thread
-- is inside.
pub Reachable-Exclusive : (w : World) → Reachable w → Exclusive w
unfolding step
Reachable-Exclusive _ at_start = record {
  owner = λ i h. cc;
  single = λ i j h g. cc;
  busy = λ u. cc;
}
Reachable-Exclusive _ (then_step w i e r) =
    put-Exclusive w i (Reachable-Exclusive w r) (advance e (w.place i) w.life)
      (advance-Effect e (w.place i) w.life)
