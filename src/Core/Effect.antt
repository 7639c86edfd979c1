-- ===== src/Core/Effect.antt =====
-- What one step of a thread does to the life cycle word, by where the thread stands.
use narthex.Prelude.{◌≡◌, refl, Bool, true, false, inl, inr, if◌then◌else◌, Bool-cases}
use narthex.Result.{NthResult, is_ok}
use narthex.Core.{
  NthLifecycle, life_dead, life_starting, life_alive, life_stopping, Place, outside, returned,
  at_init_log, at_init_uptime, at_end_init, at_fail_init, at_term_uptime, at_term_log, at_end_term,
  Event, call_init, call_term, go_on, advance, nth_lifecycle_begin_init, nth_lifecycle_end_init,
  nth_lifecycle_fail_init, nth_lifecycle_begin_term, nth_lifecycle_end_term,
}

-- What a thread's place makes of the life cycle word: `starting` inside `nth_init`, `stopping`
-- inside `nth_term`.
abbrev pub holds : Place → Bool
holds outside = false
holds (returned r) = false
holds at_init_log = true
holds at_init_uptime = true
holds at_end_init = true
holds (at_fail_init r) = true
holds at_term_uptime = true
holds at_term_log = true
holds at_end_term = true

abbrev pub owed : Place → NthLifecycle
owed outside = life_dead
owed (returned r) = life_dead
owed at_init_log = life_starting
owed at_init_uptime = life_starting
owed at_end_init = life_starting
owed (at_fail_init r) = life_starting
owed at_term_uptime = life_stopping
owed at_term_log = life_stopping
owed at_end_term = life_stopping

abbrev pub settled : NthLifecycle → Bool
settled life_dead = true
settled life_starting = false
settled life_alive = true
settled life_stopping = false

-- What one step of a thread does, by whether it is inside before and after.
pub data Effect (p : Place) (lc : NthLifecycle) : Place × NthLifecycle → Type 0 where
  stays_out : (q : Place) → holds p ≡ false → holds q ≡ false → Effect p lc (q, lc)
  enters :
      (q : Place) (lc' : NthLifecycle)
      → holds p ≡ false
      → settled lc ≡ true
      → holds q ≡ true
      → lc' ≡ owed q
      → settled lc' ≡ false
      → Effect p lc (q, lc')
  goes_on : (q : Place) → holds p ≡ true → holds q ≡ true → owed q ≡ owed p → Effect p lc (q, lc)
  leaves :
      (q : Place) (lc' : NthLifecycle)
      → holds p ≡ true
      → holds q ≡ false
      → settled lc' ≡ true
      → Effect p lc (q, lc')

on_result :
    (r : NthResult) (p good bad : Place) (lc : NthLifecycle)
    → holds p ≡ true
    → (holds good ≡ true) × (owed good ≡ owed p)
    → (holds bad ≡ true) × (owed bad ≡ owed p)
    → Effect p lc (if is_ok r then (good, lc) else (bad, lc))
on_result r p good bad lc h y n = elim (Bool-cases (is_ok r)) [
  | inl ok ↦ rw ok (goes_on good h y.0 y.1)
  | inr failed ↦ rw failed (goes_on bad h n.0 n.1)
]

pub advance-Effect : (e : Event) (p : Place) (lc : NthLifecycle) → Effect p lc (advance e p lc)
unfolding advance nth_lifecycle_begin_init nth_lifecycle_begin_term nth_lifecycle_end_init
    nth_lifecycle_fail_init nth_lifecycle_end_term
advance-Effect call_init outside life_dead =
    enters at_init_log life_starting refl refl refl refl refl
advance-Effect call_init outside life_starting = stays_out _ refl refl
advance-Effect call_init outside life_alive = stays_out _ refl refl
advance-Effect call_init outside life_stopping = stays_out _ refl refl
advance-Effect call_init (returned x) life_dead =
    enters at_init_log life_starting refl refl refl refl refl
advance-Effect call_init (returned x) life_starting = stays_out _ refl refl
advance-Effect call_init (returned x) life_alive = stays_out _ refl refl
advance-Effect call_init (returned x) life_stopping = stays_out _ refl refl
advance-Effect call_init at_init_log lc = goes_on _ refl refl refl
advance-Effect call_init at_init_uptime lc = goes_on _ refl refl refl
advance-Effect call_init at_end_init lc = goes_on _ refl refl refl
advance-Effect call_init (at_fail_init x) lc = goes_on _ refl refl refl
advance-Effect call_init at_term_uptime lc = goes_on _ refl refl refl
advance-Effect call_init at_term_log lc = goes_on _ refl refl refl
advance-Effect call_init at_end_term lc = goes_on _ refl refl refl
advance-Effect call_term outside life_dead = stays_out _ refl refl
advance-Effect call_term outside life_starting = stays_out _ refl refl
advance-Effect call_term outside life_alive =
    enters at_term_uptime life_stopping refl refl refl refl refl
advance-Effect call_term outside life_stopping = stays_out _ refl refl
advance-Effect call_term (returned x) life_dead = stays_out _ refl refl
advance-Effect call_term (returned x) life_starting = stays_out _ refl refl
advance-Effect call_term (returned x) life_alive =
    enters at_term_uptime life_stopping refl refl refl refl refl
advance-Effect call_term (returned x) life_stopping = stays_out _ refl refl
advance-Effect call_term at_init_log lc = goes_on _ refl refl refl
advance-Effect call_term at_init_uptime lc = goes_on _ refl refl refl
advance-Effect call_term at_end_init lc = goes_on _ refl refl refl
advance-Effect call_term (at_fail_init x) lc = goes_on _ refl refl refl
advance-Effect call_term at_term_uptime lc = goes_on _ refl refl refl
advance-Effect call_term at_term_log lc = goes_on _ refl refl refl
advance-Effect call_term at_end_term lc = goes_on _ refl refl refl
advance-Effect (go_on r) outside lc = stays_out _ refl refl
advance-Effect (go_on r) (returned x) lc = stays_out _ refl refl
advance-Effect (go_on r) at_init_log lc =
    on_result r at_init_log at_init_uptime (at_fail_init r) lc refl (refl, refl) (refl, refl)
advance-Effect (go_on r) at_init_uptime lc =
    on_result r at_init_uptime at_end_init (at_fail_init r) lc refl (refl, refl) (refl, refl)
advance-Effect (go_on r) at_end_init lc = leaves _ _ refl refl refl
advance-Effect (go_on r) (at_fail_init x) lc = leaves _ _ refl refl refl
advance-Effect (go_on r) at_term_uptime lc = goes_on _ refl refl refl
advance-Effect (go_on r) at_term_log lc = goes_on _ refl refl refl
advance-Effect (go_on r) at_end_term lc = leaves _ _ refl refl refl

pub holds-unsettled : (p : Place) → holds p ≡ true → settled (owed p) ≡ false
holds-unsettled outside h = cc
holds-unsettled (returned r) h = cc
holds-unsettled at_init_log h = refl
holds-unsettled at_init_uptime h = refl
holds-unsettled at_end_init h = refl
holds-unsettled (at_fail_init x) h = refl
holds-unsettled at_term_uptime h = refl
holds-unsettled at_term_log h = refl
holds-unsettled at_end_term h = refl
