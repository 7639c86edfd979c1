-- ===== src/System/Agree.antt =====
-- modules/filesystem/system.c: a value of `fs_cached_get` is computed once.
use narthex.Prelude.{ℕ, ◌≡◌, ◌≢◌, ◌⊎◌, refl, sym, ap, ◌∙◌, Option, some, List, [], ◌∷◌, inl, inr}
use narthex.Core.{life_alive, life_starting}
use narthex.System.{
  FsCachedPath, Place, got, at_compute, Event, fs_cached_get, World, start, step, run,
}
use narthex.System.Inv.{
  Knows, Consistent, Change, fs_cached_get-Change, step-Consistent, run-Consistent,
  start-Consistent,
}

same_slot :
    {A : Type 0}
    → (s s' : FsCachedPath) → s.life ≡ life_alive
    → (s' ≡ s) ⊎ ((s.life ≢ life_alive) × A)
    → s' ≡ s
same_slot s s' h (inl e) = e
same_slot s s' h (inr (n, x)) = absurd (n h)

keeps :
    (w : World) (i : ℕ) (e : Event)
    → Consistent w
    → w.slot.life ≡ life_alive
    → (step w i e).slot ≡ w.slot
unfolding step
keeps w i e c h =
    let (q, s') = fs_cached_get e (w.place i) w.slot in
    let ch : Change (w.place i) q w.slot s' =
      fs_cached_get-Change e (w.place i) w.slot (c.knows i) c.full in
    same_slot w.slot s' h ch.frame

run-keeps :
    (w : World) (es : List (ℕ × Event))
    → Consistent w
    → w.slot.life ≡ life_alive
    → (run w es).slot ≡ w.slot
unfolding run
run-keeps w [] c h = refl
run-keeps w ((i, e) ∷ es) c h =
    let k = keeps w i e c h in
    run-keeps (step w i e) es (step-Consistent w i e c) (ap (λ (s : FsCachedPath). s.life) k ∙ h)
    ∙ k

got-Knows :
    (p : Place) (s : FsCachedPath) (x : Option (List ℕ))
    → p ≡ got x
    → Knows p s
    → (s.life ≡ life_alive) × (x ≡ s.value)
got-Knows p s x e k = rw e at k

not_computing : (p : Place) (s : FsCachedPath) → s.life ≡ life_alive → Knows p s → p ≢ at_compute
not_computing p s h k e = let starting : s.life ≡ life_starting = rw e at k in cc

-- However the threads that call `fs_cached_get` on a slot are interleaved: once one of them has
-- returned a value, every thread that returns a value now or later returns the same one, which is
-- not NULL, and no thread computes it again.
pub run-agree :
    (es es' : List (ℕ × Event)) (i j : ℕ) (x y : Option (List ℕ))
    → (run start es).place i ≡ got x
    → (run (run start es) es').place j ≡ got y
    → (x ≡ y)
      × ((v : List ℕ) × (x ≡ some v))
      × ((k : ℕ) → (run (run start es) es').place k ≢ at_compute)
run-agree es es' i j x y a b =
    let w = run start es in
    let c : Consistent w = run-Consistent start es start-Consistent in
    let w' = run w es' in
    let c' : Consistent w' = run-Consistent w es' c in
    let (alive, is) = got-Knows (w.place i) w.slot x a (c.knows i) in
    let (alive', is') = got-Knows (w'.place j) w'.slot y b (c'.knows j) in
    let (v, e) = c.full alive in
    let k = run-keeps w es' c alive in
    (
      is ∙ (sym (ap (λ (s : FsCachedPath). s.value) k) ∙ sym is'),
      (v, is ∙ e),
      λ t. not_computing (w'.place t) w'.slot alive' (c'.knows t),
    )
