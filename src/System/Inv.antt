-- ===== src/System/Inv.antt =====
-- modules/filesystem/system.c: the threads of `fs_cached_get` agree on the value.
use narthex.Prelude.{
  ℕ, ◌≡◌, ◌≢◌, ◌⊎◌, refl, sym, Bool, true, false, Option, some, List, [], ◌∷◌, inl, inr, arith,
  ◌==◌, Bool-cases,
}
use narthex.Core.{
  NthLifecycle, life_dead, life_starting, life_alive, life_stopping, nth_lifecycle_is_alive,
  nth_lifecycle_begin_init, nth_lifecycle_end_init, nth_lifecycle_fail_init,
}
use narthex.System.{
  FsCachedPath, Place, outside, at_check, at_read, at_begin, at_compute, at_fail, at_store, at_end,
  failed, got, Event, fs_cached_get, call, go_on, computed, compute_failed, World, start, put, step,
  run,
}

-- The thread that computes the value.
abbrev pub holds : Place → Bool
holds at_compute = true
holds (at_fail r) = true
holds (at_store v) = true
holds (at_end v) = true
holds _ = false

abbrev pub Knows : Place → FsCachedPath → Type 0
Knows at_read s = s.life ≡ life_alive
Knows (got x) s = (s.life ≡ life_alive) × (x ≡ s.value)
Knows at_compute s = s.life ≡ life_starting
Knows (at_fail r) s = s.life ≡ life_starting
Knows (at_store v) s = s.life ≡ life_starting
Knows (at_end v) s = (s.life ≡ life_starting) × (s.value ≡ some v)
Knows _ s = Unit

-- A slot that is alive has a value.
abbrev pub Full : FsCachedPath → Type 0
Full s = s.life ≡ life_alive → (v : List ℕ) × (s.value ≡ some v)

-- What a step of a thread from `p` to `q` may do to the slot.
pub record Change (p q : Place) (s s' : FsCachedPath) : Type 0 where
  now : Knows q s'
  pub frame : (s' ≡ s) ⊎ ((s.life ≢ life_alive) × ((holds p ≡ true) ⊎ (s.life ≡ life_dead)))
  enters : holds q ≡ true → (holds p ≡ true) ⊎ (s.life ≡ life_dead)
  full : Full s'

stays :
    (p q : Place) (s : FsCachedPath)
    → Knows q s
    → (holds q ≡ true → holds p ≡ true)
    → Full s
    → Change p q s s
stays p q s k h f = record { now = k; frame = inl refl; enters = λ e. inl (h e); full = f }

is_alive_lem : (lc : NthLifecycle) → nth_lifecycle_is_alive lc ≡ true → lc ≡ life_alive
unfolding nth_lifecycle_is_alive
is_alive_lem life_dead h = cc
is_alive_lem life_starting h = cc
is_alive_lem life_alive h = refl
is_alive_lem life_stopping h = cc

begin-Change :
    (lc : NthLifecycle) (x : Option (List ℕ))
    → Full (record { life = lc; value = x })
    → (let s : FsCachedPath = record { life = lc; value = x } in
        let (q, s') = fs_cached_get go_on at_begin s in Change at_begin q s s')
unfolding fs_cached_get nth_lifecycle_begin_init
begin-Change life_dead x f = record {
  now = refl;
  frame = inr ((λ e. cc), inr refl);
  enters = λ e. inr refl;
  full = λ e. cc;
}
begin-Change life_starting x f = stays at_begin at_check _ tt (λ e. cc) f
begin-Change life_alive x f = stays at_begin at_check _ tt (λ e. cc) f
begin-Change life_stopping x f = stays at_begin at_check _ tt (λ e. cc) f

not_alive : (lc : NthLifecycle) → lc ≡ life_starting → lc ≢ life_alive
not_alive lc a b = cc

pub fs_cached_get-Change :
    (e : Event) (p : Place) (s : FsCachedPath)
    → Knows p s
    → Full s
    → (let (q, s') = fs_cached_get e p s in Change p q s s')
unfolding fs_cached_get nth_lifecycle_is_alive nth_lifecycle_begin_init nth_lifecycle_end_init
    nth_lifecycle_fail_init
fs_cached_get-Change call outside s k f = stays outside at_check s tt (λ e. cc) f
fs_cached_get-Change call (failed r) s k f = stays (failed r) at_check s tt (λ e. cc) f
fs_cached_get-Change call (got x) s k f = stays (got x) at_check s tt (λ e. cc) f
fs_cached_get-Change go_on at_check s k f = elim (Bool-cases (nth_lifecycle_is_alive s.life)) [
  | inl alive ↦ rw alive (stays at_check at_read s (is_alive_lem s.life alive) (λ e. cc) f)
  | inr other ↦ rw other (stays at_check at_begin s tt (λ e. cc) f)
]
fs_cached_get-Change go_on at_read s k f = stays at_read (got s.value) s (k, refl) (λ e. cc) f
fs_cached_get-Change go_on at_begin s k f = begin-Change s.life s.value f
fs_cached_get-Change (computed v) at_compute s k f = stays at_compute (at_store v) s k (λ e. refl) f
fs_cached_get-Change (compute_failed r) at_compute s k f =
    stays at_compute (at_fail r) s k (λ e. refl) f
fs_cached_get-Change go_on (at_fail r) s k f = record {
  now = tt;
  frame = inr (not_alive s.life k, inl refl);
  enters = λ e. cc;
  full = λ e. cc;
}
fs_cached_get-Change go_on (at_store v) s k f = record {
  now = (k, refl);
  frame = inr (not_alive s.life k, inl refl);
  enters = λ e. inl refl;
  full = λ e. absurd (not_alive s.life k e);
}
fs_cached_get-Change go_on (at_end v) s k f = record {
  now = (refl, sym k.1);
  frame = inr (not_alive s.life k.0, inl refl);
  enters = λ e. cc;
  full = λ e. (v, k.1);
}
fs_cached_get-Change e p s k f = stays p p s k (λ h. h) f

-- The slot and the threads.
pub record Consistent (w : World) : Type 0 where
  pub knows : (i : ℕ) → Knows (w.place i) w.slot
  pub single : (i j : ℕ) → holds (w.place i) ≡ true → holds (w.place j) ≡ true → i ≡ j
  pub full : Full w.slot

pub holds-starting :
    (p : Place) (s : FsCachedPath) → Knows p s → holds p ≡ true → s.life ≡ life_starting
holds-starting at_compute s k h = k
holds-starting (at_fail r) s k h = k
holds-starting (at_store v) s k h = k
holds-starting (at_end v) s k h = k.0
holds-starting outside s k h = cc
holds-starting at_check s k h = cc
holds-starting at_read s k h = cc
holds-starting at_begin s k h = cc
holds-starting (failed r) s k h = cc
holds-starting (got x) s k h = cc

-- What another thread does under the word, or as it takes it.
Knows-frame :
    (p : Place) (s s' : FsCachedPath)
    → s.life ≢ life_alive
    → holds p ≡ false
    → Knows p s
    → Knows p s'
Knows-frame at_compute s s' n h k = cc
Knows-frame (at_fail r) s s' n h k = cc
Knows-frame (at_store v) s s' n h k = cc
Knows-frame (at_end v) s s' n h k = cc
Knows-frame outside s s' n h k = tt
Knows-frame at_check s s' n h k = tt
Knows-frame at_read s s' n h k = absurd (n k)
Knows-frame at_begin s s' n h k = tt
Knows-frame (failed r) s s' n h k = tt
Knows-frame (got x) s s' n h k = absurd (n k.0)

module _ (w : World) (i : ℕ) (c : Consistent w) (q : Place) (s' : FsCachedPath)
    (ch : Change (w.place i) q w.slot s') where
  -- Nobody else holds the word that the thread holds or finds dead.
  alone :
      (j : ℕ)
      → (i == j) ≡ false
      → (holds (w.place i) ≡ true) ⊎ (w.slot.life ≡ life_dead)
      → holds (w.place j) ≡ false
  alone j ne (inl held) = elim (Bool-cases (holds (w.place j))) [
    | inl inside ↦ let e = c.single i j held inside in absurd (ground (arith, ne, e))
    | inr out ↦ out
  ]
  alone j ne (inr dead) = elim (Bool-cases (holds (w.place j))) [
    | inl inside ↦ let e = holds-starting (w.place j) w.slot (c.knows j) inside in cc
    | inr out ↦ out
  ]

  other-Knows :
      (j : ℕ)
      → (i == j) ≡ false
      → (s' ≡ w.slot)
        ⊎ ((w.slot.life ≢ life_alive) × ((holds (w.place i) ≡ true) ⊎ (w.slot.life ≡ life_dead)))
      → Knows (w.place j) s'
  other-Knows j ne (inl same) = rw same (c.knows j)
  other-Knows j ne (inr (n, who)) = Knows-frame (w.place j) w.slot s' n (alone j ne who) (c.knows j)

  after : World
  after = record { slot = s'; place = put w.place i q }

  after-Knows : (j : ℕ) → Knows (put w.place i q j) s'
  after-Knows j = elim (Bool-cases (i == j)) [
    | inl same ↦ rw same ch.now
    | inr differ ↦ rw differ (other-Knows j differ ch.frame)
  ]

  after_single :
      (j k : ℕ) → holds (put w.place i q j) ≡ true → holds (put w.place i q k) ≡ true → j ≡ k
  after_single j k a b = elim (Bool-cases (i == j)) [
    | inl same ↦ elim (Bool-cases (i == k)) [
      | inl same' ↦ ground (arith, same, same')
      | inr differ' ↦
          let out = alone k differ' (ch.enters (rw same at a)) in let inside = rw differ' at b in cc
    ]
    | inr differ ↦ elim (Bool-cases (i == k)) [
      | inl same' ↦
          let out = alone j differ (ch.enters (rw same' at b)) in let inside = rw differ at a in cc
      | inr differ' ↦ c.single j k (rw differ at a) (rw differ' at b)
    ]
  ]

pub step-Consistent : (w : World) (i : ℕ) (e : Event) → Consistent w → Consistent (step w i e)
unfolding step
step-Consistent w i e c =
    let (q, s') = fs_cached_get e (w.place i) w.slot in
    let ch : Change (w.place i) q w.slot s' =
      fs_cached_get-Change e (w.place i) w.slot (c.knows i) c.full in
    record {
      knows = after-Knows w i c q s' ch;
      single = after_single w i c q s' ch;
      full = ch.full;
    }

pub run-Consistent : (w : World) (es : List (ℕ × Event)) → Consistent w → Consistent (run w es)
unfolding run
run-Consistent w [] c = c
run-Consistent w ((i, e) ∷ es) c = run-Consistent (step w i e) es (step-Consistent w i e c)

pub start-Consistent : Consistent start
start-Consistent = record { knows = λ i. tt; single = λ i j a b. cc; full = λ e. cc }
