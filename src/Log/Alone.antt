-- ===== src/Log/Alone.antt =====
-- src/nth_log.c: a call that no other thread disturbs is a run of the steps of `Log.Threads`.
use mathlib.Core.List.{append_assoc, append-nil}
use narthex.Prelude.{
  ℕ, ◌+◌, ◌^◌, ◌<◌, ◌≡◌, ◌≢◌, inl, inr, refl, ap, ◌∙◌, Bool, Bool-cases, true, false, List, [], ◌∷◌,
  ◌++◌, length, Option, none, some, arith, ltb, ◌==◌, if◌then◌else◌,
}
use narthex.Prelude.Int.{ℤ}
use narthex.Prelude.Words.{sub64}
use narthex.Log.{GLog, Tm, Entry, entry_of, flush_buffer, log_fixed_size}
use narthex.Log.Threads.{
  Place, outside, at_test, at_reserve, at_each, flush_lock, Shared, Move, World, pick, Reachable,
  next, put, line_of, stamp_at, set_lock, call_log, lock, room, no_room, quiet, output, reserve,
  count, unlock, prefix, message, newline, release, each, not_each, lock_flush, quiet_flush,
  output_flush, unlock_flush,
}
use narthex.Log.Family.{put_self, put-other}
use narthex.Log.Calls.{
  log_flush_locked, ◌>>=◌, nth_flush, append_line, finish_append, log_append, nth_logn,
}

abbrev pub flush_result : GLog → GLog × List ℕ
flush_result g = (
  record (flush_buffer (record g { lock = true })).0 { lock = false },
  (flush_buffer (record g { lock = true })).1,
)

pub nth_flush-quiet :
    (g : GLog) → g.lock ≡ false → g.inflight ≡ 0 → nth_flush g ≡ some (flush_result g)
unfolding nth_flush log_flush_locked
nth_flush-quiet g l z = ground (arith, l, z)

append_line-quiet :
    (localtime : ℤ → Option Tm) (e : Entry) (now : ℤ) (g : GLog)
    → g.inflight ≡ 0
    → ((append_line localtime e now g).lock ≡ false)
      × ((append_line localtime e now g).inflight ≡ 0)
unfolding append_line
append_line-quiet localtime e now g z = (refl, ground (arith, z))

-- The log that `log_append` takes room in, and what a flush before that hands on.
prepared : Entry → GLog → GLog × List ℕ
prepared e g =
    if ltb (sub64 e.cap g.buf_index) e.full
    then flush_buffer (record g { lock = true })
    else (record g { lock = true }, [])

prepared-quiet :
    (localtime : ℤ → Option Tm) (now : ℤ) (e : Entry) (g : GLog)
    → ((prepared e g).0.inflight ≡ g.inflight)
      × (stamp_at localtime now (prepared e g).0 ≡ stamp_at localtime now g)
unfolding prepared flush_buffer
prepared-quiet localtime now e g = elim (Bool-cases (ltb (sub64 e.cap g.buf_index) e.full)) [
  | inl short ↦ rw short (elim (Bool-cases (g.buf_index == 0)) [
    | inl empty ↦ rw empty (refl, ground arith)
    | inr filled ↦ rw filled (refl, ground arith)
  ])
  | inr enough ↦ rw enough (refl, ground arith)
]

prepared_lem :
    (e : Entry) (g : GLog)
    → g.inflight ≡ 0
    → (if ltb (sub64 e.cap g.buf_index) e.full
        then log_flush_locked (record g { lock = true })
        else some (record g { lock = true }, []))
      ≡ some (prepared e g)
unfolding prepared log_flush_locked
prepared_lem e g z = elim (Bool-cases (ltb (sub64 e.cap g.buf_index) e.full)) [
  | inl short ↦ rw (short, z)
  | inr enough ↦ rw enough
]

abbrev ready : Entry → Shared → Shared
ready e s = record s { log = (prepared e s.log).0; sent = s.sent ++ (prepared e s.log).1 }

-- The flush after every line, where it is switched on.
abbrev each_result : Bool → GLog → GLog × List ℕ
each_result b g = if b then flush_result g else (g, [])

last_flush :
    (g : GLog) (out : List ℕ) (b : Bool)
    → nth_flush g ≡ some (flush_result g)
    → ◌>>=◌ {B = GLog × List ℕ}
        (if b then nth_flush g else some (g, []))
        (λ (x : GLog × List ℕ). some (x.0, out ++ x.1))
      ≡ some ((each_result b g).0, out ++ (each_result b g).1)
last_flush g out true h = rw h
last_flush g out false h = refl

-- What `log_append` returns when nobody holds the lock or is in flight.
log_append-quiet :
    (localtime : ℤ → Option Tm) (level : ℕ) (msg : List ℕ) (now : ℤ) (g : GLog)
    → g.lock ≡ false
    → g.inflight ≡ 0
    → let e = entry_of g.buf_size level msg in
      let g2 = append_line localtime e now (prepared e g).0 in
      log_append localtime level msg now g
      ≡ some
          ((each_result g2.flush_each g2).0, (prepared e g).1 ++ (each_result g2.flush_each g2).1)
unfolding log_append finish_append
log_append-quiet localtime level msg now g l z =
    let e : Entry = entry_of g.buf_size level msg in
    let g2 : GLog = append_line localtime e now (prepared e g).0 in
    let calm : (g2.lock ≡ false) × (g2.inflight ≡ 0) =
      append_line-quiet localtime e now (prepared e g).0
        ((prepared-quiet localtime now e g).0 ∙ z) in
    ap
      (λ b.
        if b
        then none
        else (if ltb (sub64 e.cap g.buf_index) e.full
            then log_flush_locked (record g { lock = true })
            else some (record g { lock = true }, []))
          >>= finish_append localtime e now)
      l
    ∙ ap (λ m. m >>= finish_append localtime e now) (prepared_lem e g z)
    ∙ last_flush g2 (prepared e g).1 g2.flush_each (nth_flush-quiet g2 calm.0 calm.1)

module _ (localtime : ℤ → Option Tm) (n : ℕ) (i : ℕ) (w : World) where
  -- The states that thread `i` reaches from `w` while no other thread takes a step.
  pub data ByThread : World → Type 0 where
    here : ByThread w
    then_move :
        {v : World} {s : Shared} {p : Place}
        → ByThread v
        → Move localtime v.shared (v.place i) s p
        → ByThread (record { shared = s; place = put v.place i p })

  -- Thread `i` alone has led from `w` to a state with `s` shared, where it stands at `p`. That state
  -- is reachable, and the other threads stand where they stood.
  pub record After (s : Shared) (p : Place) : Type 0 where
    pub world : World
    pub alone : ByThread world
    pub reach : Reachable localtime n world
    pub shared : world.shared ≡ s
    pub mine : world.place i ≡ p
    pub others : (j : ℕ) → i ≢ j → world.place j ≡ w.place j

module _ (localtime : ℤ → Option Tm) (n : ℕ) (i : ℕ) (lt : i < n) (w : World) where
  moved :
      {s s' : Shared} {p p' : Place}
      → After localtime n i w s p
      → Move localtime s p s' p'
      → After localtime n i w s' p'
  moved {s} {s'} {p} {p'} a mv = record {
    world = record { shared = s'; place = put a.world.place i p' };
    alone = then_move a.alone (subst₂ a.shared a.mine mv);
    reach = next a.reach (pick i lt (subst₂ a.shared a.mine mv));
    shared = refl;
    mine = put_self a.world.place i p';
    others = λ j ne. put-other a.world.place i p' j ne ∙ a.others j ne;
  }
    where
      subst₂ :
          a.world.shared ≡ s
          → a.world.place i ≡ p
          → Move localtime s p s' p'
          → Move localtime a.world.shared (a.world.place i) s' p'
      subst₂ e f m = rw (e, f) m

  After-same :
      {s t : Shared}
      → After localtime n i w s outside
      → s.log ≡ t.log
      → s.sent ≡ t.sent
      → s.lines ≡ t.lines
      → After localtime n i w t outside
  After-same {s} {t} a e f g = let same : s ≡ t = ground (arith, e, f, g) in rw same at a

  flush_steps :
      {s : Shared}
      → After localtime n i w s flush_lock
      → s.log.lock ≡ false
      → s.log.inflight ≡ 0
      → After localtime n i w
          (record s { log = (flush_result s.log).0; sent = s.sent ++ (flush_result s.log).1 })
          outside
  flush_steps a l z =
      moved (moved (moved (moved a (lock_flush l)) (quiet_flush z)) output_flush) unlock_flush

  append_steps :
      {s : Shared} (e : Entry) (now : ℤ)
      → After localtime n i w s (at_reserve e now)
      → After localtime n i w
          (record s {
            log = append_line localtime e now s.log;
            lines = s.lines ++ (line_of e (stamp_at localtime now s.log) ∷ []);
          })
          at_each
  unfolding append_line
  append_steps e now a =
      moved
        (moved (moved (moved (moved (moved (moved a reserve) count) unlock) prefix) message)
          newline)
        release

  call_steps :
      {s : Shared} (level : ℕ) (msg : List ℕ) (now : ℤ)
      → After localtime n i w s outside
      → s.log.lock ≡ false
      → s.log.inflight ≡ 0
      → log_fixed_size + length msg < 2 ^ 64
      → After localtime n i w
          (ready (entry_of s.log.buf_size level msg) s)
          (at_reserve (entry_of s.log.buf_size level msg) now)
  unfolding prepared
  call_steps {s} level msg now a l z h =
      let e : Entry = entry_of s.log.buf_size level msg in
      let locked : After localtime n i w (set_lock true s) (at_test e now) =
        moved (moved a (call_log level msg now h)) (lock l) in
      elim (Bool-cases (ltb (sub64 e.cap s.log.buf_index) e.full)) [
        | inl short ↦
            rw short
              (moved (moved (moved locked (no_room (ground (arith, short)))) (quiet z)) output)
        | inr enough ↦ rw (enough, append-nil) (moved locked (room (ground (arith, enough))))
      ]

  last_steps :
      {s : Shared}
      → After localtime n i w s at_each
      → s.log.lock ≡ false
      → s.log.inflight ≡ 0
      → (b : Bool) → s.log.flush_each ≡ b
      → After localtime n i w
          (record s { log = (each_result b s.log).0; sent = s.sent ++ (each_result b s.log).1 })
          outside
  last_steps a l z true h = flush_steps (moved a (each h)) l z
  last_steps a l z false h = rw append-nil (moved a (not_each h))

  -- From a reachable state where the lock is free and nobody is in flight, `nth_logn` of a thread
  -- outside returns, for a message whose line has fewer than 2 ^ 64 bytes; and the state that it
  -- leaves, with the line for which it took room, is reached from there by steps of that thread
  -- alone, after which the thread is outside again.
  pub nth_logn-Alone :
      (level : ℕ) (msg : List ℕ) (now : ℤ)
      → Reachable localtime n w
      → w.place i ≡ outside
      → w.shared.log.lock ≡ false
      → w.shared.log.inflight ≡ 0
      → log_fixed_size + length msg < 2 ^ 64
      → (g : GLog) × (out : List ℕ) × (nth_logn localtime level msg now w.shared.log
          ≡ some (g, out))
        × After localtime n i w
            (record {
              log = g;
              sent = w.shared.sent ++ out;
              lines =
                  w.shared.lines
                  ++ (line_of
                        (entry_of w.shared.log.buf_size level msg)
                        (stamp_at localtime now w.shared.log)
                      ∷ []);
            })
            outside
  unfolding nth_logn log_append
  nth_logn-Alone level msg now r o l z h =
      let a : After localtime n i w w.shared outside = record {
        world = w;
        alone = here;
        reach = r;
        shared = refl;
        mine = o;
        others = λ j ne. refl;
      } in
      let e : Entry = entry_of w.shared.log.buf_size level msg in
      let b = append_steps e now (call_steps level msg now a l z h) in
      let same = prepared-quiet localtime now e w.shared.log in
      let calm = append_line-quiet localtime e now (prepared e w.shared.log).0 (same.0 ∙ z) in
      let g2 : GLog = append_line localtime e now (prepared e w.shared.log).0 in
      let last = last_steps b calm.0 calm.1 g2.flush_each refl in
      (
        (each_result g2.flush_each g2).0,
        (prepared e w.shared.log).1 ++ (each_result g2.flush_each g2).1,
        log_append-quiet localtime level msg now w.shared.log l z,
        After-same last refl
            (append_assoc w.shared.sent (prepared e w.shared.log).1
              (each_result g2.flush_each g2).1)
            (ap (λ st. w.shared.lines ++ (line_of e st ∷ [])) same.1),
      )
