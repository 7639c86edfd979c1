-- ===== src/FreeList/Took.antt =====
-- A block that is taken from the free list, and that giving it back undoes it.
use narthex.Prelude.{
  ℕ, ◌+◌, ◌-◌, ◌*◌, ◌^◌, ◌≤◌, ◌<◌, ◌≡◌, refl, ap, ◌∙◌, true, false, List, [], ◌∷◌, arith, ltb,
}
use narthex.Prelude.Words.{u64_mod, add64, sub64}
use narthex.Allocator.{NthSpan}
use narthex.FreeList.Key.{
  flist_csize, flist_span_idx, flist_set_csize, csize-set_csize, span_idx-set_csize,
  csize-set_span_idx, span_idx-set_span_idx, set_csize-lt, set_span_idx-lt, flist_csize-lt,
  key-fields,
}
use narthex.FreeList.Blocks.{
  NthFreeListMeta, past, touches, absorb, merge_next, merge_prev, add_behind,
  nth_free_list_add_free, new_meta,
}
use narthex.FreeList.Cover.{
  csize, span_idx, end, IsBlock, AllBlocks, SpansFit, covers, owners, past-end,
}
use narthex.FreeList.Order.{Before, Ordered, touches-eq, Before-carry, Before-skip}

-- A key is determined by its fields.
same_key :
    (a b : ℕ)
    → a < u64_mod
    → b < u64_mod
    → flist_csize a ≡ flist_csize b
    → flist_span_idx a ≡ flist_span_idx b
    → a ≡ b
same_key a b ha hb c i = omega (arith, key-fields a ha, key-fields b hb)

module _ (spans : List NthSpan) (count : ℕ) (fit : SpansFit spans count)
    (few : count ≤ 2 ^ 16) where
  -- The block `u` was taken from `free` for `c` cells, and left `f`. Whatever came before `free`
  -- may come before `f`, and giving `u` back to `f` makes `free` again.
  pub record Took (free : List NthFreeListMeta) (c : ℕ) (u : NthFreeListMeta)
      (f : List NthFreeListMeta) : Type 0 where
    pub block : IsBlock spans count u
    pub enough : c ≤ csize u
    pub rest : AllBlocks spans count f
    pub same : (x : ℕ) → covers u x + owners f x ≡ owners free x
    pub ordered : Ordered f
    pub before : (p : NthFreeListMeta) → IsBlock spans count p → Before p free → Before p f
    pub back : nth_free_list_add_free f u ≡ free
    pub back_behind :
        (p : NthFreeListMeta) → Before p free → p.at < u.at → add_behind p f u ≡ p ∷ free
    pub beyond : (p : NthFreeListMeta) → IsBlock spans count p → Before p free → p.at < u.at

  module _ (m : NthFreeListMeta) (rest : List NthFreeListMeta) (c : ℕ) (b : IsBlock spans count m)
      (all : AllBlocks spans count rest) (o : Ordered (m ∷ rest)) (pos : 0 < c) where
    -- The used part of a block that is split, and what remains of it.
    unfoldable pub front : NthFreeListMeta
    front = record m { key = flist_set_csize m.key c }

    unfoldable pub remainder : NthFreeListMeta
    remainder = new_meta (past m c) (sub64 (csize m) c) (span_idx m)

    record Split : Type 0 where
      f_csize : csize front ≡ c
      f_idx : span_idx front ≡ span_idx m
      r_at : remainder.at ≡ m.at + c * 16
      r_csize : csize remainder ≡ csize m - c
      r_idx : span_idx remainder ≡ span_idx m
      front_block : IsBlock spans count front
      remainder_block : IsBlock spans count remainder

    split : c + 1 < csize m → Split
    unfolding front remainder new_meta
    split lt =
        let cs : csize front ≡ c =
          csize-set_csize m.key c b.key_fits (omega (arith, flist_csize-lt m.key)) in
        let ci : span_idx front ≡ span_idx m = span_idx-set_csize m.key c b.key_fits in
        let ra : remainder.at ≡ m.at + c * 16 = past-end spans count fit m c b (omega arith) in
        let left : sub64 (csize m) c ≡ csize m - c = omega (arith, flist_csize-lt m.key) in
        let k : ℕ = flist_set_csize 0 (sub64 (csize m) c) in
        let kl = set_csize-lt 0 (sub64 (csize m) c) (omega arith) in
        let rc : csize remainder ≡ csize m - c =
          csize-set_span_idx k (span_idx m) kl
          ∙ (csize-set_csize 0 (sub64 (csize m) c) (omega arith)
                (omega (arith, left, flist_csize-lt m.key))
              ∙ left) in
        let ri : span_idx remainder ≡ span_idx m =
          span_idx-set_span_idx k (span_idx m) kl (omega (arith, b.counted)) in
        record {
          f_csize = cs;
          f_idx = ci;
          r_at = ra;
          r_csize = rc;
          r_idx = ri;
          front_block = record {
            key_fits = set_csize-lt m.key c b.key_fits;
            aligned = b.aligned;
            some_cells = omega (arith, cs);
            from = rw ci b.from;
            to = rw ci (omega (arith, cs, b.to));
            counted = rw ci b.counted;
          };
          remainder_block = record {
            key_fits = set_span_idx-lt k (span_idx m) kl;
            aligned = omega (arith, ra, b.aligned);
            some_cells = omega (arith, rc);
            from = rw ri (omega (arith, ra, b.from));
            to = rw ri (omega (arith, ra, rc, b.to));
            counted = rw ri b.counted;
          };
        }

    front-at : front.at ≡ m.at
    unfolding front
    front-at = refl

    joins : (w : Split) → touches front remainder ≡ true
    joins w =
        touches-eq spans count fit front remainder w.front_block
        ∙ ground (arith, w.f_idx, w.r_idx, w.f_csize, w.r_at, front-at)

    rejoined : c + 1 < csize m → (w : Split) → absorb front remainder ≡ m
    unfolding front
    rejoined lt w =
        let sum : add64 (csize front) (csize remainder) ≡ csize m =
          omega (arith, w.f_csize, w.r_csize, flist_csize-lt m.key) in
        ap (λ k. record { at = m.at; key = k })
          (same_key (absorb front remainder).key m.key
            (set_csize-lt front.key _ w.front_block.key_fits) b.key_fits
            (csize-set_csize front.key (add64 (csize front) (csize remainder))
                w.front_block.key_fits (omega (arith, sum, flist_csize-lt m.key))
              ∙ sum)
            (span_idx-set_csize front.key (add64 (csize front) (csize remainder))
                w.front_block.key_fits
              ∙ w.f_idx))

    nexts : c + 1 < csize m → (w : Split) → merge_next front (remainder ∷ rest) ≡ (m, rest)
    nexts lt w = rw (joins w) (ap (λ a. (a, rest)) (rejoined lt w))

    pub split-Took : c + 1 < csize m → Took (m ∷ rest) c front (remainder ∷ rest)
    unfolding nth_free_list_add_free add_behind
    split-Took lt =
        let w = split lt in
        let ends : end remainder ≡ end m = omega (arith, w.r_at, w.r_csize) in
        record {
          block = w.front_block;
          enough = omega (arith, w.f_csize);
          rest = (w.remainder_block, all);
          same = λ x. ground (arith, front-at, w.f_csize, w.r_at, w.r_csize);
          ordered = (
            Before-carry spans count fit remainder m rest w.remainder_block b w.r_idx ends o.0,
            o.1,
          );
          before = λ p q h. (
            omega (arith, w.r_at, h.0),
            touches-eq spans count fit p remainder q ∙ ground (arith, w.r_at, h.0),
          );
          back = rw (not_below w, joins w, rejoined lt w);
          back_behind = λ p h below. rw (not_below w) (ap (merge_prev p) (nexts lt w) ∙ rw h.1);
          beyond = λ p q h. omega (arith, front-at, h.0, q.some_cells);
        }
      where
        not_below : Split → ltb remainder.at front.at ≡ false
        not_below w = ground (arith, w.r_at, front-at)

    unfoldable pub whole : NthFreeListMeta
    whole = record m { key = flist_set_csize m.key (csize m) }

    whole-eq : whole ≡ m
    unfolding whole
    whole-eq =
        ap (λ k. record { at = m.at; key = k })
          (same_key (flist_set_csize m.key (csize m)) m.key
            (set_csize-lt m.key (csize m) b.key_fits) b.key_fits
            (csize-set_csize m.key (csize m) b.key_fits (flist_csize-lt m.key))
            (span_idx-set_csize m.key (csize m) b.key_fits))

    back_whole : (ns : List NthFreeListMeta) → Before m ns → nth_free_list_add_free ns m ≡ m ∷ ns
    unfolding nth_free_list_add_free
    back_whole [] before = refl
    back_whole (n ∷ ns) before = rw (over, before.1)
      where
        over : ltb n.at m.at ≡ false
        over = ground (arith, before.0)

    back_whole_behind :
        (p : NthFreeListMeta) (ns : List NthFreeListMeta)
        → Before m ns
        → touches p m ≡ false
        → add_behind p ns m ≡ p ∷ (m ∷ ns)
    unfolding add_behind
    back_whole_behind p [] before apart = rw apart
    back_whole_behind p (n ∷ ns) before apart = rw (over, before.1, apart)
      where
        over : ltb n.at m.at ≡ false
        over = ground (arith, before.0)

    pub whole-Took : c ≤ csize m → Took (m ∷ rest) c whole rest
    whole-Took le = rw whole-eq (record {
      block = b;
      enough = le;
      rest = all;
      same = λ x. refl;
      ordered = o.1;
      before = λ p q h. Before-skip spans count fit p m rest q b h.0 o.0;
      back = back_whole rest o.0;
      back_behind = λ p h below. back_whole_behind p rest o.0 h.1;
      beyond = λ p q h. omega (arith, h.0, q.some_cells);
    })
