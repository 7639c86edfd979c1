-- ===== src/FreeList/Cover.antt =====
-- Which bytes the blocks of a list take up. Coalescing keeps them.
use narthex.Prelude.{
  ℕ, ◌+◌, ◌*◌, ◌%◌, ◌^◌, ◌≤◌, ◌<◌, ◌≡◌, ◌∙◌, true, ◌&&◌, List, [], ◌∷◌, arith, ltb, leb,
  if◌then◌else◌,
}
use narthex.Prelude.Words.{u64_mod, add64}
use narthex.Allocator.{NthSpan}
use narthex.DynArena.{span_at}
use narthex.FreeList.Key.{
  flist_csize, flist_span_idx, csize-set_csize, span_idx-set_csize, set_csize-lt, flist_csize-lt,
}
use narthex.FreeList.Blocks.{NthFreeListMeta, past, touches, absorb}

abbrev pub csize : NthFreeListMeta → ℕ
csize m = flist_csize m.key

abbrev pub span_idx : NthFreeListMeta → ℕ
span_idx m = flist_span_idx m.key

abbrev pub end : NthFreeListMeta → ℕ
end m = m.at + csize m * 16

-- A block of some cells, on a multiple of 16 inside its span, one of the first `count`.
pub record IsBlock (spans : List NthSpan) (count : ℕ) (m : NthFreeListMeta) : Type 0 where
  pub key_fits : m.key < u64_mod
  pub aligned : m.at % 16 ≡ 0
  pub some_cells : 0 < csize m
  pub from : (span_at spans (span_idx m)).base ≤ m.at
  pub to : end m ≤ (span_at spans (span_idx m)).base + (span_at spans (span_idx m)).size
  pub counted : span_idx m < count

abbrev pub AllBlocks : List NthSpan → ℕ → List NthFreeListMeta → Type 0
AllBlocks spans count [] = Unit
AllBlocks spans count (m ∷ ms) = IsBlock spans count m × AllBlocks spans count ms

-- No span in use wraps round the address space, and the cells of one fit the field of 48 bits.
abbrev pub SpansFit : List NthSpan → ℕ → Type 0
SpansFit spans count =
    (i : ℕ)
    → i < count
    → ((span_at spans i).base + (span_at spans i).size < u64_mod)
      × ((span_at spans i).size < 2 ^ 52)

-- How often the block, and the blocks of a list, cover the byte at `x`.
abbrev pub covers : NthFreeListMeta → ℕ → ℕ
covers m x = if leb m.at x && ltb x (end m) then 1 else 0

abbrev pub owners : List NthFreeListMeta → ℕ → ℕ
owners [] x = 0
owners (m ∷ ms) x = covers m x + owners ms x

module _ (spans : List NthSpan) (count : ℕ) (fit : SpansFit spans count) where
  pub past-end :
      (m : NthFreeListMeta) (n : ℕ) → IsBlock spans count m → n ≤ csize m → past m n ≡ m.at + n * 16
  past-end m n b h = omega (arith, b.to, fit (span_idx m) b.counted, flist_csize-lt m.key)

  -- `ys` are blocks too, and cover what `xs` do.
  abbrev pub Same : List NthFreeListMeta → List NthFreeListMeta → Type 0
  Same xs ys = AllBlocks spans count ys × ((x : ℕ) → owners ys x ≡ owners xs x)

  -- What `touches` means.
  pub record Joined (a b : NthFreeListMeta) : Type 0 where
    pub key_fits : (absorb a b).key < u64_mod
    pub sum : csize (absorb a b) ≡ csize a + csize b
    pub same_idx : span_idx (absorb a b) ≡ span_idx a
    pub block : IsBlock spans count (absorb a b)

  pub touches-ends :
      (a b : NthFreeListMeta)
      → IsBlock spans count a
      → touches a b ≡ true
      → (span_idx a ≡ span_idx b) × (end a ≡ b.at)
  touches-ends a b p e = ground (arith, past-end a (csize a) p)

  pub absorb-Joined :
      (a b : NthFreeListMeta)
      → IsBlock spans count a
      → IsBlock spans count b
      → touches a b ≡ true
      → Joined a b
  absorb-Joined a b p q e =
      let (same, ends) = touches-ends a b p e in
      let to : end b ≤ (span_at spans (span_idx a)).base + (span_at spans (span_idx a)).size =
        rw same q.to in
      let small : csize a + csize b < 2 ^ 48 = omega (arith, p.from, fit (span_idx a) p.counted) in
      let added : add64 (csize a) (csize b) ≡ csize a + csize b = omega arith in
      let sum : csize (absorb a b) ≡ csize a + csize b =
        csize-set_csize a.key (add64 (csize a) (csize b)) p.key_fits (omega arith) ∙ added in
      let idx : span_idx (absorb a b) ≡ span_idx a =
        span_idx-set_csize a.key (add64 (csize a) (csize b)) p.key_fits in
      let lt = set_csize-lt a.key (add64 (csize a) (csize b)) p.key_fits in
      record {
        key_fits = lt;
        sum = sum;
        same_idx = idx;
        block = record {
          key_fits = lt;
          aligned = p.aligned;
          some_cells = omega (arith, sum, p.some_cells);
          from = rw idx p.from;
          to = rw (idx, sum) (omega arith);
          counted = rw idx p.counted;
        };
      }
