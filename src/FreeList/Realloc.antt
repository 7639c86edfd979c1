-- ===== src/FreeList/Realloc.antt =====
-- `realloc` through the table keeps what the block held.
use narthex.Prelude.{
  ℕ, ◌+◌, ◌-◌, ◌*◌, ◌≤◌, ◌<◌, ◌≡◌, ◌≢◌, ◌⊎◌, refl, ap, ◌∙◌, true, false, inl, inr, Option, none,
  some, List, ◌∷◌, arith, ltb, leb, ◌==◌, ◌&&◌, Bool-cases,
}
use narthex.Prelude.Words.{u64_mod, sub64}
use narthex.Result.{Run, done, trap}
use narthex.FreeList.{NthFreeList, give_back, nth_free_list_first_fit, nth_free_list_free}
use narthex.FreeList.Blocks.{NthFreeListMeta, unlink, behind}
use narthex.FreeList.Cover.{csize, span_idx, end, IsBlock, covers, owners}
use narthex.FreeList.Inv.{IsValid, holders, Given, FirstFit, unwrapped-FirstFit}
use narthex.FreeList.Free.{nth_free_list_free-IsValid}
use narthex.FreeList.Table.{
  Memory, key_at, in_data, with_headers, put_list, copy_bytes, old_size, copied_size, moved,
  realloc_by, free_list_alloc_realloc_ff,
}
use narthex.FreeList.OnList.{
  OnList, IsData, in_data-OnList, owners-OnList, IsBlock-OnList, key_at-OnList, Left, unlink-Left,
}

-- The block `old` in use was moved to `new`, with room for `size` bytes.
pub record Moved (ctx : Memory) (old : NthFreeListMeta) (size new : ℕ) (ctx' : Memory)
    : Type 0 where
  pub block : NthFreeListMeta
  pub others : List NthFreeListMeta
  pub in_use : ctx'.list.p_used ≡ block ∷ others
  pub behind_header : new ≡ block.at + 16
  pub room : new + size ≤ end block
  pub kept :
      (k : ℕ)
      → k < size
      → IsData old (old.at + 16 + k)
      → ctx'.byte (new + k) ≡ ctx.byte (old.at + 16 + k)
  pub still : (b : NthFreeListMeta) → OnList ctx.list.p_used b → b.at ≢ old.at → OnList others b
  pub elsewhere :
      (b : NthFreeListMeta) (x : ℕ)
      → OnList ctx.list.p_used b
      → b.at ≢ old.at
      → IsData b x
      → ctx'.byte x ≡ ctx.byte x
  pub valid : IsValid ctx'.list
  pub same : (x : ℕ) → holders ctx'.list x ≡ holders ctx.list x

abbrev pub Reallocated : Memory → NthFreeListMeta → ℕ → Run (Option ℕ × Memory) → Type 0
Reallocated ctx old size (done (none, ctx')) = ctx' ≡ ctx
Reallocated ctx old size (done (some new, ctx')) = Moved ctx old size new ctx'
Reallocated ctx old size trap = ⊥

-- Freeing a block leaves another one first, and what else is on the list there.
first_stays :
    (l : NthFreeList) (block : NthFreeListMeta) (used : List NthFreeListMeta) (ptr : ℕ)
    → l.p_used ≡ block ∷ used
    → block.at ≢ sub64 ptr 16
    → (others : List NthFreeListMeta) × ((nth_free_list_free l ptr).p_used ≡ block ∷ others)
      × ((b : NthFreeListMeta) → OnList used b → b.at ≢ sub64 ptr 16 → OnList others b)
unfolding nth_free_list_free unlink
first_stays l block used ptr e ne =
    rw found (later (unlink used (sub64 ptr 16)) (λ b h n. unlink-Left used b (sub64 ptr 16) h n))
  where
    other : (block.at == sub64 ptr 16) ≡ false
    other = ground (arith, ne)

    found : unlink l.p_used (sub64 ptr 16) ≡ behind block (unlink used (sub64 ptr 16))
    found = ap (λ u. unlink u (sub64 ptr 16)) e ∙ rw other

    later :
        (o : Option (NthFreeListMeta × List NthFreeListMeta))
        → ((b : NthFreeListMeta) → OnList used b → b.at ≢ sub64 ptr 16 → Left o b)
        → (others : List NthFreeListMeta) × ((give_back l (behind block o)).p_used ≡ block ∷ others)
          × ((b : NthFreeListMeta) → OnList used b → b.at ≢ sub64 ptr 16 → OnList others b)
    later none left = (used, e, λ b h n. h)
    later (some (u, rest)) left = (rest, refl, left)

copy_bytes-inside :
    (byte : ℕ → ℕ) (to from n k : ℕ) → k < n → copy_bytes byte to from n (to + k) ≡ byte (from + k)
copy_bytes-inside byte to from n k h = rw inside (ap byte (omega arith))
  where
    inside : leb to (to + k) && ltb (to + k) (to + n) ≡ true
    inside = ground arith

copy_bytes-outside :
    (byte : ℕ → ℕ) (to from n x : ℕ)
    → (x < to) ⊎ (to + n ≤ x)
    → copy_bytes byte to from n x ≡ byte x
copy_bytes-outside byte to from n x h = rw outside
  where
    outside : leb to x && ltb x (to + n) ≡ false
    outside = ground arith

copied_size-le : (l : NthFreeList) (ptr size : ℕ) → copied_size l ptr size ≤ size
copied_size-le l ptr size = ground arith

module _ (headers : NthFreeList → ℕ → ℕ) (ctx : Memory) (old : NthFreeListMeta) (size : ℕ)
    (v : IsValid ctx.list) (on : OnList ctx.list.p_used old) where
  abbrev ptr : ℕ
  ptr = old.at + 16

  old-IsBlock : IsBlock ctx.list.spans ctx.list.span_count old
  old-IsBlock = IsBlock-OnList ctx.list.spans ctx.list.span_count ctx.list.p_used old v.used on

  head : sub64 ptr 16 ≡ old.at
  head =
      omega
        (arith, old-IsBlock.to, old-IsBlock.some_cells, v.fit (span_idx old) old-IsBlock.counted)

  -- What `realloc` copies reaches as far as both blocks do.
  copied : (k : ℕ) → k < size → IsData old (ptr + k) → k < copied_size ctx.list ptr size
  copied k lt d =
      let key : key_at ctx.list.p_used old.at ≡ old.key =
        key_at-OnList ctx.list.spans ctx.list.span_count ctx.list.p_used old v.used
          (λ x. omega (arith, v.once x)) on in
      let size_is : old_size ctx.list ptr ≡ (csize old - 1) * 16 =
        rw (head, key)
          (omega (
            arith,
            old-IsBlock.to,
            old-IsBlock.some_cells,
            v.fit (span_idx old) old-IsBlock.counted,
          )) in
      ground (arith, lt, d, size_is)

  module _ (new : ℕ) (l : NthFreeList) (g : Given ctx.list size new l) where
    -- A block that was in use before shares no byte with the new one.
    apart :
        (b : NthFreeListMeta) (x : ℕ)
        → OnList ctx.list.p_used b
        → b.at ≤ x
        → x < end b
        → g.block.at ≤ x
        → x < end g.block
        → ⊥
    apart b x h lo hi from to =
        let here : covers g.block x ≡ 1 = ground (arith, from, to) in
        omega (
          arith,
          here,
          owners-OnList ctx.list.p_used b x h lo hi,
          g.valid.once x,
          ap (λ u. owners u x) g.used,
        )

    new_cells : 0 < csize g.block
    new_cells = let all = rw g.used at g.valid.used in all.0.some_cells

    distinct : g.block.at ≢ sub64 ptr 16
    distinct e =
        apart old old.at on (omega arith) (omega (arith, old-IsBlock.some_cells))
          (omega (arith, e, head)) (omega (arith, e, head, new_cells))

    abbrev fitted : Memory
    fitted = put_list headers ctx l

    fitted_data :
        (b : NthFreeListMeta) (x : ℕ)
        → OnList ctx.list.p_used b
        → IsData b x
        → fitted.byte x ≡ ctx.byte x
    fitted_data b x h d =
        let data_now : in_data l.p_used x ≡ true =
          rw g.used (in_data-OnList (g.block ∷ ctx.list.p_used) b x (inr h) d) in
        rw data_now refl

    outside :
        (b : NthFreeListMeta) (x : ℕ)
        → OnList ctx.list.p_used b
        → IsData b x
        → (x < new) ⊎ (new + copied_size ctx.list ptr size ≤ x)
    outside b x h d = elim (Bool-cases (ltb x new)) [
      | inl before ↦ inl (ground (arith, before))
      | inr from ↦ elim (Bool-cases (ltb x (new + size))) [
        | inl inside ↦ absurd (
            apart b x h (omega (arith, d)) d.1 (ground (arith, from, g.behind_header))
              (ground (arith, inside, g.room)))
        | inr behind_it ↦ inr (ground (arith, behind_it, copied_size-le ctx.list ptr size))
      ]
    ]

    new-Moved : Moved ctx old size new (record {
      list = nth_free_list_free l ptr;
      byte =
          with_headers headers
            (nth_free_list_free l ptr)
            (copy_bytes fitted.byte new ptr (copied_size ctx.list ptr size));
    })
    new-Moved =
        let (others, stays, still) = first_stays l g.block ctx.list.p_used ptr g.used distinct in
        let (valid, same) = nth_free_list_free-IsValid l ptr g.valid in
        let n = copied_size ctx.list ptr size in
        let after = nth_free_list_free l ptr in
        let data_at : (b : NthFreeListMeta) (x : ℕ)
            → OnList (g.block ∷ others) b
            → IsData b x
            → in_data after.p_used x ≡ true =
          λ b x h d. rw stays (in_data-OnList (g.block ∷ others) b x h d) in
        record {
          block = g.block;
          others = others;
          in_use = stays;
          behind_header = g.behind_header;
          room = g.room;
          kept = λ k lt d.
              let here : in_data after.p_used (new + k) ≡ true =
                data_at g.block (new + k) (inl refl)
                  (omega (arith, g.behind_header), omega (arith, g.room, lt)) in
              rw here (
                copy_bytes-inside fitted.byte new ptr n k (copied k lt d)
                ∙ fitted_data old (ptr + k) on d);
          still = λ b h ne. still b h (λ e. ne (e ∙ head));
          elsewhere = λ b x h ne d.
              let here : in_data after.p_used x ≡ true =
                data_at b x (inr (still b h (λ e. ne (e ∙ head)))) d in
              let out : (x < new) ⊎ (new + n ≤ x) = outside b x h d in
              rw here (copy_bytes-outside fitted.byte new ptr n x out ∙ fitted_data b x h d);
          valid = valid;
          same = λ x. same x ∙ g.same x;
        }

  moved-Reallocated :
      (r : Option ℕ × NthFreeList)
      → FirstFit ctx.list size r
      → Reallocated ctx old size (moved headers ctx ptr size r)
  unfolding moved
  moved-Reallocated (none, l) f = ap (λ t. record ctx { list = t }) f.0
  moved-Reallocated (some new, l) g = new-Moved new l g

-- `realloc` of a block in use to `size` bytes, above 0 and below 2 ^ 64 - 15, by the first fit on a
-- valid list, either returns NULL and changes nothing, or returns a new block in use with room for
-- them. Each of its first `size` bytes is that of the old block, as far as the data of the old block
-- reached. The other blocks in use stay so, the bytes of their data stay, whatever the list writes
-- into headers, and the list stays valid over the same bytes.
pub free_list_alloc_realloc_ff-Reallocated :
    (headers : NthFreeList → ℕ → ℕ) (ctx : Memory) (old : NthFreeListMeta) (size align : ℕ)
    → IsValid ctx.list
    → OnList ctx.list.p_used old
    → 0 < size
    → size + 15 < u64_mod
    → Reallocated ctx old size
        (free_list_alloc_realloc_ff headers ctx (some (old.at + 16)) size align)
unfolding free_list_alloc_realloc_ff realloc_by
free_list_alloc_realloc_ff-Reallocated headers ctx old size align v on pos lt = rw some_bytes (
    moved-Reallocated headers ctx old size v on (nth_free_list_first_fit ctx.list size)
      (unwrapped-FirstFit ctx.list size v lt))
  where
    some_bytes : (size == 0) ≡ false
    some_bytes = ground arith
