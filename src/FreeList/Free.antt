-- ===== src/FreeList/Free.antt =====
-- Giving a block back.
use narthex.Prelude.{
  ℕ, ◌+◌, ◌≤◌, ◌≡◌, refl, inl, inr, Option, none, some, List, [], ◌∷◌, arith, ◌==◌, Bool-cases,
}
use narthex.Prelude.Words.{sub64}
use narthex.Allocator.{NthSpan}
use narthex.FreeList.{NthFreeList, give_back, nth_free_list_free}
use narthex.FreeList.Blocks.{NthFreeListMeta, unlink, behind}
use narthex.FreeList.Cover.{IsBlock, AllBlocks, covers, owners}
use narthex.FreeList.Merge.{add_free-Same}
use narthex.FreeList.Order.{Clear, add_free-Ordered}
use narthex.FreeList.Inv.{IsValid, holders}

module _ (spans : List NthSpan) (count : ℕ) where
  -- What `unlink` finds.
  abbrev Unlinked : List NthFreeListMeta → Option (NthFreeListMeta × List NthFreeListMeta) → Type 0
  Unlinked used none = Unit
  Unlinked used (some (u, rest)) =
      IsBlock spans count u
      × AllBlocks spans count rest
      × ((x : ℕ) → covers u x + owners rest x ≡ owners used x)

  behind-Unlinked :
      (m : NthFreeListMeta) (used : List NthFreeListMeta)
      → IsBlock spans count m
      → (o : Option (NthFreeListMeta × List NthFreeListMeta)) → Unlinked used o
      → Unlinked (m ∷ used) (behind m o)
  behind-Unlinked m used b none h = tt
  behind-Unlinked m used b (some (u, rest)) h = (h.0, (b, h.1), λ x. omega (arith, h.2 x))

  unlink-Unlinked :
      (used : List NthFreeListMeta) (head : ℕ)
      → AllBlocks spans count used
      → Unlinked used (unlink used head)
  unfolding unlink
  unlink-Unlinked [] head all = tt
  unlink-Unlinked (m ∷ rest) head all = elim (Bool-cases (m.at == head)) [
    | inl found ↦ rw found (all.0, all.1, λ x. refl)
    | inr on ↦
        rw on (behind-Unlinked m rest all.0 (unlink rest head) (unlink-Unlinked rest head all.1))
  ]

  -- A block that shares no byte with a list overlaps none of it.
  pub apart-Clear :
      (u : NthFreeListMeta) (free : List NthFreeListMeta)
      → IsBlock spans count u
      → AllBlocks spans count free
      → ((x : ℕ) → covers u x + owners free x ≤ 1)
      → Clear u free
  apart-Clear u [] b all once = tt
  apart-Clear u (n ∷ ns) b all once = (
    ground (arith, once u.at, once n.at, b.some_cells, all.0.some_cells),
    apart-Clear u ns b all.1 (λ x. omega (arith, once x)),
  )

-- `nth_free_list_free` of any address leaves a valid list valid, coalesced and in order, and the
-- bytes of its blocks the same.
pub nth_free_list_free-IsValid :
    (l : NthFreeList) (addr : ℕ)
    → IsValid l
    → IsValid (nth_free_list_free l addr)
      × ((x : ℕ) → holders (nth_free_list_free l addr) x ≡ holders l x)
unfolding nth_free_list_free
nth_free_list_free-IsValid l addr v =
    given_back (unlink l.p_used (sub64 addr 16))
      (unlink-Unlinked l.spans l.span_count l.p_used (sub64 addr 16) v.used)
  where
    given_back :
        (o : Option (NthFreeListMeta × List NthFreeListMeta))
        → Unlinked l.spans l.span_count l.p_used o
        → IsValid (give_back l o) × ((x : ℕ) → holders (give_back l o) x ≡ holders l x)
    given_back none h = (v, λ x. refl)
    given_back (some (u, used)) (b, all, same) =
        let s = add_free-Same l.spans l.span_count v.fit l.p_free u v.free b in
        let apart =
          apart-Clear l.spans l.span_count u l.p_free b v.free
            (λ x. omega (arith, v.once x, same x)) in
        (
          record {
            few = v.few;
            fit = v.fit;
            free = s.0;
            used = all;
            once = λ x. omega (arith, v.once x, same x, s.1 x);
            ordered =
                add_free-Ordered l.spans l.span_count v.fit l.p_free u v.free b v.ordered apart;
          },
          λ x. omega (arith, same x, s.1 x),
        )
