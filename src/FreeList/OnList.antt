-- ===== src/FreeList/OnList.antt =====
-- modules/allocator/free_list.c: a block that is on a list, and the data of blocks.
use narthex.Prelude.{
  ℕ, ◌+◌, ◌*◌, ◌≤◌, ◌<◌, ◌≡◌, ◌≢◌, ◌⊎◌, refl, sym, ap, ◌∙◌, true, false, inl, inr, Option, none,
  some, List, [], ◌∷◌, arith, ltb, leb, ◌==◌, ==_iff, ◌&&◌, Bool-cases,
}
use narthex.Allocator.{NthSpan}
use narthex.FreeList.Blocks.{NthFreeListMeta, unlink, behind}
use narthex.FreeList.Cover.{csize, end, IsBlock, AllBlocks, covers, owners}
use narthex.FreeList.Table.{key_at, in_data}

-- The block is on the list.
abbrev pub OnList : List NthFreeListMeta → NthFreeListMeta → Type 0
OnList [] b = ⊥
OnList (m ∷ ms) b = (m ≡ b) ⊎ OnList ms b

-- `x` is data of the block: it lies in it, behind the header.
abbrev pub IsData : NthFreeListMeta → ℕ → Type 0
IsData b x = (b.at + 16 ≤ x) × (x < end b)

pub in_data-OnList :
    (ms : List NthFreeListMeta) (b : NthFreeListMeta) (x : ℕ)
    → OnList ms b
    → IsData b x
    → in_data ms x ≡ true
unfolding in_data
in_data-OnList [] b x h d = absurd h
in_data-OnList (m ∷ ms) b x (inl e) d =
    let inside : leb (m.at + 16) x && ltb x (m.at + csize m * 16) ≡ true =
      rw e (ground (arith, d)) in
    rw inside refl
in_data-OnList (m ∷ ms) b x (inr h) d =
    let later = in_data-OnList ms b x h d in ground (arith, later)

pub owners-OnList :
    (ms : List NthFreeListMeta) (b : NthFreeListMeta) (x : ℕ)
    → OnList ms b
    → b.at ≤ x
    → x < end b
    → 0 < owners ms x
owners-OnList [] b x h lo hi = absurd h
owners-OnList (m ∷ ms) b x (inl e) lo hi =
    let one : covers m x ≡ 1 = rw e (ground (arith, lo, hi)) in omega (arith, one)
owners-OnList (m ∷ ms) b x (inr h) lo hi = omega (arith, owners-OnList ms b x h lo hi)

pub IsBlock-OnList :
    (spans : List NthSpan) (count : ℕ) (ms : List NthFreeListMeta) (b : NthFreeListMeta)
    → AllBlocks spans count ms
    → OnList ms b
    → IsBlock spans count b
IsBlock-OnList spans count [] b all h = absurd h
IsBlock-OnList spans count (m ∷ ms) b all (inl e) = rw e at all.0
IsBlock-OnList spans count (m ∷ ms) b all (inr h) = IsBlock-OnList spans count ms b all.1 h

-- The header that `realloc` reads is that of the block.
pub key_at-OnList :
    (spans : List NthSpan) (count : ℕ) (ms : List NthFreeListMeta) (b : NthFreeListMeta)
    → AllBlocks spans count ms
    → ((x : ℕ) → owners ms x ≤ 1)
    → OnList ms b
    → key_at ms b.at ≡ b.key
key_at-OnList spans count [] b all once h = absurd h
key_at-OnList spans count (m ∷ ms) b all once (inl e) =
    let same : (m.at == b.at) ≡ true = rw e ((==_iff b.at b.at).1 refl) in
    rw same (ap (λ (u : NthFreeListMeta). u.key) e)
key_at-OnList spans count (m ∷ ms) b all once (inr h) =
    let q = IsBlock-OnList spans count ms b all.1 h in
    let two = owners-OnList ms b b.at h (omega arith) (omega (arith, q.some_cells)) in
    let other : (m.at == b.at) ≡ false = ground (arith, two, once b.at, all.0.some_cells) in
    rw other (key_at-OnList spans count ms b all.1 (λ x. omega (arith, once x)) h)

abbrev pub Left : Option (NthFreeListMeta × List NthFreeListMeta) → NthFreeListMeta → Type 0
Left none b = Unit
Left (some (u, rest)) b = OnList rest b

behind-Left :
    (m b : NthFreeListMeta) (o : Option (NthFreeListMeta × List NthFreeListMeta))
    → (m ≡ b) ⊎ Left o b
    → Left (behind m o) b
behind-Left m b none h = tt
behind-Left m b (some (u, rest)) h = h

-- Taking out one block leaves the others on the list.
pub unlink-Left :
    (ms : List NthFreeListMeta) (b : NthFreeListMeta) (head : ℕ)
    → OnList ms b
    → b.at ≢ head
    → Left (unlink ms head) b
unfolding unlink
unlink-Left [] b head h ne = tt
unlink-Left (m ∷ ms) b head h ne = elim (Bool-cases (m.at == head)) [
  | inl same ↦ rw same (elim h [
    | inl e ↦ absurd (ne (ap (λ (u : NthFreeListMeta). u.at) (sym e) ∙ (==_iff m.at head).0 same))
    | inr later ↦ later
  ])
  | inr differ ↦ rw differ (
      behind-Left m b (unlink ms head)
        (elim h [ inl e ↦ inl e | inr later ↦ inr (unlink-Left ms b head later ne) ]))
]
