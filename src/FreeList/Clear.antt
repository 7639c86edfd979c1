-- ===== src/FreeList/Clear.antt =====
-- Set-up and clearing make a valid list out of spans alone.
use narthex.Prelude.{ℕ, zero, suc, ◌^◌, ◌≤◌, ◌<◌, ◌≡◌, refl, some, List, [], arith, set, length}
use narthex.Result.{result_ok}
use narthex.Allocator.{NthSpan}
use narthex.DynArena.{span_at}
use narthex.DynArena.Inv.{span_at-set_self}
use narthex.FreeList.{NthFreeList, carve_spans, nth_free_list_clear, nth_setup_free_list}
use narthex.FreeList.Cover.{owners}
use narthex.FreeList.Inv.{IsValid}
use narthex.FreeList.Setup.{IsSpan, InCell, carve-InCell, Apart, spans_fit, carve_spans-Laid}

-- A list that has every span free and nothing used.
pub record AllFree (l : NthFreeList) : Type 0 where
  pub valid : IsValid l
  pub unused : l.p_used ≡ []
  pub every : (i x : ℕ) → i < l.span_count → InCell (span_at l.spans i) x → owners l.p_free x ≡ 1

laid-AllFree :
    (l : NthFreeList) (few : l.span_count ≤ 2 ^ 16)
    (ok : (i : ℕ) → i < l.span_count → IsSpan (span_at l.spans i))
    (apart : Apart l.spans l.span_count)
    → AllFree (record l { p_used = []; p_free = carve_spans [] l.spans 0 l.span_count })
laid-AllFree l few ok apart =
    let laid =
      carve_spans-Laid l.spans l.span_count few ok apart l.span_count 0 l.span_count []
        (omega arith) (omega arith)
        (record {
          blocks = tt;
          order = tt;
          once = λ x. omega arith;
          within = λ x h. absurd (omega arith);
          all = λ j x h. absurd (omega arith);
        }) in
    record {
      valid = record {
        few = few;
        fit = spans_fit l.spans l.span_count few ok apart;
        free = laid.blocks;
        used = tt;
        once = λ x. omega (arith, laid.once x);
        ordered = laid.order;
      };
      unused = refl;
      every = λ i x h c. omega (
        arith,
        laid.once x,
        laid.all i x h,
        carve-InCell l.spans l.span_count i x (ok i h) h few c,
      );
    }

-- `nth_free_list_clear`, on up to 65536 spans that share no byte, each of less than 2 ^ 52 bytes,
-- ending below 2 ^ 64 and with room for a header, leaves a valid list with nothing used, in which
-- every byte of every cell (16 bytes on a multiple of 16) that lies inside a span is in exactly one
-- free block.
pub nth_free_list_clear-AllFree :
    (l : NthFreeList)
    → l.span_count ≤ 2 ^ 16
    → ((i : ℕ) → i < l.span_count → IsSpan (span_at l.spans i))
    → Apart l.spans l.span_count
    → AllFree (nth_free_list_clear l)
unfolding nth_free_list_clear
nth_free_list_clear-AllFree l few ok apart = laid-AllFree l few ok apart

-- `nth_setup_free_list` with the four cells from malloc makes a valid list whose one span is free.
pub nth_setup_free_list-AllFree :
    (before : NthFreeList) (cells : List NthSpan) (s : NthSpan)
    → length cells ≡ 4
    → IsSpan s
    → let (r, l) = nth_setup_free_list before (some cells) s in
      (r ≡ result_ok) × (l.span_count ≡ 1) × (span_at l.spans 0 ≡ s) × AllFree l
unfolding nth_setup_free_list carve_spans
nth_setup_free_list-AllFree before cells s h ok = (refl, refl, first, rw first at all)
  where
    first : span_at (set cells 0 s) 0 ≡ s
    first = span_at-set_self cells 0 s (omega arith)

    one : NthFreeList
    one = record {
      p_free = [];
      p_used = [];
      spans = set cells 0 s;
      span_count = 1;
      span_capacity = 4;
    }

    each : (i : ℕ) → i < 1 → IsSpan (span_at (set cells 0 s) i)
    each zero lt = rw first ok
    each (suc i) lt = absurd (omega arith)

    all : AllFree (record one { p_free = carve_spans [] (set cells 0 s) 0 1 })
    all = laid-AllFree one (omega arith) each (λ i j x hi hj a b c d. omega arith)
