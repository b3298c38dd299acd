-- ===== src/Pool/Cycle.antt =====
-- What a full collection of one pool keeps.
use aer.Base.{ℕ, ◌≡◌, refl, ap, ◌∙◌, true, false, not, ◌||◌, List, Option, some, length}
use aer.Pool.Bytes.{swept-survives, swept-free}
use aer.Pool.Chain.{IsCarved, Alike-IsCarved, IsHeap}
use aer.Pool.Collect.{
  carved-slabs_from, pool_clear_marks-Unmarked, mark_all, mark_all-Marked, listed, AllCarved,
  AllCarved-Alike,
}
use aer.Pool.State.{Alike, Alike-trans}
use aer.Pool.Sweep.{pool_sweep-Swept, dead_slabs}
use aer.Pool.SweepCell.{swept, dies}
use aer.Pool.{
  Pool, Heap, free, old, marked, remembered, has, state_at, pool_clear_marks, pool_sweep, ◌>>=◌,
}

unfoldable pub collect : Heap → List (ℕ × ℕ) → Option (Heap × List ℕ)
collect h roots =
    mark_all (pool_clear_marks h.pool) roots >>= λ q. pool_sweep false (record h { pool = q })

pub record Collected (h : Heap) (roots : List (ℕ × ℕ)) (g : Heap) : Type 0 where
  pub heap : IsHeap g
  pub alike : Alike h.pool g.pool
  pub frees :
      (k l : ℕ)
      → IsCarved h.pool k l
      → has (state_at g.pool k l) free ≡ (has (state_at h.pool k l) free || not (listed roots k l))
  pub ages :
      (k l : ℕ)
      → IsCarved h.pool k l
      → has (state_at h.pool k l) free ≡ false
      → listed roots k l ≡ true
      → (has (state_at g.pool k l) old ≡ true)
        × (has (state_at g.pool k l) remembered ≡ has (state_at h.pool k l) remembered)

-- On a heap in order, clearing the marks, marking roots that have been handed out and sweeping it in full returns. Of the cells handed
-- out exactly those are freed that were freed before or are no roots; each root in use is old afterwards and
-- is remembered if it was; the cells keep their addresses and the free list is in order.
pub collect-Collected :
    (h : Heap) (roots : List (ℕ × ℕ))
    → IsHeap h
    → AllCarved h.pool roots
    → (r : Heap × List ℕ) × (collect h roots ≡ some r) × Collected h roots r.0
unfolding collect dies
collect-Collected h roots ok all =
    let clear = pool_clear_marks-Unmarked h ok in
    let p : Pool = pool_clear_marks h.pool in
    let (q, run, m) =
      mark_all-Marked (record h { pool = p }) roots clear.heap
        (AllCarved-Alike h.pool p roots clear.alike all) in
    let (g, swept_all, w) = pool_sweep-Swept false (record h { pool = q }) m.heap in
    let alike = Alike-trans h.pool p q clear.alike m.alike in
    let byte : (k l : ℕ)
        → IsCarved h.pool k l
        → state_at g.pool k l ≡ swept false (state_at q k l) =
      λ k l there.
        w.states k l
        ∙ rw (carved-slabs_from q k l (Alike-IsCarved h.pool q alike k l there)) refl in
    let freed : (k l : ℕ)
        → IsCarved h.pool k l
        → has (state_at q k l) free ≡ has (state_at h.pool k l) free =
      λ k l there. (m.rest k l).same_free ∙ (clear.rest k l there).same_free in
    let mark : (k l : ℕ) → IsCarved h.pool k l → has (state_at q k l) marked ≡ listed roots k l =
      λ k l there. m.marks k l ∙ rw (clear.clear k l there) refl in
    (
      (g, dead_slabs false q (length q.slabs) 0),
      rw (run) swept_all,
      record {
        heap = w.heap;
        alike = Alike-trans h.pool q g.pool alike w.alike;
        frees = λ k l there.
            ap (λ (s : ℕ). has s free) (byte k l there)
            ∙ swept-free (state_at q k l)
            ∙ rw (freed k l there, mark k l there) refl;
        ages = λ k l there live root.
            let live' : has (state_at q k l) free ≡ false = freed k l there ∙ live in
            let on : has (state_at q k l) marked ≡ true = mark k l there ∙ root in
            let lives : dies false (state_at q k l) ≡ false = rw (live', on) refl in
            let (_, aged, known) = swept-survives false (state_at q k l) live' lives in
            (
              ap (λ (s : ℕ). has s old) (byte k l there) ∙ aged,
              ap (λ (s : ℕ). has s remembered) (byte k l there)
                  ∙ known
                  ∙ (m.rest k l).same_remembered
                  ∙ (clear.rest k l there).same_remembered,
            );
      },
    )
