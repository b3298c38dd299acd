-- ===== src/Pool/Collect.antt =====
-- A full collection of one pool: the marks are cleared, the roots are marked, and the pool is swept.
use aer.Base.{
  ℕ, ◌+◌, ◌<◌, ◌≡◌, refl, sym, ap, ◌∙◌, Bool, true, false, ◌||◌, List, [], ◌∷◌, Option, some, arith,
  leb, ltb, length,
}
use aer.Pool.Bytes.{unmarked_lem}
use aer.Pool.Chain.{IsCarved, Alike-IsCarved, IsHeap}
use aer.Pool.Mark.{Marked, pool_mark-Marked, SameBits, SameBits-refl, SameBits-trans}
use aer.Pool.Marks.{Changed-IsHeap, clear_slabs-Changed}
use aer.Pool.Regions.{slabs_from}
use aer.Pool.Slots.{same_slot}
use aer.Pool.State.{Alike, Alike-refl, Alike-trans}
use aer.Pool.{
  Pool, Heap, free, old, marked, remembered, unmarked, has, state_at, address, carved_count,
  pool_mark, pool_clear_marks, ◌>>=◌,
}

pub carved-slabs_from :
    (p : Pool) (k l : ℕ) → IsCarved p k l → slabs_from p (length p.slabs) 0 k l ≡ true
carved-slabs_from p k l (hk, hl) =
    let low : ltb k (0 + length p.slabs) ≡ true = ground arith in
    let least : leb 0 k ≡ true = ground arith in
    let inside : ltb l (carved_count p k) ≡ true = in_row l (carved_count p k) hl in
    rw (low, least, inside) refl
  where
    in_row : (a b : ℕ) → a < b → ltb a b ≡ true
    in_row a b h = ground arith

-- What `pool_clear_marks` owes to the heap.
pub record Unmarked (h : Heap) (q : Pool) : Type 0 where
  pub heap : IsHeap (record h { pool = q })
  pub alike : Alike h.pool q
  pub clear : (k l : ℕ) → IsCarved h.pool k l → has (state_at q k l) marked ≡ false
  pub rest : (k l : ℕ) → IsCarved h.pool k l → SameBits (state_at h.pool k l) (state_at q k l)

-- On a heap in order `pool_clear_marks` leaves no cell that has been handed out with a mark, and changes no other bit of
-- these cells; the free list stays in order.
pub pool_clear_marks-Unmarked : (h : Heap) → IsHeap h → Unmarked h (pool_clear_marks h.pool)
unfolding pool_clear_marks
pool_clear_marks-Unmarked h ok =
    let n : ℕ = length h.pool.slabs in
    let c = clear_slabs-Changed n h 0 ok (omega arith) in
    let q : Pool = pool_clear_marks h.pool in
    let byte : (k l : ℕ) → IsCarved h.pool k l → state_at q k l ≡ unmarked (state_at h.pool k l) =
      λ k l there. c.states k l ∙ rw (carved-slabs_from h.pool k l there) refl in
    record {
      heap = Changed-IsHeap unmarked (slabs_from h.pool n 0) h q (λ s. (unmarked_lem s).2) ok c;
      alike = c.alike;
      clear = λ k l there.
          ap (λ (s : ℕ). has s marked) (byte k l there) ∙ (unmarked_lem (state_at h.pool k l)).0;
      rest = λ k l there.
          let (_, o, f, r) = unmarked_lem (state_at h.pool k l) in
          record {
            same_free = ap (λ (s : ℕ). has s free) (byte k l there) ∙ f;
            same_old = ap (λ (s : ℕ). has s old) (byte k l there) ∙ o;
            same_remembered = ap (λ (s : ℕ). has s remembered) (byte k l there) ∙ r;
          };
    }

-- The cells of the roots are marked one after the other.
unfoldable pub mark_all : Pool → List (ℕ × ℕ) → Option Pool
mark_all p [] = some p
mark_all p ((i, j) ∷ roots) = pool_mark p (address p i j) >>= λ r. mark_all r.1 roots

unfoldable pub listed : List (ℕ × ℕ) → ℕ → ℕ → Bool
listed [] k l = false
listed ((i, j) ∷ roots) k l = same_slot i j k l || listed roots k l

unfoldable pub AllCarved : Pool → List (ℕ × ℕ) → Type 0
AllCarved p [] = Unit {0}
AllCarved p ((i, j) ∷ roots) = IsCarved p i j × AllCarved p roots

pub AllCarved-Alike :
    (p q : Pool) (roots : List (ℕ × ℕ)) → Alike p q → AllCarved p roots → AllCarved q roots
unfolding AllCarved
AllCarved-Alike p q [] a all = tt
AllCarved-Alike p q ((i, j) ∷ roots) a (c, all) =
    (Alike-IsCarved p q a i j c, AllCarved-Alike p q roots a all)

or_assoc : (a b c : Bool) → ((a || b) || c) ≡ (a || (b || c))
or_assoc true b c = refl
or_assoc false b c = refl

or_none : (b : Bool) → (b || false) ≡ b
or_none true = refl
or_none false = refl

pub mark_all-Marked :
    (h : Heap) (roots : List (ℕ × ℕ))
    → IsHeap h
    → AllCarved h.pool roots
    → (q : Pool) × (mark_all h.pool roots ≡ some q) × Marked (listed roots) h q
unfolding mark_all listed AllCarved
mark_all-Marked h [] ok all = (
  h.pool,
  refl,
  record {
    heap = ok;
    alike = Alike-refl h.pool;
    marks = λ k l. sym (or_none (has (state_at h.pool k l) marked));
    rest = λ k l. SameBits-refl (state_at h.pool k l);
  },
)
mark_all-Marked h ((i, j) ∷ roots) ok (c, all) =
    let (p, run, one) = pool_mark-Marked h ok i j c in
    let (q, later, more) =
      mark_all-Marked (record h { pool = p }) roots one.heap
        (AllCarved-Alike h.pool p roots one.alike all) in
    (
      q,
      rw (run) later,
      record {
        heap = more.heap;
        alike = Alike-trans h.pool p q one.alike more.alike;
        marks = λ k l.
            more.marks k l
            ∙ ap (λ (b : Bool). b || listed roots k l) (one.marks k l)
            ∙ or_assoc (has (state_at h.pool k l) marked) (same_slot i j k l) (listed roots k l);
        rest = λ k l.
            SameBits-trans (state_at h.pool k l) (state_at p k l) (state_at q k l) (one.rest k l)
              (more.rest k l);
      },
    )
