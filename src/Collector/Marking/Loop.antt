-- ===== src/Collector/Marking/Loop.antt =====
-- The loops of `GC_Collector_mark` keep the invariant and end.
use gc.Base.{
  ℕ, zero, suc, ◌+◌, ◌-◌, ◌*◌, ◌^◌, ◌≤◌, ◌<◌, ◌≡◌, ◌⊎◌, ◌∙◌, refl, inl, inr, true, ◌||◌, ◌==◌,
  ==_iff, Bool-cases, Option, none, some, List, [], ◌∷◌, arith, length, word_mod, add64, add64-add,
  ltb, ltb→lt, le→ltb, Returns,
}
use gc.Stack.Regions.{HoldsRegions, push-HoldsRegions, pop-HoldsRegions, pop-empty}
use gc.LineHeader.{word_size}
use gc.GlobalAllocator.{GlobalAllocator}
use gc.Collector.{scan_region, mark_loop}
use gc.Collector.State.{Collector}
use gc.Collector.Marking.{
  Region, push_region, Visited, nothing, marks, Graph, In, InRegion, Reach, root, step, Source,
  IsDone, Inv,
}

module _ {fuel : ℕ} (graph : Graph fuel) (words : ℕ → ℕ) (roots : List Region)
    (scoped : (a : ℕ) → graph.InScope (words a)) where
  -- Marks are only added.
  abbrev Grows : GlobalAllocator → GlobalAllocator → Type 0
  Grows heap heap' = (q : ℕ) → graph.is_marked heap q ≡ true → graph.is_marked heap' q ≡ true

  IsDone-Grows :
      {heap heap' : GlobalAllocator} (r : Region)
      → Grows heap heap'
      → IsDone graph words roots heap r
      → IsDone graph words roots heap' r
  IsDone-Grows r grow done a q at points = grow q (done a q at points)

  -- What a word of a region on the stack points into can be reached.
  Reach-Source :
      {q a : ℕ} (r : Region)
      → Source graph words roots r
      → InRegion a r
      → graph.Points q (words a)
      → Reach graph words roots q
  Reach-Source r (inl in_roots) at points = root r in_roots at points
  Reach-Source r (inr (o, reached, e)) at points = step r reached e at points

  -- One more object is marked.
  module _ {heap heap' : GlobalAllocator} (q : ℕ)
      (marked : (r : ℕ) → graph.is_marked heap' r ≡ ((r == q) || graph.is_marked heap r)) where
    mark_one-Grows : Grows heap heap'
    mark_one-Grows r h = ground (arith, marked r)

    old_mark : (r : ℕ) → graph.is_marked heap' r ≡ true → (r ≡ q) ⊎ (graph.is_marked heap r ≡ true)
    old_mark r h = ground (arith, marked r)

    -- Its region, if it has one, is added to those to be scanned.
    mark_one-Inv :
        (pending pending' : List Region)
        → Inv graph words roots heap pending
        → Reach graph words roots q
        → graph.IsOk heap'
        → ((r : Region) → In r pending → In r pending')
        → ((r : Region) → In r pending' → In r pending ⊎ (graph.region q ≡ some r))
        → ((r : Region) → graph.region q ≡ some r → In r pending')
        → Inv graph words roots heap' pending'
    mark_one-Inv pending pending' inv reached fine more back added = record {
      ok = fine;
      sound = λ r h. elim (old_mark r h) [ inl e ↦ rw e reached | inr old ↦ inv.sound r old ];
      known = λ r h. elim (back r h) [ inl old ↦ inv.known r old | inr e ↦ inr (q, reached, e) ];
      rooted = λ r h. elim (inv.rooted r h) [
        | inl waits ↦ inl (more r waits)
        | inr done ↦ inr (IsDone-Grows r mark_one-Grows done)
      ];
      closed = λ o r h e. elim (old_mark o h) [
        | inl same ↦ inl (added r (rw same at e))
        | inr old ↦ elim (inv.closed o r old e) [
          | inl waits ↦ inl (more r waits)
          | inr done ↦ inr (IsDone-Grows r mark_one-Grows done)
        ]
      ];
    }

  -- What a visit leaves while the region `current` is scanned: the regions on the stack, the
  -- invariant, every object that the pointer points into marked, and no more work than before.
  record After (current : Region) (rs : List Region) (pointer : ℕ) (c c' : Collector) : Type 0 where
    waiting : List Region
    holds : HoldsRegions c'.roots waiting
    inv : Inv graph words roots c'.global_allocator (current ∷ waiting)
    grows : Grows c.global_allocator c'.global_allocator
    seen : (q : ℕ) → graph.Points q pointer → graph.is_marked c'.global_allocator q ≡ true
    work :
        graph.unmarked c'.global_allocator + length waiting
        ≤ graph.unmarked c.global_allocator + length rs

  mark_one-After :
      (current : Region) (rs : List Region) (a q : ℕ) (c c' : Collector) (o : Option Region)
      → graph.region q ≡ o
      → HoldsRegions c.roots rs
      → Inv graph words roots c.global_allocator (current ∷ rs)
      → Reach graph words roots q
      → ((r : ℕ) → graph.Points r (words a) → r ≡ q)
      → graph.IsOk c'.global_allocator
      → ((r : ℕ)
          → graph.is_marked c'.global_allocator r
            ≡ ((r == q) || graph.is_marked c.global_allocator r))
      → graph.unmarked c'.global_allocator + 1 ≡ graph.unmarked c.global_allocator
      → c'.roots ≡ push_region o c.roots
      → After current rs (words a) c c'
  mark_one-After current rs a q c c' none e holds inv reached only fine marked count pushed =
      record {
        waiting = rs;
        holds = rw pushed holds;
        inv =
            mark_one-Inv q marked (current ∷ rs) (current ∷ rs) inv reached fine (λ r h. h)
              (λ r h. inl h) (λ r h. absurd (some_ne r h));
        grows = mark_one-Grows q marked;
        seen = λ r points. ground (arith, marked r, only r points);
        work = omega arith;
      }
    where
      some_ne : (r : Region) → graph.region q ≡ some r → ⊥
      some_ne r h = cc
  mark_one-After current rs a q c c' (some (top, bottom)) e holds inv reached only fine marked count
        pushed =
      record {
        waiting = (top, bottom) ∷ rs;
        holds = rw pushed (push-HoldsRegions c.roots rs top bottom holds);
        inv =
            mark_one-Inv q marked (current ∷ rs) (current ∷ (top, bottom) ∷ rs) inv reached fine
              (λ r h. elim h [ inl same ↦ inl same | inr waits ↦ inr (inr waits) ]) back
              (λ r h. inr (inl (added r h)));
        grows = mark_one-Grows q marked;
        seen = λ r points. ground (arith, marked r, only r points);
        work = omega arith;
      }
    where
      back :
          (r : Region)
          → In r (current ∷ (top, bottom) ∷ rs)
          → In r (current ∷ rs) ⊎ (graph.region q ≡ some r)
      back r (inl same) = inl (inl same)
      back r (inr (inl same)) = inr (rw same e)
      back r (inr (inr waits)) = inl (inr waits)

      added : (r : Region) → graph.region q ≡ some r → r ≡ (top, bottom)
      added r h = cc

  visit-After :
      (current : Region) (rs : List Region) (a : ℕ) (c c' : Collector)
      → HoldsRegions c.roots rs
      → Inv graph words roots c.global_allocator (current ∷ rs)
      → InRegion a current
      → Visited graph.is_marked graph.Points graph.region graph.unmarked graph.IsOk c (words a) c'
      → After current rs (words a) c c'
  visit-After current rs a c c' holds inv at (nothing e seen) = rw e (record {
    waiting = rs;
    holds = holds;
    inv = inv;
    grows = λ q h. h;
    seen = seen;
    work = omega arith;
  })
  visit-After current rs a c c' holds inv at (marks q points only fine marked count pushed) =
      mark_one-After current rs a q c c' (graph.region q) refl holds inv
        (Reach-Source current (inv.known current (inl refl)) at points) only fine marked count
        pushed

  -- A region that is done need not be scanned.
  drop_done :
      {heap : GlobalAllocator} (current : Region) (rs : List Region)
      → Inv graph words roots heap (current ∷ rs)
      → IsDone graph words roots heap current
      → Inv graph words roots heap rs
  drop_done {heap} current rs inv done = record {
    ok = inv.ok;
    sound = inv.sound;
    known = λ r h. inv.known r (inr h);
    rooted = λ r h. drop r (inv.rooted r h);
    closed = λ o r h e. drop r (inv.closed o r h e);
  }
    where
      drop :
          (r : Region)
          → In r (current ∷ rs) ⊎ IsDone graph words roots heap r
          → In r rs ⊎ IsDone graph words roots heap r
      drop r (inl (inl same)) = inr (rw same done)
      drop r (inl (inr waits)) = inl waits
      drop r (inr finished) = inr finished

  -- What the scan of a region leaves.
  record Scanned (rs : List Region) (c c' : Collector) : Type 0 where
    waiting : List Region
    holds : HoldsRegions c'.roots waiting
    inv : Inv graph words roots c'.global_allocator waiting
    work :
        graph.unmarked c'.global_allocator + length waiting
        ≤ graph.unmarked c.global_allocator + length rs

  -- The first `k` words of the region are done.
  abbrev Seen : GlobalAllocator → Region → ℕ → Type 0
  Seen heap r k =
      (j q : ℕ)
      → j < k
      → graph.Points q (words (r.0 + word_size * j))
      → graph.is_marked heap q ≡ true

  Seen-IsDone :
      (k top bottom : ℕ) {heap : GlobalAllocator}
      → bottom ≤ top + word_size * k
      → Seen heap (top, bottom) k
      → IsDone graph words roots heap (top, bottom)
  Seen-IsDone k top bottom over seen a q (j, e, inside) points =
      seen j q (omega arith) (rw e at points)

  Seen-next :
      (k : ℕ) (r : Region) (c c' : Collector)
      → Grows c.global_allocator c'.global_allocator
      → Seen c.global_allocator r k
      → ((q : ℕ)
          → graph.Points q (words (r.0 + word_size * k))
          → graph.is_marked c'.global_allocator q ≡ true)
      → Seen c'.global_allocator r (suc k)
  Seen-next k r c c' grows seen last j q below points = elim (Bool-cases (j == k)) [
    | inl here ↦ last q (rw ((==_iff j k).0 here) at points)
    | inr before ↦ grows q (seen j q (ground arith) points)
  ]

  stop_scan :
      (n k top bottom : ℕ) (rs : List Region) (c : Collector)
      → bottom ≤ top + word_size * k
      → HoldsRegions c.roots rs
      → Inv graph words roots c.global_allocator ((top, bottom) ∷ rs)
      → Seen c.global_allocator (top, bottom) k
      → Returns (scan_region words (suc n) fuel c (top + word_size * k) bottom) (Scanned rs c)
  unfolding scan_region
  stop_scan n k top bottom rs c over holds inv seen = (
    c,
    rw (le→ltb bottom (top + word_size * k) over) refl,
    record {
      waiting = rs;
      holds = holds;
      inv = drop_done (top, bottom) rs inv (Seen-IsDone k top bottom over seen);
      work = omega arith;
    },
  )

  scan_region-Scanned :
      (n k top bottom : ℕ) (rs : List Region) (c : Collector)
      → bottom + word_size ≤ word_mod
      → bottom ≤ top + word_size * k + word_size * n
      → HoldsRegions c.roots rs
      → Inv graph words roots c.global_allocator ((top, bottom) ∷ rs)
      → Seen c.global_allocator (top, bottom) k
      → Returns (scan_region words (suc n) fuel c (top + word_size * k) bottom) (Scanned rs c)
  unfolding scan_region
  scan_region-Scanned zero k top bottom rs c fits enough holds inv seen =
      stop_scan zero k top bottom rs c (omega arith) holds inv seen
  scan_region-Scanned (suc n) k top bottom rs c fits enough holds inv seen =
      elim (Bool-cases (ltb (top + word_size * k) bottom)) [
        | inl more ↦
            let sp = top + word_size * k in
            let inside : sp < bottom = ltb→lt sp bottom more in
            let (c1, run1, v) = graph.visit_lem c (words sp) (scoped sp) inv.ok in
            let after = visit-After (top, bottom) rs sp c c1 holds inv (k, refl, inside) v in
            let (c2, run2, s) =
              scan_region-Scanned n (suc k) top bottom after.waiting c1 fits (omega arith)
                after.holds after.inv
                (Seen-next k (top, bottom) c c1 after.grows seen after.seen) in
            let next : add64 sp word_size ≡ top + word_size * suc k =
              add64-add sp word_size (omega arith) ∙ omega arith in
            (
              c2,
              rw (more, run1, next) run2,
              record {
                waiting = s.waiting;
                holds = s.holds;
                inv = s.inv;
                work = omega (arith, s.work, after.work);
              },
            )
        | inr over ↦ stop_scan (suc n) k top bottom rs c (ground arith) holds inv seen
      ]

  module _ (roots_fit : (r : Region) → In r roots → r.1 + word_size ≤ word_mod)
      (enough : 2 ^ 61 < fuel) where
    Source-fits : (r : Region) → Source graph words roots r → r.1 + word_size ≤ word_mod
    Source-fits r (inl in_roots) = roots_fit r in_roots
    Source-fits r (inr (o, reached, e)) = graph.region_fits o r e

    -- With rounds for the objects that are not marked and the regions that wait, the loop ends with
    -- nothing left to scan.
    pub mark_loop-Inv :
        (rounds : ℕ) (c : Collector) (rs : List Region)
        → HoldsRegions c.roots rs
        → Inv graph words roots c.global_allocator rs
        → graph.unmarked c.global_allocator + length rs < rounds
        → Returns (mark_loop words rounds fuel c) λ c'. Inv graph words roots c'.global_allocator []
    unfolding mark_loop
    mark_loop-Inv zero c rs holds inv h = absurd (omega arith)
    mark_loop-Inv (suc rounds) c [] holds inv h = (c, rw (pop-empty c.roots holds) refl, inv)
    mark_loop-Inv (suc rounds) c ((top, bottom) ∷ rs) holds inv h =
        let (s, popped, left) = pop-HoldsRegions c.roots top bottom rs holds in
        let fits = Source-fits (top, bottom) (inv.known (top, bottom) (inl refl)) in
        let start : top + word_size * 0 ≡ top = omega arith in
        let steps : suc (fuel - 1) ≡ fuel = omega arith in
        let (c1, run1, scanned) =
          scan_region-Scanned (fuel - 1) 0 top bottom rs (record c { roots = s }) fits (omega arith)
            left inv (λ j q below points. absurd (omega arith)) in
        let (c2, run2, done) =
          mark_loop-Inv rounds c1 scanned.waiting scanned.holds scanned.inv
            (omega (arith, scanned.work)) in
        (c2, rw (popped, rw (steps, start) at run1) run2, done)
