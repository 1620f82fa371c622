-- ===== src/Retention/Keeps.antt =====
-- extensions/lifecycle/tasks/LifecycleTask.js: which versions one heap keeps.
use backbeat.Base.{
  ℕ, ◌+◌, ◌≤◌, ◌<◌, ◌≡◌, ◌∙◌, ◌⊎◌, refl, sym, subst, ap, inl, inr, true, false, Option, none, some,
  List, [], ◌∷◌, ◌++◌, arith, ltb, length, All, All-map, Bool-cases,
}
use backbeat.Base.Permutation.{
  same, Permutation, skip, flip, chain, back, All-Permutation, length-Permutation, append_left,
  to_front,
}
use backbeat.Retention.{Version, MinHeap, heap_add, noncurrent_version_compare}

append-[] : (xs : List Version) → xs ++ [] ≡ xs
append-[] [] = refl
append-[] (x ∷ xs) = ap (λ ys. x ∷ ys) (append-[] xs)

module _ {H : Type 0} (heap : MinHeap H) (n : ℕ) where
  unfoldable pub with_expired : Option Version → List Version → List Version
  with_expired none vs = vs
  with_expired (some v) vs = v ∷ vs

  -- A stream of versions of one object through its heap, which adds to those that have expired.
  unfoldable pub stream : H → List Version → List Version → H × List Version
  unfolding with_expired
  stream h gone [] = (h, gone)
  stream h gone (v ∷ vs) =
      let (h', expired) = heap_add heap n h v in stream h' (with_expired expired gone) vs

  -- `seen` came and `gone` expired of them.
  pub record IsNewest (h : H) (gone seen : List Version) : Type 0 where
    pub room : heap.capacity h ≡ n
    pub few : heap.size h ≤ n
    pub full : (gone ≡ []) ⊎ (heap.size h ≡ n)
    pub complete : Permutation (gone ++ heap.items h) seen
    pub older : All (λ e. All (λ v. e.stale_date ≤ v.stale_date) (heap.items h)) gone

  module _ (h : H) (v : Version) where
    heap_add-room : ltb (heap.size h) n ≡ true → heap_add heap n h v ≡ (heap.add h v, none)
    unfolding heap_add
    heap_add-room e = rw (e, heap_add) refl

    heap_add-older :
        (top : Version)
        → ltb (heap.size h) n ≡ false
        → heap.peek h ≡ some top
        → ltb v.stale_date top.stale_date ≡ true
        → heap_add heap n h v ≡ (h, some v)
    unfolding heap_add noncurrent_version_compare
    heap_add-older top e at less = rw (e, at, less, heap_add, noncurrent_version_compare) refl

    heap_add-newer :
        (top : Version)
        → ltb (heap.size h) n ≡ false
        → heap.peek h ≡ some top
        → ltb v.stale_date top.stale_date ≡ false
        → heap_add heap n h v ≡ (heap.add (heap.remove h) v, some top)
    unfolding heap_add noncurrent_version_compare
    heap_add-newer top e at less = elim (Bool-cases (ltb top.stale_date v.stale_date)) [
      | inl gr ↦ rw (e, at, less, gr, heap_add, noncurrent_version_compare) refl
      | inr le ↦ rw (e, at, less, le, heap_add, noncurrent_version_compare) refl
    ]

    module _ (gone seen : List Version) (k : IsNewest h gone seen) where
      added-IsNewest : heap.size h < n → IsNewest (heap.add h v) gone (v ∷ seen)
      added-IsNewest less =
          let more = heap.items-add h v (omega (arith, k.room)) in
          let nothing : gone ≡ [] = elim k.full [ inl e ↦ e | inr e ↦ absurd (omega (arith, e)) ] in
          record {
            room = heap.capacity-add h v ∙ k.room;
            few =
                omega (
                  arith,
                  heap.size-items (heap.add h v),
                  length-Permutation more,
                  heap.size-items h,
                );
            full = inl nothing;
            complete =
                chain (append_left gone more)
                  (chain (to_front gone v (heap.items h)) (skip v k.complete));
            older =
                subst
                  (λ xs.
                    All (λ e. All (λ w. e.stale_date ≤ w.stale_date) (heap.items (heap.add h v)))
                      xs)
                  (sym nothing) tt;
          }

      refused-IsNewest :
          (top : Version)
          → heap.size h ≡ n
          → heap.peek h ≡ some top
          → v.stale_date < top.stale_date
          → IsNewest h (v ∷ gone) (v ∷ seen)
      refused-IsNewest top full at less = record {
        room = k.room;
        few = k.few;
        full = inr full;
        complete = skip v k.complete;
        older =
            (All-map _ _ (heap.items h) (λ w le. omega arith) (heap.peek-least h top at), k.older);
      }

      replaced-IsNewest :
          (top : Version)
          → 0 < n
          → heap.size h ≡ n
          → heap.peek h ≡ some top
          → top.stale_date ≤ v.stale_date
          → IsNewest (heap.add (heap.remove h) v) (top ∷ gone) (v ∷ seen)
      replaced-IsNewest top pos full at le =
          let rest = heap.remove h in
          let taken = heap.items-remove h top at in
          let fewer : heap.size rest + 1 ≡ n =
            omega
              (arith, heap.size-items h, heap.size-items rest, length-Permutation taken, full) in
          let more = heap.items-add rest v (omega (arith, heap.capacity-remove h, k.room, fewer)) in
          record {
            room = heap.capacity-add rest v ∙ heap.capacity-remove h ∙ k.room;
            few = omega (
              arith,
              heap.size-items (heap.add rest v),
              length-Permutation more,
              heap.size-items rest,
              fewer,
            );
            full = inr (
                omega (
                  arith,
                  heap.size-items (heap.add rest v),
                  length-Permutation more,
                  heap.size-items rest,
                  fewer,
                ));
            complete =
                chain (skip top (chain (append_left gone more) (to_front gone v (heap.items rest))))
                  (chain (flip top v (gone ++ heap.items rest)) (
                    skip v (
                      chain (back (to_front gone top (heap.items rest)))
                        (chain (append_left gone (back taken)) k.complete))));
            older = (
              All-Permutation _ (back more)
                  (le, (All-Permutation _ taken (heap.peek-least h top at)).1),
              All-map _ _ gone
                  (λ e old.
                    (let there = All-Permutation _ taken old in
                      All-Permutation _ (back more) (omega (arith, there.0, le), there.1)))
                  k.older,
            );
          }

  heap_add-IsNewest :
      (h : H) (v : Version) (gone seen : List Version)
      → 0 < n
      → IsNewest h gone seen
      → let (h', expired) = heap_add heap n h v in
        IsNewest h' (with_expired expired gone) (v ∷ seen)
  unfolding with_expired
  heap_add-IsNewest h v gone seen pos k = elim (Bool-cases (ltb (heap.size h) n)) [
    | inl e ↦ rw (heap_add-room h v e) (added-IsNewest h v gone seen k (ground (arith, e)))
    | inr e ↦
        let full : heap.size h ≡ n = ground (arith, e, k.few) in
        let (top, at) = heap.peek-size h (omega (arith, full, pos)) in
        elim (Bool-cases (ltb v.stale_date top.stale_date)) [
          | inl less ↦
              rw (heap_add-older h v top e at less)
                (refused-IsNewest h v gone seen k top full at (ground (arith, less)))
          | inr le ↦
              rw (heap_add-newer h v top e at le)
                (replaced-IsNewest h v gone seen k top pos full at (ground (arith, le)))
        ]
  ]

  stream-IsNewest :
      (h : H) (vs gone seen : List Version)
      → 0 < n
      → IsNewest h gone seen
      → let (last, expired) = stream h gone vs in
        (heap.size last ≤ n)
        × ((expired ≡ []) ⊎ (heap.size last ≡ n))
        × Permutation (expired ++ heap.items last) (vs ++ seen)
        × All (λ e. All (λ v. e.stale_date ≤ v.stale_date) (heap.items last)) expired
  unfolding stream
  stream-IsNewest h [] gone seen pos k = (k.few, k.full, k.complete, k.older)
  stream-IsNewest h (v ∷ vs) gone seen pos k =
      let (few, full, complete, older) =
        stream-IsNewest (heap_add heap n h v).0 vs (with_expired (heap_add heap n h v).1 gone)
          (v ∷ seen) pos (heap_add-IsNewest h v gone seen pos k) in
      (few, full, chain complete (to_front vs v seen), older)

  -- Let versions of one object come in any order, for a rule that keeps a number of newer noncurrent
  -- versions that is not 0. Those that are expired and those that are kept are together the versions
  -- that came, no more than the number are kept, exactly the number if any expired, and no version
  -- expired that became noncurrent later than one that is kept.
  pub stream-newest :
      (vs : List Version)
      → 0 < n
      → let (last, expired) = stream (heap.create n) [] vs in
        (heap.size last ≤ n)
        × ((expired ≡ []) ⊎ (heap.size last ≡ n))
        × Permutation (expired ++ heap.items last) vs
        × All (λ e. All (λ v. e.stale_date ≤ v.stale_date) (heap.items last)) expired
  stream-newest vs pos =
      let (few, full, complete, older) = stream-IsNewest (heap.create n) vs [] [] pos (record {
        room = heap.capacity-create n;
        few = omega (arith, heap.size-items (heap.create n), ap length (heap.items-create n));
        full = inl refl;
        complete = rw (heap.items-create n) (same []);
        older = tt;
      }) in
      (
        few,
        full,
        chain complete (subst (λ xs. Permutation xs vs) (sym (append-[] vs)) (same vs)),
        older,
      )
