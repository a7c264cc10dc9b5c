-- ===== src/WriteBuffer/History.antt =====
-- What a buffer does over any sequence of its operations.
use mathlib.Core.List.{Sublist, sublist-append_left, append_assoc, append-nil}
use mathlib.Core.List.Sublist
use buy_not_buy_com.Common.{
  ℕ, zero, suc, ◌+◌, ◌-◌, ◌≤◌, ◌≡◌, List, [], ◌∷◌, ◌++◌, length, drop, arith, length-append,
  length-drop,
}
use buy_not_buy_com.WriteBuffer.{BufferOptions, WriteBuffer, create, push, drain, clear, size}
use buy_not_buy_com.WriteBuffer.Eviction.{evict_lem}

pub data Op {ℓ} (A : Type ℓ) : Type ℓ where
  put : A → Op A
  flush : Op A
  wipe : Op A

module _ {ℓ} {A : Type ℓ} where
  -- The buffer after the operations, with what their drains returned in the order of returning.
  abbrev pub run : BufferOptions A → WriteBuffer A → List A → List (Op A) → WriteBuffer A × List A
  run o b out [] = (b, out)
  run o b out (put e ∷ ops) = run o (push o b e) out ops
  run o b out (flush ∷ ops) = run o (drain b).0 (out ++ (drain b).1) ops
  run o b out (wipe ∷ ops) = run o (clear b) out ops

  abbrev pub pushed : List (Op A) → List A
  pushed [] = []
  pushed (put e ∷ ops) = e ∷ pushed ops
  pushed (flush ∷ ops) = pushed ops
  pushed (wipe ∷ ops) = pushed ops

  drop-sublist : (n : ℕ) (xs : List A) → Sublist (drop n xs) xs
  drop-sublist zero xs = Sublist.refl xs
  drop-sublist (suc n) [] = Sublist.refl []
  drop-sublist (suc n) (x ∷ xs) = Sublist.cons x (drop-sublist n xs)

  push-sublist :
      (o : BufferOptions A) (b : WriteBuffer A) (e : A)
      → Sublist (push o b e).entries (b.entries ++ (e ∷ []))
  unfolding push
  push-sublist o b e =
      rw (evict_lem o (b.entries ++ (e ∷ [])) b.dropped b.dropped_by_market) (drop-sublist _ _)

  push-size :
      (o : BufferOptions A) (b : WriteBuffer A) (e : A)
      → (length (push o b e).entries ≤ o.max_size)
        × ((push o b e).dropped + length (push o b e).entries ≡ b.dropped + length b.entries + 1)
  unfolding push
  push-size o b e =
      let es = b.entries ++ (e ∷ []) in
      let n = length es - o.max_size in
      rw (evict_lem o es b.dropped b.dropped_by_market) (
        let gone = length-drop n es in
        let all = length-append b.entries (e ∷ []) in
        (omega (arith, gone), omega (arith, gone, all)))

  drained-sublist :
      (b : WriteBuffer A) (out h : List A)
      → Sublist (out ++ b.entries) h
      → Sublist ((out ++ (drain b).1) ++ (drain b).0.entries) h
  unfolding drain
  drained-sublist b out h s = rw append-nil s

  cleared-sublist :
      (b : WriteBuffer A) (out h : List A)
      → Sublist (out ++ b.entries) h
      → Sublist (out ++ (clear b).entries) h
  unfolding clear
  cleared-sublist b out h s = rw append-nil (Sublist.trans (sublist-append_left out b.entries) s)

  -- `out` was drained from `h`, of which the entries of `b` are a later part.
  run-sublist :
      (o : BufferOptions A) (b : WriteBuffer A) (out h : List A) (ops : List (Op A))
      → Sublist (out ++ b.entries) h
      → let (b', out') = run o b out ops in Sublist (out' ++ b'.entries) (h ++ pushed ops)
  run-sublist o b out h [] s = rw append-nil s
  run-sublist o b out h (put e ∷ ops) s =
      let grown : Sublist (out ++ (b.entries ++ (e ∷ []))) (h ++ (e ∷ [])) =
        rw (← append_assoc out b.entries (e ∷ [])) (Sublist.append s (Sublist.refl (e ∷ []))) in
      let next : Sublist (out ++ (push o b e).entries) (h ++ (e ∷ [])) =
        Sublist.trans (Sublist.append (Sublist.refl out) (push-sublist o b e)) grown in
      rw (← append_assoc h (e ∷ []) (pushed ops))
        (run-sublist o (push o b e) out (h ++ (e ∷ [])) ops next)
  run-sublist o b out h (flush ∷ ops) s =
      run-sublist o (drain b).0 (out ++ (drain b).1) h ops (drained-sublist b out h s)
  run-sublist o b out h (wipe ∷ ops) s =
      run-sublist o (clear b) out h ops (cleared-sublist b out h s)

  run-size :
      (o : BufferOptions A) (b : WriteBuffer A) (out : List A) (ops : List (Op A))
      → length b.entries ≤ o.max_size
      → length (run o b out ops).0.entries ≤ o.max_size
  run-size o b out [] h = h
  run-size o b out (put e ∷ ops) h = run-size o (push o b e) out ops (push-size o b e).0
  run-size o b out (flush ∷ ops) h =
      run-size o (drain b).0 (out ++ (drain b).1) ops (unfold drain in omega arith)
  run-size o b out (wipe ∷ ops) h = run-size o (clear b) out ops (unfold clear in omega arith)

  -- Over any pushes, drains and clears of a new buffer, it never holds more than `max_size` entries,
  -- and what the drains returned followed by what it still holds is a sublist of what was pushed:
  -- nothing is made up, returned twice or reordered.
  pub run_bounded_fifo :
      (o : BufferOptions A) (ops : List (Op A))
      → let (b, out) = run o create [] ops in
        (size b ≤ o.max_size) × Sublist (out ++ b.entries) (pushed ops)
  unfolding create size
  run_bounded_fifo o ops =
      (run-size o create [] ops (omega arith), run-sublist o create [] [] ops (Sublist.refl []))
