-- ===== src/Controller/Pool/Order.antt =====
-- The order of the queue: entries are received in the order in which they were sent.
use mathlib.Core.List.{append_assoc}
use es_snapshot_restore.Base.{
  ℕ, ap, sym, ◌+◌, ◌≡◌, refl, ◌∙◌, Bool, List, [], ◌∷◌, ◌++◌, count, count-append, arith,
}
use es_snapshot_restore.Controller.{Queued}
use es_snapshot_restore.Controller.Pool.{
  Pool, new_pool, wired_pool, Move, start, start_hooked, send, receive, acquire, finish, leave,
  Reach, here, next,
}

-- `taken` are the entries that the loops have received, in that order.
pub record IsOrdered (p : Pool) : Type 0 where
  pub taken : List Queued
  pub in_order : p.sent ≡ taken ++ p.queue
  pub at_work :
      (f : Queued → Bool) → count f taken ≡ count f p.held + count f p.running + count f p.done

module _ (max_tasks concurrency : ℕ) where
  Move-IsOrdered : {p p' : Pool} → Move max_tasks concurrency p p' → IsOrdered p → IsOrdered p'
  Move-IsOrdered {p} (start e) h =
      rw e (record { taken = h.taken; in_order = h.in_order; at_work = h.at_work })
  Move-IsOrdered {p} (start_hooked e) h =
      rw e (record { taken = h.taken; in_order = h.in_order; at_work = h.at_work })
  Move-IsOrdered {p} (send t room e) h = rw e (record {
    taken = h.taken;
    in_order = ap (λ x. x ++ (t ∷ [])) h.in_order ∙ append_assoc h.taken p.queue (t ∷ []);
    at_work = h.at_work;
  })
  Move-IsOrdered {p} (receive t rest idle q e) h = rw e (record {
    taken = h.taken ++ (t ∷ []);
    in_order = h.in_order ∙ ap (λ x. h.taken ++ x) q ∙ sym (append_assoc h.taken (t ∷ []) rest);
    at_work = λ f.
        omega (arith, h.at_work f, count-append f h.taken (t ∷ []), count-append f p.held (t ∷ []));
  })
  Move-IsOrdered {p} (acquire xs t ys free held e) h = rw e (record {
    taken = h.taken;
    in_order = h.in_order;
    at_work = λ f. omega (
      arith,
      h.at_work f,
      ap (count f) held,
      count-append f p.running (t ∷ []),
      count-append f xs (t ∷ ys),
      count-append f xs ys,
    );
  })
  Move-IsOrdered {p} (finish xs t ys r e) h = rw e (record {
    taken = h.taken;
    in_order = h.in_order;
    at_work = λ f. omega (
      arith,
      h.at_work f,
      ap (count f) r,
      count-append f p.done (t ∷ []),
      count-append f xs (t ∷ ys),
      count-append f xs ys,
    );
  })
  Move-IsOrdered {p} (leave m n idle k l e) h =
      rw e (record { taken = h.taken; in_order = h.in_order; at_work = h.at_work })

  -- What the loops have received is what was sent, in the order in which it was sent, without what
  -- still is in the queue; and each entry that was received is in the hands of a loop, running or done.
  pub Reach-IsOrdered : {p : Pool} → Reach max_tasks concurrency wired_pool p → IsOrdered p
  unfolding wired_pool new_pool
  Reach-IsOrdered here = record { taken = []; in_order = refl; at_work = λ f. refl }
  Reach-IsOrdered (next r m) = Move-IsOrdered m (Reach-IsOrdered r)
