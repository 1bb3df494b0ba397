-- ===== src/Sysv/Msg/Keys.antt =====
-- `do_msgget` of src/kernel/ipc/sysv_ipc.c.
use cosmo_rt.Common.{
  ℕ, ◌<◌, ◌≡◌, ◌≢◌, refl, sym, ap, ◌∙◌, true, false, [], Errno, Reply, ok, err, ◌==◌, arith,
  Bool-cases, inl, inr,
}
use cosmo_rt.Sysv.{Caller, Lookup}
use cosmo_rt.Sysv.Table.{Unheld, Looks, holds, exclusive, missing, full, fresh, lookup-Looks}
use cosmo_rt.Sysv.Msg.{Queue, Queues, put_queue, new_queue, msgget_at, do_msgget}
use cosmo_rt.Sysv.Msg.Chain.{IsQueue}

-- Two queues in use with one key are one, unless it is IPC_PRIVATE.
pub record IsKeyed (s : Queues) : Type 0 where
  pub keyed :
      (i j : ℕ)
      → i < 32
      → j < 32
      → (s.table i).used ≡ true
      → (s.table j).used ≡ true
      → (s.table i).key ≡ (s.table j).key
      → (s.table i).key ≢ 0
      → i ≡ j

-- What `do_msgget` may do: give a queue there is under the key, refuse, or make an empty queue at an
-- unused place for a key that no queue in use has.
pub data Gets (key : ℕ) (s : Queues) : Queues × Reply → Type 0 where
  given :
      (i : ℕ)
      → i < 32
      → (s.table i).used ≡ true
      → (s.table i).key ≡ key
      → key ≢ 0
      → Gets key s (s, ok i)
  denied : (e : Errno) → Gets key s (s, err e)
  made :
      (i : ℕ)
      → (r : Queues) → i < 32
      → (s.table i).used ≡ false
      → (r.table i).key ≡ key
      → IsQueue r i []
      → ((j : ℕ) → j ≢ i → r.table j ≡ s.table j)
      → IsKeyed r
      → Gets key s (r, ok i)

put_other :
    (i j : ℕ) (q : Queue) (s : Queues) → (j == i) ≡ false → (put_queue i q s).table j ≡ s.table j
put_other i j q s n = rw n refl

put_self : (i j : ℕ) (q : Queue) (s : Queues) → (j == i) ≡ true → (put_queue i q s).table j ≡ q
put_self i j q s n = rw n refl

-- A new queue among the old ones.
new_apart :
    (q x y : Queue) (s : Queues) (b : ℕ)
    → (q.key ≢ 0 → Unheld q.key (λ k. (s.table k).used) (λ k. (s.table k).key))
    → b < 32
    → x ≡ q
    → y ≡ s.table b
    → y.used ≡ true
    → x.key ≡ y.key
    → x.key ≢ 0
    → ⊥
new_apart q x y s b u p ex ey v e n =
    u (λ z. n (ap (λ k. k.key) ex ∙ z)) b p (ap (λ k. k.used) (sym ey) ∙ v)
      (ap (λ k. k.key) (sym ey) ∙ sym e ∙ ap (λ k. k.key) ex)

made-IsKeyed :
    (i : ℕ) (q : Queue) (s : Queues)
    → (q.key ≢ 0 → Unheld q.key (λ k. (s.table k).used) (λ k. (s.table k).key))
    → IsKeyed s
    → IsKeyed (put_queue i q s)
made-IsKeyed i q s u h = record {
  keyed = λ a b p p' v v' e n.
      let t = (put_queue i q s).table in
      elim (Bool-cases (a == i)) [
        | inl x ↦ elim (Bool-cases (b == i)) [
          | inl y ↦ ground (arith, x, y)
          | inr y ↦
              absurd
                (new_apart q (t a) (t b) s b u p' (put_self i a q s x) (put_other i b q s y) v' e n)
        ]
        | inr x ↦ elim (Bool-cases (b == i)) [
          | inl y ↦ absurd (
              new_apart q (t b) (t a) s a u p (put_self i b q s y) (put_other i a q s x) v (sym e)
                (λ z. n (e ∙ z)))
          | inr y ↦
              let ea = put_other i a q s x in
              let eb = put_other i b q s y in
              h.keyed a b p p' (ap (λ k. k.used) (sym ea) ∙ v) (ap (λ k. k.used) (sym eb) ∙ v')
                (ap (λ k. k.key) (sym ea) ∙ e ∙ ap (λ k. k.key) eb)
                (λ z. n (ap (λ k. k.key) ea ∙ z))
        ]
      ];
}

new-IsQueue :
    (c : Caller) (i key flags : ℕ) (s : Queues)
    → IsQueue (put_queue i (new_queue c key flags) s) i []
new-IsQueue c i key flags s =
    let here : (i == i) ≡ true = ground arith in
    record {
      used_ = rw here refl;
      chain = rw here refl;
      distinct = tt;
      last = rw here refl;
      counted = rw here refl;
      summed = rw here refl;
    }

got :
    (c : Caller) (key flags : ℕ) (s : Queues) {l : Lookup}
    → IsKeyed s
    → Looks key flags (λ i. (s.table i).used) (λ i. (s.table i).key) l
    → Gets key s (msgget_at c key flags s l)
got c key flags s h (holds i p u k n b) = given i p u k n
got c key flags s h (exclusive i p u k n b) = denied Errno.eexist
got c key flags s h (missing n f u) = denied Errno.enoent
got c key flags s h (full u) = denied Errno.enospc
got c key flags s h (fresh i p u b n f) =
    let here : (i == i) ≡ true = ground arith in
    made i (put_queue i (new_queue c key flags) s) p u (rw here refl) (new-IsQueue c i key flags s)
      (λ j q. put_other i j (new_queue c key flags) s (ground arith))
      (made-IsKeyed i (new_queue c key flags) s n h)

-- Where no two queues in use have one key other than IPC_PRIVATE, `do_msgget` gives the queue there is
-- under the key, refuses and changes nothing, or makes a queue at an unused place; the new queue has
-- the key and no message, the others are as they were, and still no two have one key.
pub do_msgget-Gets :
    (c : Caller) (key flags : ℕ) (s : Queues) → IsKeyed s → Gets key s (do_msgget c key flags s)
unfolding do_msgget
do_msgget-Gets c key flags s h =
    got c key flags s h (lookup-Looks key flags (λ i. (s.table i).used) (λ i. (s.table i).key))
