-- ===== src/Kernel/Ring/Refine.antt =====
-- Every call on a valid ring returns, keeps the ring valid, and does to the pending entries what
-- the bounded queue does.
use native.Mathlib.Nat.{mod-add-mod, mod-eq_of_lt}
use pcie_sim.Base.{
  ℕ, zero, suc, ◌+◌, ◌-◌, ◌%◌, ◌<◌, ◌≡◌, ◌≢◌, refl, ap, ap₂, sym, ◌∙◌, List, [], ◌∷◌, ◌++◌, arith,
  length, length-set, get_or-set_self, get_or-set_ne, Bool, dec_lt, ℕ_discrete, Returns,
  Returns-some,
}
use pcie_sim.Kernel.Ring.{Ring, zero_desc}
use pcie_sim.Kernel.Ring.Window.{
  window, length-window, window_cong, window_snoc, window_mod, step_ne,
}
use pcie_sim.Kernel.Ring.Queue.{
  Entry, entry, Queue, Call, submits, completes, Reply, queue_step, queue_run, step, run,
}
use pcie_sim.Kernel.Ring.Inv.{
  IsValid, slots, slot, submitted, completed, submit_full, submit_room, complete_empty,
  complete_pending,
}

-- The pending entries, oldest first.
abbrev pub contents : Ring → Queue
contents r = window (λ i. entry (slot r i)) r.size r.tail r.count

pub length-contents : (r : Ring) → length (contents r) ≡ r.count
length-contents r = length-window r.size (λ i. entry (slot r i)) r.tail r.count

submitted-IsValid :
    (now : ℕ) (r : Ring) (a l f : ℕ)
    → IsValid r
    → r.count < r.size
    → IsValid (submitted now r a l f)
submitted-IsValid now r a l f v h = record {
  allocated = length-set (slots r.descriptors) r.head _ ∙ v.allocated;
  nonempty = v.nonempty;
  small = v.small;
  head_in = omega (arith, v);
  tail_in = v.tail_in;
  count_le = omega arith;
  placed =
      ap (λ t. t % r.size) (omega arith)
      ∙ sym (mod-add-mod (r.tail + r.count) r.size 1)
      ∙ ap (λ t. (t + 1) % r.size) v.placed;
  balanced = omega (arith, v.balanced);
}

completed-IsValid : (r : Ring) (status : ℕ) → IsValid r → r.count ≢ 0 → IsValid (completed r status)
completed-IsValid r status v h = record {
  allocated = length-set (slots r.descriptors) r.tail _ ∙ v.allocated;
  nonempty = v.nonempty;
  small = v.small;
  head_in = v.head_in;
  tail_in = omega (arith, v);
  count_le = omega (arith, v);
  placed =
      mod-add-mod (r.tail + 1) r.size (r.count - 1) ∙ ap (λ t. t % r.size) (omega arith) ∙ v.placed;
  balanced = omega (arith, v.balanced);
}

-- No pending entry lies at the head, where the next one goes.
head-ne :
    (r : Ring) (k : ℕ) → IsValid r → r.count < r.size → k < r.count → r.head ≢ (r.tail + k) % r.size
head-ne r k v h p e =
    step_ne r.size ((r.tail + k) % r.size) (r.count - k) (omega (arith, v)) (omega arith)
      (omega arith)
      (mod-add-mod (r.tail + k) r.size (r.count - k)
        ∙ ap (λ t. t % r.size) (omega arith)
        ∙ v.placed
        ∙ e)

contents-submitted :
    (now : ℕ) (r : Ring) (a l f : ℕ)
    → IsValid r
    → r.count < r.size
    → contents (submitted now r a l f)
      ≡ contents r
        ++ record { buffer_addr = a; length = l; flags = f; timestamp = now; status = 0 } ∷ []
contents-submitted now r a l f v h =
    ap (window after r.size r.tail) {y = suc r.count} (omega arith)
    ∙ window_snoc r.size after r.tail r.count
    ∙ ap₂ (λ xs x. xs ++ x ∷ []) older newest
  where
    after : ℕ → Entry
    after i = entry (slot (submitted now r a l f) i)

    older : window after r.size r.tail r.count ≡ contents r
    older =
        window_cong r.size after (λ i. entry (slot r i)) r.tail r.tail r.count
          (λ k p.
            ap entry (get_or-set_ne (slots r.descriptors) r.head _ _ zero_desc (head-ne r k v h p)))

    newest :
        after ((r.tail + r.count) % r.size)
        ≡ record { buffer_addr = a; length = l; flags = f; timestamp = now; status = 0 }
    newest =
        rw v.placed
          (ap entry (get_or-set_self (slots r.descriptors) r.head _ zero_desc (omega (arith, v))))

-- The window opened at its first entry.
window-cons :
    (g : ℕ → Entry) (s h n : ℕ)
    → h < s
    → n ≢ 0
    → window g s h n ≡ g h ∷ window g s ((h + 1) % s) (n - 1)
window-cons g s h zero p q = absurd (q refl)
window-cons g s h (suc n) p q =
    ap₂ ◌∷◌ (ap g (mod-eq_of_lt p))
      (sym (window_mod s g (h + 1) n) ∙ ap (window g s ((h + 1) % s)) (omega arith))

contents-completed :
    (r : Ring) (status : ℕ)
    → IsValid r
    → r.count ≢ 0
    → contents r ≡ entry (slot r r.tail) ∷ contents (completed r status)
contents-completed r status v h =
    window-cons before r.size r.tail r.count v.tail_in h ∙ ap (λ q. before r.tail ∷ q) younger
  where
    before : ℕ → Entry
    before i = entry (slot r i)

    apart : (k : ℕ) → k < r.count - 1 → r.tail ≢ ((r.tail + 1) % r.size + k) % r.size
    apart k p e =
        step_ne r.size r.tail (1 + k) v.tail_in (omega arith) (omega (arith, v))
          (ap (λ t. t % r.size) (omega arith) ∙ sym (mod-add-mod (r.tail + 1) r.size k) ∙ sym e)

    younger :
        window before r.size ((r.tail + 1) % r.size) (r.count - 1) ≡ contents (completed r status)
    younger =
        window_cong r.size before (λ i. entry (slot (completed r status) i)) _ _ (r.count - 1)
          (λ k p.
            ap entry (sym (get_or-set_ne (slots r.descriptors) r.tail _ _ zero_desc (apart k p))))

-- What a call on the ring `r` must come to.
abbrev pub Refines : Ring → Call → Reply × Ring → Type 0
Refines r c (reply, r') =
    IsValid r' × (r'.size ≡ r.size) × ((reply, contents r') ≡ queue_step r.size (contents r) c)

submits_Refines :
    (now : ℕ) (r : Ring) (a l f : ℕ)
    → IsValid r
    → Returns (step r (submits now a l f)) (Refines r (submits now a l f))
unfolding step queue_step
submits_Refines now r a l f v = elim (dec_lt r.count r.size) [
  | yes room ↦ rw (submit_room now r a l f v room) (
    submitted-IsValid now r a l f v room,
    refl,
    ground (arith, length-contents r, contents-submitted now r a l f v room),
  )
  | no full ↦
      rw (submit_full now r a l f (omega arith))
        (omega arith, refl, ground (arith, length-contents r))
]

contents_empty : (r : Ring) → r.count ≡ 0 → contents r ≡ []
contents_empty r e = ap (window (λ i. entry (slot r i)) r.size r.tail) e

completes_Refines :
    (now : ℕ) (r : Ring) (length latency_ns : Bool) (status : ℕ)
    → IsValid r
    → let c = completes now length latency_ns status in Returns (step r c) (Refines r c)
unfolding step queue_step
completes_Refines now r l t status v = elim (ℕ_discrete r.count 0) [
  | yes empty ↦ rw (complete_empty now r l t status empty) (v, refl, rw (contents_empty r empty))
  | no pending ↦
      rw (complete_pending now r l t status v pending)
        (completed-IsValid r status v pending, refl, rw (contents-completed r status v pending))
]

-- One call: on a valid ring it faults at nothing, leaves a valid ring of the same size, and gives
-- the reply and the pending entries of the bounded queue.
pub step-Refines : (r : Ring) (c : Call) → IsValid r → Returns (step r c) (Refines r c)
step-Refines r (submits now a l f) v = submits_Refines now r a l f v
step-Refines r (completes now l t status) v = completes_Refines now r l t status v

-- Any sequence of submissions and completions on a valid ring runs without a fault, ends in a
-- valid ring, and gets the replies of the bounded queue of the ring's pending entries.
pub run_refines :
    (cs : List Call) (r : Ring)
    → IsValid r
    → Returns (run r cs) (λ out. IsValid out.1 × (out.0 ≡ queue_run r.size (contents r) cs))
unfolding run queue_run
run_refines [] r v = (v, refl)
run_refines (c ∷ cs) r v =
    let (out, e, good) = Returns-some (Refines r c) (step r c) (step-Refines r c v) in
    let (rest, e', good') = Returns-some _ (run out.1 cs) (run_refines cs out.1 good.0) in
    rw (e, e')
      (
        good'.0,
        rw (← good.2)
            (ap (λ q. out.0 ∷ q) (good'.1 ∙ ap (λ n. queue_run n (contents out.1) cs) good.1)),
      )
