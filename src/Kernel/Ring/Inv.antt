-- ===== src/Kernel/Ring/Inv.antt =====
-- The invariant of a ring between two calls, and the state that each call of
-- kernel/ringbuffer.c leaves a valid ring in: it faults at nothing, and nothing wraps.
use pcie_sim.Base.{
  ℕ, ◌+◌, ◌-◌, ◌%◌, ◌^◌, ◌≤◌, ◌<◌, ◌≡◌, ◌≢◌, List, [], Option, none, some, arith, length, get_or,
  set, get_elem?-eq-get_or, u64, sub64, if◌then◌else◌, Bool, success, fail, enospc, enodata,
}
use pcie_sim.Kernel.Ring.{Desc, Ring, Completed, nothing_written, zero_desc, submit, complete}

-- The descriptors, none behind a NULL pointer.
abbrev pub slots : Option (List Desc) → List Desc
slots none = []
slots (some descriptors) = descriptors

pub record IsValid (r : Ring) : Type 0 where
  pub allocated : length (slots r.descriptors) ≡ r.size
  pub nonempty : 0 < r.size
  pub small : r.size ≤ 2 ^ 31
  pub head_in : r.head < r.size
  pub tail_in : r.tail < r.size
  pub count_le : r.count ≤ r.size
  pub placed : (r.tail + r.count) % r.size ≡ r.head
  pub balanced : u64 (r.completions + r.count) ≡ r.submissions

-- The descriptor at index `i`.
abbrev pub slot : Ring → ℕ → Desc
slot r i = get_or (slots r.descriptors) i zero_desc

abbrev pub submitted : ℕ → Ring → ℕ → ℕ → ℕ → Ring
submitted now r buffer_addr length flags = record r {
  descriptors = some (
      set (slots r.descriptors) r.head (record {
        buffer_addr = buffer_addr;
        length = length;
        flags = flags;
        timestamp = now;
        status = 0;
        reserved = (slot r r.head).reserved;
      }));
  head = (r.head + 1) % r.size;
  count = r.count + 1;
  submissions = u64 (r.submissions + 1);
}

abbrev pub completed : Ring → ℕ → Ring
completed r status = record r {
  descriptors =
      some (set (slots r.descriptors) r.tail (record (slot r r.tail) { status = status }));
  tail = (r.tail + 1) % r.size;
  count = r.count - 1;
  completions = u64 (r.completions + 1);
}

abbrev pub report : ℕ → Desc → Bool → Bool → Completed
report now d length latency_ns = record {
  length = if length then some d.length else none;
  latency_ns = if latency_ns then some (sub64 now d.timestamp) else none;
}

pub submit_full :
    (now : ℕ) (r : Ring) (buffer_addr length flags : ℕ)
    → r.size ≤ r.count
    → submit now r buffer_addr length flags
      ≡ some (fail enospc, record r { overruns = u64 (r.overruns + 1) })
unfolding submit
submit_full now r a l f h = ground arith

pub submit_room :
    (now : ℕ) (r : Ring) (buffer_addr length flags : ℕ)
    → IsValid r
    → r.count < r.size
    → submit now r buffer_addr length flags
      ≡ some (success, submitted now r buffer_addr length flags)
unfolding submit
submit_room now r a l f v h =
    ground (arith, get_elem?-eq-get_or (slots r.descriptors) r.head zero_desc)

pub complete_empty :
    (now : ℕ) (r : Ring) (length latency_ns : Bool) (status : ℕ)
    → r.count ≡ 0
    → complete now r length latency_ns status ≡ some (fail enodata, nothing_written, r)
unfolding complete
complete_empty now r l t status h = ground arith

pub complete_pending :
    (now : ℕ) (r : Ring) (length latency_ns : Bool) (status : ℕ)
    → IsValid r
    → r.count ≢ 0
    → complete now r length latency_ns status
      ≡ some (success, report now (slot r r.tail) length latency_ns, completed r status)
unfolding complete
complete_pending now r l t status v h =
    ground (arith, get_elem?-eq-get_or (slots r.descriptors) r.tail zero_desc)
