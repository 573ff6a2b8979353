-- ===== src/Kernel/Ring/Queue.antt =====
-- What a ring promises: a bounded first-in first-out queue of pending descriptors. Also the calls
-- a client makes of a ring, as data, and what a sequence of them does to the code's ring.
use pcie_sim.Base.{
  ℕ, Bool, List, [], ◌∷◌, ◌++◌, Option, none, some, if◌then◌else◌, leb, length, sub64, Ret, success,
  fail, enospc, enodata, ◌>>=◌,
}
use pcie_sim.Kernel.Ring.{Desc, Ring, Completed, nothing_written, submit, complete}

-- A descriptor without its `reserved` word, which no function touches.
pub record Entry : Type 0 where
  pub buffer_addr : ℕ
  pub length : ℕ
  pub flags : ℕ
  pub timestamp : ℕ
  pub status : ℕ

abbrev pub entry : Desc → Entry
entry d = record {
  buffer_addr = d.buffer_addr;
  length = d.length;
  flags = d.flags;
  timestamp = d.timestamp;
  status = d.status;
}

abbrev pub Queue : Type 0
Queue = List Entry

-- A new entry goes to the end, unless `cap` entries are there.
unfoldable pub push : ℕ → Queue → Entry → Ret × Queue
push cap q e = if leb cap (length q) then (fail enospc, q) else (success, q ++ e ∷ [])

-- The oldest entry leaves; its length and its age at `now` are reported where asked for.
unfoldable pub pop : ℕ → Queue → Bool → Bool → Ret × Completed × Queue
pop now [] want_length want_latency = (fail enodata, nothing_written, [])
pop now (e ∷ q) want_length want_latency = (
  success,
  record {
    length = if want_length then some e.length else none;
    latency_ns = if want_latency then some (sub64 now e.timestamp) else none;
  },
  q,
)

-- A call with its arguments, the time of the call first.
pub data Call : Type 0 where
  submits : ℕ → ℕ → ℕ → ℕ → Call
  completes : ℕ → Bool → Bool → ℕ → Call

abbrev pub Reply : Type 0
Reply = Ret × Completed

unfoldable pub queue_step : ℕ → Queue → Call → Reply × Queue
unfolding push pop
queue_step cap q (submits now buffer_addr length flags) =
    let (ret, q') = push cap q (record {
      buffer_addr = buffer_addr;
      length = length;
      flags = flags;
      timestamp = now;
      status = 0;
    }) in
    ((ret, nothing_written), q')
queue_step cap q (completes now want_length want_latency status) =
    let (ret, out, q') = pop now q want_length want_latency in ((ret, out), q')

unfoldable pub queue_run : ℕ → Queue → List Call → List Reply
queue_run cap q [] = []
queue_run cap q (c ∷ cs) = let (reply, q') = queue_step cap q c in reply ∷ queue_run cap q' cs

-- The same calls on the code's ring; `none` is a fault.
unfoldable pub step : Ring → Call → Option (Reply × Ring)
step r (submits now buffer_addr length flags) = do
  (ret, r') ← submit now r buffer_addr length flags
  some ((ret, nothing_written), r')
step r (completes now want_length want_latency status) = do
  (ret, out, r') ← complete now r want_length want_latency status
  some ((ret, out), r')

unfoldable pub run : Ring → List Call → Option (List Reply × Ring)
run r [] = some ([], r)
run r (c ∷ cs) = do
  (reply, r') ← step r c
  (replies, last) ← run r' cs
  some (reply ∷ replies, last)
