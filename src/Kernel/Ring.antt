-- ===== src/Kernel/Ring.antt =====
-- kernel/ringbuffer.c, one ring: `struct pcie_sim_ring` and the functions that take one. Each
-- runs under the ring's spinlock from its first read to its last write, so it is one step.
-- `now` is what ktime_get_ns() returns during the call. Fields and arguments of type u32 and u64
-- are numbers that the arithmetic below reduces.
pub mod Window
pub mod Queue
pub mod Inv
pub mod Refine
use pcie_sim.Base.{
  ℕ, ◌+◌, ◌-◌, ◌*◌, ◌%◌, ◌^◌, Bool, List, [], ◌∷◌, Option, none, some, if◌then◌else◌, leb, ◌==◌,
  get_elem?, set, replicate, u32, u64, sub32, sub64, Ret, success, fail, enospc, enodata, enomem,
  ◌>>=◌,
}

-- `struct pcie_sim_ring_desc`
pub record Desc : Type 0 where
  pub buffer_addr : ℕ
  pub length : ℕ
  pub flags : ℕ
  pub timestamp : ℕ
  pub status : ℕ
  pub reserved : ℕ

-- `struct pcie_sim_ring`, without its lock. `descriptors` is `none` where the pointer is NULL.
pub record Ring : Type 0 where
  pub descriptors : Option (List Desc)
  pub desc_dma_addr : ℕ
  pub size : ℕ
  pub head : ℕ
  pub tail : ℕ
  pub count : ℕ
  pub submissions : ℕ
  pub completions : ℕ
  pub overruns : ℕ

abbrev pub ring_size : ℕ
ring_size = 256

-- sizeof(struct pcie_sim_ring_desc)
abbrev pub desc_bytes : ℕ
desc_bytes = 32

abbrev pub zero_desc : Desc
zero_desc = record {
  buffer_addr = 0;
  length = 0;
  flags = 0;
  timestamp = 0;
  status = 0;
  reserved = 0;
}

-- pcie_sim_ring_count
unfoldable pub ring_count : Ring → ℕ
ring_count r = r.count

-- pcie_sim_ring_space
unfoldable pub ring_space : Ring → ℕ
ring_space r = sub32 r.size r.count

-- The index after `i`: `(i + 1) % ring->size`, a fault at size 0.
abbrev pub next_index : Ring → ℕ → Option ℕ
next_index r i = if r.size == 0 then none else some (u32 (i + 1) % r.size)

-- pcie_sim_ring_submit
unfoldable pub submit : ℕ → Ring → ℕ → ℕ → ℕ → Option (Ret × Ring)
submit now r buffer_addr length flags =
    if leb r.size r.count
    then some (fail enospc, record r { overruns = u64 (r.overruns + 1) })
    else do
      descriptors ← r.descriptors
      desc ← get_elem? descriptors r.head
      let filled = record desc {
        buffer_addr = buffer_addr;
        length = length;
        flags = flags;
        timestamp = now;
        status = 0;
      }
      next_head ← next_index r r.head
      some (
        success,
        record r {
          descriptors = some (set descriptors r.head filled);
          head = next_head;
          count = u32 (r.count + 1);
          submissions = u64 (r.submissions + 1);
        },
      )

-- What pcie_sim_ring_complete writes through its two pointers, nothing where one is NULL.
pub record Completed : Type 0 where
  pub length : Option ℕ
  pub latency_ns : Option ℕ

abbrev pub nothing_written : Completed
nothing_written = record { length = none; latency_ns = none }

-- pcie_sim_ring_complete; the Booleans say which of the two pointers is not NULL.
unfoldable pub complete : ℕ → Ring → Bool → Bool → ℕ → Option (Ret × Completed × Ring)
complete now r length latency_ns status =
    if r.count == 0 then some (fail enodata, nothing_written, r) else do
      descriptors ← r.descriptors
      desc ← get_elem? descriptors r.tail
      next_tail ← next_index r r.tail
      some (
        success,
        record {
          length = if length then some desc.length else none;
          latency_ns = if latency_ns then some (sub64 now desc.timestamp) else none;
        },
        record r {
          descriptors = some (set descriptors r.tail (record desc { status = status }));
          tail = next_tail;
          count = sub32 r.count 1;
          completions = u64 (r.completions + 1);
        },
      )

-- The coherent DMA memory that is allocated: the address and the size in bytes of each block.
abbrev pub DmaHeap : Type 0
DmaHeap = List (ℕ × ℕ)

-- dma_free_coherent
unfoldable pub dma_free : ℕ → DmaHeap → DmaHeap
dma_free addr [] = []
dma_free addr ((a, n) ∷ heap) = if a == addr then heap else (a, n) ∷ dma_free addr heap

-- init_ring; `alloc` is what dma_alloc_coherent returns, the block's address or NULL.
unfoldable pub init_ring : Option ℕ → DmaHeap → Ring → Ret × DmaHeap × Ring
init_ring alloc heap ring = elim alloc [
  | none ↦ (fail enomem, heap, record cleared { descriptors = none })
  | some addr ↦ (
    success,
    (addr, cleared.size * desc_bytes) ∷ heap,
    record cleared { descriptors = some (replicate cleared.size zero_desc); desc_dma_addr = addr },
  )
]
  where
    cleared : Ring
    cleared = record ring {
      size = ring_size;
      head = 0;
      tail = 0;
      count = 0;
      submissions = 0;
      completions = 0;
      overruns = 0;
    }

-- cleanup_ring
unfoldable pub cleanup_ring : DmaHeap → Ring → DmaHeap × Ring
unfolding dma_free
cleanup_ring heap ring = elim ring.descriptors [
  | none ↦ (heap, ring)
  | some _ ↦
      (dma_free ring.desc_dma_addr heap, record ring { descriptors = none; desc_dma_addr = 0 })
]
