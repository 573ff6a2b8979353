-- ===== src/Kernel/Memory.antt =====
-- Memory that the kernel reads and writes 32 bits at a time: a block is a list of bytes, and
-- readl() and writel() move four of them, lowest first. An access that is not wholly inside the
-- block is a fault.
use pcie_sim.Base.{
  ℕ, ◌+◌, ◌*◌, ◌/◌, ◌%◌, ◌^◌, ◌≤◌, ◌<◌, ◌≡◌, ◌⊎◌, refl, List, [], ◌∷◌, Option, none, some, arith,
  if◌then◌else◌, leb, length, get_or, set, replicate, length-set, length-replicate, get_or-set_self,
  get_or-set_ne, ◌==◌, zero, suc,
}

-- Byte `i` of a word.
abbrev pub byte : ℕ → ℕ → ℕ
byte zero v = v % 256
byte (suc i) v = byte i (v / 256)

-- The word whose lowest byte lies at `o`.
unfoldable pub load : List ℕ → ℕ → ℕ
load bar o =
    get_or bar o 0
    + 256 * get_or bar (o + 1) 0
    + 65536 * get_or bar (o + 2) 0
    + 16777216 * get_or bar (o + 3) 0

unfoldable pub store : List ℕ → ℕ → ℕ → List ℕ
store bar o v =
    set (set (set (set bar o (byte 0 v)) (o + 1) (byte 1 v)) (o + 2) (byte 2 v)) (o + 3) (byte 3 v)

unfoldable pub readl : List ℕ → ℕ → Option ℕ
unfolding load
readl bar o = if leb (o + 4) (length bar) then some (load bar o) else none

unfoldable pub writel : ℕ → List ℕ → ℕ → Option (List ℕ)
unfolding store
writel v bar o = if leb (o + 4) (length bar) then some (store bar o v) else none

-- kzalloc: a block of zeros.
unfoldable pub zeroed : ℕ → List ℕ
zeroed n = replicate n 0

pub length-store : (bar : List ℕ) (o v : ℕ) → length (store bar o v) ≡ length bar
unfolding store
length-store bar o v = simp length-set

-- A byte after one byte was set.
set_byte :
    (bar : List ℕ) (i j v : ℕ)
    → i < length bar
    → get_or (set bar i v) j 0 ≡ (if i == j then v else get_or bar j 0)
set_byte bar i j v h = ground (arith, get_or-set_self bar j v 0, get_or-set_ne bar i j v 0)

store-byte :
    (bar : List ℕ) (o j v : ℕ)
    → o + 4 ≤ length bar
    → get_or (store bar o v) j 0 ≡ (
        if o + 3 == j
        then byte 3 v
        else (if o + 2 == j
            then byte 2 v
            else (if o + 1 == j then byte 1 v else (if o == j then byte 0 v else get_or bar j 0))))
unfolding store
store-byte bar o j v h = ground (
  arith,
  set_byte three (o + 3) j (byte 3 v),
  set_byte two (o + 2) j (byte 2 v),
  set_byte one (o + 1) j (byte 1 v),
  set_byte bar o j (byte 0 v),
  length-set two (o + 2) (byte 2 v),
  length-set one (o + 1) (byte 1 v),
  length-set bar o (byte 0 v),
)
  where
    one : List ℕ
    one = set bar o (byte 0 v)

    two : List ℕ
    two = set one (o + 1) (byte 1 v)

    three : List ℕ
    three = set two (o + 2) (byte 2 v)

-- A word reads back as it was written.
pub load-store_self :
    (bar : List ℕ) (o v : ℕ) → o + 4 ≤ length bar → v < 2 ^ 32 → load (store bar o v) o ≡ v
unfolding load
load-store_self bar o v h p = ground (
  arith,
  store-byte bar o o v,
  store-byte bar o (o + 1) v,
  store-byte bar o (o + 2) v,
  store-byte bar o (o + 3) v,
)

-- A word that does not overlap the one written is unchanged.
pub load-store_apart :
    (bar : List ℕ) (o u v : ℕ)
    → o + 4 ≤ length bar
    → ((u + 4 ≤ o) ⊎ (o + 4 ≤ u))
    → load (store bar o v) u ≡ load bar u
unfolding load
load-store_apart bar o u v h p = ground (
  arith,
  store-byte bar o u v,
  store-byte bar o (u + 1) v,
  store-byte bar o (u + 2) v,
  store-byte bar o (u + 3) v,
)

-- Every byte of the block is one.
abbrev pub AllBytes : List ℕ → Type 0
AllBytes [] = Unit {0}
AllBytes (b ∷ bar) = (b < 256) × AllBytes bar

pub AllBytes-get_or : (bar : List ℕ) (i : ℕ) → AllBytes bar → get_or bar i 0 < 256
AllBytes-get_or [] i h = omega arith
AllBytes-get_or (b ∷ bar) zero h = h.0
AllBytes-get_or (b ∷ bar) (suc i) h = AllBytes-get_or bar i h.1

AllBytes-set : (bar : List ℕ) (i v : ℕ) → AllBytes bar → v < 256 → AllBytes (set bar i v)
AllBytes-set [] i v h p = tt
AllBytes-set (b ∷ bar) zero v h p = (p, h.1)
AllBytes-set (b ∷ bar) (suc i) v h p = (h.0, AllBytes-set bar i v h.1 p)

pub AllBytes-store : (bar : List ℕ) (o v : ℕ) → AllBytes bar → AllBytes (store bar o v)
unfolding store
AllBytes-store bar o v h =
    AllBytes-set _ (o + 3) _
      (AllBytes-set _ (o + 2) _
        (AllBytes-set _ (o + 1) _ (AllBytes-set bar o _ h (omega arith)) (omega arith))
        (omega arith))
      (omega arith)

pub AllBytes-zeroed : (n : ℕ) → AllBytes (zeroed n)
unfolding zeroed
AllBytes-zeroed zero = tt
AllBytes-zeroed (suc n) = (omega arith, AllBytes-zeroed n)

pub load-lt : (bar : List ℕ) (o : ℕ) → AllBytes bar → load bar o < 2 ^ 32
unfolding load
load-lt bar o h = omega (
  arith,
  AllBytes-get_or bar o h,
  AllBytes-get_or bar (o + 1) h,
  AllBytes-get_or bar (o + 2) h,
  AllBytes-get_or bar (o + 3) h,
)

pub length-zeroed : (n : ℕ) → length (zeroed n) ≡ n
unfolding zeroed
length-zeroed n = length-replicate n 0

get_or-zeroed : (n i : ℕ) → get_or (zeroed n) i 0 ≡ 0
unfolding zeroed
get_or-zeroed zero i = refl
get_or-zeroed (suc n) zero = refl
get_or-zeroed (suc n) (suc i) = get_or-zeroed n i

pub load-zeroed : (n o : ℕ) → load (zeroed n) o ≡ 0
unfolding load
load-zeroed n o = omega (
  arith,
  get_or-zeroed n o,
  get_or-zeroed n (o + 1),
  get_or-zeroed n (o + 2),
  get_or-zeroed n (o + 3),
)
