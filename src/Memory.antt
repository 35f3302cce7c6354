-- ===== src/Memory.antt =====
-- matrix/memory: the allocator of a server's heap and the pool of heaps. An address is a number; the
-- bytes of the heap are not modelled, only its block headers, by their addresses, and the end of the
-- part that is filled with zeroes. The chain of a block list is a list. RoundUpToNextPowerOfTwo and
-- IsPowerOfTwo of the wheels library are parameters.
pub mod Bump
pub mod Outcomes
pub mod Layout
pub mod Sound
pub mod Recycled
pub mod Disjoint
use whirl_matrix.Base.{
  ℕ, zero, suc, ◌+◌, ◌-◌, ◌*◌, ◌/◌, ◌%◌, ◌^◌, Bool, true, false, not, ◌&&◌, Option, none, some,
  List, [], ◌∷◌, ltb, leb, ◌==◌, get_elem?, set, replicate, Outcome, ok, panic, ◌>>=◌, ◌>>◌, verify,
  if◌then◌else◌,
}
use whirl_matrix.Fs.Table.{find_fd, erase_fd}

pub record BitHacks : Type 0 where
  pub round_up_to_next_power_of_two : ℕ → ℕ
  pub is_power_of_two : ℕ → Bool

abbrev pub required_alignment : ℕ
required_alignment = 16

-- sizeof(BlockHeader)
abbrev pub header_size : ℕ
header_size = 16

abbrev pub z_fill_block_size : ℕ
z_fill_block_size = 4096

abbrev pub max_class_index : ℕ
max_class_index = 10

abbrev pub large_alloc_class : ℕ
large_alloc_class = 0

-- The lists of the classes, and the arena from `start` to `end`. A block without a header here has
-- none with the canary.
pub record Allocator : Type 0 where
  pub block_lists : List (List ℕ)
  pub headers : List (ℕ × ℕ)
  pub start : ℕ
  pub end : ℕ
  pub next : ℕ
  pub zfilled : ℕ

unfoldable pub class_of : ℕ → ℕ
class_of n =
    if n == 16
    then 1
    else if n == 32
    then 2
    else if n == 64
    then 3
    else if n == 128
    then 4
    else if n == 256
    then 5
    else if n == 512
    then 6
    else if n == 1024
    then 7
    else if n == 2048
    then 8
    else if n == 4096
    then 9
    else if n == 8192
    then 10
    else large_alloc_class

-- BlockList::Push and TryPop of the list of a class.
unfoldable pub push : ℕ → ℕ → List (List ℕ) → Outcome (List (List ℕ))
push class_index block lists = elim (get_elem? lists class_index) [
  | none ↦ panic
  | some l ↦ ok (set lists class_index (block ∷ l))
]

unfoldable pub try_acquire : ℕ → List (List ℕ) → Outcome (Option ℕ × List (List ℕ))
try_acquire class_index lists =
    verify (leb class_index max_class_index) >> elim (get_elem? lists class_index) [
      | none ↦ panic
      | some [] ↦ ok (none, lists)
      | some (block ∷ rest) ↦ ok (some block, set lists class_index rest)
    ]

unfoldable pub hard_reset : List (List ℕ)
hard_reset = replicate (max_class_index + 1) []

unfoldable pub overflow : ℕ → Allocator → Bool
overflow bytes a = leb a.end (a.next + header_size + bytes)

-- The loop of ZeroFillTo, on fuel: each turn moves the end by a block.
unfoldable pub zero_fill_to : ℕ → ℕ → ℕ → Outcome ℕ
zero_fill_to zero pos zfilled = panic
zero_fill_to (suc fuel) pos zfilled = elim (leb zfilled pos) [
  | false ↦ ok zfilled
  | true ↦ zero_fill_to fuel pos (zfilled + z_fill_block_size)
]

-- The headers of earlier lives of the heap that the zeroes replace.
unfoldable pub drop_headers : ℕ → ℕ → List (ℕ × ℕ) → List (ℕ × ℕ)
drop_headers lo hi [] = []
drop_headers lo hi ((addr, size) ∷ headers) =
    let rest = drop_headers lo hi headers in
    if leb lo addr && ltb addr hi then rest else (addr, size) ∷ rest

-- The size of a header is 32 bits wide.
unfoldable pub write_block_header : ℕ → ℕ → Allocator → ℕ × Allocator
write_block_header addr size a =
    (addr + header_size, record a { headers = (addr, size % 2 ^ 32) ∷ a.headers })

unfoldable pub allocate_new_block : ℕ → Allocator → Outcome (ℕ × Allocator)
unfolding overflow zero_fill_to write_block_header drop_headers
allocate_new_block bytes a =
    verify (a.next % required_alignment == 0)
    >> verify (not (overflow bytes a))
    >> zero_fill_to (a.next + header_size + bytes + 2) (a.next + header_size + bytes) a.zfilled
    >>= λ zfilled.
        let (user_addr, b) =
          write_block_header a.next bytes
            (record a { zfilled = zfilled; headers = drop_headers a.zfilled zfilled a.headers }) in
        ok (user_addr, record b { next = user_addr + bytes })

unfoldable pub from_here : ℕ → Allocator → Bool
from_here addr a = leb a.start addr && ltb addr a.end

unfoldable pub bytes_allocated : Allocator → ℕ
bytes_allocated a = a.next - a.start

unfoldable pub reset : Allocator → Allocator
unfolding hard_reset
reset a = record a { next = a.start; zfilled = a.start; block_lists = hard_reset }

unfoldable pub make_allocator : ℕ → ℕ → Outcome Allocator
unfolding reset
make_allocator start end =
    verify ((end - start) % z_fill_block_size == 0)
    >> ok (
        reset (record {
          block_lists = [];
          headers = [];
          start = start;
          end = end;
          next = start;
          zfilled = start;
        }))

module _ (hacks : BitHacks) where
  unfoldable pub alloc_to_power_of_2 : ℕ → ℕ
  alloc_to_power_of_2 bytes =
      let pow2 = hacks.round_up_to_next_power_of_two bytes in if leb 16 pow2 then pow2 else 16

  unfoldable pub get_alloc_class : ℕ → Outcome ℕ
  get_alloc_class bytes_pow2 = verify (hacks.is_power_of_two bytes_pow2) >> ok (class_of bytes_pow2)

  -- BlockCache::Release
  unfoldable pub release : ℕ → ℕ → List (List ℕ) → Outcome (List (List ℕ))
  unfolding get_alloc_class push
  release block size lists = get_alloc_class size >>= λ class_index.
      verify (leb class_index max_class_index) >> push class_index block lists

  unfoldable pub do_allocate : ℕ → Allocator → Outcome (ℕ × Allocator)
  unfolding alloc_to_power_of_2 get_alloc_class try_acquire allocate_new_block
  do_allocate bytes a =
      let bytes_pow2 = alloc_to_power_of_2 bytes in
      get_alloc_class bytes_pow2 >>= λ alloc_class. elim (alloc_class == large_alloc_class) [
        | true ↦ allocate_new_block bytes_pow2 a
        | false ↦ try_acquire alloc_class a.block_lists >>= λ r. elim r.0 [
          | some block ↦ ok (block + header_size, record a { block_lists = r.1 })
          | none ↦ allocate_new_block bytes_pow2 (record a { block_lists = r.1 })
        ]
      ]

  unfoldable pub allocate : ℕ → Allocator → Outcome (ℕ × Allocator)
  unfolding do_allocate
  allocate bytes a = verify (not (ltb (2 ^ 32 - 1) bytes)) >> do_allocate bytes a >>= λ r.
      verify (r.0 % required_alignment == 0) >> ok r

  unfoldable pub free : ℕ → Allocator → Outcome Allocator
  unfolding from_here get_alloc_class release
  free addr a =
      verify (not (addr == 0))
      >> verify (from_here addr a)
      >> elim (find_fd (addr - header_size) a.headers) [
        | none ↦ panic
        | some size ↦ get_alloc_class size >>= λ alloc_class.
            elim (alloc_class == large_alloc_class) [
              | true ↦ ok a
              | false ↦ release (addr - header_size) size a.block_lists >>= λ lists.
                  ok (record a { block_lists = lists })
            ]
      ]

-- HeapsAllocator: the heaps released, the last on top; a new one is `pages` pages at the address that
-- the system chooses.
pub record Heap : Type 0 where
  pub address : ℕ
  pub pages : ℕ

pub record Heaps : Type 0 where
  pub heap_size_pages : ℕ
  pub pool : List Heap

unfoldable pub acquire_heap : ℕ → Heaps → Heap × Heaps
acquire_heap fresh heaps = elim heaps.pool [
  | [] ↦ (record { address = fresh; pages = heaps.heap_size_pages }, heaps)
  | heap ∷ rest ↦ (heap, record heaps { pool = rest })
]

unfoldable pub release_heap : Heap → Heaps → Heaps
release_heap heap heaps = record heaps { pool = heap ∷ heaps.pool }

unfoldable pub set_heap_size : ℕ → Heaps → Heaps
set_heap_size bytes heaps = record heaps { heap_size_pages = bytes / 4096 + 1 }
