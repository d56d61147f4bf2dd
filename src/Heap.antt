-- ===== src/Heap.antt =====
-- src/xnet/xheap.h: a binary heap of nodes, each of which knows its place in the array.
pub mod Valid
pub mod Move
pub mod Rise
pub mod Push
pub mod Least
pub mod Swap
pub mod Sink
pub mod Root
pub mod Pop
mod Examples
use wenas.Base.{
  ℕ, zero, suc, ◌+◌, ◌-◌, ◌*◌, ◌/◌, ◌%◌, ◌^◌, Bool, true, false, Option, none, some, Run, ok, fault,
  out_of_fuel, or_fault, ◌>>=◌, ltb, leb, ◌==◌, if◌then◌else◌, ◌&&◌,
}

-- `struct xheap` with the nodes that it points to. A node is a number, its address; `key` and
-- `place` are the fields `key` and `pos` of the nodes, and `array` the pointers, NULL being
-- `none`. The array has the indices 0 to `len`.
pub record Heap : Type 0 where
  pub pos : ℕ
  pub len : ℕ
  pub array : ℕ → Option ℕ
  pub key : ℕ → ℕ
  pub place : ℕ → ℕ

abbrev pub xeof : ℕ
xeof = 0xFFFFFFFFFFFFFFFF

abbrev pub top : ℕ
top = 1

abbrev pub update {ℓ} : {A : Type ℓ} → (ℕ → A) → ℕ → A → ℕ → A
update f i a j = if j == i then a else f j

-- `xheap_create`: `size` is a `uint32_t`. The flag says that there was memory.
unfoldable pub create : Bool → ℕ → (ℕ → ℕ) → (ℕ → ℕ) → Option Heap
create memory size key place =
    if memory
    then some (record { pos = 0; len = size; array = λ i. none; key = key; place = place })
    else none

-- `h->array[i]`, and the node that it points to.
unfoldable pub slot : Heap → ℕ → Run (Option ℕ)
slot h i = if leb i h.len then ok (h.array i) else fault

unfoldable pub node_at : Heap → ℕ → Run ℕ
node_at h i = slot h i >>= or_fault

-- `h->array[i] = p;`
unfoldable pub store : Heap → ℕ → Option ℕ → Run Heap
store h i p = if leb i h.len then ok (record h { array = update h.array i p }) else fault

-- `h->array[i] = node; h->array[i]->pos = i;`
unfoldable pub put : Heap → ℕ → ℕ → Run Heap
put h i node =
    if leb i h.len
    then ok (record h { array = update h.array i (some node); place = update h.place node i })
    else fault

-- The loop of `xheap_push`, on fuel: where the node belongs, and the heap with that place free.
unfoldable pub sift_up : ℕ → Heap → ℕ → ℕ → Run (ℕ × Heap)
sift_up zero h i node = out_of_fuel
sift_up (suc fuel) h i node =
    let turn : Run (ℕ × Heap) = do
      parent ← node_at h (i / 2)
      let rise : Run (ℕ × Heap) = (put h i parent >>= λ h'. sift_up fuel h' (i / 2) node)
      if ltb (h.key node) (h.key parent) then rise else ok (i, h)
    in if ltb 0 (i / 2) then turn else ok (i, h)

-- `xheap_push`: the place of the node, or 0 when the heap is full.
unfoldable pub push : ℕ → Heap → ℕ → Run (ℕ × Heap)
push fuel h node =
    let add : Run (ℕ × Heap) = do
      (i, h') ← sift_up fuel (record h { pos = h.pos + 1 }) (h.pos + 1) node
      h'' ← put h' i node
      ok (if leb i 0 then xeof else i, h'')
    in if ltb h.pos h.len then add else ok (0, h)

-- One comparison of the loop below: `child` if it is in the heap and its key is below that of
-- `smallest`, else `smallest`.
unfoldable pub lower : Heap → ℕ → ℕ → Run ℕ
lower h smallest child =
    let compared : Run ℕ = do
      a ← node_at h smallest
      b ← node_at h child
      ok (if ltb (h.key b) (h.key a) then child else smallest)
    in if ltb child h.pos then compared else ok smallest

-- The loop of `xheap_pop` and of `xheap_remove`, on fuel. The indices are `uint32_t`.
unfoldable pub sift_down : ℕ → Heap → ℕ → Run Heap
sift_down zero h index = out_of_fuel
sift_down (suc fuel) h index = do
  smallest ← lower h index (index * 2 % 2 ^ 32)
  smallest' ← lower h smallest ((index * 2 + 1) % 2 ^ 32)
  let swap : Run Heap = do
    tmp ← node_at h index
    below ← node_at h smallest'
    h' ← put h index below
    h'' ← put h' smallest' tmp
    sift_down fuel h'' smallest'
  if smallest' == index then ok h else swap

-- What both do: the node at `smallest` goes to index 0, the last node takes its place and sinks.
unfoldable pub take_out : ℕ → Heap → ℕ → Run (Option ℕ × Heap)
take_out fuel h smallest = do
  h0 ← slot h smallest >>= λ taken. store h 0 taken
  last ← node_at h0 h.pos
  h1 ← put h0 smallest last
  h2 ← store h1 h.pos none
  h3 ← sift_down fuel h2 smallest
  ok (h3.array 0, record h3 { pos = h3.pos - 1 })

-- The heap with its one node taken out.
unfoldable pub take_only : Heap → Run (Option ℕ × Heap)
take_only h = do
  h0 ← slot h top >>= λ taken. store (record h { pos = 0 }) 0 taken
  h1 ← store h0 top none
  ok (h1.array 0, h1)

-- `xheap_pop`: the node, or NULL when the heap is empty.
unfoldable pub pop : ℕ → Heap → Run (Option ℕ × Heap)
pop fuel h =
    let several = take_out fuel h top in
    let one = take_only h in
    if ltb h.pos top then ok (none, h) else (if h.pos == top then one else several)

-- `xheap_remove`: its `smallest` is the `uint32_t` of the node's place.
unfoldable pub remove : ℕ → Heap → ℕ → Run (Option ℕ × Heap)
remove fuel h node =
    let smallest = h.place node % 2 ^ 32 in
    let several : Run (Option ℕ × Heap) = do
      there ← node_at h smallest
      let taken = take_out fuel h smallest
      if h.key there == h.key node then taken else ok (none, h)
    in let one = take_only h in
      if ltb h.pos top then ok (none, h) else (if h.pos == top then one else several)
