-- ===== src/Midl/Growing/Many/Room.antt =====
-- Blocks with room for several IDs, as they are or grown (midl.c lines 131-141).
use ligo.Prelude.{ℕ, ◌+◌, ◌≤◌, ◌<◌, ◌≡◌, refl, ◌∙◌, arith, some, List}
use ligo.Prelude.{get_or, set, length, length-set, get_or-set_self, get_or-set_ne}
use ligo.Midl.Growing.{u64, capacity, count, ReallocType, IsRealloc}
use ligo.Midl.Growing.Append.{IsIdl}
use ligo.Midl.Growing.Many.{of_int}

-- `out` is `block` with `n` IDs behind the others.
pub record HasAppended (block : List ℕ) (n : ℕ) (new_id : ℕ → ℕ) (out : List ℕ) : Type 0 where
  pub counted : count out ≡ count block + n
  pub new : (i : ℕ) → 1 ≤ i → i ≤ n → get_or out (count block + i + 1) 0 ≡ new_id i
  pub others : (i : ℕ) → 1 ≤ i → i ≤ count block → get_or out (i + 1) 0 ≡ get_or block (i + 1) 0
  pub size : length out ≡ capacity out + 2
  pub within : count out ≤ capacity out

-- A block with room for `n` more IDs, and the IDs of another.
pub record HasRoomFor (block : List ℕ) (n : ℕ) (out : List ℕ) : Type 0 where
  pub size : length out ≡ capacity out + 2
  pub room : count block + n ≤ capacity out
  pub small : capacity out < 0x2000_0000_0000_0000
  pub same : (i : ℕ) → 1 ≤ i → i ≤ count block + 1 → get_or out i 0 ≡ get_or block i 0

pub of_int_small : (n : ℕ) → n < 0x8000_0000 → of_int n ≡ n
of_int_small n h = ground arith

module _ (realloc : ReallocType) (block : List ℕ) (h : IsIdl block) where
  pub grown-HasRoomFor :
      (n num : ℕ) (idn : List ℕ)
      → IsRealloc realloc
      → num < 0x8000_0000
      → n ≤ num
      → realloc block (u64 (capacity block + num + 2)) ≡ some idn
      → HasRoomFor block n (set idn 0 (u64 (capacity idn + num)))
  grown-HasRoomFor n num idn law small enough e =
      let size = law.size block _ idn e in
      let same = law.same block _ idn e in
      let old_capacity : capacity idn ≡ capacity block =
        same 0 (omega (arith, h.size)) (omega (arith, h.small)) in
      let new_capacity : capacity (set idn 0 (u64 (capacity idn + num))) ≡ capacity block + num =
        get_or-set_self idn 0 _ (omega (arith, size, h.small))
        ∙ omega (arith, old_capacity, h.small) in
      record {
        size =
            omega (arith, length-set idn 0 (u64 (capacity idn + num)), size, new_capacity, h.small);
        room = omega (arith, new_capacity, h.within);
        small = omega (arith, new_capacity, h.small);
        same = λ i p q.
            get_or-set_ne idn 0 i _ (omega arith)
            ∙ same i (omega (arith, h.size, h.within)) (omega (arith, h.small, h.within));
      }

  pub roomy-HasRoomFor : (n : ℕ) → count block + n ≤ capacity block → HasRoomFor block n block
  roomy-HasRoomFor n room = record {
    size = h.size;
    room = room;
    small = omega (arith, h.small);
    same = λ i p q. refl;
  }
