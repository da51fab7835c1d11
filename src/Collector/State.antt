-- ===== src/Collector/State.antt =====
-- The collector's state, and the scan that puts an object's memory on the stack.
use gc.Base.{ℕ, ◌==◌, if◌then◌else◌, add64}
use gc.Object
use gc.Object.{Object}
use gc.Stack
use gc.Stack.{Stack}
use gc.GlobalAllocator.{GlobalAllocator}

pub record Collector : Type 0 where
  pub global_allocator : GlobalAllocator
  pub collect_callback : ℕ
  pub roots : Stack
  pub is_collecting : ℕ

-- `Collector_scanObject` of the object at an address.
unfoldable pub scan_object : Collector → ℕ → Object → Collector
scan_object self address object =
    if object.atomic == 0
    then record self {
      roots = Stack.push self.roots (Object.mutator_address address) (add64 address object.size);
    }
    else self
