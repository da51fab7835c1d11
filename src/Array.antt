-- ===== src/Array.antt =====
-- include/array.h: the growable array of pointers. The cursor and the limit are indexes into the
-- buffer, whose cells are read as a function; what it gives at the limit and behind is the memory
-- there, of which nothing is known. `realloc` is taken to succeed: the code stops if it fails. The
-- contents of the cells that it adds are the parameter `fresh`.
pub mod Items
use gc.Base.{ℕ, zero, suc, ◌+◌, ◌-◌, ◌*◌, Bool, ltb, leb, ◌==◌, if◌then◌else◌}

pub record Array : Type 0 where
  pub capacity : ℕ
  pub buffer : ℕ → ℕ
  pub cursor : ℕ
  pub limit : ℕ

abbrev pub null : ℕ
null = 0

unfoldable pub size : Array → ℕ
size self = self.cursor

unfoldable pub is_empty : Array → Bool
is_empty self = self.cursor == 0

unfoldable pub write : (ℕ → ℕ) → ℕ → ℕ → (ℕ → ℕ)
write f at v i = if i == at then v else f i

unfoldable pub resize : (ℕ → ℕ) → Array → ℕ → Array
resize fresh self new_capacity = record {
  capacity = new_capacity;
  buffer = λ i. if ltb i self.limit then self.buffer i else fresh i;
  cursor = size self;
  limit = new_capacity;
}

-- The fields of a new array are not set when the code resizes it: only its contents are lost.
unfoldable pub init : (ℕ → ℕ) → ℕ → Array
init fresh capacity = record { capacity = capacity; buffer = fresh; cursor = 0; limit = capacity }

unfoldable pub get : Array → ℕ → ℕ
unfolding size
get self index = if leb (size self) index then null else self.buffer index

-- The loop of `Array_each` over the cells from `cursor`, with the rounds left. A call of the callback
-- changes the program's state.
each_loop {ℓ} : {S : Type ℓ} → (ℕ → S → S) → ℕ → (ℕ → ℕ) → ℕ → S → S
each_loop callback zero f cursor s = s
each_loop callback (suc n) f cursor s = each_loop callback n f (cursor + 1) (callback (f cursor) s)

unfoldable pub each {ℓ} : {S : Type ℓ} → (ℕ → S → S) → Array → S → S
unfolding each_loop
each callback self s = each_loop callback self.cursor self.buffer 0 s

unfoldable pub push : (ℕ → ℕ) → Array → ℕ → Array
push fresh self item =
    let a = if self.cursor == self.limit then resize fresh self (self.capacity * 2) else self in
    record a { buffer = write a.buffer a.cursor item; cursor = a.cursor + 1 }

-- The second component is the item, or NULL where there is none.
unfoldable pub pop : Array → Array × ℕ
unfolding is_empty
pop self =
    if is_empty self
    then (self, null)
    else (record self { cursor = self.cursor - 1 }, self.buffer (self.cursor - 1))

-- The inner loop of `Array_delete`: each cell takes the value of the next one.
shift_cells : ℕ → (ℕ → ℕ) → ℕ → (ℕ → ℕ)
unfolding write
shift_cells zero f cursor = f
shift_cells (suc n) f cursor = shift_cells n (write f cursor (f (cursor + 1))) (cursor + 1)

delete_loop : ℕ → Array → ℕ → ℕ → Array
unfolding shift_cells
delete_loop zero self item cursor = self
delete_loop (suc n) self item cursor =
    let rest = delete_loop n self item (cursor + 1) in
    if self.buffer cursor == item
    then record self {
      buffer = shift_cells (self.limit - cursor) self.buffer cursor;
      cursor = self.cursor - 1;
    }
    else rest

unfoldable pub delete : Array → ℕ → Array
unfolding delete_loop
delete self item = delete_loop self.cursor self item 0

unfoldable pub clear : Array → Array
unfolding is_empty
clear self = if is_empty self then self else record self { cursor = 0 }
