-- ===== src/Hash.antt =====
-- include/hash.h and src/hash.c: the open addressing table of finalizers. The hash of a key,
-- `MurmurHash2` of its bytes, is the parameter `hash`. The entries are read by index below the
-- capacity, which is `mask + 1` and a power of two, so that `i & mask` is a remainder. A value of 0 is
-- NULL. `calloc` is taken to succeed: the code stops, or would fault, if it fails. A probe takes fuel.
pub mod Triangular
pub mod Probe
pub mod Insert
pub mod Delete
pub mod Count
pub mod Resize
pub mod Growth
pub mod Sweep
use gc.Base.{
  ℕ, zero, suc, ◌+◌, ◌-◌, ◌*◌, ◌/◌, ◌%◌, ◌^◌, Bool, true, false, not, ◌||◌, ltb, leb, ◌==◌,
  if◌then◌else◌, add64, sub64, word_mod, Run, ok, out_of_fuel, ◌>>=◌,
}

abbrev pub min_size : ℕ
min_size = 8

-- `(size_t)-1 / 2 + 1`.
abbrev pub max_size : ℕ
max_size = 2 ^ 63

pub data Status : Type 0 where
  free allocated deleted : Status

pub record Entry : Type 0 where
  pub status : Status
  pub key : ℕ
  pub value : ℕ

-- `is_null` says that there are no entries yet.
pub record Hash : Type 0 where
  pub is_null : Bool
  pub entries : ℕ → Entry
  pub mask : ℕ
  pub used : ℕ
  pub deleted : ℕ

abbrev pub null : ℕ
null = 0

abbrev pub is_allocated : Status → Bool
is_allocated s = elim s [ allocated ↦ true | _ ↦ false ]

abbrev pub is_free : Status → Bool
is_free s = elim s [ free ↦ true | _ ↦ false ]

abbrev pub zeroed : ℕ → Entry
zeroed i = record { status = free; key = null; value = null }

unfoldable pub write : (ℕ → Entry) → ℕ → Entry → (ℕ → Entry)
write entries at e i = if i == at then e else entries i

unfoldable pub allocate : (ℕ → Entry) → ℕ → ℕ → ℕ → (ℕ → Entry)
allocate entries at key value =
    write entries at (record { status = allocated; key = key; value = value })

-- The index of the first entry on the probe's path that the test accepts.
unfoldable pub probe : ℕ → (Entry → Bool) → (ℕ → Entry) → ℕ → ℕ → ℕ → Run ℕ
probe zero accept entries mask i j = out_of_fuel
probe (suc fuel) accept entries mask i j =
    let rest = probe fuel accept entries mask (add64 i j) (add64 j 1) in
    if accept (entries (i % (mask + 1))) then ok (i % (mask + 1)) else rest

abbrev pub vacant_or : ℕ → Entry → Bool
vacant_or key e = not (is_allocated e.status) || (e.key == key)

abbrev pub free_or : ℕ → Entry → Bool
free_or key e = is_free e.status || (e.key == key)

unfoldable pub lookup_for_insert : ℕ → (ℕ → Entry) → ℕ → ℕ → ℕ → Run ℕ
lookup_for_insert fuel entries mask key hash = probe fuel (vacant_or key) entries mask hash 1

-- The loop that doubles a capacity until it reaches the one asked for.
unfoldable pub grow_capacity : ℕ → ℕ → ℕ → Run ℕ
grow_capacity zero new_capacity capacity = out_of_fuel
grow_capacity (suc fuel) new_capacity capacity =
    let rest = grow_capacity fuel (new_capacity * 2) capacity in
    if ltb new_capacity capacity then rest else ok new_capacity

module _ (hash : ℕ → ℕ) (fuel : ℕ) where
  -- The loop that moves the allocated entries, from index `e` on with the rounds left; it counts them.
  rehash : ℕ → (ℕ → Entry) → ℕ → (ℕ → Entry) → ℕ → ℕ → Run ((ℕ → Entry) × ℕ)
  rehash zero old e entries mask used = ok (entries, used)
  rehash (suc n) old e entries mask used =
      let keep = rehash n old (e + 1) entries mask used in
      let move = lookup_for_insert fuel entries mask (old e).key (hash (old e).key) >>= λ at.
      rehash n old (e + 1) (allocate entries at (old e).key (old e).value) mask (used + 1) in
      if is_allocated (old e).status then move else keep

  unfoldable pub resize : Hash → ℕ → Run Hash
  unfolding rehash
  resize self capacity = do
    let wanted = if ltb max_size capacity then max_size else capacity
    new_capacity ← grow_capacity 64 min_size wanted
    let mask = sub64 new_capacity 1
    let moved = do
      r ← rehash (self.mask + 1) self.entries 0 zeroed mask 0
      ok (record { is_null = false; entries = r.0; mask = mask; used = r.1; deleted = 0 })
    if self.is_null
        then ok (record self { is_null = false; entries = zeroed; mask = mask })
        else moved

  -- The fresh table comes zeroed from `calloc`.
  unfoldable pub create : ℕ → Run Hash
  create capacity =
      resize (record { is_null = true; entries = zeroed; mask = 0; used = 0; deleted = 0 }) capacity

  unfoldable pub search : Hash → ℕ → Run ℕ
  search self key = do
    at ← probe fuel (free_or key) self.entries self.mask (hash key) 1
    ok (if is_allocated (self.entries at).status then (self.entries at).value else null)

  -- The entry is free: the table grows first if it is three quarters full.
  unfoldable pub insert_free : Hash → ℕ → ℕ → ℕ → Run Hash
  insert_free self key value at =
      let grown = resize self (self.used * 2 % word_mod) >>= λ t.
      lookup_for_insert fuel t.entries t.mask key (hash key) >>= λ at'.
      ok (record t { entries = allocate t.entries at' key value; used = add64 t.used 1 }) in
      if leb (self.mask - self.mask / 4) self.used
      then grown
      else ok
          (record self { entries = allocate self.entries at key value; used = add64 self.used 1 })

  unfoldable pub insert : Hash → ℕ → ℕ → Run Hash
  insert self key value = do
    at ← lookup_for_insert fuel self.entries self.mask key (hash key)
    let e = self.entries at
    elim (e.status) [
      | allocated ↦
          ok (record self { entries = write self.entries at (record e { value = value }) })
      | free ↦ insert_free self key value at
      | deleted ↦ ok (record self {
        entries = allocate self.entries at key value;
        deleted = sub64 self.deleted 1;
      })
    ]

  unfoldable pub clear_tombstones : Hash → Run Hash
  clear_tombstones self =
      let t = resize self self.used in if leb ((self.mask + 1) / 4) self.deleted then t else ok self

  -- The table left, and the value that the key had, or NULL.
  unfoldable pub delete : Hash → ℕ → Run (Hash × ℕ)
  delete self key = do
    at ← probe fuel (free_or key) self.entries self.mask (hash key) 1
    let e = self.entries at
    let removed = do
      t ← clear_tombstones (record self {
        entries = write self.entries at (record e { status = deleted });
        deleted = add64 self.deleted 1;
      })
      ok (t, e.value)
    if is_allocated e.status then removed else ok (self, null)

-- The loop of `GC_Hash_deleteIf` from index `i` on, with the rounds left. The callback answers whether
-- the entry goes, and may change the program's state.
delete_if_loop {ℓ} : {S : Type ℓ} → (ℕ → ℕ → S → S × Bool) → ℕ → ℕ → Hash → S → S × Hash
delete_if_loop callback zero i self s = (s, self)
delete_if_loop callback (suc n) i self s =
    let e = self.entries i in
    let r = callback e.key e.value s in
    let gone = record self {
      entries = write self.entries i (record e { status = deleted });
      deleted = add64 self.deleted 1;
    } in
    elim (is_allocated e.status) [
      | true ↦ delete_if_loop callback n (i + 1) (if r.1 then gone else self) r.0
      | false ↦ delete_if_loop callback n (i + 1) self s
    ]

unfoldable pub delete_if {ℓ} :
    {S : Type ℓ} → (ℕ → ℕ) → ℕ → (ℕ → ℕ → S → S × Bool) → Hash → S → Run (S × Hash)
unfolding delete_if_loop
delete_if hash fuel callback self s =
    let r = delete_if_loop callback (self.mask + 1) 0 self s in
    clear_tombstones hash fuel r.1 >>= λ t. ok (r.0, t)
