-- ===== src/Rio/Registration.antt =====
-- KanchoNet/Network/RIOModel.cpp: RegisterBuffer and DeregisterBuffer together.
use kancho_net.Common.{
  ℕ, ◌%◌, ◌^◌, ◌≡◌, ◌≢◌, refl, ap, Bool, true, false, not, inl, inr, ◌∷◌, arith, ◌==◌,
  if◌then◌else◌, Bool-cases, ==_refl, mul_size,
}
use kancho_net.Manager.{Address}
use kancho_net.Net.{Outcome, ok, fault, Kernel}
use kancho_net.Host.{call}
use kancho_net.Rio.State.{
  Rio, Registered, BufferInfo, Library, invalid_buffer_id, rio, delete_array, is_allocated, without,
}
use kancho_net.Rio.Buffers.{
  Side, receiving, sending, info_of, with_info, register_buffer, deregister_buffer,
}

module _ {K : Type 0} where
  pub rio_lem :
      {A : Type 0} (f : K → A × K) (s : Rio K) → s.handle.loaded ≡ true → rio f s ≡ call f s
  unfolding rio
  rio_lem f s loaded = ap (λ (b : Bool). if b then call f s else fault) loaded

  delete_top :
      (a : Address) (n : ℕ) (s : Rio K)
      → a ≢ 0
      → delete_array a (record s { handle = record s.handle { arrays = (a, n) ∷ s.handle.arrays } })
        ≡ ok (tt, s)
  unfolding delete_array is_allocated without
  delete_top a n s ne = let real : (a == 0) ≡ false = ground arith in rw (real, ==_refl a) refl

-- A buffer that is not registered.
abbrev pub vacant : ℕ → ℕ → BufferInfo
vacant size count = record {
  id = invalid_buffer_id;
  buffer = 0;
  buffer_size = size;
  buffer_count = count;
}

-- What `RegisterBuffer` on one side has come to, and `DeregisterBuffer` after it.
pub record Restored {K : Type 0} (library : Library K) (side : Side) (a total : ℕ) (id : ℕ) (k : K)
    (s : Rio K) (r : Outcome (Bool × Rio K)) : Type 0 where
  pub answer : Bool
  pub t : Rio K
  pub u : Rio K
  pub registers : r ≡ ok (answer, t)
  pub deregisters : deregister_buffer library side t ≡ ok (tt, u)
  pub answers : answer ≡ not (id == invalid_buffer_id)
  pub arrays_between :
      t.handle.arrays ≡ (if answer then (a, total) ∷ s.handle.arrays else s.handle.arrays)
  pub arrays_after : u.handle.arrays ≡ s.handle.arrays
  pub system_between : t.kernel_state ≡ k
  pub system_after : u.kernel_state ≡ (if answer then library.deregister_buffer id k else k)
  pub nothing_left : (info_of side u.handle).id ≡ invalid_buffer_id
  pub no_array : (info_of side u.handle).buffer ≡ 0

module _ {K : Type 0} (kernel : Kernel K) (library : Library K) where
  register_lem :
      (side : Side) (size count : ℕ) (s : Rio K)
      → s.handle.loaded ≡ true
      → let (a, k1) = kernel.new_address s.kernel_state in
        let total = mul_size size count in
        let (id, k2) = library.register_buffer a (total % 2 ^ 32) k1 in
        a ≢ 0
        → id ≢ invalid_buffer_id
        → register_buffer kernel library side size count s
          ≡ ok (
            true,
            record s {
              kernel_state = k2;
              handle =
                  with_info side
                    (record { id = id; buffer = a; buffer_size = size; buffer_count = count })
                    (record s.handle { arrays = (a, total) ∷ s.handle.arrays });
            },
          )
  unfolding register_buffer call
  register_lem side size count s loaded ne good =
      let (a, k1) = kernel.new_address s.kernel_state in
      let total = mul_size size count in
      let (id, k2) = library.register_buffer a (total % 2 ^ 32) k1 in
      let s1 : Rio K = record s {
        kernel_state = k1;
        handle = record s.handle { arrays = (a, total) ∷ s.handle.arrays };
      } in
      let valid : (id == invalid_buffer_id) ≡ false = ground arith in
      rw (rio_lem (library.register_buffer a (total % 2 ^ 32)) s1 loaded, valid) refl

  refused_lem :
      (side : Side) (size count : ℕ) (s : Rio K)
      → s.handle.loaded ≡ true
      → let (a, k1) = kernel.new_address s.kernel_state in
        let (id, k2) = library.register_buffer a (mul_size size count % 2 ^ 32) k1 in
        a ≢ 0
        → id ≡ invalid_buffer_id
        → register_buffer kernel library side size count s
          ≡ ok (
            false,
            record s { kernel_state = k2; handle = with_info side (vacant size count) s.handle },
          )
  unfolding register_buffer call with_info
  refused_lem receiving size count s loaded ne bad =
      let (a, k1) = kernel.new_address s.kernel_state in
      let total = mul_size size count in
      let (id, k2) = library.register_buffer a (total % 2 ^ 32) k1 in
      let s1 : Rio K = record s {
        kernel_state = k1;
        handle = record s.handle { arrays = (a, total) ∷ s.handle.arrays };
      } in
      let s2 : Rio K = record s {
        kernel_state = k2;
        handle = record s.handle {
          receive_info = record {
            id = invalid_buffer_id;
            buffer = a;
            buffer_size = size;
            buffer_count = count;
          };
        };
      } in
      rw
        (
          rio_lem (library.register_buffer a (total % 2 ^ 32)) s1 loaded,
          bad,
          delete_top a total s2 ne,
        )
        refl
  refused_lem sending size count s loaded ne bad =
      let (a, k1) = kernel.new_address s.kernel_state in
      let total = mul_size size count in
      let (id, k2) = library.register_buffer a (total % 2 ^ 32) k1 in
      let s1 : Rio K = record s {
        kernel_state = k1;
        handle = record s.handle { arrays = (a, total) ∷ s.handle.arrays };
      } in
      let s2 : Rio K = record s {
        kernel_state = k2;
        handle = record s.handle {
          send_info = record {
            id = invalid_buffer_id;
            buffer = a;
            buffer_size = size;
            buffer_count = count;
          };
        };
      } in
      rw
        (
          rio_lem (library.register_buffer a (total % 2 ^ 32)) s1 loaded,
          bad,
          delete_top a total s2 ne,
        )
        refl

  -- A buffer that is not registered, and one whose array is the newest.
  vacant_lem :
      (side : Side) (size count : ℕ) (s : Rio K)
      → deregister_buffer library side
          (record s { handle = with_info side (vacant size count) s.handle })
        ≡ ok (tt, record s { handle = with_info side (vacant size count) s.handle })
  unfolding deregister_buffer with_info info_of
  vacant_lem receiving size count s = refl
  vacant_lem sending size count s = refl

  deregister_lem :
      (side : Side) (i : BufferInfo) (total : ℕ) (s : Rio K)
      → s.handle.loaded ≡ true
      → i.buffer ≢ 0
      → i.id ≢ invalid_buffer_id
      → deregister_buffer library side (record s {
        handle =
            with_info side i (record s.handle { arrays = (i.buffer, total) ∷ s.handle.arrays });
      })
        ≡ ok (
          tt,
          record s {
            kernel_state = library.deregister_buffer i.id s.kernel_state;
            handle = with_info side (record i { id = invalid_buffer_id; buffer = 0 }) s.handle;
          },
        )
  unfolding deregister_buffer call with_info info_of
  deregister_lem receiving i total s loaded ne valid =
      let real : (i.buffer == 0) ≡ false = ground arith in
      let used : (i.id == invalid_buffer_id) ≡ false = ground arith in
      let h : Registered = record s.handle { arrays = (i.buffer, total) ∷ s.handle.arrays } in
      let s1 : Rio K = record s { handle = record h { receive_info = i } } in
      let s2 : Rio K = record s {
        kernel_state = library.deregister_buffer i.id s.kernel_state;
        handle = record s.handle { receive_info = record i { id = invalid_buffer_id } };
      } in
      rw
        (
          used,
          rio_lem (λ k. (tt, library.deregister_buffer i.id k)) s1 loaded,
          real,
          delete_top i.buffer total s2 ne,
        )
        refl
  deregister_lem sending i total s loaded ne valid =
      let real : (i.buffer == 0) ≡ false = ground arith in
      let used : (i.id == invalid_buffer_id) ≡ false = ground arith in
      let h : Registered = record s.handle { arrays = (i.buffer, total) ∷ s.handle.arrays } in
      let s1 : Rio K = record s { handle = record h { send_info = i } } in
      let s2 : Rio K = record s {
        kernel_state = library.deregister_buffer i.id s.kernel_state;
        handle = record s.handle { send_info = record i { id = invalid_buffer_id } };
      } in
      rw
        (
          used,
          rio_lem (λ k. (tt, library.deregister_buffer i.id k)) s1 loaded,
          real,
          delete_top i.buffer total s2 ne,
        )
        refl

  of_vacant :
      (side : Side) (size count : ℕ) (h : Registered)
      → ((info_of side (with_info side (vacant size count) h)).id ≡ invalid_buffer_id)
        × ((info_of side (with_info side (vacant size count) h)).buffer ≡ 0)
        × ((with_info side (vacant size count) h).arrays ≡ h.arrays)
  unfolding info_of with_info
  of_vacant receiving size count h = (refl, refl, refl)
  of_vacant sending size count h = (refl, refl, refl)

  same_arrays :
      (side : Side) (i : BufferInfo) (h : Registered) → (with_info side i h).arrays ≡ h.arrays
  unfolding with_info
  same_arrays receiving i h = refl
  same_arrays sending i h = refl

  -- `RegisterBuffer` and then `DeregisterBuffer` return. In between, a registered buffer has an array of its
  -- whole size and a registration of that size's low 32 bits, and one that is refused has neither; afterwards
  -- the arrays are those of before, the registration is given back, and the record is empty. The function
  -- table is taken to be loaded, and `new` not to give the null pointer.
  pub register-deregister :
      (side : Side) (size count : ℕ) (s : Rio K)
      → s.handle.loaded ≡ true
      → let (a, k1) = kernel.new_address s.kernel_state in
        let total = mul_size size count in
        let (id, k2) = library.register_buffer a (total % 2 ^ 32) k1 in
        a ≢ 0
        → Restored library side a total id k2 s (register_buffer kernel library side size count s)
  register-deregister side size count s loaded ne =
      let (a, k1) = kernel.new_address s.kernel_state in
      let total = mul_size size count in
      let (id, k2) = library.register_buffer a (total % 2 ^ 32) k1 in
      elim (Bool-cases (id == invalid_buffer_id)) [
        | inl bad ↦
            let (no_id, no_array, same) = of_vacant side size count s.handle in
            record {
              answer = false;
              t = record s {
                kernel_state = k2;
                handle = with_info side (vacant size count) s.handle;
              };
              u = record s {
                kernel_state = k2;
                handle = with_info side (vacant size count) s.handle;
              };
              registers = refused_lem side size count s loaded ne (ground arith);
              deregisters = vacant_lem side size count (record s { kernel_state = k2 });
              answers = rw bad refl;
              arrays_between = same;
              arrays_after = same;
              system_between = refl;
              system_after = refl;
              nothing_left = no_id;
              no_array = no_array;
            }
        | inr good ↦
            let (no_id, no_array, same) = of_vacant side size count s.handle in
            let i : BufferInfo = record {
              id = id;
              buffer = a;
              buffer_size = size;
              buffer_count = count;
            } in
            record {
              answer = true;
              t = record s {
                kernel_state = k2;
                handle =
                    with_info side i (record s.handle { arrays = (a, total) ∷ s.handle.arrays });
              };
              u = record s {
                kernel_state = library.deregister_buffer id k2;
                handle = with_info side (vacant size count) s.handle;
              };
              registers = register_lem side size count s loaded ne (ground arith);
              deregisters =
                  deregister_lem side i total (record s { kernel_state = k2 }) loaded ne
                    (ground arith);
              answers = rw good refl;
              arrays_between =
                  same_arrays side i (record s.handle { arrays = (a, total) ∷ s.handle.arrays });
              arrays_after = same;
              system_between = refl;
              system_after = refl;
              nothing_left = no_id;
              no_array = no_array;
            }
      ]
