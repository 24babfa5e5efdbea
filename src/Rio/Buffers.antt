-- ===== src/Rio/Buffers.antt =====
-- KanchoNet/Network/RIOModel.cpp: the registration of buffers.
use kancho_net.Common.{ℕ, Bool, true, false, ◌%◌, ◌^◌, ◌∷◌, ◌==◌, if◌then◌else◌, mul_size}
use kancho_net.Net.{ok, Kernel}
use kancho_net.Host.{◌>>=◌, ◌>>◌, pure, update, call}
use kancho_net.Rio.State.{
  BufferInfo, Registered, Run, Library, invalid_buffer_id, with_handle, rio, delete_array,
}

-- Which of the two buffers.
pub data Side : Type 0 where
  receiving sending : Side

unfoldable pub info_of : Side → Registered → BufferInfo
info_of receiving h = h.receive_info
info_of sending h = h.send_info

unfoldable pub with_info : Side → BufferInfo → Registered → Registered
with_info receiving i h = record h { receive_info = i }
with_info sending i h = record h { send_info = i }

module _ {K : Type 0} where
  abbrev pub set_info : Side → BufferInfo → Run K (Unit {0})
  set_info side i = update (with_handle (with_info side i))

  -- `RegisterBuffer`: the array has `size_t` bytes, and a `DWORD` of them is registered.
  unfoldable pub register_buffer : Kernel K → Library K → Side → ℕ → ℕ → Run K Bool
  register_buffer kernel library side size count = do
    let total = mul_size size count
    a ← call kernel.new_address
    update (with_handle (λ h. record h { arrays = (a, total) ∷ h.arrays }))
    id ← rio (library.register_buffer a (total % 2 ^ 32))
    set_info side (record { id = id; buffer = a; buffer_size = size; buffer_count = count })
    if id == invalid_buffer_id
        then (do
          delete_array a
          set_info side (record { id = id; buffer = 0; buffer_size = size; buffer_count = count })
          pure false)
        else pure true

  unfoldable pub deregister_buffer : Library K → Side → Run K (Unit {0})
  deregister_buffer library side = do
    i ← (λ s. ok (info_of side s.handle, s))
    if i.id == invalid_buffer_id then pure tt else (do
      rio (λ k. (tt, library.deregister_buffer i.id k))
      set_info side (record i { id = invalid_buffer_id }))
    if i.buffer == 0 then pure tt else (do
      delete_array i.buffer
      set_info side (record i { id = invalid_buffer_id; buffer = 0 }))
