-- ===== src/Http/CachedFile.antt =====
-- CachedFile and CachedFileHandle (include/http_state.hpp, http_state.cpp): a file that is downloaded
-- once and then read by many threads.
mod Assembly
mod Sharing
mod Tests
use haybarn_httpfs.Base.{
  ℕ, zero, suc, ◌+◌, ◌*◌, ◌%◌, Bool, true, false, not, List, [], ◌∷◌, ltb, ◌==◌, if◌then◌else◌,
  length, take, replicate, splice,
}
use haybarn_httpfs.Http.Types.{
  internal, already_initialized, no_lock, buffer_of_initialized, Result, ok, throw, ◌>>=◌, plain,
  word,
}

-- `content` is the buffer, `capacity` bytes long. `locked` says that a handle holds the lock.
pub record CachedFile : Type 0 where
  pub content : List ℕ
  pub capacity : ℕ
  pub size : ℕ
  pub initialized : Bool
  pub locked : Bool

unfoldable pub empty_file : CachedFile
empty_file = record { content = []; capacity = 0; size = 0; initialized = false; locked = false }

unfoldable pub allocate_buffer : ℕ → CachedFile → Result CachedFile
allocate_buffer n f =
    if f.initialized
    then throw (plain internal buffer_of_initialized)
    else ok (record f { content = replicate n 0; capacity = n })

unfoldable pub write : List ℕ → ℕ → CachedFile → CachedFile
write buffer offset f = record f { content = splice offset buffer f.content }

unfoldable pub grow_buffer : ℕ → ℕ → CachedFile → Result CachedFile
unfolding allocate_buffer write
grow_buffer new_capacity bytes_to_copy f = do
  let old_content = f.content
  g ← allocate_buffer new_capacity f
  ok (write (take bytes_to_copy old_content) 0 g)

-- `lock` is whether the handle that calls holds the lock, which it gives up.
unfoldable pub set_initialized : ℕ → Bool → CachedFile → Result CachedFile
set_initialized total_size lock f =
    if f.initialized
    then throw (plain internal already_initialized)
    else if not lock
    then throw (plain internal no_lock)
    else ok (record f { size = total_size; initialized = true; locked = false })

-- The data callback of RunGetRequest: the handle's `length` grows with the bytes received.
pub record Download : Type 0 where
  pub file : CachedFile
  pub length : ℕ

-- while (new_capacity < needed) new_capacity *= 2, on fuel.
unfoldable pub double_until : ℕ → ℕ → ℕ → ℕ
double_until zero new_capacity needed = new_capacity
double_until (suc fuel) new_capacity needed =
    let rest = double_until fuel (new_capacity * 2 % word) needed in
    if ltb new_capacity needed then rest else new_capacity

unfoldable pub first_chunk : List ℕ → Download → Result Download
unfolding allocate_buffer write
first_chunk chunk d = do
  f ← allocate_buffer (length chunk) d.file
  ok (record { file = write chunk 0 f; length = length chunk })

unfoldable pub next_chunk : List ℕ → Download → Result Download
unfolding grow_buffer write double_until
next_chunk chunk d = do
  let needed = (d.length + length chunk) % word
  let new_capacity = double_until needed d.file.capacity needed
  f ←
      if new_capacity == d.file.capacity
      then ok d.file
      else grow_buffer new_capacity d.length d.file
  ok (record { file = write chunk d.length f; length = needed })

unfoldable pub receive : List ℕ → Download → Result Download
unfolding first_chunk next_chunk
receive chunk d = if d.file.capacity == 0 then first_chunk chunk d else next_chunk chunk d

unfoldable pub receive_all : List (List ℕ) → Download → Result Download
receive_all [] d = ok d
receive_all (chunk ∷ chunks) d = receive chunk d >>= receive_all chunks
