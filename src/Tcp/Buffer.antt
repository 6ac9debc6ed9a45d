-- ===== src/Tcp/Buffer.antt =====
-- `TcpClientBuffer` of src/tcp_client.cpp. `read` and `to_read` are the offsets of the pointers
-- `read_` and `to_read_` from the buffer's beginning.
pub mod Laws
use librediscxx.Base.{
  ℕ, zero, suc, ◌+◌, ◌-◌, ◌*◌, ◌%◌, ◌^◌, Bool, true, false, ◌&&◌, not, List, [], ◌∷◌, ◌++◌, Option,
  none, some, Bytes, ltb, leb, ◌==◌, if◌then◌else◌, length, take, drop, replicate,
}

abbrev pub default_buffer_size : ℕ
default_buffer_size = 512

abbrev pub max_buffer_size : ℕ
max_buffer_size = 65536

pub record Buffer : Type 0 where
  pub bytes : Bytes
  pub read : ℕ
  pub to_read : ℕ

abbrev pub total_size : Buffer → ℕ
total_size b = length b.bytes

abbrev pub consumed_size : Buffer → ℕ
consumed_size b = b.read

abbrev pub read_size : Buffer → ℕ
read_size b = b.to_read - b.read

abbrev pub free_size : Buffer → ℕ
free_size b = length b.bytes - b.to_read

-- `get_read_buffer`: the bytes that have come and are not consumed.
abbrev pub view : Buffer → Bytes
view b = take (read_size b) (drop b.read b.bytes)

-- `TcpClientBuffer(buf_size)`; what a new vector holds is 0.
unfoldable pub init : ℕ → Buffer
init n = record { bytes = replicate n 0; read = 0; to_read = 0 }

-- `std::vector::resize`.
resize : ℕ → Bytes → Bytes
resize n bs = take n bs ++ replicate (n - length bs) 0

unfoldable pub clear : Buffer → Buffer
unfolding resize
clear b = record { bytes = resize default_buffer_size b.bytes; read = 0; to_read = 0 }

-- `for (; new_size<=min_new_size; new_size = new_size << 1)`, in size_t. The fuel is 64.
grow : ℕ → ℕ → ℕ → Option ℕ
grow zero new_size min_new_size = if leb new_size min_new_size then none else some new_size
grow (suc f) new_size min_new_size =
    let more = grow f (new_size * 2 % 2 ^ 64) min_new_size in
    if leb new_size min_new_size then more else some new_size

-- The unread bytes move to the front of a new vector. Where the loop above never ends the program
-- does not return; the model leaves the buffer as it is.
move_to : Option ℕ → Buffer → Buffer
move_to none b = b
move_to (some new_size) b = record {
  bytes = view b ++ replicate (new_size - read_size b) 0;
  read = 0;
  to_read = read_size b;
}

unfoldable pub prepare : ℕ → Bool → Buffer → Buffer
unfolding grow move_to
prepare size drain b =
    if size == 0
    then b
    else if not drain && leb size (free_size b)
    then b
    else move_to (grow 64 (total_size b) (read_size b + size)) b

-- A `recv` into `get_to_read_buffer`, which writes at `to_read`, and then `produce`.
unfoldable pub produce : Bytes → Buffer → Buffer
produce got b = record {
  bytes = take b.to_read b.bytes ++ (got ++ drop (b.to_read + length got) b.bytes);
  read = b.read;
  to_read = b.to_read + length got;
}

unfoldable pub drain : Buffer → Buffer
unfolding prepare
drain b = prepare default_buffer_size true b

-- What `consume` does to an emptied buffer.
settle : Buffer → Buffer
unfolding drain
settle b =
    if read_size b == 0 && leb max_buffer_size (total_size b)
    then drain b
    else if read_size b == 0
    then record b { read = 0; to_read = 0 }
    else b

unfoldable pub consume : ℕ → Buffer → Bytes × Buffer
unfolding settle
consume size b = (take size (drop b.read b.bytes), settle (record b { read = b.read + size }))
