-- ===== src/Client/Read.antt =====
-- The method `Status` of the three clients: open the status file, read it, decode it. What the file
-- holds is an argument.
pub mod Whole
use go_runit.Defaults.{supervise_name, status_name}
use go_runit.Common.{
  ℕ, ◌+◌, ◌-◌, ◌≤◌, ◌<◌, ◌≡◌, ◌⊎◌, inl, inr, min, Bool, true, false, not, ◌&&◌, ◌||◌, Option, none,
  some, List, [], ◌++◌, length, take, replicate, ◌==◌, leb, if◌then◌else◌,
}
use go_runit.Operation.{op_status}
use go_runit.Service.{ServiceType}
use go_runit.Errors.{
  FilePath, join, Error, op_error, invalid_size, eof, unexpected_eof, Result, ok, err, panic, ◌>>=◌,
}
use go_runit.Wire.{Bytes, slice}
use go_runit.Status.{Status, status_file_size}
use go_runit.Status.Format.{
  daemontools_status_size, s6_max_status_size, s6_status_size_pre220, s6_status_size_current,
}
use go_runit.Status.Decode.{decode_status_runit, decode_status_daemontools, decode_status_s6}
use go_runit.Client.{Client}

-- The status file as the system shows it: the error of opening it, its bytes, and the error that a
-- read meets behind them (`none` at its end).
pub record StatusFile : Type 0 where
  pub open_error : Option Error
  pub bytes : Bytes
  pub read_error : Option Error

abbrev pub status_path : Client → FilePath
status_path c = join (join c.service_dir supervise_name) status_name

-- `io.ReadFull(file, buf)` for a buffer of `size` bytes: the count, the error, and the buffer.
pub record ReadFull : Type 0 where
  pub n : ℕ
  pub error : Option Error
  pub buf : Bytes

read_end : ℕ → Option Error → Error
read_end n (some e) = e
read_end n none = if n == 0 then eof else unexpected_eof

unfoldable pub read_full : ℕ → StatusFile → ReadFull
unfolding read_end
read_full size f =
    let n = min size (length f.bytes) in
    record {
      n = n;
      error = if leb size n then none else some (read_end n f.read_error);
      buf = take n f.bytes ++ replicate (size - n) 0;
    }

-- The errors of `Status` are `OpError`s with the operation and the path.
abbrev pub wrap_status : Client → Result Status → Result Status
wrap_status c (ok s) = ok s
wrap_status c (err e) = err (op_error op_status (status_path c) e)
wrap_status c panic = panic

-- Behind a read with no error: the check of the count, and the decoder.
unfoldable pub exact_read : ServiceType → ℕ → (Bytes → Result Status) → ReadFull → Result Status
exact_read t size decode r = elim r.error [
  | some e ↦ err e
  | none ↦ if not (r.n == size) then err (invalid_size t r.n) else decode r.buf
]

unfoldable pub status_runit : Client → ℕ → StatusFile → Result Status
unfolding exact_read
status_runit c now f = elim f.open_error [
  | some e ↦ wrap_status c (err e)
  | none ↦ wrap_status c (
      exact_read ServiceType.runit status_file_size (decode_status_runit now)
        (read_full status_file_size f))
]

unfoldable pub status_daemontools : Client → ℕ → StatusFile → Result Status
unfolding exact_read
status_daemontools c now f = elim f.open_error [
  | some e ↦ wrap_status c (err e)
  | none ↦ wrap_status c (
      exact_read ServiceType.daemontools daemontools_status_size (decode_status_daemontools now)
        (read_full daemontools_status_size f))
]

-- `err != io.ErrUnexpectedEOF && err != io.EOF`, for an error that is not nil.
abbrev pub is_read_fault : Error → Bool
is_read_fault eof = false
is_read_fault unexpected_eof = false
is_read_fault _ = true

-- s6 accepts a short read, and then checks the count.
unfoldable pub s6_sized : ℕ → ReadFull → Result Status
s6_sized now r =
    if not (r.n == s6_status_size_pre220) && not (r.n == s6_status_size_current)
    then err (invalid_size ServiceType.s6 r.n)
    else slice r.buf 0 r.n >>= decode_status_s6 now

unfoldable pub s6_read : ℕ → ReadFull → Result Status
unfolding s6_sized
s6_read now r = elim r.error [
  | none ↦ s6_sized now r
  | some e ↦ if is_read_fault e then err e else s6_sized now r
]

unfoldable pub status_s6 : Client → ℕ → StatusFile → Result Status
unfolding s6_read
status_s6 c now f = elim f.open_error [
  | some e ↦ wrap_status c (err e)
  | none ↦ wrap_status c (s6_read now (read_full s6_max_status_size f))
]
