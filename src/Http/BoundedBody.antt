-- ===== src/Http/BoundedBody.antt =====
-- `readBoundedText` of src/http/bounded-json.ts, up to the decoding of its bytes, and
-- `requireEmptyResponseBody` of src/http/empty-body.ts. What a stream's reader gives is a value that
-- ends with the end of the stream or a failed read; each read notes whether the signal is aborted
-- when it settles.
pub mod Refines
use teslatlas_sdk_typescript.Prelude.{
  ℕ, zero, suc, ◌+◌, ◌-◌, ◌*◌, Bool, true, false, Option, none, some, String, List, [], ◌∷◌, ◌++◌,
  min, max, ltb, ◌==◌, if◌then◌else◌, length, take, drop, replicate,
}
use teslatlas_sdk_typescript.Core.Errors.{
  Result, ok, err, ◌>>=◌, ◌>>◌, throw_if, dotted, protocol_validation, aborted, foreign, is_empty,
}

abbrev pub Bytes : Type 0
Bytes = List ℕ

pub data Stream : Type 0 where
  closed broken : Bool → Stream
  chunk : Bool → Bytes → Stream → Stream

abbrev pub max_empty_chunks : ℕ
max_empty_chunks = 1024

-- `buffer.set(bytes, offset)`; a write past the end is a `RangeError`, which the caller's handler
-- turns into its own error.
unfoldable pub write_at : Bytes → ℕ → Bytes → Option Bytes
write_at buffer offset bytes =
    if ltb (length buffer) (offset + length bytes)
    then none
    else some (take offset buffer ++ (bytes ++ drop (offset + length bytes) buffer))

-- The buffer of at least `needed` bytes that the loop goes on with.
unfoldable pub grown : ℕ → ℕ → ℕ → Bytes → Bytes
grown maximum size needed buffer =
    if ltb (length buffer) needed
    then (let capacity = min maximum (max needed (length buffer * 2)) in
        take size buffer ++ replicate (capacity - size) 0)
    else buffer

module _ (name : String) (maximum : ℕ) where
  pub invalid : Result Bytes
  invalid = err (protocol_validation name)

  pub too_large : Result Bytes
  too_large = err (protocol_validation (dotted name ".size"))

  -- The loop: the buffer, how much of it is filled, and the empty chunks in a row.
  pub read_loop : Stream → Bytes → ℕ → ℕ → Result Bytes
  read_loop (closed true) buffer size empty_chunks = err aborted
  read_loop (closed false) buffer size empty_chunks = ok (take size buffer)
  read_loop (broken true) buffer size empty_chunks = err aborted
  read_loop (broken false) buffer size empty_chunks = invalid
  read_loop (chunk true bytes rest) buffer size empty_chunks = err aborted
  read_loop (chunk false bytes rest) buffer size empty_chunks =
      let count = if length bytes == 0 then empty_chunks + 1 else 0 in
      let needed = size + length bytes in
      if ltb (maximum - size) (length bytes)
      then too_large
      else if ltb max_empty_chunks count
      then too_large
      else elim (write_at (grown maximum size needed buffer) size bytes) [
        | none ↦ invalid
        | some written ↦ read_loop rest written needed count
      ]

  -- The bytes of a body, or of none, with the signal's state at the call.
  unfoldable pub read_bounded : Bool → Option Stream → Result Bytes
  unfolding read_loop invalid too_large write_at grown
  read_bounded abort_first none = do throw_if abort_first aborted; ok []
  read_bounded abort_first (some stream) = do
    throw_if abort_first aborted
    read_loop stream (replicate (min 4096 maximum) 0) 0 0

-- The rounds left, at most 1024 in all.
pub empty_loop : String → ℕ → Stream → Result (Unit {0})
empty_loop name zero stream = err (protocol_validation name)
empty_loop name (suc rounds) (closed true) = err aborted
empty_loop name (suc rounds) (closed false) = ok tt
empty_loop name (suc rounds) (broken true) = err aborted
empty_loop name (suc rounds) (broken false) = err (protocol_validation name)
empty_loop name (suc rounds) (chunk true bytes rest) = err aborted
empty_loop name (suc rounds) (chunk false [] rest) = empty_loop name rounds rest
empty_loop name (suc rounds) (chunk false (b ∷ bytes) rest) = err (protocol_validation name)

unfoldable pub require_empty_response_body : String → Bool → Option Stream → Result (Unit {0})
unfolding empty_loop
require_empty_response_body name abort_first none = throw_if abort_first aborted
require_empty_response_body name abort_first (some stream) = do
  throw_if abort_first aborted
  empty_loop name max_empty_chunks stream
