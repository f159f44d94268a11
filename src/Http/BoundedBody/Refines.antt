-- ===== src/Http/BoundedBody/Refines.antt =====
-- The growing buffer holds the concatenation of the chunks, and never more than the maximum.
use teslatlas_sdk_typescript.Prelude.{
  ℕ, zero, suc, ◌+◌, ◌-◌, ◌*◌, ◌≤◌, ◌≡◌, refl, sym, ap, ◌∙◌, Bool, true, false, inl, inr, some,
  String, [], ◌∷◌, ◌++◌, min, max, ltb, ◌==◌, if◌then◌else◌, length, take, drop, replicate, arith,
  Bool-cases, not_ltb→le, length-append, length-take, length-drop, append_assoc, append-nil,
}
use teslatlas_sdk_typescript.Core.Errors.{
  Result, ok, err, throw_if, dotted, protocol_validation, aborted, AllOk, AllOk-if, AllOk-guard,
  AllOk-map, ◌>>◌,
}
use teslatlas_sdk_typescript.Http.BoundedBody.{
  Bytes, Stream, closed, broken, chunk, max_empty_chunks, write_at, grown, invalid, too_large,
  read_loop, read_bounded,
}

-- The specification: the bytes so far, with the budget and the run of empty chunks.
pub collect : String → ℕ → Stream → Bytes → ℕ → Result Bytes
collect name maximum (closed true) sofar empty_chunks = err aborted
collect name maximum (closed false) sofar empty_chunks = ok sofar
collect name maximum (broken true) sofar empty_chunks = err aborted
collect name maximum (broken false) sofar empty_chunks = err (protocol_validation name)
collect name maximum (chunk true bytes rest) sofar empty_chunks = err aborted
collect name maximum (chunk false bytes rest) sofar empty_chunks =
    let count = if length bytes == 0 then empty_chunks + 1 else 0 in
    let next = collect name maximum rest (sofar ++ bytes) count in
    if ltb (maximum - length sofar) (length bytes)
    then err (protocol_validation (dotted name ".size"))
    else if ltb max_empty_chunks count
    then err (protocol_validation (dotted name ".size"))
    else next

length-replicate : (n a : ℕ) → length (replicate n a) ≡ n
length-replicate zero a = refl
length-replicate (suc n) a = ap suc (length-replicate n a)

take-length-append : (s t : Bytes) → take (length s) (s ++ t) ≡ s
take-length-append [] t = refl
take-length-append (x ∷ s) t = ap (λ (l : Bytes). x ∷ l) (take-length-append s t)

-- A prefix that is put back at the front is still the prefix.
take_prefix : (n : ℕ) (s t : Bytes) → length s ≡ n → take n (s ++ t) ≡ s
take_prefix n s t e = ap (λ k. take k (s ++ t)) (sym e) ∙ take-length-append s t

module _ (maximum size needed : ℕ) (buffer : Bytes) (filled : size ≤ length buffer) where
  prefix-length : length (take size buffer) ≡ size
  prefix-length = omega (arith, length-take size buffer)

  length-grown :
      size ≤ needed
      → needed ≤ maximum
      → length buffer ≤ maximum
      → (needed ≤ length (grown maximum size needed buffer))
        × (length (grown maximum size needed buffer) ≤ maximum)
  unfolding grown
  length-grown h k b =
      let capacity = min maximum (max needed (length buffer * 2)) in
      elim (Bool-cases (ltb (length buffer) needed)) [
        | inl e ↦ rw e (
          omega (
            arith,
            length-append (take size buffer) (replicate (capacity - size) 0),
            length-replicate (capacity - size) 0,
            prefix-length,
          ),
          omega (
            arith,
            length-append (take size buffer) (replicate (capacity - size) 0),
            length-replicate (capacity - size) 0,
            prefix-length,
          ),
        )
        | inr e ↦ rw e (not_ltb→le (length buffer) needed e, b)
      ]

  take-grown : take size (grown maximum size needed buffer) ≡ take size buffer
  unfolding grown
  take-grown = elim (Bool-cases (ltb (length buffer) needed)) [
    | inl e ↦ rw e (take_prefix size (take size buffer) _ prefix-length)
    | inr e ↦ rw e refl
  ]

module _ (maximum size : ℕ) (buffer bytes : Bytes) where
  -- What the write leaves: a full write, which the prefix of the new size shows.
  write_grown :
      size ≤ length buffer
      → length buffer ≤ maximum
      → size + length bytes ≤ maximum
      → (written : Bytes) × (write_at (grown maximum size (size + length bytes) buffer) size bytes
          ≡ some written)
        × (size + length bytes ≤ length written)
        × (length written ≤ maximum)
        × (take (size + length bytes) written ≡ take size buffer ++ bytes)
  unfolding write_at
  write_grown h b k =
      let g = grown maximum size (size + length bytes) buffer in
      let fits = length-grown maximum size (size + length bytes) buffer h (omega arith) k b in
      let rest = drop (size + length bytes) g in
      let front = take-grown maximum size (size + length bytes) buffer h in
      let count : length (take size g) ≡ size = omega (arith, length-take size g, fits.0) in
      let whole : length (take size g ++ (bytes ++ rest)) ≡ length g = omega (
        arith,
        count,
        fits.0,
        length-append (take size g) (bytes ++ rest),
        length-append bytes rest,
        length-drop (size + length bytes) g,
      ) in
      (
        take size g ++ (bytes ++ rest),
        ground (arith, fits.0),
        omega (arith, whole, fits.0),
        omega (arith, whole, fits.1),
        rw (front, sym (append_assoc (take size buffer) bytes rest))
            (take_prefix (size + length bytes) (take size buffer ++ bytes) rest (
              omega (
                arith,
                length-append (take size buffer) bytes,
                prefix-length maximum size (size + length bytes) buffer h,
              ))),
      )

module _ (name : String) (maximum : ℕ) where
  pub read_loop-eq-collect :
      (stream : Stream) (buffer : Bytes) (size empty_chunks : ℕ)
      → size ≤ length buffer
      → length buffer ≤ maximum
      → read_loop name maximum stream buffer size empty_chunks
        ≡ collect name maximum stream (take size buffer) empty_chunks
  unfolding invalid too_large collect read_loop
  read_loop-eq-collect (closed true) buffer size n h b = refl
  read_loop-eq-collect (closed false) buffer size n h b = refl
  read_loop-eq-collect (broken true) buffer size n h b = refl
  read_loop-eq-collect (broken false) buffer size n h b = refl
  read_loop-eq-collect (chunk true bytes rest) buffer size n h b = refl
  read_loop-eq-collect (chunk false bytes rest) buffer size n h b =
      let count = if length bytes == 0 then n + 1 else 0 in
      rw (prefix-length maximum size size buffer h)
        (elim (Bool-cases (ltb (maximum - size) (length bytes))) [
          | inl e ↦ rw e refl
          | inr e ↦ rw e (elim (Bool-cases (ltb max_empty_chunks count)) [
            | inl d ↦ rw d refl
            | inr d ↦ rw d (
                let (written, w, fits, bounded, front) =
                  write_grown maximum size buffer bytes h b (ground (arith, e)) in
                rw w (
                  rw (sym front)
                    (read_loop-eq-collect rest written (size + length bytes) count fits bounded)))
          ])
        ])

-- What the chunks of a stream hold together.
unfoldable pub contents : Stream → Bytes
contents (closed a) = []
contents (broken a) = []
contents (chunk a bytes rest) = bytes ++ contents rest

-- Every read settles before an abort and gives some bytes, until the end of the stream.
unfoldable pub IsQuiet : Stream → Type 0
IsQuiet (closed a) = a ≡ false
IsQuiet (broken a) = ⊥
IsQuiet (chunk a bytes rest) = (a ≡ false) × (1 ≤ length bytes) × IsQuiet rest

abbrev HoldsAll : ℕ → Bytes → Stream → Bytes → Type 0
HoldsAll maximum sofar stream bytes = (bytes ≡ sofar ++ contents stream) × (length bytes ≤ maximum)

module _ (name : String) (maximum : ℕ) where
  collect-HoldsAll :
      (stream : Stream) (sofar : Bytes) (n : ℕ)
      → length sofar ≤ maximum
      → AllOk (HoldsAll maximum sofar stream) (collect name maximum stream sofar n)
  unfolding collect contents
  collect-HoldsAll (closed true) sofar n h = tt
  collect-HoldsAll (closed false) sofar n h = (sym (append-nil sofar), h)
  collect-HoldsAll (broken true) sofar n h = tt
  collect-HoldsAll (broken false) sofar n h = tt
  collect-HoldsAll (chunk true bytes rest) sofar n h = tt
  collect-HoldsAll (chunk false bytes rest) sofar n h =
      let count = if length bytes == 0 then n + 1 else 0 in
      let whole = HoldsAll maximum sofar (chunk false bytes rest) in
      AllOk-if whole (ltb (maximum - length sofar) (length bytes)) _ _ (λ _. tt)
        (λ e.
          AllOk-if whole (ltb max_empty_chunks count) _ _ (λ _. tt)
            (λ _.
              AllOk-map (HoldsAll maximum (sofar ++ bytes) rest) whole _
                (λ b k. (k.0 ∙ append_assoc sofar bytes (contents rest), k.1))
                (collect-HoldsAll rest (sofar ++ bytes) count
                  (ground (arith, e, length-append sofar bytes)))))

  collect-IsQuiet :
      (stream : Stream) (sofar : Bytes) (n : ℕ)
      → IsQuiet stream
      → length (sofar ++ contents stream) ≤ maximum
      → collect name maximum stream sofar n ≡ ok (sofar ++ contents stream)
  unfolding collect contents IsQuiet
  collect-IsQuiet (closed a) sofar n q h =
      rw (append-nil sofar) (ap (λ b. collect name maximum (closed b) sofar n) q)
  collect-IsQuiet (broken a) sofar n q h = elim q [ ]
  collect-IsQuiet (chunk a bytes rest) sofar n (q, some_bytes, more) h =
      let fits : ltb (maximum - length sofar) (length bytes) ≡ false = ground (
        arith,
        h,
        length-append sofar (bytes ++ contents rest),
        length-append bytes (contents rest),
      ) in
      let full : (length bytes == 0) ≡ false = ground (arith, some_bytes) in
      let shape = append_assoc sofar bytes (contents rest) in
      rw (q, fits, full, sym shape) (collect-IsQuiet rest (sofar ++ bytes) 0 more (rw shape h))

module _ (name : String) (maximum : ℕ) where
  -- Reading a body into the growing buffer is the guard on the signal and then the specification,
  -- which has no buffer: it appends each chunk while the total stays within the maximum and at most
  -- 1024 chunks in a row are empty, and fails with the same error as the code where it does not.
  pub read_bounded-eq-collect :
      (abort_first : Bool) (stream : Stream)
      → read_bounded name maximum abort_first (some stream)
        ≡ (throw_if abort_first aborted >> collect name maximum stream [] 0)
  unfolding read_bounded
  read_bounded-eq-collect true stream = refl
  read_bounded-eq-collect false stream =
      read_loop-eq-collect name maximum stream (replicate (min 4096 maximum) 0) 0 0 (omega arith)
        (omega (arith, length-replicate (min 4096 maximum) 0))

  -- A body that is read has at most the maximum of bytes, and they are all of the stream's, in order.
  pub read_bounded_sound :
      (abort_first : Bool) (stream : Stream)
      → AllOk
          (λ bytes. (bytes ≡ contents stream) × (length bytes ≤ maximum))
          (read_bounded name maximum abort_first (some stream))
  read_bounded_sound abort_first stream = rw (read_bounded-eq-collect abort_first stream) (
      AllOk-guard (HoldsAll maximum [] stream) abort_first aborted
        (collect name maximum stream [] 0)
        (λ _. collect-HoldsAll name maximum stream [] 0 (omega arith)))

  -- A stream that ends, whose reads settle before an abort and give at least one byte each, and whose
  -- contents are within the maximum, is read whole when the signal is not aborted at the call.
  pub read_bounded_complete :
      (stream : Stream)
      → IsQuiet stream
      → length (contents stream) ≤ maximum
      → read_bounded name maximum false (some stream) ≡ ok (contents stream)
  read_bounded_complete stream q h =
      read_bounded-eq-collect false stream ∙ collect-IsQuiet name maximum stream [] 0 q h
