-- ===== src/Nvme/Reads/Filled.antt =====
-- What the buffer of a read holds while the loops of Defs fill it.
use vllm_exl.Prelude.{
  ℕ, zero, suc, ◌+◌, ◌-◌, ◌≤◌, ◌<◌, ◌≢◌, ◌≡◌, refl, ap, ◌∙◌, sym, [], ◌++◌, length, take, drop,
  length-drop, arith,
}
use vllm_exl.Nvme.Reads.Defs.{Bytes, Pread, signal, failure, chunk, zeros, splice, extract}
use vllm_exl.Nvme.Reads.Slices.{
  take-take-drop, drop-drop, take-length, length-parts, take-parts, length-take,
}

-- the front of the buffer is the file's
pub record Filled (file : Bytes) (offset size got : ℕ) (buffer : Bytes) : Type 0 where
  pub room : length buffer ≡ size
  pub within : got ≤ size
  pub front : take got buffer ≡ extract file offset got

pub length-zeros : (n : ℕ) → length (zeros n) ≡ n
length-zeros zero = refl
length-zeros (suc n) = ap suc (length-zeros n)

pub zeros-Filled : (file : Bytes) (offset size : ℕ) → Filled file offset size 0 (zeros size)
zeros-Filled file offset size = record {
  room = length-zeros size;
  within = omega arith;
  front = refl;
}

pub splice-length :
    (buffer : Bytes) (got : ℕ) (part : Bytes)
    → length (take got buffer) ≡ got
    → got + length part ≤ length buffer
    → length (splice buffer got part) ≡ length buffer
splice-length buffer got part kept fits =
    length-parts (take got buffer) part (drop (got + length part) buffer)
    ∙ (let e = length-drop (got + length part) buffer in omega (arith, e, kept, fits))

-- the buffer after a chunk of the file at the next offset
pub splice-Filled :
    (file : Bytes) (offset size got : ℕ) (buffer part : Bytes)
    → Filled file offset size got buffer
    → got + length part ≤ size
    → part ≡ extract file (offset + got) (length part)
    → Filled file offset size (got + length part) (splice buffer got part)
splice-Filled file offset size got buffer part h fits same =
    let kept : length (take got buffer) ≡ got =
      length-take got buffer (omega (arith, h.room, h.within)) in
    let joined : extract file offset got ++ extract file (offset + got) (length part)
        ≡ extract file offset (got + length part) =
      rw (sym (drop-drop got offset file)) (take-take-drop got (length part) (drop offset file)) in
    let front : take (got + length part) (splice buffer got part) ≡ take got buffer ++ part =
      ap (λ n. take (n + length part) (splice buffer got part)) (sym kept)
      ∙ take-parts (take got buffer) part (drop (got + length part) buffer) in
    let pieces : take got buffer ++ part
        ≡ extract file offset got ++ extract file (offset + got) (length part) =
      ap (λ l. l ++ part) h.front ∙ ap (λ l. extract file offset got ++ l) same in
    record {
      room = splice-length buffer got part kept (omega (arith, h.room, fits)) ∙ h.room;
      within = fits;
      front = front ∙ pieces ∙ joined;
    }

pub Filled-extract :
    (file : Bytes) (offset size got : ℕ) (buffer : Bytes)
    → Filled file offset size got buffer
    → size ≤ got
    → buffer ≡ extract file offset size
Filled-extract file offset size got buffer h ended =
    let whole : got ≡ size = omega (arith, h.within) in
    let front : take size buffer ≡ extract file offset size = rw (sym whole) h.front in
    sym (take-length buffer) ∙ rw h.room front

-- what the calls rely on: a chunk is no longer than asked for, and holds the file's bytes, where
-- `Allowed` holds of the offset
abbrev pub Faithful : (ℕ → Type 0) → Bytes → Pread → Type 0
Faithful Allowed file pread =
    (offset size time : ℕ) (part : Bytes)
    → Allowed offset
    → pread offset size time ≡ chunk part
    → (length part ≤ size) × (part ≡ extract file offset (length part))

-- from a time on no signal interrupts a call
abbrev pub Settles : ℕ → Pread → Type 0
Settles limit pread = (offset size time : ℕ) → limit ≤ time → pread offset size time ≢ signal

-- the calls do not fail, and read something where the file has it
abbrev pub Serves : Bytes → Pread → Type 0
Serves file pread =
    ((offset size time : ℕ) → pread offset size time ≢ failure)
    × ((offset size time : ℕ) → 0 < size → offset < length file → pread offset size time ≢ chunk [])

-- one chunk of a request that fits
pub chunk-Filled :
    (Allowed : ℕ → Type 0) (file : Bytes) (pread : Pread)
    → Faithful Allowed file pread
    → (offset size got asked time : ℕ) (buffer part : Bytes) → Filled file offset size got buffer
    → Allowed (offset + got)
    → asked ≤ size - got
    → pread (offset + got) asked time ≡ chunk part
    → Filled file offset size (got + length part) (splice buffer got part)
chunk-Filled Allowed file pread faithful offset size got asked time buffer part h allowed fits
      answer =
    let (short, same) = faithful (offset + got) asked time part allowed answer in
    splice-Filled file offset size got buffer part h (omega (arith, h.within)) same
