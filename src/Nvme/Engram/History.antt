-- ===== src/Nvme/Engram/History.antt =====
-- The histories of an `EngramRows`, experiments/dsv41_nvme/engram_rows.py: its constructor and any
-- sequence of its calls.
use vllm_exl.Prelude.{
  ℕ, zero, suc, ◌+◌, ◌*◌, ◌≤◌, ◌<◌, ◌≡◌, refl, ap, ◌∙◌, sym, ◌==◌, false, ◌&&◌, Option, none, some,
  List, [], ltb, leb, length, arith, Bool-cases, Option-cases, inl, inr, if-both, Result, ok, raise,
  ℤ, pos, negsuc,
}
use mathlib.Core.Path.{subst}
use vllm_exl.Prelude.Values.{Value, none_value, other_value, bool_value, int_value, str_value}
use vllm_exl.Nvme.Reads.Defs.{Bytes}
use vllm_exl.Nvme.Engram.Defs.{Disk, Layout, Engram, Outcome, dim, scale_bytes}
use vllm_exl.Nvme.Engram.Calls.{
  Output, max_rows, no_stats, bounded, sized, laid_out, init, prefetch, gather_into, close,
}
use vllm_exl.Nvme.Engram.Fetch.{Honest}
use vllm_exl.Nvme.Engram.Payloads.{Valid}
use vllm_exl.Nvme.Engram.Gather.{gather_into-Gathered}
use vllm_exl.Nvme.Engram.Pending.{prefetch-Valid}

-- the objects that a history of calls leads to; the disk of a call reads what the files hold, and
-- from some time on no signal interrupts it
pub data Reaches (w_file s_file : Bytes) : Engram → Type 0 where
  started :
      {e : Engram} (w s rows : ℤ) (width scales : ℕ) (capacity_rows workers : Value)
      → init w s rows width scales capacity_rows workers (length w_file) (length s_file) ≡ ok e
      → Reaches w_file s_file e
  prefetched :
      {e' : Engram} (e : Engram) (disk : Disk) (limit fuel : ℕ) (rows owned : List Value)
      (r : Result (Unit {0}))
      → Reaches w_file s_file e
      → Honest w_file s_file limit disk
      → limit + dim < fuel
      → prefetch disk fuel rows owned e ≡ some (r, e')
      → Reaches w_file s_file e'
  gathered :
      {e' : Engram} (e : Engram) (disk : Disk) (limit fuel : ℕ) (rows owned : List Value)
      (out : Output) (r : Result Output)
      → Reaches w_file s_file e
      → Honest w_file s_file limit disk
      → limit + dim < fuel
      → gather_into disk fuel rows owned out e ≡ some (r, e')
      → Reaches w_file s_file e'
  shut : (e : Engram) → Reaches w_file s_file e → Reaches w_file s_file (close e).1

abbrev started_with : Layout → Engram
started_with l = record { layout = l; cache = []; pending = none; closed = false; stats = no_stats }

ok-injective : (a b : Engram) → ok a ≡ ok b → a ≡ b
ok-injective a b h = ap (λ r. elim r [ ok x ↦ x | raise e ↦ a ]) h

close-Valid :
    (w_file s_file : Bytes) (e : Engram) → Valid w_file s_file e → Valid w_file s_file (close e).1
unfolding close
close-Valid w_file s_file e v =
    if-both (λ (o : Outcome (Unit {0})). Valid w_file s_file o.1) e.closed _ _ v
      (record {
        inside = v.inside;
        sound = tt;
        positive = v.positive;
        within = omega arith;
        peak = v.peak;
        brought = tt;
      })

sized-Valid :
    (w_file s_file : Bytes) (l : Layout) (e : Engram)
    → 0 < l.capacity
    → sized l (length w_file) (length s_file) ≡ ok e
    → Valid w_file s_file e
sized-Valid w_file s_file l e p h =
    elim (Bool-cases (ltb (length w_file) (l.w_offset + l.rows * dim))) [
      | inl t ↦ absurd (ground arith)
      | inr f ↦ elim (Bool-cases (ltb (length s_file) (l.s_offset + l.rows * scale_bytes))) [
        | inl t ↦ absurd (ground arith)
        | inr g ↦
            let same : ok (started_with l) ≡ ok e = rw (sym h, f, g) refl in
            subst (Valid w_file s_file) (ok-injective (started_with l) e same) (record {
              inside = record { weights = ground arith; scales = ground arith };
              sound = tt;
              positive = p;
              within = omega arith;
              peak = omega arith;
              brought = tt;
            })
      ]
    ]

bounded-le : (low high n : ℕ) (v : Value) → bounded low high v ≡ some n → low ≤ n
bounded-le low high n (int_value (pos m)) h = elim (Bool-cases (leb low m)) [
  | inl t ↦ elim (Bool-cases (leb m high)) [
    | inl u ↦ let same : m ≡ n = ground arith in ground arith
    | inr f ↦ absurd (ground arith)
  ]
  | inr f ↦ absurd (ground arith)
]
bounded-le low high n (int_value (negsuc m)) h = absurd (ground arith)
bounded-le low high n none_value h = absurd (ground arith)
bounded-le low high n other_value h = absurd (ground arith)
bounded-le low high n (bool_value b) h = absurd (ground arith)
bounded-le low high n (str_value t) h = absurd (ground arith)

laid_out-Valid :
    (w_file s_file : Bytes) (w s rows : ℤ) (width scales capacity : ℕ) (e : Engram)
    → 0 < capacity
    → laid_out w s rows width scales capacity (length w_file) (length s_file) ≡ ok e
    → Valid w_file s_file e
laid_out-Valid w_file s_file (pos w) (pos s) (pos (suc n)) width scales capacity e p h =
    elim (Bool-cases (width == dim && scales == scale_bytes)) [
      | inr f ↦ absurd (ground arith)
      | inl t ↦
          let l : Layout = record {
            w_offset = w;
            s_offset = s;
            rows = suc n;
            capacity = capacity;
          } in
          sized-Valid w_file s_file l e p (rw (sym h, t) refl)
    ]
laid_out-Valid w_file s_file (pos w) (pos s) (pos zero) width scales capacity e p h =
    absurd (ground arith)
laid_out-Valid w_file s_file (pos w) (pos s) (negsuc n) width scales capacity e p h =
    absurd (ground arith)
laid_out-Valid w_file s_file (pos w) (negsuc s) rows width scales capacity e p h =
    absurd (ground arith)
laid_out-Valid w_file s_file (negsuc w) s rows width scales capacity e p h = absurd (ground arith)

init-Valid :
    (w_file s_file : Bytes) (w s rows : ℤ) (width scales : ℕ) (capacity_rows workers : Value)
    (e : Engram)
    → init w s rows width scales capacity_rows workers (length w_file) (length s_file) ≡ ok e
    → Valid w_file s_file e
unfolding init
init-Valid w_file s_file w s rows width scales capacity_rows workers e h =
    elim (Option-cases (bounded 1 max_rows capacity_rows)) [
      | inl n ↦ absurd (ground arith)
      | inr (capacity, n) ↦ elim (Option-cases (bounded 1 4 workers)) [
        | inl m ↦ absurd (ground arith)
        | inr (count, m) ↦
            let below = bounded-le 1 max_rows capacity capacity_rows n in
            laid_out-Valid w_file s_file w s rows width scales capacity e (omega (arith, below))
              (rw (sym h, init, n, m) refl)
      ]
    ]

abbrev object_of : {A : Type 0} → Engram → Option (Outcome A) → Engram
object_of e none = e
object_of e (some o) = o.1

-- the object of an outcome that two calls agree on
same_object :
    {A : Type 0} (P : Engram → Type 0) (o : Option (Outcome A)) (a b : Outcome A)
    → o ≡ some a
    → o ≡ some b
    → P a.1
    → P b.1
same_object P o a b h k p = subst (λ x. P (object_of a.1 x)) (sym h ∙ k) p

-- Whatever calls are made, in whatever order and with whatever arguments, while the calls of the
-- disk read what the files hold and signals cease: the object that the constructor accepts stays
-- valid. Its tables lie in their files, every cached row is the table's, no more rows are cached
-- than the capacity, and a pending prefetch that succeeded has the tables' rows of its request.
pub Reaches-Valid :
    (w_file s_file : Bytes) (e : Engram) → Reaches w_file s_file e → Valid w_file s_file e
Reaches-Valid w_file s_file e (started w s rows width scales capacity_rows workers h) =
    init-Valid w_file s_file w s rows width scales capacity_rows workers e h
Reaches-Valid w_file s_file e' (prefetched e disk limit fuel rows owned r reach honest enough ran) =
    let (o, ran', v) =
      prefetch-Valid w_file s_file disk limit honest fuel enough rows owned e
        (Reaches-Valid w_file s_file e reach) in
    same_object (Valid w_file s_file) (prefetch disk fuel rows owned e) o (r, e') ran' ran v
Reaches-Valid w_file s_file e'
      (gathered e disk limit fuel rows owned out r reach honest enough ran) =
    let (o, ran', v, g) =
      gather_into-Gathered w_file s_file disk limit honest fuel enough rows owned out e
        (Reaches-Valid w_file s_file e reach) in
    same_object (Valid w_file s_file) (gather_into disk fuel rows owned out e) o (r, e') ran' ran v
Reaches-Valid w_file s_file e' (shut e reach) =
    close-Valid w_file s_file e (Reaches-Valid w_file s_file e reach)
