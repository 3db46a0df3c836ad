-- ===== src/Nvme/Cache/Partition.antt =====
-- The arenas of a new cache partition its capacity.
use vllm_exl.Prelude.{
  ℕ, ◌+◌, ◌%◌, not, ◌≤◌, ◌≡◌, refl, sym, ◌∙◌, ap, ◌==◌, Bool, true, false, ◌||◌, Option, none, some,
  List, [], ◌∷◌, Result, ok, raise, value_error, runtime_error, raise_if, ◌>>◌, ◌>>=◌, arith,
  Bool-cases, Option-cases, inl, inr, All, map, sum, max, if◌then◌else◌, bind-ok, raise_if-ok,
}
use vllm_exl.Nvme.Regions.Defs.{Block, Regions, align, init, pair_leb, insert_sorted, sort}
use vllm_exl.Nvme.Regions.Laws.{init-IsValid}
use vllm_exl.Nvme.Regions.Validity.{IsValid}
use vllm_exl.Nvme.Cache.Defs.{Key, Cache}
use vllm_exl.Nvme.Cache.Leases.{Accounted}
use vllm_exl.Nvme.Cache.Opening.{
  HostMemory, Records, Quotas, layers_of, chosen_quotas, largest, check_largest, widest,
  open_regions, empty_cache, too_small, not_partition, open_cache,
}

-- a record of the layer has at most `size` bytes
abbrev pub Fits : ℕ → ℕ → Key × ℕ → Type 0
Fits layer size (k, bytes) = k.0 ≡ layer → bytes ≤ size

-- The arenas stand one after another from `base` to `end`, each valid on the bytes of its quota,
-- with no block allocated, and each record fits the arena of its layer.
abbrev pub Laid : Records → ℕ → ℕ → Quotas → List (ℕ × Regions) → Type 0
Laid records end base [] [] = base ≡ end
Laid records end base [] (r ∷ rs) = ⊥
Laid records end base (q ∷ qs) [] = ⊥
Laid records end base ((layer, size) ∷ qs) ((l, r) ∷ rs) =
    (l ≡ layer)
    × IsValid base size r
    × (r.allocated ≡ [])
    × All (Fits layer size) records
    × Laid records end (base + size) qs rs

abbrev pub total : Quotas → ℕ
total qs = sum (map (λ q. q.1) qs)

total-insert_sorted : (q : Block) (qs : Quotas) → total (insert_sorted q qs) ≡ q.1 + total qs
unfolding insert_sorted
total-insert_sorted q [] = refl
total-insert_sorted q (p ∷ qs) = elim (Bool-cases (pair_leb q p)) [
  | inl t ↦ rw t refl
  | inr f ↦ let rest = total-insert_sorted q qs in rw (f, rest) (omega arith)
]

total-sort : (qs : Quotas) → total (sort qs) ≡ total qs
unfolding sort
total-sort [] = refl
total-sort (q ∷ qs) = total-insert_sorted q (sort qs) ∙ ap (λ n. q.1 + n) (total-sort qs)

-- `n` is not passed by what was found
abbrev Below : ℕ → Option ℕ → Type 0
Below n none = Unit
Below n (some m) = m ≤ n

pub largest-Fits :
    (layer size : ℕ) (records : Records)
    → Below size (largest layer records)
    → All (Fits layer size) records
unfolding largest
largest-Fits layer size [] h = tt
largest-Fits layer size ((k, bytes) ∷ records) h = elim (Bool-cases (k.0 == layer)) [
  | inl t ↦ elim (Option-cases (largest layer records)) [
    | inl m ↦ (λ e. ground arith, largest-Fits layer size records (rw m tt))
    | inr (n, m) ↦
        let both : max bytes n ≤ size = fitted _ _ (rw (largest, t, m) refl) h in
        (λ e. omega (arith, both), largest-Fits layer size records (rw m (omega (arith, both))))
  ]
  | inr f ↦ (λ e. absurd (ground arith), largest-Fits layer size records (skipped _ _ f h))
]
  where
    fitted : (o : Option ℕ) (n : ℕ) → o ≡ some n → Below size o → n ≤ size
    fitted none n e h = absurd (ground arith)
    fitted (some m) n e h = ground arith

    skipped :
        (o : Option ℕ) (b : Bool)
        → b ≡ false
        → Below size (if b then widest bytes o else o)
        → Below size o
    skipped o false f h = h
    skipped o true f h = absurd (ground arith)

pub check_largest-Below :
    (size : ℕ) (o : Option ℕ) (u : Unit {0}) → check_largest size o ≡ ok u → Below size o
check_largest-Below size none u h = tt
check_largest-Below size (some n) u h = ground arith

-- a round of the loop that returned went through its steps
module _ (layer : ℕ) where
  pub round_ok :
      (a : Result Regions) (b : Result (Unit {0})) (c : Result (List (ℕ × Regions)))
      (rs : List (ℕ × Regions))
      → (a >>= λ r. b >> (c >>= λ rest. ok ((layer, r) ∷ rest))) ≡ ok rs
      → (r : Regions) × (rest : List (ℕ × Regions)) × (a ≡ ok r)
        × (b ≡ ok tt)
        × (c ≡ ok rest)
        × ((layer, r) ∷ rest ≡ rs)
  round_ok (raise e) b c rs h = absurd (ground arith)
  round_ok (ok r) (raise e) c rs h = absurd (ground arith)
  round_ok (ok r) (ok u) (raise e) rs h = absurd (ground arith)
  round_ok (ok r) (ok u) (ok rest) rs h = (r, rest, refl, refl, refl, ground arith)

init-allocated : (size base : ℕ) (r : Regions) → init size base ≡ ok r → r.allocated ≡ []
unfolding init
init-allocated size base r h = ground arith

open_regions-Laid :
    (records : Records) (end base : ℕ) (qs : Quotas) (rs : List (ℕ × Regions))
    → open_regions records base qs ≡ ok rs
    → base + total qs ≡ end
    → Laid records end base qs rs
unfolding open_regions
open_regions-Laid records end base [] rs h e =
    let empty : [] ≡ rs = ground arith in rw (sym empty) (omega arith)
open_regions-Laid records end base ((layer, size) ∷ qs) rs h e =
    let (r, rest, made, fits, opened, same) =
      round_ok layer (init size base) (check_largest size (largest layer records))
        (open_regions records (base + size) qs) rs h in
    let found = check_largest-Below size (largest layer records) tt fits in
    rw (sym same) (
      refl,
      init-IsValid size base r made,
      init-allocated size base r made,
      largest-Fits layer size records found,
      open_regions-Laid records end (base + size) qs rest opened (omega arith),
    )

chosen_total :
    (capacity : ℕ) (layers : List ℕ) (qs : Quotas)
    → not_partition capacity layers qs ≡ false
    → total qs ≡ capacity
chosen_total capacity layers qs h = ground arith

sorted_end : (capacity : ℕ) (qs : Quotas) → total qs ≡ capacity → 0 + total (sort qs) ≡ capacity
sorted_end capacity qs h = omega (arith, total-sort qs)

-- a constructor that returned went through each of its steps
pub open_cache-ran :
    (m : HostMemory) (records : Records) (capacity : ℕ) (layer_quotas : Option Quotas) (reserve : ℕ)
    (c : Cache)
    → open_cache m records capacity layer_quotas reserve ≡ ok c
    → (too_small m capacity reserve ≡ false)
      × ((qs : Quotas) × (chosen_quotas capacity (layers_of records) layer_quotas ≡ ok qs)
          × (not_partition capacity (layers_of records) qs ≡ false)
          × ((rs : List (ℕ × Regions)) × (open_regions records 0 (sort qs) ≡ ok rs)
              × (empty_cache rs ≡ c)))
unfolding open_cache
open_cache-ran m records capacity layer_quotas reserve c h =
    let layers = layers_of records in
    let (sized, h1) =
      raise_if-ok (capacity == 0 || not (capacity % align == 0)) value_error _ c h in
    let (room, h2) = raise_if-ok (too_small m capacity reserve) runtime_error _ c h1 in
    let (qs, chosen, h3) =
      bind-ok (chosen_quotas capacity layers layer_quotas) (opened layers) c h2 in
    let (partition, h4) =
      raise_if-ok (not_partition capacity layers qs) value_error (filled qs) c h3 in
    let (rs, ran, same) =
      bind-ok (open_regions records 0 (sort qs)) (λ rs. ok (empty_cache rs)) c h4 in
    (room, (qs, chosen, partition, (rs, ran, ground arith)))
  where
    filled : Quotas → Result Cache
    filled qs = open_regions records 0 (sort qs) >>= λ rs. ok (empty_cache rs)

    opened : List ℕ → Quotas → Result Cache
    opened layers qs = raise_if (not_partition capacity layers qs) value_error >> filled qs

-- A cache is opened only on a host whose swap is unused and whose available memory covers the
-- capacity, the reserve and 2 GiB. It then has, for the quotas that were given, or for the one layer
-- of the store, an arena each, in the order of the sorted quotas: the arenas stand one after another
-- from address 0 to the capacity, each is valid and has no block allocated, and each record of the
-- store that is of the layer of an arena fits that arena. The resident bytes are those of the entries.
pub open_cache-Laid :
    (m : HostMemory) (records : Records) (capacity : ℕ) (layer_quotas : Option Quotas) (reserve : ℕ)
    (c : Cache)
    → open_cache m records capacity layer_quotas reserve ≡ ok c
    → (too_small m capacity reserve ≡ false)
      × Accounted c
      × ((qs : Quotas) × (chosen_quotas capacity (layers_of records) layer_quotas ≡ ok qs)
          × Laid records capacity 0 (sort qs) c.regions)
open_cache-Laid m records capacity layer_quotas reserve c h =
    let (room, (qs, chosen, partition, (rs, ran, new))) =
      open_cache-ran m records capacity layer_quotas reserve c h in
    let end = sorted_end capacity qs (chosen_total capacity (layers_of records) qs partition) in
    rw (sym new)
      (room, refl, (qs, chosen, open_regions-Laid records capacity 0 (sort qs) rs ran end))
