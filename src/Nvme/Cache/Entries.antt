-- ===== src/Nvme/Cache/Entries.antt =====
-- The list of entries of the cache, under a deletion, an update and an assignment.
use vllm_exl.Prelude.{
  ℕ, suc, ◌+◌, ◌≡◌, refl, ap, false, none, some, List, [], ◌∷◌, ◌++◌, map, sum, ltb, if◌then◌else◌,
  length, arith, Bool-cases, inl, inr,
}
use vllm_exl.Nvme.Cache.Defs.{Key, key_eq, Entry, find, delete, put, update, cleared}

-- the entries with users, in order
abbrev pub leased : List Entry → List Entry
leased [] = []
leased (e ∷ es) = if ltb 0 e.users then e ∷ leased es else leased es

abbrev pub bytes_of : List Entry → ℕ
bytes_of es = sum (map (λ e. e.size) es)

-- deleting an entry without users
pub delete_lem :
    (k : Key) (es : List Entry) (e : Entry)
    → find k es ≡ some e
    → ltb 0 e.users ≡ false
    → (leased (delete k es) ≡ leased es)
      × (bytes_of (delete k es) + e.size ≡ bytes_of es)
      × (suc (length (delete k es)) ≡ length es)
unfolding find delete
delete_lem k [] e h u = absurd (ground arith)
delete_lem k (d ∷ es) e h u = elim (Bool-cases (key_eq k d.key)) [
  | inl t ↦
      let same : d ≡ e = ground arith in
      let none_on : ltb 0 d.users ≡ false = rw same u in
      let size : d.size ≡ e.size = ap (λ x. x.size) same in
      rw t (rw none_on refl, omega arith, refl)
  | inr f ↦
      let there : find k es ≡ some e = ground arith in
      let (a, b, c) = delete_lem k es e there u in rw f (rw a refl, omega arith, ap suc c)
]

-- clearing the events of an entry without users
pub update_lem :
    (k : Key) (es : List Entry) (e : Entry)
    → find k es ≡ some e
    → ltb 0 e.users ≡ false
    → (leased (update k cleared es) ≡ leased es) × (bytes_of (update k cleared es) ≡ bytes_of es)
unfolding find update
update_lem k [] e h u = absurd (ground arith)
update_lem k (d ∷ es) e h u = elim (Bool-cases (key_eq k d.key)) [
  | inl t ↦
      let same : d ≡ e = ground arith in
      let none_on : ltb 0 d.users ≡ false = rw same u in rw t (rw none_on refl, refl)
  | inr f ↦
      let there : find k es ≡ some e = ground arith in
      let (a, b) = update_lem k es e there u in rw f (rw a refl, omega arith)
]

-- a key without an entry still has none after a deletion
pub find-delete : (j k : Key) (es : List Entry) → find j es ≡ none → find j (delete k es) ≡ none
unfolding find delete
find-delete j k [] h = refl
find-delete j k (d ∷ es) h = elim (Bool-cases (key_eq j d.key)) [
  | inl t ↦ absurd (ground arith)
  | inr f ↦
      let later : find j es ≡ none = ground arith in
      elim (Bool-cases (key_eq k d.key)) [
        | inl t ↦ rw t later
        | inr g ↦ rw (g, f) (find-delete j k es later)
      ]
]

pub find-update :
    (j k : Key) (es : List Entry) → find j es ≡ none → find j (update k cleared es) ≡ none
unfolding find update
find-update j k [] h = refl
find-update j k (d ∷ es) h = elim (Bool-cases (key_eq j d.key)) [
  | inl t ↦ absurd (ground arith)
  | inr f ↦
      let later : find j es ≡ none = ground arith in
      elim (Bool-cases (key_eq k d.key)) [
        | inl t ↦ rw (t, f) later
        | inr g ↦ rw (g, f) (find-update j k es later)
      ]
]

-- an entry of a key without one goes to the end
pub put_fresh : (e : Entry) (es : List Entry) → find e.key es ≡ none → put e es ≡ es ++ e ∷ []
unfolding find put
put_fresh e [] h = refl
put_fresh e (d ∷ es) h = elim (Bool-cases (key_eq e.key d.key)) [
  | inl t ↦ absurd (ground arith)
  | inr f ↦
      let later : find e.key es ≡ none = ground arith in
      rw f (ap (λ xs. d ∷ xs) (put_fresh e es later))
]
