-- ===== src/Nvme/Async/Tickets.antt =====
-- The list of tickets under the operations of Defs.
use vllm_exl.Prelude.{
  ℕ, suc, ◌≤◌, ◌≡◌, refl, ap, ◌∙◌, sym, ◌==◌, Bool, true, false, ◌||◌, some, List, [], ◌∷◌, ◌++◌,
  length, All, arith, Bool-cases, Option-cases, inl, inr,
}
use vllm_exl.Nvme.Async.Defs.{Ticket, find, has, pop, mark, victim}

-- no key twice
abbrev pub Unique : List Ticket → Type 0
Unique [] = Unit
Unique (t ∷ ts) = (has t.key ts ≡ false) × Unique ts

-- tickets of keys in the records
abbrev pub Known : (ℕ → Bool) → List Ticket → Type 0
Known known ts = All (λ t. known t.key ≡ true) ts

pub length-pop : (k : ℕ) (ts : List Ticket) → length (pop k ts) ≤ length ts
unfolding pop
length-pop k [] = omega arith
length-pop k (t ∷ ts) = elim (Bool-cases (k == t.key)) [
  | inl e ↦ rw e (omega arith)
  | inr e ↦ rw e (omega (arith, length-pop k ts))
]

pub length-mark : (b : Bool) (k : ℕ) (ts : List Ticket) → length (mark b k ts) ≡ length ts
unfolding mark
length-mark b k [] = refl
length-mark b k (t ∷ ts) = elim (Bool-cases (k == t.key)) [
  | inl e ↦ rw e refl
  | inr e ↦ rw e (ap suc (length-mark b k ts))
]

has-pop : (j k : ℕ) (ts : List Ticket) → has j ts ≡ false → has j (pop k ts) ≡ false
unfolding has pop
has-pop j k [] h = refl
has-pop j k (t ∷ ts) h = elim (Bool-cases (k == t.key)) [
  | inl e ↦ let rest : has j ts ≡ false = ground arith in rw e rest
  | inr e ↦
      let rest : has j ts ≡ false = ground arith in
      let front : (j == t.key) ≡ false = ground arith in rw e (rw front (has-pop j k ts rest))
]

has-mark : (b : Bool) (j k : ℕ) (ts : List Ticket) → has j (mark b k ts) ≡ has j ts
unfolding has mark
has-mark b j k [] = refl
has-mark b j k (t ∷ ts) = elim (Bool-cases (k == t.key)) [
  | inl e ↦ rw e refl
  | inr e ↦ rw e (ap (λ x. (j == t.key) || x) (has-mark b j k ts))
]

pub has-append : (j : ℕ) (ts us : List Ticket) → has j (ts ++ us) ≡ (has j ts || has j us)
unfolding has
has-append j [] us = refl
has-append j (t ∷ ts) us = elim (Bool-cases (j == t.key)) [
  | inl e ↦ rw e refl
  | inr e ↦ rw e (has-append j ts us)
]

pub pop-Unique : (k : ℕ) (ts : List Ticket) → Unique ts → Unique (pop k ts)
unfolding pop
pop-Unique k [] h = tt
pop-Unique k (t ∷ ts) h = elim (Bool-cases (k == t.key)) [
  | inl e ↦ rw e h.1
  | inr e ↦ rw e (has-pop t.key k ts h.0, pop-Unique k ts h.1)
]

pub mark-Unique : (b : Bool) (k : ℕ) (ts : List Ticket) → Unique ts → Unique (mark b k ts)
unfolding mark
mark-Unique b k [] h = tt
mark-Unique b k (t ∷ ts) h = elim (Bool-cases (k == t.key)) [
  | inl e ↦ rw e (h.0, h.1)
  | inr e ↦ rw e (has-mark b t.key k ts ∙ h.0, mark-Unique b k ts h.1)
]

pub append-Unique :
    (t : Ticket) (ts : List Ticket) → Unique ts → has t.key ts ≡ false → Unique (ts ++ t ∷ [])
unfolding has
append-Unique t [] h n = (refl, tt)
append-Unique t (u ∷ ts) h n =
    let rest : has t.key ts ≡ false = ground arith in
    let other : (u.key == t.key) ≡ false = ground arith in
    (has-append u.key ts (t ∷ []) ∙ rw (h.0, other) refl, append-Unique t ts h.1 rest)

pub pop-Known :
    (known : ℕ → Bool) (k : ℕ) (ts : List Ticket) → Known known ts → Known known (pop k ts)
unfolding pop
pop-Known known k [] h = tt
pop-Known known k (t ∷ ts) h = elim (Bool-cases (k == t.key)) [
  | inl e ↦ rw e h.1
  | inr e ↦ rw e (h.0, pop-Known known k ts h.1)
]

pub mark-Known :
    (known : ℕ → Bool) (b : Bool) (k : ℕ) (ts : List Ticket)
    → Known known ts
    → Known known (mark b k ts)
unfolding mark
mark-Known known b k [] h = tt
mark-Known known b k (t ∷ ts) h = elim (Bool-cases (k == t.key)) [
  | inl e ↦ rw e (h.0, h.1)
  | inr e ↦ rw e (h.0, mark-Known known b k ts h.1)
]

pub find-append :
    (k : ℕ) (ts us : List Ticket) (t : Ticket) → find k ts ≡ some t → find k (ts ++ us) ≡ some t
unfolding find
find-append k [] us t h = absurd (ground arith)
find-append k (u ∷ ts) us t h = elim (Bool-cases (k == u.key)) [
  | inl e ↦ let same : u ≡ t = ground arith in rw e (ap some same)
  | inr e ↦ let rest : find k ts ≡ some t = ground arith in rw e (find-append k ts us t rest)
]

pub find-new :
    (k : ℕ) (ts : List Ticket) (b : Bool)
    → has k ts ≡ false
    → find k (ts ++ record { key = k; claimed = b } ∷ []) ≡ some (record { key = k; claimed = b })
unfolding find has
find-new k [] b h = let own : (k == k) ≡ true = ground arith in rw own refl
find-new k (t ∷ ts) b h =
    let rest : has k ts ≡ false = ground arith in
    let front : (k == t.key) ≡ false = ground arith in rw front (find-new k ts b rest)

pub find-pop : (j k : ℕ) (ts : List Ticket) → (j == k) ≡ false → find j (pop k ts) ≡ find j ts
unfolding find pop
find-pop j k [] h = refl
find-pop j k (t ∷ ts) h = elim (Bool-cases (k == t.key)) [
  | inl e ↦ let other : (j == t.key) ≡ false = ground arith in rw (e, other) refl
  | inr e ↦ elim (Bool-cases (j == t.key)) [
    | inl f ↦ rw (e, f) refl
    | inr f ↦ rw (e, f) (find-pop j k ts h)
  ]
]

pub find-mark :
    (b : Bool) (j k : ℕ) (ts : List Ticket) → (j == k) ≡ false → find j (mark b k ts) ≡ find j ts
unfolding find mark
find-mark b j k [] h = refl
find-mark b j k (t ∷ ts) h = elim (Bool-cases (k == t.key)) [
  | inl e ↦ let other : (j == t.key) ≡ false = ground arith in rw (e, other) refl
  | inr e ↦ elim (Bool-cases (j == t.key)) [
    | inl f ↦ rw (e, f) refl
    | inr f ↦ rw (e, f) (find-mark b j k ts h)
  ]
]

pub victim-Known :
    (known : ℕ → Bool) (ts : List Ticket) (k : ℕ)
    → Known known ts
    → victim ts ≡ some k
    → known k ≡ true
unfolding victim
victim-Known known [] k h m = absurd (ground arith)
victim-Known known (t ∷ ts) k h m = elim (Option-cases (victim ts)) [
  | inr (j, n) ↦
      let there : victim ts ≡ some k = sym (rw (victim, n) refl) ∙ m in
      victim-Known known ts k h.1 there
  | inl n ↦ elim (Bool-cases t.claimed) [
    | inl c ↦ absurd (ground arith)
    | inr c ↦ let same : t.key ≡ k = ground arith in rw (sym same) h.0
  ]
]
