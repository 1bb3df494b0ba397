-- ===== src/Sysv/Msg/Chain.antt =====
-- The messages of a queue as a list of addresses (src/kernel/ipc/sysv_ipc.c).
use cosmo_rt.Common.{
  ℕ, ◌+◌, ◌≡◌, ◌≢◌, refl, sym, true, Option, none, some, List, [], ◌∷◌, ◌++◌, map, length, arith,
}
use cosmo_rt.Sysv.Msg.{Message, Queues, set_next}

-- From `p` the links lead through the messages of the list and end.
abbrev pub Chain : (ℕ → Option ℕ) → Option ℕ → List ℕ → Type 0
Chain next p [] = p ≡ none
Chain next p (x ∷ xs) = (p ≡ some x) × Chain next (next x) xs

abbrev pub Absent : ℕ → List ℕ → Type 0
Absent a [] = Unit
Absent a (x ∷ xs) = (a ≢ x) × Absent a xs

abbrev pub Distinct : List ℕ → Type 0
Distinct [] = Unit
Distinct (x ∷ xs) = Absent x xs × Distinct xs

abbrev pub last_or : Option ℕ → List ℕ → Option ℕ
last_or d [] = d
last_or d (x ∷ xs) = last_or (some x) xs

abbrev pub total : (ℕ → Message) → List ℕ → ℕ
total message [] = 0
total message (x ∷ xs) = (message x).size + total message xs

-- The queue `i` has the messages of the list: the links lead through them, the tail is the last, and
-- the counts are theirs.
pub record IsQueue (s : Queues) (i : ℕ) (ms : List ℕ) : Type 0 where
  pub used_ : (s.table i).used ≡ true
  pub chain : Chain s.next (s.table i).head ms
  pub distinct : Distinct ms
  pub last : (s.table i).tail ≡ last_or none ms
  pub counted : (s.table i).qnum ≡ length ms
  pub summed : (s.table i).cbytes ≡ total s.message ms

-- What the messages of the list are.
abbrev pub contents : Queues → List ℕ → List Message
contents s ms = map s.message ms

pub Absent-append : (a : ℕ) (xs ys : List ℕ) → Absent a xs → Absent a ys → Absent a (xs ++ ys)
Absent-append a [] ys p q = q
Absent-append a (x ∷ xs) ys p q = (p.0, Absent-append a xs ys p.1 q)

pub Absent-split : (a : ℕ) (xs ys : List ℕ) → Absent a (xs ++ ys) → Absent a xs × Absent a ys
Absent-split a [] ys p = (tt, p)
Absent-split a (x ∷ xs) ys p = ((p.0, (Absent-split a xs ys p.1).0), (Absent-split a xs ys p.1).1)

pub last_or-append :
    (d : Option ℕ) (xs ys : List ℕ) → last_or d (xs ++ ys) ≡ last_or (last_or d xs) ys
last_or-append d [] ys = refl
last_or-append d (x ∷ xs) ys = last_or-append (some x) xs ys

-- The last of a list that is not empty.
abbrev pub last_of : ℕ → List ℕ → ℕ
last_of x [] = x
last_of x (y ∷ ys) = last_of y ys

pub last_or-last_of : (x : ℕ) (xs : List ℕ) → last_or (some x) xs ≡ some (last_of x xs)
last_or-last_of x [] = refl
last_or-last_of x (y ∷ ys) = last_or-last_of y ys

pub last_of-ne : (a x : ℕ) (xs : List ℕ) → a ≢ x → Absent a xs → a ≢ last_of x xs
last_of-ne a x [] n p = n
last_of-ne a x (y ∷ ys) n p = last_of-ne a y ys p.0 p.1

set_next-other :
    (a b : ℕ) (v : Option ℕ) (next : ℕ → Option ℕ) → a ≢ b → set_next a v next b ≡ next b
set_next-other a b v next n = ground arith

set_next_self : (a : ℕ) (v : Option ℕ) (next : ℕ → Option ℕ) → set_next a v next a ≡ v
set_next_self a v next = ground arith

-- A link outside the list does not matter to it.
pub Chain-set_next :
    (next : ℕ → Option ℕ) (a : ℕ) (v p : Option ℕ) (xs : List ℕ)
    → Absent a xs
    → Chain next p xs
    → Chain (set_next a v next) p xs
Chain-set_next next a v p [] n c = c
Chain-set_next next a v p (x ∷ xs) n c =
    (c.0, rw (set_next-other a x v next n.0) (Chain-set_next next a v (next x) xs n.1 c.1))

-- A store to the link of the last message of the first part leads on through the second part.
pub Chain-join :
    (next : ℕ → Option ℕ) (x : ℕ) (xs ys zs : List ℕ) (v : Option ℕ)
    → Distinct (x ∷ xs)
    → Absent (last_of x xs) ys
    → Chain next (next x) (xs ++ zs)
    → Chain next v ys
    → let next' = set_next (last_of x xs) v next in Chain next' (next' x) (xs ++ ys)
Chain-join next x [] ys zs v d a c e =
    rw (set_next_self x v next) (Chain-set_next next x v v ys a e)
Chain-join next x (y ∷ xs) ys zs v d a c e =
    let other = last_of-ne x y xs d.0.0 d.0.1 in
    let kept = set_next-other (last_of y xs) x v next (λ q. other (sym q)) in
    rw kept (c.0, Chain-join next y xs ys zs v d.1 a c.1 e)
