-- ===== src/Process/Spawn/Ends.antt =====
-- io.cpp: the ends of the pipes that a parent holds after a spawn.
use kyte.Process.System.{System, ◌>>◌, holds, close_fd}
use kyte.Process.Child.{Pipes}
use kyte.Process.Spawn.{Answers, open_pipes, close_pipes}
use kyte.Prelude.{
  ℕ, ◌≡◌, refl, Bool, true, not, ◌&&◌, Option, none, some, List, [], ◌∷◌, ◌++◌, arith,
}

abbrev pub all_distinct : List ℕ → Bool
all_distinct [] = true
all_distinct (x ∷ xs) = not (holds x xs) && all_distinct xs

-- The kernel gives descriptors that differ from each other.
abbrev pub AreNew : Option (ℕ × ℕ) → Option (ℕ × ℕ) → Type 0
AreNew none out = Unit
AreNew (some (a, b)) none = all_distinct (a ∷ b ∷ []) ≡ true
AreNew (some (a, b)) (some (c, d)) = all_distinct (c ∷ d ∷ a ∷ b ∷ []) ≡ true

abbrev pub ends : Pipes → List ℕ
ends p = p.out_read ∷ p.out_write ∷ p.in_read ∷ p.in_write ∷ []

-- What the parent has once both pipes are open, or once one could not be opened.
abbrev pub after_pipes : Option Pipes → System → System
after_pipes none s = s
after_pipes (some p) s = record s { fds = ends p ++ s.fds }

abbrev pub HasNewEnds : Option Pipes → Type 0
HasNewEnds none = Unit
HasNewEnds (some p) = all_distinct (ends p) ≡ true

pub open_pipes-after :
    (k : Answers) (s : System)
    → AreNew k.in_pipe k.out_pipe
    → (opened : Option Pipes) × (open_pipes k s ≡ (opened, after_pipes opened s))
      × HasNewEnds opened
unfolding open_pipes
open_pipes-after k s new = split k.in_pipe k.out_pipe new
  where
    split :
        (i o : Option (ℕ × ℕ))
        → AreNew i o
        → (opened : Option Pipes) × (open_pipes (record k { in_pipe = i; out_pipe = o }) s
            ≡ (opened, after_pipes opened s))
          × HasNewEnds opened
    split none o new = (none, refl, tt)
    split (some (a, b)) none new = (none, ground arith, tt)
    split (some (a, b)) (some (c, d)) new =
        (some (record { in_read = a; in_write = b; out_read = c; out_write = d }), refl, new)

pub close_pipes-ends :
    (p : Pipes) (rest : List ℕ) (s : System)
    → all_distinct (ends p) ≡ true
    → s.fds ≡ ends p ++ rest
    → close_pipes p s ≡ (tt, record s { fds = rest })
unfolding close_pipes
close_pipes-ends p rest s new e = ground arith

pub kept_ends :
    (p : Pipes) (rest : List ℕ) (s : System)
    → all_distinct (ends p) ≡ true
    → s.fds ≡ ends p ++ rest
    → (close_fd p.in_read >> close_fd p.out_write) s
      ≡ (tt, record s { fds = p.out_read ∷ p.in_write ∷ rest })
kept_ends p rest s new e = ground arith
